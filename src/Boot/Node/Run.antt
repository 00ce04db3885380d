-- ===== src/Boot/Node/Run.antt =====
-- Runs of the whole bootloader against the runs of its server.
use obd_simulator.Prelude.{
  ℕ, zero, suc, ◌≡◌, ◌≢◌, ◌≤◌, List, [], ◌∷◌, ◌++◌, Bool, length, arith, refl, sym, ap, ◌∙◌, subst,
  Option, none, some, AreBytes,
}
use obd_simulator.Can.{addr_ignore, classify}
use obd_simulator.Can.Ring.{RxMessage, Ring, pop}
use obd_simulator.Flash.{FlashPorts}
use obd_simulator.IsoTp.Context.{Ports, World, max_message_size}
use obd_simulator.IsoTp.Receive.{process_frame}
use obd_simulator.IsoTp.Tick.{tick}
use obd_simulator.IsoTp.Service.{Services, send_response-Apart, tick-Apart}
use obd_simulator.IsoTp.Service.Feed.{HoldsBytes, untouched, served}
use obd_simulator.IsoTp.Service.Once.{process_frame-Handled}
use obd_simulator.Boot.Server.{Server}
use obd_simulator.Boot.Server.Dispatch.{dispatch_request, main_round}
use obd_simulator.Boot.Server.Keys.{Event, request, round, handle_event, run}
use obd_simulator.Boot.Node.Messages.{AreMessages, pop-AreMessages}
use obd_simulator.Boot.Node.{Node, node_ports, send_outbox, serve, drain, end_round, loop_round}

-- Bytes in the receive buffer of the transport and in the receive ring.
pub record IsNode {F D : Type 0} (w : World (Node F D)) : Type 0 where
  pub buffer : HoldsBytes (w.ctx)
  pub messages : AreMessages (w.env.ring.slots)

-- Every request has at most 512 bytes, of bytes, and an address of this node.
abbrev pub AreHeard : List Event → Type 0
AreHeard [] = Unit {0}
AreHeard (request readings req addr ∷ es) =
    AreBytes req × (length req ≤ max_message_size) × (addr ≢ addr_ignore) × AreHeard es
AreHeard (round readings now prev_session ∷ es) = AreHeard es

pub AreHeard-append : (ds es : List Event) → AreHeard ds → AreHeard es → AreHeard (ds ++ es)
AreHeard-append [] es v w = w
AreHeard-append (request readings req addr ∷ ds) es v w =
    (v.0, v.1, v.2, AreHeard-append ds es v.3 w)
AreHeard-append (round readings now prev_session ∷ ds) es v w = AreHeard-append ds es v w

-- What the inner loop of a round hands to the server: it takes messages from one ring to the other,
-- and each makes up at most one request, which is addressed as the message's identifier says.
pub data Drained (readings : ℕ → ℕ → ℕ) : ℕ → Ring → List Event → Ring → Type 0 where
  stopped : {r : Ring} → Drained readings zero r [] r
  emptied : {fuel : ℕ} {r : Ring} → (pop r).0 ≡ none → Drained readings (suc fuel) r [] r
  unseen :
      {fuel : ℕ} {r r' : Ring} {es : List Event} (m : RxMessage)
      → (pop r).0 ≡ some m
      → Drained readings fuel (pop r).1 es r'
      → Drained readings (suc fuel) r es r'
  asked :
      {fuel : ℕ} {r r' : Ring} {es : List Event} (m : RxMessage) (req : List ℕ)
      → (pop r).0 ≡ some m
      → AreBytes req
      → length req ≤ max_message_size
      → classify m.can_id ≢ addr_ignore
      → Drained readings fuel (pop r).1 es r'
      → Drained readings (suc fuel) r (request (readings fuel) req (classify m.can_id) ∷ es) r'

pub Drained-AreHeard :
    {readings : ℕ → ℕ → ℕ} {fuel : ℕ} {r r' : Ring} {es : List Event}
    → Drained readings fuel r es r'
    → AreHeard es
Drained-AreHeard stopped = tt
Drained-AreHeard (emptied e) = tt
Drained-AreHeard (unseen m e d) = Drained-AreHeard d
Drained-AreHeard (asked m req e bs short known d) = (bs, short, known, Drained-AreHeard d)

module _ {F D : Type 0} (flash : FlashPorts F) (ports : Ports D) where
  -- What the transport does not touch by itself: the server and the ring.
  abbrev kept : Node F D → Server F × Ring
  kept e = (e.server, e.ring)

  no-Services : Services (node_ports {F = F} ports) (λ req addr w. ([], w)) kept (λ req addr v. v)
  no-Services = record {
    get_tick_view = λ e. refl;
    add_message_view = λ f e. refl;
    on_stream_view = λ v e. refl;
    dispatch_view = λ req addr w. refl;
    dispatch_buffer = λ req addr w. refl;
  }

  send_outbox_lem :
      (out : List (ℕ × List ℕ)) (w : World (Node F D))
      → (kept (send_outbox ports out w).env ≡ kept (w.env))
        × ((send_outbox ports out w).ctx.rx_buffer ≡ w.ctx.rx_buffer)
  unfolding send_outbox
  send_outbox_lem [] w = (refl, refl)
  send_outbox_lem ((id, msg) ∷ out) w =
      let sent = send_response-Apart no-Services id msg (send_outbox ports out w) in
      let (same, buffer) = send_outbox_lem out w in
      (sent.same_view ∙ same, sent.same_buffer ∙ buffer)

  node-Services :
      (readings : ℕ → ℕ)
      → Services
          (node_ports ports)
          (serve flash ports readings)
          kept
          (λ req addr v. ((dispatch_request flash readings req addr v.0).1, v.1))
  unfolding serve
  node-Services readings = record {
    get_tick_view = λ e. refl;
    add_message_view = λ f e. refl;
    on_stream_view = λ v e. refl;
    dispatch_view = λ req addr w. (send_outbox_lem _ _).0;
    dispatch_buffer = λ req addr w. (send_outbox_lem _ _).1;
  }

  pub run-append :
      (ds es : List Event) (s : Server F) → run flash (ds ++ es) s ≡ run flash es (run flash ds s)
  unfolding run
  run-append [] es s = refl
  run-append (d ∷ ds) es s = run-append ds es (handle_event flash d s)

  either_popped :
      {W : Type 0} (P : W → Type 0) (o : Option RxMessage) {x : W} {f : RxMessage → W}
      → (o ≡ none → P x)
      → ((m : RxMessage) → o ≡ some m → P (f m))
      → P (elim o as (λ _. W) [ none ↦ x | some m ↦ f m ])
  either_popped P none p q = p refl
  either_popped P (some m) p q = q m refl

  -- Some messages of the ring were taken, the server was given their requests.
  pub record Drains (readings : ℕ → ℕ → ℕ) (fuel : ℕ) (w w' : World (Node F D)) : Type 0 where
    pub events : List Event
    pub drained : Drained readings fuel (w.env.ring) events (w'.env.ring)
    pub same : w'.env.server ≡ run flash events (w.env.server)
    pub holds : IsNode w'

  drain-Drains :
      (readings : ℕ → ℕ → ℕ) (fuel : ℕ) (w : World (Node F D))
      → IsNode w
      → Drains readings fuel w (drain flash ports readings fuel w)
  unfolding drain run handle_event
  drain-Drains readings zero w v = record { events = []; drained = stopped; same = refl; holds = v }
  drain-Drains readings (suc fuel) w v =
      either_popped (Drains readings (suc fuel) w) (pop (w.env.ring)).0
        (λ e. record { events = []; drained = emptied e; same = refl; holds = v })
        (λ m e.
          let start : World (Node F D) = record w {
            env = record (w.env) { ring = (pop (w.env.ring)).1 };
          } in
          let (bytes, messages) = pop-AreMessages (w.env.ring) v.messages e in
          let p =
            process_frame (node_ports ports) (serve flash ports (readings fuel)) m.can_id m.payload
              m.dlc start in
          let handled =
            process_frame-Handled (node-Services (readings fuel)) m.can_id m.payload m.dlc start
              bytes v.buffer in
          let later = λ (ring : p.env.ring ≡ (pop (w.env.ring)).1).
            drain-Drains readings fuel p (record {
              buffer = handled.holds;
              messages = subst (λ r. AreMessages r.slots) (sym ring) messages;
            }) in
          elim (handled.outcome) [
            | untouched seen ↦
                let ring : p.env.ring ≡ (pop (w.env.ring)).1 = ap (λ v. v.1) seen in
                let rest = later ring in
                record {
                  events = rest.events;
                  drained = unseen m e (
                      subst
                        (λ r.
                          Drained readings fuel r rest.events
                            ((drain flash ports readings fuel p).env.ring))
                        ring rest.drained);
                  same = rest.same ∙ ap (λ v. run flash rest.events v.0) seen;
                  holds = rest.holds;
                }
            | served req bs short known seen ↦
                let ring : p.env.ring ≡ (pop (w.env.ring)).1 = ap (λ v. v.1) seen in
                let rest = later ring in
                record {
                  events = request (readings fuel) req (classify m.can_id) ∷ rest.events;
                  drained = asked m req e bs short known (
                      subst
                        (λ r.
                          Drained readings fuel r rest.events
                            ((drain flash ports readings fuel p).env.ring))
                        ring rest.drained);
                  same = rest.same ∙ ap (λ v. run flash rest.events v.0) seen;
                  holds = rest.holds;
                }
          ])

  end_round-kept :
      (now : ℕ) (app_is_valid : Bool) (e : Node F D)
      → kept (end_round now app_is_valid e).1 ≡ kept e
  unfolding end_round
  end_round-kept now app_is_valid e = ground arith

  -- A round of the main loop: the messages it takes, and then the round of the server.
  pub record Turns (readings : ℕ → ℕ → ℕ) (now : ℕ → ℕ) (w w' : World (Node F D)) : Type 0 where
    pub requests : List Event
    pub drained : Drained readings 8 (w.env.ring) requests (w'.env.ring)
    pub prev_session : ℕ
    pub same :
        w'.env.server
        ≡ run flash (requests ++ round (readings 8) (now 1) prev_session ∷ []) (w.env.server)
    pub holds : IsNode w'

  pub round-Turns :
      (readings : ℕ → ℕ → ℕ) (now : ℕ → ℕ) (w : World (Node F D))
      → IsNode w
      → Turns readings now w (loop_round flash ports readings now w).1
  unfolding loop_round run handle_event
  round-Turns readings now w v =
      let drained = drain flash ports readings 8 w in
      let d = drain-Drains readings 8 w v in
      let ticked = tick (node_ports ports) (now 0) drained in
      let apart = tick-Apart no-Services (now 0) drained in
      let prev = ticked.env.prev_session in
      let looped = main_round flash (readings 8) (now 1) prev (ticked.env.server) in
      let ended =
        end_round-kept (now 2) looped.0 (record (ticked.env) {
          server = looped.1;
          prev_session = looped.1.session.session_type;
        }) in
      let ring : (loop_round flash ports readings now w).1.env.ring ≡ drained.env.ring =
        ap (λ p. p.1) ended ∙ ap (λ p. p.1) apart.same_view in
      record {
        requests = d.events;
        drained = subst (λ r. Drained readings 8 (w.env.ring) d.events r) (sym ring) d.drained;
        prev_session = prev;
        same =
            ap (λ p. p.0) ended
            ∙ ap (λ p. (main_round flash (readings 8) (now 1) prev p.0).1) apart.same_view
            ∙ ap (λ s. (main_round flash (readings 8) (now 1) prev s).1) d.same
            ∙ sym (run-append d.events (round (readings 8) (now 1) prev ∷ []) (w.env.server));
        holds = record {
          buffer = ground (arith, d.holds, apart);
          messages = subst (λ r. AreMessages r.slots) (sym ring) d.holds.messages;
        };
      }
