-- ===== src/Boot/Node.antt =====
-- The bootloader as a whole, Core/Src/bl_main.c: its receive ring, the transport with the flash
-- server of Core/Src/bl_uds.c below it, and the main loop.
pub mod Messages
pub mod Run
pub mod Locked
pub mod Rollback
mod Tests
use obd_simulator.Prelude.{
  ℕ, zero, suc, ◌+◌, ◌-◌, ◌≡◌, List, [], ◌∷◌, Bool, true, false, ◌&&◌, ltb, ◌==◌, if◌then◌else◌,
  length, take, u32, sub32, Option, none, some,
}
use obd_simulator.Can.Ring.{RxMessage, Ring, pop, receive_callback}
use obd_simulator.Flash.{FlashPorts}
use obd_simulator.Session.{Session, session_programming, init, mark_boot_ready, set_session}
use obd_simulator.IsoTp.Context.{Ports, World, init_ctx}
use obd_simulator.IsoTp.Transmit.{send_response}
use obd_simulator.IsoTp.Receive.{Dispatch, process_frame}
use obd_simulator.IsoTp.Tick.{tick}
use obd_simulator.Boot.Server.{Server, no_restore}
use obd_simulator.Boot.Server.Dispatch.{dispatch_request, main_round}

-- The state around the transport: the server's, the receive ring's, the main loop's, and the
-- driver's and clock's, of type `D`.
pub record Node (F D : Type 0) : Type 0 where
  pub server : Server F
  pub ring : Ring
  pub prev_session : ℕ
  pub reset_at : ℕ
  pub outside : D

-- How a round of the main loop ends.
pub data Ending : Type 0 where
  goes_on resets starts_app : Ending

-- The session manager when the server starts: programming, if the boot gate found the update flag.
unfoldable pub start_session : (ℕ → ℕ) → Bool → Session → Session
start_session readings enter_via_flag s =
    let ready = mark_boot_ready (λ i. readings (i + 1)) (init readings s) in
    let (done, programming, _) =
      set_session no_restore (λ i. readings (i + 2)) session_programming ready tt in
    if enter_via_flag then programming else ready

module _ {F D : Type 0} where
  -- The driver, the clock and the stream sink, which only writes a log, do not touch the rest.
  abbrev pub node_ports : Ports D → Ports (Node F D)
  node_ports ports = record {
    get_tick = λ e. let (t, d) = ports.get_tick e.outside in (t, record e { outside = d });
    add_message =
        λ f e. let (ok, d) = ports.add_message f e.outside in (ok, record e { outside = d });
    on_stream = λ v e. record e { outside = ports.on_stream v e.outside };
  }

  abbrev pub put_server : Server F → World (Node F D) → World (Node F D)
  put_server s w = record w { env = record (w.env) { server = s } }

  -- The responses that a handler sends itself, the latest first in the list.
  unfoldable pub send_outbox : Ports D → List (ℕ × List ℕ) → World (Node F D) → World (Node F D)
  send_outbox ports [] w = w
  send_outbox ports ((id, msg) ∷ out) w =
      send_response (node_ports ports) id msg (send_outbox ports out w)

  -- UDS_DispatchRequest, as the transport calls it. What it sends itself leaves before the response.
  unfoldable pub serve : FlashPorts F → Ports D → (ℕ → ℕ) → Dispatch (Node F D)
  unfolding send_outbox
  serve flash ports readings req addr w =
      let s = w.env.server in
      let (response, s') = dispatch_request flash readings req addr s in
      let out = take (length s'.outbox - length s.outbox) s'.outbox in
      (response, send_outbox ports out (put_server s' w))

  -- The inner loop of a round, on fuel: one unit for each message. The request that a message
  -- completes reads the tick counter by `readings` at the fuel left.
  unfoldable pub drain :
      FlashPorts F → Ports D → (ℕ → ℕ → ℕ) → ℕ → World (Node F D) → World (Node F D)
  drain flash ports readings zero w = w
  drain flash ports readings (suc fuel) w =
      let (popped, r) = pop (w.env.ring) in
      elim popped [
        | none ↦ w
        | some m ↦ drain flash ports readings fuel (
            process_frame (node_ports ports) (serve flash ports (readings fuel)) m.can_id m.payload
              m.dlc (record w { env = record (w.env) { ring = r } }))
      ]

  -- The end of a round: the reset 200 ms after it was asked for, or the start of the valid app.
  unfoldable pub end_round : ℕ → Bool → Node F D → Ending × Node F D
  end_round now app_is_valid e =
      let ending = if app_is_valid then starts_app else goes_on in
      if e.server.reset_pending
      then (if e.reset_at == 0
          then (ending, record e { reset_at = u32 (now + 200) })
          else if ltb (sub32 now e.reset_at) 0x80000000
          then (resets, e)
          else (ending, e))
      else (ending, e)

  -- A round of the main loop: `now` gives its readings of the tick counter.
  unfoldable pub loop_round :
      FlashPorts F → Ports D → (ℕ → ℕ → ℕ) → (ℕ → ℕ) → World (Node F D) → Ending × World (Node F D)
  unfolding end_round
  loop_round flash ports readings now w =
      let ticked = tick (node_ports ports) (now 0) (drain flash ports readings 8 w) in
      let (app_is_valid, s) =
        main_round flash (readings 8) (now 1) (ticked.env.prev_session) (ticked.env.server) in
      let e = record (ticked.env) { server = s; prev_session = s.session.session_type } in
      let (ending, e') = end_round (now 2) app_is_valid e in (ending, record ticked { env = e' })

  -- The receive interrupt.
  unfoldable pub interrupt : ℕ → ℕ → List ℕ → World (Node F D) → World (Node F D)
  interrupt id data_length rx_data w = record w {
    env = record (w.env) { ring = receive_callback id data_length rx_data (w.env.ring) };
  }
