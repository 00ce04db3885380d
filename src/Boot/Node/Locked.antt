-- ===== src/Boot/Node/Locked.antt =====
-- What CAN frames can do to the flash of a locked bootloader.
use obd_simulator.Prelude.{
  ℕ, ◌≡◌, ◌⊎◌, inl, inr, List, [], ◌∷◌, Bool, replicate, arith, refl, ap, sym, ◌∙◌, ◌++◌, AreBytes,
  take-AreBytes, memcpy-AreBytes, replicate-AreBytes,
}
use obd_simulator.Can.Frames.{dlc_to_bytes}
use obd_simulator.Can.Ring.{Ring, rx_message, receive_callback}
use obd_simulator.Flash.{FlashPorts}
use obd_simulator.Session.{Session, sec_locked, init, mark_boot_ready, set_session}
use obd_simulator.IsoTp.Context.{Ports, World}
use obd_simulator.Boot.Server.Keys.{Event, round, run, HasRightKey, IsLocked, run-IsLocked}
use obd_simulator.Boot.Node.{Node, Ending, goes_on, loop_round, interrupt, start_session}
use obd_simulator.Boot.Node.Messages.{push-AreMessages}
use obd_simulator.Boot.Node.Run.{
  IsNode, AreHeard, AreHeard-append, Drained, Drained-AreHeard, run-append, round-Turns,
}

-- What happens to the bootloader: the interrupt reads a frame (identifier, length code, bytes), or
-- the main loop goes round.
pub data Input : Type 0 where
  frame_read : (id data_length : ℕ) → List ℕ → Input
  loop_turns : (readings : ℕ → ℕ → ℕ) (now : ℕ → ℕ) → Input

abbrev pub AreReads : List Input → Type 0
AreReads [] = Unit {0}
AreReads (frame_read id data_length rx_data ∷ ins) = AreBytes rx_data × AreReads ins
AreReads (loop_turns readings now ∷ ins) = AreReads ins

-- The requests and rounds that the server sees: a frame goes to the ring; a round of the loop hands
-- over the requests of the messages that it takes from the ring, and then goes round the server; it
-- may be the last.
pub data Explains : Ring → List Input → List Event → Type 0 where
  nothing : {r : Ring} → Explains r [] []
  read :
      {id data_length : ℕ} {rx_data : List ℕ} {r : Ring} {ins : List Input} {es : List Event}
      → Explains (receive_callback id data_length rx_data r) ins es
      → Explains r (frame_read id data_length rx_data ∷ ins) es
  turned :
      {r r' : Ring} {ins : List Input} (readings : ℕ → ℕ → ℕ) (now : ℕ → ℕ) (prev_session : ℕ)
      (ds es : List Event)
      → Drained readings 8 r ds r'
      → Explains r' ins es
      → Explains r
          (loop_turns readings now ∷ ins)
          (ds ++ round (readings 8) (now 1) prev_session ∷ es)
  ended :
      {r r' : Ring} {ins : List Input} (readings : ℕ → ℕ → ℕ) (now : ℕ → ℕ) (prev_session : ℕ)
      (ds : List Event)
      → Drained readings 8 r ds r'
      → Explains r
          (loop_turns readings now ∷ ins)
          (ds ++ round (readings 8) (now 1) prev_session ∷ [])

pub Explains-AreHeard :
    {r : Ring} {ins : List Input} {es : List Event} → Explains r ins es → AreHeard es
Explains-AreHeard nothing = tt
Explains-AreHeard (read x) = Explains-AreHeard x
Explains-AreHeard (turned readings now prev ds es d x) =
    AreHeard-append ds (round (readings 8) (now 1) prev ∷ es) (Drained-AreHeard d)
      (Explains-AreHeard x)
Explains-AreHeard (ended readings now prev ds d) =
    AreHeard-append ds (round (readings 8) (now 1) prev ∷ []) (Drained-AreHeard d) tt

rx_message-AreBytes :
    (id data_length : ℕ) (rx_data : List ℕ)
    → AreBytes rx_data
    → AreBytes (rx_message id data_length rx_data).payload
unfolding rx_message
rx_message-AreBytes id data_length rx_data b =
    memcpy-AreBytes (replicate 64 0) 0 _ (replicate-AreBytes 64 0 (omega arith))
      (take-AreBytes (dlc_to_bytes data_length) rx_data b)

module _ {F D : Type 0} (flash : FlashPorts F) (ports : Ports D) where
  unfoldable pub handle_input : Input → World (Node F D) → Ending × World (Node F D)
  handle_input (frame_read id data_length rx_data) w = (goes_on, interrupt id data_length rx_data w)
  handle_input (loop_turns readings now) w = loop_round flash ports readings now w

  -- The run ends with a reset or the start of the app.
  unfoldable pub run_inputs : List Input → World (Node F D) → World (Node F D)
  unfolding handle_input
  run_inputs [] w = w
  run_inputs (i ∷ ins) w =
      let (ending, w') = handle_input i w in elim ending [ goes_on ↦ run_inputs ins w' | _ ↦ w' ]

  interrupt-IsNode :
      (id data_length : ℕ) (rx_data : List ℕ) (w : World (Node F D))
      → AreBytes rx_data
      → IsNode w
      → IsNode (interrupt id data_length rx_data w)
  unfolding interrupt receive_callback
  interrupt-IsNode id data_length rx_data w b v = record {
    buffer = v.buffer;
    messages =
        push-AreMessages (rx_message id data_length rx_data) (w.env.ring) v.messages
          (rx_message-AreBytes id data_length rx_data b);
  }

  -- The inputs lead from one state to the other, as the server sees them.
  pub record Explained (ins : List Input) (w w' : World (Node F D)) : Type 0 where
    pub events : List Event
    pub explains : Explains (w.env.ring) ins events
    pub same : w'.env.server ≡ run flash events (w.env.server)

  either_ending :
      (P : World (Node F D) → Type 0) (ending : Ending) {x y : World (Node F D)}
      → P x
      → P y
      → P (elim ending as (λ _. World (Node F D)) [ goes_on ↦ x | _ ↦ y ])
  either_ending P goes_on p q = p
  either_ending P _ p q = q

  pub run_inputs-Explained :
      (ins : List Input) (w : World (Node F D))
      → AreReads ins
      → IsNode w
      → Explained ins w (run_inputs ins w)
  unfolding run_inputs run interrupt
  run_inputs-Explained [] w b v = record { events = []; explains = nothing; same = refl }
  run_inputs-Explained (frame_read id data_length rx_data ∷ ins) w b v =
      let rest =
        run_inputs-Explained ins (interrupt id data_length rx_data w) b.1
          (interrupt-IsNode id data_length rx_data w b.0 v) in
      record { events = rest.events; explains = read rest.explains; same = rest.same }
  run_inputs-Explained (loop_turns readings now ∷ ins) w b v =
      let w' = (loop_round flash ports readings now w).1 in
      let turn = round-Turns flash ports readings now w v in
      let rest = run_inputs-Explained ins w' b turn.holds in
      let step = round (readings 8) (now 1) turn.prev_session in
      either_ending (Explained (loop_turns readings now ∷ ins) w)
        (loop_round flash ports readings now w).0
        (record {
          events = turn.requests ++ step ∷ rest.events;
          explains =
              turned readings now turn.prev_session turn.requests rest.events turn.drained
                rest.explains;
          same =
              rest.same
              ∙ ap (run flash rest.events)
                  (turn.same ∙ run-append flash ports turn.requests (step ∷ []) (w.env.server))
              ∙ sym (run-append flash ports turn.requests (step ∷ rest.events) (w.env.server));
        })
        (record {
          events = turn.requests ++ step ∷ [];
          explains = ended readings now turn.prev_session turn.requests turn.drained;
          same = turn.same;
        })

  -- Whatever CAN frames of bytes come to a locked bootloader, on whatever identifiers and of whatever
  -- lengths, and however many rounds of the main loop go by between them: the flash is as it was and
  -- the server is locked, or one of the requests that it was given carried the key of the latest
  -- seed, unused until then, after the boot delay and outside a lockout. These requests are at most
  -- one for each message that a round took from the receive ring, in the order of the messages, and
  -- only the frames add to what the ring held at the start; each has at most 512 bytes and is
  -- addressed to this node as its message's identifier says.
  pub run_inputs-IsLocked :
      (ins : List Input) (w : World (Node F D))
      → AreReads ins
      → IsNode w
      → IsLocked w.env.server
      → (((run_inputs ins w).env.server.flash ≡ w.env.server.flash)
          × IsLocked (run_inputs ins w).env.server)
        ⊎ ((es : List Event) × Explains (w.env.ring) ins es
            × ((run_inputs ins w).env.server ≡ run flash es (w.env.server))
            × HasRightKey flash es (w.env.server))
  run_inputs-IsLocked ins w b v l =
      let heard = run_inputs-Explained ins w b v in
      elim (run-IsLocked flash heard.events (w.env.server) l) [
        | inl (same, locked) ↦ inl (
          ap (λ s. s.flash) heard.same ∙ same,
          ap (λ s. s.session.security_level) heard.same ∙ locked,
        )
        | inr key ↦ inr (heard.events, heard.explains, heard.same, key)
      ]

-- The server starts locked, with or without the update flag.
pub start_session_is_locked :
    (readings : ℕ → ℕ) (enter_via_flag : Bool) (s : Session)
    → (start_session readings enter_via_flag s).security_level ≡ sec_locked
unfolding start_session init mark_boot_ready set_session
start_session_is_locked readings enter_via_flag s = ground arith
