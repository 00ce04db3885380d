-- ===== src/Task.antt =====
-- The tasks of Core/Src/main.c: the round of vMainTask, in the order of its calls, and what it and
-- the requests that vCanRxTask hands to the services come to. The transport's tick is in IsoTp.
pub mod Run
pub mod Supervision
pub mod Recovery
pub mod Controller
pub mod Errors
mod Tests
mod Watch
use obd_simulator.Prelude.{ℕ, ◌+◌, ◌≡◌, List, [], ◌∷◌, ◌++◌, Bool, true, false, not, ◌==◌}
use obd_simulator.Can.{AddrType}
use obd_simulator.Obd2.{update_sim_values}
use obd_simulator.Obd2.Dtc.{dtc_update}
use obd_simulator.Session.{session_tick}
use obd_simulator.Uds.{App, restore}
use obd_simulator.Uds.Periodic.{periodic_tick}
use obd_simulator.Uds.Dispatch.{dispatch_request}

-- OBD2_UpdateSimValues and OBD2_DtcUpdate
unfoldable pub simulate : App → App
simulate a =
    let sim' = update_sim_values a.sim in record a { sim = sim'; dtc = dtc_update sim' a.dtc }

-- DiagSession_Tick(HAL_GetTick())
unfoldable pub tick_session : (ℕ → ℕ) → App → App
tick_session tick a =
    let (session', (dtc', periodic')) =
      session_tick restore (λ i. tick (i + 1)) (tick 0) a.session (a.dtc, a.periodic) in
    record a { session = session'; dtc = dtc'; periodic = periodic' }

-- The services' part of a round: the periodic responses, true if the round ends in
-- NVIC_SystemReset, and the state.
unfoldable pub main_round : (ℕ → ℕ) → (ℕ → ℕ) → App → List (List ℕ) × Bool × App
unfolding simulate tick_session
main_round mem tick a =
    let (frames, a') = periodic_tick mem (simulate a) in
    let a'' = tick_session tick a' in
    (frames, not (a''.soft_reset == 0), record a'' { soft_reset = 0 })

-- What happens to the services: a request, or a round of the main task; with the memory and the
-- readings of the tick counter at that time.
pub data Event : Type 0 where
  request : (ℕ → ℕ) → (ℕ → ℕ) → List ℕ → AddrType → Event
  round : (ℕ → ℕ) → (ℕ → ℕ) → Event

-- The responses that an event hands to the transport, and the state.
unfoldable pub handle_event : Event → App → List (List ℕ) × App
unfolding main_round
handle_event (request mem tick req addr) a =
    let (resp, a') = dispatch_request mem tick req addr a in (resp ∷ [], a')
handle_event (round mem tick) a = let (frames, reset, a') = main_round mem tick a in (frames, a')

unfoldable pub run : List Event → App → List (List ℕ) × App
unfolding handle_event
run [] a = ([], a)
run (e ∷ es) a =
    let (out, a') = handle_event e a in let (more, a'') = run es a' in (out ++ more, a'')
