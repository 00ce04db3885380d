-- ===== src/Task/Run.antt =====
-- The state and the responses of the services over any sequence of requests and rounds.
use obd_simulator.Prelude.{AreBytes, ℕ, suc, ◌≡◌, List, [], ◌∷◌, length, arith, refl, ap}
use obd_simulator.Obd2.{SimState, update_sim_values}
use obd_simulator.Obd2.Dtc.{
  DtcEntry, dtc_update, update_table, update_entry, initial_memory, dtc_setting_control,
}
use obd_simulator.Session.{Session, session_tick, set_session}
use obd_simulator.Boot.{Handoff}
use obd_simulator.Uds.{App, initial_app}
use obd_simulator.Uds.Shape.{IsApp, length-periodic_stop_all}
use obd_simulator.Uds.Subscriptions.{periodic_stop_all-Distinct}
use obd_simulator.Uds.Invariant.{dispatch_request-IsApp, periodic_tick-IsApp}
use obd_simulator.Uds.Bounds.{dispatch_request-le, periodic_tick-Short, AllShort, AllShort-append}
use obd_simulator.Uds.Dispatch.{dispatch_request}
use obd_simulator.Task.{
  simulate, tick_session, main_round, Event, request, round, handle_event, run,
}

length-update_table :
    (st : SimState) (seq : ℕ) (ds : List DtcEntry) → length (update_table st seq ds).1 ≡ length ds
unfolding update_table
length-update_table st seq [] = refl
length-update_table st seq (d ∷ ds) = ap suc (length-update_table st (update_entry st seq d).0 ds)

simulate-IsApp : {a : App} → IsApp a → IsApp (simulate a)
unfolding simulate dtc_update
simulate-IsApp {a} v =
    ground (arith, length-update_table (update_sim_values a.sim) a.dtc.fail_seq_counter a.dtc.table)

tick_session-IsApp : (tick : ℕ → ℕ) {a : App} → IsApp a → IsApp (tick_session tick a)
unfolding tick_session session_tick set_session dtc_setting_control
tick_session-IsApp tick {a} v =
    ground (arith, length-periodic_stop_all a.periodic, periodic_stop_all-Distinct a.periodic)

main_round-IsApp : (mem tick : ℕ → ℕ) (a : App) → IsApp a → IsApp (main_round mem tick a).2
unfolding main_round
main_round-IsApp mem tick a v =
    let ticked = periodic_tick-IsApp mem (simulate a) (simulate-IsApp v) in
    let settled = tick_session-IsApp tick ticked in ground arith

main_round-Short : (mem tick : ℕ → ℕ) (a : App) → IsApp a → AllShort (main_round mem tick a).0
unfolding main_round
main_round-Short mem tick a v = periodic_tick-Short mem (simulate a) (simulate-IsApp v)

-- The requests of a sequence of events consist of bytes.
abbrev pub HasBytes : List Event → Type 0
HasBytes [] = Unit {0}
HasBytes (request mem tick req addr ∷ es) = AreBytes req × HasBytes es
HasBytes (round mem tick ∷ es) = HasBytes es

-- The state at the start: every static at its initial value, over any session, simulated values and
-- hand-over record.
pub initial_app-IsApp :
    (session : Session) (sim : SimState) (handoff : Handoff)
    → IsApp (initial_app session sim initial_memory handoff)
unfolding initial_app initial_memory
initial_app-IsApp session sim handoff = record {
  codes_size = refl;
  mirror_size = refl;
  vin_size = refl;
  vin_end = refl;
  dyn_size = refl;
  dyn_small = omega arith;
  dyn_distinct = ground arith;
  periodic_size = refl;
  periodic_distinct = ground arith;
}

-- Whatever requests of bytes come, to whatever addresses, and however many rounds of the main task
-- run between them, from a state that satisfies the invariant: every response handed to the
-- transport fits the buffer of 64 bytes, and the invariant holds at the end. It says: three trouble
-- codes and three mirror entries; a VIN array of 18 bytes that ends in NUL; four slots for dynamic
-- identifiers and four for subscriptions; no identifier with two slots or two active subscriptions.
pub run-IsApp :
    (es : List Event) (a : App) → HasBytes es → IsApp a → AllShort (run es a).0 × IsApp (run es a).1
unfolding run handle_event
run-IsApp [] a h v = (tt, v)
run-IsApp (request mem tick req addr ∷ es) a h v =
    let first = dispatch_request mem tick req addr a in
    let later = run-IsApp es first.1 h.1 (dispatch_request-IsApp mem tick req addr a h.0 v) in
    ((dispatch_request-le mem tick req addr a v, later.0), later.1)
run-IsApp (round mem tick ∷ es) a h v =
    let first = main_round mem tick a in
    let later = run-IsApp es first.2 h (main_round-IsApp mem tick a v) in
    (AllShort-append first.0 (run es first.2).0 (main_round-Short mem tick a v) later.0, later.1)
