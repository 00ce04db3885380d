-- ===== src/Task/Tests.antt =====
-- A run of the services, and its theorem.
use obd_simulator.Prelude.{ℕ, ◌≡◌, List, [], ◌∷◌, refl, arith, false}
use obd_simulator.Can.{addr_physical}
use obd_simulator.Session.{Session, set_session, reset_s3_timeout, session_tick}
use obd_simulator.Session.Access.{check_access}
use obd_simulator.Uds.Control.{handle_session_control}
use obd_simulator.Uds.Dynamic.{handle_dynamic_define_did}
use obd_simulator.Uds.Sources.{dyn_find, dyn_assemble}
use obd_simulator.Uds.Periodic.{handle_read_data_periodic, periodic_data, periodic_tick}
use obd_simulator.Uds.Dispatch.{
  dispatch_request, serve_request, serve_open, serve_restricted, access_gate,
}
use obd_simulator.Boot.{Handoff}
use obd_simulator.Obd2.{SimState}
use obd_simulator.Obd2.Dtc.{initial_memory}
use obd_simulator.Uds.{App, initial_app}
use obd_simulator.Uds.Shape.{IsApp}
use obd_simulator.Uds.Bounds.{AllShort}
use obd_simulator.Task.{Event, request, round, run}
use obd_simulator.Task.Run.{run-IsApp, initial_app-IsApp}

abbrev zeros : ℕ → ℕ
zeros x = 0

abbrev at : ℕ → ℕ → ℕ
at t i = t

abbrev start_session : Session
start_session = record {
  session_type = 0x01;
  security_level = 0x00;
  seed = 0;
  seed_is_fresh = false;
  last_activity_tick = 0;
  fail_count = 0;
  lockout_start = 0;
  boot_tick = 0;
}

abbrev start_sim : SimState
start_sim = record {
  engine_rpm = 800;
  coolant_temp = 80;
  vehicle_speed = 0;
  rpm_direction = false;
  temp_direction = false;
  speed_direction = false;
}

abbrev no_handoff : Handoff
no_handoff = record { magic = 0; reason = 0 }

start : App
start = initial_app start_session start_sim initial_memory no_handoff

-- The extended session, a definition, a subscription to it, and two rounds.
abbrev events : List Event
events =
    request zeros (at 1500) (0x10 ∷ 0x03 ∷ []) addr_physical
    ∷ request zeros (at 1510) (0x2C ∷ 0x01 ∷ 0xF2 ∷ 0x10 ∷ 0xF1 ∷ 0x90 ∷ 0x01 ∷ 0x03 ∷ [])
        addr_physical
    ∷ request zeros (at 1520) (0x2A ∷ 0x03 ∷ 0x10 ∷ []) addr_physical
    ∷ round zeros (at 1530)
    ∷ round zeros (at 1540)
    ∷ []

run_answers :
    (run events start).0
    ≡ (0x50 ∷ 0x03 ∷ 0x00 ∷ 0x32 ∷ 0x01 ∷ 0xF4 ∷ [])
      ∷ (0x6C ∷ 0x01 ∷ 0xF2 ∷ 0x10 ∷ [])
      ∷ (0x6A ∷ 0x03 ∷ [])
      ∷ (0x10 ∷ 0x57 ∷ 0x56 ∷ 0x57 ∷ [])
      ∷ []
unfolding start run dispatch_request periodic_tick serve_request serve_open handle_session_control
    set_session access_gate check_access reset_s3_timeout serve_restricted handle_dynamic_define_did
    initial_app handle_read_data_periodic dyn_find session_tick periodic_data dyn_assemble
run_answers = refl

run-IsApp_example : AllShort (run events start).0 × IsApp (run events start).1
unfolding start
run-IsApp_example =
    run-IsApp events start (omega arith) (initial_app-IsApp start_session start_sim no_handoff)
