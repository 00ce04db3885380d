-- ===== src/Task/Errors/Tests.antt =====
-- Runs of the CAN error handling on a sample driver, and its theorems.
use obd_simulator.Prelude.{◌≡◌, ◌||◌, List, [], ◌∷◌, Bool, true, false, some, refl, arith}
use obd_simulator.Task.Controller.{
  CanHal, Board, recover_bus_off, init_fd, configure_filters, start_notification, attempt, start_up,
  standard_only,
}
use obd_simulator.Task.Controller.Setup.{
  Setup, CanLaws, Restored, after_reset, configured, recover_bus_off-Restored, start_up-configured,
}
use obd_simulator.Task.Errors.{
  test_flags, passive_line, recovery_line, recovered_line, safe_state_line, ErrorState,
  error_status_callback, error_callback, log_lines, Event, main_moves, status_interrupt,
  bus_off_interrupt, main_step, handle, run,
}
use obd_simulator.Task.Errors.Progress.{has_recovery, has_warning, is_stopped}
use obd_simulator.Task.Errors.Pending.{run-recovers}
use obd_simulator.Task.Errors.Warnings.{run-warns}

-- A driver whose state is the set-up; the start of the controller may fail.
abbrev sample_hal : Bool → CanHal Setup
sample_hal starts = record {
  init = λ i c. (true, record c { settings = some i });
  config_filter = λ f c. (true, record c { filter = some f });
  config_global_filter = λ g c. record c { global_filter = some g };
  activate_notification = λ is c. (true, record c { interrupts = is });
  start = λ c. (starts, record c { is_running = starts });
  stop = λ c. record c { is_running = false };
  pulse_reset = λ c. after_reset;
}

abbrev hal : CanHal Setup
hal = sample_hal true

hal-CanLaws : CanLaws hal (λ c. c)
hal-CanLaws = record {
  init-ok = λ i c h. refl;
  config_filter-ok = λ f c h. refl;
  config_global_filter-setup = λ g c. refl;
  activate_notification-ok = λ is c h. refl;
  start-ok = λ c h. refl;
  stop-setup = λ c. refl;
  pulse_reset-setup = λ c. refl;
}

-- As `main` leaves it.
abbrev board : Board Setup
board = record { controller = configured (some standard_only); driver_enable = true }

recover_bus_off-Restored_example :
    Restored hal (λ c. c) hal-CanLaws board (recover_bus_off hal board)
recover_bus_off-Restored_example = recover_bus_off-Restored hal (λ c. c) hal-CanLaws board

started_ok : (start_up hal after_reset).0 ≡ true
unfolding start_up init_fd configure_filters start_notification attempt
started_ok = refl

started : (start_up hal after_reset).1 ≡ configured (some standard_only)
started = start_up-configured hal (λ c. c) hal-CanLaws after_reset refl started_ok

abbrev e0 : ErrorState Setup
e0 = record {
  place = test_flags;
  busoff_detected = false;
  error_flags = record { warning = false; passive = false };
  last_tec = 0;
  last_rec = 0;
  flags = record { warning = false; passive = false };
  board = board;
}

-- A round of vMainTask, with a bus-off while it tests the flags.
abbrev round : List Event
round =
    main_moves ∷ bus_off_interrupt ∷ main_moves ∷ main_moves ∷ main_moves ∷ main_moves ∷ main_moves
    ∷ main_moves ∷ main_moves ∷ main_moves ∷ []

recovers : (run hal round e0).0 ≡ recovery_line ∷ recovered_line ∷ []
unfolding run handle main_step error_callback recover_bus_off init_fd configure_filters
    start_notification attempt
recovers = refl

fails : (run (sample_hal false) round e0).0 ≡ recovery_line ∷ safe_state_line ∷ []
unfolding run handle main_step error_callback recover_bus_off init_fd configure_filters
    start_notification attempt
fails = refl

-- A warning that comes between the reading and the clearing of the flags is lost: of two, one is
-- logged, with the counters of the other.
loses_one :
    (run hal
      (status_interrupt 0 false true
        ∷ main_moves
        ∷ main_moves
        ∷ status_interrupt 0x6100 true false
        ∷ round)
      e0).0
    ≡ passive_line 0 0x61 ∷ recovery_line ∷ recovered_line ∷ []
unfolding run handle main_step error_callback error_status_callback log_lines recover_bus_off
    init_fd configure_filters start_notification attempt
loses_one = refl

run-recovers_example : has_recovery (run hal (bus_off_interrupt ∷ round) e0).0 ≡ true
run-recovers_example = run-recovers hal round e0 refl (omega arith)

run-warns_example :
    has_warning (run hal (status_interrupt 0x6100 true false ∷ round) e0).0
      || is_stopped (run hal (status_interrupt 0x6100 true false ∷ round) e0).1.place
    ≡ true
run-warns_example = run-warns hal round e0 0x6100 false refl (omega arith)
