-- ===== src/Task/Errors.antt =====
-- The CAN error handling of Core/Src/main.c: the two callbacks that run in an interrupt, and the last
-- two parts of the round of vMainTask, cut into steps between which an interrupt may come: each test,
-- the reading and the clearing of the shared flags are a step of their own, the lines of the log are
-- one step, and so is the re-initialisation, which reads none of the flags.
pub mod Progress
pub mod Pending
pub mod Warnings
mod Tests
use obd_simulator.Prelude.{
  ℕ, suc, ◌/◌, ◌%◌, List, [], ◌∷◌, ◌++◌, Bool, true, false, ◌||◌, if◌then◌else◌,
}
use obd_simulator.Task.Controller.{CanHal, Board, recover_bus_off}

-- Where vMainTask stands. `elsewhere` is the rest of the round; of `safe_state` there is no return.
pub data Place : Type 0 where
  test_flags read_flags clear_flags log_flags test_busoff clear_busoff recovery : Place
  elsewhere safe_state : Place

-- The lines for the debug port, the recovery's first and last among them
pub data Line : Type 0 where
  warn_line : ℕ → ℕ → Line
  passive_line : ℕ → ℕ → Line
  recovery_line : Line
  recovered_line : Line
  safe_state_line : Line

-- The two bits of `g_fdcan_error_flags`
pub record ErrorFlags : Type 0 where
  pub warning : Bool
  pub passive : Bool

-- The variables shared with the callbacks, the local copy `flags`, and the board
pub record ErrorState (C : Type 0) : Type 0 where
  pub place : Place
  pub busoff_detected : Bool
  pub error_flags : ErrorFlags
  pub last_tec : ℕ
  pub last_rec : ℕ
  pub flags : ErrorFlags
  pub board : Board C

-- HAL_FDCAN_ErrorStatusCallback, with the register ECR and the two bits of ErrorStatusITs that it
-- tests
unfoldable pub error_status_callback : {C : Type 0} → ℕ → Bool → Bool → ErrorState C → ErrorState C
error_status_callback ecr warning passive e = record e {
  last_tec = ecr / 65536 % 256;
  last_rec = ecr / 256 % 256;
  error_flags = record {
    warning = e.error_flags.warning || warning;
    passive = e.error_flags.passive || passive;
  };
}

-- HAL_FDCAN_ErrorCallback
unfoldable pub error_callback : {C : Type 0} → ErrorState C → ErrorState C
error_callback e = record e { busoff_detected = true }

unfoldable pub log_lines : ErrorFlags → ℕ → ℕ → List Line
log_lines flags tec rec =
    (if flags.warning then warn_line tec rec ∷ [] else [])
    ++ (if flags.passive then passive_line tec rec ∷ [] else [])

-- What happens: vMainTask goes one step on, or one of the callbacks runs.
pub data Event : Type 0 where
  main_moves : Event
  status_interrupt : ℕ → Bool → Bool → Event
  bus_off_interrupt : Event

module _ {C : Type 0} (hal : CanHal C) where
  -- One step of vMainTask from each place: the lines, and the state.
  unfoldable pub main_step : Place → ErrorState C → List Line × ErrorState C
  unfolding log_lines
  main_step test_flags e =
      let set = e.error_flags.warning || e.error_flags.passive in
      ([], record e { place = if set then read_flags else test_busoff })
  main_step read_flags e = ([], record e { place = clear_flags; flags = e.error_flags })
  main_step clear_flags e = (
    [],
    record e { place = log_flags; error_flags = record { warning = false; passive = false } },
  )
  main_step log_flags e =
      (log_lines e.flags e.last_tec e.last_rec, record e { place = test_busoff })
  main_step test_busoff e =
      ([], record e { place = if e.busoff_detected then clear_busoff else elsewhere })
  main_step clear_busoff e = ([], record e { place = recovery; busoff_detected = false })
  main_step recovery e =
      let (ok, board') = recover_bus_off hal e.board in
      if ok
      then (recovery_line ∷ recovered_line ∷ [], record e { place = elsewhere; board = board' })
      else (recovery_line ∷ safe_state_line ∷ [], record e { place = safe_state; board = board' })
  main_step elsewhere e = ([], record e { place = test_flags })
  main_step safe_state e = ([], record e { place = safe_state })

  unfoldable pub handle : Event → ErrorState C → List Line × ErrorState C
  unfolding main_step error_status_callback error_callback
  handle main_moves e = main_step e.place e
  handle (status_interrupt ecr warning passive) e =
      ([], error_status_callback ecr warning passive e)
  handle bus_off_interrupt e = ([], error_callback e)

  unfoldable pub run : List Event → ErrorState C → List Line × ErrorState C
  unfolding handle
  run [] e = ([], e)
  run (v ∷ vs) e = let (out, e') = handle v e in let (more, e'') = run vs e' in (out ++ more, e'')
