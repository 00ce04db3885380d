-- ===== src/Task/Errors/Warnings.antt =====
-- Which warnings are logged, whatever the interleaving.
use obd_simulator.Prelude.{
  ℕ, suc, ◌≡◌, ◌<◌, ◌≤◌, List, ◌∷◌, Bool, true, false, ◌||◌, ◌⊎◌, inl, inr, if◌then◌else◌, arith,
  refl, Bool-cases,
}
use obd_simulator.Task.Controller.{CanHal, recover_bus_off}
use obd_simulator.Task.Errors.{
  Place, test_flags, read_flags, clear_flags, log_flags, test_busoff, clear_busoff, recovery,
  elsewhere, safe_state, ErrorState, error_status_callback, error_callback, log_lines, Event,
  main_moves, status_interrupt, bus_off_interrupt, main_step, handle, run,
}
use obd_simulator.Task.Errors.Progress.{
  moves, has_warning, has_warning-append, is_stopped, is_clearing, Progress, run-writes,
}

-- The steps at most before a warning is logged; `seen` if the local copy holds it.
abbrev to_log : Place → Bool → ℕ
to_log test_flags seen = 3
to_log read_flags seen = 2
to_log clear_flags seen = 1
to_log log_flags seen = if seen then 0 else 8
to_log test_busoff seen = 7
to_log clear_busoff seen = 6
to_log recovery seen = 5
to_log elsewhere seen = 4
to_log safe_state seen = 0

-- A warning waits to be logged: its flag is set and not about to be cleared, or the copy holds it.
abbrev Waits : Place → Bool → Bool → Type 0
Waits test_flags warning seen = warning ≡ true
Waits read_flags warning seen = warning ≡ true
Waits clear_flags warning seen = seen ≡ true
Waits log_flags warning seen = warning || seen ≡ true
Waits test_busoff warning seen = warning ≡ true
Waits clear_busoff warning seen = warning ≡ true
Waits recovery warning seen = warning ≡ true
Waits elsewhere warning seen = warning ≡ true
Waits safe_state warning seen = Unit {0}

module _ {C : Type 0} (hal : CanHal C) where
  abbrev WaitsIn : ErrorState C → Type 0
  WaitsIn e = Waits e.place e.error_flags.warning e.flags.warning

  abbrev to_go : ErrorState C → ℕ
  to_go e = to_log e.place e.flags.warning

  main_step-Waits :
      (p : Place) (e : ErrorState C)
      → Waits p e.error_flags.warning e.flags.warning
      → (has_warning (main_step hal p e).0 ≡ true)
        ⊎ (is_stopped (main_step hal p e).1.place ≡ true)
        ⊎ (WaitsIn (main_step hal p e).1
            × (suc (to_go (main_step hal p e).1) ≤ to_log p e.flags.warning))
  unfolding main_step log_lines
  main_step-Waits test_flags e w = inr (inr (ground (arith, w)))
  main_step-Waits read_flags e w = inr (inr (w, omega arith))
  main_step-Waits clear_flags e w = inr (inr (ground (arith, w)))
  main_step-Waits log_flags e w = elim (Bool-cases e.flags.warning) [
    | inl seen ↦ inl (ground (arith, seen))
    | inr unseen ↦ inr (inr (ground (arith, w, unseen)))
  ]
  main_step-Waits test_busoff e w = elim (Bool-cases e.busoff_detected) [
    | inl set ↦ inr (inr (ground (arith, w, set)))
    | inr clear ↦ inr (inr (ground (arith, w, clear)))
  ]
  main_step-Waits clear_busoff e w = inr (inr (w, omega arith))
  main_step-Waits recovery e w = elim (Bool-cases (recover_bus_off hal e.board).0) [
    | inl ok ↦ inr (inr (ground (arith, w, ok)))
    | inr failed ↦ inr (inl (ground (arith, failed)))
  ]
  main_step-Waits elsewhere e w = inr (inr (w, omega arith))
  main_step-Waits safe_state e w = inr (inl refl)

  Waits-status :
      (p : Place) (warning seen more : Bool) → Waits p warning seen → Waits p (warning || more) seen
  Waits-status test_flags warning seen more w = ground (arith, w)
  Waits-status read_flags warning seen more w = ground (arith, w)
  Waits-status clear_flags warning seen more w = w
  Waits-status log_flags warning seen more w = ground (arith, w)
  Waits-status test_busoff warning seen more w = ground (arith, w)
  Waits-status clear_busoff warning seen more w = ground (arith, w)
  Waits-status recovery warning seen more w = ground (arith, w)
  Waits-status elsewhere warning seen more w = ground (arith, w)
  Waits-status safe_state warning seen more w = w

  Waits-raised :
      (p : Place) (warning seen : Bool) → is_clearing p ≡ false → Waits p (warning || true) seen
  Waits-raised test_flags warning seen h = ground (arith, h)
  Waits-raised read_flags warning seen h = ground (arith, h)
  Waits-raised clear_flags warning seen h = ground (arith, h)
  Waits-raised log_flags warning seen h = ground (arith, h)
  Waits-raised test_busoff warning seen h = ground (arith, h)
  Waits-raised clear_busoff warning seen h = ground (arith, h)
  Waits-raised recovery warning seen h = ground (arith, h)
  Waits-raised elsewhere warning seen h = ground (arith, h)
  Waits-raised safe_state warning seen h = tt

  to_log_bound : (p : Place) (seen : Bool) → to_log p seen < 9
  to_log_bound test_flags seen = omega arith
  to_log_bound read_flags seen = omega arith
  to_log_bound clear_flags seen = omega arith
  to_log_bound log_flags seen = ground arith
  to_log_bound test_busoff seen = omega arith
  to_log_bound clear_busoff seen = omega arith
  to_log_bound recovery seen = omega arith
  to_log_bound elsewhere seen = omega arith
  to_log_bound safe_state seen = omega arith

  main_step-stopped :
      (p : Place) (e : ErrorState C)
      → is_stopped p ≡ true
      → is_stopped (main_step hal p e).1.place ≡ true
  unfolding main_step
  main_step-stopped test_flags e h = ground (arith, h)
  main_step-stopped read_flags e h = ground (arith, h)
  main_step-stopped clear_flags e h = ground (arith, h)
  main_step-stopped log_flags e h = ground (arith, h)
  main_step-stopped test_busoff e h = ground (arith, h)
  main_step-stopped clear_busoff e h = ground (arith, h)
  main_step-stopped recovery e h = ground (arith, h)
  main_step-stopped elsewhere e h = ground (arith, h)
  main_step-stopped safe_state e h = refl

  handle-stopped :
      (v : Event) (e : ErrorState C)
      → is_stopped e.place ≡ true
      → is_stopped (handle hal v e).1.place ≡ true
  unfolding handle error_status_callback error_callback
  handle-stopped main_moves e h = main_step-stopped e.place e h
  handle-stopped (status_interrupt ecr warning passive) e h = h
  handle-stopped bus_off_interrupt e h = h

  warning-Progress : Progress hal has_warning (λ e. is_stopped e.place) WaitsIn to_go
  unfolding handle main_step error_status_callback error_callback
  warning-Progress = record {
    append = has_warning-append;
    step = λ e w. main_step-Waits e.place e w;
    stays = handle-stopped;
    status = λ ecr warning passive e w.
        (Waits-status e.place e.error_flags.warning e.flags.warning warning w, omega arith);
    bus_off = λ e w. (w, omega arith);
  }

  -- Whatever interrupts come between and after the steps of vMainTask: if the status interrupt
  -- reports a warning while vMainTask is not between the reading and the clearing of the flags, nine
  -- steps are enough for it to log the warning, unless it ends in the safe state.
  pub run-warns :
      (vs : List Event) (e : ErrorState C) (ecr : ℕ) (passive : Bool)
      → is_clearing e.place ≡ false
      → 9 ≤ moves vs
      → has_warning (run hal (status_interrupt ecr true passive ∷ vs) e).0
          || is_stopped (run hal (status_interrupt ecr true passive ∷ vs) e).1.place
        ≡ true
  unfolding run handle error_status_callback
  run-warns vs e ecr passive h enough =
      let e' = error_status_callback ecr true passive e in
      run-writes warning-Progress vs e'
        (Waits-raised e.place e.error_flags.warning e.flags.warning h)
        (omega (arith, enough, to_log_bound e.place e.flags.warning))
