-- ===== src/Task/Errors/Pending.antt =====
-- No bus-off is missed, whatever the interleaving.
use obd_simulator.Prelude.{
  ℕ, suc, ◌≡◌, ◌<◌, ◌≤◌, List, ◌∷◌, Bool, true, false, ◌||◌, ◌⊎◌, inl, inr, arith, refl, Bool-cases,
}
use obd_simulator.Task.Controller.{CanHal}
use obd_simulator.Task.Errors.{
  Place, test_flags, read_flags, clear_flags, log_flags, test_busoff, clear_busoff, recovery,
  elsewhere, safe_state, ErrorState, error_status_callback, error_callback, Event,
  bus_off_interrupt, main_step, handle, run,
}
use obd_simulator.Task.Errors.Progress.{
  moves, has_recovery, has_recovery-append, is_stopped, Progress, run-writes,
}

-- The steps at most before the recovery begins, while a bus-off is pending.
abbrev to_recovery : Place → ℕ
to_recovery test_flags = 6
to_recovery read_flags = 5
to_recovery clear_flags = 4
to_recovery log_flags = 3
to_recovery test_busoff = 2
to_recovery clear_busoff = 1
to_recovery recovery = 0
to_recovery elsewhere = 7
to_recovery safe_state = 0

-- A bus-off waits for the recovery: its flag is set, or the recovery is the next step.
abbrev Waits : Place → Bool → Type 0
Waits recovery busoff = Unit {0}
Waits safe_state busoff = ⊥
Waits test_flags busoff = busoff ≡ true
Waits read_flags busoff = busoff ≡ true
Waits clear_flags busoff = busoff ≡ true
Waits log_flags busoff = busoff ≡ true
Waits test_busoff busoff = busoff ≡ true
Waits clear_busoff busoff = busoff ≡ true
Waits elsewhere busoff = busoff ≡ true

module _ {C : Type 0} (hal : CanHal C) where
  -- Each step comes nearer to the recovery or begins it.
  main_step-Waits :
      (p : Place) (e : ErrorState C)
      → Waits p e.busoff_detected
      → (has_recovery (main_step hal p e).0 ≡ true)
        ⊎ (false ≡ true)
        ⊎ ((Waits (main_step hal p e).1.place (main_step hal p e).1.busoff_detected)
            × (suc (to_recovery (main_step hal p e).1.place) ≤ to_recovery p))
  unfolding main_step
  main_step-Waits test_flags e w =
      elim (Bool-cases (e.error_flags.warning || e.error_flags.passive)) [
        | inl set ↦ inr (inr (ground (arith, w, set)))
        | inr clear ↦ inr (inr (ground (arith, w, clear)))
      ]
  main_step-Waits read_flags e w = inr (inr (w, omega arith))
  main_step-Waits clear_flags e w = inr (inr (w, omega arith))
  main_step-Waits log_flags e w = inr (inr (w, omega arith))
  main_step-Waits test_busoff e w = inr (inr (ground (arith, w)))
  main_step-Waits clear_busoff e w = inr (inr (tt, omega arith))
  main_step-Waits recovery e w = inl (ground (arith))
  main_step-Waits elsewhere e w = inr (inr (w, omega arith))
  main_step-Waits safe_state e w = absurd w

  Waits-busoff : (p : Place) (busoff : Bool) → Waits p busoff → Waits p true
  Waits-busoff test_flags busoff w = refl
  Waits-busoff read_flags busoff w = refl
  Waits-busoff clear_flags busoff w = refl
  Waits-busoff log_flags busoff w = refl
  Waits-busoff test_busoff busoff w = refl
  Waits-busoff clear_busoff busoff w = refl
  Waits-busoff recovery busoff w = tt
  Waits-busoff elsewhere busoff w = refl
  Waits-busoff safe_state busoff w = w

  Waits-pending : (p : Place) → is_stopped p ≡ false → Waits p true
  Waits-pending test_flags h = refl
  Waits-pending read_flags h = refl
  Waits-pending clear_flags h = refl
  Waits-pending log_flags h = refl
  Waits-pending test_busoff h = refl
  Waits-pending clear_busoff h = refl
  Waits-pending recovery h = tt
  Waits-pending elsewhere h = refl
  Waits-pending safe_state h = ground (arith, h)

  to_recovery_bound : (p : Place) → to_recovery p < 8
  to_recovery_bound test_flags = omega arith
  to_recovery_bound read_flags = omega arith
  to_recovery_bound clear_flags = omega arith
  to_recovery_bound log_flags = omega arith
  to_recovery_bound test_busoff = omega arith
  to_recovery_bound clear_busoff = omega arith
  to_recovery_bound recovery = omega arith
  to_recovery_bound elsewhere = omega arith
  to_recovery_bound safe_state = omega arith

  recovery-Progress :
      Progress hal has_recovery
        (λ e. false)
        (λ e. Waits e.place e.busoff_detected)
        (λ e. to_recovery e.place)
  unfolding error_status_callback error_callback
  recovery-Progress = record {
    append = has_recovery-append;
    step = λ e w. main_step-Waits e.place e w;
    stays = λ v e h. h;
    status = λ ecr warning passive e w. (w, omega arith);
    bus_off = λ e w. (Waits-busoff e.place e.busoff_detected w, omega arith);
  }

  -- Wherever vMainTask stands, save in the safe state, and whatever interrupts come before, between
  -- and after its steps: after a bus-off interrupt, eight steps are enough for it to begin a
  -- re-initialisation.
  pub run-recovers :
      (vs : List Event) (e : ErrorState C)
      → is_stopped e.place ≡ false
      → 8 ≤ moves vs
      → has_recovery (run hal (bus_off_interrupt ∷ vs) e).0 ≡ true
  unfolding run handle error_callback
  run-recovers vs e h enough =
      let e' = error_callback e in
      let written =
        run-writes recovery-Progress vs e' (Waits-pending e.place h)
          (omega (arith, enough, to_recovery_bound e.place)) in
      ground (arith, written)
