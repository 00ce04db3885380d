-- ===== src/Task/Errors/Progress.antt =====
-- Steps towards a line of vMainTask, whatever interrupts come between.
use obd_simulator.Prelude.{
  ℕ, suc, ◌≡◌, ◌<◌, ◌≤◌, List, [], ◌∷◌, ◌++◌, Bool, true, false, ◌||◌, ◌⊎◌, inl, inr, arith, refl,
}
use obd_simulator.Task.Controller.{CanHal}
use obd_simulator.Task.Errors.{
  Place, test_flags, read_flags, clear_flags, log_flags, test_busoff, clear_busoff, recovery,
  elsewhere, safe_state, Line, warn_line, passive_line, recovery_line, recovered_line,
  safe_state_line, ErrorState, error_status_callback, error_callback, Event, main_moves,
  status_interrupt, bus_off_interrupt, main_step, handle, run,
}

abbrev pub moves : List Event → ℕ
moves [] = 0
moves (main_moves ∷ vs) = suc (moves vs)
moves (status_interrupt ecr warning passive ∷ vs) = moves vs
moves (bus_off_interrupt ∷ vs) = moves vs

abbrev pub has_recovery : List Line → Bool
has_recovery [] = false
has_recovery (warn_line tec rec ∷ ls) = has_recovery ls
has_recovery (passive_line tec rec ∷ ls) = has_recovery ls
has_recovery (recovery_line ∷ ls) = true
has_recovery (recovered_line ∷ ls) = has_recovery ls
has_recovery (safe_state_line ∷ ls) = has_recovery ls

pub has_recovery-append :
    (ls ks : List Line) → has_recovery (ls ++ ks) ≡ has_recovery ls || has_recovery ks
has_recovery-append [] ks = refl
has_recovery-append (warn_line tec rec ∷ ls) ks = has_recovery-append ls ks
has_recovery-append (passive_line tec rec ∷ ls) ks = has_recovery-append ls ks
has_recovery-append (recovery_line ∷ ls) ks = refl
has_recovery-append (recovered_line ∷ ls) ks = has_recovery-append ls ks
has_recovery-append (safe_state_line ∷ ls) ks = has_recovery-append ls ks

abbrev pub has_warning : List Line → Bool
has_warning [] = false
has_warning (warn_line tec rec ∷ ls) = true
has_warning (passive_line tec rec ∷ ls) = has_warning ls
has_warning (recovery_line ∷ ls) = has_warning ls
has_warning (recovered_line ∷ ls) = has_warning ls
has_warning (safe_state_line ∷ ls) = has_warning ls

pub has_warning-append :
    (ls ks : List Line) → has_warning (ls ++ ks) ≡ has_warning ls || has_warning ks
has_warning-append [] ks = refl
has_warning-append (warn_line tec rec ∷ ls) ks = refl
has_warning-append (passive_line tec rec ∷ ls) ks = has_warning-append ls ks
has_warning-append (recovery_line ∷ ls) ks = has_warning-append ls ks
has_warning-append (recovered_line ∷ ls) ks = has_warning-append ls ks
has_warning-append (safe_state_line ∷ ls) ks = has_warning-append ls ks

abbrev pub is_stopped : Place → Bool
is_stopped test_flags = false
is_stopped read_flags = false
is_stopped clear_flags = false
is_stopped log_flags = false
is_stopped test_busoff = false
is_stopped clear_busoff = false
is_stopped recovery = false
is_stopped elsewhere = false
is_stopped safe_state = true

-- The local copy is taken and the shared flags are not yet cleared.
abbrev pub is_clearing : Place → Bool
is_clearing test_flags = false
is_clearing read_flags = false
is_clearing clear_flags = true
is_clearing log_flags = false
is_clearing test_busoff = false
is_clearing clear_busoff = false
is_clearing recovery = false
is_clearing elsewhere = false
is_clearing safe_state = false

-- Something waits for a line that `has` looks for: a step writes the line, gives up for good, or
-- keeps it waiting, with fewer steps to go; an interrupt keeps it waiting.
pub record Progress {C : Type 0} (hal : CanHal C) (has : List Line → Bool)
    (gives_up : ErrorState C → Bool) (Waiting : ErrorState C → Type 0) (to_go : ErrorState C → ℕ)
    : Type 0 where
  pub append : (ls ks : List Line) → has (ls ++ ks) ≡ has ls || has ks
  pub step :
      (e : ErrorState C)
      → Waiting e
      → (has (main_step hal e.place e).0 ≡ true)
        ⊎ (gives_up (main_step hal e.place e).1 ≡ true)
        ⊎ (Waiting (main_step hal e.place e).1
            × (suc (to_go (main_step hal e.place e).1) ≤ to_go e))
  pub stays :
      (v : Event) (e : ErrorState C) → gives_up e ≡ true → gives_up (handle hal v e).1 ≡ true
  pub status :
      (ecr : ℕ) (warning passive : Bool) (e : ErrorState C)
      → Waiting e
      → Waiting (error_status_callback ecr warning passive e)
        × (to_go (error_status_callback ecr warning passive e) ≤ to_go e)
  pub bus_off :
      (e : ErrorState C)
      → Waiting e
      → Waiting (error_callback e) × (to_go (error_callback e) ≤ to_go e)

module _ {C : Type 0} {hal : CanHal C} {has : List Line → Bool} {gives_up : ErrorState C → Bool}
    {Waiting : ErrorState C → Type 0} {to_go : ErrorState C → ℕ}
    (progress : Progress hal has gives_up Waiting to_go) where
  run-gives_up :
      (vs : List Event) (e : ErrorState C) → gives_up e ≡ true → gives_up (run hal vs e).1 ≡ true
  unfolding run
  run-gives_up [] e h = h
  run-gives_up (v ∷ vs) e h = run-gives_up vs (handle hal v e).1 (progress.stays v e h)

  -- With enough steps the line is written, unless vMainTask gives up.
  pub run-writes :
      (vs : List Event) (e : ErrorState C)
      → Waiting e
      → to_go e < moves vs
      → has (run hal vs e).0 || gives_up (run hal vs e).1 ≡ true
  unfolding run handle
  run-writes [] e w h = absurd (omega (arith, h))
  run-writes (status_interrupt ecr warning passive ∷ vs) e w h =
      let kept = progress.status ecr warning passive e w in
      run-writes vs (error_status_callback ecr warning passive e) kept.0 (omega (arith, h, kept.1))
  run-writes (bus_off_interrupt ∷ vs) e w h =
      let kept = progress.bus_off e w in
      run-writes vs (error_callback e) kept.0 (omega (arith, h, kept.1))
  run-writes (main_moves ∷ vs) e w h =
      let out = (main_step hal e.place e).0 in
      let e' = (main_step hal e.place e).1 in
      let split = progress.append out (run hal vs e').0 in
      elim (progress.step e w) [
        | inl written ↦ ground (arith, split, written)
        | inr (inl stopped) ↦ ground (arith, run-gives_up vs e' stopped)
        | inr (inr on) ↦
            let rest = run-writes vs e' on.0 (omega (arith, h, on.1)) in ground (arith, split, rest)
      ]
