-- ===== src/Session/Tests.antt =====
-- Runs of the session manager, and its theorems at concrete inputs.
use obd_simulator.Prelude.{
  ℕ, ◌≡◌, ◌≢◌, ◌⊎◌, ◌≤◌, ◌<◌, ◌+◌, refl, arith, List, [], ◌∷◌, true, false, inl, inr, sub32,
}
use obd_simulator.Session.{
  Session, compute_key, verify_key, compare_key, check_security_gate, generate_seed, session_tick,
  security_unlocked, key_ok, boot_delay_ms, max_fail_attempts, lockout_time_ms, sec_level1,
  session_default,
}
use obd_simulator.Session.Access.{check_access, access_locked, access_wrong_session, secured_locked}
use obd_simulator.Session.Security.{verify_key-ok, verify_key-refused, session_tick-refuses}
use obd_simulator.Session.Lockout.{
  Move, ask, send, move, moves, Attempt, attempt, attempts, AreWrong, moves-lockout,
}

-- The worked example above `compute_key` in the source says 0xCE5D.
compute_key_source_example : compute_key 0xA3F7 ≡ 0xCE5F
unfolding compute_key
compute_key_source_example = refl

-- The extended session, a seed asked for, after `n` failures.
abbrev asked : ℕ → Session
asked n = record {
  session_type = 0x03;
  security_level = 0x00;
  seed = 0xA3F7;
  seed_is_fresh = true;
  last_activity_tick = 2000;
  fail_count = n;
  lockout_start = 1500;
  boot_tick = 0;
}

abbrev at : ℕ → ℕ → ℕ
at t i = t

unlocks : (verify_key (at 2500) 0xCE5F (asked 0)).0 ≡ key_ok
unfolding verify_key
unlocks = refl

refuses : (verify_key (at 2500) 0xCE5D (asked 0)).0 ≢ key_ok
unfolding verify_key
refuses e = ground arith

verify_key-ok_example :
    (0xCE5F ≡ compute_key 0xA3F7)
    × ((asked 0).seed_is_fresh ≡ true)
    × (boot_delay_ms ≤ sub32 2500 0)
    × ((0 < max_fail_attempts) ⊎ (lockout_time_ms ≤ sub32 2500 1500))
    × ((verify_key (at 2500) 0xCE5F (asked 0)).1.security_level ≡ sec_level1)
    × ((verify_key (at 2500) 0xCE5F (asked 0)).1.seed_is_fresh ≡ false)
    × ((verify_key (at 2500) 0xCE5F (asked 0)).1.fail_count ≡ 0)
verify_key-ok_example = verify_key-ok (at 2500) 0xCE5F (asked 0) unlocks

stays_locked_after_refusal : (verify_key (at 2500) 0xCE5D (asked 0)).1.security_level ≡ 0x00
stays_locked_after_refusal = verify_key-refused (at 2500) 0xCE5D (asked 0) refuses

-- Three wrong keys, and then the right key of the seed asked for at 1510, in the lockout.
abbrev wrong_at : ℕ → Attempt
wrong_at t = record { asks = at t; sends = at (t + 5); key = 0 }

abbrev guesses : List Attempt
guesses = wrong_at 1490 ∷ wrong_at 1500 ∷ wrong_at 1510 ∷ []

abbrev tries : List Move
tries = ask (at 1600) ∷ send (at 1700) (compute_key 1510) ∷ send (at 9000) (compute_key 1510) ∷ []

guesses-AreWrong : AreWrong guesses (asked 0)
unfolding attempt move check_security_gate generate_seed compute_key verify_key compare_key
guesses-AreWrong = ground arith

locks : (attempts guesses (asked 0)).lockout_start ≡ 1515
unfolding attempts attempt move check_security_gate generate_seed verify_key compare_key
locks = refl

moves-lockout_example :
    (moves tries (attempts guesses (asked 0)) ≡ attempts guesses (asked 0))
    × ((attempts guesses (asked 0)).security_level ≡ 0x00)
moves-lockout_example =
    moves-lockout (wrong_at 1490) (wrong_at 1500 ∷ wrong_at 1510 ∷ []) tries (asked 0) refl
      guesses-AreWrong (omega arith, (omega arith, (omega arith, tt)))

locked_write_refused : check_access 0x2E (asked 0) ≡ access_locked
locked_write_refused = secured_locked 0x2E (asked 0) (inr (inl refl)) refl

silent_tester_is_refused :
    (let r = session_tick (λ (n : ℕ). 0) (at 7000) 7000 (asked 0) 5 in
      (r.0.session_type ≡ session_default)
      × (security_unlocked r.0 ≡ false)
      × (r.1 ≡ 0)
      × (check_access 0x2E r.0 ≡ access_wrong_session))
silent_tester_is_refused =
    session_tick-refuses (λ (n : ℕ). 0) (at 7000) 7000 0x2E (asked 0) 5 (inl (inr (inl refl)))
      (λ e. absurd (omega (arith, e))) (omega arith)
