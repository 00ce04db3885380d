-- ===== src/Session/Security.antt =====
-- SecurityAccess: what unlocks, and the life of a seed.
use obd_simulator.Prelude.{ℕ, ◌≡◌, ◌≢◌, ◌≤◌, ◌<◌, true, false, arith, sub32, ◌⊎◌}
use obd_simulator.Session.{
  Session, key_ok, sec_level1, boot_delay_ms, lockout_time_ms, max_fail_attempts, compute_key,
  verify_key, session_tick, session_default, generate_seed, s3_timeout_ms, security_unlocked,
}
use obd_simulator.Session.Access.{
  IsRestricted, check_access, access_wrong_session, restricted_wrong_session,
}

-- A call of DiagSession_VerifyKey answers OK only to the key of a fresh seed, after the boot delay
-- and outside a lockout; it then unlocks, uses the seed up, and clears the failure count.
pub verify_key-ok :
    (tick : ℕ → ℕ) (key : ℕ) (s : Session)
    → (verify_key tick key s).0 ≡ key_ok
    → (key ≡ compute_key s.seed)
      × (s.seed_is_fresh ≡ true)
      × (boot_delay_ms ≤ sub32 (tick 0) s.boot_tick)
      × ((s.fail_count < max_fail_attempts) ⊎ (lockout_time_ms ≤ sub32 (tick 0) s.lockout_start))
      × ((verify_key tick key s).1.security_level ≡ sec_level1)
      × ((verify_key tick key s).1.seed_is_fresh ≡ false)
      × ((verify_key tick key s).1.fail_count ≡ 0)
unfolding verify_key
verify_key-ok tick key s h = ground arith

-- A call of DiagSession_VerifyKey that does not answer OK leaves the security level as it was.
pub verify_key-refused :
    (tick : ℕ → ℕ) (key : ℕ) (s : Session)
    → (verify_key tick key s).0 ≢ key_ok
    → (verify_key tick key s).1.security_level ≡ s.security_level
unfolding verify_key
verify_key-refused tick key s h = ground arith

-- A generated seed is fresh and never 0.
pub generate_seed-ne-zero :
    (tick : ℕ → ℕ) (s : Session)
    → ((generate_seed tick s).seed ≢ 0) × ((generate_seed tick s).seed_is_fresh ≡ true)
unfolding generate_seed
generate_seed-ne-zero tick s = ground arith

-- The S3 timeout: outside the default session, after five seconds without activity, the tick
-- leaves the default session, locked, with the defaults restored; every service that the access
-- table restricts is then refused.
pub session_tick-refuses :
    {A : Type 0} (restore : A → A) (tick : ℕ → ℕ) (now sid : ℕ) (s : Session) (a : A)
    → IsRestricted sid
    → s.session_type ≢ session_default
    → s3_timeout_ms ≤ sub32 now s.last_activity_tick
    → (let r = session_tick restore tick now s a in
        (r.0.session_type ≡ session_default)
        × (security_unlocked r.0 ≡ false)
        × (r.1 ≡ restore a)
        × (check_access sid r.0 ≡ access_wrong_session))
unfolding session_tick security_unlocked
session_tick-refuses restore tick now sid s a r n late =
    let s' = (session_tick restore tick now s a).0 in
    let back : s'.session_type ≡ session_default = ground arith in
    (
      back,
      ground arith,
      ground arith,
      restricted_wrong_session sid s' r (λ e. absurd (omega (arith, back, e))),
    )
