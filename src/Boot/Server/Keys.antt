-- ===== src/Boot/Server/Keys.antt =====
-- What it takes to change the flash: a right key, over any sequence of requests and rounds.
use obd_simulator.Prelude.{
  ℕ, ◌+◌, ◌%◌, ◌≡◌, ◌≢◌, ◌≤◌, ◌<◌, ◌⊎◌, inl, inr, List, [], ◌∷◌, true, get_or, arith, refl, ◌∙◌,
  be16, sub32, ◌==◌, ◌&&◌, Bool-cases,
}
use obd_simulator.Can.{AddrType}
use obd_simulator.Flash.{FlashPorts}
use obd_simulator.Session.{
  sec_locked, compute_key, boot_delay_ms, max_fail_attempts, lockout_time_ms, check_security_gate,
  generate_seed, security_unlocked, verify_key, set_session, session_tick, reset_s3_timeout,
  KeyResult, key_ok, key_invalid, key_exceeded_attempts, key_delay_not_expired,
}
use obd_simulator.Session.Security.{verify_key-ok, verify_key-refused}
use obd_simulator.Boot.Server.{
  Server, sub_function, gate_flash_services, handle_session_control, handle_ecu_reset, request_seed,
  send_key, handle_security_access, handle_tester_present, handle_noop_control, reset_transfer,
}
use obd_simulator.Boot.Server.Dispatch.{serve_request, dispatch_request, main_round}
use obd_simulator.Boot.Server.Policy.{dispatch_request-shut}

-- What happens to the server: a request, or a round of the main loop, with the readings of the tick
-- counter at that time and the session of the round before.
pub data Event : Type 0 where
  request : (readings : ℕ → ℕ) → List ℕ → AddrType → Event
  round : (readings : ℕ → ℕ) (now prev_session : ℕ) → Event

-- A request that carries the key of the seed which the server gave last, and which was not used;
-- after the boot delay, and outside a lockout.
pub record RightKey {F : Type 0} (readings : ℕ → ℕ) (req : List ℕ) (s : Server F) : Type 0 where
  pub service : get_or req 0 0 ≡ 0x27
  pub even : sub_function req % 2 ≡ 0
  pub right : be16 (get_or req 2 0) (get_or req 3 0) ≡ compute_key s.session.seed
  pub fresh : s.session.seed_is_fresh ≡ true
  pub started : boot_delay_ms ≤ sub32 (readings 1) s.session.boot_tick
  pub allowed :
      (s.session.fail_count < max_fail_attempts)
      ⊎ (lockout_time_ms ≤ sub32 (readings 1) s.session.lockout_start)

abbrev pub IsLocked : {F : Type 0} → Server F → Type 0
IsLocked s = s.session.security_level ≡ sec_locked

module _ {F : Type 0} (flash : FlashPorts F) where
  unfoldable pub handle_event : Event → Server F → Server F
  handle_event (request readings req addr) s = (dispatch_request flash readings req addr s).1
  handle_event (round readings now prev_session) s =
      (main_round flash readings now prev_session s).1

  unfoldable pub run : List Event → Server F → Server F
  unfolding handle_event
  run [] s = s
  run (e ∷ es) s = run es (handle_event e s)

  -- Some request of the sequence carries a right key when it comes.
  abbrev pub HasRightKey : List Event → Server F → Type 0
  HasRightKey [] s = ⊥
  HasRightKey (request readings req addr ∷ es) s =
      RightKey readings req s ⊎ HasRightKey es (handle_event (request readings req addr) s)
  HasRightKey (round readings now prev_session ∷ es) s =
      HasRightKey es (handle_event (round readings now prev_session) s)

  answer-cases : (r : KeyResult) → (r ≡ key_ok) ⊎ (r ≢ key_ok)
  answer-cases key_ok = inl refl
  answer-cases key_invalid = inr (λ e. cc)
  answer-cases key_exceeded_attempts = inr (λ e. cc)
  answer-cases key_delay_not_expired = inr (λ e. cc)

  send_key-session :
      (tick : ℕ → ℕ) (level key : ℕ) (s : Server F)
      → (send_key tick level key s).1.session ≡ (verify_key tick key (s.session)).1
  unfolding send_key
  send_key-session tick level key s = ground arith

  others-IsLocked :
      (tick : ℕ → ℕ) (sid : ℕ) (req : List ℕ) (s : Server F)
      → IsLocked s
      → IsLocked (handle_session_control tick req s).1
        × IsLocked (handle_ecu_reset req s).1
        × IsLocked (request_seed tick (sub_function req) s).1
        × IsLocked (handle_tester_present req s).1
        × IsLocked (handle_noop_control sid req s).1
  unfolding handle_session_control handle_ecu_reset request_seed check_security_gate generate_seed
      handle_tester_present handle_noop_control set_session
  others-IsLocked tick sid req s l =
      (ground arith, ground arith, ground arith, ground arith, ground arith)

  -- A request to a locked server leaves it locked, or carries a right key.
  serve_request-IsLocked :
      (readings : ℕ → ℕ) (req : List ℕ) (s : Server F)
      → IsLocked s
      → IsLocked (serve_request flash (λ i. readings (i + 1)) req s).1 ⊎ RightKey readings req s
  unfolding serve_request handle_security_access gate_flash_services security_unlocked
  serve_request-IsLocked readings req s l =
      let tick = λ (i : ℕ). readings (i + 1) in
      let sid = get_or req 0 0 in
      let level = sub_function req in
      let key = be16 (get_or req 2 0) (get_or req 3 0) in
      let others = others-IsLocked tick sid req s l in
      let session = send_key-session tick level key s in
      elim (answer-cases (verify_key tick key (s.session)).0) [
        | inr refused ↦
            let kept = verify_key-refused tick key (s.session) refused in inl (ground arith)
        | inl ok ↦
            let (right, fresh, started, allowed, _, _, _) = verify_key-ok tick key (s.session) ok in
            elim (Bool-cases (sid == 0x27 && level % 2 == 0)) [
              | inl asked ↦ inr (ground (arith, allowed))
              | inr other ↦ inl (ground arith)
            ]
      ]

  handle_event-IsLocked :
      (e : Event) (s : Server F)
      → IsLocked s
      → (((handle_event e s).flash ≡ s.flash) × IsLocked (handle_event e s))
        ⊎ HasRightKey (e ∷ []) s
  unfolding handle_event dispatch_request main_round session_tick set_session reset_transfer
  handle_event-IsLocked (request readings req addr) s l =
      let kept = dispatch_request-shut flash readings req addr s (inr l) in
      let active = record s { session = reset_s3_timeout readings (s.session) } in
      elim (serve_request-IsLocked readings req active (unfold reset_s3_timeout in ground arith)) [
        | inl locked ↦ inl (kept.same_flash, ground arith)
        | inr key ↦ inr (inl (unfold reset_s3_timeout in ground (arith, key.allowed)))
      ]
  handle_event-IsLocked (round readings now prev_session) s l = inl (ground arith, ground arith)

  -- Whatever requests come to a locked server, to whatever addresses, and however many rounds of the
  -- main loop run between them: the flash is as it was and the server is locked, or one of the
  -- requests was a SecurityAccess request with the key of the latest seed, unused until then, after
  -- the boot delay and outside a lockout.
  pub run-IsLocked :
      (es : List Event) (s : Server F)
      → IsLocked s
      → (((run es s).flash ≡ s.flash) × IsLocked (run es s)) ⊎ HasRightKey es s
  unfolding run
  run-IsLocked [] s l = inl (refl, l)
  run-IsLocked (request readings req addr ∷ es) s l =
      elim (handle_event-IsLocked (request readings req addr) s l) [
        | inr (inl key) ↦ inr (inl key)
        | inr (inr none) ↦ absurd none
        | inl (same, locked) ↦
            elim (run-IsLocked es (handle_event (request readings req addr) s) locked) [
              | inl (same', locked') ↦ inl (same' ∙ same, locked')
              | inr key ↦ inr (inr key)
            ]
      ]
  run-IsLocked (round readings now prev_session ∷ es) s l =
      elim (handle_event-IsLocked (round readings now prev_session) s l) [
        | inr none ↦ absurd none
        | inl (same, locked) ↦
            elim (run-IsLocked es (handle_event (round readings now prev_session) s) locked) [
              | inl (same', locked') ↦ inl (same' ∙ same, locked')
              | inr key ↦ inr key
            ]
      ]
