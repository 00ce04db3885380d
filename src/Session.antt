-- ===== src/Session.antt =====
-- The diagnostic session manager, Core/Src/diag_session.c and Core/Inc/diag_session.h.
-- A function that calls HAL_GetTick takes `tick`, whose i-th value is the i-th reading of the
-- call; the statics of the file are one record.
pub mod Access
pub mod Security
pub mod Lockout
mod Tests
use obd_simulator.Prelude.{
  ℕ, ◌+◌, ◌*◌, ◌/◌, ◌&&◌, Bool, true, false, not, List, [], ◌∷◌, ◌==◌, ltb, leb, if◌then◌else◌,
  bit_xor, u8, u16, u32, sub32,
}

abbrev pub session_default : ℕ
session_default = 0x01

abbrev pub session_programming : ℕ
session_programming = 0x02

abbrev pub session_extended : ℕ
session_extended = 0x03

abbrev pub sec_locked : ℕ
sec_locked = 0x00

abbrev pub sec_level1 : ℕ
sec_level1 = 0x01

abbrev pub s3_timeout_ms : ℕ
s3_timeout_ms = 5000

abbrev pub boot_delay_ms : ℕ
boot_delay_ms = 1000

abbrev pub max_fail_attempts : ℕ
max_fail_attempts = 3

abbrev pub lockout_time_ms : ℕ
lockout_time_ms = 10000

abbrev pub seed_xor_mask : ℕ
seed_xor_mask = 0x5A3C

-- DiagKeyResult_t and DiagSecGate_t
pub data KeyResult : Type 0 where
  key_ok key_invalid key_exceeded_attempts key_delay_not_expired : KeyResult

pub data SecGate : Type 0 where
  gate_ok gate_delay gate_locked : SecGate

-- Diag_Session_t, `s_fail_count`, `s_lockout_start` and `s_boot_tick`.
pub record Session : Type 0 where
  pub session_type : ℕ
  pub security_level : ℕ
  pub seed : ℕ
  pub seed_is_fresh : Bool
  pub last_activity_tick : ℕ
  pub fail_count : ℕ
  pub lockout_start : ℕ
  pub boot_tick : ℕ

-- DiagSession_Init; `s_lockout_start` and `s_boot_tick` keep their values.
unfoldable pub init : (ℕ → ℕ) → Session → Session
init tick s = record s {
  session_type = session_default;
  security_level = sec_locked;
  seed = 0;
  seed_is_fresh = false;
  last_activity_tick = tick 0;
  fail_count = 0;
}

unfoldable pub mark_boot_ready : (ℕ → ℕ) → Session → Session
mark_boot_ready tick s = record s { boot_tick = tick 0 }

unfoldable pub is_session : ℕ → Bool
is_session kind =
    if kind == session_default
    then true
    else if kind == session_programming
    then true
    else kind == session_extended

-- DiagSession_SetSession, true for the return value 0. `restore` stands for the two calls on the
-- way back to Default, `OBD2_DtcSettingControl(1)` and `UDS_PeriodicStopAll()`.
unfoldable pub set_session : {A : Type 0} → (A → A) → (ℕ → ℕ) → ℕ → Session → A → Bool × Session × A
unfolding is_session
set_session restore tick kind s a =
    let s' = record s { session_type = kind; last_activity_tick = tick 0 } in
    if not (is_session kind)
    then (false, s, a)
    else if kind == session_default
    then (true, record s' { security_level = sec_locked }, restore a)
    else (true, s', a)

-- DiagSession_GenerateSeed; the seed is in the new state.
unfoldable pub generate_seed : (ℕ → ℕ) → Session → Session
generate_seed tick s =
    let mixed = u16 (bit_xor (tick 0) (tick 0 / 65536)) in
    record s {
      seed = if mixed == 0 then 0x0001 else mixed;
      seed_is_fresh = true;
      last_activity_tick = tick 1;
    }

unfoldable pub check_security_gate : (ℕ → ℕ) → Session → SecGate × Session
check_security_gate tick s =
    if ltb (sub32 (tick 0) s.boot_tick) boot_delay_ms
    then (gate_delay, s)
    else if leb max_fail_attempts s.fail_count
    then (if ltb (sub32 (tick 0) s.lockout_start) lockout_time_ms
        then (gate_locked, s)
        else (gate_ok, record s { fail_count = 0 }))
    else (gate_ok, s)

-- The two shifted halves of the rotation have no bit in common, so `|` is `+`.
unfoldable pub compute_key : ℕ → ℕ
compute_key seed = let xored = bit_xor seed seed_xor_mask in u16 (xored * 8 + xored / 8192)

-- DiagSession_VerifyKey behind its gate.
unfoldable pub compare_key : (ℕ → ℕ) → ℕ → Session → KeyResult × Session
unfolding compute_key
compare_key tick key s =
    let used = record s { seed_is_fresh = false } in
    let failed = record used { fail_count = u8 (s.fail_count + 1) } in
    if not s.seed_is_fresh
    then (key_invalid, s)
    else if key == compute_key s.seed
    then (
      key_ok,
      record used { security_level = sec_level1; fail_count = 0; last_activity_tick = tick 1 },
    )
    else (
      key_invalid,
      if leb max_fail_attempts failed.fail_count
          then record failed { lockout_start = tick 1 }
          else failed,
    )

unfoldable pub verify_key : (ℕ → ℕ) → ℕ → Session → KeyResult × Session
unfolding check_security_gate compare_key
verify_key tick key s =
    let (gate, s') = check_security_gate tick s in
    elim gate [
      | gate_delay ↦ (key_delay_not_expired, s')
      | gate_locked ↦ (key_exceeded_attempts, s')
      | gate_ok ↦ compare_key tick key s'
    ]

unfoldable pub reset_s3_timeout : (ℕ → ℕ) → Session → Session
reset_s3_timeout tick s = record s { last_activity_tick = tick 0 }

-- DiagSession_SecurityUnlocked
unfoldable pub security_unlocked : Session → Bool
security_unlocked s = not (s.security_level == sec_locked)

-- DiagSession_Tick
unfoldable pub session_tick : {A : Type 0} → (A → A) → (ℕ → ℕ) → ℕ → Session → A → Session × A
unfolding set_session
session_tick restore tick now s a =
    let (done, s', a') = set_session restore tick session_default s a in
    if s.session_type == session_default
    then (s, a)
    else if leb s3_timeout_ms (sub32 now s.last_activity_tick)
    then (s', a')
    else (s, a)
