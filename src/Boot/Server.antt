-- ===== src/Boot/Server.antt =====
-- The bootloader's flash server, Core/Src/bl_uds.c. A handler maps a request to its response
-- (empty for none) and the new state. `tick` gives the readings of HAL_GetTick of one request.
pub mod Transfer
pub mod Dispatch
pub mod Integrity
pub mod Policy
pub mod Keys
pub mod MetaPage
pub mod Rollback
pub mod Bounds
pub mod Image
mod Tests
use obd_simulator.Prelude.{
  ℕ, zero, suc, ◌+◌, ◌-◌, ◌*◌, ◌/◌, ◌%◌, List, [], ◌∷◌, ◌++◌, Bool, true, false, not, ◌&&◌, ◌||◌,
  leb, ltb, ◌==◌, if◌then◌else◌, length, take, drop, get_or, u8, u16, u32, be16, be32, byte1, byte2,
  byte3,
}
use obd_simulator.Session.{
  Session, session_programming, set_session, generate_seed, check_security_gate, verify_key,
  security_unlocked, SecGate, gate_ok, gate_delay, gate_locked, KeyResult, key_ok, key_invalid,
  key_exceeded_attempts, key_delay_not_expired,
}

-- The statics of bl_uds.c, the session manager's, the flash, and the calls of
-- ISO_TP_SendResponse that a handler makes itself, latest first.
pub record Server (F : Type 0) : Type 0 where
  pub session : Session
  pub flash : F
  pub xfer_active : Bool
  pub xfer_closed : Bool
  pub xfer_size : ℕ
  pub xfer_written : ℕ
  pub xfer_block_seq : ℕ
  pub saved_rollback : ℕ
  pub reset_pending : Bool
  pub outbox : List (ℕ × List ℕ)

-- `nrc`
abbrev pub nrc : ℕ → ℕ → List ℕ
nrc sid code = 0x7F ∷ sid ∷ code ∷ []

-- `req[1] & 0x7F`
abbrev pub sub_function : List ℕ → ℕ
sub_function req = get_or req 1 0 % 128

-- BL_UDS_ResetTransfer
unfoldable pub reset_transfer : {F : Type 0} → Server F → Server F
reset_transfer s = record s {
  xfer_active = false;
  xfer_closed = false;
  xfer_size = 0;
  xfer_written = 0;
  xfer_block_seq = 0;
}

-- The bootloader links empty bodies for the two calls on the way back to Default.
abbrev pub no_restore : Unit {0} → Unit {0}
no_restore u = u

module _ {F : Type 0} where
  -- `gate_flash_services`: the refusal, if any.
  unfoldable pub gate_flash_services : ℕ → Server F → List ℕ
  gate_flash_services sid s =
      if not (s.session.session_type == session_programming)
      then nrc sid 0x7F
      else if not (security_unlocked s.session)
      then nrc sid 0x33
      else []

  unfoldable pub handle_session_control : (ℕ → ℕ) → List ℕ → Server F → List ℕ × Server F
  handle_session_control tick req s =
      let sub = sub_function req in
      let (done, session', _) = set_session no_restore tick sub (s.session) tt in
      if ltb (length req) 2
      then (nrc 0x10 0x13, s)
      else if ltb sub 0x01 || ltb 0x03 sub
      then (nrc 0x10 0x12, s)
      else if done
      then (0x50 ∷ sub ∷ 0x00 ∷ 0x32 ∷ 0x01 ∷ 0xF4 ∷ [], record s { session = session' })
      else (nrc 0x10 0x22, s)

  unfoldable pub handle_ecu_reset : List ℕ → Server F → List ℕ × Server F
  handle_ecu_reset req s =
      let sub = sub_function req in
      if ltb (length req) 2
      then (nrc 0x11 0x13, s)
      else if not (sub == 0x01) && not (sub == 0x03)
      then (nrc 0x11 0x12, s)
      else (0x51 ∷ sub ∷ [], record s { reset_pending = true })

  -- The branch requestSeed of `handle_security_access`.
  unfoldable pub request_seed : (ℕ → ℕ) → ℕ → Server F → List ℕ × Server F
  request_seed tick level s =
      let (gate, session') = check_security_gate tick (s.session) in
      let seeded = generate_seed (λ i. tick (i + 1)) session' in
      elim gate [
        | gate_delay ↦ (nrc 0x27 0x37, record s { session = session' })
        | gate_locked ↦ (nrc 0x27 0x36, record s { session = session' })
        | gate_ok ↦
            (0x67 ∷ level ∷ byte1 seeded.seed ∷ u8 seeded.seed ∷ [], record s { session = seeded })
      ]

  unfoldable pub send_key : (ℕ → ℕ) → ℕ → ℕ → Server F → List ℕ × Server F
  send_key tick level key s =
      let (result, session') = verify_key tick key (s.session) in
      let s' = record s { session = session' } in
      elim result [
        | key_ok ↦ (0x67 ∷ level ∷ [], s')
        | key_exceeded_attempts ↦ (nrc 0x27 0x36, s')
        | key_delay_not_expired ↦ (nrc 0x27 0x37, s')
        | key_invalid ↦ (nrc 0x27 0x35, s')
      ]

  unfoldable pub handle_security_access : (ℕ → ℕ) → List ℕ → Server F → List ℕ × Server F
  unfolding request_seed send_key
  handle_security_access tick req s =
      let level = sub_function req in
      if ltb (length req) 2
      then (nrc 0x27 0x13, s)
      else if level % 2 == 1
      then request_seed tick level s
      else if ltb (length req) 4
      then (nrc 0x27 0x13, s)
      else send_key tick level (be16 (get_or req 2 0) (get_or req 3 0)) s

  unfoldable pub handle_tester_present : List ℕ → Server F → List ℕ × Server F
  handle_tester_present req s =
      let sub = sub_function req in
      if ltb (length req) 2
      then (nrc 0x3E 0x13, s)
      else if not (sub == 0x00)
      then (nrc 0x3E 0x12, s)
      else (0x7E ∷ sub ∷ [], s)

  unfoldable pub handle_noop_control : ℕ → List ℕ → Server F → List ℕ × Server F
  handle_noop_control sid req s =
      if ltb (length req) 2 then (nrc sid 0x13, s) else (u8 (sid + 0x40) ∷ sub_function req ∷ [], s)
