-- ===== src/Uds/Control.antt =====
-- The services that control the session, resets, security, routines and communication: 0x10, 0x11,
-- 0x14, 0x27, 0x28, 0x31, 0x3E and 0x85.
use obd_simulator.Prelude.{
  ℕ, ◌+◌, ◌%◌, List, [], ◌∷◌, Bool, not, ◌&&◌, ◌||◌, leb, ltb, ◌==◌, if◌then◌else◌, length, get_or,
  u8, be16, byte1,
}
use obd_simulator.Session.{
  session_programming, set_session, generate_seed, check_security_gate, verify_key, gate_ok,
  gate_delay, gate_locked, key_ok, key_invalid, key_exceeded_attempts, key_delay_not_expired,
}
use obd_simulator.Boot.{handoff_magic, reason_update}
use obd_simulator.Obd2.Dtc.{dtc_clear, dtc_setting_control, inject_demo}
use obd_simulator.Uds.{App, build_negative_response, sub_function, restore}

-- The state of DiagSession_SetSession, put back into the application's.
unfoldable pub enter_session : (ℕ → ℕ) → ℕ → App → Bool × App
enter_session tick kind a =
    let (done, session', (dtc', periodic')) =
      set_session restore tick kind a.session (a.dtc, a.periodic) in
    (done, record a { session = session'; dtc = dtc'; periodic = periodic' })

-- The hand-over to the bootloader.
unfoldable pub hand_over : App → App
hand_over a = record a {
  handoff = record { magic = handoff_magic; reason = reason_update };
  soft_reset = 1;
}

unfoldable pub handle_session_control : (ℕ → ℕ) → List ℕ → App → List ℕ × App
unfolding enter_session hand_over
handle_session_control tick req a =
    let sub = sub_function (get_or req 1 0) in
    let (done, a') = enter_session tick sub a in
    if ltb (length req) 2
    then (build_negative_response 0x10 0x13, a)
    else if not (sub == 0x01) && not (sub == 0x02) && not (sub == 0x03)
    then (build_negative_response 0x10 0x12, a)
    else if not done
    then (build_negative_response 0x10 0x22, a')
    else (
      0x50 ∷ sub ∷ 0x00 ∷ 0x32 ∷ 0x01 ∷ 0xF4 ∷ [],
      if sub == session_programming then hand_over a' else a',
    )

unfoldable pub handle_ecu_reset : List ℕ → App → List ℕ × App
handle_ecu_reset req a =
    let reset_type = sub_function (get_or req 1 0) in
    if ltb (length req) 2
    then (build_negative_response 0x11 0x13, a)
    else if reset_type == 0x01
    then (0x51 ∷ 0x01 ∷ [], record a { soft_reset = 2 })
    else if reset_type == 0x03
    then (0x51 ∷ 0x03 ∷ [], record a { soft_reset = 1 })
    else (build_negative_response 0x11 0x12, a)

unfoldable pub handle_clear_dtc : List ℕ → App → List ℕ × App
handle_clear_dtc req a =
    if not (length req == 4)
    then (build_negative_response 0x14 0x13, a)
    else if not (get_or req 1 0 == 0xFF)
        || not (get_or req 2 0 == 0xFF)
        || not (get_or req 3 0 == 0xFF)
    then (build_negative_response 0x14 0x31, a)
    else (0x54 ∷ [], record a { dtc = dtc_clear a.dtc })

-- The branch requestSeed of `handle_security_access`.
unfoldable pub request_seed : (ℕ → ℕ) → ℕ → App → List ℕ × App
request_seed tick level a =
    let (gate, session') = check_security_gate tick a.session in
    let seeded = generate_seed (λ i. tick (i + 1)) session' in
    elim gate [
      | gate_delay ↦ (build_negative_response 0x27 0x37, record a { session = session' })
      | gate_locked ↦ (build_negative_response 0x27 0x36, record a { session = session' })
      | gate_ok ↦
          (0x67 ∷ level ∷ byte1 seeded.seed ∷ u8 seeded.seed ∷ [], record a { session = seeded })
    ]

-- The branch sendKey.
unfoldable pub send_key : (ℕ → ℕ) → ℕ → ℕ → App → List ℕ × App
send_key tick level key a =
    let (result, session') = verify_key tick key a.session in
    let a' = record a { session = session' } in
    elim result [
      | key_ok ↦ (0x67 ∷ level ∷ [], a')
      | key_exceeded_attempts ↦ (build_negative_response 0x27 0x36, a')
      | key_delay_not_expired ↦ (build_negative_response 0x27 0x37, a')
      | key_invalid ↦ (build_negative_response 0x27 0x35, a')
    ]

unfoldable pub handle_security_access : (ℕ → ℕ) → List ℕ → App → List ℕ × App
unfolding request_seed send_key
handle_security_access tick req a =
    let level = sub_function (get_or req 1 0) in
    if ltb (length req) 2
    then (build_negative_response 0x27 0x13, a)
    else if level % 2 == 1
    then request_seed tick level a
    else if ltb (length req) 4
    then (build_negative_response 0x27 0x13, a)
    else send_key tick level (be16 (get_or req 2 0) (get_or req 3 0)) a

-- The start of a routine: 0x0201 clears the trouble codes, 0x0202 injects one.
unfoldable pub start_routine : ℕ → App → App
start_routine routine a =
    if routine == 0x0201
    then record a { dtc = dtc_clear a.dtc }
    else record a { dtc = inject_demo a.sim a.dtc }

unfoldable pub handle_routine_control : List ℕ → App → List ℕ × App
unfolding start_routine
handle_routine_control req a =
    let sub = get_or req 1 0 in
    let routine = be16 (get_or req 2 0) (get_or req 3 0) in
    if ltb (length req) 4
    then (build_negative_response 0x31 0x13, a)
    else if ltb sub 0x01 || ltb 0x03 sub
    then (build_negative_response 0x31 0x12, a)
    else if not (routine == 0x0201) && not (routine == 0x0202)
    then (build_negative_response 0x31 0x31, a)
    else (
      0x71 ∷ sub ∷ byte1 routine ∷ u8 routine ∷ [],
      if sub == 0x01 then start_routine routine a else a,
    )

unfoldable pub handle_tester_present : List ℕ → List ℕ
handle_tester_present req =
    let sub = get_or req 1 0 in
    if ltb (length req) 2
    then build_negative_response 0x3E 0x13
    else if not (sub_function sub == 0x00)
    then build_negative_response 0x3E 0x12
    else if leb 128 sub
    then []
    else 0x7E ∷ sub ∷ []

unfoldable pub handle_communication_control : List ℕ → App → List ℕ × App
handle_communication_control req a =
    let control = sub_function (get_or req 1 0) in
    if ltb (length req) 2
    then (build_negative_response 0x28 0x13, a)
    else if ltb 0x03 control
    then (build_negative_response 0x28 0x12, a)
    else (
      0x68 ∷ control ∷ [],
      record a {
        comm_rx = control == 0x00 || control == 0x01;
        comm_tx = control == 0x00 || control == 0x02;
      },
    )

unfoldable pub handle_control_dtc_setting : List ℕ → App → List ℕ × App
handle_control_dtc_setting req a =
    let sub = sub_function (get_or req 1 0) in
    if ltb (length req) 2
    then (build_negative_response 0x85 0x13, a)
    else if not (sub == 0x01) && not (sub == 0x02)
    then (build_negative_response 0x85 0x12, a)
    else (0xC5 ∷ sub ∷ [], record a { dtc = dtc_setting_control (sub == 0x01) a.dtc })
