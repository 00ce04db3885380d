-- ===== src/Uds/Dispatch.antt =====
-- UDS_DispatchRequest of the application.
use obd_simulator.Prelude.{
  ℕ, ◌+◌, List, [], Bool, false, not, ◌&&◌, ◌||◌, leb, ◌==◌, if◌then◌else◌, length, get_or,
}
use obd_simulator.Can.{AddrType, addr_functional}
use obd_simulator.Session.{reset_s3_timeout}
use obd_simulator.Session.Access.{check_access, access_ok, access_wrong_session, access_locked}
use obd_simulator.Uds.{App, build_negative_response}
use obd_simulator.Uds.Control.{
  handle_session_control, handle_ecu_reset, handle_clear_dtc, handle_security_access,
  handle_routine_control, handle_tester_present, handle_communication_control,
  handle_control_dtc_setting,
}
use obd_simulator.Uds.ReadWrite.{
  handle_read_data_by_id, handle_read_mem_by_addr, handle_write_data_by_id,
  handle_input_output_control,
}
use obd_simulator.Uds.Dynamic.{handle_dynamic_define_did}
use obd_simulator.Uds.Periodic.{handle_read_data_periodic}
use obd_simulator.Uds.ReadDtc.{handle_read_dtc_information}
use obd_simulator.Uds.Obd.{
  handle_obd2_service01, handle_obd2_service03, handle_obd2_service04, handle_obd2_service07,
  handle_obd2_service09,
}

-- UDS_IsFunctionallyAddressable
unfoldable pub is_functionally_addressable : ℕ → Bool
is_functionally_addressable sid =
    sid == 0x01
    || sid == 0x03
    || sid == 0x04
    || sid == 0x07
    || sid == 0x09
    || sid == 0x3E
    || sid == 0x28
    || sid == 0x85

unfoldable pub is_ignored : AddrType → ℕ → Bool
unfolding is_functionally_addressable
is_ignored addr_functional sid = not (is_functionally_addressable sid)
is_ignored _ sid = false

-- A service behind `access_gate`.
unfoldable pub access_gate : ℕ → (App → List ℕ × App) → App → List ℕ × App
access_gate sid handler a = elim (check_access sid a.session) [
  | access_ok ↦ handler a
  | access_wrong_session ↦ (build_negative_response sid 0x7F, a)
  | access_locked ↦ (build_negative_response sid 0x33, a)
]

-- The services that the access table restricts, in the switch.
unfoldable pub serve_restricted : (ℕ → ℕ) → List ℕ → App → List ℕ × App
serve_restricted mem req a =
    let sid = get_or req 0 0 in
    if sid == 0x14
    then handle_clear_dtc req a
    else if sid == 0x23
    then (handle_read_mem_by_addr mem req, a)
    else if sid == 0x2A
    then handle_read_data_periodic req a
    else if sid == 0x2C
    then handle_dynamic_define_did req a
    else if sid == 0x31
    then handle_routine_control req a
    else if sid == 0x28
    then handle_communication_control req a
    else if sid == 0x85
    then handle_control_dtc_setting req a
    else if sid == 0x2E
    then handle_write_data_by_id req a
    else handle_input_output_control req a

abbrev pub is_gated : ℕ → Bool
is_gated sid =
    sid == 0x14
    || sid == 0x23
    || sid == 0x2A
    || sid == 0x2C
    || sid == 0x31
    || sid == 0x28
    || sid == 0x85
    || sid == 0x2E
    || sid == 0x2F

-- The other services.
unfoldable pub serve_open : (ℕ → ℕ) → (ℕ → ℕ) → List ℕ → App → List ℕ × App
serve_open mem tick req a =
    let sid = get_or req 0 0 in
    if sid == 0x01
    then (handle_obd2_service01 req a, a)
    else if sid == 0x03
    then (handle_obd2_service03 a, a)
    else if sid == 0x04
    then handle_obd2_service04 a
    else if sid == 0x07
    then (handle_obd2_service07 a, a)
    else if sid == 0x09
    then (handle_obd2_service09 req a, a)
    else if sid == 0x10
    then handle_session_control tick req a
    else if sid == 0x11
    then handle_ecu_reset req a
    else if sid == 0x22
    then (handle_read_data_by_id mem req a, a)
    else if sid == 0x19
    then (handle_read_dtc_information req a.dtc, a)
    else if sid == 0x27
    then handle_security_access tick req a
    else if sid == 0x3E
    then (handle_tester_present req, a)
    else (build_negative_response sid 0x11, a)

-- The switch on the service identifier.
unfoldable pub serve_request : (ℕ → ℕ) → (ℕ → ℕ) → List ℕ → App → List ℕ × App
serve_request mem tick req a =
    let sid = get_or req 0 0 in
    if is_gated sid then access_gate sid (serve_restricted mem req) a else serve_open mem tick req a

-- The services whose positive response bit 7 of the second byte suppresses.
unfoldable pub is_suppressible : ℕ → Bool
is_suppressible sid =
    sid == 0x10
    || sid == 0x11
    || sid == 0x27
    || sid == 0x31
    || sid == 0x3E
    || sid == 0x19
    || sid == 0x85
    || sid == 0x2A
    || sid == 0x2C

unfoldable pub suppress : List ℕ → List ℕ → List ℕ
unfolding is_suppressible
suppress req resp =
    if not (length resp == 0)
      && not (get_or resp 0 0 == 0x7F)
      && leb 2 (length req)
      && leb 128 (get_or req 1 0)
      && is_suppressible (get_or req 0 0)
    then []
    else resp

unfoldable pub dispatch_request : (ℕ → ℕ) → (ℕ → ℕ) → List ℕ → AddrType → App → List ℕ × App
unfolding suppress is_ignored
dispatch_request mem tick req addr a =
    let active = record a { session = reset_s3_timeout tick a.session } in
    let (resp, a') = serve_request mem (λ i. tick (i + 1)) req active in
    if length req == 0 || is_ignored addr (get_or req 0 0) then ([], a) else (suppress req resp, a')
