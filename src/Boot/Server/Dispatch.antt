-- ===== src/Boot/Server/Dispatch.antt =====
-- The bootloader's UDS_DispatchRequest and the round of its main loop (Core/Src/bl_uds.c,
-- Core/Src/bl_main.c).
use obd_simulator.Prelude.{
  ℕ, ◌+◌, List, [], ◌∷◌, Bool, false, not, ◌&&◌, ◌||◌, leb, ◌==◌, if◌then◌else◌, length, get_or,
}
use obd_simulator.Can.{AddrType, addr_functional}
use obd_simulator.Flash.{FlashPorts}
use obd_simulator.Boot.{bl_app_crc_ok}
use obd_simulator.Session.{session_default, reset_s3_timeout, session_tick}
use obd_simulator.Boot.Server.{
  Server, nrc, reset_transfer, no_restore, gate_flash_services, handle_session_control,
  handle_ecu_reset, handle_security_access, handle_tester_present, handle_noop_control,
}
use obd_simulator.Boot.Server.Transfer.{
  handle_request_download, handle_transfer_data, handle_request_transfer_exit,
  handle_routine_control,
}

-- The services that answer a functional request.
unfoldable pub is_functional : ℕ → Bool
is_functional sid = sid == 0x3E || sid == 0x10 || sid == 0x11

unfoldable pub is_ignored : AddrType → ℕ → Bool
unfolding is_functional
is_ignored addr_functional sid = not (is_functional sid)
is_ignored _ sid = false

-- The services whose positive response bit 7 of the subfunction suppresses.
unfoldable pub is_suppressible : ℕ → Bool
is_suppressible sid =
    sid == 0x10 || sid == 0x11 || sid == 0x27 || sid == 0x31 || sid == 0x3E || sid == 0x85

unfoldable pub suppress : List ℕ → List ℕ → List ℕ
unfolding is_suppressible
suppress req resp =
    if not (length resp == 0)
      && not (get_or resp 0 0 == 0x7F)
      && leb 2 (length req)
      && leb 128 (get_or req 1 0)
      && is_suppressible (get_or req 0 0)
    then []
    else resp

module _ {F : Type 0} (flash : FlashPorts F) where
  -- A flash service behind `gate_flash_services`.
  abbrev pub gated : ℕ → (Server F → List ℕ × Server F) → Server F → List ℕ × Server F
  gated sid handler s = elim (gate_flash_services sid s) [ [] ↦ handler s | c ∷ cs ↦ (c ∷ cs, s) ]

  -- The switch on the service identifier.
  unfoldable pub serve_request : (ℕ → ℕ) → List ℕ → Server F → List ℕ × Server F
  serve_request tick req s =
      let sid = get_or req 0 0 in
      if sid == 0x10
      then handle_session_control tick req s
      else if sid == 0x11
      then handle_ecu_reset req s
      else if sid == 0x27
      then handle_security_access tick req s
      else if sid == 0x3E
      then handle_tester_present req s
      else if sid == 0x28 || sid == 0x85
      then handle_noop_control sid req s
      else if sid == 0x34
      then gated sid (handle_request_download flash req) s
      else if sid == 0x36
      then gated sid (handle_transfer_data flash req) s
      else if sid == 0x37
      then gated sid (handle_request_transfer_exit flash req) s
      else if sid == 0x31
      then gated sid (handle_routine_control flash req) s
      else (nrc sid 0x11, s)

  -- UDS_DispatchRequest
  unfoldable pub dispatch_request : (ℕ → ℕ) → List ℕ → AddrType → Server F → List ℕ × Server F
  unfolding suppress is_ignored
  dispatch_request tick req addr s =
      let active = record s { session = reset_s3_timeout tick (s.session) } in
      let (resp, s') = serve_request (λ i. tick (i + 1)) req active in
      if length req == 0 || is_ignored addr (get_or req 0 0)
      then ([], s)
      else (suppress req resp, s')

  -- The part of a main-loop round behind the transport: the S3 tick, and the transfer dropped on
  -- the way back to Default; then, true if the valid app is started.
  unfoldable pub main_round : (ℕ → ℕ) → ℕ → ℕ → Server F → Bool × Server F
  main_round tick now prev_session s =
      let (session', _) = session_tick no_restore tick now (s.session) tt in
      let ticked = record s { session = session' } in
      let s' =
        if not (session'.session_type == prev_session) && session'.session_type == session_default
        then reset_transfer ticked
        else ticked in
      (session'.session_type == session_default && bl_app_crc_ok flash (s'.flash), s')
