-- ===== src/Boot/Server/Policy.antt =====
-- What a tester can change who is not in the programming session, or has not unlocked the server.
use obd_simulator.Prelude.{ℕ, ◌+◌, ◌≡◌, ◌≢◌, ◌⊎◌, List, get_or, arith}
use obd_simulator.Can.{AddrType}
use obd_simulator.Flash.{FlashPorts}
use obd_simulator.Session.{session_programming, sec_locked, security_unlocked, reset_s3_timeout}
use obd_simulator.Boot.Server.{
  Server, gate_flash_services, handle_session_control, handle_ecu_reset, request_seed, send_key,
  handle_security_access, handle_tester_present, handle_noop_control,
}
use obd_simulator.Boot.Server.Dispatch.{serve_request, dispatch_request}

-- The flash and every part of the transfer's state are as they were.
pub record KeepsImage {F : Type 0} (s s' : Server F) : Type 0 where
  pub same_flash : s'.flash ≡ s.flash
  pub same_active : s'.xfer_active ≡ s.xfer_active
  pub same_closed : s'.xfer_closed ≡ s.xfer_closed
  pub same_block : s'.xfer_block_seq ≡ s.xfer_block_seq
  pub same_size : s'.xfer_size ≡ s.xfer_size
  pub same_written : s'.xfer_written ≡ s.xfer_written
  pub same_rollback : s'.saved_rollback ≡ s.saved_rollback

-- The server is outside the programming session, or locked.
abbrev pub IsShut : {F : Type 0} → Server F → Type 0
IsShut s = (s.session.session_type ≢ session_programming) ⊎ (s.session.security_level ≡ sec_locked)

module _ {F : Type 0} (flash : FlashPorts F) where
  pub handlers-KeepsImage :
      (tick : ℕ → ℕ) (sid : ℕ) (req : List ℕ) (s : Server F)
      → KeepsImage s (handle_session_control tick req s).1
        × KeepsImage s (handle_ecu_reset req s).1
        × KeepsImage s (handle_security_access tick req s).1
        × KeepsImage s (handle_tester_present req s).1
        × KeepsImage s (handle_noop_control sid req s).1
  unfolding handle_session_control handle_ecu_reset handle_security_access handle_tester_present
      handle_noop_control request_seed send_key
  handlers-KeepsImage tick sid req s =
      (ground arith, ground arith, ground arith, ground arith, ground arith)

  serve_request-shut :
      (tick : ℕ → ℕ) (req : List ℕ) (s : Server F)
      → IsShut s
      → KeepsImage s (serve_request flash tick req s).1
  unfolding serve_request gate_flash_services security_unlocked
  serve_request-shut tick req s h = ground (arith, handlers-KeepsImage tick (get_or req 0 0) req s)

  -- No request, of any content, to any address, changes the flash or any part of the transfer (whether
  -- it is open or closed, its size, the bytes written, the block expected next, the rollback counter
  -- saved for it) while the server
  -- is outside the programming session or locked.
  pub dispatch_request-shut :
      (tick : ℕ → ℕ) (req : List ℕ) (addr : AddrType) (s : Server F)
      → IsShut s
      → KeepsImage s (dispatch_request flash tick req addr s).1
  unfolding dispatch_request reset_s3_timeout
  dispatch_request-shut tick req addr s h =
      let active = record s { session = reset_s3_timeout tick (s.session) } in
      ground (arith, serve_request-shut (λ i. tick (i + 1)) req active (ground arith))
