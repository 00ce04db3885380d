-- ===== src/Uds/Routine.antt =====
-- RoutineControl and the bit that suppresses a positive response.
use obd_simulator.Prelude.{ℕ, ◌+◌, ◌≡◌, ◌≢◌, ◌≤◌, List, true, length, get_or, arith}
use obd_simulator.Can.{addr_physical}
use obd_simulator.Session.{session_extended, sec_locked, reset_s3_timeout}
use obd_simulator.Session.Access.{secured_locked}
use obd_simulator.Uds.{App, build_negative_response}
use obd_simulator.Uds.Control.{handle_routine_control}
use obd_simulator.Uds.Dispatch.{
  is_ignored, access_gate, serve_restricted, serve_request, suppress, is_suppressible,
  dispatch_request,
}

handle_routine_control-suppressed :
    (req : List ℕ) (a : App)
    → 4 ≤ length req
    → 128 ≤ get_or req 1 0
    → handle_routine_control req a ≡ (build_negative_response 0x31 0x12, a)
unfolding handle_routine_control
handle_routine_control-suppressed req a n h = ground arith

serve_request-routine :
    (mem tick : ℕ → ℕ) (req : List ℕ) (a : App)
    → a.session.session_type ≡ session_extended
    → a.session.security_level ≢ sec_locked
    → get_or req 0 0 ≡ 0x31
    → serve_request mem tick req a ≡ handle_routine_control req a
unfolding serve_request access_gate serve_restricted
serve_request-routine mem tick req a e u s = ground (arith, secured_locked 0x31 a.session)

-- A routine request whose sub-function has bit 7 set, which asks for no positive response, is
-- refused as an unknown sub-function also where the tester is entitled to it (extended session,
-- unlocked): the routine does not run, and the state changes only in the time of the last activity.
-- The dispatcher holds the service for one whose answer can be suppressed.
pub routine-suppressed :
    (mem tick : ℕ → ℕ) (req : List ℕ) (a : App)
    → a.session.session_type ≡ session_extended
    → a.session.security_level ≢ sec_locked
    → get_or req 0 0 ≡ 0x31
    → 4 ≤ length req
    → 128 ≤ get_or req 1 0
    → (dispatch_request mem tick req addr_physical a ≡ (
      build_negative_response 0x31 0x12,
      record a { session = reset_s3_timeout tick a.session },
    ))
      × (is_suppressible 0x31 ≡ true)
unfolding dispatch_request is_ignored suppress is_suppressible reset_s3_timeout
routine-suppressed mem tick req a e u s n h =
    let active = record a { session = reset_s3_timeout tick a.session } in
    ground (
      arith,
      serve_request-routine mem (λ i. tick (i + 1)) req active e u s,
      handle_routine_control-suppressed req active n h,
    )
