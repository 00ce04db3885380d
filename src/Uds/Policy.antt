-- ===== src/Uds/Policy.antt =====
-- What the application answers to a service that the access table restricts, and what a request to
-- the functional (broadcast) address can change.
use obd_simulator.Prelude.{
  ℕ, ◌+◌, ◌≡◌, ◌≢◌, ◌⊎◌, inl, inr, List, true, false, length, get_or, ◌==◌, arith, if◌then◌else◌,
}
use obd_simulator.Can.{AddrType, addr_functional}
use obd_simulator.Session.{Session, session_extended, sec_locked, reset_s3_timeout}
use obd_simulator.Session.Access.{IsRestricted, IsSecured, restricted_wrong_session, secured_locked}
use obd_simulator.Uds.{App, build_negative_response}
use obd_simulator.Uds.Control.{handle_communication_control, handle_control_dtc_setting}
use obd_simulator.Uds.Obd.{handle_obd2_service04}
use obd_simulator.Uds.Dispatch.{
  is_functionally_addressable, is_ignored, access_gate, is_gated, serve_open, serve_request,
  suppress, dispatch_request, serve_restricted,
}

-- The request is dropped: the functional address, and a service that only the physical one takes.
abbrev pub IsDropped : AddrType → ℕ → Type 0
IsDropped addr sid = is_ignored addr sid ≡ true

-- The state of an application that has only noted the request.
abbrev pub touched : (ℕ → ℕ) → App → App
touched tick a = record a { session = reset_s3_timeout tick a.session }

serve_request-wrong_session :
    (mem tick : ℕ → ℕ) (req : List ℕ) (a : App)
    → IsRestricted (get_or req 0 0)
    → a.session.session_type ≢ session_extended
    → serve_request mem tick req a ≡ (build_negative_response (get_or req 0 0) 0x7F, a)
unfolding serve_request access_gate
serve_request-wrong_session mem tick req a r n =
    ground (arith, restricted_wrong_session (get_or req 0 0) a.session r n)

serve_request-locked :
    (mem tick : ℕ → ℕ) (req : List ℕ) (a : App)
    → IsSecured (get_or req 0 0)
    → a.session.session_type ≡ session_extended
    → a.session.security_level ≡ sec_locked
    → serve_request mem tick req a ≡ (build_negative_response (get_or req 0 0) 0x33, a)
unfolding serve_request access_gate
serve_request-locked mem tick req a r n l =
    ground (arith, secured_locked (get_or req 0 0) a.session r n)

suppress_negative :
    (req : List ℕ) (sid nrc : ℕ)
    → suppress req (build_negative_response sid nrc) ≡ build_negative_response sid nrc
unfolding suppress
suppress_negative req sid nrc = ground arith

-- The access table bars the service in this state.
abbrev pub IsBarred : ℕ → Session → Type 0
IsBarred sid s =
    (IsRestricted sid × (s.session_type ≢ session_extended))
    ⊎ (IsSecured sid × (s.session_type ≡ session_extended) × (s.security_level ≡ sec_locked))

serve_request-barred :
    (mem tick : ℕ → ℕ) (req : List ℕ) (a : App)
    → IsBarred (get_or req 0 0) a.session
    → serve_request mem tick req a ≡ (
      build_negative_response
          (get_or req 0 0)
          (if a.session.session_type == session_extended then 0x33 else 0x7F),
      a,
    )
serve_request-barred mem tick req a (inl (r, n)) =
    ground (arith, serve_request-wrong_session mem tick req a r n)
serve_request-barred mem tick req a (inr (r, n, l)) =
    ground (arith, serve_request-locked mem tick req a r n l)

-- A request for a service that the access table restricts, which is not dropped for its address (so
-- also on the functional address, if the service is one of those that take it), is answered by
-- exactly the negative response 0x7F outside the extended session, and 0x33 in it while the service
-- wants the unlock and security is locked; the state changes only in the time of the last activity.
pub dispatch_request-barred :
    (mem tick : ℕ → ℕ) (req : List ℕ) (addr : AddrType) (a : App)
    → length req ≢ 0
    → is_ignored addr (get_or req 0 0) ≡ false
    → IsBarred (get_or req 0 0) a.session
    → dispatch_request mem tick req addr a ≡ (
      build_negative_response
          (get_or req 0 0)
          (if a.session.session_type == session_extended then 0x33 else 0x7F),
      record a { session = reset_s3_timeout tick a.session },
    )
unfolding dispatch_request reset_s3_timeout
dispatch_request-barred mem tick req addr a ne ok barred =
    let sid = get_or req 0 0 in
    let nrc : ℕ = if a.session.session_type == session_extended then 0x33 else 0x7F in
    ground (
      arith,
      serve_request-barred mem (λ i. tick (i + 1)) req (touched tick a) barred,
      suppress_negative req sid nrc,
    )

-- What the tester's state consists of besides the trouble codes, the communication flags and the
-- time of the last activity.
pub record KeepsControl (a a' : App) : Type 0 where
  pub same_type : a'.session.session_type ≡ a.session.session_type
  pub same_level : a'.session.security_level ≡ a.session.security_level
  pub same_seed : a'.session.seed ≡ a.session.seed
  pub same_fresh : a'.session.seed_is_fresh ≡ a.session.seed_is_fresh
  pub same_fails : a'.session.fail_count ≡ a.session.fail_count
  pub same_vin : a'.vin ≡ a.vin
  pub same_port : a'.io_port ≡ a.io_port
  pub same_dyn : a'.dyn ≡ a.dyn
  pub same_periodic : a'.periodic ≡ a.periodic
  pub same_reset : a'.soft_reset ≡ a.soft_reset
  pub same_handoff : a'.handoff ≡ a.handoff

broadcast-KeepsControl :
    (req : List ℕ) (a : App)
    → KeepsControl a (handle_communication_control req a).1
      × KeepsControl a (handle_control_dtc_setting req a).1
      × KeepsControl a (handle_obd2_service04 a).1
unfolding handle_communication_control handle_control_dtc_setting handle_obd2_service04
broadcast-KeepsControl req a = (ground arith, ground arith, ground arith)

serve_restricted-KeepsControl :
    (mem : ℕ → ℕ) (req : List ℕ) (a : App)
    → is_functionally_addressable (get_or req 0 0) ≡ true
    → is_gated (get_or req 0 0) ≡ true
    → KeepsControl a (serve_restricted mem req a).1
unfolding serve_restricted is_functionally_addressable
serve_restricted-KeepsControl mem req a f g = ground (arith, broadcast-KeepsControl req a)

serve_open-KeepsControl :
    (mem tick : ℕ → ℕ) (req : List ℕ) (a : App)
    → is_functionally_addressable (get_or req 0 0) ≡ true
    → is_gated (get_or req 0 0) ≡ false
    → KeepsControl a (serve_open mem tick req a).1
unfolding serve_open is_functionally_addressable
serve_open-KeepsControl mem tick req a f g = ground (arith, broadcast-KeepsControl req a)

serve_request-KeepsControl :
    (mem tick : ℕ → ℕ) (req : List ℕ) (a : App)
    → is_functionally_addressable (get_or req 0 0) ≡ true
    → KeepsControl a (serve_request mem tick req a).1
unfolding serve_request access_gate
serve_request-KeepsControl mem tick req a f =
    ground (arith, serve_restricted-KeepsControl mem req a, serve_open-KeepsControl mem tick req a)

-- No request to the functional (broadcast) address, of any content, changes the session, the
-- security level or its seed and counter, the VIN, the IO port, the dynamic identifiers, the
-- periodic subscriptions, the reset request or the hand-over record.
pub dispatch_request-functional :
    (mem tick : ℕ → ℕ) (req : List ℕ) (a : App)
    → KeepsControl a (dispatch_request mem tick req addr_functional a).1
unfolding dispatch_request reset_s3_timeout is_ignored
dispatch_request-functional mem tick req a =
    ground (arith, serve_request-KeepsControl mem (λ i. tick (i + 1)) req (touched tick a))
