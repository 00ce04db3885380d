-- ===== src/Uds/Handover.antt =====
-- From the application to the bootloader: the request for the programming session and the boot gate
-- that reads what it leaves in RAM.
use obd_simulator.Prelude.{
  ℕ, ◌+◌, ◌≡◌, ◌≢◌, ◌⊎◌, ◌≤◌, List, [], ◌∷◌, true, length, get_or, arith, leb, if◌then◌else◌,
}
use obd_simulator.Can.{AddrType, addr_physical}
use obd_simulator.Flash.{FlashPorts}
use obd_simulator.Session.{session_programming, set_session, is_session, reset_s3_timeout}
use obd_simulator.Boot.{serve, boot_gate}
use obd_simulator.Uds.{App, sub_function}
use obd_simulator.Uds.Control.{
  enter_session, hand_over, handle_session_control, handle_ecu_reset, handle_clear_dtc,
  request_seed, send_key, handle_security_access, handle_routine_control,
  handle_communication_control, handle_control_dtc_setting,
}
use obd_simulator.Uds.ReadWrite.{handle_write_data_by_id, handle_input_output_control}
use obd_simulator.Uds.Dynamic.{
  finish_definition, clear_definition, handle_dynamic_define_did, Scratch, refused, filled,
}
use obd_simulator.Uds.Periodic.{handle_read_data_periodic}
use obd_simulator.Uds.Obd.{handle_obd2_service04}
use obd_simulator.Uds.Dispatch.{
  is_ignored, access_gate, serve_restricted, serve_open, serve_request, suppress, dispatch_request,
}

-- The state of an application that has taken the request for the programming session.
abbrev programming : (ℕ → ℕ) → App → App
programming tick a = hand_over (record a {
  session = record (a.session) { session_type = session_programming; last_activity_tick = tick 0 };
})

handle_session_control-programming :
    (tick : ℕ → ℕ) (req : List ℕ) (a : App)
    → 2 ≤ length req
    → sub_function (get_or req 1 0) ≡ session_programming
    → handle_session_control tick req a
      ≡ (0x50 ∷ 0x02 ∷ 0x00 ∷ 0x32 ∷ 0x01 ∷ 0xF4 ∷ [], programming tick a)
unfolding handle_session_control enter_session set_session is_session
handle_session_control-programming tick req a h e = ground arith

-- A physical request for the programming session, of any length from two bytes and in any state, is
-- answered by 50 02 with the server's timings, or not at all if it suppresses the answer; the
-- session is then the programming session, a reset is requested, and the next start of the
-- bootloader, whatever the flash holds, serves the update and clears the flag.
pub dispatch_request-boot_gate :
    {F : Type 0} (flash : FlashPorts F) (f : F)
    → (mem tick : ℕ → ℕ) (req : List ℕ) (a : App) → 2 ≤ length req
    → get_or req 0 0 ≡ 0x10
    → sub_function (get_or req 1 0) ≡ session_programming
    → ((dispatch_request mem tick req addr_physical a).0
        ≡ (if leb 128 (get_or req 1 0) then [] else 0x50 ∷ 0x02 ∷ 0x00 ∷ 0x32 ∷ 0x01 ∷ 0xF4 ∷ []))
      × ((dispatch_request mem tick req addr_physical a).1.session.session_type
          ≡ session_programming)
      × ((dispatch_request mem tick req addr_physical a).1.soft_reset ≡ 1)
      × (boot_gate flash (dispatch_request mem tick req addr_physical a).1.handoff f
          ≡ (serve true, record { magic = 0; reason = 0 }))
unfolding dispatch_request serve_request serve_open suppress is_ignored boot_gate reset_s3_timeout
    hand_over
dispatch_request-boot_gate flash f mem tick req a h s e =
    let active = record a { session = reset_s3_timeout tick a.session } in
    ground (arith, handle_session_control-programming (λ i. tick (i + 1)) req active h e)

module _ (tick : ℕ → ℕ) (req : List ℕ) (a : App) where
  handle_session_control-handoff :
      ((handle_session_control tick req a).1.handoff ≡ a.handoff)
      ⊎ (sub_function (get_or req 1 0) ≡ session_programming)
  unfolding handle_session_control enter_session set_session is_session hand_over
  handle_session_control-handoff = ground arith

  handle_security_access-handoff : (handle_security_access tick req a).1.handoff ≡ a.handoff
  unfolding handle_security_access request_seed send_key
  handle_security_access-handoff = ground arith

module _ (req : List ℕ) (a : App) where
  finish_definition-handoff :
      (sub did : ℕ) (s : Scratch) → (finish_definition sub did s a).1.handoff ≡ a.handoff
  unfolding finish_definition
  finish_definition-handoff sub did (refused nrc) = ground arith
  finish_definition-handoff sub did (filled []) = ground arith
  finish_definition-handoff sub did (filled (r ∷ rs)) = ground arith

  handle_dynamic_define_did-handoff : (handle_dynamic_define_did req a).1.handoff ≡ a.handoff
  unfolding handle_dynamic_define_did clear_definition
  handle_dynamic_define_did-handoff = grind (arith, finish_definition-handoff)

  settings-handoff :
      ((handle_clear_dtc req a).1.handoff ≡ a.handoff)
      × ((handle_communication_control req a).1.handoff ≡ a.handoff)
      × ((handle_control_dtc_setting req a).1.handoff ≡ a.handoff)
      × ((handle_read_data_periodic req a).1.handoff ≡ a.handoff)
  unfolding handle_clear_dtc handle_read_data_periodic handle_communication_control
      handle_control_dtc_setting
  settings-handoff = (ground arith, ground arith, ground arith, ground arith)

  writes-handoff :
      ((handle_routine_control req a).1.handoff ≡ a.handoff)
      × ((handle_write_data_by_id req a).1.handoff ≡ a.handoff)
      × ((handle_input_output_control req a).1.handoff ≡ a.handoff)
  unfolding handle_routine_control handle_write_data_by_id handle_input_output_control
  writes-handoff = (ground arith, ground arith, ground arith)

  serve_restricted-handoff : (mem : ℕ → ℕ) → (serve_restricted mem req a).1.handoff ≡ a.handoff
  unfolding serve_restricted
  serve_restricted-handoff mem =
      ground (arith, handle_dynamic_define_did-handoff, settings-handoff, writes-handoff)

  serve_open-handoff :
      (mem tick : ℕ → ℕ)
      → ((serve_open mem tick req a).1.handoff ≡ a.handoff)
        ⊎ ((get_or req 0 0 ≡ 0x10) × (sub_function (get_or req 1 0) ≡ session_programming))
  unfolding serve_open handle_ecu_reset handle_obd2_service04
  serve_open-handoff mem tick =
      ground (
        arith,
        handle_session_control-handoff tick req a,
        handle_security_access-handoff tick req a,
      )

serve_request-handoff :
    (mem tick : ℕ → ℕ) (req : List ℕ) (a : App)
    → ((serve_request mem tick req a).1.handoff ≡ a.handoff)
      ⊎ ((get_or req 0 0 ≡ 0x10) × (sub_function (get_or req 1 0) ≡ session_programming))
unfolding serve_request access_gate
serve_request-handoff mem tick req a =
    ground (arith, serve_restricted-handoff req a mem, serve_open-handoff req a mem tick)

dispatch_request-cases :
    (mem tick : ℕ → ℕ) (req : List ℕ) (addr : AddrType) (a : App)
    → ((dispatch_request mem tick req addr a).1.handoff ≡ a.handoff)
      ⊎ ((get_or req 0 0 ≡ 0x10) × (sub_function (get_or req 1 0) ≡ session_programming))
unfolding dispatch_request reset_s3_timeout
dispatch_request-cases mem tick req addr a =
    let active = record a { session = reset_s3_timeout tick a.session } in
    ground (arith, serve_request-handoff mem (λ i. tick (i + 1)) req active)

-- Only a request for the programming session writes the hand-over record: after a request for
-- another service or session, of any other content and to any address, it is as it was.
pub dispatch_request-handoff :
    (mem tick : ℕ → ℕ) (req : List ℕ) (addr : AddrType) (a : App)
    → (get_or req 0 0 ≢ 0x10) ⊎ (sub_function (get_or req 1 0) ≢ session_programming)
    → (dispatch_request mem tick req addr a).1.handoff ≡ a.handoff
dispatch_request-handoff mem tick req addr a other =
    ground (arith, dispatch_request-cases mem tick req addr a)
