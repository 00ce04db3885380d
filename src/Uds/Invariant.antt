-- ===== src/Uds/Invariant.antt =====
-- The invariant of the application's state: every request and every periodic tick keeps it.
mod Handlers
pub mod Define
use obd_simulator.Prelude.{
  AreBytes, ℕ, zero, suc, ◌+◌, ◌*◌, ◌/◌, ◌%◌, ◌≤◌, ◌<◌, ◌≡◌, List, [], ◌∷◌, ◌++◌, Bool, true, false,
  length, take, drop, get_or, set, memcpy, length-set, length-memcpy, arith, refl, ap, Option, none,
  some, ◌==◌, if◌then◌else◌, ltb, ◌||◌, u8, ◌-◌, be16, byte1, get_or-set,
}
use obd_simulator.Can.{AddrType}
use obd_simulator.Obd2.{SimState}
use obd_simulator.Obd2.Dtc.{DtcMemory, dtc_clear, inject_demo, dtc_setting_control}
use obd_simulator.Session.{set_session, reset_s3_timeout}
use obd_simulator.Uds.{
  App, DynRec, DynSlot, Subscription, periodic_stop_all, empty_slot, restore, sub_function,
  build_negative_response, did_dynamic_base, did_dynamic_end,
}
use obd_simulator.Uds.Shape.{
  IsApp, SmallRecs, SmallSlots, SameSizes, dtc_clear-SameSizes, inject_demo-SameSizes,
  length-periodic_stop_all, length-stop_each, length-subscribe_each, Slots, replace_slot-Slots,
  commit-Slots,
}
use obd_simulator.Uds.Subscriptions.{
  periodic_stop_all-Distinct, stop_each-Distinct, subscribe_each-Distinct, tick_each-Distinct,
  length-tick_each,
}
use obd_simulator.Uds.Table.Edit.{finish_definition-Distinct, clear_definition-Distinct}
use obd_simulator.Uds.Control.{
  enter_session, hand_over, handle_session_control, handle_ecu_reset, handle_clear_dtc,
  request_seed, send_key, handle_security_access, start_routine, handle_routine_control,
  handle_communication_control, handle_control_dtc_setting,
}
use obd_simulator.Uds.ReadWrite.{write_vin, handle_write_data_by_id, handle_input_output_control}
use obd_simulator.Uds.Dynamic.{
  Scratch, refused, filled, id_rec, read_id_recs, read_mem_recs, fill, define_by_identifier,
  define_by_memory_address, finish_definition, clear_definition, handle_dynamic_define_did,
}
use obd_simulator.Uds.Periodic.{handle_read_data_periodic, mode_div, periodic_tick}
use obd_simulator.Uds.Obd.{handle_obd2_service04}
use obd_simulator.Uds.Dispatch.{
  access_gate, serve_restricted, serve_open, serve_request, dispatch_request,
}
use obd_simulator.Uds.Invariant.Handlers.{
  handle_session_control-IsApp, handle_security_access-IsApp, handle_ecu_reset-IsApp,
  handle_clear_dtc-IsApp, handle_obd2_service04-IsApp, handle_routine_control-IsApp,
  handle_communication_control-IsApp, handle_control_dtc_setting-IsApp,
  handle_input_output_control-IsApp, handle_write_data_by_id-IsApp, handle_read_data_periodic-IsApp,
}
use obd_simulator.Uds.Invariant.Define.{handle_dynamic_define_did-IsApp}

serve_restricted-IsApp :
    (mem : ℕ → ℕ) (req : List ℕ) {a : App}
    → AreBytes req
    → IsApp a
    → IsApp (serve_restricted mem req a).1
unfolding serve_restricted
serve_restricted-IsApp mem req {a} b v = ground (
  arith,
  handle_clear_dtc-IsApp req v,
  handle_read_data_periodic-IsApp req v,
  handle_dynamic_define_did-IsApp req b v,
  handle_routine_control-IsApp req v,
  handle_communication_control-IsApp req v,
  handle_control_dtc_setting-IsApp req v,
  handle_write_data_by_id-IsApp req v,
  handle_input_output_control-IsApp req v,
)

serve_open-IsApp :
    (mem tick : ℕ → ℕ) (req : List ℕ) {a : App} → IsApp a → IsApp (serve_open mem tick req a).1
unfolding serve_open
serve_open-IsApp mem tick req {a} v = ground (
  arith,
  handle_obd2_service04-IsApp req v,
  handle_session_control-IsApp tick req v,
  handle_ecu_reset-IsApp req v,
  handle_security_access-IsApp tick req v,
)

serve_request-IsApp :
    (mem tick : ℕ → ℕ) (req : List ℕ) {a : App}
    → AreBytes req
    → IsApp a
    → IsApp (serve_request mem tick req a).1
unfolding serve_request access_gate
serve_request-IsApp mem tick req {a} b v =
    ground (arith, serve_restricted-IsApp mem req b v, serve_open-IsApp mem tick req v)

touched-IsApp :
    (tick : ℕ → ℕ) {a : App}
    → IsApp a
    → IsApp (record a { session = reset_s3_timeout tick a.session })
touched-IsApp tick v = ground arith

-- Every request of bytes, to any address, keeps the invariant: three trouble codes and three mirror
-- entries, a VIN array of 18 bytes that ends in NUL, four slots for dynamic identifiers and four for
-- subscriptions, no identifier with two slots or two active subscriptions, and no dynamic record of
-- 256 bytes or more.
pub dispatch_request-IsApp :
    (mem tick : ℕ → ℕ) (req : List ℕ) (addr : AddrType) (a : App)
    → AreBytes req
    → IsApp a
    → IsApp (dispatch_request mem tick req addr a).1
unfolding dispatch_request
dispatch_request-IsApp mem tick req addr a b v =
    ground (arith, serve_request-IsApp mem (λ i. tick (i + 1)) req b (touched-IsApp tick v))

-- So does every tick of the periodic transmission.
pub periodic_tick-IsApp : (mem : ℕ → ℕ) (a : App) → IsApp a → IsApp (periodic_tick mem a).1
unfolding periodic_tick
periodic_tick-IsApp mem a v = ground (
  arith,
  length-tick_each mem a a.periodic,
  tick_each-Distinct mem a a.periodic v.periodic_distinct,
)
