-- ===== src/Uds/Bounds.antt =====
-- Every response of the application fits the buffer of UDS_MAX_RESPONSE_SIZE bytes.
mod Parts
mod Reports
use obd_simulator.Prelude.{
  ℕ, zero, suc, ◌+◌, ◌-◌, ◌*◌, ◌/◌, ◌%◌, ◌≤◌, ◌<◌, ◌≡◌, List, [], ◌∷◌, ◌++◌, Bool, true, false,
  length, take, drop, get_or, length-take, length-drop, length-append, arith, refl, ap, Option,
  none, some, ◌==◌, min, u8, u16, be16, byte1, if◌then◌else◌,
}
use obd_simulator.Can.{AddrType}
use obd_simulator.Obd2.{SimState, handle_service01}
use obd_simulator.Obd2.Dtc.{is_confirmed, DtcEntry, MirrorEntry, DtcMemory, DtcState}
use obd_simulator.Obd2.Dtc.Report.{
  is_pending, get_codes, get_confirmed, get_pending, get_by_mask, mirror_get_by_mask,
}
use obd_simulator.Session.{reset_s3_timeout}
use obd_simulator.Uds.{
  did_dynamic_base, Subscription, App, DynRec, DynSlot, max_response_size, dyn_max_data,
}
use obd_simulator.Uds.Shape.{IsApp, SmallRecs, SmallSlots}
use obd_simulator.Boot.Server.Transfer.{be_word}
use obd_simulator.Uds.Sources.{
  c_string, did_read, dyn_find, resolve_source, read_mem, read_slice, read_rec, assemble_from,
  dyn_assemble,
}
use obd_simulator.Uds.Control.{
  handle_session_control, handle_ecu_reset, handle_clear_dtc, request_seed, send_key,
  handle_security_access, handle_routine_control, handle_tester_present,
  handle_communication_control, handle_control_dtc_setting,
}
use obd_simulator.Uds.ReadWrite.{
  read_dynamic, handle_read_data_by_id, handle_read_mem_by_addr, handle_write_data_by_id,
  handle_input_output_control,
}
use obd_simulator.Uds.Obd.{
  handle_obd2_service01, handle_obd2_service03, handle_obd2_service04, handle_obd2_service07,
  handle_obd2_service09,
}
use obd_simulator.Uds.Dynamic.{
  Scratch, refused, filled, finish_definition, clear_definition, handle_dynamic_define_did,
  define_by_identifier, define_by_memory_address,
}
use obd_simulator.Uds.Periodic.{
  handle_read_data_periodic, periodic_data, tick_one, tick_each, periodic_tick,
}
use obd_simulator.Uds.Dispatch.{
  access_gate, serve_restricted, serve_open, serve_request, suppress, dispatch_request,
}
use obd_simulator.Uds.Bounds.Parts.{
  length-c_string, length-read_mem, length-get_codes, length-dyn_assemble,
}
use obd_simulator.Uds.Bounds.Reports.{handle_read_dtc_information-le}

-- What the slot of an identifier holds is small, as in every slot.
abbrev HasSmall : Option DynSlot → Type 0
HasSmall none = Unit {0}
HasSmall (some s) = SmallRecs s.recs

dyn_find-Small : (did : ℕ) (ss : List DynSlot) → SmallSlots ss → HasSmall (dyn_find did ss)
unfolding dyn_find
dyn_find-Small did [] v = tt
dyn_find-Small did (s ∷ ss) v = ground (arith, dyn_find-Small did ss v.1)

-- The answer from a slot, if there is one.
read_found-le : (mem : ℕ → ℕ) (did : ℕ) (a : App) → IsApp a → length (read_dynamic mem did a) ≤ 64
unfolding read_dynamic
read_found-le mem did a v = grind (
  arith,
  dyn_find-Small did a.dyn v.dyn_small,
  λ (s : DynSlot). length-dyn_assemble mem a.vin a.io_port s,
)

handle_read_data_by_id-le :
    (mem : ℕ → ℕ) (req : List ℕ) {a : App}
    → IsApp a
    → length (handle_read_data_by_id mem req a) ≤ 64
unfolding handle_read_data_by_id did_read
handle_read_data_by_id-le mem req {a} v = ground (
  arith,
  length-c_string 17 a.vin v.vin_end,
  read_found-le mem (be16 (get_or req 1 0) (get_or req 2 0)) a v,
)

handle_read_mem_by_addr-le :
    (mem : ℕ → ℕ) (req : List ℕ) → length (handle_read_mem_by_addr mem req) ≤ 64
unfolding handle_read_mem_by_addr
handle_read_mem_by_addr-le mem req =
    let alen = get_or req 1 0 % 16 in
    let slen = get_or req 1 0 / 16 % 16 in
    let addr = be_word 0 (take alen (drop 2 req)) in
    let size = be_word 0 (take slen (drop (2 + alen) req)) in
    ground (arith, length-read_mem mem addr size)

module _ (req : List ℕ) {a : App} (v : IsApp a) where
  obd-le :
      (length (handle_obd2_service01 req a) ≤ 64)
      × (length (handle_obd2_service03 a) ≤ 64)
      × (length (handle_obd2_service07 a) ≤ 64)
      × (length (handle_obd2_service09 req a) ≤ 64)
  unfolding handle_obd2_service01 handle_obd2_service03 handle_obd2_service07 handle_obd2_service09
      handle_service01 get_confirmed get_pending
  obd-le = (
    ground arith,
    omega (arith, length-get_codes is_confirmed 3 a.dtc.table),
    omega (arith, length-get_codes is_pending 3 a.dtc.table),
    ground (arith, length-c_string 17 a.vin v.vin_end),
  )

  restricted-le :
      (length (handle_clear_dtc req a).0 ≤ 64)
      × (length (handle_read_data_periodic req a).0 ≤ 64)
      × (length (handle_routine_control req a).0 ≤ 64)
      × (length (handle_communication_control req a).0 ≤ 64)
      × (length (handle_control_dtc_setting req a).0 ≤ 64)
      × (length (handle_write_data_by_id req a).0 ≤ 64)
      × (length (handle_input_output_control req a).0 ≤ 64)
  unfolding handle_clear_dtc handle_read_data_periodic handle_routine_control
      handle_communication_control handle_control_dtc_setting handle_write_data_by_id
      handle_input_output_control
  restricted-le = (
    ground arith,
    ground arith,
    ground arith,
    ground arith,
    ground arith,
    ground arith,
    ground arith,
  )

  open-le :
      (tick : ℕ → ℕ)
      → (length (handle_session_control tick req a).0 ≤ 64)
        × (length (handle_ecu_reset req a).0 ≤ 64)
        × (length (handle_security_access tick req a).0 ≤ 64)
        × (length (handle_tester_present req) ≤ 64)
        × (length (handle_obd2_service04 a).0 ≤ 64)
  unfolding handle_session_control handle_ecu_reset handle_security_access request_seed send_key
      handle_tester_present handle_obd2_service04
  open-le tick = (ground arith, ground arith, ground arith, ground arith, ground arith)

finish_definition-le :
    (sub did : ℕ) (s : Scratch) (a : App) → length (finish_definition sub did s a).0 ≤ 64
unfolding finish_definition
finish_definition-le sub did (refused nrc) a = omega arith
finish_definition-le sub did (filled []) a = omega arith
finish_definition-le sub did (filled (r ∷ rs)) a = ground arith

clear_definition-le : (sub did : ℕ) (a : App) → length (clear_definition sub did a).0 ≤ 64
unfolding clear_definition
clear_definition-le sub did a = ground arith

handle_dynamic_define_did-le :
    (req : List ℕ) (a : App) → length (handle_dynamic_define_did req a).0 ≤ 64
unfolding handle_dynamic_define_did
handle_dynamic_define_did-le req a = grind (arith, finish_definition-le, clear_definition-le)

serve_restricted-le :
    (mem : ℕ → ℕ) (req : List ℕ) {a : App} → IsApp a → length (serve_restricted mem req a).0 ≤ 64
unfolding serve_restricted
serve_restricted-le mem req {a} v = ground (
  arith,
  restricted-le req v,
  handle_read_mem_by_addr-le mem req,
  handle_dynamic_define_did-le req a,
)

serve_open-le :
    (mem tick : ℕ → ℕ) (req : List ℕ) {a : App}
    → IsApp a
    → length (serve_open mem tick req a).0 ≤ 64
unfolding serve_open
serve_open-le mem tick req {a} v = ground (
  arith,
  obd-le req v,
  open-le req v tick,
  handle_read_data_by_id-le mem req v,
  handle_read_dtc_information-le req a.dtc v.codes_size,
)

serve_request-le :
    (mem tick : ℕ → ℕ) (req : List ℕ) {a : App}
    → IsApp a
    → length (serve_request mem tick req a).0 ≤ 64
unfolding serve_request access_gate
serve_request-le mem tick req {a} v =
    ground (arith, serve_restricted-le mem req v, serve_open-le mem tick req v)

-- The response to every request, of any content and length, to any address, fits the buffer of 64
-- bytes, in every state that satisfies the invariant.
pub dispatch_request-le :
    (mem tick : ℕ → ℕ) (req : List ℕ) (addr : AddrType) (a : App)
    → IsApp a
    → length (dispatch_request mem tick req addr a).0 ≤ max_response_size
unfolding dispatch_request suppress
dispatch_request-le mem tick req addr a v =
    let active = record a { session = reset_s3_timeout tick a.session } in
    let active-IsApp : IsApp active = ground arith in
    ground (arith, serve_request-le mem (λ i. tick (i + 1)) req active-IsApp)

-- Every response of a list fits the buffer.
abbrev pub AllShort : List (List ℕ) → Type 0
AllShort [] = Unit {0}
AllShort (r ∷ rs) = (length r ≤ max_response_size) × AllShort rs

pub AllShort-append : (rs ts : List (List ℕ)) → AllShort rs → AllShort ts → AllShort (rs ++ ts)
AllShort-append [] ts v w = w
AllShort-append (r ∷ rs) ts v w = (v.0, AllShort-append rs ts v.1 w)

length-periodic_data :
    (mem : ℕ → ℕ) (a : App) (pdid : ℕ) → IsApp a → length (periodic_data mem a pdid) ≤ 56
unfolding periodic_data
length-periodic_data mem a pdid v = grind (
  arith,
  dyn_find-Small (did_dynamic_base + pdid) a.dyn v.dyn_small,
  λ (s : DynSlot). length-dyn_assemble mem a.vin a.io_port s,
)

tick_one-Short :
    (mem : ℕ → ℕ) (a : App) (s : Subscription) → IsApp a → AllShort (tick_one mem a s).0
unfolding tick_one
tick_one-Short mem a s v = ground (arith, length-periodic_data mem a s.pdid v)

tick_each-Short :
    (mem : ℕ → ℕ) (a : App) (ss : List Subscription) → IsApp a → AllShort (tick_each mem a ss).0
unfolding tick_each
tick_each-Short mem a [] v = tt
tick_each-Short mem a (s ∷ ss) v =
    AllShort-append (tick_one mem a s).0 (tick_each mem a ss).0 (tick_one-Short mem a s v)
      (tick_each-Short mem a ss v)

pub periodic_tick-Short : (mem : ℕ → ℕ) (a : App) → IsApp a → AllShort (periodic_tick mem a).0
unfolding periodic_tick
periodic_tick-Short mem a v = tick_each-Short mem a a.periodic v
