-- ===== src/Uds/Invariant/Define.antt =====
-- The invariant of the application's state under 0x2C DynamicallyDefineDataIdentifier.
use obd_simulator.Prelude.{
  ℕ, zero, suc, ◌+◌, ◌/◌, ◌%◌, List, [], ◌∷◌, Bool, true, false, length, drop, get_or, arith, ◌==◌,
  if◌then◌else◌, ltb, ◌||◌, u8, ◌-◌, be16, AreBytes, get_or-AreBytes, drop-AreBytes,
}
use obd_simulator.Uds.{
  App, DynRec, empty_slot, sub_function, build_negative_response, did_dynamic_base, did_dynamic_end,
}
use obd_simulator.Uds.Shape.{IsApp, SmallRecs, replace_slot-Slots, commit-Slots}
use obd_simulator.Uds.Table.Edit.{finish_definition-Distinct, clear_definition-Distinct}
use obd_simulator.Uds.Dynamic.{
  Scratch, refused, filled, read_id_recs, read_mem_recs, fill, define_by_identifier,
  define_by_memory_address, finish_definition, clear_definition, handle_dynamic_define_did,
}

read_id_recs-SmallRecs :
    (vin : List ℕ) (io_port n : ℕ) (bytes : List ℕ)
    → AreBytes bytes
    → SmallRecs (read_id_recs vin io_port n bytes)
unfolding read_id_recs
read_id_recs-SmallRecs vin io_port zero bytes v = tt
read_id_recs-SmallRecs vin io_port (suc n) bytes v = ground (
  arith,
  get_or-AreBytes bytes 3 v,
  read_id_recs-SmallRecs vin io_port n (drop 4 bytes) (drop-AreBytes 4 bytes v),
)

read_mem_recs-SmallRecs :
    (alen slen n : ℕ) (bytes : List ℕ) → SmallRecs (read_mem_recs alen slen n bytes)
unfolding read_mem_recs
read_mem_recs-SmallRecs alen slen zero bytes = tt
read_mem_recs-SmallRecs alen slen (suc n) bytes =
    ground (arith, read_mem_recs-SmallRecs alen slen n (drop (alen + slen) bytes))

fill-SmallRecs : (n : ℕ) (recs : List DynRec) → SmallRecs recs → SmallRecs (fill n recs)
unfolding fill
fill-SmallRecs n recs v = ground arith

abbrev SmallScratch : Scratch → Type 0
SmallScratch (refused nrc) = Unit {0}
SmallScratch (filled recs) = SmallRecs recs

define_by_identifier-Small :
    (req : List ℕ) (a : App) → AreBytes req → SmallScratch (define_by_identifier req a)
unfolding define_by_identifier
define_by_identifier-Small req a v =
    let n = u8 ((length req - 4) / 4) in
    ground (
      arith,
      fill-SmallRecs n (read_id_recs a.vin a.io_port n (drop 4 req)),
      read_id_recs-SmallRecs a.vin a.io_port n (drop 4 req) (drop-AreBytes 4 req v),
    )

define_by_memory_address-Small : (req : List ℕ) → SmallScratch (define_by_memory_address req)
unfolding define_by_memory_address
define_by_memory_address-Small req =
    let alen = get_or req 4 0 % 16 in
    let slen = get_or req 4 0 / 16 % 16 in
    let n = u8 ((length req - 5) / (alen + slen)) in
    ground (
      arith,
      fill-SmallRecs n (read_mem_recs alen slen n (drop 5 req)),
      read_mem_recs-SmallRecs alen slen n (drop 5 req),
    )

finish_definition-IsApp :
    (sub did : ℕ) (s : Scratch) {a : App}
    → IsApp a
    → SmallScratch s
    → IsApp (finish_definition sub did s a).1
unfolding finish_definition
finish_definition-IsApp sub did (refused nrc) v w = v
finish_definition-IsApp sub did (filled []) v w = v
finish_definition-IsApp sub did (filled (r ∷ rs)) {a} v w = ground (
  arith,
  commit-Slots (record { did = did; recs = r ∷ rs }) a.dyn w v.dyn_small,
  finish_definition-Distinct sub did (filled (r ∷ rs)) a v.dyn_distinct,
)

clear_definition-IsApp : (sub did : ℕ) {a : App} → IsApp a → IsApp (clear_definition sub did a).1
unfolding clear_definition
clear_definition-IsApp sub did {a} v = ground (
  arith,
  replace_slot-Slots did empty_slot a.dyn tt v.dyn_small,
  clear_definition-Distinct sub did a v.dyn_distinct,
)

if-IsApp : (b : Bool) (r s : List ℕ × App) → IsApp r.1 → IsApp s.1 → IsApp (if b then r else s).1
if-IsApp true r s v w = v
if-IsApp false r s v w = w

pub handle_dynamic_define_did-IsApp :
    (req : List ℕ) {a : App} → AreBytes req → IsApp a → IsApp (handle_dynamic_define_did req a).1
unfolding handle_dynamic_define_did
handle_dynamic_define_did-IsApp req {a} b v =
    let did = be16 (get_or req 2 0) (get_or req 3 0) in
    let sub = sub_function (get_or req 1 0) in
    let refusal : ℕ → List ℕ × App = λ nrc. (build_negative_response 0x2C nrc, a) in
    let by_id = finish_definition sub did (define_by_identifier req a) a in
    let by_addr = finish_definition sub did (define_by_memory_address req) a in
    let third = if sub == 0x03 then clear_definition sub did a else refusal 0x12 in
    let second = if sub == 0x02 then by_addr else third in
    let first = if sub == 0x01 then by_id else second in
    let ranged =
      if ltb did did_dynamic_base || ltb did_dynamic_end did then refusal 0x31 else first in
    if-IsApp (ltb (length req) 4) (refusal 0x13) ranged v (
      if-IsApp (ltb did did_dynamic_base || ltb did_dynamic_end did) (refusal 0x31) first v (
        if-IsApp (sub == 0x01) by_id second
          (finish_definition-IsApp sub did (define_by_identifier req a) v
            (define_by_identifier-Small req a b))
          (if-IsApp (sub == 0x02) by_addr third
            (finish_definition-IsApp sub did (define_by_memory_address req) v
              (define_by_memory_address-Small req))
            (if-IsApp (sub == 0x03) (clear_definition sub did a) (refusal 0x12)
              (clear_definition-IsApp sub did v) v))))
