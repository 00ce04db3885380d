-- ===== src/Uds/Dynamic.antt =====
-- 0x2C DynamicallyDefineDataIdentifier.
use obd_simulator.Prelude.{
  ℕ, zero, suc, ◌+◌, ◌-◌, ◌/◌, ◌%◌, List, [], ◌∷◌, Bool, false, not, ◌&&◌, ◌||◌, leb, ltb, ◌==◌,
  if◌then◌else◌, length, take, drop, get_or, u8, u16, be16, byte1, Option, none, some,
}
use obd_simulator.Boot.Server.Transfer.{be_word}
use obd_simulator.Uds.{
  App, DynRec, DynSlot, build_negative_response, sub_function, dyn_src_mem, dyn_max_data,
  dyn_max_rec, did_dynamic_base, did_dynamic_end, empty_slot,
}
use obd_simulator.Uds.Sources.{resolve_source, is_readable}

-- The test on a source record: the source is known and has the slice.
unfoldable pub has_slice : List ℕ → ℕ → DynRec → Bool
unfolding resolve_source
has_slice vin io_port r = elim (resolve_source vin io_port r.src_did) [
  | none ↦ false
  | some bytes ↦ not (r.position == 0) && leb (u16 (r.position - 1 + r.size)) (length bytes)
]

-- The record of four bytes in a defineByIdentifier request.
abbrev pub id_rec : List ℕ → DynRec
id_rec r = record {
  src_did = be16 (get_or r 0 0) (get_or r 1 0);
  src_addr = 0;
  position = get_or r 2 0;
  size = get_or r 3 0;
}

-- The validation loop of defineByIdentifier for `n` more records: those before the first bad one.
unfoldable pub read_id_recs : List ℕ → ℕ → ℕ → List ℕ → List DynRec
unfolding has_slice
read_id_recs vin io_port zero bytes = []
read_id_recs vin io_port (suc n) bytes =
    let rest = read_id_recs vin io_port n (drop 4 bytes) in
    if (id_rec bytes).size == 0 || not (has_slice vin io_port (id_rec bytes))
    then []
    else id_rec bytes ∷ rest

-- The same of defineByMemoryAddress.
unfoldable pub read_mem_recs : ℕ → ℕ → ℕ → List ℕ → List DynRec
unfolding is_readable be_word
read_mem_recs alen slen zero bytes = []
read_mem_recs alen slen (suc n) bytes =
    let addr = be_word 0 (take alen bytes) in
    let size = be_word 0 (take slen (drop alen bytes)) in
    let rest = read_mem_recs alen slen n (drop (alen + slen) bytes) in
    let r : DynRec = record {
      src_did = dyn_src_mem;
      src_addr = addr;
      position = 0;
      size = u8 size;
    } in
    if size == 0 || ltb dyn_max_data size || not (is_readable addr size) then [] else r ∷ rest

-- `total`
unfoldable pub total_size : ℕ → List DynRec → ℕ
total_size total [] = total
total_size total (r ∷ rs) = total_size (u16 (total + r.size)) rs

-- `tmp.rec[i].size`, 0 where the scratch slot was not filled.
unfoldable pub size_at : ℕ → List DynRec → ℕ
size_at i [] = 0
size_at zero (r ∷ rs) = r.size
size_at (suc i) (r ∷ rs) = size_at i rs

-- The scratch slot once its records are read: empty if the validation was not complete.
unfoldable pub fill : ℕ → List DynRec → List DynRec
unfolding total_size size_at
fill n recs =
    if total_size 0 recs == 0 || ltb dyn_max_data (total_size 0 recs) || size_at (n - 1) recs == 0
    then []
    else recs

-- A define request up to the common path: refused with a code, or the records of the scratch slot.
pub data Scratch : Type 0 where
  refused : ℕ → Scratch
  filled : List DynRec → Scratch

unfoldable pub define_by_identifier : List ℕ → App → Scratch
unfolding read_id_recs fill
define_by_identifier req a =
    let n = u8 ((length req - 4) / 4) in
    if ltb (length req) 8 || not ((length req - 4) % 4 == 0)
    then refused 0x13
    else if n == 0 || ltb dyn_max_rec n
    then filled []
    else filled (fill n (read_id_recs a.vin a.io_port n (drop 4 req)))

unfoldable pub define_by_memory_address : List ℕ → Scratch
unfolding read_mem_recs fill
define_by_memory_address req =
    let alen = get_or req 4 0 % 16 in
    let slen = get_or req 4 0 / 16 % 16 in
    let n = u8 ((length req - 5) / (alen + slen)) in
    if ltb (length req) 5
    then refused 0x13
    else if alen == 0 || slen == 0 || ltb 4 alen || ltb 4 slen
    then refused 0x31
    else if ltb (length req) (5 + (alen + slen)) || not ((length req - 5) % (alen + slen) == 0)
    then refused 0x13
    else if n == 0 || ltb dyn_max_rec n
    then filled []
    else filled (fill n (read_mem_recs alen slen n (drop 5 req)))

-- The first slot of an identifier, replaced.
unfoldable pub replace_slot : ℕ → DynSlot → List DynSlot → Option (List DynSlot)
replace_slot did slot [] = none
replace_slot did slot (s ∷ ss) =
    let rest = elim (replace_slot did slot ss) as (λ _. Option (List DynSlot)) [
      | none ↦ none
      | some ss' ↦ some (s ∷ ss')
    ] in
    if s.did == did then some (slot ∷ ss) else rest

-- The slot is written over the one of its identifier, or into the first that is free.
unfoldable pub commit : DynSlot → List DynSlot → Option (List DynSlot)
unfolding replace_slot
commit slot slots = elim (replace_slot slot.did slot slots) [
  | some slots' ↦ some slots'
  | none ↦ replace_slot 0 slot slots
]

abbrev pub dyn_answer : ℕ → ℕ → List ℕ
dyn_answer sub did = 0x6C ∷ sub ∷ byte1 did ∷ u8 did ∷ []

-- The common path of the two define functions.
unfoldable pub finish_definition : ℕ → ℕ → Scratch → App → List ℕ × App
unfolding commit
finish_definition sub did (refused nrc) a = (build_negative_response 0x2C nrc, a)
finish_definition sub did (filled []) a = (build_negative_response 0x2C 0x31, a)
finish_definition sub did (filled (r ∷ rs)) a =
    elim (commit (record { did = did; recs = r ∷ rs }) a.dyn) [
      | none ↦ (build_negative_response 0x2C 0x31, a)
      | some slots ↦ (dyn_answer sub did, record a { dyn = slots })
    ]

unfoldable pub clear_definition : ℕ → ℕ → App → List ℕ × App
unfolding replace_slot
clear_definition sub did a = elim (replace_slot did empty_slot a.dyn) [
  | none ↦ (build_negative_response 0x2C 0x31, a)
  | some slots ↦ (dyn_answer sub did, record a { dyn = slots })
]

unfoldable pub handle_dynamic_define_did : List ℕ → App → List ℕ × App
unfolding define_by_identifier define_by_memory_address finish_definition clear_definition
handle_dynamic_define_did req a =
    let sub = sub_function (get_or req 1 0) in
    let did = be16 (get_or req 2 0) (get_or req 3 0) in
    if ltb (length req) 4
    then (build_negative_response 0x2C 0x13, a)
    else if ltb did did_dynamic_base || ltb did_dynamic_end did
    then (build_negative_response 0x2C 0x31, a)
    else if sub == 0x01
    then finish_definition sub did (define_by_identifier req a) a
    else if sub == 0x02
    then finish_definition sub did (define_by_memory_address req) a
    else if sub == 0x03
    then clear_definition sub did a
    else (build_negative_response 0x2C 0x12, a)
