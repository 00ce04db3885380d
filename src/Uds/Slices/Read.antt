-- ===== src/Uds/Slices/Read.antt =====
-- A dynamic identifier that is defined by slices of others, read back.
use obd_simulator.Prelude.{
  ℕ, suc, ◌-◌, ◌*◌, ◌/◌, ◌≡◌, ◌≢◌, ◌≤◌, ◌<◌, ◌⊎◌, List, [], ◌∷◌, length, drop, u8, be16, byte1,
  arith, refl, ap, ◌∙◌, Option, none, some,
}
use obd_simulator.Uds.{App, DynRec, DynSlot, dyn_max_data, did_dynamic_base, did_dynamic_end}
use obd_simulator.Uds.Sources.{did_read, dyn_find, dyn_assemble}
use obd_simulator.Uds.ReadWrite.{read_dynamic, handle_read_data_by_id}
use obd_simulator.Uds.Dynamic.{
  id_rec, define_by_identifier, commit, finish_definition, handle_dynamic_define_did, dyn_answer,
  Scratch, filled,
}
use obd_simulator.Uds.Table.{used_slots, Commits, commit-Commits}
use obd_simulator.Uds.Slices.{
  id_recs, slices, sum_sizes, AllInside, length-id_recs, read_id_recs-all, fill-AllInside,
  length-slices, assemble_from-AllInside,
}

-- A define request for `n` records, after its four header bytes.
abbrev pub define_request : ℕ → List ℕ → List ℕ
define_request did bytes = 0x2C ∷ 0x01 ∷ byte1 did ∷ u8 did ∷ bytes

abbrev pub read_request : ℕ → List ℕ
read_request did = 0x22 ∷ byte1 did ∷ u8 did ∷ []

module _ (did n : ℕ) (bytes : List ℕ) (a : App) where
  define_by_identifier-AllInside :
      length bytes ≡ 4 * suc n
      → n < 3
      → AllInside a.vin a.io_port (id_recs (suc n) bytes)
      → sum_sizes (id_recs (suc n) bytes) ≤ dyn_max_data
      → define_by_identifier (define_request did bytes) a ≡ filled (id_recs (suc n) bytes)
  unfolding define_by_identifier
  define_by_identifier-AllInside e h v m =
      let recs = id_recs (suc n) bytes in
      let count : u8 ((length (define_request did bytes) - 4) / 4) ≡ suc n = omega arith in
      rw count (
        ground (
          arith,
          read_id_recs-all a.vin a.io_port (suc n) bytes v,
          fill-AllInside n a.vin a.io_port recs v (length-id_recs (suc n) bytes) m,
        ))

-- The identifier has a slot, or one is free.
abbrev pub HasRoom : ℕ → List DynSlot → Type 0
HasRoom did ss = (dyn_find did ss ≢ none) ⊎ (used_slots ss ≢ length ss)

commits :
    (slot : DynSlot) (ss : List DynSlot) (o : Option (List DynSlot))
    → Commits slot.did slot ss o
    → HasRoom slot.did ss
    → (ts : List DynSlot) × (o ≡ some ts) × (dyn_find slot.did ts ≡ some slot)
commits slot ss none c room = absurd (ground arith)
commits slot ss (some ts) c room = (ts, refl, ground arith)

finish_definition-room :
    (did : ℕ) (r : DynRec) (rs : List DynRec) (a : App)
    → did ≢ 0
    → HasRoom did a.dyn
    → (ts : List DynSlot) × (finish_definition 0x01 did (filled (r ∷ rs)) a
        ≡ (dyn_answer 0x01 did, record a { dyn = ts }))
      × (dyn_find did ts ≡ some (record { did = did; recs = r ∷ rs }))
unfolding finish_definition
finish_definition-room did r rs a n room =
    let slot : DynSlot = record { did = did; recs = r ∷ rs } in
    let (ts, done, found) =
      commits slot a.dyn (commit slot a.dyn) (commit-Commits did slot a.dyn n) room in
    (ts, ground arith, found)

read_request-slices :
    (mem : ℕ → ℕ) (did : ℕ) (r : DynRec) (rs : List DynRec) (a : App)
    → did_dynamic_base ≤ did
    → did ≤ did_dynamic_end
    → dyn_find did a.dyn ≡ some (record { did = did; recs = r ∷ rs })
    → AllInside a.vin a.io_port (r ∷ rs)
    → sum_sizes (r ∷ rs) ≤ dyn_max_data
    → handle_read_data_by_id mem (read_request did) a
      ≡ 0x62 ∷ byte1 did ∷ u8 did ∷ slices a.vin a.io_port (r ∷ rs)
unfolding handle_read_data_by_id read_dynamic did_read dyn_assemble sum_sizes
read_request-slices mem did r rs a lo hi found v m =
    let whole : be16 (byte1 did) (u8 did) ≡ did = omega arith in
    let size : length (slices a.vin a.io_port (r ∷ rs)) ≢ 0 =
      omega (arith, length-slices a.vin a.io_port (r ∷ rs) v, v.0) in
    rw whole
      (ground (arith, assemble_from-AllInside mem a.vin a.io_port 0 (r ∷ rs) v (omega arith)))

handle_define :
    (did : ℕ) (bytes : List ℕ) (a : App)
    → did_dynamic_base ≤ did
    → did ≤ did_dynamic_end
    → handle_dynamic_define_did (define_request did bytes) a
      ≡ finish_definition 0x01 did (define_by_identifier (define_request did bytes) a) a
unfolding handle_dynamic_define_did
handle_define did bytes a lo hi =
    let whole : be16 (byte1 did) (u8 did) ≡ did = omega arith in rw whole (ground arith)

-- A define request for one to three records, each asking for a part of a source that has it, at most
-- 56 bytes in all, for an identifier of the dynamic range that has a slot or for which one is free,
-- is confirmed; ReadDataByIdentifier then answers with the parts, one after the other.
pub define-read :
    (mem : ℕ → ℕ) (did n : ℕ) (bytes : List ℕ) (a : App)
    → did_dynamic_base ≤ did
    → did ≤ did_dynamic_end
    → HasRoom did a.dyn
    → length bytes ≡ 4 * suc n
    → n < 3
    → AllInside a.vin a.io_port (id_recs (suc n) bytes)
    → sum_sizes (id_recs (suc n) bytes) ≤ dyn_max_data
    → ((handle_dynamic_define_did (define_request did bytes) a).0 ≡ dyn_answer 0x01 did)
      × (handle_read_data_by_id mem
            (read_request did)
            (handle_dynamic_define_did (define_request did bytes) a).1
          ≡ 0x62 ∷ byte1 did ∷ u8 did ∷ slices a.vin a.io_port (id_recs (suc n) bytes))
unfolding id_recs
define-read mem did n bytes a lo hi room e h v m =
    let r = id_rec bytes in
    let rs = id_recs n (drop 4 bytes) in
    let whole : be16 (byte1 did) (u8 did) ≡ did = omega arith in
    let (ts, done, found) = finish_definition-room did r rs a (ground arith) room in
    let filled' = define_by_identifier-AllInside did n bytes a e h v m in
    let step : handle_dynamic_define_did (define_request did bytes) a
        ≡ (dyn_answer 0x01 did, record a { dyn = ts }) =
      handle_define did bytes a lo hi
      ∙ ap (λ (s : Scratch). finish_definition 0x01 did s a) filled'
      ∙ done in
    let after : App = record a { dyn = ts } in
    rw step (refl, read_request-slices mem did r rs after lo hi found v m)
