-- ===== src/Uds/Slices.antt =====
-- The records of a define request for a dynamic identifier, and the parts of sources they ask for.
pub mod Read
use obd_simulator.Prelude.{
  ℕ, zero, suc, ◌+◌, ◌-◌, ◌*◌, ◌/◌, ◌≡◌, ◌≢◌, ◌≤◌, ◌<◌, ◌⊎◌, List, [], ◌∷◌, ◌++◌, length,
  length-append, length-take, length-drop, take, drop, u8, u16, be16, byte1, arith, refl, ap, ◌∙◌,
  Option, none, some,
}
use obd_simulator.Uds.{App, DynRec, DynSlot, dyn_max_data, did_dynamic_base, did_dynamic_end}
use obd_simulator.Uds.Sources.{
  resolve_source, did_read, dyn_find, read_slice, read_rec, assemble_from, dyn_assemble,
}
use obd_simulator.Uds.ReadWrite.{read_dynamic, handle_read_data_by_id}
use obd_simulator.Uds.Dynamic.{
  id_rec, has_slice, read_id_recs, total_size, size_at, fill, define_by_identifier, commit,
  finish_definition, handle_dynamic_define_did, dyn_answer, Scratch, filled,
}
use obd_simulator.Uds.Table.{used_slots, Commits, commit-Commits}

-- The `n` records that the bytes spell out.
unfoldable pub id_recs : ℕ → List ℕ → List DynRec
id_recs zero bytes = []
id_recs (suc n) bytes = id_rec bytes ∷ id_recs n (drop 4 bytes)

-- The bytes of a source, none for an unknown one.
abbrev pub bytes_or_none : Option (List ℕ) → List ℕ
bytes_or_none none = []
bytes_or_none (some bytes) = bytes

abbrev pub source_bytes : List ℕ → ℕ → DynRec → List ℕ
source_bytes vin io_port r = bytes_or_none (resolve_source vin io_port r.src_did)

-- What each record asks for, one after the other: `size` bytes of its source, from `position` on,
-- which counts from 1.
unfoldable pub slices : List ℕ → ℕ → List DynRec → List ℕ
slices vin io_port [] = []
slices vin io_port (r ∷ rs) =
    take r.size (drop (r.position - 1) (source_bytes vin io_port r)) ++ slices vin io_port rs

unfoldable pub sum_sizes : List DynRec → ℕ
sum_sizes [] = 0
sum_sizes (r ∷ rs) = r.size + sum_sizes rs

-- Every record asks for a part, not empty, of a source.
abbrev pub AllInside : List ℕ → ℕ → List DynRec → Type 0
AllInside vin io_port [] = Unit {0}
AllInside vin io_port (r ∷ rs) =
    (r.size ≢ 0)
    × (r.position ≢ 0)
    × (r.position - 1 + r.size ≤ length (source_bytes vin io_port r))
    × AllInside vin io_port rs

pub length-id_recs : (n : ℕ) (bytes : List ℕ) → length (id_recs n bytes) ≡ n
unfolding id_recs
length-id_recs zero bytes = refl
length-id_recs (suc n) bytes = ap suc (length-id_recs n (drop 4 bytes))

pub read_id_recs-all :
    (vin : List ℕ) (io_port n : ℕ) (bytes : List ℕ)
    → AllInside vin io_port (id_recs n bytes)
    → read_id_recs vin io_port n bytes ≡ id_recs n bytes
unfolding read_id_recs id_recs has_slice
read_id_recs-all vin io_port zero bytes v = refl
read_id_recs-all vin io_port (suc n) bytes v =
    ground (arith, read_id_recs-all vin io_port n (drop 4 bytes) v.3)

total_size-sum :
    (t : ℕ) (rs : List DynRec) → t + sum_sizes rs < 65536 → total_size t rs ≡ t + sum_sizes rs
unfolding total_size sum_sizes
total_size-sum t [] h = omega arith
total_size-sum t (r ∷ rs) h =
    let e : u16 (t + r.size) ≡ t + r.size = omega arith in
    ap (λ k. total_size k rs) e ∙ total_size-sum (t + r.size) rs (omega arith) ∙ omega arith

size_at-AllInside :
    (i : ℕ) (vin : List ℕ) (io_port : ℕ) (rs : List DynRec)
    → AllInside vin io_port rs
    → i < length rs
    → size_at i rs ≢ 0
unfolding size_at
size_at-AllInside i vin io_port [] v h = absurd (omega arith)
size_at-AllInside zero vin io_port (r ∷ rs) v h = v.0
size_at-AllInside (suc i) vin io_port (r ∷ rs) v h =
    size_at-AllInside i vin io_port rs v.3 (omega arith)

pub fill-AllInside :
    (n : ℕ) (vin : List ℕ) (io_port : ℕ) (rs : List DynRec)
    → AllInside vin io_port rs
    → length rs ≡ suc n
    → sum_sizes rs ≤ dyn_max_data
    → fill (suc n) rs ≡ rs
unfolding fill sum_sizes
fill-AllInside n vin io_port [] v e h = absurd (omega arith)
fill-AllInside n vin io_port (r ∷ rs) v e h = ground (
  arith,
  total_size-sum 0 (r ∷ rs) (omega arith),
  size_at-AllInside n vin io_port (r ∷ rs) v (omega arith),
)

pub length-slices :
    (vin : List ℕ) (io_port : ℕ) (rs : List DynRec)
    → AllInside vin io_port rs
    → length (slices vin io_port rs) ≡ sum_sizes rs
unfolding slices sum_sizes
length-slices vin io_port [] v = refl
length-slices vin io_port (r ∷ rs) v =
    let source = source_bytes vin io_port r in
    omega (
      arith,
      length-append (take r.size (drop (r.position - 1) source)) (slices vin io_port rs),
      length-take r.size (drop (r.position - 1) source),
      length-drop (r.position - 1) source,
      length-slices vin io_port rs v.3,
    )

read_rec-AllInside :
    (mem : ℕ → ℕ) (vin : List ℕ) (io_port : ℕ) (r : DynRec) (rs : List DynRec)
    → AllInside vin io_port (r ∷ rs)
    → read_rec mem vin io_port r
      ≡ some (take r.size (drop (r.position - 1) (source_bytes vin io_port r)))
unfolding read_rec read_slice resolve_source did_read
read_rec-AllInside mem vin io_port r rs v = ground arith

pub assemble_from-AllInside :
    (mem : ℕ → ℕ) (vin : List ℕ) (io_port pos : ℕ) (rs : List DynRec)
    → AllInside vin io_port rs
    → pos + sum_sizes rs ≤ dyn_max_data
    → assemble_from mem vin io_port dyn_max_data pos rs ≡ some (slices vin io_port rs)
unfolding assemble_from slices sum_sizes
assemble_from-AllInside mem vin io_port pos [] v h = refl
assemble_from-AllInside mem vin io_port pos (r ∷ rs) v h = ground (
  arith,
  read_rec-AllInside mem vin io_port r rs v,
  assemble_from-AllInside mem vin io_port (u16 (pos + r.size)) rs v.3,
)
