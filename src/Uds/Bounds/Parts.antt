-- ===== src/Uds/Bounds/Parts.antt =====
-- The lengths of what the responses of the application are put together from.
use obd_simulator.Prelude.{
  ℕ, zero, suc, ◌+◌, ◌-◌, ◌*◌, ◌≤◌, ◌≡◌, List, [], ◌∷◌, ◌++◌, Bool, length, get_or, length-take,
  length-append, arith, refl, ap, Option, none, some, u16,
}
use obd_simulator.Obd2.Dtc.{DtcEntry, MirrorEntry, DtcState}
use obd_simulator.Obd2.Dtc.Report.{get_codes, get_by_mask, mirror_get_by_mask}
use obd_simulator.Uds.{DynRec, DynSlot}
use obd_simulator.Uds.Shape.{SmallRecs}
use obd_simulator.Uds.Sources.{
  c_string, read_mem, read_slice, read_rec, assemble_from, dyn_assemble,
}
use obd_simulator.Uds.ReadDtc.Records.{report}

-- A text in an array ends at the first NUL.
pub length-c_string : (i : ℕ) (bytes : List ℕ) → get_or bytes i 0 ≡ 0 → length (c_string bytes) ≤ i
unfolding c_string
length-c_string i [] h = omega arith
length-c_string zero (b ∷ bs) h = ground arith
length-c_string (suc i) (b ∷ bs) h = ground (arith, length-c_string i bs)

pub length-read_mem : (mem : ℕ → ℕ) (addr n : ℕ) → length (read_mem mem addr n) ≡ n
unfolding read_mem
length-read_mem mem addr zero = refl
length-read_mem mem addr (suc n) = ap suc (length-read_mem mem (addr + 1) n)

pub length-get_codes :
    (wanted : DtcState → Bool) (left : ℕ) (ds : List DtcEntry)
    → length (get_codes wanted left ds) ≤ 2 * left
unfolding get_codes
length-get_codes wanted left [] = omega arith
length-get_codes wanted zero (d ∷ ds) = omega arith
length-get_codes wanted (suc left) (d ∷ ds) =
    ground (arith, length-get_codes wanted left ds, length-get_codes wanted (suc left) ds)

pub length-get_by_mask_le :
    (mask left : ℕ) (ds : List DtcEntry) → length (get_by_mask mask left ds) ≤ 4 * left
unfolding get_by_mask
length-get_by_mask_le mask left [] = omega arith
length-get_by_mask_le mask zero (d ∷ ds) = omega arith
length-get_by_mask_le mask (suc left) (d ∷ ds) =
    ground (arith, length-get_by_mask_le mask left ds, length-get_by_mask_le mask (suc left) ds)

pub length-mirror_get_by_mask_le :
    (mask left : ℕ) (es : List MirrorEntry) → length (mirror_get_by_mask mask left es) ≤ 4 * left
unfolding mirror_get_by_mask
length-mirror_get_by_mask_le mask left [] = omega arith
length-mirror_get_by_mask_le mask zero (e ∷ es) = omega arith
length-mirror_get_by_mask_le mask (suc left) (e ∷ es) = ground (
  arith,
  length-mirror_get_by_mask_le mask left es,
  length-mirror_get_by_mask_le mask (suc left) es,
)

pub length-report :
    (n : ℕ) (test : DtcEntry → Bool) (record' : DtcEntry → List ℕ) (ds : List DtcEntry)
    → ((d : DtcEntry) → length (record' d) ≡ n)
    → length (report test record' ds) ≤ n * length ds
unfolding report
length-report n test record' [] h = omega arith
length-report n test record' (d ∷ ds) h = ground (
  arith,
  h d,
  length-append (record' d) (report test record' ds),
  length-report n test record' ds h,
)

-- The bytes, if there are any, are at most `n`.
abbrev AtMost : ℕ → Option (List ℕ) → Type 0
AtMost n none = Unit {0}
AtMost n (some bytes) = length bytes ≤ n

pub read_rec-AtMost :
    (mem : ℕ → ℕ) (vin : List ℕ) (io_port : ℕ) (r : DynRec)
    → AtMost r.size (read_rec mem vin io_port r)
unfolding read_rec read_slice
read_rec-AtMost mem vin io_port r = grind (arith, length-take, length-read_mem)

pub joined-AtMost :
    (m n k : ℕ) (x y : Option (List ℕ))
    → AtMost m x
    → AtMost n y
    → m + n ≤ k
    → AtMost k (elim x as (λ _. Option (List ℕ)) [
      | none ↦ none
      | some bytes ↦ elim y as (λ _. Option (List ℕ)) [
        | none ↦ none
        | some more ↦ some (bytes ++ more)
      ]
    ])
joined-AtMost m n k none y v w h = tt
joined-AtMost m n k (some bytes) none v w h = tt
joined-AtMost m n k (some bytes) (some more) v w h = omega (arith, length-append bytes more)

pub assemble_from-AtMost :
    (mem : ℕ → ℕ) (vin : List ℕ) (io_port pos : ℕ) (rs : List DynRec)
    → SmallRecs rs
    → pos ≤ 56
    → AtMost (56 - pos) (assemble_from mem vin io_port 56 pos rs)
unfolding assemble_from
assemble_from-AtMost mem vin io_port pos [] v p = omega arith
assemble_from-AtMost mem vin io_port pos (r ∷ rs) v p =
    let next = u16 (pos + r.size) in
    ground (
      arith,
      joined-AtMost r.size (56 - next) (56 - pos) (read_rec mem vin io_port r)
          (assemble_from mem vin io_port 56 next rs) (read_rec-AtMost mem vin io_port r),
      assemble_from-AtMost mem vin io_port next rs v.1,
    )

pub length-dyn_assemble :
    (mem : ℕ → ℕ) (vin : List ℕ) (io_port : ℕ) (s : DynSlot)
    → SmallRecs s.recs
    → length (dyn_assemble mem vin io_port s 56) ≤ 56
unfolding dyn_assemble
length-dyn_assemble mem vin io_port s v =
    ground (arith, assemble_from-AtMost mem vin io_port 0 s.recs v)
