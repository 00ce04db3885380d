-- ===== src/Uds/Table/Request.antt =====
-- What the records are that a define request of 0x2C stores: those which its bytes spell out.
use obd_simulator.Prelude.{
  ◌⊎◌, ℕ, zero, suc, ◌+◌, ◌-◌, ◌*◌, ◌/◌, ◌%◌, ◌≡◌, ◌≢◌, ◌≤◌, ◌<◌, List, [], ◌∷◌, length, get_or,
  take, drop, arith, u8,
}
use obd_simulator.Boot.Server.Transfer.{be_word}
use obd_simulator.Uds.{App, DynRec, dyn_src_mem}
use obd_simulator.Uds.Dynamic.{
  read_id_recs, read_mem_recs, size_at, fill, filled, refused, define_by_identifier,
  define_by_memory_address,
}

-- Four bytes for each record: the source's identifier, the position and the size.
abbrev pub IdRecs : List ℕ → List DynRec → Type 0
IdRecs bytes [] = Unit {0}
IdRecs bytes (r ∷ rs) =
    (r.src_did ≡ get_or bytes 0 0 * 256 + get_or bytes 1 0)
    × (r.position ≡ get_or bytes 2 0)
    × (r.size ≡ get_or bytes 3 0)
    × IdRecs (drop 4 bytes) rs

-- `alen` bytes of an address and `slen` of a size for each record.
abbrev pub MemRecs : ℕ → ℕ → List ℕ → List DynRec → Type 0
MemRecs alen slen bytes [] = Unit {0}
MemRecs alen slen bytes (r ∷ rs) =
    (r.src_did ≡ dyn_src_mem)
    × (r.src_addr ≡ be_word 0 (take alen bytes))
    × (r.size ≡ be_word 0 (take slen (drop alen bytes)))
    × MemRecs alen slen (drop (alen + slen) bytes) rs

-- The records are all those of a defineByIdentifier request; their number is counted in a byte.
pub record ByIdentifier (req : List ℕ) (recs : List DynRec) : Type 0 where
  pub whole : (length req - 4) % 4 ≡ 0
  pub count : length recs ≡ u8 ((length req - 4) / 4)
  pub spelled : IdRecs (drop 4 req) recs

-- The same of a defineByMemoryAddress request; the byte at 4 holds the two widths.
pub record ByMemoryAddress (req : List ℕ) (recs : List DynRec) : Type 0 where
  pub whole : (length req - 5) % (get_or req 4 0 % 16 + get_or req 4 0 / 16 % 16) ≡ 0
  pub count : length recs ≡ u8 ((length req - 5) / (get_or req 4 0 % 16 + get_or req 4 0 / 16 % 16))
  pub spelled : MemRecs (get_or req 4 0 % 16) (get_or req 4 0 / 16 % 16) (drop 5 req) recs

size_at_bound : (i : ℕ) (rs : List DynRec) → size_at i rs ≢ 0 → i < length rs
unfolding size_at
size_at_bound i [] h = ground (arith, h)
size_at_bound zero (r ∷ rs) h = omega arith
size_at_bound (suc i) (r ∷ rs) h = omega (arith, size_at_bound i rs h)

read_id_recs-IdRecs :
    (vin : List ℕ) (io_port n : ℕ) (bytes : List ℕ)
    → IdRecs bytes (read_id_recs vin io_port n bytes)
      × (length (read_id_recs vin io_port n bytes) ≤ n)
unfolding read_id_recs
read_id_recs-IdRecs vin io_port zero bytes = (tt, omega arith)
read_id_recs-IdRecs vin io_port (suc n) bytes =
    ground (arith, read_id_recs-IdRecs vin io_port n (drop 4 bytes))

read_mem_recs-MemRecs :
    (alen slen n : ℕ) (bytes : List ℕ)
    → MemRecs alen slen bytes (read_mem_recs alen slen n bytes)
      × (length (read_mem_recs alen slen n bytes) ≤ n)
unfolding read_mem_recs
read_mem_recs-MemRecs alen slen zero bytes = (tt, omega arith)
read_mem_recs-MemRecs alen slen (suc n) bytes =
    ground (arith, read_mem_recs-MemRecs alen slen n (drop (alen + slen) bytes))

-- The scratch slot is only filled with all the records.
fill-all :
    (n : ℕ) (recs : List DynRec) (r : DynRec) (rs : List DynRec)
    → fill n recs ≡ r ∷ rs
    → (recs ≡ r ∷ rs) × (n - 1 < length recs)
unfolding fill
fill-all n recs r rs h = ground (arith, h, size_at_bound (n - 1) recs)

pub define_by_identifier-ByIdentifier :
    (req : List ℕ) (a : App) (r : DynRec) (rs : List DynRec)
    → define_by_identifier req a ≡ filled (r ∷ rs)
    → ByIdentifier req (r ∷ rs)
unfolding define_by_identifier
define_by_identifier-ByIdentifier req a r rs h =
    let n = u8 ((length req - 4) / 4) in
    let recs = read_id_recs a.vin a.io_port n (drop 4 req) in
    ground (arith, h, fill-all n recs r rs, read_id_recs-IdRecs a.vin a.io_port n (drop 4 req))

pub define_by_memory_address-ByMemoryAddress :
    (req : List ℕ) (r : DynRec) (rs : List DynRec)
    → define_by_memory_address req ≡ filled (r ∷ rs)
    → ByMemoryAddress req (r ∷ rs)
unfolding define_by_memory_address
define_by_memory_address-ByMemoryAddress req r rs h =
    let alen = get_or req 4 0 % 16 in
    let slen = get_or req 4 0 / 16 % 16 in
    let n = u8 ((length req - 5) / (alen + slen)) in
    let recs = read_mem_recs alen slen n (drop 5 req) in
    ground (arith, h, fill-all n recs r rs, read_mem_recs-MemRecs alen slen n (drop 5 req))

-- The codes by which a define request is refused before its records are read.
abbrev pub IsRefusal : ℕ → Type 0
IsRefusal nrc = (nrc ≡ 0x13) ⊎ (nrc ≡ 0x31)

pub define_by_identifier-IsRefusal :
    (req : List ℕ) (a : App) (nrc : ℕ) → define_by_identifier req a ≡ refused nrc → IsRefusal nrc
unfolding define_by_identifier
define_by_identifier-IsRefusal req a nrc h = ground (arith, h)

pub define_by_memory_address-IsRefusal :
    (req : List ℕ) (nrc : ℕ) → define_by_memory_address req ≡ refused nrc → IsRefusal nrc
unfolding define_by_memory_address
define_by_memory_address-IsRefusal req nrc h = ground (arith, h)
