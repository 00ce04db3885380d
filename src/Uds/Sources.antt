-- ===== src/Uds/Sources.antt =====
-- What a data identifier stands for: the registry of uds_service.c, the IO port, and the dynamic
-- identifiers. `mem` is the address space that the handlers read through pointers.
use obd_simulator.Prelude.{
  ℕ, zero, suc, ◌+◌, ◌-◌, List, [], ◌∷◌, ◌++◌, Bool, ◌&&◌, ◌||◌, leb, ltb, ◌==◌, if◌then◌else◌,
  length, take, drop, Option, none, some, u16,
}
use obd_simulator.Uds.{
  DynRec, DynSlot, dyn_src_mem, did_vin, did_hw_version, did_sw_version, did_ecu_name,
  did_io_control, hw_version, sw_version, ecu_name,
}

-- The text that a char pointer points to: up to the first NUL, which `strlen` counts.
unfoldable pub c_string : List ℕ → List ℕ
c_string [] = []
c_string (b ∷ bs) = if b == 0 then [] else b ∷ c_string bs

-- The lookup in `k_did_read`.
unfoldable pub did_read : List ℕ → ℕ → Option (List ℕ)
unfolding c_string
did_read vin did =
    if did == did_vin
    then some (c_string vin)
    else if did == did_hw_version
    then some hw_version
    else if did == did_sw_version
    then some sw_version
    else if did == did_ecu_name
    then some ecu_name
    else none

-- `resolve_source`: the data, with its length.
unfoldable pub resolve_source : List ℕ → ℕ → ℕ → Option (List ℕ)
unfolding did_read
resolve_source vin io_port did =
    if did == did_io_control then some (io_port ∷ []) else did_read vin did

-- `dyn_find`
unfoldable pub dyn_find : ℕ → List DynSlot → Option DynSlot
dyn_find did [] = none
dyn_find did (s ∷ ss) = if s.did == did then some s else dyn_find did ss

-- `n` bytes of the address space.
unfoldable pub read_mem : (ℕ → ℕ) → ℕ → ℕ → List ℕ
read_mem mem addr zero = []
read_mem mem addr (suc n) = mem addr ∷ read_mem mem (addr + 1) n

-- The slice of a source that a record takes, if the source still has it.
unfoldable pub read_slice : List ℕ → ℕ → DynRec → Option (List ℕ)
unfolding resolve_source
read_slice vin io_port r = elim (resolve_source vin io_port r.src_did) [
  | none ↦ none
  | some bytes ↦
      if r.position == 0 || ltb (length bytes) (u16 (r.position - 1 + r.size))
      then none
      else some (take r.size (drop (r.position - 1) bytes))
]

unfoldable pub read_rec : (ℕ → ℕ) → List ℕ → ℕ → DynRec → Option (List ℕ)
unfolding read_slice read_mem
read_rec mem vin io_port r =
    if r.src_did == dyn_src_mem
    then some (read_mem mem r.src_addr r.size)
    else read_slice vin io_port r

-- The loop of `dyn_assemble` from `pos`; the empty list stands for the returned 0.
unfoldable pub assemble_from : (ℕ → ℕ) → List ℕ → ℕ → ℕ → ℕ → List DynRec → Option (List ℕ)
unfolding read_rec
assemble_from mem vin io_port max pos [] = some []
assemble_from mem vin io_port max pos (r ∷ rs) =
    let rest = assemble_from mem vin io_port max (u16 (pos + r.size)) rs in
    if ltb max (u16 (pos + r.size)) then none else elim (read_rec mem vin io_port r) [
      | none ↦ none
      | some bytes ↦ elim rest [ none ↦ none | some more ↦ some (bytes ++ more) ]
    ]

unfoldable pub dyn_assemble : (ℕ → ℕ) → List ℕ → ℕ → DynSlot → ℕ → List ℕ
unfolding assemble_from
dyn_assemble mem vin io_port s max = elim (assemble_from mem vin io_port max 0 s.recs) [
  | none ↦ []
  | some bytes ↦ bytes
]

-- The readable regions of ReadMemoryByAddress and of defineByMemoryAddress.
abbrev pub mem_flash_base : ℕ
mem_flash_base = 0x08000000

abbrev pub mem_flash_end : ℕ
mem_flash_end = 0x08020000

abbrev pub mem_sram_base : ℕ
mem_sram_base = 0x20000000

abbrev pub mem_sram_end : ℕ
mem_sram_end = 0x20008000

abbrev pub in_region : ℕ → ℕ → ℕ → ℕ → Bool
in_region base end' addr size = leb base addr && ltb addr end' && leb size (end' - addr)

-- `in_flash` or `in_sram`
unfoldable pub is_readable : ℕ → ℕ → Bool
is_readable addr size =
    in_region mem_flash_base mem_flash_end addr size
    || in_region mem_sram_base mem_sram_end addr size
