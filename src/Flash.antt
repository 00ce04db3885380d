-- ===== src/Flash.antt =====
-- Flash erase and write, Core/Src/ota_flash.c, over the HAL's flash driver and the memory map of
-- Core/Inc/bl_handoff.h.
pub mod Write
use obd_simulator.Prelude.{
  ℕ, zero, suc, ◌+◌, ◌-◌, ◌/◌, ◌*◌, List, [], ◌∷◌, ◌++◌, Bool, true, false, not, ◌&&◌, leb,
  if◌then◌else◌, length, take, drop, replicate, u32, sub32,
}

abbrev pub app_base : ℕ
app_base = 0x08007000

abbrev pub app_slot_size : ℕ
app_slot_size = 0x17000

abbrev pub meta_base : ℕ
meta_base = 0x0801E000

abbrev pub flash_end : ℕ
flash_end = 0x08020000

abbrev pub flash_page_size : ℕ
flash_page_size = 2048

-- The HAL's flash driver over a state `F`: a doubleword programmed at an address, true for
-- HAL_OK; a page erased, true for HAL_OK with no error flag in FLASH->SR; a byte read.
pub record FlashPorts (F : Type 0) : Type 0 where
  pub program : ℕ → List ℕ → F → Bool × F
  pub erase_page : ℕ → F → Bool × F
  pub read : F → ℕ → ℕ

abbrev pub in_range : ℕ → ℕ → Bool
in_range addr size = leb app_base addr && leb (u32 (addr + size)) flash_end

-- One doubleword of the write loop: up to eight bytes, padded with the erased state.
abbrev pub padded : List ℕ → List ℕ
padded data' = take 8 (data' ++ replicate 8 0xFF)

module _ {F : Type 0} (flash : FlashPorts F) where
  -- The loop of `ota_flash_erase` over the pages left.
  unfoldable pub erase_pages : ℕ → ℕ → F → Bool × F
  erase_pages zero page f = (true, f)
  erase_pages (suc left) page f =
      let (ok, f') = flash.erase_page page f in
      let rest = erase_pages left (page + 1) f' in if ok then rest else (false, f')

  unfoldable pub ota_flash_erase : ℕ → ℕ → F → Bool × F
  unfolding erase_pages
  ota_flash_erase addr size f =
      let erased =
        erase_pages (u32 (size + flash_page_size - 1) / flash_page_size)
          (sub32 addr 0x08000000 / flash_page_size) f in
      if in_range addr size then erased else (false, f)

  -- The loop of `ota_flash_write`, on fuel: one round for each eight bytes.
  unfoldable pub write_words : ℕ → ℕ → List ℕ → F → Bool × F
  write_words zero addr bytes f = (true, f)
  write_words (suc fuel) addr [] f = (true, f)
  write_words (suc fuel) addr (b ∷ bs) f =
      let (ok, f') = flash.program addr (padded (b ∷ bs)) f in
      let rest = write_words fuel (u32 (addr + 8)) (drop 8 (b ∷ bs)) f' in
      if ok then rest else (false, f')

  unfoldable pub ota_flash_write : ℕ → List ℕ → F → Bool × F
  unfolding write_words
  ota_flash_write addr bytes f =
      let written = write_words (length bytes) addr bytes f in
      if in_range addr (length bytes) then written else (false, f)

  -- The `n` bytes of memory from `addr` on.
  unfoldable pub read_bytes : F → ℕ → ℕ → List ℕ
  read_bytes f addr zero = []
  read_bytes f addr (suc n) = flash.read f addr ∷ read_bytes f (addr + 1) n

  -- A little-endian word in memory.
  abbrev pub read_word : F → ℕ → ℕ
  read_word f addr =
      flash.read f addr
      + flash.read f (addr + 1) * 256
      + flash.read f (addr + 2) * 65536
      + flash.read f (addr + 3) * 16777216
