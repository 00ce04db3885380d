-- ===== src/Flash/Write.antt =====
-- What erasing and writing leave in memory, from the driver's documented behaviour.
use obd_simulator.Prelude.{
  ℕ, zero, suc, ◌+◌, ◌-◌, ◌*◌, ◌/◌, ◌≤◌, ◌<◌, ◌≡◌, ◌⊎◌, List, [], ◌∷◌, ◌++◌, true, arith, refl,
  length, length-drop, drop, replicate, get_or-take, get_or-append_replicate, get_or-drop, Bool,
  ◌∙◌, get_or, u32, ltb, leb, ◌&&◌, if◌then◌else◌, if_both,
}
use native.Mathlib.Decide.{dec_lt}
use obd_simulator.Flash.{
  FlashPorts, flash_page_size, padded, write_words, ota_flash_write, app_base, flash_end, in_range,
}

-- The reference manual's account of the driver: a doubleword that was programmed without error
-- reads back as given, a page that was erased without error reads as 0xFF, and all other bytes
-- keep their values; a failed operation may spoil its own doubleword or page and nothing else.
pub record FlashLaws {F : Type 0} (flash : FlashPorts F) : Type 0 where
  pub program_read :
      (a : ℕ) (bytes : List ℕ) (f : F) (x : ℕ)
      → (flash.program a bytes f).0 ≡ true
      → a ≤ x
      → x < a + 8
      → flash.read ((flash.program a bytes f).1) x ≡ get_or bytes (x - a) 0xFF
  pub program_other :
      (a : ℕ) (bytes : List ℕ) (f : F) (x : ℕ)
      → (x < a) ⊎ (a + 8 ≤ x)
      → flash.read ((flash.program a bytes f).1) x ≡ flash.read f x
  pub erase_read :
      (p : ℕ) (f : F) (x : ℕ)
      → (flash.erase_page p f).0 ≡ true
      → 0x08000000 + p * flash_page_size ≤ x
      → x < 0x08000000 + p * flash_page_size + flash_page_size
      → flash.read ((flash.erase_page p f).1) x ≡ 0xFF
  pub erase_other :
      (p : ℕ) (f : F) (x : ℕ)
      → (x < 0x08000000 + p * flash_page_size)
        ⊎ (0x08000000 + p * flash_page_size + flash_page_size ≤ x)
      → flash.read ((flash.erase_page p f).1) x ≡ flash.read f x

get_or-padded :
    (bytes : List ℕ) (i : ℕ) → i < 8 → get_or (padded bytes) i 0xFF ≡ get_or bytes i 0xFF
get_or-padded bytes i h =
    get_or-take 8 (bytes ++ replicate 8 0xFF) i 0xFF h ∙ get_or-append_replicate bytes 8 i 0xFF

-- The doublewords that `n` bytes take, in bytes.
abbrev pub doublewords : ℕ → ℕ
doublewords n = (n + 7) / 8 * 8

module _ {F : Type 0} (flash : FlashPorts F) (laws : FlashLaws flash) where
  open laws use {program_read, program_other}

  -- A write changes nothing in front of its first byte, nor behind the doubleword of its last.
  write_words-other :
      (fuel addr : ℕ) (bytes : List ℕ) (f : F) (x : ℕ)
      → addr + doublewords (length bytes) < 4294967296
      → (x < addr) ⊎ (addr + doublewords (length bytes) ≤ x)
      → flash.read ((write_words flash fuel addr bytes f).1) x ≡ flash.read f x
  unfolding write_words
  write_words-other zero addr bytes f x b h = refl
  write_words-other (suc fuel) addr [] f x b h = refl
  write_words-other (suc fuel) addr (c ∷ cs) f x b h =
      let bytes = c ∷ cs in
      let f' = (flash.program addr (padded bytes) f).1 in
      let here = program_other addr (padded bytes) f x (omega arith) in
      let small = length-drop 8 bytes in
      if_both (λ (r : Bool × F). flash.read (r.1) x ≡ flash.read f x)
        ((flash.program addr (padded bytes) f).0)
        (λ _.
          write_words-other fuel (u32 (addr + 8)) (drop 8 bytes) f' x (omega (arith, small))
            (omega (arith, small))
          ∙ here)
        (λ _. here)

  -- The loop, from any address, with enough rounds for its bytes.
  write_words-read :
      (fuel addr : ℕ) (bytes : List ℕ) (f : F) (x : ℕ)
      → length bytes ≤ fuel
      → addr + doublewords (length bytes) < 4294967296
      → (write_words flash fuel addr bytes f).0 ≡ true
      → addr ≤ x
      → x < addr + length bytes
      → flash.read ((write_words flash fuel addr bytes f).1) x ≡ get_or bytes (x - addr) 0xFF
  unfolding write_words
  write_words-read zero addr bytes f x l b ok lo hi = absurd (omega arith)
  write_words-read (suc fuel) addr [] f x l b ok lo hi = absurd (omega arith)
  write_words-read (suc fuel) addr (c ∷ cs) f x l b ok lo hi =
      let bytes = c ∷ cs in
      let f' = (flash.program addr (padded bytes) f).1 in
      let small = length-drop 8 bytes in
      if_both (λ (r : Bool × F). r.0 ≡ true → flash.read (r.1) x ≡ get_or bytes (x - addr) 0xFF)
        ((flash.program addr (padded bytes) f).0)
        (λ programmed done. elim (dec_lt x (addr + 8)) [
          | yes near ↦
              write_words-other fuel (u32 (addr + 8)) (drop 8 bytes) f' x (omega (arith, small))
                (omega (arith, small))
              ∙ (program_read addr (padded bytes) f x programmed lo near
                  ∙ get_or-padded bytes (x - addr) (omega arith))
          | no far ↦
              write_words-read fuel (u32 (addr + 8)) (drop 8 bytes) f' x (omega (arith, small))
                (omega (arith, small)) done (omega arith) (omega (arith, small))
              ∙ get_or-drop 8 bytes (x - u32 (addr + 8)) (x - addr) 0xFF (omega arith)
        ])
        (λ _ done. absurd (cc done)) ok

  -- A write that returns 0 lay inside the app slot and the meta page; its bytes read back; and no
  -- byte outside its doublewords has changed.
  pub ota_flash_write_lem :
      (addr : ℕ) (bytes : List ℕ) (f : F)
      → addr < flash_end
      → length bytes ≤ flash_end
      → (ota_flash_write flash addr bytes f).0 ≡ true
      → (app_base ≤ addr)
        × (addr + length bytes ≤ flash_end)
        × ((x : ℕ)
            → addr ≤ x
            → x < addr + length bytes
            → flash.read ((ota_flash_write flash addr bytes f).1) x ≡ get_or bytes (x - addr) 0xFF)
        × ((x : ℕ)
            → (x < addr) ⊎ (addr + doublewords (length bytes) ≤ x)
            → flash.read ((ota_flash_write flash addr bytes f).1) x ≡ flash.read f x)
  unfolding ota_flash_write
  ota_flash_write_lem addr bytes f s n ok =
      let ranged : (app_base ≤ addr) × (addr + length bytes ≤ flash_end) = ground arith in
      if_both
        (λ (r : Bool × F).
          r.0 ≡ true
          → (app_base ≤ addr)
            × (addr + length bytes ≤ flash_end)
            × ((x : ℕ)
                → addr ≤ x
                → x < addr + length bytes
                → flash.read (r.1) x ≡ get_or bytes (x - addr) 0xFF)
            × ((x : ℕ)
                → (x < addr) ⊎ (addr + doublewords (length bytes) ≤ x)
                → flash.read (r.1) x ≡ flash.read f x))
        (in_range addr (length bytes))
        (λ _ done. (
          ranged.0,
          ranged.1,
          (λ x lo hi.
              write_words-read (length bytes) addr bytes f x (omega arith) (omega arith) done lo
                hi),
          (λ x h. write_words-other (length bytes) addr bytes f x (omega arith) h),
        ))
        (λ _ done. absurd (cc done)) ok

  -- Over a flash driver that obeys its laws, a write that returns 0, from an address below the end
  -- of the flash and of no more bytes than that address, lay inside the app slot and what follows it
  -- up to the end of the flash. Any address that is not in the padding behind the last byte then
  -- reads as the byte written there, or as before if none was.
  pub ota_flash_write_image :
      (addr : ℕ) (bytes : List ℕ) (f : F) (x : ℕ)
      → addr < flash_end
      → length bytes ≤ flash_end
      → (ota_flash_write flash addr bytes f).0 ≡ true
      → (x < addr + length bytes) ⊎ (addr + doublewords (length bytes) ≤ x)
      → (app_base ≤ addr)
        × (addr + length bytes ≤ flash_end)
        × (flash.read ((ota_flash_write flash addr bytes f).1) x ≡ (
            if leb addr x && ltb x (addr + length bytes)
            then get_or bytes (x - addr) 0xFF
            else flash.read f x))
  ota_flash_write_image addr bytes f x s n ok h =
      let w = ota_flash_write_lem addr bytes f s n ok in (w.0, w.1, ground (arith, w.2 x, w.3 x))
