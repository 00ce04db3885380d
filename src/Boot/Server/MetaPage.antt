-- ===== src/Boot/Server/MetaPage.antt =====
-- What the flash services leave of the meta page: the erase of the app slot and the writes into it
-- do not reach it.
use obd_simulator.Prelude.{
  ℕ, zero, suc, ◌+◌, ◌-◌, ◌/◌, ◌%◌, ◌≡◌, ◌≢◌, ◌≤◌, ◌<◌, inl, inr, List, [], ◌∷◌, Bool, length,
  length-drop, drop, arith, refl, ◌∙◌, u32, if_both, ◌==◌, Bool-cases,
}
use obd_simulator.Flash.{
  FlashPorts, flash_page_size, padded, erase_pages, ota_flash_erase, write_words, ota_flash_write,
  read_word, app_base, app_slot_size, meta_base,
}
use obd_simulator.Flash.Write.{FlashLaws}
use obd_simulator.Boot.{bl_meta}

-- The driver refuses a doubleword at an address that is no multiple of eight (PGAERR) and leaves the
-- memory alone; and memory consists of bytes.
pub record DriverLaws {F : Type 0} (flash : FlashPorts F) : Type 0 where
  pub laws : FlashLaws flash
  pub unaligned :
      (a : ℕ) (bytes : List ℕ) (f : F) (x : ℕ)
      → a % 8 ≢ 0
      → flash.read (flash.program a bytes f).1 x ≡ flash.read f x
  pub read_byte : (f : F) (x : ℕ) → flash.read f x < 256

-- Two memories that agree from the meta page on.
abbrev pub SameMeta : {F : Type 0} → FlashPorts F → F → F → Type 0
SameMeta flash f g = (x : ℕ) → meta_base ≤ x → flash.read g x ≡ flash.read f x

module _ {F : Type 0} (flash : FlashPorts F) (driver : DriverLaws flash) where
  open driver use {laws, unaligned}

  read_word_ext :
      (f g : F) (a : ℕ)
      → SameMeta flash f g
      → meta_base ≤ a
      → read_word flash g a ≡ read_word flash f a
  read_word_ext f g a same h = omega (
    arith,
    same a h,
    same (a + 1) (omega arith),
    same (a + 2) (omega arith),
    same (a + 3) (omega arith),
  )

  pub bl_meta_ext : (f g : F) → SameMeta flash f g → bl_meta flash g ≡ bl_meta flash f
  unfolding bl_meta
  bl_meta_ext f g same =
      let word = λ (k : ℕ). read_word_ext f g (meta_base + k) same (omega arith) in
      ground (arith, word 0, word 4, word 8, word 12, word 16)

  program-SameMeta :
      (a : ℕ) (bytes : List ℕ) (f : F)
      → a < meta_base
      → SameMeta flash f (flash.program a bytes f).1
  program-SameMeta a bytes f h x m = elim (Bool-cases (a % 8 == 0)) [
    | inl aligned ↦ laws.program_other a bytes f x (inr (ground arith))
    | inr apart ↦ unaligned a bytes f x (ground arith)
  ]

  write_words-SameMeta :
      (fuel addr : ℕ) (bytes : List ℕ) (f : F)
      → (0 < length bytes → addr + length bytes ≤ meta_base)
      → SameMeta flash f (write_words flash fuel addr bytes f).1
  unfolding write_words
  write_words-SameMeta zero addr bytes f h x m = refl
  write_words-SameMeta (suc fuel) addr [] f h x m = refl
  write_words-SameMeta (suc fuel) addr (b ∷ bs) f h x m =
      let f' = (flash.program addr (padded (b ∷ bs)) f).1 in
      let here = program-SameMeta addr (padded (b ∷ bs)) f (omega (arith, h (omega arith))) x m in
      if_both (λ (r : Bool × F). flash.read (r.1) x ≡ flash.read f x)
        ((flash.program addr (padded (b ∷ bs)) f).0)
        (λ _.
          write_words-SameMeta fuel (u32 (addr + 8)) (drop 8 (b ∷ bs)) f'
            (λ more. omega (arith, h (omega arith), length-drop 8 (b ∷ bs))) x m
          ∙ here)
        (λ _. here)

  pub erase_pages-SameMeta :
      (left page : ℕ) (f : F)
      → page + left ≤ 60
      → SameMeta flash f (erase_pages flash left page f).1
  unfolding erase_pages
  erase_pages-SameMeta zero page f h x m = refl
  erase_pages-SameMeta (suc left) page f h x m =
      let here = laws.erase_other page f x (inr (omega arith)) in
      if_both (λ (r : Bool × F). flash.read (r.1) x ≡ flash.read f x) ((flash.erase_page page f).0)
        (λ _. erase_pages-SameMeta left (page + 1) _ (omega arith) x m ∙ here) (λ _. here)

  pub erase_slot-SameMeta :
      (size : ℕ) (f : F)
      → size ≤ app_slot_size
      → SameMeta flash f (ota_flash_erase flash app_base size f).1
  unfolding ota_flash_erase
  erase_slot-SameMeta size f h x m = ground (
    arith,
    erase_pages-SameMeta (u32 (size + flash_page_size - 1) / flash_page_size) 14 f (omega arith) x
        m,
  )

  pub write_slot-SameMeta :
      (addr : ℕ) (bytes : List ℕ) (f : F)
      → addr + length bytes ≤ meta_base
      → SameMeta flash f (ota_flash_write flash addr bytes f).1
  unfolding ota_flash_write
  write_slot-SameMeta addr bytes f h x m =
      ground (arith, write_words-SameMeta (length bytes) addr bytes f (λ _. h) x m)
