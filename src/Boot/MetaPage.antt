-- ===== src/Boot/MetaPage.antt =====
-- Rewriting the meta page: what `bl_meta_write` leaves in memory.
use obd_simulator.Prelude.{
  ℕ, zero, suc, ◌+◌, ◌-◌, ◌*◌, ◌≤◌, ◌<◌, ◌≡◌, inl, Bool, true, List, ◌∷◌, ◌++◌, get_or, arith, refl,
  ap, ap₂, ◌∙◌, if_both, replicate, byte1, byte2, byte3, u8,
}
use obd_simulator.Flash.{
  FlashPorts, ota_flash_erase, ota_flash_write, read_bytes, app_base, meta_base, app_slot_size,
}
use obd_simulator.Flash.Write.{FlashLaws, ota_flash_write_lem}
use obd_simulator.Boot.{Meta, bl_meta, bl_meta_write, word_bytes, image_crc, bl_crc32}

-- A record of 32-bit words.
pub record IsMeta (m : Meta) : Type 0 where
  pub magic_word : m.magic < 4294967296
  pub state_word : m.state < 4294967296
  pub version_word : m.version < 4294967296
  pub size_word : m.size < 4294967296
  pub crc_word : m.crc32 < 4294967296

meta_bytes : Meta → List ℕ
meta_bytes m =
    word_bytes m.magic
    ++ (word_bytes m.state
        ++ (word_bytes m.version
            ++ (word_bytes m.size ++ (word_bytes m.crc32 ++ replicate 4 0xFF))))

word_bytes_sum :
    (x : ℕ) → x < 4294967296 → u8 x + byte1 x * 256 + byte2 x * 65536 + byte3 x * 16777216 ≡ x
word_bytes_sum x h = omega arith

module _ {F : Type 0} (flash : FlashPorts F) (laws : FlashLaws flash) where
  -- What a successful erase and rewrite of the meta page leaves.
  module _ (m : Meta) (v : IsMeta m) (f g : F)
      (stored : (x : ℕ)
        → meta_base ≤ x
        → x < meta_base + 24
        → flash.read g x ≡ get_or (meta_bytes m) (x - meta_base) 0xFF) where
    byte_at : (k : ℕ) → k < 24 → flash.read g (meta_base + k) ≡ get_or (meta_bytes m) k 0xFF
    byte_at k h =
        stored (meta_base + k) (omega arith) (omega arith)
        ∙ ap (λ i. get_or (meta_bytes m) i 0xFF) (omega arith)

    bl_meta_stored : bl_meta flash g ≡ m
    unfolding bl_meta meta_bytes
    bl_meta_stored = ground (
      arith,
      v,
      byte_at 0 (omega arith),
      byte_at 1 (omega arith),
      byte_at 2 (omega arith),
      byte_at 3 (omega arith),
      byte_at 4 (omega arith),
      byte_at 5 (omega arith),
      byte_at 6 (omega arith),
      byte_at 7 (omega arith),
      byte_at 8 (omega arith),
      byte_at 9 (omega arith),
      byte_at 10 (omega arith),
      byte_at 11 (omega arith),
      byte_at 12 (omega arith),
      byte_at 13 (omega arith),
      byte_at 14 (omega arith),
      byte_at 15 (omega arith),
      byte_at 16 (omega arith),
      byte_at 17 (omega arith),
      byte_at 18 (omega arith),
      byte_at 19 (omega arith),
    )

  -- Erasing the meta page leaves the app slot alone.
  erase_meta-slot :
      (f : F) (x : ℕ)
      → x < meta_base
      → flash.read ((ota_flash_erase flash meta_base 2048 f).1) x ≡ flash.read f x
  unfolding ota_flash_erase
  erase_meta-slot f x h =
      let here = laws.erase_other 60 f x (inl (omega arith)) in
      if_both (λ (r : Bool × F). flash.read (r.1) x ≡ flash.read f x) ((flash.erase_page 60 f).0)
        (λ _. here) (λ _. here)

  -- A rewrite that returns 0 makes the meta page read back as given, and leaves the app slot as
  -- it was.
  pub bl_meta_write_lem :
      (m : Meta) (f : F)
      → IsMeta m
      → (bl_meta_write flash m f).0 ≡ true
      → (bl_meta flash ((bl_meta_write flash m f).1) ≡ m)
        × ((x : ℕ) → x < meta_base → flash.read ((bl_meta_write flash m f).1) x ≡ flash.read f x)
  unfolding bl_meta_write meta_bytes
  bl_meta_write_lem m f v ok =
      let (erased, f') = ota_flash_erase flash meta_base 2048 f in
      let P = λ (r : Bool × F).
        r.0 ≡ true
        → (bl_meta flash (r.1) ≡ m)
          × ((x : ℕ) → x < meta_base → flash.read (r.1) x ≡ flash.read f x) in
      if_both P erased
        (λ _ done.
          let w =
            ota_flash_write_lem flash laws meta_base (meta_bytes m) f' (omega arith) (omega arith)
              done in
          (
            bl_meta_stored m v f' ((ota_flash_write flash meta_base (meta_bytes m) f').1) (w.2),
            (λ x h. w.3 x (inl h) ∙ erase_meta-slot f x h),
          ))
        (λ _ done. absurd (cc done)) ok

  read_bytes_ext :
      (f g : F) (a n : ℕ)
      → ((x : ℕ) → x < a + n → flash.read g x ≡ flash.read f x)
      → read_bytes flash g a n ≡ read_bytes flash f a n
  unfolding read_bytes
  read_bytes_ext f g a zero same = refl
  read_bytes_ext f g a (suc n) same =
      ap₂ ◌∷◌ (same a (omega arith)) (read_bytes_ext f g (a + 1) n (λ x h. same x (omega arith)))

  -- The checksum of an image inside the slot is the same for memories that agree below the meta
  -- page.
  pub image_crc_ext :
      (f g : F) (n : ℕ)
      → n ≤ app_slot_size
      → ((x : ℕ) → x < meta_base → flash.read g x ≡ flash.read f x)
      → image_crc flash g n ≡ image_crc flash f n
  unfolding image_crc
  image_crc_ext f g n h same =
      ap bl_crc32 (read_bytes_ext f g app_base n (λ x k. same x (omega arith)))

  -- Over a flash driver that obeys its laws, a rewrite of the meta page with 32-bit words that
  -- returns 0 makes it read back as given, and leaves the checksum of every image inside the app
  -- slot as it was.
  pub bl_meta_write-image_crc :
      (m : Meta) (f : F) (n : ℕ)
      → IsMeta m
      → (bl_meta_write flash m f).0 ≡ true
      → n ≤ app_slot_size
      → (bl_meta flash ((bl_meta_write flash m f).1) ≡ m)
        × (image_crc flash ((bl_meta_write flash m f).1) n ≡ image_crc flash f n)
  bl_meta_write-image_crc m f n v ok h =
      let w = bl_meta_write_lem m f v ok in
      (w.0, image_crc_ext f ((bl_meta_write flash m f).1) n h (w.1))
