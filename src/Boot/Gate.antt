-- ===== src/Boot/Gate.antt =====
-- When the boot gate starts the app.
use obd_simulator.Prelude.{◌+◌, ◌%◌, ◌≤◌, ◌<◌, ◌≡◌, ◌≢◌, ◌⊎◌, inl, inr, true, arith, Bool-cases}
use obd_simulator.Flash.{FlashPorts, app_base, app_slot_size, meta_base, read_bytes, read_word}
use obd_simulator.Boot.{
  Handoff, start_app, serve, boot_gate, bl_meta, bl_meta_absent, bl_app_crc_ok, bl_app_vectors_ok,
  image_crc, bl_crc32, state_updating, handoff_magic, reason_update,
}

module _ {F : Type 0} (flash : FlashPorts F) where
  -- The five words of the meta page are erased.
  pub record IsBlank (f : F) : Type 0 where
    pub magic_word : read_word flash f meta_base ≡ 0xFFFFFFFF
    pub state_word : read_word flash f (meta_base + 4) ≡ 0xFFFFFFFF
    pub version_word : read_word flash f (meta_base + 8) ≡ 0xFFFFFFFF
    pub size_word : read_word flash f (meta_base + 12) ≡ 0xFFFFFFFF
    pub crc_word : read_word flash f (meta_base + 16) ≡ 0xFFFFFFFF

  -- The slot begins with a stack pointer into the RAM and an odd reset address inside the slot.
  pub record HasVectors (f : F) : Type 0 where
    pub stack_low : 0x20000000 ≤ read_word flash f app_base
    pub stack_high : read_word flash f app_base ≤ 0x20008000
    pub reset_low : app_base ≤ read_word flash f (app_base + 4)
    pub reset_high : read_word flash f (app_base + 4) < app_base + app_slot_size
    pub thumb : read_word flash f (app_base + 4) % 2 ≡ 1

  -- The meta page is VALID, for an image that is not empty and fits the slot, whose bytes have the
  -- checksum that it records.
  pub record HasImage (f : F) : Type 0 where
    pub magic_word : read_word flash f meta_base ≡ 0x4D424C4D
    pub state_word : read_word flash f (meta_base + 4) ≡ 0xAAAAAAAA
    pub not_empty : read_word flash f (meta_base + 12) ≢ 0
    pub fits : read_word flash f (meta_base + 12) ≤ app_slot_size
    pub checksum :
        bl_crc32 (read_bytes flash f app_base (read_word flash f (meta_base + 12)))
        ≡ read_word flash f (meta_base + 16)

  bl_meta_absent-IsBlank : (f : F) → bl_meta_absent flash f ≡ true → IsBlank f
  unfolding bl_meta_absent bl_meta
  bl_meta_absent-IsBlank f h = ground (arith, h)

  bl_app_vectors_ok-HasVectors : (f : F) → bl_app_vectors_ok flash f ≡ true → HasVectors f
  unfolding bl_app_vectors_ok
  bl_app_vectors_ok-HasVectors f h = ground (arith, h)

  bl_app_crc_ok-HasImage : (f : F) → bl_app_crc_ok flash f ≡ true → HasImage f
  unfolding bl_app_crc_ok bl_meta image_crc
  bl_app_crc_ok-HasImage f h = ground (arith, h)

  -- The gate starts the app only without a pending update request, and only if the five words of
  -- the meta page are erased and the slot begins with a stack pointer from 0x20000000 to 0x20008000
  -- and an odd reset address inside the slot; or if the page has its magic word and the state VALID,
  -- its size is not 0 and at most that of the slot, and its checksum word is the CRC of that many
  -- bytes from the start of the slot. The hand-over record is then left alone.
  pub boot_gate-start_app :
      (ho : Handoff) (f : F)
      → (boot_gate flash ho f).0 ≡ start_app
      → ((boot_gate flash ho f).1 ≡ ho)
        × ((ho.magic ≢ handoff_magic) ⊎ (ho.reason ≢ reason_update))
        × ((IsBlank f × HasVectors f) ⊎ HasImage f)
  unfolding boot_gate
  boot_gate-start_app ho f h =
      let blank = bl_meta_absent-IsBlank f in
      let vectors = bl_app_vectors_ok-HasVectors f in
      let image = bl_app_crc_ok-HasImage f in
      elim (Bool-cases (bl_meta_absent flash f)) [
        | inl absent ↦ (
          ground (arith, absent),
          ground (arith, absent),
          inl (blank absent, vectors (ground (arith, absent))),
        )
        | inr present ↦ (
          ground (arith, present),
          ground (arith, present),
          inr (image (ground (arith, present))),
        )
      ]

  -- An interrupted update keeps the gate shut: with the meta page UPDATING the app is never
  -- started.
  pub boot_gate-updating :
      (ho : Handoff) (f : F)
      → (bl_meta flash f).state ≡ state_updating
      → (boot_gate flash ho f).0 ≢ start_app
  unfolding boot_gate bl_meta_absent bl_app_crc_ok
  boot_gate-updating ho f h = ground arith

  -- The update flag is one-shot: a start that it kept in the bootloader clears it, so that the
  -- next start does not see it.
  pub boot_gate_one_shot :
      (ho : Handoff) (f g : F) → (boot_gate flash (boot_gate flash ho f).1 g).0 ≢ serve true
  unfolding boot_gate
  boot_gate_one_shot ho f g = ground arith
