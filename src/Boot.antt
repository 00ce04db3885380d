-- ===== src/Boot.antt =====
-- The boot gate, Core/Src/bl_boot.c and the first half of `main` in Core/Src/bl_main.c.
pub mod Server
pub mod Node
pub mod Gate
pub mod MetaPage
use obd_simulator.Prelude.{
  ℕ, zero, suc, ◌+◌, ◌-◌, ◌*◌, ◌/◌, ◌%◌, List, [], ◌∷◌, ◌++◌, Bool, true, false, not, ◌&&◌, ◌||◌,
  leb, ltb, ◌==◌, if◌then◌else◌, bit_xor, u8, u32, replicate, byte1, byte2, byte3,
}
use obd_simulator.Flash.{
  FlashPorts, read_bytes, read_word, ota_flash_erase, ota_flash_write, app_base, app_slot_size,
  meta_base,
}

abbrev pub handoff_magic : ℕ
handoff_magic = 0xB007B007

abbrev pub reason_update : ℕ
reason_update = 1

abbrev pub meta_magic : ℕ
meta_magic = 0x4D424C4D

abbrev pub state_updating : ℕ
state_updating = 0x55555555

abbrev pub state_valid : ℕ
state_valid = 0xAAAAAAAA

-- bl_handoff_t
pub record Handoff : Type 0 where
  pub magic : ℕ
  pub reason : ℕ

-- bl_meta_t
pub record Meta : Type 0 where
  pub magic : ℕ
  pub state : ℕ
  pub version : ℕ
  pub size : ℕ
  pub crc32 : ℕ

-- One round of the inner loop of `bl_crc32`: the mask is all ones exactly if the low bit is set.
abbrev pub crc_bit : ℕ → ℕ
crc_bit crc = if crc % 2 == 1 then bit_xor (crc / 2) 0xEDB88320 else crc / 2

unfoldable pub crc_bits : ℕ → ℕ → ℕ
crc_bits zero crc = crc
crc_bits (suc n) crc = crc_bits n (crc_bit crc)

unfoldable pub crc_bytes : ℕ → List ℕ → ℕ
unfolding crc_bits
crc_bytes crc [] = crc
crc_bytes crc (b ∷ bs) = crc_bytes (crc_bits 8 (bit_xor crc b)) bs

unfoldable pub bl_crc32 : List ℕ → ℕ
unfolding crc_bytes
bl_crc32 bytes = bit_xor (crc_bytes 0xFFFFFFFF bytes) 0xFFFFFFFF

-- A word as it lies in memory.
abbrev pub word_bytes : ℕ → List ℕ
word_bytes x = u8 x ∷ byte1 x ∷ byte2 x ∷ byte3 x ∷ []

module _ {F : Type 0} (flash : FlashPorts F) where
  -- `*bl_meta()`
  unfoldable pub bl_meta : F → Meta
  bl_meta f = record {
    magic = read_word flash f meta_base;
    state = read_word flash f (meta_base + 4);
    version = read_word flash f (meta_base + 8);
    size = read_word flash f (meta_base + 12);
    crc32 = read_word flash f (meta_base + 16);
  }

  unfoldable pub bl_meta_absent : F → Bool
  bl_meta_absent f =
      let m = bl_meta f in
      m.magic == 0xFFFFFFFF
      && m.state == 0xFFFFFFFF
      && m.version == 0xFFFFFFFF
      && m.size == 0xFFFFFFFF
      && m.crc32 == 0xFFFFFFFF

  -- The CRC of the first `size` bytes of the app slot.
  unfoldable pub image_crc : F → ℕ → ℕ
  image_crc f size = bl_crc32 (read_bytes flash f app_base size)

  unfoldable pub bl_app_crc_ok : F → Bool
  bl_app_crc_ok f =
      let m = bl_meta f in
      if not (m.magic == meta_magic) || not (m.state == state_valid)
      then false
      else if m.size == 0 || ltb app_slot_size m.size
      then false
      else image_crc f m.size == m.crc32

  unfoldable pub bl_meta_rollback_counter : F → ℕ
  bl_meta_rollback_counter f =
      let m = bl_meta f in
      if m.magic == meta_magic && (m.state == state_valid || m.state == state_updating)
      then m.version
      else 0

  unfoldable pub bl_meta_write : Meta → F → Bool × F
  bl_meta_write m f =
      let buf =
        word_bytes m.magic
        ++ (word_bytes m.state
            ++ (word_bytes m.version
                ++ (word_bytes m.size ++ (word_bytes m.crc32 ++ replicate 4 0xFF)))) in
      let (erased, f') = ota_flash_erase flash meta_base 2048 f in
      if erased then ota_flash_write flash meta_base buf f' else (false, f')

  unfoldable pub bl_app_vectors_ok : F → Bool
  bl_app_vectors_ok f =
      let sp = read_word flash f app_base in
      let rst = read_word flash f (app_base + 4) in
      leb 0x20000000 sp
      && leb sp 0x20008000
      && leb app_base rst
      && ltb rst (app_base + app_slot_size)
      && rst % 2 == 1

-- What the first half of `main` comes to: the app is started, or the flash server, with or
-- without the update flag.
pub data Decision : Type 0 where
  start_app : Decision
  serve : Bool → Decision

module _ {F : Type 0} (flash : FlashPorts F) where
  unfoldable pub boot_gate : Handoff → F → Decision × Handoff
  boot_gate ho f =
      if ho.magic == handoff_magic && ho.reason == reason_update
      then (serve true, record { magic = 0; reason = 0 })
      else if bl_meta_absent flash f
      then (if not (bl_app_vectors_ok flash f) then (serve false, ho) else (start_app, ho))
      else if bl_app_crc_ok flash f
      then (start_app, ho)
      else (serve false, ho)
