-- ===== src/Boot/Server/Transfer.antt =====
-- The flash services of Core/Src/bl_uds.c: 0x34, 0x36, 0x37 and 0x31 CheckMemory.
use obd_simulator.Prelude.{
  ℕ, ◌+◌, ◌-◌, ◌*◌, ◌/◌, ◌%◌, List, [], ◌∷◌, true, false, not, ◌||◌, ltb, ◌==◌, if◌then◌else◌,
  length, take, drop, get_or, u8, u32, be16, be32, byte1, byte2, byte3,
}
use obd_simulator.Can.{can_id_physical_resp}
use obd_simulator.Flash.{FlashPorts, ota_flash_erase, ota_flash_write, app_base, app_slot_size}
use obd_simulator.Boot.{
  Meta, bl_meta_rollback_counter, bl_meta_write, image_crc, meta_magic, state_updating, state_valid,
}
use obd_simulator.Boot.Server.{Server, nrc, sub_function}

-- The loops over address and size of `handle_request_download`, from an accumulator.
unfoldable pub be_word : ℕ → List ℕ → ℕ
be_word acc [] = acc
be_word acc (b ∷ bs) = be_word (u32 (acc * 256) + b) bs

-- The meta record that marks an update.
abbrev pub updating_meta : ℕ → Meta
updating_meta floor = record {
  magic = meta_magic;
  state = state_updating;
  version = floor;
  size = 0;
  crc32 = 0;
}

-- The version and the checksum that a CheckMemory request names.
abbrev pub request_version : List ℕ → ℕ
request_version req = be32 (get_or req 4 0) (get_or req 5 0) (get_or req 6 0) (get_or req 7 0)

abbrev pub request_crc : List ℕ → ℕ
request_crc req = be32 (get_or req 8 0) (get_or req 9 0) (get_or req 10 0) (get_or req 11 0)

-- The meta record of a verified image.
abbrev pub valid_meta : ℕ → ℕ → ℕ → Meta
valid_meta version size crc = record {
  magic = meta_magic;
  state = state_valid;
  version = version;
  size = size;
  crc32 = crc;
}

module _ {F : Type 0} (flash : FlashPorts F) where
  -- `handle_request_download` behind its checks: the early 0x78, the meta page marked UPDATING,
  -- the slot erased, the transfer opened.
  unfoldable pub open_download : ℕ → Server F → List ℕ × Server F
  open_download size s =
      let floor = bl_meta_rollback_counter flash s.flash in
      let (marked, f) = bl_meta_write flash (updating_meta floor) s.flash in
      let (erased, f') = ota_flash_erase flash app_base size f in
      let s' = record s {
        outbox = (can_id_physical_resp, nrc 0x34 0x78) ∷ s.outbox;
        saved_rollback = floor;
        flash = f;
      } in
      if not marked
      then (nrc 0x34 0x72, s')
      else if not erased
      then (nrc 0x34 0x72, record s' { flash = f' })
      else (
        0x74 ∷ 0x22 ∷ 0x00 ∷ 0xF8 ∷ [],
        record s' {
          flash = f';
          xfer_active = true;
          xfer_closed = false;
          xfer_size = size;
          xfer_written = 0;
          xfer_block_seq = 1;
        },
      )

  unfoldable pub handle_request_download : List ℕ → Server F → List ℕ × Server F
  unfolding be_word
  handle_request_download req s =
      let alen = get_or req 1 0 % 16 in
      let slen = get_or req 1 0 / 16 % 16 in
      let addr = be_word 0 (take alen (drop 2 req)) in
      let size = be_word 0 (take slen (drop (2 + alen) req)) in
      if ltb (length req) 3
      then (nrc 0x34 0x13, s)
      else if alen == 0 || slen == 0 || ltb 4 alen || ltb 4 slen
      then (nrc 0x34 0x31, s)
      else if ltb (length req) (2 + alen + slen)
      then (nrc 0x34 0x13, s)
      else if not (addr == app_base) || size == 0 || ltb app_slot_size size
      then (nrc 0x34 0x31, s)
      else open_download size s

  unfoldable pub handle_transfer_data : List ℕ → Server F → List ℕ × Server F
  handle_transfer_data req s =
      let dlen = length req - 2 in
      let (ok, f) = ota_flash_write flash (u32 (app_base + s.xfer_written)) (drop 2 req) s.flash in
      if not s.xfer_active || s.xfer_closed || ltb (length req) 3
      then (nrc 0x36 0x22, s)
      else if not (get_or req 1 0 == s.xfer_block_seq)
      then (nrc 0x36 0x73, s)
      else if ltb s.xfer_size (u32 (s.xfer_written + dlen))
      then (nrc 0x36 0x71, s)
      else if not ok
      then (nrc 0x36 0x72, record s { flash = f })
      else (
        0x76 ∷ get_or req 1 0 ∷ [],
        record s {
          flash = f;
          xfer_written = u32 (s.xfer_written + dlen);
          xfer_block_seq = u8 (s.xfer_block_seq + 1);
        },
      )

  unfoldable pub handle_request_transfer_exit : List ℕ → Server F → List ℕ × Server F
  handle_request_transfer_exit req s =
      if not s.xfer_active || s.xfer_closed || ltb (length req) 1
      then (nrc 0x37 0x22, s)
      else (0x77 ∷ [], record s { xfer_closed = true })

  -- `handle_routine_control` behind the checks of its request: anti-rollback, checksum, the meta
  -- page marked VALID.
  unfoldable pub check_memory : List ℕ → Server F → List ℕ × Server F
  check_memory req s =
      let crc = image_crc flash s.flash s.xfer_written in
      let (ok, f) =
        bl_meta_write flash (valid_meta (request_version req) s.xfer_written crc) s.flash in
      if ltb (request_version req) s.saved_rollback
      then (nrc 0x31 0x31, s)
      else if not (crc == request_crc req)
      then (nrc 0x31 0x72, s)
      else if not ok
      then (nrc 0x31 0x72, record s { flash = f })
      else (
        0x71 ∷ sub_function req ∷ 0x02 ∷ 0x03 ∷ byte3 crc ∷ byte2 crc ∷ byte1 crc ∷ u8 crc ∷ [],
        record s { flash = f; xfer_active = false },
      )

  unfoldable pub handle_routine_control : List ℕ → Server F → List ℕ × Server F
  handle_routine_control req s =
      if ltb (length req) 4
      then (nrc 0x31 0x13, s)
      else if not (be16 (get_or req 2 0) (get_or req 3 0) == 0x0203)
      then (nrc 0x31 0x31, s)
      else if not (sub_function req == 0x01)
      then (nrc 0x31 0x12, s)
      else if not s.xfer_active
          || not s.xfer_closed
          || not (length req == 12)
          || s.xfer_written == 0
      then (nrc 0x31 0x22, s)
      else check_memory req s
