-- ===== src/Boot/Server/Integrity.antt =====
-- The flash services: bounds of a transfer, and what CheckMemory promises.
use obd_simulator.Prelude.{ℕ, ◌≤◌, ◌<◌, ◌≡◌, ◌≢◌, true, false, List, length, get_or, arith}
use obd_simulator.Flash.{FlashPorts, app_slot_size}
use obd_simulator.Flash.Write.{FlashLaws}
use obd_simulator.Boot.{bl_meta, bl_app_crc_ok, image_crc, bl_meta_write}
use obd_simulator.Boot.MetaPage.{bl_meta_write_lem, image_crc_ext}
use obd_simulator.Boot.Server.{Server}
use obd_simulator.Boot.Server.Transfer.{
  handle_request_download, open_download, handle_transfer_data, handle_request_transfer_exit,
  handle_routine_control, check_memory, valid_meta, request_version, request_crc,
}

-- The sizes of a transfer: it never writes past its announced size, nor past the slot.
pub record IsTransfer {F : Type 0} (s : Server F) : Type 0 where
  pub size_fits : s.xfer_size ≤ app_slot_size
  pub written_fits : s.xfer_written ≤ s.xfer_size

module _ {F : Type 0} (flash : FlashPorts F) where
  -- Each of the four flash services keeps the sizes of the transfer in bounds.
  pub handlers-IsTransfer :
      (req : List ℕ) (s : Server F)
      → length req < 65536
      → IsTransfer s
      → IsTransfer (handle_request_download flash req s).1
        × IsTransfer (handle_transfer_data flash req s).1
        × IsTransfer (handle_request_transfer_exit flash req s).1
        × IsTransfer (handle_routine_control flash req s).1
  unfolding handle_request_download open_download handle_transfer_data handle_request_transfer_exit
      handle_routine_control check_memory
  handlers-IsTransfer req s n v = (ground arith, ground arith, ground arith, ground arith)

-- The bytes of a request are bytes.
abbrev pub IsRequest : List ℕ → Type 0
IsRequest req = (i : ℕ) → get_or req i 0 < 256

module _ {F : Type 0} (flash : FlashPorts F) (laws : FlashLaws flash) where
  pub request_words :
      (req : List ℕ)
      → IsRequest req
      → (request_version req < 4294967296) × (request_crc req < 4294967296)
  request_words req b =
      let h4 = b 4 in
      let h5 = b 5 in
      let h6 = b 6 in
      let h7 = b 7 in
      let h8 = b 8 in let h9 = b 9 in let h10 = b 10 in let h11 = b 11 in (omega arith, omega arith)

  -- What the meta page and the image look like once the VALID record is written.
  valid_written :
      (version size crc : ℕ) (f : F)
      → version < 4294967296
      → crc < 4294967296
      → size ≢ 0
      → size ≤ app_slot_size
      → image_crc flash f size ≡ crc
      → (bl_meta_write flash (valid_meta version size crc) f).0 ≡ true
      → (bl_app_crc_ok flash ((bl_meta_write flash (valid_meta version size crc) f).1) ≡ true)
        × (bl_meta flash ((bl_meta_write flash (valid_meta version size crc) f).1)
            ≡ valid_meta version size crc)
  unfolding bl_app_crc_ok
  valid_written version size crc f hv hc ne fits same ok =
      let w = bl_meta_write_lem flash laws (valid_meta version size crc) f (omega arith) ok in
      let g = (bl_meta_write flash (valid_meta version size crc) f).1 in
      (rw (w.0) (ground (arith, image_crc_ext flash laws f g size fits (w.1))), w.0)

  -- Over a flash driver that obeys its laws, a positive answer to a CheckMemory request, whose
  -- bytes are bytes, for a transfer whose sizes are in bounds means: the version does not go below the counter saved when the
  -- download began; the image written has the checksum of the request; the meta page now records
  -- that version, size and checksum as VALID, so that the boot gate's test of the app succeeds; and
  -- the transfer is used up.
  pub handle_routine_control-ok :
      (req : List ℕ) (s : Server F)
      → IsRequest req
      → IsTransfer s
      → get_or ((handle_routine_control flash req s).0) 0 0 ≡ 0x71
      → (s.saved_rollback ≤ request_version req)
        × (image_crc flash s.flash s.xfer_written ≡ request_crc req)
        × (bl_app_crc_ok flash ((handle_routine_control flash req s).1.flash) ≡ true)
        × (bl_meta flash ((handle_routine_control flash req s).1.flash)
            ≡ valid_meta (request_version req) s.xfer_written (request_crc req))
        × ((handle_routine_control flash req s).1.xfer_active ≡ false)
  unfolding handle_routine_control check_memory
  handle_routine_control-ok req s b v h = ground (
    arith,
    request_words req b,
    valid_written (request_version req) s.xfer_written (image_crc flash s.flash s.xfer_written)
        s.flash,
  )
