-- ===== src/Boot/Server/Image.antt =====
-- What TransferData leaves in the flash.
use obd_simulator.Prelude.{
  ℕ, ◌+◌, ◌-◌, ◌≤◌, ◌<◌, ◌≡◌, List, length, length-drop, drop, get_or, arith, if◌then◌else◌, ltb,
  inl, u32, ap, ◌∙◌, true,
}
use obd_simulator.Flash.{FlashPorts, ota_flash_write, app_base, flash_end}
use obd_simulator.Flash.Write.{FlashLaws, ota_flash_write_image}
use obd_simulator.Boot.Server.{Server}
use obd_simulator.Boot.Server.Transfer.{handle_transfer_data}
use obd_simulator.Boot.Server.Integrity.{IsTransfer}

module _ {F : Type 0} (flash : FlashPorts F) (laws : FlashLaws flash) where
  block_read :
      (at i : ℕ) (bytes : List ℕ) (f : F)
      → at + length bytes < 0x10000000
      → app_base ≤ at
      → at < flash_end
      → (ota_flash_write flash at bytes f).0 ≡ true
      → app_base + i < at + length bytes
      → flash.read ((ota_flash_write flash at bytes f).1) (app_base + i) ≡ (
          if ltb i (at - app_base)
          then flash.read f (app_base + i)
          else get_or bytes (i - (at - app_base)) 0xFF)
  block_read at i bytes f n lo hi ok h =
      let w =
        ota_flash_write_image flash laws at bytes f (app_base + i) hi (omega arith) ok (inl h) in
      let same : app_base + i - at ≡ i - (at - app_base) = omega arith in ground (arith, w.2, same)

  accepted :
      (req : List ℕ) (s : Server F)
      → IsTransfer s
      → get_or ((handle_transfer_data flash req s).0) 0 0 ≡ 0x76
      → ((ota_flash_write flash (app_base + s.xfer_written) (drop 2 req) s.flash).0 ≡ true)
        × ((handle_transfer_data flash req s).1.flash
            ≡ (ota_flash_write flash (app_base + s.xfer_written) (drop 2 req) s.flash).1)
  unfolding handle_transfer_data
  accepted req s v ok =
      let at : u32 (app_base + s.xfer_written) ≡ app_base + s.xfer_written = omega (arith, v) in
      ground (arith, at, v)

  -- Over a flash driver that obeys its laws, a positive answer to a TransferData request of fewer
  -- than 65,536 bytes, for a transfer whose sizes are in bounds: the block counter was the expected
  -- one; the transfer grows by the bytes of the block, within its announced size; and at each
  -- address of the image so far lies the byte of the block that belongs there, or the byte that the
  -- earlier blocks left.
  pub handle_transfer_data-ok :
      (req : List ℕ) (s : Server F) (i : ℕ)
      → length req < 65536
      → IsTransfer s
      → get_or ((handle_transfer_data flash req s).0) 0 0 ≡ 0x76
      → i < s.xfer_written + (length req - 2)
      → (get_or req 1 0 ≡ s.xfer_block_seq)
        × ((handle_transfer_data flash req s).1.xfer_written ≡ s.xfer_written + (length req - 2))
        × (s.xfer_written + (length req - 2) ≤ s.xfer_size)
        × (flash.read ((handle_transfer_data flash req s).1.flash) (app_base + i) ≡ (
            if ltb i s.xfer_written
            then flash.read s.flash (app_base + i)
            else get_or (drop 2 req) (i - s.xfer_written) 0xFF))
  unfolding handle_transfer_data
  handle_transfer_data-ok req s i n v ok h =
      let size = length-drop 2 req in
      let a = accepted req s v ok in
      (
        ground arith,
        ground arith,
        ground arith,
        ap (λ f. flash.read f (app_base + i)) (a.1)
            ∙ (block_read (app_base + s.xfer_written) i (drop 2 req) s.flash
                  (omega (arith, v, size)) (omega arith) (omega (arith, v)) (a.0)
                  (omega (arith, size))
                ∙ ap
                    (λ k.
                      if ltb i k
                      then flash.read s.flash (app_base + i)
                      else get_or (drop 2 req) (i - k) 0xFF)
                    (let e : app_base + s.xfer_written - app_base ≡ s.xfer_written = omega arith in
                      e)),
      )
