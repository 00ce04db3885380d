-- ===== src/Boot/Server/Rollback.antt =====
-- The rollback counter in the meta page over sequences of requests.
pub mod Driver
use obd_simulator.Prelude.{
  ℕ, zero, suc, ◌+◌, ◌-◌, ◌*◌, ◌≡◌, ◌≢◌, ◌≤◌, ◌<◌, List, [], ◌∷◌, Bool, true, false, length,
  length-drop, take, drop, get_or, ◌/◌, ◌%◌, arith, refl, sym, ap, ◌∙◌, subst, u32, if◌then◌else◌,
}
use obd_simulator.Can.{AddrType}
use obd_simulator.Flash.{
  FlashPorts, app_base, app_slot_size, meta_base, ota_flash_erase, ota_flash_write, read_word,
}
use obd_simulator.Boot.{
  Meta, bl_meta, bl_meta_write, bl_meta_rollback_counter, image_crc, meta_magic, state_valid,
  state_updating,
}
use obd_simulator.Boot.MetaPage.{bl_meta_write_lem}
use obd_simulator.Session.{reset_s3_timeout}
use obd_simulator.Boot.Server.{Server, reset_transfer}
use obd_simulator.Boot.Server.Transfer.{
  be_word, handle_request_download, open_download, handle_transfer_data,
  handle_request_transfer_exit, handle_routine_control, check_memory, valid_meta, updating_meta,
  request_version, request_crc,
}
use obd_simulator.Boot.Server.Dispatch.{serve_request, dispatch_request, main_round}
use obd_simulator.Boot.Server.Integrity.{IsTransfer, IsRequest, handlers-IsTransfer, request_words}
use obd_simulator.Boot.Server.Policy.{KeepsImage, handlers-KeepsImage}
use obd_simulator.Boot.Server.Bounds.{server-IsTransfer}
use obd_simulator.Boot.Server.Keys.{Event, request, round, handle_event, run}
use obd_simulator.Boot.Server.MetaPage.{
  DriverLaws, SameMeta, bl_meta_ext, erase_slot-SameMeta, write_slot-SameMeta,
}

-- The counter is at least `n`, also the copy that a download took.
pub record HasFloor {F : Type 0} (flash : FlashPorts F) (n : ℕ) (s : Server F) : Type 0 where
  pub stored : n ≤ bl_meta_rollback_counter flash s.flash
  pub saved : s.xfer_active ≡ true → n ≤ s.saved_rollback
  pub transfer : IsTransfer s

-- The requests of a sequence consist of bytes, fewer than 65,536 each.
abbrev pub AreRequests : List Event → Type 0
AreRequests [] = Unit {0}
AreRequests (request readings req addr ∷ es) = IsRequest req × (length req < 65536) × AreRequests es
AreRequests (round readings now prev_session ∷ es) = AreRequests es

module _ {F : Type 0} (flash : FlashPorts F) (driver : DriverLaws flash)
    (rewrites : (m : Meta) (f : F) → (bl_meta_write flash m f).0 ≡ true) where
  counter_ext :
      (f g : F)
      → SameMeta flash f g
      → bl_meta_rollback_counter flash g ≡ bl_meta_rollback_counter flash f
  unfolding bl_meta_rollback_counter
  counter_ext f g same = let e = bl_meta_ext flash driver f g same in rw e refl

  counter_word : (f : F) → bl_meta_rollback_counter flash f < 4294967296
  unfolding bl_meta_rollback_counter bl_meta
  counter_word f =
      let byte = λ (k : ℕ). driver.read_byte f (meta_base + 8 + k) in
      ground (arith, byte 0, byte 1, byte 2, byte 3)

  -- The counter of a meta page that was rewritten.
  counter-updating :
      (n : ℕ) (f : F)
      → n < 4294967296
      → bl_meta_rollback_counter flash (bl_meta_write flash (updating_meta n) f).1 ≡ n
  unfolding bl_meta_rollback_counter
  counter-updating n f h =
      let w =
        bl_meta_write_lem flash driver.laws (updating_meta n) f (omega arith) (rewrites _ f) in
      rw (w.0) refl

  counter-valid :
      (version size crc : ℕ) (f : F)
      → version < 4294967296
      → size < 4294967296
      → crc < 4294967296
      → bl_meta_rollback_counter flash (bl_meta_write flash (valid_meta version size crc) f).1
        ≡ version
  unfolding bl_meta_rollback_counter
  counter-valid version size crc f h k l =
      let w =
        bl_meta_write_lem flash driver.laws (valid_meta version size crc) f (omega arith)
          (rewrites _ f) in
      rw (w.0) refl

  module _ (n : ℕ) (req : List ℕ) (s : Server F) (v : HasFloor flash n s) where
    open_download-HasFloor :
        (size : ℕ)
        → size ≤ app_slot_size
        → size ≢ 0
        → HasFloor flash n (open_download flash size s).1
    unfolding open_download
    open_download-HasFloor size h k =
        let floor = bl_meta_rollback_counter flash s.flash in
        let f = (bl_meta_write flash (updating_meta floor) s.flash).1 in
        let f' = (ota_flash_erase flash app_base size f).1 in
        let marked = rewrites (updating_meta floor) s.flash in
        let same = counter_ext f f' (erase_slot-SameMeta flash driver size f h) in
        let kept = counter-updating floor s.flash (counter_word s.flash) in ground arith

    handle_request_download-HasFloor : HasFloor flash n (handle_request_download flash req s).1
    unfolding handle_request_download
    handle_request_download-HasFloor =
        let slen = get_or req 1 0 / 16 % 16 in
        let alen = get_or req 1 0 % 16 in
        let size = be_word 0 (take slen (drop (2 + alen) req)) in
        ground (arith, open_download-HasFloor size)

    handle_transfer_data-HasFloor :
        length req < 65536 → HasFloor flash n (handle_transfer_data flash req s).1
    unfolding handle_transfer_data
    handle_transfer_data-HasFloor short =
        let bytes = drop 2 req in
        let addr = u32 (app_base + s.xfer_written) in
        let f = (ota_flash_write flash addr bytes s.flash).1 in
        let same = λ (h : addr + length bytes ≤ meta_base).
          counter_ext s.flash f (write_slot-SameMeta flash driver addr bytes s.flash h) in
        ground (arith, same, length-drop 2 req)

    handle_request_transfer_exit-HasFloor :
        HasFloor flash n (handle_request_transfer_exit flash req s).1
    unfolding handle_request_transfer_exit
    handle_request_transfer_exit-HasFloor = ground arith

    handle_routine_control-HasFloor :
        IsRequest req → HasFloor flash n (handle_routine_control flash req s).1
    unfolding handle_routine_control check_memory
    handle_routine_control-HasFloor b =
        let words = request_words flash driver.laws req b in
        let crc = image_crc flash s.flash s.xfer_written in
        let version = request_version req in
        let kept = λ (e : crc ≡ request_crc req).
          counter-valid version s.xfer_written crc s.flash words.0 (omega arith) (omega arith) in
        let ok = rewrites (valid_meta version s.xfer_written crc) s.flash in ground (arith, kept)

  kept-HasFloor :
      (n : ℕ) (s s' : Server F) → KeepsImage s s' → HasFloor flash n s → HasFloor flash n s'
  kept-HasFloor n s s' k v =
      let same = ap (bl_meta_rollback_counter flash) k.same_flash in ground arith

  serve_request-HasFloor :
      (n : ℕ) (tick : ℕ → ℕ) (req : List ℕ) (s : Server F)
      → IsRequest req
      → length req < 65536
      → HasFloor flash n s
      → HasFloor flash n (serve_request flash tick req s).1
  unfolding serve_request
  serve_request-HasFloor n tick req s b short v =
      let kept = handlers-KeepsImage flash tick (get_or req 0 0) req s in
      ground (
        arith,
        kept-HasFloor n s _ (kept.0) v,
        kept-HasFloor n s _ (kept.1) v,
        kept-HasFloor n s _ (kept.2) v,
        kept-HasFloor n s _ (kept.3) v,
        kept-HasFloor n s _ (kept.4) v,
        handle_request_download-HasFloor n req s v,
        handle_transfer_data-HasFloor n req s v short,
        handle_request_transfer_exit-HasFloor n req s v,
        handle_routine_control-HasFloor n req s v b,
      )

  run-HasFloor :
      (n : ℕ) (es : List Event) (s : Server F)
      → AreRequests es
      → HasFloor flash n s
      → HasFloor flash n (run flash es s)
  unfolding run handle_event dispatch_request main_round reset_transfer
  run-HasFloor n [] s b v = v
  run-HasFloor n (request readings req addr ∷ es) s b v =
      let active = record s { session = reset_s3_timeout readings (s.session) } in
      let served =
        serve_request-HasFloor n (λ i. readings (i + 1)) req active b.0 b.1 (ground (arith, v)) in
      run-HasFloor n es _ b.2 (ground (arith, served, v))
  run-HasFloor n (round readings now prev_session ∷ es) s b v =
      run-HasFloor n es _ b (ground (arith, v))

  -- Over a flash driver that obeys its laws and whose rewrites of the meta page succeed, whatever
  -- requests of bytes come, of fewer than 65,536 bytes each, and however many rounds of the main loop
  -- run between them, from a server without an open transfer whose sizes are in bounds: the rollback
  -- counter that the meta page shows does not go down.
  pub run-rollback :
      (es : List Event) (s : Server F)
      → AreRequests es
      → IsTransfer s
      → s.xfer_active ≡ false
      → bl_meta_rollback_counter flash s.flash
        ≤ bl_meta_rollback_counter flash (run flash es s).flash
  run-rollback es s b t closed =
      let start : HasFloor flash (bl_meta_rollback_counter flash s.flash) s = ground (arith, t) in
      (run-HasFloor _ es s b start).stored
