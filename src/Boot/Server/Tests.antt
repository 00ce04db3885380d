-- ===== src/Boot/Server/Tests.antt =====
-- A flash memory that never fails, and the theorems of the boot gate and the flash server on it.
use obd_simulator.Prelude.{
  ℕ, zero, suc, Bool, ◌+◌, ◌-◌, ◌*◌, ◌≡◌, ◌≢◌, ◌⊎◌, ◌≤◌, ◌<◌, refl, arith, List, [], ◌∷◌, true,
  false, get_or, inl, inr, leb, ltb, ◌&&◌, if◌then◌else◌,
}
use obd_simulator.Can.{addr_physical}
use obd_simulator.Session.{Session}
use obd_simulator.Flash.{
  FlashPorts, flash_page_size, ota_flash_erase, ota_flash_write, read_bytes, app_base, flash_end,
}
use obd_simulator.Flash.Write.{FlashLaws, ota_flash_write_image}
use obd_simulator.Boot.{
  Handoff, Meta, start_app, serve, boot_gate, bl_meta, bl_meta_absent, bl_app_vectors_ok,
  bl_app_crc_ok, image_crc, state_updating, handoff_magic, reason_update, bl_meta_write, bl_crc32,
}
use obd_simulator.Boot.Gate.{
  IsBlank, HasVectors, HasImage, boot_gate-start_app, boot_gate-updating, boot_gate_one_shot,
}
use obd_simulator.Boot.MetaPage.{IsMeta, bl_meta_write-image_crc}
use obd_simulator.Boot.Server.{Server}
use obd_simulator.Boot.Server.Transfer.{
  handle_routine_control, handle_transfer_data, check_memory, valid_meta, request_version,
  request_crc,
}
use obd_simulator.Boot.Server.Dispatch.{dispatch_request, main_round}
use obd_simulator.Boot.Server.Integrity.{IsTransfer, IsRequest, handle_routine_control-ok}
use obd_simulator.Boot.Server.Image.{handle_transfer_data-ok}
use obd_simulator.Boot.Server.Policy.{KeepsImage, dispatch_request-shut}
use obd_simulator.Boot.Server.Bounds.{server-IsTransfer}

abbrev Memory : Type 0
Memory = ℕ → ℕ

abbrev in_page : ℕ → ℕ → Bool
in_page p x =
    leb (0x08000000 + p * flash_page_size) x
    && ltb x (0x08000000 + p * flash_page_size + flash_page_size)

abbrev memory : FlashPorts Memory
memory = record {
  program =
      λ a bytes f. (true, λ x. if leb a x && ltb x (a + 8) then get_or bytes (x - a) 0xFF else f x);
  erase_page = λ p f. (true, λ x. if in_page p x then 0xFF else f x);
  read = λ f x. f x;
}

memory_laws : FlashLaws memory
memory_laws = record {
  program_read = λ a bytes f x ok lo hi. ground arith;
  program_other = λ a bytes f x h. ground arith;
  erase_read = λ p f x ok lo hi. ground arith;
  erase_other = λ p f x h. ground arith;
}

abbrev zeros : Memory
zeros x = 0

abbrev erased : Memory
erased x = 0xFF

abbrev session : Session
session = record {
  session_type = 0x02;
  security_level = 0x01;
  seed = 0;
  seed_is_fresh = false;
  last_activity_tick = 2000;
  fail_count = 0;
  lockout_start = 0;
  boot_tick = 0;
}

-- One byte has been transferred, and the transfer ended.
abbrev closed : Server Memory
closed = record {
  session = session;
  flash = zeros;
  xfer_active = true;
  xfer_closed = true;
  xfer_size = 1;
  xfer_written = 1;
  xfer_block_seq = 2;
  saved_rollback = 1;
  reset_pending = false;
  outbox = [];
}

-- CheckMemory with version 2 and the checksum of one byte 0.
abbrev check_request : List ℕ
check_request = 0x31 ∷ 0x01 ∷ 0x02 ∷ 0x03 ∷ 0 ∷ 0 ∷ 0 ∷ 2 ∷ 0xD2 ∷ 0x02 ∷ 0xEF ∷ 0x8D ∷ []

crc_of_zero : bl_crc32 (0 ∷ []) ≡ 0xD202EF8D
unfolding bl_crc32
crc_of_zero = refl

abbrev AllBytes : List ℕ → Type 0
AllBytes [] = Unit {0}
AllBytes (b ∷ bs) = (b < 256) × AllBytes bs

bytes-IsRequest : (bs : List ℕ) → AllBytes bs → (i : ℕ) → get_or bs i 0 < 256
bytes-IsRequest [] h i = omega arith
bytes-IsRequest (b ∷ bs) h zero = h.0
bytes-IsRequest (b ∷ bs) h (suc i) = bytes-IsRequest bs h.1 i

check_request-IsRequest : IsRequest check_request
check_request-IsRequest = bytes-IsRequest check_request (ground arith)

closed-IsTransfer : IsTransfer closed
closed-IsTransfer = ground arith

check_accepted : get_or ((handle_routine_control memory check_request closed).0) 0 0 ≡ 0x71
unfolding handle_routine_control image_crc bl_meta_write ota_flash_write ota_flash_erase
    check_memory bl_crc32 read_bytes
check_accepted = refl

handle_routine_control-ok_example :
    (1 ≤ request_version check_request)
    × (image_crc memory zeros 1 ≡ request_crc check_request)
    × (bl_app_crc_ok memory ((handle_routine_control memory check_request closed).1.flash) ≡ true)
    × (bl_meta memory ((handle_routine_control memory check_request closed).1.flash)
        ≡ valid_meta (request_version check_request) 1 (request_crc check_request))
    × ((handle_routine_control memory check_request closed).1.xfer_active ≡ false)
handle_routine_control-ok_example =
    handle_routine_control-ok memory memory_laws check_request closed check_request-IsRequest
      closed-IsTransfer check_accepted

server-IsTransfer_example :
    IsTransfer (dispatch_request memory (λ i. 2100) check_request addr_physical closed).1
    × IsTransfer (main_round memory (λ i. 2100) 2100 0x02 closed).1
server-IsTransfer_example =
    server-IsTransfer memory (λ i. 2100) check_request addr_physical 2100 0x02 closed (omega arith)
      closed-IsTransfer

-- The server locked again.
abbrev locked : Server Memory
locked = record closed { session = record session { security_level = 0x00 } }

dispatch_request-shut_example :
    KeepsImage locked (dispatch_request memory (λ i. 2100) check_request addr_physical locked).1
dispatch_request-shut_example =
    dispatch_request-shut memory (λ i. 2100) check_request addr_physical locked (inr refl)

abbrev no_request : Handoff
no_request = record { magic = 0; reason = 0 }

abbrev update_request : Handoff
update_request = record { magic = handoff_magic; reason = reason_update }

-- A device as it leaves the programmer: vectors in the slot, no meta page.
abbrev fresh : Memory
fresh x =
    if leb app_base x && ltb x (app_base + 8)
    then get_or (0 ∷ 0 ∷ 0 ∷ 0x20 ∷ 0x01 ∷ 0x71 ∷ 0x00 ∷ 0x08 ∷ []) (x - app_base) 0
    else 0xFF

fresh_starts : (boot_gate memory no_request fresh).0 ≡ start_app
unfolding boot_gate bl_meta_absent bl_app_vectors_ok bl_meta
fresh_starts = refl

boot_gate-start_app_example :
    ((boot_gate memory no_request fresh).1 ≡ no_request)
    × ((0 ≢ handoff_magic) ⊎ (0 ≢ reason_update))
    × ((IsBlank memory fresh × HasVectors memory fresh) ⊎ HasImage memory fresh)
boot_gate-start_app_example = boot_gate-start_app memory no_request fresh fresh_starts

-- The state word of the meta page says UPDATING.
abbrev interrupted : Memory
interrupted x = 0x55

is_interrupted : (bl_meta memory interrupted).state ≡ state_updating
unfolding bl_meta
is_interrupted = refl

updating_does_not_start : (boot_gate memory no_request interrupted).0 ≢ start_app
updating_does_not_start = boot_gate-updating memory no_request interrupted is_interrupted

update_flag_is_used_up :
    (boot_gate memory (boot_gate memory update_request fresh).1 fresh).0 ≢ serve true
update_flag_is_used_up = boot_gate_one_shot memory update_request fresh fresh

abbrev new_meta : Meta
new_meta = valid_meta 2 1 0xD202EF8D

new_meta-IsMeta : IsMeta new_meta
new_meta-IsMeta = ground arith

meta_written : (bl_meta_write memory new_meta zeros).0 ≡ true
unfolding bl_meta_write ota_flash_write ota_flash_erase
meta_written = refl

meta_rewritten :
    (bl_meta memory ((bl_meta_write memory new_meta zeros).1) ≡ new_meta)
    × (image_crc memory ((bl_meta_write memory new_meta zeros).1) 1 ≡ image_crc memory zeros 1)
meta_rewritten =
    bl_meta_write-image_crc memory memory_laws new_meta zeros 1 new_meta-IsMeta meta_written
      (omega arith)

abbrev nine_bytes : List ℕ
nine_bytes = 1 ∷ 2 ∷ 3 ∷ 4 ∷ 5 ∷ 6 ∷ 7 ∷ 8 ∷ 9 ∷ []

nine_written : (ota_flash_write memory app_base nine_bytes erased).0 ≡ true
unfolding ota_flash_write
nine_written = refl

ota_flash_write_example :
    (app_base ≤ app_base)
    × (app_base + 9 ≤ flash_end)
    × ((ota_flash_write memory app_base nine_bytes erased).1 0x08007008 ≡ 9)
ota_flash_write_example =
    ota_flash_write_image memory memory_laws app_base nine_bytes erased 0x08007008 (omega arith)
      (omega arith) nine_written (inl (omega arith))

-- A transfer of nine bytes, one of them written.
abbrev loading : Server Memory
loading = record closed { xfer_closed = false; xfer_size = 9 }

abbrev block_request : List ℕ
block_request = 0x36 ∷ 2 ∷ 5 ∷ 6 ∷ []

block_accepted : get_or ((handle_transfer_data memory block_request loading).0) 0 0 ≡ 0x76
unfolding handle_transfer_data ota_flash_write
block_accepted = refl

loading-IsTransfer : IsTransfer loading
loading-IsTransfer = ground arith

handle_transfer_data-ok_example :
    (get_or block_request 1 0 ≡ 2)
    × ((handle_transfer_data memory block_request loading).1.xfer_written ≡ 3)
    × (3 ≤ 9)
    × ((handle_transfer_data memory block_request loading).1.flash 0x08007002 ≡ 6)
handle_transfer_data-ok_example =
    handle_transfer_data-ok memory memory_laws block_request loading 2 (omega arith)
      loading-IsTransfer block_accepted (omega arith)
