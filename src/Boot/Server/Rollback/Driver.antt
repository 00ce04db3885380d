-- ===== src/Boot/Server/Rollback/Driver.antt =====
-- A flash memory of bytes that takes aligned doublewords only and never fails on them.
use obd_simulator.Prelude.{
  ℕ, zero, suc, Bool, ◌+◌, ◌-◌, ◌*◌, ◌%◌, ◌≡◌, ◌<◌, refl, arith, List, [], ◌∷◌, true, false, get_or,
  leb, ltb, ◌&&◌, ◌==◌, if◌then◌else◌, u8, byte1, byte2, byte3,
}
use obd_simulator.Flash.{
  FlashPorts, flash_page_size, ota_flash_erase, ota_flash_write, erase_pages, write_words,
}
use obd_simulator.Flash.Write.{FlashLaws}
use obd_simulator.Boot.{Meta, bl_meta_write}
use obd_simulator.Boot.Server.MetaPage.{DriverLaws}

abbrev pub Memory : Type 0
Memory = ℕ → ℕ

abbrev pub in_page : ℕ → ℕ → Bool
in_page p x =
    leb (0x08000000 + p * flash_page_size) x
    && ltb x (0x08000000 + p * flash_page_size + flash_page_size)

abbrev pub all_bytes : List ℕ → Bool
all_bytes [] = true
all_bytes (b ∷ bs) = ltb b 256 && all_bytes bs

abbrev pub flash : FlashPorts Memory
flash = record {
  program = λ a bytes f.
      if a % 8 == 0 && all_bytes bytes
      then (true, λ x. if leb a x && ltb x (a + 8) then get_or bytes (x - a) 0xFF else f x)
      else (false, f);
  erase_page = λ p f. (true, λ x. if in_page p x then 0xFF else f x);
  read = λ f x. u8 (f x);
}

get_or-byte : (bytes : List ℕ) (i : ℕ) → all_bytes bytes ≡ true → get_or bytes i 0xFF < 256
get_or-byte [] i h = omega arith
get_or-byte (b ∷ bs) zero h = ground arith
get_or-byte (b ∷ bs) (suc i) h = get_or-byte bs i (ground arith)

flash_laws : FlashLaws flash
flash_laws = record {
  program_read = λ a bytes f x ok lo hi. ground (arith, get_or-byte bytes (x - a));
  program_other = λ a bytes f x h. ground arith;
  erase_read = λ p f x ok lo hi. ground arith;
  erase_other = λ p f x h. ground arith;
}

pub flash_driver : DriverLaws flash
flash_driver = record {
  laws = flash_laws;
  unaligned = λ a bytes f x h. ground arith;
  read_byte = λ f x. omega arith;
}

two_words :
    (a b : ℕ)
    → all_bytes (u8 a ∷ byte1 a ∷ byte2 a ∷ byte3 a ∷ u8 b ∷ byte1 b ∷ byte2 b ∷ byte3 b ∷ [])
      ≡ true
two_words a b = ground arith

last_word :
    (a : ℕ) → all_bytes (u8 a ∷ byte1 a ∷ byte2 a ∷ byte3 a ∷ 0xFF ∷ 0xFF ∷ 0xFF ∷ 0xFF ∷ []) ≡ true
last_word a = ground arith

pub rewrites : (m : Meta) (f : Memory) → (bl_meta_write flash m f).0 ≡ true
unfolding bl_meta_write ota_flash_erase ota_flash_write erase_pages write_words
rewrites m f = rw (two_words m.magic m.state, two_words m.version m.size, last_word m.crc32) refl
