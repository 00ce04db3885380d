-- ===== src/IsoTp/RoundTrip.antt =====
-- A message that one node segments is reassembled, byte for byte, by another.
pub mod Single
pub mod Multi
pub mod Opening
pub mod Sender
pub mod Exchange
pub mod Transfer
use obd_simulator.Prelude.{
  ℕ, zero, suc, ◌+◌, ◌-◌, ◌*◌, ◌/◌, ◌%◌, ◌≤◌, ◌<◌, ◌≡◌, ◌⊎◌, inl, inr, min, Bool, true, false, List,
  [], ◌∷◌, ◌++◌, length, take, drop, get_or, set, replicate, memcpy, arith, refl, ap, ◌∙◌, sym, u8,
  u32, sub32, low_nibble, high_nibble, take-memcpy, take-drop-memcpy, get_or-memcpy_lt,
  length-memcpy, length-take, length-drop, length-set, take-add, take-take, take-all,
  take-append_le,
}
use obd_simulator.Can.Frames.{bytes_to_dlc, dlc_to_bytes}

-- The bytes on the wire are at least the bytes used, and a full frame is 64 bytes.
pub dlc-round_up :
    (n : ℕ)
    → n ≤ 64
    → (n ≤ dlc_to_bytes (bytes_to_dlc n))
      × (dlc_to_bytes (bytes_to_dlc n) ≤ 64)
      × (63 < n → dlc_to_bytes (bytes_to_dlc n) ≡ 64)
unfolding dlc_to_bytes bytes_to_dlc
dlc-round_up n h = ground arith
