-- ===== src/Can/Ring.antt =====
-- The ring buffer of Core/Src/fdcan_config.c between the bootloader's receive interrupt and its main
-- loop, and what the interrupt puts into it.
pub mod Refine
use obd_simulator.Prelude.{
  ℕ, ◌+◌, ◌%◌, List, [], ◌∷◌, Option, none, some, ◌==◌, if◌then◌else◌, get_or, set, take, replicate,
  memcpy,
}
use obd_simulator.Can.Frames.{dlc_to_bytes}

-- CAN_RxMessage_t
pub record RxMessage : Type 0 where
  pub can_id : ℕ
  pub payload : List ℕ
  pub dlc : ℕ

-- `s_bl_ring`, `s_bl_ring_head` and `s_bl_ring_tail`
pub record Ring : Type 0 where
  pub slots : List RxMessage
  pub head : ℕ
  pub tail : ℕ

abbrev pub empty_message : RxMessage
empty_message = record { can_id = 0; payload = replicate 64 0; dlc = 0 }

unfoldable pub initial_ring : Ring
initial_ring = record { slots = replicate 8 empty_message; head = 0; tail = 0 }

-- HAL_FDCAN_RxFifo0Callback: the message made of the header's identifier and length code and of the
-- bytes that the driver has read into `s_rx_data`.
unfoldable pub rx_message : ℕ → ℕ → List ℕ → RxMessage
rx_message identifier data_length rx_data =
    let byte_len = dlc_to_bytes data_length in
    record {
      can_id = identifier;
      payload = memcpy (replicate 64 0) 0 (take byte_len rx_data);
      dlc = byte_len;
    }

-- bl_ring_push
unfoldable pub push : RxMessage → Ring → Ring
push message r =
    let next = (r.head + 1) % 8 in
    if next == r.tail then r else record r { slots = set r.slots r.head message; head = next }

-- FDCAN_BL_Pop; none stands for the returned 0.
unfoldable pub pop : Ring → Option RxMessage × Ring
pop r =
    if r.tail == r.head
    then (none, r)
    else (some (get_or r.slots r.tail empty_message), record r { tail = (r.tail + 1) % 8 })

-- HAL_FDCAN_RxFifo0Callback of the bootloader, a frame read without an error.
unfoldable pub receive_callback : ℕ → ℕ → List ℕ → Ring → Ring
receive_callback identifier data_length rx_data r =
    push (rx_message identifier data_length rx_data) r
