-- ===== src/Rs485.antt =====
-- The RS-485 link: the frames of Core/Src/rs485.c, and vRS485Task of Core/Src/main.c, which routes
-- what is received to the CAN bus.
pub mod Routing
pub mod Noise
mod Tests
use obd_simulator.Prelude.{
  ℕ, ◌+◌, ◌&&◌, List, [], ◌∷◌, ◌++◌, Option, none, some, length, get_or, set, take, drop, replicate,
  memcpy, min, ltb, leb, if◌then◌else◌, u8, be16, byte1,
}
use obd_simulator.Can.Frames.{CanFrame, bytes_to_dlc}

-- RS485_MAX_DATA_LEN
abbrev pub max_data_len : ℕ
max_data_len = 67

-- RS485_RxMessage_t; `items` holds the bytes that are copied into it.
pub record Message : Type 0 where
  pub items : List ℕ
  pub len : ℕ

-- `s_rx_buf` and `s_rx_len`
pub record Receiver : Type 0 where
  pub rx_buf : List ℕ
  pub rx_len : ℕ

-- RS485_ForwardCANMessage: what it gives to RS485_SendData. `bytes` is what `data` points to.
unfoldable pub forward_can_message : ℕ → List ℕ → ℕ → List ℕ
forward_can_message can_id bytes dlc = byte1 can_id ∷ u8 can_id ∷ dlc ∷ take (min dlc 64) bytes

-- RS485_RestartReceive
unfoldable pub restart_receive : Receiver → Receiver
restart_receive r = record r { rx_len = 0 }

-- HAL_UART_RxCpltCallback for one byte: the message given to xQueueSendFromISR, if any.
unfoldable pub receive_byte : ℕ → Receiver → Option Message × Receiver
receive_byte byte r =
    let stored =
      if ltb r.rx_len max_data_len
      then record r { rx_buf = set r.rx_buf r.rx_len byte; rx_len = u8 (r.rx_len + 1) }
      else r in
    let dlc = get_or stored.rx_buf 2 0 in
    let len = u8 (3 + dlc) in
    if ltb stored.rx_len 3
    then (none, stored)
    else if ltb 64 dlc
    then (none, record stored { rx_len = 0 })
    else if leb len stored.rx_len
    then (some (record { items = take len stored.rx_buf; len = len }), record stored { rx_len = 0 })
    else (none, stored)

abbrev pub to_list : Option Message → List Message
to_list none = []
to_list (some m) = m ∷ []

-- A sequence of bytes on the line, and the messages that it brings.
unfoldable pub receive_bytes : List ℕ → Receiver → List Message × Receiver
unfolding receive_byte
receive_bytes [] r = ([], r)
receive_bytes (b ∷ bs) r =
    let (message, r') = receive_byte b r in
    let (more, r'') = receive_bytes bs r' in (to_list message ++ more, r'')

-- The body of vRS485Task: the frame given to HAL_FDCAN_AddMessageToTxFifoQ, if any.
unfoldable pub route_to_can : Message → Option CanFrame
route_to_can m =
    let dlc = get_or m.items 2 0 in
    if ltb m.len 3
    then none
    else if leb dlc 64 && leb (3 + dlc) m.len
    then some (record {
      identifier = be16 (get_or m.items 0 0) (get_or m.items 1 0);
      data_length = bytes_to_dlc dlc;
      payload = memcpy (replicate 64 0xCC) 0 (take dlc (drop 3 m.items));
    })
    else none
