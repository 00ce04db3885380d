-- ===== src/Can/Frames.antt =====
-- FDCAN_BytesToDlc and the table DLC_CODE_TO_BYTES of Core/Src/fdcan_config.c.
use obd_simulator.Prelude.{ℕ, ◌%◌, List, [], ◌∷◌, ltb, leb, if◌then◌else◌, get_or}

-- What `HAL_FDCAN_AddMessageToTxFifoQ` is given. The other header fields are the same in every
-- call: standard identifier, data frame, CAN FD, bit rate switch on, no transmit events.
pub record CanFrame : Type 0 where
  pub identifier : ℕ
  pub data_length : ℕ
  pub payload : List ℕ

-- FDCAN_BytesToDlc; FDCAN_DLC_BYTES_12 .. FDCAN_DLC_BYTES_64 are the codes 9 .. 15.
unfoldable pub bytes_to_dlc : ℕ → ℕ
bytes_to_dlc bytes =
    if leb bytes 8
    then bytes
    else if leb bytes 12
    then 9
    else if leb bytes 16
    then 10
    else if leb bytes 20
    then 11
    else if leb bytes 24
    then 12
    else if leb bytes 32
    then 13
    else if leb bytes 48
    then 14
    else 15

dlc_code_to_bytes : List ℕ
dlc_code_to_bytes = 0 ∷ 1 ∷ 2 ∷ 3 ∷ 4 ∷ 5 ∷ 6 ∷ 7 ∷ 8 ∷ 12 ∷ 16 ∷ 20 ∷ 24 ∷ 32 ∷ 48 ∷ 64 ∷ []

-- The receive callback's byte count of a DLC code.
unfoldable pub dlc_to_bytes : ℕ → ℕ
unfolding dlc_code_to_bytes
dlc_to_bytes code =
    let byte_len = get_or dlc_code_to_bytes (code % 16) 0 in
    if ltb 64 byte_len then 64 else byte_len
