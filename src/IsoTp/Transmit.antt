-- ===== src/IsoTp/Transmit.antt =====
-- The sending half of Core/Src/iso_tp.c: segmentation, flow control received, pacing of the
-- consecutive frames.
use obd_simulator.Prelude.{
  ℕ, ◌+◌, ◌-◌, min, List, [], ◌∷◌, ◌&&◌, not, ltb, leb, ◌==◌, if◌then◌else◌, length, take, drop,
  set, get_or, replicate, memcpy, u8, u32, low_nibble, byte1, byte2, byte3,
}
use obd_simulator.Can.Frames.{bytes_to_dlc}
use obd_simulator.IsoTp.Context.{
  Context, tx_idle, tx_wait_fc, tx_send_cf, Ports, World, put, transmit, stamp_tx, max_message_size,
  ff_escape_threshold, frame_size, sf_max_payload, cf_payload_size, max_wft,
}

-- `memset(frame, 0xCC, 64)`
abbrev pub blank : List ℕ
blank = replicate frame_size 0xCC

-- The frame of `send_single_frame`, and how many of its bytes are used.
unfoldable pub single_frame : List ℕ → List ℕ × ℕ
single_frame msg =
    let len = length msg in
    if leb len 7
    then (memcpy (set blank 0 (low_nibble len)) 1 msg, u8 (len + 1))
    else (memcpy (set (set blank 0 0x00) 1 (u8 len)) 2 msg, u8 (len + 2))

-- The frame of `send_first_frame`, and how many bytes of the message it carries.
unfoldable pub first_frame : List ℕ → List ℕ × ℕ
first_frame msg =
    let total = length msg in
    if leb total ff_escape_threshold
    then (
      memcpy (set (set blank 0 (0x10 + low_nibble (byte1 total))) 1 (u8 total)) 2
          (take (min total (frame_size - 2)) msg),
      min total (frame_size - 2),
    )
    else (
      memcpy
          (memcpy blank 0 (0x10 ∷ 0x00 ∷ byte3 total ∷ byte2 total ∷ byte1 total ∷ u8 total ∷ [])) 6
          (take (min total (frame_size - 6)) msg),
      min total (frame_size - 6),
    )

-- The frame of `send_next_cf` that carries the bytes `chunk`.
unfoldable pub consecutive_frame : ℕ → List ℕ → List ℕ
consecutive_frame seq chunk = memcpy (set blank 0 (0x20 + low_nibble seq)) 1 chunk

-- `cf_payload` of `send_next_cf`; it runs only where `tx_sent < tx_total_size`.
abbrev pub cf_payload : Context → ℕ
cf_payload c = min cf_payload_size (c.tx_total_size - c.tx_sent)

-- The counters after a consecutive frame went out.
unfoldable pub advance : Context → Context
advance c = record c {
  tx_sent = u32 (c.tx_sent + cf_payload c);
  tx_seq = low_nibble (c.tx_seq + 1);
  tx_block_counter = u8 (c.tx_block_counter + 1);
}

-- The end of `send_next_cf`: the message is complete, or the block is.
unfoldable pub settle : Context → Context
settle c =
    if leb c.tx_total_size c.tx_sent
    then record c { tx_state = tx_idle }
    else if not (c.tx_block_size == 0) && leb c.tx_block_size c.tx_block_counter
    then record c { tx_state = tx_wait_fc }
    else c

-- The statements of `ISO_TP_SendResponse` inside its critical section.
unfoldable pub start_segmented : ℕ → List ℕ → Context → Context
start_segmented can_id msg c = record c {
  tx_buffer = memcpy c.tx_buffer 0 msg;
  tx_total_size = length msg;
  tx_sent = 0;
  tx_seq = 1;
  tx_can_id = can_id;
  tx_wait_frame_count = 0;
  tx_state = tx_wait_fc;
}

module _ {E : Type 0} (ports : Ports E) where
  unfoldable pub send_single_frame : ℕ → List ℕ → World E → World E
  send_single_frame can_id msg w =
      let (frame, used) = single_frame msg in
      (transmit ports
        (record { identifier = can_id; data_length = bytes_to_dlc used; payload = frame }) w).1

  unfoldable pub send_first_frame : ℕ → List ℕ → World E → World E
  send_first_frame can_id msg w =
      let (frame, ff_payload) = first_frame msg in
      let (ok, w') =
        transmit ports (record { identifier = can_id; data_length = 15; payload = frame })
          (put (record (w.ctx) { tx_sent = ff_payload }) w) in
      if ok then stamp_tx ports w' else put (record (w'.ctx) { tx_state = tx_idle }) w'

  unfoldable pub send_next_cf : World E → World E
  send_next_cf w =
      let c = w.ctx in
      let frame = consecutive_frame c.tx_seq (take (cf_payload c) (drop c.tx_sent c.tx_buffer)) in
      let (ok, w') =
        transmit ports
          (record {
            identifier = c.tx_can_id;
            data_length = bytes_to_dlc (u8 (cf_payload c + 1));
            payload = frame;
          })
          w in
      if leb c.tx_total_size c.tx_sent
      then put (record c { tx_state = tx_idle }) w
      else if ok
      then (let w'' = stamp_tx ports (put (advance c) w') in put (settle w''.ctx) w'')
      else put (record c { tx_state = tx_idle }) w'

  -- `ISO_TP_SendResponse`; the caller's `len` is the length of `msg`.
  unfoldable pub send_response : ℕ → List ℕ → World E → World E
  send_response can_id msg w =
      let len = length msg in
      if len == 0
      then w
      else if ltb max_message_size len
      then w
      else if leb len sf_max_payload
      then send_single_frame can_id msg w
      else elim (w.ctx.tx_state) [
        | tx_idle ↦ send_first_frame can_id msg (put (start_segmented can_id msg (w.ctx)) w)
        | _ ↦ w
      ]

  -- The branch FC_CONTINUE of `process_flow_control`: the tester's BS and STmin, then the first
  -- consecutive frame.
  unfoldable pub continue_sending : ℕ → ℕ → World E → World E
  continue_sending bs stmin w =
      let accepted = stamp_tx ports (
        put
          (record (w.ctx) {
            tx_stmin = if ltb stmin 0x80 then stmin else 0;
            tx_block_size = bs;
            tx_block_counter = 0;
          })
          w) in
      send_next_cf (put (record (accepted.ctx) { tx_state = tx_send_cf }) accepted)

  -- The branch FC_WAIT of `process_flow_control`.
  unfoldable pub wait_more : World E → World E
  wait_more w =
      let c = record (w.ctx) { tx_wait_frame_count = u8 (w.ctx.tx_wait_frame_count + 1) } in
      if ltb max_wft c.tx_wait_frame_count
      then put (record c { tx_state = tx_idle }) w
      else stamp_tx ports (put c w)

  unfoldable pub process_flow_control : List ℕ → World E → World E
  process_flow_control frame w =
      let fs = low_nibble (get_or frame 0 0) in
      elim (w.ctx.tx_state) [
        | tx_wait_fc ↦
            if fs == 0
            then continue_sending (get_or frame 1 0) (get_or frame 2 0) w
            else if fs == 1
            then wait_more w
            else put (record (w.ctx) { tx_state = tx_idle }) w
        | _ ↦ w
      ]

  unfoldable pub send_flow_control : ℕ → ℕ → ℕ → ℕ → World E → World E
  send_flow_control can_id fs bs stmin w =
      (transmit ports
        (record {
          identifier = can_id;
          data_length = 10;
          payload = memcpy blank 0 ((0x30 + low_nibble fs) ∷ bs ∷ stmin ∷ []);
        })
        w).1
