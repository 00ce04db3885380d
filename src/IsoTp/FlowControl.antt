-- ===== src/IsoTp/FlowControl.antt =====
-- Flow control: the bound on wait frames, and the independence of the two directions.
use obd_simulator.Prelude.{
  ℕ, ◌+◌, ◌≡◌, ◌≤◌, List, [], ◌∷◌, length, get_or, arith, low_nibble, leb, ltb, if◌then◌else◌,
}
use native.Mathlib.Decide.{dec_lt}
use obd_simulator.IsoTp.Context.{
  Context, Ports, World, tx_idle, tx_wait_fc, tx_send_cf, max_wft, put, stamp_tx,
}
use obd_simulator.IsoTp.Transmit.{
  process_flow_control, send_next_cf, advance, settle, continue_sending, wait_more,
  send_flow_control,
}
use obd_simulator.IsoTp.Receive.{
  process_first_frame, accept_first_frame, first_stream, first_buffer, restart_rx, take_chunk,
}

-- The frames are flow control frames with the status WAIT.
abbrev pub AllWait : List (List ℕ) → Type 0
AllWait [] = Unit {0}
AllWait (f ∷ fs) = (low_nibble (get_or f 0 0) ≡ 1) × AllWait fs

-- The fields of the receiving half, and those of the sending half, are the same.
abbrev pub SameRx : Context → Context → Type 0
SameRx c d =
    (d.rx_state ≡ c.rx_state)
    × (d.rx_buffer ≡ c.rx_buffer)
    × (d.rx_total_size ≡ c.rx_total_size)
    × (d.rx_received ≡ c.rx_received)
    × (d.rx_expected_seq ≡ c.rx_expected_seq)
    × (d.rx_can_id ≡ c.rx_can_id)
    × (d.rx_addr_type ≡ c.rx_addr_type)
    × (d.stream_mode ≡ c.stream_mode)
    × (d.last_rx_tick ≡ c.last_rx_tick)

abbrev pub SameTx : Context → Context → Type 0
SameTx c d =
    (d.tx_state ≡ c.tx_state)
    × (d.tx_buffer ≡ c.tx_buffer)
    × (d.tx_total_size ≡ c.tx_total_size)
    × (d.tx_sent ≡ c.tx_sent)
    × (d.tx_seq ≡ c.tx_seq)
    × (d.tx_can_id ≡ c.tx_can_id)
    × (d.tx_stmin ≡ c.tx_stmin)
    × (d.tx_block_size ≡ c.tx_block_size)
    × (d.tx_block_counter ≡ c.tx_block_counter)
    × (d.tx_wait_frame_count ≡ c.tx_wait_frame_count)
    × (d.last_tx_tick ≡ c.last_tx_tick)

module _ {E : Type 0} (ports : Ports E) where
  -- Flow control frames, one after the other.
  unfoldable pub hear : List (List ℕ) → World E → World E
  hear [] w = w
  hear (f ∷ fs) w = hear fs (process_flow_control ports f w)

  hear_idle :
      (frames : List (List ℕ)) (w : World E)
      → w.ctx.tx_state ≡ tx_idle
      → (hear frames w).ctx.tx_state ≡ tx_idle
  unfolding hear process_flow_control
  hear_idle [] w i = i
  hear_idle (f ∷ fs) w i = hear_idle fs (process_flow_control ports f w) (ground arith)

  -- One wait frame, for a sender that waits after `n` of them.
  hear_wait :
      (f : List ℕ) (w : World E)
      → low_nibble (get_or f 0 0) ≡ 1
      → w.ctx.tx_state ≡ tx_wait_fc
      → w.ctx.tx_wait_frame_count ≤ max_wft
      → (let c = (process_flow_control ports f w).ctx in
          (c.tx_wait_frame_count ≡ w.ctx.tx_wait_frame_count + 1)
          × (c.tx_state
              ≡ (if leb (w.ctx.tx_wait_frame_count + 1) max_wft then tx_wait_fc else tx_idle)))
  unfolding process_flow_control wait_more
  hear_wait f w e s n = ground arith

  -- A sender that waits for flow control, and that has counted no more than seven wait frames in
  -- its transmission, bears wait frames until it has counted seven; the next one ends the
  -- transmission, and later ones find it idle.
  pub hear_waits :
      (frames : List (List ℕ)) (w : World E)
      → AllWait frames
      → w.ctx.tx_state ≡ tx_wait_fc
      → w.ctx.tx_wait_frame_count ≤ max_wft
      → (hear frames w).ctx.tx_state
        ≡ (if leb (w.ctx.tx_wait_frame_count + length frames) max_wft then tx_wait_fc else tx_idle)
  unfolding hear
  hear_waits [] w a s n = ground arith
  hear_waits (f ∷ fs) w a s n =
      let w' = process_flow_control ports f w in
      let h = hear_wait f w (a.0) s n in
      elim (dec_lt (w.ctx.tx_wait_frame_count) max_wft) [
        | yes more ↦
            let rest = hear_waits fs w' (a.1) (ground (arith, h)) (omega (arith, h.0)) in
            ground (arith, rest, h.0)
        | no enough ↦ let rest = hear_idle fs w' (ground (arith, h)) in ground (arith, rest)
      ]

  send_next_cf-SameRx : (w : World E) → SameRx w.ctx (send_next_cf ports w).ctx
  unfolding send_next_cf settle advance
  send_next_cf-SameRx w = ground arith

  continue_sending-SameRx :
      (bs stmin : ℕ) (w : World E) → SameRx w.ctx (continue_sending ports bs stmin w).ctx
  unfolding continue_sending
  continue_sending-SameRx bs stmin w =
      let accepted = stamp_tx ports (
        put
          (record (w.ctx) {
            tx_stmin = if ltb stmin 0x80 then stmin else 0;
            tx_block_size = bs;
            tx_block_counter = 0;
          })
          w) in
      send_next_cf-SameRx (put (record (accepted.ctx) { tx_state = tx_send_cf }) accepted)

  process_flow_control-SameRx :
      (frame : List ℕ) (w : World E) → SameRx w.ctx (process_flow_control ports frame w).ctx
  unfolding process_flow_control wait_more
  process_flow_control-SameRx frame w =
      ground (arith, continue_sending-SameRx (get_or frame 1 0) (get_or frame 2 0) w)

  -- The two directions do not touch each other: whatever flow control frame comes, the receiving
  -- half is as it was; whatever first frame or consecutive frame is taken, the sending half is as it
  -- was.
  pub full_duplex :
      (id : ℕ) (frame : List ℕ) (dlc : ℕ) (w : World E)
      → SameRx w.ctx (process_flow_control ports frame w).ctx
        × SameTx w.ctx (process_first_frame ports id frame dlc w).ctx
        × SameTx w.ctx (take_chunk ports frame dlc w).ctx
  unfolding process_first_frame accept_first_frame first_stream first_buffer restart_rx
      send_flow_control take_chunk
  full_duplex id frame dlc w = (process_flow_control-SameRx frame w, ground arith, ground arith)
