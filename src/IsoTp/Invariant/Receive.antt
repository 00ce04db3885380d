-- ===== src/IsoTp/Invariant/Receive.antt =====
-- The receiving operations keep the invariant.
use obd_simulator.Prelude.{
  ℕ, ◌-◌, ◌≤◌, ◌<◌, ◌≡◌, List, false, length, length-memcpy, get_or, arith, min, sub32, u8, ltb,
  if_both,
}
use obd_simulator.Can.{AddrType}
use obd_simulator.IsoTp.Context.{Context, rx_wait_cf, Ports, World, max_message_size}
use obd_simulator.IsoTp.Transmit.{send_flow_control}
use obd_simulator.IsoTp.Receive.{
  slice, Dispatch, single_payload, first_header, first_payload, escape_too_short, abort_stream_rx,
  restart_rx, first_stream, first_buffer, accept_first_frame, process_first_frame, store_chunk,
  take_chunk,
}
use obd_simulator.IsoTp.Invariant.{IsValid}

-- What the array `data[64]` of a received frame holds: bytes.
abbrev pub IsBytes : List ℕ → Type 0
IsBytes frame = (i : ℕ) → get_or frame i 0 < 256

-- What is left of the invariant while a frame is being accepted: no stream is open, and the
-- sizes of a reception that was cut short no longer count.
pub record IsQuiet (c : Context) : Type 0 where
  pub rx_capacity : length c.rx_buffer ≡ max_message_size
  pub tx_capacity : length c.tx_buffer ≡ max_message_size
  pub rx_seq_range : c.rx_expected_seq < 16
  pub tx_seq_range : c.tx_seq < 16
  pub rx_word : c.rx_total_size < 4294967296
  pub no_stream : c.stream_mode ≡ false
  pub tx_fits : c.tx_total_size ≤ max_message_size
  pub tx_progress : c.tx_sent ≤ c.tx_total_size

-- What the invariant asks of the service layer: a request leaves the context valid, and no
-- stream is opened while it is served.
abbrev pub KeepsTransport : {E : Type 0} → Dispatch E → Type 0
KeepsTransport {E} dispatch =
    (req : List ℕ) (addr : AddrType) (w : World E)
    → IsValid (w.ctx)
    → w.ctx.stream_mode ≡ false
    → IsValid ((dispatch req addr w).1.ctx) × ((dispatch req addr w).1.ctx.stream_mode ≡ false)

module _ {E : Type 0} (ports : Ports E) where
  pub abort_stream_rx_lem :
      (w : World E) → (abort_stream_rx ports w).ctx ≡ record (w.ctx) { stream_mode = false }
  unfolding abort_stream_rx
  abort_stream_rx_lem w = ground arith

  pub restart_rx-IsQuiet : (w : World E) → IsValid (w.ctx) → IsQuiet ((restart_rx ports w).ctx)
  unfolding restart_rx
  restart_rx-IsQuiet w v = ground arith

  pub restart_rx-addr : (w : World E) → (restart_rx ports w).ctx.rx_addr_type ≡ w.ctx.rx_addr_type
  unfolding restart_rx
  restart_rx-addr w = ground arith

  first_stream-IsValid :
      (id : ℕ) (frame : List ℕ) (total off n : ℕ) (w : World E)
      → IsQuiet (w.ctx)
      → n ≤ total
      → total < 4294967296
      → IsValid ((first_stream ports id frame total off n w).ctx)
  unfolding first_stream send_flow_control
  first_stream-IsValid id frame total off n w v h k =
      if_both (λ (x : World E). IsValid (x.ctx)) (ltb 0 n) (λ _. ground arith) (λ _. ground arith)

  first_buffer-IsValid :
      (id : ℕ) (frame : List ℕ) (total off n : ℕ) (w : World E)
      → IsQuiet (w.ctx)
      → n ≤ total
      → total ≤ max_message_size
      → IsValid ((first_buffer ports id frame total off n w).ctx)
  unfolding first_buffer send_flow_control
  first_buffer-IsValid id frame total off n w v h k =
      ground (arith, length-memcpy (w.ctx.rx_buffer) 0 (slice frame off n))

  first_header-word : (frame : List ℕ) → IsBytes frame → (first_header frame).0 < 4294967296
  unfolding first_header
  first_header-word frame b = ground (arith, b 0, b 1, b 2, b 3, b 4, b 5)

  accept_first_frame-IsValid :
      (id : ℕ) (frame : List ℕ) (dlc : ℕ) (w : World E)
      → IsBytes frame
      → IsQuiet (w.ctx)
      → IsValid ((accept_first_frame ports id frame dlc w).ctx)
  unfolding accept_first_frame send_flow_control
  accept_first_frame-IsValid id frame dlc w b v =
      let total = (first_header frame).0 in
      let off = (first_header frame).1 in
      let n = first_payload dlc off total in
      let P = λ (x : World E). IsValid (x.ctx) in
      if_both P (escape_too_short frame dlc) (λ _. ground arith)
        (λ _.
          if_both P (ltb max_message_size total)
            (λ _.
              if_both P (w.stream_sink)
                (λ _.
                  first_stream-IsValid id frame total off n w v (omega arith)
                    (first_header-word frame b))
                (λ _. ground arith))
            (λ small. first_buffer-IsValid id frame total off n w v (omega arith) (ground arith)))

  pub single_payload-lt :
      (frame : List ℕ) (dlc : ℕ) → IsBytes frame → (single_payload frame dlc).1 < 256
  unfolding single_payload
  single_payload-lt frame dlc b = ground (arith, b 0, b 1)

  pub process_first_frame-IsValid :
      (id : ℕ) (frame : List ℕ) (dlc : ℕ) (w : World E)
      → IsBytes frame
      → IsValid (w.ctx)
      → IsValid ((process_first_frame ports id frame dlc w).ctx)
  unfolding process_first_frame
  process_first_frame-IsValid id frame dlc w b v = ground (
    arith,
    accept_first_frame-IsValid id frame dlc (restart_rx ports w) b (restart_rx-IsQuiet w v),
  )

  store_chunk-IsValid :
      (chunk : List ℕ) (w : World E) → IsValid (w.ctx) → IsValid ((store_chunk ports chunk w).ctx)
  unfolding store_chunk
  store_chunk-IsValid chunk w v =
      ground (arith, length-memcpy (w.ctx.rx_buffer) (w.ctx.rx_received) chunk)

  pub store_chunk-rx :
      (chunk : List ℕ) (w : World E)
      → (store_chunk ports chunk w).ctx
        ≡ record (w.ctx) { rx_buffer = (store_chunk ports chunk w).ctx.rx_buffer }
  unfolding store_chunk
  store_chunk-rx chunk w = ground arith

  pub take_chunk-IsValid :
      (frame : List ℕ) (dlc : ℕ) (w : World E)
      → IsValid (w.ctx)
      → w.ctx.rx_state ≡ rx_wait_cf
      → IsValid ((take_chunk ports frame dlc w).ctx)
  unfolding take_chunk
  take_chunk-IsValid frame dlc w v s =
      let n = min (u8 (dlc - 1)) (sub32 (w.ctx.rx_total_size) (w.ctx.rx_received)) in
      ground (arith, store_chunk-IsValid (slice frame 1 n) w v, store_chunk-rx (slice frame 1 n) w)
