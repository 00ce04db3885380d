-- ===== src/IsoTp/Invariant/Frames.antt =====
-- A whole frame, and the tick, keep the invariant.
use obd_simulator.Prelude.{
  ℕ, ◌≡◌, List, false, length, length-memcpy, take, get_or, arith, ltb, leb, if_both, if◌then◌else◌,
  ◌==◌, low_nibble, refl,
}
use obd_simulator.Can.{AddrType, addr_physical, addr_functional}
use obd_simulator.IsoTp.Context.{RxState, rx_idle, rx_wait_cf, Ports, World, put}
use obd_simulator.IsoTp.Receive.{
  slice, Dispatch, single_payload, set_rx_state, abort_stream_rx, restart_rx, take_chunk,
  dispatch_completed_message, process_single_frame, finish_reception, process_consecutive_frame,
  process_addressed, process_frame,
}
use obd_simulator.IsoTp.Tick.{tick, expire_rx, expire_fc, pace_cf}
use obd_simulator.IsoTp.Invariant.{
  IsValid, send_response-IsValid, process_flow_control-IsValid, send_next_cf-IsValid,
}
use obd_simulator.IsoTp.Invariant.Receive.{
  IsBytes, KeepsTransport, abort_stream_rx_lem, restart_rx-IsQuiet, single_payload-lt,
  process_first_frame-IsValid, take_chunk-IsValid,
}

module _ {E : Type 0} (ports : Ports E) where
  pub expire_rx-IsValid :
      (now : ℕ) (w : World E) → IsValid (w.ctx) → IsValid ((expire_rx ports now w).ctx)
  unfolding expire_rx
  expire_rx-IsValid now w v = ground (arith, abort_stream_rx_lem ports w)

  expire_fc-IsValid :
      (now : ℕ) (w : World E) → IsValid (w.ctx) → IsValid ((expire_fc ports now w).ctx)
  unfolding expire_fc
  expire_fc-IsValid now w v = ground arith

  pace_cf-IsValid : (now : ℕ) (w : World E) → IsValid (w.ctx) → IsValid ((pace_cf ports now w).ctx)
  unfolding pace_cf
  pace_cf-IsValid now w v = ground (arith, send_next_cf-IsValid ports w v)

  module _ (dispatch : Dispatch E) (service : KeepsTransport dispatch) where
    dispatch_completed_message-IsValid :
        (w : World E)
        → IsValid (w.ctx)
        → w.ctx.stream_mode ≡ false
        → IsValid ((dispatch_completed_message ports dispatch w).ctx)
    unfolding dispatch_completed_message
    dispatch_completed_message-IsValid w v s =
        let c = w.ctx in
        let (response, w') = dispatch (take c.rx_total_size c.rx_buffer) c.rx_addr_type w in
        let kept = service (take c.rx_total_size c.rx_buffer) c.rx_addr_type w v s in
        let valid : IsValid ((set_rx_state rx_idle w').ctx) = ground (arith, kept.0, kept.1) in
        if_both (λ (x : World E). IsValid (x.ctx)) (ltb 0 (length response))
          (λ _. send_response-IsValid ports _ _ _ valid) (λ _. valid)

    process_single_frame-IsValid :
        (id : ℕ) (frame : List ℕ) (dlc : ℕ) (w : World E)
        → IsBytes frame
        → IsValid (w.ctx)
        → IsValid ((process_single_frame ports dispatch id frame dlc w).ctx)
    unfolding process_single_frame
    process_single_frame-IsValid id frame dlc w b v =
        let quiet = restart_rx-IsQuiet ports w v in
        let (off, n) = single_payload frame dlc in
        dispatch_completed_message-IsValid _
          (ground (
            arith,
            length-memcpy ((restart_rx ports w).ctx.rx_buffer) 0 (slice frame off n),
            single_payload-lt ports frame dlc b,
          ))
          quiet.no_stream

    finish_reception-IsValid :
        (w : World E) → IsValid (w.ctx) → IsValid ((finish_reception ports dispatch w).ctx)
    unfolding finish_reception
    finish_reception-IsValid w v =
        let P = λ (x : World E). IsValid (x.ctx) in
        if_both P (leb (w.ctx.rx_total_size) (w.ctx.rx_received))
          (λ _.
            if_both P (w.ctx.stream_mode) (λ _. ground arith)
              (λ s. dispatch_completed_message-IsValid _ (ground arith) s))
          (λ _. v)

    process_consecutive_frame-IsValid :
        (frame : List ℕ) (dlc : ℕ) (w : World E)
        → IsValid (w.ctx)
        → IsValid ((process_consecutive_frame ports dispatch frame dlc w).ctx)
    unfolding process_consecutive_frame
    process_consecutive_frame-IsValid frame dlc w v = go (w.ctx.rx_state) refl
      where
        go :
            (s : RxState)
            → w.ctx.rx_state ≡ s
            → IsValid (
                (elim s as (λ _. World E) [
                  | rx_wait_cf ↦
                      if low_nibble (get_or frame 0 0) == w.ctx.rx_expected_seq
                      then finish_reception ports dispatch (take_chunk ports frame dlc w)
                      else set_rx_state rx_idle (abort_stream_rx ports w)
                  | _ ↦ w
                ]).ctx)
        go rx_wait_cf e =
            if_both (λ (x : World E). IsValid (x.ctx))
              (low_nibble (get_or frame 0 0) == w.ctx.rx_expected_seq)
              (λ _. finish_reception-IsValid _ (take_chunk-IsValid ports frame dlc w v e))
              (λ _. ground (arith, abort_stream_rx_lem ports w))
        go _ e = v

    process_addressed-IsValid :
        (id : ℕ) (frame : List ℕ) (dlc : ℕ) (w : World E)
        → IsBytes frame
        → IsValid (w.ctx)
        → IsValid ((process_addressed ports dispatch id frame dlc w).ctx)
    unfolding process_addressed
    process_addressed-IsValid id frame dlc w b v = ground (
      arith,
      process_single_frame-IsValid id frame dlc w b v,
      process_first_frame-IsValid ports id frame dlc w b v,
      process_consecutive_frame-IsValid frame dlc w v,
    )

    -- A frame on any CAN identifier, of any length and content, keeps the invariant, provided
    -- that its bytes are bytes and that the service layer keeps it while it serves a request.
    pub process_frame-IsValid :
        (id : ℕ) (frame : List ℕ) (dlc : ℕ) (w : World E)
        → IsBytes frame
        → IsValid (w.ctx)
        → IsValid ((process_frame ports dispatch id frame dlc w).ctx)
    unfolding process_frame
    process_frame-IsValid id frame dlc w b v =
        let addressed = λ (a : AddrType).
          process_addressed-IsValid id frame dlc (put (record (w.ctx) { rx_addr_type = a }) w) b
            (ground arith) in
        ground (
          arith,
          process_flow_control-IsValid ports frame w v,
          addressed addr_physical,
          addressed addr_functional,
        )

  -- The periodic tick, at any time, keeps the invariant, with the timeouts of both halves and the
  -- consecutive frame it may send.
  pub tick-IsValid : (now : ℕ) (w : World E) → IsValid (w.ctx) → IsValid ((tick ports now w).ctx)
  unfolding tick
  tick-IsValid now w v = pace_cf-IsValid now _ (expire_fc-IsValid now _ (expire_rx-IsValid now w v))
