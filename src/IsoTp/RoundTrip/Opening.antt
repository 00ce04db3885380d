-- ===== src/IsoTp/RoundTrip/Opening.antt =====
-- The receiver of a first frame: what it holds, and how it answers.
use obd_simulator.Prelude.{
  ℕ, ◌+◌, ◌≤◌, ◌≡◌, true, false, List, [], ◌∷◌, length, take, memcpy, arith, refl, u32, take-memcpy,
  length-take, length-memcpy, le→ltb, Bool, if◌then◌else◌, ◌&&◌, ◌==◌, ap, ◌∙◌,
}
use obd_simulator.Can.{addr_physical}
use obd_simulator.IsoTp.Context.{Output, sent, Ports, World, rx_idle, max_message_size}
use obd_simulator.IsoTp.Transmit.{blank, send_flow_control}
use obd_simulator.IsoTp.Receive.{
  slice, first_header, first_payload, restart_rx, accept_first_frame, process_first_frame,
  first_buffer, len12, set_rx_state,
}
use obd_simulator.IsoTp.Invariant.{IsValid}
use obd_simulator.IsoTp.Invariant.Receive.{IsQuiet, restart_rx-IsQuiet, restart_rx-addr}
use obd_simulator.IsoTp.RoundTrip.Multi.{Reassembling, Opens}

module _ {E : Type 0} (ports : Ports E) where
  -- What `first_buffer` leaves, for a message whose first 62 bytes come.
  first_buffer-Reassembling :
      (id : ℕ) (msg frame : List ℕ) (w : World E)
      → IsQuiet (w.ctx)
      → 62 ≤ length msg
      → length msg ≤ max_message_size
      → slice frame 2 62 ≡ take 62 msg
      → (let c = (first_buffer ports id frame (length msg) 2 62 w).ctx in
          Reassembling msg c
          × (c.rx_received ≡ 62)
          × (c.rx_expected_seq ≡ 1)
          × (c.rx_addr_type ≡ w.ctx.rx_addr_type))
  unfolding first_buffer send_flow_control
  first_buffer-Reassembling id msg frame w q lo hi e =
      let part = slice frame 2 62 in
      let size : length part ≡ 62 = ap length e ∙ omega (arith, length-take 62 msg) in
      (
        record {
          waiting = refl;
          buffered = refl;
          capacity = length-memcpy (w.ctx.rx_buffer) 0 part ∙ q.rx_capacity;
          total = refl;
          small = hi;
          progress = lo;
          held =
              take-memcpy 62 (w.ctx.rx_buffer) 0 part (omega (arith, size, q.rx_capacity))
                (omega (arith, size))
              ∙ e;
        },
        refl,
        refl,
        refl,
      )

  -- A first frame on a full wire takes the buffer path.
  accept_first_frame-buffer :
      (id : ℕ) (msg frame : List ℕ) (w : World E)
      → IsQuiet (w.ctx)
      → 63 ≤ length msg
      → length msg ≤ max_message_size
      → first_header frame ≡ (length msg, 2)
      → slice frame 2 62 ≡ take 62 msg
      → accept_first_frame ports id frame 64 w ≡ first_buffer ports id frame (length msg) 2 62 w
  unfolding accept_first_frame
  accept_first_frame-buffer id msg frame w q lo hi e s =
      rw (e, le→ltb max_message_size (length msg) hi, sized) (not_short (len12 frame == 0))
    where
      sized : first_payload 64 2 (length msg) ≡ 62
      sized = omega arith

      not_short :
          (b : Bool)
          → (if b && false
              then set_rx_state rx_idle w
              else first_buffer ports id frame (length msg) 2 62 w)
            ≡ first_buffer ports id frame (length msg) 2 62 w
      not_short true = refl
      not_short false = refl

  process_first_frame-physical :
      (id : ℕ) (frame : List ℕ) (w : World E)
      → w.ctx.rx_addr_type ≡ addr_physical
      → process_first_frame ports id frame 64 w
        ≡ accept_first_frame ports id frame 64 (restart_rx ports w)
  unfolding process_first_frame
  process_first_frame-physical id frame w a = ground arith

  -- A node that receives the first frame of a message, addressed to it alone, then holds the
  -- message's first 62 bytes and expects sequence number 1.
  pub process_first_frame-Reassembling :
      (id : ℕ) (msg frame : List ℕ) (n : ℕ) (w : World E)
      → IsValid (w.ctx)
      → w.ctx.rx_addr_type ≡ addr_physical
      → 63 ≤ length msg
      → length msg ≤ max_message_size
      → Opens msg (frame, n)
      → (let c = (process_first_frame ports id frame 64 w).ctx in
          Reassembling msg c
          × (c.rx_received ≡ 62)
          × (c.rx_expected_seq ≡ 1)
          × (c.rx_addr_type ≡ addr_physical))
  process_first_frame-Reassembling id msg frame n w v a lo hi o =
      let r = restart_rx ports w in
      let q = restart_rx-IsQuiet ports w v in
      let b = first_buffer-Reassembling id msg frame r q (omega arith) hi (o.1) in
      rw
        (process_first_frame-physical id frame w a
          ∙ accept_first_frame-buffer id msg frame r q lo hi (o.0) (o.1))
        (b.0, b.1, b.2, b.3 ∙ (restart_rx-addr ports w ∙ a))

  -- It answers with flow control: continue, no block size.
  pub process_first_frame-fc :
      (id : ℕ) (msg frame : List ℕ) (n : ℕ) (w : World E)
      → IsValid (w.ctx)
      → w.ctx.rx_addr_type ≡ addr_physical
      → 63 ≤ length msg
      → length msg ≤ max_message_size
      → Opens msg (frame, n)
      → (ok : Bool) × (older : List Output) × ((process_first_frame ports id frame 64 w).out
          ≡ sent
              (record {
                identifier = u32 (id + 8);
                data_length = 10;
                payload = memcpy blank 0 (0x30 ∷ 0 ∷ 5 ∷ []);
              })
              ok
            ∷ older)
  unfolding first_buffer send_flow_control
  process_first_frame-fc id msg frame n w v a lo hi o =
      let q = restart_rx-IsQuiet ports w v in
      (
        _,
        _,
        ap (λ (x : World E). x.out)
            (process_first_frame-physical id frame w a
              ∙ accept_first_frame-buffer id msg frame (restart_rx ports w) q lo hi (o.0) (o.1)),
      )
