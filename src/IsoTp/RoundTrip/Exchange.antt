-- ===== src/IsoTp/RoundTrip/Exchange.antt =====
-- Sender and receiver together: a segmented message arrives whole.
use obd_simulator.Prelude.{
  ℕ, zero, suc, ◌+◌, ◌*◌, ◌≤◌, ◌<◌, ◌≡◌, true, List, ◌∷◌, length, take, arith, u8, low_nibble, ap,
  ◌∙◌, sym, take-all,
}
use native.Mathlib.Decide.{dec_lt}
use obd_simulator.Can.{addr_physical, classify}
use obd_simulator.Can.Frames.{CanFrame, bytes_to_dlc, dlc_to_bytes}
use obd_simulator.IsoTp.Context.{Context, rx_wait_cf, rx_complete, Ports, World, put, Output, sent}
use obd_simulator.IsoTp.Transmit.{consecutive_frame, send_next_cf}
use obd_simulator.IsoTp.Receive.{
  Dispatch, dispatch_completed_message, process_frame, process_addressed, process_consecutive_frame,
  finish_reception, take_chunk, set_rx_state,
}
use obd_simulator.IsoTp.RoundTrip.Sender.{Accepts, Sending, send_next_cf-Sending}
use obd_simulator.IsoTp.RoundTrip.{dlc-round_up}
use obd_simulator.IsoTp.RoundTrip.Multi.{Reassembling, chunk, chunk_size, take_chunk-Reassembling}

module _ {E : Type 0} (ports : Ports E) (dispatch : Dispatch E) where
  -- A consecutive frame in sequence is taken.
  receive_cf :
      (id : ℕ) (seq : ℕ) (bytes : List ℕ) (dlc : ℕ) (w : World E)
      → classify id ≡ addr_physical
      → 1 ≤ dlc
      → w.ctx.rx_state ≡ rx_wait_cf
      → w.ctx.rx_expected_seq ≡ low_nibble seq
      → process_frame ports dispatch id (consecutive_frame seq bytes) dlc w
        ≡ finish_reception ports dispatch (
            take_chunk ports
              (consecutive_frame seq bytes)
              dlc
              (put (record (w.ctx) { rx_addr_type = addr_physical }) w))
  unfolding process_frame process_addressed process_consecutive_frame consecutive_frame
  receive_cf id seq bytes dlc w a d s e = ground arith

held-whole :
    (msg : List ℕ) (c : Context)
    → Reassembling msg c
    → c.rx_received ≡ length msg
    → take c.rx_total_size c.rx_buffer ≡ msg
held-whole msg c v e =
    ap (λ k. take k c.rx_buffer) (v.total ∙ sym e)
    ∙ (v.held ∙ take-all c.rx_received msg (omega (arith, e)))

-- The bus: the receiver gets the frame that the sender's driver took last.
unfoldable pub deliver : {S E : Type 0} → Ports E → Dispatch E → ℕ → World S → World E → World E
deliver ports dispatch id s r = elim (s.out) [
  | sent f true ∷ older ↦ process_frame ports dispatch id f.payload (dlc_to_bytes f.data_length) r
  | _ ↦ r
]

pub deliver-sent :
    {S E : Type 0} (ports : Ports E) (dispatch : Dispatch E) (id : ℕ) (s : World S) (r : World E)
    {f : CanFrame} {older : List Output}
    → s.out ≡ sent f true ∷ older
    → deliver ports dispatch id s r
      ≡ process_frame ports dispatch id f.payload (dlc_to_bytes f.data_length) r
unfolding deliver
deliver-sent ports dispatch id s r e = ground arith

-- Rounds of the transfer: the sender sends its next consecutive frame, the receiver takes it.
unfoldable pub exchange :
    {S E : Type 0} → Ports S → Ports E → Dispatch E → ℕ → ℕ → World S → World E → World S × World E
unfolding deliver
exchange sports ports dispatch id zero s r = (s, r)
exchange sports ports dispatch id (suc k) s r =
    let s' = send_next_cf sports s in
    exchange sports ports dispatch id k s' (deliver ports dispatch id s' r)

-- The two ends agree on how far the message is.
pub record Linked {S E : Type 0} (msg : List ℕ) (s : World S) (r : World E) : Type 0 where
  pub sending : Sending msg (s.ctx)
  pub receiving : Reassembling msg (r.ctx)
  pub in_step : s.ctx.tx_sent ≡ r.ctx.rx_received
  pub in_sequence : r.ctx.rx_expected_seq ≡ low_nibble (s.ctx.tx_seq)

module _ {S E : Type 0} (sports : Ports S) (accepts : Accepts sports) (ports : Ports E)
    (dispatch : Dispatch E) (id : ℕ) (physical : classify id ≡ addr_physical) (msg : List ℕ) where
  -- The receiver, once it has taken the sender's next frame.
  next_received : World S → World E → World E
  next_received s r =
      take_chunk ports (consecutive_frame (s.ctx.tx_seq) (chunk msg (r.ctx.rx_received)))
        (dlc_to_bytes (bytes_to_dlc (u8 (chunk_size msg (r.ctx.rx_received) + 1))))
        (put (record (r.ctx) { rx_addr_type = addr_physical }) r)

  unfinished :
      (w : World E)
      → Reassembling msg (w.ctx)
      → w.ctx.rx_received < length msg
      → finish_reception ports dispatch w ≡ w
  unfolding finish_reception
  unfinished w v h = ground (arith, v.total)

  finished :
      (w : World E)
      → Reassembling msg (w.ctx)
      → w.ctx.rx_received ≡ length msg
      → finish_reception ports dispatch w
        ≡ dispatch_completed_message ports dispatch (set_rx_state rx_complete w)
  unfolding finish_reception
  finished w v h = ground (arith, v.total, v.buffered)

  round :
      (s : World S) (r : World E)
      → Linked msg s r
      → s.ctx.tx_sent < length msg
      → (deliver ports dispatch id (send_next_cf sports s) r
          ≡ finish_reception ports dispatch (next_received s r))
        × Linked msg (send_next_cf sports s) (next_received s r)
        × ((next_received s r).ctx.rx_received
            ≡ r.ctx.rx_received + chunk_size msg (r.ctx.rx_received))
        × ((next_received s r).ctx.rx_addr_type ≡ addr_physical)
  unfolding deliver next_received
  round s r l more =
      let t = send_next_cf-Sending sports accepts msg s (l.sending) more in
      let at = r.ctx.rx_received in
      let n = chunk_size msg at in
      let d = dlc-round_up (u8 (n + 1)) (omega arith) in
      let r' = put (record (r.ctx) { rx_addr_type = addr_physical }) r in
      let q : Reassembling msg (r'.ctx) = ground (arith, l.receiving) in
      let w =
        take_chunk-Reassembling ports msg (s.ctx.tx_seq) (dlc_to_bytes (bytes_to_dlc (u8 (n + 1))))
          r' q (omega (arith, d)) (d.1) in
      (
        deliver-sent ports dispatch id (send_next_cf sports s) r (t.1)
            ∙ (ap
                  (λ k.
                    process_frame ports dispatch id (consecutive_frame (s.ctx.tx_seq) (chunk msg k))
                      (dlc_to_bytes (bytes_to_dlc (u8 (chunk_size msg k + 1)))) r)
                  (l.in_step)
                ∙ receive_cf ports dispatch id (s.ctx.tx_seq) (chunk msg at)
                    (dlc_to_bytes (bytes_to_dlc (u8 (n + 1)))) r physical (omega (arith, d))
                    (l.receiving.waiting) (l.in_sequence)),
        record {
          sending = t.0;
          receiving = w.0;
          in_step = omega (arith, t.2, w.1, l.in_step, ap (chunk_size msg) (l.in_step));
          in_sequence = omega (arith, w.2, t.3, l.in_sequence);
        },
        w.1,
        w.3,
      )

  -- From linked ends, as many rounds as there are consecutive frames left end in one call of the
  -- service layer, with exactly the message.
  pub exchange-Linked :
      (k : ℕ) (s : World S) (r : World E)
      → Linked msg s r
      → s.ctx.tx_sent < length msg
      → length msg ≤ s.ctx.tx_sent + 63 * k
      → s.ctx.tx_sent + 63 * k < length msg + 63
      → (u : World E) × ((exchange sports ports dispatch id k s r).1
          ≡ dispatch_completed_message ports dispatch u)
        × (take (u.ctx.rx_total_size) (u.ctx.rx_buffer) ≡ msg)
        × (u.ctx.rx_addr_type ≡ addr_physical)
  unfolding exchange
  exchange-Linked zero s r l more hi lo = absurd (omega arith)
  exchange-Linked (suc k) s r l more hi lo =
      let step = round s r l more in
      let s' = send_next_cf sports s in
      let r' = next_received s r in
      let v = step.1.receiving in
      elim (dec_lt (r'.ctx.rx_received) (length msg)) [
        | yes short ↦
            let rest =
              exchange-Linked k s' r' (step.1) (omega (arith, step.1.in_step))
                (omega (arith, step.1.in_step, step.2, l.in_step))
                (omega (arith, step.1.in_step, step.2, l.in_step)) in
            (
              rest.0,
              ap (λ x. (exchange sports ports dispatch id k s' x).1)
                    (step.0 ∙ unfinished r' v short)
                  ∙ rest.1,
              rest.2,
              rest.3,
            )
        | no full ↦
            let whole : r'.ctx.rx_received ≡ length msg = omega (arith, v.progress) in
            let last : k ≡ 0 = omega (arith, step.2, l.in_step) in
            (
              set_rx_state rx_complete r',
              ap (λ j. (exchange sports ports dispatch id j s' (deliver ports dispatch id s' r)).1)
                    last
                  ∙ (step.0 ∙ finished r' v whole),
              held-whole msg (r'.ctx) v whole,
              step.3,
            )
      ]
