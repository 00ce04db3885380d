-- ===== src/IsoTp/RoundTrip/Sender.antt =====
-- The sender of a segmented message: what goes out, and what is left.
use obd_simulator.Prelude.{
  ℕ, ◌+◌, ◌≤◌, ◌<◌, ◌≡◌, true, List, ◌∷◌, length, take, drop, arith, u8, u32, low_nibble, ap, ap₂,
  ◌∙◌, sym, take-drop-take, take-memcpy, memcpy, get_or, refl, if◌then◌else◌, ltb,
}
use obd_simulator.Can.Frames.{CanFrame, bytes_to_dlc}
use obd_simulator.IsoTp.Context.{
  Context, tx_idle, tx_wait_fc, tx_send_cf, Ports, World, sent, max_message_size,
}
use obd_simulator.IsoTp.Transmit.{
  consecutive_frame, first_frame, send_next_cf, settle, advance, cf_payload, send_response,
  send_first_frame, start_segmented, continue_sending, process_flow_control,
}
use obd_simulator.IsoTp.Invariant.{IsValid}
use obd_simulator.IsoTp.RoundTrip.Multi.{chunk, chunk_size, first_frame-Opens}

-- The driver takes every frame.
abbrev pub Accepts : {E : Type 0} → Ports E → Type 0
Accepts {E} ports = (f : CanFrame) (e : E) → (ports.add_message f e).0 ≡ true

-- The sender has `msg` in its buffer, no block size, and `tx_sent` bytes behind it.
pub record Sending (msg : List ℕ) (c : Context) : Type 0 where
  pub buffered : take (length msg) c.tx_buffer ≡ msg
  pub total : c.tx_total_size ≡ length msg
  pub small : length msg ≤ max_message_size
  pub no_blocks : c.tx_block_size ≡ 0
  pub progress : c.tx_sent ≤ length msg

-- The frame that `send_next_cf` puts on the bus, for `n` bytes `bytes`.
abbrev pub cf_of : Context → ℕ → List ℕ → CanFrame
cf_of c n bytes = record {
  identifier = c.tx_can_id;
  data_length = bytes_to_dlc (u8 (n + 1));
  payload = consecutive_frame c.tx_seq bytes;
}

abbrev pub next_cf : List ℕ → Context → CanFrame
next_cf msg c = cf_of c (chunk_size msg c.tx_sent) (chunk msg c.tx_sent)

-- The sender that a flow control frame with block size 0 and this STmin sets going.
abbrev ready : {E : Type 0} → Ports E → ℕ → World E → World E
ready ports stmin w =
    let (t, e) = ports.get_tick w.env in
    record w {
      env = e;
      ctx = record (w.ctx) {
        tx_stmin = if ltb stmin 0x80 then stmin else 0;
        tx_block_size = 0;
        tx_block_counter = 0;
        last_tx_tick = t;
        tx_state = tx_send_cf;
      };
    }

-- What the sender holds once the first frame is out: it waits for flow control, with 62 bytes of
-- the message behind it.
pub record Opened (msg : List ℕ) (c : Context) : Type 0 where
  pub waits : c.tx_state ≡ tx_wait_fc
  pub buffered : take (length msg) c.tx_buffer ≡ msg
  pub total : c.tx_total_size ≡ length msg
  pub behind : c.tx_sent ≡ 62
  pub first : c.tx_seq ≡ 1

module _ {E : Type 0} (ports : Ports E) (accepts : Accepts ports) where
  -- The frame that goes out carries the next chunk of the message.
  chunk-sent :
      (msg : List ℕ) (c : Context)
      → Sending msg c
      → take (cf_payload c) (drop c.tx_sent c.tx_buffer) ≡ chunk msg c.tx_sent
  chunk-sent msg c s =
      let n = chunk_size msg c.tx_sent in
      ap (λ k. take k (drop c.tx_sent c.tx_buffer)) (omega (arith, s.total))
      ∙ (sym (take-drop-take n c.tx_sent (length msg) c.tx_buffer (omega (arith, s.progress)))
          ∙ ap (λ b. take n (drop c.tx_sent b)) (s.buffered))

  send_next_cf-fields :
      (w : World E) (frame : CanFrame)
      → w.ctx.tx_sent < w.ctx.tx_total_size
      → frame ≡ record {
        identifier = w.ctx.tx_can_id;
        data_length = bytes_to_dlc (u8 (cf_payload (w.ctx) + 1));
        payload =
            consecutive_frame
              (w.ctx.tx_seq)
              (take (cf_payload (w.ctx)) (drop (w.ctx.tx_sent) (w.ctx.tx_buffer)));
      }
      → (let w' = send_next_cf ports w in
          (w'.ctx.tx_buffer ≡ w.ctx.tx_buffer)
          × (w'.ctx.tx_total_size ≡ w.ctx.tx_total_size)
          × (w'.ctx.tx_block_size ≡ w.ctx.tx_block_size)
          × (w'.ctx.tx_sent ≡ u32 (w.ctx.tx_sent + cf_payload (w.ctx)))
          × (w'.ctx.tx_seq ≡ low_nibble (w.ctx.tx_seq + 1))
          × (w'.out ≡ sent frame true ∷ w.out))
  unfolding send_next_cf settle advance
  send_next_cf-fields w frame more e = ground (arith, accepts frame w.env)

  -- One consecutive frame goes out, with the next chunk of the message.
  pub send_next_cf-Sending :
      (msg : List ℕ) (w : World E)
      → Sending msg (w.ctx)
      → w.ctx.tx_sent < length msg
      → (let w' = send_next_cf ports w in
          Sending msg (w'.ctx)
          × (w'.out ≡ sent (next_cf msg (w.ctx)) true ∷ w.out)
          × (w'.ctx.tx_sent ≡ w.ctx.tx_sent + chunk_size msg (w.ctx.tx_sent))
          × (w'.ctx.tx_seq ≡ low_nibble (w.ctx.tx_seq + 1)))
  send_next_cf-Sending msg w s more =
      let c = w.ctx in
      let size : cf_payload c ≡ chunk_size msg c.tx_sent = omega (arith, s.total) in
      let g =
        send_next_cf-fields w (next_cf msg c) (omega (arith, s.total))
          (ap₂ (cf_of c) (sym size) (sym (chunk-sent msg c s))) in
      let at' : (send_next_cf ports w).ctx.tx_sent ≡ c.tx_sent + chunk_size msg c.tx_sent =
        omega (arith, g.3, size, s.small) in
      (
        record {
          buffered = ap (take (length msg)) (g.0) ∙ s.buffered;
          total = g.1 ∙ s.total;
          small = s.small;
          no_blocks = g.2 ∙ s.no_blocks;
          progress = omega (arith, at');
        },
        g.5,
        at',
        g.4,
      )

  send_response-fields :
      (id : ℕ) (msg : List ℕ) (w : World E) (f : CanFrame)
      → f ≡ record { identifier = id; data_length = 15; payload = (first_frame msg).0 }
      → w.ctx.tx_state ≡ tx_idle
      → 63 ≤ length msg
      → length msg ≤ max_message_size
      → (let w' = send_response ports id msg w in
          (w'.out ≡ sent f true ∷ w.out)
          × (w'.ctx.tx_state ≡ tx_wait_fc)
          × (w'.ctx.tx_buffer ≡ memcpy (w.ctx.tx_buffer) 0 msg)
          × (w'.ctx.tx_total_size ≡ length msg)
          × (w'.ctx.tx_sent ≡ (first_frame msg).1)
          × (w'.ctx.tx_seq ≡ 1))
  unfolding send_response send_first_frame start_segmented
  send_response-fields id msg w f e idle lo hi = ground (arith, accepts f w.env)

  -- A response of 63 to 512 bytes opens a segmented transmission with its first frame.
  pub send_response-Opened :
      (id : ℕ) (msg : List ℕ) (w : World E)
      → IsValid (w.ctx)
      → w.ctx.tx_state ≡ tx_idle
      → 63 ≤ length msg
      → length msg ≤ max_message_size
      → ((send_response ports id msg w).out
          ≡ sent (record { identifier = id; data_length = 15; payload = (first_frame msg).0 }) true
            ∷ w.out)
        × Opened msg ((send_response ports id msg w).ctx)
  send_response-Opened id msg w v idle lo hi =
      let f : CanFrame = record {
        identifier = id;
        data_length = 15;
        payload = (first_frame msg).0;
      } in
      let g = send_response-fields id msg w f refl idle lo hi in
      (
        g.0,
        record {
          waits = g.1;
          buffered =
              ap (take (length msg)) (g.2)
              ∙ take-memcpy (length msg) (w.ctx.tx_buffer) 0 msg (omega (arith, v.tx_capacity))
                  (omega arith);
          total = g.3;
          behind = g.4 ∙ (first_frame-Opens msg lo hi).3;
          first = g.5;
        },
      )

  -- The flow control frame with the block size 0 sets it sending.
  pub process_flow_control-Sending :
      (msg frame : List ℕ) (w : World E)
      → Opened msg (w.ctx)
      → 63 ≤ length msg
      → length msg ≤ max_message_size
      → low_nibble (get_or frame 0 0) ≡ 0
      → get_or frame 1 0 ≡ 0
      → (u : World E) × (process_flow_control ports frame w ≡ send_next_cf ports u)
        × Sending msg (u.ctx)
        × (u.ctx.tx_sent ≡ 62)
        × (u.ctx.tx_seq ≡ 1)
  unfolding process_flow_control continue_sending
  process_flow_control-Sending msg frame w o lo hi e e' = (
    ready ports (get_or frame 2 0) w,
    ground (arith, o),
    record {
      buffered = o.buffered;
      total = o.total;
      small = hi;
      no_blocks = refl;
      progress = omega (arith, o.behind);
    },
    o.behind,
    o.first,
  )
