-- ===== src/IsoTp/RoundTrip/Multi.antt =====
-- The receiver of a segmented message: what it holds after each frame.
use obd_simulator.Prelude.{
  ℕ, ◌+◌, ◌-◌, ◌≤◌, ◌≡◌, min, false, List, length, take, drop, get_or, memcpy, arith, refl, u8, u32,
  sub32, low_nibble, high_nibble, take-memcpy, take-drop-memcpy, length-take, length-drop,
  length-memcpy, take-add, byte1, le→leb, leb, if_both, set, ap, ap₂, ◌∙◌, sym, ◌++◌,
}
use obd_simulator.IsoTp.Context.{Context, Ports, World, rx_wait_cf, max_message_size}
use obd_simulator.IsoTp.Transmit.{first_frame, consecutive_frame, blank}
use obd_simulator.IsoTp.Receive.{slice, first_header, take_chunk}

-- The receiver holds the first `rx_received` bytes of `msg` in its buffer and waits for more.
pub record Reassembling (msg : List ℕ) (c : Context) : Type 0 where
  pub waiting : c.rx_state ≡ rx_wait_cf
  pub buffered : c.stream_mode ≡ false
  pub capacity : length c.rx_buffer ≡ max_message_size
  pub total : c.rx_total_size ≡ length msg
  pub small : length msg ≤ max_message_size
  pub progress : c.rx_received ≤ length msg
  pub held : take c.rx_received c.rx_buffer ≡ take c.rx_received msg

-- How many bytes of `msg` go into the consecutive frame behind the first `at` bytes.
abbrev pub chunk_size : List ℕ → ℕ → ℕ
chunk_size msg at = min 63 (length msg - at)

abbrev pub chunk : List ℕ → ℕ → List ℕ
chunk msg at = take (chunk_size msg at) (drop at msg)

length-chunk : (msg : List ℕ) (at : ℕ) → length (chunk msg at) ≡ chunk_size msg at
length-chunk msg at =
    omega (arith, length-take (chunk_size msg at) (drop at msg), length-drop at msg)

consecutive_frame-slice :
    (seq : ℕ) (bytes : List ℕ)
    → length bytes ≤ 63
    → slice (consecutive_frame seq bytes) 1 (length bytes) ≡ bytes
unfolding consecutive_frame
consecutive_frame-slice seq bytes h =
    take-drop-memcpy (length bytes) (set blank 0 (0x20 + low_nibble seq)) 1 bytes (omega arith) refl

classic_header :
    (frame : List ℕ) (n : ℕ)
    → get_or frame 0 0 ≡ 0x10 + low_nibble (byte1 n)
    → get_or frame 1 0 ≡ u8 n
    → 63 ≤ n
    → n ≤ max_message_size
    → first_header frame ≡ (n, 2)
unfolding first_header
classic_header frame n e e' lo hi = ground arith

-- A frame and a count that open the reception of `msg`.
abbrev pub Opens : List ℕ → List ℕ × ℕ → Type 0
Opens msg (frame, n) =
    (first_header frame ≡ (length msg, 2))
    × (slice frame 2 62 ≡ take 62 msg)
    × (high_nibble (get_or frame 0 0) ≡ 0x10)
    × (n ≡ 62)

-- The first frame of a message of 63 to 512 bytes says its length and carries 62 bytes of it.
pub first_frame-Opens :
    (msg : List ℕ) → 63 ≤ length msg → length msg ≤ max_message_size → Opens msg (first_frame msg)
unfolding first_frame
first_frame-Opens msg lo hi =
    let total = length msg in
    let buf = set (set blank 0 (0x10 + low_nibble (byte1 total))) 1 (u8 total) in
    let n = min total (64 - 2) in
    let frame = memcpy buf 2 (take n msg) in
    let fits : n ≡ 62 = omega arith in
    if_both (Opens msg) (leb total 4095)
      (λ _. (
        classic_header frame total refl refl lo hi,
        take-drop-memcpy 62 buf 2 (take n msg) (omega (arith, length-take n msg))
              (omega (arith, length-take n msg))
            ∙ ap (λ k. take k msg) fits,
        (let q : high_nibble (0x10 + low_nibble (byte1 total)) ≡ 0x10 = omega arith in q),
        fits,
      ))
      (λ long. absurd (cc (le→leb total 4095 (omega arith), long)))

module _ {E : Type 0} (ports : Ports E) where
  -- The fields after a stored chunk, in a reception that is buffered.
  take_chunk-fields :
      (frame bytes : List ℕ) (dlc : ℕ) (w : World E)
      → w.ctx.stream_mode ≡ false
      → slice frame 1 (min (u8 (dlc - 1)) (sub32 (w.ctx.rx_total_size) (w.ctx.rx_received))) ≡ bytes
      → (let c = (take_chunk ports frame dlc w).ctx in
          (c.rx_buffer ≡ memcpy (w.ctx.rx_buffer) (w.ctx.rx_received) bytes)
          × (c.rx_state ≡ w.ctx.rx_state)
          × (c.stream_mode ≡ false)
          × (c.rx_total_size ≡ w.ctx.rx_total_size)
          × (c.rx_addr_type ≡ w.ctx.rx_addr_type)
          × (c.rx_expected_seq ≡ low_nibble (w.ctx.rx_expected_seq + 1))
          × (c.rx_received
              ≡ u32 (
                  w.ctx.rx_received
                  + min (u8 (dlc - 1)) (sub32 (w.ctx.rx_total_size) (w.ctx.rx_received)))))
  unfolding take_chunk
  take_chunk-fields frame bytes dlc w s e = ground arith

  -- The next consecutive frame, on a wire that carries at least its bytes (and all of a full
  -- frame), extends what is held by its chunk.
  pub take_chunk-Reassembling :
      (msg : List ℕ) (seq dlc : ℕ) (w : World E)
      → Reassembling msg (w.ctx)
      → chunk_size msg (w.ctx.rx_received) + 1 ≤ dlc
      → dlc ≤ 64
      → (let w' = take_chunk ports (consecutive_frame seq (chunk msg (w.ctx.rx_received))) dlc w in
          Reassembling msg (w'.ctx)
          × (w'.ctx.rx_received ≡ w.ctx.rx_received + chunk_size msg (w.ctx.rx_received))
          × (w'.ctx.rx_expected_seq ≡ low_nibble (w.ctx.rx_expected_seq + 1))
          × (w'.ctx.rx_addr_type ≡ w.ctx.rx_addr_type))
  take_chunk-Reassembling msg seq dlc w r lo hi =
      let at = w.ctx.rx_received in
      let n = chunk_size msg at in
      let bytes = chunk msg at in
      let frame = consecutive_frame seq bytes in
      let size = length-chunk msg at in
      let same : min (u8 (dlc - 1)) (sub32 (w.ctx.rx_total_size) at) ≡ length bytes =
        omega (arith, r.total, r.progress, r.small) in
      let fields =
        take_chunk-fields frame bytes dlc w (r.buffered)
          (rw same (consecutive_frame-slice seq bytes (omega arith))) in
      let c' = (take_chunk ports frame dlc w).ctx in
      let got : c'.rx_received ≡ at + n =
        omega (arith, fields.6, same, size, r.progress, r.small) in
      (
        record {
          waiting = fields.1 ∙ r.waiting;
          buffered = fields.2;
          capacity = ap length fields.0 ∙ (length-memcpy (w.ctx.rx_buffer) at bytes ∙ r.capacity);
          total = fields.3 ∙ r.total;
          small = r.small;
          progress = omega (arith, got, r.progress);
          held =
              ap₂ take got (fields.0)
              ∙ (take-memcpy (at + n) (w.ctx.rx_buffer) at bytes
                    (omega (arith, size, r.progress, r.small, r.capacity)) (omega (arith, size))
                  ∙ (ap (λ p. p ++ bytes) (r.held)
                      ∙ (sym (take-add (at + n) at n msg refl) ∙ ap (λ k. take k msg) (sym got))));
        },
        got,
        fields.5,
        fields.4,
      )
