-- ===== src/IsoTp/RoundTrip/Single.antt =====
-- Messages of up to 62 bytes: one single frame.
use obd_simulator.Prelude.{
  ℕ, ◌+◌, ◌≤◌, ◌<◌, ◌≡◌, ◌≢◌, List, length, take, get_or, memcpy, arith, refl, u8, low_nibble,
  take-memcpy, take-drop-memcpy, leb, if_both, set, ap, ◌∙◌, leb→le,
}
use obd_simulator.Can.{addr_ignore, classify}
use obd_simulator.Can.Frames.{bytes_to_dlc, dlc_to_bytes}
use obd_simulator.IsoTp.Context.{Ports, World, put}
use obd_simulator.IsoTp.Transmit.{single_frame, blank}
use obd_simulator.IsoTp.Receive.{
  Dispatch, slice, single_payload, restart_rx, receive_single, dispatch_completed_message,
  process_single_frame, process_addressed, process_frame,
}
use obd_simulator.IsoTp.Invariant.{IsValid}
use obd_simulator.IsoTp.Invariant.Receive.{restart_rx-IsQuiet, restart_rx-addr}
use obd_simulator.IsoTp.RoundTrip.{dlc-round_up}

-- The length that the wire carries for a single frame.
abbrev pub wire_length : List ℕ → ℕ
wire_length msg = dlc_to_bytes (bytes_to_dlc ((single_frame msg).1))

classic_payload :
    (frame : List ℕ) (dlc n : ℕ)
    → get_or frame 0 0 ≡ n
    → 1 ≤ n
    → n ≤ 7
    → n + 1 ≤ dlc
    → single_payload frame dlc ≡ (1, n)
unfolding single_payload
classic_payload frame dlc n e lo hi d = ground arith

escape_payload :
    (frame : List ℕ) (dlc n : ℕ)
    → get_or frame 0 0 ≡ 0
    → get_or frame 1 0 ≡ n
    → n + 2 ≤ dlc
    → single_payload frame dlc ≡ (2, n)
unfolding single_payload
escape_payload frame dlc n e e' d = ground arith

-- What a receiver finds in a frame of `used` bytes: the message, behind a single frame's PCI.
abbrev pub Carries : List ℕ → List ℕ × ℕ → Type 0
Carries msg (frame, used) =
    (let (off, n) = single_payload frame (dlc_to_bytes (bytes_to_dlc used)) in
      (n ≡ length msg)
      × (slice frame off n ≡ msg)
      × (get_or frame 0 0 < 16)
      × (1 ≤ dlc_to_bytes (bytes_to_dlc used)))

carried :
    (msg frame : List ℕ) (used off : ℕ)
    → single_payload frame (dlc_to_bytes (bytes_to_dlc used)) ≡ (off, length msg)
    → slice frame off (length msg) ≡ msg
    → get_or frame 0 0 < 16
    → 1 ≤ used
    → used ≤ 64
    → Carries msg (frame, used)
carried msg frame used off e h k u u' =
    (ap (λ p. p.1) e, rw e h, k, omega (arith, dlc-round_up used u'))

-- The receiver reads the payload that the sender wrote.
pub single_frame-Carries :
    (msg : List ℕ) → 1 ≤ length msg → length msg ≤ 62 → Carries msg (single_frame msg)
unfolding single_frame
single_frame-Carries msg lo hi =
    let n = length msg in
    if_both (Carries msg) (leb n 7)
      (λ short.
        let le = leb→le n 7 short in
        let frame = memcpy (set blank 0 (low_nibble n)) 1 msg in
        let used = u8 (n + 1) in
        carried msg frame used 1
          (classic_payload frame (dlc_to_bytes (bytes_to_dlc used)) n (omega arith) lo le
            (omega (arith, dlc-round_up used (omega arith))))
          (take-drop-memcpy n (set blank 0 (low_nibble n)) 1 msg (omega arith) refl) (omega arith)
          (omega arith) (omega arith))
      (λ long.
        let frame = memcpy (set (set blank 0 0x00) 1 (u8 n)) 2 msg in
        let used = u8 (n + 2) in
        carried msg frame used 2
          (escape_payload frame (dlc_to_bytes (bytes_to_dlc used)) n refl (omega arith)
            (omega (arith, dlc-round_up used (omega arith))))
          (take-drop-memcpy n (set (set blank 0 0x00) 1 (u8 n)) 2 msg (omega arith) refl)
          (omega arith) (omega arith) (omega arith))

module _ {E : Type 0} (ports : Ports E) (dispatch : Dispatch E) where
  pub dispatch_single :
      (id : ℕ) (frame : List ℕ) (dlc : ℕ) (w : World E)
      → 1 ≤ dlc
      → get_or frame 0 0 < 16
      → classify id ≢ addr_ignore
      → process_frame ports dispatch id frame dlc w
        ≡ dispatch_completed_message ports dispatch (
            receive_single ports id frame dlc
              (put (record (w.ctx) { rx_addr_type = classify id }) w))
  unfolding process_frame process_addressed process_single_frame
  dispatch_single id frame dlc w d k a = ground arith

  pub receive_single_lem :
      (id : ℕ) (msg frame : List ℕ) (dlc : ℕ) (w : World E)
      → IsValid (w.ctx)
      → length msg ≤ 62
      → (single_payload frame dlc).1 ≡ length msg
      → slice frame ((single_payload frame dlc).0) ((single_payload frame dlc).1) ≡ msg
      → (take
            ((receive_single ports id frame dlc w).ctx.rx_total_size)
            ((receive_single ports id frame dlc w).ctx.rx_buffer)
          ≡ msg)
        × ((receive_single ports id frame dlc w).ctx.rx_addr_type ≡ w.ctx.rx_addr_type)
  unfolding receive_single
  receive_single_lem id msg frame dlc w v n e h =
      let (off, len) = single_payload frame dlc in
      let chunk = slice frame off len in
      let q = restart_rx-IsQuiet ports w v in
      let size : length chunk ≡ length msg = ap length h in
      (
        take-memcpy len ((restart_rx ports w).ctx.rx_buffer) 0 chunk
              (let c = q.rx_capacity in omega arith) (omega arith)
            ∙ h,
        restart_rx-addr ports w,
      )

  -- A message of 1 to 62 bytes that one node puts into a single frame, received by another on an
  -- identifier addressed to it, whatever that node was
  -- doing in a context that satisfies the invariant: it ends in one call of the service
  -- layer, with exactly the message as the request and the identifier's addressing type.
  pub single_round_trip :
      (id : ℕ) (msg : List ℕ) (w : World E)
      → 1 ≤ length msg
      → length msg ≤ 62
      → IsValid (w.ctx)
      → classify id ≢ addr_ignore
      → (u : World E) × (process_frame ports dispatch id ((single_frame msg).0) (wire_length msg) w
          ≡ dispatch_completed_message ports dispatch u)
        × (take (u.ctx.rx_total_size) (u.ctx.rx_buffer) ≡ msg)
        × (u.ctx.rx_addr_type ≡ classify id)
  single_round_trip id msg w lo hi v a =
      let c = single_frame-Carries msg lo hi in
      let start = put (record (w.ctx) { rx_addr_type = classify id }) w in
      let r =
        receive_single_lem id msg ((single_frame msg).0) (wire_length msg) start (ground arith) hi
          (c.0) (c.1) in
      (
        receive_single ports id ((single_frame msg).0) (wire_length msg) start,
        dispatch_single id ((single_frame msg).0) (wire_length msg) w (c.3) (c.2) a,
        r.0,
        r.1,
      )
