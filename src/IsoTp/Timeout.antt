-- ===== src/IsoTp/Timeout.antt =====
-- The transport comes to rest when no frame arrives: the timeouts and the pacing of ISO_TP_Tick.
use obd_simulator.Prelude.{
  ℕ, ◌+◌, ◌-◌, ◌/◌, ◌≡◌, ◌≢◌, ◌⊎◌, inl, inr, ◌≤◌, ◌<◌, List, [], ◌∷◌, false, length, arith, refl,
  sub32,
}
use obd_simulator.IsoTp.Context.{
  Context, TxState, rx_wait_cf, tx_idle, tx_wait_fc, tx_send_cf, Ports, World, rx_timeout_ms,
  tx_fc_timeout_ms,
}
use obd_simulator.IsoTp.Transmit.{send_next_cf, settle, advance}
use obd_simulator.IsoTp.Tick.{tick, expire_rx, expire_fc, pace_cf}
use obd_simulator.IsoTp.Invariant.{IsValid}
use obd_simulator.IsoTp.Invariant.Receive.{abort_stream_rx_lem}
use obd_simulator.IsoTp.Invariant.Frames.{tick-IsValid, expire_rx-IsValid}

-- How many ticks that find something due a transmission still takes at most.
abbrev pub ticks_left : Context → ℕ
ticks_left c = elim (c.tx_state) [
  | tx_idle ↦ 0
  | tx_wait_fc ↦ 1
  | tx_send_cf ↦ 2 + (c.tx_total_size - c.tx_sent + 62) / 63
]

-- A tick that comes at least a second after the latest event of either half.
abbrev pub IsLate : {E : Type 0} → ℕ → World E → Type 0
IsLate now w =
    (rx_timeout_ms ≤ sub32 now w.ctx.last_rx_tick)
    × (tx_fc_timeout_ms ≤ sub32 now w.ctx.last_tx_tick)

-- No reception is in progress and nothing is being sent.
pub record IsAtRest (c : Context) : Type 0 where
  pub no_reception : c.rx_state ≢ rx_wait_cf
  pub no_stream : c.stream_mode ≡ false
  pub no_transmission : c.tx_state ≡ tx_idle

TxState-cases : (s : TxState) → (s ≡ tx_idle) ⊎ (s ≡ tx_wait_fc) ⊎ (s ≡ tx_send_cf)
TxState-cases tx_idle = inl refl
TxState-cases tx_wait_fc = inr (inl refl)
TxState-cases tx_send_cf = inr (inr refl)

module _ {E : Type 0} (ports : Ports E) where
  unfoldable pub ticks : List ℕ → World E → World E
  ticks [] w = w
  ticks (now ∷ nows) w = ticks nows (tick ports now w)

  abbrev pub AllLate : List ℕ → World E → Type 0
  AllLate [] w = Unit {0}
  AllLate (now ∷ nows) w = IsLate now w × AllLate nows (tick ports now w)

  send_next_cf-left :
      (w : World E)
      → IsValid (w.ctx)
      → w.ctx.tx_state ≡ tx_send_cf
      → ticks_left (send_next_cf ports w).ctx < ticks_left (w.ctx)
  unfolding send_next_cf settle advance
  send_next_cf-left w v e = ground arith

  send_next_cf-fields :
      (w : World E)
      → ((send_next_cf ports w).ctx.tx_stmin ≡ w.ctx.tx_stmin)
        × ((send_next_cf ports w).ctx.rx_state ≡ w.ctx.rx_state)
        × ((send_next_cf ports w).ctx.stream_mode ≡ w.ctx.stream_mode)
  unfolding send_next_cf settle advance
  send_next_cf-fields w = ground arith

  expire_rx-late :
      (now : ℕ) (w : World E)
      → IsValid (w.ctx)
      → rx_timeout_ms ≤ sub32 now w.ctx.last_rx_tick
      → ((expire_rx ports now w).ctx.rx_state ≢ rx_wait_cf)
        × ((expire_rx ports now w).ctx.stream_mode ≡ false)
        × ((expire_rx ports now w).ctx.tx_state ≡ w.ctx.tx_state)
        × ((expire_rx ports now w).ctx.last_tx_tick ≡ w.ctx.last_tx_tick)
        × ((expire_rx ports now w).ctx.tx_stmin ≡ w.ctx.tx_stmin)
        × ((expire_rx ports now w).ctx.tx_total_size ≡ w.ctx.tx_total_size)
        × ((expire_rx ports now w).ctx.tx_sent ≡ w.ctx.tx_sent)
  unfolding expire_rx
  expire_rx-late now w v h = ground (arith, abort_stream_rx_lem ports w)

  -- The two later steps of a late tick.
  sending-late :
      (now : ℕ) (w : World E)
      → IsValid (w.ctx)
      → tx_fc_timeout_ms ≤ sub32 now w.ctx.last_tx_tick
      → w.ctx.tx_stmin < 1000
      → (let w' = pace_cf ports now (expire_fc ports now w) in
          (ticks_left (w'.ctx) ≤ ticks_left (w.ctx) - 1)
          × (w'.ctx.tx_stmin ≡ w.ctx.tx_stmin)
          × (w'.ctx.rx_state ≡ w.ctx.rx_state)
          × (w'.ctx.stream_mode ≡ w.ctx.stream_mode))
  unfolding expire_fc pace_cf
  sending-late now w v h k = elim (TxState-cases (w.ctx.tx_state)) [
    | inl idle ↦ ground arith
    | inr (inl waits) ↦ ground arith
    | inr (inr sends) ↦
        let left = send_next_cf-left w v sends in let fields = send_next_cf-fields w in ground arith
  ]

  tick-late :
      (now : ℕ) (w : World E)
      → IsValid (w.ctx)
      → IsLate now w
      → w.ctx.tx_stmin < 1000
      → (let w' = tick ports now w in
          (ticks_left (w'.ctx) ≤ ticks_left (w.ctx) - 1)
          × (w'.ctx.tx_stmin ≡ w.ctx.tx_stmin)
          × (w'.ctx.rx_state ≢ rx_wait_cf)
          × (w'.ctx.stream_mode ≡ false))
  unfolding tick
  tick-late now w v h k =
      let received = expire_rx-late now w v h.0 in
      let valid = expire_rx-IsValid ports now w v in
      let sent = sending-late now (expire_rx ports now w) valid (ground arith) (ground arith) in
      ground arith

  ticks-rest :
      (nows : List ℕ) (w : World E)
      → IsValid (w.ctx)
      → w.ctx.tx_stmin < 1000
      → AllLate nows w
      → 1 ≤ length nows
      → ticks_left (w.ctx) ≤ length nows
      → IsAtRest (ticks nows w).ctx
  unfolding ticks
  ticks-rest [] w v k h one left = absurd (omega arith)
  ticks-rest (now ∷ []) w v k h one left = let late = tick-late now w v h.0 k in ground arith
  ticks-rest (now ∷ next ∷ nows) w v k h one left =
      let late = tick-late now w v h.0 k in
      ticks-rest (next ∷ nows) (tick ports now w) (tick-IsValid ports now w v) (ground arith) h.1
        (omega arith) (omega (arith, late.0))

  -- When no frame arrives, eleven ticks are enough, whatever the transport was doing in a context
  -- that satisfies its invariant and whatever the driver answers, with a separation time below a
  -- second, provided that each tick comes at least a second after the latest event of either half:
  -- then no reception is in progress, no stream is open, and nothing is being sent.
  pub ticks-IsAtRest :
      (nows : List ℕ) (w : World E)
      → IsValid (w.ctx)
      → w.ctx.tx_stmin < 1000
      → AllLate nows w
      → 11 ≤ length nows
      → IsAtRest (ticks nows w).ctx
  ticks-IsAtRest nows w v k h n =
      ticks-rest nows w v k h (omega (arith, n)) (ground (arith, v.tx_fits))
