-- ===== src/IsoTp/Tick.antt =====
-- `ISO_TP_Tick` of Core/Src/iso_tp.c.
use obd_simulator.Prelude.{ℕ, leb, if◌then◌else◌, sub32}
use obd_simulator.IsoTp.Context.{
  rx_idle, rx_wait_cf, tx_wait_fc, tx_send_cf, tx_idle, Ports, World, put, rx_timeout_ms,
  tx_fc_timeout_ms,
}
use obd_simulator.IsoTp.Transmit.{send_next_cf}
use obd_simulator.IsoTp.Receive.{abort_stream_rx, set_rx_state}

module _ {E : Type 0} (ports : Ports E) where
  -- Its three steps, in order.
  unfoldable pub expire_rx : ℕ → World E → World E
  expire_rx now w = elim (w.ctx.rx_state) [
    | rx_wait_cf ↦
        if leb rx_timeout_ms (sub32 now (w.ctx.last_rx_tick))
        then set_rx_state rx_idle (abort_stream_rx ports w)
        else w
    | _ ↦ w
  ]

  unfoldable pub expire_fc : ℕ → World E → World E
  expire_fc now w = elim (w.ctx.tx_state) [
    | tx_wait_fc ↦
        if leb tx_fc_timeout_ms (sub32 now (w.ctx.last_tx_tick))
        then put (record (w.ctx) { tx_state = tx_idle }) w
        else w
    | _ ↦ w
  ]

  unfoldable pub pace_cf : ℕ → World E → World E
  pace_cf now w = elim (w.ctx.tx_state) [
    | tx_send_cf ↦
        if leb (w.ctx.tx_stmin) (sub32 now (w.ctx.last_tx_tick)) then send_next_cf ports w else w
    | _ ↦ w
  ]

  unfoldable pub tick : ℕ → World E → World E
  unfolding expire_rx expire_fc pace_cf
  tick now w = pace_cf now (expire_fc now (expire_rx now w))
