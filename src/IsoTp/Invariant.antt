-- ===== src/IsoTp/Invariant.antt =====
-- The representation invariant of `ISO_TP_Context_t`, kept by every operation of iso_tp.c.
pub mod Receive
pub mod Frames
use obd_simulator.Prelude.{
  ℕ, ◌+◌, ◌-◌, ◌*◌, ◌^◌, ◌≤◌, ◌<◌, ◌≡◌, List, Bool, true, false, length, length-memcpy, take, drop,
  get_or, refl, arith, min, if◌then◌else◌,
}
use obd_simulator.IsoTp.Context.{
  Context, RxState, rx_idle, rx_wait_cf, tx_idle, Ports, World, init, max_message_size,
}
use obd_simulator.IsoTp.Transmit.{
  advance, settle, start_segmented, single_frame, first_frame, send_single_frame, send_first_frame,
  send_next_cf, send_response, continue_sending, wait_more, process_flow_control, send_flow_control,
  cf_payload,
}

pub record IsValid (c : Context) : Type 0 where
  pub rx_capacity : length c.rx_buffer ≡ max_message_size
  pub tx_capacity : length c.tx_buffer ≡ max_message_size
  pub rx_seq_range : c.rx_expected_seq < 16
  pub tx_seq_range : c.tx_seq < 16
  pub rx_word : c.rx_total_size < 4294967296
  pub rx_progress : c.rx_state ≡ rx_wait_cf → c.rx_received ≤ c.rx_total_size
  pub rx_fits : c.rx_state ≡ rx_wait_cf → c.stream_mode ≡ false → c.rx_total_size ≤ max_message_size
  pub stream_open : c.stream_mode ≡ true → c.rx_state ≡ rx_wait_cf
  pub tx_fits : c.tx_total_size ≤ max_message_size
  pub tx_progress : c.tx_sent ≤ c.tx_total_size

pub settle-IsValid : {c : Context} → IsValid c → IsValid (settle c)
unfolding settle
settle-IsValid v = ground arith

pub advance-IsValid : {c : Context} → IsValid c → IsValid (advance c)
unfolding advance
advance-IsValid v = ground arith

module _ {E : Type 0} (ports : Ports E) where
  pub send_next_cf-IsValid : (w : World E) → IsValid (w.ctx) → IsValid ((send_next_cf ports w).ctx)
  unfolding send_next_cf
  send_next_cf-IsValid w v = grind (arith, settle-IsValid, advance-IsValid)

  pub send_single_frame-ctx :
      (id : ℕ) (msg : List ℕ) (w : World E) → (send_single_frame ports id msg w).ctx ≡ w.ctx
  unfolding send_single_frame
  send_single_frame-ctx id msg w = ground arith

  pub send_response-IsValid :
      (id : ℕ) (msg : List ℕ) (w : World E)
      → IsValid (w.ctx)
      → IsValid ((send_response ports id msg w).ctx)
  unfolding send_response send_single_frame send_first_frame start_segmented first_frame
  send_response-IsValid id msg w v = ground (arith, length-memcpy (w.ctx.tx_buffer) 0 msg)

  pub continue_sending-IsValid :
      (bs stmin : ℕ) (w : World E)
      → IsValid (w.ctx)
      → IsValid ((continue_sending ports bs stmin w).ctx)
  unfolding continue_sending
  continue_sending-IsValid bs stmin w v = send_next_cf-IsValid _ (ground arith)

  pub wait_more-IsValid : (w : World E) → IsValid (w.ctx) → IsValid ((wait_more ports w).ctx)
  unfolding wait_more
  wait_more-IsValid w v = ground arith

  pub process_flow_control-IsValid :
      (frame : List ℕ) (w : World E)
      → IsValid (w.ctx)
      → IsValid ((process_flow_control ports frame w).ctx)
  unfolding process_flow_control
  process_flow_control-IsValid frame w v = ground (
    arith,
    continue_sending-IsValid (get_or frame 1 0) (get_or frame 2 0) w v,
    wait_more-IsValid w v,
  )

  pub send_flow_control-ctx :
      (id fs bs stmin : ℕ) (w : World E) → (send_flow_control ports id fs bs stmin w).ctx ≡ w.ctx
  unfolding send_flow_control
  send_flow_control-ctx id fs bs stmin w = refl
