-- ===== src/IsoTp/Service.antt =====
-- The transport with a service layer below it: the view that the services have of the state around
-- the transport, and what leaves it alone.
pub mod Feed
pub mod Once
use obd_simulator.Prelude.{
  ℕ, ◌≡◌, ◌≤◌, List, Bool, true, false, length, get_or, arith, refl, ◌∙◌, AreBytes,
}
use obd_simulator.Can.{AddrType}
use obd_simulator.Can.Frames.{CanFrame}
use obd_simulator.IsoTp.Context.{
  Context, Ports, World, StreamEvent, max_message_size, stamp_tx, tx_idle, tx_wait_fc, tx_send_cf,
}
use obd_simulator.IsoTp.Transmit.{
  send_single_frame, send_first_frame, send_next_cf, send_response, continue_sending, wait_more,
  process_flow_control, send_flow_control, start_segmented, advance, settle,
}
use obd_simulator.IsoTp.Receive.{Dispatch, abort_stream_rx, restart_rx, response_id}
use obd_simulator.IsoTp.Tick.{tick, expire_rx, expire_fc, pace_cf}

-- What the transport calls, seen from the services: their state is a part of the state around the
-- transport that neither the driver nor the clock nor the stream sink touches, and a request maps it
-- by `step` and leaves the receive buffer alone.
pub record Services {E S : Type 0} (ports : Ports E) (dispatch : Dispatch E) (view : E → S)
    (step : List ℕ → AddrType → S → S) : Type 0 where
  pub get_tick_view : (e : E) → view (ports.get_tick e).1 ≡ view e
  pub add_message_view : (f : CanFrame) (e : E) → view (ports.add_message f e).1 ≡ view e
  pub on_stream_view : (v : StreamEvent) (e : E) → view (ports.on_stream v e) ≡ view e
  pub dispatch_view :
      (req : List ℕ) (addr : AddrType) (w : World E)
      → view (dispatch req addr w).1.env ≡ step req addr (view (w.env))
  pub dispatch_buffer :
      (req : List ℕ) (addr : AddrType) (w : World E)
      → (dispatch req addr w).1.ctx.rx_buffer ≡ w.ctx.rx_buffer

module _ {E S : Type 0} {ports : Ports E} {dispatch : Dispatch E} {view : E → S}
    {step : List ℕ → AddrType → S → S} (services : Services ports dispatch view step) where
  open services use {get_tick_view, add_message_view, on_stream_view}

  -- The services' state, the receive buffer and the addressing type are as they were.
  pub record Apart (w w' : World E) : Type 0 where
    pub same_view : view (w'.env) ≡ view (w.env)
    pub same_buffer : w'.ctx.rx_buffer ≡ w.ctx.rx_buffer
    pub same_addr : w'.ctx.rx_addr_type ≡ w.ctx.rx_addr_type

  send_next_cf-Apart : (w : World E) → Apart w (send_next_cf ports w)
  unfolding send_next_cf settle advance
  send_next_cf-Apart w = grind (arith, get_tick_view, add_message_view)

  send_single_frame-Apart :
      (id : ℕ) (msg : List ℕ) (w : World E) → Apart w (send_single_frame ports id msg w)
  unfolding send_single_frame
  send_single_frame-Apart id msg w = grind (arith, add_message_view)

  send_first_frame-Apart :
      (id : ℕ) (msg : List ℕ) (w : World E) → Apart w (send_first_frame ports id msg w)
  unfolding send_first_frame
  send_first_frame-Apart id msg w = grind (arith, get_tick_view, add_message_view)

  pub send_response-Apart :
      (id : ℕ) (msg : List ℕ) (w : World E) → Apart w (send_response ports id msg w)
  unfolding send_response start_segmented
  send_response-Apart id msg w =
      let started : World E = record w { ctx = start_segmented id msg (w.ctx) } in
      ground (arith, send_single_frame-Apart id msg w, send_first_frame-Apart id msg started)

  continue_sending-Apart :
      (bs stmin : ℕ) (w : World E) → Apart w (continue_sending ports bs stmin w)
  unfolding continue_sending
  continue_sending-Apart bs stmin w = grind (arith, get_tick_view, send_next_cf-Apart)

  wait_more-Apart : (w : World E) → Apart w (wait_more ports w)
  unfolding wait_more
  wait_more-Apart w = grind (arith, get_tick_view)

  pub process_flow_control-Apart :
      (frame : List ℕ) (w : World E) → Apart w (process_flow_control ports frame w)
  unfolding process_flow_control
  process_flow_control-Apart frame w =
      ground
        (arith, continue_sending-Apart (get_or frame 1 0) (get_or frame 2 0) w, wait_more-Apart w)

  pub send_flow_control-Apart :
      (id fs bs stmin : ℕ) (w : World E) → Apart w (send_flow_control ports id fs bs stmin w)
  unfolding send_flow_control
  send_flow_control-Apart id fs bs stmin w = grind (arith, add_message_view)

  pub abort_stream_rx-Apart : (w : World E) → Apart w (abort_stream_rx ports w)
  unfolding abort_stream_rx
  abort_stream_rx-Apart w = grind (arith, on_stream_view)

  pub restart_rx-Apart : (w : World E) → Apart w (restart_rx ports w)
  unfolding restart_rx
  restart_rx-Apart w = ground (arith, abort_stream_rx-Apart w)

  expire_rx-Apart : (now : ℕ) (w : World E) → Apart w (expire_rx ports now w)
  unfolding expire_rx
  expire_rx-Apart now w = ground (arith, abort_stream_rx-Apart w)

  expire_fc-Apart : (now : ℕ) (w : World E) → Apart w (expire_fc ports now w)
  unfolding expire_fc
  expire_fc-Apart now w = ground arith

  pace_cf-Apart : (now : ℕ) (w : World E) → Apart w (pace_cf ports now w)
  unfolding pace_cf
  pace_cf-Apart now w = ground (arith, send_next_cf-Apart w)

  pub tick-Apart : (now : ℕ) (w : World E) → Apart w (tick ports now w)
  unfolding tick
  tick-Apart now w =
      let w' = expire_rx ports now w in
      let w'' = expire_fc ports now w' in
      ground (arith, expire_rx-Apart now w, expire_fc-Apart now w', pace_cf-Apart now w'')
