-- ===== src/IsoTp/Service/Feed.antt =====
-- What a frame puts into the receive buffer: bytes.
use obd_simulator.Prelude.{
  ℕ, ◌+◌, ◌-◌, ◌≡◌, ◌≢◌, ◌≤◌, min, List, length, length-memcpy, drop, arith, ◌∙◌, u8, u32, sub32,
  memcpy, AreBytes, take-AreBytes, drop-AreBytes, memcpy-AreBytes,
}
use obd_simulator.Can.{AddrType, addr_ignore}
use obd_simulator.IsoTp.Context.{Context, Ports, World, max_message_size}
use obd_simulator.IsoTp.Transmit.{send_flow_control}
use obd_simulator.IsoTp.Receive.{
  Dispatch, slice, single_payload, first_header, first_payload, restart_rx, receive_single,
  first_stream, first_buffer, accept_first_frame, process_first_frame, store_chunk, take_chunk,
  start_reception,
}
use obd_simulator.IsoTp.Service.{Services, Apart, send_flow_control-Apart, restart_rx-Apart}

-- The receive buffer has its size and holds bytes.
pub record HoldsBytes (c : Context) : Type 0 where
  pub capacity : length c.rx_buffer ≡ max_message_size
  pub bytes : AreBytes c.rx_buffer

-- The services' state before and after: as it was, or mapped by one request
-- that was addressed to this node.
pub data Outcome {S : Type 0} (step : List ℕ → AddrType → S → S) (addr : AddrType) (s s' : S)
    : Type 0 where
  untouched : s' ≡ s → Outcome step addr s s'
  served :
      (req : List ℕ)
      → AreBytes req
      → length req ≤ max_message_size
      → addr ≢ addr_ignore
      → s' ≡ step req addr s
      → Outcome step addr s s'

slice-AreBytes : (frame : List ℕ) (off n : ℕ) → AreBytes frame → AreBytes (slice frame off n)
slice-AreBytes frame off n b = take-AreBytes n (drop off frame) (drop-AreBytes off frame b)

module _ {E S : Type 0} {ports : Ports E} {dispatch : Dispatch E} {view : E → S}
    {step : List ℕ → AddrType → S → S} (services : Services ports dispatch view step) where
  open services use {get_tick_view, add_message_view, on_stream_view}

  -- Only bytes were added to the buffer, and the services were not called.
  pub record Fed (w w' : World E) : Type 0 where
    pub same_view : view (w'.env) ≡ view (w.env)
    pub same_addr : w'.ctx.rx_addr_type ≡ w.ctx.rx_addr_type
    pub holds : HoldsBytes (w'.ctx)

  memcpy-HoldsBytes :
      (c : Context) (off : ℕ) (src : List ℕ)
      → HoldsBytes c
      → AreBytes src
      → HoldsBytes (record c { rx_buffer = memcpy c.rx_buffer off src })
  memcpy-HoldsBytes c off src h b = record {
    capacity = length-memcpy c.rx_buffer off src ∙ h.capacity;
    bytes = memcpy-AreBytes c.rx_buffer off src h.bytes b;
  }

  pub receive_single-Fed :
      (id : ℕ) (frame : List ℕ) (dlc : ℕ) (w : World E)
      → AreBytes frame
      → HoldsBytes (w.ctx)
      → Fed w (receive_single ports id frame dlc w)
  unfolding receive_single
  receive_single-Fed id frame dlc w b h =
      let (off, n) = single_payload frame dlc in
      let apart = restart_rx-Apart services w in
      let copied =
        memcpy-HoldsBytes (restart_rx ports w).ctx 0 (slice frame off n) (ground (arith, apart, h))
          (slice-AreBytes frame off n b) in
      record {
        same_view = apart.same_view;
        same_addr = apart.same_addr;
        holds = record { capacity = copied.capacity; bytes = copied.bytes };
      }

  pub Apart-Fed : {w w' : World E} → HoldsBytes (w.ctx) → Apart services w w' → Fed w w'
  Apart-Fed h a = record {
    same_view = a.same_view;
    same_addr = a.same_addr;
    holds = ground (arith, a, h);
  }

  pub Fed-trans : {u v w : World E} → Fed u v → Fed v w → Fed u w
  Fed-trans f g = record {
    same_view = g.same_view ∙ f.same_view;
    same_addr = g.same_addr ∙ f.same_addr;
    holds = g.holds;
  }

  first_stream-Fed :
      (id : ℕ) (frame : List ℕ) (total off n : ℕ) (w : World E)
      → HoldsBytes (w.ctx)
      → Fed w (first_stream ports id frame total off n w)
  unfolding first_stream send_flow_control start_reception
  first_stream-Fed id frame total off n w h =
      Apart-Fed h (grind (arith, get_tick_view, add_message_view, on_stream_view))

  first_buffer-Fed :
      (id : ℕ) (frame : List ℕ) (total off n : ℕ) (w : World E)
      → AreBytes frame
      → HoldsBytes (w.ctx)
      → Fed w (first_buffer ports id frame total off n w)
  unfolding first_buffer send_flow_control start_reception
  first_buffer-Fed id frame total off n w b h =
      let copied =
        memcpy-HoldsBytes (w.ctx) 0 (slice frame off n) h (slice-AreBytes frame off n b) in
      record {
        same_view = grind (arith, get_tick_view, add_message_view);
        same_addr = ground arith;
        holds = record { capacity = copied.capacity; bytes = copied.bytes };
      }

  accept_first_frame-Fed :
      (id : ℕ) (frame : List ℕ) (dlc : ℕ) (w : World E)
      → AreBytes frame
      → HoldsBytes (w.ctx)
      → Fed w (accept_first_frame ports id frame dlc w)
  unfolding accept_first_frame
  accept_first_frame-Fed id frame dlc w b h =
      let (total, off) = first_header frame in
      let n = first_payload dlc off total in
      ground (
        arith,
        Apart-Fed h (send_flow_control-Apart services (u32 (id + 8)) 2 0 0 w),
        first_stream-Fed id frame total off n w h,
        first_buffer-Fed id frame total off n w b h,
      )

  pub process_first_frame-Fed :
      (id : ℕ) (frame : List ℕ) (dlc : ℕ) (w : World E)
      → AreBytes frame
      → HoldsBytes (w.ctx)
      → Fed w (process_first_frame ports id frame dlc w)
  unfolding process_first_frame
  process_first_frame-Fed id frame dlc w b h =
      let restarted = Apart-Fed h (restart_rx-Apart services w) in
      let accepted =
        Fed-trans restarted (accept_first_frame-Fed id frame dlc _ b restarted.holds) in
      ground arith

  pub take_chunk-Fed :
      (frame : List ℕ) (dlc : ℕ) (w : World E)
      → AreBytes frame
      → HoldsBytes (w.ctx)
      → Fed w (take_chunk ports frame dlc w)
  unfolding take_chunk store_chunk
  take_chunk-Fed frame dlc w b h =
      let n = min (u8 (dlc - 1)) (sub32 (w.ctx.rx_total_size) (w.ctx.rx_received)) in
      let chunk = slice frame 1 n in
      let copied =
        memcpy-HoldsBytes (w.ctx) (w.ctx.rx_received) chunk h (slice-AreBytes frame 1 n b) in
      record {
        same_view = grind (arith, get_tick_view, on_stream_view);
        same_addr = ground arith;
        holds = ground (arith, copied, h);
      }
