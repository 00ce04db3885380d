-- ===== src/IsoTp/Service/Once.antt =====
-- What a frame makes the service layer do: at most one request, of bytes that were received.
use obd_simulator.Prelude.{
  ℕ, ◌≡◌, ◌≢◌, List, length-take, take, get_or, arith, refl, sym, ap, ◌∙◌, leb, ◌==◌, if_both,
  low_nibble, high_nibble, AreBytes, take-AreBytes,
}
use obd_simulator.Can.{AddrType, addr_ignore, addr_physical, addr_functional, classify}
use obd_simulator.IsoTp.Context.{RxState, rx_idle, rx_wait_cf, rx_complete, Ports, World, put}
use obd_simulator.IsoTp.Receive.{
  Dispatch, response_id, set_rx_state, abort_stream_rx, receive_single, take_chunk,
  dispatch_completed_message, process_single_frame, finish_reception, process_consecutive_frame,
  process_addressed, process_frame,
}
use obd_simulator.IsoTp.Service.{
  Services, send_response-Apart, process_flow_control-Apart, abort_stream_rx-Apart,
}
use obd_simulator.IsoTp.Service.Feed.{
  HoldsBytes, Outcome, untouched, served, Fed, receive_single-Fed, Apart-Fed,
  process_first_frame-Fed, take_chunk-Fed,
}

module _ {E S : Type 0} {ports : Ports E} {dispatch : Dispatch E} {view : E → S}
    {step : List ℕ → AddrType → S → S} (services : Services ports dispatch view step) where
  open services use {on_stream_view, dispatch_view, dispatch_buffer}

  -- The services were called at most once, for the address type `addr`.
  pub record Handled (addr : AddrType) (w w' : World E) : Type 0 where
    pub outcome : Outcome step addr (view (w.env)) (view (w'.env))
    pub holds : HoldsBytes (w'.ctx)

  Fed-Handled : (addr : AddrType) (w w' : World E) → Fed services w w' → Handled addr w w'
  Fed-Handled addr w w' f = record { outcome = untouched f.same_view; holds = f.holds }

  then_Handled :
      (addr : AddrType) (u v w : World E)
      → view (v.env) ≡ view (u.env)
      → Handled addr v w
      → Handled addr u w
  then_Handled addr u v w e g = record { outcome = rw (sym e) g.outcome; holds = g.holds }

  idle-Handled : (addr : AddrType) (w : World E) → HoldsBytes (w.ctx) → Handled addr w w
  idle-Handled addr w h = record { outcome = untouched refl; holds = h }

  by_state :
      (P : World E → Type 0) (s : RxState) {x y : World E}
      → P x
      → P y
      → P (elim s as (λ _. World E) [ rx_wait_cf ↦ x | _ ↦ y ])
  by_state P rx_wait_cf p q = p
  by_state P _ p q = q

  module _ (addr : AddrType) (known : addr ≢ addr_ignore) where
    dispatch_completed_message-Handled :
        (w : World E)
        → w.ctx.rx_addr_type ≡ addr
        → HoldsBytes (w.ctx)
        → Handled addr w (dispatch_completed_message ports dispatch w)
    unfolding dispatch_completed_message
    dispatch_completed_message-Handled w e h =
        let c = w.ctx in
        let req = take c.rx_total_size c.rx_buffer in
        let (response, w') = dispatch req c.rx_addr_type w in
        let ended = set_rx_state rx_idle w' in
        let answered = send_response-Apart services (response_id (ended.ctx)) response ended in
        let same : view (dispatch_completed_message ports dispatch w).env ≡ view (w'.env) =
          unfold dispatch_completed_message in ground (arith, answered) in
        let buffer : (dispatch_completed_message ports dispatch w).ctx.rx_buffer ≡ c.rx_buffer =
          unfold dispatch_completed_message in
          ground (arith, answered, dispatch_buffer req c.rx_addr_type w) in
        record {
          outcome =
              served req (take-AreBytes c.rx_total_size c.rx_buffer h.bytes)
                (omega (arith, length-take c.rx_total_size c.rx_buffer, h.capacity)) known
                (same ∙ dispatch_view req c.rx_addr_type w ∙ ap (λ a. step req a (view (w.env))) e);
          holds = ground (arith, buffer, h);
        }

    process_single_frame-Handled :
        (id : ℕ) (frame : List ℕ) (dlc : ℕ) (w : World E)
        → w.ctx.rx_addr_type ≡ addr
        → AreBytes frame
        → HoldsBytes (w.ctx)
        → Handled addr w (process_single_frame ports dispatch id frame dlc w)
    unfolding process_single_frame
    process_single_frame-Handled id frame dlc w e b h =
        let fed = receive_single-Fed services id frame dlc w b h in
        then_Handled addr w (receive_single ports id frame dlc w) _ fed.same_view
          (dispatch_completed_message-Handled _ (fed.same_addr ∙ e) fed.holds)

    finish_reception-Handled :
        (w : World E)
        → w.ctx.rx_addr_type ≡ addr
        → HoldsBytes (w.ctx)
        → Handled addr w (finish_reception ports dispatch w)
    unfolding finish_reception
    finish_reception-Handled w e h =
        let P = λ (x : World E). Handled addr w x in
        let complete = set_rx_state rx_complete w in
        if_both P (leb (w.ctx.rx_total_size) (w.ctx.rx_received))
          (λ _.
            if_both P (w.ctx.stream_mode)
              (λ _. Fed-Handled addr w _ (record {
                same_view = grind (arith, on_stream_view);
                same_addr = ground arith;
                holds = ground (arith, h);
              }))
              (λ _.
                then_Handled addr w complete _ refl
                  (dispatch_completed_message-Handled complete e (ground (arith, h)))))
          (λ _. idle-Handled addr w h)

    process_consecutive_frame-Handled :
        (frame : List ℕ) (dlc : ℕ) (w : World E)
        → w.ctx.rx_addr_type ≡ addr
        → AreBytes frame
        → HoldsBytes (w.ctx)
        → Handled addr w (process_consecutive_frame ports dispatch frame dlc w)
    unfolding process_consecutive_frame
    process_consecutive_frame-Handled frame dlc w e b h =
        let P = λ (x : World E). Handled addr w x in
        let taken = take_chunk-Fed services frame dlc w b h in
        let aborted = Apart-Fed services h (abort_stream_rx-Apart services w) in
        by_state P (w.ctx.rx_state)
          (if_both P (low_nibble (get_or frame 0 0) == w.ctx.rx_expected_seq)
            (λ _.
              then_Handled addr w (take_chunk ports frame dlc w) _ taken.same_view
                (finish_reception-Handled _ (taken.same_addr ∙ e) taken.holds))
            (λ _. Fed-Handled addr w (set_rx_state rx_idle (abort_stream_rx ports w)) (record {
              same_view = aborted.same_view;
              same_addr = aborted.same_addr;
              holds = ground (arith, aborted.holds);
            })))
          (idle-Handled addr w h)

    process_addressed-Handled :
        (id : ℕ) (frame : List ℕ) (dlc : ℕ) (w : World E)
        → w.ctx.rx_addr_type ≡ addr
        → AreBytes frame
        → HoldsBytes (w.ctx)
        → Handled addr w (process_addressed ports dispatch id frame dlc w)
    unfolding process_addressed
    process_addressed-Handled id frame dlc w e b h =
        let P = λ (x : World E). Handled addr w x in
        let pci = high_nibble (get_or frame 0 0) in
        if_both P (pci == 0x00) (λ _. process_single_frame-Handled id frame dlc w e b h)
          (λ _.
            if_both P (pci == 0x10)
              (λ _. Fed-Handled addr w _ (process_first_frame-Fed services id frame dlc w b h))
              (λ _.
                if_both P (pci == 0x20) (λ _. process_consecutive_frame-Handled frame dlc w e b h)
                  (λ _. idle-Handled addr w h)))

  -- A frame of bytes, on any identifier and of any length, has the services called at most once: their
  -- state is as it was, or what one request of at most 512 bytes makes of it, addressed as the frame's
  -- identifier says; and the receive buffer keeps its size and holds bytes.
  pub process_frame-Handled :
      (id : ℕ) (frame : List ℕ) (dlc : ℕ) (w : World E)
      → AreBytes frame
      → HoldsBytes (w.ctx)
      → Handled (classify id) w (process_frame ports dispatch id frame dlc w)
  unfolding process_frame
  process_frame-Handled id frame dlc w b h =
      let start = λ (a : AddrType). put (record (w.ctx) { rx_addr_type = a }) w in
      let addressed = λ (a : AddrType) (known : a ≢ addr_ignore).
        then_Handled a w (start a) _ refl
          (process_addressed-Handled a known id frame dlc (start a) refl b (ground (arith, h))) in
      let Q = λ (x : World E). Handled (classify id) w x in
      if_both Q (dlc == 0) (λ _. idle-Handled (classify id) w h)
        (λ _.
          if_both Q (high_nibble (get_or frame 0 0) == 0x30)
            (λ _.
              Fed-Handled (classify id) w _
                (Apart-Fed services h (process_flow_control-Apart services frame w)))
            (λ _.
              elim (classify id)
                as (λ a. Handled a w (elim a as (λ _. World E) [
                  | addr_ignore ↦ w
                  | addr_physical ↦
                      process_addressed ports dispatch id frame dlc (start addr_physical)
                  | addr_functional ↦
                      process_addressed ports dispatch id frame dlc (start addr_functional)
                ])) [
                  | addr_ignore ↦ idle-Handled addr_ignore w h
                  | addr_physical ↦ addressed addr_physical (λ e. cc)
                  | addr_functional ↦ addressed addr_functional (λ e. cc)
                ]))
