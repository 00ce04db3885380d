-- ===== src/Ecu/Answer.antt =====
-- A request in one CAN frame, and the frame that answers it.
use obd_simulator.Prelude.{
  ℕ, ◌≤◌, ◌≡◌, ◌≢◌, List, [], ◌∷◌, ◌++◌, length, take, arith, refl, ap, sym, ◌∙◌, ◌==◌,
  if◌then◌else◌,
}
use obd_simulator.Can.{addr_ignore, classify, can_id_physical_resp}
use obd_simulator.Can.Frames.{CanFrame, bytes_to_dlc}
use obd_simulator.IsoTp.Context.{Context, Ports, World, put, rx_idle}
use obd_simulator.IsoTp.Transmit.{single_frame, send_single_frame, send_response}
use obd_simulator.IsoTp.Receive.{
  response_id, abort_stream_rx, restart_rx, receive_single, dispatch_completed_message,
}
use obd_simulator.IsoTp.Invariant.{IsValid}
use obd_simulator.IsoTp.RoundTrip.Single.{
  wire_length, single_frame-Carries, dispatch_single, receive_single_lem,
}
use obd_simulator.Uds.{App}
use obd_simulator.Uds.Dispatch.{dispatch_request}
use obd_simulator.Ecu.{Device, device_ports, serve, receive_frame, sent_frames}

-- The frames that a response makes: none, or one single frame on the response identifier.
abbrev pub answer_frames : List ℕ → List CanFrame
answer_frames response =
    if length response == 0
    then []
    else record {
      identifier = can_id_physical_resp;
      data_length = bytes_to_dlc ((single_frame response).1);
      payload = (single_frame response).0;
    }
      ∷ []

module _ {D : Type 0} (ports : Ports D) (mem tick : ℕ → ℕ) where
  restart_rx-app :
      (w : World (Device D))
      → ((restart_rx (device_ports ports) w).env.app ≡ w.env.app)
        × (sent_frames (restart_rx (device_ports ports) w).out ≡ sent_frames w.out)
  unfolding restart_rx abort_stream_rx sent_frames
  restart_rx-app w = (ground arith, ground arith)

  receive_single-app :
      (id : ℕ) (frame : List ℕ) (dlc : ℕ) (w : World (Device D))
      → ((receive_single (device_ports ports) id frame dlc w).env.app ≡ w.env.app)
        × (sent_frames (receive_single (device_ports ports) id frame dlc w).out ≡ sent_frames w.out)
        × ((receive_single (device_ports ports) id frame dlc w).ctx.rx_can_id ≡ id)
  unfolding receive_single
  receive_single-app id frame dlc w = let r = restart_rx-app w in (r.0, r.1, refl)

  -- A response of one frame, sent while no request is left.
  send_response-answers :
      (response : List ℕ) (w : World (Device D))
      → length response ≤ 62
      → length response ≢ 0
      → ((send_response (device_ports ports) can_id_physical_resp response w).env.app ≡ w.env.app)
        × (sent_frames (send_response (device_ports ports) can_id_physical_resp response w).out
            ≡ answer_frames response ++ sent_frames w.out)
  unfolding send_response send_single_frame sent_frames
  send_response-answers response w h n = ground arith

  -- A complete request, served and answered.
  completed-answers :
      (u : World (Device D)) (r : List ℕ × App)
      → dispatch_request mem tick
          (take u.ctx.rx_total_size u.ctx.rx_buffer)
          u.ctx.rx_addr_type
          u.env.app
        ≡ r
      → response_id u.ctx ≡ can_id_physical_resp
      → length r.0 ≤ 62
      → ((dispatch_completed_message (device_ports ports) (serve mem tick) u).env.app ≡ r.1)
        × (sent_frames (dispatch_completed_message (device_ports ports) (serve mem tick) u).out
            ≡ answer_frames r.0 ++ sent_frames u.out)
  unfolding dispatch_completed_message response_id
  completed-answers u r e i h =
      let ended : World (Device D) = record u {
        ctx = record (u.ctx) { rx_state = rx_idle };
        env = record (u.env) { app = r.1 };
      } in
      rw (e, i) (ground (arith, send_response-answers r.0 ended h))

response_id_lem :
    (c : Context)
    → c.rx_addr_type ≡ classify c.rx_can_id
    → classify c.rx_can_id ≢ addr_ignore
    → response_id c ≡ can_id_physical_resp
unfolding response_id classify
response_id_lem c e n = ground arith

-- A request of 1 to 62 bytes in a single frame on one of the two request identifiers, received
-- whatever the transport was doing in a context that satisfies its invariant, and to which the
-- services have a response of at most 62 bytes: the services' state is what UDS_DispatchRequest
-- makes of exactly this request, addressed as the identifier says; and what is sent is exactly its
-- response, in one single frame on the identifier 0x7E8, or nothing if there is none.
pub receive_frame-answers :
    {D : Type 0} (ports : Ports D) (mem tick : ℕ → ℕ) (id : ℕ) (msg : List ℕ) (w : World (Device D))
    → 1 ≤ length msg
    → length msg ≤ 62
    → IsValid (w.ctx)
    → classify id ≢ addr_ignore
    → length (dispatch_request mem tick msg (classify id) w.env.app).0 ≤ 62
    → ((receive_frame ports mem tick id (single_frame msg).0 (wire_length msg) w).env.app
        ≡ (dispatch_request mem tick msg (classify id) w.env.app).1)
      × (sent_frames (receive_frame ports mem tick id (single_frame msg).0 (wire_length msg) w).out
          ≡ answer_frames (dispatch_request mem tick msg (classify id) w.env.app).0
            ++ sent_frames w.out)
unfolding receive_frame
receive_frame-answers {D} ports mem tick id msg w lo hi v known short =
    let c = single_frame-Carries msg lo hi in
    let frame = (single_frame msg).0 in
    let dlc = wire_length msg in
    let start : World (Device D) = put (record (w.ctx) { rx_addr_type = classify id }) w in
    let u = receive_single (device_ports ports) id frame dlc start in
    let (whole, addressed) =
      receive_single_lem (device_ports ports) (serve mem tick) id msg frame dlc start (ground arith)
        hi c.0 c.1 in
    let (same_app, same_out, same_id) = receive_single-app ports mem tick id frame dlc start in
    let r = dispatch_request mem tick msg (classify id) w.env.app in
    let served : dispatch_request mem tick (take u.ctx.rx_total_size u.ctx.rx_buffer)
          u.ctx.rx_addr_type u.env.app
        ≡ r =
      cc (whole, addressed, same_app) in
    let route : classify u.ctx.rx_can_id ≡ classify id = ap classify same_id in
    let answered =
      completed-answers ports mem tick u r served
        (response_id_lem u.ctx (addressed ∙ sym route) (λ e. known (sym route ∙ e))) short in
    let run = dispatch_single (device_ports ports) (serve mem tick) id frame dlc w c.3 c.2 known in
    rw run (answered.0, answered.1 ∙ ap (λ out. answer_frames r.0 ++ out) same_out)
