-- ===== src/Ecu/Run.antt =====
-- Runs of the whole application, over received frames and rounds of the main task, against the runs
-- of its services.
use obd_simulator.Prelude.{ℕ, ◌≡◌, ◌≢◌, ◌≤◌, List, [], ◌∷◌, length, arith, refl, ap, ◌∙◌, AreBytes}
use obd_simulator.Can.{addr_ignore, classify, can_id_physical_resp}
use obd_simulator.IsoTp.Context.{Ports, World, max_message_size}
use obd_simulator.IsoTp.Transmit.{send_response}
use obd_simulator.IsoTp.Tick.{tick}
use obd_simulator.IsoTp.Service.{Services, send_response-Apart, tick-Apart}
use obd_simulator.IsoTp.Service.Feed.{HoldsBytes, untouched, served}
use obd_simulator.IsoTp.Service.Once.{process_frame-Handled}
use obd_simulator.Uds.Periodic.{periodic_tick}
use obd_simulator.Uds.Dispatch.{dispatch_request}
use obd_simulator.Task.{simulate, tick_session, Event, request, round, handle_event, run}
use obd_simulator.Task.{main_round as services_round}
use obd_simulator.Ecu.{Device, device_ports, serve, put_app, send_each, receive_frame, main_round}

-- What happens to the application: a frame comes (identifier, bytes, length), or the main task goes
-- round; with the memory and the readings of the tick counter at that time.
pub data Input : Type 0 where
  frame_arrives : (mem readings : ℕ → ℕ) (id : ℕ) → List ℕ → (dlc : ℕ) → Input
  task_turns : (mem readings : ℕ → ℕ) (now : ℕ) → Input

-- The frames of a sequence of inputs consist of bytes.
abbrev pub AreFrames : List Input → Type 0
AreFrames [] = Unit {0}
AreFrames (frame_arrives mem readings id bytes dlc ∷ ins) = AreBytes bytes × AreFrames ins
AreFrames (task_turns mem readings now ∷ ins) = AreFrames ins

-- The services see each round, and for a frame at most one request, of bytes, that is addressed to
-- this node as the frame's identifier says, in the order of the inputs.
pub data Explains : List Input → List Event → Type 0 where
  nothing : Explains [] []
  unseen :
      {mem readings : ℕ → ℕ} {id : ℕ} {bytes : List ℕ} {dlc : ℕ} {ins : List Input}
      {es : List Event}
      → Explains ins es
      → Explains (frame_arrives mem readings id bytes dlc ∷ ins) es
  asked :
      {mem readings : ℕ → ℕ} {id : ℕ} {bytes : List ℕ} {dlc : ℕ} {ins : List Input}
      {es : List Event} (req : List ℕ)
      → AreBytes req
      → length req ≤ max_message_size
      → classify id ≢ addr_ignore
      → Explains ins es
      → Explains
          (frame_arrives mem readings id bytes dlc ∷ ins)
          (request mem readings req (classify id) ∷ es)
  turned :
      {mem readings : ℕ → ℕ} {now : ℕ} {ins : List Input} {es : List Event}
      → Explains ins es
      → Explains (task_turns mem readings now ∷ ins) (round mem readings ∷ es)

module _ {D : Type 0} (ports : Ports D) where
  unfoldable pub handle_input : Input → World (Device D) → World (Device D)
  handle_input (frame_arrives mem readings id bytes dlc) w =
      receive_frame ports mem readings id bytes dlc w
  handle_input (task_turns mem readings now) w = (main_round ports mem readings now w).1

  unfoldable pub run_inputs : List Input → World (Device D) → World (Device D)
  unfolding handle_input
  run_inputs [] w = w
  run_inputs (i ∷ ins) w = run_inputs ins (handle_input i w)

  pub device-Services :
      (mem readings : ℕ → ℕ)
      → Services
          (device_ports ports)
          (serve mem readings)
          (λ e. e.app)
          (λ req addr a. (dispatch_request mem readings req addr a).1)
  device-Services mem readings = record {
    get_tick_view = λ e. refl;
    add_message_view = λ f e. refl;
    on_stream_view = λ v e. refl;
    dispatch_view = λ req addr w. refl;
    dispatch_buffer = λ req addr w. refl;
  }

  -- A round of the main task, as the services see it.
  send_each-app :
      (mem readings : ℕ → ℕ) (frames : List (List ℕ)) (w : World (Device D))
      → ((send_each ports frames w).env.app ≡ w.env.app)
        × ((send_each ports frames w).ctx.rx_buffer ≡ w.ctx.rx_buffer)
  unfolding send_each
  send_each-app mem readings [] w = (refl, refl)
  send_each-app mem readings (frame ∷ frames) w =
      let sent = send_response (device_ports ports) can_id_physical_resp frame w in
      let apart = send_response-Apart (device-Services mem readings) can_id_physical_resp frame w in
      let later = send_each-app mem readings frames sent in
      (later.0 ∙ apart.same_view, later.1 ∙ apart.same_buffer)

  main_round-app :
      (mem readings : ℕ → ℕ) (now : ℕ) (w : World (Device D))
      → ((main_round ports mem readings now w).1.env.app
          ≡ (handle_event (round mem readings) (w.env.app)).1)
        × ((main_round ports mem readings now w).1.ctx.rx_buffer ≡ w.ctx.rx_buffer)
  unfolding main_round handle_event services_round
  main_round-app mem readings now w =
      let services = device-Services mem readings in
      let simulated = put_app (simulate (w.env.app)) w in
      let t = tick (device_ports ports) now simulated in
      let ticked = tick-Apart services now simulated in
      let (frames, a) = periodic_tick mem (t.env.app) in
      let sent = send_each-app mem readings frames (put_app a t) in
      let same : (send_each ports frames (put_app a t)).env.app
          ≡ (periodic_tick mem (simulate (w.env.app))).1 =
        sent.0 ∙ ap (λ x. (periodic_tick mem x).1) ticked.same_view in
      (
        ap (λ x. record (tick_session readings x) { soft_reset = 0 }) same,
        sent.1 ∙ ticked.same_buffer,
      )

  -- Whatever frames of bytes come, on whatever identifiers and of whatever lengths, and however often
  -- the main task goes round between them, from a receive buffer of its size that holds bytes: the
  -- services end in the state that some sequence of requests and rounds brings them to, which has
  -- the rounds in their places, for a frame at most one request, and no request but for a frame. Such
  -- a request has at most 512 bytes and is addressed to this node as the frame's identifier says.
  pub run_inputs-refines :
      (ins : List Input) (w : World (Device D))
      → AreFrames ins
      → HoldsBytes (w.ctx)
      → (es : List Event) × Explains ins es
        × ((run_inputs ins w).env.app ≡ (run es (w.env.app)).1)
        × HoldsBytes ((run_inputs ins w).ctx)
  unfolding run_inputs run handle_event receive_frame
  run_inputs-refines [] w b h = ([], nothing, refl, h)
  run_inputs-refines (frame_arrives mem readings id bytes dlc ∷ ins) w b h =
      let w' = receive_frame ports mem readings id bytes dlc w in
      let handled = process_frame-Handled (device-Services mem readings) id bytes dlc w b.0 h in
      let (es, explained, same, holds) = run_inputs-refines ins w' b.1 handled.holds in
      elim (handled.outcome) [
        | untouched e ↦ (es, unseen explained, same ∙ ap (λ a. (run es a).1) e, holds)
        | served req bs short known e ↦ (
          request mem readings req (classify id) ∷ es,
          asked req bs short known explained,
          same ∙ ap (λ a. (run es a).1) e,
          holds,
        )
      ]
  run_inputs-refines (task_turns mem readings now ∷ ins) w b h =
      let w' = (main_round ports mem readings now w).1 in
      let (round_app, buffer) = main_round-app mem readings now w in
      let (es, explained, same, holds) = run_inputs-refines ins w' b (ground (arith, buffer, h)) in
      (round mem readings ∷ es, turned explained, same ∙ ap (λ a. (run es a).1) round_app, holds)
