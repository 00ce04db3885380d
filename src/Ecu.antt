-- ===== src/Ecu.antt =====
-- The application as a whole: the services of Core/Src/uds_service.c as what the transport of
-- Core/Src/iso_tp.c calls when a request is complete (`dispatch_completed_message`), as vCanRxTask
-- of Core/Src/main.c runs them on a received frame, and the round of vMainTask with the transport.
pub mod Answer
pub mod Run
pub mod Invariant
mod Tests
use obd_simulator.Prelude.{ℕ, ◌+◌, List, [], ◌∷◌, Bool, not, ◌==◌}
use obd_simulator.Can.{can_id_physical_resp}
use obd_simulator.Can.Frames.{CanFrame}
use obd_simulator.IsoTp.Context.{Ports, World, Output, sent, notified}
use obd_simulator.IsoTp.Transmit.{send_response}
use obd_simulator.IsoTp.Receive.{Dispatch, process_frame}
use obd_simulator.IsoTp.Tick.{tick}
use obd_simulator.Uds.Periodic.{periodic_tick}
use obd_simulator.Task.{simulate, tick_session}
use obd_simulator.Uds.{App}
use obd_simulator.Uds.Dispatch.{dispatch_request}

-- The state around the transport: the services', and the driver's and clock's, of type `D`.
pub record Device (D : Type 0) : Type 0 where
  pub app : App
  pub outside : D

module _ {D : Type 0} where
  -- The driver, the clock and the stream sink do not touch the services.
  abbrev pub device_ports : Ports D → Ports (Device D)
  device_ports ports = record {
    get_tick = λ e. let (t, d) = ports.get_tick e.outside in (t, record e { outside = d });
    add_message =
        λ f e. let (ok, d) = ports.add_message f e.outside in (ok, record e { outside = d });
    on_stream = λ v e. record e { outside = ports.on_stream v e.outside };
  }

  -- UDS_DispatchRequest, as the transport calls it.
  abbrev pub serve : (ℕ → ℕ) → (ℕ → ℕ) → Dispatch (Device D)
  serve mem tick request addr w =
      let (response, app') = dispatch_request mem tick request addr w.env.app in
      (response, record w { env = record (w.env) { app = app' } })

  -- ISO_TP_ProcessFrame in the application.
  unfoldable pub receive_frame :
      Ports D → (ℕ → ℕ) → (ℕ → ℕ) → ℕ → List ℕ → ℕ → World (Device D) → World (Device D)
  receive_frame ports mem tick = process_frame (device_ports ports) (serve mem tick)

  abbrev pub put_app : App → World (Device D) → World (Device D)
  put_app a w = record w { env = record (w.env) { app = a } }

  -- The calls of ISO_TP_SendResponse in UDS_PeriodicTick.
  unfoldable pub send_each : Ports D → List (List ℕ) → World (Device D) → World (Device D)
  send_each ports [] w = w
  send_each ports (frame ∷ frames) w =
      send_each ports frames (send_response (device_ports ports) can_id_physical_resp frame w)

  -- A round of vMainTask up to the reset; true if it ends in NVIC_SystemReset.
  unfoldable pub main_round :
      Ports D → (ℕ → ℕ) → (ℕ → ℕ) → ℕ → World (Device D) → Bool × World (Device D)
  unfolding send_each
  main_round ports mem readings now w =
      let ticked = tick (device_ports ports) now (put_app (simulate (w.env.app)) w) in
      let (frames, a) = periodic_tick mem (ticked.env.app) in
      let reported = send_each ports frames (put_app a ticked) in
      let a' = tick_session readings (reported.env.app) in
      (not (a'.soft_reset == 0), put_app (record a' { soft_reset = 0 }) reported)

-- The frames handed to the driver, latest first.
unfoldable pub sent_frames : List Output → List CanFrame
sent_frames [] = []
sent_frames (sent f ok ∷ out) = f ∷ sent_frames out
sent_frames (notified v ∷ out) = sent_frames out
