-- ===== src/Ecu/Invariant.antt =====
-- What every run of the whole application keeps: the transport's invariant and the services'.
use obd_simulator.Prelude.{ℕ, List, [], ◌∷◌, AreBytes, get_or-AreBytes}
use obd_simulator.Can.{can_id_physical_resp}
use obd_simulator.IsoTp.Context.{Ports, World}
use obd_simulator.IsoTp.Tick.{tick}
use obd_simulator.IsoTp.Invariant.{IsValid, send_response-IsValid}
use obd_simulator.IsoTp.Invariant.Receive.{KeepsTransport}
use obd_simulator.IsoTp.Invariant.Frames.{process_frame-IsValid, tick-IsValid}
use obd_simulator.IsoTp.Service.Feed.{HoldsBytes}
use obd_simulator.Uds.Periodic.{periodic_tick}
use obd_simulator.Uds.Shape.{IsApp}
use obd_simulator.Task.{Event, simulate}
use obd_simulator.Task.Run.{HasBytes, run-IsApp}
use obd_simulator.Ecu.{Device, device_ports, serve, put_app, send_each, receive_frame, main_round}
use obd_simulator.Ecu.Run.{
  Input, frame_arrives, task_turns, AreFrames, Explains, nothing, unseen, asked, turned, run_inputs,
  handle_input, run_inputs-refines,
}

pub record IsEcu {D : Type 0} (w : World (Device D)) : Type 0 where
  pub transport : IsValid (w.ctx)
  pub buffer : AreBytes (w.ctx.rx_buffer)
  pub services : IsApp (w.env.app)

Explains-HasBytes : {ins : List Input} {es : List Event} → Explains ins es → HasBytes es
Explains-HasBytes nothing = tt
Explains-HasBytes (unseen x) = Explains-HasBytes x
Explains-HasBytes (asked req bs short known x) = (bs, Explains-HasBytes x)
Explains-HasBytes (turned x) = Explains-HasBytes x

module _ {D : Type 0} (ports : Ports D) where
  serve-KeepsTransport : (mem readings : ℕ → ℕ) → KeepsTransport (serve {D = D} mem readings)
  serve-KeepsTransport mem readings req addr w v s = (v, s)

  send_each-IsValid :
      (frames : List (List ℕ)) (w : World (Device D))
      → IsValid (w.ctx)
      → IsValid ((send_each ports frames w).ctx)
  unfolding send_each
  send_each-IsValid [] w v = v
  send_each-IsValid (f ∷ fs) w v =
      send_each-IsValid fs _ (send_response-IsValid (device_ports ports) can_id_physical_resp f w v)

  handle_input-IsValid :
      (i : Input) (w : World (Device D))
      → AreFrames (i ∷ [])
      → IsValid (w.ctx)
      → IsValid ((handle_input ports i w).ctx)
  unfolding handle_input receive_frame main_round
  handle_input-IsValid (frame_arrives mem readings id bytes dlc) w b v =
      process_frame-IsValid (device_ports ports) (serve mem readings)
        (serve-KeepsTransport mem readings) id bytes dlc w (λ i. get_or-AreBytes bytes i b.0) v
  handle_input-IsValid (task_turns mem readings now) w b v =
      let t = tick (device_ports ports) now (put_app (simulate (w.env.app)) w) in
      let (frames, a) = periodic_tick mem (t.env.app) in
      send_each-IsValid frames (put_app a t) (tick-IsValid (device_ports ports) now _ v)

  run_inputs-IsValid :
      (ins : List Input) (w : World (Device D))
      → AreFrames ins
      → IsValid (w.ctx)
      → IsValid ((run_inputs ports ins w).ctx)
  unfolding run_inputs
  run_inputs-IsValid [] w b v = v
  run_inputs-IsValid (frame_arrives mem readings id bytes dlc ∷ ins) w b v =
      run_inputs-IsValid ins _ b.1
        (handle_input-IsValid (frame_arrives mem readings id bytes dlc) w (b.0, tt) v)
  run_inputs-IsValid (task_turns mem readings now ∷ ins) w b v =
      run_inputs-IsValid ins _ b (handle_input-IsValid (task_turns mem readings now) w tt v)

  -- Whatever frames of bytes come, on whatever identifiers and of whatever lengths, and however often
  -- the main task goes round between them: the transport's invariant, the bytes in its receive buffer
  -- and the services' invariant all hold at the end, if they hold at the start.
  pub run_inputs-IsEcu :
      (ins : List Input) (w : World (Device D))
      → AreFrames ins
      → IsEcu w
      → IsEcu (run_inputs ports ins w)
  run_inputs-IsEcu ins w b v =
      let valid = run_inputs-IsValid ins w b v.transport in
      let start : HoldsBytes (w.ctx) = record {
        capacity = v.transport.rx_capacity;
        bytes = v.buffer;
      } in
      let (es, explained, same, holds) = run_inputs-refines ports ins w b start in
      record {
        transport = valid;
        buffer = holds.bytes;
        services = rw same (run-IsApp es (w.env.app) (Explains-HasBytes explained) v.services).1;
      }
