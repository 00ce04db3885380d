-- ===== src/Ecu/Tests.antt =====
-- A request in one frame to the application, and its answer.
use obd_simulator.Prelude.{
  replicate-AreBytes, ℕ, ◌≡◌, ◌≢◌, List, [], ◌∷◌, ◌++◌, refl, ap, arith, true, false,
  length-replicate, length,
}
use obd_simulator.Can.{classify, addr_ignore, addr_functional}
use obd_simulator.Session.{Session}
use obd_simulator.Boot.{Handoff}
use obd_simulator.Obd2.{SimState}
use obd_simulator.Obd2.Dtc.{initial_memory}
use obd_simulator.IsoTp.Context.{Ports, World, init_ctx, max_message_size}
use obd_simulator.IsoTp.Transmit.{single_frame}
use obd_simulator.IsoTp.Invariant.{IsValid}
use obd_simulator.IsoTp.RoundTrip.Single.{wire_length}
use obd_simulator.Uds.{App, initial_app}
use obd_simulator.Uds.Control.{handle_tester_present}
use obd_simulator.Uds.Dispatch.{dispatch_request, serve_request, serve_open, suppress, is_ignored}
use obd_simulator.Ecu.{Device, receive_frame, sent_frames}
use obd_simulator.IsoTp.Service.Feed.{HoldsBytes}
use obd_simulator.Task.{Event, run}
use obd_simulator.Task.Run.{initial_app-IsApp}
use obd_simulator.Ecu.Run.{
  Input, frame_arrives, task_turns, AreFrames, Explains, run_inputs, run_inputs-refines,
}
use obd_simulator.Ecu.Invariant.{IsEcu, run_inputs-IsEcu}
use obd_simulator.Ecu.Answer.{answer_frames, receive_frame-answers}

abbrev link : Ports (Unit {0})
link = record { get_tick = λ e. (0, e); add_message = λ f e. (true, e); on_stream = λ v e. e }

abbrev zeros : ℕ → ℕ
zeros x = 0

abbrev at : ℕ → ℕ → ℕ
at t i = t

abbrev start_session : Session
start_session = record {
  session_type = 0x01;
  security_level = 0x00;
  seed = 0;
  seed_is_fresh = false;
  last_activity_tick = 0;
  fail_count = 0;
  lockout_start = 0;
  boot_tick = 0;
}

abbrev start_sim : SimState
start_sim = record {
  engine_rpm = 800;
  coolant_temp = 80;
  vehicle_speed = 0;
  rpm_direction = false;
  temp_direction = false;
  speed_direction = false;
}

abbrev no_handoff : Handoff
no_handoff = record { magic = 0; reason = 0 }

abbrev start : App
start = initial_app start_session start_sim initial_memory no_handoff

abbrev node : World (Device (Unit {0}))
node = record {
  ctx = init_ctx;
  stream_sink = false;
  env = record { app = start; outside = tt };
  out = [];
}

abbrev tester_present : List ℕ
tester_present = 0x3E ∷ 0x00 ∷ []

node-IsValid : IsValid node.ctx
unfolding init_ctx
node-IsValid = ground (arith, length-replicate {A = ℕ} max_message_size 0)

broadcast : classify 0x7DF ≡ addr_functional
unfolding classify
broadcast = refl

taken : classify 0x7DF ≢ addr_ignore
unfolding classify
taken e = ground arith

tester_present_answer :
    (dispatch_request zeros (at 100) tester_present (classify 0x7DF) start).0 ≡ 0x7E ∷ 0x00 ∷ []
unfolding dispatch_request serve_request serve_open handle_tester_present suppress is_ignored
    classify
tester_present_answer = refl

receive_frame-answers_example :
    ((receive_frame link zeros
        (at 100)
        0x7DF
        (single_frame tester_present).0
        (wire_length tester_present)
        node).env.app
      ≡ (dispatch_request zeros (at 100) tester_present (classify 0x7DF) start).1)
    × (sent_frames
          (receive_frame link zeros
            (at 100)
            0x7DF
            (single_frame tester_present).0
            (wire_length tester_present)
            node).out
        ≡ answer_frames (dispatch_request zeros (at 100) tester_present (classify 0x7DF) start).0
          ++ sent_frames [])
receive_frame-answers_example =
    receive_frame-answers link zeros (at 100) 0x7DF tester_present node (omega arith) (omega arith)
      node-IsValid taken (omega (arith, ap length tester_present_answer))

-- A frame, a round of the main task, and the same frame on an identifier of another node.
abbrev inputs : List Input
inputs =
    frame_arrives zeros (at 100) 0x7DF (single_frame tester_present).0 8
    ∷ task_turns zeros (at 110) 110
    ∷ frame_arrives zeros (at 120) 0x123 (single_frame tester_present).0 8
    ∷ []

inputs-AreFrames : AreFrames inputs
unfolding single_frame
inputs-AreFrames = omega arith

node-HoldsBytes : HoldsBytes node.ctx
unfolding init_ctx
node-HoldsBytes = record {
  capacity = length-replicate {A = ℕ} max_message_size 0;
  bytes = replicate-AreBytes max_message_size 0 (omega arith);
}

node-IsEcu : IsEcu node
node-IsEcu = record {
  transport = node-IsValid;
  buffer = node-HoldsBytes.bytes;
  services = initial_app-IsApp start_session start_sim no_handoff;
}

run_inputs-refines_example :
    (es : List Event) × Explains inputs es
    × ((run_inputs link inputs node).env.app ≡ (run es start).1)
    × HoldsBytes (run_inputs link inputs node).ctx
run_inputs-refines_example = run_inputs-refines link inputs node inputs-AreFrames node-HoldsBytes

run_inputs-IsEcu_example : IsEcu (run_inputs link inputs node)
run_inputs-IsEcu_example = run_inputs-IsEcu link inputs node inputs-AreFrames node-IsEcu
