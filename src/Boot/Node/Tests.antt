-- ===== src/Boot/Node/Tests.antt =====
-- A locked bootloader over a flash memory that never fails.
use obd_simulator.Prelude.{
  refl, ℕ, ◌≡◌, ◌≤◌, ◌⊎◌, arith, List, [], ◌∷◌, true, false, length-replicate, replicate-AreBytes,
}
use obd_simulator.Can.Ring.{initial_ring}
use obd_simulator.Session.{Session}
use obd_simulator.IsoTp.Context.{Ports, World, init_ctx, max_message_size}
use obd_simulator.Boot.Server.{Server}
use obd_simulator.Boot.Server.Keys.{IsLocked, HasRightKey, run, Event}
use obd_simulator.Boot.{bl_meta_rollback_counter}
use obd_simulator.Boot.Server.Integrity.{IsTransfer}
use obd_simulator.Boot.Server.Rollback.Driver.{Memory, flash, flash_driver, rewrites}
use obd_simulator.Boot.Node.Rollback.{run_inputs-rollback}
use obd_simulator.Boot.Node.{Node, start_session}
use obd_simulator.Boot.Node.Run.{IsNode}
use obd_simulator.Boot.Node.Locked.{
  Input, frame_read, loop_turns, AreReads, Explains, run_inputs, run_inputs-IsLocked,
  start_session_is_locked,
}

abbrev link : Ports (Unit {0})
link = record { get_tick = λ e. (0, e); add_message = λ f e. (true, e); on_stream = λ v e. e }

abbrev blank_session : Session
blank_session = record {
  session_type = 0;
  security_level = 0;
  seed = 0;
  seed_is_fresh = false;
  last_activity_tick = 0;
  fail_count = 0;
  lockout_start = 0;
  boot_tick = 0;
}

abbrev readings : ℕ → ℕ
readings i = 5

abbrev started : Server Memory
started = record {
  session = start_session readings true blank_session;
  flash = λ x. 0xFF;
  xfer_active = false;
  xfer_closed = false;
  xfer_size = 0;
  xfer_written = 0;
  xfer_block_seq = 0;
  saved_rollback = 0;
  reset_pending = false;
  outbox = [];
}

abbrev node : World (Node Memory (Unit {0}))
node = record {
  ctx = init_ctx;
  stream_sink = true;
  env = record {
    server = started;
    ring = initial_ring;
    prev_session = started.session.session_type;
    reset_at = 0;
    outside = tt;
  };
  out = [];
}

node-IsNode : IsNode node
unfolding init_ctx initial_ring
node-IsNode = record {
  buffer = record {
    capacity = length-replicate {A = ℕ} max_message_size 0;
    bytes = replicate-AreBytes max_message_size 0 (omega arith);
  };
  messages =
      let b = replicate-AreBytes 64 0 (omega arith) in (b, (b, (b, (b, (b, (b, (b, (b, tt))))))));
}

-- A request to erase the app slot, and a round of the main loop.
abbrev inputs : List Input
inputs =
    frame_read 0x7E0 12
      (0x00 ∷ 0x0B ∷ 0x34 ∷ 0x00 ∷ 0x44 ∷ 0x08 ∷ 0x00 ∷ 0x70 ∷ 0x00 ∷ 0 ∷ 0 ∷ 0x10 ∷ 0 ∷ [])
    ∷ loop_turns (λ n i. 5000) (λ i. 5000)
    ∷ []

inputs-AreReads : AreReads inputs
inputs-AreReads = omega arith

run_inputs-IsLocked_example :
    (((run_inputs flash link inputs node).env.server.flash ≡ started.flash)
      × IsLocked (run_inputs flash link inputs node).env.server)
    ⊎ ((es : List Event) × Explains initial_ring inputs es
        × ((run_inputs flash link inputs node).env.server ≡ run flash es started)
        × HasRightKey flash es started)
run_inputs-IsLocked_example =
    run_inputs-IsLocked flash link inputs node inputs-AreReads node-IsNode
      (start_session_is_locked readings true blank_session)

started-IsTransfer : IsTransfer started
started-IsTransfer = record { size_fits = omega arith; written_fits = omega arith }

run_inputs-rollback_example :
    bl_meta_rollback_counter flash started.flash
    ≤ bl_meta_rollback_counter flash (run_inputs flash link inputs node).env.server.flash
run_inputs-rollback_example =
    run_inputs-rollback flash flash_driver rewrites link inputs node inputs-AreReads node-IsNode
      started-IsTransfer refl
