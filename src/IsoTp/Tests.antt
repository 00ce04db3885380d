-- ===== src/IsoTp/Tests.antt =====
-- A driver that takes every frame, a service that echoes, and the theorems on them.
use obd_simulator.Prelude.{
  ◌+◌, ◌≤◌, ◌<◌, leb, if◌then◌else◌, ℕ, zero, suc, ◌≡◌, ◌≢◌, refl, true, false, List, [], ◌∷◌, take,
  replicate, length-replicate, arith, get_or-replicate,
}
use obd_simulator.Can.{addr_ignore, addr_physical, classify}
use obd_simulator.IsoTp.Context.{
  Ports, World, init_ctx, tx_idle, tx_wait_fc, max_message_size, max_wft,
}
use obd_simulator.IsoTp.Transmit.{single_frame, process_flow_control}
use obd_simulator.IsoTp.Receive.{
  process_first_frame, take_chunk, Dispatch, process_frame, dispatch_completed_message,
}
use obd_simulator.IsoTp.Tick.{tick, expire_rx, expire_fc, pace_cf}
use obd_simulator.IsoTp.Timeout.{AllLate, IsAtRest, ticks, ticks-IsAtRest}
use obd_simulator.IsoTp.Invariant.{IsValid}
use obd_simulator.IsoTp.Invariant.Receive.{IsBytes, KeepsTransport}
use obd_simulator.IsoTp.Invariant.Frames.{process_frame-IsValid, tick-IsValid}
use obd_simulator.IsoTp.FlowControl.{hear, hear_waits, full_duplex, SameRx, SameTx}
use obd_simulator.IsoTp.RoundTrip.Single.{single_round_trip, wire_length}
use obd_simulator.IsoTp.RoundTrip.Transfer.{transfer, transfer_lem}

abbrev link : Ports (Unit {0})
link = record { get_tick = λ e. (0, e); add_message = λ f e. (true, e); on_stream = λ v e. e }

abbrev echo : Dispatch (Unit {0})
echo request addr w = (request, w)

abbrev node : World (Unit {0})
node = record { ctx = init_ctx; stream_sink = false; env = tt; out = [] }

node-IsValid : IsValid (node.ctx)
unfolding init_ctx
node-IsValid = ground (arith, length-replicate {A = ℕ} max_message_size 0)

node_idle : node.ctx.tx_state ≡ tx_idle
unfolding init_ctx
node_idle = refl

echo-KeepsTransport : KeepsTransport echo
echo-KeepsTransport request addr w v quiet = (v, quiet)

abbrev long_message : List ℕ
long_message = replicate 300 7

abbrev short_message : List ℕ
short_message = 0x62 ∷ 0xF1 ∷ 0x90 ∷ []

to_node : classify 0x7E0 ≡ addr_physical
unfolding classify
to_node = refl

for_node : classify 0x7E0 ≢ addr_ignore
unfolding classify
for_node e = ground arith

transfer_example :
    (u : World (Unit {0})) × (transfer link link echo 0x7E0 0x7E8 3 long_message node node
      ≡ dispatch_completed_message link echo u)
    × (take (u.ctx.rx_total_size) (u.ctx.rx_buffer) ≡ long_message)
    × (u.ctx.rx_addr_type ≡ addr_physical)
transfer_example =
    transfer_lem link (λ f e. refl) link echo 0x7E0 0x7E8 3 long_message node node to_node
      node-IsValid node-IsValid node_idle (omega (arith, length-replicate {A = ℕ} 300 7))
      (omega (arith, length-replicate {A = ℕ} 300 7))
      (omega (arith, length-replicate {A = ℕ} 300 7))
      (omega (arith, length-replicate {A = ℕ} 300 7))

single_round_trip_example :
    (u : World (Unit {0})) × (process_frame link echo 0x7E0
        (single_frame short_message).0
        (wire_length short_message)
        node
      ≡ dispatch_completed_message link echo u)
    × (take (u.ctx.rx_total_size) (u.ctx.rx_buffer) ≡ short_message)
    × (u.ctx.rx_addr_type ≡ classify 0x7E0)
single_round_trip_example =
    single_round_trip link echo 0x7E0 short_message node (omega arith) (omega arith) node-IsValid
      for_node

-- A first frame of a message of 600 bytes, which no sink is there for.
abbrev too_long : List ℕ
too_long = 0x12 ∷ 0x58 ∷ replicate 62 0

too_long-IsBytes : IsBytes too_long
too_long-IsBytes zero = omega arith
too_long-IsBytes (suc zero) = omega arith
too_long-IsBytes (suc (suc i)) = omega (arith, get_or-replicate {A = ℕ} 62 i 0)

process_frame_example : IsValid ((process_frame link echo 0x7E0 too_long 64 node).ctx)
process_frame_example =
    process_frame-IsValid link echo echo-KeepsTransport 0x7E0 too_long 64 node too_long-IsBytes
      node-IsValid

tick_keeps : IsValid ((tick link 5 node).ctx)
tick_keeps = tick-IsValid link 5 node node-IsValid

-- A sender that waits for flow control.
abbrev waiting : World (Unit {0})
waiting = record node {
  ctx = record init_ctx { tx_state = tx_wait_fc; tx_total_size = 100; tx_sent = 62 };
}

waiting_count : waiting.ctx.tx_wait_frame_count ≤ max_wft
unfolding init_ctx
waiting_count = omega arith

abbrev wait_frame : List ℕ
wait_frame = 0x31 ∷ 0 ∷ 0 ∷ []

bears_two_waits :
    (hear link (wait_frame ∷ wait_frame ∷ []) waiting).ctx.tx_state
    ≡ (if leb (waiting.ctx.tx_wait_frame_count + 2) max_wft then tx_wait_fc else tx_idle)
bears_two_waits =
    hear_waits link (wait_frame ∷ wait_frame ∷ []) waiting (refl, (refl, tt)) refl waiting_count

halves_are_apart :
    SameRx waiting.ctx (process_flow_control link too_long waiting).ctx
    × SameTx waiting.ctx (process_first_frame link 0x7E0 too_long 64 waiting).ctx
    × SameTx waiting.ctx (take_chunk link too_long 64 waiting).ctx
halves_are_apart = full_duplex link 0x7E0 too_long 64 waiting

-- Eleven seconds without a frame, for a sender that waits for flow control.
abbrev seconds : List ℕ
seconds = replicate 11 1000

waiting-IsValid : IsValid waiting.ctx
unfolding init_ctx
waiting-IsValid = ground (arith, length-replicate {A = ℕ} max_message_size 0)

waiting-AllLate : AllLate link seconds waiting
unfolding tick expire_rx expire_fc pace_cf init_ctx
waiting-AllLate = omega arith

waiting_stmin : waiting.ctx.tx_stmin < 1000
unfolding init_ctx
waiting_stmin = omega arith

ticks-IsAtRest_example : IsAtRest (ticks link seconds waiting).ctx
ticks-IsAtRest_example =
    ticks-IsAtRest link seconds waiting waiting-IsValid waiting_stmin waiting-AllLate (omega arith)
