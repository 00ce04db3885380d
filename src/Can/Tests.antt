-- ===== src/Can/Tests.antt =====
-- Runs of the frame length functions and of the ring buffer.
use obd_simulator.Prelude.{◌≡◌, List, [], ◌∷◌, none, some, refl, arith}
use obd_simulator.Can.Frames.{bytes_to_dlc, dlc_to_bytes}
use obd_simulator.Can.Ring.{initial_ring, rx_message, push, pop, receive_callback}
use obd_simulator.Can.Ring.Refine.{
  Operation, received, popped, IsRing, waiting, run_ring, run_queue, run_ring-queue,
}

rounds_up : dlc_to_bytes (bytes_to_dlc 13) ≡ 16
unfolding dlc_to_bytes bytes_to_dlc
rounds_up = refl

initial_ring-IsRing : IsRing initial_ring
unfolding initial_ring
initial_ring-IsRing = record { size = refl; head_range = omega arith; tail_range = omega arith }

-- Two frames, of which one is taken before the other comes.
abbrev traffic : List Operation
traffic =
    received 0x7E0 2 (1 ∷ 0x3E ∷ [])
    ∷ popped
    ∷ received 0x7DF 2 (1 ∷ 0x04 ∷ [])
    ∷ popped
    ∷ popped
    ∷ []

both_arrive :
    run_ring traffic initial_ring
    ≡ some (rx_message 0x7E0 2 (1 ∷ 0x3E ∷ []))
      ∷ some (rx_message 0x7DF 2 (1 ∷ 0x04 ∷ []))
      ∷ none
      ∷ []
unfolding run_ring receive_callback push pop initial_ring
both_arrive = refl

run_ring-queue_example : run_ring traffic initial_ring ≡ run_queue traffic (waiting initial_ring)
run_ring-queue_example = run_ring-queue traffic initial_ring initial_ring-IsRing
