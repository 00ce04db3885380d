-- ===== src/Task/Watch.antt =====
-- Runs of the supervision of the tasks and of the restart of the CAN controller.
use obd_simulator.Prelude.{
  ℕ, ◌≡◌, ◌≤◌, List, [], ◌∷◌, ◌++◌, true, false, refl, arith, replicate, length-replicate,
}
use obd_simulator.Task.Supervision.{
  Alive, Turn, can_rx_turn, rs485_turn, main_turn, take_turn, take_turns, supervise,
  take_turns-starved, take_turns-fed,
}
use obd_simulator.Task.Recovery.{
  receive_errors, check_passive, recover_round, recover_rounds, restarts, recover_rounds-restarts,
}

abbrev just_started : Alive
just_started = record { led_tick_counter = 0; main = false; can_rx = false; rs485 = false }

-- Two rounds before the watchdog is due.
abbrev nearly_due : Alive
nearly_due = record { led_tick_counter = 48; main = false; can_rx = false; rs485 = false }

abbrev all_come : List Turn
all_come = rs485_turn ∷ main_turn ∷ can_rx_turn ∷ []

abbrev can_rx_hangs : List Turn
can_rx_hangs = replicate 60 main_turn ++ rs485_turn ∷ replicate 60 main_turn

one_refresh : take_turns (all_come ++ main_turn ∷ []) nearly_due ≡ (1, just_started)
unfolding take_turns take_turn supervise
one_refresh = refl

take_turns-starved_example : (take_turns can_rx_hangs just_started).0 ≤ 1
take_turns-starved_example = take_turns-starved can_rx_hangs just_started refl

take_turns-fed_example :
    take_turns (all_come ++ main_turn ∷ []) nearly_due
    ≡ (1, record { led_tick_counter = 0; main = false; can_rx = false; rs485 = false })
take_turns-fed_example = take_turns-fed all_come nearly_due refl refl refl

third_check :
    recover_rounds (0x8000 ∷ 0x8000 ∷ []) (record { rec_check_tick = 299; ep_ticks = 2 })
    ≡ true ∷ false ∷ []
unfolding recover_rounds recover_round check_passive receive_errors
third_check = refl

recover_rounds-restarts_example :
    recover_rounds (replicate 300 0x8000) (record { rec_check_tick = 0; ep_ticks = 0 })
    ≡ restarts (replicate 300 0x8000) 0 0
recover_rounds-restarts_example =
    recover_rounds-restarts (replicate 300 0x8000) 0 0
      (omega (arith, length-replicate {A = ℕ} 300 0x8000))
