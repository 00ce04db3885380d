-- ===== src/Obd2/Dtc/Tests.antt =====
-- The theorems of the trouble codes and of the simulated values at concrete inputs.
use obd_simulator.Prelude.{◌+◌, ◌*◌, ◌≡◌, refl, arith, [], ◌∷◌, true, false, get_or, none}
use obd_simulator.Obd2.{SimState, update_sim_values, handle_service01}
use obd_simulator.Obd2.Ramp.{InRange, IsAnswer, update_sim_values-InRange, mode01_round_trip}
use obd_simulator.Obd2.Dtc.{
  DtcEntry, DtcMemory, dtc_inactive, dtc_pending, initial_memory, dtc_clear, inject_demo,
  update_entry, fault_present, engine_overtemp,
}
use obd_simulator.Obd2.Dtc.Report.{get_confirmed, get_pending, dtc_pick, recent_confirmed}
use obd_simulator.Obd2.Dtc.Life.{
  IsEntry, update_entry-IsEntry, update_entry_healed, run, run-Faulty,
}
use obd_simulator.Obd2.Dtc.Clear.{AreBlank, Archived, dtc_clear_lem}
use obd_simulator.Obd2.Dtc.Pick.{AllBeaten, Candidate, dtc_pick_extreme}
use obd_simulator.Obd2.Dtc.Quiet.{AllInactive, periods, initial_sim, periods-AllInactive}

abbrev hot : SimState
hot = record {
  engine_rpm = 3000;
  coolant_temp = 105;
  vehicle_speed = 50;
  rpm_direction = false;
  temp_direction = true;
  speed_direction = false;
}

abbrev idle_code : DtcEntry
idle_code = record {
  code = engine_overtemp;
  state = dtc_inactive;
  debounce = 0;
  hold = 0;
  severity = 0x82;
  fail_seq = 0;
  occurrence = 0;
  permanent = false;
  snapshot = record { valid = false; rpm = 0; speed = 0; coolant = 0 };
}

abbrev pending_code : DtcEntry
pending_code = record idle_code {
  code = 0x0128;
  state = dtc_pending;
  debounce = 7;
  hold = 3;
  fail_seq = 1;
  occurrence = 1;
  snapshot = record { valid = true; rpm = 900; speed = 0; coolant = 80 };
}

abbrev demo : DtcMemory
demo = inject_demo hot initial_memory

hot-InRange : InRange hot
hot-InRange = ground arith

pending_code-IsEntry : IsEntry pending_code
pending_code-IsEntry = ground arith

hot_faulty : fault_present engine_overtemp hot ≡ true
unfolding fault_present
hot_faulty = refl

warm_enough : fault_present 0x0128 hot ≡ false
unfolding fault_present
warm_enough = refl

run-Faulty_example : (run (hot ∷ hot ∷ hot ∷ hot ∷ hot ∷ []) 0 idle_code).1.state ≡ dtc_pending
run-Faulty_example =
    run-Faulty (hot ∷ hot ∷ hot ∷ hot ∷ hot ∷ []) 0 idle_code
      (hot_faulty, (hot_faulty, (hot_faulty, (hot_faulty, (hot_faulty, tt))))) refl refl

pending_code_stays_valid : IsEntry (update_entry hot 1 pending_code).1
pending_code_stays_valid = update_entry-IsEntry hot 1 pending_code pending_code-IsEntry

pending_code_is_reset :
    ((update_entry hot 1 pending_code).1.state ≡ dtc_inactive)
    × ((update_entry hot 1 pending_code).1.debounce ≡ 0)
    × ((update_entry hot 1 pending_code).0 ≡ 1)
pending_code_is_reset = update_entry_healed hot 1 pending_code warm_enough (λ e. ground arith)

dtc_clear_example :
    AreBlank demo.table (dtc_clear demo).table
    × (get_confirmed 16 (dtc_clear demo).table ≡ [])
    × (get_pending 16 (dtc_clear demo).table ≡ [])
    × (dtc_pick recent_confirmed (dtc_clear demo).table ≡ none)
    × ((dtc_clear demo).fail_seq_counter ≡ 0)
    × Archived demo.table demo.mirror (dtc_clear demo).mirror
dtc_clear_example = dtc_clear_lem demo 16 recent_confirmed

picks_recent :
    AllBeaten recent_confirmed (dtc_pick recent_confirmed demo.table) demo.table
    × Candidate recent_confirmed (dtc_pick recent_confirmed demo.table)
picks_recent = dtc_pick_extreme recent_confirmed demo.table

periods_example :
    AllInactive ((periods 100 (initial_sim, initial_memory)).1.table)
    × ((periods 100 (initial_sim, initial_memory)).1.fail_seq_counter ≡ 0)
    × InRange ((periods 100 (initial_sim, initial_memory)).0)
periods_example = periods-AllInactive 100

hot_stays_in_range : InRange (update_sim_values hot)
hot_stays_in_range = update_sim_values-InRange hot hot-InRange

mode01_example :
    (let rpm = handle_service01 0x0C hot in
      let temp = handle_service01 0x05 hot in
      let speed = handle_service01 0x0D hot in
      IsAnswer 0x0C 2 rpm
      × IsAnswer 0x05 1 temp
      × IsAnswer 0x0D 1 speed
      × (get_or rpm.0 3 0 * 256 + get_or rpm.0 4 0 ≡ 4 * 3000)
      × (get_or temp.0 3 0 ≡ 145)
      × (get_or speed.0 3 0 ≡ 50))
mode01_example = mode01_round_trip hot hot-InRange
