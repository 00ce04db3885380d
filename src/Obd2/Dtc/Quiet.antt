-- ===== src/Obd2/Dtc/Quiet.antt =====
-- The simulation on its own never brings a trouble code to PENDING.
use obd_simulator.Prelude.{
  ℕ, zero, suc, ◌≤◌, ◌≡◌, List, [], ◌∷◌, true, false, arith, refl, ◌∙◌, if_both,
}
use obd_simulator.Obd2.{
  SimState, update_sim_values, coolant_temp_max, coolant_temp_min, vehicle_speed_min,
}
use obd_simulator.Obd2.Ramp.{InRange}
use obd_simulator.Obd2.Dtc.{
  DtcEntry, DtcMemory, dtc_inactive, update_entry, fault_present, dtc_update, update_table,
  initial_memory,
}

-- One period of the main loop: new simulated values, then the trouble codes.
unfoldable pub period : SimState × DtcMemory → SimState × DtcMemory
period (st, m) = let st' = update_sim_values st in (st', dtc_update st' m)

unfoldable pub periods : ℕ → SimState × DtcMemory → SimState × DtcMemory
periods zero x = x
periods (suc n) x = periods n (period x)

-- The ramps turn round at once: at an end of its range a value moves away in the next period.
record Turns (st : SimState) : Type 0 where
  in_range : InRange st
  hot_falls : coolant_temp_max ≤ st.coolant_temp → st.temp_direction ≡ true
  cold_rises : st.coolant_temp ≤ coolant_temp_min → st.temp_direction ≡ false
  still_starts : st.vehicle_speed ≡ vehicle_speed_min → st.speed_direction ≡ false

fault_once :
    (code : ℕ) (st : SimState)
    → Turns st
    → fault_present code st ≡ true
    → fault_present code (update_sim_values st) ≡ false
unfolding fault_present update_sim_values
fault_once code st v h = ground arith

update-Turns : (st : SimState) → Turns st → Turns (update_sim_values st)
unfolding update_sim_values
update-Turns st v = ground arith

-- An entry that is idle, or saw its fault in the latest period for the first time.
record IsQuiet (st : SimState) (d : DtcEntry) : Type 0 where
  inactive : d.state ≡ dtc_inactive
  young : d.debounce ≤ 1
  fresh : 1 ≤ d.debounce → fault_present d.code st ≡ true

abbrev AllQuiet : SimState → List DtcEntry → Type 0
AllQuiet st [] = Unit {0}
AllQuiet st (d ∷ ds) = IsQuiet st d × AllQuiet st ds

update_entry-IsQuiet :
    (st : SimState) (seq : ℕ) (d : DtcEntry)
    → Turns st
    → IsQuiet st d
    → IsQuiet (update_sim_values st) (update_entry (update_sim_values st) seq d).1
      × ((update_entry (update_sim_values st) seq d).0 ≡ seq)
unfolding update_entry
update_entry-IsQuiet st seq d t q = ground (arith, fault_once d.code st t)

update_table-AllQuiet :
    (st : SimState) (seq : ℕ) (ds : List DtcEntry)
    → Turns st
    → AllQuiet st ds
    → AllQuiet (update_sim_values st) (update_table (update_sim_values st) seq ds).1
      × ((update_table (update_sim_values st) seq ds).0 ≡ seq)
unfolding update_table
update_table-AllQuiet st seq [] t q = (tt, refl)
update_table-AllQuiet st seq (d ∷ ds) t q =
    let head = update_entry-IsQuiet st seq d t q.0 in
    let seq' = (update_entry (update_sim_values st) seq d).0 in
    let rest = update_table-AllQuiet st seq' ds t q.1 in ((head.0, rest.0), rest.1 ∙ head.1)

-- Between two periods: the ramps are in range and turning, and every code is idle.
record IsIdle (x : SimState × DtcMemory) : Type 0 where
  turns : Turns (x.0)
  quiet : AllQuiet (x.0) ((x.1).table)
  on : (x.1).setting_on ≡ true
  none_failed : (x.1).fail_seq_counter ≡ 0

period-IsIdle : (x : SimState × DtcMemory) → IsIdle x → IsIdle (period x)
unfolding period dtc_update
period-IsIdle (st, m) i =
    let table' = update_table-AllQuiet st (m.fail_seq_counter) (m.table) (i.turns) (i.quiet) in
    if_both (λ (m' : DtcMemory). IsIdle (update_sim_values st, m')) (m.setting_on)
      (λ on. record {
        turns = update-Turns st (i.turns);
        quiet = table'.0;
        on = on;
        none_failed = table'.1 ∙ i.none_failed;
      })
      (λ off. absurd (cc (i.on)))

periods-IsIdle : (n : ℕ) (x : SimState × DtcMemory) → IsIdle x → IsIdle (periods n x)
unfolding periods
periods-IsIdle zero x i = i
periods-IsIdle (suc n) x i = periods-IsIdle n (period x) (period-IsIdle x i)

abbrev pub AllInactive : List DtcEntry → Type 0
AllInactive [] = Unit {0}
AllInactive (d ∷ ds) = (d.state ≡ dtc_inactive) × AllInactive ds

AllQuiet-AllInactive : (st : SimState) (ds : List DtcEntry) → AllQuiet st ds → AllInactive ds
AllQuiet-AllInactive st [] q = tt
AllQuiet-AllInactive st (d ∷ ds) q = (q.0.inactive, AllQuiet-AllInactive st ds q.1)

-- The values with which `main` starts the simulation.
unfoldable pub initial_sim : SimState
initial_sim = record {
  engine_rpm = 800;
  coolant_temp = 80;
  vehicle_speed = 0;
  rpm_direction = false;
  temp_direction = false;
  speed_direction = false;
}

initial-IsIdle : IsIdle (initial_sim, initial_memory)
unfolding initial_sim initial_memory
initial-IsIdle = ground arith

-- From the initial state, however many periods the simulation runs on its own, every trouble code
-- stays INACTIVE, the detection counter stays 0, and the simulated values stay in range.
pub periods-AllInactive :
    (n : ℕ)
    → AllInactive ((periods n (initial_sim, initial_memory)).1.table)
      × ((periods n (initial_sim, initial_memory)).1.fail_seq_counter ≡ 0)
      × InRange ((periods n (initial_sim, initial_memory)).0)
periods-AllInactive n =
    let i = periods-IsIdle n (initial_sim, initial_memory) initial-IsIdle in
    (AllQuiet-AllInactive _ _ (i.quiet), i.none_failed, i.turns.in_range)
