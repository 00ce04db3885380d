-- ===== src/Obd2/Ramp.antt =====
-- The simulated values stay in their ranges, and what Mode 01 reports of them.
use obd_simulator.Prelude.{
  ◌+◌, ◌*◌, ◌≤◌, ◌≡◌, get_or, arith, ℕ, List, [], ◌∷◌, length, take, refl, AreBytes,
}
use obd_simulator.Obd2.{
  SimState, update_sim_values, handle_service01, rpm_idle, rpm_max, coolant_temp_min,
  coolant_temp_max, vehicle_speed_max,
}

pub record InRange (st : SimState) : Type 0 where
  pub rpm_low : rpm_idle ≤ st.engine_rpm
  pub rpm_high : st.engine_rpm ≤ rpm_max
  pub temp_low : coolant_temp_min ≤ st.coolant_temp
  pub temp_high : st.coolant_temp ≤ coolant_temp_max
  pub speed_high : st.vehicle_speed ≤ vehicle_speed_max

-- The update of the simulated values keeps each of them in its documented range.
pub update_sim_values-InRange : (st : SimState) → InRange st → InRange (update_sim_values st)
unfolding update_sim_values
update_sim_values-InRange st v = ground arith

-- An answer frame of Mode 01 for a PID with `n` bytes of data: eight bytes, which begin with the
-- number of bytes that count, the response's identifier and the PID; and that number as the length.
pub record IsAnswer (pid n : ℕ) (answer : List ℕ × ℕ) : Type 0 where
  pub size : length answer.0 ≡ 8
  pub bytes : AreBytes answer.0
  pub head : take 3 answer.0 ≡ (n + 2) ∷ 0x41 ∷ pid ∷ []
  pub used : answer.1 ≡ n + 2

-- For values in their ranges, the Mode 01 answers for engine speed, temperature and vehicle speed
-- are frames of eight bytes, each below 256, that begin with the number of bytes that count (4, 3 and
-- 3, also the length returned), 0x41 and the PID; and what a tester decodes from them is the simulated
-- value: the engine speed as (256 * A + B) / 4, without a remainder, the temperature as A - 40, the
-- speed as A.
pub mode01_round_trip :
    (st : SimState)
    → InRange st
    → (let rpm = handle_service01 0x0C st in
        let temp = handle_service01 0x05 st in
        let speed = handle_service01 0x0D st in
        IsAnswer 0x0C 2 rpm
        × IsAnswer 0x05 1 temp
        × IsAnswer 0x0D 1 speed
        × (get_or rpm.0 3 0 * 256 + get_or rpm.0 4 0 ≡ 4 * st.engine_rpm)
        × (get_or temp.0 3 0 ≡ st.coolant_temp + 40)
        × (get_or speed.0 3 0 ≡ st.vehicle_speed))
unfolding handle_service01
mode01_round_trip st v = (
  record { size = refl; bytes = omega arith; head = refl; used = refl },
  record { size = refl; bytes = omega arith; head = refl; used = refl },
  record { size = refl; bytes = omega arith; head = refl; used = refl },
  omega arith,
  omega arith,
  refl,
)
