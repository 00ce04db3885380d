-- ===== src/Obd2.antt =====
-- The OBD-II simulator, Core/Src/obd2_simulator.c and Core/Inc/obd2_simulator.h: the simulated
-- values and the Mode 01 answers. The trouble codes are in the children.
pub mod Dtc
pub mod Ramp
use obd_simulator.Prelude.{
  ℕ, ◌+◌, ◌-◌, ◌*◌, ◌/◌, List, [], ◌∷◌, Bool, true, false, leb, ltb, ◌==◌, if◌then◌else◌, u8, u16,
  u32, byte1,
}

-- OBD2_SimState_t; a direction is false for up (0) and true for down (1).
pub record SimState : Type 0 where
  pub engine_rpm : ℕ
  pub coolant_temp : ℕ
  pub vehicle_speed : ℕ
  pub rpm_direction : Bool
  pub temp_direction : Bool
  pub speed_direction : Bool

abbrev pub rpm_idle : ℕ
rpm_idle = 800

abbrev pub rpm_max : ℕ
rpm_max = 4000

abbrev pub rpm_ramp_step : ℕ
rpm_ramp_step = 10

abbrev pub coolant_temp_min : ℕ
coolant_temp_min = 80

abbrev pub coolant_temp_max : ℕ
coolant_temp_max = 105

abbrev pub coolant_temp_step : ℕ
coolant_temp_step = 1

abbrev pub vehicle_speed_min : ℕ
vehicle_speed_min = 0

abbrev pub vehicle_speed_max : ℕ
vehicle_speed_max = 120

abbrev pub vehicle_speed_step : ℕ
vehicle_speed_step = 1

-- The three parts of OBD2_UpdateSimValues: value and direction. The subtractions run only where
-- the value is larger.
unfoldable pub ramp_rpm : ℕ → Bool → ℕ × Bool
ramp_rpm rpm false =
    let up = u16 (rpm + rpm_ramp_step) in if leb rpm_max up then (rpm_max, true) else (up, false)
ramp_rpm rpm true =
    let down =
      if ltb rpm_idle rpm
      then (if ltb rpm (rpm_idle + rpm_ramp_step) then rpm_idle else rpm - rpm_ramp_step)
      else rpm in
    if leb down rpm_idle then (rpm_idle, false) else (down, true)

unfoldable pub ramp_temp : ℕ → Bool → ℕ × Bool
ramp_temp temp false =
    let up = u8 (temp + coolant_temp_step) in
    if leb coolant_temp_max up then (coolant_temp_max, true) else (up, false)
ramp_temp temp true =
    let down =
      if ltb coolant_temp_min temp
      then (if ltb temp (coolant_temp_min + coolant_temp_step)
          then coolant_temp_min
          else temp - coolant_temp_step)
      else temp in
    if leb down coolant_temp_min then (coolant_temp_min, false) else (down, true)

unfoldable pub ramp_speed : ℕ → Bool → ℕ × Bool
ramp_speed speed false =
    let up = u8 (speed + vehicle_speed_step) in
    if leb vehicle_speed_max up then (vehicle_speed_max, true) else (up, false)
ramp_speed speed true =
    let down = if ltb vehicle_speed_min speed then speed - vehicle_speed_step else speed in
    if leb down vehicle_speed_min then (vehicle_speed_min, false) else (down, true)

unfoldable pub update_sim_values : SimState → SimState
unfolding ramp_rpm ramp_temp ramp_speed
update_sim_values st =
    let (rpm, rpm_down) = ramp_rpm st.engine_rpm st.rpm_direction in
    let (temp, temp_down) = ramp_temp st.coolant_temp st.temp_direction in
    let (speed, speed_down) = ramp_speed st.vehicle_speed st.speed_direction in
    record {
      engine_rpm = rpm;
      coolant_temp = temp;
      vehicle_speed = speed;
      rpm_direction = rpm_down;
      temp_direction = temp_down;
      speed_direction = speed_down;
    }

-- The answers of Mode 01: the buffer of eight bytes and the returned length.
unfoldable pub supported_pids : List ℕ × ℕ
supported_pids = (6 ∷ 0x41 ∷ 0x00 ∷ 0x10 ∷ 0x18 ∷ 0x00 ∷ 0x00 ∷ 0x00 ∷ [], 6)

unfoldable pub coolant_temp_answer : ℕ → List ℕ × ℕ
coolant_temp_answer temp = (3 ∷ 0x41 ∷ 0x05 ∷ u8 (temp + 40) ∷ 0x00 ∷ 0x00 ∷ 0x00 ∷ 0x00 ∷ [], 3)

unfoldable pub engine_rpm_answer : ℕ → List ℕ × ℕ
engine_rpm_answer rpm =
    let raw_value = u32 (rpm * 4) in
    (4 ∷ 0x41 ∷ 0x0C ∷ byte1 raw_value ∷ u8 raw_value ∷ 0x00 ∷ 0x00 ∷ 0x00 ∷ [], 4)

unfoldable pub vehicle_speed_answer : ℕ → List ℕ × ℕ
vehicle_speed_answer speed = (3 ∷ 0x41 ∷ 0x0D ∷ speed ∷ 0x00 ∷ 0x00 ∷ 0x00 ∷ 0x00 ∷ [], 3)

-- OBD2_HandleService01; an unsupported PID leaves the cleared buffer and the length 0.
unfoldable pub handle_service01 : ℕ → SimState → List ℕ × ℕ
unfolding supported_pids coolant_temp_answer engine_rpm_answer vehicle_speed_answer
handle_service01 pid st =
    if pid == 0x00
    then supported_pids
    else if pid == 0x05
    then coolant_temp_answer st.coolant_temp
    else if pid == 0x0C
    then engine_rpm_answer st.engine_rpm
    else if pid == 0x0D
    then vehicle_speed_answer st.vehicle_speed
    else (0 ∷ 0 ∷ 0 ∷ 0 ∷ 0 ∷ 0 ∷ 0 ∷ 0 ∷ [], 0)
