-- ===== src/Obd2/Dtc.antt =====
-- The trouble codes of Core/Src/obd2_simulator.c: their state machine and clearing.
pub mod Report
pub mod Life
pub mod Clear
pub mod Pick
pub mod Quiet
mod Tests
use obd_simulator.Prelude.{
  ℕ, zero, suc, ◌+◌, ◌-◌, ◌*◌, ◌/◌, List, [], ◌∷◌, Bool, true, false, not, ◌&&◌, ◌||◌, leb, ltb,
  ◌==◌, if◌then◌else◌, u8, u16,
}
use obd_simulator.Obd2.{SimState, coolant_temp_max, coolant_temp_min, vehicle_speed_min}

pub data DtcState : Type 0 where
  dtc_inactive dtc_pending dtc_confirmed : DtcState

-- DtcSnapshot_t
pub record Snapshot : Type 0 where
  pub valid : Bool
  pub rpm : ℕ
  pub speed : ℕ
  pub coolant : ℕ

-- DtcEntry_t
pub record DtcEntry : Type 0 where
  pub code : ℕ
  pub state : DtcState
  pub debounce : ℕ
  pub hold : ℕ
  pub severity : ℕ
  pub fail_seq : ℕ
  pub occurrence : ℕ
  pub permanent : Bool
  pub snapshot : Snapshot

-- DtcMirrorEntry_t
pub record MirrorEntry : Type 0 where
  pub code : ℕ
  pub status : ℕ
  pub occurrence : ℕ

-- `g_dtc_table`, `g_dtc_mirror`, `s_fail_seq_counter`, `s_dtc_setting_on`.
pub record DtcMemory : Type 0 where
  pub table : List DtcEntry
  pub mirror : List MirrorEntry
  pub fail_seq_counter : ℕ
  pub setting_on : Bool

abbrev pub debounce_thresh : ℕ
debounce_thresh = 5

abbrev pub confirm_hold : ℕ
confirm_hold = 50

abbrev pub engine_overtemp : ℕ
engine_overtemp = 0x0217

abbrev pub vss_malfunction : ℕ
vss_malfunction = 0x0500

abbrev pub coolant_thermostat : ℕ
coolant_thermostat = 0x0128

abbrev idle_entry : ℕ → ℕ → DtcEntry
idle_entry c sev = record {
  code = c;
  state = dtc_inactive;
  debounce = 0;
  hold = 0;
  severity = sev;
  fail_seq = 0;
  occurrence = 0;
  permanent = false;
  snapshot = record { valid = false; rpm = 0; speed = 0; coolant = 0 };
}

abbrev pub empty_mirror : MirrorEntry
empty_mirror = record { code = 0; status = 0; occurrence = 0 }

-- The initial values of the statics.
unfoldable pub initial_memory : DtcMemory
initial_memory = record {
  table =
      idle_entry engine_overtemp 0x82
      ∷ idle_entry vss_malfunction 0x42
      ∷ idle_entry coolant_thermostat 0x22
      ∷ [];
  mirror = empty_mirror ∷ empty_mirror ∷ empty_mirror ∷ [];
  fail_seq_counter = 0;
  setting_on = true;
}

unfoldable pub dtc_setting_control : Bool → DtcMemory → DtcMemory
dtc_setting_control on m = record m { setting_on = on }

-- `cond` of OBD2_DtcUpdate
unfoldable pub fault_present : ℕ → SimState → Bool
fault_present code st =
    if code == engine_overtemp
    then leb coolant_temp_max st.coolant_temp
    else if code == vss_malfunction
    then st.vehicle_speed == vehicle_speed_min && ltb 2500 st.engine_rpm
    else if code == coolant_thermostat
    then leb st.coolant_temp coolant_temp_min
    else false

-- A counter that stays at its largest value.
abbrev pub saturate8 : ℕ → ℕ
saturate8 n = if ltb n 0xFF then n + 1 else n

abbrev pub saturate16 : ℕ → ℕ
saturate16 n = if ltb n 0xFFFF then n + 1 else n

-- The promotion to PENDING, with the counter after it.
unfoldable pub promote_pending : SimState → ℕ → DtcEntry → DtcEntry
promote_pending st seq d = record d {
  state = dtc_pending;
  hold = 0;
  fail_seq = seq;
  occurrence = saturate8 d.occurrence;
  snapshot = record {
    valid = true;
    rpm = st.engine_rpm;
    speed = st.vehicle_speed;
    coolant = st.coolant_temp;
  };
}

-- One more tick in PENDING, and the promotion to CONFIRMED.
unfoldable pub hold_pending : DtcEntry → DtcEntry
hold_pending d = elim (d.state) [
  | dtc_pending ↦
      let held = record d { hold = saturate8 d.hold } in
      if leb confirm_hold held.hold
      then record held { state = dtc_confirmed; permanent = true }
      else held
  | _ ↦ d
]

abbrev pub is_inactive : DtcState → Bool
is_inactive dtc_inactive = true
is_inactive _ = false

abbrev pub is_confirmed : DtcState → Bool
is_confirmed dtc_confirmed = true
is_confirmed _ = false

-- The body of the loop of OBD2_DtcUpdate: the counter `s_fail_seq_counter` and the entry.
unfoldable pub update_entry : SimState → ℕ → DtcEntry → ℕ × DtcEntry
unfolding promote_pending hold_pending fault_present
update_entry st seq d =
    let counted = record d { debounce = saturate8 d.debounce } in
    let cleared = record d { debounce = 0 } in
    if fault_present d.code st
    then (if is_inactive d.state && leb debounce_thresh counted.debounce
        then (saturate16 seq, hold_pending (promote_pending st (saturate16 seq) counted))
        else (seq, hold_pending counted))
    else elim (d.state) [
      | dtc_pending ↦ (seq, record cleared { state = dtc_inactive; hold = 0 })
      | _ ↦ (seq, cleared)
    ]

unfoldable pub update_table : SimState → ℕ → List DtcEntry → ℕ × List DtcEntry
update_table st seq [] = (seq, [])
update_table st seq (d ∷ ds) =
    let (seq', d') = update_entry st seq d in
    let (seq'', ds') = update_table st seq' ds in (seq'', d' ∷ ds')

unfoldable pub dtc_update : SimState → DtcMemory → DtcMemory
unfolding update_table
dtc_update st m =
    let (seq, table') = update_table st m.fail_seq_counter m.table in
    if m.setting_on then record m { table = table'; fail_seq_counter = seq } else m

-- OBD2_DtcStatusByte; the bits set by the three tests are distinct, so `|` is `+`.
unfoldable pub status_byte : DtcEntry → ℕ
status_byte d =
    (if ltb 0 d.debounce then 0x01 else 0)
    + (if d.fail_seq == 0 then 0 else 0x26)
    + (if is_confirmed d.state then 0x88 else 0)

-- The two loops of OBD2_DtcClear.
unfoldable pub archive : List DtcEntry → List MirrorEntry → List MirrorEntry
unfolding status_byte
archive (d ∷ ds) (e ∷ es) =
    (if is_confirmed d.state
      then record { code = d.code; status = status_byte d; occurrence = d.occurrence }
      else record e { code = 0 })
    ∷ archive ds es
archive _ es = es

unfoldable pub clear_entry : DtcEntry → DtcEntry
clear_entry d = record d {
  state = dtc_inactive;
  debounce = 0;
  hold = 0;
  fail_seq = 0;
  occurrence = 0;
  permanent = false;
  snapshot = record (d.snapshot) { valid = false };
}

unfoldable pub clear_table : List DtcEntry → List DtcEntry
unfolding clear_entry
clear_table [] = []
clear_table (d ∷ ds) = clear_entry d ∷ clear_table ds

unfoldable pub dtc_clear : DtcMemory → DtcMemory
unfolding archive clear_table
dtc_clear m = record m {
  mirror = archive m.table m.mirror;
  table = clear_table m.table;
  fail_seq_counter = 0;
}

-- OBD2_DtcInjectDemo, on the first entry of the table.
unfoldable pub inject_demo : SimState → DtcMemory → DtcMemory
inject_demo st m =
    let seq = saturate16 m.fail_seq_counter in
    elim (m.table) [
      | [] ↦ m
      | d ∷ ds ↦ record m {
        fail_seq_counter = seq;
        table =
            record d {
              fail_seq = seq;
              occurrence = 1;
              state = dtc_confirmed;
              permanent = true;
              debounce = 1;
              hold = 0;
              snapshot = record {
                valid = true;
                rpm = st.engine_rpm;
                speed = st.vehicle_speed;
                coolant = st.coolant_temp;
              };
            }
            ∷ ds;
      }
    ]
