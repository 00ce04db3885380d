-- ===== src/Uds.antt =====
-- The application's services, Core/Src/uds_service.c: the state they keep and what they share.
pub mod Sources
pub mod Control
pub mod ReadWrite
pub mod Dynamic
pub mod Periodic
pub mod ReadDtc
pub mod Obd
pub mod Dispatch
pub mod Shape
pub mod Policy
mod Tests
pub mod Cadence
pub mod Bounds
pub mod Invariant
pub mod Subscriptions
pub mod Slices
pub mod Table
pub mod Counts
pub mod Vin
pub mod Routine
pub mod Handover
use Prim.Native.Char.{code}
use Prim.Native.String.{String}
use obd_simulator.Prelude.{ℕ, List, [], ◌∷◌, ◌++◌, Bool, true, replicate, ◌%◌}
use obd_simulator.Session.{Session}
use obd_simulator.Boot.{Handoff}
use obd_simulator.Obd2.{SimState}
use obd_simulator.Obd2.Dtc.{DtcMemory, dtc_setting_control}

-- UDS_DYN_SRC_MEM, UDS_DYN_MAX_DATA, UDS_DYN_MAX_REC, UDS_MAX_RESPONSE_SIZE
abbrev pub dyn_src_mem : ℕ
dyn_src_mem = 0xFFFF

abbrev pub dyn_max_data : ℕ
dyn_max_data = 56

abbrev pub dyn_max_rec : ℕ
dyn_max_rec = 3

abbrev pub max_response_size : ℕ
max_response_size = 64

abbrev pub did_vin : ℕ
did_vin = 0xF190

abbrev pub did_hw_version : ℕ
did_hw_version = 0xF193

abbrev pub did_sw_version : ℕ
did_sw_version = 0xF195

abbrev pub did_ecu_name : ℕ
did_ecu_name = 0xF198

abbrev pub did_io_control : ℕ
did_io_control = 0x0200

abbrev pub did_dynamic_base : ℕ
did_dynamic_base = 0xF200

abbrev pub did_dynamic_end : ℕ
did_dynamic_end = 0xF3FF

-- dyn_rec_t
pub record DynRec : Type 0 where
  pub src_did : ℕ
  pub src_addr : ℕ
  pub position : ℕ
  pub size : ℕ

-- dyn_slot_t; `count` is the length of `recs`.
pub record DynSlot : Type 0 where
  pub did : ℕ
  pub recs : List DynRec

-- periodic_sub_t
pub record Subscription : Type 0 where
  pub pdid : ℕ
  pub divider : ℕ
  pub counter : ℕ

-- The statics of uds_service.c, with those of diag_session.c and obd2_simulator.c, the simulated
-- values, the reset request of main.c and the hand-over record in RAM. `vin` is the array `s_vin`.
pub record App : Type 0 where
  pub session : Session
  pub sim : SimState
  pub dtc : DtcMemory
  pub vin : List ℕ
  pub io_port : ℕ
  pub dyn : List DynSlot
  pub periodic : List Subscription
  pub comm_rx : Bool
  pub comm_tx : Bool
  pub soft_reset : ℕ
  pub handoff : Handoff

-- The bytes of a text.
abbrev pub codes : String → List ℕ
codes String.[] = []
codes (String.◌∷◌ c s) = code c ∷ codes s

abbrev pub vehicle_vin : List ℕ
vehicle_vin = codes "WVWZZZ3CZWE000001"

abbrev pub hw_version : List ℕ
hw_version = codes "HW Rev1.0"

abbrev pub sw_version : List ℕ
sw_version = codes "SW Phase1.0"

abbrev pub ecu_name : List ℕ
ecu_name = codes "OBD-SIM-G431"

abbrev pub empty_slot : DynSlot
empty_slot = record { did = 0; recs = [] }

abbrev pub no_subscription : Subscription
no_subscription = record { pdid = 0; divider = 0; counter = 0 }

-- The initial values of the statics of uds_service.c, on top of the others'.
unfoldable pub initial_app : Session → SimState → DtcMemory → Handoff → App
initial_app session sim dtc handoff = record {
  session = session;
  sim = sim;
  dtc = dtc;
  vin = vehicle_vin ++ 0 ∷ [];
  io_port = 0;
  dyn = replicate 4 empty_slot;
  periodic = replicate 4 no_subscription;
  comm_rx = true;
  comm_tx = true;
  soft_reset = 0;
  handoff = handoff;
}

abbrev pub build_negative_response : ℕ → ℕ → List ℕ
build_negative_response sid nrc = 0x7F ∷ sid ∷ nrc ∷ []

-- `req[1] & 0x7F`
abbrev pub sub_function : ℕ → ℕ
sub_function byte = byte % 128

-- UDS_PeriodicStopAll
unfoldable pub periodic_stop_all : List Subscription → List Subscription
periodic_stop_all [] = []
periodic_stop_all (s ∷ ss) = record s { divider = 0 } ∷ periodic_stop_all ss

-- The two calls that DiagSession_SetSession makes on the way back to Default.
abbrev pub restore : DtcMemory × List Subscription → DtcMemory × List Subscription
restore (dtc, subs) = (dtc_setting_control true dtc, periodic_stop_all subs)
