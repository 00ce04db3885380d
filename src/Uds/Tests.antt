-- ===== src/Uds/Tests.antt =====
-- Runs of the application's services, and their theorems at concrete inputs.
use obd_simulator.Prelude.{
  ℕ, ◌+◌, ◌*◌, ◌≡◌, inl, inr, List, [], ◌∷◌, true, false, length, get_or, arith, refl,
}
use obd_simulator.Can.{addr_physical, addr_functional}
use obd_simulator.Flash.{FlashPorts}
use obd_simulator.Session.{Session, session_programming, reset_s3_timeout}
use obd_simulator.Boot.{Handoff, serve, boot_gate}
use obd_simulator.Obd2.{SimState}
use obd_simulator.Obd2.Dtc.{initial_memory}
use obd_simulator.Uds.{App, DynRec, initial_app, no_subscription, build_negative_response, codes}
use obd_simulator.Uds.Sources.{
  c_string, dyn_find, resolve_source, did_read, dyn_assemble, assemble_from, read_rec, read_slice,
}
use obd_simulator.Uds.Dynamic.{handle_dynamic_define_did}
use obd_simulator.Uds.Periodic.{periodic_data, periodic_tick, tick_one}
use obd_simulator.Uds.ReadWrite.{handle_read_data_by_id}
use obd_simulator.Uds.ReadDtc.{handle_read_dtc_information}
use obd_simulator.Uds.Dispatch.{dispatch_request, is_ignored, is_suppressible}
use obd_simulator.Uds.Policy.{KeepsControl, dispatch_request-barred, dispatch_request-functional}
use obd_simulator.Uds.Handover.{dispatch_request-boot_gate, dispatch_request-handoff}
use obd_simulator.Uds.Vin.{
  vin_write-read, write_vin_request, read_vin_request, vehicle_info_request,
}
use obd_simulator.Uds.Routine.{routine-suppressed}
use obd_simulator.Uds.Counts.{count_agrees, reported_count}
use obd_simulator.Uds.Table.{HasDistinctDids, used_slots}
use obd_simulator.Uds.Table.Map.{Edit, view}
use obd_simulator.Uds.Table.Edit.{handle_dynamic_define_did-Edit}
use obd_simulator.Uds.Slices.{id_recs, slices, sum_sizes}
use obd_simulator.Uds.Slices.Read.{define_request, read_request, define-read}
use obd_simulator.Uds.Cadence.{ticks, Sends, counting, ticks-Sends}

abbrev zeros : ℕ → ℕ
zeros x = 0

abbrev at : ℕ → ℕ → ℕ
at t i = t

abbrev in_session : ℕ → ℕ → Session
in_session kind level = record {
  session_type = kind;
  security_level = level;
  seed = 0;
  seed_is_fresh = false;
  last_activity_tick = 1000;
  fail_count = 0;
  lockout_start = 0;
  boot_tick = 0;
}

abbrev idle_sim : SimState
idle_sim = record {
  engine_rpm = 800;
  coolant_temp = 80;
  vehicle_speed = 0;
  rpm_direction = false;
  temp_direction = false;
  speed_direction = false;
}

abbrev no_handoff : Handoff
no_handoff = record { magic = 0; reason = 0 }

-- The application after its start, but in this session.
app : ℕ → ℕ → App
app kind level = initial_app (in_session kind level) idle_sim initial_memory no_handoff

abbrev start_routine_request : List ℕ
start_routine_request = 0x31 ∷ 0x01 ∷ 0x02 ∷ 0x01 ∷ []

dispatch_request-barred_example :
    dispatch_request zeros (at 1500) start_routine_request addr_physical (app 0x03 0) ≡ (
      build_negative_response 0x31 0x33,
      record (app 0x03 0) { session = reset_s3_timeout (at 1500) (app 0x03 0).session },
    )
unfolding app initial_app is_ignored
dispatch_request-barred_example =
    dispatch_request-barred zeros (at 1500) start_routine_request addr_physical (app 0x03 0)
      (ground arith) refl (inr (inl refl, refl, refl))

dispatch_request-functional_example :
    KeepsControl
      (app 0x03 1)
      (dispatch_request zeros (at 1500) (0x04 ∷ []) addr_functional (app 0x03 1)).1
dispatch_request-functional_example =
    dispatch_request-functional zeros (at 1500) (0x04 ∷ []) (app 0x03 1)

abbrev erased : FlashPorts (Unit {0})
erased = record {
  program = λ a bytes f. (true, f);
  erase_page = λ p f. (true, f);
  read = λ f x. 0xFF;
}

abbrev programming_request : List ℕ
programming_request = 0x10 ∷ 0x02 ∷ []

abbrev programmed : App
programmed = (dispatch_request zeros (at 1500) programming_request addr_physical (app 0x01 0)).1

dispatch_request-boot_gate_example :
    ((dispatch_request zeros (at 1500) programming_request addr_physical (app 0x01 0)).0
      ≡ 0x50 ∷ 0x02 ∷ 0x00 ∷ 0x32 ∷ 0x01 ∷ 0xF4 ∷ [])
    × (programmed.session.session_type ≡ session_programming)
    × (programmed.soft_reset ≡ 1)
    × (boot_gate erased programmed.handoff tt ≡ (serve true, record { magic = 0; reason = 0 }))
dispatch_request-boot_gate_example =
    dispatch_request-boot_gate erased tt zeros (at 1500) programming_request (app 0x01 0)
      (omega arith) refl refl

abbrev reset_request : List ℕ
reset_request = 0x11 ∷ 0x01 ∷ []

reset_request_keeps_handoff :
    (dispatch_request zeros (at 1500) reset_request addr_physical (app 0x01 0)).1.handoff
    ≡ (app 0x01 0).handoff
reset_request_keeps_handoff =
    dispatch_request-handoff zeros (at 1500) reset_request addr_physical (app 0x01 0)
      (inl (ground arith))

-- A VIN of 17 bytes whose fourth is 0.
abbrev short_vin : List ℕ
short_vin = 0x57 ∷ 0x56 ∷ 0x57 ∷ 0x00 ∷ codes "ZZ3CZWE000001"

abbrev rewritten : App
rewritten =
    (dispatch_request zeros (at 1500) (write_vin_request short_vin) addr_physical (app 0x03 1)).1

vin_write-read_example :
    ((dispatch_request zeros (at 1500) (write_vin_request short_vin) addr_physical (app 0x03 1)).0
      ≡ 0x6E ∷ 0xF1 ∷ 0x90 ∷ [])
    × ((dispatch_request zeros (at 1600) read_vin_request addr_physical rewritten).0
        ≡ 0x62 ∷ 0xF1 ∷ 0x90 ∷ 0x57 ∷ 0x56 ∷ 0x57 ∷ [])
    × ((dispatch_request zeros (at 1600) vehicle_info_request addr_physical rewritten).0
        ≡ 0x49 ∷ 0x02 ∷ 0x01 ∷ 0x57 ∷ 0x56 ∷ 0x57 ∷ [])
unfolding app initial_app c_string
vin_write-read_example =
    vin_write-read zeros (at 1500) (at 1600) short_vin (app 0x03 1) refl (ground arith) refl refl

routine-suppressed_example :
    (dispatch_request zeros (at 1500) (0x31 ∷ 0x81 ∷ 0x02 ∷ 0x01 ∷ []) addr_physical (app 0x03 1)
      ≡ (
        build_negative_response 0x31 0x12,
        record (app 0x03 1) { session = reset_s3_timeout (at 1500) (app 0x03 1).session },
      ))
    × (is_suppressible 0x31 ≡ true)
unfolding app initial_app
routine-suppressed_example =
    routine-suppressed zeros (at 1500) (0x31 ∷ 0x81 ∷ 0x02 ∷ 0x01 ∷ []) (app 0x03 1) refl
      (ground arith) refl (omega arith) (omega arith)

count_agrees_example :
    (length (handle_read_dtc_information (0x19 ∷ 0x02 ∷ 0x88 ∷ []) initial_memory)
      ≡ 3
        + 4 * reported_count (handle_read_dtc_information (0x19 ∷ 0x01 ∷ 0x88 ∷ []) initial_memory))
    × (length (handle_read_dtc_information (0x19 ∷ 0x0F ∷ 0x88 ∷ []) initial_memory)
        ≡ 3
          + 4
            * reported_count (handle_read_dtc_information (0x19 ∷ 0x11 ∷ 0x88 ∷ []) initial_memory))
    × (length (handle_read_dtc_information (0x19 ∷ 0x08 ∷ 0xE0 ∷ 0x88 ∷ []) initial_memory)
        ≡ 3
          + 6
            * reported_count
                (handle_read_dtc_information (0x19 ∷ 0x07 ∷ 0xE0 ∷ 0x88 ∷ []) initial_memory))
unfolding initial_memory
count_agrees_example = count_agrees initial_memory 0xE0 0x88 (omega arith) (omega arith)

-- The definition of 0xF210 as the first three bytes of the VIN and the IO port.
abbrev two_records : List ℕ
two_records = 0xF1 ∷ 0x90 ∷ 0x01 ∷ 0x03 ∷ 0x02 ∷ 0x00 ∷ 0x01 ∷ 0x01 ∷ []

abbrev defined : App
defined = (handle_dynamic_define_did (define_request 0xF210 two_records) (app 0x03 0)).1

handle_dynamic_define_did-Edit_example :
    Edit
      (define_request 0xF210 two_records)
      (view (app 0x03 0).dyn)
      (handle_dynamic_define_did (define_request 0xF210 two_records) (app 0x03 0)).0
      (view defined.dyn)
    × HasDistinctDids defined.dyn
unfolding app initial_app
handle_dynamic_define_did-Edit_example =
    handle_dynamic_define_did-Edit (define_request 0xF210 two_records) (app 0x03 0) (ground arith)

define-read_example :
    ((handle_dynamic_define_did (define_request 0xF210 two_records) (app 0x03 0)).0
      ≡ 0x6C ∷ 0x01 ∷ 0xF2 ∷ 0x10 ∷ [])
    × (handle_read_data_by_id zeros (read_request 0xF210) defined
        ≡ 0x62 ∷ 0xF2 ∷ 0x10 ∷ 0x57 ∷ 0x56 ∷ 0x57 ∷ 0x00 ∷ [])
unfolding app initial_app id_recs slices resolve_source did_read c_string sum_sizes used_slots
    dyn_find
define-read_example =
    define-read zeros 0xF210 1 two_records (app 0x03 0) (omega arith) (omega arith)
      (inr (ground arith)) refl (omega arith) (omega arith) (omega arith)

-- An application that is subscribed to 0xF210, which it has defined.
abbrev vin_part : DynRec
vin_part = record { src_did = 0xF190; src_addr = 0; position = 1; size = 3 }

sending : App
sending = record (app 0x03 0) {
  dyn = record { did = 0xF210; recs = vin_part ∷ [] } ∷ [];
  periodic = counting 0x10 10 0 ∷ [];
}

ticks-Sends_example :
    ((tick_one zeros
        (ticks zeros 3 sending)
        (get_or (ticks zeros 3 sending).periodic 0 no_subscription)).0
      ≡ [])
    × Sends (0x10 ∷ 0x57 ∷ 0x56 ∷ 0x57 ∷ []) (periodic_tick zeros (ticks zeros 9 sending)).0
    × (get_or (ticks zeros 10 sending).periodic 0 no_subscription ≡ counting 0x10 10 0)
unfolding sending app initial_app periodic_data dyn_find dyn_assemble assemble_from read_rec
    read_slice resolve_source did_read c_string
ticks-Sends_example =
    ticks-Sends zeros 0 0x10 9 3 sending refl (omega arith) (ground arith) (omega arith)
