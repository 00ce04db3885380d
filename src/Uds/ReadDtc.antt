-- ===== src/Uds/ReadDtc.antt =====
-- 0x19 ReadDTCInformation: each case of the switch is a function of the trouble codes and the
-- request, the longer ones in Snapshots. A response is what `resp` holds up to `pos`.
pub mod Records
pub mod Snapshots
use obd_simulator.Prelude.{
  ℕ, ◌+◌, List, [], ◌∷◌, ◌++◌, Bool, not, ◌&&◌, ◌||◌, ltb, ◌==◌, if◌then◌else◌, length, get_or, u8,
  be16, byte1, bit_and, Option, none, some,
}
use obd_simulator.Obd2.Dtc.{DtcEntry, DtcMemory, Snapshot, status_byte}
use obd_simulator.Obd2.Dtc.Report.{
  count_by_mask, get_by_mask, find_by_code, mirror_count_by_mask, mirror_get_by_mask,
  mirror_find_by_code, matches_mask, fault_detection_counter, Selector, first_failed, recent_failed,
  first_confirmed, recent_confirmed, dtc_pick,
}
use obd_simulator.Uds.{build_negative_response, sub_function}
use obd_simulator.Uds.Obd.{dtc_count}
use obd_simulator.Uds.ReadDtc.Records.{
  status_mask, severity_mask, fmt_iso14229, fmt_wwh_obd, memory_selection, snapshot_record,
  occurrence_record, functional_unit, refuse, put3, put_snapshot, report, dtc_and_status,
  matches_severity, count_by_severity, find_requested, bad_record, snapshot_part, bad_group,
}
use obd_simulator.Uds.ReadDtc.Snapshots.{
  report_snapshot_ids, report_snapshot, report_stored, report_ext_data, report_ext_records,
}

-- 0x01, 0x11 and 0x12.
unfoldable pub report_count : ℕ → List ℕ → DtcMemory → List ℕ
report_count sub req m =
    let count =
      if sub == 0x11
      then mirror_count_by_mask (get_or req 2 0) m.mirror
      else count_by_mask (get_or req 2 0) m.table in
    if ltb (length req) 3
    then refuse 0x13
    else 0x59 ∷ sub ∷ status_mask ∷ fmt_iso14229 ∷ 0x00 ∷ u8 count ∷ []

-- 0x02, 0x0F, 0x13 and 0x17.
unfoldable pub report_by_mask : ℕ → List ℕ → DtcMemory → List ℕ
report_by_mask sub req m =
    let records =
      if sub == 0x0F
      then mirror_get_by_mask (get_or req 2 0) dtc_count m.mirror
      else get_by_mask (get_or req 2 0) dtc_count m.table in
    if ltb (length req) (if sub == 0x17 then 4 else 3)
    then refuse 0x13
    else if not (sub == 0x17)
    then 0x59 ∷ sub ∷ status_mask ∷ records
    else if not (get_or req 3 0 == memory_selection)
    then refuse 0x31
    else 0x59 ∷ sub ∷ get_or req 3 0 ∷ status_mask ∷ records

-- 0x07.
unfoldable pub report_severity_count : List ℕ → DtcMemory → List ℕ
unfolding count_by_severity
report_severity_count req m =
    if ltb (length req) 4
    then refuse 0x13
    else 0x59
      ∷ 0x07
      ∷ status_mask
      ∷ fmt_iso14229
      ∷ 0x00
      ∷ u8 (count_by_severity (get_or req 2 0) (get_or req 3 0) m.table)
      ∷ []

-- 0x08.
unfoldable pub report_severity : List ℕ → DtcMemory → List ℕ
unfolding report put3
report_severity req m =
    if ltb (length req) 4
    then refuse 0x13
    else 0x59
      ∷ 0x08
      ∷ status_mask
      ∷ report (matches_severity (get_or req 2 0) (get_or req 3 0))
          (λ d. d.severity ∷ functional_unit ∷ dtc_and_status d) m.table

-- 0x09.
unfoldable pub report_severity_of : List ℕ → DtcMemory → List ℕ
unfolding put3
report_severity_of req m = if ltb (length req) 5 then refuse 0x13 else elim (find_requested req m) [
  | none ↦ refuse 0x31
  | some d ↦ 0x59 ∷ 0x09 ∷ status_mask ∷ d.severity ∷ functional_unit ∷ dtc_and_status d
]

-- 0x0A and 0x15.
unfoldable pub report_supported : ℕ → DtcMemory → List ℕ
unfolding report put3
report_supported sub m =
    0x59 ∷ sub ∷ status_mask ∷ report (λ d. sub == 0x0A || d.permanent) dtc_and_status m.table

abbrev pub selector : ℕ → Selector
selector sub =
    if sub == 0x0B
    then first_failed
    else if sub == 0x0C
    then first_confirmed
    else if sub == 0x0D
    then recent_failed
    else recent_confirmed

-- 0x0B to 0x0E.
unfoldable pub report_pick : ℕ → DtcMemory → List ℕ
unfolding put3
report_pick sub m =
    0x59 ∷ sub ∷ status_mask ∷ elim (dtc_pick (selector sub) m.table) as (λ _. List ℕ) [
      | none ↦ []
      | some d ↦ dtc_and_status d
    ]

-- 0x14.
unfoldable pub report_detection : DtcMemory → List ℕ
unfolding report put3
report_detection m =
    0x59
    ∷ 0x14
    ∷ report (λ d. ltb 0 (fault_detection_counter d) && ltb (fault_detection_counter d) 127)
        (λ d. put3 d.code ++ (fault_detection_counter d ∷ [])) m.table

-- 0x42.
unfoldable pub report_wwh : List ℕ → DtcMemory → List ℕ
unfolding report put3
report_wwh req m =
    if ltb (length req) 5
    then refuse 0x13
    else if bad_group (get_or req 2 0)
    then refuse 0x31
    else 0x59
      ∷ 0x42
      ∷ get_or req 2 0
      ∷ status_mask
      ∷ severity_mask
      ∷ fmt_wwh_obd
      ∷ report (matches_severity (get_or req 4 0) (get_or req 3 0))
          (λ d. d.severity ∷ dtc_and_status d) m.table

-- 0x55.
unfoldable pub report_wwh_permanent : List ℕ → DtcMemory → List ℕ
unfolding report put3
report_wwh_permanent req m =
    if ltb (length req) 3
    then refuse 0x13
    else if bad_group (get_or req 2 0)
    then refuse 0x31
    else 0x59
      ∷ 0x55
      ∷ get_or req 2 0
      ∷ status_mask
      ∷ fmt_wwh_obd
      ∷ report (λ d. d.permanent) dtc_and_status m.table

unfoldable pub handle_read_dtc_information : List ℕ → DtcMemory → List ℕ
handle_read_dtc_information req m =
    let sub = sub_function (get_or req 1 0) in
    if ltb (length req) 2
    then refuse 0x13
    else if sub == 0x01 || sub == 0x11 || sub == 0x12
    then report_count sub req m
    else if sub == 0x02 || sub == 0x0F || sub == 0x13 || sub == 0x17
    then report_by_mask sub req m
    else if sub == 0x03
    then report_snapshot_ids m
    else if sub == 0x04 || sub == 0x18
    then report_snapshot sub req m
    else if sub == 0x05
    then report_stored req m
    else if sub == 0x06 || sub == 0x10 || sub == 0x19
    then report_ext_data sub req m
    else if sub == 0x07
    then report_severity_count req m
    else if sub == 0x08
    then report_severity req m
    else if sub == 0x09
    then report_severity_of req m
    else if sub == 0x0A || sub == 0x15
    then report_supported sub m
    else if sub == 0x0B || sub == 0x0C || sub == 0x0D || sub == 0x0E
    then report_pick sub m
    else if sub == 0x14
    then report_detection m
    else if sub == 0x16
    then report_ext_records req m
    else if sub == 0x42
    then report_wwh req m
    else if sub == 0x55
    then report_wwh_permanent req m
    else refuse 0x12
