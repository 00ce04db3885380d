-- ===== src/Uds/ReadDtc/Records.antt =====
-- 0x19 ReadDTCInformation: the records and tests that its reports share.
use obd_simulator.Prelude.{
  ℕ, ◌+◌, List, [], ◌∷◌, ◌++◌, Bool, not, ◌&&◌, ◌||◌, ◌==◌, if◌then◌else◌, get_or, u8, be16, byte1,
  bit_and, Option, none,
}
use obd_simulator.Obd2.Dtc.{DtcEntry, DtcMemory, Snapshot, status_byte}
use obd_simulator.Obd2.Dtc.Report.{find_by_code, matches_mask}
use obd_simulator.Uds.{build_negative_response}

-- OBD2_DTC_STATUS_AVAILABILITY_MASK, UDS_DTC_SEV_AVAIL_MASK, UDS_DTC_FMT_ISO14229,
-- UDS_DTC_FMT_WWH_OBD, UDS_FGID_EMISSIONS and UDS_FGID_ALL
abbrev pub status_mask : ℕ
status_mask = 0xFF

abbrev pub severity_mask : ℕ
severity_mask = 0xE2

abbrev pub fmt_iso14229 : ℕ
fmt_iso14229 = 0x01

abbrev pub fmt_wwh_obd : ℕ
fmt_wwh_obd = 0x04

abbrev pub fgid_emissions : ℕ
fgid_emissions = 0x33

abbrev pub fgid_all : ℕ
fgid_all = 0xFF

-- UDS_MEMORY_SELECTION_1, UDS_DTC_SNAPSHOT_RECORD, DTC_EXT_RECORD_OCCURRENCE, DTC_FUNCTIONAL_UNIT
abbrev pub memory_selection : ℕ
memory_selection = 0x01

abbrev pub snapshot_record : ℕ
snapshot_record = 0x01

abbrev pub occurrence_record : ℕ
occurrence_record = 0x01

abbrev pub functional_unit : ℕ
functional_unit = 0x01

abbrev pub refuse : ℕ → List ℕ
refuse nrc = build_negative_response 0x19 nrc

-- `dtc_put3` and `dtc_put_snapshot`; DTC_SNAPSHOT_DID is 0xF500.
unfoldable pub put3 : ℕ → List ℕ
put3 code = byte1 code ∷ u8 code ∷ 0x00 ∷ []

unfoldable pub put_snapshot : Snapshot → List ℕ
put_snapshot s = 0xF5 ∷ 0x00 ∷ byte1 s.rpm ∷ u8 s.rpm ∷ s.speed ∷ s.coolant ∷ []

-- A loop over the table that appends `record` for each entry that `test` accepts.
unfoldable pub report : (DtcEntry → Bool) → (DtcEntry → List ℕ) → List DtcEntry → List ℕ
report test record' [] = []
report test record' (d ∷ ds) = (if test d then record' d else []) ++ report test record' ds

-- DTC and status, the record of several reports.
abbrev pub dtc_and_status : DtcEntry → List ℕ
dtc_and_status d = put3 d.code ++ (status_byte d ∷ [])

-- The test of the reports by severity.
abbrev pub matches_severity : ℕ → ℕ → DtcEntry → Bool
matches_severity severity status d =
    not (bit_and (bit_and d.severity severity) severity_mask == 0)
    && matches_mask (status_byte d) status

unfoldable pub count_by_severity : ℕ → ℕ → List DtcEntry → ℕ
count_by_severity severity status [] = 0
count_by_severity severity status (d ∷ ds) =
    (if matches_severity severity status d then 1 else 0) + count_by_severity severity status ds

-- The lookup of a three-byte code; the low byte is the failure type and has to be 0.
abbrev pub find_requested : List ℕ → DtcMemory → Option DtcEntry
find_requested req m =
    if get_or req 4 0 == 0x00
    then find_by_code (be16 (get_or req 2 0) (get_or req 3 0)) m.table
    else none

-- A record number that is neither the one stored nor 0xFF for all.
abbrev pub bad_record : ℕ → ℕ → Bool
bad_record stored n = n == 0x00 || not (n == stored) && not (n == 0xFF)

abbrev pub snapshot_part : DtcEntry → List ℕ
snapshot_part d = if d.snapshot.valid then snapshot_record ∷ 1 ∷ put_snapshot d.snapshot else []

abbrev pub bad_group : ℕ → Bool
bad_group fgid = not (fgid == fgid_emissions) && not (fgid == fgid_all)
