-- ===== src/Uds/ReadDtc/Snapshots.antt =====
-- The cases of 0x19 ReadDTCInformation that report snapshots and extended data.
use obd_simulator.Prelude.{
  ℕ, List, [], ◌∷◌, ◌++◌, not, ◌&&◌, ltb, ◌==◌, if◌then◌else◌, length, get_or, be16, Option, none,
  some,
}
use obd_simulator.Obd2.Dtc.{DtcMemory, status_byte}
use obd_simulator.Obd2.Dtc.Report.{mirror_find_by_code}
use obd_simulator.Uds.ReadDtc.Records.{
  memory_selection, snapshot_record, occurrence_record, refuse, put3, put_snapshot, report,
  dtc_and_status, find_requested, bad_record, snapshot_part,
}

-- 0x03.
unfoldable pub report_snapshot_ids : DtcMemory → List ℕ
unfolding report put3
report_snapshot_ids m =
    0x59 ∷ 0x03 ∷ report (λ d. d.snapshot.valid) (λ d. put3 d.code ++ snapshot_record ∷ []) m.table

-- 0x04 and 0x18.
unfoldable pub report_snapshot : ℕ → List ℕ → DtcMemory → List ℕ
unfolding put3 put_snapshot
report_snapshot sub req m =
    let selected = sub == 0x18 in
    if ltb (length req) (if selected then 7 else 6)
    then refuse 0x13
    else if selected && not (get_or req 6 0 == memory_selection)
    then refuse 0x31
    else elim (find_requested req m) [
      | none ↦ refuse 0x31
      | some d ↦
          if bad_record snapshot_record (get_or req 5 0)
          then refuse 0x31
          else 0x59
            ∷ sub
            ∷ ((if selected then get_or req 6 0 ∷ [] else [])
                ++ (put3 d.code ++ (status_byte d ∷ snapshot_part d)))
    ]

-- 0x05.
unfoldable pub report_stored : List ℕ → DtcMemory → List ℕ
unfolding report put3 put_snapshot
report_stored req m =
    if ltb (length req) 3
    then refuse 0x13
    else if bad_record snapshot_record (get_or req 2 0)
    then refuse 0x31
    else 0x59
      ∷ 0x05
      ∷ report (λ d. d.snapshot.valid)
          (λ d. snapshot_record ∷ (put3 d.code ++ (status_byte d ∷ 1 ∷ put_snapshot d.snapshot)))
          m.table

-- Status and occurrence of the code that a request for extended data names.
unfoldable pub ext_source : ℕ → List ℕ → DtcMemory → Option (ℕ × ℕ)
ext_source sub req m =
    if sub == 0x10
    then (elim (if get_or req 4 0 == 0x00
          then mirror_find_by_code (be16 (get_or req 2 0) (get_or req 3 0)) m.mirror
          else none)
        as (λ _. Option (ℕ × ℕ)) [ none ↦ none | some e ↦ some (e.status, e.occurrence) ])
    else elim (find_requested req m) as (λ _. Option (ℕ × ℕ)) [
      | none ↦ none
      | some d ↦ some (status_byte d, d.occurrence)
    ]

-- 0x06, 0x10 and 0x19.
unfoldable pub report_ext_data : ℕ → List ℕ → DtcMemory → List ℕ
unfolding ext_source put3
report_ext_data sub req m =
    let selected = sub == 0x19 in
    if ltb (length req) (if selected then 7 else 6)
    then refuse 0x13
    else if selected && not (get_or req 6 0 == memory_selection)
    then refuse 0x31
    else elim (ext_source sub req m) [
      | none ↦ refuse 0x31
      | some (status, occurrence) ↦
          if bad_record occurrence_record (get_or req 5 0)
          then refuse 0x31
          else 0x59
            ∷ sub
            ∷ ((if selected then get_or req 6 0 ∷ [] else [])
                ++ (put3 (be16 (get_or req 2 0) (get_or req 3 0))
                    ++ (status
                        ∷ (if occurrence == 0 then [] else occurrence_record ∷ occurrence ∷ []))))
    ]

-- 0x16.
unfoldable pub report_ext_records : List ℕ → DtcMemory → List ℕ
unfolding report put3
report_ext_records req m =
    if ltb (length req) 3
    then refuse 0x13
    else if not (get_or req 2 0 == occurrence_record)
    then refuse 0x31
    else 0x59
      ∷ 0x16
      ∷ get_or req 2 0
      ∷ report (λ d. not (d.occurrence == 0)) (λ d. dtc_and_status d ++ (d.occurrence ∷ [])) m.table
