-- ===== src/Uds/Bounds/Reports.antt =====
-- The lengths of the responses to 0x19 ReadDTCInformation.
use obd_simulator.Prelude.{
  ℕ, ◌≤◌, ◌≡◌, List, [], ◌∷◌, ◌++◌, length, get_or, arith, refl, ◌==◌, ltb, ◌&&◌, ◌||◌, not,
}
use obd_simulator.Obd2.Dtc.{status_byte, DtcMemory}
use obd_simulator.Obd2.Dtc.Report.{fault_detection_counter}
use obd_simulator.Uds.{sub_function}
use obd_simulator.Uds.ReadDtc.{
  report_count, report_by_mask, report_severity_count, report_severity, report_severity_of,
  report_supported, report_pick, report_detection, report_wwh, report_wwh_permanent,
  handle_read_dtc_information,
}
use obd_simulator.Uds.ReadDtc.Snapshots.{
  report_snapshot_ids, report_snapshot, report_stored, report_ext_data, report_ext_records,
}
use obd_simulator.Uds.ReadDtc.Records.{
  snapshot_record, functional_unit, dtc_and_status, matches_severity, put3, put_snapshot,
}
use obd_simulator.Uds.Bounds.Parts.{
  length-report, length-get_by_mask_le, length-mirror_get_by_mask_le,
}

module _ (req : List ℕ) (m : DtcMemory) (size : length m.table ≡ 3) where
  report_count-le : (sub : ℕ) → length (report_count sub req m) ≤ 64
  unfolding report_count
  report_count-le sub = ground arith

  report_by_mask-le : (sub : ℕ) → length (report_by_mask sub req m) ≤ 64
  unfolding report_by_mask
  report_by_mask-le sub = ground (
    arith,
    length-get_by_mask_le (get_or req 2 0) 3 m.table,
    length-mirror_get_by_mask_le (get_or req 2 0) 3 m.mirror,
  )

  report_snapshot_ids-le : length (report_snapshot_ids m) ≤ 64
  unfolding report_snapshot_ids put3
  report_snapshot_ids-le = omega (
    arith,
    length-report 4 (λ d. d.snapshot.valid) (λ d. put3 d.code ++ snapshot_record ∷ []) m.table
        (λ d. refl),
  )

  report_snapshot-le : (sub : ℕ) → length (report_snapshot sub req m) ≤ 64
  unfolding report_snapshot put3 put_snapshot
  report_snapshot-le sub = ground arith

  report_stored-le : length (report_stored req m) ≤ 64
  unfolding report_stored put3 put_snapshot
  report_stored-le = ground (
    arith,
    length-report 12 (λ d. d.snapshot.valid)
        (λ d. snapshot_record ∷ (put3 d.code ++ (status_byte d ∷ 1 ∷ put_snapshot d.snapshot)))
        m.table (λ d. refl),
  )

  report_ext_data-le : (sub : ℕ) → length (report_ext_data sub req m) ≤ 64
  unfolding report_ext_data put3
  report_ext_data-le sub = ground arith

  report_severity_count-le : length (report_severity_count req m) ≤ 64
  unfolding report_severity_count
  report_severity_count-le = ground arith

  report_severity-le : length (report_severity req m) ≤ 64
  unfolding report_severity put3
  report_severity-le = ground (
    arith,
    length-report 6 (matches_severity (get_or req 2 0) (get_or req 3 0))
        (λ d. d.severity ∷ functional_unit ∷ dtc_and_status d) m.table (λ d. refl),
  )

  report_severity_of-le : length (report_severity_of req m) ≤ 64
  unfolding report_severity_of put3
  report_severity_of-le = ground arith

  report_supported-le : (sub : ℕ) → length (report_supported sub m) ≤ 64
  unfolding report_supported put3
  report_supported-le sub =
      omega (
        arith,
        length-report 4 (λ d. sub == 0x0A || d.permanent) dtc_and_status m.table (λ d. refl),
      )

  report_pick-le : (sub : ℕ) → length (report_pick sub m) ≤ 64
  unfolding report_pick put3
  report_pick-le sub = ground arith

  report_detection-le : length (report_detection m) ≤ 64
  unfolding report_detection put3
  report_detection-le = omega (
    arith,
    length-report 4 (λ d. ltb 0 (fault_detection_counter d) && ltb (fault_detection_counter d) 127)
        (λ d. put3 d.code ++ (fault_detection_counter d ∷ [])) m.table (λ d. refl),
  )

  report_ext_records-le : length (report_ext_records req m) ≤ 64
  unfolding report_ext_records put3
  report_ext_records-le = ground (
    arith,
    length-report 5 (λ d. not (d.occurrence == 0)) (λ d. dtc_and_status d ++ (d.occurrence ∷ []))
        m.table (λ d. refl),
  )

  report_wwh-le : length (report_wwh req m) ≤ 64
  unfolding report_wwh put3
  report_wwh-le = ground (
    arith,
    length-report 5 (matches_severity (get_or req 4 0) (get_or req 3 0))
        (λ d. d.severity ∷ dtc_and_status d) m.table (λ d. refl),
  )

  report_wwh_permanent-le : length (report_wwh_permanent req m) ≤ 64
  unfolding report_wwh_permanent put3
  report_wwh_permanent-le =
      ground (arith, length-report 4 (λ d. d.permanent) dtc_and_status m.table (λ d. refl))

  pub handle_read_dtc_information-le : length (handle_read_dtc_information req m) ≤ 64
  unfolding handle_read_dtc_information
  handle_read_dtc_information-le =
      let sub = sub_function (get_or req 1 0) in
      ground (
        arith,
        report_count-le sub,
        report_by_mask-le sub,
        report_snapshot_ids-le,
        report_snapshot-le sub,
        report_stored-le,
        report_ext_data-le sub,
        report_severity_count-le,
        report_severity-le,
        report_severity_of-le,
        report_supported-le sub,
        report_pick-le sub,
        report_detection-le,
        report_ext_records-le,
        report_wwh-le,
        report_wwh_permanent-le,
      )
