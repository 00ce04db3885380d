-- ===== src/Uds/Counts.antt =====
-- 0x19 ReadDTCInformation: a count that is reported and the records that are reported agree.
use obd_simulator.Prelude.{ℕ, zero, suc, ◌+◌, ◌*◌, ◌≡◌, ◌≤◌, List, [], ◌∷◌, length, get_or, arith}
use obd_simulator.Obd2.Dtc.{DtcEntry, MirrorEntry, DtcMemory}
use obd_simulator.Obd2.Dtc.Report.{
  count_by_mask, get_by_mask, mirror_count_by_mask, mirror_get_by_mask,
}
use obd_simulator.Uds.ReadDtc.{
  handle_read_dtc_information, report_count, report_by_mask, report_severity_count, report_severity,
}
use obd_simulator.Uds.ReadDtc.Records.{
  report, matches_severity, count_by_severity, dtc_and_status, put3, functional_unit,
}

length-get_by_mask :
    (mask left : ℕ) (ds : List DtcEntry)
    → length ds ≤ left
    → length (get_by_mask mask left ds) ≡ 4 * count_by_mask mask ds
unfolding get_by_mask count_by_mask
length-get_by_mask mask left [] h = omega arith
length-get_by_mask mask zero (d ∷ ds) h = absurd (omega arith)
length-get_by_mask mask (suc left) (d ∷ ds) h =
    ground (arith, length-get_by_mask mask left ds, length-get_by_mask mask (suc left) ds)

length-mirror_get_by_mask :
    (mask left : ℕ) (es : List MirrorEntry)
    → length es ≤ left
    → length (mirror_get_by_mask mask left es) ≡ 4 * mirror_count_by_mask mask es
unfolding mirror_get_by_mask mirror_count_by_mask
length-mirror_get_by_mask mask left [] h = omega arith
length-mirror_get_by_mask mask zero (e ∷ es) h = absurd (omega arith)
length-mirror_get_by_mask mask (suc left) (e ∷ es) h =
    ground
      (arith, length-mirror_get_by_mask mask left es, length-mirror_get_by_mask mask (suc left) es)

length-report_severity :
    (severity status : ℕ) (ds : List DtcEntry)
    → length (
        report
          (matches_severity severity status)
          (λ d. d.severity ∷ functional_unit ∷ dtc_and_status d)
          ds)
      ≡ 6 * count_by_severity severity status ds
unfolding report count_by_severity put3
length-report_severity severity status [] = omega arith
length-report_severity severity status (d ∷ ds) =
    ground (arith, length-report_severity severity status ds)

-- The number of entries bounds each count.
count_by_mask-le : (mask : ℕ) (ds : List DtcEntry) → count_by_mask mask ds ≤ length ds
unfolding count_by_mask
count_by_mask-le mask [] = omega arith
count_by_mask-le mask (d ∷ ds) = ground (arith, count_by_mask-le mask ds)

mirror_count_by_mask-le :
    (mask : ℕ) (es : List MirrorEntry) → mirror_count_by_mask mask es ≤ length es
unfolding mirror_count_by_mask
mirror_count_by_mask-le mask [] = omega arith
mirror_count_by_mask-le mask (e ∷ es) = ground (arith, mirror_count_by_mask-le mask es)

count_by_severity-le :
    (severity status : ℕ) (ds : List DtcEntry) → count_by_severity severity status ds ≤ length ds
unfolding count_by_severity
count_by_severity-le severity status [] = omega arith
count_by_severity-le severity status (d ∷ ds) =
    ground (arith, count_by_severity-le severity status ds)

-- Where the number stands in the answer to a count.
abbrev pub reported_count : List ℕ → ℕ
reported_count resp = get_or resp 5 0

-- The count that is reported for a status mask is the number of four-byte records reported for the
-- same mask, from the table of at most three codes and from the mirror memory of at most three
-- entries alike; the count for a severity and status mask is the number of six-byte records
-- reported for the same masks.
pub count_agrees :
    (m : DtcMemory) (severity mask : ℕ)
    → length m.table ≤ 3
    → length m.mirror ≤ 3
    → (length (handle_read_dtc_information (0x19 ∷ 0x02 ∷ mask ∷ []) m)
        ≡ 3 + 4 * reported_count (handle_read_dtc_information (0x19 ∷ 0x01 ∷ mask ∷ []) m))
      × (length (handle_read_dtc_information (0x19 ∷ 0x0F ∷ mask ∷ []) m)
          ≡ 3 + 4 * reported_count (handle_read_dtc_information (0x19 ∷ 0x11 ∷ mask ∷ []) m))
      × (length (handle_read_dtc_information (0x19 ∷ 0x08 ∷ severity ∷ mask ∷ []) m)
          ≡ 3
            + 6
              * reported_count (handle_read_dtc_information (0x19 ∷ 0x07 ∷ severity ∷ mask ∷ []) m))
unfolding handle_read_dtc_information report_count report_by_mask report_severity_count
    report_severity
count_agrees m severity mask h k = (
  omega (arith, length-get_by_mask mask 3 m.table h, count_by_mask-le mask m.table),
  omega (arith, length-mirror_get_by_mask mask 3 m.mirror k, mirror_count_by_mask-le mask m.mirror),
  omega (
    arith,
    length-report_severity severity mask m.table,
    count_by_severity-le severity mask m.table,
  ),
)
