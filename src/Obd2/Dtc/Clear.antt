-- ===== src/Obd2/Dtc/Clear.antt =====
-- OBD2_DtcClear: the table afterwards, and the mirror memory.
use obd_simulator.Prelude.{
  ℕ, zero, suc, ◌≡◌, List, [], ◌∷◌, arith, refl, if◌then◌else◌, none, false,
}
use obd_simulator.Obd2.Dtc.{
  DtcEntry, MirrorEntry, DtcMemory, dtc_inactive, dtc_clear, clear_table, archive, status_byte,
  is_confirmed,
}
use obd_simulator.Obd2.Dtc.Report.{
  get_confirmed, get_pending, dtc_pick, Selector, first_failed, recent_failed, first_confirmed,
  recent_confirmed,
}

-- The entry of the mirror memory that a cleared entry leaves behind.
abbrev pub Archived : List DtcEntry → List MirrorEntry → List MirrorEntry → Type 0
Archived (d ∷ ds) (e ∷ es) (e' ∷ es') =
    (e'.code ≡ (if is_confirmed d.state then d.code else 0))
    × (e'.status ≡ (if is_confirmed d.state then status_byte d else e.status))
    × (e'.occurrence ≡ (if is_confirmed d.state then d.occurrence else e.occurrence))
    × Archived ds es es'
Archived _ es es' = es ≡ es'

archive-Archived : (ds : List DtcEntry) (es : List MirrorEntry) → Archived ds es (archive ds es)
unfolding archive
archive-Archived [] es = refl
archive-Archived (d ∷ ds) [] = refl
archive-Archived (d ∷ ds) (e ∷ es) =
    (ground arith, ground arith, ground arith, archive-Archived ds es)

-- An entry is as it was initialised, but for the numbers of its last snapshot.
pub record Blank (d d' : DtcEntry) : Type 0 where
  pub same_code : d'.code ≡ d.code
  pub same_severity : d'.severity ≡ d.severity
  pub state_reset : d'.state ≡ dtc_inactive
  pub debounce_reset : d'.debounce ≡ 0
  pub hold_reset : d'.hold ≡ 0
  pub fail_seq_reset : d'.fail_seq ≡ 0
  pub occurrence_reset : d'.occurrence ≡ 0
  pub permanent_reset : d'.permanent ≡ false
  pub snapshot_reset : d'.snapshot.valid ≡ false

abbrev pub AreBlank : List DtcEntry → List DtcEntry → Type 0
AreBlank (d ∷ ds) (d' ∷ ds') = Blank d d' × AreBlank ds ds'
AreBlank ds ds' = ds ≡ ds'

clear_table-AreBlank : (ds : List DtcEntry) → AreBlank ds (clear_table ds)
unfolding clear_table
clear_table-AreBlank [] = refl
clear_table-AreBlank (d ∷ ds) = (
  record {
    same_code = refl;
    same_severity = refl;
    state_reset = refl;
    debounce_reset = refl;
    hold_reset = refl;
    fail_seq_reset = refl;
    occurrence_reset = refl;
    permanent_reset = refl;
    snapshot_reset = refl;
  },
  clear_table-AreBlank ds,
)

get_codes_cleared :
    (n : ℕ) (ds : List DtcEntry)
    → (get_confirmed n (clear_table ds) ≡ []) × (get_pending n (clear_table ds) ≡ [])
unfolding get_confirmed get_pending clear_table
get_codes_cleared n [] = (refl, refl)
get_codes_cleared zero (d ∷ ds) = (refl, refl)
get_codes_cleared (suc n) (d ∷ ds) = get_codes_cleared (suc n) ds

pick_cleared : (which : Selector) (ds : List DtcEntry) → dtc_pick which (clear_table ds) ≡ none
unfolding dtc_pick clear_table
pick_cleared which [] = refl
pick_cleared first_failed (d ∷ ds) = pick_cleared first_failed ds
pick_cleared recent_failed (d ∷ ds) = pick_cleared recent_failed ds
pick_cleared first_confirmed (d ∷ ds) = pick_cleared first_confirmed ds
pick_cleared recent_confirmed (d ∷ ds) = pick_cleared recent_confirmed ds

-- After a clear, whatever the memory held: every entry of the table, in its place, has its code and
-- severity and is else reset (state, debounce, hold, order of failure, occurrence count, permanent
-- mark, validity of the snapshot); no code is reported as confirmed or pending, no
-- selector finds one, the detection counter starts anew; and the mirror memory holds, for each
-- entry (as far as both tables reach), the code, status and occurrence count it had if it was
-- confirmed, and else the code 0 over the old status and count.
pub dtc_clear_lem :
    (m : DtcMemory) (n : ℕ) (which : Selector)
    → AreBlank m.table (dtc_clear m).table
      × (get_confirmed n (dtc_clear m).table ≡ [])
      × (get_pending n (dtc_clear m).table ≡ [])
      × (dtc_pick which (dtc_clear m).table ≡ none)
      × ((dtc_clear m).fail_seq_counter ≡ 0)
      × Archived m.table m.mirror (dtc_clear m).mirror
unfolding dtc_clear
dtc_clear_lem m n which = (
  clear_table-AreBlank m.table,
  (get_codes_cleared n m.table).0,
  (get_codes_cleared n m.table).1,
  pick_cleared which m.table,
  refl,
  archive-Archived m.table m.mirror,
)
