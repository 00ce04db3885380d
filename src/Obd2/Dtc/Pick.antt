-- ===== src/Obd2/Dtc/Pick.antt =====
-- OBD2_DtcPick finds an extreme entry.
use obd_simulator.Prelude.{◌≡◌, List, [], ◌∷◌, true, false, arith, Option, none, some, ◌&&◌}
use obd_simulator.Obd2.Dtc.{DtcEntry}
use obd_simulator.Obd2.Dtc.Report.{
  dtc_pick, pick_from, choose, is_candidate, is_better, Selector, first_failed, recent_failed,
  first_confirmed, recent_confirmed,
}

-- `d` is no candidate, or not better than the entry picked.
abbrev pub Beaten : Selector → Option DtcEntry → DtcEntry → Type 0
Beaten which none d = is_candidate which d ≡ false
Beaten which (some best) d = (is_candidate which d && is_better which d best) ≡ false

abbrev pub AllBeaten : Selector → Option DtcEntry → List DtcEntry → Type 0
AllBeaten which best [] = Unit {0}
AllBeaten which best (d ∷ ds) = Beaten which best d × AllBeaten which best ds

-- The entry picked is a candidate.
abbrev pub Candidate : Selector → Option DtcEntry → Type 0
Candidate which none = Unit {0}
Candidate which (some d) = is_candidate which d ≡ true

choose-new :
    (which : Selector) (best : Option DtcEntry) (d : DtcEntry)
    → Beaten which (choose which best d) d
unfolding choose
choose-new first_failed none d = ground arith
choose-new recent_failed none d = ground arith
choose-new first_confirmed none d = ground arith
choose-new recent_confirmed none d = ground arith
choose-new first_failed (some b) d = ground arith
choose-new recent_failed (some b) d = ground arith
choose-new first_confirmed (some b) d = ground arith
choose-new recent_confirmed (some b) d = ground arith

choose-old :
    (which : Selector) (best : Option DtcEntry) (d x : DtcEntry)
    → Beaten which best x
    → Beaten which (choose which best d) x
unfolding choose
choose-old first_failed none d x h = ground arith
choose-old recent_failed none d x h = ground arith
choose-old first_confirmed none d x h = ground arith
choose-old recent_confirmed none d x h = ground arith
choose-old first_failed (some b) d x h = ground arith
choose-old recent_failed (some b) d x h = ground arith
choose-old first_confirmed (some b) d x h = ground arith
choose-old recent_confirmed (some b) d x h = ground arith

choose-Candidate :
    (which : Selector) (best : Option DtcEntry) (d : DtcEntry)
    → Candidate which best
    → Candidate which (choose which best d)
unfolding choose
choose-Candidate which none d h = ground arith
choose-Candidate which (some b) d h = ground arith

pick_from-old :
    (which : Selector) (best : Option DtcEntry) (ds : List DtcEntry) (x : DtcEntry)
    → Beaten which best x
    → Beaten which (pick_from which best ds) x
unfolding pick_from
pick_from-old which best [] x h = h
pick_from-old which best (d ∷ ds) x h =
    pick_from-old which (choose which best d) ds x (choose-old which best d x h)

pick_from_lem :
    (which : Selector) (best : Option DtcEntry) (ds : List DtcEntry)
    → Candidate which best
    → AllBeaten which (pick_from which best ds) ds × Candidate which (pick_from which best ds)
unfolding pick_from
pick_from_lem which best [] h = (tt, h)
pick_from_lem which best (d ∷ ds) h =
    let rest = pick_from_lem which (choose which best d) ds (choose-Candidate which best d h) in
    ((pick_from-old which (choose which best d) ds d (choose-new which best d), rest.0), rest.1)

-- The entry that a selector picks is a candidate (failed since the last clear and, for the
-- confirmed selectors, CONFIRMED), and no candidate of the table has a smaller detection number
-- (`first`), or a larger one (`recent`); nothing is picked only if the table has no candidate.
pub dtc_pick_extreme :
    (which : Selector) (table : List DtcEntry)
    → AllBeaten which (dtc_pick which table) table × Candidate which (dtc_pick which table)
unfolding dtc_pick
dtc_pick_extreme which table = pick_from_lem which none table tt
