-- ===== src/Uds/Shape.antt =====
-- The shape of the application's state: the sizes of its tables and its text.
use obd_simulator.Prelude.{
  ℕ, suc, ◌<◌, ◌≡◌, List, [], ◌∷◌, Bool, length, get_or, arith, refl, ap, Option, none, some, ◌==◌,
}
use obd_simulator.Obd2.{SimState}
use obd_simulator.Obd2.Dtc.{
  DtcEntry, MirrorEntry, DtcMemory, dtc_clear, clear_table, archive, inject_demo,
}
use obd_simulator.Uds.{App, DynRec, DynSlot, Subscription, periodic_stop_all}
use obd_simulator.Uds.Table.{HasDistinctDids}
use obd_simulator.Uds.Subscriptions.{HasDistinctPdids}
use obd_simulator.Uds.Dynamic.{replace_slot, commit}
use obd_simulator.Uds.Periodic.{
  stop_one, stop_each, replace_sub, subscribe, subscribe_each, is_active,
}

-- Every record of a dynamic identifier takes fewer than 256 bytes.
abbrev pub SmallRecs : List DynRec → Type 0
SmallRecs [] = Unit {0}
SmallRecs (r ∷ rs) = (r.size < 256) × SmallRecs rs

abbrev pub SmallSlots : List DynSlot → Type 0
SmallSlots [] = Unit {0}
SmallSlots (s ∷ ss) = SmallRecs s.recs × SmallSlots ss

pub record IsApp (a : App) : Type 0 where
  pub codes_size : length a.dtc.table ≡ 3
  pub mirror_size : length a.dtc.mirror ≡ 3
  pub vin_size : length a.vin ≡ 18
  pub vin_end : get_or a.vin 17 0 ≡ 0
  pub dyn_size : length a.dyn ≡ 4
  pub dyn_small : SmallSlots a.dyn
  pub dyn_distinct : HasDistinctDids a.dyn
  pub periodic_size : length a.periodic ≡ 4
  pub periodic_distinct : HasDistinctPdids a.periodic

length-clear_table : (ds : List DtcEntry) → length (clear_table ds) ≡ length ds
unfolding clear_table
length-clear_table [] = refl
length-clear_table (d ∷ ds) = ap suc (length-clear_table ds)

length-archive : (ds : List DtcEntry) (es : List MirrorEntry) → length (archive ds es) ≡ length es
unfolding archive
length-archive [] es = refl
length-archive (d ∷ ds) [] = refl
length-archive (d ∷ ds) (e ∷ es) = ap suc (length-archive ds es)

-- The trouble codes keep their tables' sizes.
abbrev pub SameSizes : DtcMemory → DtcMemory → Type 0
SameSizes m m' = (length m'.table ≡ length m.table) × (length m'.mirror ≡ length m.mirror)

pub dtc_clear-SameSizes : (m : DtcMemory) → SameSizes m (dtc_clear m)
unfolding dtc_clear
dtc_clear-SameSizes m = (length-clear_table m.table, length-archive m.table m.mirror)

pub inject_demo-SameSizes : (st : SimState) (m : DtcMemory) → SameSizes m (inject_demo st m)
unfolding inject_demo
inject_demo-SameSizes st m = ground arith

pub length-periodic_stop_all : (ss : List Subscription) → length (periodic_stop_all ss) ≡ length ss
unfolding periodic_stop_all
length-periodic_stop_all [] = refl
length-periodic_stop_all (s ∷ ss) = ap suc (length-periodic_stop_all ss)

length-stop_one : (pdid : ℕ) (ss : List Subscription) → length (stop_one pdid ss).1 ≡ length ss
unfolding stop_one
length-stop_one pdid [] = refl
length-stop_one pdid (s ∷ ss) = ground (arith, length-stop_one pdid ss)

pub length-stop_each :
    (pdids : List ℕ) (ss : List Subscription) → length (stop_each pdids ss).1 ≡ length ss
unfolding stop_each
length-stop_each [] ss = refl
length-stop_each (p ∷ ps) ss =
    ground (arith, length-stop_one p ss, length-stop_each ps (stop_one p ss).1)

-- A replacement, if it is made, keeps the length.
abbrev SameLength : {A : Type 0} → List A → Option (List A) → Type 0
SameLength xs none = Unit {0}
SameLength xs (some ys) = length ys ≡ length xs

length-replace_sub :
    (test : Subscription → Bool) (sub : Subscription) (ss : List Subscription)
    → SameLength ss (replace_sub test sub ss)
unfolding replace_sub
length-replace_sub test sub [] = tt
length-replace_sub test sub (s ∷ ss) = ground (arith, length-replace_sub test sub ss)

length-subscribe : (div pdid : ℕ) (ss : List Subscription) → SameLength ss (subscribe div pdid ss)
unfolding subscribe
length-subscribe div pdid ss =
    let sub : Subscription = record { pdid = pdid; divider = div; counter = 0 } in
    ground (
      arith,
      length-replace_sub (is_active pdid) sub ss,
      length-replace_sub (λ s. s.divider == 0) sub ss,
    )

pub length-subscribe_each :
    (div : ℕ) (dyn : List DynSlot) (pdids : List ℕ) (ss : List Subscription)
    → length (subscribe_each div dyn pdids ss).1 ≡ length ss
unfolding subscribe_each
length-subscribe_each div dyn [] ss = refl
length-subscribe_each div dyn (p ∷ ps) ss = grind (
  arith,
  length-subscribe div p ss,
  λ (subs : List Subscription). length-subscribe_each div dyn ps subs,
)

-- So does the replacement of a slot, and its records stay small.
abbrev pub Slots : List DynSlot → Option (List DynSlot) → Type 0
Slots ss none = Unit {0}
Slots ss (some ts) = (length ts ≡ length ss) × SmallSlots ts

pub replace_slot-Slots :
    (did : ℕ) (slot : DynSlot) (ss : List DynSlot)
    → SmallRecs slot.recs
    → SmallSlots ss
    → Slots ss (replace_slot did slot ss)
unfolding replace_slot
replace_slot-Slots did slot [] v w = tt
replace_slot-Slots did slot (s ∷ ss) v w = ground (arith, replace_slot-Slots did slot ss v w.1)

pub commit-Slots :
    (slot : DynSlot) (ss : List DynSlot)
    → SmallRecs slot.recs
    → SmallSlots ss
    → Slots ss (commit slot ss)
unfolding commit
commit-Slots slot ss v w =
    ground (arith, replace_slot-Slots slot.did slot ss v w, replace_slot-Slots 0 slot ss v w)
