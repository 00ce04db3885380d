-- ===== src/Obd2/Dtc/Life.antt =====
-- The life of a trouble code: debounce, confirmation, persistence, clearing.
use obd_simulator.Prelude.{
  ℕ, suc, ◌+◌, ◌≤◌, ◌<◌, ◌≡◌, ◌≢◌, List, [], ◌∷◌, true, false, arith, length, ltb, if◌then◌else◌,
}
use obd_simulator.Obd2.{SimState}
use obd_simulator.Obd2.Dtc.{
  DtcEntry, dtc_inactive, dtc_pending, dtc_confirmed, update_entry, fault_present, debounce_thresh,
  confirm_hold,
}

-- What holds of an entry between two updates.
pub record IsEntry (d : DtcEntry) : Type 0 where
  pub debounce_byte : d.debounce ≤ 255
  pub hold_byte : d.hold ≤ 255
  pub inactive_young : d.state ≡ dtc_inactive → d.debounce < debounce_thresh
  pub pending_hold : d.state ≡ dtc_pending → (1 ≤ d.hold) × (d.hold < confirm_hold)
  pub pending_failed : d.state ≡ dtc_pending → d.snapshot.valid ≡ true
  pub confirmed_latched : d.state ≡ dtc_confirmed → d.permanent ≡ true

-- An update of an entry keeps its invariant: counters are bytes, an INACTIVE code is below the
-- debounce threshold, a PENDING code has a hold count from 1 to 49 and a freeze frame, a CONFIRMED
-- code is latched as permanent.
pub update_entry-IsEntry :
    (st : SimState) (seq : ℕ) (d : DtcEntry) → IsEntry d → IsEntry (update_entry st seq d).1
unfolding update_entry
update_entry-IsEntry st seq d v = ground arith

-- A confirmed code stays confirmed, whatever the simulated values do.
pub update_entry_confirmed :
    (st : SimState) (seq : ℕ) (d : DtcEntry)
    → d.state ≡ dtc_confirmed
    → ((update_entry st seq d).1.state ≡ dtc_confirmed)
      × ((update_entry st seq d).0 ≡ seq)
      × ((update_entry st seq d).1.fail_seq ≡ d.fail_seq)
unfolding update_entry
update_entry_confirmed st seq d h = ground arith

-- The updates of one entry over a sequence of simulated states.
unfoldable pub run : List SimState → ℕ → DtcEntry → ℕ × DtcEntry
run [] seq d = (seq, d)
run (st ∷ sts) seq d = let (seq', d') = update_entry st seq d in run sts seq' d'

-- Every state of the sequence shows the fault.
abbrev pub Faulty : ℕ → List SimState → Type 0
Faulty code [] = Unit {0}
Faulty code (st ∷ sts) = (fault_present code st ≡ true) × Faulty code sts

-- An entry whose fault has been present for exactly the last `age` ticks, and that was idle
-- before them.
pub record IsAged (age : ℕ) (d : DtcEntry) : Type 0 where
  pub young : age < debounce_thresh → (d.state ≡ dtc_inactive) × (d.debounce ≡ age)
  pub pending : debounce_thresh ≤ age → age < 54 → (d.state ≡ dtc_pending) × (d.hold + 4 ≡ age)
  pub confirmed : 54 ≤ age → d.state ≡ dtc_confirmed

update_entry-IsAged :
    (st : SimState) (seq age : ℕ) (d : DtcEntry)
    → fault_present d.code st ≡ true
    → IsAged age d
    → IsAged (age + 1) (update_entry st seq d).1 × ((update_entry st seq d).1.code ≡ d.code)
unfolding update_entry
update_entry-IsAged st seq age d f a = ground arith

run-IsAged :
    (sts : List SimState) (seq age : ℕ) (d : DtcEntry)
    → Faulty d.code sts
    → IsAged age d
    → IsAged (age + length sts) (run sts seq d).1
unfolding run
run-IsAged [] seq age d f a = rw (let e : age + 0 ≡ age = omega arith in e) a
run-IsAged (st ∷ sts) seq age d f a =
    let step = update_entry-IsAged st seq age d f.0 a in
    let (seq', d') = update_entry st seq d in
    rw (let e : age + suc (length sts) ≡ age + 1 + length sts = omega arith in e)
      (run-IsAged sts seq' (age + 1) d' (rw step.1 f.1) step.0)

-- A code that is idle, and whose fault then stays present: fewer than 5 ticks leave it INACTIVE,
-- from the 5th to the 53rd it is PENDING, and from the 54th on CONFIRMED.
pub run-Faulty :
    (sts : List SimState) (seq : ℕ) (d : DtcEntry)
    → Faulty d.code sts
    → d.state ≡ dtc_inactive
    → d.debounce ≡ 0
    → (run sts seq d).1.state ≡ (
        if ltb (length sts) debounce_thresh
        then dtc_inactive
        else if ltb (length sts) 54
        then dtc_pending
        else dtc_confirmed)
run-Faulty sts seq d f s b = ground (arith, run-IsAged sts seq 0 d f (ground arith))

-- One tick without the fault brings a code that is not CONFIRMED to INACTIVE with its debounce
-- counter at 0, and counts no detection.
pub update_entry_healed :
    (st : SimState) (seq : ℕ) (d : DtcEntry)
    → fault_present d.code st ≡ false
    → d.state ≢ dtc_confirmed
    → ((update_entry st seq d).1.state ≡ dtc_inactive)
      × ((update_entry st seq d).1.debounce ≡ 0)
      × ((update_entry st seq d).0 ≡ seq)
unfolding update_entry
update_entry_healed st seq d f c = ground arith
