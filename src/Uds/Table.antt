-- ===== src/Uds/Table.antt =====
-- The table of dynamic identifiers as a finite map from identifiers to records.
pub mod Map
pub mod Edit
pub mod Request
use mathlib.Core.Path.{fun_ext}
use obd_simulator.Prelude.{
  ℕ, zero, suc, ◌+◌, ◌≡◌, ◌≢◌, ◌≤◌, ◌<◌, ◌⊎◌, inl, inr, List, [], ◌∷◌, Bool, true, false, length,
  get_or, ◌==◌, arith, if◌then◌else◌, refl, ap, ◌∙◌, if_both, ltb, ◌||◌, Option, none, some,
  Bool-cases, be16,
}
use obd_simulator.Uds.{
  App, DynRec, DynSlot, build_negative_response, sub_function, empty_slot, did_dynamic_base,
  did_dynamic_end,
}
use obd_simulator.Uds.Sources.{dyn_find}
use obd_simulator.Uds.Dynamic.{
  replace_slot, commit, finish_definition, clear_definition, dyn_answer, handle_dynamic_define_did,
  define_by_identifier, define_by_memory_address, Scratch, refused, filled,
}

-- No identifier has two slots; 0 marks a free one.
abbrev pub HasDistinctDids : List DynSlot → Type 0
HasDistinctDids [] = Unit {0}
HasDistinctDids (s ∷ ss) = ((s.did ≡ 0) ⊎ (dyn_find s.did ss ≡ none)) × HasDistinctDids ss

-- The slots that are in use.
unfoldable pub used_slots : List DynSlot → ℕ
used_slots [] = 0
used_slots (s ∷ ss) = (if s.did == 0 then 0 else 1) + used_slots ss

-- What a replacement does to the lookup of `k`, and what its failure says.
abbrev Replaced : ℕ → DynSlot → ℕ → List DynSlot → Option (List DynSlot) → Type 0
Replaced k slot target ss none = dyn_find target ss ≡ none
Replaced k slot target ss (some ts) =
    (dyn_find k ts ≡ (if slot.did == k then some slot else dyn_find k ss))
    × (dyn_find target ss ≢ none)

-- A slot put in the place of its own identifier.
replace_slot-same :
    (k : ℕ) (slot : DynSlot) (ss : List DynSlot)
    → Replaced k slot slot.did ss (replace_slot slot.did slot ss)
unfolding replace_slot dyn_find
replace_slot-same k slot [] = refl
replace_slot-same k slot (s ∷ ss) = ground (arith, replace_slot-same k slot ss)

-- A slot put in the first free place, where its identifier has none.
replace_slot-free :
    (k : ℕ) (slot : DynSlot) (ss : List DynSlot)
    → k ≢ 0
    → dyn_find slot.did ss ≡ none
    → Replaced k slot 0 ss (replace_slot 0 slot ss)
unfolding replace_slot dyn_find
replace_slot-free k slot [] h e = refl
replace_slot-free k slot (s ∷ ss) h e = ground (arith, replace_slot-free k slot ss)

-- No free place is left exactly if every slot is in use.
dyn_find-full : (ss : List DynSlot) → dyn_find 0 ss ≡ none → used_slots ss ≡ length ss
unfolding dyn_find used_slots
dyn_find-full [] h = refl
dyn_find-full (s ∷ ss) h = ground (arith, dyn_find-full ss)

-- What a commit does to the lookup of `k`.
abbrev pub Commits : ℕ → DynSlot → List DynSlot → Option (List DynSlot) → Type 0
Commits k slot ss none = (dyn_find slot.did ss ≡ none) × (used_slots ss ≡ length ss)
Commits k slot ss (some ts) = dyn_find k ts ≡ (if slot.did == k then some slot else dyn_find k ss)

pub commit-Commits :
    (k : ℕ) (slot : DynSlot) (ss : List DynSlot) → k ≢ 0 → Commits k slot ss (commit slot ss)
unfolding commit
commit-Commits k slot ss h =
    ground (arith, replace_slot-same k slot ss, replace_slot-free k slot ss h, dyn_find-full ss)

-- What a clear does to the lookup of `k`.
abbrev pub Clears : ℕ → ℕ → List DynSlot → Option (List DynSlot) → Type 0
Clears k did ss none = dyn_find did ss ≡ none
Clears k did ss (some ts) =
    (dyn_find did ss ≢ none) × (dyn_find k ts ≡ (if did == k then none else dyn_find k ss))

pub replace_slot-Clears :
    (k did : ℕ) (ss : List DynSlot)
    → k ≢ 0
    → did ≢ 0
    → HasDistinctDids ss
    → Clears k did ss (replace_slot did empty_slot ss)
unfolding replace_slot dyn_find
replace_slot-Clears k did [] h n v = refl
replace_slot-Clears k did (s ∷ ss) h n v =
    ground (arith, replace_slot-Clears k did ss h n v.1, ap (λ (j : ℕ). dyn_find j ss))

-- A lookup of an identifier that a replacement does not bring, where there was none.
abbrev Lacks : ℕ → Option (List DynSlot) → Type 0
Lacks k none = Unit {0}
Lacks k (some ts) = dyn_find k ts ≡ none

replace_slot-Lacks :
    (k target : ℕ) (slot : DynSlot) (ss : List DynSlot)
    → slot.did ≢ k
    → dyn_find k ss ≡ none
    → Lacks k (replace_slot target slot ss)
unfolding replace_slot dyn_find
replace_slot-Lacks k target slot [] n h = tt
replace_slot-Lacks k target slot (s ∷ ss) n h =
    ground (arith, replace_slot-Lacks k target slot ss n)

abbrev pub Distinct : Option (List DynSlot) → Type 0
Distinct none = Unit {0}
Distinct (some ts) = HasDistinctDids ts

pub replace_slot-Distinct :
    (target : ℕ) (slot : DynSlot) (ss : List DynSlot)
    → (target ≡ slot.did) ⊎ ((slot.did ≡ 0) ⊎ (dyn_find slot.did ss ≡ none))
    → HasDistinctDids ss
    → Distinct (replace_slot target slot ss)
unfolding replace_slot dyn_find
replace_slot-Distinct target slot [] p v = tt
replace_slot-Distinct target slot (s ∷ ss) p v = ground (
  arith,
  replace_slot-Distinct target slot ss,
  replace_slot-Lacks s.did target slot ss,
  ap (λ (j : ℕ). dyn_find j ss),
)

pub commit-Distinct :
    (slot : DynSlot) (ss : List DynSlot) → HasDistinctDids ss → Distinct (commit slot ss)
unfolding commit
commit-Distinct slot ss v = ground (
  arith,
  replace_slot-Distinct slot.did slot ss (inl refl) v,
  replace_slot-Distinct 0 slot ss,
  replace_slot-same 1 slot ss,
)
