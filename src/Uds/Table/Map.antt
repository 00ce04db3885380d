-- ===== src/Uds/Table/Map.antt =====
-- The specification of 0x2C: a finite map from identifiers to records, its edits by requests, and the map
-- that a table stands for.
use mathlib.Core.Path.{fun_ext}
use obd_simulator.Prelude.{
  ℕ, ◌≡◌, ◌≢◌, List, [], ◌∷◌, length, get_or, ◌==◌, arith, if◌then◌else◌, Option, none, some, ◌<◌,
  ◌⊎◌, ◌+◌, ◌*◌, ◌/◌, ◌%◌,
}
use obd_simulator.Uds.{
  DynRec, DynSlot, build_negative_response, empty_slot, did_dynamic_base, did_dynamic_end,
}
use obd_simulator.Uds.Sources.{dyn_find}
use obd_simulator.Uds.Dynamic.{replace_slot, commit}
use obd_simulator.Uds.Table.Request.{ByIdentifier, ByMemoryAddress}
use obd_simulator.Uds.Table.{HasDistinctDids, replace_slot-Clears, commit-Commits}

-- A map from identifiers to records, and its two changes.
abbrev pub RecordMap : Type 0
RecordMap = ℕ → Option (List DynRec)

abbrev pub put : ℕ → List DynRec → RecordMap → RecordMap
put did recs m k = if did == k then some recs else m k

abbrev pub remove : ℕ → RecordMap → RecordMap
remove did m k = if did == k then none else m k

-- The map that a table stands for: the records of each identifier that has a slot.
unfoldable pub view : List DynSlot → RecordMap
view ss k =
    if k == 0
    then none
    else elim (dyn_find k ss) as (λ _. Option (List DynRec)) [ none ↦ none | some s ↦ some s.recs ]

-- What a request asks for: the sub-function and the identifier.
abbrev pub asked_sub : List ℕ → ℕ
asked_sub req = get_or req 1 0 % 128

abbrev pub asked_did : List ℕ → ℕ
asked_did req = get_or req 2 0 * 256 + get_or req 3 0

-- The positive answer: the sub-function and the two bytes of the identifier.
abbrev pub confirms : List ℕ → List ℕ
confirms req = 0x6C ∷ asked_sub req ∷ asked_did req / 256 % 256 ∷ asked_did req % 256 ∷ []

-- How the specification answers a request to a map: it is refused and the map stays; or it stores
-- under the identifier asked for the records that the request spells out, at least one; or it
-- removes that identifier, which was defined. A clear request for an identifier of the right range is
-- refused only if it was not defined.
pub data Edit (req : List ℕ) (m : RecordMap) : List ℕ → RecordMap → Type 0 where
  too_short : length req < 4 → Edit req m (build_negative_response 0x2C 0x13) m
  out_of_range :
      (asked_did req < did_dynamic_base) ⊎ (did_dynamic_end < asked_did req)
      → Edit req m (build_negative_response 0x2C 0x31) m
  not_supported :
      asked_sub req ≢ 0x01
      → asked_sub req ≢ 0x02
      → asked_sub req ≢ 0x03
      → Edit req m (build_negative_response 0x2C 0x12) m
  not_defined :
      (nrc : ℕ)
      → (asked_sub req ≡ 0x01) ⊎ (asked_sub req ≡ 0x02)
      → (nrc ≡ 0x13) ⊎ (nrc ≡ 0x31)
      → Edit req m (build_negative_response 0x2C nrc) m
  defined :
      (r : DynRec) (rs : List DynRec)
      → ((asked_sub req ≡ 0x01) × ByIdentifier req (r ∷ rs))
        ⊎ ((asked_sub req ≡ 0x02) × ByMemoryAddress req (r ∷ rs))
      → Edit req m (confirms req) (put (asked_did req) (r ∷ rs) m)
  nothing_to_clear :
      asked_sub req ≡ 0x03
      → m (asked_did req) ≡ none
      → Edit req m (build_negative_response 0x2C 0x31) m
  cleared :
      asked_sub req ≡ 0x03
      → m (asked_did req) ≢ none
      → Edit req m (confirms req) (remove (asked_did req) m)

pub view-commit :
    (slot : DynSlot) (ss ts : List DynSlot)
    → slot.did ≢ 0
    → commit slot ss ≡ some ts
    → view ts ≡ put slot.did slot.recs (view ss)
unfolding view
view-commit slot ss ts n e = fun_ext λ k. ground (arith, commit-Commits k slot ss)

pub view-remove :
    (did : ℕ) (ss ts : List DynSlot)
    → did ≢ 0
    → HasDistinctDids ss
    → replace_slot did empty_slot ss ≡ some ts
    → (view ss did ≢ none) × (view ts ≡ remove did (view ss))
unfolding view
view-remove did ss ts n v e = (
  ground (arith, replace_slot-Clears did did ss n n v),
  fun_ext λ k. ground (arith, λ (h : k ≢ 0). replace_slot-Clears k did ss h n v),
)
