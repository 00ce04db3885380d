-- ===== src/Uds/Table/Edit.antt =====
-- 0x2C DynamicallyDefineDataIdentifier against its specification, edits of a finite map.
use obd_simulator.Prelude.{
  ℕ, ◌≡◌, ◌≢◌, inl, inr, List, [], ◌∷◌, length, ◌==◌, arith, refl, if_both, ltb, ◌||◌, Option, none,
  some, ◌⊎◌,
}
use obd_simulator.Uds.{
  App, DynRec, DynSlot, build_negative_response, empty_slot, did_dynamic_base, did_dynamic_end,
}
use obd_simulator.Uds.Sources.{dyn_find}
use obd_simulator.Uds.Dynamic.{
  replace_slot, commit, finish_definition, clear_definition, dyn_answer, handle_dynamic_define_did,
  define_by_identifier, define_by_memory_address, Scratch, refused, filled,
}
use obd_simulator.Uds.Table.Request.{
  IsRefusal, define_by_identifier-IsRefusal, define_by_memory_address-IsRefusal, ByIdentifier,
  ByMemoryAddress, define_by_identifier-ByIdentifier, define_by_memory_address-ByMemoryAddress,
}
use obd_simulator.Uds.Table.{HasDistinctDids, replace_slot-Distinct, commit-Distinct}
use obd_simulator.Uds.Table.Map.{view, asked_sub, asked_did, Edit, view-commit, view-remove}

-- What the answer and the new table are, by whether there is a new table.
abbrev commit_result : ℕ → ℕ → App → Option (List DynSlot) → List ℕ × App
commit_result sub did a none = (build_negative_response 0x2C 0x31, a)
commit_result sub did a (some ts) = (dyn_answer sub did, record a { dyn = ts })

pub finish_definition-Distinct :
    (sub did : ℕ) (s : Scratch) (a : App)
    → HasDistinctDids a.dyn
    → HasDistinctDids (finish_definition sub did s a).1.dyn
unfolding finish_definition
finish_definition-Distinct sub did (refused nrc) a v = v
finish_definition-Distinct sub did (filled []) a v = v
finish_definition-Distinct sub did (filled (r ∷ rs)) a v =
    ground (arith, commit-Distinct (record { did = did; recs = r ∷ rs }) a.dyn v)

pub clear_definition-Distinct :
    (sub did : ℕ) (a : App)
    → HasDistinctDids a.dyn
    → HasDistinctDids (clear_definition sub did a).1.dyn
unfolding clear_definition
clear_definition-Distinct sub did a v =
    ground (arith, replace_slot-Distinct did empty_slot a.dyn (inr (inl refl)) v)

-- The records that a define request comes to are those it asks for.
abbrev Asked : List ℕ → List DynRec → Type 0
Asked req recs =
    ((asked_sub req ≡ 0x01) × ByIdentifier req recs)
    ⊎ ((asked_sub req ≡ 0x02) × ByMemoryAddress req recs)

-- What a scratch slot holds.
abbrev Fits : List ℕ → Scratch → Type 0
Fits req (refused nrc) = IsRefusal nrc
Fits req (filled []) = Unit {0}
Fits req (filled (r ∷ rs)) = Asked req (r ∷ rs)

commit_result-Edit :
    (req : List ℕ) (a : App) (r : DynRec) (rs : List DynRec) (o : Option (List DynSlot))
    → asked_did req ≢ 0
    → Asked req (r ∷ rs)
    → commit (record { did = asked_did req; recs = r ∷ rs }) a.dyn ≡ o
    → Edit req
        (view a.dyn)
        (commit_result (asked_sub req) (asked_did req) a o).0
        (view (commit_result (asked_sub req) (asked_did req) a o).1.dyn)
commit_result-Edit req a r rs none n asked e =
    Edit.not_defined 0x31 (ground (arith, asked)) (inr refl)
commit_result-Edit req a r rs (some ts) n asked e =
    rw (view-commit (record { did = asked_did req; recs = r ∷ rs }) a.dyn ts n e)
      (Edit.defined r rs asked)

finish_definition-Edit :
    (req : List ℕ) (s : Scratch) (a : App)
    → asked_did req ≢ 0
    → (asked_sub req ≡ 0x01) ⊎ (asked_sub req ≡ 0x02)
    → Fits req s
    → Edit req
        (view a.dyn)
        (finish_definition (asked_sub req) (asked_did req) s a).0
        (view (finish_definition (asked_sub req) (asked_did req) s a).1.dyn)
unfolding finish_definition
finish_definition-Edit req (refused nrc) a n sub fits = Edit.not_defined nrc sub fits
finish_definition-Edit req (filled []) a n sub fits = Edit.not_defined 0x31 sub (inr refl)
finish_definition-Edit req (filled (r ∷ rs)) a n sub fits =
    let slot : DynSlot = record { did = asked_did req; recs = r ∷ rs } in
    let same : finish_definition (asked_sub req) (asked_did req) (filled (r ∷ rs)) a
        ≡ commit_result (asked_sub req) (asked_did req) a (commit slot a.dyn) =
      ground arith in
    rw same (commit_result-Edit req a r rs (commit slot a.dyn) n fits refl)

to_Fits :
    (req : List ℕ) (s : Scratch)
    → ((nrc : ℕ) → s ≡ refused nrc → IsRefusal nrc)
    → ((r : DynRec) (rs : List DynRec) → s ≡ filled (r ∷ rs) → Asked req (r ∷ rs))
    → Fits req s
to_Fits req (refused nrc) f g = f nrc refl
to_Fits req (filled []) f g = tt
to_Fits req (filled (r ∷ rs)) f g = g r rs refl

view-replace_none :
    (did : ℕ) (ss : List DynSlot) → replace_slot did empty_slot ss ≡ none → dyn_find did ss ≡ none
unfolding replace_slot dyn_find
view-replace_none did [] e = refl
view-replace_none did (s ∷ ss) e = ground (arith, e, view-replace_none did ss)

clear_result-Edit :
    (req : List ℕ) (a : App) (o : Option (List DynSlot))
    → asked_did req ≢ 0
    → asked_sub req ≡ 0x03
    → HasDistinctDids a.dyn
    → replace_slot (asked_did req) empty_slot a.dyn ≡ o
    → Edit req
        (view a.dyn)
        (commit_result (asked_sub req) (asked_did req) a o).0
        (view (commit_result (asked_sub req) (asked_did req) a o).1.dyn)
unfolding view
clear_result-Edit req a none n sub v e =
    Edit.nothing_to_clear sub (ground (arith, view-replace_none (asked_did req) a.dyn e))
clear_result-Edit req a (some ts) n sub v e =
    let (was, now) = view-remove (asked_did req) a.dyn ts n v e in rw now (Edit.cleared sub was)

clear_definition-Edit :
    (req : List ℕ) (a : App)
    → asked_did req ≢ 0
    → asked_sub req ≡ 0x03
    → HasDistinctDids a.dyn
    → Edit req
        (view a.dyn)
        (clear_definition (asked_sub req) (asked_did req) a).0
        (view (clear_definition (asked_sub req) (asked_did req) a).1.dyn)
unfolding clear_definition
clear_definition-Edit req a n sub v =
    let same : clear_definition (asked_sub req) (asked_did req) a
        ≡ commit_result (asked_sub req) (asked_did req) a
            (replace_slot (asked_did req) empty_slot a.dyn) =
      ground arith in
    rw same (clear_result-Edit req a (replace_slot (asked_did req) empty_slot a.dyn) n sub v refl)

-- What each branch of the handler comes to.
record Keeps (req : List ℕ) (a : App) (r : List ℕ × App) : Type 0 where
  edit : Edit req (view a.dyn) r.0 (view r.1.dyn)
  distinct : HasDistinctDids r.1.dyn

finish_definition-Keeps :
    (req : List ℕ) (s : Scratch) (a : App)
    → asked_did req ≢ 0
    → (asked_sub req ≡ 0x01) ⊎ (asked_sub req ≡ 0x02)
    → Fits req s
    → HasDistinctDids a.dyn
    → Keeps req a (finish_definition (asked_sub req) (asked_did req) s a)
finish_definition-Keeps req s a n sub fits v = record {
  edit = finish_definition-Edit req s a n sub fits;
  distinct = finish_definition-Distinct (asked_sub req) (asked_did req) s a v;
}

handle_dynamic_define_did-Keeps :
    (req : List ℕ) (a : App) → HasDistinctDids a.dyn → Keeps req a (handle_dynamic_define_did req a)
unfolding handle_dynamic_define_did
handle_dynamic_define_did-Keeps req a v =
    let did = asked_did req in
    let sub = asked_sub req in
    let P = Keeps req a in
    if_both P (ltb (length req) 4)
      (λ e. record { edit = Edit.too_short (ground (arith, e)); distinct = v })
      λ _.
        if_both P (ltb did did_dynamic_base || ltb did_dynamic_end did)
          (λ e. record { edit = Edit.out_of_range (ground (arith, e)); distinct = v })
          λ range.
            let n : did ≢ 0 = ground arith in
            if_both P (sub == 0x01)
              (λ e.
                let one : sub ≡ 0x01 = ground (arith, e) in
                finish_definition-Keeps req (define_by_identifier req a) a n (inl one)
                  (to_Fits req (define_by_identifier req a) (define_by_identifier-IsRefusal req a)
                    (λ r rs h. inl (one, define_by_identifier-ByIdentifier req a r rs h)))
                  v)
              λ not_one.
                if_both P (sub == 0x02)
                  (λ e.
                    let two : sub ≡ 0x02 = ground (arith, e) in
                    finish_definition-Keeps req (define_by_memory_address req) a n (inr two)
                      (to_Fits req (define_by_memory_address req)
                        (define_by_memory_address-IsRefusal req)
                        (λ r rs h. inr (two, define_by_memory_address-ByMemoryAddress req r rs h)))
                      v)
                  λ not_two.
                    if_both P (sub == 0x03)
                      (λ e. record {
                        edit = clear_definition-Edit req a n (ground (arith, e)) v;
                        distinct = clear_definition-Distinct sub did a v;
                      })
                      λ not_three. record {
                        edit =
                            Edit.not_supported (ground (arith, not_one)) (ground (arith, not_two))
                              (ground (arith, not_three));
                        distinct = v;
                      }

-- Every DynamicallyDefineDataIdentifier request, of any content, does on the table what an edit of
-- a finite map does: a refusal leaves the map as it is; a define request that is confirmed puts under
-- the identifier of its bytes 2 and 3 the records that the rest of its bytes spell out, all of them
-- in their order (their number counted in a byte), and changes no other identifier; a clear request
-- removes its identifier and no other, and in the range of dynamic identifiers it is refused only if
-- that was not defined; the confirmation repeats the sub-function and the identifier. This is for a
-- table in which no identifier has two slots, which the request preserves.
pub handle_dynamic_define_did-Edit :
    (req : List ℕ) (a : App)
    → HasDistinctDids a.dyn
    → Edit req
        (view a.dyn)
        (handle_dynamic_define_did req a).0
        (view (handle_dynamic_define_did req a).1.dyn)
      × HasDistinctDids (handle_dynamic_define_did req a).1.dyn
handle_dynamic_define_did-Edit req a v =
    let k = handle_dynamic_define_did-Keeps req a v in (k.edit, k.distinct)
