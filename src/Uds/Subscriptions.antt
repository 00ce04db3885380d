-- ===== src/Uds/Subscriptions.antt =====
-- The table of periodic subscriptions: no identifier is subscribed twice.
use obd_simulator.Prelude.{
  ℕ, suc, ◌≡◌, ◌≢◌, ◌⊎◌, inl, List, [], ◌∷◌, Bool, length, ◌==◌, arith, refl, ap, subst, Option,
  none, some,
}
use obd_simulator.Uds.{App, DynSlot, Subscription, periodic_stop_all}
use obd_simulator.Uds.Periodic.{
  is_active, stop_one, stop_each, replace_sub, subscribe, subscribe_each, tick_one, tick_each,
}

-- No active subscription is for this identifier.
abbrev pub IsUnsubscribed : ℕ → List Subscription → Type 0
IsUnsubscribed pdid [] = Unit {0}
IsUnsubscribed pdid (s ∷ ss) = ((s.divider ≡ 0) ⊎ (s.pdid ≢ pdid)) × IsUnsubscribed pdid ss

-- No two active subscriptions are for one identifier.
abbrev pub HasDistinctPdids : List Subscription → Type 0
HasDistinctPdids [] = Unit {0}
HasDistinctPdids (s ∷ ss) = ((s.divider ≡ 0) ⊎ IsUnsubscribed s.pdid ss) × HasDistinctPdids ss

pub periodic_stop_all-Unsubscribed :
    (pdid : ℕ) (ss : List Subscription) → IsUnsubscribed pdid (periodic_stop_all ss)
unfolding periodic_stop_all
periodic_stop_all-Unsubscribed pdid [] = tt
periodic_stop_all-Unsubscribed pdid (s ∷ ss) = (inl refl, periodic_stop_all-Unsubscribed pdid ss)

pub periodic_stop_all-Distinct : (ss : List Subscription) → HasDistinctPdids (periodic_stop_all ss)
unfolding periodic_stop_all
periodic_stop_all-Distinct [] = tt
periodic_stop_all-Distinct (s ∷ ss) = (inl refl, periodic_stop_all-Distinct ss)

stop_one-Unsubscribed :
    (k pdid : ℕ) (ss : List Subscription)
    → IsUnsubscribed k ss
    → IsUnsubscribed k (stop_one pdid ss).1
unfolding stop_one
stop_one-Unsubscribed k pdid [] v = tt
stop_one-Unsubscribed k pdid (s ∷ ss) v = ground (arith, stop_one-Unsubscribed k pdid ss v.1)

stop_one-Distinct :
    (pdid : ℕ) (ss : List Subscription)
    → HasDistinctPdids ss
    → HasDistinctPdids (stop_one pdid ss).1
unfolding stop_one
stop_one-Distinct pdid [] v = tt
stop_one-Distinct pdid (s ∷ ss) v =
    ground (arith, stop_one-Distinct pdid ss v.1, stop_one-Unsubscribed s.pdid pdid ss)

pub stop_each-Distinct :
    (pdids : List ℕ) (ss : List Subscription)
    → HasDistinctPdids ss
    → HasDistinctPdids (stop_each pdids ss).1
unfolding stop_each
stop_each-Distinct [] ss v = v
stop_each-Distinct (p ∷ ps) ss v =
    ground (arith, stop_one-Distinct p ss v, stop_each-Distinct ps (stop_one p ss).1)

-- A table that a replacement may bring has this property.
abbrev Holds : (List Subscription → Type 0) → Option (List Subscription) → Type 0
Holds P none = Unit {0}
Holds P (some ss) = P ss

replace_sub-Unsubscribed :
    (k : ℕ) (test : Subscription → Bool) (sub : Subscription) (ss : List Subscription)
    → sub.pdid ≢ k
    → IsUnsubscribed k ss
    → Holds (IsUnsubscribed k) (replace_sub test sub ss)
unfolding replace_sub
replace_sub-Unsubscribed k test sub [] n v = tt
replace_sub-Unsubscribed k test sub (s ∷ ss) n v =
    ground (arith, replace_sub-Unsubscribed k test sub ss n v.1)

-- The place of the identifier's own subscription: the rest of the table has none.
replace_active-Distinct :
    (sub : Subscription) (ss : List Subscription)
    → HasDistinctPdids ss
    → Holds HasDistinctPdids (replace_sub (is_active sub.pdid) sub ss)
unfolding replace_sub
replace_active-Distinct sub [] v = tt
replace_active-Distinct sub (s ∷ ss) v = ground (
  arith,
  replace_active-Distinct sub ss v.1,
  replace_sub-Unsubscribed s.pdid (is_active sub.pdid) sub ss,
  λ (e : s.pdid ≡ sub.pdid) (u : IsUnsubscribed s.pdid ss). subst (λ k. IsUnsubscribed k ss) e u,
)

-- No place of its own: there is no active subscription.
replace_active-none :
    (sub : Subscription) (ss : List Subscription)
    → replace_sub (is_active sub.pdid) sub ss ≡ none
    → IsUnsubscribed sub.pdid ss
unfolding replace_sub
replace_active-none sub [] e = tt
replace_active-none sub (s ∷ ss) e = ground (arith, replace_active-none sub ss)

replace_free-Distinct :
    (sub : Subscription) (ss : List Subscription)
    → IsUnsubscribed sub.pdid ss
    → HasDistinctPdids ss
    → Holds HasDistinctPdids (replace_sub (λ s. s.divider == 0) sub ss)
unfolding replace_sub
replace_free-Distinct sub [] u v = tt
replace_free-Distinct sub (s ∷ ss) u v = ground (
  arith,
  replace_free-Distinct sub ss u.1 v.1,
  replace_sub-Unsubscribed s.pdid (λ s'. s'.divider == 0) sub ss,
)

subscribe-Distinct :
    (div pdid : ℕ) (ss : List Subscription)
    → HasDistinctPdids ss
    → Holds HasDistinctPdids (subscribe div pdid ss)
unfolding subscribe
subscribe-Distinct div pdid ss v =
    let sub : Subscription = record { pdid = pdid; divider = div; counter = 0 } in
    ground (
      arith,
      replace_active-Distinct sub ss v,
      replace_active-none sub ss,
      replace_free-Distinct sub ss,
    )

pub subscribe_each-Distinct :
    (div : ℕ) (dyn : List DynSlot) (pdids : List ℕ) (ss : List Subscription)
    → HasDistinctPdids ss
    → HasDistinctPdids (subscribe_each div dyn pdids ss).1
unfolding subscribe_each
subscribe_each-Distinct div dyn [] ss v = v
subscribe_each-Distinct div dyn (p ∷ ps) ss v = grind (
  arith,
  subscribe-Distinct div p ss v,
  λ (subs : List Subscription). subscribe_each-Distinct div dyn ps subs,
)

tick_each-Unsubscribed :
    (k : ℕ) (mem : ℕ → ℕ) (a : App) (ss : List Subscription)
    → IsUnsubscribed k ss
    → IsUnsubscribed k (tick_each mem a ss).1
unfolding tick_each tick_one
tick_each-Unsubscribed k mem a [] v = tt
tick_each-Unsubscribed k mem a (s ∷ ss) v = ground (arith, tick_each-Unsubscribed k mem a ss v.1)

pub tick_each-Distinct :
    (mem : ℕ → ℕ) (a : App) (ss : List Subscription)
    → HasDistinctPdids ss
    → HasDistinctPdids (tick_each mem a ss).1
unfolding tick_each tick_one
tick_each-Distinct mem a [] v = tt
tick_each-Distinct mem a (s ∷ ss) v =
    ground (arith, tick_each-Distinct mem a ss v.1, tick_each-Unsubscribed s.pdid mem a ss)

pub length-tick_each :
    (mem : ℕ → ℕ) (a : App) (ss : List Subscription) → length (tick_each mem a ss).1 ≡ length ss
unfolding tick_each
length-tick_each mem a [] = refl
length-tick_each mem a (s ∷ ss) = ap suc (length-tick_each mem a ss)
