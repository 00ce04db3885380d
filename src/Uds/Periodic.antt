-- ===== src/Uds/Periodic.antt =====
-- 0x2A ReadDataByPeriodicIdentifier and UDS_PeriodicTick.
use obd_simulator.Prelude.{
  ℕ, ◌+◌, List, [], ◌∷◌, ◌++◌, Bool, true, false, not, ◌&&◌, ltb, ◌==◌, if◌then◌else◌, length, drop,
  get_or, u8, Option, none, some,
}
use obd_simulator.Uds.{
  App, DynSlot, Subscription, build_negative_response, sub_function, periodic_stop_all,
  did_dynamic_base, dyn_max_data,
}
use obd_simulator.Uds.Sources.{dyn_find, dyn_assemble}

-- UDS_PERIODIC_SLOW_DIV, UDS_PERIODIC_MEDIUM_DIV and UDS_PERIODIC_FAST_DIV
abbrev pub slow_div : ℕ
slow_div = 100

abbrev pub medium_div : ℕ
medium_div = 10

abbrev pub fast_div : ℕ
fast_div = 2

-- The subscription is active, and for this identifier.
abbrev pub is_active : ℕ → Subscription → Bool
is_active pdid s = not (s.divider == 0) && s.pdid == pdid

-- The inner loop of stopSending: `found`, and the slots.
unfoldable pub stop_one : ℕ → List Subscription → Bool × List Subscription
stop_one pdid [] = (false, [])
stop_one pdid (s ∷ ss) =
    let (found, ss') = stop_one pdid ss in
    if is_active pdid s then (true, record s { divider = 0 } ∷ ss') else (found, s ∷ ss')

-- The outer loop: true if every identifier was found; those before the first that was not are
-- stopped.
unfoldable pub stop_each : List ℕ → List Subscription → Bool × List Subscription
unfolding stop_one
stop_each [] subs = (true, subs)
stop_each (pdid ∷ pdids) subs =
    let (found, subs') = stop_one pdid subs in
    let rest = stop_each pdids subs' in if found then rest else (false, subs')

-- The first subscription that a test accepts, replaced.
unfoldable pub replace_sub :
    (Subscription → Bool) → Subscription → List Subscription → Option (List Subscription)
replace_sub test sub [] = none
replace_sub test sub (s ∷ ss) =
    let rest = elim (replace_sub test sub ss) as (λ _. Option (List Subscription)) [
      | none ↦ none
      | some ss' ↦ some (s ∷ ss')
    ] in
    if test s then some (sub ∷ ss) else rest

-- The slot of an active subscription is taken over, or else the first that is free.
unfoldable pub subscribe : ℕ → ℕ → List Subscription → Option (List Subscription)
unfolding replace_sub
subscribe div pdid subs =
    let sub : Subscription = record { pdid = pdid; divider = div; counter = 0 } in
    elim (replace_sub (is_active pdid) sub subs) [
      | some subs' ↦ some subs'
      | none ↦ replace_sub (λ s. s.divider == 0) sub subs
    ]

-- The loop over the identifiers of a request: true if all are subscribed.
unfoldable pub subscribe_each :
    ℕ → List DynSlot → List ℕ → List Subscription → Bool × List Subscription
unfolding subscribe
subscribe_each div dyn [] subs = (true, subs)
subscribe_each div dyn (pdid ∷ pdids) subs =
    elim (dyn_find (did_dynamic_base + pdid) dyn) as (λ _. Bool × List Subscription) [
      | none ↦ (false, subs)
      | some slot ↦ elim (subscribe div pdid subs) as (λ _. Bool × List Subscription) [
        | none ↦ (false, subs)
        | some subs' ↦ subscribe_each div dyn pdids subs'
      ]
    ]

-- The divider of a transmission mode; 0 for a mode that there is not.
unfoldable pub mode_div : ℕ → ℕ
mode_div mode =
    if mode == 0x01
    then slow_div
    else if mode == 0x02
    then medium_div
    else if mode == 0x03
    then fast_div
    else 0

-- How a loop over identifiers ends.
abbrev pub finish_periodic : ℕ → Bool × List Subscription → App → List ℕ × App
finish_periodic mode (done, subs) a = (
  if done then 0x6A ∷ mode ∷ [] else build_negative_response 0x2A 0x31,
  record a { periodic = subs },
)

unfoldable pub handle_read_data_periodic : List ℕ → App → List ℕ × App
unfolding stop_each subscribe_each mode_div
handle_read_data_periodic req a =
    let mode = sub_function (get_or req 1 0) in
    if ltb (length req) 2
    then (build_negative_response 0x2A 0x13, a)
    else if mode == 0x04
    then (if length req == 2
        then finish_periodic mode (true, periodic_stop_all a.periodic) a
        else finish_periodic mode (stop_each (drop 2 req) a.periodic) a)
    else if mode_div mode == 0
    then (build_negative_response 0x2A 0x12, a)
    else if ltb (length req) 3
    then (build_negative_response 0x2A 0x13, a)
    else finish_periodic mode (subscribe_each (mode_div mode) a.dyn (drop 2 req) a.periodic) a

-- The data of the identifier that a subscription is for.
unfoldable pub periodic_data : (ℕ → ℕ) → App → ℕ → List ℕ
periodic_data mem a pdid = elim (dyn_find (did_dynamic_base + pdid) a.dyn) [
  | none ↦ []
  | some slot ↦ dyn_assemble mem a.vin a.io_port slot dyn_max_data
]

-- One round of the loop of UDS_PeriodicTick: the frames sent, and the subscription.
unfoldable pub tick_one : (ℕ → ℕ) → App → Subscription → List (List ℕ) × Subscription
tick_one mem a s =
    let counted = record s { counter = u8 (s.counter + 1) } in
    let found = periodic_data mem a s.pdid in
    if s.divider == 0
    then ([], s)
    else if ltb counted.counter s.divider
    then ([], counted)
    else if length found == 0
    then ([], record s { counter = 0; divider = 0 })
    else ((s.pdid ∷ found) ∷ [], record s { counter = 0 })

unfoldable pub tick_each : (ℕ → ℕ) → App → List Subscription → List (List ℕ) × List Subscription
unfolding tick_one
tick_each mem a [] = ([], [])
tick_each mem a (s ∷ ss) =
    let (frames, s') = tick_one mem a s in
    let (more, ss') = tick_each mem a ss in (frames ++ more, s' ∷ ss')

-- UDS_PeriodicTick: the responses handed to ISO_TP_SendResponse, in order.
unfoldable pub periodic_tick : (ℕ → ℕ) → App → List (List ℕ) × App
unfolding tick_each
periodic_tick mem a =
    let (frames, subs) = tick_each mem a a.periodic in (frames, record a { periodic = subs })
