-- ===== src/Uds/Cadence.antt =====
-- When a periodic subscription sends.
use obd_simulator.Prelude.{
  ℕ, zero, suc, ◌≡◌, ◌≢◌, ◌<◌, List, [], ◌∷◌, ◌++◌, length, get_or, arith, refl, ap, ◌∙◌, sym,
  subst,
}
use obd_simulator.Uds.{App, Subscription, no_subscription}
use obd_simulator.Uds.Periodic.{periodic_data, tick_one, tick_each, periodic_tick}

-- The state after `k` ticks.
unfoldable pub ticks : (ℕ → ℕ) → ℕ → App → App
ticks mem zero a = a
ticks mem (suc k) a = (periodic_tick mem (ticks mem k a)).1

-- The frame is among these.
pub data Sends (frame : List ℕ) : List (List ℕ) → Type 0 where
  here : (fs : List (List ℕ)) → Sends frame (frame ∷ fs)
  later : (f : List ℕ) (fs : List (List ℕ)) → Sends frame fs → Sends frame (f ∷ fs)

Sends-append_right :
    (frame : List ℕ) (gs fs : List (List ℕ)) → Sends frame fs → Sends frame (gs ++ fs)
Sends-append_right frame [] fs v = v
Sends-append_right frame (g ∷ gs) fs v = Sends.later g (gs ++ fs) (Sends-append_right frame gs fs v)

Sends-append_left :
    (frame : List ℕ) (gs fs : List (List ℕ)) → Sends frame gs → Sends frame (gs ++ fs)
Sends-append_left frame _ fs (Sends.here gs) = Sends.here (gs ++ fs)
Sends-append_left frame _ fs (Sends.later g gs v) =
    Sends.later g (gs ++ fs) (Sends-append_left frame gs fs v)

-- A tick reads what the subscriptions of the state do not hold.
ticks-same :
    (mem : ℕ → ℕ) (k pdid : ℕ) (a : App)
    → periodic_data mem (ticks mem k a) pdid ≡ periodic_data mem a pdid
unfolding ticks periodic_tick periodic_data
ticks-same mem zero pdid a = refl
ticks-same mem (suc k) pdid a = ticks-same mem k pdid a

abbrev slot : ℕ → App → Subscription
slot i a = get_or a.periodic i no_subscription

-- Each slot is ticked on its own.
tick_each-slot :
    (mem : ℕ → ℕ) (a : App) (i : ℕ) (ss : List Subscription)
    → get_or (tick_each mem a ss).1 i no_subscription
      ≡ (tick_one mem a (get_or ss i no_subscription)).1
unfolding tick_each tick_one
tick_each-slot mem a i [] = refl
tick_each-slot mem a zero (s ∷ ss) = refl
tick_each-slot mem a (suc i) (s ∷ ss) = tick_each-slot mem a i ss

-- What a slot sends is sent.
tick_each-Sends :
    (mem : ℕ → ℕ) (a : App) (frame : List ℕ) (i : ℕ) (ss : List Subscription)
    → Sends frame (tick_one mem a (get_or ss i no_subscription)).0
    → Sends frame (tick_each mem a ss).0
unfolding tick_each tick_one
tick_each-Sends mem a frame i [] v = v
tick_each-Sends mem a frame zero (s ∷ ss) v =
    Sends-append_left frame (tick_one mem a s).0 (tick_each mem a ss).0 v
tick_each-Sends mem a frame (suc i) (s ∷ ss) v =
    Sends-append_right frame (tick_one mem a s).0 (tick_each mem a ss).0
      (tick_each-Sends mem a frame i ss v)

-- A subscription with its divider, and its counter.
abbrev pub counting : ℕ → ℕ → ℕ → Subscription
counting pdid div k = record { pdid = pdid; divider = div; counter = k }

tick_one-counting :
    (mem : ℕ → ℕ) (a : App) (pdid div k : ℕ)
    → suc k < div
    → div < 256
    → tick_one mem a (counting pdid div k) ≡ ([], counting pdid div (suc k))
unfolding tick_one
tick_one-counting mem a pdid div k h f = ground arith

tick_one-due :
    (mem : ℕ → ℕ) (a : App) (pdid k : ℕ) (bytes : List ℕ)
    → suc k < 256
    → periodic_data mem a pdid ≡ bytes
    → length bytes ≢ 0
    → tick_one mem a (counting pdid (suc k) k) ≡ ((pdid ∷ bytes) ∷ [], counting pdid (suc k) 0)
unfolding tick_one
tick_one-due mem a pdid k bytes f e n = ground arith

module _ (mem : ℕ → ℕ) (i pdid div : ℕ) (a : App) (subscribed : slot i a ≡ counting pdid div 0)
    (fits : div < 256) where
  slot-ticks : (k : ℕ) → k < div → slot i (ticks mem k a) ≡ counting pdid div k
  unfolding ticks periodic_tick
  slot-ticks zero h = subscribed
  slot-ticks (suc k) h =
      let before = ticks mem k a in
      tick_each-slot mem before i before.periodic
      ∙ ap (λ (s : Subscription). (tick_one mem before s).1) (slot-ticks k (omega arith))
      ∙ ap (λ (r : List (List ℕ) × Subscription). r.1)
          (tick_one-counting mem before pdid div k h fits)

-- A subscription of an identifier that has data, with its counter at 0 and a divider `n + 1` below
-- 256: at each of the first `n` ticks it only counts and sends nothing, at the tick `n + 1` its
-- frame, the low byte of the identifier and the data, is among those sent, and then it is as it was
-- at first, so that it sends again after as many ticks. Nothing but ticks happens meanwhile.
pub ticks-Sends :
    (mem : ℕ → ℕ) (i pdid n k : ℕ) (a : App)
    → get_or a.periodic i no_subscription ≡ counting pdid (suc n) 0
    → suc n < 256
    → length (periodic_data mem a pdid) ≢ 0
    → k < n
    → ((tick_one mem (ticks mem k a) (get_or (ticks mem k a).periodic i no_subscription)).0 ≡ [])
      × Sends (pdid ∷ periodic_data mem a pdid) (periodic_tick mem (ticks mem n a)).0
      × (get_or (ticks mem (suc n) a).periodic i no_subscription ≡ counting pdid (suc n) 0)
unfolding ticks periodic_tick
ticks-Sends mem i pdid n k a start fits some_data h =
    let early = ticks mem k a in
    let last = ticks mem n a in
    let same : periodic_data mem last pdid ≡ periodic_data mem a pdid = ticks-same mem n pdid a in
    let bytes = periodic_data mem a pdid in
    let due : tick_one mem last (slot i last) ≡ ((pdid ∷ bytes) ∷ [], counting pdid (suc n) 0) =
      ap (tick_one mem last) (slot-ticks mem i pdid (suc n) a start fits n (omega arith))
      ∙ tick_one-due mem last pdid n bytes fits same some_data in
    (
      ap (λ (s : Subscription). (tick_one mem early s).0)
            (slot-ticks mem i pdid (suc n) a start fits k (omega arith))
          ∙ ap (λ (r : List (List ℕ) × Subscription). r.0)
              (tick_one-counting mem early pdid (suc n) k (omega arith) fits),
      tick_each-Sends mem last (pdid ∷ bytes) i last.periodic
          (subst (λ r. Sends (pdid ∷ bytes) r.0) (sym due) (Sends.here [])),
      tick_each-slot mem last i last.periodic ∙ ap (λ (r : List (List ℕ) × Subscription). r.1) due,
    )
