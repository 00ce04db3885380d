-- ===== src/Can/Ring/Refine.antt =====
-- The ring buffer against its specification, a queue that holds at most seven messages.
use obd_simulator.Prelude.{
  ℕ, zero, suc, ◌+◌, ◌-◌, ◌%◌, ◌≡◌, ◌≢◌, ◌≤◌, ◌<◌, List, [], ◌∷◌, ◌++◌, true, false, Option, none,
  some, length, length-set, get_or, get_or-set, set, ltb, ◌==◌, if◌then◌else◌, arith, refl,
  Bool-cases, ==_iff, inl, inr, ap, ap₂, ◌∙◌,
}
use obd_simulator.Can.Ring.{RxMessage, Ring, empty_message, rx_message, push, pop, receive_callback}

-- `n` messages from the place `t` on, round the end of the buffer.
unfoldable pub from_place : ℕ → ℕ → List RxMessage → List RxMessage
from_place zero t slots = []
from_place (suc n) t slots = get_or slots t empty_message ∷ from_place n ((t + 1) % 8) slots

abbrev pub distance : ℕ → ℕ → ℕ
distance t h = (h + 8 - t) % 8

-- The messages that wait, oldest first.
abbrev pub waiting : Ring → List RxMessage
waiting r = from_place (distance r.tail r.head) r.tail r.slots

pub record IsRing (r : Ring) : Type 0 where
  pub size : length r.slots ≡ 8
  pub head_range : r.head < 8
  pub tail_range : r.tail < 8

-- The specification.
abbrev pub enqueue : RxMessage → List RxMessage → List RxMessage
enqueue message queue = if ltb (length queue) 7 then queue ++ message ∷ [] else queue

length-from_place : (n t : ℕ) (slots : List RxMessage) → length (from_place n t slots) ≡ n
unfolding from_place
length-from_place zero t slots = refl
length-from_place (suc n) t slots = ap suc (length-from_place n ((t + 1) % 8) slots)

get_or-set_ne :
    (xs : List RxMessage) (i j : ℕ) (v d : RxMessage)
    → i ≢ j
    → get_or (set xs i v) j d ≡ get_or xs j d
get_or-set_ne [] i j v d n = refl
get_or-set_ne (x ∷ xs) zero zero v d n = absurd (n refl)
get_or-set_ne (x ∷ xs) zero (suc j) v d n = refl
get_or-set_ne (x ∷ xs) (suc i) zero v d n = refl
get_or-set_ne (x ∷ xs) (suc i) (suc j) v d n = get_or-set_ne xs i j v d (λ e. n (ap suc e))

-- A write to the place behind those is not seen.
from_place-set :
    (n t h : ℕ) (slots : List RxMessage) (v : RxMessage)
    → t < 8
    → h < 8
    → n ≤ distance t h
    → from_place n t (set slots h v) ≡ from_place n t slots
unfolding from_place
from_place-set zero t h slots v a b d = refl
from_place-set (suc n) t h slots v a b d =
    ap₂ (λ x xs. x ∷ xs) (get_or-set_ne slots h t v empty_message (λ e. omega (arith, e)))
      (from_place-set n ((t + 1) % 8) h slots v (omega arith) b (omega arith))

from_place-last :
    (n t : ℕ) (slots : List RxMessage)
    → t < 8
    → from_place (suc n) t slots
      ≡ from_place n t slots ++ get_or slots ((t + n) % 8) empty_message ∷ []
unfolding from_place
from_place-last zero t slots h =
    let place : t ≡ (t + 0) % 8 = omega arith in ap (λ k. get_or slots k empty_message ∷ []) place
from_place-last (suc n) t slots h =
    let next = (t + 1) % 8 in
    let place : (next + n) % 8 ≡ (t + suc n) % 8 = omega arith in
    ap (λ xs. get_or slots t empty_message ∷ xs)
      (from_place-last n next slots (omega arith)
        ∙ ap (λ k. from_place n next slots ++ get_or slots k empty_message ∷ []) place)

-- What waits after a push that finds room.
waiting-room :
    (message : RxMessage) (r : Ring)
    → IsRing r
    → (r.head + 1) % 8 ≢ r.tail
    → from_place (distance r.tail ((r.head + 1) % 8)) r.tail (set r.slots r.head message)
      ≡ waiting r ++ message ∷ []
waiting-room message r v room =
    let n = distance r.tail r.head in
    let more : distance r.tail ((r.head + 1) % 8) ≡ suc n = omega arith in
    let place : (r.tail + n) % 8 ≡ r.head = omega arith in
    let slots' = set r.slots r.head message in
    ap (λ k. from_place k r.tail slots') more
    ∙ from_place-last n r.tail slots' v.tail_range
    ∙ ap₂ (λ xs x. xs ++ x ∷ [])
        (from_place-set n r.tail r.head r.slots message v.tail_range v.head_range (omega arith))
        (ap (λ k. get_or slots' k empty_message) place
          ∙ get_or-set r.slots r.head message empty_message (omega (arith, v.size)))

-- A push is an enqueue.
waiting-push :
    (message : RxMessage) (r : Ring)
    → IsRing r
    → waiting (push message r) ≡ enqueue message (waiting r)
unfolding push
waiting-push message r v =
    let count = length-from_place (distance r.tail r.head) r.tail r.slots in
    elim (Bool-cases ((r.head + 1) % 8 == r.tail)) [
      | inl full ↦
          let none_more : ltb (length (waiting r)) 7 ≡ false = ground (arith, count) in
          rw (full, none_more) refl
      | inr room ↦
          let one_more : ltb (length (waiting r)) 7 ≡ true = ground (arith, count) in
          rw (room, one_more) (waiting-room message r v (ground arith))
    ]

push-IsRing : (message : RxMessage) (r : Ring) → IsRing r → IsRing (push message r)
unfolding push
push-IsRing message r v = ground (arith, length-set r.slots r.head message)

-- A pop takes the oldest.
abbrev pub dequeue : List RxMessage → Option RxMessage × List RxMessage
dequeue [] = (none, [])
dequeue (m ∷ ms) = (some m, ms)

pop_empty : (r : Ring) → r.tail ≡ r.head → pop r ≡ (none, r)
unfolding pop
pop_empty r e = ground arith

pop-some :
    (r : Ring)
    → r.tail ≢ r.head
    → pop r ≡ (some (get_or r.slots r.tail empty_message), record r { tail = (r.tail + 1) % 8 })
unfolding pop
pop-some r n = let other : (r.tail == r.head) ≡ false = ground arith in rw other refl

waiting-pop : (r : Ring) → IsRing r → ((pop r).0, waiting (pop r).1) ≡ dequeue (waiting r)
unfolding from_place
waiting-pop r v = elim (Bool-cases (r.tail == r.head)) [
  | inl e ↦
      let same : r.tail ≡ r.head = (==_iff r.tail r.head).0 e in
      let none_wait : waiting r ≡ [] =
        ap (λ k. from_place k r.tail r.slots) {y = 0} (omega (arith, same, v.head_range)) in
      rw (pop_empty r same, none_wait) refl
  | inr e ↦
      let apart : r.tail ≢ r.head = ground arith in
      let next = (r.tail + 1) % 8 in
      let more : distance r.tail r.head ≡ suc (distance next r.head) =
        omega (arith, apart, v.head_range, v.tail_range) in
      let some_wait : waiting r
          ≡ get_or r.slots r.tail empty_message ∷ from_place (distance next r.head) next r.slots =
        ap (λ k. from_place k r.tail r.slots) more in
      rw (pop-some r apart, some_wait) refl
]

pop-IsRing : (r : Ring) → IsRing r → IsRing (pop r).1
unfolding pop
pop-IsRing r v = ground arith

-- What can happen to the buffer: the interrupt gives a frame, or the main loop asks for one.
pub data Operation : Type 0 where
  received : (identifier data_length : ℕ) → List ℕ → Operation
  popped : Operation

-- What the pops of a sequence give, for the ring and for the queue.
unfoldable pub run_ring : List Operation → Ring → List (Option RxMessage)
run_ring [] r = []
run_ring (received i n bytes ∷ ops) r = run_ring ops (receive_callback i n bytes r)
run_ring (popped ∷ ops) r = let (m, r') = pop r in m ∷ run_ring ops r'

unfoldable pub run_queue : List Operation → List RxMessage → List (Option RxMessage)
run_queue [] queue = []
run_queue (received i n bytes ∷ ops) queue = run_queue ops (enqueue (rx_message i n bytes) queue)
run_queue (popped ∷ ops) queue = let (m, queue') = dequeue queue in m ∷ run_queue ops queue'

-- However the frames of the interrupt and the pops of the main loop interleave, the pops of a
-- buffer of eight places with both places below eight give what those of a queue give that starts
-- with the messages that wait, holds at most seven and drops what comes when it is full: each
-- accepted message once, whole, in the order of arrival.
pub run_ring-queue :
    (ops : List Operation) (r : Ring) → IsRing r → run_ring ops r ≡ run_queue ops (waiting r)
unfolding run_ring run_queue receive_callback
run_ring-queue [] r v = refl
run_ring-queue (received i n bytes ∷ ops) r v =
    let m = rx_message i n bytes in
    run_ring-queue ops (push m r) (push-IsRing m r v) ∙ ap (run_queue ops) (waiting-push m r v)
run_ring-queue (popped ∷ ops) r v =
    let same = waiting-pop r v in
    ap₂ (λ x xs. x ∷ xs) (ap (λ p. p.0) same)
      (run_ring-queue ops (pop r).1 (pop-IsRing r v) ∙ ap (λ p. run_queue ops p.1) same)
