-- ===== src/Rs485/Routing.antt =====
-- A CAN frame from one node to another over the RS-485 link, and what a noisy line can bring.
use obd_simulator.Prelude.{
  ℕ, zero, suc, ◌+◌, ◌≡◌, ◌≤◌, ◌<◌, List, [], ◌∷◌, ◌++◌, append_assoc, none, some, length,
  length-append, get_or, get_or-take, set, length-set, take, take-all, replicate, memcpy, min, ltb,
  arith, refl, Bool-cases, inl, inr, ap, ◌∙◌, sym, u8, be16, byte1,
}
use obd_simulator.Can.Frames.{bytes_to_dlc}
use obd_simulator.Rs485.{
  Message, Receiver, forward_can_message, receive_byte, receive_bytes, route_to_can,
}

take-set :
    (n : ℕ) (xs : List ℕ) (v : ℕ) → n < length xs → take (suc n) (set xs n v) ≡ take n xs ++ v ∷ []
take-set n [] v h = absurd (omega arith)
take-set zero (x ∷ xs) v h = refl
take-set (suc n) (x ∷ xs) v h = ap (λ r. x ∷ r) (take-set n xs v (omega arith))

get_or-append_lt : (xs ys : List ℕ) (i : ℕ) → i < length xs → get_or (xs ++ ys) i 0 ≡ get_or xs i 0
get_or-append_lt [] ys i h = absurd (omega arith)
get_or-append_lt (x ∷ xs) ys zero h = refl
get_or-append_lt (x ∷ xs) ys (suc i) h = get_or-append_lt xs ys i (omega arith)

-- The receiver holds these bytes of a frame.
record Holds (r : Receiver) (pre : List ℕ) : Type 0 where
  buf_size : length r.rx_buf ≡ 67
  count : r.rx_len ≡ length pre
  content : take (length pre) r.rx_buf ≡ pre

-- The next byte goes behind those.
stored-content :
    (r : Receiver) (pre : List ℕ) (b : ℕ)
    → Holds r pre
    → length pre < 67
    → take (suc (length pre)) (set r.rx_buf r.rx_len b) ≡ pre ++ b ∷ []
stored-content r pre b v h =
    ap (λ n. take (suc (length pre)) (set r.rx_buf n b)) v.count
    ∙ take-set (length pre) r.rx_buf b (omega (arith, v.buf_size))
    ∙ ap (λ xs. xs ++ b ∷ []) v.content

stored-dlc :
    (r : Receiver) (pre : List ℕ) (b : ℕ)
    → Holds r pre
    → 2 ≤ length pre
    → length pre < 67
    → get_or (set r.rx_buf r.rx_len b) 2 0 ≡ get_or (pre ++ b ∷ []) 2 0
stored-dlc r pre b v low high =
    sym (get_or-take (suc (length pre)) (set r.rx_buf r.rx_len b) 2 0 (omega arith))
    ∙ ap (λ xs. get_or xs 2 0) (stored-content r pre b v high)

-- The receiver once a byte is stored.
abbrev store : ℕ → Receiver → Receiver
store b r = record { rx_buf = set r.rx_buf r.rx_len b; rx_len = suc r.rx_len }

store-Holds :
    (r : Receiver) (pre : List ℕ) (b : ℕ)
    → Holds r pre
    → length pre < 67
    → Holds (store b r) (pre ++ b ∷ [])
store-Holds r pre b v h =
    let size : length (pre ++ b ∷ []) ≡ suc (length pre) =
      omega (arith, length-append pre (b ∷ [])) in
    record {
      buf_size = omega (arith, length-set r.rx_buf r.rx_len b, v.buf_size);
      count = omega (arith, size, v.count);
      content = ap (λ n. take n (set r.rx_buf r.rx_len b)) size ∙ stored-content r pre b v h;
    }

receive_byte-header : (r : Receiver) (b : ℕ) → r.rx_len < 2 → receive_byte b r ≡ (none, store b r)
unfolding receive_byte
receive_byte-header r b h = ground arith

receive_byte-body :
    (r : Receiver) (b dlc : ℕ)
    → dlc ≤ 64
    → 2 ≤ r.rx_len
    → r.rx_len < 2 + dlc
    → get_or (set r.rx_buf r.rx_len b) 2 0 ≡ dlc
    → receive_byte b r ≡ (none, store b r)
unfolding receive_byte
receive_byte-body r b dlc small low high e = ground arith

receive_byte-last :
    (r : Receiver) (b dlc : ℕ)
    → dlc ≤ 64
    → r.rx_len ≡ 2 + dlc
    → get_or (set r.rx_buf r.rx_len b) 2 0 ≡ dlc
    → receive_byte b r ≡ (
      some (record { items = take (3 + dlc) (set r.rx_buf r.rx_len b); len = 3 + dlc }),
      record (store b r) { rx_len = 0 },
    )
unfolding receive_byte
receive_byte-last r b dlc small full e = ground arith

-- A byte that does not complete the frame.
receive_byte-stores :
    (pre : List ℕ) (b c : ℕ) (bs : List ℕ) (r : Receiver) (dlc : ℕ)
    → Holds r pre
    → dlc ≤ 64
    → length (pre ++ b ∷ c ∷ bs) ≡ 3 + dlc
    → get_or (pre ++ b ∷ c ∷ bs) 2 0 ≡ dlc
    → receive_byte b r ≡ (none, store b r)
receive_byte-stores pre b c bs r dlc v small size third =
    let total = length-append pre (b ∷ c ∷ bs) in
    elim (Bool-cases (ltb r.rx_len 2)) [
      | inl low ↦ receive_byte-header r b (ground arith)
      | inr high ↦
          let low' : 2 ≤ length pre = ground (arith, v.count) in
          let short : length (pre ++ b ∷ []) ≡ suc (length pre) =
            omega (arith, length-append pre (b ∷ [])) in
          receive_byte-body r b dlc small (ground arith) (omega (arith, total, size, v.count)) (
            stored-dlc r pre b v low' (omega (arith, total, size))
            ∙ sym (get_or-append_lt (pre ++ b ∷ []) (c ∷ bs) 2 (omega (arith, short, low')))
            ∙ ap (λ xs. get_or xs 2 0) (append_assoc pre (b ∷ []) (c ∷ bs))
            ∙ third)
    ]

-- The rest of a frame, after the bytes that the receiver holds.
receive_bytes-rest :
    (pre : List ℕ) (b : ℕ) (bs whole : List ℕ) (r : Receiver) (dlc : ℕ)
    → Holds r pre
    → dlc ≤ 64
    → pre ++ b ∷ bs ≡ whole
    → length whole ≡ 3 + dlc
    → get_or whole 2 0 ≡ dlc
    → ((receive_bytes (b ∷ bs) r).0 ≡ record { items = whole; len = 3 + dlc } ∷ [])
      × ((receive_bytes (b ∷ bs) r).1.rx_len ≡ 0)
      × (length (receive_bytes (b ∷ bs) r).1.rx_buf ≡ 67)
unfolding receive_bytes
receive_bytes-rest pre b [] whole r dlc v small e size third =
    let full : length pre ≡ 2 + dlc =
      omega (arith, ap length e, size, length-append pre (b ∷ [])) in
    let stored : take (3 + dlc) (set r.rx_buf r.rx_len b) ≡ whole =
      ap (λ n. take n (set r.rx_buf r.rx_len b)) {y = suc (length pre)} (omega (arith, full))
      ∙ stored-content r pre b v (omega (arith, full))
      ∙ e in
    let last = receive_byte-last r b dlc small (omega (arith, full, v.count)) (
      stored-dlc r pre b v (omega (arith, full)) (omega (arith, full))
      ∙ ap (λ xs. get_or xs 2 0) e
      ∙ third) in
    rw (last, stored) (refl, refl, omega (arith, length-set r.rx_buf r.rx_len b, v.buf_size))
receive_bytes-rest pre b (c ∷ bs) whole r dlc v small e size third =
    let step =
      receive_byte-stores pre b c bs r dlc v small (ap length e ∙ size)
        (ap (λ xs. get_or xs 2 0) e ∙ third) in
    let room : length pre < 67 = omega (arith, ap length e, size, length-append pre (b ∷ c ∷ bs)) in
    rw step (
      receive_bytes-rest (pre ++ b ∷ []) c bs whole (store b r) dlc (store-Holds r pre b v room)
        small (append_assoc pre (b ∷ []) (c ∷ bs) ∙ e) size third)

route_to_can_lem :
    (can_id : ℕ) (bytes : List ℕ)
    → can_id < 65536
    → length bytes ≤ 64
    → route_to_can
        (record { items = byte1 can_id ∷ u8 can_id ∷ length bytes ∷ bytes; len = 3 + length bytes })
      ≡ some (record {
        identifier = can_id;
        data_length = bytes_to_dlc (length bytes);
        payload = memcpy (replicate 64 0xCC) 0 bytes;
      })
unfolding route_to_can
route_to_can_lem can_id bytes range short =
    let whole : be16 (byte1 can_id) (u8 can_id) ≡ can_id = omega arith in
    rw (whole, take-all (length bytes) bytes (omega arith)) (ground arith)

-- A CAN frame of up to 64 bytes that one node forwards to the line arrives as one message at a
-- receiver of another that is between two messages, and is routed to the CAN bus with the same
-- identifier and bytes, filled up to 64 with 0xCC, under the length code that holds its bytes; the
-- receiver is then between two messages again.
pub forward-route :
    (can_id : ℕ) (bytes : List ℕ) (r : Receiver)
    → can_id < 65536
    → length bytes ≤ 64
    → length r.rx_buf ≡ 67
    → r.rx_len ≡ 0
    → (m : Message) × ((receive_bytes (forward_can_message can_id bytes (length bytes)) r).0
        ≡ m ∷ [])
      × (route_to_can m
          ≡ some (record {
            identifier = can_id;
            data_length = bytes_to_dlc (length bytes);
            payload = memcpy (replicate 64 0xCC) 0 bytes;
          }))
      × ((receive_bytes (forward_can_message can_id bytes (length bytes)) r).1.rx_len ≡ 0)
      × (length (receive_bytes (forward_can_message can_id bytes (length bytes)) r).1.rx_buf ≡ 67)
unfolding forward_can_message
forward-route can_id bytes r range short size idle =
    let whole = byte1 can_id ∷ u8 can_id ∷ length bytes ∷ bytes in
    let empty : Holds r [] = record { buf_size = size; count = idle; content = refl } in
    let all : take (min (length bytes) 64) bytes ≡ bytes =
      take-all (min (length bytes) 64) bytes (omega arith) in
    let arrived =
      receive_bytes-rest [] (byte1 can_id) (u8 can_id ∷ length bytes ∷ bytes) whole r (length bytes)
        empty short refl (omega arith) refl in
    (
      record { items = whole; len = 3 + length bytes },
      rw all (arrived.0),
      route_to_can_lem can_id bytes range short,
      rw all (arrived.1),
      rw all (arrived.2),
    )
