-- ===== src/Rs485/Noise.antt =====
-- What the receiver of the RS-485 link delivers on a line that may carry anything.
use obd_simulator.Prelude.{
  ℕ, ◌+◌, ◌≡◌, ◌≢◌, ◌≤◌, List, [], ◌∷◌, ◌++◌, Option, none, some, length, length-set, length-take,
  get_or, get_or-take, set, take, arith,
}
use obd_simulator.Rs485.{Message, Receiver, receive_byte, receive_bytes, route_to_can, to_list}

-- The buffer has its size, and is not full between two bytes.
pub record IsReceiver (r : Receiver) : Type 0 where
  pub buf_size : length r.rx_buf ≡ 67
  pub not_full : r.rx_len ≤ 66

-- A message is as long as its third byte says, fits the queue's items, and is routed.
pub record IsWhole (m : Message) : Type 0 where
  pub items_len : length m.items ≡ m.len
  pub by_dlc : m.len ≡ 3 + get_or m.items 2 0
  pub fits : m.len ≤ 67
  pub routed : route_to_can m ≢ none

abbrev pub AllWhole : List Message → Type 0
AllWhole [] = Unit {0}
AllWhole (m ∷ ms) = IsWhole m × AllWhole ms

abbrev Delivered : Option Message → Type 0
Delivered none = Unit {0}
Delivered (some m) = IsWhole m

receive_byte-IsReceiver : (b : ℕ) (r : Receiver) → IsReceiver r → IsReceiver (receive_byte b r).1
unfolding receive_byte
receive_byte-IsReceiver b r v = ground (arith, length-set r.rx_buf r.rx_len b)

-- The message that is taken out of a buffer whose third byte is `dlc`.
taken-IsWhole :
    (buf : List ℕ) (dlc : ℕ)
    → length buf ≡ 67
    → get_or buf 2 0 ≡ dlc
    → dlc ≤ 64
    → IsWhole (record { items = take (3 + dlc) buf; len = 3 + dlc })
unfolding route_to_can
taken-IsWhole buf dlc n e h =
    let third = get_or-take (3 + dlc) buf 2 0 (omega arith) in
    record {
      items_len = omega (arith, length-take (3 + dlc) buf, n);
      by_dlc = omega (arith, third, e);
      fits = omega arith;
      routed = ground (arith, third);
    }

receive_byte-Delivered : (b : ℕ) (r : Receiver) → IsReceiver r → Delivered (receive_byte b r).0
unfolding receive_byte
receive_byte-Delivered b r v =
    let buf = set r.rx_buf r.rx_len b in
    ground (arith, length-set r.rx_buf r.rx_len b, taken-IsWhole buf (get_or buf 2 0))

AllWhole-append :
    (o : Option Message) (ms : List Message)
    → Delivered o
    → AllWhole ms
    → AllWhole (to_list o ++ ms)
AllWhole-append none ms v w = w
AllWhole-append (some m) ms v w = (v, w)

-- Whatever bytes come, from a receiver whose buffer has 67 places of which at most 66 are taken:
-- every message that is delivered is as long as its length byte says, at most 67 bytes, and
-- vRS485Task routes it to the CAN bus; and between two bytes there is always room for the next, so
-- that no byte is dropped for a full buffer.
pub receive_bytes-IsReceiver :
    (bs : List ℕ) (r : Receiver)
    → IsReceiver r
    → AllWhole (receive_bytes bs r).0 × IsReceiver (receive_bytes bs r).1
unfolding receive_bytes
receive_bytes-IsReceiver [] r v = (tt, v)
receive_bytes-IsReceiver (b ∷ bs) r v =
    let next = receive_byte b r in
    let later = receive_bytes-IsReceiver bs next.1 (receive_byte-IsReceiver b r v) in
    (
      AllWhole-append next.0 (receive_bytes bs next.1).0 (receive_byte-Delivered b r v) later.0,
      later.1,
    )
