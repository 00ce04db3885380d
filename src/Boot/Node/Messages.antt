-- ===== src/Boot/Node/Messages.antt =====
-- Bytes in the bootloader's receive ring.
use obd_simulator.Prelude.{
  ℕ, zero, suc, ◌≡◌, List, [], ◌∷◌, set, get_or, arith, some, AreBytes, replicate-AreBytes,
}
use obd_simulator.Can.Ring.{RxMessage, Ring, empty_message, pop, push}

-- Every message of the buffer holds bytes.
abbrev pub AreMessages : List RxMessage → Type 0
AreMessages [] = Unit {0}
AreMessages (m ∷ ms) = AreBytes m.payload × AreMessages ms

pub set-AreMessages :
    (ms : List RxMessage) (i : ℕ) (m : RxMessage)
    → AreMessages ms
    → AreBytes m.payload
    → AreMessages (set ms i m)
set-AreMessages [] i m v b = tt
set-AreMessages (x ∷ ms) zero m v b = (b, v.1)
set-AreMessages (x ∷ ms) (suc i) m v b = (v.0, set-AreMessages ms i m v.1 b)

get_or-AreMessages :
    (ms : List RxMessage) (i : ℕ) → AreMessages ms → AreBytes (get_or ms i empty_message).payload
get_or-AreMessages [] i v = replicate-AreBytes 64 0 (omega arith)
get_or-AreMessages (m ∷ ms) zero v = v.0
get_or-AreMessages (m ∷ ms) (suc i) v = get_or-AreMessages ms i v.1

pub pop-AreMessages :
    (r : Ring) {m : RxMessage}
    → AreMessages r.slots
    → (pop r).0 ≡ some m
    → AreBytes m.payload × AreMessages (pop r).1.slots
unfolding pop
pop-AreMessages r v e = ground (arith, get_or-AreMessages r.slots r.tail v)

pub push-AreMessages :
    (m : RxMessage) (r : Ring)
    → AreMessages r.slots
    → AreBytes m.payload
    → AreMessages (push m r).slots
unfolding push
push-AreMessages m r v b = ground (arith, set-AreMessages r.slots r.head m v b)
