-- ===== src/Prelude/Bytes.antt =====
-- Lists of bytes, kept by the operations on C buffers.
use Prim.Native.Nat.{ℕ, zero, suc, ◌<◌}
use mathlib.Core.List.{List, [], ◌∷◌}
use native.Mathlib.Omega.{arith}
use obd_simulator.Prelude.Lists.{take, drop, get_or, replicate}
use obd_simulator.Prelude.Buffers.{memcpy, overlay}

abbrev pub AreBytes : List ℕ → Type 0
AreBytes [] = Unit {0}
AreBytes (b ∷ bs) = (b < 256) × AreBytes bs

pub get_or-AreBytes : (bs : List ℕ) (i : ℕ) → AreBytes bs → get_or bs i 0 < 256
get_or-AreBytes [] i v = omega arith
get_or-AreBytes (b ∷ bs) zero v = v.0
get_or-AreBytes (b ∷ bs) (suc i) v = get_or-AreBytes bs i v.1

pub take-AreBytes : (n : ℕ) (bs : List ℕ) → AreBytes bs → AreBytes (take n bs)
take-AreBytes zero bs v = tt
take-AreBytes (suc n) [] v = tt
take-AreBytes (suc n) (b ∷ bs) v = (v.0, take-AreBytes n bs v.1)

pub drop-AreBytes : (n : ℕ) (bs : List ℕ) → AreBytes bs → AreBytes (drop n bs)
drop-AreBytes zero bs v = v
drop-AreBytes (suc n) [] v = tt
drop-AreBytes (suc n) (b ∷ bs) v = drop-AreBytes n bs v.1

overlay-AreBytes : (bs src : List ℕ) → AreBytes bs → AreBytes src → AreBytes (overlay bs src)
overlay-AreBytes [] src v w = tt
overlay-AreBytes (b ∷ bs) [] v w = v
overlay-AreBytes (b ∷ bs) (c ∷ cs) v w = (w.0, overlay-AreBytes bs cs v.1 w.1)

pub memcpy-AreBytes :
    (bs : List ℕ) (off : ℕ) (src : List ℕ)
    → AreBytes bs
    → AreBytes src
    → AreBytes (memcpy bs off src)
memcpy-AreBytes bs zero src v w = overlay-AreBytes bs src v w
memcpy-AreBytes [] (suc off) src v w = tt
memcpy-AreBytes (b ∷ bs) (suc off) src v w = (v.0, memcpy-AreBytes bs off src v.1 w)

pub replicate-AreBytes : (n b : ℕ) → b < 256 → AreBytes (replicate n b)
replicate-AreBytes zero b h = tt
replicate-AreBytes (suc n) b h = (h, replicate-AreBytes n b h)
