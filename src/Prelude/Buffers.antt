-- ===== src/Prelude/Buffers.antt =====
-- C buffers as lists: `memcpy` into a buffer.
use Prim.Native.Nat.{ℕ, zero, suc, ◌+◌, ◌≤◌, ◌<◌}
use mathlib.Core.Path.{◌≡◌, refl, ap}
use mathlib.Core.List.{List, [], ◌∷◌, ◌++◌}
use native.Mathlib.Omega.{arith}
use obd_simulator.Prelude.Lists.{length, take, drop, get_or}

module _ {ℓ} {A : Type ℓ} where
  abbrev pub overlay : List A → List A → List A
  overlay [] src = []
  overlay (x ∷ xs) [] = x ∷ xs
  overlay (x ∷ xs) (y ∷ ys) = y ∷ overlay xs ys

  -- memcpy(&buf[off], src, length src); bytes past the end of the buffer are dropped.
  abbrev pub memcpy : List A → ℕ → List A → List A
  memcpy buf zero src = overlay buf src
  memcpy [] (suc off) src = []
  memcpy (x ∷ xs) (suc off) src = x ∷ memcpy xs off src

  pub length-overlay : (buf src : List A) → length (overlay buf src) ≡ length buf
  length-overlay [] src = refl
  length-overlay (x ∷ xs) [] = refl
  length-overlay (x ∷ xs) (y ∷ ys) = ap suc (length-overlay xs ys)

  pub length-memcpy :
      (buf : List A) (off : ℕ) (src : List A) → length (memcpy buf off src) ≡ length buf
  length-memcpy buf zero src = length-overlay buf src
  length-memcpy [] (suc off) src = refl
  length-memcpy (x ∷ xs) (suc off) src = ap suc (length-memcpy xs off src)

  take-overlay :
      (n : ℕ) (buf src : List A)
      → length src ≤ length buf
      → n ≡ length src
      → take n (overlay buf src) ≡ src
  take-overlay zero buf [] h e = refl
  take-overlay zero buf (y ∷ ys) h e = absurd (omega arith)
  take-overlay (suc n) buf [] h e = absurd (omega arith)
  take-overlay (suc n) [] (y ∷ ys) h e = absurd (omega arith)
  take-overlay (suc n) (x ∷ xs) (y ∷ ys) h e =
      ap (λ r. y ∷ r) (take-overlay n xs ys (omega arith) (omega arith))

  -- What stands in the buffer up to the end of a copy that fits.
  pub take-memcpy :
      (n : ℕ) (buf : List A) (off : ℕ) (src : List A)
      → off + length src ≤ length buf
      → n ≡ off + length src
      → take n (memcpy buf off src) ≡ take off buf ++ src
  take-memcpy n buf zero src h e = take-overlay n buf src (omega arith) (omega arith)
  take-memcpy n [] (suc off) src h e = absurd (omega arith)
  take-memcpy zero (x ∷ xs) (suc off) src h e = absurd (omega arith)
  take-memcpy (suc n) (x ∷ xs) (suc off) src h e =
      ap (λ r. x ∷ r) (take-memcpy n xs off src (omega arith) (omega arith))

  -- The copy itself, read back.
  pub take-drop-memcpy :
      (n : ℕ) (buf : List A) (off : ℕ) (src : List A)
      → off + length src ≤ length buf
      → n ≡ length src
      → take n (drop off (memcpy buf off src)) ≡ src
  take-drop-memcpy n buf zero src h e = take-overlay n buf src (omega arith) e
  take-drop-memcpy n [] (suc off) src h e = absurd (omega arith)
  take-drop-memcpy n (x ∷ xs) (suc off) src h e = take-drop-memcpy n xs off src (omega arith) e

  -- A copy changes nothing in front of it.
  pub get_or-memcpy_lt :
      (buf : List A) (off : ℕ) (src : List A) (i : ℕ) (d : A)
      → i < off
      → get_or (memcpy buf off src) i d ≡ get_or buf i d
  get_or-memcpy_lt buf zero src i d h = absurd (omega arith)
  get_or-memcpy_lt [] (suc off) src i d h = refl
  get_or-memcpy_lt (x ∷ xs) (suc off) src zero d h = refl
  get_or-memcpy_lt (x ∷ xs) (suc off) src (suc i) d h =
      get_or-memcpy_lt xs off src i d (omega arith)
