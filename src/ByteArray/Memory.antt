-- ===== src/ByteArray/Memory.antt =====
-- memcpy into a buffer and reads from it, as list operations.
use Prim.Native.Nat.add
use cor_reactor.Base.{
  ℕ, zero, suc, ◌+◌, ◌≤◌, ◌≡◌, refl, ap, ◌∙◌, List, [], ◌∷◌, ◌++◌, length, take, drop, arith,
}
use cor_reactor.ByteArray.{memcpy}

pub length-memcpy : (d : List ℕ) (k : ℕ) (s : List ℕ) → length (memcpy d k s) ≡ length d
unfolding memcpy
length-memcpy [] k s = refl
length-memcpy (x ∷ d) (suc k) s = ap suc (length-memcpy d k s)
length-memcpy (x ∷ d) zero [] = refl
length-memcpy (x ∷ d) zero (y ∷ s) = ap suc (length-memcpy d zero s)

pub memcpy-nil : (d : List ℕ) (k : ℕ) → memcpy d k [] ≡ d
unfolding memcpy
memcpy-nil [] k = refl
memcpy-nil (x ∷ d) zero = refl
memcpy-nil (x ∷ d) (suc k) = ap (◌∷◌ x) (memcpy-nil d k)

pub memcpy-append_left :
    (d r : List ℕ) (k : ℕ) (s : List ℕ)
    → k + length s ≤ length d
    → memcpy (d ++ r) k s ≡ memcpy d k s ++ r
unfolding memcpy
memcpy-append_left [] r zero [] h = memcpy-nil r zero
memcpy-append_left [] r zero (y ∷ s) h = absurd (omega arith)
memcpy-append_left [] r (suc k) s h = absurd (omega arith)
memcpy-append_left (x ∷ d) r (suc k) s h = ap (◌∷◌ x) (memcpy-append_left d r k s (omega arith))
memcpy-append_left (x ∷ d) r zero [] h = refl
memcpy-append_left (x ∷ d) r zero (y ∷ s) h =
    ap (◌∷◌ y) (memcpy-append_left d r zero s (omega arith))

pub memcpy-append_right :
    (d r : List ℕ) (k : ℕ) (s : List ℕ) → memcpy (d ++ r) (length d + k) s ≡ d ++ memcpy r k s
unfolding memcpy
memcpy-append_right [] r k s = ap (λ j. memcpy r j s) (omega arith)
memcpy-append_right (x ∷ d) r k s = rw add.suc (ap (◌∷◌ x) (memcpy-append_right d r k s))

-- Two copies, one behind the other, are one copy.
pub memcpy-memcpy :
    (d : List ℕ) (k : ℕ) (s t : List ℕ)
    → k + length s ≤ length d
    → memcpy (memcpy d k s) (k + length s) t ≡ memcpy d k (s ++ t)
unfolding memcpy
memcpy-memcpy [] k s t h = refl
memcpy-memcpy (x ∷ d) (suc k) s t h = rw add.suc (ap (◌∷◌ x) (memcpy-memcpy d k s t (omega arith)))
memcpy-memcpy (x ∷ d) zero [] t h = refl
memcpy-memcpy (x ∷ d) zero (y ∷ s) t h = rw add.zero (
    ap (◌∷◌ y) (
      ap (λ j. memcpy (memcpy d zero s) j t) (omega arith)
      ∙ memcpy-memcpy d zero s t (omega arith)))

-- What was copied is read back.
pub take-drop-memcpy :
    (d : List ℕ) (k : ℕ) (s : List ℕ)
    → k + length s ≤ length d
    → take (length s) (drop k (memcpy d k s)) ≡ s
unfolding memcpy
take-drop-memcpy [] zero [] h = refl
take-drop-memcpy [] zero (y ∷ s) h = absurd (omega arith)
take-drop-memcpy [] (suc k) s h = absurd (omega arith)
take-drop-memcpy (x ∷ d) (suc k) s h = take-drop-memcpy d k s (omega arith)
take-drop-memcpy (x ∷ d) zero [] h = refl
take-drop-memcpy (x ∷ d) zero (y ∷ s) h = ap (◌∷◌ y) (take-drop-memcpy d zero s (omega arith))

-- Bytes before the copy stay.
pub take-memcpy :
    (d : List ℕ) (k : ℕ) (s : List ℕ) (j : ℕ) → j ≤ k → take j (memcpy d k s) ≡ take j d
unfolding memcpy
take-memcpy [] k s j h = refl
take-memcpy (x ∷ d) k s zero h = refl
take-memcpy (x ∷ d) (suc k) s (suc j) h = ap (◌∷◌ x) (take-memcpy d k s j (omega arith))
take-memcpy (x ∷ d) zero s (suc j) h = absurd (omega arith)

-- Bytes behind the copy stay.
pub drop-memcpy :
    (d : List ℕ) (k : ℕ) (s : List ℕ) (j : ℕ) → k + length s ≤ j → drop j (memcpy d k s) ≡ drop j d
unfolding memcpy
drop-memcpy [] k s j h = refl
drop-memcpy (x ∷ d) (suc k) s (suc j) h = drop-memcpy d k s j (omega arith)
drop-memcpy (x ∷ d) (suc k) s zero h = absurd (omega arith)
drop-memcpy (x ∷ d) zero [] j h = refl
drop-memcpy (x ∷ d) zero (y ∷ s) zero h = absurd (omega arith)
drop-memcpy (x ∷ d) zero (y ∷ s) (suc j) h = drop-memcpy d zero s j (omega arith)
