-- ===== src/ByteArray/Overwrite.antt =====
-- The abstract effect of `write` on the contents, and that memcpy into the flat buffer has it.
use Prim.Native.Nat.add
use cor_reactor.Base.{
  ℕ, zero, suc, ◌+◌, ◌≤◌, ◌≡◌, sym, ap, ◌∙◌, List, [], ◌∷◌, ◌++◌, length, length-append,
  length-take, length-drop, take, drop, take-append_left, drop-nil, take-length, take-append-drop,
  max, arith,
}
use cor_reactor.ByteArray.{memcpy}
use cor_reactor.ByteArray.Memory.{memcpy-nil}

-- `s` in place of what stood at `p`, past the end if need be.
unfoldable pub overwrite : List ℕ → ℕ → List ℕ → List ℕ
overwrite l p s = take p l ++ (s ++ drop (p + length s) l)

take-memcpy-zero :
    (d : List ℕ) (s : List ℕ) (size m : ℕ)
    → m ≡ max size (length s)
    → length s ≤ length d
    → take m (memcpy d zero s) ≡ s ++ drop (length s) (take size d)
unfolding memcpy
take-memcpy-zero d [] size m e h =
    ap (take m) (memcpy-nil d zero) ∙ ap (λ k. take k d) (omega arith)
take-memcpy-zero [] (y ∷ s) size m e h = absurd (omega arith)
take-memcpy-zero (x ∷ d) (y ∷ s) size zero e h = absurd (omega arith)
take-memcpy-zero (x ∷ d) (y ∷ s) zero (suc m) e h =
    ap (◌∷◌ y)
      (take-memcpy-zero d s zero m (omega arith) (omega arith) ∙ ap (◌++◌ s) (drop-nil (length s)))
take-memcpy-zero (x ∷ d) (y ∷ s) (suc size) (suc m) e h =
    ap (◌∷◌ y) (take-memcpy-zero d s size m (omega arith) (omega arith))

take-memcpy-overwrite :
    (d : List ℕ) (p : ℕ) (s : List ℕ) (size m : ℕ)
    → m ≡ max size (p + length s)
    → p ≤ size
    → p + length s ≤ length d
    → take m (memcpy d p s) ≡ overwrite (take size d) p s
unfolding memcpy overwrite
take-memcpy-overwrite d zero s size m e h room =
    take-memcpy-zero d s size m (omega arith) (omega arith)
    ∙ ap (λ k. s ++ drop k (take size d)) (omega arith)
take-memcpy-overwrite [] (suc p) s size m e h room = absurd (omega arith)
take-memcpy-overwrite (x ∷ d) (suc p) s zero m e h room = absurd (omega arith)
take-memcpy-overwrite (x ∷ d) (suc p) s (suc size) zero e h room = absurd (omega arith)
take-memcpy-overwrite (x ∷ d) (suc p) s (suc size) (suc m) e h room =
    rw add.suc
      (ap (◌∷◌ x) (take-memcpy-overwrite d p s size m (omega arith) (omega arith) (omega arith)))

-- The same where the buffer has been enlarged behind the data.
pub take-memcpy-append :
    (d fresh : List ℕ) (p : ℕ) (s : List ℕ) (size m : ℕ)
    → m ≡ max size (p + length s)
    → p ≤ size
    → size ≤ length d
    → p + length s ≤ length (d ++ fresh)
    → take m (memcpy (d ++ fresh) p s) ≡ overwrite (take size d) p s
take-memcpy-append d fresh p s size m e h inside room =
    take-memcpy-overwrite (d ++ fresh) p s size m e h room
    ∙ ap (λ l. overwrite l p s) (take-append_left size d fresh inside)

-- Reading where the overwrite happened gives what was written.
pub take-drop-overwrite :
    (l : List ℕ) (p : ℕ) (s : List ℕ)
    → p ≤ length l
    → take (length s) (drop p (overwrite l p s)) ≡ s
unfolding overwrite
take-drop-overwrite l zero s h = take-append_left (length s) s _ (omega arith) ∙ take-length s
take-drop-overwrite [] (suc p) s h = absurd (omega arith)
take-drop-overwrite (x ∷ l) (suc p) s h = rw add.suc (take-drop-overwrite l p s (omega arith))

pub length-overwrite :
    (l : List ℕ) (p : ℕ) (s : List ℕ)
    → p ≤ length l
    → length (overwrite l p s) ≡ max (length l) (p + length s)
unfolding overwrite
length-overwrite l p s h = omega (
  arith,
  length-append (take p l) (s ++ drop (p + length s) l),
  length-append s (drop (p + length s) l),
  length-take p l,
  length-drop (p + length s) l,
)

pub overwrite-nil : (l : List ℕ) (p : ℕ) → l ≡ overwrite l p []
unfolding overwrite
overwrite-nil l p = sym (take-append-drop p l) ∙ ap (λ k. take p l ++ drop k l) (omega arith)
