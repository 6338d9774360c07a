-- ===== src/ByteArray/Reading.antt =====
-- The copying loop of `read`: what it returns, and where the pointer ends.
use cor_reactor.Base.{
  ℕ, zero, suc, ◌+◌, ◌-◌, ◌*◌, ◌≤◌, ◌<◌, ◌≡◌, refl, ap, ◌∙◌, List, ◌++◌, Option, some, length,
  get_elem?, take, drop, drop-add, take-add, Result, ok, leb, leb→le, leb→lt, if◌then◌else◌, ◌==◌,
  arith, Bool-cases, inl, inr, subst, true, false, sym,
}
use cor_reactor.ByteArray.{Node, next, copy_out}
use cor_reactor.ByteArray.Chain.{IsUniform, flat, slice-flat}
use cor_reactor.ByteArray.Cursor.{
  IsAt, next_inside, next_some, deref_lem, node_at, next_inside, next_some, step-IsAt, next_inside,
  next_some,
}

copy_out_last :
    (fuel i npos ncap size : ℕ) (nodes : List Node) (n : Node)
    → get_elem? nodes i ≡ some n
    → leb (suc size) ncap ≡ true
    → copy_out (suc fuel) nodes (some i) npos ncap (suc size)
      ≡ ok (
        take (suc size) (drop npos n.ptr),
        (if n.size == npos + suc size then next nodes i else some i),
      )
unfolding copy_out
copy_out_last fuel i npos ncap size nodes n e t = rw (t, copy_out) (rw (deref_lem nodes i n e))

copy_out_more :
    (fuel i npos ncap size : ℕ) (nodes : List Node) (n m : Node) (rest : List ℕ) (c : Option ℕ)
    → get_elem? nodes i ≡ some n
    → get_elem? nodes (suc i) ≡ some m
    → next nodes i ≡ some (suc i)
    → leb (suc size) ncap ≡ false
    → copy_out fuel nodes (some (suc i)) 0 m.size (suc size - ncap) ≡ ok (rest, c)
    → copy_out (suc fuel) nodes (some i) npos ncap (suc size)
      ≡ ok (take ncap (drop npos n.ptr) ++ rest, c)
unfolding copy_out
copy_out_more fuel i npos ncap size nodes n m rest c e e' s t r =
    rw (t, copy_out) (rw (deref_lem nodes i n e, s, deref_lem nodes (suc i) m e', r))

-- From a position inside the chain, `size` bytes that the chain holds are read.
abbrev pub Copied : ℕ → List Node → ℕ → ℕ → Result (List ℕ × Option ℕ) → Type 0
Copied base nodes pos size r =
    (c : Option ℕ) × (r ≡ ok (take size (drop pos (flat nodes)), c))
    × IsAt base (length nodes) c (pos + size)

slice-append :
    (l : List ℕ) (pos a b c : ℕ)
    → a + b ≡ c
    → take a (drop pos l) ++ take b (drop (pos + a) l) ≡ take c (drop pos l)
slice-append l pos a b c e =
    ap (λ t. take a (drop pos l) ++ take b t) (sym (drop-add pos a l))
    ∙ sym (take-add a b (drop pos l))
    ∙ ap (λ k. take k (drop pos l)) e

module _ (base : ℕ) (positive : 0 < base) (nodes : List Node) (u : IsUniform base nodes) where
  pub copy_out_lem :
      (fuel i npos ncap pos size : ℕ)
      → size < fuel
      → i < length nodes
      → npos < base
      → npos + ncap ≡ base
      → pos ≡ i * base + npos
      → pos + size ≤ length nodes * base
      → Copied base nodes pos size (copy_out fuel nodes (some i) npos ncap size)
  copy_out_lem zero i npos ncap pos size f h p e q room = absurd (omega arith)
  copy_out_lem (suc fuel) i npos ncap pos zero f h p e q room =
      (some i, unfold copy_out in refl, omega arith)
  copy_out_lem (suc fuel) i npos ncap pos (suc size) f h p e q room =
      elim (Bool-cases (leb (suc size) ncap)) [
        | inl t ↦
            let (n, at, block) = node_at base nodes i u h in
            let fits : npos + suc size ≤ base = omega (arith, leb→le _ _ t) in
            let after : Option ℕ = if n.size == npos + suc size then next nodes i else some i in
            (
              after,
              copy_out_last fuel i npos ncap size nodes n at t
                  ∙ ap (λ (l : List ℕ). ok (l, after))
                      (slice n npos (suc size) at fits
                        ∙ ap (λ (k : ℕ). take (suc size) (drop k (flat nodes))) (sym q)),
              subst (IsAt base (length nodes) after) (omega arith)
                  (step-IsAt base positive nodes i n.size npos (suc size) h block.0 fits),
            )
        | inr t ↦
            let over : ncap < suc size = leb→lt (suc size) ncap t in
            let inside : suc i < length nodes =
              next_inside base (length nodes) i npos ncap (suc size) e over (omega arith) in
            let (n, at, block) = node_at base nodes i u h in
            let (m, at', block') = node_at base nodes (suc i) u inside in
            let (c, eq, where_) =
              copy_out_lem fuel (suc i) 0 m.size (pos + ncap) (suc size - ncap) (omega arith) inside
                positive (omega arith) (omega arith) (omega arith) in
            (
              c,
              copy_out_more fuel i npos ncap size nodes n m _ c at at' (next_some nodes i inside) t
                    eq
                  ∙ ap (λ (l : List ℕ). ok (l, c))
                      (ap
                          (λ (l : List ℕ).
                            l ++ take (suc size - ncap) (drop (pos + ncap) (flat nodes)))
                          (slice n npos ncap at (omega arith)
                            ∙ ap (λ (k : ℕ). take ncap (drop k (flat nodes))) (sym q))
                        ∙ slice-append (flat nodes) pos ncap (suc size - ncap) (suc size)
                            (omega arith)),
              subst (IsAt base (length nodes) c) (omega arith) where_,
            )
      ]
    where
      slice :
          (n : Node) (k len : ℕ)
          → get_elem? nodes i ≡ some n
          → k + len ≤ base
          → take len (drop k n.ptr) ≡ take len (drop (i * base + k) (flat nodes))
      slice n k len at fits = slice-flat base nodes i n k len u at fits
