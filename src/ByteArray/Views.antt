-- ===== src/ByteArray/Views.antt =====
-- src/bytearray.cpp: getReadBuffers and getWriteBuffers, which hand out views of the blocks.
-- A view is an iovec: the index of its block, the offset in it and the length.
use mathlib.Core.List.{append-nil}
use cor_reactor.Base.{
  ℕ, zero, suc, ◌+◌, ◌-◌, ◌/◌, ◌%◌, ◌≤◌, ◌<◌, ◌≡◌, refl, ap, ◌∙◌, subst, inl, inr, List, [], ◌∷◌,
  ◌++◌, Option, none, some, true, false, ltb, leb, ◌==◌, ==_iff, if◌then◌else◌, get_elem?, take,
  drop, Result, ok, fail, out_of_fuel, null_deref, or_fail, ◌>>=◌, >>=-eq-ok, ok_eq, Bool-cases,
  arith, ◌⊎◌, ltb→lt, ltb→le,
}
use cor_reactor.ByteArray.{
  ByteArray, Node, deref, next, sub_size, copy_out, read_from, get_read_size, add_capacity,
}
use cor_reactor.ByteArray.Invariant.{IsValid, contents, get_read_size_lem}
use cor_reactor.ByteArray.Read.{read_here}

pub record View : Type 0 where
  pub block : ℕ
  pub offset : ℕ
  pub len : ℕ

-- The loop over the blocks.
unfoldable pub views : ℕ → List Node → Option ℕ → ℕ → ℕ → ℕ → Result (List View)
unfolding deref next
views zero nodes cur npos ncap len = fail out_of_fuel
views (suc fuel) nodes cur npos ncap zero = ok []
views (suc fuel) nodes cur npos ncap (suc len) = elim (leb (suc len) ncap) [
  | true ↦ do (i, n) ← deref nodes cur; ok (record { block = i; offset = npos; len = suc len } ∷ [])
  | false ↦ do
    (i, n) ← deref nodes cur
    (j, m) ← deref nodes (next nodes i)
    rest ← views fuel nodes (some j) 0 m.size (suc len - ncap)
    ok (record { block = i; offset = npos; len = ncap } ∷ rest)
]

-- The views of `len` bytes from the offset of `position`, from the block `cur` on.
unfoldable pub views_from : ByteArray → Option ℕ → ℕ → ℕ → Result (ℕ × List View)
unfolding views deref
views_from b cur position len = do
  let npos = position % b.base_size
  (i, n) ← deref b.nodes cur
  vs ← views (suc len) b.nodes cur npos (sub_size n.size npos) len
  ok (len, vs)

-- getReadBuffers at the position
unfoldable pub get_read_buffers : ByteArray → ℕ → Result (ℕ × List View)
unfolding views_from
get_read_buffers b len =
    let wanted = if ltb (get_read_size b) len then get_read_size b else len in
    if wanted == 0 then ok (0, []) else views_from b b.cur b.position wanted

-- `cur = cur->next`, count times
unfoldable pub walk : ℕ → List Node → Option ℕ → Result (Option ℕ)
unfolding deref next
walk zero nodes cur = ok cur
walk (suc count) nodes cur = do (i, n) ← deref nodes cur; walk count nodes (next nodes i)

-- getReadBuffers at another position
unfoldable pub get_read_buffers_at : ByteArray → ℕ → ℕ → Result (ℕ × List View)
unfolding views_from walk
get_read_buffers_at b len position =
    let wanted = if ltb (get_read_size b) len then get_read_size b else len in
    if wanted == 0
    then ok (0, [])
    else do cur ← walk (position / b.base_size) b.nodes (some 0); views_from b cur position wanted

-- getWriteBuffers
unfoldable pub get_write_buffers : ByteArray → ℕ → Result (ByteArray × (ℕ × List View))
unfolding views_from add_capacity
get_write_buffers b len =
    if len == 0
    then ok (b, (0, []))
    else do let c = add_capacity b len; r ← views_from c c.cur c.position len; ok (c, r)

-- The bytes that views show.
block_bytes : Option Node → View → List ℕ
block_bytes none v = []
block_bytes (some n) v = take v.len (drop v.offset n.ptr)

unfoldable pub gather : List Node → List View → List ℕ
unfolding block_bytes
gather nodes [] = []
gather nodes (v ∷ vs) = block_bytes (get_elem? nodes v.block) v ++ gather nodes vs

deref-eq-ok :
    (nodes : List Node) (cur : Option ℕ) (r : ℕ × Node)
    → deref nodes cur ≡ ok r
    → get_elem? nodes r.0 ≡ some r.1
unfolding deref
deref-eq-ok nodes none r h = cc h
deref-eq-ok nodes (some i) r h =
    let (n, e, q) = >>=-eq-ok (or_fail (get_elem? nodes i) null_deref) _ h in
    at r (ok_eq q) (or_fail-eq-ok (get_elem? nodes i) n e)
  where
    at :
        {n : Node} (r : ℕ × Node)
        → (i, n) ≡ r
        → get_elem? nodes i ≡ some n
        → get_elem? nodes r.0 ≡ some r.1
    at r q e = subst (λ (p : ℕ × Node). get_elem? nodes p.0 ≡ some p.1) q e

    or_fail-eq-ok : (o : Option Node) (n : Node) → or_fail o null_deref ≡ ok n → o ≡ some n
    or_fail-eq-ok none n h = cc h
    or_fail-eq-ok (some m) n h = ap some (ok_eq h)

views_more :
    (fuel : ℕ) (nodes : List Node) (cur : Option ℕ) (npos ncap len : ℕ) (p s : ℕ × Node)
    (vs : List View)
    → leb (suc len) ncap ≡ false
    → deref nodes cur ≡ ok p
    → deref nodes (next nodes p.0) ≡ ok s
    → views fuel nodes (some s.0) 0 s.1.size (suc len - ncap) ≡ ok vs
    → views (suc fuel) nodes cur npos ncap (suc len)
      ≡ ok (record { block = p.0; offset = npos; len = ncap } ∷ vs)
unfolding views
views_more fuel nodes cur npos ncap len p s vs t d d' e = rw (t, views) (rw (d, d', e))

gather-deref :
    (nodes : List Node) (cur : Option ℕ) (p : ℕ × Node) (npos len : ℕ) (vs : List View)
    → deref nodes cur ≡ ok p
    → gather nodes (record { block = p.0; offset = npos; len = len } ∷ vs)
      ≡ take len (drop npos p.1.ptr) ++ gather nodes vs
unfolding gather block_bytes
gather-deref nodes cur p npos len vs d = rw (deref-eq-ok nodes cur p d)

-- Where the copying loop returns bytes, the loop over the blocks returns views of them.
views_lem :
    (fuel : ℕ) (nodes : List Node) (cur : Option ℕ) (npos ncap len : ℕ) (r : List ℕ × Option ℕ)
    → copy_out fuel nodes cur npos ncap len ≡ ok r
    → (vs : List View) × (views fuel nodes cur npos ncap len ≡ ok vs) × (gather nodes vs ≡ r.0)
unfolding copy_out views gather block_bytes
views_lem zero nodes cur npos ncap len r h = cc h
views_lem (suc fuel) nodes cur npos ncap zero r h =
    ([], refl, ap (λ (p : List ℕ × Option ℕ). p.0) (ok_eq h))
views_lem (suc fuel) nodes cur npos ncap (suc len) r h = elim (Bool-cases (leb (suc len) ncap)) [
  | inl t ↦
      let (p, d, q) = >>=-eq-ok (deref nodes cur) _ (rw (t, copy_out) at h) in
      (
        record { block = p.0; offset = npos; len = suc len } ∷ [],
        rw (t, views) (rw d),
        gather-deref nodes cur p npos (suc len) [] d
            ∙ append-nil (take (suc len) (drop npos p.1.ptr))
            ∙ ap (λ (p : List ℕ × Option ℕ). p.0) (ok_eq q),
      )
  | inr t ↦
      let (p, d, q) = >>=-eq-ok (deref nodes cur) _ (rw (t, copy_out) at h) in
      let (s, d', q') = >>=-eq-ok (deref nodes (next nodes p.0)) _ q in
      let (rest, e, l) =
        >>=-eq-ok (copy_out fuel nodes (some s.0) 0 s.1.size (suc len - ncap)) _ q' in
      let (vs, eq, same) = views_lem fuel nodes (some s.0) 0 s.1.size (suc len - ncap) rest e in
      (
        record { block = p.0; offset = npos; len = ncap } ∷ vs,
        views_more fuel nodes cur npos ncap len p s vs t d d' eq,
        gather-deref nodes cur p npos ncap vs d
            ∙ ap (λ l. take ncap (drop npos p.1.ptr) ++ l) same
            ∙ ap (λ (p : List ℕ × Option ℕ). p.0) (ok_eq l),
      )
]

views_from-read_from :
    (b : ByteArray) (size position : ℕ) (r : List ℕ × Option ℕ)
    → read_from b size position ≡ ok r
    → (vs : List View) × (views_from b b.cur position size ≡ ok (size, vs))
      × (gather b.nodes vs ≡ r.0)
unfolding read_from views_from
views_from-read_from b size position r h =
    let (p, d, q) = >>=-eq-ok (deref b.nodes b.cur) _ h in
    let (vs, e, same) =
      views_lem (suc size) b.nodes b.cur (position % b.base_size)
        (sub_size p.1.size (position % b.base_size)) size r q in
    (vs, rw (d, e), same)

-- On a valid array getReadBuffers ends without a null dereference. It returns the number of bytes
-- asked for, or of those behind the position when they are fewer, and its views show that many bytes
-- of the data from the position on.
pub get_read_buffers_lem :
    (b : ByteArray) (len : ℕ)
    → IsValid b
    → (n : ℕ) × (vs : List View) × (get_read_buffers b len ≡ ok (n, vs))
      × ((n ≤ len) × (b.position + n ≤ b.size) × ((n ≡ len) ⊎ (b.position + n ≡ b.size)))
      × (gather b.nodes vs ≡ take n (drop b.position (contents b)))
unfolding get_read_buffers gather
get_read_buffers_lem b len v =
    let wanted = if ltb (get_read_size b) len then get_read_size b else len in
    let rest = get_read_size_lem b v in
    let bounds : (wanted ≤ len)
        × (b.position + wanted ≤ b.size)
        × ((wanted ≡ len) ⊎ (b.position + wanted ≡ b.size)) =
      bounded (get_read_size b) rest in
    elim (Bool-cases (wanted == 0)) [
      | inl z ↦
          let none_ : wanted ≡ 0 = (==_iff wanted 0).0 z in
          (
            0,
            [],
            rw z,
            subst
                (λ n.
                  (n ≤ len) × (b.position + n ≤ b.size) × ((n ≡ len) ⊎ (b.position + n ≡ b.size)))
                none_ bounds,
            refl,
          )
      | inr z ↦
          let some_ : 0 < wanted = ground (arith, z) in
          let (cur, eq, at) =
            read_here b wanted v (omega (arith, some_, bounds.1, v.size_le)) bounds.1 in
          let (vs, e, same) = views_from-read_from b wanted b.position _ eq in
          (wanted, vs, rw z e, bounds, same)
    ]
  where
    bounded :
        (room : ℕ)
        → room ≡ b.size - b.position
        → let n = if ltb room len then room else len in
          (n ≤ len) × (b.position + n ≤ b.size) × ((n ≡ len) ⊎ (b.position + n ≡ b.size))
    bounded room e = elim (Bool-cases (ltb room len)) [
      | inl h ↦ rw h (
        omega (arith, ltb→lt _ _ h),
        omega (arith, e, v.read_le),
        inr (omega (arith, e, v.read_le)),
      )
      | inr h ↦ rw h (omega arith, omega (arith, e, v.read_le, ltb→le _ _ h), inl refl)
    ]
