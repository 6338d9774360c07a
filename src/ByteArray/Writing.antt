-- ===== src/ByteArray/Writing.antt =====
-- The loop of `write`: what the chain holds afterwards, and when the loop runs off the chain.
use native.Mathlib.Decide.{dec_lt}
use cor_reactor.Base.{
  ℕ, zero, suc, ◌+◌, ◌*◌, ◌≤◌, ◌<◌, ◌≡◌, refl, ap, ◌∙◌, List, [], ◌∷◌, ◌++◌, none, some, length,
  length-set, length-append, length-take, length-drop, take-append-drop, get_elem?, take, drop, ok,
  leb, leb→le, leb→lt, if◌then◌else◌, ◌==◌, arith, Bool-cases, inl, inr, subst, true, false, fail,
  null_deref, sym,
}
use cor_reactor.ByteArray.{ByteArray, Node, next, store, memcpy, write_last, write_full, write_loop}
use cor_reactor.ByteArray.Memory.{memcpy-memcpy, memcpy-nil}
use cor_reactor.ByteArray.Chain.{
  IsUniform, flat, flat-store, length-flat, index-lt, store-IsUniform,
}
use cor_reactor.ByteArray.Cursor.{
  IsAt, node_at, next_some, next_none, next_inside, step-IsAt, times_mono,
}

-- `c` is `b` after `buf` was written at its position.
pub record Wrote (b : ByteArray) (buf : List ℕ) (c : ByteArray) : Type 0 where
  pub frame : c ≡ record b { nodes = c.nodes; cur = c.cur; position = c.position }
  pub moved : c.position ≡ b.position + length buf
  pub bytes : flat c.nodes ≡ memcpy (flat b.nodes) b.position buf
  pub uniform : IsUniform b.base_size c.nodes
  pub count : length c.nodes ≡ length b.nodes
  pub at : IsAt b.base_size (length c.nodes) c.cur c.position

length-store :
    (nodes : List Node) (i : ℕ) (n : Node) (npos : ℕ) (bytes : List ℕ)
    → length (store nodes i n npos bytes) ≡ length nodes
unfolding store
length-store nodes i n npos bytes = length-set nodes i _

module _ (b : ByteArray) (i : ℕ) (n : Node) (npos : ℕ) where
  abbrev after_last : List ℕ → ByteArray
  after_last buf = record b {
    nodes = store b.nodes i n npos buf;
    cur = if n.size == npos + length buf then next b.nodes i else some i;
    position = b.position + length buf;
  }

  abbrev after_full : ℕ → List ℕ → ByteArray
  after_full ncap buf = record b {
    nodes = store b.nodes i n npos (take ncap buf);
    cur = some (suc i);
    position = b.position + ncap;
  }

  write_last_lem :
      (buf : List ℕ)
      → b.cur ≡ some i
      → get_elem? b.nodes i ≡ some n
      → write_last b npos buf ≡ ok (after_last buf)
  unfolding write_last
  write_last_lem buf c e = rw (c, e)

  write_full_lem :
      (ncap : ℕ) (buf : List ℕ) (m : Node)
      → b.cur ≡ some i
      → get_elem? b.nodes i ≡ some n
      → next b.nodes i ≡ some (suc i)
      → get_elem? (store b.nodes i n npos (take ncap buf)) (suc i) ≡ some m
      → write_full b npos ncap buf ≡ ok (after_full ncap buf, m.size)
  unfolding write_full
  write_full_lem ncap buf m c e s e' = rw (c, e) (rw s (rw e'))

  write_full_end :
      (ncap : ℕ) (buf : List ℕ)
      → b.cur ≡ some i
      → get_elem? b.nodes i ≡ some n
      → next b.nodes i ≡ none
      → write_full b npos ncap buf ≡ fail null_deref
  unfolding write_full
  write_full_end ncap buf c e s = rw (c, e) (rw s)

-- What is written in two parts.
Wrote-trans :
    {b c d : ByteArray} (buf more : List ℕ)
    → b.position + length buf ≤ length (flat b.nodes)
    → Wrote b buf c
    → Wrote c more d
    → Wrote b (buf ++ more) d
Wrote-trans {b} {c} {d} buf more h v w = record {
  frame =
      w.frame
      ∙ ap (λ (x : ByteArray). record x { nodes = d.nodes; cur = d.cur; position = d.position })
          v.frame;
  moved = omega (arith, v.moved, w.moved, length-append buf more);
  bytes =
      w.bytes
      ∙ ap (λ t. memcpy t c.position more) v.bytes
      ∙ ap (λ k. memcpy (memcpy (flat b.nodes) b.position buf) k more) v.moved
      ∙ memcpy-memcpy (flat b.nodes) b.position buf more h;
  uniform = subst (λ k. IsUniform k d.nodes) same w.uniform;
  count = w.count ∙ v.count;
  at = subst (λ k. IsAt k (length d.nodes) d.cur d.position) same w.at;
}
  where
    same : c.base_size ≡ b.base_size
    same = ap (λ (x : ByteArray). x.base_size) v.frame

module _ (b : ByteArray) (positive : 0 < b.base_size) (u : IsUniform b.base_size b.nodes) where
  after_last-Wrote :
      (i npos : ℕ) (n : Node) (buf : List ℕ)
      → get_elem? b.nodes i ≡ some n
      → n.size ≡ b.base_size
      → b.position ≡ i * b.base_size + npos
      → npos + length buf ≤ b.base_size
      → Wrote b buf (after_last b i n npos buf)
  after_last-Wrote i npos n buf e size pos fits = record {
    frame = refl;
    moved = refl;
    bytes =
        flat-store b.base_size b.nodes i n npos buf u e fits
        ∙ ap (λ k. memcpy (flat b.nodes) k buf) (sym pos);
    uniform = store-IsUniform b.base_size b.nodes i n npos buf u e;
    count = length-store b.nodes i n npos buf;
    at =
        subst
          (λ count.
            IsAt b.base_size count (after_last b i n npos buf).cur (b.position + length buf))
          (sym (length-store b.nodes i n npos buf))
          (subst (IsAt b.base_size (length b.nodes) (after_last b i n npos buf).cur) (omega arith) (
            step-IsAt b.base_size positive b.nodes i n.size npos (length buf)
              (index-lt b.nodes i n e) size fits));
  }

  after_full-Wrote :
      (i npos ncap : ℕ) (n : Node) (buf : List ℕ)
      → get_elem? b.nodes i ≡ some n
      → suc i < length b.nodes
      → b.position ≡ i * b.base_size + npos
      → npos + ncap ≡ b.base_size
      → ncap ≤ length buf
      → Wrote b (take ncap buf) (after_full b i n npos ncap buf)
  after_full-Wrote i npos ncap n buf e inside pos fits long = record {
    frame = refl;
    moved = omega (arith, chunk);
    bytes =
        flat-store b.base_size b.nodes i n npos (take ncap buf) u e (omega (arith, chunk))
        ∙ ap (λ k. memcpy (flat b.nodes) k (take ncap buf)) (sym pos);
    uniform = store-IsUniform b.base_size b.nodes i n npos (take ncap buf) u e;
    count = length-store b.nodes i n npos (take ncap buf);
    at = omega (arith, length-store b.nodes i n npos (take ncap buf));
  }
    where
      chunk : length (take ncap buf) ≡ ncap
      chunk = omega (arith, length-take ncap buf)

-- The state at the head of the loop: `npos` bytes into node `i`, `ncap` before its end.
pub record IsReady (b : ByteArray) (i npos ncap : ℕ) : Type 0 where
  pub positive : 0 < b.base_size
  pub uniform : IsUniform b.base_size b.nodes
  pub cur : b.cur ≡ some i
  pub inside : i < length b.nodes
  pub within : npos < b.base_size
  pub sum : npos + ncap ≡ b.base_size
  pub pos : b.position ≡ i * b.base_size + npos

module _ (fuel : ℕ) (b : ByteArray) (npos ncap x : ℕ) (xs : List ℕ) where
  write_loop_last :
      leb (length (x ∷ xs)) ncap ≡ true
      → write_loop (suc fuel) b npos ncap (x ∷ xs) ≡ write_last b npos (x ∷ xs)
  unfolding write_loop
  write_loop_last t = rw (t, write_loop)

  write_loop_more :
      (b' : ByteArray) (ncap' : ℕ)
      → leb (length (x ∷ xs)) ncap ≡ false
      → write_full b npos ncap (x ∷ xs) ≡ ok (b', ncap')
      → write_loop (suc fuel) b npos ncap (x ∷ xs) ≡ write_loop fuel b' 0 ncap' (drop ncap (x ∷ xs))
  unfolding write_loop
  write_loop_more b' ncap' t e = rw (t, write_loop) (rw e)

  write_loop_end :
      leb (length (x ∷ xs)) ncap ≡ false
      → write_full b npos ncap (x ∷ xs) ≡ fail null_deref
      → write_loop (suc fuel) b npos ncap (x ∷ xs) ≡ fail null_deref
  unfolding write_loop
  write_loop_end t e = rw (t, write_loop) (rw e)

-- A full round: the node is filled and the loop stands at the head of the next one.
full_round :
    (b : ByteArray) (i npos ncap : ℕ) (buf : List ℕ)
    → IsReady b i npos ncap
    → suc i < length b.nodes
    → ncap ≤ length buf
    → (c : ByteArray) × (write_full b npos ncap buf ≡ ok (c, b.base_size))
      × Wrote b (take ncap buf) c
      × IsReady c (suc i) 0 b.base_size
      × (length c.nodes * c.base_size ≡ length b.nodes * b.base_size)
full_round b i npos ncap buf r inside long =
    let (n, at, block) = node_at b.base_size b.nodes i r.uniform r.inside in
    let wrote =
      after_full-Wrote b r.positive r.uniform i npos ncap n buf at inside r.pos r.sum long in
    let c : ByteArray = after_full b i n npos ncap buf in
    let inside' : suc i < length c.nodes = omega (arith, wrote.count) in
    let (m, at', block') = node_at b.base_size c.nodes (suc i) wrote.uniform inside' in
    (
      c,
      write_full_lem b i n npos ncap buf m r.cur at (next_some b.nodes i inside) at'
          ∙ ap (λ (k : ℕ). ok (c, k)) block'.0,
      wrote,
      record {
        positive = r.positive;
        uniform = wrote.uniform;
        cur = refl;
        inside = inside';
        within = r.positive;
        sum = omega arith;
        pos = omega (arith, r.pos, r.sum);
      },
      ap (λ (k : ℕ). k * b.base_size) wrote.count,
    )

-- The loop writes all of `buf`, if the chain holds that much behind the position.
pub write_loop_lem :
    (fuel : ℕ) (b : ByteArray) (i npos ncap : ℕ) (buf : List ℕ)
    → length buf < fuel
    → IsReady b i npos ncap
    → b.position + length buf ≤ length b.nodes * b.base_size
    → (c : ByteArray) × (write_loop fuel b npos ncap buf ≡ ok c) × Wrote b buf c
write_loop_lem zero b i npos ncap buf f r room = absurd (omega arith)
write_loop_lem (suc fuel) b i npos ncap [] f r room = (
  b,
  unfold write_loop in refl,
  record {
    frame = refl;
    moved = omega arith;
    bytes = sym (memcpy-nil (flat b.nodes) b.position);
    uniform = r.uniform;
    count = refl;
    at = rw r.cur (omega (arith, r.inside, r.pos, r.within));
  },
)
write_loop_lem (suc fuel) b i npos ncap (x ∷ xs) f r room =
    elim (Bool-cases (leb (length (x ∷ xs)) ncap)) [
      | inl t ↦
          let (n, at, block) = node_at b.base_size b.nodes i r.uniform r.inside in
          (
            after_last b i n npos (x ∷ xs),
            write_loop_last fuel b npos ncap x xs t ∙ write_last_lem b i n npos (x ∷ xs) r.cur at,
            after_last-Wrote b r.positive r.uniform i npos n (x ∷ xs) at block.0 r.pos
                (omega (arith, leb→le _ _ t, r.sum)),
          )
      | inr t ↦
          let over : ncap < length (x ∷ xs) = leb→lt (length (x ∷ xs)) ncap t in
          let (c, eq, wrote, ready, room') =
            full_round b i npos ncap (x ∷ xs) r
              (next_inside b.base_size (length b.nodes) i npos ncap (length (x ∷ xs)) r.sum over
                (omega (arith, r.pos)))
              (omega arith) in
          let chunk : length (take ncap (x ∷ xs)) ≡ ncap =
            omega (arith, length-take ncap (x ∷ xs)) in
          let left = length-drop ncap (x ∷ xs) in
          let (d, eq', wrote') =
            write_loop_lem fuel c (suc i) 0 b.base_size (drop ncap (x ∷ xs))
              (omega (arith, left, r.sum, r.within)) ready
              (omega (arith, left, chunk, room', wrote.moved)) in
          (
            d,
            write_loop_more fuel b npos ncap x xs c b.base_size t eq ∙ eq',
            subst (λ l. Wrote b l d) (take-append-drop ncap (x ∷ xs))
                (Wrote-trans (take ncap (x ∷ xs)) (drop ncap (x ∷ xs))
                  (omega (arith, chunk, length-flat b.base_size b.nodes r.uniform)) wrote wrote'),
          )
    ]

-- With more bytes than the chain holds behind the position the loop goes through a null pointer.
pub write_loop_runs_off :
    (fuel : ℕ) (b : ByteArray) (i npos ncap : ℕ) (buf : List ℕ)
    → length buf < fuel
    → IsReady b i npos ncap
    → length b.nodes * b.base_size < b.position + length buf
    → write_loop fuel b npos ncap buf ≡ fail null_deref
write_loop_runs_off zero b i npos ncap buf f r room = absurd (omega arith)
write_loop_runs_off (suc fuel) b i npos ncap [] f r room =
    absurd
      (omega (arith, times_mono (suc i) (length b.nodes) b.base_size r.inside, r.pos, r.within))
write_loop_runs_off (suc fuel) b i npos ncap (x ∷ xs) f r room =
    elim (Bool-cases (leb (length (x ∷ xs)) ncap)) [
      | inl t ↦ absurd (
          omega (
            arith,
            leb→le _ _ t,
            times_mono (suc i) (length b.nodes) b.base_size r.inside,
            r.pos,
            r.sum,
          ))
      | inr t ↦ elim (dec_lt (suc i) (length b.nodes)) [
        | yes inside ↦
            let over : ncap < length (x ∷ xs) = leb→lt (length (x ∷ xs)) ncap t in
            let (c, eq, wrote, ready, room') =
              full_round b i npos ncap (x ∷ xs) r inside (omega arith) in
            let chunk : length (take ncap (x ∷ xs)) ≡ ncap =
              omega (arith, length-take ncap (x ∷ xs)) in
            let left = length-drop ncap (x ∷ xs) in
            write_loop_more fuel b npos ncap x xs c b.base_size t eq
            ∙ write_loop_runs_off fuel c (suc i) 0 b.base_size (drop ncap (x ∷ xs))
                (omega (arith, left, r.sum, r.within)) ready
                (omega (arith, left, chunk, room', wrote.moved))
        | no outside ↦
            let (n, at, block) = node_at b.base_size b.nodes i r.uniform r.inside in
            write_loop_end fuel b npos ncap x xs t
              (write_full_end b i n npos ncap (x ∷ xs) r.cur at (next_none b.nodes i outside))
      ]
    ]
