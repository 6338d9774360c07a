-- ===== src/ByteArray/Position.antt =====
-- setPosition and clear, and reading back what was written.
use native.Mathlib.Decide.{dec_lt}
use mathlib.Core.Path.{ap₂}
use cor_reactor.Base.{
  true, false, ℕ, zero, suc, ◌+◌, ◌-◌, ◌*◌, ◌≤◌, ◌<◌, ◌≡◌, refl, ap, ◌∙◌, subst, List, [], ◌∷◌,
  Option, some, length, get_elem?, take, drop, max, arith, ◌==◌, if◌then◌else◌, ltb, lt→ltb, le→ltb,
  Bool-cases, inl, inr, ok, fail, out_of_range, ◌>>=◌, ltb→lt, ltb→le, ==_iff,
}
use cor_reactor.ByteArray.{ByteArray, Node, next, seek, set_position, clear, write, read}
use cor_reactor.ByteArray.Chain.{flat, IsUniform}
use cor_reactor.ByteArray.Cursor.{IsAt, node_at, next_some, next-IsAt, times_mono}
use cor_reactor.ByteArray.Invariant.{IsValid, IsShort, contents, length-contents}
use cor_reactor.ByteArray.Capacity.{room}
use cor_reactor.ByteArray.Overwrite.{take-drop-overwrite}
use cor_reactor.ByteArray.Write.{write_lem}
use cor_reactor.ByteArray.Read.{read_lem}

seek_more :
    (fuel i : ℕ) (nodes : List Node) (n : Node) (v : ℕ)
    → get_elem? nodes i ≡ some n
    → ltb n.size v ≡ true
    → seek (suc fuel) nodes (some i) v ≡ seek fuel nodes (next nodes i) (v - n.size)
unfolding seek
seek_more fuel i nodes n v e t = ground arith

seek_stop :
    (fuel i : ℕ) (nodes : List Node) (n : Node) (v : ℕ)
    → get_elem? nodes i ≡ some n
    → ltb n.size v ≡ false
    → seek (suc fuel) nodes (some i) v ≡ ok (if v == n.size then next nodes i else some i)
unfolding seek
seek_stop fuel i nodes n v e t = ground arith

module _ (base : ℕ) (positive : 0 < base) (nodes : List Node) (u : IsUniform base nodes) where
  seek_lem :
      (fuel i v pos : ℕ)
      → i < length nodes
      → length nodes ≤ i + fuel
      → pos ≡ i * base + v
      → pos ≤ length nodes * base
      → (c : Option ℕ) × (seek fuel nodes (some i) v ≡ ok c) × IsAt base (length nodes) c pos
  seek_lem zero i v pos h f e inside = absurd (omega arith)
  seek_lem (suc fuel) i v pos h f e inside =
      let (n, at, block) = node_at base nodes i u h in
      elim (Bool-cases (ltb n.size v)) [
        | inl t ↦
            let beyond : base < v = omega (arith, ltb→lt _ _ t, block.0) in
            let more : suc i < length nodes = elim (dec_lt (suc i) (length nodes)) [
              | yes p ↦ p
              | no p ↦ absurd (omega (arith, times_mono (length nodes) (suc i) base (omega arith)))
            ] in
            let (c, eq, place) =
              seek_lem fuel (suc i) (v - n.size) pos more (omega arith) (omega (arith, block.0))
                inside in
            (
              c,
              seek_more fuel i nodes n v at t
                  ∙ ap (λ k. seek fuel nodes k (v - n.size)) (next_some nodes i more)
                  ∙ eq,
              place,
            )
        | inr t ↦
            let within : v ≤ base = omega (arith, ltb→le _ _ t, block.0) in
            (
              (if v == n.size then next nodes i else some i),
              seek_stop fuel i nodes n v at t,
              stop i n v pos h block.0 e within,
            )
      ]
    where
      stop :
          (i : ℕ) (n : Node) (v pos : ℕ)
          → i < length nodes
          → n.size ≡ base
          → pos ≡ i * base + v
          → v ≤ base
          → IsAt base (length nodes) (if v == n.size then next nodes i else some i) pos
      stop i n v pos h size e within = elim (Bool-cases (v == n.size)) [
        | inl end ↦ rw end (
            subst (IsAt base (length nodes) (next nodes i)) (omega (arith, (==_iff v n.size).0 end))
              (next-IsAt base positive nodes i h))
        | inr before ↦ rw before (ground arith)
      ]

-- `c` is `b` moved to `v`; the data grows up to there.
pub record Moved (b : ByteArray) (v : ℕ) (c : ByteArray) : Type 0 where
  pub valid : IsValid c
  pub position : c.position ≡ v
  pub size : c.size ≡ max b.size v
  pub frame : c ≡ record b { cur = c.cur; position = c.position; size = c.size }

-- On a valid array setPosition succeeds up to the capacity, where it moves to the position asked for,
-- raises the size to it and changes no node; beyond the capacity it throws.
pub set_position_lem :
    (b : ByteArray) (v : ℕ)
    → IsValid b
    → (v ≤ b.capacity → (c : ByteArray) × (set_position b v ≡ ok c) × Moved b v c)
      × (b.capacity < v → set_position b v ≡ fail out_of_range)
unfolding set_position
set_position_lem b v w = (
  (λ h.
      let (c, eq, at) =
        seek_lem b.base_size w.positive b.nodes w.uniform (suc (length b.nodes)) 0 v v w.root
          (omega arith) (omega arith) (omega (arith, w.full)) in
      let size : ℕ = if ltb b.size v then v else b.size in
      let sizes : size ≡ max b.size v = ground arith in
      (
        record b { cur = c; position = v; size = size },
        rw (le→ltb b.capacity v h) (rw eq),
        record {
          valid = record {
            positive = w.positive;
            root = w.root;
            uniform = w.uniform;
            full = w.full;
            at = at;
            read_le = omega (arith, sizes);
            size_le = omega (arith, sizes, w.size_le);
          };
          position = refl;
          size = sizes;
          frame = refl;
        },
      )),
  (λ h. rw (lt→ltb b.capacity v h)),
)

first_node :
    (base : ℕ) (nodes : List Node)
    → 0 < length nodes
    → IsUniform base nodes
    → (length (take 1 nodes) ≡ 1) × IsUniform base (take 1 nodes)
first_node base [] h u = absurd (omega arith)
first_node base (n ∷ nodes) h u = (refl, (u.0, tt))

-- On a valid array clear leaves a valid array without data, with the capacity of one node.
pub clear_lem :
    (b : ByteArray)
    → IsValid b
    → IsValid (clear b) × (contents (clear b) ≡ []) × ((clear b).capacity ≡ b.base_size)
unfolding clear
clear_lem b v =
    let (one, uniform) = first_node b.base_size b.nodes v.root v.uniform in
    (
      record {
        positive = v.positive;
        root = omega (arith, one);
        uniform = uniform;
        full = omega (arith, ap (λ (k : ℕ). k * b.base_size) one);
        at = omega (arith, one, v.positive);
        read_le = omega arith;
        size_le = omega arith;
      },
      refl,
      refl,
    )

-- On a valid array where addCapacity does not fall short, writing some bytes, going back and reading
-- as many succeeds and returns those bytes, with the position behind them.
pub read-write :
    (b : ByteArray) (buf : List ℕ)
    → IsValid b
    → ¬ IsShort b.base_size (room b) (length buf)
    → 0 < length buf
    → (c : ByteArray) × ((do
      written ← write b buf
      back ← set_position written b.position
      read back (length buf))
        ≡ ok (buf, c))
      × IsValid c
      × (c.position ≡ b.position + length buf)
read-write b buf v ns some_ =
    let (c, written, w) = write_lem b buf v ns in
    let (d, back, m) =
      (set_position_lem c b.position w.valid).0
        (omega (arith, w.moved, w.valid.read_le, w.valid.size_le)) in
    let d_size : d.size ≡ c.size = omega (arith, m.size, w.size, v.read_le) in
    let d_cap : d.capacity ≡ c.capacity = ap (λ (x : ByteArray). x.capacity) m.frame in
    let d_nodes : d.nodes ≡ c.nodes = ap (λ (x : ByteArray). x.nodes) m.frame in
    let (e, taken, r) =
      read_lem d (length buf) m.valid
        (omega (arith, d_cap, m.position, w.moved, w.valid.read_le, w.valid.size_le))
        (omega (arith, d_size, m.position, w.moved, w.valid.read_le)) in
    (
      e,
      rw written (
          rw back (
            taken
            ∙ ap (λ l. ok (l, e))
                (ap (λ p. take (length buf) (drop p (contents d))) m.position
                  ∙ ap₂ (λ k ns. take (length buf) (drop b.position (take k (flat ns)))) d_size
                      d_nodes
                  ∙ ap (λ l. take (length buf) (drop b.position l)) w.refines
                  ∙ take-drop-overwrite (contents b) b.position buf
                      (omega (arith, length-contents b v, v.read_le))))),
      r.valid,
      omega (arith, r.moved, m.position),
    )
