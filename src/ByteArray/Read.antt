-- ===== src/ByteArray/Read.antt =====
-- `read`, its const overload, and toString, against the contents.
use native.Mathlib.Nat.{mod-lt}
use cor_reactor.Base.{
  take-all, drop-all, ==_iff, le→ltb, lt→ltb, All-get, ℕ, zero, suc, ◌+◌, ◌*◌, ◌%◌, ◌≤◌, ◌<◌, ◌≡◌,
  refl, sym, ap, ◌∙◌, subst, List, [], ◌∷◌, Option, none, some, length, get_elem?, take, drop,
  length-drop, arith, ◌==◌, Bool-cases, inl, inr, Option-cases, ok, fail, null_deref, out_of_range,
}
use cor_reactor.ByteArray.{
  ByteArray, Node, sub_size, read_from, read, read_at, copy_out, to_string, get_read_size,
}
use cor_reactor.ByteArray.Chain.{flat, IsBlock}
use cor_reactor.ByteArray.Cursor.{IsAt, node_at, times_mono}
use cor_reactor.ByteArray.Invariant.{IsValid, contents, length-contents, get_read_size_lem}
use cor_reactor.ByteArray.Reading.{Copied, copy_out_lem}
use cor_reactor.ByteArray.Write.{loaded}

take-drop-take :
    (n p size : ℕ) (l : List ℕ) → p + n ≤ size → take n (drop p (take size l)) ≡ take n (drop p l)
take-drop-take zero p size l h = refl
take-drop-take (suc n) zero zero l h = absurd (omega arith)
take-drop-take (suc n) zero (suc size) [] h = refl
take-drop-take (suc n) zero (suc size) (x ∷ l) h =
    ap (◌∷◌ x) (take-drop-take n zero size l (omega arith))
take-drop-take (suc n) (suc p) zero l h = absurd (omega arith)
take-drop-take (suc n) (suc p) (suc size) [] h = refl
take-drop-take (suc n) (suc p) (suc size) (x ∷ l) h = take-drop-take (suc n) p size l (omega arith)

-- `c` is `b` after `n` bytes were read.
pub record ReadOff (b : ByteArray) (n : ℕ) (c : ByteArray) : Type 0 where
  pub valid : IsValid c
  pub moved : c.position ≡ b.position + n
  pub frame : c ≡ record b { cur = c.cur; position = c.position }

pub ReadOff-trans :
    {b c d : ByteArray} {m n : ℕ} → ReadOff b m c → ReadOff c n d → ReadOff b (m + n) d
ReadOff-trans {b} {c} {d} r s = record {
  valid = s.valid;
  moved = omega (arith, r.moved, s.moved);
  frame = s.frame ∙ ap (λ (x : ByteArray). record x { cur = d.cur; position = d.position }) r.frame;
}

read_from_lem :
    (b : ByteArray) (size position i : ℕ) (n : Node)
    → b.cur ≡ some i
    → get_elem? b.nodes i ≡ some n
    → read_from b size position
      ≡ copy_out
          (suc size)
          b.nodes
          (some i)
          (position % b.base_size)
          (sub_size n.size (position % b.base_size))
          size
unfolding read_from
read_from_lem b size position i n c e = rw (c, e)

-- From the current node, `size` bytes from the offset that `position` has in a node.
read_from-Copied :
    (b : ByteArray) (size position i : ℕ) (n : Node)
    → IsValid b
    → b.cur ≡ some i
    → get_elem? b.nodes i ≡ some n
    → n.size ≡ b.base_size
    → i < length b.nodes
    → i * b.base_size + position % b.base_size + size ≤ b.capacity
    → Copied b.base_size b.nodes
        (i * b.base_size + position % b.base_size)
        size
        (read_from b size position)
read_from-Copied b size position i n v c e block inside room =
    subst (Copied b.base_size b.nodes (i * b.base_size + position % b.base_size) size)
      (sym (read_from_lem b size position i n c e))
      (copy_out_lem b.base_size v.positive b.nodes v.uniform (suc size) i (position % b.base_size)
        (sub_size n.size (position % b.base_size)) (i * b.base_size + position % b.base_size) size
        (omega arith) inside (mod-lt position v.positive) (offset n.size block) refl
        (omega (arith, v.full)))
  where
    offset :
        (size : ℕ)
        → size ≡ b.base_size
        → position % b.base_size + sub_size size (position % b.base_size) ≡ b.base_size
    offset size e = ground (arith, mod-lt position v.positive)

-- Reading at the position of a valid array.
pub read_here :
    (b : ByteArray) (size : ℕ)
    → IsValid b
    → b.position < b.capacity
    → b.position + size ≤ b.size
    → (c : Option ℕ) × (read_from b size b.position
        ≡ ok (take size (drop b.position (contents b)), c))
      × IsAt b.base_size (length b.nodes) c (b.position + size)
read_here b size v h enough =
    let (i, n, c, found, ready) = loaded b v h in
    let block = All-get (IsBlock b.base_size) b.nodes i n v.uniform found in
    let (cur, eq, at) =
      subst (λ p. Copied b.base_size b.nodes p size (read_from b size b.position)) (sym ready.pos)
        (read_from-Copied b size b.position i n v c found block.0 ready.inside
          (omega (arith, ready.pos, enough, v.size_le))) in
    (
      cur,
      eq
          ∙ ap (λ (l : List ℕ). ok (l, cur))
              (sym (take-drop-take size b.position b.size (flat b.nodes) enough)),
      at,
    )

-- On a valid array whose position is not at the end of the last node, `read` of bytes that the array
-- holds succeeds, returns them and moves behind them; the array stays valid.
pub read_lem :
    (b : ByteArray) (size : ℕ)
    → IsValid b
    → b.position < b.capacity
    → b.position + size ≤ b.size
    → (c : ByteArray) × (read b size ≡ ok (take size (drop b.position (contents b)), c))
      × ReadOff b size c
unfolding read
read_lem b size v h enough =
    let (cur, eq, at) = read_here b size v h enough in
    (
      record b { cur = cur; position = b.position + size },
      rw (le→ltb (get_read_size b) size (omega (arith, get_read_size_lem b v))) (rw eq),
      record {
        valid = record {
          positive = v.positive;
          root = v.root;
          uniform = v.uniform;
          full = v.full;
          at = at;
          read_le = enough;
          size_le = v.size_le;
        };
        moved = refl;
        frame = refl;
      },
    )

null_at_end : (b : ByteArray) → IsValid b → b.position ≡ b.capacity → b.cur ≡ none
null_at_end b v e = elim (Option-cases b.cur) [
  | inl null ↦ null
  | inr (i, c) ↦
      let at = subst (λ k. IsAt b.base_size (length b.nodes) k b.position) c v.at in
      absurd (omega (arith, v.full, e, at, times_mono (suc i) (length b.nodes) b.base_size at.0))
]

read_from_null :
    (b : ByteArray) (size : ℕ) → b.cur ≡ none → read_from b size b.position ≡ fail null_deref
unfolding read_from
read_from_null b size e = rw e

-- On a valid array `read` of more bytes than lie behind the position throws, and at the end of the last node `read`
-- of no bytes goes through a null pointer.
pub read_fails :
    (b : ByteArray) (size : ℕ)
    → IsValid b
    → (b.size < b.position + size → read b size ≡ fail out_of_range)
      × (b.position ≡ b.capacity → size ≡ 0 → read b size ≡ fail null_deref)
unfolding read
read_fails b size v = (
  (λ over. rw (lt→ltb (get_read_size b) size (omega (arith, get_read_size_lem b v, v.read_le)))),
  (λ end none_.
      rw (le→ltb (get_read_size b) size (omega (arith, get_read_size_lem b v)))
        (rw (read_from_null b size (null_at_end b v end)))),
)

read_at_eq :
    (b : ByteArray) (size position : ℕ) {out : List ℕ} (cur : Option ℕ)
    → position + size ≤ b.size
    → read_from b size position ≡ ok (out, cur)
    → read_at b size position ≡ ok out
unfolding read_at
read_at_eq b size position cur enough e =
    rw (le→ltb (sub_size b.size position) size (ground arith)) (rw e)

-- On a valid array toString returns the bytes of the data from the position on.
pub to_string_lem : (b : ByteArray) → IsValid b → to_string b ≡ ok (drop b.position (contents b))
unfolding to_string
to_string_lem b v = elim (Bool-cases (get_read_size b == 0)) [
  | inl none_ ↦ rw none_ (
      ap ok (
        sym (
          drop-all b.position (contents b)
            (omega (arith, length-contents b v, get_read_size_lem b v, (==_iff _ _).0 none_)))))
  | inr some_ ↦
      let size = get_read_size b in
      let rest : b.position + size ≡ b.size = omega (arith, get_read_size_lem b v, v.read_le) in
      let ahead : b.position < b.size = ground (arith, get_read_size_lem b v, v.read_le) in
      let (cur, eq, at) = read_here b size v (omega (arith, v.size_le)) (omega (arith, rest)) in
      rw some_ (
        read_at_eq b size b.position cur (omega arith) eq
        ∙ ap ok (
            take-all size (drop b.position (contents b))
              (omega (arith, rest, length-drop b.position (contents b), length-contents b v))))
]

-- On a valid array, the overload of `read` with a position reads from the node of the current
-- position, at the offset that the given position has in its own node, where the bytes asked for lie
-- inside the data and the bytes so read inside the chain.
pub read_at_lem :
    (b : ByteArray) (size position i : ℕ)
    → IsValid b
    → b.cur ≡ some i
    → position + size ≤ b.size
    → i * b.base_size + position % b.base_size + size ≤ b.capacity
    → read_at b size position
      ≡ ok (take size (drop (i * b.base_size + position % b.base_size) (flat b.nodes)))
read_at_lem b size position i v c enough room =
    let at = subst (λ k. IsAt b.base_size (length b.nodes) k b.position) c v.at in
    let (n, found, block) = node_at b.base_size b.nodes i v.uniform at.0 in
    let (cur, eq, _) = read_from-Copied b size position i n v c found block.0 at.0 room in
    read_at_eq b size position cur enough eq
