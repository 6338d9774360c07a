-- ===== src/ByteArray/Write.antt =====
-- `write` refines overwriting the contents, except where addCapacity falls short.
use cor_reactor.Base.{
  ℕ, suc, ◌+◌, ◌-◌, ◌*◌, ◌%◌, ◌≤◌, ◌<◌, ◌≡◌, refl, sym, ap, ◌∙◌, subst, List, [], ◌∷◌, ◌++◌, some,
  length, get_elem?, take, max, arith, inl, inr, Option-cases, ok, fail, null_deref, ◌>>=◌,
}
use cor_reactor.ByteArray.{
  ByteArray, Node, sub_size, raise_size, memcpy, write_from, write, write_loop, add_capacity,
}
use cor_reactor.ByteArray.Chain.{flat, length-flat, IsUniform}
use cor_reactor.ByteArray.Cursor.{IsAt, IsAt-mod, node_at}
use cor_reactor.ByteArray.Invariant.{IsValid, IsShort, contents}
use cor_reactor.ByteArray.Capacity.{room, Enlarged, add_capacity-Enlarged}
use cor_reactor.ByteArray.Writing.{Wrote, IsReady, write_loop_lem, write_loop_runs_off}
use cor_reactor.ByteArray.Overwrite.{overwrite, overwrite-nil, take-memcpy-append}

-- `c` is `b` with `buf` written at its position, seen from outside.
pub record Written (b : ByteArray) (buf : List ℕ) (c : ByteArray) : Type 0 where
  pub valid : IsValid c
  pub moved : c.position ≡ b.position + length buf
  pub size : c.size ≡ max b.size (b.position + length buf)
  pub refines : contents c ≡ overwrite (contents b) b.position buf
  pub endian : c.endian ≡ b.endian

sub_size_lem : (a b : ℕ) → b ≤ a → sub_size a b ≡ a - b
sub_size_lem a b h = ground arith

-- The pointer of a valid array with room behind the position, with its node.
abbrev Loaded : ByteArray → ℕ → Node → Type 0
Loaded b i n =
    (get_elem? b.nodes i ≡ some n)
    × IsReady b i (b.position % b.base_size) (sub_size n.size (b.position % b.base_size))

Loaded-at :
    (b : ByteArray) (i : ℕ)
    → IsValid b
    → b.cur ≡ some i
    → IsAt b.base_size (length b.nodes) (some i) b.position
    → (n : Node) × Loaded b i n
Loaded-at b i v c at =
    let (n, found, block) = node_at b.base_size b.nodes i v.uniform at.0 in
    let off = IsAt-mod b.base_size v.positive b.nodes i b.position at in
    (
      n,
      (
        found,
        record {
          positive = v.positive;
          uniform = v.uniform;
          cur = c;
          inside = at.0;
          within = omega (arith, off, at);
          sum = omega (arith, off, at, block.0, sub_size_lem n.size (b.position % b.base_size));
          pos = omega (arith, off, at);
        },
      ),
    )

pub loaded :
    (b : ByteArray)
    → IsValid b
    → b.position < b.capacity
    → (i : ℕ) × (n : Node) × (b.cur ≡ some i)
      × (get_elem? b.nodes i ≡ some n)
      × IsReady b i (b.position % b.base_size) (sub_size n.size (b.position % b.base_size))
loaded b v h = elim (Option-cases b.cur) [
  | inl e ↦
      absurd
        (omega (arith, subst (λ c. IsAt b.base_size (length b.nodes) c b.position) e v.at, v.full))
  | inr (i, e) ↦
      let (n, l) =
        Loaded-at b i v e (subst (λ c. IsAt b.base_size (length b.nodes) c b.position) e v.at) in
      (i, n, e, l.0, l.1)
]

write_from_lem :
    (b : ByteArray) (buf : List ℕ) (i : ℕ) (n : Node)
    → b.cur ≡ some i
    → get_elem? b.nodes i ≡ some n
    → write_from b buf ≡ (
        write_loop
          (suc (length buf))
          b
          (b.position % b.base_size)
          (sub_size n.size (b.position % b.base_size))
          buf
        >>= λ c. ok (raise_size c))
unfolding write_from
write_from_lem b buf i n c e = rw (c, e)

-- After the loop the size follows the position.
raised-Written :
    (b e c : ByteArray) (buf : List ℕ)
    → IsValid b
    → Enlarged b (length buf) e
    → Wrote e buf c
    → b.position + length buf ≤ e.capacity
    → Written b buf (raise_size c)
unfolding raise_size
raised-Written b e c buf v en w fits = record {
  valid = record {
    positive = omega (arith, c_base, en.valid.positive);
    root = omega (arith, w.count, en.valid.root);
    uniform = subst (λ k. IsUniform k c.nodes) (sym c_base) w.uniform;
    full =
        c_cap
        ∙ en.valid.full
        ∙ ap (λ (k : ℕ). k * e.base_size) (sym w.count)
        ∙ ap (λ (k : ℕ). length c.nodes * k) (sym c_base);
    at = subst (λ k. IsAt k (length c.nodes) c.cur c.position) (sym c_base) w.at;
    read_le = omega (arith, sizes, position);
    size_le = omega (arith, sizes, c_cap, fits, v.size_le, en.grows);
  };
  moved = position;
  size = sizes;
  refines =
      ap (λ k. take k (flat c.nodes)) sizes
      ∙ ap (take total) (
          w.bytes
          ∙ ap (λ l. memcpy l e.position buf) en.bytes
          ∙ ap (λ k. memcpy (flat b.nodes ++ en.fresh) k buf) e_pos)
      ∙ take-memcpy-append (flat b.nodes) en.fresh b.position buf b.size total refl v.read_le
          (omega (arith, length-flat b.base_size b.nodes v.uniform, v.size_le, v.full))
          (omega (arith, held, fits));
  endian = ap (λ (x : ByteArray). x.endian) w.frame ∙ ap (λ (x : ByteArray). x.endian) en.frame;
}
  where
    total : ℕ
    total = max b.size (b.position + length buf)

    e_pos : e.position ≡ b.position
    e_pos = ap (λ (x : ByteArray). x.position) en.frame

    c_size : c.size ≡ b.size
    c_size = ap (λ (x : ByteArray). x.size) w.frame ∙ ap (λ (x : ByteArray). x.size) en.frame

    c_base : c.base_size ≡ e.base_size
    c_base = ap (λ (x : ByteArray). x.base_size) w.frame

    c_cap : c.capacity ≡ e.capacity
    c_cap = ap (λ (x : ByteArray). x.capacity) w.frame

    position : c.position ≡ b.position + length buf
    position = omega (arith, w.moved, e_pos)

    sizes : (raise_size c).size ≡ max b.size (b.position + length buf)
    sizes = ground (arith, c_size, position)

    held : length (flat b.nodes ++ en.fresh) ≡ e.capacity
    held =
        ap length (sym en.bytes)
        ∙ length-flat e.base_size e.nodes en.valid.uniform
        ∙ sym en.valid.full

-- The array is enlarged for `buf`, whose write then reaches the loop.
abbrev start : ByteArray → List ℕ → ByteArray
start b buf = add_capacity b (length buf)

write_nonempty :
    (b : ByteArray) (buf : List ℕ) → 0 < length buf → write b buf ≡ write_from (start b buf) buf
unfolding write
write_nonempty b buf h = ground arith

write_empty : (b : ByteArray) (buf : List ℕ) → ¬ (0 < length buf) → write b buf ≡ ok b
unfolding write
write_empty b buf h = ground arith

-- On a valid array, unless addCapacity falls short, `write` succeeds: the contents are overwritten at
-- the position, the position moves behind the bytes written, and the array stays valid.
pub write_lem :
    (b : ByteArray) (buf : List ℕ)
    → IsValid b
    → ¬ IsShort b.base_size (room b) (length buf)
    → (c : ByteArray) × (write b buf ≡ ok c) × Written b buf c
write_lem b [] v ns = (
  b,
  write_empty b [] (omega arith),
  record {
    valid = v;
    moved = omega arith;
    size = omega (arith, v.read_le);
    refines = overwrite-nil (contents b) b.position;
    endian = refl;
  },
)
write_lem b (x ∷ xs) v ns =
    let buf : List ℕ = x ∷ xs in
    let en = add_capacity-Enlarged b (length buf) v in
    let e : ByteArray = start b buf in
    let e_pos = ap (λ (y : ByteArray). y.position) en.frame in
    let fits = en.enough ns in
    let (i, n, c, found, ready) = loaded e en.valid (omega (arith, e_pos, fits)) in
    let (d, eq, wrote) =
      write_loop_lem (suc (length buf)) e i _ _ buf (omega arith) ready
        (omega (arith, e_pos, fits, en.valid.full)) in
    (
      raise_size d,
      write_nonempty b buf (omega arith)
          ∙ write_from_lem e buf i n c found
          ∙ ap (λ r. r >>= λ y. ok (raise_size y)) eq,
      raised-Written b e d buf v en wrote fits,
    )

-- On a valid array, where addCapacity falls short, `write` goes through a null pointer.
pub write-null_deref :
    (b : ByteArray) (buf : List ℕ)
    → IsValid b
    → IsShort b.base_size (room b) (length buf)
    → write b buf ≡ fail null_deref
write-null_deref b buf v s =
    let en = add_capacity-Enlarged b (length buf) v in
    let e : ByteArray = start b buf in
    let e_pos = ap (λ (x : ByteArray). x.position) en.frame in
    let (i, n, c, found, ready) = loaded e en.valid (omega (arith, e_pos, en.grows, s)) in
    write_nonempty b buf (omega (arith, s.0))
    ∙ write_from_lem e buf i n c found
    ∙ ap (λ r. r >>= λ x. ok (raise_size x))
        (write_loop_runs_off (suc (length buf)) e i _ _ buf (omega arith) ready
          (omega (arith, e_pos, en.short s, en.valid.full)))
