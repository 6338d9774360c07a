-- ===== src/ByteArray/Invariant.antt =====
-- The representation invariant of a ByteArray, the room that addCapacity makes, and the contents.
use mathlib.Core.List.{append_assoc, append-nil}
use mathlib.Core.Path.{ap₂}
use native.Mathlib.Decide.{dec_lt}
use native.Mathlib.Nat.{div-add-mod, mod-lt}
use cor_reactor.Base.{
  length-take, ltb→le, le→ltb, ℕ, zero, suc, ◌+◌, ◌-◌, ◌*◌, ◌%◌, ◌≤◌, ◌<◌, ◌≡◌, refl, sym, ap, ◌∙◌,
  inl, inr, subst, List, [], ◌∷◌, ◌++◌, Option, none, some, length, length-append, length-replicate,
  replicate, take, All-append, arith, ltb, ◌==◌, if◌then◌else◌, Bool-cases,
}
use cor_reactor.ByteArray.{
  ByteArray, Node, new_node, byte_array, get_capacity, get_read_size, append_nodes, node_count,
  grow,
}
use cor_reactor.ByteArray.Chain.{IsUniform, IsBlock, flat, length-flat}
use cor_reactor.ByteArray.Cursor.{IsAt, times_mono}

pub record IsValid (b : ByteArray) : Type 0 where
  pub positive : 0 < b.base_size
  pub root : 0 < length b.nodes
  pub uniform : IsUniform b.base_size b.nodes
  pub full : b.capacity ≡ length b.nodes * b.base_size
  pub at : IsAt b.base_size (length b.nodes) b.cur b.position
  pub read_le : b.position ≤ b.size
  pub size_le : b.size ≤ b.capacity

-- The data of the array, which a client wrote.
abbrev pub contents : ByteArray → List ℕ
contents b = take b.size (flat b.nodes)

pub byte_array-IsValid : (garbage base : ℕ) → 0 < base → IsValid (byte_array garbage base)
unfolding byte_array
byte_array-IsValid garbage base h = record {
  positive = h;
  root = omega arith;
  uniform = ((refl, length-replicate base garbage), tt);
  full = omega arith;
  at = omega arith;
  read_le = omega arith;
  size_le = omega arith;
}

pub length-contents : (b : ByteArray) → IsValid b → length (contents b) ≡ b.size
length-contents b v = omega (
  arith,
  length-take b.size (flat b.nodes),
  length-flat b.base_size b.nodes v.uniform,
  v.size_le,
  v.full,
)

-- Inside a valid array the differences do not wrap.
pub get_capacity_lem : (b : ByteArray) → IsValid b → get_capacity b ≡ b.capacity - b.position
unfolding get_capacity
get_capacity_lem b v = ground arith

pub get_read_size_lem : (b : ByteArray) → IsValid b → get_read_size b ≡ b.size - b.position
unfolding get_read_size
get_read_size_lem b v = ground arith

pub new_nodes : ByteArray → ℕ → List Node
new_nodes b count = replicate count (new_node b.garbage b.base_size)

append_nodes_lem :
    (count : ℕ) (b : ByteArray)
    → append_nodes count b ≡ record b {
      nodes = b.nodes ++ new_nodes b count;
      capacity = b.capacity + count * b.base_size;
    }
unfolding append_nodes new_nodes
append_nodes_lem zero b =
    ap₂ (λ ns k. record b { nodes = ns; capacity = k }) (sym (append-nil b.nodes)) (omega arith)
append_nodes_lem (suc count) b =
    append_nodes_lem count _
    ∙ ap₂ (λ ns k. record b { nodes = ns; capacity = k })
        (append_assoc b.nodes (new_node b.garbage b.base_size ∷ []) _) (omega arith)

new_nodes-IsUniform : (b : ByteArray) (count : ℕ) → IsUniform b.base_size (new_nodes b count)
unfolding new_nodes new_node
new_nodes-IsUniform b zero = tt
new_nodes-IsUniform b (suc count) =
    ((refl, length-replicate b.base_size b.garbage), new_nodes-IsUniform b count)

-- The array with `count` more nodes and the pointer that `grow` leaves.
abbrev pub grown : ByteArray → ℕ → Option ℕ → ByteArray
grown b count cur = record b {
  nodes = b.nodes ++ new_nodes b count;
  capacity = b.capacity + count * b.base_size;
  cur = cur;
}

abbrev pub grown_cur : ByteArray → ℕ → ℕ → Option ℕ
grown_cur b old_cap count =
    if old_cap == 0 then if count == 0 then none else some (length b.nodes) else b.cur

pub grow_lem :
    (b : ByteArray) (old_cap missing : ℕ)
    → let count = node_count b.base_size old_cap missing in
      grow b old_cap missing ≡ grown b count (grown_cur b old_cap count)
unfolding grow
grow_lem b old_cap missing = rw (append_nodes_lem (node_count b.base_size old_cap missing) b)

IsAt-grown :
    (base n count pos cap : ℕ) (c : Option ℕ)
    → 0 < base
    → cap ≡ n * base
    → pos ≤ cap
    → IsAt base n c pos
    → IsAt base (n + count) (if cap - pos == 0 then if count == 0 then none else some n else c) pos
IsAt-grown base n zero pos cap none h e le at = ground arith
IsAt-grown base n (suc count) pos cap none h e le at = ground arith
IsAt-grown base n count pos cap (some i) h e le at = ground (arith, times_mono (suc i) n base at.0)

length-grown :
    (b : ByteArray) (count : ℕ) → length (b.nodes ++ new_nodes b count) ≡ length b.nodes + count
unfolding new_nodes
length-grown b count =
    length-append b.nodes _ ∙ ap (λ k. length b.nodes + k) (length-replicate count _)

pub grown-IsValid :
    (b : ByteArray) (count : ℕ)
    → IsValid b
    → IsValid (grown b count (grown_cur b (b.capacity - b.position) count))
grown-IsValid b count v = record {
  positive = v.positive;
  root = omega (arith, length-grown b count, v.root);
  uniform = All-append (IsBlock b.base_size) b.nodes _ v.uniform (new_nodes-IsUniform b count);
  full = omega (arith, v.full, ap (λ (k : ℕ). k * b.base_size) (length-grown b count));
  at =
      subst (λ k. IsAt b.base_size k (grown_cur b (b.capacity - b.position) count) b.position)
        (sym (length-grown b count))
        (IsAt-grown b.base_size (length b.nodes) count b.position b.capacity b.cur v.positive v.full
          (omega (arith, v.read_le, v.size_le)) v.at);
  read_le = v.read_le;
  size_le = omega (arith, v.size_le);
}

-- `n` bytes are asked for, `free` are left, and the remainder of what is missing is no more than
-- `free`: addCapacity then makes one node too few.
abbrev pub IsShort : (base free n : ℕ) → Type 0
IsShort base free n = (free < n) × (0 < (n - free) % base) × ((n - free) % base ≤ free)

pub count_enough :
    (base free n : ℕ)
    → 0 < base
    → free < n
    → ¬ IsShort base free n
    → n ≤ free + node_count base free (n - free) * base
unfolding node_count
count_enough base free n h lt ns =
    let d : ℕ = n - free in
    elim (Bool-cases (ltb free (d % base))) [
      | inl t ↦ rw t (omega (arith, div-add-mod d base, mod-lt d h))
      | inr t ↦ rw t (elim (dec_lt 0 (d % base)) [
        | yes p ↦ absurd (ns (lt, p, ltb→le free (d % base) t))
        | no p ↦ omega (arith, div-add-mod d base)
      ])
    ]

pub count_short :
    (base free n : ℕ)
    → 0 < base
    → IsShort base free n
    → free + node_count base free (n - free) * base < n
unfolding node_count
count_short base free n h s =
    rw (le→ltb free ((n - free) % base) s.2) (omega (arith, div-add-mod (n - free) base))
