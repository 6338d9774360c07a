-- ===== src/ByteArray/Capacity.antt =====
-- What addCapacity leaves: a valid array with the same data, and room unless it fell short.
use native.Mathlib.Decide.{dec_lt}
use cor_reactor.Base.{
  ℕ, ◌+◌, ◌-◌, ◌≤◌, ◌<◌, ◌≡◌, refl, sym, ap, ◌∙◌, subst, List, [], ◌++◌, take, arith,
  take-append_left,
}
use mathlib.Core.List.{append-nil}
use cor_reactor.ByteArray.{ByteArray, get_capacity, node_count, grow, add_capacity}
use cor_reactor.ByteArray.Chain.{flat, flat-append, length-flat}
use cor_reactor.ByteArray.Invariant.{
  IsValid, IsShort, get_capacity_lem, grown, grown_cur, grown-IsValid, grow_lem, count_enough,
  count_short, new_nodes, contents,
}

-- The bytes left behind the position.
abbrev pub room : ByteArray → ℕ
room b = b.capacity - b.position

pub record Enlarged (b : ByteArray) (n : ℕ) (e : ByteArray) : Type 0 where
  pub valid : IsValid e
  pub frame : e ≡ record b { nodes = e.nodes; capacity = e.capacity; cur = e.cur }
  pub fresh : List ℕ
  pub bytes : flat e.nodes ≡ flat b.nodes ++ fresh
  pub enough : ¬ IsShort b.base_size (room b) n → b.position + n ≤ e.capacity
  pub short : IsShort b.base_size (room b) n → e.capacity < b.position + n
  pub grows : b.capacity ≤ e.capacity

add_capacity_fits : (b : ByteArray) (n : ℕ) → n ≤ get_capacity b → add_capacity b n ≡ b
unfolding add_capacity
add_capacity_fits b n h = ground arith

add_capacity_grows :
    (b : ByteArray) (n : ℕ)
    → get_capacity b < n
    → add_capacity b n ≡ grow b (get_capacity b) (n - get_capacity b)
unfolding add_capacity
add_capacity_grows b n h = ground arith

fits-Enlarged : (b : ByteArray) (n : ℕ) → IsValid b → n ≤ room b → Enlarged b n b
fits-Enlarged b n v h = record {
  valid = v;
  frame = refl;
  fresh = [];
  bytes = sym (append-nil (flat b.nodes));
  enough = λ ns. omega (arith, v.read_le, v.size_le);
  short = λ s. absurd (omega (arith, s.0));
  grows = omega arith;
}

grown-Enlarged :
    (b : ByteArray) (n : ℕ)
    → IsValid b
    → room b < n
    → let count = node_count b.base_size (room b) (n - room b) in
      Enlarged b n (grown b count (grown_cur b (room b) count))
grown-Enlarged b n v h =
    let count = node_count b.base_size (room b) (n - room b) in
    let inside : b.position ≤ b.capacity = omega (arith, v.read_le, v.size_le) in
    record {
      valid = grown-IsValid b count v;
      frame = refl;
      fresh = flat (new_nodes b count);
      bytes = flat-append b.nodes (new_nodes b count);
      enough = λ ns. omega (arith, count_enough b.base_size (room b) n v.positive h ns, inside);
      short = λ s. omega (arith, count_short b.base_size (room b) n v.positive s, inside);
      grows = omega arith;
    }

pub add_capacity-Enlarged : (b : ByteArray) (n : ℕ) → IsValid b → Enlarged b n (add_capacity b n)
add_capacity-Enlarged b n v = elim (dec_lt (room b) n) [
  | no h ↦
      subst (Enlarged b n) (sym (add_capacity_fits b n (omega (arith, get_capacity_lem b v))))
        (fits-Enlarged b n v (omega arith))
  | yes h ↦
      subst (Enlarged b n)
        (sym (
          add_capacity_grows b n (omega (arith, get_capacity_lem b v))
          ∙ ap (λ f. grow b f (n - f)) (get_capacity_lem b v)
          ∙ grow_lem b (room b) (n - room b)))
        (grown-Enlarged b n v h)
]

-- On a valid array addCapacity keeps the contents.
pub contents-add_capacity :
    (b : ByteArray) (n : ℕ) → IsValid b → contents (add_capacity b n) ≡ contents b
contents-add_capacity b n v =
    let e = add_capacity-Enlarged b n v in
    ap (λ (k : ℕ). take k (flat (add_capacity b n).nodes)) (ap (λ (x : ByteArray). x.size) e.frame)
    ∙ ap (take b.size) e.bytes
    ∙ take-append_left b.size (flat b.nodes) e.fresh
        (omega (arith, length-flat b.base_size b.nodes v.uniform, v.size_le, v.full))
