-- ===== src/ByteArray/Cursor.antt =====
-- Where the pointer `m_cur` stands for a position, and steps along the chain.
use native.Mathlib.Decide.{dec_lt}
use native.Mathlib.Nat.{mul-add-mod_self_right, mod-eq_of_lt}
use cor_reactor.Base.{
  Bool-cases, inl, inr, subst, ==_iff, ℕ, suc, ◌+◌, ◌-◌, ◌*◌, ◌%◌, ◌≤◌, ◌<◌, ◌≡◌, ap, ◌∙◌, List,
  Option, none, some, length, get_elem?, get_elem?-lt, All-get, ok, if◌then◌else◌, ◌==◌, arith,
}
use cor_reactor.ByteArray.{Node, next, deref}
use cor_reactor.ByteArray.Chain.{IsBlock, IsUniform}

-- The pointer to the node, of `count`, that holds the position; null where the chain ends.
abbrev pub IsAt : ℕ → ℕ → Option ℕ → ℕ → Type 0
IsAt base count none pos = pos ≡ count * base
IsAt base count (some i) pos = (i < count) × (i * base ≤ pos) × (pos < i * base + base)

pub times_mono : (i n base : ℕ) → i ≤ n → i * base ≤ n * base
times_mono i n base h = grind arith

-- Bytes that do not fit into node `i` but into the chain: there is a next node.
pub next_inside :
    (base n i npos ncap size : ℕ)
    → npos + ncap ≡ base
    → ncap < size
    → i * base + npos + size ≤ n * base
    → suc i < n
next_inside base n i npos ncap size e over room = elim (dec_lt (suc i) n) [
  | yes h ↦ h
  | no h ↦ absurd (omega (arith, times_mono n (suc i) base (omega arith)))
]

pub next_some : (nodes : List Node) (i : ℕ) → suc i < length nodes → next nodes i ≡ some (suc i)
unfolding next
next_some nodes i h = ground arith

pub next_none : (nodes : List Node) (i : ℕ) → ¬ (suc i < length nodes) → next nodes i ≡ none
unfolding next
next_none nodes i h = ground arith

pub deref_lem :
    (nodes : List Node) (i : ℕ) (n : Node)
    → get_elem? nodes i ≡ some n
    → deref nodes (some i) ≡ ok (i, n)
unfolding deref
deref_lem nodes i n e = rw e

-- A node inside a uniform chain.
pub node_at :
    (base : ℕ) (nodes : List Node) (i : ℕ)
    → IsUniform base nodes
    → i < length nodes
    → (n : Node) × (get_elem? nodes i ≡ some n) × (IsBlock base n)
node_at base nodes i u h =
    let (n, e) = get_elem?-lt nodes i h in (n, e, All-get (IsBlock base) nodes i n u e)

module _ (base : ℕ) (positive : 0 < base) (nodes : List Node) where
  pub next-IsAt :
      (i : ℕ) → i < length nodes → IsAt base (length nodes) (next nodes i) (suc i * base)
  unfolding next
  next-IsAt i h = ground arith

  -- The pointer after `k` bytes that end inside node `i` or at its end.
  pub step-IsAt :
      (i size npos k : ℕ)
      → i < length nodes
      → size ≡ base
      → npos + k ≤ base
      → IsAt base
          (length nodes)
          (if size == npos + k then next nodes i else some i)
          (i * base + npos + k)
  step-IsAt i size npos k h e fits = elim (Bool-cases (size == npos + k)) [
    | inl ends ↦ rw ends (
        subst (IsAt base (length nodes) (next nodes i))
          (ground (arith, (==_iff size (npos + k)).0 ends)) (next-IsAt i h))
    | inr inside ↦ rw inside (ground arith)
  ]

  pub IsAt-mod : (i pos : ℕ) → IsAt base (length nodes) (some i) pos → pos % base ≡ pos - i * base
  IsAt-mod i pos h =
      ap (λ (p : ℕ). p % base) (omega arith)
      ∙ mul-add-mod_self_right i base (pos - i * base)
      ∙ mod-eq_of_lt (omega arith)
