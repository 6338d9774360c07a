-- ===== src/ByteArray/Chain.antt =====
-- The chain of nodes as one flat buffer.
use mathlib.Core.List.{append_assoc}
use mathlib.Core.Option.{some-injective}
use cor_reactor.Base.{
  ℕ, zero, suc, ◌+◌, ◌*◌, ◌≤◌, ◌<◌, ◌≡◌, refl, sym, ap, ◌∙◌, List, [], ◌∷◌, ◌++◌, some, length,
  length-append, get_elem?, take, drop, take-append_left, drop-append_left, drop-append_right,
  length-drop, All, arith,
}
use cor_reactor.ByteArray.{Node, memcpy, store}
use cor_reactor.ByteArray.Memory.{length-memcpy, memcpy-append_left, memcpy-append_right}

abbrev pub flat : List Node → List ℕ
flat [] = []
flat (n ∷ ns) = n.ptr ++ flat ns

abbrev pub IsBlock : ℕ → Node → Type 0
IsBlock base n = (n.size ≡ base) × (length n.ptr ≡ base)

abbrev pub IsUniform : ℕ → List Node → Type 0
IsUniform base nodes = All (IsBlock base) nodes

pub length-flat :
    (base : ℕ) (nodes : List Node)
    → IsUniform base nodes
    → length (flat nodes) ≡ length nodes * base
length-flat base [] u = omega arith
length-flat base (n ∷ ns) u =
    omega (arith, length-append n.ptr (flat ns), length-flat base ns u.1, u.0.1)

pub flat-append : (ns ms : List Node) → flat (ns ++ ms) ≡ flat ns ++ flat ms
flat-append [] ms = refl
flat-append (n ∷ ns) ms = rw (flat-append ns ms) (sym (append_assoc n.ptr (flat ns) (flat ms)))

pub index-lt :
    (nodes : List Node) (i : ℕ) (n : Node) → get_elem? nodes i ≡ some n → i < length nodes
index-lt [] i n e = cc
index-lt (m ∷ nodes) zero n e = omega arith
index-lt (m ∷ nodes) (suc i) n e = omega (arith, index-lt nodes i n e)

module _ (base : ℕ) where
  pub flat-store :
      (nodes : List Node) (i : ℕ) (n : Node) (npos : ℕ) (bytes : List ℕ)
      → IsUniform base nodes
      → get_elem? nodes i ≡ some n
      → npos + length bytes ≤ base
      → flat (store nodes i n npos bytes) ≡ memcpy (flat nodes) (i * base + npos) bytes
  unfolding store
  flat-store [] i n npos bytes u e h = cc
  flat-store (m ∷ nodes) zero n npos bytes u e h =
      ap (λ (z : Node). memcpy z.ptr npos bytes ++ flat nodes) (sym (some-injective m n e))
      ∙ sym (memcpy-append_left m.ptr (flat nodes) npos bytes (omega arith))
      ∙ ap (λ j. memcpy (m.ptr ++ flat nodes) j bytes) (omega arith)
  flat-store (m ∷ nodes) (suc i) n npos bytes u e h =
      ap (◌++◌ m.ptr) (flat-store nodes i n npos bytes u.1 e h)
      ∙ sym (memcpy-append_right m.ptr (flat nodes) (i * base + npos) bytes)
      ∙ ap (λ j. memcpy (m.ptr ++ flat nodes) j bytes) (omega arith)

  pub store-IsUniform :
      (nodes : List Node) (i : ℕ) (n : Node) (npos : ℕ) (bytes : List ℕ)
      → IsUniform base nodes
      → get_elem? nodes i ≡ some n
      → IsUniform base (store nodes i n npos bytes)
  unfolding store
  store-IsUniform [] i n npos bytes u e = tt
  store-IsUniform (m ∷ nodes) zero n npos bytes u e = ground (arith, length-memcpy n.ptr npos bytes)
  store-IsUniform (m ∷ nodes) (suc i) n npos bytes u e =
      (u.0, store-IsUniform nodes i n npos bytes u.1 e)

  -- Bytes read from one node are bytes of the flat buffer.
  pub slice-flat :
      (nodes : List Node) (i : ℕ) (n : Node) (npos k : ℕ)
      → IsUniform base nodes
      → get_elem? nodes i ≡ some n
      → npos + k ≤ base
      → take k (drop npos n.ptr) ≡ take k (drop (i * base + npos) (flat nodes))
  slice-flat [] i n npos k u e h = cc
  slice-flat (m ∷ nodes) zero n npos k u e h =
      ap (λ (z : Node). take k (drop npos z.ptr)) (sym (some-injective m n e))
      ∙ sym (
          take-append_left k (drop npos m.ptr) (flat nodes) (omega (arith, length-drop npos m.ptr)))
      ∙ ap (take k) (sym (drop-append_left npos m.ptr (flat nodes) (omega arith)))
      ∙ ap (λ j. take k (drop j (m.ptr ++ flat nodes))) (omega arith)
  slice-flat (m ∷ nodes) (suc i) n npos k u e h =
      slice-flat nodes i n npos k u.1 e h
      ∙ ap (take k) (sym (drop-append_right (i * base + npos) m.ptr (flat nodes)))
      ∙ ap (λ j. take k (drop j (m.ptr ++ flat nodes))) (omega arith)
