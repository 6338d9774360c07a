-- ===== src/OrderedMap.antt =====
-- std::map as the program's headers, parameters and cookies use it: the entries in the order of the
-- comparator, where two keys of which neither is less are one key.
use cor_reactor.Base.{
  ◌≡◌, refl, inl, inr, List, [], ◌∷◌, ◌++◌, ap, Option, none, some, Bool, true, false, ◌&&◌, ◌||◌,
  not, if◌then◌else◌, All, Bool-cases, arith,
}

-- The strict weak order that a comparator has to be.
pub record IsStrictWeak {ℓ} {K : Type ℓ} (less : K → K → Bool) : Type ℓ where
  pub asymmetric : (a b : K) → less a b ≡ true → less b a ≡ false
  pub comparing : (a b c : K) → less a c ≡ true → (less a b || less b c) ≡ true

-- The same key for the map.
abbrev pub equivalent {ℓ} : {K : Type ℓ} → (K → K → Bool) → K → K → Bool
equivalent less a b = not (less a b) && not (less b a)

module _ {ℓ κ} {K : Type ℓ} {V : Type κ} (less : K → K → Bool) where
  -- find: the entry at the first key that is not less, if the key asked for is not less than it
  unfoldable pub find : K → List (K × V) → Option V
  find k [] = none
  find k ((i, w) ∷ m) = if less i k then find k m else if less k i then none else some w

  -- `map[key] = value`, which keeps the key that is there
  unfoldable pub assign : K → V → List (K × V) → List (K × V)
  assign k v [] = (k, v) ∷ []
  assign k v ((i, w) ∷ m) =
      let rest = assign k v m in
      if less i k then (i, w) ∷ rest else if less k i then (k, v) ∷ (i, w) ∷ m else (i, v) ∷ m

  unfoldable pub erase : K → List (K × V) → List (K × V)
  erase k [] = []
  erase k ((i, w) ∷ m) =
      let rest = erase k m in if less i k then (i, w) ∷ rest else if less k i then (i, w) ∷ m else m

  abbrev pub Below : K → List (K × V) → Type 0
  Below k m = All (λ e. less k e.0 ≡ true) m

  abbrev pub IsSorted : List (K × V) → Type 0
  IsSorted [] = Unit
  IsSorted ((k, v) ∷ m) = Below k m × IsSorted m

  module _ (order : IsStrictWeak less) where
    pub find-assign :
        (j k : K) (v : V) (m : List (K × V))
        → find j (assign k v m) ≡ (if equivalent less k j then some v else find j m)
    unfolding find assign
    find-assign j k v [] = ground (arith, order.asymmetric j k)
    find-assign j k v ((i, w) ∷ m) = ground (
      arith,
      find-assign j k v m,
      order.asymmetric i k,
      order.asymmetric i j,
      order.asymmetric j k,
      order.comparing i j k,
      order.comparing j i k,
      order.comparing j k i,
      order.comparing k i j,
      order.comparing k j i,
      order.comparing i k j,
    )

    Below-trans : (i j : K) (m : List (K × V)) → less i j ≡ true → Below j m → Below i m
    Below-trans i j [] h b = tt
    Below-trans i j ((k, v) ∷ m) h (l, b) = (
      ground (arith, order.asymmetric i j, order.asymmetric j k, order.comparing i k j),
      Below-trans i j m h b,
    )

    -- A key that is not above a key below the entries is not among them.
    find-Below : (i j : K) (m : List (K × V)) → less i j ≡ false → Below i m → find j m ≡ none
    unfolding find
    find-Below i j [] h b = refl
    find-Below i j ((k, v) ∷ m) h (l, b) = ground (
      arith,
      order.asymmetric i k,
      order.asymmetric k j,
      order.comparing i j k,
      order.comparing i k j,
    )

    pub find-erase :
        (j k : K) (m : List (K × V))
        → IsSorted m
        → find j (erase k m) ≡ (if equivalent less k j then none else find j m)
    unfolding find erase
    find-erase j k [] s = ground arith
    find-erase j k ((i, w) ∷ m) (b, s) = ground (
      arith,
      find-erase j k m s,
      find-Below i j m,
      b,
      order.asymmetric i k,
      order.asymmetric i j,
      order.asymmetric j k,
      order.comparing i j k,
      order.comparing j i k,
      order.comparing j k i,
      order.comparing k i j,
      order.comparing k j i,
      order.comparing i k j,
    )

    assign-Below :
        (i k : K) (v : V) (m : List (K × V)) → less i k ≡ true → Below i m → Below i (assign k v m)
    unfolding assign
    assign-Below i k v [] h b = (h, tt)
    assign-Below i k v ((j, w) ∷ m) h (l, b) = elim (Bool-cases (less j k)) [
      | inl p ↦ rw p (l, assign-Below i k v m h b)
      | inr p ↦ elim (Bool-cases (less k j)) [
        | inl q ↦ rw (p, q) (h, (l, b))
        | inr q ↦ rw (p, q) (l, b)
      ]
    ]

    pub assign-IsSorted : (k : K) (v : V) (m : List (K × V)) → IsSorted m → IsSorted (assign k v m)
    unfolding assign
    assign-IsSorted k v [] s = (tt, tt)
    assign-IsSorted k v ((i, w) ∷ m) (b, s) = elim (Bool-cases (less i k)) [
      | inl p ↦ rw p (assign-Below i k v m p b, assign-IsSorted k v m s)
      | inr p ↦ elim (Bool-cases (less k i)) [
        | inl q ↦ rw (p, q) ((q, Below-trans k i m q b), (b, s))
        | inr q ↦ rw (p, q) (b, s)
      ]
    ]

    erase-Below : (i k : K) (m : List (K × V)) → Below i m → Below i (erase k m)
    unfolding erase
    erase-Below i k [] b = tt
    erase-Below i k ((j, w) ∷ m) (l, b) = elim (Bool-cases (less j k)) [
      | inl p ↦ rw p (l, erase-Below i k m b)
      | inr p ↦ elim (Bool-cases (less k j)) [ inl q ↦ rw (p, q) (l, b) | inr q ↦ rw (p, q) b ]
    ]

    pub erase-IsSorted : (k : K) (m : List (K × V)) → IsSorted m → IsSorted (erase k m)
    unfolding erase
    erase-IsSorted k [] s = tt
    erase-IsSorted k ((i, w) ∷ m) (b, s) = elim (Bool-cases (less i k)) [
      | inl p ↦ rw p (erase-Below i k m b, erase-IsSorted k m s)
      | inr p ↦ elim (Bool-cases (less k i)) [ inl q ↦ rw (p, q) (b, s) | inr q ↦ rw (p, q) s ]
    ]

  Below-at :
      (i k : K) (v : V) (m rest : List (K × V)) → Below i (m ++ ((k, v) ∷ rest)) → less i k ≡ true
  Below-at i k v [] rest h = h.0
  Below-at i k v (x ∷ m) rest h = Below-at i k v m rest h.1

  -- A key above every entry goes to the end.
  pub assign-last :
      (k : K) (v : V) (m rest : List (K × V))
      → IsSorted (m ++ ((k, v) ∷ rest))
      → assign k v m ≡ m ++ ((k, v) ∷ [])
  unfolding assign
  assign-last k v [] rest s = refl
  assign-last k v ((i, w) ∷ m) rest (b, s) =
      let above : less i k ≡ true = Below-at i k v m rest b in
      rw above (ap (◌∷◌ (i, w)) (assign-last k v m rest s))
