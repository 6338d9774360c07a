-- ===== src/Address/Order.antt =====
-- The order of addresses is a strict total order, consistent with operator==.
use cor_reactor.Base.{
  ℕ, suc, ◌≡◌, refl, ◌↔◌, min, List, [], ◌∷◌, true, false, ◌&&◌, ◌||◌, ◌==◌, ltb, length, arith,
}
use cor_reactor.OrderedMap.{IsStrictWeak, equivalent}
use cor_reactor.Address.{memcmp, address_less, address_equal}

less-cons :
    (a b : ℕ) (s t : List ℕ)
    → address_less (a ∷ s) (b ∷ t) ≡ (ltb a b || ((a == b) && address_less s t))
unfolding address_less memcmp
less-cons a b s t =
    let q : min (suc (length s)) (suc (length t)) ≡ suc (min (length s) (length t)) = omega arith in
    rw (q, address_less) (ground arith)

nil-less : (b : ℕ) (t : List ℕ) → address_less [] (b ∷ t) ≡ true
unfolding address_less memcmp
nil-less b t =
    let q : min 0 (suc (length t)) ≡ 0 = omega arith in rw (q, address_less) (ground arith)

less-nil : (s : List ℕ) → address_less s [] ≡ false
unfolding address_less memcmp
less-nil s = let q : min (length s) 0 ≡ 0 = omega arith in rw (q, address_less) (ground arith)

asymmetric_lem : (s t : List ℕ) → address_less s t ≡ true → address_less t s ≡ false
asymmetric_lem [] t h = less-nil t
asymmetric_lem (a ∷ s) [] h = ground (arith, less-nil (a ∷ s))
asymmetric_lem (a ∷ s) (b ∷ t) h =
    grind (arith, less-cons a b s t, less-cons b a t s, asymmetric_lem s t)

comparing_lem :
    (s t u : List ℕ) → address_less s u ≡ true → (address_less s t || address_less t u) ≡ true
comparing_lem s t [] h = ground (arith, less-nil s)
comparing_lem [] [] (c ∷ u) h = ground (arith, nil-less c u)
comparing_lem [] (b ∷ t) (c ∷ u) h = ground (arith, nil-less b t)
comparing_lem (a ∷ s) [] (c ∷ u) h = ground (arith, nil-less c u)
comparing_lem (a ∷ s) (b ∷ t) (c ∷ u) h =
    grind (arith, less-cons a c s u, less-cons a b s t, less-cons b c t u, comparing_lem s t u)

equivalent_iff : (s t : List ℕ) → (equivalent address_less s t ≡ true) ↔ (s ≡ t)
equivalent_iff [] [] = ground (arith, less-nil [])
equivalent_iff [] (b ∷ t) = ((λ h. ground (arith, nil-less b t)), (λ h. cc h))
equivalent_iff (a ∷ s) [] = ((λ h. ground (arith, nil-less a s)), (λ h. cc h))
equivalent_iff (a ∷ s) (b ∷ t) =
    grind (arith, less-cons a b s t, less-cons b a t s, equivalent_iff s t)

equal-cons :
    (a b : ℕ) (s t : List ℕ) → address_equal (a ∷ s) (b ∷ t) ≡ (a == b) && address_equal s t
unfolding address_equal memcmp
equal-cons a b s t = ground arith

equal_iff : (s t : List ℕ) → (address_equal s t ≡ true) ↔ (s ≡ t)
unfolding address_equal memcmp
equal_iff [] [] = ((λ h. refl), (λ h. refl))
equal_iff [] (b ∷ t) = ((λ h. ground arith), (λ h. cc h))
equal_iff (a ∷ s) [] = ((λ h. ground arith), (λ h. cc h))
equal_iff (a ∷ s) (b ∷ t) = grind (arith, equal-cons a b s t, equal_iff s t)

-- operator< is a strict weak order on addresses, operator== is equality of all bytes, and two
-- addresses of which neither is less are equal.
pub address_less-IsStrictWeak :
    IsStrictWeak address_less
    × ((s t : List ℕ)
        → ((address_equal s t ≡ true) ↔ (s ≡ t)) × ((equivalent address_less s t ≡ true) ↔ (s ≡ t)))
address_less-IsStrictWeak = (
  record { asymmetric = asymmetric_lem; comparing = comparing_lem },
  (λ s t. (equal_iff s t, equivalent_iff s t)),
)
