-- ===== src/Http/CaseOrder.antt =====
-- CaseInsensitiveLess in src/http/http.cpp.
use Prim.Native.Nat.{compare, Ordering}
use cor_reactor.Base.{◌≡◌, refl, ◌↔◌, [], ◌∷◌, Bool, true, false, ◌||◌, c_str, arith}
use cor_reactor.Http.{Text, to_lower}
use cor_reactor.OrderedMap.{IsStrictWeak, equivalent}

-- `strcasecmp(s, t) < 0`, on C strings
unfoldable pub casecmp_less : Text → Text → Bool
casecmp_less s [] = false
casecmp_less [] (b ∷ t) = true
casecmp_less (a ∷ s) (b ∷ t) =
    let rest = casecmp_less s t in
    elim (compare (to_lower a) (to_lower b)) [
      | Ordering.lt ↦ true
      | Ordering.eq ↦ rest
      | Ordering.gt ↦ false
    ]

-- CaseInsensitiveLess::operator()
unfoldable pub case_insensitive_less : Text → Text → Bool
case_insensitive_less lhs rhs = casecmp_less (c_str lhs) (c_str rhs)

-- The bytes of a text in lower case.
unfoldable pub folded : Text → Text
folded [] = []
folded (a ∷ s) = to_lower a ∷ folded s

casecmp_less_asymmetric : (s t : Text) → casecmp_less s t ≡ true → casecmp_less t s ≡ false
unfolding casecmp_less
casecmp_less_asymmetric s [] h = cc h
casecmp_less_asymmetric [] (b ∷ t) h = refl
casecmp_less_asymmetric (a ∷ s) (b ∷ t) h = grind (arith, casecmp_less_asymmetric s t)

casecmp_less_comparing :
    (s t u : Text) → casecmp_less s u ≡ true → (casecmp_less s t || casecmp_less t u) ≡ true
unfolding casecmp_less
casecmp_less_comparing s t [] h = cc h
casecmp_less_comparing [] [] (c ∷ u) h = refl
casecmp_less_comparing [] (b ∷ t) (c ∷ u) h = refl
casecmp_less_comparing (a ∷ s) [] (c ∷ u) h = refl
casecmp_less_comparing (a ∷ s) (b ∷ t) (c ∷ u) h = grind (arith, casecmp_less_comparing s t u)

-- The comparator of the maps is a strict weak order.
pub case_insensitive_less-IsStrictWeak : IsStrictWeak case_insensitive_less
unfolding case_insensitive_less
case_insensitive_less-IsStrictWeak = record {
  asymmetric = λ a b. casecmp_less_asymmetric (c_str a) (c_str b);
  comparing = λ a b c. casecmp_less_comparing (c_str a) (c_str b) (c_str c);
}

casecmp_less_iff : (s t : Text) → (equivalent casecmp_less s t ≡ true) ↔ (folded s ≡ folded t)
unfolding casecmp_less folded
casecmp_less_iff [] [] = ground arith
casecmp_less_iff [] (b ∷ t) = ((λ h. cc h), (λ h. cc h))
casecmp_less_iff (a ∷ s) [] = ((λ h. cc h), (λ h. cc h))
casecmp_less_iff (a ∷ s) (b ∷ t) = grind (arith, casecmp_less_iff s t)

-- Two keys are one key of a map exactly when they agree, up to their first NUL, but for the case of
-- letters.
pub case_insensitive_less_iff :
    (lhs rhs : Text)
    → (equivalent case_insensitive_less lhs rhs ≡ true) ↔ (folded (c_str lhs) ≡ folded (c_str rhs))
unfolding case_insensitive_less
case_insensitive_less_iff lhs rhs = casecmp_less_iff (c_str lhs) (c_str rhs)
