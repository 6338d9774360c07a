-- ===== src/Base/Text.antt =====
-- Text as its bytes.
use Prim.Native.Char.{code}
use Prim.Native.String.{String}
use Prim.Native.Nat.{ℕ, zero, suc}
use mathlib.Core.Path.{◌≡◌, refl, sym, ap, subst}
use mathlib.Core.Logic.{◌↔◌}
use mathlib.Core.Bool.{Bool, true, false, ◌&&◌, ◌||◌}
use mathlib.Core.List.{List, [], ◌∷◌, ◌++◌}
use native.Mathlib.Omega.{arith}
use cor_reactor.Base.Tests.{◌==◌}
use cor_reactor.Base.Lists.{length, take, drop}

-- The bytes of an ASCII literal.
abbrev pub codes : String → List ℕ
codes String.[] = []
codes (String.◌∷◌ c s) = code c ∷ codes s

-- What a `const char *` shows of a std::string: the bytes before the first NUL.
unfoldable pub c_str : List ℕ → List ℕ
c_str [] = []
c_str (zero ∷ s) = []
c_str (suc c ∷ s) = suc c ∷ c_str s

pub c_str-append : (s t : List ℕ) → c_str s ≡ s → c_str (s ++ t) ≡ s ++ c_str t
unfolding c_str
c_str-append [] t h = refl
c_str-append (zero ∷ s) t h = cc h
c_str-append (suc c ∷ s) t h = ap (◌∷◌ (suc c)) (c_str-append s t (cc h))

pub c_str-take : (n : ℕ) (s : List ℕ) → c_str (take n s) ≡ take n (c_str s)
unfolding c_str
c_str-take zero s = refl
c_str-take (suc n) [] = refl
c_str-take (suc n) (zero ∷ s) = refl
c_str-take (suc n) (suc c ∷ s) = ap (◌∷◌ (suc c)) (c_str-take n s)

-- Equality of texts, and of a text with the start of another.
unfoldable pub same_text : List ℕ → List ℕ → Bool
same_text [] [] = true
same_text [] (b ∷ t) = false
same_text (a ∷ s) [] = false
same_text (a ∷ s) (b ∷ t) = (a == b) && same_text s t

unfoldable pub starts_with : List ℕ → List ℕ → Bool
starts_with [] s = true
starts_with (a ∷ t) [] = false
starts_with (a ∷ t) (b ∷ s) = (a == b) && starts_with t s

pub same_text_iff : (s t : List ℕ) → (same_text s t ≡ true) ↔ (s ≡ t)
unfolding same_text
same_text_iff [] [] = ground arith
same_text_iff [] (b ∷ t) = ((λ h. cc h), (λ h. cc h))
same_text_iff (a ∷ s) [] = ((λ h. cc h), (λ h. cc h))
same_text_iff (a ∷ s) (b ∷ t) = grind (arith, same_text_iff s t)

pub starts_with-append : (t rest : List ℕ) → starts_with t (t ++ rest) ≡ true
unfolding starts_with
starts_with-append [] rest = refl
starts_with-append (a ∷ t) rest = ground (arith, starts_with-append t rest)

pub starts_with-eq : (t s : List ℕ) → starts_with t s ≡ true → s ≡ t ++ drop (length t) s
unfolding starts_with
starts_with-eq [] s h = refl
starts_with-eq (a ∷ t) [] h = cc h
starts_with-eq (a ∷ t) (b ∷ s) h = grind (arith, starts_with-eq t s)

pub starts_with_iff :
    (t s : List ℕ) → (starts_with t s ≡ true) ↔ ((rest : List ℕ) × (s ≡ t ++ rest))
starts_with_iff t s = (
  λ h. (drop (length t) s, starts_with-eq t s h),
  λ (rest, h). subst (λ s. starts_with t s ≡ true) (sym h) (starts_with-append t rest),
)

pub same_text-starts_with : (t s : List ℕ) → same_text t s ≡ true → starts_with t s ≡ true
unfolding same_text starts_with
same_text-starts_with [] s h = refl
same_text-starts_with (a ∷ t) [] h = cc h
same_text-starts_with (a ∷ t) (b ∷ s) h = grind (arith, same_text-starts_with t s)

-- Of two starts of a text one starts the other.
pub starts_with_total :
    (a b s : List ℕ)
    → starts_with a s ≡ true
    → starts_with b s ≡ true
    → (starts_with a b || starts_with b a) ≡ true
unfolding starts_with
starts_with_total [] b s h k = refl
starts_with_total (x ∷ a) [] s h k = refl
starts_with_total (x ∷ a) (y ∷ b) [] h k = cc h
starts_with_total (x ∷ a) (y ∷ b) (z ∷ s) h k = grind (arith, starts_with_total a b s)
