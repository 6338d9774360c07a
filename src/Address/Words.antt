-- ===== src/Address/Words.antt =====
-- Words and masks: a mask of p ones over k zeros.
use native.Mathlib.Nat.{pow-suc, div-div-eq-div-mul, mul_assoc}
use cor_reactor.Base.{
  ℕ, zero, suc, ◌+◌, ◌-◌, ◌*◌, ◌/◌, ◌%◌, ◌^◌, ◌≤◌, ◌<◌, ◌≡◌, refl, sym, ap, ◌∙◌, arith,
}
use cor_reactor.Address.{and_word, or_word}

-- x shifted to the left by k bits.
abbrev pub shl : ℕ → ℕ → ℕ
shl zero x = x
shl (suc k) x = shl k x * 2

abbrev pub ones : ℕ → ℕ
ones zero = 0
ones (suc p) = ones p * 2 + 1

pub ones-pow : (p : ℕ) → ones p + 1 ≡ 2 ^ p
ones-pow zero = refl
ones-pow (suc p) = omega (arith, ones-pow p, pow-suc 2 p)

-- The width of a word of p bits with k more.
abbrev pub widened : ℕ → ℕ → ℕ
widened zero p = p
widened (suc k) p = suc (widened k p)

pub widened_eq : (k p : ℕ) → widened k p ≡ k + p
widened_eq zero p = omega arith
widened_eq (suc k) p = omega (arith, widened_eq k p)

pub shl-pow : (k x : ℕ) → shl k x ≡ x * 2 ^ k
shl-pow zero x = omega arith
shl-pow (suc k) x =
    ap (λ n. n * 2) (shl-pow k x)
    ∙ mul_assoc x (2 ^ k) 2
    ∙ ap (λ n. x * n) (omega (arith, pow-suc 2 k))

pub shl-ones : (k p : ℕ) → shl k (ones p) + 2 ^ k ≡ 2 ^ widened k p
shl-ones zero p = ones-pow p
shl-ones (suc k) p = omega (arith, shl-ones k p, pow-suc 2 k, pow-suc 2 (widened k p))

-- The part of a word above its k low bits.
abbrev pub high : ℕ → ℕ → ℕ
high k a = shl k (a / 2 ^ k)

high-suc : (k a : ℕ) → high (suc k) a ≡ high k (a / 2) * 2
high-suc k a =
    ap (λ n. shl k n * 2)
      (ap (λ n. a / n) (omega (arith, pow-suc 2 k)) ∙ sym (div-div-eq-div-mul a 2 (2 ^ k)))

pub high-le : (k a : ℕ) → high k a ≤ a
high-le zero a = omega arith
high-le (suc k) a = omega (arith, high-suc k a, high-le k (a / 2))

-- A bit below a word.
and_word_odd : (w a c : ℕ) → and_word (suc w) a (c * 2 + 1) ≡ and_word w (a / 2) c * 2 + a % 2
unfolding and_word
and_word_odd w a c =
    let q : (c * 2 + 1) / 2 ≡ c = omega arith in omega (arith, ap (and_word w (a / 2)) q)

and_word_even : (w a c : ℕ) → and_word (suc w) a (c * 2) ≡ and_word w (a / 2) c * 2
unfolding and_word
and_word_even w a c =
    let q : c * 2 / 2 ≡ c = omega arith in omega (arith, ap (and_word w (a / 2)) q)

or_word_odd : (w a c : ℕ) → or_word (suc w) a (c * 2 + 1) ≡ or_word w (a / 2) c * 2 + 1
unfolding or_word
or_word_odd w a c =
    let q : (c * 2 + 1) / 2 ≡ c = omega arith in omega (arith, ap (or_word w (a / 2)) q)

or_word_even : (w a c : ℕ) → or_word (suc w) a (c * 2) ≡ or_word w (a / 2) c * 2 + a % 2
unfolding or_word
or_word_even w a c = let q : c * 2 / 2 ≡ c = omega arith in omega (arith, ap (or_word w (a / 2)) q)

and_word-ones : (p a : ℕ) → a < 2 ^ p → and_word p a (ones p) ≡ a
unfolding and_word
and_word-ones zero a h = omega arith
and_word-ones (suc p) a h =
    let b : a / 2 < 2 ^ p = omega (arith, pow-suc 2 p) in
    omega (arith, and_word_odd p a (ones p), and_word-ones p (a / 2) b)

pub and_word-shl :
    (k p a : ℕ) → a < 2 ^ widened k p → and_word (widened k p) a (shl k (ones p)) ≡ high k a
and_word-shl zero p a h = omega (arith, and_word-ones p a h)
and_word-shl (suc k) p a h =
    let b : a / 2 < 2 ^ widened k p = omega (arith, pow-suc 2 (widened k p)) in
    omega (
      arith,
      and_word_even (widened k p) a (shl k (ones p)),
      and_word-shl k p (a / 2) b,
      high-suc k a,
    )

or_word-ones : (p a : ℕ) → a < 2 ^ p → or_word p a (ones p) ≡ ones p
unfolding or_word
or_word-ones zero a h = refl
or_word-ones (suc p) a h =
    let b : a / 2 < 2 ^ p = omega (arith, pow-suc 2 p) in
    omega (arith, or_word_odd p a (ones p), or_word-ones p (a / 2) b)

pub or_word-shl :
    (k p a : ℕ)
    → a < 2 ^ widened k p
    → or_word (widened k p) a (shl k (ones p)) ≡ shl k (ones p) + (a - high k a)
or_word-shl zero p a h = omega (arith, or_word-ones p a h)
or_word-shl (suc k) p a h =
    let b : a / 2 < 2 ^ widened k p = omega (arith, pow-suc 2 (widened k p)) in
    omega (
      arith,
      or_word_even (widened k p) a (shl k (ones p)),
      or_word-shl k p (a / 2) b,
      high-suc k a,
      high-le k (a / 2),
    )
