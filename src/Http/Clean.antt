-- ===== src/Http/Clean.antt =====
-- What is dumped of numbers and tables: digits without a carriage return, read back to the number.
use native.Mathlib.Nat.{pow-suc}
use cor_reactor.Base.{
  ℕ, zero, suc, ◌+◌, ◌-◌, ◌*◌, ◌/◌, ◌%◌, ◌<◌, ◌^◌, ◌≡◌, refl, ap, ◌∙◌, List, [], ◌∷◌, ◌++◌, none,
  some, Bool, true, ◌&&◌, not, ◌==◌, codes, get_elem?, arith,
}
use cor_reactor.Http.{
  Text, http_method_to_string, http_status_to_string, status_row, http_status_map, http_method_map,
}
use cor_reactor.Http.Dump.{digits, decimal, dump_version}

-- No carriage return.
unfoldable pub no_cr : Text → Bool
no_cr [] = true
no_cr (c ∷ s) = not (c == b'\r') && no_cr s

pub no_cr-append : (s t : Text) → no_cr (s ++ t) ≡ no_cr s && no_cr t
unfolding no_cr
no_cr-append [] t = refl
no_cr-append (c ∷ s) t = ground (arith, no_cr-append s t)

-- Numbers and table texts have no carriage return.
digits-no_cr : (fuel n : ℕ) (rest : Text) → no_cr (digits fuel n rest) ≡ no_cr rest
unfolding digits no_cr
digits-no_cr zero n rest = refl
digits-no_cr (suc fuel) zero rest = refl
digits-no_cr (suc fuel) (suc n) rest = digits-no_cr fuel (suc n / 10) _ ∙ ground arith

pub decimal-no_cr : (n : ℕ) → no_cr (decimal n) ≡ true
unfolding decimal no_cr
decimal-no_cr zero = refl
decimal-no_cr (suc n) = digits-no_cr 20 (suc n) []

pub dump_version-no_cr : (version : ℕ) → no_cr (dump_version version) ≡ true
unfolding dump_version no_cr
dump_version-no_cr version =
    no_cr-append (decimal (version / 16) ++ codes ".") (decimal (version % 16))
    ∙ (rw (no_cr-append (decimal (version / 16)) (codes "."))
        (rw (decimal-no_cr (version / 16), decimal-no_cr (version % 16)) refl))

clean_rows : List (ℕ × Text) → Bool
clean_rows [] = true
clean_rows (row ∷ rows) = no_cr row.1 && clean_rows rows

status_row-no_cr :
    (s : ℕ) (rows : List (ℕ × Text)) → clean_rows rows ≡ true → no_cr (status_row s rows) ≡ true
unfolding status_row clean_rows no_cr
status_row-no_cr s [] p = refl
status_row-no_cr s ((code, msg) ∷ rows) p = ground (arith, status_row-no_cr s rows)

-- The texts of the two tables are clean.
pub http_status_to_string-no_cr : (s : ℕ) → no_cr (http_status_to_string s) ≡ true
unfolding http_status_to_string clean_rows no_cr
http_status_to_string-no_cr s = status_row-no_cr s http_status_map refl

row_text-no_cr :
    (rows : List (ℕ × Text)) (i : ℕ)
    → clean_rows rows ≡ true
    → no_cr (elim (get_elem? rows i) [ none ↦ codes "<unknown>" | some row ↦ row.1 ]) ≡ true
unfolding clean_rows no_cr
row_text-no_cr [] i p = refl
row_text-no_cr (row ∷ rows) zero p = ground arith
row_text-no_cr (row ∷ rows) (suc i) p = row_text-no_cr rows i (ground arith)

pub http_method_to_string-no_cr : (m : ℕ) → no_cr (http_method_to_string m) ≡ true
unfolding http_method_to_string clean_rows no_cr
http_method_to_string-no_cr m = row_text-no_cr http_method_map m refl

-- A reader of numbers.
unfoldable pub read_digits : ℕ → Text → ℕ
read_digits n [] = n
read_digits n (c ∷ s) = read_digits (n * 10 + (c - b'0')) s

read_digits-digits :
    (fuel n : ℕ) (rest : Text)
    → n < 10 ^ fuel
    → read_digits 0 (digits fuel n rest) ≡ read_digits n rest
unfolding read_digits digits
read_digits-digits zero n rest h = ap (λ n. read_digits n rest) (omega arith)
read_digits-digits (suc fuel) zero rest h = refl
read_digits-digits (suc fuel) (suc n) rest h =
    read_digits-digits fuel (suc n / 10) ((b'0' + suc n % 10) ∷ rest)
      (omega (arith, pow-suc 10 fuel))
    ∙ ap (λ n. read_digits n rest) (omega arith)

-- A number of at most 64 bits is read back from its decimal digits.
pub read_digits-decimal : (n : ℕ) → n < 2 ^ 64 → read_digits 0 (decimal n) ≡ n
unfolding read_digits decimal
read_digits-decimal zero h = refl
read_digits-decimal (suc n) h = read_digits-digits 20 (suc n) [] (omega arith)
