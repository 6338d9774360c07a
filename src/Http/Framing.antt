-- ===== src/Http/Framing.antt =====
-- How a reader that splits at CRLF takes a dumped message apart.
use cor_reactor.Base.{
  ℕ, zero, suc, ◌<◌, ◌≡◌, refl, ap, List, [], ◌∷◌, ◌++◌, true, false, if◌then◌else◌, length, drop,
  starts_with, All, arith,
}
use cor_reactor.Http.{Text}
use cor_reactor.Http.Clean.{no_cr}
use cor_reactor.Http.Dump.{crlf, is_empty}

-- The reader: a line up to the first CRLF, and lines up to the first empty one.
unfoldable pub read_line : Text → Text × Text
read_line [] = ([], [])
read_line (c ∷ s) =
    let rest = read_line s in
    if starts_with crlf (c ∷ s) then ([], drop 2 (c ∷ s)) else (c ∷ rest.0, rest.1)

unfoldable pub read_head : ℕ → Text → List Text × Text
read_head zero s = ([], s)
read_head (suc n) s =
    let line = read_line s in
    let rest = read_head n line.1 in
    if is_empty line.0 then ([], line.1) else (line.0 ∷ rest.0, rest.1)

unfoldable pub write_lines : List Text → Text → Text
write_lines [] rest = rest
write_lines (l ∷ ls) rest = l ++ (crlf ++ write_lines ls rest)

read_line_lem : (l rest : Text) → no_cr l ≡ true → read_line (l ++ (crlf ++ rest)) ≡ (l, rest)
unfolding read_line no_cr starts_with
read_line_lem [] rest h = refl
read_line_lem (c ∷ l) rest h = grind (arith, read_line_lem l rest)

-- A line as it may stand in a message.
abbrev pub IsLine : Text → Type 0
IsLine l = (no_cr l ≡ true) × (is_empty l ≡ false)

pub read_head-write_lines :
    (n : ℕ) (ls : List Text) (body : Text)
    → All IsLine ls
    → length ls < n
    → read_head n (write_lines ls (crlf ++ body)) ≡ (ls, body)
unfolding read_head write_lines no_cr
read_head-write_lines zero ls body p h = absurd (omega arith)
read_head-write_lines (suc n) [] body p h = rw (read_line_lem [] body refl) refl
read_head-write_lines (suc n) (l ∷ ls) body ((c, e), p) h =
    rw (read_line_lem l (write_lines ls (crlf ++ body)) c) (
      rw e (
        ap (λ (x : List Text × Text). (l ∷ x.0, x.1))
          (read_head-write_lines n ls body p (omega arith))))

pub write_lines-append :
    (ls ks : List Text) (rest : Text)
    → write_lines (ls ++ ks) rest ≡ write_lines ls (write_lines ks rest)
unfolding write_lines
write_lines-append [] ks rest = refl
write_lines-append (l ∷ ls) ks rest = ap (λ s. l ++ (crlf ++ s)) (write_lines-append ls ks rest)
