-- ===== src/Http/Lines.antt =====
-- The lines that HttpRequest::dump and HttpResponse::dump write.
use mathlib.Core.List.{append_assoc}
use cor_reactor.Base.{
  suc, ◌≡◌, refl, ◌∙◌, inl, inr, List, [], ◌∷◌, ◌++◌, Bool, true, false, ◌&&◌, if◌then◌else◌,
  Bool-cases, codes, length, All, arith,
}
use cor_reactor.Http.{Text}
use cor_reactor.Http.Clean.{no_cr, no_cr-append, decimal-no_cr}
use cor_reactor.Http.Messages.{Fields}
use cor_reactor.Http.Dump.{
  crlf, decimal, is_empty, is_skipped, dump_headers, dump_connection, dump_body,
}
use cor_reactor.Http.Framing.{write_lines, IsLine}

-- The lines of a message.
unfoldable pub field_lines : Text → Bool → Fields → List Text
field_lines sep websocket [] = []
field_lines sep websocket ((key, val) ∷ m) =
    let rest = field_lines sep websocket m in
    if is_skipped websocket key then rest else (key ++ (sep ++ val)) ∷ rest

unfoldable pub connection_lines : Bool → Bool → List Text
connection_lines true close = []
connection_lines false close =
    (codes "connection: " ++ (if close then codes "close" else codes "keep-alive")) ∷ []

unfoldable pub length_lines : Text → List Text
length_lines body =
    if is_empty body then [] else (codes "content-length: " ++ decimal (length body)) ∷ []

-- What is dumped is lines.
pub dump_headers-lines :
    (sep : Text) (websocket : Bool) (m : Fields) (rest : Text)
    → dump_headers sep websocket m ++ rest ≡ write_lines (field_lines sep websocket m) rest
unfolding dump_headers field_lines write_lines
dump_headers-lines sep websocket [] rest = refl
dump_headers-lines sep websocket ((key, val) ∷ m) rest =
    elim (Bool-cases (is_skipped websocket key)) [
      | inl p ↦ rw p (dump_headers-lines sep websocket m rest)
      | inr p ↦ rw p (simp (append_assoc, dump_headers-lines sep websocket m rest))
    ]

pub dump_connection-lines :
    (websocket close : Bool) (rest : Text)
    → dump_connection websocket close ++ rest ≡ write_lines (connection_lines websocket close) rest
unfolding dump_connection connection_lines write_lines
dump_connection-lines true close rest = refl
dump_connection-lines false true rest = refl
dump_connection-lines false false rest = refl

pub dump_body-lines :
    (body : Text) → dump_body body ≡ write_lines (length_lines body) (crlf ++ body)
unfolding dump_body length_lines write_lines
dump_body-lines [] = refl
dump_body-lines (c ∷ body) = simp append_assoc

no_cr_join :
    (s t u : Text) → no_cr s ≡ true → no_cr t ≡ true → no_cr u ≡ true → no_cr (s ++ (t ++ u)) ≡ true
no_cr_join s t u p q r = ground (arith, no_cr-append s (t ++ u), no_cr-append t u)

pub is_empty-append : (s t : Text) → is_empty (s ++ t) ≡ is_empty s && is_empty t
is_empty-append [] t = refl
is_empty-append (c ∷ s) t = refl

-- Keys and values without a carriage return.
abbrev pub IsClean : Fields → Type 0
IsClean m = All (λ field. (no_cr field.0 ≡ true) × (no_cr field.1 ≡ true)) m

pub field_lines-IsLine :
    (sep : Text) (websocket : Bool) (m : Fields)
    → IsLine sep
    → IsClean m
    → All IsLine (field_lines sep websocket m)
unfolding field_lines
field_lines-IsLine sep websocket [] s p = tt
field_lines-IsLine sep websocket ((key, val) ∷ m) s (q, p) =
    let rest = field_lines-IsLine sep websocket m s p in
    elim (Bool-cases (is_skipped websocket key)) [
      | inl h ↦ rw h rest
      | inr h ↦ rw h (
        (
          no_cr_join key sep val q.0 s.0 q.1,
          is_empty-append key (sep ++ val) ∙ ground (arith, is_empty-append sep val),
        ),
        rest,
      )
    ]

pub connection_lines-IsLine :
    (websocket close : Bool) → All IsLine (connection_lines websocket close)
unfolding connection_lines no_cr
connection_lines-IsLine true close = tt
connection_lines-IsLine false true = ((refl, refl), tt)
connection_lines-IsLine false false = ((refl, refl), tt)

pub length_lines-IsLine : (body : Text) → All IsLine (length_lines body)
unfolding length_lines no_cr
length_lines-IsLine [] = tt
length_lines-IsLine (c ∷ body) = ((decimal-no_cr (suc (length body)), refl), tt)
