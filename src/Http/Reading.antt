-- ===== src/Http/Reading.antt =====
-- A dumped message as a whole, and how a reader takes it apart.
use mathlib.Core.List.{append_assoc}
use cor_reactor.Base.{
  ℕ, ◌<◌, ◌≡◌, refl, sym, ap, ◌∙◌, List, [], ◌∷◌, ◌++◌, true, false, if◌then◌else◌, codes, length,
  All-append, arith,
}
use cor_reactor.Http.{Text, http_method_to_string, http_status_to_string}
use cor_reactor.Http.Clean.{
  no_cr, no_cr-append, decimal-no_cr, dump_version-no_cr, http_status_to_string-no_cr,
  http_method_to_string-no_cr,
}
use cor_reactor.Http.Messages.{HttpRequest, HttpResponse}
use cor_reactor.Http.Dump.{
  crlf, decimal, is_empty, dump_headers, dump_connection, dump_body, dump_version, dump_request,
  dump_response,
}
use cor_reactor.Http.Framing.{
  read_head, write_lines, write_lines-append, IsLine, read_head-write_lines,
}
use cor_reactor.Http.Lines.{
  field_lines, connection_lines, length_lines, IsClean, field_lines-IsLine, connection_lines-IsLine,
  length_lines-IsLine, dump_headers-lines, dump_connection-lines, dump_body-lines,
}

glue : (a x b c d : Text) → a ++ x ++ b ++ c ++ d ≡ a ++ (x ++ (b ++ (c ++ d)))
glue a x b c d = simp append_assoc

-- The lines of a response: the status line, the headers, the connection and the length.
unfoldable pub status_line : HttpResponse → Text
status_line r =
    codes "HTTP/"
    ++ dump_version r.version
    ++ codes " "
    ++ decimal r.status
    ++ codes " "
    ++ (if is_empty r.reason then http_status_to_string r.status else r.reason)

unfoldable pub response_lines : HttpResponse → List Text
response_lines r =
    status_line r
    ∷ (field_lines (codes ": ") r.websocket r.headers
        ++ (connection_lines r.websocket r.close ++ length_lines r.body))

dump_response-lines :
    (r : HttpResponse) → dump_response r ≡ write_lines (response_lines r) (crlf ++ r.body)
unfolding dump_response response_lines status_line write_lines
dump_response-lines r =
    glue (status_line r) crlf (dump_headers (codes ": ") r.websocket r.headers)
      (dump_connection r.websocket r.close) (dump_body r.body)
    ∙ ap (λ s. status_line r ++ (crlf ++ s))
        (dump_headers-lines (codes ": ") r.websocket r.headers _
          ∙ ap (write_lines _) (
              dump_connection-lines r.websocket r.close _
              ∙ ap (write_lines _) (dump_body-lines r.body)
              ∙ sym (write_lines-append _ (length_lines r.body) _))
          ∙ sym (
              write_lines-append _ (connection_lines r.websocket r.close ++ length_lines r.body) _))

-- The lines of a request: the request line, the connection, the headers and the length.
unfoldable pub request_line : HttpRequest → Text
request_line r =
    http_method_to_string r.method
    ++ codes " "
    ++ r.path
    ++ (if is_empty r.query then [] else codes "?")
    ++ r.query
    ++ (if is_empty r.fragment then [] else codes "#")
    ++ r.fragment
    ++ codes " HTTP/"
    ++ dump_version r.version

unfoldable pub request_lines : HttpRequest → List Text
request_lines r =
    request_line r
    ∷ (connection_lines r.websocket r.close
        ++ (field_lines (codes ":") r.websocket r.headers ++ length_lines r.body))

dump_request-lines :
    (r : HttpRequest) → dump_request r ≡ write_lines (request_lines r) (crlf ++ r.body)
unfolding dump_request request_lines request_line write_lines
dump_request-lines r =
    glue (request_line r) crlf (dump_connection r.websocket r.close)
      (dump_headers (codes ":") r.websocket r.headers) (dump_body r.body)
    ∙ ap (λ s. request_line r ++ (crlf ++ s))
        (dump_connection-lines r.websocket r.close _
          ∙ ap (write_lines _) (
              dump_headers-lines (codes ":") r.websocket r.headers _
              ∙ ap (write_lines _) (dump_body-lines r.body)
              ∙ sym (write_lines-append _ (length_lines r.body) _))
          ∙ sym (
              write_lines-append _
                (field_lines (codes ":") r.websocket r.headers ++ length_lines r.body) _))

reason_text :
    (r : HttpResponse)
    → no_cr r.reason ≡ true
    → no_cr (if is_empty r.reason then http_status_to_string r.status else r.reason) ≡ true
reason_text r p = ground (arith, http_status_to_string-no_cr r.status)

status_line-IsLine : (r : HttpResponse) → no_cr r.reason ≡ true → IsLine (status_line r)
unfolding status_line no_cr
status_line-IsLine r p =
    (simp (no_cr-append, dump_version-no_cr, decimal-no_cr, reason_text r p), refl)

-- A reader that splits at CRLF takes a dumped response apart into its lines and its body, where no
-- carriage return stands in the reason, the keys and the values.
pub read_head-dump_response :
    (r : HttpResponse) (n : ℕ)
    → no_cr r.reason ≡ true
    → IsClean r.headers
    → length (response_lines r) < n
    → read_head n (dump_response r) ≡ (response_lines r, r.body)
unfolding response_lines no_cr
read_head-dump_response r n p q h =
    ap (read_head n) (dump_response-lines r)
    ∙ read_head-write_lines n (response_lines r) r.body
        (
          status_line-IsLine r p,
          All-append IsLine (field_lines _ r.websocket r.headers) _
              (field_lines-IsLine (codes ": ") r.websocket r.headers (refl, refl) q)
              (All-append IsLine (connection_lines r.websocket r.close) _
                (connection_lines-IsLine r.websocket r.close) (length_lines-IsLine r.body)),
        )
        h

no_cr_if : (t mark : Text) → no_cr mark ≡ true → no_cr (if is_empty t then [] else mark) ≡ true
unfolding no_cr
no_cr_if [] mark h = refl
no_cr_if (c ∷ t) mark h = h

is_empty_around : (s t u : Text) → is_empty t ≡ false → is_empty (s ++ t ++ u) ≡ false
is_empty_around [] [] u h = cc h
is_empty_around [] (c ∷ t) u h = refl
is_empty_around (c ∷ s) t u h = refl

request_line-IsLine :
    (r : HttpRequest)
    → no_cr r.path ≡ true
    → no_cr r.query ≡ true
    → no_cr r.fragment ≡ true
    → IsLine (request_line r)
unfolding request_line no_cr
request_line-IsLine r p q f = (
  simp (
    no_cr-append,
    dump_version-no_cr,
    http_method_to_string-no_cr,
    no_cr_if r.query (codes "?") refl,
    no_cr_if r.fragment (codes "#") refl,
    p,
    q,
    f,
  ),
  is_empty_around _ (codes " HTTP/") (dump_version r.version) refl,
)

-- A reader that splits at CRLF takes a dumped request apart into its lines and its body, where no
-- carriage return stands in the path, the query, the fragment, the keys and the values.
pub read_head-dump_request :
    (r : HttpRequest) (n : ℕ)
    → no_cr r.path ≡ true
    → no_cr r.query ≡ true
    → no_cr r.fragment ≡ true
    → IsClean r.headers
    → length (request_lines r) < n
    → read_head n (dump_request r) ≡ (request_lines r, r.body)
unfolding request_lines no_cr
read_head-dump_request r n p q f c h =
    ap (read_head n) (dump_request-lines r)
    ∙ read_head-write_lines n (request_lines r) r.body
        (
          request_line-IsLine r p q f,
          All-append IsLine (connection_lines r.websocket r.close) _
              (connection_lines-IsLine r.websocket r.close)
              (All-append IsLine (field_lines _ r.websocket r.headers) _
                (field_lines-IsLine (codes ":") r.websocket r.headers (refl, refl) c)
                (length_lines-IsLine r.body)),
        )
        h
