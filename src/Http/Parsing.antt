-- ===== src/Http/Parsing.antt =====
-- What the callbacks make of a run: the events that are refused, and a message rebuilt from its parts.
use mathlib.Core.List.{append_assoc, append-nil}
use cor_reactor.Base.{
  ℕ, ◌<◌, ◌≡◌, refl, ap, sym, subst, ◌∙◌, ◌↔◌, ◌⊎◌, inl, inr, List, [], ◌∷◌, ◌++◌, true, false,
  ◌==◌, ==_iff, Bool-cases, All, codes, c_str, c_str-take, same_text, same_text_iff, length, take,
  take-length, take-append_left, arith,
}
use cor_reactor.Http.{Text, invalid_method, chars_to_http_method, http_method_to_string}
use cor_reactor.Http.Methods.{
  chars_to_http_method_iff, chars_to_http_method_le, chars_to_http_method-append,
}
use cor_reactor.Http.Messages.{HttpRequest, Fields, http_request, set_header, set_field}
use cor_reactor.Http.CaseOrder.{case_insensitive_less}
use cor_reactor.Http.Dump.{dump_version}
use cor_reactor.OrderedMap.{IsSorted, assign-last}
use cor_reactor.Http.Parser.{
  strncmp_zero, on_request_method, on_request_fragment, on_request_path, on_request_query,
  on_request_version, on_request_uri, on_request_header_done, on_request_http_field, on_request,
  handle_all, new_request, Parsed, RequestEvent, request_method, request_uri, request_fragment,
  request_path, query_string, request_version, request_header_done, request_field,
}

-- The text of a version is as much of HTTP/1.1 or HTTP/1.0 as the callback is told to compare.
abbrev pub IsVersion : Text → ℕ → Type 0
IsVersion text n =
    (take n (c_str text) ≡ take n (codes "HTTP/1.1"))
    ⊎ (take n (c_str text) ≡ take n (codes "HTTP/1.0"))

-- The callbacks of a request with which the parser has no quarrel.
unfoldable pub IsAccepted : RequestEvent → Type 0
IsAccepted (request_method text n) =
    (m : ℕ) × (rest : Text) × (m < invalid_method) × (c_str text ≡ http_method_to_string m ++ rest)
IsAccepted (request_version text n) = IsVersion text n
IsAccepted (request_field field flen value vlen) = 0 < flen
IsAccepted e = Unit

pub strncmp_zero_iff :
    (s t : Text) (n : ℕ) → c_str t ≡ t → (strncmp_zero s t n ≡ true) ↔ (take n (c_str s) ≡ take n t)
unfolding strncmp_zero
strncmp_zero_iff s t n h =
    rw (c_str-take n s, c_str-take n t, h) (same_text_iff (take n (c_str s)) (take n t))

on_request_method_lem :
    (text : Text) (n : ℕ) (p : Parsed HttpRequest)
    → ((on_request_method text n p).error ≡ 0)
      ↔ ((p.error ≡ 0) × IsAccepted (request_method text n))
unfolding on_request_method IsAccepted
on_request_method_lem text n p = elim (Bool-cases (chars_to_http_method text == invalid_method)) [
  | inl q ↦ rw q (
    λ h. absurd (omega (arith, h)),
    λ (h, (m, rest, l, e)).
        absurd (omega (arith, (==_iff _ _).0 q, (chars_to_http_method_iff text m l).1 (rest, e))),
  )
  | inr q ↦
      let l : chars_to_http_method text < invalid_method =
        ground (arith, chars_to_http_method_le text, q) in
      rw q (
        λ h. (
          h,
          (
            _,
            ((chars_to_http_method_iff text _ l).0 refl).0,
            l,
            ((chars_to_http_method_iff text _ l).0 refl).1,
          ),
        ),
        λ h. h.0,
      )
]

on_request_version_lem :
    (text : Text) (n : ℕ) (p : Parsed HttpRequest)
    → ((on_request_version text n p).error ≡ 0) ↔ ((p.error ≡ 0) × IsVersion text n)
unfolding on_request_version c_str
on_request_version_lem text n p =
    let eleven = strncmp_zero_iff text (codes "HTTP/1.1") n refl in
    let ten = strncmp_zero_iff text (codes "HTTP/1.0") n refl in ground arith

on_request_error :
    (e : RequestEvent) (p : Parsed HttpRequest)
    → ((on_request e p).error ≡ 0) ↔ ((p.error ≡ 0) × IsAccepted e)
unfolding on_request IsAccepted on_request_uri on_request_fragment on_request_path on_request_query
    on_request_header_done on_request_http_field
on_request_error (request_method text n) p = on_request_method_lem text n p
on_request_error (request_uri text n) p = (λ h. (h, tt), λ h. h.0)
on_request_error (request_fragment text n) p = (λ h. (h, tt), λ h. h.0)
on_request_error (request_path text n) p = (λ h. (h, tt), λ h. h.0)
on_request_error (query_string text n) p = (λ h. (h, tt), λ h. h.0)
on_request_error (request_version text n) p = on_request_version_lem text n p
on_request_error (request_header_done text n) p = (λ h. (h, tt), λ h. h.0)
on_request_error (request_field field flen value vlen) p = ground arith

-- The error after a run of callbacks, from what one of them needs.
pub handle_all_error {ℓ κ μ} :
    {E : Type ℓ} {A : Type κ} (on : E → Parsed A → Parsed A) (Good : E → Type μ)
    → ((e : E) (p : Parsed A) → ((on e p).error ≡ 0) ↔ ((p.error ≡ 0) × Good e))
    → (es : List E) (p : Parsed A)
    → ((handle_all on es p).error ≡ 0) ↔ ((p.error ≡ 0) × All Good es)
unfolding handle_all
handle_all_error on Good each [] p = (λ h. (h, tt), λ h. h.0)
handle_all_error on Good each (e ∷ es) p =
    let one = each e p in
    let more = handle_all_error on Good each es (on e p) in
    (
      λ h. ((one.0 (more.0 h).0).0, ((one.0 (more.0 h).0).1, (more.0 h).1)),
      λ (h, (a, rest)). more.1 (one.1 (h, a), rest),
    )

-- The error of a new HttpRequestParser stays zero over the callbacks of a run exactly when each of
-- them is accepted: a method that starts with the text of a method of the table, a version that is as
-- much of HTTP/1.1 or of HTTP/1.0 as its length, and a header whose name is not empty. So one
-- refused callback leaves an error that no later callback clears.
pub handle_all-IsAccepted :
    (es : List RequestEvent)
    → ((handle_all on_request es new_request).error ≡ 0) ↔ All IsAccepted es
handle_all-IsAccepted es =
    let all = handle_all_error on_request IsAccepted on_request_error es new_request in
    (λ h. (all.0 h).1, λ h. all.1 (refl, h))

-- The headers of a message are rebuilt from their fields in order.
abbrev request_fields : Text → Fields → List RequestEvent
request_fields tail [] = []
request_fields tail ((key, val) ∷ m) =
    request_field (key ++ tail) (length key) (val ++ tail) (length val) ∷ request_fields tail m

take-token : (t tail : Text) → take (length t) (t ++ tail) ≡ t
take-token t tail = take-append_left (length t) t tail (omega arith) ∙ take-length t

field_kept :
    (key val tail : Text) (rest kept : Fields) (r : HttpRequest)
    → r.headers ≡ kept
    → IsSorted case_insensitive_less (kept ++ ((key, val) ∷ rest))
    → 0 < length key
    → on_request_http_field
        (key ++ tail)
        (length key)
        (val ++ tail)
        (length val)
        (record { error = 0; message = r })
      ≡ record { error = 0; message = record r { headers = kept ++ ((key, val) ∷ []) } }
unfolding on_request_http_field set_header
field_kept key val tail rest kept r e s h =
    let q : (length key == 0) ≡ false = ground arith in
    let put : set_field key val r.headers ≡ kept ++ ((key, val) ∷ []) =
      ap (set_field key val) e ∙ assign-last case_insensitive_less key val kept rest s in
    rw (q, take-token key tail, take-token val tail)
      (ap (λ fs. record { error = 0; message = record r { headers = fs } }) put)

fields_rebuilt :
    (tail : Text) (m kept : Fields) (r : HttpRequest)
    → r.headers ≡ kept
    → IsSorted case_insensitive_less (kept ++ m)
    → All (λ field. 0 < length field.0) m
    → handle_all on_request (request_fields tail m) (record { error = 0; message = r })
      ≡ record { error = 0; message = record r { headers = kept ++ m } }
unfolding handle_all on_request on_request_http_field set_header
fields_rebuilt tail [] kept r e s h =
    ap (λ fs. record { error = 0; message = record r { headers = fs } }) (e ∙ sym (append-nil kept))
fields_rebuilt tail ((key, val) ∷ m) kept r e s (h, hs) =
    let one = field_kept key val tail m kept r e s h in
    let same = append_assoc kept ((key, val) ∷ []) m in
    let next = kept ++ ((key, val) ∷ []) in
    ap (handle_all on_request (request_fields tail m)) one
    ∙ fields_rebuilt tail m next (record r { headers = next }) refl
        (subst (IsSorted case_insensitive_less) (sym same) s) hs
    ∙ ap (λ fs. record { error = 0; message = record r { headers = fs } }) same

-- The callbacks for the first line and the headers of a request, in front of what follows them.
abbrev pub request_events : Text → HttpRequest → List RequestEvent
request_events tail r =
    request_method (http_method_to_string r.method ++ tail)
      (length (http_method_to_string r.method))
    ∷ request_path (r.path ++ tail) (length r.path)
    ∷ query_string (r.query ++ tail) (length r.query)
    ∷ request_fragment (r.fragment ++ tail) (length r.fragment)
    ∷ request_version (codes "HTTP/" ++ dump_version r.version ++ tail) 8
    ∷ request_fields tail r.headers

-- What a parser can know of a request: the body and the cookies are not its work.
abbrev pub parsed_of : HttpRequest → HttpRequest
parsed_of r = record (http_request r.version true) {
  method = r.method;
  path = r.path;
  query = r.query;
  fragment = r.fragment;
  headers = r.headers;
}

version_kept :
    (version : ℕ) (tail : Text) (p : Parsed HttpRequest)
    → (version ≡ 0x11) ⊎ (version ≡ 0x10)
    → on_request_version (codes "HTTP/" ++ dump_version version ++ tail) 8 p
      ≡ record p { message = record p.message { version = version } }
unfolding on_request_version strncmp_zero same_text c_str dump_version
version_kept version tail p (inl h) = rw h refl
version_kept version tail p (inr h) = rw h refl

method_kept :
    (m : ℕ) (tail : Text) (n : ℕ) (p : Parsed HttpRequest)
    → m < invalid_method
    → on_request_method (http_method_to_string m ++ tail) n p
      ≡ record p { message = record p.message { method = m } }
unfolding on_request_method
method_kept m tail n p l =
    let q : (m == invalid_method) ≡ false = ground arith in
    rw (chars_to_http_method-append m tail l) (rw q refl)

first_line_kept :
    (r : HttpRequest) (tail : Text) (n : ℕ)
    → r.method < invalid_method
    → (r.version ≡ 0x11) ⊎ (r.version ≡ 0x10)
    → on_request_version (codes "HTTP/" ++ dump_version r.version ++ tail) 8 (
        on_request_fragment (r.fragment ++ tail) (length r.fragment) (
          on_request_query (r.query ++ tail) (length r.query) (
            on_request_path
              (r.path ++ tail)
              (length r.path)
              (on_request_method (http_method_to_string r.method ++ tail) n new_request))))
      ≡ record { error = 0; message = record (parsed_of r) { headers = [] } }
unfolding on_request_path on_request_query on_request_fragment http_request
first_line_kept r tail n l v =
    version_kept r.version tail _ v
    ∙ rw (method_kept r.method tail n new_request l)
        (rw (take-token r.path tail, take-token r.query tail, take-token r.fragment tail) refl)

-- The callbacks of a request of a known method and a version 1.0 or 1.1, whose headers are in order
-- and have names, rebuild it in a new parser without an error.
pub handle_all-request_events :
    (r : HttpRequest) (tail : Text)
    → r.method < invalid_method
    → (r.version ≡ 0x11) ⊎ (r.version ≡ 0x10)
    → IsSorted case_insensitive_less r.headers
    → All (λ field. 0 < length field.0) r.headers
    → handle_all on_request (request_events tail r) new_request
      ≡ record { error = 0; message = parsed_of r }
unfolding handle_all on_request
handle_all-request_events r tail l v s h =
    ap (handle_all on_request (request_fields tail r.headers)) (first_line_kept r tail _ l v)
    ∙ fields_rebuilt tail r.headers [] _ refl s h
