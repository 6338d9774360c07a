-- ===== src/Http/Consuming.antt =====
-- execute of either parser, and the callbacks of a response.
use cor_reactor.Base.{
  ℕ, ◌+◌, ◌-◌, ◌≤◌, ◌<◌, ◌≡◌, refl, ◌∙◌, ◌↔◌, true, false, ◌==◌, leb, List, ◌++◌, le→ltb, All,
  length, length-append, length-take, length-drop, take, take-all, take-append_left, drop, ok, fail,
  assertion, codes, c_str, arith,
}
use cor_reactor.Http.{Text}
use cor_reactor.Http.Messages.{HttpResponse}
use cor_reactor.Http.Parsing.{IsVersion, strncmp_zero_iff, handle_all_error}
use cor_reactor.Http.Parser.{
  Parsed, Ragel, move_left, execute, parser_execute, handle_all, ResponseEvent, on_response,
  new_response, reason_phrase, status_code, chunk_size, response_version, response_header_done,
  last_chunk, response_field, on_response_reason, on_response_status, on_response_chunk,
  on_response_version, on_response_header_done, on_response_last_chunk, on_response_http_field,
}

-- The generated code stops inside the buffer.
abbrev pub StopsInside {ℓ κ} : {S : Type ℓ} {E : Type κ} → Ragel S E → Type ℓ
StopsInside {S = S} ragel = (s : S) (text : Text) → (ragel.run s text).1 ≤ length text

move_left_lem :
    (buf : Text) (len offset : ℕ)
    → offset ≤ len
    → len ≤ length buf
    → (left : Text) × (move_left buf len offset ≡ ok left)
      × (take (len - offset) left ≡ drop offset (take len buf))
      × (length left ≡ length buf)
unfolding move_left
move_left_lem buf len offset h k =
    let a = drop offset (take len buf) in
    let b = drop (len - offset) buf in
    let n : length a ≡ len - offset =
      omega (arith, length-drop offset (take len buf), length-take len buf) in
    (
      a ++ b,
      rw (le→ltb len offset h) refl,
      take-append_left (len - offset) a b (omega (arith, n)) ∙ take-all _ a (omega (arith, n)),
      omega (arith, n, length-append a b, length-drop (len - offset) buf),
    )

-- Where the generated code stops inside the buffer, execute on a buffer of at least len bytes, of
-- which len is positive, after runs that read nread bytes in all: the callbacks of this run are
-- handled in order, and the buffer starts with what is left of the len bytes behind the bytes of
-- all runs, where their sum is not more than len and the assertions on the marks hold. That sum is
-- what execute returns. Where it is more than len, an assertion fails.
pub execute_lem {ℓ κ μ} :
    {S : Type ℓ} {E : Type κ} {A : Type μ} (ragel : Ragel S E) (on : E → Parsed A → Parsed A)
    (buf : Text) (len nread : ℕ) (p : Parsed A) (s : S)
    → StopsInside ragel
    → 0 < len
    → len ≤ length buf
    → let (es, read, s') = ragel.run s (take len buf) in
      (nread + read ≤ len
        → ragel.sound s' len ≡ true
        → (left : Text) × (execute ragel on buf len p (nread, s)
            ≡ ok (left, nread + read, handle_all on es p, (nread + read, s')))
          × (take (len - (nread + read)) left ≡ drop (nread + read) (take len buf))
          × (length left ≡ length buf))
      × (len < nread + read → execute ragel on buf len p (nread, s) ≡ fail assertion)
unfolding execute parser_execute
execute_lem ragel on buf len nread p s inside positive h =
    let (es, read, s') = ragel.run s (take len buf) in
    let within : read ≤ len = omega (arith, inside s (take len buf), length-take len buf) in
    let some_bytes : (len == 0) ≡ false = ground arith in
    let fits : leb read len ≡ true = ground arith in
    (
      λ b sound.
          let (left, moved, start, same) = move_left_lem buf len (nread + read) b h in
          let below : leb (nread + read) len ≡ true = ground arith in
          (left, rw (some_bytes, fits, below, sound) (rw moved refl), start, same),
      λ b.
          let above : leb (nread + read) len ≡ false = ground arith in
          rw (some_bytes, fits, above) refl,
    )

-- The callbacks of a response with which the parser has no quarrel.
unfoldable pub IsTolerated : ResponseEvent → Type 0
IsTolerated (response_version text n) = IsVersion text n
IsTolerated e = Unit

on_response_error :
    (e : ResponseEvent) (p : Parsed HttpResponse)
    → ((on_response e p).error ≡ 0) ↔ ((p.error ≡ 0) × IsTolerated e)
unfolding on_response IsTolerated on_response_reason on_response_status on_response_chunk
    on_response_header_done on_response_last_chunk on_response_http_field on_response_version c_str
on_response_error (reason_phrase text n) p = (λ h. (h, tt), λ h. h.0)
on_response_error (status_code text n) p = (λ h. (h, tt), λ h. h.0)
on_response_error (chunk_size text n) p = (λ h. (h, tt), λ h. h.0)
on_response_error (response_version text n) p =
    let eleven = strncmp_zero_iff text (codes "HTTP/1.1") n refl in
    let ten = strncmp_zero_iff text (codes "HTTP/1.0") n refl in ground arith
on_response_error (response_header_done text n) p = (λ h. (h, tt), λ h. h.0)
on_response_error (last_chunk text n) p = (λ h. (h, tt), λ h. h.0)
on_response_error (response_field field flen value vlen) p = ground arith

-- The error of a new HttpResponseParser stays zero over the callbacks of a run exactly when every
-- version among them is as much of HTTP/1.1 or of HTTP/1.0 as its length: no status, and no header
-- without a name, is an error.
pub handle_all-IsTolerated :
    (es : List ResponseEvent)
    → ((handle_all on_response es new_response).error ≡ 0) ↔ All IsTolerated es
handle_all-IsTolerated es =
    let all = handle_all_error on_response IsTolerated on_response_error es new_response in
    (λ h. (all.0 h).1, λ h. all.1 (refl, h))
