-- ===== src/Http/Parser.antt =====
-- src/http/http_parser.cpp: HttpRequestParser and HttpResponseParser. What Ragel generates from the
-- two grammars is a parameter: its state, and a run over a buffer, which gives the callbacks it
-- makes, the offset it stops at and its next state. The C code around it in http11_parser.rl and
-- httpclient_parser.rl is `parser_execute` and `client_execute`; its assertions are compiled in. A pointer into the buffer is the text from there.
use cor_reactor.Base.{
  ℕ, suc, ◌+◌, ◌-◌, ◌*◌, List, [], ◌∷◌, ◌++◌, Option, none, some, Bool, true, ◌&&◌, ◌||◌, not, ◌==◌,
  ltb, leb, if◌then◌else◌, codes, c_str, same_text, take, drop, get_elem?, Result, ok, fail, check,
  or_fail, ◌>>=◌, ◌>>◌, out_of_range, undefined,
}
use cor_reactor.Http.{Text, invalid_method, chars_to_http_method}
use cor_reactor.Http.Messages.{
  HttpRequest, HttpResponse, http_request, http_response, set_header, set_response_header, get_as,
}

-- `strncmp(s, t, n) == 0`
unfoldable pub strncmp_zero : Text → Text → ℕ → Bool
strncmp_zero s t n = same_text (c_str (take n s)) (c_str (take n t))

-- `atoi` of a text that starts with a digit, as the grammar has it
unfoldable pub atoi : ℕ → Text → ℕ
atoi n [] = n
atoi n (c ∷ s) =
    let rest = atoi (n * 10 + (c - b'0')) s in if leb b'0' c && leb c b'9' then rest else n

-- The callbacks of http_parser, with their arguments.
pub data RequestEvent : Type 0 where
  request_method : Text → ℕ → RequestEvent
  request_uri : Text → ℕ → RequestEvent
  request_fragment : Text → ℕ → RequestEvent
  request_path : Text → ℕ → RequestEvent
  query_string : Text → ℕ → RequestEvent
  request_version : Text → ℕ → RequestEvent
  request_header_done : Text → ℕ → RequestEvent
  request_field : Text → ℕ → Text → ℕ → RequestEvent

-- The callbacks of httpclient_parser.
pub data ResponseEvent : Type 0 where
  reason_phrase : Text → ℕ → ResponseEvent
  status_code : Text → ℕ → ResponseEvent
  chunk_size : Text → ℕ → ResponseEvent
  response_version : Text → ℕ → ResponseEvent
  response_header_done : Text → ℕ → ResponseEvent
  last_chunk : Text → ℕ → ResponseEvent
  response_field : Text → ℕ → Text → ℕ → ResponseEvent

-- m_error and m_data
pub record Parsed {ℓ} (A : Type ℓ) : Type ℓ where
  pub error : ℕ
  pub message : A

unfoldable pub on_request_method : Text → ℕ → Parsed HttpRequest → Parsed HttpRequest
on_request_method text n p =
    let m = chars_to_http_method text in
    if m == invalid_method
    then record p { error = 1000 }
    else record p { message = record p.message { method = m } }

unfoldable pub on_request_fragment : Text → ℕ → Parsed HttpRequest → Parsed HttpRequest
on_request_fragment text n p = record p { message = record p.message { fragment = take n text } }

unfoldable pub on_request_path : Text → ℕ → Parsed HttpRequest → Parsed HttpRequest
on_request_path text n p = record p { message = record p.message { path = take n text } }

unfoldable pub on_request_query : Text → ℕ → Parsed HttpRequest → Parsed HttpRequest
on_request_query text n p = record p { message = record p.message { query = take n text } }

unfoldable pub on_request_version : Text → ℕ → Parsed HttpRequest → Parsed HttpRequest
on_request_version text n p =
    if strncmp_zero text (codes "HTTP/1.1") n
    then record p { message = record p.message { version = 0x11 } }
    else if strncmp_zero text (codes "HTTP/1.0") n
    then record p { message = record p.message { version = 0x10 } }
    else record p { error = 1001 }

unfoldable pub on_request_uri : Text → ℕ → Parsed HttpRequest → Parsed HttpRequest
on_request_uri text n p = p

unfoldable pub on_request_header_done : Text → ℕ → Parsed HttpRequest → Parsed HttpRequest
on_request_header_done text n p = p

unfoldable pub on_request_http_field : Text → ℕ → Text → ℕ → Parsed HttpRequest → Parsed HttpRequest
on_request_http_field field flen value vlen p =
    if flen == 0
    then record p { error = 1002 }
    else record p { message = set_header p.message (take flen field) (take vlen value) }

unfoldable pub on_response_reason : Text → ℕ → Parsed HttpResponse → Parsed HttpResponse
on_response_reason text n p = record p { message = record p.message { reason = take n text } }

unfoldable pub on_response_status : Text → ℕ → Parsed HttpResponse → Parsed HttpResponse
on_response_status text n p = record p { message = record p.message { status = atoi 0 text } }

unfoldable pub on_response_chunk : Text → ℕ → Parsed HttpResponse → Parsed HttpResponse
on_response_chunk text n p = p

unfoldable pub on_response_version : Text → ℕ → Parsed HttpResponse → Parsed HttpResponse
on_response_version text n p =
    if strncmp_zero text (codes "HTTP/1.1") n
    then record p { message = record p.message { version = 0x11 } }
    else if strncmp_zero text (codes "HTTP/1.0") n
    then record p { message = record p.message { version = 0x10 } }
    else record p { error = 1001 }

unfoldable pub on_response_header_done : Text → ℕ → Parsed HttpResponse → Parsed HttpResponse
on_response_header_done text n p = p

unfoldable pub on_response_last_chunk : Text → ℕ → Parsed HttpResponse → Parsed HttpResponse
on_response_last_chunk text n p = p

unfoldable pub on_response_http_field :
    Text → ℕ → Text → ℕ → Parsed HttpResponse → Parsed HttpResponse
on_response_http_field field flen value vlen p =
    if flen == 0
    then p
    else record p { message = set_response_header p.message (take flen field) (take vlen value) }

-- The callbacks as the constructors register them.
unfoldable pub on_request : RequestEvent → Parsed HttpRequest → Parsed HttpRequest
on_request (request_method text n) p = on_request_method text n p
on_request (request_uri text n) p = on_request_uri text n p
on_request (request_fragment text n) p = on_request_fragment text n p
on_request (request_path text n) p = on_request_path text n p
on_request (query_string text n) p = on_request_query text n p
on_request (request_version text n) p = on_request_version text n p
on_request (request_header_done text n) p = on_request_header_done text n p
on_request (request_field field flen value vlen) p = on_request_http_field field flen value vlen p

unfoldable pub on_response : ResponseEvent → Parsed HttpResponse → Parsed HttpResponse
on_response (reason_phrase text n) p = on_response_reason text n p
on_response (status_code text n) p = on_response_status text n p
on_response (chunk_size text n) p = on_response_chunk text n p
on_response (response_version text n) p = on_response_version text n p
on_response (response_header_done text n) p = on_response_header_done text n p
on_response (last_chunk text n) p = on_response_last_chunk text n p
on_response (response_field field flen value vlen) p =
    on_response_http_field field flen value vlen p

-- The callbacks of a run, in their order.
unfoldable pub handle_all {ℓ κ} :
    {E : Type ℓ} {A : Type κ} → (E → Parsed A → Parsed A) → List E → Parsed A → Parsed A
handle_all on [] p = p
handle_all on (e ∷ es) p = handle_all on es (on e p)

-- HttpRequestParser::HttpRequestParser and HttpResponseParser::HttpResponseParser
abbrev pub new_request : Parsed HttpRequest
new_request = record { error = 0; message = http_request 0x11 true }

abbrev pub new_response : Parsed HttpResponse
new_response = record { error = 0; message = http_response 0x11 true }

-- What the code that Ragel generates gives: the callbacks of a run, how far it reads and the next
-- state. `sound` are the assertions on the marks of the state that follow a run in the grammars' C
-- code, `marked` are the tests there that make httpclient_parser_execute return -1, and `has_body`
-- says that body_start is not 0.
pub record Ragel {ℓ κ} (S : Type ℓ) (E : Type κ) : Type (ℓ ⊔ κ) where
  pub init : S
  pub run : S → Text → List E × ℕ × S
  pub finish : S → ℕ
  pub has_error : S → Bool
  pub sound : S → ℕ → Bool
  pub marked : S → ℕ → Bool
  pub has_body : S → Bool

-- `memmove(data, data + offset, len - offset)`; an offset past the end would move out of the buffer.
unfoldable pub move_left : Text → ℕ → ℕ → Result Text
move_left buf len offset =
    if ltb len offset
    then fail out_of_range
    else ok (drop offset (take len buf) ++ drop (len - offset) buf)

module _ {ℓ κ μ} {S : Type ℓ} {E : Type κ} {A : Type μ} (ragel : Ragel S E)
    (on : E → Parsed A → Parsed A) where
  -- http_parser_execute from the offset 0 on a state with its nread: it returns the sum over all runs.
  unfoldable pub parser_execute : Text → ℕ → ℕ × S → Result (List E × ℕ × (ℕ × S))
  parser_execute buf len (nread, s) =
      if len == 0
      then ok ([], 0, (nread, s))
      else (let (es, read, s') = ragel.run s (take len buf) in
          check (leb read len)
          >> check (leb (nread + read) len)
          >> check (ragel.sound s' len)
          >> ok (es, nread + read, (nread + read, s')))

  -- execute, with what it leaves in the buffer and returns
  unfoldable pub execute : Text → ℕ → Parsed A → ℕ × S → Result (Text × ℕ × Parsed A × (ℕ × S))
  unfolding parser_execute
  execute buf len p state = parser_execute buf len state >>= λ (es, offset, state').
      move_left buf len offset >>= λ left. ok (left, offset, handle_all on es p, state')

  -- httpclient_parser_execute from the offset 0, which wants a zero behind the data; -1 as an offset is
  -- past the end of every buffer.
  unfoldable pub client_execute : Text → ℕ → ℕ × S → Result (List E × Option ℕ × (ℕ × S))
  client_execute buf len (nread, s) =
      let (es, read, s') = ragel.run s (take len buf) in
      let total = nread + read in
      let end = if ragel.has_body s' then suc total else total in
      or_fail (get_elem? buf len) undefined >>= λ last.
      check (last == 0)
      >> check (leb read len)
      >> check (leb total len)
      >> check (ragel.sound s' len)
      >> ok (if ragel.marked s' len then (es, some end, (end, s')) else (es, none, (total, s')))

  -- HttpResponseParser::execute, which starts anew before a chunk
  unfoldable pub execute_response :
      Text → ℕ → Bool → Parsed A → ℕ × S → Result (Text × ℕ × Parsed A × (ℕ × S))
  unfolding client_execute
  execute_response buf len chunck p state =
      client_execute buf len (if chunck then (0, ragel.init) else state) >>= λ (es, o, state').
      or_fail o out_of_range >>= λ offset.
      move_left buf len offset >>= λ left. ok (left, offset, handle_all on es p, state')

  unfoldable pub is_finished : S → ℕ
  is_finished s = ragel.finish s

  unfoldable pub has_error : Parsed A → S → Bool
  has_error p s = not (p.error == 0) || ragel.has_error s

-- getContentLength of either parser, with boost::lexical_cast<uint64_t>
unfoldable pub get_content_length : (Text → Option ℕ) → List (Text × Text) → ℕ
get_content_length lexical_cast headers = get_as lexical_cast headers (codes "content-length") 0
