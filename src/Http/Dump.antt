-- ===== src/Http/Dump.antt =====
-- HttpRequest::dump and HttpResponse::dump. What is written to the stream is appended.
use cor_reactor.Base.{
  ℕ, zero, suc, ◌+◌, ◌/◌, ◌%◌, [], ◌∷◌, ◌++◌, Bool, true, false, ◌&&◌, not, if◌then◌else◌, codes,
  length,
}
use cor_reactor.Http.{Text, http_method_to_string, http_status_to_string}
use cor_reactor.Http.CaseOrder.{case_insensitive_less}
use cor_reactor.OrderedMap.{equivalent}
use cor_reactor.Http.Messages.{Fields, HttpRequest, HttpResponse}

abbrev pub crlf : Text
crlf = b'\r' ∷ b'\n' ∷ []

-- The digits of a number in front of a text; a size_t has at most 20 of them.
unfoldable pub digits : ℕ → ℕ → Text → Text
digits zero n rest = rest
digits (suc fuel) zero rest = rest
digits (suc fuel) (suc n) rest = digits fuel (suc n / 10) ((b'0' + suc n % 10) ∷ rest)

-- `os << n`
unfoldable pub decimal : ℕ → Text
unfolding digits
decimal zero = codes "0"
decimal (suc n) = digits 20 (suc n) []

abbrev pub is_empty : Text → Bool
is_empty [] = true
is_empty (c ∷ s) = false

-- `!m_websocket && strcasecmp(key, "connection") == 0`
abbrev pub is_skipped : Bool → Text → Bool
is_skipped websocket key =
    not websocket && equivalent case_insensitive_less key (codes "connection")

-- The loop over the headers, with what separates a key from its value.
unfoldable pub dump_headers : Text → Bool → Fields → Text
dump_headers sep websocket [] = []
dump_headers sep websocket ((key, val) ∷ m) =
    let rest = dump_headers sep websocket m in
    if is_skipped websocket key then rest else key ++ sep ++ val ++ crlf ++ rest

unfoldable pub dump_connection : Bool → Bool → Text
dump_connection true close = []
dump_connection false close =
    codes "connection: " ++ (if close then codes "close" else codes "keep-alive") ++ crlf

unfoldable pub dump_body : Text → Text
unfolding decimal
dump_body body =
    if is_empty body
    then crlf
    else codes "content-length: " ++ decimal (length body) ++ crlf ++ crlf ++ body

unfoldable pub dump_version : ℕ → Text
unfolding decimal
dump_version version = decimal (version / 16) ++ codes "." ++ decimal (version % 16)

-- HttpRequest::dump
unfoldable pub dump_request : HttpRequest → Text
unfolding dump_version dump_connection dump_headers dump_body
dump_request r =
    http_method_to_string r.method
    ++ codes " "
    ++ r.path
    ++ (if is_empty r.query then [] else codes "?")
    ++ r.query
    ++ (if is_empty r.fragment then [] else codes "#")
    ++ r.fragment
    ++ codes " HTTP/"
    ++ dump_version r.version
    ++ crlf
    ++ dump_connection r.websocket r.close
    ++ dump_headers (codes ":") r.websocket r.headers
    ++ dump_body r.body

-- HttpResponse::dump
unfoldable pub dump_response : HttpResponse → Text
unfolding dump_version dump_connection dump_headers dump_body
dump_response r =
    codes "HTTP/"
    ++ dump_version r.version
    ++ codes " "
    ++ decimal r.status
    ++ codes " "
    ++ (if is_empty r.reason then http_status_to_string r.status else r.reason)
    ++ crlf
    ++ dump_headers (codes ": ") r.websocket r.headers
    ++ dump_connection r.websocket r.close
    ++ dump_body r.body
