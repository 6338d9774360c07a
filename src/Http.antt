-- ===== src/Http.antt =====
-- include/http/http.h and src/http/http.cpp: HTTP messages. A std::string is the list of its bytes,
-- and a std::map with the case-insensitive order is the list of its entries in that order. An
-- HttpMethod and an HttpStatus are their numbers, since the code expects numbers outside the enums.
pub mod CaseOrder
pub mod Messages
pub mod Methods
pub mod Headers
pub mod Dump
pub mod Clean
pub mod Framing
pub mod Lines
pub mod Reading
pub mod Parser
pub mod Parsing
pub mod Consuming
mod Tests
mod ParserTests
use cor_reactor.Base.{
  ℕ, zero, suc, ◌+◌, ◌-◌, List, [], ◌∷◌, ◌++◌, Option, none, some, Bool, true, false, ◌&&◌, ◌==◌,
  leb, if◌then◌else◌, get_elem?, codes, c_str, same_text, starts_with,
}

abbrev pub Text : Type 0
Text = List ℕ

-- HTTP_METHOD_MAP: the number and the text of each method.
abbrev pub http_method_map : List (ℕ × Text)
http_method_map =
    (0, codes "DELETE")
    ∷ (1, codes "GET")
    ∷ (2, codes "HEAD")
    ∷ (3, codes "POST")
    ∷ (4, codes "PUT")
    ∷ (5, codes "CONNECT")
    ∷ (6, codes "OPTIONS")
    ∷ (7, codes "TRACE")
    ∷ (8, codes "COPY")
    ∷ (9, codes "LOCK")
    ∷ (10, codes "MKCOL")
    ∷ (11, codes "MOVE")
    ∷ (12, codes "PROPFIND")
    ∷ (13, codes "PROPPATCH")
    ∷ (14, codes "SEARCH")
    ∷ (15, codes "UNLOCK")
    ∷ (16, codes "BIND")
    ∷ (17, codes "REBIND")
    ∷ (18, codes "UNBIND")
    ∷ (19, codes "ACL")
    ∷ (20, codes "REPORT")
    ∷ (21, codes "MKACTIVITY")
    ∷ (22, codes "CHECKOUT")
    ∷ (23, codes "MERGE")
    ∷ (24, codes "M - SEARCH")
    ∷ (25, codes "NOTIFY")
    ∷ (26, codes "SUBSCRIBE")
    ∷ (27, codes "UNSUBSCRIBE")
    ∷ (28, codes "PATCH")
    ∷ (29, codes "PURGE")
    ∷ (30, codes "MKCALENDAR")
    ∷ (31, codes "LINK")
    ∷ (32, codes "UNLINK")
    ∷ (33, codes "SOURCE")
    ∷ []

abbrev pub invalid_method : ℕ
invalid_method = 34

-- HTTP_STATUS_MAP
abbrev pub http_status_map : List (ℕ × Text)
http_status_map =
    (100, codes "Continue")
    ∷ (101, codes "Switching Protocols")
    ∷ (102, codes "Processing")
    ∷ (200, codes "OK")
    ∷ (201, codes "Created")
    ∷ (202, codes "Accepted")
    ∷ (203, codes "Non - Authoritative Information")
    ∷ (204, codes "No Content")
    ∷ (205, codes "Reset Content")
    ∷ (206, codes "Partial Content")
    ∷ (207, codes "Multi - Status")
    ∷ (208, codes "Already Reported")
    ∷ (226, codes "IM Used")
    ∷ (300, codes "Multiple Choices")
    ∷ (301, codes "Moved Permanently")
    ∷ (302, codes "Found")
    ∷ (303, codes "See Other")
    ∷ (304, codes "Not Modified")
    ∷ (305, codes "Use Proxy")
    ∷ (307, codes "Temporary Redirect")
    ∷ (308, codes "Permanent Redirect")
    ∷ (400, codes "Bad Request")
    ∷ (401, codes "Unauthorized")
    ∷ (402, codes "Payment Required")
    ∷ (403, codes "Forbidden")
    ∷ (404, codes "Not Found")
    ∷ (405, codes "Method Not Allowed")
    ∷ (406, codes "Not Acceptable")
    ∷ (407, codes "Proxy Authentication Required")
    ∷ (408, codes "Request Timeout")
    ∷ (409, codes "Conflict")
    ∷ (410, codes "Gone")
    ∷ (411, codes "Length Required")
    ∷ (412, codes "Precondition Failed")
    ∷ (413, codes "Payload Too Large")
    ∷ (414, codes "URI Too Long")
    ∷ (415, codes "Unsupported Media Type")
    ∷ (416, codes "Range Not Satisfiable")
    ∷ (417, codes "Expectation Failed")
    ∷ (421, codes "Misdirected Request")
    ∷ (422, codes "Unprocessable Entity")
    ∷ (423, codes "Locked")
    ∷ (424, codes "Failed Dependency")
    ∷ (426, codes "Upgrade Required")
    ∷ (428, codes "Precondition Required")
    ∷ (429, codes "Too Many Requests")
    ∷ (431, codes "Request Header Fields Too Large")
    ∷ (451, codes "Unavailable For Legal Reasons")
    ∷ (500, codes "Internal Server Error")
    ∷ (501, codes "Not Implemented")
    ∷ (502, codes "Bad Gateway")
    ∷ (503, codes "Service Unavailable")
    ∷ (504, codes "Gateway Timeout")
    ∷ (505, codes "HTTP Version Not Supported")
    ∷ (506, codes "Variant Also Negotiates")
    ∷ (507, codes "Insufficient Storage")
    ∷ (508, codes "Loop Detected")
    ∷ (510, codes "Not Extended")
    ∷ (511, codes "Network Authentication Required")
    ∷ []

-- The macro-generated chain of tests: the number of the first row whose text passes.
unfoldable pub first_row : (Text → Bool) → List (ℕ × Text) → ℕ
first_row test [] = invalid_method
first_row test ((num, string) ∷ rows) = if test string then num else first_row test rows

-- StringToHttpMethod
unfoldable pub string_to_http_method : Text → ℕ
string_to_http_method m = first_row (λ string. same_text string (c_str m)) http_method_map

-- CharsToHttpMethod
unfoldable pub chars_to_http_method : Text → ℕ
chars_to_http_method m = first_row (λ string. starts_with string (c_str m)) http_method_map

-- HttpMethodToString
unfoldable pub http_method_to_string : ℕ → Text
http_method_to_string m = elim (get_elem? http_method_map m) [
  | none ↦ codes "<unknown>"
  | some row ↦ row.1
]

-- The switch over the codes.
unfoldable pub status_row : ℕ → List (ℕ × Text) → Text
status_row s [] = codes "<unknown>"
status_row s ((code, msg) ∷ rows) = if s == code then msg else status_row s rows

-- HttpStatusToString
unfoldable pub http_status_to_string : ℕ → Text
http_status_to_string s = status_row s http_status_map

-- What strcasecmp compares.
unfoldable pub to_lower : ℕ → ℕ
to_lower c = if leb b'A' c && leb c b'Z' then c + 32 else c
