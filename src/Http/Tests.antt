-- ===== src/Http/Tests.antt =====
-- Runs of the HTTP messages, and the theorems at concrete messages.
use cor_reactor.Base.{
  ℕ, ◌≡◌, refl, [], ◌∷◌, ◌++◌, Option, some, true, false, codes, c_str, same_text, starts_with,
  length, arith,
}
use cor_reactor.Http.{
  Text, first_row, to_lower, status_row, http_status_to_string, string_to_http_method,
  chars_to_http_method, http_method_to_string,
}
use cor_reactor.Http.CaseOrder.{case_insensitive_less, casecmp_less}
use cor_reactor.Http.Messages.{HttpRequest, HttpResponse}
use cor_reactor.Http.Headers.{IsValid}
use cor_reactor.Http.Dump.{dump_request, dump_response, crlf}
use cor_reactor.Http.Clean.{no_cr}
use cor_reactor.Http.Framing.{read_head}
use cor_reactor.Http.Lines.{field_lines, connection_lines, length_lines}
use cor_reactor.Http.Reading.{request_lines, read_head-dump_request}

get_is_one : string_to_http_method (codes "GET") ≡ 1
unfolding string_to_http_method first_row same_text c_str
get_is_one = refl

-- The macro turns M - SEARCH into a text with blanks, so the method of UPnP is not known.
msearch_unknown : string_to_http_method (codes "M-SEARCH") ≡ 34
unfolding string_to_http_method first_row same_text c_str
msearch_unknown = refl

prefix_is_enough : chars_to_http_method (codes "GETX") ≡ 1
unfolding chars_to_http_method first_row starts_with c_str
prefix_is_enough = refl

abbrev host : Text
host = codes "Host"

abbrev upper_host : Text
upper_host = codes "HOST"

abbrev sample : HttpRequest
sample = record {
  method = 1;
  version = 17;
  close = true;
  websocket = false;
  path = codes "/a";
  query = codes "q";
  fragment = [];
  body = codes "body";
  headers = (host, codes "h") ∷ [];
  params = [];
  cookies = [];
}

abbrev response : HttpResponse
response = record {
  status = 404;
  version = 17;
  close = false;
  websocket = false;
  body = [];
  reason = [];
  headers = (codes "Connection", codes "x") ∷ (host, codes "h") ∷ [];
}

dumped_request :
    dump_request sample
    ≡ codes "GET /a?q HTTP/1.1"
      ++ crlf
      ++ codes "connection: close"
      ++ crlf
      ++ codes "Host:h"
      ++ crlf
      ++ codes "content-length: 4"
      ++ crlf
      ++ crlf
      ++ codes "body"
unfolding dump_request http_method_to_string case_insensitive_less casecmp_less c_str to_lower
dumped_request = refl

dumped_response :
    dump_response response
    ≡ codes "HTTP/1.1 404 Not Found"
      ++ crlf
      ++ codes "Host: h"
      ++ crlf
      ++ codes "connection: keep-alive"
      ++ crlf
      ++ crlf
unfolding dump_response http_status_to_string status_row case_insensitive_less casecmp_less c_str
    to_lower
dumped_response = refl

sample-IsValid : IsValid sample
sample-IsValid = record { headers = (tt, tt); params = tt; cookies = tt }

cast_length : Text → Option ℕ
cast_length s = some (length s)

read_head-dump_request_example :
    read_head 5 (dump_request sample) ≡ (request_lines sample, sample.body)
unfolding request_lines no_cr field_lines connection_lines length_lines case_insensitive_less
    casecmp_less c_str to_lower
read_head-dump_request_example =
    read_head-dump_request sample 5 refl refl refl ((refl, refl), tt) (omega arith)
