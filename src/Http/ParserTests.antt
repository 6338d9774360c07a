-- ===== src/Http/ParserTests.antt =====
-- Runs of the parsers' callbacks, and their theorems at concrete runs.
use cor_reactor.Base.{
  ℕ, suc, ◌≤◌, ◌<◌, ◌≡◌, refl, ◌↔◌, inr, List, [], ◌∷◌, true, false, All, codes, length, min, take,
  ok, fail, assertion, c_str, same_text, starts_with, arith,
}
use cor_reactor.Http.{Text, chars_to_http_method, first_row}
use cor_reactor.Http.Messages.{HttpRequest}
use cor_reactor.Http.Parser.{
  RequestEvent, request_version, request_method, ResponseEvent, status_code, response_field,
  response_version, Ragel, on_request, on_response, on_request_version, on_request_method,
  on_response_status, on_response_http_field, on_response_version, strncmp_zero, atoi, handle_all,
  new_request, new_response, execute,
}
use cor_reactor.Http.Parsing.{
  IsAccepted, handle_all-IsAccepted, request_events, parsed_of, handle_all-request_events,
}
use cor_reactor.Http.Consuming.{IsTolerated, handle_all-IsTolerated, StopsInside, execute_lem}

abbrev refused : List RequestEvent
refused = request_version (codes "HTTP/2.0") 8 ∷ request_method (codes "GET /") 3 ∷ []

-- The method that follows does not clear the error of the version.
refused_run : (handle_all on_request refused new_request).error ≡ 1001
unfolding handle_all on_request on_request_version on_request_method strncmp_zero same_text c_str
    chars_to_http_method first_row starts_with
refused_run = refl

-- As few characters as the callback is told to compare are enough.
short_version : strncmp_zero (codes "HTTP/1x") (codes "HTTP/1.1") 6 ≡ true
unfolding strncmp_zero same_text c_str
short_version = refl

abbrev answered : List ResponseEvent
answered =
    response_version (codes "HTTP/1.0 200 OK") 8
    ∷ status_code (codes "204 No Content") 3
    ∷ response_field (codes ":x") 0 (codes "x") 1
    ∷ []

answered_run :
    handle_all on_response answered new_response
    ≡ record { error = 0; message = record new_response.message { version = 16; status = 204 } }
unfolding handle_all on_response on_response_version on_response_status on_response_http_field
    strncmp_zero same_text c_str atoi
answered_run = refl

abbrev request : HttpRequest
request = record {
  method = 3;
  version = 16;
  close = false;
  websocket = false;
  path = codes "/a";
  query = codes "q";
  fragment = [];
  body = codes "body";
  headers = (codes "Host", codes "h") ∷ [];
  params = [];
  cookies = [];
}

handle_all-IsAccepted_example :
    ((handle_all on_request refused new_request).error ≡ 0) ↔ All IsAccepted refused
handle_all-IsAccepted_example = handle_all-IsAccepted refused

handle_all-IsTolerated_example :
    ((handle_all on_response answered new_response).error ≡ 0) ↔ All IsTolerated answered
handle_all-IsTolerated_example = handle_all-IsTolerated answered

handle_all-request_events_example :
    handle_all on_request (request_events (codes "\r\n") request) new_request
    ≡ record { error = 0; message = parsed_of request }
handle_all-request_events_example =
    handle_all-request_events request (codes "\r\n") (omega arith) (inr refl) (tt, tt)
      (omega arith, tt)

-- Generated code that reads a line of two bytes as the version.
abbrev two_bytes : Ragel ℕ RequestEvent
two_bytes = record {
  init = 0;
  run = λ s text. (request_version text 2 ∷ [], min 2 (length text), suc s);
  finish = λ s. 0;
  has_error = λ s. false;
  sound = λ s len. true;
  marked = λ s len. true;
  has_body = λ s. false;
}

two_bytes-StopsInside : StopsInside two_bytes
two_bytes-StopsInside s text = omega arith

-- The second run on what is left of "HTTPrest" reads "TP", and moves "st" to the start of the buffer.
execute_lem_example :
    (4 ≤ 6
      → true ≡ true
      → (left : Text) × (execute two_bytes on_request (codes "TPrest") 6 new_request (2, 1)
          ≡ ok (
            left,
            4,
            handle_all on_request (request_version (codes "TPrest") 2 ∷ []) new_request,
            (4, 2),
          ))
        × (take 2 left ≡ codes "st")
        × (length left ≡ 6))
    × (6 < 4 → execute two_bytes on_request (codes "TPrest") 6 new_request (2, 1) ≡ fail assertion)
execute_lem_example =
    execute_lem two_bytes on_request (codes "TPrest") 6 2 new_request 1 two_bytes-StopsInside
      (omega arith) (omega arith)
