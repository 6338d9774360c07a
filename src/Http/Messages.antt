-- ===== src/Http/Messages.antt =====
-- HttpRequest and HttpResponse: their fields and the members that read and change them.
use cor_reactor.Base.{ℕ, List, [], Option, none, some, Bool, true, false, codes}
use cor_reactor.Http.{Text}
use cor_reactor.Http.CaseOrder.{case_insensitive_less}
use cor_reactor.OrderedMap
use cor_reactor.OrderedMap.{find, assign}

-- MapType
abbrev pub Fields : Type 0
Fields = List (Text × Text)

pub record HttpRequest : Type 0 where
  pub method : ℕ
  pub version : ℕ
  pub close : Bool
  pub websocket : Bool
  pub path : Text
  pub query : Text
  pub fragment : Text
  pub body : Text
  pub headers : Fields
  pub params : Fields
  pub cookies : Fields

pub record HttpResponse : Type 0 where
  pub status : ℕ
  pub version : ℕ
  pub close : Bool
  pub websocket : Bool
  pub body : Text
  pub reason : Text
  pub headers : Fields

-- HttpRequest::HttpRequest, with HttpMethod::GET
unfoldable pub http_request : ℕ → Bool → HttpRequest
http_request version close = record {
  method = 1;
  version = version;
  close = close;
  websocket = false;
  path = codes "/";
  query = [];
  fragment = [];
  body = [];
  headers = [];
  params = [];
  cookies = [];
}

-- HttpResponse::HttpResponse, with HttpStatus::OK
unfoldable pub http_response : ℕ → Bool → HttpResponse
http_response version close = record {
  status = 200;
  version = version;
  close = close;
  websocket = false;
  body = [];
  reason = [];
  headers = [];
}

-- createResponse
unfoldable pub create_response : HttpRequest → HttpResponse
create_response r = http_response r.version r.close

-- The operations on one of the maps.
abbrev pub find_field : Text → Fields → Option Text
find_field = find case_insensitive_less

abbrev pub set_field : Text → Text → Fields → Fields
set_field = assign case_insensitive_less

abbrev pub del_field : Text → Fields → Fields
del_field = OrderedMap.erase case_insensitive_less

unfoldable pub or_default {ℓ} : {A : Type ℓ} → Option A → A → A
or_default none def = def
or_default (some a) def = a

-- What hasHeader and its kin return and leave in *val.
unfoldable pub found_or : Option Text → Text → Bool × Text
found_or none val = (false, val)
found_or (some a) val = (true, a)

unfoldable pub get_header : HttpRequest → Text → Text → Text
get_header r key def = or_default (find_field key r.headers) def

unfoldable pub get_param : HttpRequest → Text → Text → Text
get_param r key def = or_default (find_field key r.params) def

unfoldable pub get_cookie : HttpRequest → Text → Text → Text
get_cookie r key def = or_default (find_field key r.cookies) def

unfoldable pub set_header : HttpRequest → Text → Text → HttpRequest
set_header r key val = record r { headers = set_field key val r.headers }

unfoldable pub set_param : HttpRequest → Text → Text → HttpRequest
set_param r key val = record r { params = set_field key val r.params }

unfoldable pub set_cookie : HttpRequest → Text → Text → HttpRequest
set_cookie r key val = record r { cookies = set_field key val r.cookies }

unfoldable pub del_header : HttpRequest → Text → HttpRequest
del_header r key = record r { headers = del_field key r.headers }

unfoldable pub del_param : HttpRequest → Text → HttpRequest
del_param r key = record r { params = del_field key r.params }

unfoldable pub del_cookie : HttpRequest → Text → HttpRequest
del_cookie r key = record r { cookies = del_field key r.cookies }

unfoldable pub has_header : HttpRequest → Text → Text → Bool × Text
has_header r key val = found_or (find_field key r.headers) val

unfoldable pub has_param : HttpRequest → Text → Text → Bool × Text
has_param r key val = found_or (find_field key r.params) val

unfoldable pub has_cookie : HttpRequest → Text → Text → Bool × Text
has_cookie r key val = found_or (find_field key r.cookies) val

-- The members of HttpResponse.
unfoldable pub get_response_header : HttpResponse → Text → Text → Text
get_response_header r key def = or_default (find_field key r.headers) def

unfoldable pub set_response_header : HttpResponse → Text → Text → HttpResponse
set_response_header r key val = record r { headers = set_field key val r.headers }

unfoldable pub del_response_header : HttpResponse → Text → HttpResponse
del_response_header r key = record r { headers = del_field key r.headers }

-- The typed readers: boost::lexical_cast is an argument, with `none` where it throws.
module _ {ℓ} {T : Type ℓ} (lexical_cast : Text → Option T) where
  unfoldable pub cast_or : Option Text → T → Bool × T
  cast_or none def = (false, def)
  cast_or (some text) def = elim (lexical_cast text) [ none ↦ (false, def) | some t ↦ (true, t) ]

  unfoldable pub check_get_as : Fields → Text → T → Bool × T
  check_get_as m key def = cast_or (find_field key m) def

  unfoldable pub get_as : Fields → Text → T → T
  unfolding cast_or
  get_as m key def = (cast_or (find_field key m) def).1

  unfoldable pub check_get_header_as : HttpRequest → Text → T → Bool × T
  check_get_header_as r key def = check_get_as r.headers key def

  unfoldable pub get_header_as : HttpRequest → Text → T → T
  get_header_as r key def = get_as r.headers key def

  unfoldable pub check_get_param_as : HttpRequest → Text → T → Bool × T
  check_get_param_as r key def = check_get_as r.headers key def

  unfoldable pub get_param_as : HttpRequest → Text → T → T
  get_param_as r key def = get_as r.headers key def

  unfoldable pub check_get_cookie_as : HttpRequest → Text → T → Bool × T
  check_get_cookie_as r key def = check_get_as r.headers key def

  unfoldable pub get_cookie_as : HttpRequest → Text → T → T
  get_cookie_as r key def = get_as r.headers key def
