-- ===== src/Http/Headers.antt =====
-- Headers, parameters and cookies: what is read after they are set and deleted.
use cor_reactor.Base.{ℕ, ◌≡◌, refl, ap, ◌∙◌, Option, none, some, Bool, true, false, if◌then◌else◌}
use cor_reactor.Http.{Text}
use cor_reactor.Http.CaseOrder.{case_insensitive_less, case_insensitive_less-IsStrictWeak}
use cor_reactor.OrderedMap.{
  equivalent, IsSorted, find-assign, find-erase, assign-IsSorted, erase-IsSorted,
}
use cor_reactor.Http.Messages.{
  HttpRequest, http_request, Fields, find_field, set_field, del_field, or_default, get_header,
  get_param, get_cookie, set_header, set_param, set_cookie, del_header, del_param, del_cookie,
  cast_or, check_get_as, get_as, check_get_param_as, get_param_as, check_get_cookie_as,
  get_cookie_as,
}

-- The same key but for the case of letters.
abbrev pub same_key : Text → Text → Bool
same_key = equivalent case_insensitive_less

-- The maps of a request are in the order of their comparator.
pub record IsValid (r : HttpRequest) : Type 0 where
  pub headers : IsSorted case_insensitive_less r.headers
  pub params : IsSorted case_insensitive_less r.params
  pub cookies : IsSorted case_insensitive_less r.cookies

or_default-if :
    (b : Bool) (o p : Option Text) (def : Text)
    → or_default (if b then o else p) def ≡ (if b then or_default o def else or_default p def)
or_default-if true o p def = refl
or_default-if false o p def = refl

read-set_field :
    (j key val def : Text) (m : Fields)
    → or_default (find_field j (set_field key val m)) def
      ≡ (if same_key key j then val else or_default (find_field j m) def)
unfolding or_default
read-set_field j key val def m =
    ap (λ o. or_default o def)
      (find-assign case_insensitive_less case_insensitive_less-IsStrictWeak j key val m)
    ∙ or_default-if (same_key key j) (some val) (find_field j m) def

read-del_field :
    (j key def : Text) (m : Fields)
    → IsSorted case_insensitive_less m
    → or_default (find_field j (del_field key m)) def
      ≡ (if same_key key j then def else or_default (find_field j m) def)
unfolding or_default
read-del_field j key def m s =
    ap (λ o. or_default o def)
      (find-erase case_insensitive_less case_insensitive_less-IsStrictWeak j key m s)
    ∙ or_default-if (same_key key j) none (find_field j m) def

-- A header, parameter or cookie that was set is read back under its key in any case, and the other
-- keys read as before.
pub get_header-set_header :
    (r : HttpRequest) (key val j def : Text)
    → (get_header (set_header r key val) j def
        ≡ (if same_key key j then val else get_header r j def))
      × (get_param (set_param r key val) j def
          ≡ (if same_key key j then val else get_param r j def))
      × (get_cookie (set_cookie r key val) j def
          ≡ (if same_key key j then val else get_cookie r j def))
unfolding get_header set_header get_param set_param get_cookie set_cookie or_default
get_header-set_header r key val j def =
    let read = read-set_field j key val def in (read r.headers, read r.params, read r.cookies)

-- On a valid request, a header, parameter or cookie that was deleted under its key in any case reads
-- as the default, and the other keys read as before.
pub get_header-del_header :
    (r : HttpRequest) (key j def : Text)
    → IsValid r
    → (get_header (del_header r key) j def ≡ (if same_key key j then def else get_header r j def))
      × (get_param (del_param r key) j def ≡ (if same_key key j then def else get_param r j def))
      × (get_cookie (del_cookie r key) j def ≡ (if same_key key j then def else get_cookie r j def))
unfolding get_header del_header get_param del_param get_cookie del_cookie or_default
get_header-del_header r key j def v =
    let read = read-del_field j key def in
    (read r.headers v.headers, read r.params v.params, read r.cookies v.cookies)

-- A new request is valid, and each member that sets or deletes a header, a parameter or a cookie
-- keeps a valid request valid.
pub request-IsValid :
    (r : HttpRequest) (version : ℕ) (close : Bool) (key val : Text)
    → IsValid r
    → IsValid (http_request version close)
      × IsValid (set_header r key val)
      × IsValid (set_param r key val)
      × IsValid (set_cookie r key val)
      × IsValid (del_header r key)
      × IsValid (del_param r key)
      × IsValid (del_cookie r key)
unfolding http_request set_header set_param set_cookie del_header del_param del_cookie
request-IsValid r version close key val v =
    let put = assign-IsSorted case_insensitive_less case_insensitive_less-IsStrictWeak key val in
    let drop = erase-IsSorted case_insensitive_less case_insensitive_less-IsStrictWeak key in
    (
      record { headers = tt; params = tt; cookies = tt },
      record { headers = put r.headers v.headers; params = v.params; cookies = v.cookies },
      record { headers = v.headers; params = put r.params v.params; cookies = v.cookies },
      record { headers = v.headers; params = v.params; cookies = put r.cookies v.cookies },
      record { headers = drop r.headers v.headers; params = v.params; cookies = v.cookies },
      record { headers = v.headers; params = drop r.params v.params; cookies = v.cookies },
      record { headers = v.headers; params = v.params; cookies = drop r.cookies v.cookies },
    )

-- The typed readers of parameters and cookies do not see them: where no header has the key, a
-- parameter and a cookie that were just set read as absent, whatever lexical_cast makes of them.
pub get_param_as-set_param {ℓ} :
    {T : Type ℓ} (lexical_cast : Text → Option T) (r : HttpRequest) (key val : Text) (def : T)
    → find_field key r.headers ≡ none
    → (check_get_param_as lexical_cast (set_param r key val) key def ≡ (false, def))
      × (get_param_as lexical_cast (set_param r key val) key def ≡ def)
      × (check_get_cookie_as lexical_cast (set_cookie r key val) key def ≡ (false, def))
      × (get_cookie_as lexical_cast (set_cookie r key val) key def ≡ def)
unfolding check_get_param_as get_param_as check_get_cookie_as get_cookie_as check_get_as get_as
    cast_or set_param set_cookie
get_param_as-set_param lexical_cast r key val def h = (
  ap (λ o. cast_or lexical_cast o def) h,
  ap (λ o. (cast_or lexical_cast o def).1) h,
  ap (λ o. cast_or lexical_cast o def) h,
  ap (λ o. (cast_or lexical_cast o def).1) h,
)
