-- ===== src/Env/Arguments.antt =====
-- What init makes of a command line.
use cor_reactor.Base.{
  ◌≡◌, refl, ap, ◌∙◌, List, [], ◌∷◌, ◌++◌, Option, none, some, Bool, true, false, not, ◌==◌, All,
  arith,
}
use cor_reactor.Http.{Text}
use cor_reactor.Http.Messages.{Fields}
use cor_reactor.Http.Messages.{or_default}
use cor_reactor.OrderedMap.{find, find-assign, equivalent}
use cor_reactor.Address.Order.{address_less-IsStrictWeak}
use cor_reactor.Env.{
  Env, init, get, has, string_less, add, flush, take_value, take_key, take_arg, take_args,
}

-- An option with its value, if it has one.
abbrev pub Entry : Type 0
Entry = Text × Option Text

abbrev pub is_value : Text → Bool
is_value [] = true
is_value (c ∷ s) = not (c == b'-')

abbrev pub is_name : Text → Bool
is_name [] = false
is_name (c ∷ s) = true

-- A name that is not empty, and a value that is not taken for an option.
abbrev pub IsEntry : Entry → Type 0
IsEntry (key, none) = is_name key ≡ true
IsEntry (key, some val) = (is_name key ≡ true) × (is_value val ≡ true)

-- The words that one types, and the options that are meant: later ones replace earlier ones.
abbrev pub words : List Entry → List Text
words [] = []
words ((key, none) ∷ es) = (b'-' ∷ key) ∷ words es
words ((key, some val) ∷ es) = (b'-' ∷ key) ∷ val ∷ words es

abbrev pub entered : List Entry → Fields → Fields
entered [] m = m
entered ((key, none) ∷ es) m = entered es (add key [] m)
entered ((key, some val) ∷ es) m = entered es (add key val m)

take_arg-key :
    (now : Option Text) (m : Fields) (key : Text)
    → is_name key ≡ true
    → take_arg now m (b'-' ∷ key) ≡ some (some key, flush now m)
unfolding take_arg take_key
take_arg-key now m [] h = cc h
take_arg-key now m (c ∷ key) h = refl

take_arg-value :
    (key : Text) (m : Fields) (val : Text)
    → is_value val ≡ true
    → take_arg (some key) m val ≡ some (none, add key val m)
unfolding take_arg take_value
take_arg-value key m [] h = refl
take_arg-value key m (c ∷ s) h = ground arith

find-add : (key val : Text) (m : Fields) → find string_less key (add key val m) ≡ some val
unfolding add
find-add key val m =
    find-assign string_less (address_less-IsStrictWeak).0 key key val m
    ∙ (let q : equivalent string_less key key ≡ true =
          ((address_less-IsStrictWeak).1 key key).1.1 refl in
        rw q refl)

take_args-words_lem :
    (es : List Entry) (now : Option Text) (m : Fields)
    → All IsEntry es
    → take_args now m (words es) ≡ (true, entered es (flush now m))
unfolding take_args flush
take_args-words_lem [] now m h = refl
take_args-words_lem ((key, none) ∷ es) now m (k, h) =
    rw (take_arg-key now m key k, take_args) (take_args-words_lem es (some key) (flush now m) h)
take_args-words_lem ((key, some val) ∷ es) now m ((k, v), h) =
    rw (take_arg-key now m key k, take_args)
      (rw (take_arg-value key (flush now m) val v)
        (take_args-words_lem es none (add key val (flush now m)) h))

-- A command line of options, each with a name and perhaps a value that does not start with a dash, is
-- taken as it is meant: an option without a value is empty, and a later one replaces an earlier one.
pub take_args-words :
    (es : List Entry) (m : Fields)
    → All IsEntry es
    → take_args none m (words es) ≡ (true, entered es m)
unfolding flush
take_args-words es m h = take_args-words_lem es none m h

entered-append :
    (es : List Entry) (key val : Text) (m : Fields)
    → entered (es ++ ((key, some val) ∷ [])) m ≡ add key val (entered es m)
entered-append [] key val m = refl
entered-append ((k, none) ∷ es) key val m = entered-append es key val (add k [] m)
entered-append ((k, some v) ∷ es) key val m = entered-append es key val (add k v m)

-- After init of a command line of options that ends with `-key val`, `get` returns the value for the
-- key, and `has` says that it is there.
pub get-init :
    (e : Env) (path program key val def : Text) (es : List Entry)
    → All IsEntry (es ++ ((key, some val) ∷ []))
    → let r = init e path program (words (es ++ ((key, some val) ∷ []))) in
      (r.0 ≡ true) × (get r.1 key def ≡ val) × (has r.1 key ≡ true)
unfolding init get has or_default
get-init e path program key val def es h =
    let argv = es ++ ((key, some val) ∷ []) in
    let q : take_args none e.args (words argv) ≡ (true, add key val (entered es e.args)) =
      take_args-words argv e.args h ∙ ap (λ m. (true, m)) (entered-append es key val e.args) in
    let f = find-add key val (entered es e.args) in
    (
      ap (λ r. r.0) q,
      ap (λ r. or_default (find string_less key r.1) def) q ∙ ap (λ o. or_default o def) f,
      ap (λ r. elim (find string_less key r.1) [ none ↦ false | some v ↦ true ]) q
          ∙ ap (λ o. elim o [ none ↦ false | some v ↦ true ]) f,
    )
