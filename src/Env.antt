-- ===== src/Env.antt =====
-- include/env.h and src/env.cpp: the command line and its options; and from src/util.cpp the directory
-- and the name of a path. The path of the executable, which readlink gives, is an argument.
pub mod Arguments
pub mod Paths
mod Tests
use cor_reactor.Base.{
  ℕ, List, [], ◌∷◌, ◌++◌, Option, none, some, Bool, true, false, ◌==◌, if◌then◌else◌, codes,
  same_text,
}
use cor_reactor.Http.{Text}
use cor_reactor.Http.Messages.{Fields, or_default}
use cor_reactor.Address.{address_less}
use cor_reactor.OrderedMap
use cor_reactor.OrderedMap.{find, assign}

-- std::less<std::string> compares bytes, then lengths, as Address::operator< does.
abbrev pub string_less : Text → Text → Bool
string_less = address_less

pub record Env : Type 0 where
  pub exe : Text
  pub cwd : Text
  pub program : Text
  pub args : Fields
  pub helps : List (Text × Text)

-- Env::add, on the map
unfoldable pub add : Text → Text → Fields → Fields
add = assign string_less

unfoldable pub has : Env → Text → Bool
has e key = elim (find string_less key e.args) [ none ↦ false | some val ↦ true ]

unfoldable pub del : Env → Text → Env
del e key = record e { args = OrderedMap.erase string_less key e.args }

unfoldable pub get : Env → Text → Text → Text
get e key default_val = or_default (find string_less key e.args) default_val

-- removeHelp takes the first entry of the key away.
unfoldable pub remove_help : Text → List (Text × Text) → List (Text × Text)
remove_help key [] = []
remove_help key ((k, desc) ∷ helps) =
    let rest = remove_help key helps in if same_text k key then helps else (k, desc) ∷ rest

unfoldable pub add_help : Env → Text → Text → Env
unfolding remove_help
add_help e key desc = record e { helps = remove_help key e.helps ++ ((key, desc) ∷ []) }

-- `if (now_key) add(now_key, "")`
unfoldable pub flush : Option Text → Fields → Fields
unfolding add
flush none m = m
flush (some key) m = add key [] m

-- An argument that is no option: the value of the key that waits, or `none` for an error.
unfoldable pub take_value : Option Text → Fields → Text → Option (Option Text × Fields)
unfolding add
take_value none m val = none
take_value (some key) m val = some (none, add key val m)

-- An option without its dash.
unfoldable pub take_key : Option Text → Fields → Text → Option (Option Text × Fields)
unfolding flush
take_key now m [] = none
take_key now m (c ∷ key) = some (some (c ∷ key), flush now m)

unfoldable pub take_arg : Option Text → Fields → Text → Option (Option Text × Fields)
unfolding take_value take_key
take_arg now m [] = take_value now m []
take_arg now m (c ∷ s) = if c == b'-' then take_key now m s else take_value now m (c ∷ s)

-- The loop of init over the arguments: whether it ended well, and the options.
unfoldable pub take_args : Option Text → Fields → List Text → Bool × Fields
unfolding flush take_arg
take_args now m [] = (true, flush now m)
take_args now m (arg ∷ argv) = elim (take_arg now m arg) [
  | none ↦ (false, m)
  | some r ↦ take_args r.0 r.1 argv
]

-- rfind('/'): what stands before and behind the last slash.
unfoldable pub extend_split : ℕ → Text → Option (Text × Text) → Option (Text × Text)
extend_split c s none = if c == b'/' then some ([], s) else none
extend_split c s (some (before, behind)) = some (c ∷ before, behind)

unfoldable pub split_last : Text → Option (Text × Text)
unfolding extend_split
split_last [] = none
split_last (c ∷ s) = extend_split c s (split_last s)

-- `m_exe.substr(0, pos) + "/"`, where the whole path is taken when there is no slash
unfoldable pub cwd_of : Text → Text
unfolding split_last
cwd_of exe = elim (split_last exe) [ none ↦ exe ++ codes "/" | some p ↦ p.0 ++ codes "/" ]

-- Env::init, with the name of the program and its arguments
unfoldable pub init : Env → Text → Text → List Text → Bool × Env
unfolding cwd_of take_args
init e path program argv =
    let r = take_args none e.args argv in
    (r.0, record e { exe = path; cwd = cwd_of path; program = program; args = r.1 })

-- getAbsolutePath
unfoldable pub get_absolute_path : Env → Text → Text
get_absolute_path e [] = codes "/"
get_absolute_path e (c ∷ path) = if c == b'/' then c ∷ path else e.cwd ++ (c ∷ path)

-- FSUtil::Dirname
unfoldable pub dirname_of : Option (Text × Text) → Text
dirname_of none = codes "."
dirname_of (some ([], name)) = codes "/"
dirname_of (some (c ∷ dir, name)) = c ∷ dir

unfoldable pub dirname : Text → Text
unfolding split_last dirname_of
dirname filename = dirname_of (split_last filename)

-- FSUtil::Basename
unfoldable pub name_of : Text → Option (Text × Text) → Text
name_of filename none = filename
name_of filename (some (dir, name)) = name

unfoldable pub basename : Text → Text
unfolding split_last name_of
basename filename = name_of filename (split_last filename)
