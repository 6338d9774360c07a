-- ===== src/Config.antt =====
-- include/config.h and src/config.cpp: configuration variables and what a YAML document sets.
-- The values of all types are one type V, and a type T of the program is a number, the `kind`. What
-- boost::lexical_cast and the YAML library convert, and operator== of the values, are the operations
-- of `Kinds`; `none` is an exception. A variable is never removed or replaced once it is found, so
-- its name stands for the shared pointer. A listener is a number, and setValue returns its calls. A
-- document is a tree, in which a node that is not a scalar carries the text that `<<` prints. The
-- public calls hold the lock of the variable or of the table.
pub mod Listing
pub mod Loading
pub mod Variables
mod Tests
use mathlib.Core.List.{map}
use cor_reactor.Base.{
  ℕ, suc, ◌+◌, ◌%◌, ◌^◌, List, [], ◌∷◌, ◌++◌, Option, none, some, Bool, true, false, ◌&&◌, ◌||◌,
  ltb, leb, ◌==◌, if◌then◌else◌, codes, same_text, Result, ok, check, ◌>>◌,
}
use cor_reactor.OrderedMap.{find, assign, erase}

pub record Kinds (V : Type 0) : Type 0 where
  pub from_text : ℕ → List ℕ → Option V
  pub to_text : ℕ → V → Option (List ℕ)
  pub same : V → V → Bool

-- ConfigVarBase and ConfigVar
pub record ConfigVar (V : Type 0) : Type 0 where
  pub name : List ℕ
  pub description : List ℕ
  pub kind : ℕ
  pub value : V
  pub listeners : List (ℕ × ℕ)

-- A call of a listener, with the old and the new value.
pub record Change (V : Type 0) : Type 0 where
  pub listener : ℕ
  pub old : V
  pub new : V

-- tolower in the C locale
abbrev pub to_lower : ℕ → ℕ
to_lower c = if leb 65 c && leb c 90 then c + 32 else c

-- A byte of a set, and a text of such bytes: `find_first_not_of(set) == npos`.
unfoldable pub is_in : ℕ → List ℕ → Bool
is_in c [] = false
is_in c (b ∷ bs) = (c == b) || is_in c bs

unfoldable pub all_in : List ℕ → List ℕ → Bool
unfolding is_in
all_in [] set = true
all_in (c ∷ cs) set = is_in c set && all_in cs set

-- The bytes of names in Create, and in ListAllMember.
abbrev pub name_bytes : List ℕ
name_bytes = codes "0123456789abcdefghijklmnopqrstuvwxyz_."

abbrev pub prefix_bytes : List ℕ
prefix_bytes = codes "abcdefghikjlmnopqrstuvwxyz._012345678"

-- YAML::Node
mutual
  pub data Node : Type 0 where
    scalar : List ℕ → Node
    mapping : Members → List ℕ → Node
    other : List ℕ → Node

  pub data Members : Type 0 where
    no_more : Members
    member : List ℕ → Node → Members → Members

abbrev pub is_nothing : List ℕ → Bool
is_nothing [] = true
is_nothing (c ∷ cs) = false

-- `prefix.empty() ? key : prefix + "." + key`
unfoldable pub joined : List ℕ → List ℕ → List ℕ
joined [] key = key
joined (c ∷ cs) key = (c ∷ cs) ++ (codes "." ++ key)

unfoldable pub listed_if : {A : Type 0} → Bool → List A → List A
listed_if true l = l
listed_if false l = []

-- ListAllMember, and its loop over the members of a mapping.
unfoldable mutual
  unfolding all_in joined listed_if

  pub list_all_member : List ℕ → Node → List (List ℕ × Node)
  list_all_member prefix (scalar t) =
      listed_if (all_in prefix prefix_bytes) ((prefix, scalar t) ∷ [])
  list_all_member prefix (other t) = listed_if (all_in prefix prefix_bytes) ((prefix, other t) ∷ [])
  list_all_member prefix (mapping ms t) =
      listed_if (all_in prefix prefix_bytes) ((prefix, mapping ms t) ∷ list_members prefix ms)

  pub list_members : List ℕ → Members → List (List ℕ × Node)
  list_members prefix no_more = []
  list_members prefix (member key node ms) =
      list_all_member (joined prefix key) node ++ list_members prefix ms

-- The text that LoadFromYaml hands to fromString.
unfoldable pub text_of : Node → List ℕ
text_of (scalar t) = t
text_of (mapping ms t) = t
text_of (other t) = t

module _ {V : Type 0} (kinds : Kinds V) where
  -- ConfigVar's constructor
  unfoldable pub config_var : List ℕ → ℕ → V → List ℕ → ConfigVar V
  config_var name kind value description = record {
    name = map to_lower name;
    description = description;
    kind = kind;
    value = value;
    listeners = [];
  }

  -- setValue
  unfoldable pub set_value : ConfigVar V → V → ConfigVar V × List (Change V)
  set_value x v = if kinds.same v x.value then (x, []) else (
    record x { value = v },
    map (λ l. record { listener = l.1; old = x.value; new = v }) x.listeners,
  )

  -- fromString
  unfoldable pub from_string : ConfigVar V → List ℕ → ConfigVar V × (List (Change V) × Bool)
  unfolding set_value
  from_string x t = elim (kinds.from_text x.kind t) [
    | none ↦ (x, ([], false))
    | some v ↦ let (x', changes) = set_value x v in (x', (changes, true))
  ]

  -- toString
  unfoldable pub to_string : ConfigVar V → List ℕ
  to_string x = elim (kinds.to_text x.kind x.value) [ none ↦ [] | some t ↦ t ]

  -- addListener, with the last number that was given.
  unfoldable pub add_listener : ℕ → ConfigVar V → ℕ → ℕ × ConfigVar V
  add_listener last x cb =
      let id = (last + 1) % 2 ^ 64 in (id, record x { listeners = assign ltb id cb x.listeners })

  -- delListener, getListener and clearListener
  unfoldable pub del_listener : ConfigVar V → ℕ → ConfigVar V
  del_listener x key = record x { listeners = erase ltb key x.listeners }

  unfoldable pub get_listener : ConfigVar V → ℕ → Option ℕ
  get_listener x key = find ltb key x.listeners

  unfoldable pub clear_listener : ConfigVar V → ConfigVar V
  clear_listener x = record x { listeners = [] }

  -- LookupBase, on s_datas.
  unfoldable pub lookup_base : List ℕ → List (List ℕ × ConfigVar V) → Option (ConfigVar V)
  lookup_base name [] = none
  lookup_base name ((key, x) ∷ datas) =
      let rest = lookup_base name datas in if same_text key name then some x else rest

  -- `s_datas[name] = v`, and a change of the variable at the name.
  unfoldable pub put_var :
      List ℕ → ConfigVar V → List (List ℕ × ConfigVar V) → List (List ℕ × ConfigVar V)
  put_var name x [] = (name, x) ∷ []
  put_var name x ((key, y) ∷ datas) =
      let rest = put_var name x datas in
      if same_text key name then (key, x) ∷ datas else (key, y) ∷ rest

  -- dynamic_pointer_cast to the type of a kind
  unfoldable pub cast : ℕ → Option (ConfigVar V) → Option (ConfigVar V)
  cast kind none = none
  cast kind (some x) = if x.kind == kind then some x else none

  -- Lookup
  unfoldable pub lookup : List ℕ → ℕ → List (List ℕ × ConfigVar V) → Option (ConfigVar V)
  unfolding lookup_base cast
  lookup name kind datas = cast kind (lookup_base name datas)

  -- Create
  unfoldable pub create :
      List (List ℕ × ConfigVar V)
      → List ℕ
      → ℕ
      → V
      → List ℕ
      → Result (List (List ℕ × ConfigVar V) × Option (ConfigVar V))
  unfolding lookup_base cast config_var put_var all_in
  create datas name kind value description = elim (lookup_base name datas) [
    | some x ↦ ok (datas, cast kind (some x))
    | none ↦
        let x = config_var name kind value description in
        check (all_in name name_bytes) >> ok (put_var name x datas, some x)
  ]

  set_found :
      List ℕ
      → List ℕ
      → List (List ℕ × ConfigVar V)
      → Option (ConfigVar V)
      → List (List ℕ × ConfigVar V) × List (Change V)
  unfolding from_string put_var
  set_found name t datas none = (datas, [])
  set_found name t datas (some x) =
      let (x', (changes, done)) = from_string x t in (put_var name x' datas, changes)

  -- One node of LoadFromYaml.
  unfoldable pub load_node :
      List (List ℕ × ConfigVar V) → List ℕ × Node → List (List ℕ × ConfigVar V) × List (Change V)
  unfolding set_found lookup_base text_of
  load_node datas (key, node) =
      if is_nothing key
      then (datas, [])
      else (let name = map to_lower key in
          set_found name (text_of node) datas (lookup_base name datas))

  unfoldable pub load_nodes :
      List (List ℕ × ConfigVar V)
      → List (List ℕ × Node)
      → List (List ℕ × ConfigVar V) × List (Change V)
  unfolding load_node
  load_nodes datas [] = (datas, [])
  load_nodes datas (e ∷ es) =
      let (datas', changes) = load_node datas e in
      let (datas'', rest) = load_nodes datas' es in (datas'', changes ++ rest)

  -- LoadFromYaml
  unfoldable pub load_from_yaml :
      List (List ℕ × ConfigVar V) → Node → List (List ℕ × ConfigVar V) × List (Change V)
  unfolding load_nodes list_all_member
  load_from_yaml datas root = load_nodes datas (list_all_member [] root)
