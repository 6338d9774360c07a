-- ===== src/Config/Tests.antt =====
-- Runs on a table of variables, and the theorems at concrete inputs.
use cor_reactor.Base.{
  ℕ, ◌≡◌, refl, List, [], ◌∷◌, none, some, true, false, ◌==◌, codes, same_text, ok, if◌then◌else◌,
  length,
}
use cor_reactor.Config.{
  Kinds, ConfigVar, Node, scalar, mapping, no_more, member, is_in, all_in, name_bytes, joined,
  listed_if, list_all_member, list_members, text_of, config_var, set_value, from_string,
  lookup_base, put_var, cast, lookup, create, set_found, load_node, load_nodes, load_from_yaml,
}
use cor_reactor.Config.Loading.{texts_for, set_texts, after_texts, lookup_base-load_nodes}
use cor_reactor.Config.Listing.{load_from_yaml_skips}
use cor_reactor.Config.Variables.{lookup-create}

running : Unit {0}
unfolding is_in all_in joined listed_if list_all_member list_members text_of config_var set_value
    from_string lookup_base put_var cast lookup create set_found load_node load_nodes load_from_yaml
    same_text texts_for set_texts
running = tt

-- A value is a number, and its text has as many bytes.
abbrev by_length : Kinds ℕ
by_length = record {
  from_text = λ kind t. some (length t);
  to_text = λ kind v. none;
  same = λ v w. v == w;
}

abbrev variable : List ℕ → ConfigVar ℕ
variable name = record {
  name = name;
  description = [];
  kind = 0;
  value = 1;
  listeners = (1, 70) ∷ [];
}

abbrev table : List (List ℕ × ConfigVar ℕ)
table =
    (codes "tcp.port", variable (codes "tcp.port"))
    ∷ (codes "tcp.port9", variable (codes "tcp.port9"))
    ∷ []

-- tcp: {port: abc, port9: abc}
abbrev document : Node
document =
    mapping
      (member (codes "tcp")
        (mapping
          (member (codes "port") (scalar (codes "abc"))
            (member (codes "port9") (scalar (codes "abc")) no_more))
          [])
        no_more)
      []

sets_one :
    (load_from_yaml by_length table document).0
    ≡ (codes "tcp.port", record (variable (codes "tcp.port")) { value = 3 })
      ∷ (codes "tcp.port9", variable (codes "tcp.port9"))
      ∷ []
unfolding running
sets_one = refl

tells_listeners :
    (load_from_yaml by_length table document).1 ≡ record { listener = 70; old = 1; new = 3 } ∷ []
unfolding running
tells_listeners = refl

has_nine : is_in 57 (codes "tcp.port9") ≡ true
unfolding running
has_nine = refl

load_from_yaml_skips_example :
    lookup_base by_length (codes "tcp.port9") (load_from_yaml by_length table document).0
    ≡ lookup_base by_length (codes "tcp.port9") table
load_from_yaml_skips_example =
    load_from_yaml_skips by_length (codes "tcp.port9") table document has_nine

lookup_base-load_nodes_example :
    lookup_base by_length
      (codes "tcp.port")
      (load_nodes by_length table (list_all_member [] document)).0
    ≡ after_texts by_length
        (lookup_base by_length (codes "tcp.port") table)
        (texts_for (codes "tcp.port") (list_all_member [] document))
lookup_base-load_nodes_example =
    lookup_base-load_nodes by_length (codes "tcp.port") table (list_all_member [] document)

absent : lookup_base by_length (codes "a9") table ≡ none
unfolding running
absent = refl

named : all_in (codes "a9") name_bytes ≡ true
unfolding running
named = refl

lookup-create_example :
    (made : List (List ℕ × ConfigVar ℕ)) × (create by_length table (codes "a9") 0 5 []
      ≡ ok (made, some (config_var by_length (codes "a9") 0 5 [])))
    × ((j : ℕ)
        → lookup by_length (codes "a9") j made
          ≡ (if 0 == j then some (config_var by_length (codes "a9") 0 5 []) else none))
    × ((v : ℕ) (d : List ℕ)
        → create by_length made (codes "a9") 0 v d
          ≡ ok (made, some (config_var by_length (codes "a9") 0 5 [])))
    × ((rest : List ℕ)
        → same_text (codes "a9") rest ≡ false
        → lookup_base by_length rest made ≡ lookup_base by_length rest table)
lookup-create_example = lookup-create by_length table (codes "a9") 0 5 [] absent named
