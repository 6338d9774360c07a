-- ===== src/Config/Variables.antt =====
-- Create, Lookup, setValue and fromString.
use cor_reactor.Base.{
  ℕ, ◌≡◌, refl, ap, ◌∙◌, List, none, some, true, false, ◌==◌, ==_iff, if◌then◌else◌, same_text,
  same_text_iff, ok,
}
use cor_reactor.Config.{
  Kinds, ConfigVar, all_in, name_bytes, config_var, lookup_base, put_var, cast, lookup, create,
}
use cor_reactor.Config.Loading.{lookup_base-put_var}

module _ {V : Type 0} (kinds : Kinds V) where
  -- Create of a name that is not there and has only the bytes of names makes the variable with the
  -- default value. Lookup of the name then finds it under its own kind and nothing under another, and
  -- Create of the same name returns it and changes nothing; every other name finds what it found
  -- before.
  pub lookup-create :
      (datas : List (List ℕ × ConfigVar V)) (name : List ℕ) (kind : ℕ) (value : V)
      (description : List ℕ)
      → lookup_base kinds name datas ≡ none
      → all_in name name_bytes ≡ true
      → (made : List (List ℕ × ConfigVar V)) × (create kinds datas name kind value description
          ≡ ok (made, some (config_var kinds name kind value description)))
        × ((j : ℕ)
            → lookup kinds name j made
              ≡ (if kind == j then some (config_var kinds name kind value description) else none))
        × ((v : V) (d : List ℕ)
            → create kinds made name kind v d
              ≡ ok (made, some (config_var kinds name kind value description)))
        × ((rest : List ℕ)
            → same_text name rest ≡ false
            → lookup_base kinds rest made ≡ lookup_base kinds rest datas)
  unfolding create lookup cast config_var
  lookup-create datas name kind value description absent named =
      let x = config_var kinds name kind value description in
      let made = put_var kinds name x datas in
      let found : lookup_base kinds name made ≡ some x =
        lookup_base-put_var kinds name name x datas
        ∙ ap (λ b. if b then some x else lookup_base kinds name datas)
            ((same_text_iff name name).1 refl) in
      let itself : (kind == kind) ≡ true = (==_iff kind kind).1 refl in
      (
        made,
        rw (absent, create) (rw named),
        (λ j. rw found),
        (λ v d. rw (found, create) (rw itself)),
        (λ rest e.
            lookup_base-put_var kinds rest name x datas
            ∙ ap (λ b. if b then some x else lookup_base kinds rest datas) e),
      )
