-- ===== src/Config/Loading.antt =====
-- LoadFromYaml: what a document does to each variable.
use mathlib.Core.List.{map}
use cor_reactor.Base.{
  ℕ, ◌≡◌, refl, sym, ap, ◌∙◌, inl, inr, List, [], ◌∷◌, ◌++◌, Option, none, some, Bool, true, false,
  ◌&&◌, not, if◌then◌else◌, Bool-cases, same_text, same_text_iff,
}
use cor_reactor.Config.{
  Kinds, ConfigVar, Node, to_lower, is_nothing, text_of, from_string, lookup_base, put_var,
  set_found, load_node, load_nodes,
}

-- The texts that a list of nodes has for a variable.
abbrev pub is_for : List ℕ → List ℕ → Bool
is_for name key = not (is_nothing key) && same_text (map to_lower key) name

unfoldable pub texts_for : List ℕ → List (List ℕ × Node) → List (List ℕ)
texts_for name [] = []
texts_for name ((key, node) ∷ es) =
    let rest = texts_for name es in if is_for name key then text_of node ∷ rest else rest

module _ {V : Type 0} (kinds : Kinds V) where
  -- fromString of each text in turn, on a variable that may not be there.
  unfoldable pub set_texts : ConfigVar V → List (List ℕ) → ConfigVar V
  set_texts x [] = x
  set_texts x (t ∷ ts) = set_texts (from_string kinds x t).0 ts

  abbrev pub after_texts : Option (ConfigVar V) → List (List ℕ) → Option (ConfigVar V)
  after_texts none ts = none
  after_texts (some x) ts = some (set_texts x ts)

  pub lookup_base-put_var :
      (n name : List ℕ) (x : ConfigVar V) (datas : List (List ℕ × ConfigVar V))
      → lookup_base kinds n (put_var kinds name x datas)
        ≡ (if same_text name n then some x else lookup_base kinds n datas)
  unfolding lookup_base put_var
  lookup_base-put_var n name x [] = refl
  lookup_base-put_var n name x ((key, y) ∷ datas) =
      let later = lookup_base-put_var n name x datas in
      elim (Bool-cases (same_text key name)) [
        | inl h ↦
            let same = (same_text_iff key name).0 h in
            rw h (
              rw (ap (λ k. same_text k n) same)
                (both (same_text name n) x y (lookup_base kinds n datas)))
        | inr h ↦ elim (Bool-cases (same_text key n)) [
          | inr e ↦ rw (h, e) later
          | inl e ↦ let apart : same_text name n ≡ false = differ key name n h e in rw (h, e, apart)
        ]
      ]
    where
      both :
          (b : Bool) (x y : ConfigVar V) (o : Option (ConfigVar V))
          → (if b then some x else o) ≡ (if b then some x else (if b then some y else o))
      both true x y o = refl
      both false x y o = refl

      differ :
          (key name n : List ℕ)
          → same_text key name ≡ false
          → same_text key n ≡ true
          → same_text name n ≡ false
      differ key name n h e = elim (Bool-cases (same_text name n)) [
        | inr f ↦ f
        | inl f ↦
            let same = (same_text_iff key n).0 e ∙ sym ((same_text_iff name n).0 f) in
            absurd (cc (h, (same_text_iff key name).1 same))
      ]

  pub after_texts-nil : (o : Option (ConfigVar V)) → after_texts o [] ≡ o
  unfolding set_texts
  after_texts-nil none = refl
  after_texts-nil (some x) = refl

  -- The variable at the same name is the one that was found.
  at_same_name :
      (n name : List ℕ) (datas : List (List ℕ × ConfigVar V)) (o : Option (ConfigVar V))
      → same_text name n ≡ true
      → lookup_base kinds name datas ≡ o
      → lookup_base kinds n datas ≡ o
  at_same_name n name datas o e h =
      ap (λ k. lookup_base kinds k datas) (sym ((same_text_iff name n).0 e)) ∙ h

  lookup_base-set_found :
      (n name t : List ℕ) (datas : List (List ℕ × ConfigVar V)) (o : Option (ConfigVar V))
      → lookup_base kinds name datas ≡ o
      → lookup_base kinds n (set_found kinds name t datas o).0
        ≡ after_texts (lookup_base kinds n datas) (if same_text name n then t ∷ [] else [])
  unfolding set_found set_texts
  lookup_base-set_found n name t datas none h = elim (Bool-cases (same_text name n)) [
    | inl e ↦ rw (e, at_same_name n name datas none e h)
    | inr e ↦ rw e (sym (after_texts-nil (lookup_base kinds n datas)))
  ]
  lookup_base-set_found n name t datas (some x) h =
      let put = lookup_base-put_var n name (from_string kinds x t).0 datas in
      elim (Bool-cases (same_text name n)) [
        | inl e ↦ rw (put, e, at_same_name n name datas (some x) e h)
        | inr e ↦ rw (put, e) (sym (after_texts-nil (lookup_base kinds n datas)))
      ]

  lookup_base-load_node :
      (n : List ℕ) (datas : List (List ℕ × ConfigVar V)) (key : List ℕ) (node : Node)
      → lookup_base kinds n (load_node kinds datas (key, node)).0
        ≡ after_texts (lookup_base kinds n datas) (if is_for n key then text_of node ∷ [] else [])
  unfolding load_node
  lookup_base-load_node n datas key node = elim (Bool-cases (is_nothing key)) [
    | inl e ↦ rw e (sym (after_texts-nil (lookup_base kinds n datas)))
    | inr e ↦ rw e (
        lookup_base-set_found n (map to_lower key) (text_of node) datas
          (lookup_base kinds (map to_lower key) datas) refl)
  ]

  after_texts-append :
      (o : Option (ConfigVar V)) (ts us : List (List ℕ))
      → after_texts (after_texts o ts) us ≡ after_texts o (ts ++ us)
  unfolding set_texts
  after_texts-append none ts us = refl
  after_texts-append (some x) [] us = refl
  after_texts-append (some x) (t ∷ ts) us =
      after_texts-append (some (from_string kinds x t).0) ts us

  texts_for-cons :
      (n key : List ℕ) (node : Node) (es : List (List ℕ × Node))
      → (if is_for n key then text_of node ∷ [] else []) ++ texts_for n es
        ≡ texts_for n ((key, node) ∷ es)
  unfolding texts_for
  texts_for-cons n key node es = elim (Bool-cases (is_for n key)) [ inl e ↦ rw e | inr e ↦ rw e ]

  -- Loading a list of nodes does to each variable what fromString does with the texts of the nodes
  -- for it, one after the other, and nothing to the others.
  pub lookup_base-load_nodes :
      (n : List ℕ) (datas : List (List ℕ × ConfigVar V)) (es : List (List ℕ × Node))
      → lookup_base kinds n (load_nodes kinds datas es).0
        ≡ after_texts (lookup_base kinds n datas) (texts_for n es)
  unfolding load_nodes texts_for
  lookup_base-load_nodes n datas [] = sym (after_texts-nil (lookup_base kinds n datas))
  lookup_base-load_nodes n datas ((key, node) ∷ es) =
      lookup_base-load_nodes n (load_node kinds datas (key, node)).0 es
      ∙ ap (λ o. after_texts o (texts_for n es)) (lookup_base-load_node n datas key node)
      ∙ after_texts-append (lookup_base kinds n datas)
          (if is_for n key then text_of node ∷ [] else []) (texts_for n es)
      ∙ ap (after_texts (lookup_base kinds n datas)) (texts_for-cons n key node es)
