-- ===== src/Config/Listing.antt =====
-- ListAllMember: the keys that it lists, and the variables that LoadFromYaml cannot reach.
use mathlib.Core.List.{map}
use cor_reactor.Base.{
  ℕ, ◌≡◌, ◌≢◌, refl, sym, ap, ◌∙◌, subst, inl, inr, List, [], ◌∷◌, true, false, ◌==◌, ==_iff,
  Bool-cases, same_text, same_text_iff, arith, All, All-append,
}
use cor_reactor.Config.{
  Kinds, ConfigVar, Node, scalar, mapping, other, Members, no_more, member, to_lower, is_in, all_in,
  prefix_bytes, is_nothing, joined, listed_if, list_all_member, list_members, lookup_base,
  load_from_yaml,
}
use cor_reactor.Config.Loading.{
  is_for, texts_for, after_texts, after_texts-nil, lookup_base-load_nodes,
}

abbrev HasName : List ℕ × Node → Type 0
HasName e = all_in e.0 prefix_bytes ≡ true

listed-HasName :
    (p : List ℕ) (n : Node) (rest : List (List ℕ × Node))
    → All HasName rest
    → All HasName (listed_if (all_in p prefix_bytes) ((p, n) ∷ rest))
unfolding listed_if
listed-HasName p n rest h = elim (Bool-cases (all_in p prefix_bytes)) [
  | inl e ↦ subst (λ b. All HasName (listed_if b ((p, n) ∷ rest))) (sym e) (e, h)
  | inr e ↦ subst (λ b. All HasName (listed_if b ((p, n) ∷ rest))) (sym e) tt
]

mutual
  unfolding list_all_member

  list_all_member-HasName : (p : List ℕ) (n : Node) → All HasName (list_all_member p n)
  list_all_member-HasName p (scalar t) = listed-HasName p (scalar t) [] tt
  list_all_member-HasName p (other t) = listed-HasName p (other t) [] tt
  list_all_member-HasName p (mapping ms t) =
      listed-HasName p (mapping ms t) (list_members p ms) (list_members-HasName p ms)

  list_members-HasName : (p : List ℕ) (ms : Members) → All HasName (list_members p ms)
  list_members-HasName p no_more = tt
  list_members-HasName p (member key n ms) =
      All-append HasName (list_all_member (joined p key) n) (list_members p ms)
        (list_all_member-HasName (joined p key) n) (list_members-HasName p ms)

-- The byte b'9' is not among the bytes of a listed key, nor is it the lower case of one.
not_nine : (c : ℕ) → is_in c prefix_bytes ≡ true → c ≢ 57
unfolding is_in
not_nine c h e = absurd (cc (subst (λ x. is_in x prefix_bytes ≡ true) e h))

to_lower-nine : (c : ℕ) → c ≢ 57 → to_lower c ≢ 57
to_lower-nine c h e = h (ground arith)

all_in-cons :
    (c : ℕ) (cs set : List ℕ)
    → all_in (c ∷ cs) set ≡ true
    → (is_in c set ≡ true) × (all_in cs set ≡ true)
unfolding all_in
all_in-cons c cs set h = (ground arith, ground arith)

not_in-cons : (b c : ℕ) (cs : List ℕ) → c ≢ b → is_in b cs ≡ false → is_in b (c ∷ cs) ≡ false
unfolding is_in
not_in-cons b c cs n h = elim (Bool-cases (b == c)) [
  | inl e ↦ absurd (n (sym ((==_iff b c).0 e)))
  | inr e ↦ rw (e, h)
]

lower_has_no_nine :
    (cs : List ℕ) → all_in cs prefix_bytes ≡ true → is_in 57 (map to_lower cs) ≡ false
unfolding is_in
lower_has_no_nine [] h = refl
lower_has_no_nine (c ∷ cs) h =
    let (first, rest) = all_in-cons c cs prefix_bytes h in
    not_in-cons 57 (to_lower c) (map to_lower cs) (to_lower-nine c (not_nine c first))
      (lower_has_no_nine cs rest)

unreached :
    (name key : List ℕ)
    → is_in 57 name ≡ true
    → all_in key prefix_bytes ≡ true
    → is_for name key ≡ false
unreached name key h k = elim (Bool-cases (same_text (map to_lower key) name)) [
  | inl e ↦
      let same = (same_text_iff (map to_lower key) name).0 e in
      absurd (cc (h, ap (is_in 57) same, lower_has_no_nine key k))
  | inr e ↦ rw e (elim (Bool-cases (is_nothing key)) [ inl l ↦ rw l | inr l ↦ rw l ])
]

never_for :
    (name : List ℕ) (es : List (List ℕ × Node))
    → is_in 57 name ≡ true
    → All HasName es
    → texts_for name es ≡ []
unfolding texts_for
never_for name [] h k = refl
never_for name ((key, node) ∷ es) h k = rw (unreached name key h k.0, never_for name es h k.1)

-- LoadFromYaml changes no variable whose name has the digit 9, whatever the document says.
pub load_from_yaml_skips :
    {V : Type 0} (kinds : Kinds V) (name : List ℕ) (datas : List (List ℕ × ConfigVar V))
    (root : Node)
    → is_in 57 name ≡ true
    → lookup_base kinds name (load_from_yaml kinds datas root).0 ≡ lookup_base kinds name datas
unfolding load_from_yaml
load_from_yaml_skips kinds name datas root h =
    lookup_base-load_nodes kinds name datas (list_all_member [] root)
    ∙ ap (after_texts kinds (lookup_base kinds name datas))
        (never_for name (list_all_member [] root) h (list_all_member-HasName [] root))
    ∙ after_texts-nil kinds (lookup_base kinds name datas)
