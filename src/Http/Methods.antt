-- ===== src/Http/Methods.antt =====
-- The tables of methods: StringToHttpMethod and CharsToHttpMethod against HttpMethodToString.
use cor_reactor.Base.{
  ℕ, zero, suc, ◌<◌, ◌≡◌, refl, subst, inl, inr, ◌↔◌, List, [], ◌∷◌, ◌++◌, Option, none, some, Bool,
  true, false, ◌&&◌, ◌||◌, not, ◌==◌, Bool-cases, get_elem?, get_elem?-some, ==_iff,
  starts_with_total, same_text-starts_with, c_str, same_text, same_text_iff, starts_with,
  starts_with_iff, c_str-append, ltb, ◌≤◌, arith,
}
use cor_reactor.Http.{
  Text, http_method_map, invalid_method, first_row, string_to_http_method, chars_to_http_method,
  http_method_to_string,
}

unfoldable every : (ℕ × Text → Bool) → List (ℕ × Text) → Bool
every f [] = true
every f (r ∷ rs) = f r && every f rs

every-get :
    (f : ℕ × Text → Bool) (rows : List (ℕ × Text)) (i : ℕ) (r : ℕ × Text)
    → every f rows ≡ true
    → get_elem? rows i ≡ some r
    → f r ≡ true
unfolding every
every-get f [] i r h e = cc e
every-get f (x ∷ rows) zero r h e = ground (arith, h)
every-get f (x ∷ rows) (suc i) r h e = every-get f rows i r (ground arith) e

unfoldable all_below : ℕ → (ℕ → Bool) → Bool
all_below zero f = true
all_below (suc n) f = f n && all_below n f

all_below_get : (n : ℕ) (f : ℕ → Bool) (i : ℕ) → all_below n f ≡ true → i < n → f i ≡ true
unfolding all_below
all_below_get zero f i h l = absurd (omega arith)
all_below_get (suc n) f i h l = grind (arith, all_below_get n f i)

-- A row whose text passes, and the rows that pass agree on the number: the chain of tests finds it.
first_row_found :
    (test : Text → Bool) (rows : List (ℕ × Text)) (i n : ℕ) (t : Text)
    → ((j m : ℕ) (u : Text) → get_elem? rows j ≡ some (m, u) → test u ≡ true → m ≡ n)
    → get_elem? rows i ≡ some (n, t)
    → test t ≡ true
    → first_row test rows ≡ n
unfolding first_row
first_row_found test [] i n t only e h = cc e
first_row_found test ((m, u) ∷ rows) zero n t only e h =
    rw (let q : test u ≡ true = cc (e, h) in q) (cc e)
first_row_found test ((m, u) ∷ rows) (suc i) n t only e h = elim (Bool-cases (test u)) [
  | inl p ↦ rw p (only 0 m u refl p)
  | inr p ↦ rw p (first_row_found test rows i n t (λ j. only (suc j)) e h)
]

first_row_passes :
    (test : Text → Bool) (rows : List (ℕ × Text)) (n : ℕ)
    → first_row test rows ≡ n
    → n < invalid_method
    → (i : ℕ) × (t : Text) × (get_elem? rows i ≡ some (n, t)) × (test t ≡ true)
unfolding first_row
first_row_passes test [] n h l = absurd (omega (arith, h))
first_row_passes test ((m, u) ∷ rows) n h l = elim (Bool-cases (test u)) [
  | inl p ↦ (0, u, cc (h, let q : first_row test ((m, u) ∷ rows) ≡ m = rw p refl in q), p)
  | inr p ↦
      let (i, t, e, q) =
        first_row_passes test rows n
          (cc (h, let q : first_row test ((m, u) ∷ rows) ≡ first_row test rows = rw p refl in q))
          l in
      (suc i, t, e, q)
]

-- Each row has its place as its number, and no text of a method starts another.
is_row : ℕ → Text → Option (ℕ × Text) → Bool
is_row i t none = false
is_row i t (some row) = (row.0 == i) && same_text row.1 t

is_row_eq : (i : ℕ) (t : Text) (o : Option (ℕ × Text)) → is_row i t o ≡ true → o ≡ some (i, t)
unfolding is_row
is_row_eq i t none h = cc h
is_row_eq i t (some (j, u)) h = grind (arith, same_text_iff u t)

apart : ℕ × Text → ℕ × Text → Bool
apart r q = (r.0 == q.0) || not (starts_with r.1 q.1 || starts_with q.1 r.1)

apart_eq :
    (m n : ℕ) (u v : Text)
    → apart (m, u) (n, v) ≡ true
    → (starts_with u v || starts_with v u) ≡ true
    → m ≡ n
unfolding apart
apart_eq m n u v h k = grind (arith, ==_iff m n)

rows_numbered :
    all_below 34 (λ i. is_row i (http_method_to_string i) (get_elem? http_method_map i)) ≡ true
unfolding is_row all_below same_text http_method_to_string
rows_numbered = refl

rows_apart : every (λ r. every (apart r) http_method_map) http_method_map ≡ true
unfolding every apart starts_with
rows_apart = refl

row_at :
    (i : ℕ) → i < invalid_method → get_elem? http_method_map i ≡ some (i, http_method_to_string i)
row_at i l = is_row_eq i _ _ (all_below_get 34 _ i rows_numbered l)

module _ (s : Text) (test : Text → Bool)
    (starts : (t : Text) → test t ≡ true → starts_with t s ≡ true) where
  only_row :
      (n : ℕ)
      → n < invalid_method
      → test (http_method_to_string n) ≡ true
      → (j m : ℕ) (u : Text) → get_elem? http_method_map j ≡ some (m, u)
      → test u ≡ true
      → m ≡ n
  only_row n l h j m u e p =
      let r = every-get _ _ n _ (every-get _ _ j (m, u) rows_apart e) (row_at n l) in
      let k = starts_with_total u (http_method_to_string n) s (starts u p) (starts _ h) in
      apart_eq m n u _ r k

  first_row_iff :
      (n : ℕ)
      → n < invalid_method
      → (first_row test http_method_map ≡ n) ↔ (test (http_method_to_string n) ≡ true)
  first_row_iff n l = (
    λ h.
        let (i, t, e, q) = first_row_passes test http_method_map n h l in
        let b : i < invalid_method = get_elem?-some http_method_map i (n, t) e in
        let same : t ≡ http_method_to_string n = cc (e, row_at i b) in
        subst (λ t. test t ≡ true) same q,
    λ h. first_row_found test http_method_map n n _ (only_row n l h) (row_at n l) h,
  )

-- For a method of the table, StringToHttpMethod returns it exactly when the string, up to its first
-- NUL, is the text that HttpMethodToString gives for the method.
pub string_to_http_method_iff :
    (s : Text) (n : ℕ)
    → n < invalid_method
    → (string_to_http_method s ≡ n) ↔ (http_method_to_string n ≡ c_str s)
unfolding string_to_http_method
string_to_http_method_iff s n l =
    let r =
      first_row_iff (c_str s) (λ t. same_text t (c_str s)) (λ t. same_text-starts_with t (c_str s))
        n l in
    let q = same_text_iff (http_method_to_string n) (c_str s) in
    (λ h. q.0 (r.0 h), λ h. r.1 (q.1 h))

-- For a method of the table, CharsToHttpMethod returns it exactly when the characters start with the
-- text that HttpMethodToString gives for the method, whatever follows.
pub chars_to_http_method_iff :
    (s : Text) (n : ℕ)
    → n < invalid_method
    → (chars_to_http_method s ≡ n) ↔ ((rest : Text) × (c_str s ≡ http_method_to_string n ++ rest))
unfolding chars_to_http_method
chars_to_http_method_iff s n l =
    let r = first_row_iff (c_str s) (λ t. starts_with t (c_str s)) (λ t h. h) n l in
    let q = starts_with_iff (http_method_to_string n) (c_str s) in
    (λ h. q.0 (r.0 h), λ h. r.1 (q.1 h))

first_row_le :
    (test : Text → Bool) (rows : List (ℕ × Text))
    → every (λ r. ltb r.0 invalid_method) rows ≡ true
    → first_row test rows ≤ invalid_method
unfolding first_row every
first_row_le test [] h = omega arith
first_row_le test ((n, t) ∷ rows) h = grind (arith, first_row_le test rows)

-- CharsToHttpMethod returns a method of the table or INVALID_METHOD.
pub chars_to_http_method_le : (s : Text) → chars_to_http_method s ≤ invalid_method
unfolding chars_to_http_method every
chars_to_http_method_le s = first_row_le _ http_method_map refl

nul_free :
    all_below 34 (λ i. same_text (c_str (http_method_to_string i)) (http_method_to_string i)) ≡ true
unfolding all_below same_text c_str http_method_to_string
nul_free = refl

-- The text of a method of the table, with more after it, is taken for that method.
pub chars_to_http_method-append :
    (n : ℕ) (rest : Text)
    → n < invalid_method
    → chars_to_http_method (http_method_to_string n ++ rest) ≡ n
chars_to_http_method-append n rest l =
    let h = (same_text_iff _ _).0 (all_below_get 34 _ n nul_free l) in
    (chars_to_http_method_iff _ n l).1 (c_str rest, c_str-append _ rest h)
