-- ===== src/Timer/Ordered.antt =====
-- The set of timers as its ordered list: what insert, erase and find do on it.
use cor_reactor.Base.{
  ℕ, ◌≡◌, refl, sym, ◌∙◌, ◌≢◌, ◌⊎◌, inl, inr, List, [], ◌∷◌, All, true, if◌then◌else◌, Bool-cases,
  subst,
}
use cor_reactor.Timer.{comparator, Timer, less, equivalent, insert, erase, find, update}
use cor_reactor.Timer.Order.{less_irrefl, less_trans, less_total, less-ne, less-update}

abbrev pub In : ℕ → List ℕ → Type 0
In p [] = ⊥
In p (q ∷ qs) = (p ≡ q) ⊎ In p qs

abbrev pub NotIn : ℕ → List ℕ → Type 0
NotIn p = All (λ q. q ≢ p)

abbrev pub Precedes : (ℕ → Timer) → ℕ → List ℕ → Type 0
Precedes heap p = All (λ q. less heap p q ≡ true)

abbrev pub Sorted : (ℕ → Timer) → List ℕ → Type 0
Sorted heap [] = Unit
Sorted heap (p ∷ ps) = Precedes heap p ps × Sorted heap ps

pub All-In : (P : ℕ → Type 0) (qs : List ℕ) (q : ℕ) → All P qs → In q qs → P q
All-In P [] q h i = absurd i
All-In P (x ∷ qs) q h (inl e) = subst P (sym e) h.0
All-In P (x ∷ qs) q h (inr i) = All-In P qs q h.1 i

map_right : {A B C : Type 0} → (B → C) → A ⊎ B → A ⊎ C
map_right f (inl a) = inl a
map_right f (inr b) = inr (f b)

pub All-map : (P Q : ℕ → Type 0) (qs : List ℕ) → ((q : ℕ) → P q → Q q) → All P qs → All Q qs
All-map P Q [] f h = tt
All-map P Q (q ∷ qs) f h = (f q h.0, All-map P Q qs f h.1)

module _ (heap : ℕ → Timer) where
  equivalent_same : (p : ℕ) → equivalent heap p p ≡ true
  equivalent_same p = rw (less_irrefl heap p)

  equivalent_eq : (p q : ℕ) → equivalent heap p q ≡ true → p ≡ q
  equivalent_eq p q h = elim (Bool-cases (less heap p q)) [
    | inl a ↦ absurd (cc a)
    | inr a ↦ elim (Bool-cases (less heap q p)) [
      | inl b ↦ absurd (cc (a, b))
      | inr b ↦ less_total heap p q a b
    ]
  ]

  pub insert-All :
      (P : ℕ → Type 0) (p : ℕ) (qs : List ℕ) → P p → All P qs → All P (insert heap p qs)
  unfolding insert
  insert-All P p [] hp h = (hp, tt)
  insert-All P p (q ∷ qs) hp h = elim (Bool-cases (less heap p q)) [
    | inl a ↦ rw a (hp, h)
    | inr a ↦ elim (Bool-cases (less heap q p)) [
      | inl b ↦ rw (a, b) (h.0, insert-All P p qs hp h.1)
      | inr b ↦ rw (a, b) h
    ]
  ]

  pub insert-Sorted : (p : ℕ) (qs : List ℕ) → Sorted heap qs → Sorted heap (insert heap p qs)
  unfolding insert
  insert-Sorted p [] h = (tt, tt)
  insert-Sorted p (q ∷ qs) h = elim (Bool-cases (less heap p q)) [
    | inl a ↦ rw a (
      (
        a,
        All-map (λ r. less heap q r ≡ true) (λ r. less heap p r ≡ true) qs
            (λ r. less_trans heap p q r a) h.0,
      ),
      h,
    )
    | inr a ↦ elim (Bool-cases (less heap q p)) [
      | inl b ↦
          rw (a, b) (insert-All (λ r. less heap q r ≡ true) p qs b h.0, insert-Sorted p qs h.1)
      | inr b ↦ rw (a, b) h
    ]
  ]

  pub In-insert_new : (p : ℕ) (qs : List ℕ) → In p (insert heap p qs)
  unfolding insert
  In-insert_new p [] = inl refl
  In-insert_new p (q ∷ qs) = elim (Bool-cases (less heap p q)) [
    | inl a ↦ rw a (inl refl)
    | inr a ↦ elim (Bool-cases (less heap q p)) [
      | inl b ↦ rw (a, b) (inr (In-insert_new p qs))
      | inr b ↦ rw (a, b) (inl (less_total heap p q a b))
    ]
  ]

  pub In-insert : (p q : ℕ) (qs : List ℕ) → In q qs → In q (insert heap p qs)
  unfolding insert
  In-insert p q [] i = absurd i
  In-insert p q (x ∷ qs) i = elim (Bool-cases (less heap p x)) [
    | inl a ↦ rw a (inr i)
    | inr a ↦ elim (Bool-cases (less heap x p)) [
      | inl b ↦ rw (a, b) (map_right (In-insert p q qs) i)
      | inr b ↦ rw (a, b) i
    ]
  ]

  pub erase-All : (P : ℕ → Type 0) (p : ℕ) (qs : List ℕ) → All P qs → All P (erase heap p qs)
  unfolding erase
  erase-All P p [] h = tt
  erase-All P p (q ∷ qs) h = elim (Bool-cases (equivalent heap p q)) [
    | inl a ↦ rw a h.1
    | inr a ↦ rw a (h.0, erase-All P p qs h.1)
  ]

  pub erase-Sorted : (p : ℕ) (qs : List ℕ) → Sorted heap qs → Sorted heap (erase heap p qs)
  unfolding erase
  erase-Sorted p [] h = tt
  erase-Sorted p (q ∷ qs) h = elim (Bool-cases (equivalent heap p q)) [
    | inl a ↦ rw a h.1
    | inr a ↦ rw a (erase-All (λ r. less heap q r ≡ true) p qs h.0, erase-Sorted p qs h.1)
  ]

  pub erase-NotIn : (p : ℕ) (qs : List ℕ) → Sorted heap qs → NotIn p (erase heap p qs)
  unfolding erase
  erase-NotIn p [] h = tt
  erase-NotIn p (q ∷ qs) h = elim (Bool-cases (equivalent heap p q)) [
    | inl a ↦ rw a (
        All-map (λ r. less heap q r ≡ true) (λ r. r ≢ p) qs
          (λ r b e. less-ne heap q r b (sym (e ∙ equivalent_eq p q a))) h.0)
    | inr a ↦ rw a ((λ e. absurd (cc (a, equivalent_same p, e))), erase-NotIn p qs h.1)
  ]

  pub In-erase : (p q : ℕ) (qs : List ℕ) → q ≢ p → In q qs → In q (erase heap p qs)
  unfolding erase
  In-erase p q [] n i = absurd i
  In-erase p q (x ∷ qs) n i = elim (Bool-cases (equivalent heap p x)) [
    | inl a ↦ rw a (past (equivalent_eq p x a) i)
    | inr a ↦ rw a (map_right (In-erase p q qs n) i)
  ]
    where
      past : p ≡ x → (q ≡ x) ⊎ In q qs → In q qs
      past a (inl e) = absurd (n (e ∙ sym a))
      past a (inr i) = i

  pub find-In : (p : ℕ) (qs : List ℕ) → In p qs → find heap p qs ≡ true
  unfolding find
  find-In p [] i = absurd i
  find-In p (q ∷ qs) (inl e) = rw (sym e, equivalent_same p)
  find-In p (q ∷ qs) (inr i) = elim (Bool-cases (equivalent heap p q)) [
    | inl a ↦ rw a
    | inr a ↦ rw a (find-In p qs i)
  ]

  pub find→In : (p : ℕ) (qs : List ℕ) → find heap p qs ≡ true → In p qs
  unfolding find
  find→In p [] h = absurd (cc h)
  find→In p (q ∷ qs) h = elim (Bool-cases (equivalent heap p q)) [
    | inl a ↦ inl (equivalent_eq p q a)
    | inr a ↦ inr (find→In p qs (subst (λ b. (if b then true else find heap p qs) ≡ true) a h))
  ]

-- Timers in order stay so when one that is not among them changes.
pub Precedes-update :
    (heap : ℕ → Timer) (p : ℕ) (t : Timer) (q : ℕ) (qs : List ℕ)
    → q ≢ p
    → NotIn p qs
    → Precedes heap q qs
    → Precedes (update heap p t) q qs
Precedes-update heap p t q [] n h s = tt
Precedes-update heap p t q (r ∷ qs) n h s =
    (less-update heap p t q r n h.0 ∙ s.0, Precedes-update heap p t q qs n h.1 s.1)

pub Sorted-update :
    (heap : ℕ → Timer) (p : ℕ) (t : Timer) (qs : List ℕ)
    → NotIn p qs
    → Sorted heap qs
    → Sorted (update heap p t) qs
Sorted-update heap p t [] h s = tt
Sorted-update heap p t (q ∷ qs) h s =
    (Precedes-update heap p t q qs h.0 h.1 s.0, Sorted-update heap p t qs h.1 s.1)

-- The order reads only the deadlines.
module _ (heap heap' : ℕ → Timer) (same : (q : ℕ) → (heap' q).next ≡ (heap q).next) where
  less-same : (p q : ℕ) → less heap p q ≡ less heap' p q
  unfolding comparator
  less-same p q = rw (same p, same q)

  Precedes-same : (p : ℕ) (qs : List ℕ) → Precedes heap p qs → Precedes heap' p qs
  Precedes-same p [] h = tt
  Precedes-same p (q ∷ qs) h = (sym (less-same p q) ∙ h.0, Precedes-same p qs h.1)

  pub Sorted-same : (qs : List ℕ) → Sorted heap qs → Sorted heap' qs
  Sorted-same [] h = tt
  Sorted-same (q ∷ qs) h = (Precedes-same q qs h.0, Sorted-same qs h.1)
