-- ===== src/Timer/Due.antt =====
-- The part of the set before (now, a), which `lower_bound` cuts off.
use cor_reactor.Base.{
  ℕ, ◌≡◌, refl, sym, ◌≢◌, ◌⊎◌, inl, inr, List, [], ◌∷◌, All, true, false, Bool-cases,
}
use cor_reactor.Timer.{Timer, less, less_key, comparator, expired, unexpired}
use cor_reactor.Timer.Order.{less_key_trans}
use cor_reactor.Timer.Ordered.{In, NotIn, Precedes, Sorted, All-map, All-In}

-- The timers before (now, a) are a prefix of the set.
module _ (heap : ℕ → Timer) (now a : ℕ) where
  abbrev pub Due : ℕ → Type 0
  Due q = less_key (heap q).next q now a ≡ true

  pub later-NotDue :
      (p : ℕ) (ps : List ℕ)
      → less_key (heap p).next p now a ≡ false
      → Precedes heap p ps
      → All (λ q. less_key (heap q).next q now a ≡ false) ps
  unfolding comparator
  later-NotDue p ps n =
      All-map (λ q. less heap p q ≡ true) (λ q. less_key (heap q).next q now a ≡ false) ps
        (λ q b. elim (Bool-cases (less_key (heap q).next q now a)) [
          | inl d ↦ absurd (cc (n, less_key_trans _ p _ q now a b d))
          | inr d ↦ d
        ])

  pub expired-none :
      (ps : List ℕ)
      → All (λ q. less_key (heap q).next q now a ≡ false) ps
      → expired heap now a ps ≡ []
  unfolding expired
  expired-none [] h = refl
  expired-none (p ∷ ps) h = rw h.0

  pub expired-Due : (ps : List ℕ) → All Due (expired heap now a ps)
  unfolding expired
  expired-Due [] = tt
  expired-Due (p ∷ ps) = elim (Bool-cases (less_key (heap p).next p now a)) [
    | inl d ↦ rw d (d, expired-Due ps)
    | inr d ↦ rw d tt
  ]

  pub In-expired :
      (q : ℕ) (ps : List ℕ) → Sorted heap ps → In q ps → Due q → In q (expired heap now a ps)
  unfolding expired
  In-expired q [] s i d = i
  In-expired q (p ∷ ps) s (inl i) d = rw (sym i, d) (inl refl)
  In-expired q (p ∷ ps) s (inr i) d = elim (Bool-cases (less_key (heap p).next p now a)) [
    | inl e ↦ rw e (inr (In-expired q ps s.1 i d))
    | inr e ↦ absurd (
        cc (
          All-In (λ r. less_key (heap r).next r now a ≡ false) ps q (later-NotDue p ps e s.0) i,
          d,
        ))
  ]

  pub unexpired-NotDue :
      (ps : List ℕ)
      → Sorted heap ps
      → All (λ q. less_key (heap q).next q now a ≡ false) (unexpired heap now a ps)
  unfolding unexpired
  unexpired-NotDue [] s = tt
  unexpired-NotDue (p ∷ ps) s = elim (Bool-cases (less_key (heap p).next p now a)) [
    | inl e ↦ rw e (unexpired-NotDue ps s.1)
    | inr e ↦ rw e (e, later-NotDue p ps e s.0)
  ]

  pub unexpired-Sorted : (ps : List ℕ) → Sorted heap ps → Sorted heap (unexpired heap now a ps)
  unfolding unexpired
  unexpired-Sorted [] s = tt
  unexpired-Sorted (p ∷ ps) s = elim (Bool-cases (less_key (heap p).next p now a)) [
    | inl e ↦ rw e (unexpired-Sorted ps s.1)
    | inr e ↦ rw e s
  ]

  expired-All : (P : ℕ → Type 0) (ps : List ℕ) → All P ps → All P (expired heap now a ps)
  unfolding expired
  expired-All P [] h = tt
  expired-All P (p ∷ ps) h = elim (Bool-cases (less_key (heap p).next p now a)) [
    | inl e ↦ rw e (h.0, expired-All P ps h.1)
    | inr e ↦ rw e tt
  ]

  pub expired-Sorted : (ps : List ℕ) → Sorted heap ps → Sorted heap (expired heap now a ps)
  unfolding expired
  expired-Sorted [] s = tt
  expired-Sorted (p ∷ ps) s = elim (Bool-cases (less_key (heap p).next p now a)) [
    | inl e ↦ rw e (expired-All (λ q. less heap p q ≡ true) ps s.0, expired-Sorted ps s.1)
    | inr e ↦ rw e tt
  ]

  pub In-split :
      (q : ℕ) (ps : List ℕ)
      → In q ps
      → In q (unexpired heap now a ps) ⊎ In q (expired heap now a ps)
  unfolding expired unexpired
  In-split q [] i = absurd i
  In-split q (p ∷ ps) i = elim (Bool-cases (less_key (heap p).next p now a)) [
    | inl e ↦ rw e (among i (In-split q ps))
    | inr e ↦ rw e (inl i)
  ]
    where
      deeper :
          In q (unexpired heap now a ps) ⊎ In q (expired heap now a ps)
          → In q (unexpired heap now a ps) ⊎ ((q ≡ p) ⊎ In q (expired heap now a ps))
      deeper (inl i) = inl i
      deeper (inr i) = inr (inr i)

      among :
          (q ≡ p) ⊎ In q ps
          → (In q ps → In q (unexpired heap now a ps) ⊎ In q (expired heap now a ps))
          → In q (unexpired heap now a ps) ⊎ ((q ≡ p) ⊎ In q (expired heap now a ps))
      among (inl i) f = inr (inl i)
      among (inr i) f = deeper (f i)

  pub expired-apart :
      (ps : List ℕ)
      → Sorted heap ps
      → All (λ p. NotIn p (unexpired heap now a ps)) (expired heap now a ps)
  expired-apart ps s =
      All-map Due (λ p. NotIn p (unexpired heap now a ps)) (expired heap now a ps)
        (λ p d.
          All-map (λ q. less_key (heap q).next q now a ≡ false) (λ q. q ≢ p)
            (unexpired heap now a ps) (λ q n e. absurd (cc (n, d, e))) (unexpired-NotDue ps s))
        (expired-Due ps)
