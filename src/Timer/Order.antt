-- ===== src/Timer/Order.antt =====
-- Timer::Comparator orders pointers to timers strictly and totally.
use cor_reactor.Base.{
  ℕ, ◌≡◌, refl, ap, ◌≢◌, inl, inr, Option, none, some, true, false, arith, Bool-cases,
}
use cor_reactor.Timer.{Timer, less_key, comparator, less, update}

less_key_irrefl : (a p : ℕ) → less_key a p a p ≡ false
unfolding less_key
less_key_irrefl a p = ground arith

pub less_key_trans :
    (a p b q c r : ℕ) → less_key a p b q ≡ true → less_key b q c r ≡ true → less_key a p c r ≡ true
unfolding less_key
less_key_trans a p b q c r h k = ground arith

less_key_total : (a p b q : ℕ) → less_key a p b q ≡ false → less_key b q a p ≡ false → p ≡ q
unfolding less_key
less_key_total a p b q h k = ground arith

-- The comparator is a strict total order on pointers, null included: no pointer is before itself, it
-- is transitive, and two pointers of which neither is before the other are equal.
pub comparator_strict :
    (heap : ℕ → Timer) (x y z : Option ℕ)
    → (comparator heap x x ≡ false)
      × (comparator heap x y ≡ true → comparator heap y z ≡ true → comparator heap x z ≡ true)
      × (comparator heap x y ≡ false → comparator heap y x ≡ false → x ≡ y)
unfolding comparator
comparator_strict heap x y z = (irrefl x, trans x y z, total x y)
  where
    irrefl : (x : Option ℕ) → comparator heap x x ≡ false
    irrefl none = refl
    irrefl (some p) = less_key_irrefl _ p

    trans :
        (x y z : Option ℕ)
        → comparator heap x y ≡ true
        → comparator heap y z ≡ true
        → comparator heap x z ≡ true
    trans none none z h k = cc
    trans none (some q) none h k = cc
    trans none (some q) (some r) h k = refl
    trans (some p) none z h k = cc
    trans (some p) (some q) none h k = cc
    trans (some p) (some q) (some r) h k = less_key_trans _ p _ q _ r h k

    total : (x y : Option ℕ) → comparator heap x y ≡ false → comparator heap y x ≡ false → x ≡ y
    total none none h k = refl
    total none (some q) h k = cc
    total (some p) none h k = cc
    total (some p) (some q) h k = ap some (less_key_total _ p _ q h k)

-- The facts of the order that the set needs, on addresses.
module _ (heap : ℕ → Timer) where
  pub less_irrefl : (p : ℕ) → less heap p p ≡ false
  less_irrefl p = (comparator_strict heap (some p) none none).0

  pub less_trans : (p q r : ℕ) → less heap p q ≡ true → less heap q r ≡ true → less heap p r ≡ true
  less_trans p q r = (comparator_strict heap (some p) (some q) (some r)).1

  pub less_total : (p q : ℕ) → less heap p q ≡ false → less heap q p ≡ false → p ≡ q
  unfolding comparator
  less_total p q h k = less_key_total _ p _ q h k

  pub less-ne : (p q : ℕ) → less heap p q ≡ true → p ≢ q
  less-ne p q h e = cc (less_irrefl p)

  pub less-asym : (p q : ℕ) → less heap p q ≡ true → less heap q p ≡ false
  less-asym p q h = elim (Bool-cases (less heap q p)) [
    | inl k ↦ absurd (cc (less_trans p q p h k, less_irrefl p))
    | inr k ↦ k
  ]

-- A changed timer leaves the order of the others.
module _ (heap : ℕ → Timer) (p : ℕ) (t : Timer) where
  pub update_same : update heap p t p ≡ t
  unfolding update
  update_same = ground arith

  pub update_other : (q : ℕ) → q ≢ p → update heap p t q ≡ heap q
  unfolding update
  update_other q h = ground arith

  pub less-update : (q r : ℕ) → q ≢ p → r ≢ p → less (update heap p t) q r ≡ less heap q r
  unfolding comparator
  less-update q r h k = rw (update_other q h, update_other r k)
