-- ===== src/Timer/Next.antt =====
-- getNextTimer and detectClockRollover.
use cor_reactor.Base.{
  All, ℕ, ◌+◌, ◌-◌, ◌^◌, ◌≤◌, ◌<◌, ◌≡◌, refl, sym, ◌⊎◌, inl, inr, List, [], ◌∷◌, true, false, ◌↔◌,
  Bool-cases, subst, arith, leb, leb→le, leb→lt,
}
use cor_reactor.Timer.{
  Timer, TimerManager, less, less_key, comparator, get_next_timer, first_timeout,
  detect_clock_rollover,
}
use cor_reactor.Timer.Ordered.{In, Sorted, All-In, Precedes}
use cor_reactor.Timer.Invariant.{IsValid}

less-le : (heap : ℕ → Timer) (p q : ℕ) → less heap p q ≡ true → (heap p).next ≤ (heap q).next
unfolding comparator less_key
less-le heap p q h = ground arith

first_least :
    (heap : ℕ → Timer) (p q : ℕ) (ps : List ℕ)
    → Precedes heap p ps
    → (q ≡ p) ⊎ In q ps
    → (heap p).next ≤ (heap q).next
first_least heap p q ps h (inl e) = subst (λ r. (heap p).next ≤ (heap r).next) (sym e) (omega arith)
first_least heap p q ps h (inr i) = less-le heap p q (All-In (λ r. less heap p r ≡ true) ps q h i)

-- What a time until the next timer means: nobody is due before it has passed, and somebody is then.
pub record Timeout (heap : ℕ → Timer) (now : ℕ) (ps : List ℕ) (wait : ℕ) : Type 0 where
  pub soonest : (q : ℕ) → In q ps → (wait ≡ 0) ⊎ (now + wait ≤ (heap q).next)
  pub reached :
      (q : ℕ)
      → In q ps
      → (p : ℕ) × In p ps × ((((heap p).next ≤ now) × (wait ≡ 0)) ⊎ ((heap p).next ≡ now + wait))

first_timeout_lem :
    (heap : ℕ → Timer) (now : ℕ) (ps : List ℕ)
    → Sorted heap ps
    → Timeout heap now ps (first_timeout heap now ps)
unfolding first_timeout
first_timeout_lem heap now [] s = record { soonest = λ q i. absurd i; reached = λ q i. absurd i }
first_timeout_lem heap now (p ∷ ps) s = elim (Bool-cases (leb (heap p).next now)) [
  | inl t ↦ rw t (record {
    soonest = λ q i. inl refl;
    reached = λ q i. (p, inl refl, inl (leb→le _ _ t, refl));
  })
  | inr t ↦ rw t (record {
    soonest = λ q i. inr (omega (arith, first_least heap p q ps s.0 i, leb→lt (heap p).next now t));
    reached = λ q i. (p, inl refl, inr (omega (arith, leb→lt (heap p).next now t)));
  })
]

-- On a valid manager getNextTimer forgets that it was notified and changes nothing else. Without
-- timers it returns the greatest 64-bit number; else a time that is 0 or before whose end no timer
-- is due, and some timer is due at its end.
pub get_next_timer_lem :
    (m : TimerManager) (now : ℕ)
    → IsValid m
    → let r = get_next_timer m now in
      (r.0 ≡ record m { tickled = false })
      × (m.timers ≡ [] → r.1 ≡ 2 ^ 64 - 1)
      × Timeout m.heap now m.timers r.1
unfolding get_next_timer
get_next_timer_lem m now v =
    (refl, (λ e. none m.timers e), first_timeout_lem m.heap now m.timers v.sorted)
  where
    none : (ts : List ℕ) → ts ≡ [] → first_timeout m.heap now ts ≡ 2 ^ 64 - 1
    none [] e = refl
    none (p ∷ ps) e = cc e

-- At a time after 0, with deadlines below 2 ^ 64, only a manager without timers returns the greatest
-- 64-bit number.
pub get_next_timer_max :
    (m : TimerManager) (now : ℕ)
    → 0 < now
    → All (λ p. (m.heap p).next < 2 ^ 64) m.timers
    → (get_next_timer m now).1 ≡ 2 ^ 64 - 1
    → m.timers ≡ []
unfolding get_next_timer first_timeout
get_next_timer_max m now z h e = none m.timers h e
  where
    none :
        (ts : List ℕ)
        → All (λ p. (m.heap p).next < 2 ^ 64) ts
        → first_timeout m.heap now ts ≡ 2 ^ 64 - 1
        → ts ≡ []
    none [] h e = refl
    none (p ∷ ps) h e = absurd (ground arith)

-- For times below 2 ^ 64: detectClockRollover reports a clock that went back by more than an hour,
-- and in the first hour of the epoch any clock that went back; it remembers the time.
pub detect_clock_rollover_lem :
    (m : TimerManager) (now : ℕ)
    → m.previous < 2 ^ 64
    → ((detect_clock_rollover m now).1 ≡ true
        ↔ ((now < m.previous) × ((now + 3600000 < m.previous) ⊎ (m.previous < 3600000))))
      × ((detect_clock_rollover m now).0 ≡ record m { previous = now })
unfolding detect_clock_rollover
detect_clock_rollover_lem m now h = (ground arith, refl)
