-- ===== src/Timer/Expiry.antt =====
-- listExpiredCb: which timers fire, what it returns, and what becomes of them.
use mathlib.Core.List.{map}
use mathlib.Core.Path.{ap₂}
use cor_reactor.Base.{
  ℕ, ◌≤◌, ◌<◌, ◌≡◌, refl, sym, ap, ◌∙◌, ◌≢◌, ◌⊎◌, inl, inr, List, [], ◌∷◌, All, Option, none, some,
  Bool, true, false, if◌then◌else◌, ltb, arith, Bool-cases, subst,
}
use cor_reactor.Timer.{
  Timer, TimerManager, add64, less, less_key, insert, update, expired, unexpired, expire,
  expire_all, collect, nothing_due, detect_clock_rollover, list_expired_cb,
}
use cor_reactor.Timer.Order.{less-ne, update_same, update_other}
use cor_reactor.Timer.Ordered.{
  In, NotIn, Sorted, insert-All, In-insert_new, In-insert, Sorted-update, All-map, All-In,
}
use cor_reactor.Timer.Due.{
  Due, unexpired-Sorted, expired-Sorted, In-split, expired-apart, expired-Due, In-expired,
}
use cor_reactor.Timer.Invariant.{IsValid, eq-cases, put, put-Sorted}

abbrev pub callbacks : (ℕ → Timer) → List ℕ → List (Option ℕ)
callbacks heap = map (λ q. (heap q).cb)

-- A timer that fired: armed again, or without its callback.
abbrev pub after : ℕ → Timer → Timer
after now t = if t.recurring then record t { next = add64 now t.ms } else record t { cb = none }

abbrev Distinct : List ℕ → Type 0
Distinct [] = Unit
Distinct (p ∷ ps) = NotIn p ps × Distinct ps

-- In the middle of the loop over the expired timers: `ps` are out of the set and still to be fired.
record Pending (m : TimerManager) (ps : List ℕ) : Type 0 where
  sorted : Sorted m.heap m.timers
  apart : All (λ p. NotIn p m.timers) ps
  distinct : Distinct ps
  live : (q c : ℕ) → (m.heap q).cb ≡ some c → In q m.timers ⊎ In q ps

expire_heap :
    (m : TimerManager) (now p : ℕ) → (expire m now p).heap ≡ update m.heap p (after now (m.heap p))
unfolding expire
expire_heap m now p = elim (Bool-cases (m.heap p).recurring) [ inl r ↦ rw r | inr r ↦ rw r ]

expire_other : (m : TimerManager) (now p q : ℕ) → q ≢ p → (expire m now p).heap q ≡ m.heap q
expire_other m now p q n =
    ap (λ (h : ℕ → Timer). h q) (expire_heap m now p) ∙ update_other m.heap p _ q n

-- The place of a timer that is in the set, or still to be fired behind p.
behind :
    (q p : ℕ) (ts us ps : List ℕ)
    → q ≢ p
    → (In q ts → In q us)
    → In q ts ⊎ ((q ≡ p) ⊎ In q ps)
    → In q us ⊎ In q ps
behind q p ts us ps n f (inl i) = inl (f i)
behind q p ts us ps n f (inr (inl e)) = absurd (n e)
behind q p ts us ps n f (inr (inr i)) = inr i

module _ (m : TimerManager) (p : ℕ) (ps : List ℕ) (v : Pending m (p ∷ ps)) where
  rearmed-Pending : (t : Timer) (tickled : Bool) → Pending (put m p t m.timers tickled) ps
  rearmed-Pending t tickled = record {
    sorted = put-Sorted m p t m.timers tickled v.apart.0 v.sorted;
    apart = apart ps v.distinct.0 v.apart.1;
    distinct = v.distinct.1;
    live = λ q c e. elim (eq-cases q p) [
      | inl same ↦ inl (
          subst (λ r. In r (insert (update m.heap p t) p m.timers)) (sym same)
            (In-insert_new (update m.heap p t) p m.timers))
      | inr other ↦
          behind q p m.timers (insert (update m.heap p t) p m.timers) ps other
            (In-insert (update m.heap p t) p q m.timers)
            (v.live q c (ap (λ (x : Timer). x.cb) (sym (update_other m.heap p t q other)) ∙ e))
    ];
  }
    where
      apart :
          (qs : List ℕ)
          → NotIn p qs
          → All (λ q. NotIn q m.timers) qs
          → All (λ q. NotIn q (insert (update m.heap p t) p m.timers)) qs
      apart [] n h = tt
      apart (q ∷ qs) n h = (
        insert-All (update m.heap p t) (λ r. r ≢ q) p m.timers (λ e. n.0 (sym e)) h.0,
        apart qs n.1 h.1,
      )

  dropped-Pending :
      Pending (record m { heap = update m.heap p (record (m.heap p) { cb = none }) }) ps
  dropped-Pending =
      let t : Timer = record (m.heap p) { cb = none } in
      record {
        sorted = Sorted-update m.heap p t m.timers v.apart.0 v.sorted;
        apart = v.apart.1;
        distinct = v.distinct.1;
        live = λ q c e. elim (eq-cases q p) [
          | inl same ↦ absurd (
              cc (
                e,
                ap (λ (x : Timer). x.cb) (ap (update m.heap p t) same ∙ update_same m.heap p t),
              ))
          | inr other ↦
              behind q p m.timers m.timers ps other (λ i. i)
                (v.live q c (ap (λ (x : Timer). x.cb) (sym (update_other m.heap p t q other)) ∙ e))
        ];
      }

  expire-Pending : (now : ℕ) → Pending (expire m now p) ps
  unfolding expire
  expire-Pending now = elim (Bool-cases (m.heap p).recurring) [
    | inl r ↦
        subst (λ n. Pending n ps) (sym (rw r))
          (rearmed-Pending (record (m.heap p) { next = add64 now (m.heap p).ms }) m.tickled)
    | inr r ↦ subst (λ n. Pending n ps) (sym (rw r)) dropped-Pending
  ]

-- What firing the timers `ps` makes of m.
pub record Fired (heap : ℕ → Timer) (now : ℕ) (ps : List ℕ) (r : TimerManager × List (Option ℕ))
    : Type 0 where
  pub valid : IsValid r.0
  pub returned : r.1 ≡ callbacks heap ps
  pub fired : All (λ q. r.0.heap q ≡ after now (heap q)) ps
  pub others : (q : ℕ) → NotIn q ps → r.0.heap q ≡ heap q

callbacks-same :
    (heap heap' : ℕ → Timer) (ps : List ℕ)
    → All (λ q. heap' q ≡ heap q) ps
    → callbacks heap' ps ≡ callbacks heap ps
callbacks-same heap heap' [] h = refl
callbacks-same heap heap' (p ∷ ps) h =
    ap₂ ◌∷◌ (ap (λ (t : Timer). t.cb) h.0) (callbacks-same heap heap' ps h.1)

after-same :
    (now : ℕ) (final heap heap' : ℕ → Timer) (ps : List ℕ)
    → All (λ q. heap' q ≡ heap q) ps
    → All (λ q. final q ≡ after now (heap' q)) ps
    → All (λ q. final q ≡ after now (heap q)) ps
after-same now final heap heap' [] h k = tt
after-same now final heap heap' (p ∷ ps) h k =
    (k.0 ∙ ap (after now) h.0, after-same now final heap heap' ps h.1 k.1)

set_only : (q : ℕ) (ts : List ℕ) → In q ts ⊎ In q [] → In q ts
set_only q ts (inl i) = i
set_only q ts (inr i) = absurd i

expire_all_lem :
    (m : TimerManager) (now : ℕ) (ps : List ℕ)
    → Pending m ps
    → Fired m.heap now ps (expire_all m now ps)
unfolding expire_all
expire_all_lem m now [] v = record {
  valid = record { sorted = v.sorted; live = λ q c e. set_only q m.timers (v.live q c e) };
  returned = refl;
  fired = tt;
  others = λ q h. refl;
}
expire_all_lem m now (p ∷ ps) v =
    let m' = expire m now p in
    let f = expire_all_lem m' now ps (expire-Pending m p ps v now) in
    let same : All (λ q. m'.heap q ≡ m.heap q) ps =
      All-map (λ q. q ≢ p) (λ q. m'.heap q ≡ m.heap q) ps (expire_other m now p) v.distinct.0 in
    record {
      valid = f.valid;
      returned = ap (◌∷◌ (m.heap p).cb) (f.returned ∙ callbacks-same m.heap m'.heap ps same);
      fired = (
        f.others p v.distinct.0
            ∙ ap (λ (h : ℕ → Timer). h p) (expire_heap m now p)
            ∙ update_same m.heap p _,
        after-same now _ m.heap m'.heap ps same f.fired,
      );
      others = λ q h. f.others q h.1 ∙ expire_other m now p q (λ e. h.0 (sym e));
    }

Sorted-Distinct : (heap : ℕ → Timer) (ps : List ℕ) → Sorted heap ps → Distinct ps
Sorted-Distinct heap [] h = tt
Sorted-Distinct heap (p ∷ ps) h = (
  All-map (λ q. less heap p q ≡ true) (λ q. q ≢ p) ps (λ q b e. less-ne heap p q b (sym e)) h.0,
  Sorted-Distinct heap ps h.1,
)

expired-Pending :
    (m : TimerManager) (now a : ℕ)
    → IsValid m
    → Pending
        (record m { timers = unexpired m.heap now a m.timers })
        (expired m.heap now a m.timers)
expired-Pending m now a v = record {
  sorted = unexpired-Sorted m.heap now a m.timers v.sorted;
  apart = expired-apart m.heap now a m.timers v.sorted;
  distinct = Sorted-Distinct m.heap _ (expired-Sorted m.heap now a m.timers v.sorted);
  live = λ q c e. In-split m.heap now a q m.timers (v.live q c e);
}

all-Pending : (m : TimerManager) → IsValid m → Pending (record m { timers = [] }) m.timers
all-Pending m v = record {
  sorted = tt;
  apart = empty m.timers;
  distinct = Sorted-Distinct m.heap m.timers v.sorted;
  live = λ q c e. inr (v.live q c e);
}
  where
    empty : (ps : List ℕ) → All (λ p. NotIn p []) ps
    empty [] = tt
    empty (p ∷ ps) = (tt, empty ps)

-- The clock went back by more than an hour.
abbrev pub rollover : TimerManager → ℕ → Bool
rollover m now = (detect_clock_rollover m now).1

-- The timers that a call at `now` fires, `a` being the address of its comparison timer.
abbrev pub firing : TimerManager → ℕ → ℕ → List ℕ
firing m now a = if rollover m now then m.timers else expired m.heap now a m.timers

module _ (now a : ℕ) (heap : ℕ → Timer) (tickled : Bool) (previous : ℕ) where
  abbrev manager : List ℕ → TimerManager
  manager ts = record { heap = heap; timers = ts; tickled = tickled; previous = previous }

  moved : {ts : List ℕ} → IsValid (manager ts) → IsValid (record (manager ts) { previous = now })
  moved v = record { sorted = v.sorted; live = v.live }

  -- A call that fires nothing.
  idle_lem :
      (ts fs : List ℕ)
      → IsValid (manager ts)
      → fs ≡ []
      → Fired heap now fs (record (manager ts) { previous = now }, [])
  idle_lem ts fs v e =
      subst (λ l. Fired heap now l (record (manager ts) { previous = now }, [])) (sym e)
        (record { valid = moved v; returned = refl; fired = tt; others = λ q h. refl })

  not_due :
      (p : ℕ) (ps : List ℕ)
      → Sorted heap (p ∷ ps)
      → ltb now (heap p).next ≡ true
      → expired heap now a (p ∷ ps) ≡ []
  unfolding expired less_key
  not_due p ps s h = ground arith

  due_lem :
      (p : ℕ) (ps : List ℕ)
      → IsValid (manager (p ∷ ps))
      → (r : Bool)
      → Fired heap now (if r then p ∷ ps else expired heap now a (p ∷ ps)) (
          if nothing_due heap now r (p ∷ ps)
          then (record (manager (p ∷ ps)) { previous = now }, [])
          else collect (record (manager (p ∷ ps)) { previous = now }) r now a)
  unfolding nothing_due collect
  due_lem p ps v true = expire_all_lem _ now (p ∷ ps) (all-Pending _ (moved v))
  due_lem p ps v false = elim (Bool-cases (ltb now (heap p).next)) [
    | inl t ↦ rw t (idle_lem (p ∷ ps) _ v (not_due p ps v.sorted t))
    | inr t ↦ rw t (expire_all_lem _ now _ (expired-Pending _ now a (moved v)))
  ]

  none_firing : (r : Bool) → (if r then [] else expired heap now a []) ≡ []
  unfolding expired
  none_firing true = refl
  none_firing false = refl

  by_timers :
      (ts : List ℕ)
      → IsValid (manager ts)
      → Fired heap now (firing (manager ts) now a) (list_expired_cb (manager ts) now a)
  unfolding list_expired_cb detect_clock_rollover
  by_timers [] v = record {
    valid = v;
    returned = ap (callbacks heap) (sym (none_firing (rollover (manager []) now)));
    fired =
        subst (All (λ q. heap q ≡ after now (heap q)))
          (sym (none_firing (rollover (manager []) now))) tt;
    others = λ q h. refl;
  }
  by_timers (p ∷ ps) v = due_lem p ps v (rollover (manager (p ∷ ps)) now)

-- On a valid manager listExpiredCb returns the callbacks of the timers it fires, in the order of the
-- set; each of them is armed again for now + ms where it recurs and loses its callback where it does
-- not, the other timers are left alone, and the manager stays valid. It fires every timer after the
-- clock went back, and else those before (now, a), where `a` is the address of its comparison timer.
pub list_expired_cb_lem :
    (m : TimerManager) (now a : ℕ)
    → IsValid m
    → Fired m.heap now (firing m now a) (list_expired_cb m now a)
list_expired_cb_lem m now a v = by_timers now a m.heap m.tickled m.previous m.timers v

-- In a valid manager, of the timers in the set those with a deadline before now are expired, those
-- with a later one are not, and one with the deadline now is exactly when its address is below `a`.
pub expired_iff :
    (m : TimerManager) (now a q : ℕ)
    → IsValid m
    → In q m.timers
    → ((m.heap q).next < now → In q (expired m.heap now a m.timers))
      × (now < (m.heap q).next → ¬ In q (expired m.heap now a m.timers))
      × ((m.heap q).next ≡ now → q < a → In q (expired m.heap now a m.timers))
      × ((m.heap q).next ≡ now → a ≤ q → ¬ In q (expired m.heap now a m.timers))
unfolding less_key
expired_iff m now a q v i = (
  (λ h. In-expired m.heap now a q m.timers v.sorted i (before h)),
  (λ h j. late h (due j)),
  (λ e h. In-expired m.heap now a q m.timers v.sorted i (same e h)),
  (λ e h j. not_same e h (due j)),
)
  where
    due : In q (expired m.heap now a m.timers) → Due m.heap now a q
    due j =
        All-In (Due m.heap now a) (expired m.heap now a m.timers) q
          (expired-Due m.heap now a m.timers) j

    before : (m.heap q).next < now → Due m.heap now a q
    before h = ground arith

    late : now < (m.heap q).next → ¬ Due m.heap now a q
    late h d = ground arith

    same : (m.heap q).next ≡ now → q < a → Due m.heap now a q
    same e h = ground arith

    not_same : (m.heap q).next ≡ now → a ≤ q → ¬ Due m.heap now a q
    not_same e h d = ground arith
