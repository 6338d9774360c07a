-- ===== src/Timer/Invariant.antt =====
-- The invariant of the manager: the set is in order and holds every timer that has a callback. Each
-- call of a client keeps it.
use cor_reactor.Base.{
  ℕ, ◌≡◌, refl, sym, ap, ◌∙◌, ◌≢◌, ◌⊎◌, inl, inr, List, Option, none, some, Bool, true, false, not,
  ◌&&◌, ◌==◌, ==_iff, if◌then◌else◌, Bool-cases, subst, ok,
}
use cor_reactor.Timer.{
  Timer, TimerManager, timer_manager, new_timer, add_timer, cancel, refresh, reset, rearm, insert,
  erase, is_begin, update, add64, sub64,
}
use cor_reactor.Timer.Order.{update_same, update_other}
use cor_reactor.Timer.Ordered.{
  In, NotIn, Sorted, insert-Sorted, In-insert_new, In-insert, erase-Sorted, erase-NotIn, In-erase,
  find-In, Sorted-update, Sorted-same,
}

-- An address without a timer has no callback.
pub record IsValid (m : TimerManager) : Type 0 where
  pub sorted : Sorted m.heap m.timers
  pub live : (q c : ℕ) → (m.heap q).cb ≡ some c → In q m.timers

-- What a call on the timer p leaves alone: the other timers, and their place in the set.
pub record Others (p : ℕ) (m n : TimerManager) : Type 0 where
  pub heap : (q : ℕ) → q ≢ p → n.heap q ≡ m.heap q
  pub kept : (q : ℕ) → q ≢ p → In q m.timers → In q n.timers

pub eq-cases : (q p : ℕ) → (q ≡ p) ⊎ (q ≢ p)
eq-cases q p = elim (Bool-cases (q == p)) [
  | inl e ↦ inl ((==_iff q p).0 e)
  | inr e ↦ inr (λ k. absurd (cc (e, (==_iff q p).1 k)))
]

pub timer_manager-IsValid :
    (now : ℕ) (heap : ℕ → Timer) → ((q : ℕ) → (heap q).cb ≡ none) → IsValid (timer_manager now heap)
unfolding timer_manager
timer_manager-IsValid now heap h = record { sorted = tt; live = λ q c e. absurd (cc (e, h q)) }

-- Putting a timer into a set that does not hold it.
module _ (m : TimerManager) (p : ℕ) (t : Timer) (rest : List ℕ) (tickled : Bool) where
  abbrev pub put : TimerManager
  put =
      let heap' = update m.heap p t in
      record m { heap = heap'; timers = insert heap' p rest; tickled = tickled }

  pub put-Sorted : NotIn p rest → Sorted m.heap rest → Sorted put.heap put.timers
  put-Sorted n s = insert-Sorted _ p rest (Sorted-update m.heap p t rest n s)

  put-live :
      ((q c : ℕ) → q ≢ p → (m.heap q).cb ≡ some c → In q rest)
      → (q c : ℕ) → (put.heap q).cb ≡ some c
      → In q put.timers
  put-live h q c e = elim (eq-cases q p) [
    | inl same ↦ subst (λ r. In r put.timers) (sym same) (In-insert_new (update m.heap p t) p rest)
    | inr other ↦
        In-insert _ p q rest
          (h q c other (ap (λ (x : Timer). x.cb) (sym (update_other m.heap p t q other)) ∙ e))
  ]

  pub put-IsValid :
      NotIn p rest
      → Sorted m.heap rest
      → ((q c : ℕ) → q ≢ p → (m.heap q).cb ≡ some c → In q rest)
      → IsValid put
  put-IsValid n s h = record { sorted = put-Sorted n s; live = put-live h }

-- With an address that is not in the set, addTimer keeps the invariant, puts the new timer into the
-- set with its deadline, leaves the other timers alone, and notifies only when the manager was not
-- notified before.
pub add_timer_lem :
    (m : TimerManager) (p now ms : ℕ) (cb : Option ℕ) (recurring : Bool)
    → IsValid m
    → NotIn p m.timers
    → let r = add_timer m p now ms cb recurring in
      IsValid r.0
      × In p r.0.timers
      × (r.0.heap p ≡ record { recurring = recurring; ms = ms; next = add64 now ms; cb = cb })
      × Others p m r.0
      × (r.1 ≡ true → (m.tickled ≡ false) × (r.0.tickled ≡ true))
unfolding add_timer new_timer
add_timer_lem m p now ms cb recurring v n =
    let t = new_timer now ms cb recurring in
    (
      put-IsValid m p t m.timers _ n v.sorted (λ q c other e. v.live q c e),
      In-insert_new _ p m.timers,
      update_same m.heap p t,
      record { heap = update_other m.heap p t; kept = λ q other. In-insert _ p q m.timers },
      front (is_begin p (insert (update m.heap p t) p m.timers)) m.tickled,
    )
  where
    front :
        (begin tickled : Bool)
        → (begin && not tickled) ≡ true
        → (tickled ≡ false) × ((if begin && not tickled then true else tickled) ≡ true)
    front true false h = (refl, refl)
    front true true h = cc h
    front false tickled h = cc h

-- The branches of a test for an empty function.
when_none :
    {A : Type 0} (x : A) (y : ℕ → A) (o : Option ℕ)
    → o ≡ none
    → (elim o [ none ↦ x | some c ↦ y c ]) ≡ x
when_none x y none e = refl
when_none x y (some c) e = cc e

when_some :
    {A : Type 0} (x y : A) (o : Option ℕ) (c : ℕ)
    → o ≡ some c
    → (elim o [ none ↦ x | some d ↦ y ]) ≡ y
when_some x y none c e = cc e
when_some x y (some d) c e = refl

pub cb_update-next :
    (heap : ℕ → Timer) (p : ℕ) (cb : Option ℕ) (q : ℕ)
    → (update heap p (record (heap p) { cb = cb }) q).next ≡ (heap q).next
cb_update-next heap p cb q = elim (eq-cases q p) [
  | inl same ↦
      ap (λ r. (update heap p (record (heap p) { cb = cb }) r).next) same
      ∙ ap (λ (x : Timer). x.next) (update_same heap p (record (heap p) { cb = cb }))
      ∙ ap (λ r. (heap r).next) (sym same)
  | inr other ↦
      ap (λ (x : Timer). x.next) (update_other heap p (record (heap p) { cb = cb }) q other)
]

-- cancel, on a valid manager: a timer without callback is left as it is. The assertion on any other
-- holds: it loses its callback and its place in the set, the other timers are left alone, and the
-- manager stays valid.
pub cancel_lem :
    (m : TimerManager) (p : ℕ)
    → IsValid m
    → ((m.heap p).cb ≡ none → cancel m p ≡ ok (m, false))
      × ((c : ℕ)
          → (m.heap p).cb ≡ some c
          → (n : TimerManager) × (cancel m p ≡ ok (n, true))
            × IsValid n
            × ((n.heap p).cb ≡ none)
            × NotIn p n.timers
            × Others p m n)
unfolding cancel
cancel_lem m p v = (
  (λ e. when_none _ _ (m.heap p).cb e),
  (λ c e.
      let t : Timer = record (m.heap p) { cb = none } in
      let heap' = update m.heap p t in
      let sorted' : Sorted heap' m.timers =
        Sorted-same m.heap heap' (λ q. cb_update-next m.heap p none q) m.timers v.sorted in
      (
        record m { heap = heap'; timers = erase heap' p m.timers },
        when_some _ _ (m.heap p).cb c e ∙ (rw (find-In heap' p m.timers (v.live p c e))),
        record {
          sorted = erase-Sorted heap' p m.timers sorted';
          live = λ q d f. elim (eq-cases q p) [
            | inl same ↦
                absurd (cc (f, ap (λ (x : Timer). x.cb) (ap heap' same ∙ update_same m.heap p t)))
            | inr other ↦
                In-erase heap' p q m.timers other (
                  v.live q d (ap (λ (x : Timer). x.cb) (sym (update_other m.heap p t q other)) ∙ f))
          ];
        },
        ap (λ (x : Timer). x.cb) (update_same m.heap p t),
        erase-NotIn heap' p m.timers sorted',
        record {
          heap = update_other m.heap p t;
          kept = λ q other. In-erase heap' p q m.timers other;
        },
      )),
)

-- The timer p armed again as t.
pub record Rearmed (m : TimerManager) (p : ℕ) (t : Timer) (n : TimerManager) : Type 0 where
  pub valid : IsValid n
  pub timer : n.heap p ≡ t
  pub member : In p n.timers
  pub others : Others p m n

rearm_lem : (m : TimerManager) (p : ℕ) (t : Timer) → IsValid m → Rearmed m p t (rearm m p t)
unfolding rearm
rearm_lem m p t v =
    let rest = erase m.heap p m.timers in
    record {
      valid =
          put-IsValid m p t rest m.tickled (erase-NotIn m.heap p m.timers v.sorted)
            (erase-Sorted m.heap p m.timers v.sorted)
            (λ q c other e. In-erase m.heap p q m.timers other (v.live q c e));
      timer = update_same m.heap p t;
      member = In-insert_new _ p rest;
      others = record {
        heap = update_other m.heap p t;
        kept = λ q other i. In-insert _ p q rest (In-erase m.heap p q m.timers other i);
      };
    }

-- refresh, on a valid manager: a timer without callback is left as it is and reported false; any
-- other gets the deadline now + ms and is reported true, the other timers are left alone, and the
-- manager stays valid.
pub refresh_lem :
    (m : TimerManager) (p now : ℕ)
    → IsValid m
    → ((m.heap p).cb ≡ none → refresh m p now ≡ (m, false))
      × ((c : ℕ)
          → (m.heap p).cb ≡ some c
          → (n : TimerManager) × (refresh m p now ≡ (n, true))
            × Rearmed m p (record (m.heap p) { next = add64 now (m.heap p).ms }) n)
unfolding refresh
refresh_lem m p now v = (
  (λ e. when_none _ _ (m.heap p).cb e),
  (λ c e. (
    _,
    when_some _ _ (m.heap p).cb c e ∙ (rw (find-In m.heap p m.timers (v.live p c e))),
    rearm_lem m p _ v,
  )),
)

reset_differs :
    (ms old : ℕ) (from_now : Bool)
    → (ms ≢ old) ⊎ (from_now ≡ true)
    → ((ms == old) && not from_now) ≡ false
reset_differs ms old from_now (inl n) = elim (Bool-cases (ms == old)) [
  | inl e ↦ absurd (n ((==_iff ms old).0 e))
  | inr e ↦ rw e
]
reset_differs ms old from_now (inr h) = elim (Bool-cases (ms == old)) [
  | inl e ↦ rw (e, h)
  | inr e ↦ rw e
]

-- reset, on a valid manager: with the same period and not from now it does nothing and reports true,
-- cancelled timers included. Otherwise a timer without callback is left as it is and reported
-- false; any other gets the new period, and the deadline that is the period after now or after the
-- start of the old one.
pub reset_lem :
    (m : TimerManager) (p ms : ℕ) (from_now : Bool) (now : ℕ)
    → IsValid m
    → (ms ≡ (m.heap p).ms → from_now ≡ false → reset m p ms from_now now ≡ (m, true))
      × ((ms ≢ (m.heap p).ms) ⊎ (from_now ≡ true)
          → ((m.heap p).cb ≡ none → reset m p ms from_now now ≡ (m, false))
            × ((c : ℕ)
                → (m.heap p).cb ≡ some c
                → let start = if from_now then now else sub64 (m.heap p).next (m.heap p).ms in
                  (n : TimerManager) × (reset m p ms from_now now ≡ (n, true))
                  × Rearmed m p (record (m.heap p) { ms = ms; next = add64 start ms }) n))
unfolding reset
reset_lem m p ms from_now now v = (
  (λ e f. rw ((==_iff ms (m.heap p).ms).1 e, f)),
  (λ change.
      let differs : ((ms == (m.heap p).ms) && not from_now) ≡ false =
        reset_differs ms (m.heap p).ms from_now change in
      (
        (λ e. rw differs (when_none _ _ (m.heap p).cb e)),
        (λ c e. (
          _,
          rw differs
              (when_some _ _ (m.heap p).cb c e ∙ (rw (find-In m.heap p m.timers (v.live p c e)))),
          rearm_lem m p _ v,
        )),
      )),
)
