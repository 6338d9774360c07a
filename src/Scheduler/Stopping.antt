-- ===== src/Scheduler/Stopping.antt =====
-- `stopping`: what is left when it answers yes, and what is not.
use cor_reactor.Base.{
  ℕ, ◌-◌, ◌≡◌, refl, subst, List, [], ◌∷◌, Option, none, some, true, ◌==◌, ==_iff, get_elem?,
  get_elem?-some, get_elem?-set, set, ◌∙◌, ok, >>=-eq-ok, ok_eq, All, arith,
}
use cor_reactor.Scheduler.{
  State, state_ready, ScheduleTask, Scheduler, is_empty, schedule_no_lock, set_state, after_swap,
}
use cor_reactor.Scheduler.Workers.{
  looking, in_fiber, fiber_out, fiber_left, Worker, System, Reads, is_stopping, at_once, leave,
  count_down, fiber_back, act_in, act, Event, acts, schedules, auto_stops, stops, worker_step, step,
  steps,
}
use cor_reactor.Scheduler.Racing.{set_state_same}
use cor_reactor.Scheduler.Counting.{
  holds, total, IsCounted, act_counts, step-IsCounted, steps-IsCounted,
}

-- A flag that is set stays set: only stop writes the flags here, and it sets them.
record Raised (y z : System) : Type 0 where
  auto_stop : y.shared.auto_stop ≡ true → z.shared.auto_stop ≡ true
  stopping : y.shared.stopping ≡ true → z.shared.stopping ≡ true

worker_step-Raised :
    (y z : System) (i fresh : ℕ) (o : State) (v : Option Worker)
    → IsCounted y
    → get_elem? y.workers i ≡ v
    → worker_step y i fresh o v ≡ ok z
    → Raised y z
unfolding worker_step
worker_step-Raised y z i fresh o none c at h =
    subst (Raised y) (ok_eq h) (record { auto_stop = λ e. e; stopping = λ e. e })
worker_step-Raised y z i fresh o (some w) c at h =
    let (r, e, q) = >>=-eq-ok (act y.shared w fresh o) _ h in
    let (a, d, auto, st) = act_counts y i fresh o w r c at e in
    subst (Raised y) (ok_eq q) (record { auto_stop = λ e. auto ∙ e; stopping = λ e. st ∙ e })

step-Raised : (y z : System) (e : Event) → IsCounted y → step y e ≡ ok z → Raised y z
unfolding step
step-Raised y z (acts i fresh o) c h = worker_step-Raised y z i fresh o _ c refl h
step-Raised y z (schedules t) c h =
    subst (Raised y) (ok_eq h) (record { auto_stop = λ e. e; stopping = λ e. e })
step-Raised y z auto_stops c h =
    subst (Raised y) (ok_eq h) (record { auto_stop = λ e. refl; stopping = λ e. e })
step-Raised y z stops c h =
    subst (Raised y) (ok_eq h) (record { auto_stop = λ e. e; stopping = λ e. refl })

steps-Raised : (y z : System) (es : List Event) → IsCounted y → steps y es ≡ ok z → Raised y z
unfolding steps
steps-Raised y z [] c h =
    subst (Raised y) (ok_eq h) (record { auto_stop = λ e. e; stopping = λ e. e })
steps-Raised y z (e ∷ es) c h =
    let (x, k, l) = >>=-eq-ok (step y e) _ h in
    let first = step-Raised y x e c k in
    let later = steps-Raised x z es (step-IsCounted y x e c k) l in
    record {
      auto_stop = λ t. later.auto_stop (first.auto_stop t);
      stopping = λ t. later.stopping (first.stopping t);
    }

-- No worker has a task that it took and whose fiber has not left.
abbrev pub AreFree : List Worker → Type 0
AreFree = All (λ w. holds w.phase ≡ 0)

total-AreFree : (ws : List Worker) → total holds ws ≡ 0 → AreFree ws
total-AreFree [] h = tt
total-AreFree (w ∷ ws) h = (omega (arith, h), total-AreFree ws (omega (arith, h)))

is_empty-eq : (ts : List ScheduleTask) → is_empty ts ≡ true → ts ≡ []
is_empty-eq [] h = refl
is_empty-eq (t ∷ ts) h = cc h

-- What `stopping` read, where other threads act between the reads: a, b, c and d are the systems in
-- which it read m_autoStop, m_stopping, the queue and the counter of active threads.
abbrev pub reads_over : System → System → System → System → Reads
reads_over a b c d = record {
  auto_stop = a.shared.auto_stop;
  stopping = b.shared.stopping;
  queue = c.shared.fibers;
  active = d.shared.active;
}

-- A run of a scheduler whose counters count, without a failed assertion, with whatever the threads
-- do between the reads of `stopping`: when it answers yes, both flags that stop sets are set at the
-- last read, the queue was empty when it was read, and at the last read no thread has a task that it
-- took and whose fiber has not left.
pub is_stopping_lem :
    (y a b c d : System) (before between_flags before_queue before_active : List Event)
    → IsCounted y
    → steps y before ≡ ok a
    → steps a between_flags ≡ ok b
    → steps b before_queue ≡ ok c
    → steps c before_active ≡ ok d
    → is_stopping (reads_over a b c d) ≡ true
    → (d.shared.auto_stop ≡ true)
      × (d.shared.stopping ≡ true)
      × (c.shared.fibers ≡ [])
      × AreFree d.workers
unfolding is_stopping
is_stopping_lem y a b c d es fs gs hs k ra rb rc rd s =
    let ka = steps-IsCounted y a es k ra in
    let kb = steps-IsCounted a b fs ka rb in
    let kc = steps-IsCounted b c gs kb rc in
    let kd = steps-IsCounted c d hs kc rd in
    let ab = steps-Raised a b fs ka rb in
    let bc = steps-Raised b c gs kb rc in
    let cd = steps-Raised c d hs kc rd in
    let none_active : (d.shared.active == 0) ≡ true = ground arith in
    (
      cd.auto_stop (bc.auto_stop (ab.auto_stop (ground arith))),
      cd.stopping (bc.stopping (ground arith)),
      is_empty-eq c.shared.fibers (ground arith),
      total-AreFree d.workers (omega (arith, kd.active, (==_iff d.shared.active 0).0 none_active)),
    )

queued :
    (s : Scheduler) (f : ℕ)
    → s.fibers ≡ []
    → (after_swap s f state_ready).fibers ≡ record { fiber = some f; cb = none; thread = none } ∷ []
unfolding after_swap schedule_no_lock
queued s f q = rw q refl

-- When the only active thread runs a fiber that yields to be queued again, both flags are set and the
-- queue is empty: two steps later `stopping` answers yes, although the fiber is not done, and one
-- step after that the fiber is in the queue.
pub steps-leaving :
    (y : System) (i f : ℕ) (w : Worker) (o : State)
    → get_elem? y.workers i ≡ some w
    → w.phase ≡ in_fiber f
    → y.shared.auto_stop ≡ true
    → y.shared.stopping ≡ true
    → y.shared.fibers ≡ []
    → y.shared.active ≡ 1
    → (z : System) × (u : System) × (steps y (acts i 0 state_ready ∷ acts i 0 o ∷ []) ≡ ok z)
      × (is_stopping (at_once z.shared) ≡ true)
      × (step z (acts i 0 o) ≡ ok u)
      × (u.shared.fibers ≡ record { fiber = some f; cb = none; thread = none } ∷ [])
unfolding steps step worker_step act act_in leave count_down fiber_back is_stopping
steps-leaving y i f w o at p a b q n =
    let in_range = get_elem?-some y.workers i w at in
    let w1 : Worker = record w { phase = fiber_out f } in
    let w2 : Worker = record w { phase = fiber_left f } in
    let w3 : Worker = record w { phase = looking } in
    let states = set_state y.shared.states f state_ready in
    let s1 : Scheduler = record y.shared { states = states } in
    let s2 : Scheduler = record s1 { active = s1.active - 1 } in
    let ws1 = set y.workers i w1 in
    let ws2 = set ws1 i w2 in
    let at1 : get_elem? ws1 i ≡ some w1 = get_elem?-set y.workers i w1 in_range in
    let at2 : get_elem? ws2 i ≡ some w2 = get_elem?-set ws1 i w2 (get_elem?-some ws1 i w1 at1) in
    let ready : states f ≡ state_ready = set_state_same y.shared.states f state_ready in
    (
      record { shared = s2; workers = ws2 },
      record { shared = after_swap s2 f state_ready; workers = set ws2 i w3 },
      rw at (rw p (rw at1 refl)),
      rw (a, b, q, n) refl,
      rw at2 (rw ready refl),
      queued s2 f q,
    )
