-- ===== src/IoManager/Rounds.antt =====
-- idle: a round, on a valid IOManager and a valid timer manager.
use mathlib.Core.List.{append_assoc}
use mathlib.Core.Path.{ap₂}
use cor_reactor.Base.{ℕ, ◌≡◌, sym, ap, ◌∙◌, List, ◌++◌, All, some, false, ok, subst}
use cor_reactor.Base.Int.{ℤ}
use cor_reactor.Timer.{get_next_timer, detect_clock_rollover}
use cor_reactor.Timer.Invariant
use cor_reactor.Timer.Expiry.{Fired, firing, callbacks, list_expired_cb_lem}
use cor_reactor.Scheduler.{ScheduleTask}
use cor_reactor.IoManager.Counting.{IsValid}
use cor_reactor.IoManager.Dispatch.{due_tasks, run_timers_lem}
use cor_reactor.IoManager.Reports.{IsRegistered, AreApart, IsHandled, react_all_lem}
use cor_reactor.IoManager.Idle.{
  Reactor, Seen, is_zero, Report, Answer, swaps_out, stopping, wait, after_wait, idle,
}

-- What a round that switches out makes of r: the timers of `firing` have fired, their callbacks
-- went to the queue first, and the reported events were handled.
pub record Idled (r : Reactor) (now a : ℕ) (es : List Report) (q : Reactor) : Type 0 where
  pub valid : IsValid q.io
  pub fired :
      Fired r.timers.heap now
        (firing r.timers now a)
        (q.timers, callbacks r.timers.heap (firing r.timers now a))
  pub queue :
      (rest : List ScheduleTask) × (q.shared.fibers
        ≡ r.shared.fibers ++ (due_tasks (callbacks r.timers.heap (firing r.timers now a)) ++ rest))
  pub handled : All (IsHandled r.io q.io) es

after_wait_lem :
    (r : Reactor) (now a : ℕ) (written : ℤ) (es : List Report)
    → IsValid r.io
    → Invariant.IsValid r.timers
    → is_zero written ≡ false
    → AreApart es
    → All (IsRegistered r.io) es
    → (q : Reactor) × (after_wait r now a written (some es) ≡ ok (swaps_out q)) × Idled r now a es q
unfolding after_wait
after_wait_lem r now a written es v w z apart h =
    let (p, eq, ran) = run_timers_lem r now a written z in
    let (q, eq', reacted) =
      react_all_lem p es (subst IsValid (sym ran.io) v) apart
        (subst (λ m. All (IsRegistered m) es) (sym ran.io) h) in
    let f = list_expired_cb_lem r.timers now a w in
    let (rest, queue) = reacted.queue in
    (
      q,
      rw (eq, eq'),
      record {
        valid = reacted.valid;
        fired =
            subst (λ x. Fired r.timers.heap now (firing r.timers now a) x)
              (ap₂ (λ t cbs. (t, cbs)) (sym (reacted.timers ∙ ran.timers)) f.returned) f;
        queue = (
          rest,
          queue
              ∙ ap (λ ts. ts ++ rest)
                  (ran.queue ∙ ap (λ cbs. r.shared.fibers ++ due_tasks cbs) f.returned)
              ∙ append_assoc r.shared.fibers _ rest,
        );
        handled = subst (λ m. All (IsHandled m q.io) es) ran.io reacted.handled;
      },
    )

-- On a valid IOManager and a valid timer manager, where stopping answers no, epoll_wait ends with
-- reports of registered events, at most one report for each descriptor, and the write of tickle does
-- not return 0: the round of idle ends without a failed assertion and switches out. Every timer has
-- fired if the clock went back, and else each timer before (now, a) in the order of the set, with a
-- the address of the comparison timer; their callbacks are in the queue, behind what was there. Each
-- reported descriptor has lost the reported events and no other, or is as it was; and both managers
-- are valid.
pub idle_lem :
    (r : Reactor) (before : ℕ) (seen : Seen) (answers : List Answer) (now a : ℕ) (written : ℤ)
    (es : List Report)
    → IsValid r.io
    → Invariant.IsValid r.timers
    → (stopping r before seen).1.1 ≡ false
    → (wait (stopping r before seen).1.0 answers).1 ≡ some es
    → is_zero written ≡ false
    → AreApart es
    → All (IsRegistered r.io) es
    → (q : Reactor) × (idle r before seen answers now a written ≡ ok (swaps_out q))
      × Idled r now a es q
unfolding idle stopping get_next_timer detect_clock_rollover
idle_lem r before seen answers now a written es v w stays reports z apart h =
    let r' = (stopping r before seen).0 in
    let (q, eq, done) =
      after_wait_lem r' now a written es v (record { sorted = w.sorted; live = w.live }) z apart
        h in
    (
      q,
      rw (stays, reports) eq,
      record { valid = done.valid; fired = done.fired; queue = done.queue; handled = done.handled },
    )
