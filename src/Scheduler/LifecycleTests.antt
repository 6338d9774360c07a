-- ===== src/Scheduler/LifecycleTests.antt =====
-- A scheduler of three threads, one of them the caller, from its constructor to its destructor.
use cor_reactor.Base.{
  ℕ, ◌+◌, ◌≡◌, refl, ◌⊎◌, [], ◌∷◌, none, some, true, false, ok, fail, assertion, ◌>>=◌, length,
  arith,
}
use cor_reactor.Scheduler.{state_init, ScheduleTask, Scheduler}
use cor_reactor.Scheduler.Workers.{is_stopping}
use cor_reactor.Fiber.{Fiber}
use cor_reactor.Scheduler.Lifecycle.{
  Pool, Owner, Stopped, RootRun, seen, new_scheduler, new_threads, make, make_as, start, stop,
  destroy,
}
use cor_reactor.Scheduler.Owning.{HasMain, make-destroy}

abbrev no_fiber : Fiber
no_fiber = record { id = 0; stack_size = 0; state = state_init; stack = false; cb = none }

abbrev owner : Owner
owner = record {
  id = 100;
  scheduler = none;
  thread = record {
    fibers = λ f. no_fiber;
    current = none;
    thread_fiber = none;
    scheduler_fiber = none;
  };
}

owner-HasMain : HasMain owner.thread
owner-HasMain = record { main = λ h. cc h }

abbrev waiting : ScheduleTask
waiting = record { fiber = none; cb = some 7; thread = none }

abbrev busy : Scheduler
busy = record new_scheduler { stopping = false; fibers = waiting ∷ [] }

-- The threads run the task, and run returns.
abbrev runs : RootRun
runs s = ok (record s { fibers = [] }, false)

abbrev ids : ℕ → ℕ
ids i = 101 + i

-- Three threads with the caller's are two new ones, after the caller in the list of ids.
started_ids :
    (make 1 2 4096 3 true owner 0 1 >>= λ r. start r.0 ids >>= λ p. ok p.thread_ids)
    ≡ ok (100 ∷ 101 ∷ 102 ∷ [])
unfolding make make_as start new_threads
started_ids = refl

-- A thread that has a scheduler can own no other with use_caller.
second_fails : make 1 2 4096 3 true (record owner { scheduler = some 9 }) 0 1 ≡ fail assertion
unfolding make make_as
second_fails = refl

make-destroy_example :
    (p : Pool) × (d : Owner) × (q : Pool) × (r : Stopped) × (end : Owner) × (make 1 2 4096 3 true
        owner 0 1
      ≡ ok (p, d))
    × (start p ids ≡ ok q)
    × (length q.threads + 1 ≡ 3)
    × (stop 1 runs (waiting ∷ [], 0) (waiting ∷ [], 0) (record q { shared = busy }) d ≡ ok r)
    × (r.joined ≡ q.threads)
    × (r.pool.threads ≡ [])
    × ((r.tickles ≡ 3)
        ⊎ ((q.threads ≡ []) × (is_stopping (seen r.pool.shared (waiting ∷ [], 0)) ≡ true)))
    × (destroy 1 r.pool r.caller ≡ ok end)
    × (end.scheduler ≡ none)
make-destroy_example =
    make-destroy 1 2 4096 3 true owner 0 1 ids busy runs (waiting ∷ [], 0) (waiting ∷ [], 0)
      (omega arith) refl owner-HasMain (λ s. (record s { fibers = [] }, refl, refl))
