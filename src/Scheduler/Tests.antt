-- ===== src/Scheduler/Tests.antt =====
-- Runs of the scan, and the theorems at concrete inputs.
use cor_reactor.Base.{
  ℕ, ◌+◌, ◌≡◌, refl, List, [], ◌∷◌, none, true, false, fail, assertion, some, ok, ◌>>=◌,
}
use cor_reactor.Scheduler.{
  State, state_init, state_exec, state_hold, state_term, state_ready, ScheduleTask, Scheduler,
  Picked, pick, other_thread, executing,
}
use cor_reactor.Scheduler.Picking.{IsPick, pick_lem}
use cor_reactor.Scheduler.{set_state, schedule_no_lock}
use cor_reactor.Scheduler.Workers.{
  looking, Worker, System, Event, acts, schedules, auto_stops, stops, is_stopping, scan, scanned,
  enter, live_fiber, start_callback, start_work, start_task, leave, count_down, callback_back,
  steps, step, nothing_found, in_fiber, at_once,
}
use cor_reactor.Scheduler.Counting.{IsCounted}
use cor_reactor.Scheduler.Stopping.{AreFree, is_stopping_lem, steps-leaving}
use cor_reactor.Scheduler.Racing.{two_looking, steps-two_looking}

abbrev holding : ℕ → State
holding f = state_hold

-- A callback for thread 2, then a fiber for any thread.
abbrev bound : ScheduleTask
bound = record { fiber = none; cb = some 7; thread = some 2 }

abbrev free : ScheduleTask
free = record { fiber = some 4; cb = none; thread = none }

skips_bound : (pick holding 1 (bound ∷ free ∷ []) >>= λ p. ok p.rest) ≡ ok (bound ∷ [])
unfolding pick other_thread executing
skips_bound = refl

pick_lem_example :
    (p : Picked) × (pick holding 1 (bound ∷ free ∷ []) ≡ ok p)
    × IsPick holding 1 (bound ∷ free ∷ []) p
pick_lem_example = pick_lem holding 1 (bound ∷ free ∷ []) (refl, (refl, tt))

abbrev worker : ℕ → Worker
worker thread = record {
  thread = thread;
  phase = looking;
  cb_fiber = none;
  idle_fiber = 50 + thread;
}

abbrev quiet : Scheduler
quiet = record {
  fibers = [];
  active = 0;
  idle = 0;
  auto_stop = false;
  stopping = false;
  states = holding;
}

abbrev two_workers : System
two_workers = record { shared = quiet; workers = worker 1 ∷ worker 2 ∷ [] }

-- A callback for thread 2 is run there after stop was called.
abbrev served : List Event
served =
    schedules bound
    ∷ auto_stops
    ∷ stops
    ∷ acts 1 9 state_hold
    ∷ acts 1 9 state_hold
    ∷ acts 1 9 state_term
    ∷ acts 1 9 state_hold
    ∷ acts 1 9 state_hold
    ∷ []

abbrev after_served : System
after_served = record {
  shared = record {
    fibers = [];
    active = 0;
    idle = 0;
    auto_stop = true;
    stopping = true;
    states =
        set_state (set_state (set_state (set_state holding 9 state_init) 9 state_exec) 9 state_term)
          9 state_init;
  };
  workers = worker 1 ∷ record (worker 2) { cb_fiber = some 9 } ∷ [];
}

serves_bound : steps two_workers served ≡ ok after_served
unfolding steps schedule_no_lock scan scanned pick other_thread executing enter live_fiber
    start_callback start_work start_task leave count_down callback_back set_state
serves_bound = refl

-- Between the reads of the queue and of the counter thread 1 looks for work in vain.
abbrev after_scan : System
after_scan = record after_served {
  workers =
      record (worker 1) { phase = nothing_found } ∷ record (worker 2) { cb_fiber = some 9 } ∷ [];
}

scans : steps after_served (acts 0 9 state_hold ∷ []) ≡ ok after_scan
unfolding steps scan scanned pick
scans = refl

nothing_happens : steps after_served [] ≡ ok after_served
unfolding steps
nothing_happens = refl

two_workers-IsCounted : IsCounted two_workers
two_workers-IsCounted = record { active = refl; idle = refl }

is_stopping_lem_example :
    (after_scan.shared.auto_stop ≡ true)
    × (after_scan.shared.stopping ≡ true)
    × (after_served.shared.fibers ≡ [])
    × AreFree after_scan.workers
unfolding is_stopping
is_stopping_lem_example =
    is_stopping_lem two_workers after_served after_served after_served after_scan served [] []
      (acts 0 9 state_hold ∷ []) two_workers-IsCounted serves_bound nothing_happens nothing_happens
      scans refl

-- Thread 2 runs fiber 4, and thread 1 looks for work.
abbrev one_runs : System
one_runs = record {
  shared = record quiet { active = 1; auto_stop = true; stopping = true };
  workers = worker 1 ∷ record (worker 2) { phase = in_fiber 4 } ∷ [];
}

steps-leaving_example :
    (z : System) × (u : System) × (steps one_runs (acts 1 0 state_ready ∷ acts 1 0 state_hold ∷ [])
      ≡ ok z)
    × (is_stopping (at_once z.shared) ≡ true)
    × (step z (acts 1 0 state_hold) ≡ ok u)
    × (u.shared.fibers ≡ free ∷ [])
steps-leaving_example =
    steps-leaving one_runs 1 4 (record (worker 2) { phase = in_fiber 4 }) state_hold refl refl refl
      refl refl refl

steps-two_looking_example :
    steps
      (two_looking quiet 4 (worker 1) (worker 2) [])
      (acts 0 0 state_hold ∷ acts 1 0 state_hold ∷ acts 0 0 state_hold ∷ acts 1 0 state_hold ∷ [])
    ≡ fail assertion
steps-two_looking_example = steps-two_looking quiet 4 (worker 1) (worker 2) [] state_hold refl refl
