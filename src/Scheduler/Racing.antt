-- ===== src/Scheduler/Racing.antt =====
-- A fiber that stands in the queue twice.
use cor_reactor.Base.{
  ℕ, ◌≡◌, refl, List, [], ◌∷◌, none, some, true, false, suc, ok, ==_iff, fail, assertion,
}
use cor_reactor.Scheduler.{
  State, state_exec, ScheduleTask, Scheduler, is_exec, is_live, pick, other_thread, executing,
  set_state,
}
use cor_reactor.Scheduler.Workers.{
  taken, in_fiber, looking, Worker, System, acts, steps, step, worker_step, act, act_in, scan,
  scanned, start_task, live_fiber, start_work, enter,
}

-- A task for a fiber, on any thread.
abbrev pub fiber_task : ℕ → ScheduleTask
fiber_task f = record { fiber = some f; cb = none; thread = none }

abbrev pub two_looking : Scheduler → ℕ → Worker → Worker → List ScheduleTask → System
two_looking s f v w ts = record {
  shared = record s { fibers = fiber_task f ∷ fiber_task f ∷ ts };
  workers = record v { phase = looking } ∷ record w { phase = looking } ∷ [];
}

pub set_state_same : (states : ℕ → State) (f : ℕ) (s : State) → set_state states f s f ≡ s
unfolding set_state
set_state_same states f s = rw ((==_iff f f).1 refl) refl

scan_first :
    (s : Scheduler) (w : Worker) (f : ℕ) (ts : List ScheduleTask)
    → is_exec (s.states f) ≡ false
    → scan (record s { fibers = fiber_task f ∷ ts }) w
      ≡ ok (
        record s { fibers = ts; active = suc s.active },
        record w { phase = taken (fiber_task f) },
      )
unfolding scan scanned pick other_thread executing
scan_first s w f ts e = rw e refl

start_live :
    (s : Scheduler) (w : Worker) (f : ℕ)
    → is_exec (s.states f) ≡ false
    → is_live (s.states f) ≡ true
    → start_task s w (fiber_task f) 0
      ≡ ok (record s { states = set_state s.states f state_exec }, record w { phase = in_fiber f })
unfolding start_task live_fiber start_work enter
start_live s w f e l = rw (l, e) refl

start_executing :
    (s : Scheduler) (w : Worker) (f : ℕ)
    → s.states f ≡ state_exec
    → start_task s w (fiber_task f) 0 ≡ fail assertion
unfolding start_task live_fiber start_work enter
start_executing s w f e = rw (e, live_fiber) (rw (e, enter) refl)

-- When a live fiber that is not executing stands first in the queue twice, and two threads scan before
-- either switches to it, the second switch fails its assertion.
pub steps-two_looking :
    (s : Scheduler) (f : ℕ) (v w : Worker) (ts : List ScheduleTask) (o : State)
    → is_exec (s.states f) ≡ false
    → is_live (s.states f) ≡ true
    → steps (two_looking s f v w ts) (acts 0 0 o ∷ acts 1 0 o ∷ acts 0 0 o ∷ acts 1 0 o ∷ [])
      ≡ fail assertion
unfolding steps step worker_step act act_in
steps-two_looking s f v w ts o e l =
    let a : Scheduler = record s { active = suc s.active } in
    let b : Scheduler = record s { fibers = ts; active = suc (suc s.active) } in
    let q : set_state s.states f state_exec f ≡ state_exec = set_state_same s.states f state_exec in
    rw (scan_first s (record v { phase = looking }) f (fiber_task f ∷ ts) e) (
      rw (scan_first a (record w { phase = looking }) f ts e) (
        rw (start_live b (record v { phase = taken (fiber_task f) }) f e l) (
          rw
            (start_executing (record b { states = set_state s.states f state_exec })
              (record w { phase = taken (fiber_task f) }) f q)
            refl)))
