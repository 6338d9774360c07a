-- ===== src/Scheduler.antt =====
-- include/scheduler.h and src/scheduler.cpp: the task queue, schedule and the scan of `run`.
-- Fibers, callbacks and threads are numbers. `states` holds the state of each fiber. What a fiber
-- does between swapIn and the switch back is not the scheduler's: the state it comes back with is
-- an argument. The scan holds the scheduler's lock.
pub mod Picking
pub mod Workers
pub mod Counting
pub mod Stopping
pub mod Racing
pub mod Lifecycle
pub mod Joining
pub mod Owning
mod Tests
mod LifecycleTests
use cor_reactor.Base.{
  ℕ, zero, suc, ◌-◌, List, [], ◌∷◌, ◌++◌, Option, none, some, Bool, true, false, ◌||◌, not, ◌==◌,
  if◌then◌else◌, Result, ok, fail, assertion, check, ◌>>=◌, ◌>>◌,
}

-- Fiber::State
pub data State : Type 0 where
  state_init : State
  state_hold : State
  state_exec : State
  state_term : State
  state_ready : State
  state_except : State

-- Scheduler::ScheduleTask; `none` is the thread -1.
pub record ScheduleTask : Type 0 where
  pub fiber : Option ℕ
  pub cb : Option ℕ
  pub thread : Option ℕ

pub record Scheduler : Type 0 where
  pub fibers : List ScheduleTask
  pub active : ℕ
  pub idle : ℕ
  pub auto_stop : Bool
  pub stopping : Bool
  pub states : ℕ → State

abbrev pub present : Option ℕ → Bool
present none = false
present (some x) = true

-- `ft.fiber || ft.cb`
abbrev pub has_work : ScheduleTask → Bool
has_work t = present t.fiber || present t.cb

abbrev pub is_empty : List ScheduleTask → Bool
is_empty [] = true
is_empty (t ∷ ts) = false

-- scheduleNoLock: the queue, and whether it was empty.
unfoldable pub schedule_no_lock : List ScheduleTask → ScheduleTask → List ScheduleTask × Bool
schedule_no_lock ts t = (if has_work t then ts ++ (t ∷ []) else ts, is_empty ts)

-- schedule of one task, and of a range: the queue, and whether tickle is called.
unfoldable pub schedule : List ScheduleTask → ScheduleTask → List ScheduleTask × Bool
unfolding schedule_no_lock
schedule ts t = ((schedule_no_lock ts t).0, false)

unfoldable pub schedule_range :
    Bool → List ScheduleTask → List ScheduleTask → List ScheduleTask × Bool
schedule_range need ts [] = (ts, need)
schedule_range need ts (t ∷ range) =
    let (queue, tickle) = schedule_no_lock ts t in schedule_range (tickle || need) queue range

-- `it->thread != -1 && it->thread != GetThreadId()`
unfoldable pub other_thread : ℕ → ScheduleTask → Bool
other_thread me t = elim t.thread [ none ↦ false | some th ↦ not (th == me) ]

abbrev pub is_exec : State → Bool
is_exec state_exec = true
is_exec _ = false

-- `it->fiber && it->fiber->getState() == EXEC`
unfoldable pub executing : (ℕ → State) → ScheduleTask → Bool
executing states t = elim t.fiber [ none ↦ false | some f ↦ is_exec (states f) ]

-- What the scan of the queue leaves: tickle_me, the task taken, and the queue without it.
pub record Picked : Type 0 where
  pub tickle_me : Bool
  pub task : Option ScheduleTask
  pub rest : List ScheduleTask

-- The scan of `run`.
unfoldable pub pick : (ℕ → State) → ℕ → List ScheduleTask → Result Picked
pick states me [] = ok (record { tickle_me = false; task = none; rest = [] })
pick states me (t ∷ ts) =
    let later = pick states me ts in
    if other_thread me t
    then (later >>= λ p. ok (record p { tickle_me = true; rest = t ∷ p.rest }))
    else (check (has_work t)
        >> (if executing states t
            then (later >>= λ p. ok (record p { rest = t ∷ p.rest }))
            else ok (record { tickle_me = false; task = some t; rest = ts })))

-- `state != TERM && state != EXCEPT`
abbrev pub is_live : State → Bool
is_live state_term = false
is_live state_except = false
is_live _ = true

unfoldable pub set_state : (ℕ → State) → ℕ → State → ℕ → State
set_state states f s g = if g == f then s else states g

-- What `run` does with a fiber that came back in a state: queue it again, or put it on hold.
unfoldable pub after_swap : Scheduler → ℕ → State → Scheduler
after_swap s f state_ready = record s {
  fibers = (schedule_no_lock s.fibers (record { fiber = some f; cb = none; thread = none })).0;
  states = set_state s.states f state_ready;
}
after_swap s f state_term = record s { states = set_state s.states f state_term }
after_swap s f state_except = record s { states = set_state s.states f state_except }
after_swap s f _ = record s { states = set_state s.states f state_hold }
