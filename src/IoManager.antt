-- ===== src/IoManager.antt =====
-- include/iomanager.h and src/iomanager.cpp: the events that a descriptor waits for.
-- A descriptor is a non-negative int and indexes `contexts`; schedulers, fibers and callbacks are
-- numbers, and `none` is a null pointer or an empty std::function. `scheduled` is what was handed to
-- the schedulers. A call holds the lock of its context, so it is one step. epoll_ctl is an argument
-- of each call: it takes the operation, the descriptor and the events, and returns 0 for success.
pub mod Calls
pub mod Counting
pub mod Removing
pub mod Adding
pub mod Idle
pub mod Waiting
pub mod Dispatch
pub mod Reports
pub mod Rounds
pub mod Growing
pub mod Registering
mod Tests
mod RoundTests
use cor_reactor.Base.{
  ℕ, zero, suc, ◌+◌, ◌-◌, ◌*◌, ◌%◌, ◌^◌, List, [], ◌∷◌, ◌++◌, Option, none, some, Bool, true, false,
  ◌&&◌, ◌||◌, not, ◌==◌, if◌then◌else◌, length, get_elem?, set, take, Result, ok, fail, null_deref,
  assertion, out_of_fuel, check, or_fail, ◌>>=◌, ◌>>◌,
}

-- IOManager::Event
pub data Event : Type 0 where
  no_event : Event
  read : Event
  write : Event

-- The bits of m_events.
pub record Events : Type 0 where
  pub reads : Bool
  pub writes : Bool

abbrev pub no_events : Events
no_events = record { reads = false; writes = false }

-- `events & event`, `events | event`, `events & ~event`
unfoldable pub contains : Events → Event → Bool
contains s no_event = false
contains s read = s.reads
contains s write = s.writes

unfoldable pub with_event : Events → Event → Events
with_event s no_event = s
with_event s read = record s { reads = true }
with_event s write = record s { writes = true }

unfoldable pub without_event : Events → Event → Events
without_event s no_event = s
without_event s read = record s { reads = false }
without_event s write = record s { writes = false }

abbrev pub is_none : Events → Bool
is_none s = not s.reads && not s.writes

-- The number that epoll sees.
unfoldable pub bits : Events → ℕ
bits s = (if s.reads then 1 else 0) + (if s.writes then 4 else 0)

abbrev pub epollet : ℕ
epollet = 2 ^ 31

pub data Ctl : Type 0 where
  ctl_add : Ctl
  ctl_mod : Ctl
  ctl_del : Ctl

abbrev pub EpollCtl : Type 0
EpollCtl = Ctl → ℕ → ℕ → ℕ

-- IOManager::FdContext::EventContext
pub record EventContext : Type 0 where
  pub scheduler : Option ℕ
  pub fiber : Option ℕ
  pub cb : Option ℕ

-- IOManager::FdContext
pub record FdContext : Type 0 where
  pub fd : ℕ
  pub read_context : EventContext
  pub write_context : EventContext
  pub events : Events

pub data Task : Type 0 where
  run_callback : ℕ → Task
  run_fiber : ℕ → Task

pub record IoManager : Type 0 where
  pub contexts : List FdContext
  pub pending : ℕ
  pub scheduled : List (ℕ × Task)

-- Scheduler::GetThis(), Fiber::GetThis() and whether that fiber is in state EXEC.
pub record Caller : Type 0 where
  pub scheduler : Option ℕ
  pub fiber : ℕ
  pub executing : Bool

-- resetContext
unfoldable pub reset_context : EventContext
reset_context = record { scheduler = none; fiber = none; cb = none }

-- `!event_ctx.scheduler && !event_ctx.fiber && !event_ctx.cb`
unfoldable pub is_reset : EventContext → Bool
is_reset c = absent c.scheduler && absent c.fiber && absent c.cb
  where
    absent : Option ℕ → Bool
    absent none = true
    absent (some x) = false

-- getContext
unfoldable pub get_context : FdContext → Event → Result EventContext
get_context x no_event = fail assertion
get_context x read = ok x.read_context
get_context x write = ok x.write_context

-- A write through the reference that getContext returned.
unfoldable pub put_context : FdContext → Event → EventContext → FdContext
put_context x no_event c = x
put_context x read c = record x { read_context = c }
put_context x write c = record x { write_context = c }

-- What `schedule(ctx.cb)` or `schedule(ctx.fiber)` adds: an empty task is not queued.
unfoldable pub task_of : EventContext → ℕ → List (ℕ × Task)
task_of c scheduler = elim c.cb [
  | some cb ↦ (scheduler, run_callback cb) ∷ []
  | none ↦ elim c.fiber [ some fiber ↦ (scheduler, run_fiber fiber) ∷ [] | none ↦ [] ]
]

-- triggerEvent: the context after it, and what it scheduled.
unfoldable pub trigger_event : FdContext → Event → Result (FdContext × List (ℕ × Task))
trigger_event x event = check (contains x.events event) >> get_context x event >>= λ c.
    or_fail c.scheduler null_deref >>= λ s.
    ok (record x { events = without_event x.events event }, task_of c s)

-- The contexts from index i on, `count` of them.
unfoldable pub fresh_contexts : ℕ → ℕ → List FdContext
fresh_contexts i zero = []
fresh_contexts i (suc count) =
    record {
      fd = i;
      read_context = reset_context;
      write_context = reset_context;
      events = no_events;
    }
    ∷ fresh_contexts (suc i) count

-- contextResize
unfoldable pub context_resize : List FdContext → ℕ → List FdContext
context_resize cs size = take size cs ++ fresh_contexts (length cs) (size - length cs)
