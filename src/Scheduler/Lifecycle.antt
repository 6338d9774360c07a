-- ===== src/Scheduler/Lifecycle.antt =====
-- src/scheduler.cpp: Scheduler::Scheduler, start, stop and the destructor, as the thread that owns
-- the scheduler calls them. `self` is the address of the scheduler, `run` the callback that binds its
-- run, and `configured` the size of a stack. Arguments of stop are what `stopping` finds in the queue and
-- in the counter of active threads each time that it is called, and `run` on the root fiber: it makes
-- a state of the state that the threads share and says whether an exception left it, or it fails.
use cor_reactor.Base.{
  ℕ, zero, suc, ◌+◌, ◌-◌, List, [], ◌∷◌, ◌++◌, Option, none, some, Bool, true, false, ◌&&◌, not,
  ◌==◌, ltb, if◌then◌else◌, Result, ok, check, ◌>>=◌, ◌>>◌,
}
use cor_reactor.Scheduler.{State, state_init, state_term, Scheduler, ScheduleTask, present}
use cor_reactor.Scheduler.Workers.{Reads, is_stopping}
use cor_reactor.Fiber.{Thread, new_fiber, put_fiber, get_this, call, caller_main_func}

-- The members that the workers do not share; `none` is the root thread -1 and a null root fiber.
pub record Pool : Type 0 where
  pub shared : Scheduler
  pub root_thread : Option ℕ
  pub root_fiber : Option ℕ
  pub thread_count : ℕ
  pub threads : List ℕ
  pub thread_ids : List ℕ

-- The calling thread, with its t_scheduler and its fibers.
pub record Owner : Type 0 where
  pub id : ℕ
  pub scheduler : Option ℕ
  pub thread : Thread

-- What stop leaves: how often it called tickle, and the threads that it joined.
pub record Stopped : Type 0 where
  pub pool : Pool
  pub caller : Owner
  pub tickles : ℕ
  pub joined : List ℕ

abbrev pub new_scheduler : Scheduler
new_scheduler = record {
  fibers = [];
  active = 0;
  idle = 0;
  auto_stop = false;
  stopping = true;
  states = λ f. state_init;
}

-- The ids of n new threads from the i-th on.
unfoldable pub new_threads : (ℕ → ℕ) → ℕ → ℕ → List ℕ
new_threads ids zero i = []
new_threads ids (suc n) i = ids i ∷ new_threads ids n (suc i)

abbrev pub no_threads : List ℕ → Bool
no_threads [] = true
no_threads (th ∷ ths) = false

-- `state == TERM || state == INIT`
abbrev pub is_at_rest : State → Bool
is_at_rest state_term = true
is_at_rest state_init = true
is_at_rest _ = false

-- start, where `ids` are the ids that the new threads get
unfoldable pub start : Pool → (ℕ → ℕ) → Result Pool
start p ids =
    if p.shared.stopping
    then (check (no_threads p.threads)
        >> ok (record p {
          shared = record p.shared { stopping = false };
          threads = new_threads ids p.thread_count 0;
          thread_ids = p.thread_ids ++ new_threads ids p.thread_count 0;
        }))
    else ok p

-- `m_rootFiber && m_threadCount == 0 && (...)`
unfoldable pub is_single : Pool → Owner → Bool
is_single p c = elim p.root_fiber [
  | none ↦ false
  | some f ↦ (p.thread_count == 0) && is_at_rest (c.thread.fibers f).state
]

-- What `stopping` reads after stop set both flags.
abbrev pub seen : Scheduler → List ScheduleTask × ℕ → Reads
seen s (queue, active) = record {
  auto_stop = s.auto_stop;
  stopping = s.stopping;
  queue = queue;
  active = active;
}

-- run on the root fiber, until it comes to an end
abbrev pub RootRun : Type 0
RootRun = Scheduler → Result (Scheduler × Bool)

-- `if (m_rootFiber) if (!stopping()) m_rootFiber->call()`
unfoldable pub call_root :
    RootRun → List ScheduleTask × ℕ → Scheduler → Thread → Option ℕ → Result (Scheduler × Thread)
call_root ran found s t none = ok (s, t)
call_root ran found s t (some f) =
    if is_stopping (seen s found)
    then ok (s, t)
    else (call t f >>= λ u. ran s >>= λ r. caller_main_func u f r.1 >>= λ v. ok (r.0, v))

module _ (self : ℕ) where
  -- GetThis() == this
  unfoldable pub is_self : Option ℕ → Bool
  is_self none = false
  is_self (some s) = s == self

  -- The assertion on GetThis, by whether there is a root thread.
  unfoldable pub owns : Option ℕ → Owner → Bool
  unfolding is_self
  owns none c = not (is_self c.scheduler)
  owns (some th) c = is_self c.scheduler

  -- stop from the assertion on
  unfoldable pub stop_all : RootRun → List ScheduleTask × ℕ → Pool → Owner → Result Stopped
  unfolding owns call_root
  stop_all ran found p c =
      check (owns p.root_thread c)
      >> (call_root ran found (record p.shared { stopping = true }) c.thread p.root_fiber >>= λ r.
          ok (record {
            pool = record p { shared = r.0; threads = [] };
            caller = record c { thread = r.1 };
            tickles = p.thread_count + (if present p.root_fiber then 1 else 0);
            joined = p.threads;
          }))

  -- stop, where its calls of `stopping` find `first` and `second`
  unfoldable pub stop :
      RootRun → List ScheduleTask × ℕ → List ScheduleTask × ℕ → Pool → Owner → Result Stopped
  unfolding stop_all is_single
  stop ran first second p c =
      let alone = record p.shared { auto_stop = true; stopping = true } in
      let rest = record p { shared = record p.shared { auto_stop = true } } in
      if is_single p c && is_stopping (seen alone first)
      then ok (record { pool = record p { shared = alone }; caller = c; tickles = 0; joined = [] })
      else stop_all ran second (if is_single p c then record p { shared = alone } else rest) c

  -- The destructor
  unfoldable pub destroy : Pool → Owner → Result Owner
  unfolding is_self
  destroy p c =
      check p.shared.stopping
      >> ok (if is_self c.scheduler then record c { scheduler = none } else c)

module _ (self run configured : ℕ) where
  -- What the constructor leaves with use_caller: `fresh` is the main fiber that GetThis may make, and
  -- `root` the root fiber.
  abbrev pub root_pool : ℕ → Owner → ℕ → Pool
  root_pool threads c root = record {
    shared = new_scheduler;
    root_thread = some c.id;
    root_fiber = some root;
    thread_count = threads - 1;
    threads = [];
    thread_ids = c.id ∷ [];
  }

  unfoldable pub root_owner : Owner → ℕ → ℕ → Owner
  unfolding get_this put_fiber new_fiber
  root_owner c fresh root =
      let (t, main) = get_this c.thread fresh in
      record {
        id = c.id;
        scheduler = some self;
        thread = record (put_fiber t root (new_fiber configured root 0 (some run))) {
          scheduler_fiber = some root;
        };
      }

  -- What it leaves without.
  abbrev pub plain_pool : ℕ → Pool
  plain_pool threads = record {
    shared = new_scheduler;
    root_thread = none;
    root_fiber = none;
    thread_count = threads;
    threads = [];
    thread_ids = [];
  }

  unfoldable pub make_as : Bool → ℕ → Owner → ℕ → ℕ → Result (Pool × Owner)
  unfolding root_owner
  make_as true threads c fresh root =
      check (not (present c.scheduler)) >> ok (root_pool threads c root, root_owner c fresh root)
  make_as false threads c fresh root = ok (plain_pool threads, c)

  -- The constructor
  unfoldable pub make : ℕ → Bool → Owner → ℕ → ℕ → Result (Pool × Owner)
  make threads use_caller c fresh root =
      check (ltb 0 threads) >> make_as use_caller threads c fresh root
