-- ===== src/Scheduler/Workers.antt =====
-- src/scheduler.cpp: the loop of `run` in each thread, interleaved with the others.
-- A worker is a thread in the loop. Its round has a step under the lock, one for a switch to a fiber,
-- one in which the fiber leaves with a state, one for the counter of active threads, and one in which
-- the worker looks at the state of the fiber and queues it again; idle reads the four members that
-- `stopping` looks at in a step each. The other threads act in between. `cb_fiber` and `idle_fiber`
-- are its local variables. `fresh` is the fiber that `new Fiber` makes, and `outcome` the state in
-- which a fiber leaves. tickle has no effect here, and idle is Scheduler::idle.
use cor_reactor.Base.{
  ℕ, suc, ◌-◌, List, [], ◌∷◌, Option, none, some, Bool, true, false, ◌&&◌, not, ◌==◌, if◌then◌else◌,
  get_elem?, set, Result, ok, check, ◌>>=◌, ◌>>◌,
}
use cor_reactor.Scheduler.{
  State, state_init, state_hold, state_exec, state_term, state_ready, state_except, ScheduleTask,
  Scheduler, is_exec, is_live, is_empty, schedule_no_lock, pick, set_state, after_swap,
}

-- What `stopping` looks at next, in idle.
pub data Question : Type 0 where
  asks_auto_stop : Question
  asks_stopping : Question
  asks_queue : Question
  asks_active : Question

-- Where a worker is in its round. `taken` has the task that it took off the queue; a fiber that has
-- left is `fiber_out` before the counter of active threads goes down and `fiber_left` after it.
pub data Phase : Type 0 where
  looking : Phase
  taken : ScheduleTask → Phase
  nothing_found : Phase
  in_fiber : ℕ → Phase
  fiber_out : ℕ → Phase
  fiber_left : ℕ → Phase
  in_callback : ℕ → Phase
  callback_out : ℕ → Phase
  callback_left : ℕ → Phase
  in_idle : Question → Phase
  idle_left : Phase
  ended : Phase

pub record Worker : Type 0 where
  pub thread : ℕ
  pub phase : Phase
  pub cb_fiber : Option ℕ
  pub idle_fiber : ℕ

pub record System : Type 0 where
  pub shared : Scheduler
  pub workers : List Worker

-- What stopping reads, one after the other, without the lock.
pub record Reads : Type 0 where
  pub auto_stop : Bool
  pub stopping : Bool
  pub queue : List ScheduleTask
  pub active : ℕ

-- stopping
unfoldable pub is_stopping : Reads → Bool
is_stopping r = r.auto_stop && r.stopping && is_empty r.queue && (r.active == 0)

-- The reads where nobody acts between them.
abbrev pub at_once : Scheduler → Reads
at_once s = record {
  auto_stop = s.auto_stop;
  stopping = s.stopping;
  queue = s.fibers;
  active = s.active;
}

-- The scan under the lock, and what it leaves.
unfoldable pub scanned :
    Scheduler → Worker → List ScheduleTask → Option ScheduleTask → Scheduler × Worker
scanned s w rest none = (record s { fibers = rest }, record w { phase = nothing_found })
scanned s w rest (some t) =
    (record s { fibers = rest; active = suc s.active }, record w { phase = taken t })

unfoldable pub scan : Scheduler → Worker → Result (Scheduler × Worker)
unfolding scanned
scan s w = pick s.states w.thread s.fibers >>= λ p. ok (scanned s w p.rest p.task)

-- swapIn, up to the switch
unfoldable pub enter : Scheduler → ℕ → Result Scheduler
enter s f =
    check (not (is_exec (s.states f))) >> ok (record s { states = set_state s.states f state_exec })

-- `ft.fiber && state != TERM && state != EXCEPT`
unfoldable pub live_fiber : Scheduler → ScheduleTask → Option ℕ
live_fiber s t = elim t.fiber [
  | none ↦ none
  | some f ↦ if is_live (s.states f) then some f else none
]

-- The states that Fiber::reset asserts.
abbrev pub is_resettable : State → Bool
is_resettable state_init = true
is_resettable state_term = true
is_resettable state_except = true
is_resettable _ = false

-- The branch for a callback, up to the switch: the fiber of the last callback is used again.
unfoldable pub start_callback : Scheduler → Worker → ℕ → Option ℕ → Result (Scheduler × Worker)
unfolding enter
start_callback s w fresh none =
    enter (record s { states = set_state s.states fresh state_init }) fresh >>= λ r.
    ok (r, record w { phase = in_callback fresh; cb_fiber = some fresh })
start_callback s w fresh (some g) =
    check (is_resettable (s.states g))
    >> (enter (record s { states = set_state s.states g state_init }) g >>= λ r.
        ok (r, record w { phase = in_callback g }))

-- What a worker does with the task that it took: its fiber, if it is live, or its callback, if any.
unfoldable pub start_work :
    Scheduler → Worker → ℕ → Option ℕ → Option ℕ → Result (Scheduler × Worker)
unfolding enter start_callback
start_work s w fresh (some f) cb = enter s f >>= λ r. ok (r, record w { phase = in_fiber f })
start_work s w fresh none (some c) = start_callback s w fresh w.cb_fiber
start_work s w fresh none none =
    ok (record s { active = s.active - 1 }, record w { phase = looking })

unfoldable pub start_task : Scheduler → Worker → ScheduleTask → ℕ → Result (Scheduler × Worker)
unfolding live_fiber start_work
start_task s w t fresh = start_work s w fresh (live_fiber s t) t.cb

-- A fiber leaves: its state is set before the switch back.
unfoldable pub leave : Scheduler → Worker → ℕ → State → Phase → Scheduler × Worker
leave s w f outcome phase =
    (record s { states = set_state s.states f outcome }, record w { phase = phase })

-- `--m_activateThreadCount`
unfoldable pub count_down : Scheduler → Worker → Phase → Scheduler × Worker
count_down s w phase = (record s { active = s.active - 1 }, record w { phase = phase })

-- The end of the branch for a fiber, by the state that the fiber has by then.
unfoldable pub fiber_back : Scheduler → Worker → ℕ → Scheduler × Worker
fiber_back s w f = (after_swap s f (s.states f), record w { phase = looking })

-- The end of the branch for a callback: its fiber is queued, reset for the next callback, or left.
unfoldable pub callback_back : Scheduler → Worker → ℕ → State → Scheduler × Worker
callback_back s w g state_ready = (
  record s {
    fibers = (schedule_no_lock s.fibers (record { fiber = some g; cb = none; thread = none })).0;
  },
  record w { phase = looking; cb_fiber = none },
)
callback_back s w g state_term =
    (record s { states = set_state s.states g state_init }, record w { phase = looking })
callback_back s w g state_except =
    (record s { states = set_state s.states g state_init }, record w { phase = looking })
callback_back s w g _ = (
  record s { states = set_state s.states g state_hold },
  record w { phase = looking; cb_fiber = none },
)

abbrev pub is_term : State → Bool
is_term state_term = true
is_term _ = false

-- The branch without a task, up to the switch to the idle fiber.
unfoldable pub go_idle : Scheduler → Worker → Result (Scheduler × Worker)
unfolding enter
go_idle s w =
    if is_term (s.states w.idle_fiber)
    then ok (s, record w { phase = ended })
    else (enter (record s { idle = suc s.idle }) w.idle_fiber >>= λ r.
        ok (r, record w { phase = in_idle asks_auto_stop }))

-- idle goes on to the next read, or leaves: its fiber ends once `stopping`, and yields until then.
unfoldable pub asked : Scheduler → Worker → Bool → Question → Scheduler × Worker
unfolding leave
asked s w true next = (s, record w { phase = in_idle next })
asked s w false next = leave s w w.idle_fiber state_hold idle_left

unfoldable pub idle_asks : Scheduler → Worker → Question → Scheduler × Worker
unfolding asked leave
idle_asks s w asks_auto_stop = asked s w s.auto_stop asks_stopping
idle_asks s w asks_stopping = asked s w s.stopping asks_queue
idle_asks s w asks_queue = asked s w (is_empty s.fibers) asks_active
idle_asks s w asks_active =
    leave s w w.idle_fiber (if s.active == 0 then state_term else state_hold) idle_left

-- The end of the branch for idle.
unfoldable pub idle_back : Scheduler → Worker → Scheduler × Worker
idle_back s w = (
  record s {
    idle = s.idle - 1;
    states =
        if is_live (s.states w.idle_fiber)
        then set_state s.states w.idle_fiber state_hold
        else s.states;
  },
  record w { phase = looking },
)

-- The next step of a worker, by its phase.
unfoldable pub act_in : Phase → Scheduler → Worker → ℕ → State → Result (Scheduler × Worker)
unfolding scan start_task leave count_down fiber_back callback_back go_idle idle_asks idle_back
act_in looking s w fresh outcome = scan s w
act_in (taken t) s w fresh outcome = start_task s w t fresh
act_in nothing_found s w fresh outcome = go_idle s w
act_in (in_fiber f) s w fresh outcome = ok (leave s w f outcome (fiber_out f))
act_in (fiber_out f) s w fresh outcome = ok (count_down s w (fiber_left f))
act_in (fiber_left f) s w fresh outcome = ok (fiber_back s w f)
act_in (in_callback g) s w fresh outcome = ok (leave s w g outcome (callback_out g))
act_in (callback_out g) s w fresh outcome = ok (count_down s w (callback_left g))
act_in (callback_left g) s w fresh outcome = ok (callback_back s w g (s.states g))
act_in (in_idle q) s w fresh outcome = ok (idle_asks s w q)
act_in idle_left s w fresh outcome = ok (idle_back s w)
act_in ended s w fresh outcome = ok (s, w)

unfoldable pub act : Scheduler → Worker → ℕ → State → Result (Scheduler × Worker)
unfolding act_in
act s w fresh outcome = act_in w.phase s w fresh outcome

-- What happens: a worker acts, somebody schedules a task, or stop sets one of its flags, m_autoStop
-- first and m_stopping later.
pub data Event : Type 0 where
  acts : ℕ → ℕ → State → Event
  schedules : ScheduleTask → Event
  auto_stops : Event
  stops : Event

unfoldable pub worker_step : System → ℕ → ℕ → State → Option Worker → Result System
unfolding act
worker_step y i fresh outcome none = ok y
worker_step y i fresh outcome (some w) = act y.shared w fresh outcome >>= λ r.
    ok (record { shared = r.0; workers = set y.workers i r.1 })

unfoldable pub step : System → Event → Result System
unfolding worker_step
step y (acts i fresh outcome) = worker_step y i fresh outcome (get_elem? y.workers i)
step y (schedules t) =
    ok (record y { shared = record y.shared { fibers = (schedule_no_lock y.shared.fibers t).0 } })
step y auto_stops = ok (record y { shared = record y.shared { auto_stop = true } })
step y stops = ok (record y { shared = record y.shared { stopping = true } })

-- A run of the threads.
unfoldable pub steps : System → List Event → Result System
unfolding step
steps y [] = ok y
steps y (e ∷ es) = step y e >>= λ z. steps z es
