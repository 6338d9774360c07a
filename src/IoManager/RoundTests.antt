-- ===== src/IoManager/RoundTests.antt =====
-- Rounds of idle, calls of addEvent, and the theorems at concrete inputs.
use cor_reactor.Base.{
  ℕ, zero, suc, ◌≤◌, ◌%◌, ◌^◌, ◌-◌, ◌⊎◌, ◌>>=◌, ◌*◌, ◌≡◌, ◌≢◌, refl, ◌<◌, inl, List, [], ◌∷◌, All,
  none, some, Bool, true, false, get_elem?, ok, arith,
}
use cor_reactor.Base.Int.{pos}
use cor_reactor.Timer.{
  Timer, TimerManager, get_next_timer, less_key, expired, unexpired, expire, expire_all, collect,
  nothing_due, detect_clock_rollover, list_expired_cb, update, insert, comparator,
}
use cor_reactor.Timer.Ordered.{In}
use cor_reactor.Timer.Invariant
use cor_reactor.Scheduler.{Scheduler, ScheduleTask, state_hold, schedule_no_lock}
use cor_reactor.Scheduler.Workers.{is_stopping, at_once}
use cor_reactor.IoManager.{
  no_event, write, EpollCtl, EventContext, FdContext, IoManager, Caller, contains, without_event,
  trigger_event, get_context, task_of, bits, context_resize,
}
use cor_reactor.IoManager.Calls.{make_room, add_event, fire, fire_if, handle_event, real_events}
use cor_reactor.IoManager.Counting.{IsValid}
use cor_reactor.IoManager.Adding.{make_room_lem}
use cor_reactor.IoManager.Registering.{Added, add_event_lem}
use cor_reactor.IoManager.Growing.{IsFree}
use cor_reactor.IoManager.Waiting.{IsShort, IsEndless, wait_lem}
use cor_reactor.IoManager.Idle.{
  Reactor, Seen, interrupted, events, Report, tickled, reported, Round, exits, waits, swaps_out,
  tickle, stopping, clamp, wait, schedule_range, run_timers, deliver, react_to, react, react_all,
  after_wait, idle,
}
use cor_reactor.IoManager.Rounds.{Idled, idle_lem}

running : Unit {0}
unfolding idle stopping wait after_wait run_timers react_all react_to react deliver schedule_range
    tickle clamp schedule_no_lock get_next_timer less_key expired unexpired expire expire_all
    collect nothing_due detect_clock_rollover list_expired_cb update insert comparator contains
    without_event trigger_event get_context task_of fire fire_if handle_event real_events bits
running = tt

abbrev accept : EpollCtl
accept op fd mask = 0

abbrev unused : EventContext
unused = record { scheduler = none; fiber = none; cb = none }

abbrev idle_context : FdContext
idle_context = record {
  fd = 0;
  read_context = unused;
  write_context = unused;
  events = record { reads = false; writes = false };
}

-- Descriptor 1 waits to be writable, with callback 5 on scheduler 3.
abbrev waiting_context : FdContext
waiting_context = record {
  fd = 1;
  read_context = unused;
  write_context = record { scheduler = some 3; fiber = none; cb = some 5 };
  events = record { reads = false; writes = true };
}

abbrev one_waits : IoManager
one_waits = record { contexts = idle_context ∷ waiting_context ∷ []; pending = 1; scheduled = [] }

one_waits-IsValid : IsValid one_waits
one_waits-IsValid = record {
  counted = refl;
  bounded = omega arith;
  ready = (
    record { reader = λ h. cc h; writer = λ h. cc h },
    (record { reader = λ h. cc h; writer = λ h. (3, refl) }, tt),
  );
}

-- Timer 1 is due once, at 105, and runs callback 9.
abbrev timer_at : ℕ → Timer
timer_at (suc zero) = record { recurring = false; ms = 5; next = 105; cb = some 9 }
timer_at _ = record { recurring = false; ms = 0; next = 0; cb = none }

abbrev one_timer : TimerManager
one_timer = record { heap = timer_at; timers = 1 ∷ []; tickled = true; previous = 100 }

one_timer-IsValid : Invariant.IsValid one_timer
one_timer-IsValid = record { sorted = (tt, tt); live = live }
  where
    live : (q c : ℕ) → (timer_at q).cb ≡ some c → In q (1 ∷ [])
    live (suc zero) c e = inl refl
    live zero c e = cc e
    live (suc (suc q)) c e = cc e

abbrev quiet : Scheduler
quiet = record {
  fibers = [];
  active = 0;
  idle = 1;
  auto_stop = false;
  stopping = false;
  states = λ f. state_hold;
}

abbrev busy : Reactor
busy = record { io = one_waits; timers = one_timer; shared = quiet; self = 3; pipe = 1 }

abbrev goes_on : Seen
goes_on = record { pending = 1; reads = at_once quiet }

abbrev reports : List Report
reports = tickled ∷ reported 1 false false true accept ∷ []

abbrev task : ℕ → ScheduleTask
task cb = record { fiber = none; cb = some cb; thread = none }

-- epoll_wait is interrupted once and then reports the pipe and descriptor 1: callback 9 of the timer
-- and callback 5 of the descriptor are queued, and the pipe is empty.
queue_of : Round → List ScheduleTask × (ℕ × ℕ)
queue_of (exits r) = ([], (0, 0))
queue_of (waits r) = ([], (0, 0))
queue_of (swaps_out r) = (r.shared.fibers, (r.pipe, r.io.pending))

runs_both :
    (idle busy 100 goes_on (interrupted ∷ events reports ∷ []) 106 2 (pos 1) >>= λ q.
    ok (queue_of q))
    ≡ ok (task 9 ∷ task 5 ∷ [], (0, 0))
unfolding running queue_of
runs_both = refl

idle_lem_example :
    (q : Reactor) × (idle busy 100 goes_on (interrupted ∷ events reports ∷ []) 106 2 (pos 1)
      ≡ ok (swaps_out q))
    × Idled busy 106 2 reports q
unfolding running
idle_lem_example =
    idle_lem busy 100 goes_on (interrupted ∷ events reports ∷ []) 106 2 (pos 1) reports
      one_waits-IsValid one_timer-IsValid refl refl refl (tt, tt)
      (tt, ((waiting_context, refl, (λ h. cc h), (λ h. refl)), tt))

abbrev stopped : Scheduler
stopped = record quiet { auto_stop = true; stopping = true }

abbrev nothing_left : Reactor
nothing_left = record {
  io = record { contexts = idle_context ∷ []; pending = 0; scheduled = [] };
  timers = record one_timer { timers = [] };
  shared = stopped;
  self = 3;
  pipe = 0;
}

-- What stopping reads where nobody acts between its reads.
abbrev nothing_seen : Seen
nothing_seen = record { pending = 0; reads = at_once stopped }

leaves :
    idle nothing_left 100 nothing_seen [] 100 0 (pos 1)
    ≡ ok (exits (stopping nothing_left 100 nothing_seen).0)
unfolding running is_stopping
leaves = refl

wait_lem_example :
    (((2 ^ 31) % 2 ^ 32 < 2 ^ 31) ⊎ (2 ^ 31 ≡ 2 ^ 64 - 1)
      → All (IsShort (2 ^ 31)) (wait (2 ^ 31) []).0)
    × (2 ^ 31 ≤ (2 ^ 31) % 2 ^ 32 → 2 ^ 31 ≢ 2 ^ 64 - 1 → All IsEndless (wait (2 ^ 31) []).0)
wait_lem_example = wait_lem (2 ^ 31) []

make_room_lem_example :
    (ds : List FdContext) × (x : FdContext) × (make_room 2 (idle_context ∷ []) 3 ≡ ok (ds, x))
    × (get_elem? ds 3 ≡ some x)
    × ((1 ≤ 3 → ds ≡ context_resize (idle_context ∷ []) (3 * 2)) × (3 < 1 → ds ≡ idle_context ∷ []))
make_room_lem_example = make_room_lem (idle_context ∷ []) 3 (omega arith)

abbrev caller : Caller
caller = record { scheduler = some 3; fiber = 8; executing = true }

write_waits_on_nothing : (x : FdContext) → get_elem? one_waits.contexts 4 ≡ some x → IsFree x write
write_waits_on_nothing x h = cc h

add_event_lem_example :
    (r : IoManager × Bool) × (add_event one_waits 4 write caller (some 6) accept ≡ ok r)
    × IsValid r.0
    × Added one_waits 4 write r
add_event_lem_example =
    add_event_lem one_waits 4 write caller 6 3 accept one_waits-IsValid (omega arith) write_is_event
      refl (omega arith) write_waits_on_nothing
  where
    write_is_event : write ≢ no_event
    write_is_event e = cc e
