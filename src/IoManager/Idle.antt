-- ===== src/IoManager/Idle.antt =====
-- src/iomanager.cpp: tickle, stopping, onTimerInsertedAtFront and the loop of idle; include/scheduler.h:
-- schedule of a range and hasIdleThreads.
-- The other threads change what stopping reads; the rest of a round is followed on its own.
-- `shared` is the Scheduler of this IOManager and `self` its number; `pipe` counts the bytes in the
-- pipe of m_tickleFds. What write and epoll_wait answer is an argument. A round of idle ends with
-- the switch to the fiber that runs the scheduler's loop; epoll reports a descriptor by its context.
use cor_reactor.Base.{
  ℕ, ◌+◌, ◌-◌, ◌%◌, ◌^◌, List, [], ◌∷◌, ◌++◌, Option, none, some, Bool, false, ◌&&◌, ◌||◌, ltb, not,
  ◌==◌, if◌then◌else◌, get_elem?, Result, ok, fail, null_deref, check, ◌>>=◌, ◌>>◌,
}
use cor_reactor.Base.Int.{ℤ, pos, negsuc, of_word}
use cor_reactor.Timer.{TimerManager, get_next_timer, list_expired_cb}
use cor_reactor.Scheduler.{Scheduler, ScheduleTask, schedule_no_lock}
use cor_reactor.Scheduler.Workers.{Reads, is_stopping}
use cor_reactor.IoManager.{IoManager, EpollCtl, FdContext, Task, run_callback, run_fiber}
use cor_reactor.IoManager.Calls.{handle_event, real_events}

pub record Reactor : Type 0 where
  pub io : IoManager
  pub timers : TimerManager
  pub shared : Scheduler
  pub self : ℕ
  pub pipe : ℕ

abbrev pub is_zero : ℤ → Bool
is_zero (pos n) = n == 0
is_zero (negsuc n) = false

abbrev pub bytes : ℤ → ℕ
bytes (pos n) = n
bytes (negsuc n) = 0

-- tickle, where write returns -1, 0 or 1.
unfoldable pub tickle : Reactor → ℤ → Result Reactor
tickle r written =
    if ltb 0 r.shared.idle
    then ok r
    else (check (not (is_zero written)) >> ok (record r { pipe = r.pipe + bytes written }))

-- onTimerInsertedAtFront
unfoldable pub on_timer_inserted_at_front : Reactor → ℤ → Result Reactor
on_timer_inserted_at_front r written = tickle r written

-- What stopping reads after the timer: the count of pending events and the members of the scheduler,
-- one after the other, while the other threads go on.
pub record Seen : Type 0 where
  pub pending : ℕ
  pub reads : Reads

-- stopping, with the time until the next timer.
unfoldable pub stopping : Reactor → ℕ → Seen → Reactor × (ℕ × Bool)
stopping r now seen =
    let (timers', timeout) = get_next_timer r.timers now in
    (
      record r { timers = timers' },
      (timeout, (timeout == 2 ^ 64 - 1) && (seen.pending == 0) && is_stopping seen.reads),
    )

-- `(int)v` of a uint64_t
abbrev pub to_int : ℕ → ℤ
to_int v = of_word (2 ^ 31) (v % 2 ^ 32)

-- `(int)next_timeout > MAX_TIMEOUT`
abbrev pub exceeds : ℤ → Bool
exceeds (pos n) = ltb 3000 n
exceeds (negsuc n) = false

-- What becomes of next_timeout before epoll_wait.
unfoldable pub clamp : ℕ → ℕ
clamp next_timeout =
    if next_timeout == 2 ^ 64 - 1
    then 3000
    else if exceeds (to_int next_timeout)
    then 3000
    else next_timeout

-- One of the events that epoll_wait reports: the pipe, or a descriptor with EPOLLERR or EPOLLHUP,
-- EPOLLIN and EPOLLOUT, and with the epoll_ctl that idle calls for it.
pub data Report : Type 0 where
  tickled : Report
  reported : (fd : ℕ) (error readable writable : Bool) (epoll_ctl : EpollCtl) → Report

-- An answer of epoll_wait: EINTR, another error, or events.
pub data Answer : Type 0 where
  interrupted : Answer
  failed : Answer
  events : List Report → Answer

-- The loop around epoll_wait: the timeouts that it was given, and the events of the answer that ends
-- the loop, if one of the answers does.
unfoldable pub wait : ℕ → List Answer → List ℤ × Option (List Report)
wait next_timeout [] = (to_int (clamp next_timeout) ∷ [], none)
wait next_timeout (interrupted ∷ answers) =
    let (timeouts, reports) = wait (clamp next_timeout) answers in
    (to_int (clamp next_timeout) ∷ timeouts, reports)
wait next_timeout (failed ∷ answers) = (to_int (clamp next_timeout) ∷ [], some [])
wait next_timeout (events rs ∷ answers) = (to_int (clamp next_timeout) ∷ [], some rs)

-- `schedule(cbs.begin(), cbs.end())` without tickle: the queue, and need_tickle.
unfoldable pub schedule_range : List ScheduleTask → List (Option ℕ) → List ScheduleTask × Bool
schedule_range ts [] = (ts, false)
schedule_range ts (cb ∷ cbs) =
    let (ts', first) = schedule_no_lock ts (record { fiber = none; cb = cb; thread = none }) in
    let (ts'', rest) = schedule_range ts' cbs in (ts'', first || rest)

-- The callbacks of the timers go to the queue, with tickle where it was empty.
unfoldable pub run_timers : Reactor → ℕ → ℕ → ℤ → Result Reactor
run_timers r now a written =
    let (timers', cbs) = list_expired_cb r.timers now a in
    let (queue, need_tickle) = schedule_range r.shared.fibers cbs in
    let r' : Reactor = record r { timers = timers'; shared = record r.shared { fibers = queue } } in
    if need_tickle then tickle r' written else ok r'

abbrev pub task_entry : Task → ScheduleTask
task_entry (run_callback cb) = record { fiber = none; cb = some cb; thread = none }
task_entry (run_fiber fiber) = record { fiber = some fiber; cb = none; thread = none }

-- What was handed to this scheduler stands in its queue.
unfoldable pub deliver : ℕ → List ScheduleTask → List (ℕ × Task) → List ScheduleTask
deliver self ts [] = ts
deliver self ts ((scheduler, task) ∷ rest) =
    deliver self (if scheduler == self then (schedule_no_lock ts (task_entry task)).0 else ts) rest

unfoldable pub react_to :
    Reactor → ℕ → Option FdContext → Bool → Bool → Bool → EpollCtl → Result Reactor
react_to r fd none error readable writable epoll_ctl = fail null_deref
react_to r fd (some x) error readable writable epoll_ctl =
    handle_event (record r.io { scheduled = [] }) fd x (real_events error readable writable)
      epoll_ctl
    >>= λ io'. ok (record r {
      io = record io' { scheduled = r.io.scheduled ++ io'.scheduled };
      shared = record r.shared { fibers = deliver r.self r.shared.fibers io'.scheduled };
    })

-- One round of the loop over the reported events; the pipe is read until it is empty.
unfoldable pub react : Reactor → Report → Result Reactor
unfolding react_to
react r tickled = ok (record r { pipe = 0 })
react r (reported fd error readable writable epoll_ctl) =
    react_to r fd (get_elem? r.io.contexts fd) error readable writable epoll_ctl

unfoldable pub react_all : Reactor → List Report → Result Reactor
unfolding react
react_all r [] = ok r
react_all r (e ∷ es) = react r e >>= λ r'. react_all r' es

-- How a round of idle ends: the loop is left, epoll_wait waits, or the fiber switches out.
pub data Round : Type 0 where
  exits : Reactor → Round
  waits : Reactor → Round
  swaps_out : Reactor → Round

unfoldable pub after_wait : Reactor → ℕ → ℕ → ℤ → Option (List Report) → Result Round
unfolding run_timers react_all
after_wait r now a written none = ok (waits r)
after_wait r now a written (some es) =
    run_timers r now a written >>= λ r'. react_all r' es >>= λ r''. ok (swaps_out r'')

-- A round of idle: `before` and `now` are the times of stopping and of listExpiredCb, `seen` is what
-- stopping reads, and `a` is the address of the timer that listExpiredCb compares with.
unfoldable pub idle : Reactor → ℕ → Seen → List Answer → ℕ → ℕ → ℤ → Result Round
unfolding stopping wait after_wait
idle r before seen answers now a written =
    let (r', (next_timeout, stops)) = stopping r before seen in
    if stops then ok (exits r') else after_wait r' now a written (wait next_timeout answers).1
