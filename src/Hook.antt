-- ===== src/Hook.antt =====
-- include/hook.h and src/hook.cpp: system calls that let other fibers run while they wait.
-- The original functions are not the program's: the answers that they give, in order, are an
-- argument, and so is what the fiber finds each time it waits. A number of 0 or more is `returned`,
-- and -1 with its errno is `failed`. `none` as an outcome is a call that still waits.
pub mod Calls
pub mod Flags
pub mod Retrying
pub mod Timeouts
pub mod Nonblock
pub mod Closing
mod Tests
use cor_reactor.Base.{
  ℕ, zero, suc, ◌+◌, ◌-◌, ◌*◌, ◌/◌, ◌^◌, List, [], ◌∷◌, Option, none, some, Bool, true, false, ◌&&◌,
  ◌||◌, not, ◌==◌, if◌then◌else◌, Result, ok, ◌>>=◌,
}
use cor_reactor.Base.Int.{ℤ, pos, negsuc}
use cor_reactor.IoManager.{IoManager, Event, Caller, EpollCtl}
use cor_reactor.IoManager.Calls.{add_event}
use cor_reactor.FdManager.{FdCtx, FdManager, TimeoutType, get, get_timeout, no_timeout}

pub data Sys : Type 0 where
  returned : ℕ → Sys
  failed : ℕ → Sys

-- errno
abbrev pub eintr : ℕ
eintr = 4

abbrev pub ebadf : ℕ
ebadf = 9

abbrev pub eagain : ℕ
eagain = 11

abbrev pub etimedout : ℕ
etimedout = 110

abbrev pub einprogress : ℕ
einprogress = 115

abbrev pub failed_with : ℕ → Sys → Bool
failed_with e (returned n) = false
failed_with e (failed f) = f == e

-- A wait: the IOManager and the fiber when addEvent is called, what epoll answers to it and the errno
-- where it fails, and whether the timer of the wait fired before the fiber was woken.
pub record Wake : Type 0 where
  pub iom : IoManager
  pub caller : Caller
  pub epoll_ctl : EpollCtl
  pub errno : ℕ
  pub timed_out : Bool

-- addEvent of the running fiber.
unfoldable pub wait_for : ℕ → Event → Wake → Result (IoManager × Bool)
wait_for fd event w = add_event w.iom fd event w.caller none w.epoll_ctl

-- A call: its outcome, and how many timers it armed and cancelled.
pub record Io : Type 0 where
  pub outcome : Option Sys
  pub armed : ℕ
  pub cancelled : ℕ

abbrev pub has_timeout : ℕ → Bool
has_timeout to = not (to == no_timeout)

-- `while (n == -1 && errno == EINTR)`: the answer after the interruptions, and the answers left.
unfoldable pub call_fun : List Sys → Option (Sys × List Sys)
call_fun [] = none
call_fun (r ∷ rs) = if failed_with eintr r then call_fun rs else some (r, rs)

-- The branch for EAGAIN, once addEvent answered and the fiber was woken: `next` is the jump to
-- `retry`. A failed assertion of addEvent ends the call.
unfoldable pub after_wake : ℕ → Event → ℕ → Wake → Result Io → Result Io
after_wake fd event to w next = wait_for fd event w >>= λ r.
    let timers = if has_timeout to then 1 else 0 in
    if not r.1
    then ok (record { outcome = some (failed w.errno); armed = timers; cancelled = timers })
    else if has_timeout to && w.timed_out
    then ok (record { outcome = some (failed etimedout); armed = timers; cancelled = timers })
    else (next >>= λ n. ok (record {
      outcome = n.outcome;
      armed = timers + n.armed;
      cancelled = timers + n.cancelled;
    }))

unfoldable pub answered : Option (Sys × List Sys) → (List Sys → Result Io) → Result Io
answered none wait = ok (record { outcome = none; armed = 0; cancelled = 0 })
answered (some (r, rs)) wait =
    if failed_with eagain r
    then wait rs
    else ok (record { outcome = some r; armed = 0; cancelled = 0 })

-- do_io from the label `retry`, with the waits to come.
unfoldable pub retry_io : ℕ → Event → ℕ → List Wake → List Sys → Result Io
retry_io fd event to [] answers =
    answered (call_fun answers) (λ rest.
      ok (record { outcome = none; armed = if has_timeout to then 1 else 0; cancelled = 0 }))
retry_io fd event to (w ∷ ws) answers =
    answered (call_fun answers) (λ rest. after_wake fd event to w (retry_io fd event to ws rest))

-- `fun(fd, args...)` and nothing else.
unfoldable pub direct : List Sys → Io
direct [] = record { outcome = none; armed = 0; cancelled = 0 }
direct (r ∷ rs) = record { outcome = some r; armed = 0; cancelled = 0 }

-- FdMgr::GetInstance()->get(fd)
unfoldable pub find_ctx : FdManager → ℤ → Result (Option FdCtx)
find_ctx m fd = get m fd false (λ fd. none) >>= λ r. ok r.1

unfoldable pub do_io_ctx : FdCtx → ℕ → Event → TimeoutType → List Wake → List Sys → Result Io
do_io_ctx c fd event type wakes answers =
    if c.is_closed
    then ok (record { outcome = some (failed ebadf); armed = 0; cancelled = 0 })
    else if not c.is_socket || c.user_nonblock
    then ok (direct answers)
    else retry_io fd event (get_timeout c type) wakes answers

-- A descriptor that FdMgr knows is not negative.
abbrev pub fd_number : ℤ → ℕ
fd_number (pos n) = n
fd_number (negsuc n) = 0

-- do_io
unfoldable pub do_io : Bool → FdManager → ℤ → Event → TimeoutType → List Wake → List Sys → Result Io
do_io false m fd event type wakes answers = ok (direct answers)
do_io true m fd event type wakes answers = find_ctx m fd >>= λ o. elim o [
  | none ↦ ok (direct answers)
  | some c ↦ do_io_ctx c (fd_number fd) event type wakes answers
]
