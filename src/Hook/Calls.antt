-- ===== src/Hook/Calls.antt =====
-- src/hook.cpp: the hooked system calls themselves, but for the ones on flags and options.
use cor_reactor.Base.{
  ℕ, zero, suc, ◌+◌, ◌-◌, ◌*◌, ◌/◌, ◌%◌, ◌^◌, List, [], ◌∷◌, Option, none, some, Bool, true, false,
  ◌&&◌, not, ◌==◌, if◌then◌else◌, ltb, Result, ok, ◌>>=◌,
}
use cor_reactor.Base.Int.{ℤ, pos}
use cor_reactor.Timer.{TimerManager, add_timer}
use cor_reactor.IoManager.{IoManager, EpollCtl, read, write}
use cor_reactor.IoManager.Calls.{cancel_all}
use cor_reactor.FdManager.{FdCtx, FdManager, Fstat, so_rcvtimeo, other_type, get, del}
use cor_reactor.Hook.{
  Sys, returned, failed, ebadf, etimedout, einprogress, Wake, Io, has_timeout, find_ctx, do_io,
  direct, fd_number, wait_for,
}

-- The milliseconds of sleep (unsigned int), usleep and nanosleep (int, widened to uint64_t).
unfoldable pub sleep_ms : ℕ → ℕ
sleep_ms seconds = seconds * 1000 % 2 ^ 32

unfoldable pub usleep_ms : ℕ → ℕ
usleep_ms usec = usec / 1000

unfoldable pub nanosleep_ms : ℕ → ℕ → ℕ
nanosleep_ms sec nsec =
    let ms = (sec * 1000 + nsec / 1000 / 1000) % 2 ^ 32 in
    if ltb ms (2 ^ 31) then ms else 2 ^ 64 - 2 ^ 32 + ms

-- What each of them does with hooks on: a timer at address `p` that schedules the fiber.
unfoldable pub sleep_for : TimerManager → ℕ → ℕ → ℕ → ℕ → TimerManager × Bool
sleep_for m p now ms fiber = add_timer m p now ms (some fiber) false

-- sleep, usleep and nanosleep with hooks on
unfoldable pub sleep : TimerManager → ℕ → ℕ → ℕ → ℕ → TimerManager × Bool
unfolding sleep_for
sleep m p now fiber seconds = sleep_for m p now (sleep_ms seconds) fiber

unfoldable pub usleep : TimerManager → ℕ → ℕ → ℕ → ℕ → TimerManager × Bool
unfolding sleep_for
usleep m p now fiber usec = sleep_for m p now (usleep_ms usec) fiber

unfoldable pub nanosleep : TimerManager → ℕ → ℕ → ℕ → ℕ → ℕ → TimerManager × Bool
unfolding sleep_for
nanosleep m p now fiber sec nsec = sleep_for m p now (nanosleep_ms sec nsec) fiber

-- A new descriptor is recorded.
unfoldable pub record_fd : FdManager → Sys → Fstat → Result FdManager
record_fd m (failed e) fstat = ok m
record_fd m (returned fd) fstat = get m (pos fd) true fstat >>= λ r. ok r.0

-- socket, whose original answered `r`
unfoldable pub socket : Bool → FdManager → Sys → Fstat → Result (FdManager × Sys)
socket false m r fstat = ok (m, r)
socket true m r fstat = record_fd m r fstat >>= λ n. ok (n, r)

-- The end of connect_with_timeout: the answer of getsockopt(SO_ERROR).
unfoldable pub socket_error : Sys → Sys
socket_error (failed e) = failed e
socket_error (returned zero) = returned 0
socket_error (returned (suc e)) = failed (suc e)

-- The wait for an answer to connect.
unfoldable pub connect_wait : ℕ → ℕ → Option Wake → Sys → Result Io
connect_wait fd to none so_error =
    ok (record { outcome = none; armed = if has_timeout to then 1 else 0; cancelled = 0 })
connect_wait fd to (some w) so_error = wait_for fd write w >>= λ r.
    let timers = if has_timeout to then 1 else 0 in
    ok (record {
      outcome = some (
          if r.1 && (has_timeout to && w.timed_out)
          then failed etimedout
          else socket_error so_error);
      armed = timers;
      cancelled = timers;
    })

unfoldable pub connect_ctx : FdCtx → ℕ → ℕ → Sys → Option Wake → Sys → Result Io
connect_ctx c fd to answer wake so_error =
    if c.is_closed
    then ok (direct (failed ebadf ∷ []))
    else if not c.is_socket
    then ok (direct (answer ∷ []))
    else if c.user_nonblock
    then ok (direct (answer ∷ []))
    else elim answer [
      | returned n ↦ ok (direct (returned n ∷ []))
      | failed e ↦
          if e == einprogress then connect_wait fd to wake so_error else ok (direct (failed e ∷ []))
    ]

-- connect_with_timeout
unfoldable pub connect_with_timeout : Bool → FdManager → ℤ → ℕ → Sys → Option Wake → Sys → Result Io
connect_with_timeout false m fd to answer wake so_error = ok (direct (answer ∷ []))
connect_with_timeout true m fd to answer wake so_error = find_ctx m fd >>= λ o. elim o [
  | none ↦ ok (direct (failed ebadf ∷ []))
  | some c ↦ connect_ctx c (fd_number fd) to answer wake so_error
]

-- s_connect_timeout, as _HookIniter sets it
abbrev pub connect_timeout : ℕ
connect_timeout = 5000

-- connect
unfoldable pub connect : Bool → FdManager → ℤ → Sys → Option Wake → Sys → Result Io
connect hooked m fd = connect_with_timeout hooked m fd connect_timeout

-- read, readv, recv, recvfrom and recvmsg
unfoldable pub read_call : Bool → FdManager → ℤ → List Wake → List Sys → Result Io
read_call hooked m fd = do_io hooked m fd read so_rcvtimeo

-- write, writev, send, sendto and sendmsg
unfoldable pub write_call : Bool → FdManager → ℤ → List Wake → List Sys → Result Io
write_call hooked m fd = do_io hooked m fd write other_type

-- accept
unfoldable pub accept :
    Bool → FdManager → ℤ → List Wake → List Sys → Fstat → Result (FdManager × Io)
accept hooked m s wakes answers fstat = read_call hooked m s wakes answers >>= λ io.
    (elim io.outcome [ none ↦ ok m | some r ↦ record_fd m r fstat ]) >>= λ n. ok (n, io)

-- close, before close_f: `iom` is IOManager::GetThis().
unfoldable pub close :
    Bool → FdManager → Option IoManager → ℕ → EpollCtl → Result (FdManager × Option IoManager)
close false m iom fd epoll_ctl = ok (m, iom)
close true m iom fd epoll_ctl = find_ctx m (pos fd) >>= λ o. elim o [
  | none ↦ ok (m, iom)
  | some c ↦ elim iom [
    | none ↦ ok (del m fd, none)
    | some io ↦ cancel_all io fd epoll_ctl >>= λ r. ok (del m fd, some r.0)
  ]
]
