-- ===== src/Hook/Tests.antt =====
-- Runs of hooked calls, and the theorems at concrete inputs.
use cor_reactor.Base.{
  ℕ, ◌^◌, ◌<◌, ◌≡◌, refl, ◌⊎◌, List, [], ◌∷◌, none, some, true, false, get_elem?, replicate, ◌-◌,
  Bool, ok, arith,
}
use cor_reactor.Base.Int.{pos}
use cor_reactor.Timer.{Timer, TimerManager, timer_manager, list_expired_cb}
use cor_reactor.Timer.Ordered.{In}
use cor_reactor.Timer.Invariant
use cor_reactor.Timer.Invariant.{timer_manager-IsValid}
use cor_reactor.Timer.Expiry.{callbacks, rollover, firing}
use cor_reactor.IoManager.{
  IoManager, EpollCtl, EventContext, FdContext, read, is_none, ctl_del, contains, with_event, bits,
  get_context, put_context, is_reset, reset_context,
}
use cor_reactor.IoManager.Calls.{make_room, register, add_event}
use cor_reactor.IoManager.Counting
use cor_reactor.FdManager.{FdCtx, FdManager, Fstat, get}
use cor_reactor.FdManager.Lookup
use cor_reactor.Hook.{
  Sys, returned, failed, Wake, wait_for, call_fun, after_wake, answered, retry_io,
}
use cor_reactor.Hook.Calls.{close, sleep_for}
use cor_reactor.Hook.Retrying.{
  Returned, retry_io_returned, EndsWith, retry_io-first_final, first_final, waits_before,
}
use cor_reactor.Hook.Timeouts.{sleep_for_wakes}
use cor_reactor.Hook.Nonblock.{IsHeld}
use cor_reactor.Hook.Closing.{close_lem}

running : Unit {0}
unfolding call_fun after_wake answered retry_io wait_for add_event make_room register contains
    with_event bits get_context put_context is_reset reset_context
running = tt

abbrev accept_all : EpollCtl
accept_all op fd mask = 0

-- epoll refuses every change.
abbrev refuse_all : EpollCtl
refuse_all op fd mask = 1

abbrev unused : EventContext
unused = record { scheduler = none; fiber = none; cb = none }

abbrev context : ℕ → EventContext → Bool → FdContext
context fd reader reads = record {
  fd = fd;
  read_context = reader;
  write_context = unused;
  events = record { reads = reads; writes = false };
}

abbrev reader : EventContext
reader = record { scheduler = some 3; fiber = some 8; cb = none }

-- Descriptor 1 with nobody waiting, and with fiber 8 waiting to read.
abbrev no_waits : IoManager
no_waits = record {
  contexts = context 0 unused false ∷ context 1 unused false ∷ [];
  pending = 0;
  scheduled = [];
}

abbrev one_reads : IoManager
one_reads = record {
  contexts = context 0 unused false ∷ context 1 reader true ∷ [];
  pending = 1;
  scheduled = [];
}

-- An interruption, a wait, and 12 bytes.
abbrev busy_then_12 : List Sys
busy_then_12 = failed 4 ∷ failed 11 ∷ returned 12 ∷ []

abbrev woken : Wake
woken = record {
  iom = no_waits;
  caller = record { scheduler = some 3; fiber = 8; executing = true };
  epoll_ctl = accept_all;
  errno = 0;
  timed_out = false;
}

abbrev late : Wake
late = record woken { timed_out = true }

reads_12 :
    retry_io 1 read 300 (woken ∷ []) busy_then_12
    ≡ ok (record { outcome = some (returned 12); armed = 1; cancelled = 1 })
unfolding running
reads_12 = refl

is_refused :
    retry_io 1 read 300 (record woken { epoll_ctl = refuse_all; errno = 9 } ∷ []) busy_then_12
    ≡ ok (record { outcome = some (failed 9); armed = 1; cancelled = 1 })
unfolding running
is_refused = refl

times_out :
    retry_io 1 read 300 (late ∷ []) busy_then_12
    ≡ ok (record { outcome = some (failed 110); armed = 1; cancelled = 1 })
unfolding running
times_out = refl

retry_io_returned_example : Returned 1 read 300 (late ∷ []) busy_then_12 (failed 110)
retry_io_returned_example =
    retry_io_returned 1 read 300 (late ∷ []) busy_then_12
      (record { outcome = some (failed 110); armed = 1; cancelled = 1 }) (failed 110) times_out refl

woken_granted : wait_for 1 read woken ≡ ok (one_reads, true)
unfolding running
woken_granted = refl

retry_io-first_final_example :
    EndsWith (retry_io 1 read 300 (woken ∷ []) busy_then_12) (first_final busy_then_12)
unfolding waits_before
retry_io-first_final_example =
    retry_io-first_final 1 read 300 woken [] one_reads busy_then_12 woken_granted refl (omega arith)

abbrev no_timers : ℕ → Timer
no_timers q = record { recurring = false; ms = 0; next = 0; cb = none }

abbrev quiet : TimerManager
quiet = record { heap = no_timers; timers = []; tickled = false; previous = 100 }

quiet-IsValid : Invariant.IsValid quiet
unfolding timer_manager
quiet-IsValid = timer_manager-IsValid 100 no_timers (λ q. refl)

sleep_for_wakes_example :
    let n = (sleep_for quiet 7 100 50 3).0 in
    Invariant.IsValid n
    × (150 < 160 → In 7 (firing n 160 1))
    × (160 < 150 → rollover n 160 ≡ false → ¬ In 7 (firing n 160 1))
    × ((n.heap 7).cb ≡ some 3)
    × ((list_expired_cb n 160 1).1 ≡ callbacks n.heap (firing n 160 1))
sleep_for_wakes_example = sleep_for_wakes quiet 7 100 50 3 160 1 quiet-IsValid tt (omega arith)

abbrev socket_ctx : FdCtx
socket_ctx = record {
  is_init = true;
  is_socket = true;
  sys_nonblock = true;
  user_nonblock = false;
  is_closed = false;
  fd = 1;
  recv_timeout = 2 ^ 64 - 1;
  send_timeout = 2 ^ 64 - 1;
}

abbrev one_socket : FdManager
one_socket = record { datas = none ∷ some socket_ctx ∷ [] }

one_socket-IsHeld : IsHeld one_socket 1 socket_ctx
one_socket-IsHeld = record { at = refl; socket = refl; opened = refl; nonblock = refl }

abbrev no_stat : Fstat
no_stat fd = none

-- A manager of 64 places whose first holds the socket.
abbrev full_size : FdManager
full_size = record { datas = some socket_ctx ∷ replicate 63 none }

-- Descriptor 0 waits to be readable.
abbrev zero_reads : IoManager
zero_reads = record { contexts = context 0 reader true ∷ []; pending = 1; scheduled = [] }

close_lem_example :
    (n : FdManager) × (o : IoManager) × (close true full_size (some zero_reads) 0 accept_all
      ≡ ok (n, some o))
    × Lookup.IsValid n
    × Counting.IsValid o
    × (get n (pos 0) false no_stat ≡ ok (n, none))
    × ((o ≡ zero_reads)
        ⊎ ((y : FdContext) × (get_elem? o.contexts 0 ≡ some y) × (is_none y.events ≡ true)))
    × ((x : FdContext)
        → get_elem? zero_reads.contexts 0 ≡ some x
        → accept_all ctl_del 0 0 ≡ 0
        → (y : FdContext) × (get_elem? o.contexts 0 ≡ some y) × (is_none y.events ≡ true))
close_lem_example =
    close_lem full_size zero_reads 0 socket_ctx accept_all no_stat (omega arith)
      (record {
        counted = refl;
        bounded = omega arith;
        ready = (record { reader = λ h. (3, refl); writer = λ h. cc h }, tt);
      })
      refl
