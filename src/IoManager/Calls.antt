-- ===== src/IoManager/Calls.antt =====
-- src/iomanager.cpp: addEvent, delEvent, cancelEvent, cancelAll, and idle's work on an event.
use cor_reactor.Base.{
  ℕ, zero, suc, ◌+◌, ◌-◌, ◌*◌, ◌%◌, ◌^◌, List, ◌++◌, Option, none, some, Bool, true, false, ◌&&◌,
  ◌||◌, not, ◌==◌, if◌then◌else◌, get_elem?, set, Result, ok, fail, out_of_fuel, check, ◌>>=◌, ◌>>◌,
}
use cor_reactor.IoManager.{
  Event, read, write, Events, contains, with_event, without_event, is_none, bits, epollet, Ctl,
  ctl_add, ctl_mod, ctl_del, EpollCtl, EventContext, FdContext, IoManager, Caller, reset_context,
  is_reset, get_context, put_context, trigger_event, context_resize,
}

-- The loop of addEvent that makes room for `fd`: enough rounds are two.
unfoldable pub make_room : ℕ → List FdContext → ℕ → Result (List FdContext × FdContext)
make_room zero cs fd = fail out_of_fuel
make_room (suc fuel) cs fd = elim (get_elem? cs fd) [
  | some x ↦ ok (cs, x)
  | none ↦ make_room fuel (context_resize cs (fd * 2)) fd
]

-- The part of addEvent that holds the context's lock; `true` is the return value 0.
unfoldable pub register :
    FdContext → ℕ → Event → Caller → Option ℕ → EpollCtl → Result (FdContext × Bool)
register x fd event caller cb epoll_ctl =
    check (not (contains x.events event))
    >> (if epoll_ctl (if is_none x.events then ctl_add else ctl_mod) fd
            (epollet + bits (with_event x.events event))
          == 0
        then (let x' = record x { events = with_event x.events event } in
            get_context x' event >>= λ c.
            check (is_reset c) >> waiting >>= λ w. ok (put_context x' event w, true))
        else ok (x, false))
  where
    waiting : Result EventContext
    waiting = elim cb [
      | some f ↦ ok (record { scheduler = caller.scheduler; fiber = none; cb = some f })
      | none ↦
          check caller.executing
          >> ok (record { scheduler = caller.scheduler; fiber = some caller.fiber; cb = none })
    ]

-- addEvent
unfoldable pub add_event :
    IoManager → ℕ → Event → Caller → Option ℕ → EpollCtl → Result (IoManager × Bool)
add_event m fd event caller cb epoll_ctl = do
  (cs, x) ← make_room 2 m.contexts fd
  (x', done) ← register x fd event caller cb epoll_ctl
  ok (
    record m { contexts = set cs fd x'; pending = if done then suc m.pending else m.pending },
    done,
  )

abbrev pub ctl_left : Events → Ctl
ctl_left left = if is_none left then ctl_del else ctl_mod

-- `--m_pendingEventCount` on a size_t.
abbrev pub dec_pending : ℕ → ℕ
dec_pending n = (n + 2 ^ 64 - 1) % 2 ^ 64

-- delEvent on the context of the descriptor
unfoldable pub del_event_of :
    IoManager → ℕ → FdContext → Event → EpollCtl → Result (IoManager × Bool)
del_event_of m fd x event epoll_ctl =
    if contains x.events event
    then (let left = without_event x.events event in
        if epoll_ctl (ctl_left left) fd (epollet + bits left) == 0
        then (get_context x event >>= λ c. ok (
          record m {
            contexts =
                set m.contexts fd (put_context (record x { events = left }) event reset_context);
            pending = dec_pending m.pending;
          },
          true,
        ))
        else ok (m, false))
    else ok (m, false)

-- delEvent
unfoldable pub del_event : IoManager → ℕ → Event → EpollCtl → Result (IoManager × Bool)
unfolding del_event_of
del_event m fd event epoll_ctl = elim (get_elem? m.contexts fd) [
  | none ↦ ok (m, false)
  | some x ↦ del_event_of m fd x event epoll_ctl
]

-- Trigger one event of a context and count it.
unfoldable pub fire : IoManager → ℕ → FdContext → Event → Result (IoManager × FdContext)
fire m fd x event = trigger_event x event >>= λ r. ok (
  record m {
    contexts = set m.contexts fd r.0;
    pending = dec_pending m.pending;
    scheduled = m.scheduled ++ r.1;
  },
  r.0,
)

-- cancelEvent on the context of the descriptor: epoll is given the old events.
unfoldable pub cancel_event_of :
    IoManager → ℕ → FdContext → Event → EpollCtl → Result (IoManager × Bool)
unfolding fire
cancel_event_of m fd x event epoll_ctl =
    if contains x.events event
    then (if epoll_ctl (ctl_left (without_event x.events event)) fd (bits x.events) == 0
        then (fire m fd x event >>= λ r. ok (r.0, true))
        else ok (m, false))
    else ok (m, false)

-- cancelEvent
unfoldable pub cancel_event : IoManager → ℕ → Event → EpollCtl → Result (IoManager × Bool)
unfolding cancel_event_of
cancel_event m fd event epoll_ctl = elim (get_elem? m.contexts fd) [
  | none ↦ ok (m, false)
  | some x ↦ cancel_event_of m fd x event epoll_ctl
]

-- Trigger an event under a condition.
unfoldable pub fire_if : Bool → IoManager → ℕ → FdContext → Event → Result (IoManager × FdContext)
fire_if true m fd x event = fire m fd x event
fire_if false m fd x event = ok (m, x)

-- cancelAll on the context of the descriptor
unfoldable pub cancel_all_of : IoManager → ℕ → FdContext → EpollCtl → Result (IoManager × Bool)
unfolding fire_if
cancel_all_of m fd x epoll_ctl =
    if is_none x.events
    then ok (m, false)
    else if epoll_ctl ctl_del fd 0 == 0
    then (fire_if x.events.reads m fd x read >>= λ r.
        fire_if r.1.events.writes r.0 fd r.1 write >>= λ q.
        check (is_none q.1.events) >> ok (q.0, true))
    else ok (m, false)

-- cancelAll
unfoldable pub cancel_all : IoManager → ℕ → EpollCtl → Result (IoManager × Bool)
unfolding cancel_all_of
cancel_all m fd epoll_ctl = elim (get_elem? m.contexts fd) [
  | none ↦ ok (m, false)
  | some x ↦ cancel_all_of m fd x epoll_ctl
]

-- The events that idle takes from epoll's: an error or a hang-up stands for both.
unfoldable pub real_events : Bool → Bool → Bool → Events
real_events error readable writable = record {
  reads = error || readable;
  writes = error || writable;
}

-- idle's treatment of one event of epoll.
unfoldable pub handle_event : IoManager → ℕ → FdContext → Events → EpollCtl → Result IoManager
unfolding fire_if
handle_event m fd x real epoll_ctl =
    if not (x.events.reads && real.reads) && not (x.events.writes && real.writes)
    then ok m
    else (let left : Events = record {
      reads = x.events.reads && not real.reads;
      writes = x.events.writes && not real.writes;
    } in
        if epoll_ctl (ctl_left left) fd (epollet + bits left) == 0
        then (fire_if real.reads m fd x read >>= λ r.
            fire_if real.writes r.0 fd r.1 write >>= λ q. ok q.0)
        else ok m)
