-- ===== src/Timer.antt =====
-- include/timer.h and src/timer.cpp: timers and their manager.
-- A timer is known by its address; the manager's `heap` holds the timers by address, and `timers`
-- is the std::set of addresses in its order. Each public call holds the manager's lock, so a call
-- is one step. The time of day and the addresses that `new` returns are arguments. A callback is
-- only stored and handed out, so a number names it, and `none` is an empty std::function.
pub mod Order
pub mod Ordered
pub mod Invariant
pub mod Due
pub mod Expiry
pub mod Next
mod Tests
use cor_reactor.Base.{
  ℕ, ◌+◌, ◌-◌, ◌*◌, ◌%◌, ◌^◌, List, [], ◌∷◌, Option, none, some, Bool, true, false, ◌&&◌, not, ltb,
  leb, ◌==◌, if◌then◌else◌, Result, ok, check, ◌>>◌,
}

pub record Timer : Type 0 where
  pub recurring : Bool
  pub ms : ℕ
  pub next : ℕ
  pub cb : Option ℕ

-- `previous` is m_previouseTime.
pub record TimerManager : Type 0 where
  pub heap : ℕ → Timer
  pub timers : List ℕ
  pub tickled : Bool
  pub previous : ℕ

-- uint64_t arithmetic
abbrev pub add64 : ℕ → ℕ → ℕ
add64 a b = (a + b) % 2 ^ 64

abbrev pub sub64 : ℕ → ℕ → ℕ
sub64 a b = (a + 2 ^ 64 - b) % 2 ^ 64

-- The order of the set on times and addresses.
unfoldable pub less_key : ℕ → ℕ → ℕ → ℕ → Bool
less_key next p next' p' =
    if ltb next next' then true else if ltb next' next then false else ltb p p'

-- Timer::Comparator, on pointers that may be null.
unfoldable pub comparator : (ℕ → Timer) → Option ℕ → Option ℕ → Bool
comparator heap none none = false
comparator heap none (some q) = true
comparator heap (some p) none = false
comparator heap (some p) (some q) = less_key (heap p).next p (heap q).next q

abbrev pub less : (ℕ → Timer) → ℕ → ℕ → Bool
less heap p q = comparator heap (some p) (some q)

-- std::set::insert, find, erase and begin, with elements that compare neither way taken for equal.
unfoldable pub insert : (ℕ → Timer) → ℕ → List ℕ → List ℕ
insert heap p [] = p ∷ []
insert heap p (q ∷ qs) =
    if less heap p q then p ∷ q ∷ qs else if less heap q p then q ∷ insert heap p qs else q ∷ qs

abbrev pub equivalent : (ℕ → Timer) → ℕ → ℕ → Bool
equivalent heap p q = not (less heap p q) && not (less heap q p)

unfoldable pub find : (ℕ → Timer) → ℕ → List ℕ → Bool
find heap p [] = false
find heap p (q ∷ qs) = if equivalent heap p q then true else find heap p qs

unfoldable pub erase : (ℕ → Timer) → ℕ → List ℕ → List ℕ
erase heap p [] = []
erase heap p (q ∷ qs) = if equivalent heap p q then qs else q ∷ erase heap p qs

unfoldable pub is_begin : ℕ → List ℕ → Bool
is_begin p [] = false
is_begin p (q ∷ qs) = p == q

unfoldable pub update : (ℕ → Timer) → ℕ → Timer → ℕ → Timer
update heap p t q = if q == p then t else heap q

-- TimerManager::TimerManager()
unfoldable pub timer_manager : ℕ → (ℕ → Timer) → TimerManager
timer_manager now heap = record { heap = heap; timers = []; tickled = false; previous = now }

-- Timer::Timer(ms, cb, recurring, manager)
unfoldable pub new_timer : ℕ → ℕ → Option ℕ → Bool → Timer
new_timer now ms cb recurring = record {
  recurring = recurring;
  ms = ms;
  next = add64 now ms;
  cb = cb;
}

-- addTimer: the new manager, and whether onTimerInsertedAtFront is called.
unfoldable pub add_timer : TimerManager → ℕ → ℕ → ℕ → Option ℕ → Bool → TimerManager × Bool
unfolding new_timer is_begin
add_timer m p now ms cb recurring =
    let heap' = update m.heap p (new_timer now ms cb recurring) in
    let timers' = insert heap' p m.timers in
    let at_front = is_begin p timers' && not m.tickled in
    (
      record m { heap = heap'; timers = timers'; tickled = if at_front then true else m.tickled },
      at_front,
    )

-- OnTimer: the callback runs only while the condition is alive.
unfoldable pub on_timer : Bool → ℕ → Option ℕ
on_timer alive cb = if alive then some cb else none

-- Timer::cancel
unfoldable pub cancel : TimerManager → ℕ → Result (TimerManager × Bool)
cancel m p = elim (m.heap p).cb [
  | none ↦ ok (m, false)
  | some cb ↦
      let heap' = update m.heap p (record (m.heap p) { cb = none }) in
      check (find heap' p m.timers)
      >> ok (record m { heap = heap'; timers = erase heap' p m.timers }, true)
]

-- The timer is taken out of the set, changed and put back.
unfoldable pub rearm : TimerManager → ℕ → Timer → TimerManager
rearm m p t =
    let heap' = update m.heap p t in
    record m { heap = heap'; timers = insert heap' p (erase m.heap p m.timers) }

-- Timer::refresh
unfoldable pub refresh : TimerManager → ℕ → ℕ → TimerManager × Bool
unfolding rearm
refresh m p now = elim (m.heap p).cb [
  | none ↦ (m, false)
  | some cb ↦
      if find m.heap p m.timers
      then (rearm m p (record (m.heap p) { next = add64 now (m.heap p).ms }), true)
      else (m, false)
]

-- Timer::reset
unfoldable pub reset : TimerManager → ℕ → ℕ → Bool → ℕ → TimerManager × Bool
unfolding rearm
reset m p ms from_now now =
    if ms == (m.heap p).ms && not from_now then (m, true) else elim (m.heap p).cb [
      | none ↦ (m, false)
      | some cb ↦
          let start = if from_now then now else sub64 (m.heap p).next (m.heap p).ms in
          if find m.heap p m.timers
          then (rearm m p (record (m.heap p) { ms = ms; next = add64 start ms }), true)
          else (m, false)
    ]

first_timeout : (ℕ → Timer) → ℕ → List ℕ → ℕ
first_timeout heap now [] = 2 ^ 64 - 1
first_timeout heap now (p ∷ ps) = if leb (heap p).next now then 0 else (heap p).next - now

-- getNextTimer
unfoldable pub get_next_timer : TimerManager → ℕ → TimerManager × ℕ
unfolding first_timeout
get_next_timer m now = (record m { tickled = false }, first_timeout m.heap now m.timers)

-- detectClockRollover
unfoldable pub detect_clock_rollover : TimerManager → ℕ → TimerManager × Bool
detect_clock_rollover m now =
    (record m { previous = now }, ltb now m.previous && ltb now (sub64 m.previous (60 * 60 * 1000)))

-- [begin, lower_bound(now_timer)) and the rest, with `a` the address of now_timer.
unfoldable pub expired : (ℕ → Timer) → ℕ → ℕ → List ℕ → List ℕ
expired heap now a [] = []
expired heap now a (p ∷ ps) =
    if less_key (heap p).next p now a then p ∷ expired heap now a ps else []

unfoldable pub unexpired : (ℕ → Timer) → ℕ → ℕ → List ℕ → List ℕ
unexpired heap now a [] = []
unexpired heap now a (p ∷ ps) =
    if less_key (heap p).next p now a then unexpired heap now a ps else p ∷ ps

-- One round of the loop over the expired timers.
unfoldable pub expire : TimerManager → ℕ → ℕ → TimerManager
expire m now p =
    if (m.heap p).recurring
    then (let heap' = update m.heap p (record (m.heap p) { next = add64 now (m.heap p).ms }) in
        record m { heap = heap'; timers = insert heap' p m.timers })
    else record m { heap = update m.heap p (record (m.heap p) { cb = none }) }

unfoldable pub expire_all : TimerManager → ℕ → List ℕ → TimerManager × List (Option ℕ)
expire_all m now [] = (m, [])
expire_all m now (p ∷ ps) =
    let (m', cbs) = expire_all (expire m now p) now ps in (m', (m.heap p).cb ∷ cbs)

-- The rest of listExpiredCb once the clock was looked at.
unfoldable pub collect : TimerManager → Bool → ℕ → ℕ → TimerManager × List (Option ℕ)
collect m true now a = expire_all (record m { timers = [] }) now m.timers
collect m false now a =
    expire_all (record m { timers = unexpired m.heap now a m.timers }) now
      (expired m.heap now a m.timers)

-- `!rollover && (*m_timers.begin())->m_next > now_ms`
unfoldable pub nothing_due : (ℕ → Timer) → ℕ → Bool → List ℕ → Bool
nothing_due heap now rollover [] = true
nothing_due heap now rollover (p ∷ ps) = not rollover && ltb now (heap p).next

-- listExpiredCb
unfoldable pub list_expired_cb : TimerManager → ℕ → ℕ → TimerManager × List (Option ℕ)
list_expired_cb m now a = elim m.timers [
  | [] ↦ (m, [])
  | p ∷ ps ↦
      let (m', rollover) = detect_clock_rollover m now in
      if nothing_due m.heap now rollover m.timers then (m', []) else collect m' rollover now a
]

-- hasTimer
unfoldable pub has_timer : TimerManager → Bool
has_timer m = elim m.timers [ [] ↦ false | p ∷ ps ↦ true ]
