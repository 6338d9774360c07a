-- ===== src/IoManager/Reports.antt =====
-- idle: the events that epoll reports, on a valid IOManager.
use mathlib.Core.List.{append_assoc, append-nil}
use cor_reactor.Base.{
  ℕ, ◌≡◌, ◌≢◌, refl, sym, ap, ◌∙◌, ◌⊎◌, inl, inr, List, [], ◌∷◌, ◌++◌, All, some, Bool, true, ◌&&◌,
  ◌||◌, not, get_elem?, ok,
}
use cor_reactor.Scheduler.{ScheduleTask}
use cor_reactor.IoManager.{EpollCtl, FdContext, IoManager}
use cor_reactor.IoManager.Calls.{real_events}
use cor_reactor.IoManager.Counting.{IsValid}
use cor_reactor.IoManager.Removing.{handle_event_lem}
use cor_reactor.IoManager.Dispatch.{deliver_lem, handle_event_other}
use cor_reactor.IoManager.Idle.{
  Reactor, Report, tickled, reported, deliver, react_to, react, react_all,
}

-- Only registered events are reported.
abbrev pub IsRegistered : IoManager → Report → Type 0
IsRegistered m tickled = Unit
IsRegistered m (reported fd error readable writable epoll_ctl) =
    (x : FdContext) × (get_elem? m.contexts fd ≡ some x)
    × ((error || readable) ≡ true → x.events.reads ≡ true)
    × ((error || writable) ≡ true → x.events.writes ≡ true)

-- No report is about the descriptor.
abbrev IsApart : ℕ → Report → Type 0
IsApart fd tickled = Unit
IsApart fd (reported fd' error readable writable epoll_ctl) = fd ≢ fd'

abbrev pub AreApart : List Report → Type 0
AreApart [] = Unit
AreApart (tickled ∷ es) = AreApart es
AreApart (reported fd error readable writable epoll_ctl ∷ es) = All (IsApart fd) es × AreApart es

-- What the context of a reported descriptor has become: as it was, where epoll refused the change,
-- or without the events reported.
abbrev pub IsHandled : IoManager → IoManager → Report → Type 0
IsHandled m n tickled = Unit
IsHandled m n (reported fd error readable writable epoll_ctl) =
    (x : FdContext) × (y : FdContext) × (get_elem? m.contexts fd ≡ some x)
    × (get_elem? n.contexts fd ≡ some y)
    × ((y ≡ x)
        ⊎ (y.events ≡ record {
          reads = x.events.reads && not (error || readable);
          writes = x.events.writes && not (error || writable);
        }))

-- What the reports `es` make of r.
pub record Reacted (r : Reactor) (es : List Report) (q : Reactor) : Type 0 where
  pub valid : IsValid q.io
  pub timers : q.timers ≡ r.timers
  pub queue : (rest : List ScheduleTask) × (q.shared.fibers ≡ r.shared.fibers ++ rest)
  pub others : (j : ℕ) → All (IsApart j) es → get_elem? q.io.contexts j ≡ get_elem? r.io.contexts j
  pub handled : All (IsHandled r.io q.io) es

react_to_lem :
    (r : Reactor) (fd : ℕ) (error readable writable : Bool) (epoll_ctl : EpollCtl)
    → IsValid r.io
    → IsRegistered r.io (reported fd error readable writable epoll_ctl)
    → (q : Reactor) × (react_to r fd (get_elem? r.io.contexts fd) error readable writable epoll_ctl
        ≡ ok q)
      × Reacted r (reported fd error readable writable epoll_ctl ∷ []) q
unfolding react_to real_events
react_to_lem r fd error readable writable epoll_ctl v (x, at, hr, hw) =
    let m : IoManager = record r.io { scheduled = [] } in
    let w : IsValid m = record { counted = v.counted; bounded = v.bounded; ready = v.ready } in
    let real = real_events error readable writable in
    let (n, eq, valid, ends) = handle_event_lem m w fd epoll_ctl x real at hr hw in
    let (rest, queue) = deliver_lem r.self r.shared.fibers n.scheduled in
    (
      record r {
        io = record n { scheduled = r.io.scheduled ++ n.scheduled };
        shared = record r.shared { fibers = deliver r.self r.shared.fibers n.scheduled };
      },
      rw (at, react_to) (rw eq),
      record {
        valid = record { counted = valid.counted; bounded = valid.bounded; ready = valid.ready };
        timers = refl;
        queue = (rest, queue);
        others = λ j h. handle_event_other m fd j x real epoll_ctl n h.0 eq;
        handled = (left n ends, tt);
      },
    )
  where
    left :
        (n : IoManager)
        → (n ≡ record r.io { scheduled = [] })
          ⊎ ((y : FdContext) × (get_elem? n.contexts fd ≡ some y)
              × (y.events ≡ record {
                reads = x.events.reads && not (error || readable);
                writes = x.events.writes && not (error || writable);
              }))
        → IsHandled r.io n (reported fd error readable writable epoll_ctl)
    left n (inl e) = (x, x, at, ap (λ (k : IoManager). get_elem? k.contexts fd) e ∙ at, inl refl)
    left n (inr (y, here, gone)) = (x, y, at, here, inr gone)

react_lem :
    (r : Reactor) (e : Report)
    → IsValid r.io
    → IsRegistered r.io e
    → (q : Reactor) × (react r e ≡ ok q) × Reacted r (e ∷ []) q
unfolding react
react_lem r tickled v h = (
  record r { pipe = 0 },
  refl,
  record {
    valid = v;
    timers = refl;
    queue = ([], sym (append-nil r.shared.fibers));
    others = λ j k. refl;
    handled = (tt, tt);
  },
)
react_lem r (reported fd error readable writable epoll_ctl) v h =
    react_to_lem r fd error readable writable epoll_ctl v h

-- A report stands as it did while the contexts of the others changed.
IsRegistered-others :
    (m n : IoManager) (e : Report) (es : List Report)
    → ((j : ℕ) → All (IsApart j) (e ∷ []) → get_elem? n.contexts j ≡ get_elem? m.contexts j)
    → AreApart (e ∷ es)
    → All (IsRegistered m) es
    → All (IsRegistered n) es
IsRegistered-others m n e [] same apart h = tt
IsRegistered-others m n tickled (tickled ∷ es) same apart h =
    (tt, IsRegistered-others m n tickled es same apart h.1)
IsRegistered-others m n tickled (reported fd error readable writable epoll_ctl ∷ es) same apart h =
    let (x, at, hr, hw) = h.0 in
    ((x, same fd (tt, tt) ∙ at, hr, hw), IsRegistered-others m n tickled es same apart.1 h.1)
IsRegistered-others m n (reported i er re wr ctl) (tickled ∷ es) same apart h =
    (tt, IsRegistered-others m n (reported i er re wr ctl) es same (apart.0.1, apart.1) h.1)
IsRegistered-others m n (reported i er re wr ctl)
      (reported fd error readable writable epoll_ctl ∷ es) same apart h =
    let (x, at, hr, hw) = h.0 in
    (
      (x, same fd ((λ k. apart.0.0 (sym k)), tt) ∙ at, hr, hw),
      IsRegistered-others m n (reported i er re wr ctl) es same (apart.0.1, apart.1.1) h.1,
    )

apart_tail : (e : Report) (es : List Report) → AreApart (e ∷ es) → AreApart es
apart_tail tickled es h = h
apart_tail (reported fd error readable writable epoll_ctl) es h = h.1

-- The context of the first report is left alone by the later ones.
IsHandled-first :
    (m n k : IoManager) (e : Report) (es : List Report)
    → ((j : ℕ) → All (IsApart j) es → get_elem? k.contexts j ≡ get_elem? n.contexts j)
    → AreApart (e ∷ es)
    → IsHandled m n e
    → IsHandled m k e
IsHandled-first m n k tickled es same apart h = tt
IsHandled-first m n k (reported fd error readable writable epoll_ctl) es same apart h =
    let (x, y, before, after, left) = h in (x, y, before, same fd apart.0 ∙ after, left)

-- What the later reports made of their contexts, from before the first one.
IsHandled-later :
    (m n k : IoManager) (e : Report) (es : List Report)
    → ((j : ℕ) → All (IsApart j) (e ∷ []) → get_elem? n.contexts j ≡ get_elem? m.contexts j)
    → AreApart (e ∷ es)
    → All (IsHandled n k) es
    → All (IsHandled m k) es
IsHandled-later m n k e [] same apart h = tt
IsHandled-later m n k tickled (tickled ∷ es) same apart h =
    (tt, IsHandled-later m n k tickled es same apart h.1)
IsHandled-later m n k tickled (reported fd error readable writable epoll_ctl ∷ es) same apart h =
    let (x, y, before, after, left) = h.0 in
    (
      (x, y, sym (same fd (tt, tt)) ∙ before, after, left),
      IsHandled-later m n k tickled es same apart.1 h.1,
    )
IsHandled-later m n k (reported i er re wr ctl) (tickled ∷ es) same apart h =
    (tt, IsHandled-later m n k (reported i er re wr ctl) es same (apart.0.1, apart.1) h.1)
IsHandled-later m n k (reported i er re wr ctl) (reported fd error readable writable epoll_ctl ∷ es)
      same apart h =
    let (x, y, before, after, left) = h.0 in
    (
      (x, y, sym (same fd ((λ c. apart.0.0 (sym c)), tt)) ∙ before, after, left),
      IsHandled-later m n k (reported i er re wr ctl) es same (apart.0.1, apart.1.1) h.1,
    )

pub react_all_lem :
    (r : Reactor) (es : List Report)
    → IsValid r.io
    → AreApart es
    → All (IsRegistered r.io) es
    → (q : Reactor) × (react_all r es ≡ ok q) × Reacted r es q
unfolding react_all
react_all_lem r [] v apart h = (
  r,
  refl,
  record {
    valid = v;
    timers = refl;
    queue = ([], sym (append-nil r.shared.fibers));
    others = λ j k. refl;
    handled = tt;
  },
)
react_all_lem r (e ∷ es) v apart h =
    let (p, eq, first) = react_lem r e v h.0 in
    let (q, eq', later) =
      react_all_lem p es first.valid (apart_tail e es apart)
        (IsRegistered-others r.io p.io e es first.others apart h.1) in
    let (rest, queue) = first.queue in
    let (rest', queue') = later.queue in
    (
      q,
      rw (eq, eq'),
      record {
        valid = later.valid;
        timers = later.timers ∙ first.timers;
        queue = (
          rest ++ rest',
          queue' ∙ ap (λ ts. ts ++ rest') queue ∙ append_assoc r.shared.fibers rest rest',
        );
        others = λ j k. later.others j k.1 ∙ first.others j (k.0, tt);
        handled = (
          IsHandled-first r.io p.io q.io e es later.others apart first.handled.0,
          IsHandled-later r.io p.io q.io e es first.others apart later.handled,
        );
      },
    )
