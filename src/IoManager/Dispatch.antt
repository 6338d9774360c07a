-- ===== src/IoManager/Dispatch.antt =====
-- idle: running the timers, handing tasks to the queue, and what an event leaves alone.
use mathlib.Core.List.{append_assoc, append-nil}
use cor_reactor.Base.{
  ℕ, zero, suc, ◌+◌, ◌≡◌, ◌≢◌, refl, sym, ap, ◌∙◌, inl, inr, List, [], ◌∷◌, ◌++◌, Option, none,
  some, Bool, true, false, ◌&&◌, not, ltb, Bool-cases, get_elem?, set, ok, ok_eq, >>=-eq-ok, ◌==◌,
  ◌^◌,
}
use cor_reactor.Base.Int.{ℤ}
use cor_reactor.Timer.{list_expired_cb}
use cor_reactor.Scheduler.{ScheduleTask, schedule_no_lock, has_work}
use cor_reactor.IoManager.{
  Event, read, write, Events, bits, EpollCtl, FdContext, IoManager, Task, run_callback, run_fiber,
  trigger_event,
}
use cor_reactor.IoManager.Calls.{ctl_left, handle_event, fire, fire_if}
use cor_reactor.IoManager.Idle.{
  Reactor, is_zero, bytes, tickle, schedule_range, run_timers, task_entry, deliver,
}

-- The queue entries of callbacks: an empty one has none.
abbrev pub due_tasks : List (Option ℕ) → List ScheduleTask
due_tasks [] = []
due_tasks (none ∷ cbs) = due_tasks cbs
due_tasks (some cb ∷ cbs) = record { fiber = none; cb = some cb; thread = none } ∷ due_tasks cbs

pub schedule_range_lem :
    (ts : List ScheduleTask) (cbs : List (Option ℕ))
    → (schedule_range ts cbs).0 ≡ ts ++ due_tasks cbs
unfolding schedule_range schedule_no_lock
schedule_range_lem ts [] = sym (append-nil ts)
schedule_range_lem ts (none ∷ cbs) = schedule_range_lem ts cbs
schedule_range_lem ts (some cb ∷ cbs) =
    schedule_range_lem (ts ++ (record { fiber = none; cb = some cb; thread = none } ∷ [])) cbs
    ∙ append_assoc ts _ (due_tasks cbs)

tickle_lem :
    (r : Reactor) (written : ℤ)
    → is_zero written ≡ false
    → (n : ℕ) × (tickle r written ≡ ok (record r { pipe = n }))
unfolding tickle
tickle_lem r written h = elim (Bool-cases (ltb 0 r.shared.idle)) [
  | inl k ↦ (r.pipe, rw k)
  | inr k ↦ (r.pipe + bytes written, rw (k, h))
]

-- What running the timers leaves.
pub record Ran (r : Reactor) (now a : ℕ) (q : Reactor) : Type 0 where
  pub io : q.io ≡ r.io
  pub timers : q.timers ≡ (list_expired_cb r.timers now a).0
  pub queue : q.shared.fibers ≡ r.shared.fibers ++ due_tasks (list_expired_cb r.timers now a).1

pub run_timers_lem :
    (r : Reactor) (now a : ℕ) (written : ℤ)
    → is_zero written ≡ false
    → (q : Reactor) × (run_timers r now a written ≡ ok q) × Ran r now a q
unfolding run_timers
run_timers_lem r now a written h =
    let (timers', cbs) = list_expired_cb r.timers now a in
    let (queue, need_tickle) = schedule_range r.shared.fibers cbs in
    let q : Reactor = record r { timers = timers'; shared = record r.shared { fibers = queue } } in
    let ran = schedule_range_lem r.shared.fibers cbs in
    elim (Bool-cases need_tickle) [
      | inl t ↦
          let (n, e) = tickle_lem q written h in
          (record q { pipe = n }, rw t e, record { io = refl; timers = refl; queue = ran })
      | inr t ↦ (q, rw t, record { io = refl; timers = refl; queue = ran })
    ]

pub deliver_lem :
    (self : ℕ) (ts : List ScheduleTask) (tasks : List (ℕ × Task))
    → (rest : List ScheduleTask) × (deliver self ts tasks ≡ ts ++ rest)
unfolding deliver schedule_no_lock
deliver_lem self ts [] = ([], sym (append-nil ts))
deliver_lem self ts ((scheduler, task) ∷ tasks) = elim (Bool-cases (scheduler == self)) [
  | inr h ↦ rw h (deliver_lem self ts tasks)
  | inl h ↦
      let (rest, e) = deliver_lem self (ts ++ (task_entry task ∷ [])) tasks in
      (task_entry task ∷ rest, rw (h, entry_has_work task) (e ∙ append_assoc ts _ rest))
]
  where
    entry_has_work : (t : Task) → has_work (task_entry t) ≡ true
    entry_has_work (run_callback cb) = refl
    entry_has_work (run_fiber f) = refl

get_elem?-set_other :
    (cs : List FdContext) (i j : ℕ) (y : FdContext)
    → j ≢ i
    → get_elem? (set cs i y) j ≡ get_elem? cs j
get_elem?-set_other [] i j y h = refl
get_elem?-set_other (c ∷ cs) zero zero y h = absurd (h refl)
get_elem?-set_other (c ∷ cs) zero (suc j) y h = refl
get_elem?-set_other (c ∷ cs) (suc i) zero y h = refl
get_elem?-set_other (c ∷ cs) (suc i) (suc j) y h = get_elem?-set_other cs i j y (λ e. h (ap suc e))

fire_if_other :
    (b : Bool) (m : IoManager) (fd j : ℕ) (x : FdContext) (e : Event) (r : IoManager × FdContext)
    → j ≢ fd
    → fire_if b m fd x e ≡ ok r
    → get_elem? r.0.contexts j ≡ get_elem? m.contexts j
unfolding fire_if fire
fire_if_other false m fd j x e r h k =
    ap (λ (q : IoManager × FdContext). get_elem? q.0.contexts j) (sym (ok_eq k))
fire_if_other true m fd j x e r h k =
    let (t, u, v) = >>=-eq-ok (trigger_event x e) _ k in
    ap (λ (q : IoManager × FdContext). get_elem? q.0.contexts j) (sym (ok_eq v))
    ∙ get_elem?-set_other m.contexts fd j t.0 h

pub handle_event_other :
    (m : IoManager) (fd j : ℕ) (x : FdContext) (real : Events) (epoll_ctl : EpollCtl)
    (n : IoManager)
    → j ≢ fd
    → handle_event m fd x real epoll_ctl ≡ ok n
    → get_elem? n.contexts j ≡ get_elem? m.contexts j
unfolding handle_event
handle_event_other m fd j x real epoll_ctl n h =
    elim (Bool-cases (not (x.events.reads && real.reads) && not (x.events.writes && real.writes))) [
      | inl k ↦ rw k same
      | inr k ↦
          let left : Events = record {
            reads = x.events.reads && not real.reads;
            writes = x.events.writes && not real.writes;
          } in
          elim (Bool-cases (epoll_ctl (ctl_left left) fd (2 ^ 31 + bits left) == 0)) [
            | inr l ↦ rw (k, l) same
            | inl l ↦
                rw (k, l)
                  (λ e.
                    let (r, u, v) = >>=-eq-ok (fire_if real.reads m fd x read) _ e in
                    let (q, w, t) = >>=-eq-ok (fire_if real.writes r.0 fd r.1 write) _ v in
                    ap (λ (y : IoManager). get_elem? y.contexts j) (sym (ok_eq t))
                    ∙ fire_if_other real.writes r.0 fd j r.1 write q h w
                    ∙ fire_if_other real.reads m fd j x read r h u)
          ]
    ]
  where
    same : ok m ≡ ok n → get_elem? n.contexts j ≡ get_elem? m.contexts j
    same e = ap (λ (y : IoManager). get_elem? y.contexts j) (sym (ok_eq e))
