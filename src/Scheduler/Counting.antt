-- ===== src/Scheduler/Counting.antt =====
-- The counters of the scheduler count: what each step of a worker does to them, and to the flags.
use cor_reactor.Base.{
  ℕ, zero, suc, ◌+◌, ◌≤◌, ◌≡◌, refl, ap, subst, inl, inr, List, [], ◌∷◌, Option, none, some, Bool,
  true, false, not, ◌==◌, if◌then◌else◌, Bool-cases, get_elem?, set, ◌∙◌, ok, check, ◌>>=◌,
  >>=-eq-ok, some_eq, ok_eq, arith,
}
use cor_reactor.Scheduler.{
  State, state_init, state_hold, state_exec, state_term, state_ready, state_except, ScheduleTask,
  Scheduler, is_exec, is_empty, set_state, after_swap, pick,
}
use cor_reactor.Scheduler.Workers.{
  Question, asks_auto_stop, asks_stopping, asks_queue, asks_active, Phase, looking, taken,
  nothing_found, in_fiber, fiber_out, fiber_left, in_callback, callback_out, callback_left, in_idle,
  idle_left, ended, Worker, System, scanned, scan, enter, start_callback, start_work, start_task,
  leave, count_down, fiber_back, callback_back, is_resettable, is_term, go_idle, asked, idle_asks,
  idle_back, act_in, act, Event, acts, schedules, auto_stops, stops, worker_step, step, steps,
}

-- A worker that has a task, and one that idles.
abbrev pub holds : Phase → ℕ
holds (taken t) = 1
holds (in_fiber f) = 1
holds (fiber_out f) = 1
holds (in_callback g) = 1
holds (callback_out g) = 1
holds _ = 0

abbrev pub idles : Phase → ℕ
idles (in_idle q) = 1
idles idle_left = 1
idles _ = 0

abbrev pub total : (Phase → ℕ) → List Worker → ℕ
total f [] = 0
total f (w ∷ ws) = f w.phase + total f ws

-- The counters are the numbers of those workers.
pub record IsCounted (y : System) : Type 0 where
  pub active : y.shared.active ≡ total holds y.workers
  pub idle : y.shared.idle ≡ total idles y.workers

total-set :
    (f : Phase → ℕ) (ws : List Worker) (i : ℕ) (w v : Worker)
    → get_elem? ws i ≡ some w
    → total f (set ws i v) + f w.phase ≡ total f ws + f v.phase
total-set f [] i w v h = cc h
total-set f (u ∷ ws) zero w v h = omega (arith, ap (λ (w : Worker). f w.phase) (some_eq h))
total-set f (u ∷ ws) (suc i) w v h = omega (arith, total-set f ws i w v h)

total-le :
    (f : Phase → ℕ) (ws : List Worker) (i : ℕ) (w : Worker)
    → get_elem? ws i ≡ some w
    → f w.phase ≤ total f ws
total-le f [] i w h = cc h
total-le f (u ∷ ws) zero w h = omega (arith, ap (λ (w : Worker). f w.phase) (some_eq h))
total-le f (u ∷ ws) (suc i) w h = omega (arith, total-le f ws i w h)

-- A step of a worker changes the counters as it changes its phase, and leaves the flags alone.
abbrev Keeps : Scheduler → Worker → Scheduler × Worker → Type 0
Keeps s w r =
    (r.0.active + holds w.phase ≡ s.active + holds r.1.phase)
    × (r.0.idle + idles w.phase ≡ s.idle + idles r.1.phase)
    × (r.0.auto_stop ≡ s.auto_stop)
    × (r.0.stopping ≡ s.stopping)

-- What the steps inside a phase keep.
abbrev Same : Scheduler → Scheduler → Type 0
Same s r =
    (r.active ≡ s.active)
    × (r.idle ≡ s.idle)
    × (r.auto_stop ≡ s.auto_stop)
    × (r.stopping ≡ s.stopping)

enter_counts : (s : Scheduler) (f : ℕ) (r : Scheduler) → enter s f ≡ ok r → Same s r
unfolding enter
enter_counts s f r h =
    let (u, c, e) = >>=-eq-ok (check (not (is_exec (s.states f)))) _ h in
    subst (Same s) (ok_eq e) (refl, refl, refl, refl)

after_swap_counts : (s : Scheduler) (f : ℕ) (o : State) → Same s (after_swap s f o)
unfolding after_swap
after_swap_counts s f state_init = (refl, refl, refl, refl)
after_swap_counts s f state_hold = (refl, refl, refl, refl)
after_swap_counts s f state_exec = (refl, refl, refl, refl)
after_swap_counts s f state_term = (refl, refl, refl, refl)
after_swap_counts s f state_ready = (refl, refl, refl, refl)
after_swap_counts s f state_except = (refl, refl, refl, refl)

module _ (s : Scheduler) (w : Worker) where
  enters :
      (n : Scheduler) (f : ℕ) (v : Worker) (r : Scheduler × Worker)
      → (enter n f >>= λ x. ok (x, v)) ≡ ok r
      → n.active + holds w.phase ≡ s.active + holds v.phase
      → n.idle + idles w.phase ≡ s.idle + idles v.phase
      → n.auto_stop ≡ s.auto_stop
      → n.stopping ≡ s.stopping
      → Keeps s w r
  enters n f v r h a i auto st =
      let (x, e, q) = >>=-eq-ok (enter n f) _ h in
      let (xa, xi, xas, xst) = enter_counts n f x e in
      subst (Keeps s w) (ok_eq q) (omega (arith, a, xa), omega (arith, i, xi), xas ∙ auto, xst ∙ st)

  scanned_counts :
      (rest : List ScheduleTask) (o : Option ScheduleTask)
      → w.phase ≡ looking
      → Keeps s w (scanned s w rest o)
  unfolding scanned
  scanned_counts rest none l = (omega (arith, ap holds l), omega (arith, ap idles l), refl, refl)
  scanned_counts rest (some t) l =
      (omega (arith, ap holds l), omega (arith, ap idles l), refl, refl)

  scan_counts : (r : Scheduler × Worker) → w.phase ≡ looking → scan s w ≡ ok r → Keeps s w r
  unfolding scan
  scan_counts r l h =
      let (p, c, e) = >>=-eq-ok (pick s.states w.thread s.fibers) _ h in
      subst (Keeps s w) (ok_eq e) (scanned_counts p.rest p.task l)

  start_callback_counts :
      (t : ScheduleTask) (fresh : ℕ) (o : Option ℕ) (r : Scheduler × Worker)
      → w.phase ≡ taken t
      → start_callback s w fresh o ≡ ok r
      → Keeps s w r
  unfolding start_callback
  start_callback_counts t fresh none r l h =
      enters (record s { states = set_state s.states fresh state_init }) fresh
        (record w { phase = in_callback fresh; cb_fiber = some fresh }) r h
        (omega (arith, ap holds l)) (omega (arith, ap idles l)) refl refl
  start_callback_counts t fresh (some g) r l h =
      let (u, c, e) = >>=-eq-ok (check (is_resettable (s.states g))) _ h in
      enters (record s { states = set_state s.states g state_init }) g
        (record w { phase = in_callback g }) r e (omega (arith, ap holds l))
        (omega (arith, ap idles l)) refl refl

  start_work_counts :
      (t : ScheduleTask) (fresh : ℕ) (o cb : Option ℕ) (r : Scheduler × Worker)
      → w.phase ≡ taken t
      → 1 ≤ s.active
      → start_work s w fresh o cb ≡ ok r
      → Keeps s w r
  unfolding start_work
  start_work_counts t fresh (some f) cb r l b h =
      enters s f (record w { phase = in_fiber f }) r h (omega (arith, ap holds l))
        (omega (arith, ap idles l)) refl refl
  start_work_counts t fresh none (some c) r l b h = start_callback_counts t fresh w.cb_fiber r l h
  start_work_counts t fresh none none r l b h =
      subst (Keeps s w) (ok_eq h)
        (omega (arith, ap holds l, b), omega (arith, ap idles l), refl, refl)

  -- A fiber leaves without a change of what the phase counts.
  leave_counts :
      (f : ℕ) (o : State) (p q : Phase)
      → w.phase ≡ p
      → holds p ≡ holds q
      → idles p ≡ idles q
      → Keeps s w (leave s w f o q)
  unfolding leave
  leave_counts f o p q l a i =
      (omega (arith, ap holds l, a), omega (arith, ap idles l, i), refl, refl)

  count_down_counts :
      (p q : Phase)
      → w.phase ≡ p
      → 1 ≤ s.active
      → holds p ≡ suc (holds q)
      → idles p ≡ idles q
      → Keeps s w (count_down s w q)
  unfolding count_down
  count_down_counts p q l b a i =
      (omega (arith, ap holds l, a, b), omega (arith, ap idles l, i), refl, refl)

  fiber_back_counts : (f : ℕ) → w.phase ≡ fiber_left f → Keeps s w (fiber_back s w f)
  unfolding fiber_back
  fiber_back_counts f l =
      let (a, i, auto, st) = after_swap_counts s f (s.states f) in
      (omega (arith, ap holds l, a), omega (arith, ap idles l, i), auto, st)

  callback_back_counts :
      (g : ℕ) (o : State) → w.phase ≡ callback_left g → Keeps s w (callback_back s w g o)
  unfolding callback_back
  callback_back_counts g state_init l =
      (omega (arith, ap holds l), omega (arith, ap idles l), refl, refl)
  callback_back_counts g state_hold l =
      (omega (arith, ap holds l), omega (arith, ap idles l), refl, refl)
  callback_back_counts g state_exec l =
      (omega (arith, ap holds l), omega (arith, ap idles l), refl, refl)
  callback_back_counts g state_term l =
      (omega (arith, ap holds l), omega (arith, ap idles l), refl, refl)
  callback_back_counts g state_ready l =
      (omega (arith, ap holds l), omega (arith, ap idles l), refl, refl)
  callback_back_counts g state_except l =
      (omega (arith, ap holds l), omega (arith, ap idles l), refl, refl)

  go_idle_counts :
      (r : Scheduler × Worker) → w.phase ≡ nothing_found → go_idle s w ≡ ok r → Keeps s w r
  unfolding go_idle
  go_idle_counts r l = elim (Bool-cases (is_term (s.states w.idle_fiber))) [
    | inl t ↦ rw t (λ h.
        subst (Keeps s w) (ok_eq h)
          (omega (arith, ap holds l), omega (arith, ap idles l), refl, refl))
    | inr t ↦ rw t (λ h.
        enters (record s { idle = suc s.idle }) w.idle_fiber
          (record w { phase = in_idle asks_auto_stop }) r h (omega (arith, ap holds l))
          (omega (arith, ap idles l)) refl refl)
  ]

  asked_counts : (b : Bool) (q next : Question) → w.phase ≡ in_idle q → Keeps s w (asked s w b next)
  unfolding asked
  asked_counts true q next l = (omega (arith, ap holds l), omega (arith, ap idles l), refl, refl)
  asked_counts false q next l =
      leave_counts w.idle_fiber state_hold (in_idle q) idle_left l refl refl

  idle_asks_counts : (q : Question) → w.phase ≡ in_idle q → Keeps s w (idle_asks s w q)
  unfolding idle_asks
  idle_asks_counts asks_auto_stop l = asked_counts s.auto_stop asks_auto_stop asks_stopping l
  idle_asks_counts asks_stopping l = asked_counts s.stopping asks_stopping asks_queue l
  idle_asks_counts asks_queue l = asked_counts (is_empty s.fibers) asks_queue asks_active l
  idle_asks_counts asks_active l =
      leave_counts w.idle_fiber (if s.active == 0 then state_term else state_hold)
        (in_idle asks_active) idle_left l refl refl

  act_in_counts :
      (p : Phase) (fresh : ℕ) (o : State) (r : Scheduler × Worker)
      → w.phase ≡ p
      → holds p ≤ s.active
      → idles p ≤ s.idle
      → act_in p s w fresh o ≡ ok r
      → Keeps s w r
  unfolding act_in start_task idle_back
  act_in_counts looking fresh o r l a i h = scan_counts r l h
  act_in_counts (taken t) fresh o r l a i h = start_work_counts t fresh _ _ r l a h
  act_in_counts nothing_found fresh o r l a i h = go_idle_counts r l h
  act_in_counts (in_fiber f) fresh o r l a i h =
      subst (Keeps s w) (ok_eq h) (leave_counts f o (in_fiber f) (fiber_out f) l refl refl)
  act_in_counts (fiber_out f) fresh o r l a i h =
      subst (Keeps s w) (ok_eq h)
        (count_down_counts (fiber_out f) (fiber_left f) l a (omega arith) refl)
  act_in_counts (fiber_left f) fresh o r l a i h =
      subst (Keeps s w) (ok_eq h) (fiber_back_counts f l)
  act_in_counts (in_callback g) fresh o r l a i h =
      subst (Keeps s w) (ok_eq h) (leave_counts g o (in_callback g) (callback_out g) l refl refl)
  act_in_counts (callback_out g) fresh o r l a i h =
      subst (Keeps s w) (ok_eq h)
        (count_down_counts (callback_out g) (callback_left g) l a (omega arith) refl)
  act_in_counts (callback_left g) fresh o r l a i h =
      subst (Keeps s w) (ok_eq h) (callback_back_counts g (s.states g) l)
  act_in_counts (in_idle q) fresh o r l a i h = subst (Keeps s w) (ok_eq h) (idle_asks_counts q l)
  act_in_counts idle_left fresh o r l a i h =
      subst (Keeps s w) (ok_eq h)
        (omega (arith, ap holds l), omega (arith, ap idles l, i), refl, refl)
  act_in_counts ended fresh o r l a i h =
      subst (Keeps s w) (ok_eq h) (omega arith, omega arith, refl, refl)

pub act_counts :
    (y : System) (i fresh : ℕ) (o : State) (w : Worker) (r : Scheduler × Worker)
    → IsCounted y
    → get_elem? y.workers i ≡ some w
    → act y.shared w fresh o ≡ ok r
    → Keeps y.shared w r
unfolding act
act_counts y i fresh o w r c at h =
    act_in_counts y.shared w w.phase fresh o r refl
      (omega (arith, c.active, total-le holds y.workers i w at))
      (omega (arith, c.idle, total-le idles y.workers i w at)) h

worker_step-IsCounted :
    (y z : System) (i fresh : ℕ) (o : State) (v : Option Worker)
    → IsCounted y
    → get_elem? y.workers i ≡ v
    → worker_step y i fresh o v ≡ ok z
    → IsCounted z
unfolding worker_step
worker_step-IsCounted y z i fresh o none c at h = subst IsCounted (ok_eq h) c
worker_step-IsCounted y z i fresh o (some w) c at h =
    let (r, e, q) = >>=-eq-ok (act y.shared w fresh o) _ h in
    let (a, d, auto, st) = act_counts y i fresh o w r c at e in
    subst IsCounted (ok_eq q) (record {
      active = omega (arith, a, c.active, total-set holds y.workers i w r.1 at);
      idle = omega (arith, d, c.idle, total-set idles y.workers i w r.1 at);
    })

pub step-IsCounted : (y z : System) (e : Event) → IsCounted y → step y e ≡ ok z → IsCounted z
unfolding step
step-IsCounted y z (acts i fresh o) c h = worker_step-IsCounted y z i fresh o _ c refl h
step-IsCounted y z (schedules t) c h =
    subst IsCounted (ok_eq h) (record { active = c.active; idle = c.idle })
step-IsCounted y z auto_stops c h =
    subst IsCounted (ok_eq h) (record { active = c.active; idle = c.idle })
step-IsCounted y z stops c h =
    subst IsCounted (ok_eq h) (record { active = c.active; idle = c.idle })

-- However the threads interleave, with tasks scheduled and stop called in between: in every run
-- without a failed assertion the counters of active and idle threads stay the numbers of threads that
-- have a task and that idle.
pub steps-IsCounted :
    (y z : System) (es : List Event) → IsCounted y → steps y es ≡ ok z → IsCounted z
unfolding steps
steps-IsCounted y z [] c h = subst IsCounted (ok_eq h) c
steps-IsCounted y z (e ∷ es) c h =
    let (x, k, l) = >>=-eq-ok (step y e) _ h in steps-IsCounted x z es (step-IsCounted y x e c k) l
