-- ===== src/Scheduler/Picking.antt =====
-- The scan of the queue takes the first task that this thread may run, and loses none.
use mathlib.Core.List.{append_assoc, append-nil}
use cor_reactor.Base.{
  ℕ, ◌≡◌, refl, ap, ◌⊎◌, inl, inr, List, [], ◌∷◌, ◌++◌, none, some, Bool, true, false, ◌&&◌, ◌||◌,
  not, ◌∙◌, All, All-append, Bool-cases, ok, arith,
}
use cor_reactor.Scheduler.{
  State, ScheduleTask, Picked, has_work, schedule_no_lock, other_thread, executing, pick, is_empty,
  schedule_range,
}

-- A queue of tasks that each have a fiber or a callback.
abbrev pub IsWorkable : List ScheduleTask → Type 0
IsWorkable = All (λ t. has_work t ≡ true)

abbrev pub Skipped : (ℕ → State) → ℕ → ScheduleTask → Type 0
Skipped states me t = (other_thread me t ≡ true) ⊎ (executing states t ≡ true)

-- The first task that is not skipped is taken, or there is none.
pub data IsPick (states : ℕ → State) (me : ℕ) (ts : List ScheduleTask) : Picked → Type 0 where
  nothing :
      (tickle : Bool)
      → All (Skipped states me) ts
      → IsPick states me ts (record { tickle_me = tickle; task = none; rest = ts })
  found :
      (tickle : Bool) (before after : List ScheduleTask) (t : ScheduleTask)
      → ts ≡ before ++ (t ∷ after)
      → All (Skipped states me) before
      → other_thread me t ≡ false
      → executing states t ≡ false
      → IsPick states me ts (record { tickle_me = tickle; task = some t; rest = before ++ after })

skip :
    (states : ℕ → State) (me : ℕ) (t : ScheduleTask) (ts : List ScheduleTask) (p : Picked)
    (tickle : Bool)
    → Skipped states me t
    → IsPick states me ts p
    → IsPick states me (t ∷ ts) (record { tickle_me = tickle; task = p.task; rest = t ∷ p.rest })
skip states me t ts p tickle s (nothing b h) = nothing tickle (s, h)
skip states me t ts p tickle s (found b before after u e h o x) =
    found tickle (t ∷ before) after u (ap (◌∷◌ t) e) (s, h) o x

-- On a queue whose tasks all have work the scan ends without a failed assertion. It takes the first
-- task that is neither bound to another thread nor executing, and leaves the others in their order;
-- it takes nothing only when there is no such task.
pub pick_lem :
    (states : ℕ → State) (me : ℕ) (ts : List ScheduleTask)
    → IsWorkable ts
    → (p : Picked) × (pick states me ts ≡ ok p) × IsPick states me ts p
unfolding pick
pick_lem states me [] w = (_, refl, nothing false tt)
pick_lem states me (t ∷ ts) w =
    let (p, eq, picked) = pick_lem states me ts w.1 in
    elim (Bool-cases (other_thread me t)) [
      | inl o ↦ (
        record { tickle_me = true; task = p.task; rest = t ∷ p.rest },
        rw (o, eq),
        skip states me t ts p true (inl o) picked,
      )
      | inr o ↦ elim (Bool-cases (executing states t)) [
        | inl x ↦ (
          record { tickle_me = p.tickle_me; task = p.task; rest = t ∷ p.rest },
          rw (o, w.0, x, eq),
          skip states me t ts p p.tickle_me (inr x) picked,
        )
        | inr x ↦ (
          record { tickle_me = false; task = some t; rest = ts },
          rw (o, w.0, x),
          found false [] ts t refl tt o x,
        )
      ]
    ]

-- Scheduling keeps a queue whose tasks all have work so, and adds the task at the end if it has work.
pub schedule_no_lock-IsWorkable :
    (ts : List ScheduleTask) (t : ScheduleTask)
    → IsWorkable ts
    → IsWorkable (schedule_no_lock ts t).0
      × (has_work t ≡ true → (schedule_no_lock ts t).0 ≡ ts ++ (t ∷ []))
unfolding schedule_no_lock
schedule_no_lock-IsWorkable ts t w = elim (Bool-cases (has_work t)) [
  | inl h ↦ rw h (All-append (λ u. has_work u ≡ true) ts (t ∷ []) w (h, tt), (λ k. refl))
  | inr h ↦ rw h (w, (λ k. absurd (cc (h, k))))
]

is_empty-append_one :
    (ts : List ScheduleTask) (t : ScheduleTask) → is_empty (ts ++ (t ∷ [])) ≡ false
is_empty-append_one [] t = refl
is_empty-append_one (u ∷ ts) t = refl

-- A range of tasks with work is appended in its order, and the threads are woken when the queue was
-- empty and the range is not.
pub schedule_range_lem :
    (need : Bool) (ts range : List ScheduleTask)
    → IsWorkable range
    → schedule_range need ts range ≡ (ts ++ range, need || (is_empty ts && not (is_empty range)))
unfolding schedule_range schedule_no_lock
schedule_range_lem need ts [] w =
    let q : need ≡ (need || (is_empty ts && false)) = ground arith in
    rw (append-nil ts) (ap (λ b. (ts, b)) q)
schedule_range_lem need ts (t ∷ range) (h, w) = rw h (
    schedule_range_lem (is_empty ts || need) (ts ++ (t ∷ [])) range w
    ∙ rw (append_assoc ts (t ∷ []) range, is_empty-append_one ts t)
        (ap (λ b. (ts ++ (t ∷ range), b)) (ground arith)))
