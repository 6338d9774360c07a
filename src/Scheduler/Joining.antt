-- ===== src/Scheduler/Joining.antt =====
-- stop: what it joins, wakes and leaves.
use cor_reactor.Base.{
  ℕ, zero, suc, ◌+◌, ◌≡◌, refl, ap, sym, ◌∙◌, ◌⊎◌, inl, inr, List, [], ◌∷◌, Option, none, some,
  Bool, true, false, ◌&&◌, ==_iff, if◌then◌else◌, Bool-cases, length, ok, arith,
}
use cor_reactor.Scheduler.{Scheduler, ScheduleTask, present, state_exec, state_term}
use cor_reactor.Scheduler.Workers.{is_stopping}
use cor_reactor.Fiber.{Thread, put_fiber, call, caller_main_func, finish, back}
use cor_reactor.Scheduler.Lifecycle.{
  Pool, Owner, Stopped, RootRun, seen, new_threads, stop, stop_all, is_single, call_root, owns,
}

-- run, called on the root fiber, returns, and the flag of stop is what it was.
abbrev pub Returns : RootRun → Type 0
Returns ran =
    (s : Scheduler) → (r : Scheduler) × (ran s ≡ ok (r, false)) × (r.stopping ≡ s.stopping)

pub length-new_threads : (ids : ℕ → ℕ) (n i : ℕ) → length (new_threads ids n i) ≡ n
unfolding new_threads
length-new_threads ids zero i = refl
length-new_threads ids (suc n) i = ap suc (length-new_threads ids n (suc i))

call_returns :
    (t : Thread) (f : ℕ) (main : Option ℕ)
    → t.thread_fiber ≡ main
    → present main ≡ true
    → (u : Thread) × (v : Thread) × (call t f ≡ ok u) × (caller_main_func u f false ≡ ok v)
unfolding call caller_main_func finish back put_fiber
call_returns t f none e h = cc h
call_returns t f (some m) e h =
    let u =
      put_fiber (record t { current = some f }) f (record (t.fibers f) { state = state_exec }) in
    let ended = record (u.fibers f) { cb = none; state = state_term } in
    (u, record (put_fiber u f ended) { current = some m }, rw e refl, rw e refl)

call_root_lem :
    (ran : RootRun) (found : List ScheduleTask × ℕ) (s : Scheduler) (t : Thread) (root : Option ℕ)
    → Returns ran
    → (present root ≡ true → present t.thread_fiber ≡ true)
    → (r : Scheduler) × (u : Thread) × (call_root ran found s t root ≡ ok (r, u))
      × (r.stopping ≡ s.stopping)
unfolding call_root
call_root_lem ran found s t none keeps m = (s, t, refl, refl)
call_root_lem ran found s t (some f) keeps m = elim (Bool-cases (is_stopping (seen s found))) [
  | inl p ↦ (s, t, rw p refl, refl)
  | inr p ↦
      let (u, v, called, left) = call_returns t f t.thread_fiber refl (m refl) in
      let (r, ended, flag) = keeps s in (r, v, rw p (rw called (rw ended (rw left refl))), flag)
]

pub no_elements : (ths : List ℕ) → length ths ≡ 0 → ths ≡ []
no_elements [] h = refl
no_elements (th ∷ ths) h = absurd (omega arith)

and_both : (a b : Bool) → (a && b) ≡ true → (a ≡ true) × (b ≡ true)
and_both a b h = ground arith

single_count :
    (p : Pool) (c : Owner) (root : Option ℕ)
    → p.root_fiber ≡ root
    → is_single p c ≡ true
    → p.thread_count ≡ 0
unfolding is_single
single_count p c none e h = grind (arith, e)
single_count p c (some f) e h = grind (arith, e, ==_iff p.thread_count 0)

module _ (self : ℕ) where
  -- A stop by the owner joins the threads and leaves the flag set.
  pub record IsStopped (first : List ScheduleTask × ℕ) (p : Pool) (c : Owner) (r : Stopped)
      : Type 0 where
    pub joined : r.joined ≡ p.threads
    pub none_left : r.pool.threads ≡ []
    pub flag : r.pool.shared.stopping ≡ true
    pub tickles :
        (r.tickles ≡ p.thread_count + (if present p.root_fiber then 1 else 0))
        ⊎ ((p.thread_count ≡ 0) × (is_stopping (seen r.pool.shared first) ≡ true))
    pub scheduler : r.caller.scheduler ≡ c.scheduler

  stop_all_lem :
      (ran : RootRun) (first second : List ScheduleTask × ℕ) (p : Pool) (c : Owner)
      (shared : Scheduler)
      → Returns ran
      → owns self p.root_thread c ≡ true
      → (present p.root_fiber ≡ true → present c.thread.thread_fiber ≡ true)
      → (r : Stopped) × (stop_all self ran second (record p { shared = shared }) c ≡ ok r)
        × IsStopped first p c r
  unfolding stop_all
  stop_all_lem ran first second p c shared keeps owner m =
      let (s, u, called, flag) =
        call_root_lem ran second (record shared { stopping = true }) c.thread p.root_fiber keeps
          m in
      (
        record {
          pool = record p { shared = s; threads = [] };
          caller = record c { thread = u };
          tickles = p.thread_count + (if present p.root_fiber then 1 else 0);
          joined = p.threads;
        },
        rw owner (rw called refl),
        record {
          joined = refl;
          none_left = refl;
          flag = flag;
          tickles = inl refl;
          scheduler = refl;
        },
      )

  pub stop_lem :
      (ran : RootRun) (first second : List ScheduleTask × ℕ) (p : Pool) (c : Owner)
      → Returns ran
      → owns self p.root_thread c ≡ true
      → (present p.root_fiber ≡ true → present c.thread.thread_fiber ≡ true)
      → length p.threads ≡ p.thread_count
      → (r : Stopped) × (stop self ran first second p c ≡ ok r) × IsStopped first p c r
  unfolding stop
  stop_lem ran first second p c keeps owner m n =
      let alone = record p.shared { auto_stop = true; stopping = true } in
      let rest = record p.shared { auto_stop = true } in
      elim (Bool-cases (is_single p c && is_stopping (seen alone first))) [
        | inl q ↦ (
          record { pool = record p { shared = alone }; caller = c; tickles = 0; joined = [] },
          rw q refl,
          let single = (and_both _ _ q).0 in
              let empty = single_count p c p.root_fiber refl single in
              record {
                joined = sym (no_elements p.threads (n ∙ empty));
                none_left = no_elements p.threads (n ∙ empty);
                flag = refl;
                tickles = inr (empty, (and_both _ _ q).1);
                scheduler = refl;
              },
        )
        | inr q ↦ elim (Bool-cases (is_single p c)) [
          | inl k ↦
              let (r, done, is) = stop_all_lem ran first second p c alone keeps owner m in
              (r, rw q (rw k done), is)
          | inr k ↦
              let (r, done, is) = stop_all_lem ran first second p c rest keeps owner m in
              (r, rw q (rw k done), is)
        ]
      ]
