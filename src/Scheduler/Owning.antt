-- ===== src/Scheduler/Owning.antt =====
-- The life of a scheduler: its threads are made, woken and joined, and it can be destroyed.
use cor_reactor.Base.{
  ℕ, ◌+◌, ◌<◌, ◌≡◌, refl, ap, sym, ◌∙◌, ◌⊎◌, inl, inr, List, [], ◌++◌, Option, none, some, Bool,
  true, false, ==_iff, lt→ltb, if◌then◌else◌, length, ok, arith,
}
use cor_reactor.Scheduler.{Scheduler, ScheduleTask, present}
use cor_reactor.Scheduler.Workers.{is_stopping}
use cor_reactor.Fiber.{Thread, get_this, put_fiber}
use cor_reactor.Scheduler.Lifecycle.{
  Pool, Owner, Stopped, RootRun, seen, new_threads, start, stop, owns, is_self, make, make_as,
  destroy, root_pool, root_owner, plain_pool,
}
use cor_reactor.Scheduler.Joining.{Returns, stop_lem, length-new_threads, no_elements}

-- A thread that runs a fiber has a main fiber.
pub record HasMain (t : Thread) : Type 0 where
  pub main : present t.current ≡ true → present t.thread_fiber ≡ true

module _ (self : ℕ) where
  -- What the constructor gives.
  record IsMade (threads : ℕ) (p : Pool) (c : Owner) : Type 0 where
    flag : p.shared.stopping ≡ true
    empty : p.threads ≡ []
    count : p.thread_count + (if present p.root_fiber then 1 else 0) ≡ threads
    owner : owns self p.root_thread c ≡ true
    main : present p.root_fiber ≡ true → present c.thread.thread_fiber ≡ true
    scheduler : (is_self self c.scheduler ≡ true) ⊎ (c.scheduler ≡ none)

  destroy_lem :
      (p : Pool) (c : Owner) (scheduler : Option ℕ)
      → c.scheduler ≡ scheduler
      → p.shared.stopping ≡ true
      → (is_self self scheduler ≡ true) ⊎ (scheduler ≡ none)
      → (d : Owner) × (destroy self p c ≡ ok d) × (d.scheduler ≡ none)
  unfolding destroy
  destroy_lem p c scheduler e h (inl q) =
      (record c { scheduler = none }, rw h (rw e (rw q refl)), refl)
  destroy_lem p c scheduler e h (inr q) = (c, rw h (rw e (rw q refl)), e ∙ q)

get_this-thread_fiber :
    (t : Thread) (fresh : ℕ) (current : Option ℕ)
    → t.current ≡ current
    → HasMain t
    → present (get_this t fresh).0.thread_fiber ≡ true
unfolding get_this put_fiber
get_this-thread_fiber t fresh none e h = rw e refl
get_this-thread_fiber t fresh (some f) e h = rw e (h.main (rw e refl))

module _ (self run configured : ℕ) where
  make_lem :
      (use_caller : Bool) (threads : ℕ) (c : Owner) (fresh root : ℕ)
      → 0 < threads
      → c.scheduler ≡ none
      → HasMain c.thread
      → (p : Pool) × (d : Owner) × (make self run configured threads use_caller c fresh root
          ≡ ok (p, d))
        × IsMade self threads p d
        × (present p.root_fiber ≡ use_caller)
  unfolding make make_as owns is_self put_fiber root_owner
  make_lem true threads c fresh root l e h =
      let m = get_this-thread_fiber c.thread fresh c.thread.current refl h in
      (
        root_pool self run configured threads c root,
        root_owner self run configured c fresh root,
        rw (lt→ltb 0 threads l) (rw e refl),
        record {
          flag = refl;
          empty = refl;
          count = omega arith;
          owner = (==_iff self self).1 refl;
          main = λ x. m;
          scheduler = inl ((==_iff self self).1 refl);
        },
        refl,
      )
  make_lem false threads c fresh root l e h = (
    plain_pool self run configured threads,
    c,
    rw (lt→ltb 0 threads l) refl,
    record {
      flag = refl;
      empty = refl;
      count = omega arith;
      owner = rw e refl;
      main = λ x. cc x;
      scheduler = inr e;
    },
    refl,
  )

  -- On a thread that has no scheduler yet, and whose running fiber, if it has one, has a main fiber: a
  -- scheduler for at least one thread is made, started, stopped and destroyed by its owner without a
  -- failed assertion of these calls, whatever state s the threads share when stop is called, and
  -- whatever `stopping` finds in the queue and the counter, where `run` on the root fiber returns and
  -- leaves the flag of stop alone. With the calling thread, if that is used, the pool has the threads
  -- asked for. stop joins the whole pool and leaves it empty; it calls tickle once for each thread
  -- asked for, unless the pool is empty and its first call of `stopping` answers yes. The calling
  -- thread has no scheduler in the end.
  pub make-destroy :
      (threads : ℕ) (use_caller : Bool) (c : Owner) (fresh root : ℕ) (ids : ℕ → ℕ) (s : Scheduler)
      (ran : RootRun) (first second : List ScheduleTask × ℕ)
      → 0 < threads
      → c.scheduler ≡ none
      → HasMain c.thread
      → Returns ran
      → (p : Pool) × (d : Owner) × (q : Pool) × (r : Stopped) × (end : Owner) × (make self run
            configured threads use_caller c fresh root
          ≡ ok (p, d))
        × (start p ids ≡ ok q)
        × (length q.threads + (if use_caller then 1 else 0) ≡ threads)
        × (stop self ran first second (record q { shared = s }) d ≡ ok r)
        × (r.joined ≡ q.threads)
        × (r.pool.threads ≡ [])
        × ((r.tickles ≡ threads)
            ⊎ ((q.threads ≡ []) × (is_stopping (seen r.pool.shared first) ≡ true)))
        × (destroy self r.pool r.caller ≡ ok end)
        × (end.scheduler ≡ none)
  unfolding start
  make-destroy threads use_caller c fresh root ids s ran first second l e h keeps =
      let (p, d, made, is, rooted) = make_lem use_caller threads c fresh root l e h in
      let started = new_threads ids p.thread_count 0 in
      let n : length started ≡ p.thread_count = length-new_threads ids p.thread_count 0 in
      let q : Pool = record p {
        shared = record p.shared { stopping = false };
        threads = started;
        thread_ids = p.thread_ids ++ started;
      } in
      let (r, stopped, ends) =
        stop_lem self ran first second (record q { shared = s }) d keeps is.owner is.main n in
      let (end, destroyed, gone) =
        destroy_lem self r.pool r.caller d.scheduler ends.scheduler ends.flag is.scheduler in
      (
        p,
        d,
        q,
        r,
        end,
        made,
        rw is.flag (rw is.empty refl),
        ap (λ b. length started + (if b then 1 else 0)) (sym rooted)
            ∙ ap (λ k. k + (if present p.root_fiber then 1 else 0)) n
            ∙ is.count,
        stopped,
        ends.joined,
        ends.none_left,
        elim ends.tickles [
          | inl t ↦ inl (t ∙ is.count)
          | inr (z, all) ↦ inr (no_elements started (n ∙ z), all)
        ],
        destroyed,
        gone,
      )
