-- ===== src/Fiber/Switching.antt =====
-- A fiber from the switch to it until it yields or ends.
use cor_reactor.Base.{
  ℕ, ◌≡◌, refl, ap, ◌∙◌, ◌≢◌, Option, none, some, true, false, ==_iff, ok, fail, assertion, arith,
}
use cor_reactor.Scheduler.{State, state_init, state_exec, state_term, is_exec}
use cor_reactor.Fiber.{
  Fiber, Thread, put_fiber, get_this, reset_fiber, swap_in, swap_out, yield_to, finish, main_func,
}

put_fiber_same : (t : Thread) (f : ℕ) (x : Fiber) → (put_fiber t f x).fibers f ≡ x
unfolding put_fiber
put_fiber_same t f x = rw ((==_iff f f).1 refl) refl

put_fiber_other :
    (t : Thread) (f g : ℕ) (x : Fiber) → g ≢ f → (put_fiber t f x).fibers g ≡ t.fibers g
unfolding put_fiber
put_fiber_other t f g x n = ground (arith, ==_iff g f)

-- The thread u differs from t in the fiber f alone, and m runs.
pub record Changed (t u : Thread) (f m : ℕ) : Type 0 where
  pub running : u.current ≡ some m
  pub others : (g : ℕ) → g ≢ f → u.fibers g ≡ t.fibers g
  pub main : u.thread_fiber ≡ t.thread_fiber
  pub scheduler : u.scheduler_fiber ≡ t.scheduler_fiber

-- What swapIn, a yield and the end of a callback leave.
abbrev entered : Thread → ℕ → Thread
entered t f =
    put_fiber (record t { current = some f }) f (record (t.fibers f) { state = state_exec })

abbrev left_as : Thread → ℕ → ℕ → Fiber → Thread
left_as t f m x = record (put_fiber t f x) { current = some m }

swap_in_lem :
    (t : Thread) (f m : ℕ)
    → is_exec (t.fibers f).state ≡ false
    → t.scheduler_fiber ≡ some m
    → swap_in t f ≡ ok (entered t f)
unfolding swap_in
swap_in_lem t f m e h = rw (e, h) refl

yield_to_lem :
    (t : Thread) (f m fresh : ℕ) (s : State)
    → t.current ≡ some f
    → t.scheduler_fiber ≡ some m
    → yield_to s t fresh ≡ ok (left_as t f m (record (t.fibers f) { state = s }))
unfolding yield_to swap_out
yield_to_lem t f m fresh s c h = rw (c, get_this) (rw h refl)

main_func_lem :
    (t : Thread) (f m : ℕ)
    → t.scheduler_fiber ≡ some m
    → main_func t f false
      ≡ ok (left_as t f m (record (t.fibers f) { cb = none; state = state_term }))
unfolding main_func finish swap_out
main_func_lem t f m h = rw h refl

main_func_throws : (t : Thread) (f : ℕ) → main_func t f true ≡ fail assertion
unfolding main_func finish
main_func_throws t f = refl

reset_ended :
    (x : Fiber) (cb : Option ℕ)
    → x.stack ≡ true
    → reset_fiber (record x { cb = none; state = state_term }) cb
      ≡ ok (record x { cb = cb; state = state_init })
unfolding reset_fiber
reset_ended x cb h = rw h refl

entered-Changed : (t : Thread) (f : ℕ) → Changed t (entered t f) f f
unfolding put_fiber
entered-Changed t f = record {
  running = refl;
  others = λ g n. put_fiber_other (record t { current = some f }) f g _ n;
  main = refl;
  scheduler = refl;
}

left_as-Changed : (t : Thread) (f m : ℕ) (x : Fiber) → Changed t (left_as (entered t f) f m x) f m
unfolding put_fiber
left_as-Changed t f m x = record {
  running = refl;
  others = λ g n.
      put_fiber_other (entered t f) f g x n
      ∙ put_fiber_other (record t { current = some f }) f g _ n;
  main = refl;
  scheduler = refl;
}

-- On a thread with a scheduler's fiber, swapIn of a fiber that is not executing runs it, and a yield
-- of the fiber gives the thread back to the scheduler's fiber: the fiber is in the state that the
-- yield asks for, with its callback and its stack, and no other fiber changes.
pub yield_to-swap_in :
    (t : Thread) (f m fresh : ℕ) (s : State)
    → is_exec (t.fibers f).state ≡ false
    → t.scheduler_fiber ≡ some m
    → (u : Thread) × (v : Thread) × (swap_in t f ≡ ok u)
      × Changed t u f f
      × (yield_to s u fresh ≡ ok v)
      × Changed t v f m
      × (v.fibers f ≡ record (t.fibers f) { state = s })
unfolding put_fiber
yield_to-swap_in t f m fresh s e h =
    let u = entered t f in
    let x : Fiber = record (u.fibers f) { state = s } in
    (
      u,
      left_as u f m x,
      swap_in_lem t f m e h,
      entered-Changed t f,
      yield_to_lem u f m fresh s refl h,
      left_as-Changed t f m x,
      put_fiber_same u f x
          ∙ ap (λ (y : Fiber). record y { state = s })
              (put_fiber_same (record t { current = some f }) f
                (record (t.fibers f) { state = state_exec })),
    )

-- On a thread with a scheduler's fiber, swapIn of a fiber that is not executing runs it. When its
-- callback throws, an assertion fails. When it returns, the scheduler's fiber runs again and no other
-- fiber changed; the fiber has ended and lost its callback, and where it has a stack reset gives it
-- another callback and its first state.
pub main_func-swap_in :
    (t : Thread) (f m : ℕ) (cb : Option ℕ)
    → is_exec (t.fibers f).state ≡ false
    → t.scheduler_fiber ≡ some m
    → (u : Thread) × (v : Thread) × (swap_in t f ≡ ok u)
      × (main_func u f true ≡ fail assertion)
      × (main_func u f false ≡ ok v)
      × Changed t v f m
      × (v.fibers f ≡ record (t.fibers f) { cb = none; state = state_term })
      × ((t.fibers f).stack ≡ true
          → reset_fiber (v.fibers f) cb ≡ ok (record (t.fibers f) { cb = cb; state = state_init }))
unfolding put_fiber
main_func-swap_in t f m cb e h =
    let u = entered t f in
    let x : Fiber = record (u.fibers f) { cb = none; state = state_term } in
    let ended : (left_as u f m x).fibers f ≡ record (t.fibers f) { cb = none; state = state_term } =
      put_fiber_same u f x
      ∙ ap (λ (y : Fiber). record y { cb = none; state = state_term })
          (put_fiber_same (record t { current = some f }) f
            (record (t.fibers f) { state = state_exec })) in
    (
      u,
      left_as u f m x,
      swap_in_lem t f m e h,
      main_func_throws u f,
      main_func_lem u f m h,
      left_as-Changed t f m x,
      ended,
      (λ k. ap (λ y. reset_fiber y cb) ended ∙ reset_ended (t.fibers f) cb k),
    )
