-- ===== src/Fiber.antt =====
-- include/fiber.h and src/fiber.cpp: the fibers of one thread.
-- A fiber is a number, and `fibers` holds the fibers by it. A context switch only changes which
-- fiber runs next; the machine contexts and stacks are not modelled, and a callback is a number.
-- `scheduler_fiber` is Scheduler::GetMainFiber().
pub mod Switching
mod Tests
use cor_reactor.Base.{
  ℕ, Option, none, some, Bool, true, false, not, ◌==◌, if◌then◌else◌, Result, ok, null_deref, check,
  or_fail, ◌>>=◌, ◌>>◌,
}
use cor_reactor.Scheduler.{
  State, state_init, state_hold, state_exec, state_term, state_ready, state_except, is_exec,
}

-- `stack` says whether the fiber has a stack of its own.
pub record Fiber : Type 0 where
  pub id : ℕ
  pub stack_size : ℕ
  pub state : State
  pub stack : Bool
  pub cb : Option ℕ

-- t_fiber and t_threadFiber
pub record Thread : Type 0 where
  pub fibers : ℕ → Fiber
  pub current : Option ℕ
  pub thread_fiber : Option ℕ
  pub scheduler_fiber : Option ℕ

-- Fiber::Fiber(cb, stacksize, use_caller), with the size that the configuration gives.
unfoldable pub new_fiber : ℕ → ℕ → ℕ → Option ℕ → Fiber
new_fiber configured id stacksize cb = record {
  id = id;
  stack_size = if stacksize == 0 then configured else stacksize;
  state = state_init;
  stack = true;
  cb = cb;
}

unfoldable pub put_fiber : Thread → ℕ → Fiber → Thread
put_fiber t f x = record t { fibers = λ g. if g == f then x else t.fibers g }

-- Fiber::GetThis, where a thread without fibers makes its main fiber at `fresh`.
unfoldable pub get_this : Thread → ℕ → Thread × ℕ
unfolding put_fiber
get_this t fresh = elim t.current [
  | some f ↦ (t, f)
  | none ↦ (
    record (put_fiber t fresh
        (record { id = 0; stack_size = 0; state = state_exec; stack = false; cb = none })) {
          current = some fresh;
          thread_fiber = some fresh;
        },
    fresh,
  )
]

abbrev can_reset : State → Bool
can_reset state_term = true
can_reset state_init = true
can_reset state_except = true
can_reset _ = false

-- Fiber::reset
unfoldable pub reset_fiber : Fiber → Option ℕ → Result Fiber
reset_fiber x cb =
    check x.stack >> check (can_reset x.state) >> ok (record x { cb = cb; state = state_init })

-- Fiber::call: the main fiber of the thread is saved, so there must be one.
unfoldable pub call : Thread → ℕ → Result Thread
unfolding put_fiber
call t f = or_fail t.thread_fiber null_deref >>= λ main.
    ok (put_fiber (record t { current = some f }) f (record (t.fibers f) { state = state_exec }))

-- Fiber::back
unfoldable pub back : Thread → Result Thread
back t = or_fail t.thread_fiber null_deref >>= λ main. ok (record t { current = some main })

-- Fiber::swapIn
unfoldable pub swap_in : Thread → ℕ → Result Thread
unfolding put_fiber
swap_in t f =
    check (not (is_exec (t.fibers f).state)) >> or_fail t.scheduler_fiber null_deref >>= λ s.
    ok (put_fiber (record t { current = some f }) f (record (t.fibers f) { state = state_exec }))

-- Fiber::swapOut
unfoldable pub swap_out : Thread → Result Thread
swap_out t = or_fail t.scheduler_fiber null_deref >>= λ s. ok (record t { current = some s })

-- Fiber::YieldToReady and Fiber::YieldToHold, of the fiber that runs.
unfoldable pub yield_to : State → Thread → ℕ → Result Thread
unfolding put_fiber swap_out get_this
yield_to s t fresh =
    let (u, f) = get_this t fresh in swap_out (put_fiber u f (record (u.fibers f) { state = s }))

unfoldable pub yield_to_ready : Thread → ℕ → Result Thread
yield_to_ready = yield_to state_ready

unfoldable pub yield_to_hold : Thread → ℕ → Result Thread
yield_to_hold = yield_to state_hold

-- The end of the callback in MainFunc and CallerMainFunc: it returned, or it threw and the assertion
-- in the handler fails.
unfoldable pub finish : Thread → ℕ → Bool → Result Thread
unfolding put_fiber
finish t f threw =
    check (not threw) >> ok (put_fiber t f (record (t.fibers f) { cb = none; state = state_term }))

-- Fiber::MainFunc after its callback ended
unfoldable pub main_func : Thread → ℕ → Bool → Result Thread
unfolding finish swap_out
main_func t f threw = finish t f threw >>= λ u. swap_out u

-- Fiber::CallerMainFunc after its callback ended
unfoldable pub caller_main_func : Thread → ℕ → Bool → Result Thread
unfolding finish back
caller_main_func t f threw = finish t f threw >>= λ u. back u
