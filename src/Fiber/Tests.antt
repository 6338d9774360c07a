-- ===== src/Fiber/Tests.antt =====
-- The theorems on fibers at a thread of two fibers.
use cor_reactor.Base.{ℕ, Option, none, some, true, ◌==◌, if◌then◌else◌}
use cor_reactor.Scheduler.{State, state_hold, state_exec}
use cor_reactor.Fiber.{Fiber, Thread}

abbrev fiber_in : State → Option ℕ → Fiber
fiber_in s cb = record { id = 1; stack_size = 1024; state = s; stack = true; cb = cb }

-- Fiber 0 is the scheduler's, fiber 1 is on hold.
abbrev two_fibers : Thread
two_fibers = record {
  fibers = λ g. if g == 0 then fiber_in state_exec none else fiber_in state_hold (some 7);
  current = some 0;
  thread_fiber = some 0;
  scheduler_fiber = some 0;
}
