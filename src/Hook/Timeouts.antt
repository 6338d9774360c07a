-- ===== src/Hook/Timeouts.antt =====
-- A sleeping fiber is scheduled when its time has come, and not before.
use cor_reactor.Base.{
  ℕ, ◌+◌, ◌*◌, ◌/◌, ◌^◌, ◌≤◌, ◌<◌, ◌≡◌, ap, ◌∙◌, some, false, Bool-cases, inl, inr, arith, subst,
}
use native.Mathlib.Nat.{mod-eq_of_lt}
use cor_reactor.Timer.{Timer, TimerManager, add_timer, expired, list_expired_cb}
use cor_reactor.Timer.Ordered.{In, NotIn}
use cor_reactor.Timer.Invariant.{IsValid, add_timer_lem}
use cor_reactor.Timer.Expiry.{callbacks, rollover, firing, list_expired_cb_lem, expired_iff}
use cor_reactor.Hook.Calls.{sleep_ms, usleep_ms, nanosleep_ms, sleep_for}

-- sleep waits for the seconds asked for up to 4294967 of them, and for less beyond; usleep never
-- waits longer than asked, and less than a millisecond short; nanosleep waits for the milliseconds in
-- its argument while they are below 2 ^ 31.
pub sleep_ms_bounds :
    (seconds usec sec nsec : ℕ)
    → (seconds ≤ 4294967 → sleep_ms seconds ≡ seconds * 1000)
      × (4294967 < seconds → sleep_ms seconds < seconds * 1000)
      × (usleep_ms usec * 1000 ≤ usec)
      × (usec < usleep_ms usec * 1000 + 1000)
      × (sec * 1000 + nsec / 1000000 < 2 ^ 31 → nanosleep_ms sec nsec ≡ sec * 1000 + nsec / 1000000)
unfolding sleep_ms usleep_ms nanosleep_ms
sleep_ms_bounds seconds usec sec nsec =
    ((λ h. omega arith), (λ h. omega arith), omega arith, omega arith, (λ h. ground arith))

-- On a valid manager, for a timer at a fresh address and a deadline below 2 ^ 64: the manager stays
-- valid; a call of listExpiredCb after the deadline fires the timer, and one before it does not
-- unless the clock went back; what firing it returns is the callback that schedules the fiber.
pub sleep_for_wakes :
    (m : TimerManager) (p now ms fiber later a : ℕ)
    → IsValid m
    → NotIn p m.timers
    → now + ms < 2 ^ 64
    → let n = (sleep_for m p now ms fiber).0 in
      IsValid n
      × (now + ms < later → In p (firing n later a))
      × (later < now + ms → rollover n later ≡ false → ¬ In p (firing n later a))
      × ((n.heap p).cb ≡ some fiber)
      × ((list_expired_cb n later a).1 ≡ callbacks n.heap (firing n later a))
unfolding sleep_for
sleep_for_wakes m p now ms fiber later a v n h =
    let (w, i, t, others, front) = add_timer_lem m p now ms (some fiber) false v n in
    let r = (add_timer m p now ms (some fiber) false).0 in
    let due : (r.heap p).next ≡ now + ms = ap (λ (x : _). x.next) t ∙ mod-eq_of_lt h in
    let (before, after, same, below) = expired_iff r later a p w i in
    (
      w,
      (λ k. elim (Bool-cases (rollover r later)) [
        | inl b ↦ rw b i
        | inr b ↦ rw b (before (omega (arith, due)))
      ]),
      (λ k b j. after (omega (arith, due)) (
          subst (λ l. In p l)
            (let e : firing r later a ≡ expired r.heap later a r.timers = rw b in e) j)),
      ap (λ (x : Timer). x.cb) t,
      (list_expired_cb_lem r later a w).returned,
    )
