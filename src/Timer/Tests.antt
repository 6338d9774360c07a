-- ===== src/Timer/Tests.antt =====
-- Runs of the timer manager, and the theorems at concrete inputs.
use cor_reactor.Base.{
  ℕ, zero, suc, ◌≡◌, refl, inl, inr, [], ◌∷◌, none, some, true, false, ok, arith,
}
use cor_reactor.Timer.{
  Timer, TimerManager, comparator, less_key, insert, update, is_begin, new_timer, add_timer, cancel,
  refresh, get_next_timer, first_timeout, expired, unexpired, expire, expire_all, collect,
  nothing_due, detect_clock_rollover, list_expired_cb,
}
use cor_reactor.Timer.Ordered.{In, NotIn}
use cor_reactor.Timer.Invariant.{IsValid, Others, add_timer_lem, cancel_lem}
use cor_reactor.Timer.Expiry.{Fired, firing, list_expired_cb_lem}

running : Unit {0}
unfolding comparator less_key insert is_begin update new_timer add_timer refresh get_next_timer
    first_timeout expired unexpired expire expire_all collect nothing_due detect_clock_rollover
    list_expired_cb
running = tt

-- Timer 1 recurs every 10 and is due at 110; timer 2 is due once, at 105; nothing else was made.
abbrev timer_at : ℕ → Timer
timer_at (suc zero) = record { recurring = true; ms = 10; next = 110; cb = some 1 }
timer_at (suc (suc zero)) = record { recurring = false; ms = 5; next = 105; cb = some 2 }
timer_at _ = record { recurring = false; ms = 0; next = 0; cb = none }

abbrev two_timers : TimerManager
two_timers = record { heap = timer_at; timers = 2 ∷ 1 ∷ []; tickled = false; previous = 100 }

two_timers-IsValid : IsValid two_timers
unfolding running
two_timers-IsValid = record { sorted = ((refl, tt), (tt, tt)); live = live }
  where
    live : (q c : ℕ) → (timer_at q).cb ≡ some c → In q (2 ∷ 1 ∷ [])
    live (suc zero) c e = inr (inl refl)
    live (suc (suc zero)) c e = inl refl
    live zero c e = cc e
    live (suc (suc (suc q))) c e = cc e

-- At 106 the second timer fires; at 110 the first one only if its address is below the other's.
fires_once : (list_expired_cb two_timers 106 2).1 ≡ some 2 ∷ []
unfolding running
fires_once = refl

fires_both : (list_expired_cb two_timers 110 2).1 ≡ some 2 ∷ some 1 ∷ []
unfolding running
fires_both = refl

misses_one : (list_expired_cb two_timers 110 1).1 ≡ some 2 ∷ []
unfolding running
misses_one = refl

rearms : (list_expired_cb two_timers 111 2).0.timers ≡ 1 ∷ []
unfolding running
rearms = refl

add_timer_lem_example :
    let r = add_timer two_timers 3 100 1 (some 4) false in
    IsValid r.0
    × In 3 r.0.timers
    × (r.0.heap 3 ≡ record { recurring = false; ms = 1; next = 101; cb = some 4 })
    × Others 3 two_timers r.0
    × (r.1 ≡ true → (false ≡ false) × (r.0.tickled ≡ true))
add_timer_lem_example =
    add_timer_lem two_timers 3 100 1 (some 4) false two_timers-IsValid
      (omega arith, (omega arith, tt))

cancel_lem_example :
    ((timer_at 2).cb ≡ none → cancel two_timers 2 ≡ ok (two_timers, false))
    × ((c : ℕ)
        → (timer_at 2).cb ≡ some c
        → (n : TimerManager) × (cancel two_timers 2 ≡ ok (n, true))
          × IsValid n
          × ((n.heap 2).cb ≡ none)
          × NotIn 2 n.timers
          × Others 2 two_timers n)
cancel_lem_example = cancel_lem two_timers 2 two_timers-IsValid

list_expired_cb_lem_example :
    Fired timer_at 106 (firing two_timers 106 2) (list_expired_cb two_timers 106 2)
list_expired_cb_lem_example = list_expired_cb_lem two_timers 106 2 two_timers-IsValid
