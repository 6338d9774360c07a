-- ===== src/Hook/Retrying.antt =====
-- src/hook.cpp: what do_io returns, from the label `retry`, and where it cannot go on.
use cor_reactor.Base.{
  some_eq, subst, ℕ, suc, ◌+◌, ◌≤◌, ◌≡◌, refl, sym, ap, ◌∙◌, ◌⊎◌, inl, inr, List, [], ◌∷◌, Option,
  none, some, Bool, true, false, ◌&&◌, ◌||◌, if◌then◌else◌, Result, ok, fail, assertion, ok_eq,
  >>=-eq-ok, arith, Bool-cases, get_elem?,
}
use cor_reactor.IoManager.{IoManager, Event, FdContext, read}
use cor_reactor.IoManager.Calls.{add_event, handle_event, real_events}
use cor_reactor.IoManager.Counting.{IsValid}
use cor_reactor.IoManager.Adding.{Accepts, add_event-handle_event}
use cor_reactor.Hook.{
  Sys, failed, eintr, eagain, etimedout, failed_with, Wake, Io, has_timeout, wait_for, call_fun,
  after_wake, answered, retry_io,
}

-- One of a list.
abbrev pub Among : {A : Type 0} → A → List A → Type 0
Among x [] = ⊥
Among x (y ∷ ys) = (x ≡ y) ⊎ Among x ys

-- Why a call returned r.
pub data Returned (fd : ℕ) (event : Event) (to : ℕ) (wakes : List Wake) (answers : List Sys)
    (r : Sys) : Type 0 where
  by_answer :
      Among r answers
      → failed_with eintr r ≡ false
      → failed_with eagain r ≡ false
      → Returned fd event to wakes answers r
  by_timeout :
      (w : Wake)
      → Among w wakes
      → has_timeout to ≡ true
      → w.timed_out ≡ true
      → r ≡ failed etimedout
      → Returned fd event to wakes answers r
  by_refusal :
      (w : Wake) (m : IoManager)
      → Among w wakes
      → wait_for fd event w ≡ ok (m, false)
      → r ≡ failed w.errno
      → Returned fd event to wakes answers r

-- What the calls of fun up to the first that was not interrupted took from the answers.
record Taken (answers : List Sys) (r : Sys) (rest : List Sys) : Type 0 where
  finished : failed_with eintr r ≡ false
  among : Among r answers
  others : (q : Sys) → Among q rest → Among q answers

Taken-step :
    (s : Sys) (ss : List Sys) (r : Sys) (rest : List Sys) → Taken ss r rest → Taken (s ∷ ss) r rest
Taken-step s ss r rest t = record {
  finished = t.finished;
  among = inr t.among;
  others = λ q h. inr (t.others q h);
}

call_fun-Taken :
    (answers : List Sys) (r : Sys) (rest : List Sys)
    → call_fun answers ≡ some (r, rest)
    → Taken answers r rest
unfolding call_fun
call_fun-Taken [] r rest h = cc h
call_fun-Taken (s ∷ ss) r rest h = elim (Bool-cases (failed_with eintr s)) [
  | inl e ↦ Taken-step s ss r rest (
      call_fun-Taken ss r rest
        (subst (λ b. (if b then call_fun ss else some (s, ss)) ≡ some (r, rest)) e h))
  | inr e ↦
      subst (λ (x : Sys × List Sys). Taken (s ∷ ss) x.0 x.1)
        (some_eq (subst (λ b. (if b then call_fun ss else some (s, ss)) ≡ some (r, rest)) e h))
        (record { finished = e; among = inl refl; others = λ q k. inr k })
]

later :
    {fd : ℕ} {event : Event} {to : ℕ} (w : Wake) (ws : List Wake) (answers : List Sys) (s : Sys)
    (rest : List Sys) (r : Sys)
    → Taken answers s rest
    → Returned fd event to ws rest r
    → Returned fd event to (w ∷ ws) answers r
later w ws answers s rest r t (by_answer a e f) = by_answer (t.others r a) e f
later w ws answers s rest r t (by_timeout v a h l e) = by_timeout v (inr a) h l e
later w ws answers s rest r t (by_refusal v m a h e) = by_refusal v m (inr a) h e

-- An outcome that a run of do_io explains.
abbrev Explained : ℕ → Event → ℕ → List Wake → List Sys → Result Io → Type 0
Explained fd event to wakes answers x =
    (io : Io) (r : Sys) → x ≡ ok io → io.outcome ≡ some r → Returned fd event to wakes answers r

answered_lem :
    (fd : ℕ) (event : Event) (to : ℕ) (wakes : List Wake) (answers : List Sys)
    (wait : List Sys → Result Io)
    → ((s : Sys) (rest : List Sys)
        → Taken answers s rest
        → Explained fd event to wakes answers (wait rest))
    → Explained fd event to wakes answers (answered (call_fun answers) wait)
unfolding answered
answered_lem fd event to wakes answers wait again =
    by_call (call_fun answers) (λ s rest e. call_fun-Taken answers s rest e)
  where
    by_call :
        (o : Option (Sys × List Sys))
        → ((s : Sys) (rest : List Sys) → o ≡ some (s, rest) → Taken answers s rest)
        → Explained fd event to wakes answers (answered o wait)
    by_call none t = λ io r h e. cc (ap (λ (x : Io). x.outcome) (ok_eq h), e)
    by_call (some (s, rest)) t = elim (Bool-cases (failed_with eagain s)) [
      | inl h ↦ rw h (again s rest (t s rest refl))
      | inr h ↦ rw h (λ io r k e.
          let same : s ≡ r = some_eq (ap (λ (x : Io). x.outcome) (ok_eq k) ∙ e) in
          let taken = t s rest refl in
          subst (Returned fd event to wakes answers) same (by_answer taken.among taken.finished h))
    ]

after_wake_lem :
    (fd : ℕ) (event : Event) (to : ℕ) (w : Wake) (ws : List Wake) (answers : List Sys)
    (next : Result Io)
    → Explained fd event to (w ∷ ws) answers next
    → Explained fd event to (w ∷ ws) answers (after_wake fd event to w next)
unfolding after_wake
after_wake_lem fd event to w ws answers next ih io r h e =
    let ((m, done), added, k) = >>=-eq-ok (wait_for fd event w) _ h in
    elim (Bool-cases done) [
      | inr d ↦
          by_refusal w m (inl refl) (added ∙ ap (λ b. ok (m, b)) d)
            (sym (some_eq (ap (λ (x : Io). x.outcome) (ok_eq (rw d at k)) ∙ e)))
      | inl d ↦ elim (Bool-cases (has_timeout to && w.timed_out)) [
        | inl l ↦
            by_timeout w (inl refl) (both _ _ l).0 (both _ _ l).1
              (sym (some_eq (ap (λ (x : Io). x.outcome) (ok_eq (rw (d, l) at k)) ∙ e)))
        | inr l ↦
            let (n, made, q) = >>=-eq-ok next _ (rw (d, l) at k) in
            ih n r made (ap (λ (x : Io). x.outcome) (ok_eq q) ∙ e)
      ]
    ]
  where
    both : (a b : Bool) → (a && b) ≡ true → (a ≡ true) × (b ≡ true)
    both a b h = ground arith

-- A call that returns hands on one of the answers, which is neither an interruption nor EAGAIN; or
-- ETIMEDOUT, where the descriptor has a timeout and the timer of one of the waits fired; or the errno
-- of one of the waits, which addEvent refused.
pub retry_io_returned :
    (fd : ℕ) (event : Event) (to : ℕ) (wakes : List Wake) (answers : List Sys) (io : Io) (r : Sys)
    → retry_io fd event to wakes answers ≡ ok io
    → io.outcome ≡ some r
    → Returned fd event to wakes answers r
unfolding retry_io
retry_io_returned fd event to [] answers =
    answered_lem fd event to [] answers _
      (λ s rest t io r h e. cc (ap (λ (x : Io). x.outcome) (ok_eq h), e))
retry_io_returned fd event to (w ∷ ws) answers =
    answered_lem fd event to (w ∷ ws) answers _ (λ s rest t.
      after_wake_lem fd event to w ws answers (retry_io fd event to ws rest) (λ io r h e.
        later w ws answers s rest r t (retry_io_returned fd event to ws rest io r h e)))

-- The first answer that is neither an interruption nor EAGAIN, and the waits before it.
unfoldable pub first_final : List Sys → Option Sys
first_final [] = none
first_final (r ∷ rs) =
    if failed_with eintr r || failed_with eagain r then first_final rs else some r

unfoldable pub waits_before : List Sys → ℕ
waits_before [] = 0
waits_before (r ∷ rs) =
    if failed_with eintr r
    then waits_before rs
    else if failed_with eagain r
    then suc (waits_before rs)
    else 0

-- What the calls of fun come to: no answer, the final one, or EAGAIN.
data Called (answers : List Sys) : Type 0 where
  silent :
      call_fun answers ≡ none
      → first_final answers ≡ none
      → waits_before answers ≡ 0
      → Called answers
  final :
      (r : Sys) (rest : List Sys)
      → call_fun answers ≡ some (r, rest)
      → failed_with eagain r ≡ false
      → first_final answers ≡ some r
      → waits_before answers ≡ 0
      → Called answers
  again :
      (r : Sys) (rest : List Sys)
      → call_fun answers ≡ some (r, rest)
      → failed_with eagain r ≡ true
      → first_final answers ≡ first_final rest
      → waits_before answers ≡ suc (waits_before rest)
      → Called answers

call_fun_cases : (answers : List Sys) → Called answers
unfolding call_fun first_final waits_before
call_fun_cases [] = silent refl refl refl
call_fun_cases (s ∷ ss) = elim (Bool-cases (failed_with eintr s)) [
  | inl e ↦ elim (call_fun_cases ss) [
    | silent c f n ↦ silent (rw e c) (rw e f) (rw e n)
    | final r rest c g f n ↦ final r rest (rw e c) g (rw e f) (rw e n)
    | again r rest c g f n ↦ again r rest (rw e c) g (rw e f) (rw e n)
  ]
  | inr e ↦ elim (Bool-cases (failed_with eagain s)) [
    | inr f ↦ final s ss (rw e refl) f (rw (e, f) refl) (rw (e, f) refl)
    | inl f ↦ again s ss (rw e refl) f (rw (e, f) refl) (rw (e, f) refl)
  ]
]

-- A run that ends with the first final answer.
abbrev pub EndsWith : Result Io → Option Sys → Type 0
EndsWith x o = (io : Io) × (x ≡ ok io) × (io.outcome ≡ o)

no_wait :
    (fd : ℕ) (event : Event) (to : ℕ) (wakes : List Wake) (answers : List Sys)
    → waits_before answers ≡ 0
    → EndsWith (retry_io fd event to wakes answers) (first_final answers)
unfolding retry_io answered
no_wait fd event to [] answers z = elim (call_fun_cases answers) [
  | silent c f n ↦ rw c (record { outcome = none; armed = 0; cancelled = 0 }, refl, sym f)
  | final r rest c g f n ↦
      rw c (rw g (record { outcome = some r; armed = 0; cancelled = 0 }, refl, sym f))
  | again r rest c g f n ↦ absurd (omega (arith, n))
]
no_wait fd event to (w ∷ ws) answers z = elim (call_fun_cases answers) [
  | silent c f n ↦ rw c (record { outcome = none; armed = 0; cancelled = 0 }, refl, sym f)
  | final r rest c g f n ↦
      rw c (rw g (record { outcome = some r; armed = 0; cancelled = 0 }, refl, sym f))
  | again r rest c g f n ↦ absurd (omega (arith, n))
]

after_granted :
    (fd : ℕ) (event : Event) (to : ℕ) (w : Wake) (m : IoManager) (next : Result Io) (o : Option Sys)
    → wait_for fd event w ≡ ok (m, true)
    → w.timed_out ≡ false
    → EndsWith next o
    → EndsWith (after_wake fd event to w next) o
unfolding after_wake
after_granted fd event to w m next o g l (io, e, f) =
    let timers = if has_timeout to then 1 else 0 in
    let waits : (has_timeout to && w.timed_out) ≡ false = ground arith in
    rw g (
      rw waits (
        rw e (
          record {
            outcome = io.outcome;
            armed = timers + io.armed;
            cancelled = timers + io.cancelled;
          },
          refl,
          f,
        )))

-- Where the first wait is granted by addEvent and ends because the descriptor is ready, and there is
-- at most one EAGAIN before it: a call returns the first answer that is neither an interruption nor
-- EAGAIN, and waits on when there is none.
pub retry_io-first_final :
    (fd : ℕ) (event : Event) (to : ℕ) (w : Wake) (ws : List Wake) (m : IoManager)
    (answers : List Sys)
    → wait_for fd event w ≡ ok (m, true)
    → w.timed_out ≡ false
    → waits_before answers ≤ 1
    → EndsWith (retry_io fd event to (w ∷ ws) answers) (first_final answers)
unfolding retry_io answered
retry_io-first_final fd event to w ws m answers g l h = elim (call_fun_cases answers) [
  | silent c f n ↦ rw c (record { outcome = none; armed = 0; cancelled = 0 }, refl, sym f)
  | final r rest c a f n ↦
      rw c (rw a (record { outcome = some r; armed = 0; cancelled = 0 }, refl, sym f))
  | again r rest c a f n ↦
      rw (c, f)
        (rw a (
          after_granted fd event to w m (retry_io fd event to ws rest) (first_final rest) g l
            (no_wait fd event to ws rest (omega (arith, n)))))
]

asked_again :
    (fd : ℕ) (event : Event) (to : ℕ) (w : Wake) (ws : List Wake) (answers : List Sys)
    → 1 ≤ waits_before answers
    → wait_for fd event w ≡ fail assertion
    → retry_io fd event to (w ∷ ws) answers ≡ fail assertion
unfolding retry_io answered after_wake
asked_again fd event to w ws answers h g = elim (call_fun_cases answers) [
  | silent c f n ↦ absurd (omega (arith, n))
  | final r rest c a f n ↦ absurd (omega (arith, n))
  | again r rest c a f n ↦ rw c (rw a (rw g refl))
]

-- A hooked read that has to wait twice: where the first wait is granted and ends before its timer,
-- and the second finds the manager as idle left it when it had handed over the reading fiber, which
-- is when epoll reported the registered descriptor of a valid manager readable: the call does not
-- return, since the assertion of the second addEvent fails. epoll accepts every change there.
pub retry_io-second_wait :
    (fd to : ℕ) (w v : Wake) (ws : List Wake) (answers : List Sys) (granted m : IoManager)
    (x : FdContext)
    → wait_for fd read w ≡ ok (granted, true)
    → w.timed_out ≡ false
    → IsValid m
    → get_elem? m.contexts fd ≡ some x
    → x.events.reads ≡ true
    → Accepts v.epoll_ctl
    → handle_event m fd x (real_events false true false) v.epoll_ctl ≡ ok v.iom
    → 2 ≤ waits_before answers
    → retry_io fd read to (w ∷ v ∷ ws) answers ≡ fail assertion
unfolding retry_io answered after_wake
retry_io-second_wait fd to w v ws answers granted m x g l valid at reads a handled h =
    let (n, eq, used) = add_event-handle_event m fd x v.caller none v.epoll_ctl valid at reads a in
    let same : n ≡ v.iom = ok_eq (sym eq ∙ handled) in
    let refused : wait_for fd read v ≡ fail assertion =
      unfold wait_for in
      subst (λ q. add_event q fd read v.caller none v.epoll_ctl ≡ fail assertion) same used in
    let waits : (has_timeout to && w.timed_out) ≡ false = ground arith in
    elim (call_fun_cases answers) [
      | silent c f k ↦ absurd (omega (arith, k))
      | final r rest c b f k ↦ absurd (omega (arith, k))
      | again r rest c b f k ↦
          let second = asked_again fd read to v ws rest (omega (arith, k)) refused in
          rw c (rw b (rw g (rw waits (rw second refl))))
    ]
