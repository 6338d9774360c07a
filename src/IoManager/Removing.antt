-- ===== src/IoManager/Removing.antt =====
-- delEvent, cancelEvent, cancelAll and idle's work on an event, on a valid manager.
use cor_reactor.Base.{
  ◌^◌, ℕ, ◌+◌, ◌≡◌, refl, sym, ap, ◌∙◌, ◌⊎◌, inl, inr, some, Bool, true, false, not, ◌&&◌,
  if◌then◌else◌, get_elem?, set, All-get, All-set, Result, ok, fail, assertion, Bool-cases,
  Option-cases, ◌==◌, check, ◌>>=◌, ◌>>◌,
}
use cor_reactor.IoManager.{
  Event, no_event, read, write, Events, EpollCtl, ctl_del, contains, without_event, is_none, bits,
  EventContext, FdContext, IoManager, get_context, put_context, reset_context, trigger_event,
}
use cor_reactor.IoManager.Calls.{
  ctl_left, dec_pending, fire, fire_if, del_event, del_event_of, cancel_event, cancel_event_of,
  cancel_all, cancel_all_of, handle_event, real_events,
}
use cor_reactor.IoManager.Counting.{
  count, IsReady, IsValid, Triggered, fire_lem, dec_pending_lem, count-without_event,
}

-- What cancelEvent leaves: the old manager when it reports false, and else the event triggered.
pub data Cancelled (m : IoManager) (fd : ℕ) (e : Event) : IoManager × Bool → Type 0 where
  refused : Cancelled m fd e (m, false)
  triggered :
      (x : FdContext) (r : IoManager × FdContext)
      → get_elem? m.contexts fd ≡ some x
      → contains x.events e ≡ true
      → Triggered m fd x e r
      → Cancelled m fd e (r.0, true)

module _ (m : IoManager) (v : IsValid m) (fd : ℕ) (epoll_ctl : EpollCtl) where
  cancel_of_lem :
      (x : FdContext) (e : Event)
      → get_elem? m.contexts fd ≡ some x
      → (r : IoManager × Bool) × (cancel_event_of m fd x e epoll_ctl ≡ ok r)
        × Cancelled m fd e r
        × IsValid r.0
  unfolding cancel_event_of
  cancel_of_lem x e at = elim (Bool-cases (contains x.events e)) [
    | inr h ↦ ((m, false), rw h, refused, v)
    | inl h ↦
        elim (Bool-cases
          (epoll_ctl (ctl_left (without_event x.events e)) fd (bits x.events) == 0)) [
            | inr k ↦ ((m, false), rw (h, k), refused, v)
            | inl k ↦
                let (r, eq, t) = fire_lem m fd x e v at h in
                ((r.0, true), rw (h, k, eq), triggered x r at h t, t.valid)
          ]
  ]

  -- On a valid manager cancelEvent ends without a failed assertion, whatever epoll answers, and the
  -- manager stays valid. It leaves the manager as it was and reports false, or it reports true and the
  -- registered event was triggered: its bit is cleared and its callback or fiber handed to its
  -- scheduler.
  pub cancel_event_lem :
      (e : Event)
      → (r : IoManager × Bool) × (cancel_event m fd e epoll_ctl ≡ ok r)
        × Cancelled m fd e r
        × IsValid r.0
  unfolding cancel_event
  cancel_event_lem e = elim (Option-cases (get_elem? m.contexts fd)) [
    | inl h ↦ ((m, false), rw (h, cancel_event), refused, v)
    | inr (x, h) ↦ let (r, eq, c, w) = cancel_of_lem x e h in (r, rw (h, cancel_event) eq, c, w)
  ]

-- What delEvent leaves: the old manager when it reports false, and else the event gone without a run.
pub data Deleted (m : IoManager) (fd : ℕ) (e : Event) : IoManager × Bool → Type 0 where
  kept : Deleted m fd e (m, false)
  gone :
      (x : FdContext)
      → get_elem? m.contexts fd ≡ some x
      → contains x.events e ≡ true
      → Deleted m fd e (
        record m {
          contexts =
              set m.contexts fd
                (put_context (record x { events = without_event x.events e }) e reset_context);
          pending = dec_pending m.pending;
        },
        true,
      )

put_context-IsReady :
    (x : FdContext) (e : Event) (c : EventContext)
    → IsReady x
    → IsReady (put_context (record x { events = without_event x.events e }) e c)
unfolding put_context without_event
put_context-IsReady x no_event c r = r
put_context-IsReady x read c r = record { reader = λ h. cc h; writer = r.writer }
put_context-IsReady x write c r = record { reader = r.reader; writer = λ h. cc h }

pub put_context-events :
    (x : FdContext) (e : Event) (c : EventContext) → (put_context x e c).events ≡ x.events
unfolding put_context
put_context-events x no_event c = refl
put_context-events x read c = refl
put_context-events x write c = refl

pub get_context_ok :
    (x : FdContext) (e : Event)
    → contains x.events e ≡ true
    → (c : EventContext) × (get_context x e ≡ ok c)
unfolding get_context contains
get_context_ok x no_event h = cc h
get_context_ok x read h = (x.read_context, refl)
get_context_ok x write h = (x.write_context, refl)

-- Two triggers in a row, each under a condition.
fire_if_lem :
    (b : Bool) (m : IoManager) (fd : ℕ) (x : FdContext) (e : Event)
    → IsValid m
    → get_elem? m.contexts fd ≡ some x
    → (b ≡ true → contains x.events e ≡ true)
    → (r : IoManager × FdContext) × (fire_if b m fd x e ≡ ok r)
      × IsValid r.0
      × (get_elem? r.0.contexts fd ≡ some r.1)
      × (r.1.events ≡ (if b then without_event x.events e else x.events))
unfolding fire_if
fire_if_lem true m fd x e v at h =
    let (r, eq, t) = fire_lem m fd x e v at (h refl) in
    (r, eq, t.valid, t.at, ap (λ (y : FdContext). y.events) t.context)
fire_if_lem false m fd x e v at h = ((m, x), refl, v, at, refl)

and_true : (a : Bool) → (a && true) ≡ a
and_true true = refl
and_true false = refl

and_false : (a : Bool) → (a && false) ≡ false
and_false true = refl
and_false false = refl

after_read :
    (b : Bool) (s : Events)
    → (if b then without_event s read else s)
      ≡ record { reads = s.reads && not b; writes = s.writes }
unfolding without_event
after_read true s = ap (λ r. record s { reads = r }) (sym (and_false s.reads))
after_read false s = ap (λ r. record s { reads = r }) (sym (and_true s.reads))

after_write :
    (c : Bool) (s : Events)
    → (if c then without_event s write else s)
      ≡ record { reads = s.reads; writes = s.writes && not c }
unfolding without_event
after_write true s = ap (λ w. record s { writes = w }) (sym (and_false s.writes))
after_write false s = ap (λ w. record s { writes = w }) (sym (and_true s.writes))

-- Both events of a context, read first.
fire_both :
    {B : Type 0} (b d : Bool) (c : Events → Bool) (m : IoManager) (fd : ℕ) (x : FdContext)
    → IsValid m
    → get_elem? m.contexts fd ≡ some x
    → (b ≡ true → x.events.reads ≡ true)
    → (d ≡ true → x.events.writes ≡ true)
    → ((s : Events) → s.writes ≡ x.events.writes → c s ≡ d)
    → (q : IoManager × FdContext) × ((k : IoManager × FdContext → Result B)
        → (fire_if b m fd x read >>= λ r. fire_if (c r.1.events) r.0 fd r.1 write >>= k) ≡ k q)
      × IsValid q.0
      × (get_elem? q.0.contexts fd ≡ some q.1)
      × (q.1.events ≡ record { reads = x.events.reads && not b; writes = x.events.writes && not d })
unfolding contains
fire_both b d c m fd x v at hb hd hc =
    let (r, eq, w, at', e) = fire_if_lem b m fd x read v at hb in
    let s = e ∙ after_read b x.events in
    let same = ap (λ (y : Events). y.writes) s in
    let (q, eq', w', at'', e') = fire_if_lem d r.0 fd r.1 write w at' (λ h. same ∙ hd h) in
    (
      q,
      (λ k. rw (eq, hc r.1.events same, eq')),
      w',
      at'',
      e' ∙ ap (λ s. if d then without_event s write else s) s ∙ after_write d _,
    )

drained : (a : Bool) → (a && not a) ≡ false
drained true = refl
drained false = refl

module _ (m : IoManager) (v : IsValid m) (fd : ℕ) (epoll_ctl : EpollCtl) where
  delete_of_lem :
      (x : FdContext) (e : Event)
      → get_elem? m.contexts fd ≡ some x
      → (r : IoManager × Bool) × (del_event_of m fd x e epoll_ctl ≡ ok r)
        × Deleted m fd e r
        × IsValid r.0
  unfolding del_event_of
  delete_of_lem x e at = elim (Bool-cases (contains x.events e)) [
    | inr h ↦ ((m, false), rw h, kept, v)
    | inl h ↦
        let left = without_event x.events e in
        elim (Bool-cases (epoll_ctl (ctl_left left) fd (2 ^ 31 + bits left) == 0)) [
          | inr k ↦ ((m, false), rw (h, k), kept, v)
          | inl k ↦
              let (c', got') = get_context_ok x e h in
              let y = put_context (record x { events = left }) e reset_context in
              let (right, small) = dec_pending_lem m fd x y v at (
                ap (λ s. count s + 1) (put_context-events _ e reset_context)
                ∙ count-without_event x.events e h) in
              (
                (
                  record m { contexts = set m.contexts fd y; pending = dec_pending m.pending },
                  true,
                ),
                rw (h, k, got'),
                gone x at h,
                record {
                  counted = right;
                  bounded = small;
                  ready = All-set IsReady m.contexts fd y v.ready (
                      put_context-IsReady x e reset_context
                        (All-get IsReady m.contexts fd x v.ready at));
                },
              )
        ]
  ]

  -- On a valid manager delEvent ends without a failed assertion, whatever epoll answers, and the
  -- manager stays valid. It leaves the manager as it was and reports false, or it reports true and the
  -- event is gone, its context reset and nothing scheduled.
  pub del_event_lem :
      (e : Event)
      → (r : IoManager × Bool) × (del_event m fd e epoll_ctl ≡ ok r)
        × Deleted m fd e r
        × IsValid r.0
  unfolding del_event
  del_event_lem e = elim (Option-cases (get_elem? m.contexts fd)) [
    | inl h ↦ ((m, false), rw (h, del_event), kept, v)
    | inr (x, h) ↦ let (r, eq, c, w) = delete_of_lem x e h in (r, rw (h, del_event) eq, c, w)
  ]

  all_of_lem :
      (x : FdContext)
      → get_elem? m.contexts fd ≡ some x
      → (r : IoManager × Bool) × (cancel_all_of m fd x epoll_ctl ≡ ok r)
        × IsValid r.0
        × ((r ≡ (m, false))
            ⊎ ((y : FdContext) × (get_elem? r.0.contexts fd ≡ some y)
                × (is_none y.events ≡ true)
                × (r.1 ≡ true)))
  unfolding cancel_all_of
  all_of_lem x at = elim (Bool-cases (is_none x.events)) [
    | inl h ↦ ((m, false), rw h, v, inl refl)
    | inr h ↦ elim (Bool-cases (epoll_ctl ctl_del fd 0 == 0)) [
      | inr k ↦ ((m, false), rw (h, k), v, inl refl)
      | inl k ↦
          let (q, eq, w, at', e) =
            fire_both {B = IoManager × Bool} x.events.reads x.events.writes (λ s. s.writes) m fd x v
              at (λ t. t) (λ t. t) (λ s t. t) in
          let empty : is_none q.1.events ≡ true =
            ap is_none e ∙ rw (drained x.events.reads, drained x.events.writes) in
          (
            (q.0, true),
            rw (h, k) (eq (λ q. check (is_none q.1.events) >> ok (q.0, true)) ∙ rw empty),
            w,
            inr (q.1, at', empty, refl),
          )
    ]
  ]

  -- On a valid manager cancelAll ends without a failed assertion, whatever epoll answers, and the
  -- manager stays valid. It leaves the manager as it was and reports false, or it reports true and the
  -- descriptor has no registered event.
  pub cancel_all_lem :
      (r : IoManager × Bool) × (cancel_all m fd epoll_ctl ≡ ok r)
      × IsValid r.0
      × ((r ≡ (m, false))
          ⊎ ((y : FdContext) × (get_elem? r.0.contexts fd ≡ some y)
              × (is_none y.events ≡ true)
              × (r.1 ≡ true)))
  unfolding cancel_all
  cancel_all_lem = elim (Option-cases (get_elem? m.contexts fd)) [
    | inl h ↦ ((m, false), rw (h, cancel_all), v, inl refl)
    | inr (x, h) ↦ let (r, eq, w, c) = all_of_lem x h in (r, rw (h, cancel_all) eq, w, c)
  ]

  -- Where every event that epoll reports is registered, idle's work on a context of a valid manager
  -- ends without a failed assertion and leaves a valid manager: the old one, or one in which the
  -- events reported are no longer registered and the others still are.
  pub handle_event_lem :
      (x : FdContext) (real : Events)
      → get_elem? m.contexts fd ≡ some x
      → (real.reads ≡ true → x.events.reads ≡ true)
      → (real.writes ≡ true → x.events.writes ≡ true)
      → (n : IoManager) × (handle_event m fd x real epoll_ctl ≡ ok n)
        × IsValid n
        × ((n ≡ m)
            ⊎ ((y : FdContext) × (get_elem? n.contexts fd ≡ some y)
                × (y.events ≡ record {
                  reads = x.events.reads && not real.reads;
                  writes = x.events.writes && not real.writes;
                })))
  unfolding handle_event
  handle_event_lem x real at hr hw =
      elim (Bool-cases
        (not (x.events.reads && real.reads) && not (x.events.writes && real.writes))) [
          | inl h ↦ (m, rw h, v, inl refl)
          | inr h ↦
              let left : Events = record {
                reads = x.events.reads && not real.reads;
                writes = x.events.writes && not real.writes;
              } in
              elim (Bool-cases (epoll_ctl (ctl_left left) fd (2 ^ 31 + bits left) == 0)) [
                | inr k ↦ (m, rw (h, k), v, inl refl)
                | inl k ↦
                    let (q, eq, w, at', e) =
                      fire_both {B = IoManager} real.reads real.writes (λ s. real.writes) m fd x v
                        at hr hw (λ s t. refl) in
                    (q.0, rw (h, k) (eq (λ q. ok q.0)), w, inr (q.1, at', e))
              ]
        ]

-- When epoll reports both events, as it does for an error or a hang-up, of a descriptor that is
-- registered for writing only, and the removal of the registration succeeds, an assertion fails in
-- idle.
pub handle_event_fails :
    (m : IoManager) (fd : ℕ) (epoll_ctl : EpollCtl) (x : FdContext)
    → x.events.reads ≡ false
    → x.events.writes ≡ true
    → epoll_ctl ctl_del fd (2 ^ 31) ≡ 0
    → handle_event m fd x (real_events true false false) epoll_ctl ≡ fail assertion
unfolding handle_event real_events fire_if fire trigger_event contains bits
handle_event_fails m fd epoll_ctl x r w c = rw (r, w) (rw c)
