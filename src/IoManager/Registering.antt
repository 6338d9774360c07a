-- ===== src/IoManager/Registering.antt =====
-- addEvent on a valid manager.
use native.Mathlib.Decide.{dec_lt}
use cor_reactor.Base.{
  ℕ, suc, ◌+◌, ◌-◌, ◌*◌, ◌^◌, ◌≤◌, ◌<◌, ◌≡◌, ◌≢◌, refl, sym, ap, ◌∙◌, subst, inl, inr, List, ◌++◌,
  All, All-get, All-set, none, some, Bool, true, false, ◌==◌, Bool-cases, get_elem?, set, length,
  ok, arith, if◌then◌else◌,
}
use cor_reactor.IoManager.{
  Event, no_event, read, write, contains, with_event, is_none, bits, EpollCtl, ctl_add, ctl_mod,
  EventContext, FdContext, IoManager, Caller, put_context, fresh_contexts, context_resize,
}
use cor_reactor.IoManager.Calls.{make_room, register, add_event}
use cor_reactor.IoManager.Adding.{make_room_lem, get_context-events}
use cor_reactor.IoManager.Removing.{put_context-events}
use cor_reactor.IoManager.Counting.{
  count, count-with_event, total-set, IsValid, IsReady, HasScheduler, get_elem?-set,
}
use cor_reactor.IoManager.Growing.{
  Grown, context_resize-Grown, IsFree, IsFresh-IsFree, fresh_contexts-IsFresh, All-behind, take_all,
}

-- The context after a registration with `c` as its event context.
abbrev joined : FdContext → Event → EventContext → FdContext
joined x e c = put_context (record x { events = with_event x.events e }) e c

joined-IsReady :
    (x : FdContext) (e : Event) (c : EventContext)
    → IsReady x
    → HasScheduler c
    → IsReady (joined x e c)
unfolding put_context with_event
joined-IsReady x no_event c r h = record { reader = r.reader; writer = r.writer }
joined-IsReady x read c r h = record { reader = λ k. h; writer = r.writer }
joined-IsReady x write c r h = record { reader = r.reader; writer = λ k. h }

joined-contains :
    (x : FdContext) (e : Event) (c : EventContext)
    → e ≢ no_event
    → contains (joined x e c).events e ≡ true
unfolding put_context with_event contains
joined-contains x no_event c n = absurd (n refl)
joined-contains x read c n = refl
joined-contains x write c n = refl

-- What addEvent with a callback does to the context that it finds.
data Registered (x : FdContext) (e : Event) (caller : Caller) (f : ℕ)
    : FdContext × Bool → Type 0 where
  refused : Registered x e caller f (x, false)
  entered :
      Registered x e caller f
        (joined x e (record { scheduler = caller.scheduler; fiber = none; cb = some f }), true)

register_lem :
    (x : FdContext) (fd : ℕ) (e : Event) (caller : Caller) (f : ℕ) (epoll_ctl : EpollCtl)
    → IsFree x e
    → (r : FdContext × Bool) × (register x fd e caller (some f) epoll_ctl ≡ ok r)
      × Registered x e caller f r
unfolding register
register_lem x fd e caller f epoll_ctl (n, c, g, reset) =
    let op = if is_none x.events then ctl_add else ctl_mod in
    let mask = 2 ^ 31 + bits (with_event x.events e) in
    elim (Bool-cases (epoll_ctl op fd mask == 0)) [
      | inl k ↦ (
        (joined x e (record { scheduler = caller.scheduler; fiber = none; cb = some f }), true),
        rw (n, k, get_context-events x e (with_event x.events e), g, reset),
        entered,
      )
      | inr k ↦ ((x, false), rw (n, k), refused)
    ]

-- What addEvent leaves: as many pending events as before, or one more with the descriptor waiting.
pub data Added (m : IoManager) (fd : ℕ) (e : Event) : IoManager × Bool → Type 0 where
  kept :
      {n : IoManager} → n.pending ≡ m.pending → n.scheduled ≡ m.scheduled → Added m fd e (n, false)
  added :
      {n : IoManager} (x : FdContext)
      → get_elem? n.contexts fd ≡ some x
      → contains x.events e ≡ true
      → n.pending ≡ m.pending + 1
      → n.scheduled ≡ m.scheduled
      → Added m fd e (n, true)

module _ (m : IoManager) (fd : ℕ) (e : Event) (caller : Caller) (f : ℕ) where
  -- The manager once the context x of the grown contexts has become the first of r.
  abbrev entry : List FdContext → FdContext × Bool → IoManager × Bool
  entry ds r = (
    record m { contexts = set ds fd r.0; pending = if r.1 then suc m.pending else m.pending },
    r.1,
  )

  entry_lem :
      (ds : List FdContext) (x : FdContext) (r : FdContext × Bool)
      → IsValid m
      → Grown m.contexts ds
      → get_elem? ds fd ≡ some x
      → IsFree x e
      → e ≢ no_event
      → HasScheduler (record { scheduler = caller.scheduler; fiber = none; cb = some f })
      → m.pending + 1 < 2 ^ 64
      → Registered x e caller f r
      → IsValid (entry ds r).0 × Added m fd e (entry ds r)
  entry_lem ds x r v g at free n h b refused = (
    record {
      counted = omega (arith, total-set ds fd x x at, g.counted, v.counted);
      bounded = v.bounded;
      ready = All-set IsReady ds fd x g.ready (All-get IsReady ds fd x g.ready at);
    },
    kept refl refl,
  )
  entry_lem ds x r v g at free n h b entered =
      let c : EventContext = record { scheduler = caller.scheduler; fiber = none; cb = some f } in
      let y = joined x e c in
      let has = joined-contains x e c n in
      let same = put_context-events (record x { events = with_event x.events e }) e c in
      let more = count-with_event x.events e (ap (λ s. contains s e) (sym same) ∙ has) free.0 in
      (
        record {
          counted =
              omega (arith, total-set ds fd x y at, g.counted, v.counted, more, ap count same);
          bounded = omega (arith, b);
          ready =
              All-set IsReady ds fd y g.ready
                (joined-IsReady x e c (All-get IsReady ds fd x g.ready at) h);
        },
        added y (get_elem?-set ds fd x y at) has (omega arith) refl,
      )

-- The contexts that addEvent goes on with, and that the one it finds is free where the one that was
-- there is.
room_lem :
    (cs : List FdContext) (fd : ℕ) (e : Event)
    → 0 < fd
    → e ≢ no_event
    → All IsReady cs
    → ((x : FdContext) → get_elem? cs fd ≡ some x → IsFree x e)
    → (ds : List FdContext) × (x : FdContext) × (make_room 2 cs fd ≡ ok (ds, x))
      × Grown cs ds
      × (get_elem? ds fd ≡ some x)
      × IsFree x e
unfolding context_resize
room_lem cs fd e p n ready free =
    let (ds, x, eq, at, (widened, stays)) = make_room_lem cs fd p in
    elim (dec_lt fd (length cs)) [
      | yes h ↦ (
        ds,
        x,
        eq,
        subst (Grown cs) (sym (stays h)) (record { counted = refl; ready = ready }),
        at,
        free x (ap (λ l. get_elem? l fd) (sym (stays h)) ∙ at),
      )
      | no h ↦
          let short : length cs ≤ fd = omega (arith, h) in
          let fresh = fresh_contexts (length cs) (fd * 2 - length cs) in
          let wide = ap (λ l. l ++ fresh) (sym (take_all cs (fd * 2) (omega (arith, short)))) in
          (
            ds,
            x,
            eq,
            subst (Grown cs) (sym (widened short))
                (context_resize-Grown cs (fd * 2) (omega (arith, short)) ready),
            at,
            IsFresh-IsFree x e n (
                All-behind _ cs fresh fd x short
                  (fresh_contexts-IsFresh (length cs) (fd * 2 - length cs))
                  (ap (λ l. get_elem? l fd) (wide ∙ sym (widened short)) ∙ at)),
          )
    ]

-- On a valid manager, for a positive descriptor, an event that is READ or WRITE and a callback, when
-- the caller runs in a scheduler, fewer than 2 ^ 64 - 1 events are pending and nobody waits for the
-- event: addEvent ends without a failed assertion, whatever epoll answers, the manager stays valid and
-- nothing is scheduled. Either it reports success and one more event is pending, with the
-- descriptor's context waiting for it, or it reports -1 and as many are pending as before.
pub add_event_lem :
    (m : IoManager) (fd : ℕ) (e : Event) (caller : Caller) (f s : ℕ) (epoll_ctl : EpollCtl)
    → IsValid m
    → 0 < fd
    → e ≢ no_event
    → caller.scheduler ≡ some s
    → m.pending + 1 < 2 ^ 64
    → ((x : FdContext) → get_elem? m.contexts fd ≡ some x → IsFree x e)
    → (r : IoManager × Bool) × (add_event m fd e caller (some f) epoll_ctl ≡ ok r)
      × IsValid r.0
      × Added m fd e r
unfolding add_event
add_event_lem m fd e caller f s epoll_ctl v p n h b free =
    let (ds, x, eq, grown, at, unused) = room_lem m.contexts fd e p n v.ready free in
    let (r, done, registered) = register_lem x fd e caller f epoll_ctl unused in
    let (valid, ends) = entry_lem m fd e caller f ds x r v grown at unused n (s, h) b registered in
    (entry m fd e caller f ds r, rw (eq, done), valid, ends)
