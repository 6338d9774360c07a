-- ===== src/IoManager/Adding.antt =====
-- addEvent: it finds room, and what stands in its way after an event was triggered or deleted.
use native.Mathlib.Decide.{dec_lt}
use cor_reactor.Base.{
  not, ◌&&◌, ℕ, zero, suc, ◌+◌, ◌-◌, ◌*◌, ◌^◌, ◌≤◌, ◌<◌, ◌≡◌, refl, ap, ◌∙◌, inl, inr, List, [],
  ◌∷◌, Option, none, some, true, false, length, length-append, length-take, take, get_elem?,
  get_elem?-lt, set, ok, fail, assertion, arith, Option-cases, if◌then◌else◌,
}
use cor_reactor.IoManager.{
  Ctl, Event, no_event, read, write, Events, EpollCtl, contains, with_event, without_event, bits,
  EventContext, FdContext, IoManager, Caller, get_context, put_context, reset_context, is_reset,
  fresh_contexts, context_resize, is_none, ctl_add, ctl_mod,
}
use cor_reactor.IoManager.Calls.{
  make_room, register, add_event, cancel_event, cancel_event_of, del_event, del_event_of, ctl_left,
  handle_event, real_events, fire_if, dec_pending,
}
use cor_reactor.IoManager.Removing.{put_context-events, get_context_ok}
use cor_reactor.IoManager.Counting.{
  Triggered, total-set, count, count-without_event, IsValid, HasScheduler, fire_lem, get_elem?-set,
}

length-fresh_contexts : (i count : ℕ) → length (fresh_contexts i count) ≡ count
unfolding fresh_contexts
length-fresh_contexts i zero = refl
length-fresh_contexts i (suc count) = ap suc (length-fresh_contexts (suc i) count)

length-context_resize : (cs : List FdContext) (size : ℕ) → length (context_resize cs size) ≡ size
unfolding context_resize
length-context_resize cs size = omega (
  arith,
  length-append (take size cs) (fresh_contexts (length cs) (size - length cs)),
  length-take size cs,
  length-fresh_contexts (length cs) (size - length cs),
)

get_elem?-some :
    (cs : List FdContext) (i : ℕ) (x : FdContext) → get_elem? cs i ≡ some x → i < length cs
get_elem?-some [] i x h = cc h
get_elem?-some (c ∷ cs) zero x h = omega arith
get_elem?-some (c ∷ cs) (suc i) x h = omega (arith, get_elem?-some cs i x h)

get_elem?-none : (cs : List FdContext) (i : ℕ) → get_elem? cs i ≡ none → length cs ≤ i
get_elem?-none cs i h = elim (dec_lt i (length cs)) [
  | yes p ↦ let (x, e) = get_elem?-lt cs i p in absurd (cc (h, e))
  | no p ↦ omega (arith, p)
]

-- For a positive descriptor the loop of addEvent ends within two rounds, with a context at the
-- descriptor's place. The contexts are those that were there, when there was one for the descriptor,
-- and else are resized to twice the descriptor.
pub make_room_lem :
    (cs : List FdContext) (fd : ℕ)
    → 0 < fd
    → (ds : List FdContext) × (x : FdContext) × (make_room 2 cs fd ≡ ok (ds, x))
      × (get_elem? ds fd ≡ some x)
      × ((length cs ≤ fd → ds ≡ context_resize cs (fd * 2)) × (fd < length cs → ds ≡ cs))
unfolding make_room
make_room_lem cs fd h = elim (Option-cases (get_elem? cs fd)) [
  | inr (x, e) ↦ (
    cs,
    x,
    rw (e, make_room),
    e,
    ((λ k. absurd (omega (arith, get_elem?-some cs fd x e))), (λ k. refl)),
  )
  | inl e ↦
      let ds = context_resize cs (fd * 2) in
      let long = length-context_resize cs (fd * 2) in
      let (x, at) = get_elem?-lt ds fd (omega (arith, long)) in
      (
        ds,
        x,
        rw (e, make_room) (rw (at, make_room)),
        at,
        ((λ k. refl), (λ k. absurd (omega (arith, get_elem?-none cs fd e)))),
      )
]

-- An epoll that accepts everything.
abbrev pub Accepts : EpollCtl → Type 0
Accepts epoll_ctl = (op : Ctl) (fd mask : ℕ) → epoll_ctl op fd mask ≡ 0

with_context :
    (x : FdContext) (e : Event) (c : EventContext)
    → get_context x e ≡ ok c
    → HasScheduler c
    → is_reset c ≡ false
unfolding is_reset
with_context x e c g (s, h) = rw h

pub get_context-events :
    (x : FdContext) (e : Event) (s : Events)
    → get_context (record x { events = s }) e ≡ get_context x e
unfolding get_context
get_context-events x no_event s = refl
get_context-events x read s = refl
get_context-events x write s = refl

register_used :
    (x : FdContext) (fd : ℕ) (e : Event) (caller : Caller) (cb : Option ℕ) (epoll_ctl : EpollCtl)
    (c : EventContext)
    → contains x.events e ≡ false
    → get_context x e ≡ ok c
    → is_reset c ≡ false
    → Accepts epoll_ctl
    → register x fd e caller cb epoll_ctl ≡ fail assertion
unfolding register
register_used x fd e caller cb epoll_ctl c n g r a =
    let op = if is_none x.events then ctl_add else ctl_mod in
    let mask = 2 ^ 31 + bits (with_event x.events e) in
    rw (n, a op fd mask, get_context-events x e (with_event x.events e), g, r)

without-contains : (s : Events) (e : Event) → contains (without_event s e) e ≡ false
unfolding contains without_event
without-contains s no_event = refl
without-contains s read = refl
without-contains s write = refl

-- What a trigger leaves in the way of the same event.
add_event-Triggered :
    (m : IoManager) (fd : ℕ) (x : FdContext) (e : Event) (r : IoManager × FdContext)
    (caller : Caller) (cb : Option ℕ) (epoll_ctl : EpollCtl)
    → Triggered m fd x e r
    → Accepts epoll_ctl
    → add_event r.0 fd e caller cb epoll_ctl ≡ fail assertion
unfolding add_event make_room
add_event-Triggered m fd x e r caller cb epoll_ctl t a =
    let (c, s, got, has, tasks) = t.tasks in
    let cleared : contains r.1.events e ≡ false =
      ap (λ (y : FdContext). contains y.events e) t.context ∙ without-contains x.events e in
    let context : get_context r.1 e ≡ ok c =
      ap (λ (y : FdContext). get_context y e) t.context ∙ get_context-events x e _ ∙ got in
    let used =
      register_used r.1 fd e caller cb epoll_ctl c cleared context
        (with_context r.1 e c context (s, has)) a in
    rw (t.at, make_room) (rw used)

-- Where epoll accepts every change: when cancelEvent triggered a registered event of a valid
-- manager, the context keeps the scheduler, and the next addEvent for the same descriptor and event
-- fails its assertion.
pub add_event-cancel_event :
    (m : IoManager) (fd : ℕ) (x : FdContext) (e : Event) (caller : Caller) (cb : Option ℕ)
    (epoll_ctl : EpollCtl)
    → IsValid m
    → get_elem? m.contexts fd ≡ some x
    → contains x.events e ≡ true
    → Accepts epoll_ctl
    → (n : IoManager) × (cancel_event m fd e epoll_ctl ≡ ok (n, true))
      × (add_event n fd e caller cb epoll_ctl ≡ fail assertion)
unfolding cancel_event cancel_event_of
add_event-cancel_event m fd x e caller cb epoll_ctl v at h a =
    let (r, eq, t) = fire_lem m fd x e v at h in
    (
      r.0,
      rw (at, cancel_event)
          (rw (h, a (ctl_left (without_event x.events e)) fd (bits x.events), eq)),
      add_event-Triggered m fd x e r caller cb epoll_ctl t a,
    )

-- Where epoll accepts every change: when epoll reports a registered descriptor of a valid manager
-- readable, idle triggers the event, and the next addEvent for reading from it fails its assertion.
pub add_event-handle_event :
    (m : IoManager) (fd : ℕ) (x : FdContext) (caller : Caller) (cb : Option ℕ)
    (epoll_ctl : EpollCtl)
    → IsValid m
    → get_elem? m.contexts fd ≡ some x
    → x.events.reads ≡ true
    → Accepts epoll_ctl
    → (n : IoManager) × (handle_event m fd x (real_events false true false) epoll_ctl ≡ ok n)
      × (add_event n fd read caller cb epoll_ctl ≡ fail assertion)
unfolding handle_event real_events fire_if contains
add_event-handle_event m fd x caller cb epoll_ctl v at h a =
    let (r, eq, t) = fire_lem m fd x read v at h in
    let left : Events = record {
      reads = x.events.reads && false;
      writes = x.events.writes && true;
    } in
    let due : (not (x.events.reads && true) && not (x.events.writes && false)) ≡ false = rw h in
    (
      r.0,
      rw (due, a (ctl_left left) fd (2 ^ 31 + bits left), eq),
      add_event-Triggered m fd x read r caller cb epoll_ctl t a,
    )

reset_after :
    (x : FdContext) (e : Event) (s : Events)
    → contains x.events e ≡ true
    → get_context (put_context (record x { events = s }) e reset_context) e ≡ ok reset_context
unfolding get_context put_context contains
reset_after x no_event s h = cc h
reset_after x read s h = refl
reset_after x write s h = refl

reset_is_reset : is_reset reset_context ≡ true
unfolding is_reset reset_context
reset_is_reset = refl

register_free :
    (x : FdContext) (fd : ℕ) (e : Event) (caller : Caller) (f : ℕ) (epoll_ctl : EpollCtl)
    (c : EventContext)
    → contains x.events e ≡ false
    → get_context x e ≡ ok c
    → is_reset c ≡ true
    → Accepts epoll_ctl
    → register x fd e caller (some f) epoll_ctl
      ≡ ok (
        put_context
            (record x { events = with_event x.events e })
            e
            (record { scheduler = caller.scheduler; fiber = none; cb = some f }),
        true,
      )
unfolding register
register_free x fd e caller f epoll_ctl c n g r a =
    let op = if is_none x.events then ctl_add else ctl_mod in
    let mask = 2 ^ 31 + bits (with_event x.events e) in
    rw (n, a op fd mask, get_context-events x e (with_event x.events e), g, r)

-- Where epoll accepts every change: after delEvent took away a registered event of a valid manager,
-- addEvent with a callback registers the same event of the same descriptor again, and the count of
-- pending events is what it was.
pub add_event-del_event :
    (m : IoManager) (fd : ℕ) (x : FdContext) (e : Event) (caller : Caller) (f : ℕ)
    (epoll_ctl : EpollCtl)
    → IsValid m
    → get_elem? m.contexts fd ≡ some x
    → contains x.events e ≡ true
    → Accepts epoll_ctl
    → (n : IoManager) × (k : IoManager) × (del_event m fd e epoll_ctl ≡ ok (n, true))
      × (add_event n fd e caller (some f) epoll_ctl ≡ ok (k, true))
      × (k.pending ≡ m.pending)
unfolding del_event del_event_of add_event make_room
add_event-del_event m fd x e caller f epoll_ctl v at h a =
    let left = without_event x.events e in
    let y = put_context (record x { events = left }) e reset_context in
    let (c, got) = get_context_ok x e h in
    let cleared : contains y.events e ≡ false =
      ap (λ s. contains s e) (put_context-events (record x { events = left }) e reset_context)
      ∙ without-contains x.events e in
    let free =
      register_free y fd e caller f epoll_ctl reset_context cleared (reset_after x e left h)
        reset_is_reset a in
    let at' = get_elem?-set m.contexts fd x y at in
    let some_pending : 0 < m.pending = omega (
      arith,
      total-set m.contexts fd x y at,
      count-without_event x.events e h,
      ap count (put_context-events (record x { events = left }) e reset_context),
      v.counted,
    ) in
    let n : IoManager = record m {
      contexts = set m.contexts fd y;
      pending = dec_pending m.pending;
    } in
    let z =
      put_context (record y { events = with_event y.events e }) e
        (record { scheduler = caller.scheduler; fiber = none; cb = some f }) in
    (
      n,
      record n { contexts = set n.contexts fd z; pending = suc n.pending },
      rw (at, del_event) (rw (h, a (ctl_left left) fd (2 ^ 31 + bits left), got)),
      rw (at', make_room) (rw free),
      omega (arith, some_pending, v.bounded),
    )
