-- ===== src/IoManager/Counting.antt =====
-- The invariant of the IOManager: m_pendingEventCount counts the registered events, and a registered
-- event has a scheduler to be handed to.
use cor_reactor.Base.{
  ℕ, zero, suc, ◌+◌, ◌^◌, ◌<◌, ◌≡◌, refl, ap, List, [], ◌∷◌, ◌++◌, Option, none, some, true, false,
  if◌then◌else◌, get_elem?, set, All, All-get, All-set, ok, arith,
}
use cor_reactor.IoManager.{
  Event, no_event, read, write, Events, contains, with_event, without_event, EventContext,
  FdContext, IoManager, get_context, task_of, trigger_event,
}
use cor_reactor.IoManager.Calls.{dec_pending, fire}

abbrev pub count : Events → ℕ
count s = (if s.reads then 1 else 0) + (if s.writes then 1 else 0)

abbrev pub total : List FdContext → ℕ
total [] = 0
total (x ∷ xs) = count x.events + total xs

abbrev pub HasScheduler : EventContext → Type 0
HasScheduler c = (s : ℕ) × (c.scheduler ≡ some s)

pub record IsReady (x : FdContext) : Type 0 where
  pub reader : x.events.reads ≡ true → HasScheduler x.read_context
  pub writer : x.events.writes ≡ true → HasScheduler x.write_context

pub record IsValid (m : IoManager) : Type 0 where
  pub counted : m.pending ≡ total m.contexts
  pub bounded : m.pending < 2 ^ 64
  pub ready : All IsReady m.contexts

pub get_elem?-set :
    (cs : List FdContext) (i : ℕ) (x y : FdContext)
    → get_elem? cs i ≡ some x
    → get_elem? (set cs i y) i ≡ some y
get_elem?-set [] i x y h = cc h
get_elem?-set (c ∷ cs) zero x y h = refl
get_elem?-set (c ∷ cs) (suc i) x y h = get_elem?-set cs i x y h

count_at : Option FdContext → ℕ
count_at none = 0
count_at (some x) = count x.events

pub total-set :
    (cs : List FdContext) (i : ℕ) (x y : FdContext)
    → get_elem? cs i ≡ some x
    → total (set cs i y) + count x.events ≡ total cs + count y.events
unfolding count_at
total-set [] i x y h = cc h
total-set (c ∷ cs) zero x y h = omega (arith, ap count_at h)
total-set (c ∷ cs) (suc i) x y h = omega (arith, total-set cs i x y h)

pub count-without_event :
    (s : Events) (e : Event) → contains s e ≡ true → count (without_event s e) + 1 ≡ count s
unfolding contains without_event
count-without_event s no_event h = cc h
count-without_event s read h = rw h (omega arith)
count-without_event s write h = rw h (omega arith)

pub count-with_event :
    (s : Events) (e : Event)
    → contains (with_event s e) e ≡ true
    → contains s e ≡ false
    → count (with_event s e) ≡ count s + 1
unfolding contains with_event
count-with_event s no_event g h = cc (g, h)
count-with_event s read g h = rw h (omega arith)
count-with_event s write g h = rw h (omega arith)

-- One event less: the counter stays right.
pub dec_pending_lem :
    (m : IoManager) (fd : ℕ) (x y : FdContext)
    → IsValid m
    → get_elem? m.contexts fd ≡ some x
    → count y.events + 1 ≡ count x.events
    → (dec_pending m.pending ≡ total (set m.contexts fd y)) × (dec_pending m.pending < 2 ^ 64)
dec_pending_lem m fd x y v at h =
    let t = total-set m.contexts fd x y at in (omega (arith, t, v.counted, v.bounded), omega arith)

-- The context that an event of a ready descriptor has.
registered :
    (x : FdContext) (e : Event)
    → IsReady x
    → contains x.events e ≡ true
    → (c : EventContext) × (get_context x e ≡ ok c) × HasScheduler c
unfolding contains get_context
registered x no_event r h = cc h
registered x read r h = (x.read_context, refl, r.reader h)
registered x write r h = (x.write_context, refl, r.writer h)

without_event-IsReady :
    (x : FdContext) (e : Event)
    → IsReady x
    → IsReady (record x { events = without_event x.events e })
unfolding without_event
without_event-IsReady x no_event r = r
without_event-IsReady x read r = record { reader = λ h. cc h; writer = r.writer }
without_event-IsReady x write r = record { reader = r.reader; writer = λ h. cc h }

-- What triggering a registered event does to the manager m with the context x at fd.
pub record Triggered (m : IoManager) (fd : ℕ) (x : FdContext) (e : Event)
    (r : IoManager × FdContext) : Type 0 where
  pub valid : IsValid r.0
  pub at : get_elem? r.0.contexts fd ≡ some r.1
  pub context : r.1 ≡ record x { events = without_event x.events e }
  pub tasks :
      (c : EventContext) × (s : ℕ) × (get_context x e ≡ ok c)
      × (c.scheduler ≡ some s)
      × (r.0.scheduled ≡ m.scheduled ++ task_of c s)

pub fire_lem :
    (m : IoManager) (fd : ℕ) (x : FdContext) (e : Event)
    → IsValid m
    → get_elem? m.contexts fd ≡ some x
    → contains x.events e ≡ true
    → (r : IoManager × FdContext) × (fire m fd x e ≡ ok r) × Triggered m fd x e r
unfolding fire trigger_event
fire_lem m fd x e v at h =
    let ready = All-get IsReady m.contexts fd x v.ready at in
    let (c, got, (s, scheduler)) = registered x e ready h in
    let y : FdContext = record x { events = without_event x.events e } in
    let (right, small) = dec_pending_lem m fd x y v at (count-without_event x.events e h) in
    (
      (
        record m {
          contexts = set m.contexts fd y;
          pending = dec_pending m.pending;
          scheduled = m.scheduled ++ task_of c s;
        },
        y,
      ),
      rw (h, got, scheduler),
      record {
        valid = record {
          counted = right;
          bounded = small;
          ready = All-set IsReady m.contexts fd y v.ready (without_event-IsReady x e ready);
        };
        at = get_elem?-set m.contexts fd x y at;
        context = refl;
        tasks = (c, s, got, scheduler, refl);
      },
    )
