-- ===== src/IoManager/Growing.antt =====
-- contextResize and the loop of addEvent: what they add is idle and free.
use cor_reactor.Base.{
  ℕ, zero, suc, ◌+◌, ◌-◌, ◌≤◌, ◌≡◌, ◌≢◌, refl, sym, ap, ◌∙◌, subst, List, [], ◌∷◌, ◌++◌, All,
  All-append, All-get, some, true, false, get_elem?, length, take, ok, arith,
}
use cor_reactor.IoManager.{
  Event, no_event, read, write, contains, EventContext, FdContext, get_context, is_reset,
  fresh_contexts, context_resize, no_events, reset_context,
}
use cor_reactor.IoManager.Counting.{total, IsReady}

-- A context that nobody waits for.
abbrev pub IsFree : FdContext → Event → Type 0
IsFree x e =
    (contains x.events e ≡ false)
    × (c : EventContext) × (get_context x e ≡ ok c)
    × (is_reset c ≡ true)

abbrev pub IsFresh : FdContext → Type 0
IsFresh x =
    (x.events ≡ no_events) × (x.read_context ≡ reset_context) × (x.write_context ≡ reset_context)

fresh_contexts-All : (i n : ℕ) → All IsReady (fresh_contexts i n)
unfolding fresh_contexts
fresh_contexts-All i zero = tt
fresh_contexts-All i (suc n) =
    (record { reader = λ h. cc h; writer = λ h. cc h }, fresh_contexts-All (suc i) n)

total-append : (cs ds : List FdContext) → total (cs ++ ds) ≡ total cs + total ds
total-append [] ds = omega arith
total-append (c ∷ cs) ds = omega (arith, total-append cs ds)

total-fresh_contexts : (i n : ℕ) → total (fresh_contexts i n) ≡ 0
unfolding fresh_contexts
total-fresh_contexts i zero = refl
total-fresh_contexts i (suc n) = omega (arith, total-fresh_contexts (suc i) n)

pub fresh_contexts-IsFresh : (i n : ℕ) → All IsFresh (fresh_contexts i n)
unfolding fresh_contexts
fresh_contexts-IsFresh i zero = tt
fresh_contexts-IsFresh i (suc n) = ((refl, refl, refl), fresh_contexts-IsFresh (suc i) n)

pub IsFresh-IsFree : (x : FdContext) (e : Event) → e ≢ no_event → IsFresh x → IsFree x e
unfolding contains get_context is_reset reset_context
IsFresh-IsFree x no_event n h = absurd (n refl)
IsFresh-IsFree x read n (h, r, w) = (rw h refl, x.read_context, refl, rw r refl)
IsFresh-IsFree x write n (h, r, w) = (rw h refl, x.write_context, refl, rw w refl)

-- An element behind the first list is one of the second.
pub All-behind :
    (P : FdContext → Type 0) (cs ds : List FdContext) (i : ℕ) (x : FdContext)
    → length cs ≤ i
    → All P ds
    → get_elem? (cs ++ ds) i ≡ some x
    → P x
All-behind P [] ds i x h a e = All-get P ds i x a e
All-behind P (c ∷ cs) ds zero x h a e = absurd (omega (arith, h))
All-behind P (c ∷ cs) ds (suc i) x h a e = All-behind P cs ds i x (omega (arith, h)) a e

pub take_all : (cs : List FdContext) (n : ℕ) → length cs ≤ n → take n cs ≡ cs
take_all [] zero h = refl
take_all [] (suc n) h = refl
take_all (c ∷ cs) zero h = absurd (omega (arith, h))
take_all (c ∷ cs) (suc n) h = ap (◌∷◌ c) (take_all cs n (omega (arith, h)))

-- What stays when contexts are added.
pub record Grown (cs ds : List FdContext) : Type 0 where
  pub counted : total ds ≡ total cs
  pub ready : All IsReady ds

pub context_resize-Grown :
    (cs : List FdContext) (size : ℕ)
    → length cs ≤ size
    → All IsReady cs
    → Grown cs (context_resize cs size)
unfolding context_resize
context_resize-Grown cs size h r = record {
  counted =
      ap total (ap (λ ds. ds ++ fresh) (take_all cs size h))
      ∙ total-append cs fresh
      ∙ ap (λ n. total cs + n) (total-fresh_contexts (length cs) (size - length cs))
      ∙ omega arith;
  ready =
      subst (λ ds. All IsReady (ds ++ fresh)) (sym (take_all cs size h))
        (All-append IsReady cs fresh r (fresh_contexts-All (length cs) (size - length cs)));
}
  where
    fresh : List FdContext
    fresh = fresh_contexts (length cs) (size - length cs)
