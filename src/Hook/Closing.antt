-- ===== src/Hook/Closing.antt =====
-- close takes a descriptor out of both tables.
use cor_reactor.Base.{
  ℕ, ◌≡◌, ap, sym, ◌∙◌, ◌⊎◌, inl, inr, none, some, Bool, true, false, Bool-cases, get_elem?, ok,
  ok_eq, check, >>=-eq-ok,
}
use cor_reactor.Base.Int.{pos}
use cor_reactor.IoManager.{IoManager, EpollCtl, FdContext, is_none, ctl_del, read, write}
use cor_reactor.IoManager.Calls.{cancel_all, cancel_all_of, fire_if}
use cor_reactor.IoManager.Counting
use cor_reactor.IoManager.Removing.{cancel_all_lem}
use cor_reactor.FdManager.{FdCtx, FdManager, Fstat, get, del}
use cor_reactor.FdManager.Lookup.{IsValid, get-del}
use cor_reactor.Hook.Calls.{close}
use cor_reactor.Hook.Nonblock.{find_ctx-some}

-- cancelAll answers yes on a context with an event, where epoll accepts the removal.
cancel_all_of-true :
    (io : IoManager) (fd : ℕ) (x : FdContext) (epoll_ctl : EpollCtl) (r : IoManager × Bool)
    → is_none x.events ≡ false
    → epoll_ctl ctl_del fd 0 ≡ 0
    → cancel_all_of io fd x epoll_ctl ≡ ok r
    → r.1 ≡ true
unfolding cancel_all_of
cancel_all_of-true io fd x epoll_ctl r e a h =
    let fired = rw (e, a) at h in
    let (p, f, g) = >>=-eq-ok (fire_if x.events.reads io fd x read) _ fired in
    let (q, f', g') = >>=-eq-ok (fire_if p.1.events.writes p.0 fd p.1 write) _ g in
    let (u, f'', g'') = >>=-eq-ok (check (is_none q.1.events)) _ g' in
    ap (λ (x : IoManager × Bool). x.1) (sym (ok_eq g''))

-- With hooks on, on valid managers, close of a descriptor that is known ends without a failed
-- assertion, whatever epoll answers. Afterwards the descriptor is not known, both managers are valid,
-- and the IOManager is as it was or has no event registered for the descriptor; it has none where
-- epoll accepts the removal and the descriptor has a context.
pub close_lem :
    (m : FdManager) (io : IoManager) (fd : ℕ) (c : FdCtx) (epoll_ctl : EpollCtl) (fstat : Fstat)
    → IsValid m
    → Counting.IsValid io
    → get_elem? m.datas fd ≡ some (some c)
    → (n : FdManager) × (o : IoManager) × (close true m (some io) fd epoll_ctl ≡ ok (n, some o))
      × IsValid n
      × Counting.IsValid o
      × (get n (pos fd) false fstat ≡ ok (n, none))
      × ((o ≡ io)
          ⊎ ((y : FdContext) × (get_elem? o.contexts fd ≡ some y) × (is_none y.events ≡ true)))
      × ((x : FdContext)
          → get_elem? io.contexts fd ≡ some x
          → epoll_ctl ctl_del fd 0 ≡ 0
          → (y : FdContext) × (get_elem? o.contexts fd ≡ some y) × (is_none y.events ≡ true))
unfolding close cancel_all
close_lem m io fd c epoll_ctl fstat v w at =
    let (r, eq, valid, ends) = cancel_all_lem io w fd epoll_ctl in
    let (absent, kept) = get-del m fd fstat v in
    (
      del m fd,
      r.0,
      rw (find_ctx-some m fd c at) (rw eq),
      kept,
      valid,
      absent,
      ended ends,
      cleared r eq ends,
    )
  where
    ended :
        {r : IoManager × Bool}
        → (r ≡ (io, false))
          ⊎ ((y : FdContext) × (get_elem? r.0.contexts fd ≡ some y)
              × (is_none y.events ≡ true)
              × (r.1 ≡ true))
        → (r.0 ≡ io)
          ⊎ ((y : FdContext) × (get_elem? r.0.contexts fd ≡ some y) × (is_none y.events ≡ true))
    ended (inl e) = inl (ap (λ (x : IoManager × Bool). x.0) e)
    ended (inr (y, at, empty, t)) = inr (y, at, empty)

    cleared :
        (r : IoManager × Bool)
        → cancel_all io fd epoll_ctl ≡ ok r
        → (r ≡ (io, false))
          ⊎ ((y : FdContext) × (get_elem? r.0.contexts fd ≡ some y)
              × (is_none y.events ≡ true)
              × (r.1 ≡ true))
        → (x : FdContext) → get_elem? io.contexts fd ≡ some x
        → epoll_ctl ctl_del fd 0 ≡ 0
        → (y : FdContext) × (get_elem? r.0.contexts fd ≡ some y) × (is_none y.events ≡ true)
    cleared r eq (inr (y, at, empty, t)) x h a = (y, at, empty)
    cleared r eq (inl e) x h a = elim (Bool-cases (is_none x.events)) [
      | inl n ↦ (x, ap (λ (q : IoManager × Bool). get_elem? q.0.contexts fd) e ∙ h, n)
      | inr n ↦ absurd (
          let yes = cancel_all_of-true io fd x epoll_ctl r n a (rw (h, cancel_all) at eq) in
          cc (yes, e))
    ]
