-- ===== src/Hook/Nonblock.antt =====
-- The caller's view of the flags of a socket that the program has made non-blocking.
use cor_reactor.Base.{
  ℕ, ◌+◌, ◌*◌, ◌/◌, ◌%◌, ◌^◌, List, ◌≡◌, refl, ap, ◌∙◌, some, true, false, if◌then◌else◌, get_elem?,
  get_elem?-set, get_elem?-some, ok, arith,
}
use cor_reactor.Base.Int.{pos}
use cor_reactor.FdManager.{
  FdCtx, FdManager, TimeoutType, so_rcvtimeo, other_type, set_timeout, get_timeout, get,
}
use cor_reactor.IoManager.{Event}
use cor_reactor.Hook.{Sys, Wake, find_ctx, do_io, do_io_ctx, retry_io}
use cor_reactor.Hook.Flags.{
  has_nonblock, with_nonblock, without_nonblock, change_ctx, set_flags, set_flags_of, get_flags,
  get_flags_of, set_timeout_option,
}

pub find_ctx-some :
    (m : FdManager) (fd : ℕ) (c : FdCtx)
    → get_elem? m.datas fd ≡ some (some c)
    → find_ctx m (pos fd) ≡ ok (some c)
unfolding find_ctx get
find_ctx-some m fd c h = rw (h, get)

pub find_ctx-change_ctx :
    (m : FdManager) (fd : ℕ) (c d : FdCtx)
    → get_elem? m.datas fd ≡ some (some c)
    → find_ctx (change_ctx m fd d) (pos fd) ≡ ok (some d)
unfolding change_ctx
find_ctx-change_ctx m fd c d h =
    find_ctx-some _ fd d (get_elem?-set m.datas fd (some d) (get_elem?-some m.datas fd (some c) h))

pub has_nonblock-with_nonblock : (arg : ℕ) → has_nonblock (with_nonblock arg) ≡ true
unfolding with_nonblock
has_nonblock-with_nonblock arg = ground arith

restored :
    (arg : ℕ)
    → (if has_nonblock arg
        then with_nonblock (with_nonblock arg)
        else without_nonblock (with_nonblock arg))
      ≡ arg
unfolding with_nonblock without_nonblock
restored arg = ground arith

-- A socket that the manager holds, open and made non-blocking by the program.
pub record IsHeld (m : FdManager) (fd : ℕ) (c : FdCtx) : Type 0 where
  pub at : get_elem? m.datas fd ≡ some (some c)
  pub socket : c.is_socket ≡ true
  pub opened : c.is_closed ≡ false
  pub nonblock : c.sys_nonblock ≡ true

-- For a socket that the manager holds and has made non-blocking: fcntl(F_SETFL) gives the system
-- flags with O_NONBLOCK whatever the caller asks, and fcntl(F_GETFL), where the system returns those
-- flags, returns exactly what the caller had set.
pub get_flags-set_flags :
    (m : FdManager) (fd : ℕ) (c : FdCtx) (arg : ℕ)
    → IsHeld m fd c
    → (n : FdManager) × (given : ℕ) × (set_flags m fd arg ≡ ok (n, given))
      × (has_nonblock given ≡ true)
      × (get_flags n fd given ≡ ok arg)
unfolding set_flags set_flags_of get_flags get_flags_of
get_flags-set_flags m fd c arg v =
    let d : FdCtx = record c { user_nonblock = has_nonblock arg } in
    (
      change_ctx m fd d,
      with_nonblock arg,
      rw (find_ctx-some m fd c v.at) (rw (v.opened, v.socket, v.nonblock)),
      has_nonblock-with_nonblock arg,
      rw (find_ctx-change_ctx m fd c d v.at) (rw (v.opened, v.socket) (ap ok (restored arg))),
    )

timeouts_kept :
    (c : FdCtx) (type : TimeoutType) (v : ℕ) → get_timeout (set_timeout c type v) type ≡ v
unfolding get_timeout set_timeout
timeouts_kept c so_rcvtimeo v = refl
timeouts_kept c other_type v = refl

set_timeout-opened :
    (c : FdCtx) (type : TimeoutType) (v : ℕ)
    → ((set_timeout c type v).is_closed ≡ c.is_closed)
      × ((set_timeout c type v).is_socket ≡ c.is_socket)
      × ((set_timeout c type v).user_nonblock ≡ c.user_nonblock)
unfolding set_timeout
set_timeout-opened c so_rcvtimeo v = (refl, refl, refl)
set_timeout-opened c other_type v = (refl, refl, refl)

do_io_ctx_open :
    (d : FdCtx) (fd : ℕ) (event : Event) (type : TimeoutType) (wakes : List Wake)
    (answers : List Sys)
    → d.is_closed ≡ false
    → d.is_socket ≡ true
    → d.user_nonblock ≡ false
    → do_io_ctx d fd event type wakes answers ≡ retry_io fd event (get_timeout d type) wakes answers
unfolding do_io_ctx
do_io_ctx_open d fd event type wakes answers o s u = rw (o, s, u, do_io_ctx)

-- For an open socket that the manager holds and that its caller left blocking: after setsockopt set
-- one of the timeouts with hooks on, the hooked calls of that direction run the retry loop with the
-- timeout in milliseconds, modulo 2 ^ 64.
pub do_io-set_timeout_option :
    (m : FdManager) (fd : ℕ) (c : FdCtx) (event : Event) (type : TimeoutType) (sec usec : ℕ)
    (wakes : List Wake) (answers : List Sys)
    → IsHeld m fd c
    → c.user_nonblock ≡ false
    → (n : FdManager) × (set_timeout_option true m fd type sec usec ≡ ok n)
      × (do_io true n (pos fd) event type wakes answers
          ≡ retry_io fd event ((sec * 1000 + usec / 1000) % 2 ^ 64) wakes answers)
unfolding set_timeout_option do_io
do_io-set_timeout_option m fd c event type sec usec wakes answers v user =
    let to = (sec * 1000 + usec / 1000) % 2 ^ 64 in
    let d = set_timeout c type to in
    let (o, s, u) = set_timeout-opened c type to in
    (
      change_ctx m fd d,
      rw (find_ctx-some m fd c v.at),
      rw (find_ctx-change_ctx m fd c d v.at) (
          do_io_ctx_open d fd event type wakes answers (o ∙ v.opened) (s ∙ v.socket) (u ∙ user)
          ∙ ap (λ t. retry_io fd event t wakes answers) (timeouts_kept c type to)),
    )
