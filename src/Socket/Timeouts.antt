-- ===== src/Socket/Timeouts.antt =====
-- src/socket.cpp: the timeouts of a socket, set through the hooked setsockopt and read from FdMgr.
-- A timeout is an int64_t that is not negative. `tv_sec` goes to setsockopt as its 64-bit pattern.
use cor_reactor.Base.{
  ℕ, ◌+◌, ◌*◌, ◌/◌, ◌%◌, ◌^◌, ◌<◌, ◌≡◌, refl, ◌∙◌, Option, none, some, Bool, true, get_elem?,
  Result, ok, ◌>>=◌, arith, lt→ltb,
}
use cor_reactor.Base.Int.{ℤ, pos, negsuc, to_word, of_word}
use cor_reactor.FdManager.{
  FdCtx, FdManager, TimeoutType, so_rcvtimeo, other_type, get_timeout, set_timeout,
}
use cor_reactor.Hook.{find_ctx}
use cor_reactor.Hook.Flags.{set_timeout_option, change_ctx}
use cor_reactor.Hook.Nonblock.{find_ctx-some, find_ctx-change_ctx}
use cor_reactor.Socket.{Socket, seconds}

-- setRecvTimeout and setSendTimeout
unfoldable pub set_socket_timeout : Bool → FdManager → Socket → TimeoutType → ℕ → Result FdManager
set_socket_timeout hooked m s type v = elim s.sock [
  | none ↦ ok m
  | some fd ↦ set_timeout_option hooked m fd type (to_word (2 ^ 64) (seconds v)) (v % 1000 * 1000)
]

-- The context's timeout as an int64_t, and -1 without a context.
abbrev pub timeout_of : TimeoutType → Option FdCtx → ℤ
timeout_of type none = negsuc 0
timeout_of type (some c) = of_word (2 ^ 63) (get_timeout c type)

-- getRecvTimeout and getSendTimeout
unfoldable pub get_socket_timeout : FdManager → Socket → TimeoutType → Result ℤ
get_socket_timeout m s type = elim s.sock [
  | none ↦ ok (negsuc 0)
  | some fd ↦ find_ctx m (pos fd) >>= λ o. ok (timeout_of type o)
]

milliseconds :
    (v : ℕ)
    → v < 2 ^ 31 * 1000
    → (to_word (2 ^ 64) (seconds v) * 1000 + v % 1000 * 1000 / 1000) % 2 ^ 64 ≡ v
milliseconds v h =
    let q : v / 1000 < 2 ^ 31 = omega arith in
    let small : v / 1000 % 2 ^ 32 ≡ v / 1000 = omega arith in
    rw (small, lt→ltb (v / 1000) (2 ^ 31) q) (omega arith)

get_timeout-set_timeout :
    (c : FdCtx) (type : TimeoutType) (v : ℕ) → get_timeout (set_timeout c type v) type ≡ v
unfolding get_timeout set_timeout
get_timeout-set_timeout c so_rcvtimeo v = refl
get_timeout-set_timeout c other_type v = refl

-- The timeout of the other direction.
abbrev pub other_of : TimeoutType → TimeoutType
other_of so_rcvtimeo = other_type
other_of other_type = so_rcvtimeo

get_timeout-other :
    (c : FdCtx) (type : TimeoutType) (v : ℕ)
    → get_timeout (set_timeout c type v) (other_of type) ≡ get_timeout c (other_of type)
unfolding get_timeout set_timeout
get_timeout-other c so_rcvtimeo v = refl
get_timeout-other c other_type v = refl

-- With hooks on, for an open socket whose descriptor is known and a timeout of less than 2 ^ 31
-- seconds: setting the timeout of one direction succeeds, reading it back gives the milliseconds that
-- were set, and the timeout of the other direction is what it was.
pub get_socket_timeout-set_socket_timeout :
    (m : FdManager) (s : Socket) (fd : ℕ) (c : FdCtx) (type : TimeoutType) (v : ℕ)
    → s.sock ≡ some fd
    → get_elem? m.datas fd ≡ some (some c)
    → v < 2 ^ 31 * 1000
    → (n : FdManager) × (set_socket_timeout true m s type v ≡ ok n)
      × (get_socket_timeout n s type ≡ ok (pos v))
      × (get_socket_timeout n s (other_of type) ≡ get_socket_timeout m s (other_of type))
unfolding set_socket_timeout get_socket_timeout set_timeout_option
get_socket_timeout-set_socket_timeout m s fd c type v held at h =
    let t = (to_word (2 ^ 64) (seconds v) * 1000 + v % 1000 * 1000 / 1000) % 2 ^ 64 in
    let d = set_timeout c type t in
    let known = find_ctx-some m fd c at in
    let changed = find_ctx-change_ctx m fd c d at in
    let now : get_timeout d type ≡ v = get_timeout-set_timeout c type t ∙ milliseconds v h in
    (
      change_ctx m fd d,
      rw (held, known),
      rw (held, changed, now, lt→ltb v (2 ^ 63) (omega arith)),
      rw (held, changed, known, get_timeout-other c type t),
    )
