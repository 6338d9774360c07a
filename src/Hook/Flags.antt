-- ===== src/Hook/Flags.antt =====
-- src/hook.cpp: fcntl, ioctl and setsockopt, which keep the caller's view of a socket that the
-- program itself has made non-blocking. Flags are the non-negative int of fcntl.
use cor_reactor.Base.{
  ℕ, ◌+◌, ◌-◌, ◌*◌, ◌/◌, ◌%◌, ◌^◌, Option, none, some, Bool, true, false, ◌||◌, not, ◌==◌,
  if◌then◌else◌, set, Result, ok, ◌>>=◌,
}
use cor_reactor.Base.Int.{pos}
use cor_reactor.FdManager.{FdCtx, FdManager, TimeoutType, set_timeout}
use cor_reactor.Hook.{find_ctx}

-- O_NONBLOCK, and `arg & O_NONBLOCK`, `arg | O_NONBLOCK` and `arg & ~O_NONBLOCK`.
abbrev pub o_nonblock : ℕ
o_nonblock = 2048

abbrev pub has_nonblock : ℕ → Bool
has_nonblock arg = arg / o_nonblock % 2 == 1

unfoldable pub with_nonblock : ℕ → ℕ
with_nonblock arg = if has_nonblock arg then arg else arg + o_nonblock

unfoldable pub without_nonblock : ℕ → ℕ
without_nonblock arg = if has_nonblock arg then arg - o_nonblock else arg

-- `!ctx || ctx->isClose() || !ctx->isSocket()`
abbrev pub unmanaged : Option FdCtx → Bool
unmanaged none = true
unmanaged (some c) = c.is_closed || not c.is_socket

-- A change to the context of a descriptor, through its pointer.
unfoldable pub change_ctx : FdManager → ℕ → FdCtx → FdManager
change_ctx m fd c = record m { datas = set m.datas fd (some c) }

-- fcntl(fd, F_SETFL, arg): the manager, and the flags that fcntl_f is given.
unfoldable pub set_flags_of : FdManager → ℕ → Option FdCtx → ℕ → FdManager × ℕ
set_flags_of m fd none arg = (m, arg)
set_flags_of m fd (some c) arg = if unmanaged (some c) then (m, arg) else (
  change_ctx m fd (record c { user_nonblock = has_nonblock arg }),
  if c.sys_nonblock then with_nonblock arg else without_nonblock arg,
)

unfoldable pub set_flags : FdManager → ℕ → ℕ → Result (FdManager × ℕ)
unfolding set_flags_of
set_flags m fd arg = find_ctx m (pos fd) >>= λ o. ok (set_flags_of m fd o arg)

-- fcntl(fd, F_GETFL), where fcntl_f returns `arg`
unfoldable pub get_flags_of : Option FdCtx → ℕ → ℕ
get_flags_of none arg = arg
get_flags_of (some c) arg =
    if unmanaged (some c)
    then arg
    else if c.user_nonblock
    then with_nonblock arg
    else without_nonblock arg

unfoldable pub get_flags : FdManager → ℕ → ℕ → Result ℕ
unfolding get_flags_of
get_flags m fd arg = find_ctx m (pos fd) >>= λ o. ok (get_flags_of o arg)

-- ioctl(d, FIONBIO, &arg), which hands the argument on unchanged
unfoldable pub ioctl_fionbio : FdManager → ℕ → ℕ → Result FdManager
ioctl_fionbio m d arg = find_ctx m (pos d) >>= λ o. ok (elim o [
  | none ↦ m
  | some c ↦
      if unmanaged (some c) then m else change_ctx m d (record c { user_nonblock = not (arg == 0) })
])

-- setsockopt(fd, SOL_SOCKET, type, {tv_sec, tv_usec}) for one of the two timeouts
unfoldable pub set_timeout_option : Bool → FdManager → ℕ → TimeoutType → ℕ → ℕ → Result FdManager
set_timeout_option false m fd type tv_sec tv_usec = ok m
set_timeout_option true m fd type tv_sec tv_usec = find_ctx m (pos fd) >>= λ o. ok (elim o [
  | none ↦ m
  | some c ↦ change_ctx m fd (set_timeout c type ((tv_sec * 1000 + tv_usec / 1000) % 2 ^ 64))
])
