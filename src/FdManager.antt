-- ===== src/FdManager.antt =====
-- include/fd_manager.h and src/fd_manager.cpp: what is known of each descriptor.
-- fstat is an argument of the calls that run it: `none` is its failure, and else it says whether the
-- descriptor is a socket. The fcntl calls that make a socket non-blocking change nothing here. The
-- public calls hold the manager's lock. An index outside a vector is a fault.
pub mod Lookup
mod Tests
use cor_reactor.Base.{
  ℕ, zero, suc, ◌+◌, ◌-◌, ◌*◌, ◌/◌, ◌^◌, List, [], ◌∷◌, ◌++◌, Option, none, some, Bool, true, false,
  ltb, leb, if◌then◌else◌, length, get_elem?, set, take, replicate, Result, ok, fail, out_of_range,
}
use cor_reactor.Base.Int.{ℤ, pos, negsuc}

-- FdCtx
pub record FdCtx : Type 0 where
  pub is_init : Bool
  pub is_socket : Bool
  pub sys_nonblock : Bool
  pub user_nonblock : Bool
  pub is_closed : Bool
  pub fd : ℕ
  pub recv_timeout : ℕ
  pub send_timeout : ℕ

pub record FdManager : Type 0 where
  pub datas : List (Option FdCtx)

abbrev pub Fstat : Type 0
Fstat = ℕ → Option Bool

-- uint64_t(-1)
abbrev pub no_timeout : ℕ
no_timeout = 2 ^ 64 - 1

-- FdCtx::init
unfoldable pub init : FdCtx → Fstat → FdCtx
init c fstat =
    if c.is_init
    then c
    else (let found : Bool = elim (fstat c.fd) [ none ↦ false | some s ↦ true ] in
        let socket : Bool = elim (fstat c.fd) [ none ↦ false | some s ↦ s ] in
        record c {
          is_init = found;
          is_socket = socket;
          sys_nonblock = socket;
          user_nonblock = false;
          is_closed = false;
          recv_timeout = no_timeout;
          send_timeout = no_timeout;
        })

-- FdCtx::FdCtx(int fd)
unfoldable pub new_fd_ctx : ℕ → Fstat → FdCtx
new_fd_ctx fd fstat =
    init
      (record {
        is_init = false;
        is_socket = false;
        sys_nonblock = false;
        user_nonblock = false;
        is_closed = false;
        fd = fd;
        recv_timeout = no_timeout;
        send_timeout = no_timeout;
      })
      fstat

-- The `type` of a timeout: SO_RCVTIMEO, or any other number.
pub data TimeoutType : Type 0 where
  so_rcvtimeo : TimeoutType
  other_type : TimeoutType

-- FdCtx::setTimeout
unfoldable pub set_timeout : FdCtx → TimeoutType → ℕ → FdCtx
set_timeout c so_rcvtimeo v = record c { recv_timeout = v }
set_timeout c other_type v = record c { send_timeout = v }

-- FdCtx::getTimeout
unfoldable pub get_timeout : FdCtx → TimeoutType → ℕ
get_timeout c so_rcvtimeo = c.recv_timeout
get_timeout c other_type = c.send_timeout

-- FdManager::FdManager()
unfoldable pub fd_manager : FdManager
fd_manager = record { datas = replicate 64 none }

unfoldable pub resize : List (Option FdCtx) → ℕ → List (Option FdCtx)
resize ds size = take size ds ++ replicate (size - length ds) none

-- The part of `get` that holds the write lock.
unfoldable pub create : FdManager → ℕ → Fstat → Result (FdManager × Option FdCtx)
create m fd fstat =
    let ctx = new_fd_ctx fd fstat in
    let ds = if leb (length m.datas) fd then resize m.datas (fd * 3 / 2) else m.datas in
    if ltb fd (length ds)
    then ok (record { datas = set ds fd (some ctx) }, some ctx)
    else fail out_of_range

-- FdManager::get
unfoldable pub get : FdManager → ℤ → Bool → Fstat → Result (FdManager × Option FdCtx)
get m (negsuc zero) auto_create fstat = ok (m, none)
get m (negsuc (suc n)) auto_create fstat = fail out_of_range
get m (pos fd) auto_create fstat = elim (get_elem? m.datas fd) [
  | none ↦ if auto_create then create m fd fstat else ok (m, none)
  | some o ↦ elim o [
    | some c ↦ ok (m, some c)
    | none ↦ if auto_create then create m fd fstat else ok (m, none)
  ]
]

-- FdManager::del, for a descriptor that is not negative
unfoldable pub del : FdManager → ℕ → FdManager
del m fd = if leb (length m.datas) fd then m else record { datas = set m.datas fd none }
