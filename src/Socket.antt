-- ===== src/Socket.antt =====
-- include/socket.h and src/socket.cpp: sockets.
-- The calls that a socket makes, hooked or not, and what FdMgr knows of a descriptor are the
-- operations of a `Net` on a state K that its client chooses; `none` is the descriptor -1 and a null
-- pointer. A getpeername or getsockname that succeeds gives the bytes of an address, and the object
-- that holds them has the family of the socket. Addresses are shared and never changed.
pub mod Transfers
pub mod Timeouts
pub mod Connecting
pub mod Opening
pub mod Runs
pub mod Accepting
pub mod Loopback
mod Tests
use cor_reactor.Base.{
  ℕ, zero, suc, ◌-◌, ◌*◌, ◌/◌, ◌%◌, ◌^◌, ◌++◌, List, [], ◌∷◌, Option, none, some, Bool, true, false,
  ◌&&◌, not, ◌==◌, if◌then◌else◌,
}
use cor_reactor.Base.Int.{ℤ, to_word, of_word}
use cor_reactor.FdManager.{FdCtx}

-- An address object: the family and the bytes behind it.
pub record SocketAddress : Type 0 where
  pub family : ℕ
  pub bytes : List ℕ

-- The numbers that the source names.
abbrev pub af_unix : ℕ
af_unix = 1

abbrev pub af_inet : ℕ
af_inet = 2

abbrev pub af_inet6 : ℕ
af_inet6 = 10

abbrev pub sock_stream : ℕ
sock_stream = 1

abbrev pub sock_dgram : ℕ
sock_dgram = 2

pub data SocketOption : Type 0 where
  so_reuseaddr : SocketOption
  tcp_nodelay : SocketOption
  other_option : ℕ → ℕ → SocketOption

-- The calls. A Boolean answer says that the call returned 0.
pub record Net (K : Type 0) : Type 0 where
  pub open_socket : K → ℕ → ℕ → ℕ → K × Option ℕ
  pub accept_socket : K → Option ℕ → K × Option ℕ
  pub bind_socket : K → Option ℕ → SocketAddress → K × Bool
  pub listen_socket : K → Option ℕ → ℕ → K × Bool
  pub connect_socket : K → Option ℕ → SocketAddress → K × Bool
  pub connect_with_timeout : K → Option ℕ → SocketAddress → ℕ → K × Bool
  pub close_socket : K → ℕ → K
  pub setsockopt : K → Option ℕ → SocketOption → List ℕ → K × Bool
  pub peer_name : K → Option ℕ → Option (List ℕ)
  pub sock_name : K → Option ℕ → Option (List ℕ)
  pub find_ctx : K → ℕ → Option FdCtx
  pub cancel_all : K → Option ℕ → K × Bool

pub record Socket : Type 0 where
  pub sock : Option ℕ
  pub family : ℕ
  pub kind : ℕ
  pub protocol : ℕ
  pub connected : Bool
  pub local_address : Option SocketAddress
  pub remote_address : Option SocketAddress

-- Socket::Socket
unfoldable pub new_socket : ℕ → ℕ → ℕ → Socket
new_socket family kind protocol = record {
  sock = none;
  family = family;
  kind = kind;
  protocol = protocol;
  connected = false;
  local_address = none;
  remote_address = none;
}

-- isValid
unfoldable pub is_valid : Socket → Bool
is_valid s = elim s.sock [ none ↦ false | some fd ↦ true ]

-- The object that getRemoteAddress and getLocalAddress fill, and what they return when the call fails.
abbrev pub named : ℕ → List ℕ → SocketAddress
named family bytes = record { family = family; bytes = bytes }

abbrev pub unknown_address : ℕ → SocketAddress
unknown_address family = record { family = family; bytes = [] }

-- CreateTCP, CreateTCPSocket, CreateTCPSocket6, CreateUnixTCPSocket and CreateUnixUDPSocket open
-- nothing.
unfoldable pub create_tcp : SocketAddress → Socket
unfolding new_socket
create_tcp a = new_socket a.family sock_stream 0

unfoldable pub create_tcp_socket : Socket
create_tcp_socket = new_socket af_inet sock_stream 0

unfoldable pub create_tcp_socket6 : Socket
create_tcp_socket6 = new_socket af_inet6 sock_stream 0

unfoldable pub create_unix_tcp_socket : Socket
create_unix_tcp_socket = new_socket af_unix sock_stream 0

unfoldable pub create_unix_udp_socket : Socket
create_unix_udp_socket = new_socket af_unix sock_dgram 0

-- SO_RCVTIMEO of SOL_SOCKET
abbrev pub so_rcvtimeo : SocketOption
so_rcvtimeo = other_option 1 20

-- `int(v / 1000)`, for an int64_t that is not negative.
abbrev pub seconds : ℕ → ℤ
seconds v = of_word (2 ^ 31) (v / 1000 % 2 ^ 32)

word_bytes : ℕ → ℕ → List ℕ
word_bytes zero n = []
word_bytes (suc count) n = n % 256 ∷ word_bytes count (n / 256)

-- The struct timeval of a number of milliseconds.
unfoldable pub timeval : ℕ → List ℕ
unfolding word_bytes
timeval v = word_bytes 8 (to_word (2 ^ 64) (seconds v)) ++ word_bytes 8 (v % 1000 * 1000)

module _ {K : Type 0} (net : Net K) where
  -- setOption
  unfoldable pub set_option : K → Socket → SocketOption → List ℕ → K × Bool
  set_option k s option value = net.setsockopt k s.sock option value

  -- setRecvTimeout
  unfoldable pub set_recv_timeout : K → Socket → ℕ → K
  unfolding set_option timeval
  set_recv_timeout k s v = (set_option k s so_rcvtimeo (timeval v)).0

  -- initSock: an int 1 for each option.
  unfoldable pub init_sock : K → Socket → K
  unfolding set_option
  init_sock k s =
      let k' = (set_option k s so_reuseaddr (1 ∷ 0 ∷ 0 ∷ 0 ∷ [])).0 in
      if s.kind == sock_stream then (set_option k' s tcp_nodelay (1 ∷ 0 ∷ 0 ∷ 0 ∷ [])).0 else k'

  unfoldable pub opened : K → Socket → Option ℕ → K × Socket
  unfolding init_sock
  opened k s none = (k, record s { sock = none })
  opened k s (some fd) = (init_sock k (record s { sock = some fd }), record s { sock = some fd })

  -- newSock
  unfoldable pub new_sock : K → Socket → K × Socket
  unfolding opened
  new_sock k s = let (k', fd) = net.open_socket k s.family s.kind s.protocol in opened k' s fd

  -- CreateUDP, and CreateUDPSocket and CreateUDPSocket6
  unfoldable pub create_udp : K → SocketAddress → K × Socket
  unfolding new_sock
  create_udp k a =
      let (k', s) = new_sock k (new_socket a.family sock_dgram 0) in
      (k', record s { connected = true })

  unfoldable pub create_udp_socket : K → K × Socket
  unfolding new_sock
  create_udp_socket k =
      let (k', s) = new_sock k (new_socket af_inet sock_dgram 0) in
      (k', record s { connected = true })

  unfoldable pub create_udp_socket6 : K → K × Socket
  unfolding new_sock
  create_udp_socket6 k =
      let (k', s) = new_sock k (new_socket af_inet6 sock_dgram 0) in
      (k', record s { connected = true })

  unfoldable pub remote_found : Socket → Option (List ℕ) → Socket × SocketAddress
  remote_found s none = (s, unknown_address s.family)
  remote_found s (some bytes) =
      (record s { remote_address = some (named s.family bytes) }, named s.family bytes)

  -- getRemoteAddress
  unfoldable pub get_remote_address : K → Socket → Socket × SocketAddress
  unfolding remote_found
  get_remote_address k s = elim s.remote_address [
    | some a ↦ (s, a)
    | none ↦ remote_found s (net.peer_name k s.sock)
  ]

  unfoldable pub local_found : Socket → Option (List ℕ) → Socket × SocketAddress
  local_found s none = (s, unknown_address s.family)
  local_found s (some bytes) =
      (record s { local_address = some (named s.family bytes) }, named s.family bytes)

  -- getLocalAddress
  unfoldable pub get_local_address : K → Socket → Socket × SocketAddress
  unfolding local_found
  get_local_address k s = elim s.local_address [
    | some a ↦ (s, a)
    | none ↦ local_found s (net.sock_name k s.sock)
  ]

  -- init, with what FdMgr knows of the descriptor.
  unfoldable pub init_found : K → Socket → ℕ → Option FdCtx → K × (Socket × Bool)
  unfolding init_sock get_local_address get_remote_address
  init_found k s fd none = (k, (s, false))
  init_found k s fd (some c) =
      if c.is_socket && not c.is_closed
      then (let s' = record s { sock = some fd; connected = true } in
          let k' = init_sock k s' in
          (k', ((get_remote_address k' (get_local_address k' s').0).0, true)))
      else (k, (s, false))

  unfoldable pub init : K → Socket → ℕ → K × (Socket × Bool)
  unfolding init_found
  init k s fd = init_found k s fd (net.find_ctx k fd)

  unfoldable pub accepted : K → Socket → Option ℕ → K × Option Socket
  unfolding init
  accepted k s none = (k, none)
  accepted k s (some fd) =
      let (k', (s', done)) = init k (new_socket s.family s.kind s.protocol) fd in
      (k', if done then some s' else none)

  -- accept
  unfoldable pub accept : K → Socket → K × Option Socket
  unfolding accepted
  accept k s = let (k', fd) = net.accept_socket k s.sock in accepted k' s fd

  -- The beginning of bind and connect: a socket that is not open is opened.
  unfoldable pub ensure_open : K → Socket → K × Socket
  unfolding new_sock is_valid
  ensure_open k s = if is_valid s then (k, s) else new_sock k s

  -- bind
  unfoldable pub bind : K → Socket → SocketAddress → K × (Socket × Bool)
  unfolding ensure_open is_valid get_local_address
  bind k s a =
      let (k', s') = ensure_open k s in
      if not (is_valid s')
      then (k', (s', false))
      else if not (a.family == s'.family)
      then (k', (s', false))
      else (let (k'', done) = net.bind_socket k' s'.sock a in
          if done then (k'', ((get_local_address k'' s').0, true)) else (k'', (s', false)))

  -- close
  unfoldable pub close : K → Socket → K × (Socket × Bool)
  close k s = elim s.sock [
    | none ↦ (k, (record s { connected = false }, not s.connected))
    | some fd ↦ (net.close_socket k fd, (record s { connected = false; sock = none }, false))
  ]

  -- `::connect` or `::connect_with_timeout`; the timeout -1 stands for the greatest number.
  unfoldable pub connect_call : K → Socket → SocketAddress → ℕ → K × Bool
  connect_call k s a timeout_ms =
      if timeout_ms == 2 ^ 64 - 1
      then net.connect_socket k s.sock a
      else net.connect_with_timeout k s.sock a timeout_ms

  -- connect
  unfoldable pub connect : K → Socket → SocketAddress → ℕ → K × (Socket × Bool)
  unfolding ensure_open is_valid connect_call get_local_address get_remote_address close
  connect k s a timeout_ms =
      let (k', s') = ensure_open k s in
      if not (is_valid s')
      then (k', (s', false))
      else if not (a.family == s'.family)
      then (k', (s', false))
      else (let (k'', done) = connect_call k' s' a timeout_ms in
          if done
          then (let s'' = (get_remote_address k'' (record s' { connected = true })).0 in
              (k'', ((get_local_address k'' s'').0, true)))
          else (let (k''', (s'', closed)) = close k'' s' in (k''', (s'', false))))

  -- listen
  unfoldable pub listen : K → Socket → ℕ → K × Bool
  listen k s backlog = if is_valid s then net.listen_socket k s.sock backlog else (k, false)

  -- cancelAll
  unfoldable pub cancel_all : K → Socket → K × Bool
  cancel_all k s = net.cancel_all k s.sock

  -- Socket::~Socket
  unfoldable pub destroy : K → Socket → K
  unfolding close
  destroy k s = (close k s).0
