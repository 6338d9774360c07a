-- ===== src/Socket/Loopback.antt =====
-- A network for runs of sockets: it has IPv4 only, refuses to bind an address without bytes, accepts
-- a connection whenever it is asked, and knows the descriptors below 10.
use cor_reactor.Base.{
  ℕ, ◌+◌, ◌-◌, ◌^◌, ◌≡◌, refl, List, [], ◌∷◌, Option, none, some, Bool, true, false, ltb, ◌==◌,
  if◌then◌else◌, arith,
}
use cor_reactor.FdManager.{FdCtx}
use cor_reactor.Socket.{SocketAddress, Net, af_inet}
use cor_reactor.Socket.Opening.{held_by, Counts}

pub record Kernel : Type 0 where
  pub opened : ℕ
  pub closed : ℕ

open_if : Bool → Kernel → Kernel × Option ℕ
open_if true k = (record k { opened = k.opened + 1 }, some (3 + k.opened))
open_if false k = (k, none)

has_bytes : List ℕ → Bool
has_bytes [] = false
has_bytes (b ∷ bs) = true

-- What is known of a socket.
abbrev known : ℕ → FdCtx
known fd = record {
  is_init = true;
  is_socket = true;
  sys_nonblock = true;
  user_nonblock = false;
  is_closed = false;
  fd = fd;
  recv_timeout = 2 ^ 64 - 1;
  send_timeout = 2 ^ 64 - 1;
}

unfoldable pub loopback : Net Kernel
unfolding open_if has_bytes
loopback = record {
  open_socket = λ k f t p. open_if (f == af_inet) k;
  accept_socket = λ k s. open_if true k;
  bind_socket = λ k s a. (k, has_bytes a.bytes);
  listen_socket = λ k s n. (k, true);
  connect_socket = λ k s a. (k, has_bytes a.bytes);
  connect_with_timeout = λ k s a t. (k, has_bytes a.bytes);
  close_socket = λ k fd. record k { closed = k.closed + 1 };
  setsockopt = λ k s o v. (k, true);
  peer_name = λ k s. some (7 ∷ []);
  sock_name = λ k s. some (8 ∷ []);
  find_ctx = λ k fd. if ltb fd 10 then some (known fd) else none;
  cancel_all = λ k s. (k, true);
}

pub loopback-Counts : Counts loopback
unfolding loopback open_if
loopback-Counts = record {
  made = λ k. k.opened;
  shut = λ k. k.closed;
  open_made = λ k f t p. made (f == af_inet) k;
  open_shut = λ k f t p. shut (f == af_inet) k;
  accept_made = λ k s. refl;
  accept_shut = λ k s. refl;
  close_made = λ k fd. refl;
  close_shut = λ k fd. refl;
  bind_made = λ k s a. refl;
  bind_shut = λ k s a. refl;
  listen_made = λ k s n. refl;
  listen_shut = λ k s n. refl;
  connect_made = λ k s a. refl;
  connect_shut = λ k s a. refl;
  timed_made = λ k s a t. refl;
  timed_shut = λ k s a t. refl;
  option_made = λ k s o v. refl;
  option_shut = λ k s o v. refl;
}
  where
    made : (b : Bool) (k : Kernel) → (open_if b k).0.opened ≡ k.opened + held_by (open_if b k).1
    made true k = refl
    made false k = omega arith

    shut : (b : Bool) (k : Kernel) → (open_if b k).0.closed ≡ k.closed
    shut true k = refl
    shut false k = refl

abbrev pub fresh : Kernel
fresh = record { opened = 0; closed = 0 }

-- An address that can be bound, and one that cannot.
abbrev pub here : SocketAddress
here = record { family = af_inet; bytes = 127 ∷ [] }

abbrev pub nowhere : SocketAddress
nowhere = record { family = af_inet; bytes = [] }
