-- ===== src/Socket/Tests.antt =====
-- Runs of sockets on the loopback network, and the theorems at concrete inputs.
use cor_reactor.Base.{◌+◌, ◌-◌, ◌^◌, ◌≡◌, refl, List, [], ◌∷◌, none, some, true, false, ok, arith}
use cor_reactor.Base.Int.{pos}
use cor_reactor.FdManager.{FdCtx, FdManager, so_rcvtimeo, other_type}
use cor_reactor.Socket.{
  Socket, create_tcp_socket, create_udp_socket, create_udp_socket6, new_socket, is_valid, new_sock,
  opened, init_sock, set_option, ensure_open, get_local_address, local_found, get_remote_address,
  remote_found, bind, connect, connect_call, close, destroy, listen, accept, accepted, init,
  init_found, af_inet, sock_stream,
}
use cor_reactor.Socket.Opening.{Balance}
use cor_reactor.Socket.Runs.{
  Call, binds, connects, listens, closes, call, calls, IsSound, calls-destroy,
}
use cor_reactor.Socket.Accepting.{is_known, accept_lem}
use cor_reactor.Socket.Connecting.{Connected, connect_lem}
use cor_reactor.Socket.Timeouts.{
  set_socket_timeout, get_socket_timeout, get_socket_timeout-set_socket_timeout,
}
use cor_reactor.Socket.Loopback.{loopback, loopback-Counts, fresh, here, nowhere}

running : Unit {0}
unfolding loopback new_socket create_tcp_socket create_udp_socket create_udp_socket6 is_valid
    new_sock opened init_sock set_option ensure_open get_local_address local_found
    get_remote_address remote_found bind connect connect_call close destroy listen accept accepted
    init init_found call calls
running = tt

abbrev tcp : Socket
tcp = record {
  sock = none;
  family = af_inet;
  kind = sock_stream;
  protocol = 0;
  connected = false;
  local_address = none;
  remote_address = none;
}

-- A UDP socket counts as connected although no descriptor could be opened for it.
udp6_is_unsound : ¬ IsSound (create_udp_socket6 loopback fresh).1
unfolding running
udp6_is_unsound h = cc (h refl)

-- Closing an open socket answers no, closing it again yes.
closes_twice :
    ((close loopback fresh (record tcp { sock = some 3 })).1.1 ≡ false)
    × ((close loopback fresh tcp).1.1 ≡ true)
unfolding running
closes_twice = (refl, refl)

abbrev session : List Call
session = binds here ∷ listens 8 ∷ closes ∷ connects nowhere 100 ∷ connects here (2 ^ 64 - 1) ∷ []

session_opens_three : (calls loopback fresh tcp session).0 ≡ record { opened = 3; closed = 2 }
unfolding running
session_opens_three = refl

calls-destroy_example :
    let (k', s') = calls loopback fresh tcp session in
    IsSound s'
    × (loopback-Counts.made (destroy loopback k' s') + loopback-Counts.shut fresh
        ≡ loopback-Counts.made fresh + loopback-Counts.shut (destroy loopback k' s'))
calls-destroy_example = calls-destroy loopback loopback-Counts fresh tcp session refl refl

connect_lem_example : Connected loopback tcp here 100 fresh (connect loopback fresh tcp here 100)
connect_lem_example = connect_lem loopback fresh tcp here 100

accept_lem_example :
    let r = accept loopback fresh (record tcp { sock = some 3 }) in
    let o = loopback.find_ctx (loopback.accept_socket fresh (some 3)).0 3 in
    (is_known o ≡ true
      → (c : Socket) × (r.1 ≡ some c)
        × (c.sock ≡ some 3)
        × (c.connected ≡ true)
        × Balance loopback loopback-Counts fresh r.0 0 1)
    × (is_known o ≡ false
        → (r.1 ≡ none)
          × (loopback-Counts.made r.0 ≡ loopback-Counts.made fresh + 1)
          × (loopback-Counts.shut r.0 ≡ loopback-Counts.shut fresh))
unfolding loopback
accept_lem_example = accept_lem loopback loopback-Counts fresh (record tcp { sock = some 3 }) 3 refl

abbrev ctx : FdCtx
ctx = record {
  is_init = true;
  is_socket = true;
  sys_nonblock = true;
  user_nonblock = false;
  is_closed = false;
  fd = 0;
  recv_timeout = 2 ^ 64 - 1;
  send_timeout = 2 ^ 64 - 1;
}

abbrev one_fd : FdManager
one_fd = record { datas = some ctx ∷ [] }

get_socket_timeout-set_socket_timeout_example :
    (n : FdManager) × (set_socket_timeout true one_fd
        (record tcp { sock = some 0 })
        so_rcvtimeo
        1500
      ≡ ok n)
    × (get_socket_timeout n (record tcp { sock = some 0 }) so_rcvtimeo ≡ ok (pos 1500))
    × (get_socket_timeout n (record tcp { sock = some 0 }) other_type
        ≡ get_socket_timeout one_fd (record tcp { sock = some 0 }) other_type)
get_socket_timeout-set_socket_timeout_example =
    get_socket_timeout-set_socket_timeout one_fd (record tcp { sock = some 0 }) 0 ctx so_rcvtimeo
      1500 refl refl (omega arith)
