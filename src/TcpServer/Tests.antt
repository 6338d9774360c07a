-- ===== src/TcpServer/Tests.antt =====
-- Runs of the server on the loopback network, and the theorem at a concrete input.
use cor_reactor.Base.{Bool, ◌≡◌, refl, [], ◌∷◌, some, true, false, length}
use cor_reactor.Socket.{
  Socket, create_tcp, new_socket, is_valid, new_sock, opened, init_sock, set_option, ensure_open,
  get_local_address, local_found, get_remote_address, remote_found, bind, close, destroy, listen,
  accept, accepted, init, init_found, set_recv_timeout,
}
use cor_reactor.Socket.Loopback.{loopback, fresh, here, nowhere}
use cor_reactor.TcpServer.{
  TcpServer, listened, bound, bind_one, noted, bind_each, drop_each, bind_all, start_accept,
  started,
}

running : Unit {0}
unfolding loopback new_socket create_tcp is_valid new_sock opened init_sock set_option ensure_open
    get_local_address local_found get_remote_address remote_found bind close destroy listen accept
    accepted init init_found set_recv_timeout listened bound bind_one noted bind_each drop_each
    bind_all start_accept started
running = tt

abbrev idle_server : TcpServer
idle_server = record { socks = []; recv_timeout = 120000; is_stop = true }

abbrev nobody : Socket → Bool
nobody s = false

-- One address of two cannot be bound: both sockets are closed.
binds_none :
    (bind_all loopback nobody fresh idle_server (here ∷ nowhere ∷ []) []).0
    ≡ record { opened = 2; closed = 2 }
unfolding running
binds_none = refl

-- startAccept takes two clients before it sees that the server stopped.
accepts_two :
    length
      (start_accept loopback fresh idle_server
        (record (create_tcp here) { sock = some 3 })
        (false ∷ false ∷ true ∷ false ∷ [])).1
    ≡ 2
unfolding running
accepts_two = refl

-- A server whose socket is with a task of startAccept.
abbrev accepting : TcpServer
accepting = record idle_server { socks = record (create_tcp here) { sock = some 3 } ∷ [] }
