-- ===== src/TcpServer.antt =====
-- include/tcp_server.h and src/tcp_server.cpp: the server, on the sockets of a `Net`.
-- The objects that a task owns (the server and a socket) live until it has run. A socket that the
-- last pointer leaves is destroyed, which closes it; `kept` says of which sockets somebody else still
-- has a pointer, as a task of startAccept has after start. What a worker is given is a list of tasks; the
-- values that the loop of startAccept reads from m_isStop, in order, are an argument.
pub mod Binding
mod Tests
use mathlib.Core.List.{map}
use cor_reactor.Base.{
  ℕ, List, [], ◌∷◌, ◌++◌, Option, none, some, Bool, true, false, not, if◌then◌else◌,
}
use cor_reactor.Socket.{
  Socket, SocketAddress, Net, create_tcp, bind, listen, accept, close, cancel_all, destroy,
  set_recv_timeout,
}

pub record TcpServer : Type 0 where
  pub socks : List Socket
  pub recv_timeout : ℕ
  pub is_stop : Bool

-- What the server schedules: startAccept and handleClient with their socket, and the end of stop.
pub data Task : Type 0 where
  start_accept_on : Socket → Task
  handle_client_of : Socket → Task
  close_socks : Task

-- TcpServer::TcpServer, with the timeout of the configuration.
unfoldable pub tcp_server : ℕ → TcpServer
tcp_server timeout = record { socks = []; recv_timeout = timeout; is_stop = true }

-- SOMAXCONN, the backlog of listen.
abbrev pub somaxconn : ℕ
somaxconn = 4096

abbrev pub is_empty : List SocketAddress → Bool
is_empty [] = true
is_empty (a ∷ rest) = false

-- start: what goes to the accept worker.
unfoldable pub start : TcpServer → TcpServer × List Task
start t =
    if not t.is_stop then (t, []) else (record t { is_stop = false }, map start_accept_on t.socks)

-- stop
unfoldable pub stop : TcpServer → TcpServer × List Task
stop t = (record t { is_stop = true }, close_socks ∷ [])

module _ {K : Type 0} (net : Net K) where
  -- A round of the loop of bind: the socket that listens, or none.
  listened : K × Bool → Socket → K × Option Socket
  listened (k, done) s = if done then (k, some s) else (destroy net k s, none)

  bound : K × (Socket × Bool) → K × Option Socket
  unfolding listened
  bound (k, (s, done)) =
      if done then listened (listen net k s somaxconn) s else (destroy net k s, none)

  unfoldable pub bind_one : K → SocketAddress → K × Option Socket
  unfolding bound
  bind_one k a = bound (bind net k (create_tcp a) a)

  noted :
      SocketAddress
      → Option Socket
      → List Socket × List SocketAddress
      → List Socket × List SocketAddress
  noted a none (ss, fails) = (ss, a ∷ fails)
  noted a (some s) (ss, fails) = (s ∷ ss, fails)

  -- The loop of bind: the sockets and the addresses that failed.
  unfoldable pub bind_each : K → List SocketAddress → K × (List Socket × List SocketAddress)
  unfolding bind_one noted
  bind_each k [] = (k, ([], []))
  bind_each k (a ∷ rest) =
      let (k', s) = bind_one k a in let (k'', found) = bind_each k' rest in (k'', noted a s found)

  -- `m_socks.clear()`: the sockets that nobody else keeps are destroyed.
  unfoldable pub drop_each : (Socket → Bool) → K → List Socket → K
  drop_each kept k [] = k
  drop_each kept k (s ∷ ss) = drop_each kept (if kept s then k else destroy net k s) ss

  -- bind of several addresses, with what the caller's `fails` held; and its answer. The sockets that
  -- this call made are in no task yet.
  unfoldable pub bind_all :
      (Socket → Bool)
      → K
      → TcpServer
      → List SocketAddress
      → List SocketAddress
      → K × (TcpServer × (List SocketAddress × Bool))
  unfolding bind_each drop_each
  bind_all kept k t addrs fails =
      let (k', (ss, failed)) = bind_each k addrs in
      if is_empty (fails ++ failed)
      then (k', (record t { socks = t.socks ++ ss }, (fails ++ failed, true)))
      else (
        drop_each (λ s. false) (drop_each kept k' t.socks) ss,
        (record t { socks = [] }, (fails ++ failed, false)),
      )

  -- bind of one address
  unfoldable pub bind_address :
      (Socket → Bool) → K → TcpServer → SocketAddress → K × (TcpServer × Bool)
  unfolding bind_all
  bind_address kept k t a =
      let (k', (t', (fails, done))) = bind_all kept k t (a ∷ []) [] in (k', (t', done))

  started : K → ℕ → Option Socket → K
  started k timeout none = k
  started k timeout (some client) = set_recv_timeout net k client timeout

  -- startAccept: the clients, with the server's timeout, go to the worker.
  unfoldable pub start_accept : K → TcpServer → Socket → List Bool → K × List Task
  unfolding started
  start_accept k t s [] = (k, [])
  start_accept k t s (true ∷ stops) = (k, [])
  start_accept k t s (false ∷ stops) =
      let (k', client) = accept net k s in
      let (k'', tasks) = start_accept (started k' t.recv_timeout client) t s stops in
      (k'', elim client [ none ↦ tasks | some c ↦ handle_client_of c ∷ tasks ])

  -- ~TcpServer
  unfoldable pub close_each : K → List Socket → K
  close_each k [] = k
  close_each k (s ∷ ss) = close_each (close net k s).0 ss

  -- The task of stop.
  unfoldable pub close_all : K → List Socket → K
  close_all k [] = k
  close_all k (s ∷ ss) = close_all (close net (cancel_all net k s).0 s).0 ss
