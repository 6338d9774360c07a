-- ===== src/TcpServer/Binding.antt =====
-- src/tcp_server.cpp: bind of several addresses.
use cor_reactor.Base.{
  ℕ, ◌+◌, ◌≡◌, List, [], ◌∷◌, ◌++◌, All, Option, none, some, Bool, true, false, if◌then◌else◌,
  length,
}
use cor_reactor.Socket.{Socket, SocketAddress, Net, is_valid}
use cor_reactor.Socket.Opening.{held, Counts, Balance}
use cor_reactor.TcpServer.{TcpServer, is_empty}

-- The descriptors of several sockets.
abbrev pub total : List Socket → ℕ
total [] = 0
total (s ∷ ss) = held s + total ss

-- The descriptors of those that somebody else keeps.
abbrev pub total_kept : (Socket → Bool) → List Socket → ℕ
total_kept kept [] = 0
total_kept kept (s ∷ ss) = (if kept s then held s else 0) + total_kept kept ss

abbrev held_of : Option Socket → ℕ
held_of none = 0
held_of (some s) = held s

-- What bind of `addrs` makes of a server whose caller's `fails` was empty.
pub record BoundAll {K : Type 0} (net : Net K) (counts : Counts net) (kept : Socket → Bool) (k : K)
    (t : TcpServer) (addrs : List SocketAddress) (r : K × (TcpServer × (List SocketAddress × Bool)))
    : Type 0 where
  pub answer : r.1.1.1 ≡ is_empty r.1.1.0
  pub succeeded :
      r.1.1.1 ≡ true
      → (ss : List Socket) × (r.1.0.socks ≡ t.socks ++ ss)
        × (length ss ≡ length addrs)
        × All (λ s. is_valid s ≡ true) ss
  pub balance : r.1.1.1 ≡ true → Balance net counts k r.0 (total t.socks) (total r.1.0.socks)
  pub failed :
      r.1.1.1 ≡ false
      → (r.1.0.socks ≡ []) × Balance net counts k r.0 (total t.socks) (total_kept kept t.socks)
