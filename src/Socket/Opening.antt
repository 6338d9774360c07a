-- ===== src/Socket/Opening.antt =====
-- src/socket.cpp: what becomes of the descriptors that a socket opens.
use cor_reactor.Base.{
  ℕ, ◌+◌, ◌≡◌, refl, ◌∙◌, inl, inr, List, [], ◌∷◌, Option, none, some, ◌==◌, Bool-cases,
  Option-cases, arith,
}
use cor_reactor.Socket.{
  Socket, SocketAddress, SocketOption, Net, is_valid, init_sock, new_sock, opened, set_option,
  sock_stream, so_reuseaddr, tcp_nodelay, ensure_open, get_local_address, get_remote_address,
  local_found, remote_found,
}

-- The descriptors that an answer or a socket holds.
abbrev pub held_by : Option ℕ → ℕ
held_by none = 0
held_by (some fd) = 1

abbrev pub held : Socket → ℕ
held s = held_by s.sock

-- Two counters that follow the calls: `made` the descriptors that socket and accept returned, and
-- `shut` the calls of close.
pub record Counts {K : Type 0} (net : Net K) : Type 0 where
  pub made : K → ℕ
  pub shut : K → ℕ
  pub open_made :
      (k : K) (f t p : ℕ)
      → made (net.open_socket k f t p).0 ≡ made k + held_by (net.open_socket k f t p).1
  pub open_shut : (k : K) (f t p : ℕ) → shut (net.open_socket k f t p).0 ≡ shut k
  pub accept_made :
      (k : K) (s : Option ℕ)
      → made (net.accept_socket k s).0 ≡ made k + held_by (net.accept_socket k s).1
  pub accept_shut : (k : K) (s : Option ℕ) → shut (net.accept_socket k s).0 ≡ shut k
  pub close_made : (k : K) (fd : ℕ) → made (net.close_socket k fd) ≡ made k
  pub close_shut : (k : K) (fd : ℕ) → shut (net.close_socket k fd) ≡ shut k + 1
  pub bind_made :
      (k : K) (s : Option ℕ) (a : SocketAddress) → made (net.bind_socket k s a).0 ≡ made k
  pub bind_shut :
      (k : K) (s : Option ℕ) (a : SocketAddress) → shut (net.bind_socket k s a).0 ≡ shut k
  pub listen_made : (k : K) (s : Option ℕ) (n : ℕ) → made (net.listen_socket k s n).0 ≡ made k
  pub listen_shut : (k : K) (s : Option ℕ) (n : ℕ) → shut (net.listen_socket k s n).0 ≡ shut k
  pub connect_made :
      (k : K) (s : Option ℕ) (a : SocketAddress) → made (net.connect_socket k s a).0 ≡ made k
  pub connect_shut :
      (k : K) (s : Option ℕ) (a : SocketAddress) → shut (net.connect_socket k s a).0 ≡ shut k
  pub timed_made :
      (k : K) (s : Option ℕ) (a : SocketAddress) (t : ℕ)
      → made (net.connect_with_timeout k s a t).0 ≡ made k
  pub timed_shut :
      (k : K) (s : Option ℕ) (a : SocketAddress) (t : ℕ)
      → shut (net.connect_with_timeout k s a t).0 ≡ shut k
  pub option_made :
      (k : K) (s : Option ℕ) (o : SocketOption) (v : List ℕ)
      → made (net.setsockopt k s o v).0 ≡ made k
  pub option_shut :
      (k : K) (s : Option ℕ) (o : SocketOption) (v : List ℕ)
      → shut (net.setsockopt k s o v).0 ≡ shut k

module _ {K : Type 0} (net : Net K) (counts : Counts net) where
  -- Between k and k' a holder that had `before` descriptors and has `after` lost none of them.
  pub record Balance (k k' : K) (before after : ℕ) : Type 0 where
    pub kept : counts.made k' + counts.shut k + before ≡ counts.made k + counts.shut k' + after

  pub unchanged :
      (k k' : K) (n : ℕ)
      → counts.made k' ≡ counts.made k
      → counts.shut k' ≡ counts.shut k
      → Balance k k' n n
  unchanged k k' n a b = record { kept = omega (arith, a, b) }

  pub Balance-trans :
      (k k' k'' : K) (a b c : ℕ) → Balance k k' a b → Balance k' k'' b c → Balance k k'' a c
  Balance-trans k k' k'' a b c p q = record { kept = omega (arith, p.kept, q.kept) }

  pub init_sock-Balance : (k : K) (s : Socket) (n : ℕ) → Balance k (init_sock net k s) n n
  unfolding init_sock set_option
  init_sock-Balance k s n =
      let one = 1 ∷ 0 ∷ 0 ∷ 0 ∷ [] in
      let k' = (net.setsockopt k s.sock so_reuseaddr one).0 in
      let a = counts.option_made k s.sock so_reuseaddr one in
      let b = counts.option_shut k s.sock so_reuseaddr one in
      elim (Bool-cases (s.kind == sock_stream)) [
        | inl h ↦ rw h (
            unchanged k _ n (counts.option_made k' s.sock tcp_nodelay one ∙ a)
              (counts.option_shut k' s.sock tcp_nodelay one ∙ b))
        | inr h ↦ rw h (unchanged k k' n a b)
      ]

  opened-Balance :
      (k k' : K) (s : Socket) (fd : Option ℕ)
      → Balance k k' 0 (held_by fd)
      → Balance k (opened net k' s fd).0 0 (held (opened net k' s fd).1)
  unfolding opened
  opened-Balance k k' s none b = b
  opened-Balance k k' s (some fd) b =
      Balance-trans k k' _ 0 1 1 b (init_sock-Balance k' (record s { sock = some fd }) 1)

  pub new_sock-Balance :
      (k : K) (s : Socket) → Balance k (new_sock net k s).0 0 (held (new_sock net k s).1)
  unfolding new_sock
  new_sock-Balance k s =
      let (k', fd) = net.open_socket k s.family s.kind s.protocol in
      opened-Balance k k' s fd (record {
        kept = omega (
          arith,
          counts.open_made k s.family s.kind s.protocol,
          counts.open_shut k s.family s.kind s.protocol,
        );
      })

  pub ensure_open-Balance :
      (k : K) (s : Socket)
      → Balance k (ensure_open net k s).0 (held s) (held (ensure_open net k s).1)
  unfolding ensure_open is_valid
  ensure_open-Balance k s = elim (Option-cases s.sock) [
    | inr (fd, h) ↦ rw h (record { kept = refl })
    | inl h ↦ rw h (new_sock-Balance k s)
  ]

  pub get_local_address-sock :
      (k : K) (s : Socket)
      → ((get_local_address net k s).0.sock ≡ s.sock)
        × ((get_local_address net k s).0.connected ≡ s.connected)
  unfolding get_local_address local_found
  get_local_address-sock k s = elim (Option-cases s.local_address) [
    | inr (a, h) ↦ rw h (refl, refl)
    | inl h ↦ elim (Option-cases (net.sock_name k s.sock)) [
      | inr (bytes, e) ↦ rw (h, e) (refl, refl)
      | inl e ↦ rw (h, e) (refl, refl)
    ]
  ]

  pub get_remote_address-sock :
      (k : K) (s : Socket)
      → ((get_remote_address net k s).0.sock ≡ s.sock)
        × ((get_remote_address net k s).0.connected ≡ s.connected)
  unfolding get_remote_address remote_found
  get_remote_address-sock k s = elim (Option-cases s.remote_address) [
    | inr (a, h) ↦ rw h (refl, refl)
    | inl h ↦ elim (Option-cases (net.peer_name k s.sock)) [
      | inr (bytes, e) ↦ rw (h, e) (refl, refl)
      | inl e ↦ rw (h, e) (refl, refl)
    ]
  ]
