-- ===== src/Socket/Connecting.antt =====
-- src/socket.cpp: what connect leaves, and which addresses the socket reports afterwards.
use cor_reactor.Base.{
  ℕ, ◌≡◌, refl, ◌∙◌, ◌⊎◌, inl, inr, Option, none, some, Bool, true, false, ◌==◌, ==_iff, Bool-cases,
  Option-cases, some_eq,
}
use cor_reactor.Socket.{
  Socket, SocketAddress, Net, is_valid, new_sock, opened, ensure_open, get_local_address,
  get_remote_address, local_found, remote_found, connect, connect_call, close,
}

is_valid-same : (x y : Socket) → x.sock ≡ y.sock → is_valid y ≡ true → is_valid x ≡ true
unfolding is_valid
is_valid-same x y e v = rw e v

module _ {K : Type 0} (net : Net K) where
  -- What none of the calls below changes.
  record Kept (s s' : Socket) : Type 0 where
    family : s'.family ≡ s.family
    remote : s'.remote_address ≡ s.remote_address

  opened-Kept : (k : K) (s : Socket) (fd : Option ℕ) → Kept s (opened net k s fd).1
  unfolding opened
  opened-Kept k s none = record { family = refl; remote = refl }
  opened-Kept k s (some fd) = record { family = refl; remote = refl }

  ensure_open-Kept : (k : K) (s : Socket) → Kept s (ensure_open net k s).1
  unfolding ensure_open new_sock
  ensure_open-Kept k s = elim (Bool-cases (is_valid s)) [
    | inl v ↦ rw v (record { family = refl; remote = refl })
    | inr v ↦ rw v (opened-Kept _ s _)
  ]

  close_ends :
      (k : K) (s : Socket)
      → ((close net k s).1.0.sock ≡ none)
        × ((close net k s).1.0.connected ≡ false)
        × ((close net k s).1.0.remote_address ≡ s.remote_address)
        × (is_valid s ≡ true → (close net k s).1.1 ≡ false)
  unfolding close is_valid
  close_ends k s = elim (Option-cases s.sock) [
    | inl h ↦ rw h (refl, refl, refl, (λ e. cc e))
    | inr (fd, h) ↦ rw h (refl, refl, refl, (λ e. refl))
  ]

  local_same :
      (k : K) (s : Socket)
      → let s' = (get_local_address net k s).0 in
        (s'.sock ≡ s.sock) × (s'.connected ≡ s.connected) × (s'.remote_address ≡ s.remote_address)
  unfolding get_local_address local_found
  local_same k s = elim (Option-cases s.local_address) [
    | inr (a, h) ↦ rw h (refl, refl, refl)
    | inl h ↦ elim (Option-cases (net.sock_name k s.sock)) [
      | inr (bytes, e) ↦ rw (h, e) (refl, refl, refl)
      | inl e ↦ rw (h, e) (refl, refl, refl)
    ]
  ]

  remote_same :
      (k : K) (s : Socket)
      → let s' = (get_remote_address net k s).0 in
        (s'.sock ≡ s.sock)
        × (s'.connected ≡ s.connected)
        × ((a : SocketAddress)
            → s.remote_address ≡ some a
            → (s'.remote_address ≡ some a) × ((get_remote_address net k s).1 ≡ a))
  unfolding get_remote_address remote_found
  remote_same k s = elim (Option-cases s.remote_address) [
    | inr (b, h) ↦ rw h (refl, refl, (λ a e. (e, some_eq e)))
    | inl h ↦ elim (Option-cases (net.peer_name k s.sock)) [
      | inr (bytes, e) ↦ rw (h, e) (refl, refl, (λ a c. cc c))
      | inl e ↦ rw (h, e) (refl, refl, (λ a c. cc c))
    ]
  ]

  -- The call failed on the open socket, which was closed.
  pub record CallFailed (s : Socket) (a : SocketAddress) (t : ℕ) (k : K) (r : K × (Socket × Bool))
      : Type 0 where
    pub answer : (connect_call net (ensure_open net k s).0 (ensure_open net k s).1 a t).1 ≡ false
    pub after_close :
        r.0
        ≡ (close net
            (connect_call net (ensure_open net k s).0 (ensure_open net k s).1 a t).0
            (ensure_open net k s).1).0
    pub gone : r.1.0.sock ≡ none
    pub apart : r.1.0.connected ≡ false

  -- What connect leaves of a socket s.
  pub record Connected (s : Socket) (a : SocketAddress) (t : ℕ) (k : K) (r : K × (Socket × Bool))
      : Type 0 where
    pub succeeded :
        r.1.1 ≡ true
        → (r.1.0.connected ≡ true)
          × (r.1.0.sock ≡ (ensure_open net k s).1.sock)
          × (is_valid r.1.0 ≡ true)
          × (a.family ≡ s.family)
          × ((connect_call net (ensure_open net k s).0 (ensure_open net k s).1 a t).1 ≡ true)
    pub refused :
        r.1.1 ≡ false
        → ((r.0 ≡ (ensure_open net k s).0)
            × (r.1.0 ≡ (ensure_open net k s).1)
            × ((is_valid (ensure_open net k s).1 ≡ false)
                ⊎ ((a.family == (ensure_open net k s).1.family) ≡ false)))
          ⊎ CallFailed s a t k r
    pub remote :
        (old : SocketAddress) → s.remote_address ≡ some old → r.1.0.remote_address ≡ some old

  -- connect on any socket: where it reports success, the socket is connected, through the descriptor
  -- that it had or that was opened for it, the address is of the socket's family, and the call of
  -- connect succeeded. Where it reports failure, either nothing was done after the socket was opened,
  -- because it could not be or because the families differ, or the call failed, the state is that
  -- after close of the socket, and the socket has no descriptor and is not connected. A remote address
  -- that the socket had is kept.
  pub connect_lem :
      (k : K) (s : Socket) (a : SocketAddress) (t : ℕ) → Connected s a t k (connect net k s a t)
  unfolding connect
  connect_lem k s a t =
      let (k', s') = ensure_open net k s in
      let kept = ensure_open-Kept k s in
      elim (Bool-cases (is_valid s')) [
        | inr v ↦ rw v (unchanged kept (inl v))
        | inl v ↦ elim (Bool-cases (a.family == s'.family)) [
          | inr f ↦ rw (v, f) (unchanged kept (inr f))
          | inl f ↦
              let k'' = (connect_call net k' s' a t).0 in
              elim (Bool-cases (connect_call net k' s' a t).1) [
                | inr d ↦
                    let (gone, apart, same, reports) = close_ends k'' s' in
                    rw (v, f, d)
                      (record {
                        succeeded = λ e. cc e;
                        refused = λ e.
                            inr (record {
                              answer = d;
                              after_close = refl;
                              gone = gone;
                              apart = apart;
                            });
                        remote = λ old h. same ∙ kept.remote ∙ h;
                      })
                | inl d ↦
                    let s'' : Socket = record s' { connected = true } in
                    let (sock, connected, stays) = remote_same k'' s'' in
                    let (sock', connected', stays') =
                      local_same k'' (get_remote_address net k'' s'').0 in
                    let last = (get_local_address net k'' (get_remote_address net k'' s'').0).0 in
                    rw (v, f, d)
                      (record {
                        succeeded = λ e. (
                          connected' ∙ connected,
                          sock' ∙ sock,
                          is_valid-same last s' (sock' ∙ sock) v,
                          (==_iff a.family s'.family).0 f ∙ kept.family,
                          d,
                        );
                        refused = λ e. cc e;
                        remote = λ old h. stays' ∙ (stays old (kept.remote ∙ h)).0;
                      })
              ]
        ]
      ]
    where
      unchanged :
          Kept s (ensure_open net k s).1
          → (is_valid (ensure_open net k s).1 ≡ false)
            ⊎ ((a.family == (ensure_open net k s).1.family) ≡ false)
          → Connected s a t k ((ensure_open net k s).0, ((ensure_open net k s).1, false))
      unchanged kept why = record {
        succeeded = λ e. cc e;
        refused = λ e. inl (refl, refl, why);
        remote = λ old h. kept.remote ∙ h;
      }

  -- The socket was connected to `old` and reported it: closed and connected to another address, it
  -- still reports the old one.
  pub get_remote_address-connect :
      (k k' k'' : K) (s : Socket) (old a : SocketAddress) (t : ℕ)
      → s.remote_address ≡ some old
      → (get_remote_address net k'' (connect net k' (close net k s).1.0 a t).1.0).1 ≡ old
  get_remote_address-connect k k' k'' s old a t h =
      let (gone, apart, same, reports) = close_ends k s in
      let r = connect_lem k' (close net k s).1.0 a t in
      let (sock, connected, reported) =
        remote_same k'' (connect net k' (close net k s).1.0 a t).1.0 in
      (reported old (r.remote old (same ∙ h))).1
