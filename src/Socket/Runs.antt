-- ===== src/Socket/Runs.antt =====
-- src/socket.cpp: any sequence of bind, connect, listen and close on a socket.
use cor_reactor.Base.{
  ℕ, ◌+◌, ◌-◌, ◌^◌, ◌≡◌, refl, sym, ap, ◌∙◌, inl, inr, List, [], ◌∷◌, Option, none, some, true,
  false, ◌==◌, Bool-cases, Option-cases, arith,
}
use cor_reactor.Socket.{
  Socket, SocketAddress, Net, is_valid, new_sock, opened, ensure_open, get_local_address,
  get_remote_address, bind, connect, connect_call, close, listen, destroy,
}
use cor_reactor.Socket.Opening.{
  held, held_by, Counts, Balance, Balance-trans, unchanged, ensure_open-Balance,
  get_local_address-sock, get_remote_address-sock,
}

-- A connected socket has a descriptor.
abbrev pub IsSound : Socket → Type 0
IsSound s = s.connected ≡ true → is_valid s ≡ true

-- A call of a client.
pub data Call : Type 0 where
  binds : SocketAddress → Call
  connects : SocketAddress → ℕ → Call
  listens : ℕ → Call
  closes : Call

module _ {K : Type 0} (net : Net K) where
  unfoldable pub call : K → Socket → Call → K × Socket
  unfolding bind connect listen close
  call k s (binds a) = let (k', (s', done)) = bind net k s a in (k', s')
  call k s (connects a timeout_ms) = let (k', (s', done)) = connect net k s a timeout_ms in (k', s')
  call k s (listens backlog) = ((listen net k s backlog).0, s)
  call k s closes = let (k', (s', done)) = close net k s in (k', s')

  unfoldable pub calls : K → Socket → List Call → K × Socket
  unfolding call
  calls k s [] = (k, s)
  calls k s (c ∷ cs) = let (k', s') = call k s c in calls k' s' cs

module _ {K : Type 0} (net : Net K) (counts : Counts net) where
  pub record Keeps (k : K) (s : Socket) (k' : K) (s' : Socket) : Type 0 where
    pub balance : Balance net counts k k' (held s) (held s')
    pub sound : IsSound s → IsSound s'

  Keeps-trans :
      (k : K) (s : Socket) (k' : K) (s' : Socket) (k'' : K) (s'' : Socket)
      → Keeps k s k' s'
      → Keeps k' s' k'' s''
      → Keeps k s k'' s''
  Keeps-trans k s k' s' k'' s'' p q = record {
    balance = Balance-trans net counts k k' k'' (held s) (held s') (held s'') p.balance q.balance;
    sound = λ h. q.sound (p.sound h);
  }

  -- A call that changes neither the descriptor nor the connection.
  same_socket :
      (k k' : K) (s s' : Socket)
      → counts.made k' ≡ counts.made k
      → counts.shut k' ≡ counts.shut k
      → s'.sock ≡ s.sock
      → s'.connected ≡ s.connected
      → Keeps k s k' s'
  unfolding is_valid
  same_socket k k' s s' a b c d = record {
    balance = record { kept = omega (arith, a, b, ap held_by c) };
    sound = λ h e. rw c (h (sym d ∙ e));
  }

  opened_connected :
      (k : K) (s : Socket) (fd : Option ℕ) → (opened net k s fd).1.connected ≡ s.connected
  unfolding opened
  opened_connected k s none = refl
  opened_connected k s (some fd) = refl

  ensure_open-IsSound : (k : K) (s : Socket) → IsSound s → IsSound (ensure_open net k s).1
  unfolding ensure_open new_sock
  ensure_open-IsSound k s h = elim (Bool-cases (is_valid s)) [
    | inl v ↦ rw v h
    | inr v ↦ rw v (λ e. absurd (cc (v, h (sym (opened_connected _ s _) ∙ e))))
  ]

  ensure_open-Keeps :
      (k : K) (s : Socket) → Keeps k s (ensure_open net k s).0 (ensure_open net k s).1
  ensure_open-Keeps k s = record {
    balance = ensure_open-Balance net counts k s;
    sound = ensure_open-IsSound k s;
  }

  pub bind-Keeps :
      (k : K) (s : Socket) (a : SocketAddress) → Keeps k s (bind net k s a).0 (bind net k s a).1.0
  unfolding bind
  bind-Keeps k s a =
      let (k', s') = ensure_open net k s in
      let first = ensure_open-Keeps k s in
      let made = counts.bind_made k' s'.sock a in
      let shut = counts.bind_shut k' s'.sock a in
      elim (Bool-cases (is_valid s')) [
        | inr v ↦ rw v first
        | inl v ↦ elim (Bool-cases (a.family == s'.family)) [
          | inr f ↦ rw (v, f) first
          | inl f ↦
              let k'' = (net.bind_socket k' s'.sock a).0 in
              elim (Bool-cases (net.bind_socket k' s'.sock a).1) [
                | inr d ↦
                    rw (v, f, d)
                      (Keeps-trans k s k' s' k'' s' first
                        (same_socket k' k'' s' s' made shut refl refl))
                | inl d ↦
                    let s'' = (get_local_address net k'' s').0 in
                    let (same, connected) = get_local_address-sock net counts k'' s' in
                    rw (v, f, d)
                      (Keeps-trans k s k' s' k'' s'' first
                        (same_socket k' k'' s' s'' made shut same connected))
              ]
        ]
      ]

  close-Keeps : (k : K) (s : Socket) → Keeps k s (close net k s).0 (close net k s).1.0
  unfolding close is_valid
  close-Keeps k s = elim (Option-cases s.sock) [
    | inl h ↦ rw h (record { balance = record { kept = refl }; sound = λ i e. cc e })
    | inr (fd, h) ↦ rw h (record {
      balance = record { kept = omega (arith, counts.close_made k fd, counts.close_shut k fd) };
      sound = λ i e. cc e;
    })
  ]

  connect_call_counts :
      (k : K) (s : Socket) (a : SocketAddress) (t : ℕ)
      → (counts.made (connect_call net k s a t).0 ≡ counts.made k)
        × (counts.shut (connect_call net k s a t).0 ≡ counts.shut k)
  unfolding connect_call
  connect_call_counts k s a t = elim (Bool-cases (t == 2 ^ 64 - 1)) [
    | inl h ↦ rw h (counts.connect_made k s.sock a, counts.connect_shut k s.sock a)
    | inr h ↦ rw h (counts.timed_made k s.sock a t, counts.timed_shut k s.sock a t)
  ]

  named_same :
      (k : K) (s : Socket) → Keeps k s k (get_local_address net k (get_remote_address net k s).0).0
  named_same k s =
      let s' = (get_remote_address net k s).0 in
      let (same, connected) = get_remote_address-sock net counts k s in
      let (same', connected') = get_local_address-sock net counts k s' in
      same_socket k k s _ refl refl (same' ∙ same) (connected' ∙ connected)

  connect-Keeps :
      (k : K) (s : Socket) (a : SocketAddress) (t : ℕ)
      → Keeps k s (connect net k s a t).0 (connect net k s a t).1.0
  unfolding connect
  connect-Keeps k s a t =
      let (k', s') = ensure_open net k s in
      let first = ensure_open-Keeps k s in
      let (made, shut) = connect_call_counts k' s' a t in
      elim (Bool-cases (is_valid s')) [
        | inr v ↦ rw v first
        | inl v ↦ elim (Bool-cases (a.family == s'.family)) [
          | inr f ↦ rw (v, f) first
          | inl f ↦
              let k'' = (connect_call net k' s' a t).0 in
              elim (Bool-cases (connect_call net k' s' a t).1) [
                | inr d ↦
                    let tried =
                      Keeps-trans k s k' s' k'' s' first
                        (same_socket k' k'' s' s' made shut refl refl) in
                    rw (v, f, d) (Keeps-trans k s k'' s' _ _ tried (close-Keeps k'' s'))
                | inl d ↦
                    let s'' : Socket = record s' { connected = true } in
                    let joined : Keeps k' s' k'' s'' = record {
                      balance = unchanged net counts k' k'' (held s') made shut;
                      sound = λ i e. v;
                    } in
                    rw (v, f, d)
                      (Keeps-trans k s k'' s'' k'' _ (Keeps-trans k s k' s' k'' s'' first joined)
                        (named_same k'' s''))
              ]
        ]
      ]

  pub listen-Keeps : (k : K) (s : Socket) (n : ℕ) → Keeps k s (listen net k s n).0 s
  unfolding listen
  listen-Keeps k s n = elim (Bool-cases (is_valid s)) [
    | inl v ↦ rw v (
        same_socket k _ s s (counts.listen_made k s.sock n) (counts.listen_shut k s.sock n) refl
          refl)
    | inr v ↦ rw v (same_socket k k s s refl refl refl refl)
  ]

  call-Keeps : (k : K) (s : Socket) (c : Call) → Keeps k s (call net k s c).0 (call net k s c).1
  unfolding call
  call-Keeps k s (binds a) = bind-Keeps k s a
  call-Keeps k s (connects a t) = connect-Keeps k s a t
  call-Keeps k s (listens n) = listen-Keeps k s n
  call-Keeps k s closes = close-Keeps k s

  calls-Keeps :
      (k : K) (s : Socket) (cs : List Call) → Keeps k s (calls net k s cs).0 (calls net k s cs).1
  unfolding calls
  calls-Keeps k s [] = same_socket k k s s refl refl refl refl
  calls-Keeps k s (c ∷ cs) =
      let (k', s') = call net k s c in
      Keeps-trans k s k' s' _ _ (call-Keeps k s c) (calls-Keeps k' s' cs)

  pub destroy-Balance : (k : K) (s : Socket) → Balance net counts k (destroy net k s) (held s) 0
  unfolding destroy close
  destroy-Balance k s = elim (Option-cases s.sock) [
    | inl h ↦ rw h (record { kept = refl })
    | inr (fd, h) ↦
        rw h (record { kept = omega (arith, counts.close_made k fd, counts.close_shut k fd) })
  ]

  -- Where the counters follow the calls: after any sequence of bind, connect, listen and close on a
  -- socket that holds no descriptor and is not connected, a connected socket has a descriptor; and
  -- once the socket is destroyed as many descriptors were closed as were opened, whatever the calls
  -- answered.
  pub calls-destroy :
      (k : K) (s : Socket) (cs : List Call)
      → s.sock ≡ none
      → s.connected ≡ false
      → let (k', s') = calls net k s cs in
        IsSound s'
        × (counts.made (destroy net k' s') + counts.shut k
            ≡ counts.made k + counts.shut (destroy net k' s'))
  calls-destroy k s cs h e =
      let (k', s') = calls net k s cs in
      let kept = calls-Keeps k s cs in
      let gone =
        Balance-trans net counts k k' (destroy net k' s') (held s) (held s') 0 kept.balance
          (destroy-Balance k' s') in
      (kept.sound (λ c. absurd (cc (c, e))), omega (arith, gone.kept, ap held_by h))
