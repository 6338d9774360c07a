-- ===== src/Socket/Accepting.antt =====
-- src/socket.cpp: accept and init.
use cor_reactor.Base.{
  ℕ, ◌+◌, ◌≡◌, refl, ap, ◌∙◌, inl, inr, Option, none, some, Bool, true, false, ◌&&◌, not,
  Bool-cases, arith,
}
use cor_reactor.FdManager.{FdCtx}
use cor_reactor.Socket.{
  Socket, Net, new_socket, init_sock, init, init_found, accept, accepted, get_local_address,
}
use cor_reactor.Socket.Opening.{
  held_by, Counts, Balance, init_sock-Balance, get_local_address-sock, get_remote_address-sock,
}

-- A descriptor that FdMgr knows as a socket that is not closed.
abbrev pub is_known : Option FdCtx → Bool
is_known none = false
is_known (some c) = c.is_socket && not c.is_closed

module _ {K : Type 0} (net : Net K) (counts : Counts net) where
  -- The descriptor fd of a connection, accepted in state k with FdMgr's answer o.
  accepted_lem :
      (k : K) (s : Socket) (fd : ℕ) (o : Option FdCtx)
      → let r = init_found net k (new_socket s.family s.kind s.protocol) fd o in
        (is_known o ≡ true
          → (r.1.1 ≡ true)
            × (r.1.0.sock ≡ some fd)
            × (r.1.0.connected ≡ true)
            × Balance net counts k r.0 1 1)
        × (is_known o ≡ false → (r.1.1 ≡ false) × (r.0 ≡ k))
  unfolding init_found new_socket
  accepted_lem k s fd none = ((λ h. cc h), (λ h. (refl, refl)))
  accepted_lem k s fd (some c) = elim (Bool-cases (c.is_socket && not c.is_closed)) [
    | inr h ↦ rw h ((λ e. cc e), (λ e. (refl, refl)))
    | inl h ↦
        let s' : Socket = record (new_socket s.family s.kind s.protocol) {
          sock = some fd;
          connected = true;
        } in
        let k' = init_sock net k s' in
        let t = (get_local_address net k' s').0 in
        let (same, connected) = get_local_address-sock net counts k' s' in
        let (same', connected') = get_remote_address-sock net counts k' t in
        rw h (
          (λ e. (refl, same' ∙ same, connected' ∙ connected, init_sock-Balance net counts k s' 1)),
          (λ e. cc e),
        )
  ]

  -- Where the counters follow the calls, when the call accepts a connection on the descriptor fd:
  -- FdMgr knows fd as a socket that is not closed, and accept returns a connected socket that holds
  -- it; or accept returns null, and a descriptor was opened that nobody holds and nobody closed.
  pub accept_lem :
      (k : K) (s : Socket) (fd : ℕ)
      → (net.accept_socket k s.sock).1 ≡ some fd
      → let r = accept net k s in
        let o = net.find_ctx (net.accept_socket k s.sock).0 fd in
        (is_known o ≡ true
          → (c : Socket) × (r.1 ≡ some c)
            × (c.sock ≡ some fd)
            × (c.connected ≡ true)
            × Balance net counts k r.0 0 1)
        × (is_known o ≡ false
            → (r.1 ≡ none)
              × (counts.made r.0 ≡ counts.made k + 1)
              × (counts.shut r.0 ≡ counts.shut k))
  unfolding accept accepted init
  accept_lem k s fd h =
      let (k', answer) = net.accept_socket k s.sock in
      let o = net.find_ctx k' fd in
      let made = counts.accept_made k s.sock in
      let shut = counts.accept_shut k s.sock in
      let one = ap held_by h in
      let (knows, unknown) = accepted_lem k' s fd o in
      rw h (
        (λ e.
            let (done, sock, connected, balance) = knows e in
            (
              (init_found net k' (new_socket s.family s.kind s.protocol) fd o).1.0,
              rw done,
              sock,
              connected,
              record { kept = omega (arith, made, shut, one, balance.kept) },
            )),
        (λ e.
            let (failed, same) = unknown e in
            (
              rw failed,
              ap counts.made same ∙ omega (arith, made, one),
              ap counts.shut same ∙ shut,
            )),
      )
