-- ===== src/Socket/Transfers.antt =====
-- src/socket.cpp: send, sendTo, recv, recvFrom, getOption and getError.
-- The calls that transfer bytes are a `Wire` on the client's state K: each returns the int of the
-- call, and those that receive also the bytes that it put into the caller's buffers. The address
-- that recvFrom fills is `from`; the caller gets what the call left of it.
use cor_reactor.Base.{
  ℕ, ◌+◌, ◌*◌, ◌≡◌, List, [], ◌∷◌, Option, none, some, Bool, false, if◌then◌else◌, length,
}
use cor_reactor.Base.Int.{ℤ, negsuc}
use cor_reactor.Socket.{Socket, SocketAddress, SocketOption, other_option}

-- What a receiving call gives: its int, the bytes, and the address of the sender.
pub record Received : Type 0 where
  pub count : ℤ
  pub bytes : List ℕ
  pub from : Option SocketAddress

pub record Wire (K : Type 0) : Type 0 where
  pub send_bytes : K → Option ℕ → List ℕ → ℕ → K × ℤ
  pub send_message : K → Option ℕ → Option SocketAddress → List (List ℕ) → ℕ → K × ℤ
  pub send_bytes_to : K → Option ℕ → SocketAddress → List ℕ → ℕ → K × ℤ
  pub recv_bytes : K → Option ℕ → ℕ → ℕ → K × Received
  pub recv_message : K → Option ℕ → Option SocketAddress → List ℕ → ℕ → K × Received
  pub recv_bytes_from : K → Option ℕ → SocketAddress → ℕ → ℕ → K × Received
  pub getsockopt : K → Option ℕ → SocketOption → Option (List ℕ)
  pub errno : K → ℕ

-- The answer -1 of a method that made no call.
abbrev pub refused : Received
refused = record { count = negsuc 0; bytes = []; from = none }

abbrev pub is_connected : Socket → Bool
is_connected s = s.connected

-- SO_ERROR
abbrev pub so_error : SocketOption
so_error = other_option 1 4

-- An int of the error number, as getError reads it.
abbrev pub read_int : List ℕ → ℕ
read_int [] = 0
read_int (b ∷ bs) = b + 256 * read_int bs

module _ {K : Type 0} (wire : Wire K) where
  -- send of a buffer, and of an array of buffers
  unfoldable pub send : K → Socket → List ℕ → ℕ → K × ℤ
  send k s buffer flags =
      if is_connected s then wire.send_bytes k s.sock buffer flags else (k, negsuc 0)

  unfoldable pub send_buffers : K → Socket → List (List ℕ) → ℕ → K × ℤ
  send_buffers k s buffers flags =
      if is_connected s then wire.send_message k s.sock none buffers flags else (k, negsuc 0)

  -- sendTo of a buffer, and of an array of buffers
  unfoldable pub send_to : K → Socket → List ℕ → SocketAddress → ℕ → K × ℤ
  send_to k s buffer to flags =
      if is_connected s then wire.send_bytes_to k s.sock to buffer flags else (k, negsuc 0)

  unfoldable pub send_buffers_to : K → Socket → List (List ℕ) → SocketAddress → ℕ → K × ℤ
  send_buffers_to k s buffers to flags =
      if is_connected s then wire.send_message k s.sock (some to) buffers flags else (k, negsuc 0)

  -- recv into a buffer of a length, and into buffers of lengths
  unfoldable pub recv : K → Socket → ℕ → ℕ → K × Received
  recv k s length flags =
      if is_connected s then wire.recv_bytes k s.sock length flags else (k, refused)

  unfoldable pub recv_buffers : K → Socket → List ℕ → ℕ → K × Received
  recv_buffers k s lengths flags =
      if is_connected s then wire.recv_message k s.sock none lengths flags else (k, refused)

  -- recvFrom into a buffer of a length, and into buffers of lengths
  unfoldable pub recv_from : K → Socket → ℕ → SocketAddress → ℕ → K × Received
  recv_from k s length from flags =
      if is_connected s then wire.recv_bytes_from k s.sock from length flags else (k, refused)

  unfoldable pub recv_buffers_from : K → Socket → List ℕ → SocketAddress → ℕ → K × Received
  recv_buffers_from k s lengths from flags =
      if is_connected s then wire.recv_message k s.sock (some from) lengths flags else (k, refused)

  -- getOption
  unfoldable pub get_option : K → Socket → SocketOption → Option (List ℕ)
  get_option k s option = wire.getsockopt k s.sock option

  -- getError
  unfoldable pub get_error : K → Socket → ℕ
  unfolding get_option
  get_error k s = elim (get_option k s so_error) [
    | none ↦ wire.errno k
    | some bytes ↦ read_int bytes
  ]

  -- On a socket that is not connected none of the eight transfers makes a call: each returns -1 and
  -- leaves everything as it was.
  pub transfers_refused :
      (k : K) (s : Socket) (buffer : List ℕ) (buffers : List (List ℕ)) (size : ℕ) (sizes : List ℕ)
      (a : SocketAddress) (flags : ℕ)
      → s.connected ≡ false
      → ((send k s buffer flags ≡ (k, negsuc 0))
          × (send_buffers k s buffers flags ≡ (k, negsuc 0))
          × (send_to k s buffer a flags ≡ (k, negsuc 0))
          × (send_buffers_to k s buffers a flags ≡ (k, negsuc 0)))
        × ((recv k s size flags ≡ (k, refused))
            × (recv_buffers k s sizes flags ≡ (k, refused))
            × (recv_from k s size a flags ≡ (k, refused))
            × (recv_buffers_from k s sizes a flags ≡ (k, refused)))
  unfolding send send_buffers send_to send_buffers_to recv recv_buffers recv_from recv_buffers_from
  transfers_refused k s buffer buffers size sizes a flags h =
      ((rw h, rw h, rw h, rw h), (rw h, rw h, rw h, rw h))
