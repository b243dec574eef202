-- ===== src/Socket/Connect.antt =====
-- Accepting, connecting without waiting, and polling in ffi/network.c.
pub mod Accepts
mod Examples
use linen.Base.{
  ℕ, ◌+◌, ◌*◌, ◌/◌, ◌%◌, Bool, true, false, ◌||◌, Option, none, some, List, ltb, ◌==◌,
  if◌then◌else◌, ℤ, pos, negsuc, Fd, Errno, einprogress, would_block, IoError, user_error, os_error,
  Result, ok, error, or_bit,
}
use linen.Socket.{Answer, answered, failed}
use linen.Socket.Address.{SockAddr, Resolver, sockaddr_to_strings, resolve_addr, sock_domain}

-- The system calls. `accept` answers with the new descriptor and the peer; `no_delay` is the `setsockopt`
-- of TCP_NODELAY, whose result the code drops; `so_error` is the pending error, if any; `select` takes
-- nfds, whether it watches for reading and for writing, and seconds and microseconds.
pub record Connector (W : Type 0) : Type 0 where
  pub accept : Fd → W → Answer (ℕ × SockAddr) × W
  pub no_delay : ℕ → W → W
  pub getfl : Fd → W → Answer ℕ × W
  pub setfl : Fd → ℕ → W → W
  pub getsockname : Fd → W → Answer SockAddr × W
  pub connect : Fd → SockAddr → W → Answer (Unit {0}) × W
  pub so_error : Fd → W → Answer (Option Errno) × W
  pub select : ℕ → Bool → Bool → ℕ → ℕ → W → Answer ℕ × W

-- `AcceptOutcome`, tags 0 to 2; a new socket is its descriptor, with the peer's host and port
pub data AcceptOutcome : Type 0 where
  accepted : Fd → List ℕ × ℕ → AcceptOutcome
  accept_would_block : AcceptOutcome
  accept_error : IoError → AcceptOutcome

-- `ConnectOutcome`, tags 0 to 2
pub data ConnectOutcome : Type 0 where
  connected in_progress : Fd → ConnectOutcome
  refused : IoError → ConnectOutcome

-- `PollOutcome`, tags 0 to 2; `out_of_set` is FD_SET of a descriptor that no `fd_set` has, which C leaves
-- undefined
pub data PollOutcome : Type 0 where
  ready timeout out_of_set : PollOutcome
  poll_error : IoError → PollOutcome

-- FD_SETSIZE
abbrev pub fd_setsize : ℕ
fd_setsize = 1024

module _ {W : Type 0} (net : Connector W) where
  -- `linen_socket_accept` after `accept`
  pub accept_after : Answer (ℕ × SockAddr) × W → Result Fd × W
  accept_after (failed e, w) = (error (os_error e), w)
  accept_after (answered (client, peer), w) = (ok (pos client), net.no_delay client w)

  -- `linen_socket_accept`
  pub accept : Fd → W → Result Fd × W
  unfolding accept_after
  accept fd w = accept_after (net.accept fd w)

  -- `linen_socket_accept_nb` after `accept`
  pub accept_nb_after : Resolver W → Answer (ℕ × SockAddr) × W → AcceptOutcome × W
  accept_nb_after lib (failed e, w) =
      (if would_block e then accept_would_block else accept_error (os_error e), w)
  accept_nb_after lib (answered (client, peer), w) =
      (accepted (pos client) (sockaddr_to_strings lib peer), net.no_delay client w)

  -- `linen_socket_accept_nb`
  pub accept_nb : Resolver W → Fd → W → AcceptOutcome × W
  unfolding accept_nb_after
  accept_nb lib fd w = accept_nb_after lib (net.accept fd w)

  -- `if (flags >= 0) fcntl(fd, F_SETFL, flags | O_NONBLOCK);`
  pub make_nonblocking : Fd → Answer ℕ × W → W
  make_nonblocking fd (failed e, w) = w
  make_nonblocking fd (answered flags, w) = net.setfl fd (or_bit 11 flags) w

  -- the end of `linen_socket_connect_nb`
  pub connect_outcome : Fd → Answer (Unit {0}) → ConnectOutcome
  connect_outcome fd (answered u) = connected fd
  connect_outcome fd (failed einprogress) = in_progress fd
  connect_outcome fd (failed e) = refused (os_error e)

  -- `linen_socket_connect_nb` after `resolve_addr`
  pub connect_nb_after : Fd → Option SockAddr × W → ConnectOutcome × W
  unfolding connect_outcome
  connect_nb_after fd (none, w) =
      (refused (user_error "connect: invalid address or hostname resolution failed"), w)
  connect_nb_after fd (some a, w) = let (r, w') = net.connect fd a w in (connect_outcome fd r, w')

  -- `linen_socket_connect_nb`
  pub connect_nb : Resolver W → Fd → List ℕ → ℕ → W → ConnectOutcome × W
  unfolding make_nonblocking connect_nb_after
  connect_nb lib fd host port w =
      let (name, w') = net.getsockname fd (make_nonblocking fd (net.getfl fd w)) in
      connect_nb_after fd (resolve_addr lib host port (sock_domain name) w')

  -- the end of `linen_socket_connect_finish`
  pub finish_outcome : Fd → Answer (Option Errno) → ConnectOutcome
  finish_outcome fd (failed e) = refused (os_error e)
  finish_outcome fd (answered (some e)) = refused (os_error e)
  finish_outcome fd (answered none) = connected fd

  -- `linen_socket_connect_finish`
  pub connect_finish : Fd → W → ConnectOutcome × W
  unfolding finish_outcome
  connect_finish fd w = let (r, w') = net.so_error fd w in (finish_outcome fd r, w')

  -- the end of `linen_socket_poll`
  pub poll_outcome : Answer ℕ → PollOutcome
  poll_outcome (answered n) = if ltb 0 n then ready else timeout
  poll_outcome (failed e) = poll_error (os_error e)

  -- `linen_socket_poll`
  pub poll : Fd → ℕ → ℕ → W → PollOutcome × W
  unfolding poll_outcome
  poll (negsuc n) mode timeout_ms w = (out_of_set, w)
  poll (pos fd) mode timeout_ms w =
      let (r, w') =
        net.select (fd + 1) (mode == 0 || mode == 2) (mode == 1 || mode == 2) (timeout_ms / 1000)
          (timeout_ms % 1000 * 1000) w in
      if ltb fd fd_setsize then (poll_outcome r, w') else (out_of_set, w)
