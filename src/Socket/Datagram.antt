-- ===== src/Socket/Datagram.antt =====
-- Opening a socket and its datagrams in ffi/network.c: `linen_socket_create`, `linen_socket_get_fd`,
-- `linen_socket_sendto` and `linen_socket_recvfrom`.
mod Examples
use linen.Base.{
  ℕ, ◌+◌, ◌-◌, ◌^◌, ◌<◌, ◌≡◌, refl, ap, Bool, true, false, Option, none, some, List, [], ◌∷◌, arith,
  if◌then◌else◌, pos, negsuc, Fd, user_error, Result, ok, error,
}
use linen.Socket.{Answer, answered, failed, result}
use linen.Socket.Address.{
  Family, af_unspec, af_inet, SockType, family_to_af, socktype_to_st, SockAddr, sockaddr_in,
  swap_bytes, Resolver, sockaddr_to_strings, resolve_addr,
}
use linen.Socket.Address.Resolve.{resolve_addr-numeric}

-- the system calls, and `malloc`
pub record Datagrams (W : Type 0) : Type 0 where
  pub socket : Family → SockType → W → Answer ℕ × W
  pub malloc : ℕ → W → Bool × W
  pub sendto : Fd → List ℕ → SockAddr → W → Answer ℕ × W
  pub recvfrom : Fd → ℕ → W → Answer (List ℕ × SockAddr) × W

-- `lean_box((size_t)(unsigned)fd)` of `linen_socket_get_fd`
pub get_fd : Fd → ℕ
get_fd (pos n) = n
get_fd (negsuc n) = 2 ^ 32 - 1 - n

-- the socket of `linen_socket_create` for a new descriptor
pub created : Answer ℕ → Result Fd
created (answered fd) = ok (pos fd)
created (failed e) = result (failed e)

-- the bytes, host and port that `linen_socket_recvfrom` returns
pub from_sender :
    {W : Type 0} → Resolver W → Answer (List ℕ × SockAddr) → Result (List ℕ × (List ℕ × ℕ))
from_sender lib (answered (bytes, sender)) = ok (bytes, sockaddr_to_strings lib sender)
from_sender lib (failed e) = result (failed e)

-- `linen_socket_sendto` after `resolve_addr`
pub sendto_after : {W : Type 0} → (SockAddr → W → Answer ℕ × W) → Option SockAddr × W → Result ℕ × W
sendto_after call (none, w) = (error (user_error "sendto: invalid address"), w)
sendto_after call (some a, w) = let (r, w') = call a w in (result r, w')

-- a reply to the host and the port that came with the bytes of a datagram
abbrev pub replied :
    {A : Type 0} → Result (List ℕ × (List ℕ × ℕ)) → (List ℕ → ℕ → A) → Option (List ℕ × A)
replied (ok (bytes, (host, port))) answer = some (bytes, answer host port)
replied _ answer = none

module _ {W : Type 0} (lib : Resolver W) (net : Datagrams W) where
  -- `linen_socket_create`
  pub create_socket : ℕ → ℕ → W → Result Fd × W
  unfolding created
  create_socket domain socktype w =
      let (r, w') = net.socket (family_to_af domain) (socktype_to_st socktype) w in (created r, w')

  -- `linen_socket_sendto`
  pub sendto : Fd → List ℕ → List ℕ → ℕ → W → Result ℕ × W
  unfolding sendto_after
  sendto fd bytes host port w =
      sendto_after (net.sendto fd bytes) (resolve_addr lib host port af_unspec w)

  -- `linen_socket_recvfrom`
  pub recvfrom : Fd → ℕ → W → Result (List ℕ × (List ℕ × ℕ)) × W
  unfolding from_sender
  recvfrom fd maxlen w =
      let (there, w') = net.malloc maxlen w in
      let (r, w'') = net.recvfrom fd maxlen w' in
      if there then (from_sender lib r, w'') else (error (user_error "recvfrom: malloc failed"), w')

  -- If memory is there and a datagram of an IPv4 sender has arrived, `linen_socket_recvfrom` returns its bytes
  -- and a host and a port, and a datagram that `linen_socket_sendto` then sends to these goes back to that
  -- sender's address, and nothing is looked up, if `inet_pton` reads what `inet_ntop` wrote.
  pub sendto_replies :
      (fd maxlen : ℕ) (bytes reply a : List ℕ) (port : ℕ) (w w' : W)
      → port < 2 ^ 16
      → lib.inet_pton af_inet (lib.inet_ntop af_inet a) ≡ some a
      → (net.malloc maxlen w).0 ≡ true
      → (net.recvfrom (pos fd) maxlen (net.malloc maxlen w).1).0
        ≡ answered (bytes, sockaddr_in (swap_bytes port) a)
      → replied (recvfrom (pos fd) maxlen w).0 (λ host port'. sendto (pos fd) reply host port' w')
        ≡ some (
          bytes,
          let (r, w'') = net.sendto (pos fd) reply (sockaddr_in (swap_bytes port) a) w' in
              (result r, w''),
        )
  unfolding recvfrom from_sender sendto sendto_after
  sendto_replies fd maxlen bytes reply a port w w' small reads memory arrives =
      let (address, strings) =
        resolve_addr-numeric lib (lib.inet_ntop af_inet a) a port af_unspec w' small reads refl in
      rw (memory, arrives)
        (rw strings (ap (λ r. some (bytes, sendto_after (net.sendto (pos fd) reply) r)) address))
