-- ===== src/Socket/Address.antt =====
-- Socket addresses in ffi/network.c: the codes of families and types, and the ways from a host and a port
-- to a `sockaddr` and back. Host texts and paths are their bytes.
pub mod Resolve
mod Examples
use linen.Base.{
  ℕ, zero, suc, ◌+◌, ◌*◌, ◌/◌, ◌%◌, Bool, true, false, ◌||◌, Option, none, some, List, [], ◌∷◌,
  String, if◌then◌else◌, take, Fd, Errno, user_error, Result, ok, error,
}
use linen.Socket.{Answer, answered, failed, result}

pub data Family : Type 0 where
  af_unspec af_inet af_inet6 af_unix : Family
  af_other : ℕ → Family

pub data SockType : Type 0 where
  sock_stream sock_dgram sock_raw : SockType

pub family_to_af : ℕ → Family
family_to_af zero = af_inet
family_to_af (suc zero) = af_inet6
family_to_af (suc (suc zero)) = af_unix
family_to_af _ = af_inet

pub af_to_family : Family → ℕ
af_to_family af_inet = 0
af_to_family af_inet6 = 1
af_to_family af_unix = 2
af_to_family _ = 0

pub socktype_to_st : ℕ → SockType
socktype_to_st zero = sock_stream
socktype_to_st (suc zero) = sock_dgram
socktype_to_st (suc (suc zero)) = sock_raw
socktype_to_st _ = sock_stream

-- A `struct sockaddr_storage`: port, in network order, and address, or the path up to its NUL.
pub data SockAddr : Type 0 where
  sockaddr_in sockaddr_in6 : ℕ → List ℕ → SockAddr
  sockaddr_un : List ℕ → SockAddr
  sockaddr_other : ℕ → SockAddr

-- `ss_family`
abbrev pub family_of : SockAddr → Family
family_of (sockaddr_in p a) = af_inet
family_of (sockaddr_in6 p a) = af_inet6
family_of (sockaddr_un p) = af_unix
family_of (sockaddr_other n) = af_other n

-- `htons` and `ntohs` on a little-endian machine
abbrev pub swap_bytes : ℕ → ℕ
swap_bytes p = p % 256 * 256 + p / 256 % 256

-- what `getaddrinfo` returns: its code, or the addresses of its list, of which there is one at least
pub data Found : Type 0 where
  gai_error : ℕ → Found
  found : SockAddr → List SockAddr → Found

-- the C library's conversions, with `snprintf("%u")` of a port, and `getaddrinfo` for a family, a host
-- and a service
pub record Resolver (W : Type 0) : Type 0 where
  pub inet_pton : Family → List ℕ → Option (List ℕ)
  pub inet_ntop : Family → List ℕ → List ℕ
  pub port_text : ℕ → List ℕ
  pub getaddrinfo : Family → List ℕ → List ℕ → W → Found × W

-- "unknown"
abbrev pub unknown : List ℕ
unknown = 117 ∷ 110 ∷ 107 ∷ 110 ∷ 111 ∷ 119 ∷ 110 ∷ []

-- INET6_ADDRSTRLEN + 1, the size of the buffers for a host
abbrev pub ip_len : ℕ
ip_len = 47

-- `family_hint == AF_INET || family_hint == AF_UNSPEC`
abbrev pub tries_inet : Family → Bool
tries_inet af_inet = true
tries_inet af_unspec = true
tries_inet _ = false

abbrev pub tries_inet6 : Family → Bool
tries_inet6 af_inet6 = true
tries_inet6 af_unspec = true
tries_inet6 _ = false

-- the end of `resolve_addr`, from the answer of `getaddrinfo`
abbrev pub first_found : Found → Option SockAddr
first_found (gai_error ret) = none
first_found (found a rest) = some a

-- one fast path of `resolve_addr`, and what follows it
abbrev pub numeric_or : {A : Type 0} → Bool → Option (List ℕ) → (List ℕ → A) → A → A
numeric_or true (some a) numeric other = numeric a
numeric_or true none numeric other = other
numeric_or false a numeric other = other

module _ {W : Type 0} (lib : Resolver W) where
  -- `sockaddr_to_strings` into a buffer of `ip_len` bytes
  pub sockaddr_to_strings : SockAddr → List ℕ × ℕ
  sockaddr_to_strings (sockaddr_in p a) = (lib.inet_ntop af_inet a, swap_bytes p)
  sockaddr_to_strings (sockaddr_in6 p a) = (lib.inet_ntop af_inet6 a, swap_bytes p)
  sockaddr_to_strings (sockaddr_un path) = (take 46 path, 0)
  sockaddr_to_strings (sockaddr_other n) = (unknown, 0)

  -- `resolve_addr`
  pub resolve_addr : List ℕ → ℕ → Family → W → Option SockAddr × W
  resolve_addr host port hint w =
      let (r, w') = lib.getaddrinfo hint host (lib.port_text port) w in
      numeric_or (tries_inet hint) (lib.inet_pton af_inet host)
        (λ a. (some (sockaddr_in (swap_bytes port) a), w))
        (numeric_or (tries_inet6 hint) (lib.inet_pton af_inet6 host)
          (λ a. (some (sockaddr_in6 (swap_bytes port) a), w)) (first_found r, w'))

  -- one entry of the list of `linen_getaddrinfo`: (family, (host, port))
  pub entry : SockAddr → Option (ℕ × List ℕ × ℕ)
  entry (sockaddr_in p a) = some (0, lib.inet_ntop af_inet a, swap_bytes p)
  entry (sockaddr_in6 p a) = some (1, lib.inet_ntop af_inet6 a, swap_bytes p)
  entry (sockaddr_un path) = none
  entry (sockaddr_other n) = none

  -- `for (p = res; p != NULL; p = p->ai_next)`
  pub entries : List SockAddr → List (ℕ × List ℕ × ℕ) → List (ℕ × List ℕ × ℕ)
  unfolding entry
  entries [] list = list
  entries (a ∷ rest) list = elim (entry a) [
    | none ↦ entries rest list
    | some e ↦ entries rest (e ∷ list)
  ]

-- `linen_getaddrinfo`, from the answer of `getaddrinfo`; `gai_strerror` is the text of its code
pub addresses : {W : Type 0} → Resolver W → (ℕ → String) → Found → Result (List (ℕ × List ℕ × ℕ))
unfolding entries
addresses lib gai_strerror (gai_error ret) = error (user_error (gai_strerror ret))
addresses lib gai_strerror (found a rest) = ok (entries lib (a ∷ rest) [])

-- the host of `linen_socket_getpeername_host` and `linen_socket_getsockname_host`
pub name_host : {W : Type 0} → Resolver W → Answer SockAddr → Result (List ℕ)
unfolding sockaddr_to_strings
name_host lib (answered a) = ok (sockaddr_to_strings lib a).0
name_host lib (failed e) = result (failed e)

-- the port of `linen_socket_getpeername_port` and `linen_socket_getsockname_port`
pub name_port : {W : Type 0} → Resolver W → Answer SockAddr → Result ℕ
unfolding sockaddr_to_strings
name_port lib (answered a) = ok (sockaddr_to_strings lib a).1
name_port lib (failed e) = result (failed e)

-- `sock_domain`, from `getsockname`
abbrev pub sock_domain : Answer SockAddr → Family
sock_domain (answered a) = family_of a
sock_domain (failed e) = af_unspec

-- the calls on a socket that take an address, and `getsockname`
pub record Addressing (W : Type 0) : Type 0 where
  pub getsockname : Fd → W → Answer SockAddr × W
  pub bind : Fd → SockAddr → W → Answer (Unit {0}) × W
  pub connect : Fd → SockAddr → W → Answer (Unit {0}) × W

-- What follows `resolve_addr` in `linen_socket_bind` and `linen_socket_connect`.
pub at_address :
    {W : Type 0}
    → Result (Unit {0})
    → (SockAddr → W → Answer (Unit {0}) × W)
    → Option SockAddr × W
    → Result (Unit {0}) × W
at_address invalid call (none, w) = (invalid, w)
at_address invalid call (some a, w) = let (r, w') = call a w in (result r, w')

module _ {W : Type 0} (lib : Resolver W) (net : Addressing W) (fd : Fd) where
  -- `linen_socket_bind`
  pub bind : List ℕ → ℕ → W → Result (Unit {0}) × W
  unfolding resolve_addr at_address
  bind host port w =
      let (name, w') = net.getsockname fd w in
      at_address (error (user_error "bind: invalid address or hostname resolution failed"))
        (net.bind fd) (resolve_addr lib host port (sock_domain name) w')

  -- `linen_socket_connect`
  pub connect : List ℕ → ℕ → W → Result (Unit {0}) × W
  unfolding resolve_addr at_address
  connect host port w =
      let (name, w') = net.getsockname fd w in
      at_address (error (user_error "connect: invalid address or hostname resolution failed"))
        (net.connect fd) (resolve_addr lib host port (sock_domain name) w')
