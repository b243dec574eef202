-- ===== src/Socket/Address/Resolve.antt =====
-- What `resolve_addr`, `sockaddr_to_strings` and `linen_getaddrinfo` of ffi/network.c make of a host and
-- a port.
use linen.Base.{
  ℕ, zero, suc, ◌^◌, ◌<◌, ◌≡◌, refl, ap, subst, ◌∙◌, sym, Bool, true, false, Option, none, some,
  List, [], ◌∷◌, ◌++◌, reverse, append-nil, append_assoc, arith, String, ok, ltb, if◌then◌else◌,
}
use mathlib.Core.List.{reverse-cons}
use linen.Socket.Address.{
  Family, af_inet, af_inet6, family_to_af, af_to_family, SockAddr, sockaddr_in, sockaddr_in6,
  sockaddr_un, sockaddr_other, swap_bytes, Found, gai_error, found, Resolver, tries_inet,
  tries_inet6, first_found, numeric_or, sockaddr_to_strings, resolve_addr, entry, entries,
  addresses,
}

swap_bytes-twice : (p : ℕ) → p < 2 ^ 16 → swap_bytes (swap_bytes p) ≡ p
swap_bytes-twice p small = omega arith

-- an address with a port, of a family that the hint allows
abbrev pub Suits : Family → ℕ → SockAddr → Type 0
Suits hint port (sockaddr_in p a) = (p ≡ swap_bytes port) × (tries_inet hint ≡ true)
Suits hint port (sockaddr_in6 p a) = (p ≡ swap_bytes port) × (tries_inet6 hint ≡ true)
Suits hint port (sockaddr_un path) = ⊥
Suits hint port (sockaddr_other n) = ⊥

-- What getaddrinfo(3) documents for a port as its service: the addresses are internet addresses with
-- that port, of the family asked for.
abbrev pub IsResolver : {W : Type 0} → Resolver W → Type 0
IsResolver {W} lib =
    (hint : Family) (host : List ℕ) (port : ℕ) (w : W) (a : SockAddr) (rest : List SockAddr)
    → (lib.getaddrinfo hint host (lib.port_text port) w).0 ≡ found a rest
    → Suits hint port a

abbrev pub SomeSuits : Family → ℕ → Option SockAddr → Type 0
SomeSuits hint port none = Unit {0}
SomeSuits hint port (some a) = Suits hint port a

numeric_or-SomeSuits :
    {W : Type 0} (hint : Family) (port : ℕ) (b : Bool) (o : Option (List ℕ))
    (f : List ℕ → Option SockAddr × W) (other : Option SockAddr × W)
    → (b ≡ true → (a : List ℕ) → SomeSuits hint port (f a).0)
    → SomeSuits hint port other.0
    → SomeSuits hint port (numeric_or b o f other).0
numeric_or-SomeSuits hint port true (some a) f other s t = s refl a
numeric_or-SomeSuits hint port true none f other s t = t
numeric_or-SomeSuits hint port false o f other s t = t

append_reverse :
    (e : ℕ × List ℕ × ℕ) (kept list : List (ℕ × List ℕ × ℕ))
    → reverse kept ++ (e ∷ list) ≡ reverse (e ∷ kept) ++ list
append_reverse e kept list =
    sym (append_assoc (reverse kept) (e ∷ []) list)
    ∙ ap (λ l. l ++ list) (sym (reverse-cons e kept))

module _ {W : Type 0} (lib : Resolver W) where
  found-SomeSuits :
      (law : IsResolver lib) (host : List ℕ) (port : ℕ) (hint : Family) (w : W) (r : Found)
      → (lib.getaddrinfo hint host (lib.port_text port) w).0 ≡ r
      → SomeSuits hint port (first_found r)
  found-SomeSuits law host port hint w (gai_error ret) h = tt
  found-SomeSuits law host port hint w (found a rest) h = law hint host port w a rest h

  resolve_addr-SomeSuits :
      (law : IsResolver lib) (host : List ℕ) (port : ℕ) (hint : Family) (w : W)
      → SomeSuits hint port (resolve_addr lib host port hint w).0
  unfolding resolve_addr
  resolve_addr-SomeSuits law host port hint w =
      numeric_or-SomeSuits hint port (tries_inet hint) (lib.inet_pton af_inet host) _ _
        (λ t a. (refl, t))
        (numeric_or-SomeSuits hint port (tries_inet6 hint) (lib.inet_pton af_inet6 host) _ _
          (λ t a. (refl, t))
          (found-SomeSuits law host port hint w (lib.getaddrinfo hint host (lib.port_text port) w).0
            refl))

  Suits-port :
      (hint : Family) (port : ℕ) (a : SockAddr)
      → port < 2 ^ 16
      → Suits hint port a
      → (sockaddr_to_strings lib a).1 ≡ port
  unfolding sockaddr_to_strings
  Suits-port hint port (sockaddr_in p a) small s = ap swap_bytes s.0 ∙ swap_bytes-twice port small
  Suits-port hint port (sockaddr_in6 p a) small s = ap swap_bytes s.0 ∙ swap_bytes-twice port small
  Suits-port hint port (sockaddr_un path) small s = elim s [ ]
  Suits-port hint port (sockaddr_other n) small s = elim s [ ]

  -- An address that `resolve_addr` gives, numeric or looked up, is of a family that the hint allows, and
  -- `sockaddr_to_strings` reads the port back that was asked for, below 2^16.
  pub resolve_addr-Suits :
      (law : IsResolver lib) (host : List ℕ) (port : ℕ) (hint : Family) (w : W) (a : SockAddr)
      → port < 2 ^ 16
      → (resolve_addr lib host port hint w).0 ≡ some a
      → Suits hint port a × ((sockaddr_to_strings lib a).1 ≡ port)
  resolve_addr-Suits law host port hint w a small h =
      let suits = subst (SomeSuits hint port) h (resolve_addr-SomeSuits law host port hint w) in
      (suits, Suits-port hint port a small suits)

  -- A host that reads as a number is not looked up: under a hint that allows its family the state is
  -- untouched, IPv4 is tried before IPv6, and the address reads back as the same number and port.
  pub resolve_addr-numeric :
      (host a : List ℕ) (port : ℕ) (hint : Family) (w : W)
      → port < 2 ^ 16
      → lib.inet_pton af_inet host ≡ some a
      → tries_inet hint ≡ true
      → (resolve_addr lib host port hint w ≡ (some (sockaddr_in (swap_bytes port) a), w))
        × (sockaddr_to_strings lib (sockaddr_in (swap_bytes port) a)
            ≡ (lib.inet_ntop af_inet a, port))
  unfolding resolve_addr sockaddr_to_strings
  resolve_addr-numeric host a port hint w small reads allowed = (
    rw (allowed, reads) refl,
    ap (λ p. (lib.inet_ntop af_inet a, p)) (swap_bytes-twice port small),
  )

  -- the entries of the internet addresses of a list, in its order
  abbrev pub kept : List SockAddr → List (ℕ × List ℕ × ℕ)
  kept [] = []
  kept (sockaddr_in p a ∷ rest) = (0, lib.inet_ntop af_inet a, swap_bytes p) ∷ kept rest
  kept (sockaddr_in6 p a ∷ rest) = (1, lib.inet_ntop af_inet6 a, swap_bytes p) ∷ kept rest
  kept (sockaddr_un path ∷ rest) = kept rest
  kept (sockaddr_other n ∷ rest) = kept rest

  -- The list of `linen_getaddrinfo` is the internet addresses of the resolver's list, the last first.
  pub entries-reverse :
      (found_list : List SockAddr) (list : List (ℕ × List ℕ × ℕ))
      → entries lib found_list list ≡ reverse (kept found_list) ++ list
  unfolding entries entry
  entries-reverse [] list = refl
  entries-reverse (sockaddr_in p a ∷ rest) list =
      entries-reverse rest _ ∙ append_reverse _ (kept rest) list
  entries-reverse (sockaddr_in6 p a ∷ rest) list =
      entries-reverse rest _ ∙ append_reverse _ (kept rest) list
  entries-reverse (sockaddr_un path ∷ rest) list = entries-reverse rest list
  entries-reverse (sockaddr_other n ∷ rest) list = entries-reverse rest list

-- A family's code comes back from the system's, and a code that is none becomes IPv4's.
families_round_trip : (f : ℕ) → af_to_family (family_to_af f) ≡ (if ltb f 3 then f else 0)
unfolding af_to_family family_to_af
families_round_trip zero = refl
families_round_trip (suc zero) = refl
families_round_trip (suc (suc zero)) = refl
families_round_trip (suc (suc (suc f))) = ground arith

-- When `getaddrinfo` succeeds, `linen_getaddrinfo` returns an entry for each internet address of the
-- resolver's list, with its family's code, host and port, and for no other, the last address first.
addresses_reversed :
    {W : Type 0} (lib : Resolver W) (gai_strerror : ℕ → String) (a : SockAddr)
    (rest : List SockAddr)
    → addresses lib gai_strerror (found a rest) ≡ ok (reverse (kept lib (a ∷ rest)))
unfolding addresses
addresses_reversed lib gai_strerror a rest =
    ap (λ l. ok l) (entries-reverse lib (a ∷ rest) [] ∙ append-nil (reverse (kept lib (a ∷ rest))))
