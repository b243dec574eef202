-- ===== src/Socket/Address/Examples.antt =====
-- A resolver that reads four bytes as an IPv4 number and looks every other host up as itself.
use linen.Base.{
  ℕ, ◌+◌, ◌≡◌, refl, ap, subst, Option, none, some, List, [], ◌∷◌, arith, ◌==◌, if◌then◌else◌,
  length,
}
use linen.Socket.Address.{
  Family, af_unspec, af_inet, af_inet6, af_unix, af_other, sockaddr_in, sockaddr_in6, sockaddr_un,
  swap_bytes, Found, gai_error, found, Resolver, first_found, sockaddr_to_strings, resolve_addr,
}
use linen.Socket.Address.Resolve.{Suits, SomeSuits, IsResolver, resolve_addr-Suits}

abbrev look_up : Family → List ℕ → List ℕ → Found
look_up hint host [] = gai_error 8
look_up af_unspec host (p ∷ ps) = found (sockaddr_in6 (swap_bytes p) host) (sockaddr_un host ∷ [])
look_up af_inet host (p ∷ ps) = found (sockaddr_in (swap_bytes p) host) []
look_up af_inet6 host (p ∷ ps) = found (sockaddr_in6 (swap_bytes p) host) []
look_up af_unix host (p ∷ ps) = gai_error 5
look_up (af_other n) host (p ∷ ps) = gai_error 5

abbrev four_bytes : Family → List ℕ → Option (List ℕ)
four_bytes af_inet host = if length host == 4 then some host else none
four_bytes _ host = none

abbrev direct : Resolver ℕ
direct = record {
  inet_pton = four_bytes;
  inet_ntop = λ f a. a;
  port_text = λ p. p ∷ [];
  getaddrinfo = λ hint host service w. (look_up hint host service, w + 1);
}

direct-IsResolver : IsResolver direct
direct-IsResolver af_unspec host p w a rest h =
    subst (SomeSuits af_unspec p) (ap first_found h) (refl, refl)
direct-IsResolver af_inet host p w a rest h =
    subst (SomeSuits af_inet p) (ap first_found h) (refl, refl)
direct-IsResolver af_inet6 host p w a rest h =
    subst (SomeSuits af_inet6 p) (ap first_found h) (refl, refl)
direct-IsResolver af_unix host p w a rest h = cc
direct-IsResolver (af_other n) host p w a rest h = cc

resolve_addr-Suits_example :
    Suits af_unspec 443 (sockaddr_in6 (swap_bytes 443) (1 ∷ 2 ∷ []))
    × ((sockaddr_to_strings direct (sockaddr_in6 (swap_bytes 443) (1 ∷ 2 ∷ []))).1 ≡ 443)
unfolding resolve_addr
resolve_addr-Suits_example =
    resolve_addr-Suits direct direct-IsResolver (1 ∷ 2 ∷ []) 443 af_unspec 0
      (sockaddr_in6 (swap_bytes 443) (1 ∷ 2 ∷ [])) (omega arith) refl
