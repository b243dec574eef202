-- ===== src/Socket/Datagram/Examples.antt =====
-- A network on which every datagram of two bytes is sent.
use linen.Base.{ℕ, ◌+◌, ◌≡◌, refl, some, true, ok, arith, pos, [], ◌∷◌}
use linen.Socket.{answered}
use linen.Socket.Address.{Resolver, gai_error, sockaddr_in, swap_bytes}
use linen.Socket.Datagram.{Datagrams, replied, recvfrom, sendto, sendto_replies}

abbrev numbers : Resolver ℕ
numbers = record {
  inet_pton = λ f host. some host;
  inet_ntop = λ f a. a;
  port_text = λ p. [];
  getaddrinfo = λ hint host service w. (gai_error 8, w);
}

abbrev counted : Datagrams ℕ
counted = record {
  socket = λ f t w. (answered 5, w);
  malloc = λ n w. (true, w);
  sendto = λ fd bytes a w. (answered 2, w + 1);
  recvfrom =
      λ fd n w. (answered (7 ∷ [], sockaddr_in (swap_bytes 5353) (10 ∷ 0 ∷ 0 ∷ 1 ∷ [])), w + 1);
}

-- a datagram from port 5353 of 10.0.0.1 is answered
sendto_replies_example :
    replied
      (recvfrom numbers counted (pos 5) 100 0).0
      (λ host port'. sendto numbers counted (pos 5) (1 ∷ 2 ∷ []) host port' 1)
    ≡ some (7 ∷ [], (ok 2, 2))
sendto_replies_example =
    sendto_replies numbers counted 5 100 (7 ∷ []) (1 ∷ 2 ∷ []) (10 ∷ 0 ∷ 0 ∷ 1 ∷ []) 5353 0 1
      (omega arith) refl refl refl
