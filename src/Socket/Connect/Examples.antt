-- ===== src/Socket/Connect/Examples.antt =====
-- A listening socket with no connection waiting.
use linen.Base.{ℕ, ◌≡◌, none, pos, eagain, []}
use linen.Socket.{answered, failed}
use linen.Socket.Address.{Resolver, gai_error}
use linen.Socket.Connect.{Connector, accept, accept_nb}
use linen.Socket.Connect.Accepts.{Matches, accepts_agree}

abbrev deaf : Resolver ℕ
deaf = record {
  inet_pton = λ f host. none;
  inet_ntop = λ f a. a;
  port_text = λ p. [];
  getaddrinfo = λ hint host service w. (gai_error 8, w);
}

abbrev idle : Connector ℕ
idle = record {
  accept = λ fd w. (failed eagain, w);
  no_delay = λ client w. w;
  getfl = λ fd w. (answered 0, w);
  setfl = λ fd flags w. w;
  getsockname = λ fd w. (failed eagain, w);
  connect = λ fd a w. (answered tt, w);
  so_error = λ fd w. (answered none, w);
  select = λ nfds reads writes s us w. (answered 0, w);
}

accepts_agree_example :
    Matches (accept idle (pos 3) 0).0 (accept_nb idle deaf (pos 3) 0).0
    × ((accept idle (pos 3) 0).1 ≡ (accept_nb idle deaf (pos 3) 0).1)
accepts_agree_example = accepts_agree idle deaf (pos 3) 0
