-- ===== src/Socket/Connect/Accepts.antt =====
-- The two ways to accept a connection in ffi/network.c, against each other.
use linen.Base.{
  ℕ, ◌≡◌, refl, inl, inr, Bool-cases, true, false, Fd, would_block, os_error, Result, ok, error,
}
use linen.Socket.{Answer, answered, failed}
use linen.Socket.Address.{SockAddr, Resolver}
use linen.Socket.Connect.{
  Connector, AcceptOutcome, accepted, accept_would_block, accept_error, accept, accept_nb,
  accept_after, accept_nb_after,
}

-- what the two return for one answer of `accept`
abbrev pub Matches : Result Fd → AcceptOutcome → Type 0
Matches (ok fd) (accepted fd' peer) = fd ≡ fd'
Matches (error (os_error e)) accept_would_block = would_block e ≡ true
Matches (error (os_error e)) (accept_error err) = (err ≡ os_error e) × (would_block e ≡ false)
Matches _ _ = ⊥

after-Matches :
    {W : Type 0} (net : Connector W) (lib : Resolver W) (a : Answer (ℕ × SockAddr) × W)
    → Matches (accept_after net a).0 (accept_nb_after net lib a).0
      × ((accept_after net a).1 ≡ (accept_nb_after net lib a).1)
unfolding accept_after accept_nb_after
after-Matches net lib (answered (client, peer), w) = (refl, refl)
after-Matches net lib (failed e, w) = elim (Bool-cases (would_block e)) [
  | inl waits ↦ rw waits (waits, refl)
  | inr fails ↦ rw fails ((refl, fails), refl)
]

-- From the same state `linen_socket_accept` and `linen_socket_accept_nb` leave the same state, and return
-- the same: the same new socket, or the same error, which the second reports as blocking exactly when
-- it is EAGAIN or EWOULDBLOCK.
pub accepts_agree :
    {W : Type 0} (net : Connector W) (lib : Resolver W) (fd : Fd) (w : W)
    → Matches (accept net fd w).0 (accept_nb net lib fd w).0
      × ((accept net fd w).1 ≡ (accept_nb net lib fd w).1)
unfolding accept accept_nb
accepts_agree net lib fd w = after-Matches net lib (net.accept fd w)
