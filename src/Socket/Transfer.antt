-- ===== src/Socket/Transfer.antt =====
-- Sending and receiving on a socket of ffi/network.c, blocking and not.
pub mod Streams
mod Examples
use linen.Base.{
  ℕ, zero, suc, ◌+◌, Bool, true, false, List, [], ◌∷◌, ◌==◌, if◌then◌else◌, length, drop, Fd, Errno,
  would_block, IoError, user_error, os_error, Result, ok, error, out_of_fuel,
}
use linen.Socket.{Answer, answered, failed, result}

-- `malloc`, and `send` and `recv` with their flags: MSG_DONTWAIT, and for `recv` also MSG_PEEK
pub record Transport (W : Type 0) : Type 0 where
  pub malloc : ℕ → W → Bool × W
  pub send : Fd → List ℕ → Bool → W → Answer ℕ × W
  pub recv : Fd → ℕ → Bool → Bool → W → Answer (List ℕ) × W

-- `SendOutcome`, tags 0 to 2
pub data SendOutcome : Type 0 where
  sent : ℕ → SendOutcome
  send_would_block : SendOutcome
  send_error : IoError → SendOutcome

-- `RecvOutcome`, tags 0 to 3
pub data RecvOutcome : Type 0 where
  received : List ℕ → RecvOutcome
  recv_would_block eof : RecvOutcome
  recv_error : IoError → RecvOutcome

-- the outcome of a `send` that must not wait
pub send_outcome : Answer ℕ → SendOutcome
send_outcome (answered n) = sent n
send_outcome (failed e) = if would_block e then send_would_block else send_error (os_error e)

-- the outcome of a `recv` that must not wait
pub recv_outcome : Answer (List ℕ) → RecvOutcome
recv_outcome (answered []) = eof
recv_outcome (answered (b ∷ bs)) = received (b ∷ bs)
recv_outcome (failed e) = if would_block e then recv_would_block else recv_error (os_error e)

-- The loop's body in `linen_socket_sendall` after `send`; `again` is the next round.
pub sendall_after :
    {W : Type 0}
    → (List ℕ → W → Result (Unit {0}) × W)
    → List ℕ
    → Answer ℕ × W
    → Result (Unit {0}) × W
sendall_after again rest (failed e, w) = (error (os_error e), w)
sendall_after again rest (answered n, w) =
    if n == 0 then (error (user_error "sendall: connection closed"), w) else again (drop n rest) w

module _ {W : Type 0} (net : Transport W) (fd : Fd) where
  -- `linen_socket_send`
  pub send_some : List ℕ → W → Result ℕ × W
  send_some bytes w = let (a, w') = net.send fd bytes false w in (result a, w')

  -- `while (total_sent < len)` in `linen_socket_sendall`, on the bytes that are left
  pub sendall_loop : ℕ → List ℕ → W → Result (Unit {0}) × W
  unfolding sendall_after
  sendall_loop zero rest w = (out_of_fuel, w)
  sendall_loop (suc f) [] w = (ok tt, w)
  sendall_loop (suc f) (b ∷ bs) w =
      sendall_after (λ rest w'. sendall_loop f rest w') (b ∷ bs) (net.send fd (b ∷ bs) false w)

  -- `linen_socket_sendall`
  pub sendall : List ℕ → W → Result (Unit {0}) × W
  unfolding sendall_loop
  sendall bytes w = sendall_loop (length bytes + 1) bytes w

  -- `linen_socket_recv`
  pub recv_some : ℕ → W → Result (List ℕ) × W
  recv_some maxlen w =
      let (there, w') = net.malloc maxlen w in
      let (a, w'') = net.recv fd maxlen false false w' in
      if there then (result a, w'') else (error (user_error "recv: malloc failed"), w')

  -- `linen_socket_send_nb`
  pub send_nb : List ℕ → W → SendOutcome × W
  unfolding send_outcome
  send_nb bytes w = let (a, w') = net.send fd bytes true w in (send_outcome a, w')

  -- `linen_socket_recv_nb`
  pub recv_nb : ℕ → W → RecvOutcome × W
  unfolding recv_outcome
  recv_nb maxlen w =
      let (there, w') = net.malloc maxlen w in
      let (a, w'') = net.recv fd maxlen false true w' in
      if there then (recv_outcome a, w'') else (recv_error (user_error "recv: malloc failed"), w')

  -- `linen_socket_peek_nb`
  pub peek_nb : ℕ → W → RecvOutcome × W
  unfolding recv_outcome
  peek_nb maxlen w =
      let (a, w') = net.recv fd (if maxlen == 0 then 1 else maxlen) true true w in
      (recv_outcome a, w')
