-- ===== src/Socket/Transfer/Streams.antt =====
-- The socket functions of ffi/network.c that send and receive, against the bytes of the connection.
use linen.Base.{
  ℕ, zero, suc, ◌+◌, ◌≤◌, ◌<◌, ◌≡◌, refl, sym, ap, ◌∙◌, subst, inl, inr, Bool, true, false, List,
  [], ◌∷◌, ◌++◌, append-nil, append_assoc, arith, ◌==◌, if◌then◌else◌, Bool-cases, length, take,
  drop, take-append-drop, length-drop, nil_of_length, Fd, Errno, would_block, Result, ok, error,
  out_of_fuel,
}
use linen.Socket.{Answer, answered, failed}
use linen.Socket.Transfer.{
  Transport, RecvOutcome, received, recv_would_block, eof, recv_error, recv_outcome, sendall_after,
  sendall_loop, sendall, recv_nb, peek_nb,
}

-- What send(2) and recv(2) document of a connected stream socket: `inbox` is the bytes that are still to
-- come in, `outbox` those that it has sent.
pub record IsStreamSocket {W : Type 0} (net : Transport W) (fd : Fd) : Type 0 where
  pub inbox : W → List ℕ
  pub outbox : W → List ℕ
  pub mallocs : (n : ℕ) (w : W) → inbox (net.malloc n w).1 ≡ inbox w
  pub sends :
      (bytes : List ℕ) (nowait : Bool) (w : W) (n : ℕ)
      → (net.send fd bytes nowait w).0 ≡ answered n
      → (n ≤ length bytes) × (outbox (net.send fd bytes nowait w).1 ≡ outbox w ++ take n bytes)
  pub send_fails :
      (bytes : List ℕ) (nowait : Bool) (w : W) (e : Errno)
      → (net.send fd bytes nowait w).0 ≡ failed e
      → outbox (net.send fd bytes nowait w).1 ≡ outbox w
  pub recvs :
      (n : ℕ) (nowait : Bool) (w : W) (bs : List ℕ)
      → (net.recv fd n false nowait w).0 ≡ answered bs
      → (inbox w ≡ bs ++ inbox (net.recv fd n false nowait w).1)
        × (length bs ≤ n)
        × (bs ≡ [] → 0 < n → inbox w ≡ [])
  pub peeks :
      (n : ℕ) (nowait : Bool) (w : W) (bs : List ℕ)
      → (net.recv fd n true nowait w).0 ≡ answered bs
      → (inbox (net.recv fd n true nowait w).1 ≡ inbox w)
        × (bs ≡ take (length bs) (inbox w))
        × (length bs ≤ n)
        × (bs ≡ [] → 0 < n → inbox w ≡ [])
  pub recv_fails :
      (n : ℕ) (peek nowait : Bool) (w : W) (e : Errno)
      → (net.recv fd n peek nowait w).0 ≡ failed e
      → inbox (net.recv fd n peek nowait w).1 ≡ inbox w

-- what a `sendall` of bytes does to what was sent before: all of them, or on an error a prefix
abbrev pub SentAll : List ℕ → List ℕ → Result (Unit {0}) → List ℕ → Type 0
SentAll bytes old (ok u) new = new ≡ old ++ bytes
SentAll bytes old (error e) new = (k : ℕ) × (new ≡ old ++ take k bytes)
SentAll bytes old out_of_fuel new = ⊥

-- what a receive takes from the bytes to come
abbrev pub Receives : ℕ → List ℕ → RecvOutcome → List ℕ → Type 0
Receives maxlen old (received bs) new = (old ≡ bs ++ new) × (0 < length bs) × (length bs ≤ maxlen)
Receives maxlen old eof new = (new ≡ old) × (0 < maxlen → old ≡ [])
Receives maxlen old recv_would_block new = new ≡ old
Receives maxlen old (recv_error e) new = new ≡ old

-- what a peek shows of the bytes to come, which it leaves
abbrev pub Peeks : ℕ → List ℕ → RecvOutcome → List ℕ → Type 0
Peeks maxlen old (received bs) new =
    (new ≡ old) × (bs ≡ take (length bs) old) × (0 < length bs) × (length bs ≤ maxlen)
Peeks maxlen old eof new = (new ≡ old) × (old ≡ [])
Peeks maxlen old recv_would_block new = new ≡ old
Peeks maxlen old (recv_error e) new = new ≡ old

take_nil : (k : ℕ) → take {A = ℕ} k [] ≡ []
take_nil zero = refl
take_nil (suc k) = refl

take_add :
    (n k : ℕ) (xs : List ℕ) → n ≤ length xs → take n xs ++ take k (drop n xs) ≡ take (n + k) xs
take_add zero k xs h = ap (λ n. take n xs) (omega arith)
take_add (suc n) k [] h = take_nil k ∙ sym (take_nil (suc n + k))
take_add (suc n) k (x ∷ xs) h =
    ap (λ l. x ∷ l) (take_add n k xs (omega arith))
    ∙ ap (λ m. take m (x ∷ xs)) {x = suc (n + k)} {y = suc n + k} (omega arith)

-- After n bytes are sent, sending the rest sends all, and a prefix of the rest completes a prefix.
SentAll-rest :
    (rest old new : List ℕ) (n : ℕ) (r : Result (Unit {0}))
    → n ≤ length rest
    → SentAll (drop n rest) (old ++ take n rest) r new
    → SentAll rest old r new
SentAll-rest rest old new n (ok u) within h =
    h ∙ append_assoc old (take n rest) (drop n rest) ∙ ap (λ l. old ++ l) (take-append-drop n rest)
SentAll-rest rest old new n (error e) within (k, h) = (
  n + k,
  h
      ∙ append_assoc old (take n rest) (take k (drop n rest))
      ∙ ap (λ l. old ++ l) (take_add n k rest within),
)
SentAll-rest rest old new n out_of_fuel within h = h

module _ {W : Type 0} (net : Transport W) (fd : Fd) (law : IsStreamSocket net fd) where
  sendall_after-SentAll :
      (again : List ℕ → W → Result (Unit {0}) × W) (rest : List ℕ) (w : W)
      → ((n : ℕ) (w' : W)
          → 0 < n
          → n ≤ length rest
          → SentAll
              (drop n rest)
              (law.outbox w')
              (again (drop n rest) w').0
              (law.outbox (again (drop n rest) w').1))
      → (a : Answer ℕ) → (net.send fd rest false w).0 ≡ a
      → let (r, w') = sendall_after again rest (a, (net.send fd rest false w).1) in
        SentAll rest (law.outbox w) r (law.outbox w')
  unfolding sendall_after
  sendall_after-SentAll again rest w ih (failed e) h =
      (0, law.send_fails rest false w e h ∙ sym (append-nil (law.outbox w)))
  sendall_after-SentAll again rest w ih (answered n) h =
      let w' = (net.send fd rest false w).1 in
      let (within, sent_n) = law.sends rest false w n h in
      elim (Bool-cases (n == 0)) [
        | inl none_sent ↦ rw none_sent (n, sent_n)
        | inr some_sent ↦ rw some_sent (
            SentAll-rest rest (law.outbox w) (law.outbox (again (drop n rest) w').1) n
              (again (drop n rest) w').0 within
              (subst
                (λ o.
                  SentAll (drop n rest) o (again (drop n rest) w').0
                    (law.outbox (again (drop n rest) w').1))
                sent_n (ih n w' (ground arith) within)))
      ]

  sendall_loop-SentAll :
      (f : ℕ) (rest : List ℕ) (w : W)
      → length rest < f
      → let (r, w') = sendall_loop net fd f rest w in SentAll rest (law.outbox w) r (law.outbox w')
  unfolding sendall_loop
  sendall_loop-SentAll zero rest w enough = omega arith
  sendall_loop-SentAll (suc f) [] w enough = sym (append-nil (law.outbox w))
  sendall_loop-SentAll (suc f) (b ∷ bs) w enough =
      sendall_after-SentAll (λ rest w'. sendall_loop net fd f rest w') (b ∷ bs) w
        (λ n w' some_sent within.
          sendall_loop-SentAll f (drop n (b ∷ bs)) w' (omega (arith, length-drop {0} n (b ∷ bs))))
        (net.send fd (b ∷ bs) false w).0 refl

  -- `linen_socket_sendall` ends. If it succeeds, it has sent exactly its bytes, in order, however `send`
  -- cut them; if it fails, it has sent a prefix of them.
  pub sendall-SentAll :
      (bytes : List ℕ) (w : W)
      → let (r, w') = sendall net fd bytes w in SentAll bytes (law.outbox w) r (law.outbox w')
  unfolding sendall
  sendall-SentAll bytes w = sendall_loop-SentAll (length bytes + 1) bytes w (omega arith)

  recv_failed :
      (n : ℕ) (peek : Bool) (w : W) (e : Errno)
      → (net.recv fd n peek true w).0 ≡ failed e
      → law.inbox (net.recv fd n peek true w).1 ≡ law.inbox w
  recv_failed n peek w e h = law.recv_fails n peek true w e h

  recv_outcome-Receives :
      (n : ℕ) (w : W) (a : Answer (List ℕ))
      → (net.recv fd n false true w).0 ≡ a
      → Receives n (law.inbox w) (recv_outcome a) (law.inbox (net.recv fd n false true w).1)
  unfolding recv_outcome
  recv_outcome-Receives n w (failed e) h = elim (Bool-cases (would_block e)) [
    | inl b ↦ rw b (recv_failed n false w e h)
    | inr b ↦ rw b (recv_failed n false w e h)
  ]
  recv_outcome-Receives n w (answered []) h =
      let (took, within, ended) = law.recvs n true w [] h in (sym took, ended refl)
  recv_outcome-Receives n w (answered (b ∷ bs)) h =
      let (took, within, ended) = law.recvs n true w (b ∷ bs) h in (took, omega arith, within)

  recv_outcome-Peeks :
      (n : ℕ) (w : W) (a : Answer (List ℕ))
      → 0 < n
      → (net.recv fd n true true w).0 ≡ a
      → Peeks n (law.inbox w) (recv_outcome a) (law.inbox (net.recv fd n true true w).1)
  unfolding recv_outcome
  recv_outcome-Peeks n w (failed e) room h = elim (Bool-cases (would_block e)) [
    | inl b ↦ rw b (recv_failed n true w e h)
    | inr b ↦ rw b (recv_failed n true w e h)
  ]
  recv_outcome-Peeks n w (answered []) room h =
      let (kept, shown, within, ended) = law.peeks n true w [] h in (kept, ended refl room)
  recv_outcome-Peeks n w (answered (b ∷ bs)) room h =
      let (kept, shown, within, ended) = law.peeks n true w (b ∷ bs) h in
      (kept, shown, omega arith, within)

  -- `linen_socket_recv_nb` gives the next bytes to come, at least one and at most as many as asked for,
  -- and takes exactly them; it takes none when it would block or fails; and it reports the end only
  -- when nothing is to come, unless it was asked for no byte.
  pub recv_nb-Receives :
      (maxlen : ℕ) (w : W)
      → let (r, w') = recv_nb net fd maxlen w in Receives maxlen (law.inbox w) r (law.inbox w')
  unfolding recv_nb
  recv_nb-Receives maxlen w = elim (Bool-cases (net.malloc maxlen w).0) [
    | inl there ↦ rw there (
        subst
          (λ i.
            Receives maxlen i
              (recv_outcome (net.recv fd maxlen false true (net.malloc maxlen w).1).0)
              (law.inbox (net.recv fd maxlen false true (net.malloc maxlen w).1).1))
          (law.mallocs maxlen w)
          (recv_outcome-Receives maxlen (net.malloc maxlen w).1
            (net.recv fd maxlen false true (net.malloc maxlen w).1).0 refl))
    | inr refused ↦ rw refused (law.mallocs maxlen w)
  ]

  -- `linen_socket_peek_nb` takes nothing. It shows the next bytes to come, at least one and at most as
  -- many as asked for, or one if none was asked for, and reports the end only when nothing is to come.
  pub peek_nb-Peeks :
      (maxlen : ℕ) (w : W)
      → let (r, w') = peek_nb net fd maxlen w in
        Peeks (if maxlen == 0 then 1 else maxlen) (law.inbox w) r (law.inbox w')
  unfolding peek_nb
  peek_nb-Peeks maxlen w =
      let n = if maxlen == 0 then 1 else maxlen in
      recv_outcome-Peeks n w (net.recv fd n true true w).0 (ground arith) refl

  -- `linen_socket_recv_nb` of no bytes never gives any: if it neither blocks nor fails, it reports the
  -- end, whatever is still to come.
  recv_nb_of_none :
      (w : W) (bs : List ℕ)
      → (net.malloc 0 w).0 ≡ true
      → (net.recv fd 0 false true (net.malloc 0 w).1).0 ≡ answered bs
      → (recv_nb net fd 0 w).0 ≡ eof
  unfolding recv_nb recv_outcome
  recv_nb_of_none w bs there h =
      let (took, within, ended) = law.recvs 0 true (net.malloc 0 w).1 bs h in
      rw there
        (ap (λ a. recv_outcome a) (h ∙ ap (λ l. answered l) (nil_of_length bs (omega arith))))
