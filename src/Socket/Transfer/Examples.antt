-- ===== src/Socket/Transfer/Examples.antt =====
-- A socket whose `send` takes two bytes at a time, and whose peer has sent five bytes.
use linen.Base.{
  ℕ, ◌≤◌, ◌<◌, ◌≡◌, refl, sym, ap, ◌∙◌, true, List, [], ◌∷◌, ◌++◌, arith, if◌then◌else◌, length,
  take, drop, min, pos, length-take, take-append-drop, take-append, nil_of_length,
}
use linen.Socket.{Answer, answered, failed}
use linen.Socket.Transfer.{Transport, sendall, recv_nb, peek_nb}
use linen.Socket.Transfer.Streams.{
  IsStreamSocket, SentAll, Receives, Peeks, sendall-SentAll, recv_nb-Receives, peek_nb-Peeks,
}

-- the bytes to come, and the bytes sent
abbrev Wire : Type 0
Wire = List ℕ × List ℕ

abbrev wire : Transport Wire
wire = record {
  malloc = λ n w. (true, w);
  send = λ fd bytes nowait w.
      (answered (min 2 (length bytes)), (w.0, w.1 ++ take (min 2 (length bytes)) bytes));
  recv = λ fd n peek nowait w. (answered (take n w.0), ((if peek then w.0 else drop n w.0), w.1));
}

wire_value : List ℕ → Answer (List ℕ) → List ℕ
wire_value d (answered bs) = bs
wire_value d (failed e) = d

wire_count : Answer ℕ → ℕ
wire_count (answered n) = n
wire_count (failed e) = 0

nil_of_take : (n : ℕ) (xs : List ℕ) → take n xs ≡ [] → 0 < n → xs ≡ []
nil_of_take n xs h room =
    nil_of_length xs (omega (arith, length-take {0} n xs, ap (λ l. length l) h))

wire-sends :
    (bytes out : List ℕ) (n : ℕ)
    → min 2 (length bytes) ≡ n
    → (n ≤ length bytes) × (out ++ take (min 2 (length bytes)) bytes ≡ out ++ take n bytes)
wire-sends bytes out n h = (omega arith, ap (λ k. out ++ take k bytes) h)

wire-recvs :
    (n : ℕ) (inbox bs : List ℕ)
    → take n inbox ≡ bs
    → (inbox ≡ bs ++ drop n inbox)
      × (bs ≡ take (length bs) inbox)
      × (length bs ≤ n)
      × (bs ≡ [] → 0 < n → inbox ≡ [])
wire-recvs n inbox bs h =
    let whole = sym (take-append-drop n inbox) ∙ ap (λ l. l ++ drop n inbox) h in
    (
      whole,
      sym (take-append bs (drop n inbox) (length bs) refl)
          ∙ ap (λ l. take (length bs) l) (sym whole),
      omega (arith, length-take {0} n inbox, ap (λ l. length l) h),
      λ e. nil_of_take n inbox (h ∙ e),
    )

wire-IsStreamSocket : IsStreamSocket wire (pos 4)
unfolding wire_value wire_count
wire-IsStreamSocket = record {
  inbox = λ w. w.0;
  outbox = λ w. w.1;
  mallocs = λ n w. refl;
  sends = λ bytes nowait w n h. wire-sends bytes w.1 n (ap wire_count h);
  send_fails = λ bytes nowait w e h. cc;
  recvs = λ n nowait w bs h.
      let (took, shown, within, ended) = wire-recvs n w.0 bs (ap (wire_value []) h) in
      (took, within, ended);
  peeks = λ n nowait w bs h.
      let (took, shown, within, ended) = wire-recvs n w.0 bs (ap (wire_value []) h) in
      (refl, shown, within, ended);
  recv_fails = λ n peek nowait w e h. cc;
}

abbrev five : Wire
five = (1 ∷ 2 ∷ 3 ∷ 4 ∷ 5 ∷ [], [])

sendall-SentAll_example :
    let (r, w') = sendall wire (pos 4) (7 ∷ 8 ∷ 9 ∷ []) five in SentAll (7 ∷ 8 ∷ 9 ∷ []) [] r w'.1
unfolding wire-IsStreamSocket sendall
sendall-SentAll_example = sendall-SentAll wire (pos 4) wire-IsStreamSocket (7 ∷ 8 ∷ 9 ∷ []) five

recv_nb-Receives_example : let (r, w') = recv_nb wire (pos 4) 3 five in Receives 3 five.0 r w'.0
unfolding wire-IsStreamSocket recv_nb
recv_nb-Receives_example = recv_nb-Receives wire (pos 4) wire-IsStreamSocket 3 five

peek_nb-Peeks_example : let (r, w') = peek_nb wire (pos 4) 0 five in Peeks 1 five.0 r w'.0
unfolding wire-IsStreamSocket peek_nb
peek_nb-Peeks_example = peek_nb-Peeks wire (pos 4) wire-IsStreamSocket 0 five
