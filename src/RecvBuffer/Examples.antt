-- ===== src/RecvBuffer/Examples.antt =====
-- Runs of the buffered reader of ffi/network.c over a socket that delivers three bytes at a time.
use linen.Base.{
  ℕ, suc, zero, ◌<◌, min, ◌≡◌, refl, sym, ap, ap₂, ◌∙◌, arith, List, [], ◌∷◌, ◌++◌, length, take,
  drop, pos, Fd, ok, length-take, take-append-drop,
}
use linen.RecvBuffer.{RecvBuf, RecvReply, got, fails, create, fill, readline, readn}
use linen.RecvBuffer.Valid.{create-IsValid}
use linen.RecvBuffer.Stream.{IsStream, unread, Filled, fill-Filled}
use linen.RecvBuffer.ReadN.{ReadN, readn_reads}
use linen.RecvBuffer.Lines.{ReadLine, readline_reads}

-- the bytes still to come
abbrev World : Type 0
World = List ℕ

abbrev trickle : Fd → ℕ → World → RecvReply × World
trickle fd n w = (got (take (min n 3) w), drop (min n 3) w)

abbrev to_come : Fd → World → List ℕ
to_come fd w = w

abbrev got_or : RecvReply → List ℕ → List ℕ
got_or (got bs) d = bs
got_or (fails e) d = d

no_fall : (k : ℕ) (w : World) → 0 < k → take k w ≡ [] → w ≡ []
no_fall k [] h e = refl
no_fall zero (x ∷ w) h e = absurd (omega arith)
no_fall (suc k) (x ∷ w) h e = cc

trickle-IsStream : IsStream trickle to_come
trickle-IsStream = record {
  got_prefix = λ fd n w w' bs e.
      let bytes : take (min n 3) w ≡ bs = ap (λ p. got_or p.0 []) e in
      let left : drop (min n 3) w ≡ w' = ap (λ p. p.1) e in
      (
        omega (arith, ap length bytes, length-take {0} (min n 3) w),
        sym (take-append-drop (min n 3) w) ∙ ap₂ (λ l r. l ++ r) bytes left,
      );
  got_nothing =
      λ fd n w w' pos_n e. no_fall (min n 3) w (omega arith) (ap (λ p. got_or p.0 (0 ∷ [])) e);
  failed_same = λ fd n w w' x e. let no_failure = ap (λ p. p.0) e in absurd (cc);
}

-- "ab", CRLF, "cde"
abbrev input : World
input = b'a' ∷ b'b' ∷ b'\r' ∷ b'\n' ∷ b'c' ∷ b'd' ∷ b'e' ∷ []

abbrev fresh : RecvBuf
fresh = create (pos 5)

-- A refill of a fresh buffer brings three bytes.
fill_example : let (r, rb, w) = fill trickle fresh input in Filled to_come fresh input r rb w
fill_example = fill-Filled trickle-IsStream fresh input (create-IsValid (pos 5))

-- Five bytes of the seven, over two calls of `recv`.
readn_example :
    let (r, rb, w) = readn trickle fresh 5 input in
    ReadN to_come 5 (unread to_come fresh input) (pos 5) r rb w
unfolding create
readn_example = readn_reads trickle-IsStream fresh 5 input (create-IsValid (pos 5)) (omega arith)

readn_five : (readn trickle fresh 5 input).0 ≡ ok (b'a' ∷ b'b' ∷ b'\r' ∷ b'\n' ∷ b'c' ∷ [])
unfolding readn create
readn_five = refl

-- The line before the CRLF that two calls of `recv` bring.
readline_example :
    let (r, rb, w) = readline trickle fresh input in
    ReadLine to_come (unread to_come fresh input) (pos 5) r rb w
unfolding create
readline_example = readline_reads trickle-IsStream fresh input (create-IsValid (pos 5))

readline_ab : (readline trickle fresh input).0 ≡ ok (b'a' ∷ b'b' ∷ [])
unfolding readline create
readline_ab = refl

-- At the end of the input the last line needs no CRLF.
readline_last : (readline trickle fresh (b'c' ∷ b'd' ∷ [])).0 ≡ ok (b'c' ∷ b'd' ∷ [])
unfolding readline create
readline_last = refl
