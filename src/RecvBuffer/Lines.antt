-- ===== src/RecvBuffer/Lines.antt =====
-- The outer loop of `linen_recvbuf_readline` of ffi/network.c, which scans and refills.
use linen.Base.{
  ℕ, zero, suc, ◌+◌, ◌≤◌, ◌<◌, min, ◌≡◌, refl, sym, ap, ap₂, ◌∙◌, ◌⊎◌, inl, inr, false, List, [],
  ◌∷◌, ◌++◌, append-nil, append_assoc, reverse, arith, length, Fd, Result, ok, error, out_of_fuel,
  user_error, os_error, sub_size,
}
use linen.RecvBuffer.{
  RecvBuf, line_size, RecvReply, Fill, filled, fill_failed, Scan, line_done, line_too_long, drained,
  fill, readline_after, readline_loop, readline,
}
use linen.RecvBuffer.Valid.{IsValid, view}
use linen.RecvBuffer.Stream.{IsStream, unread, Filled, fill-Filled}
use linen.RecvBuffer.ReadLine.{has_crlf, Scanned, scan-Scanned, length-reverse}

-- What reading a line makes of the stream `all`, `rest` being what is left of it.
abbrev pub ReadsLine : List ℕ → Result (List ℕ) → List ℕ → Type 0
ReadsLine all (ok l) rest =
    ((all ≡ l ++ b'\r' ∷ b'\n' ∷ rest)
      × (has_crlf (l ++ b'\r' ∷ []) ≡ false)
      × (length l + 2 ≤ line_size))
    ⊎ ((all ≡ l) × (rest ≡ []) × (has_crlf l ≡ false) × (length l < line_size))
ReadsLine all (error (user_error m)) rest =
    (p : List ℕ) × (all ≡ p ++ rest) × (has_crlf p ≡ false) × (length p ≡ line_size)
ReadsLine all (error (os_error e)) rest =
    (p : List ℕ) × (all ≡ p ++ rest) × (has_crlf p ≡ false) × (length p < line_size)
ReadsLine all out_of_fuel rest = ⊥

module _ {W : Type 0} (stream : Fd → W → List ℕ) where
  pub record ReadLine (all : List ℕ) (sock : Fd) (r : Result (List ℕ)) (rb : RecvBuf) (w : W)
      : Type 0 where
    pub valid : IsValid rb
    pub same_fd : rb.fd ≡ sock
    pub reads : ReadsLine all r (unread stream rb w)

  abbrev pub DoesReadLine : List ℕ → Fd → Result (List ℕ) × RecvBuf × W → Type 0
  DoesReadLine all sock (r, rb, w) = ReadLine all sock r rb w

  -- what holds at the top of the loop
  record Reading (f : ℕ) (all : List ℕ) (sock : Fd) (line : List ℕ) (rb : RecvBuf) (w : W)
      : Type 0 where
    valid : IsValid rb
    same_fd : rb.fd ≡ sock
    kept : reverse line ++ unread stream rb w ≡ all
    no_crlf : has_crlf (reverse line) ≡ false
    short : length line < line_size
    fuel : line_size < f + length line + min 1 (length (view rb))

  -- The rest of a round, after the scan has emptied the buffer.
  readline_after-ReadLine :
      (again : RecvBuf → W → Result (List ℕ) × RecvBuf × W) (f : ℕ) (all : List ℕ) (sock : Fd)
      (line : List ℕ) (rb : RecvBuf) (w : W) (r : Fill) (rb' : RecvBuf) (w' : W)
      → ((rb' : RecvBuf) (w' : W)
          → Reading f all sock line rb' w'
          → DoesReadLine all sock (again rb' w'))
      → rb.fd ≡ sock
      → reverse line ++ unread stream rb w ≡ all
      → view rb ≡ []
      → has_crlf (reverse line) ≡ false
      → length line < line_size
      → line_size < f + length line + 1
      → Filled stream rb w r rb' w'
      → DoesReadLine all sock (readline_after again line (r, rb', w'))
  unfolding readline_after
  readline_after-ReadLine again f all sock line rb w (fill_failed x) rb' w' ih fd e empty no_crlf
        short fuel filling =
      record {
        valid = filling.valid;
        same_fd = filling.same_fd ∙ fd;
        reads = (
          reverse line,
          sym e ∙ ap (λ u. reverse line ++ u) (sym filling.kept),
          no_crlf,
          omega (arith, length-reverse line),
        );
      }
  readline_after-ReadLine again f all sock line rb w (filled zero) rb' w' ih fd e empty no_crlf
        short fuel filling =
      let none_left : unread stream rb' w' ≡ [] =
        filling.reports.1 refl (omega (arith, ap length empty)) ∙ empty in
      record {
        valid = filling.valid;
        same_fd = filling.same_fd ∙ fd;
        reads = inr (
          sym e
              ∙ ap (λ u. reverse line ++ u) (sym filling.kept ∙ none_left)
              ∙ append-nil (reverse line),
          none_left,
          no_crlf,
          omega (arith, length-reverse line),
        );
      }
  readline_after-ReadLine again f all sock line rb w (filled (suc k)) rb' w' ih fd e empty no_crlf
        short fuel filling =
      ih rb' w' (record {
        valid = filling.valid;
        same_fd = filling.same_fd ∙ fd;
        kept = ap (λ u. reverse line ++ u) filling.kept ∙ e;
        no_crlf = no_crlf;
        short = short;
        fuel = omega (arith, filling.reports.0);
      })

module _ {W : Type 0} {recv : Fd → ℕ → W → RecvReply × W} {stream : Fd → W → List ℕ}
    (law : IsStream recv stream) where
  -- What the scan leaves of the buffer stands before what is still to come.
  regroup :
      (all : List ℕ) (line p : List ℕ) (rb rb' : RecvBuf) (w : W)
      → rb'.fd ≡ rb.fd
      → reverse line ++ view rb ≡ p ++ view rb'
      → reverse line ++ unread stream rb w ≡ all
      → p ++ unread stream rb' w ≡ all
  regroup all line p rb rb' w fd e kept =
      sym (append_assoc p (view rb') (stream rb'.fd w))
      ∙ ap₂ (λ l x. l ++ stream x w) (sym e) fd
      ∙ append_assoc (reverse line) (view rb) (stream rb.fd w)
      ∙ kept

  -- One round of the loop; `again` is the rest of it and `ih` what is known of that.
  readline_round :
      (f : ℕ) (all : List ℕ) (sock : Fd) (line : List ℕ) (rb : RecvBuf) (w : W)
      (again : List ℕ → RecvBuf → W → Result (List ℕ) × RecvBuf × W)
      → ((line' : List ℕ) (rb' : RecvBuf) (w' : W)
          → Reading stream f all sock line' rb' w'
          → DoesReadLine stream all sock (again line' rb' w'))
      → Reading stream (suc f) all sock line rb w
      → (s : Scan) (rb' : RecvBuf) → Scanned line rb s rb'
      → DoesReadLine stream all sock (elim s [
        | line_done l ↦ (ok l, rb', w)
        | line_too_long ↦ (error (user_error "recvbuf_readline: line too long (>8KB)"), rb', w)
        | drained line' ↦ readline_after (again line') line' (fill recv rb' w)
      ])
  readline_round f all sock line rb w again ih i (line_done l) rb' s = record {
    valid = s.valid;
    same_fd = s.same_fd ∙ i.same_fd;
    reads = inl (
      sym (
            regroup all line (l ++ b'\r' ∷ b'\n' ∷ []) rb rb' w s.same_fd
              (s.finds.0 ∙ sym (append_assoc l _ (view rb'))) i.kept)
          ∙ append_assoc l _ _,
      s.finds.1,
      s.finds.2,
    );
  }
  readline_round f all sock line rb w again ih i line_too_long rb' s = record {
    valid = s.valid;
    same_fd = s.same_fd ∙ i.same_fd;
    reads = (
      s.finds.0,
      sym (regroup all line s.finds.0 rb rb' w s.same_fd s.finds.1 i.kept),
      s.finds.2,
      s.finds.3,
    );
  }
  readline_round f all sock line rb w again ih i (drained line') rb' s =
      readline_after-ReadLine stream (again line') f all sock line' rb' w _ _ _ (ih line')
        (s.same_fd ∙ i.same_fd)
        (regroup all line (reverse line') rb rb' w s.same_fd
          (sym s.finds.0
            ∙ sym (ap (λ v. reverse line' ++ v) s.finds.1 ∙ append-nil (reverse line')))
          i.kept)
        s.finds.1 s.finds.2 s.finds.3 (omega (arith, i.fuel, s.finds.4))
        (fill-Filled law rb' w s.valid)

  readline_loop-ReadLine :
      (f : ℕ) (all : List ℕ) (sock : Fd) (line : List ℕ) (rb : RecvBuf) (w : W)
      → Reading stream f all sock line rb w
      → DoesReadLine stream all sock (readline_loop recv f line rb w)
  unfolding readline_loop
  readline_loop-ReadLine zero all sock line rb w i = absurd (omega (arith, i.fuel, i.short))
  readline_loop-ReadLine (suc f) all sock line rb w i =
      readline_round f all sock line rb w (readline_loop recv f)
        (λ line' rb' w'. readline_loop-ReadLine f all sock line' rb' w') i _ _
        (scan-Scanned (sub_size rb.len rb.pos) line rb i.valid
          (omega (arith, i.valid.fits, i.valid.consumed)) i.no_crlf i.short)

  -- On a valid buffer over a stream socket `linen_recvbuf_readline` returns the bytes before the
  -- first CRLF of the stream and leaves exactly what follows it, or the whole of a stream of fewer
  -- than 8192 bytes that has no CRLF. It reports a line too long only when it has taken 8192 bytes
  -- with no CRLF among them. On an error the bytes taken, with no CRLF among them, are lost. The
  -- buffer stays valid and keeps its descriptor, and the loop ends, however `recv` cuts the stream.
  pub readline_reads :
      (rb : RecvBuf) (w : W)
      → IsValid rb
      → DoesReadLine stream (unread stream rb w) rb.fd (readline recv rb w)
  unfolding readline
  readline_reads rb w v =
      readline_loop-ReadLine (line_size + 1) (unread stream rb w) rb.fd [] rb w (record {
        valid = v;
        same_fd = refl;
        kept = refl;
        no_crlf = refl;
        short = omega arith;
        fuel = omega arith;
      })
