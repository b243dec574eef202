-- ===== src/RecvBuffer/ReadN.antt =====
-- `linen_recvbuf_readn` of ffi/network.c: it takes the next bytes of the stream, however `recv` cuts
-- the stream into pieces.
use linen.Base.{
  ℕ, zero, suc, ◌+◌, ◌-◌, ◌^◌, ◌≤◌, ◌<◌, min, ◌≡◌, refl, sym, ap, ap₂, ◌∙◌, inl, inr, List, [], ◌∷◌,
  ◌++◌, append-nil, append_assoc, arith, ltb, leb, ltb→lt, leb→le, leb→gt, if◌then◌else◌,
  Bool-cases, length, take, drop, length-append, length-take, nil_of_length, length-drop,
  take-append, drop-append, take-all, drop-all, add_size, sub_size, Fd, Result, ok, error,
  out_of_fuel,
}
use linen.RecvBuffer.{
  RecvBuf, RecvReply, Fill, filled, fill_failed, slice, copy_avail, fill, readn_after, readn_loop,
  readn,
}
use linen.RecvBuffer.Valid.{IsValid, view, length-view}
use linen.RecvBuffer.Stream.{IsStream, unread, Filled, fill-Filled}

-- what the copy of the buffered bytes does
record Copied (n : ℕ) (dst : List ℕ) (rb : RecvBuf) (dst' : List ℕ) (rb' : RecvBuf) : Type 0 where
  valid : IsValid rb'
  same_fd : rb'.fd ≡ rb.fd
  kept : dst' ++ view rb' ≡ dst ++ view rb
  count : length dst' ≡ min n (length dst + length (view rb))

slice-nil : (i n : ℕ) → slice [] i n ≡ []
slice-nil zero zero = refl
slice-nil zero (suc n) = refl
slice-nil (suc i) zero = refl
slice-nil (suc i) (suc n) = refl

-- A slice is its first `k` bytes and those behind them.
slice-append :
    (b : List ℕ) (i j k m : ℕ) → j ≡ i + k → k ≤ m → slice b i k ++ slice b j (m - k) ≡ slice b i m
slice-append [] i j k m e h = rw (slice-nil i k, slice-nil j (m - k), slice-nil i m)
slice-append (x ∷ b) (suc i) zero k m e h = absurd (omega arith)
slice-append (x ∷ b) (suc i) (suc j) k m e h = slice-append b i j k m (omega arith) h
slice-append (x ∷ b) zero zero zero m e h = ap (slice (x ∷ b) 0) (omega arith)
slice-append (x ∷ b) zero (suc j) zero m e h = absurd (omega arith)
slice-append (x ∷ b) zero j (suc k) zero e h = absurd (omega arith)
slice-append (x ∷ b) zero zero (suc k) (suc m) e h = absurd (omega arith)
slice-append (x ∷ b) zero (suc j) (suc k) (suc m) e h =
    ap (λ r. x ∷ r)
      (ap (λ t. take k b ++ slice b j t) (omega arith)
        ∙ slice-append b 0 j k m (omega arith) (omega arith))

-- the copy of `k` bytes, as many as are buffered and wanted
advance-Copied :
    (n k : ℕ) (dst : List ℕ) (rb : RecvBuf)
    → IsValid rb
    → length dst ≤ n
    → k ≡ min (rb.len - rb.pos) (n - length dst)
    → Copied n dst rb (dst ++ slice rb.buf rb.pos k) (record rb { pos = add_size rb.pos k })
advance-Copied n k dst rb v h e =
    let j = add_size rb.pos k in
    record {
      valid = record {
        consumed = omega (arith, v.consumed, v.fits);
        fits = v.fits;
        sized = v.sized;
      };
      same_fd = refl;
      kept =
          append_assoc dst (slice rb.buf rb.pos k) (slice rb.buf j (rb.len - j))
          ∙ ap (λ r. dst ++ r)
              (ap (λ t. slice rb.buf rb.pos k ++ slice rb.buf j t)
                  (omega (arith, v.consumed, v.fits))
                ∙ slice-append rb.buf rb.pos j k (rb.len - rb.pos)
                    (omega (arith, v.consumed, v.fits)) (omega arith));
      count = omega (
        arith,
        v.consumed,
        v.fits,
        v.sized,
        length-view v,
        length-append {0} dst (slice rb.buf rb.pos k),
        length-take {0} k (drop rb.pos rb.buf),
        length-drop {0} rb.pos rb.buf,
      );
    }

copy_avail-Copied :
    (n : ℕ) (dst : List ℕ) (rb : RecvBuf)
    → IsValid rb
    → length dst ≤ n
    → n < 2 ^ 64
    → let (dst', rb') = copy_avail n (dst, rb) in Copied n dst rb dst' rb'
unfolding copy_avail
copy_avail-Copied n dst rb v h small = elim (Bool-cases (ltb 0 (sub_size rb.len rb.pos))) [
  | inl some_buffered ↦
      rw some_buffered (advance-Copied n _ dst rb v h (ground (arith, v.consumed, v.fits)))
  | inr none_buffered ↦
      rw none_buffered
        (record { valid = v; same_fd = refl; kept = refl; count = ground (arith, length-view v) })
]

-- What a read of `n` bytes makes of the stream `all`, `rest` being what is left of it.
abbrev pub ReadsN : ℕ → List ℕ → Result (List ℕ) → List ℕ → Type 0
ReadsN n all (ok bs) rest = (bs ≡ take n all) × (rest ≡ drop n all)
ReadsN n all (error e) rest = (taken : List ℕ) × (all ≡ taken ++ rest) × (length taken < n)
ReadsN n all out_of_fuel rest = ⊥

module _ {W : Type 0} (stream : Fd → W → List ℕ) where
  pub record ReadN (n : ℕ) (all : List ℕ) (sock : Fd) (r : Result (List ℕ)) (rb : RecvBuf) (w : W)
      : Type 0 where
    pub valid : IsValid rb
    pub same_fd : rb.fd ≡ sock
    pub reads : ReadsN n all r (unread stream rb w)

  -- enough bytes are there
  enough-ReadN :
      (n : ℕ) (all dst : List ℕ) (sock : Fd) (rb : RecvBuf) (w : W)
      → IsValid rb
      → rb.fd ≡ sock
      → dst ++ unread stream rb w ≡ all
      → length dst ≡ n
      → ReadN n all sock (ok dst) rb w
  enough-ReadN n all dst sock rb w v fd e h = record {
    valid = v;
    same_fd = fd;
    reads = (
      sym (take-append dst (unread stream rb w) n (sym h)) ∙ ap (take n) e,
      sym (drop-append dst (unread stream rb w) n (sym h)) ∙ ap (drop n) e,
    );
  }

  -- the stream has ended before
  ended-ReadN :
      (n : ℕ) (all dst : List ℕ) (sock : Fd) (rb : RecvBuf) (w : W)
      → IsValid rb
      → rb.fd ≡ sock
      → dst ++ unread stream rb w ≡ all
      → unread stream rb w ≡ []
      → length dst ≤ n
      → ReadN n all sock (ok dst) rb w
  ended-ReadN n all dst sock rb w v fd e none_left h =
      let whole : all ≡ dst = sym e ∙ ap (λ r. dst ++ r) none_left ∙ append-nil dst in
      record {
        valid = v;
        same_fd = fd;
        reads = (
          sym (ap (take n) whole ∙ take-all n dst h),
          none_left ∙ sym (ap (drop n) whole ∙ drop-all n dst h),
        );
      }

  abbrev pub DoesReadN : ℕ → List ℕ → Fd → Result (List ℕ) × RecvBuf × W → Type 0
  DoesReadN n all sock (r, rb, w) = ReadN n all sock r rb w

  -- The rest of a round, after the copy has emptied the buffer; `ih` is about the next round.
  readn_after-ReadN :
      (again : RecvBuf → W → Result (List ℕ) × RecvBuf × W) (n : ℕ) (all dst : List ℕ) (sock : Fd)
      (rb : RecvBuf) (w : W) (r : Fill) (rb' : RecvBuf) (w' : W)
      → ((rb' : RecvBuf) (w' : W)
          → IsValid rb'
          → rb'.fd ≡ sock
          → dst ++ unread stream rb' w' ≡ all
          → 0 < length (view rb')
          → DoesReadN n all sock (again rb' w'))
      → rb.fd ≡ sock
      → dst ++ unread stream rb w ≡ all
      → view rb ≡ []
      → length dst < n
      → Filled stream rb w r rb' w'
      → DoesReadN n all sock (readn_after again dst (r, rb', w'))
  unfolding readn_after
  readn_after-ReadN again n all dst sock rb w (fill_failed x) rb' w' ih fd e empty h f = record {
    valid = f.valid;
    same_fd = f.same_fd ∙ fd;
    reads = (dst, sym e ∙ ap (λ u. dst ++ u) (sym f.kept), h);
  }
  readn_after-ReadN again n all dst sock rb w (filled zero) rb' w' ih fd e empty h f =
      ended-ReadN n all dst sock rb' w' f.valid (f.same_fd ∙ fd) (ap (λ u. dst ++ u) f.kept ∙ e)
        (f.reports.1 refl (rw empty (omega arith)) ∙ empty) (omega arith)
  readn_after-ReadN again n all dst sock rb w (filled (suc k)) rb' w' ih fd e empty h f =
      ih rb' w' f.valid (f.same_fd ∙ fd) (ap (λ u. dst ++ u) f.kept ∙ e)
        (omega (arith, f.reports.0))

module _ {W : Type 0} {recv : Fd → ℕ → W → RecvReply × W} {stream : Fd → W → List ℕ}
    (law : IsStream recv stream) where
  -- One round of the loop; `again` is the rest of it and `ih` what is known of that.
  readn_round :
      (f n : ℕ) (all dst : List ℕ) (sock : Fd) (rb : RecvBuf) (w : W)
      (again : List ℕ → RecvBuf → W → Result (List ℕ) × RecvBuf × W)
      → ((dst' : List ℕ) (rb' : RecvBuf) (w' : W)
          → IsValid rb'
          → rb'.fd ≡ sock
          → dst' ++ unread stream rb' w' ≡ all
          → length dst' < n
          → n < f + length dst'
          → 0 < length (view rb')
          → DoesReadN stream n all sock (again dst' rb' w'))
      → rb.fd ≡ sock
      → dst ++ unread stream rb w ≡ all
      → n + 1 < suc f + length dst + min 1 (length (view rb))
      → length dst < n
      → (dst' : List ℕ) (rb' : RecvBuf) → Copied n dst rb dst' rb'
      → DoesReadN stream n all sock (
          if leb n (length dst')
          then (ok dst', rb', w)
          else readn_after (again dst') dst' (fill recv rb' w))
  readn_round f n all dst sock rb w again ih fd e fuel lt dst' rb' c =
      let kept : dst' ++ unread stream rb' w ≡ all =
        sym (append_assoc dst' (view rb') (stream rb'.fd w))
        ∙ ap₂ (λ l x. l ++ stream x w) c.kept c.same_fd
        ∙ append_assoc dst (view rb) (stream rb.fd w)
        ∙ e in
      let sizes : length dst' + length (view rb') ≡ length dst + length (view rb) =
        sym (length-append dst' (view rb')) ∙ ap length c.kept ∙ length-append dst (view rb) in
      let none_left : length dst' < n → length (view rb') ≡ 0 = λ short. omega (arith, c.count) in
      elim (Bool-cases (leb n (length dst'))) [
        | inl done ↦ rw done (
            enough-ReadN stream n all dst' sock rb' w c.valid (c.same_fd ∙ fd) kept
              (omega (arith, leb→le _ _ done, c.count)))
        | inr short ↦ rw short (
            readn_after-ReadN stream (again dst') n all dst' sock rb' w _ _ _
              (λ rb'' w'' v'' fd'' e'' some_there.
                ih dst' rb'' w'' v'' fd'' e'' (leb→gt _ _ short)
                  (omega (arith, leb→gt _ _ short, c.count)) some_there)
              (c.same_fd ∙ fd) kept (nil_of_length (view rb') (none_left (leb→gt _ _ short)))
              (leb→gt _ _ short) (fill-Filled law rb' w c.valid))
      ]

  readn_loop-ReadN :
      (f n : ℕ) (all dst : List ℕ) (sock : Fd) (rb : RecvBuf) (w : W)
      → IsValid rb
      → rb.fd ≡ sock
      → dst ++ unread stream rb w ≡ all
      → length dst ≤ n
      → n < 2 ^ 64
      → n + 1 < f + length dst + min 1 (length (view rb))
      → DoesReadN stream n all sock (readn_loop recv f n dst rb w)
  unfolding readn_loop
  readn_loop-ReadN zero n all dst sock rb w v fd e h small fuel = absurd (omega arith)
  readn_loop-ReadN (suc f) n all dst sock rb w v fd e h small fuel =
      elim (Bool-cases (ltb (length dst) n)) [
        | inr done ↦ rw done (enough-ReadN stream n all dst sock rb w v fd e (ground arith))
        | inl more ↦ rw more (
            readn_round f n all dst sock rb w (readn_loop recv f n)
              (λ dst' rb' w' v' fd' e' lt fuel' some_there.
                readn_loop-ReadN f n all dst' sock rb' w' v' fd' e' (omega arith) small
                  (omega arith))
              fd e fuel (ltb→lt _ _ more) _ _ (copy_avail-Copied n dst rb v h small))
      ]

  -- On a valid buffer over a stream socket `linen_recvbuf_readn` of `n` bytes gives the next `n` bytes
  -- of the stream, or all of them if it ends before, and leaves exactly the rest unread, however
  -- `recv` cuts the stream into pieces. On an error fewer than `n` bytes have been taken off the
  -- stream, and they are lost. The buffer stays valid and keeps its descriptor, and the loop ends.
  pub readn_reads :
      (rb : RecvBuf) (n : ℕ) (w : W)
      → IsValid rb
      → n < 2 ^ 64
      → DoesReadN stream n (unread stream rb w) rb.fd (readn recv rb n w)
  unfolding readn
  readn_reads rb n w v small =
      readn_loop-ReadN (n + 2) n (unread stream rb w) [] rb.fd rb w v refl refl (omega arith) small
        (omega arith)
