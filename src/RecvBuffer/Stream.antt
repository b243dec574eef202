-- ===== src/RecvBuffer/Stream.antt =====
-- The buffer of ffi/network.c against a byte stream: what is buffered together with what `recv` will
-- still deliver. `recvbuf_fill` moves bytes from the one to the other and loses none.
use linen.Base.{
  ℕ, zero, suc, ◌+◌, ◌≤◌, ◌<◌, ◌≡◌, refl, sym, ap, ap₂, ◌∙◌, ◌⊎◌, inl, inr, List, [], ◌∷◌, ◌++◌,
  append-nil, append_assoc, arith, ◌==◌, if◌then◌else◌, Bool-cases, length, length-append, sub_size,
  Fd, Errno, errno_other, would_block,
}
use linen.RecvBuffer.{
  RecvBuf, recvbuf_size, RecvReply, got, fails, Fill, filled, fill_failed, compact, store,
  fill_after, fill_retry, fill,
}
use linen.RecvBuffer.Valid.{IsValid, view, length-view, Compacted, compact-Compacted, store-Stored}

-- A reading of `recv` as a stream socket: it stores a prefix, of at most the room given and not
-- empty, of the bytes still to come, or nothing at their end, and a failed call takes none.
pub record IsStream {W : Type 0} (recv : Fd → ℕ → W → RecvReply × W) (stream : Fd → W → List ℕ)
    : Type 0 where
  pub got_prefix :
      (fd : Fd) (n : ℕ) (w w' : W) (bs : List ℕ)
      → recv fd n w ≡ (got bs, w')
      → (length bs ≤ n) × (stream fd w ≡ bs ++ stream fd w')
  pub got_nothing :
      (fd : Fd) (n : ℕ) (w w' : W) → 0 < n → recv fd n w ≡ (got [], w') → stream fd w ≡ []
  pub failed_same :
      (fd : Fd) (n : ℕ) (w w' : W) (e : Errno)
      → recv fd n w ≡ (fails e, w')
      → stream fd w' ≡ stream fd w

module _ {W : Type 0} (stream : Fd → W → List ℕ) where
  abbrev pub unread : RecvBuf → W → List ℕ
  unread rb w = view rb ++ stream rb.fd w

  -- what a refill reports: how many bytes came, none of them only at the end or into a full buffer
  abbrev pub FillReports : RecvBuf → Fill → RecvBuf → W → Type 0
  FillReports rb (fill_failed e) rb' w' = view rb' ≡ view rb
  FillReports rb (filled n) rb' w' =
      (length (view rb') ≡ length (view rb) + n)
      × (n ≡ 0 → length (view rb) < recvbuf_size → unread rb' w' ≡ view rb)

  pub record Filled (rb : RecvBuf) (w : W) (r : Fill) (rb' : RecvBuf) (w' : W) : Type 0 where
    pub valid : IsValid rb'
    pub same_fd : rb'.fd ≡ rb.fd
    pub kept : unread rb' w' ≡ unread rb w
    pub reports : FillReports rb r rb' w'

-- A refill from the world before a failed call, or of the buffer before its compaction.
Filled-world :
    {W : Type 0} (stream : Fd → W → List ℕ) {rb rb' : RecvBuf} {w v w' : W} {r : Fill}
    → stream rb.fd v ≡ stream rb.fd w
    → Filled stream rb v r rb' w'
    → Filled stream rb w r rb' w'
Filled-world stream {rb} same f = record {
  valid = f.valid;
  same_fd = f.same_fd;
  kept = f.kept ∙ ap (λ l. view rb ++ l) same;
  reports = f.reports;
}

FillReports-view :
    {W : Type 0} (stream : Fd → W → List ℕ) (rb c : RecvBuf) (r : Fill) (rb' : RecvBuf) (w' : W)
    → view c ≡ view rb
    → FillReports stream c r rb' w'
    → FillReports stream rb r rb' w'
FillReports-view stream rb c (filled n) rb' w' e (count, ended) =
    (count ∙ ap (λ l. length l + n) e, λ none_came room. ended none_came (rw e room) ∙ e)
FillReports-view stream rb c (fill_failed x) rb' w' e same = same ∙ e

Filled-compact :
    {W : Type 0} (stream : Fd → W → List ℕ) {rb c rb' : RecvBuf} {w w' : W} {r : Fill}
    → Compacted rb c
    → Filled stream c w r rb' w'
    → Filled stream rb w r rb' w'
Filled-compact stream {rb} {c} {rb'} {w} {w'} {r} k f = record {
  valid = f.valid;
  same_fd = f.same_fd ∙ k.same_fd;
  kept = f.kept ∙ ap₂ (λ l fd. l ++ stream fd w) k.same_view k.same_fd;
  reports = FillReports-view stream rb c r rb' w' k.same_view f.reports;
}

-- What a call of `recv` gives, with the equation that says so.
reply-cases :
    {W : Type 0} (p : RecvReply × W)
    → ((bs : List ℕ) × (w : W) × (p ≡ (got bs, w))) ⊎ ((e : Errno) × (w : W) × (p ≡ (fails e, w)))
reply-cases (got bs, w) = inl (bs, w, refl)
reply-cases (fails e, w) = inr (e, w, refl)

module _ {W : Type 0} {recv : Fd → ℕ → W → RecvReply × W} {stream : Fd → W → List ℕ}
    (law : IsStream recv stream) where
  got-Filled :
      (rb : RecvBuf) (w w' : W) (bs : List ℕ)
      → IsValid rb
      → rb.pos ≡ 0
      → rb.len < recvbuf_size
      → recv rb.fd (sub_size recvbuf_size rb.len) w ≡ (got bs, w')
      → Filled stream rb w (filled (length bs)) (store rb bs) w'
  unfolding store
  got-Filled rb w w' bs v front some_room e =
      let p = law.got_prefix rb.fd (sub_size recvbuf_size rb.len) w w' bs e in
      let s = store-Stored rb bs v front p.0 in
      let kept : unread stream (store rb bs) w' ≡ unread stream rb w =
        ap (λ l. l ++ stream rb.fd w') s.longer
        ∙ append_assoc (view rb) bs (stream rb.fd w')
        ∙ ap (λ l. view rb ++ l) (sym p.1) in
      record {
        valid = s.valid;
        same_fd = refl;
        kept = kept;
        reports = (
          ap length s.longer ∙ length-append (view rb) bs,
          λ none_came _. kept ∙ ended bs e none_came,
        );
      }
    where
      ended :
          (bs : List ℕ)
          → recv rb.fd (sub_size recvbuf_size rb.len) w ≡ (got bs, w')
          → length bs ≡ 0
          → unread stream rb w ≡ view rb
      ended [] e h =
          ap (λ l. view rb ++ l)
            (law.got_nothing rb.fd (sub_size recvbuf_size rb.len) w w' (omega arith) e)
          ∙ append-nil (view rb)
      ended (b ∷ bs) e h = absurd (omega arith)

  fill_retry-Filled :
      (k : ℕ) (e : Errno) (rb : RecvBuf) (w : W)
      → IsValid rb
      → rb.pos ≡ 0
      → rb.len < recvbuf_size
      → let (r, rb', w') = fill_retry recv k e (sub_size recvbuf_size rb.len) rb w in
        Filled stream rb w r rb' w'
  unfolding fill_retry fill_after
  fill_retry-Filled zero e rb w v front some_room = record {
    valid = v;
    same_fd = refl;
    kept = refl;
    reports = refl;
  }
  fill_retry-Filled (suc k) e rb w v front some_room =
      elim (reply-cases (recv rb.fd (sub_size recvbuf_size rb.len) w)) [
        | inl (bs, w', got_bs) ↦
            rw (got_bs, fill_after) (got-Filled rb w w' bs v front some_room got_bs)
        | inr (e', w', failed) ↦
            rw (failed, fill_after)
              (elim (Bool-cases (would_block e')) [
                | inl again ↦ rw again (
                    Filled-world stream (law.failed_same rb.fd _ w w' e' failed)
                      (fill_retry-Filled k e' rb w' v front some_room))
                | inr hard ↦ rw hard (record {
                  valid = v;
                  same_fd = refl;
                  kept = ap (λ l. view rb ++ l) (law.failed_same rb.fd _ w w' e' failed);
                  reports = refl;
                })
              ])
      ]

  fill_front-Filled :
      (rb : RecvBuf) (w : W)
      → IsValid rb
      → rb.pos ≡ 0
      → let space = sub_size recvbuf_size rb.len in
        let (r, rb', w') =
          if space == 0 then (filled 0, rb, w) else fill_retry recv 4 (errno_other 0) space rb w in
        Filled stream rb w r rb' w'
  fill_front-Filled rb w v front = elim (Bool-cases (sub_size recvbuf_size rb.len == 0)) [
    | inl full ↦ rw full (record {
      valid = v;
      same_fd = refl;
      kept = refl;
      reports = (omega arith, λ _ room. absurd (ground (arith, length-view v)));
    })
    | inr some_room ↦ rw some_room (fill_retry-Filled 4 (errno_other 0) rb w v front (ground arith))
  ]

  -- `recvbuf_fill` on a valid buffer leaves a valid one on the same descriptor and loses no byte of
  -- the stream, whether `recv` succeeds or fails. It reports the number of bytes that it added, and
  -- 0 with room in the buffer only when the stream has ended.
  pub fill-Filled :
      (rb : RecvBuf) (w : W)
      → IsValid rb
      → let (r, rb', w') = fill recv rb w in Filled stream rb w r rb' w'
  unfolding fill
  fill-Filled rb w v =
      let c = compact-Compacted rb v in
      Filled-compact stream c (fill_front-Filled (compact rb) w c.valid c.front)
