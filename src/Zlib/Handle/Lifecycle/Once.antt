-- ===== src/Zlib/Handle/Lifecycle/Once.antt =====
-- How often a stream of ffi/zlib.c is released in its life.
use linen.Base.{
  ℕ, zero, suc, ◌*◌, ◌==◌, add_size, ◌%◌, ◌^◌, ◌≤◌, ◌≡◌, ◌≢◌, refl, ◌∙◌, ◌⊎◌, inl, inr, Bool, true,
  false, ◌&&◌, List, [], ◌∷◌, arith, Bool-cases, if◌then◌else◌, length, ltb, Option, none, some,
}
use linen.Zlib.{
  chunk_size, Flush, no_flush, finish_flush, Ret, z_ok, z_stream_end, z_buf_error, z_failed, Reply,
  Out, no_out, Appended, appended, no_memory, grow_stuck, grow_cap, copy_grown, append_out, Driven,
  drove, drive_failed, drive_stuck, is_empty, message, inflate_after, deflate_after, drive,
  drive_deflate,
}
use linen.Zlib.Handle.{
  Handle, avail_in, mark_ended, inflate_feed, inflate_finish, deflate_feed, deflate_finish,
  finish_handle, deflate_finalize,
}
use linen.Zlib.Handle.Lifecycle.{Call, feed, finish, inflate_life, deflate_life}

-- `count` tells how often the `z_stream` was released.
pub record Counts {W : Type 0} (release : W → W) (realloc : ℕ → W → Bool × W)
    (codec : Flush → List ℕ → W → Reply × W) (count : W → ℕ) : Type 0 where
  pub release_counts : (w : W) → count (release w) ≡ suc (count w)
  pub realloc_counts : (n : ℕ) (w : W) → count (realloc n w).1 ≡ count w
  pub codec_counts : (f : Flush) (input : List ℕ) (w : W) → count (codec f input w).1 ≡ count w

module _ {W : Type 0} (release : W → W) (realloc : ℕ → W → Bool × W)
    (codec : Flush → List ℕ → W → Reply × W) (count : W → ℕ)
    (law : Counts release realloc codec count) where
  copy_grown-count :
      (o : Out) (bs : List ℕ) (c : Option ℕ) (w : W)
      → count (copy_grown realloc o bs c w).1 ≡ count w
  unfolding copy_grown
  copy_grown-count o bs none w = refl
  copy_grown-count o bs (some c) w = ground (arith, law.realloc_counts c w)

  append_out-count : (o : Out) (bs : List ℕ) (w : W) → count (append_out realloc o bs w).1 ≡ count w
  unfolding append_out
  append_out-count o bs w = ground (
    arith,
    copy_grown-count o bs
        (grow_cap 64 (if o.cap == 0 then chunk_size else o.cap * 2 % 2 ^ 64)
          (add_size (length o.bytes) (length bs)))
        w,
  )

  -- the rest of a round keeps the count that the append left, if the next rounds do
  inflate_after-count :
      (again : List ℕ → Out → W → Driven × W) (r : Reply) (a : Appended) (w : W)
      → ((input : List ℕ) (o : Out) (w : W) → count (again input o w).1 ≡ count w)
      → count (inflate_after again r (a, w)).1 ≡ count w
  unfolding inflate_after
  inflate_after-count again r no_memory w ih = refl
  inflate_after-count again r grow_stuck w ih = refl
  inflate_after-count again r (appended o) w ih = ground (arith, ih r.left o w)

  deflate_after-count :
      (again : List ℕ → Out → W → Driven × W) (r : Reply) (a : Appended) (w : W)
      → ((input : List ℕ) (o : Out) (w : W) → count (again input o w).1 ≡ count w)
      → count (deflate_after again r (a, w)).1 ≡ count w
  unfolding deflate_after
  deflate_after-count again r no_memory w ih = refl
  deflate_after-count again r grow_stuck w ih = refl
  deflate_after-count again r (appended o) w ih = ground (arith, ih r.left o w)

  drive-count :
      (f : ℕ) (flush : Flush) (input : List ℕ) (o : Out) (w : W)
      → count (drive realloc codec f flush input o w).1 ≡ count w
  unfolding drive
  drive-count zero flush input o w = refl
  drive-count (suc f) flush input o w =
      let (r, w') = codec flush input w in
      inflate_after-count (λ i o' w''. drive realloc codec f flush i o' w'') r _ _
        (λ i o' w''. drive-count f flush i o' w'')
      ∙ append_out-count o r.written w'
      ∙ law.codec_counts flush input w

  drive_deflate-count :
      (f : ℕ) (flush : Flush) (input : List ℕ) (o : Out) (w : W)
      → count (drive_deflate realloc codec f flush input o w).1 ≡ count w
  unfolding drive_deflate
  drive_deflate-count zero flush input o w = refl
  drive_deflate-count (suc f) flush input o w =
      let (r, w') = codec flush input w in
      deflate_after-count (λ i o' w''. drive_deflate realloc codec f flush i o' w'') r _ _
        (λ i o' w''. drive_deflate-count f flush i o' w'')
      ∙ append_out-count o r.written w'
      ∙ law.codec_counts flush input w

  -- Of a handle that was initialized when `n` streams had been released, `k` being the count now:
  -- it is still initialized, or it is finished and was released once.
  abbrev Held : ℕ → Handle → ℕ → Type 0
  Held n h k =
      ((h.initialized ≡ true) × (k ≡ n))
      ⊎ ((h.initialized ≡ false) × (h.finished ≡ true) × (k ≡ suc n))

  inflate_feed-Held :
      (f n : ℕ) (h : Handle) (bytes : List ℕ) (w : W)
      → Held n h (count w)
      → let (r, h', w') = inflate_feed release realloc codec f h bytes w in Held n h' (count w')
  unfolding inflate_feed mark_ended
  inflate_feed-Held f n h bytes w held =
      ground (arith, drive-count f no_flush (avail_in bytes) no_out w)

  inflate_finish-Held :
      (f n : ℕ) (h : Handle) (w : W)
      → Held n h (count w)
      → let (r, h', w') = inflate_finish release realloc codec f h w in Held n h' (count w')
  unfolding inflate_finish finish_handle
  inflate_finish-Held f n h w held = ground (
    arith,
    drive-count f finish_flush [] no_out w,
    law.release_counts (drive realloc codec f finish_flush [] no_out w).1,
  )

  inflate_life-Held :
      (f n : ℕ) (calls : List Call) (h : Handle) (w : W)
      → Held n h (count w)
      → count (inflate_life release realloc codec f calls h w) ≤ suc n
  unfolding inflate_life
  inflate_life-Held f n [] h w held = ground (arith, law.release_counts w)
  inflate_life-Held f n (feed bytes ∷ calls) h w held =
      inflate_life-Held f n calls _ _ (inflate_feed-Held f n h bytes w held)
  inflate_life-Held f n (finish ∷ calls) h w held =
      inflate_life-Held f n calls _ _ (inflate_finish-Held f n h w held)

  -- Whatever calls are made on an initialized inflate stream, in any order and with any input and
  -- outcome, `inflateEnd` is applied to it at most once, the finalizer's call included.
  pub inflate_life_once :
      (f : ℕ) (calls : List Call) (h : Handle) (w : W)
      → h.initialized ≡ true
      → count (inflate_life release realloc codec f calls h w) ≤ suc (count w)
  inflate_life_once f calls h w open_stream =
      inflate_life-Held f (count w) calls h w (inl (open_stream, refl))

  abbrev NotEnded : Driven → Type 0
  NotEnded (drove o true) = ⊥
  NotEnded (drove o false) = Unit {0}
  NotEnded (drive_failed m) = Unit {0}
  NotEnded drive_stuck = Unit {0}

  abbrev LeavesOpen : Driven × W → Type 0
  LeavesOpen (d, w) = NotEnded d

  deflate_after-NotEnded :
      (again : List ℕ → Out → W → Driven × W) (r : Reply) (a : Appended) (w : W)
      → r.ret ≢ z_stream_end
      → ((input : List ℕ) (o : Out) (w : W) → NotEnded (again input o w).0)
      → NotEnded (deflate_after again r (a, w)).0
  unfolding deflate_after
  deflate_after-NotEnded again r no_memory w not_end ih = tt
  deflate_after-NotEnded again r grow_stuck w not_end ih = tt
  deflate_after-NotEnded again r (appended o) w not_end ih = by_ret r.ret refl
    where
      stop : Bool
      stop = is_empty r.left && ltb (length r.written) chunk_size

      go_on : NotEnded (if stop then (drove o false, w) else again r.left o w).0
      go_on = elim (Bool-cases stop) [ inl e ↦ rw e tt | inr e ↦ rw e (ih r.left o w) ]

      by_ret :
          (t : Ret)
          → r.ret ≡ t
          → LeavesOpen (
              let rest = if stop then (drove o false, w) else again r.left o w in
              elim t [
                | z_stream_end ↦ (drove o true, w)
                | z_ok ↦ rest
                | z_buf_error ↦ rest
                | z_failed ↦ (drive_failed (message r.msg "deflate failed"), w)
              ])
      by_ret z_stream_end e = not_end e
      by_ret z_ok e = go_on
      by_ret z_buf_error e = go_on
      by_ret z_failed e = tt

  module _
      (not_end : (input : List ℕ) (w : W) → (codec no_flush input w).0.ret ≢ z_stream_end) where
    drive_deflate-NotEnded :
        (f : ℕ) (input : List ℕ) (o : Out) (w : W)
        → NotEnded (drive_deflate realloc codec f no_flush input o w).0
    unfolding drive_deflate
    drive_deflate-NotEnded zero input o w = tt
    drive_deflate-NotEnded (suc f) input o w =
        deflate_after-NotEnded (λ i o' w''. drive_deflate realloc codec f no_flush i o' w'')
          (codec no_flush input w).0 _ _ (not_end input w)
          (λ i o' w''. drive_deflate-NotEnded f i o' w'')

    -- It is open and not released, or finished and released once.
    abbrev Open : ℕ → Handle → ℕ → Type 0
    Open n h k =
        ((h.initialized ≡ true) × (h.finished ≡ false) × (k ≡ n))
        ⊎ ((h.initialized ≡ false) × (h.finished ≡ true) × (k ≡ suc n))

    mark_ended-same : (h : Handle) (d : Driven) → NotEnded d → mark_ended h d ≡ h
    unfolding mark_ended
    mark_ended-same h (drove o true) e = absurd e
    mark_ended-same h (drove o false) e = refl
    mark_ended-same h (drive_failed m) e = refl
    mark_ended-same h drive_stuck e = refl

    deflate_feed-Open :
        (f n : ℕ) (h : Handle) (bytes : List ℕ) (w : W)
        → Open n h (count w)
        → let (r, h', w') = deflate_feed release realloc codec f h bytes w in Open n h' (count w')
    unfolding deflate_feed
    deflate_feed-Open f n h bytes w held = ground (
      arith,
      drive_deflate-count f no_flush (avail_in bytes) no_out w,
      mark_ended-same h (drive_deflate realloc codec f no_flush (avail_in bytes) no_out w).0
          (drive_deflate-NotEnded f (avail_in bytes) no_out w),
    )

    deflate_finish-Open :
        (f n : ℕ) (h : Handle) (w : W)
        → Open n h (count w)
        → let (r, h', w') = deflate_finish release realloc codec f h w in Open n h' (count w')
    unfolding deflate_finish finish_handle
    deflate_finish-Open f n h w held = ground (
      arith,
      drive_deflate-count f finish_flush [] no_out w,
      law.release_counts (drive_deflate realloc codec f finish_flush [] no_out w).1,
    )

    deflate_life-Open :
        (f n : ℕ) (calls : List Call) (h : Handle) (w : W)
        → Open n h (count w)
        → count (deflate_life release realloc codec f calls h w) ≡ suc n
    unfolding deflate_life deflate_finalize
    deflate_life-Open f n [] h w held = ground (arith, law.release_counts w)
    deflate_life-Open f n (feed bytes ∷ calls) h w held =
        deflate_life-Open f n calls _ _ (deflate_feed-Open f n h bytes w held)
    deflate_life-Open f n (finish ∷ calls) h w held =
        deflate_life-Open f n calls _ _ (deflate_finish-Open f n h w held)

    -- If `deflate` without a flush never reports the end of the stream, then whatever calls are made
    -- on an open deflate stream, `deflateEnd` is applied to it exactly once, by `_finish` or by the
    -- finalizer.
    pub deflate_life_once :
        (f : ℕ) (calls : List Call) (h : Handle) (w : W)
        → h.initialized ≡ true
        → h.finished ≡ false
        → count (deflate_life release realloc codec f calls h w) ≡ suc (count w)
    deflate_life_once f calls h w open_stream unfinished =
        deflate_life-Open f (count w) calls h w (inl (open_stream, unfinished, refl))
