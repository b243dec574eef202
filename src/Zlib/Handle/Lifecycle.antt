-- ===== src/Zlib/Handle/Lifecycle.antt =====
-- The life of a handle of ffi/zlib.c: calls of feed and finish in any order, then the finalizer.
-- `inflateEnd` and `deflateEnd` must release the `z_stream` of a handle exactly once.
pub mod Once
use linen.Base.{
  ℕ, zero, suc, ◌*◌, ◌==◌, add_size, ◌%◌, ◌^◌, ◌≤◌, ◌≡◌, ◌≢◌, refl, ◌∙◌, ◌⊎◌, inl, inr, Bool, true,
  false, ◌&&◌, List, [], ◌∷◌, arith, Bool-cases, if◌then◌else◌, length, ltb, Option, none, some, ok,
}
use linen.Zlib.{
  chunk_size, Flush, no_flush, finish_flush, Ret, z_ok, z_stream_end, z_buf_error, z_failed, Reply,
  Out, no_out, Appended, appended, no_memory, grow_stuck, grow_cap, copy_grown, append_out, Driven,
  drove, drive_failed, drive_stuck, is_empty, message, inflate_after, deflate_after, drive,
  drive_deflate,
}
use linen.Zlib.Handle.{
  Handle, avail_in, returned, mark_ended, inflate_feed, inflate_finish, deflate_feed,
  deflate_finish, finish_handle, inflate_finalize, deflate_finalize,
}

-- what Lean does with a handle
pub data Call : Type 0 where
  feed : List ℕ → Call
  finish : Call

module _ {W : Type 0} (release : W → W) (realloc : ℕ → W → Bool × W)
    (codec : Flush → List ℕ → W → Reply × W) (fuel : ℕ) where
  -- the calls on an inflate stream, in order, and the finalizer
  pub inflate_life : List Call → Handle → W → W
  unfolding inflate_feed inflate_finish inflate_finalize
  inflate_life [] h w = inflate_finalize release h w
  inflate_life (feed bytes ∷ calls) h w =
      let (r, h', w') = inflate_feed release realloc codec fuel h bytes w in
      inflate_life calls h' w'
  inflate_life (finish ∷ calls) h w =
      let (r, h', w') = inflate_finish release realloc codec fuel h w in inflate_life calls h' w'

  -- the same on a deflate stream
  pub deflate_life : List Call → Handle → W → W
  unfolding deflate_feed deflate_finish deflate_finalize
  deflate_life [] h w = deflate_finalize release h w
  deflate_life (feed bytes ∷ calls) h w =
      let (r, h', w') = deflate_feed release realloc codec fuel h bytes w in
      deflate_life calls h' w'
  deflate_life (finish ∷ calls) h w =
      let (r, h', w') = deflate_finish release realloc codec fuel h w in deflate_life calls h' w'

  inflate_feed-finished :
      (h : Handle) (bytes : List ℕ) (w : W)
      → h.finished ≡ true
      → inflate_feed release realloc codec fuel h bytes w ≡ (ok [], h, w)
  unfolding inflate_feed
  inflate_feed-finished h bytes w e = simp e

  inflate_finish-finished :
      (h : Handle) (w : W)
      → h.finished ≡ true
      → inflate_finish release realloc codec fuel h w ≡ (ok [], h, w)
  unfolding inflate_finish
  inflate_finish-finished h w e = simp e

  -- A finished handle does nothing more, the finalizer included.
  inflate_life-finished :
      (calls : List Call) (h : Handle) (w : W) → h.finished ≡ true → inflate_life calls h w ≡ w
  unfolding inflate_life
  inflate_life-finished [] h w e = ground arith
  inflate_life-finished (feed bytes ∷ calls) h w e =
      rw (inflate_feed-finished h bytes w e) (inflate_life-finished calls h w e)
  inflate_life-finished (finish ∷ calls) h w e =
      rw (inflate_finish-finished h w e) (inflate_life-finished calls h w e)

  inflate_feed-ended :
      (h : Handle) (bytes : List ℕ) (w : W) (o : Out)
      → h.finished ≡ false
      → (drive realloc codec fuel no_flush (avail_in bytes) no_out w).0 ≡ drove o true
      → inflate_feed release realloc codec fuel h bytes w ≡ (
        ok o.bytes,
        record h { finished = true },
        (drive realloc codec fuel no_flush (avail_in bytes) no_out w).1,
      )
  unfolding inflate_feed returned mark_ended
  inflate_feed-ended h bytes w o is_open ended = simp (is_open, ended)

  -- When a feed reaches the end of the compressed stream, nothing that is done with the handle
  -- later, its finalizer included, releases the `z_stream`: the state of the world after them all is
  -- the one that the last call of `inflate` left, although the handle is still initialized.
  pub inflate_life-leaks :
      (calls : List Call) (h : Handle) (bytes : List ℕ) (w : W) (o : Out)
      → h.finished ≡ false
      → (drive realloc codec fuel no_flush (avail_in bytes) no_out w).0 ≡ drove o true
      → (inflate_life (feed bytes ∷ calls) h w
          ≡ (drive realloc codec fuel no_flush (avail_in bytes) no_out w).1)
        × ((inflate_feed release realloc codec fuel h bytes w).1.initialized ≡ h.initialized)
  unfolding inflate_life
  inflate_life-leaks calls h bytes w o is_open ended =
      rw (inflate_feed-ended h bytes w o is_open ended)
        (inflate_life-finished calls (record h { finished = true }) _ refl, refl)
