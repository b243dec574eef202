-- ===== src/Zlib/Handle.antt =====
-- The handles of ffi/zlib.c, `linen_inflate_t` and `linen_deflate_t`, and the functions that Lean calls.
-- The `z_stream` itself is part of the state `W`; `release` is `inflateEnd` or `deflateEnd`.
pub mod Feed
pub mod Lifecycle
mod Examples
use Prim.Native.String.{slice}
use linen.Base.{
  ℕ, ◌%◌, ◌^◌, Bool, true, false, not, ◌&&◌, Option, List, [], String, if◌then◌else◌, length, take,
  user_error, Result, ok, error, out_of_fuel,
}
use linen.Zlib.{
  Flush, no_flush, finish_flush, Ret, z_ok, Reply, no_out, Driven, drove, drive_failed, drive_stuck,
  message, drive, drive_deflate,
}

-- `linen_inflate_t` and `linen_deflate_t`
pub record Handle : Type 0 where
  pub initialized : Bool
  pub finished : Bool

-- `char errbuf[256]` filled by `strncpy`
abbrev pub errbuf : String → String
errbuf m = slice m 0 255

-- `s->strm.avail_in = (uInt)len;`: the input that zlib is given
abbrev pub avail_in : List ℕ → List ℕ
avail_in bytes = take (length bytes % 2 ^ 32) bytes

-- how `_feed` and `_finish` end, on the handle that they leave
pub returned : Driven → Result (List ℕ)
returned (drove o ended) = ok o.bytes
returned (drive_failed m) = error (user_error (errbuf m))
returned drive_stuck = out_of_fuel

-- `if (stream_ended) s->finished = 1;`, not reached on an error
pub mark_ended : Handle → Driven → Handle
mark_ended h (drove o true) = record h { finished = true }
mark_ended h (drove o false) = h
mark_ended h (drive_failed m) = h
mark_ended h drive_stuck = h

module _ {W : Type 0} (init : W → Ret × Option String × W) (malloc : W → Bool × W) where
  -- `linen_zlib_inflate_init`, with `inflateInit2` for `init`
  pub inflate_init : W → Result Handle × W
  inflate_init w =
      let (there, w') = malloc w in
      if there
      then (let (ret, msg, w'') = init w' in
          elim ret [
            | z_ok ↦ (ok (record { initialized = true; finished = false }), w'')
            | _ ↦ (error (user_error (errbuf (message msg "inflateInit failed"))), w'')
          ])
      else (error (user_error "malloc failed"), w')

  -- `linen_zlib_deflate_init`, with `deflateInit2` for `init`
  pub deflate_init : W → Result Handle × W
  deflate_init w =
      let (there, w') = malloc w in
      if there
      then (let (ret, msg, w'') = init w' in
          elim ret [
            | z_ok ↦ (ok (record { initialized = true; finished = false }), w'')
            | _ ↦ (error (user_error (errbuf (message msg "deflateInit failed"))), w'')
          ])
      else (error (user_error "malloc failed"), w')

module _ {W : Type 0} (release : W → W) where
  -- `linen_zlib_inflate_finalizer`
  pub inflate_finalize : Handle → W → W
  inflate_finalize h w = if h.initialized && not h.finished then release w else w

  -- `linen_zlib_deflate_finalizer`
  pub deflate_finalize : Handle → W → W
  deflate_finalize h w = if h.initialized && not h.finished then release w else w

  -- `if (s->initialized) { inflateEnd(&s->strm); s->initialized = 0; } s->finished = 1;`
  pub finish_handle : Handle → W → Handle × W
  finish_handle h w =
      (record h { initialized = false; finished = true }, if h.initialized then release w else w)

  module _ (realloc : ℕ → W → Bool × W) (codec : Flush → List ℕ → W → Reply × W) (fuel : ℕ) where
    -- `linen_zlib_inflate_feed`
    pub inflate_feed : Handle → List ℕ → W → Result (List ℕ) × Handle × W
    unfolding drive returned mark_ended
    inflate_feed h bytes w =
        let (d, w') = drive realloc codec fuel no_flush (avail_in bytes) no_out w in
        if h.finished then (ok [], h, w) else (returned d, mark_ended h d, w')

    -- `linen_zlib_inflate_finish`
    pub inflate_finish : Handle → W → Result (List ℕ) × Handle × W
    unfolding drive returned finish_handle
    inflate_finish h w =
        let (d, w') = drive realloc codec fuel finish_flush [] no_out w in
        let (h', w'') = finish_handle h w' in
        if h.finished then (ok [], h, w) else (returned d, h', w'')

    -- `linen_zlib_deflate_feed`
    pub deflate_feed : Handle → List ℕ → W → Result (List ℕ) × Handle × W
    unfolding drive_deflate returned mark_ended
    deflate_feed h bytes w =
        let (d, w') = drive_deflate realloc codec fuel no_flush (avail_in bytes) no_out w in
        if h.finished then (ok [], h, w) else (returned d, mark_ended h d, w')

    -- `linen_zlib_deflate_finish`
    pub deflate_finish : Handle → W → Result (List ℕ) × Handle × W
    unfolding drive_deflate returned finish_handle
    deflate_finish h w =
        let (d, w') = drive_deflate realloc codec fuel finish_flush [] no_out w in
        let (h', w'') = finish_handle h w' in
        if h.finished then (ok [], h, w) else (returned d, h', w'')
