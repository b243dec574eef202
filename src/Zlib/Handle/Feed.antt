-- ===== src/Zlib/Handle/Feed.antt =====
-- The feed functions of ffi/zlib.c and `linen_zlib_deflate_finish`: what a call returns to Lean.
use linen.Base.{
  ℕ, ◌%◌, ◌^◌, ◌<◌, ◌≡◌, refl, Bool, true, false, List, [], arith, length, take, take-all,
  length-take, Result, ok, error, out_of_fuel,
}
use linen.Zlib.{
  Flush, no_flush, finish_flush, Reply, no_out, Driven, drove, drive_failed, drive_stuck,
}
use linen.Zlib.Grow.{no_out-Room}
use linen.Zlib.Drive.{IsCodec, Reliable, Drives}
use linen.Zlib.Drive.Enough.{work, drive-Drives, drive_deflate-Drives}
use linen.Zlib.Handle.{
  Handle, avail_in, returned, mark_ended, inflate_feed, deflate_feed, deflate_finish, finish_handle,
}

-- An input below 4 GiB is given to zlib whole.
avail_in-whole : (bytes : List ℕ) → length bytes < 2 ^ 32 → avail_in bytes ≡ bytes
avail_in-whole bytes small = take-all (length bytes % 2 ^ 32) bytes (omega arith)

-- `(uInt)len` drops what is above it.
avail_in-again : (bytes : List ℕ) → avail_in (take (length bytes % 2 ^ 32) bytes) ≡ avail_in bytes
avail_in-again bytes =
    take-all _ (take (length bytes % 2 ^ 32) bytes)
      (omega (arith, length-take {0} (length bytes % 2 ^ 32) bytes))

-- a handle after `_finish`
abbrev pub closed : Handle
closed = record { initialized = false; finished = true }

module _ {W : Type 0} (release : W → W) (realloc : ℕ → W → Bool × W)
    (codec : Flush → List ℕ → W → Reply × W) (fuel : ℕ) where
  -- Of an input of n bytes a feed, of inflate or of deflate, reads only the first n mod 2^32: it
  -- does what it does on those alone, and the others are dropped without an error.
  feed-low_bytes :
      (h : Handle) (bytes : List ℕ) (w : W)
      → (inflate_feed release realloc codec fuel h bytes w
          ≡ inflate_feed release realloc codec fuel h (take (length bytes % 2 ^ 32) bytes) w)
        × (deflate_feed release realloc codec fuel h bytes w
            ≡ deflate_feed release realloc codec fuel h (take (length bytes % 2 ^ 32) bytes) w)
  unfolding inflate_feed deflate_feed
  feed-low_bytes h bytes w = (rw avail_in-again, rw avail_in-again)

  -- What a feed that is to return `all` gives on an open handle: an error only if memory or zlib
  -- failed, and then the handle is as before.
  abbrev pub Feeds : List ℕ → Handle → Result (List ℕ) × Handle × W → Type 0
  Feeds all h (ok bytes, h', w) = (bytes ≡ all) × (h'.initialized ≡ h.initialized)
  Feeds all h (error e, h', w) = ¬ Reliable realloc (codec no_flush) × (h' ≡ h)
  Feeds all h (out_of_fuel, h', w) = ⊥

  -- What a finish that is to return `all` gives: the handle is closed in any case.
  abbrev pub Finishes : List ℕ → Result (List ℕ) × Handle × W → Type 0
  Finishes all (ok bytes, h', w) = (bytes ≡ all) × (h' ≡ closed)
  Finishes all (error e, h', w) = ¬ Reliable realloc (codec finish_flush) × (h' ≡ closed)
  Finishes all (out_of_fuel, h', w) = ⊥

  driven-Feeds :
      (all : List ℕ) (h : Handle) (d : Driven) (w : W)
      → Drives realloc (codec no_flush) all (d, w)
      → Feeds all h (returned d, mark_ended h d, w)
  unfolding returned mark_ended
  driven-Feeds all h (drove o true) w e = (e.0, refl)
  driven-Feeds all h (drove o false) w e = (e.0, refl)
  driven-Feeds all h (drive_failed m) w e = (e, refl)
  driven-Feeds all h drive_stuck w e = e

  driven-Finishes :
      (all : List ℕ) (d : Driven) (w w' : W)
      → Drives realloc (codec finish_flush) all (d, w)
      → Finishes all (returned d, closed, w')
  unfolding returned
  driven-Finishes all (drove o ended) w w' e = (e.0, refl)
  driven-Finishes all (drive_failed m) w w' e = (e, refl)
  driven-Finishes all drive_stuck w w' e = e

  module _ {pending : W → List ℕ → List ℕ}
      (same : (n : ℕ) (w : W) (input : List ℕ)
        → pending (realloc n w).1 input ≡ pending w input) where
    -- On an open handle, with fewer than 4 GiB of input and output below 2^62 bytes, feeding
    -- `inflate` or `deflate` returns all that the stream gives for the input, however zlib cuts it
    -- into chunks; an error means that memory or zlib failed. With fuel above the input and output
    -- it ends.
    pub feed-Feeds :
        (law : IsCodec (codec no_flush) pending) (h : Handle) (bytes : List ℕ) (w : W)
        → h.finished ≡ false
        → length bytes < 2 ^ 32
        → length (pending w bytes) < 2 ^ 62
        → work pending bytes w < fuel
        → Feeds (pending w bytes) h (inflate_feed release realloc codec fuel h bytes w)
          × Feeds (pending w bytes) h (deflate_feed release realloc codec fuel h bytes w)
    unfolding inflate_feed deflate_feed
    feed-Feeds law h bytes w is_open small total enough =
        simp (is_open, avail_in-whole bytes small)
          (
            driven-Feeds (pending w bytes) h _ _ (
                drive-Drives realloc codec no_flush law same fuel bytes no_out w no_out-Room enough
                  (omega arith)),
            driven-Feeds (pending w bytes) h _ _ (
                drive_deflate-Drives realloc codec no_flush law same fuel bytes no_out w no_out-Room
                  enough (omega arith)),
          )

    -- On an open handle `linen_zlib_deflate_finish` returns all that the stream still holds, and
    -- closes the handle even on an error, which means that memory or zlib failed.
    pub deflate_finish-Finishes :
        (law : IsCodec (codec finish_flush) pending) (h : Handle) (w : W)
        → h.finished ≡ false
        → length (pending w []) < 2 ^ 62
        → work pending [] w < fuel
        → Finishes (pending w []) (deflate_finish release realloc codec fuel h w)
    unfolding deflate_finish finish_handle
    deflate_finish-Finishes law h w is_open total enough = rw is_open (
        driven-Finishes (pending w []) _ _ _ (
          drive_deflate-Drives realloc codec finish_flush law same fuel [] no_out w no_out-Room
            enough (omega arith)))
