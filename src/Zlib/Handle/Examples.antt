-- ===== src/Zlib/Handle/Examples.antt =====
-- Runs of ffi/zlib.c over two small codecs that copy their input: one in pieces of four bytes, one that
-- ends its stream at once. The state is the number of streams released.
use linen.Base.{
  ℕ, suc, ◌≤◌, ◌<◌, ◌≡◌, ◌≢◌, refl, sym, Bool, true, false, none, List, [], ◌∷◌, arith, length,
  take, drop, take-append-drop, length-take, length-drop,
}
use linen.Zlib.{
  chunk_size, Flush, no_flush, finish_flush, Ret, z_ok, z_stream_end, z_buf_error, Reply, no_out,
  append_out, drove, drive, grow_cap,
}
use linen.Zlib.Grow.{Appends, no_out-Room, append_out-Appends}
use linen.Zlib.Drive.{IsCodec, Drives}
use linen.Zlib.Drive.Enough.{drive-Drives}
use linen.Zlib.Handle.{Handle, inflate_feed, deflate_finish, deflate_feed, avail_in}
use linen.Zlib.Handle.Feed.{Feeds, Finishes, feed-Feeds, deflate_finish-Finishes}
use linen.Zlib.Handle.Lifecycle.{feed, finish, inflate_life, deflate_life, inflate_life-leaks}
use linen.Zlib.Handle.Lifecycle.Once.{Counts, inflate_life_once, deflate_life_once}

abbrev World : Type 0
World = ℕ

abbrev release : World → World
release w = suc w

abbrev realloc : ℕ → World → Bool × World
realloc n w = (true, w)

abbrev piece_ret : List ℕ → Ret
piece_ret [] = z_buf_error
piece_ret (b ∷ bs) = z_ok

abbrev pieces : Flush → List ℕ → World → Reply × World
pieces flush input w =
    (record { ret = piece_ret input; written = take 4 input; left = drop 4 input; msg = none }, w)

abbrev ending : Flush → List ℕ → World → Reply × World
ending flush input w =
    (record { ret = z_stream_end; written = take 4 input; left = []; msg = none }, w)

abbrev to_come : World → List ℕ → List ℕ
to_come w input = input

nil_of_blocked : (input : List ℕ) → piece_ret input ≡ z_buf_error → input ≡ []
nil_of_blocked [] e = refl
nil_of_blocked (b ∷ bs) e = cc

some_of_ok : (input : List ℕ) → piece_ret input ≡ z_ok → 0 < length input
some_of_ok [] e = cc
some_of_ok (b ∷ bs) e = omega arith

not_ended : (input : List ℕ) → piece_ret input ≢ z_stream_end
not_ended [] e = cc
not_ended (b ∷ bs) e = cc

pieces-IsCodec : (flush : Flush) → IsCodec (pieces flush) to_come
pieces-IsCodec flush = record {
  written_small = λ input w. omega (arith, length-take {0} 4 input);
  writes_next = λ input w. sym (take-append-drop 4 input);
  progress = λ input w e. omega (arith, length-drop {0} 4 input, some_of_ok input e);
  ended = λ input w e. absurd (not_ended input e);
  drained = λ input w e small. refl;
  blocked = λ input w e. rw (nil_of_blocked input e) (refl, omega arith);
}

counts :
    (codec : Flush → List ℕ → World → Reply × World)
    → ((f : Flush) (i : List ℕ) (w : World) → (codec f i w).1 ≡ w)
    → Counts release realloc codec (λ w. w)
counts codec same = record {
  release_counts = λ w. refl;
  realloc_counts = λ n w. refl;
  codec_counts = same;
}

abbrev input : List ℕ
input = 1 ∷ 2 ∷ 3 ∷ 4 ∷ 5 ∷ 6 ∷ []

abbrev opened : Handle
opened = record { initialized = true; finished = false }

append_out-Appends_example : Appends realloc no_out input 0 (append_out realloc no_out input 0)
append_out-Appends_example =
    append_out-Appends realloc no_out input 0 no_out-Room (omega arith) (omega arith)

drive-Drives_example :
    Drives realloc (pieces no_flush) input (drive realloc pieces 20 no_flush input no_out 0)
drive-Drives_example =
    drive-Drives realloc pieces no_flush (pieces-IsCodec no_flush) (λ n w i. refl) 20 input no_out 0
      no_out-Room (omega arith) (omega arith)

feed-Feeds_example :
    Feeds release realloc pieces 20 input opened
      (inflate_feed release realloc pieces 20 opened input 0)
    × Feeds release realloc pieces 20 input opened
        (deflate_feed release realloc pieces 20 opened input 0)
feed-Feeds_example =
    feed-Feeds release realloc pieces 20 (λ n w i. refl) (pieces-IsCodec no_flush) opened input 0
      refl (omega arith) (omega arith) (omega arith)

deflate_finish-Finishes_example :
    Finishes release realloc pieces 20 [] (deflate_finish release realloc pieces 20 opened 0)
deflate_finish-Finishes_example =
    deflate_finish-Finishes release realloc pieces 20 (λ n w i. refl) (pieces-IsCodec finish_flush)
      opened 0 refl (omega arith) (omega arith)

ended_out :
    (drive realloc ending 20 no_flush (avail_in input) no_out 0).0
    ≡ drove (record { bytes = take 4 input; cap = chunk_size }) true
unfolding drive grow_cap
ended_out = refl

inflate_life-leaks_example :
    (inflate_life release realloc ending 20 (feed input ∷ finish ∷ []) opened 0
      ≡ (drive realloc ending 20 no_flush (avail_in input) no_out 0).1)
    × ((inflate_feed release realloc ending 20 opened input 0).1.initialized ≡ true)
inflate_life-leaks_example =
    inflate_life-leaks release realloc ending 20 (finish ∷ []) opened input 0 _ refl ended_out

inflate_life_once_example :
    inflate_life release realloc pieces 20 (feed input ∷ finish ∷ finish ∷ []) opened 0 ≤ 1
inflate_life_once_example =
    inflate_life_once release realloc pieces (λ w. w) (counts pieces (λ f i w. refl)) 20
      (feed input ∷ finish ∷ finish ∷ []) opened 0 refl

deflate_life_once_example :
    deflate_life release realloc pieces 20 (feed input ∷ finish ∷ finish ∷ []) opened 0 ≡ 1
deflate_life_once_example =
    deflate_life_once release realloc pieces (λ w. w) (counts pieces (λ f i w. refl))
      (λ i w. not_ended i) 20 (feed input ∷ finish ∷ finish ∷ []) opened 0 refl refl
