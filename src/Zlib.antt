-- ===== src/Zlib.antt =====
-- ffi/zlib.c: the inflate and deflate streams over a persistent `z_stream`.
--
-- zlib is a parameter: one call of `inflate` or `deflate` takes the flush mode, the input that is left
-- and the state `W` of the stream (and of the heap), with a fresh output chunk of 16384 bytes, and
-- answers with a return code, the bytes that it wrote, the input that it left and its message.
-- `realloc` says whether memory of a size is there. The driving loops run on fuel.
pub mod Grow
pub mod Drive
pub mod Handle
use linen.Base.{
  ℕ, zero, suc, ◌+◌, ◌*◌, ◌%◌, ◌^◌, Bool, true, false, not, ◌&&◌, Option, none, some, List, [], ◌∷◌,
  ◌++◌, String, ltb, ◌==◌, if◌then◌else◌, length, take, add_size, user_error, Result, ok, error,
  out_of_fuel,
}

-- LINEN_ZLIB_CHUNK
abbrev pub chunk_size : ℕ
chunk_size = 16384

pub data Flush : Type 0 where
  no_flush finish_flush : Flush

pub data Ret : Type 0 where
  z_ok z_stream_end z_buf_error : Ret
  z_failed : Ret

-- What a call of zlib leaves behind. `written` is the first `LINEN_ZLIB_CHUNK - avail_out` bytes of
-- the chunk, and `left` the `avail_in` bytes at `next_in`.
pub record Reply : Type 0 where
  pub ret : Ret
  pub written : List ℕ
  pub left : List ℕ
  pub msg : Option String

-- `*out_buf` up to `*out_len`, and `*out_cap`
pub record Out : Type 0 where
  pub bytes : List ℕ
  pub cap : ℕ

abbrev pub no_out : Out
no_out = record { bytes = []; cap = 0 }

-- `while (new_cap < *out_len + produced) new_cap *= 2;`
pub grow_cap : ℕ → ℕ → ℕ → Option ℕ
grow_cap zero new_cap need = none
grow_cap (suc f) new_cap need =
    let rest = grow_cap f (new_cap * 2 % 2 ^ 64) need in
    if ltb new_cap need then rest else some new_cap

pub data Appended : Type 0 where
  appended : Out → Appended
  no_memory : Appended
  grow_stuck : Appended

module _ {W : Type 0} (realloc : ℕ → W → Bool × W) where
  -- `realloc` to `new_cap`, and the copy behind what is there
  pub copy_grown : Out → List ℕ → Option ℕ → W → Appended × W
  copy_grown o bs none w = (grow_stuck, w)
  copy_grown o bs (some new_cap) w =
      let (there, w') = realloc new_cap w in
      if there
      then (appended (record { bytes = o.bytes ++ bs; cap = new_cap }), w')
      else (no_memory, w')

  -- `if (produced > 0) { ... }`
  pub append_out : Out → List ℕ → W → Appended × W
  append_out o bs w =
      let need = add_size (length o.bytes) (length bs) in
      let first_cap = if o.cap == 0 then chunk_size else o.cap * 2 % 2 ^ 64 in
      if ltb 0 (length bs)
      then if ltb o.cap need
        then copy_grown o bs (grow_cap 64 first_cap need) w
        else (appended (record o { bytes = o.bytes ++ bs }), w)
      else (appended o, w)

-- what a driving loop returns: 0 with the output and `*stream_ended`, or -1 with `*err_msg`
pub data Driven : Type 0 where
  drove : Out → Bool → Driven
  drive_failed : String → Driven
  drive_stuck : Driven

abbrev pub message : Option String → String → String
message none default = default
message (some m) default = m

-- `strm->avail_in == 0`
abbrev pub is_empty : List ℕ → Bool
is_empty [] = true
is_empty (b ∷ bs) = false

module _ {W : Type 0} where
  -- The end of the loop's body in `linen_zlib_drive`, after the output is appended; `again` is the next
  -- round.
  pub inflate_after : (List ℕ → Out → W → Driven × W) → Reply → Appended × W → Driven × W
  inflate_after again r (no_memory, w) =
      (drive_failed "out of memory growing inflate output buffer", w)
  inflate_after again r (grow_stuck, w) = (drive_stuck, w)
  inflate_after again r (appended o, w) = elim r.ret [
    | z_stream_end ↦ (drove o true, w)
    | z_ok ↦
        if is_empty r.left && ltb (length r.written) chunk_size
        then (drove o false, w)
        else again r.left o w
    | z_buf_error ↦ if is_empty r.left then (drove o false, w) else again r.left o w
    | z_failed ↦ (drive_failed (message r.msg "inflate failed"), w)
  ]

  -- The same of `linen_zlib_drive_deflate`.
  pub deflate_after : (List ℕ → Out → W → Driven × W) → Reply → Appended × W → Driven × W
  deflate_after again r (no_memory, w) =
      (drive_failed "out of memory growing deflate output buffer", w)
  deflate_after again r (grow_stuck, w) = (drive_stuck, w)
  deflate_after again r (appended o, w) =
      let rest =
        if is_empty r.left && ltb (length r.written) chunk_size
        then (drove o false, w)
        else again r.left o w in
      elim r.ret [
        | z_stream_end ↦ (drove o true, w)
        | z_ok ↦ rest
        | z_buf_error ↦ rest
        | z_failed ↦ (drive_failed (message r.msg "deflate failed"), w)
      ]

module _ {W : Type 0} (realloc : ℕ → W → Bool × W) (codec : Flush → List ℕ → W → Reply × W) where
  -- `linen_zlib_drive`; `codec` is `inflate`
  pub drive : ℕ → Flush → List ℕ → Out → W → Driven × W
  unfolding append_out copy_grown inflate_after
  drive zero flush input o w = (drive_stuck, w)
  drive (suc f) flush input o w =
      let (r, w') = codec flush input w in
      inflate_after (λ input' o' w''. drive f flush input' o' w'') r
        (append_out realloc o r.written w')

  -- `linen_zlib_drive_deflate`; `codec` is `deflate`
  pub drive_deflate : ℕ → Flush → List ℕ → Out → W → Driven × W
  unfolding append_out copy_grown deflate_after
  drive_deflate zero flush input o w = (drive_stuck, w)
  drive_deflate (suc f) flush input o w =
      let (r, w') = codec flush input w in
      deflate_after (λ input' o' w''. drive_deflate f flush input' o' w'') r
        (append_out realloc o r.written w')
