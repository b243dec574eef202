-- ===== src/RecvBuffer.antt =====
-- The buffered reader of ffi/network.c (`linen_recvbuf_t`): `recvbuf_fill`, `linen_recvbuf_create`,
-- `linen_recvbuf_readline` and `linen_recvbuf_readn`.
--
-- `recv` is a parameter: it takes the descriptor and the room that is left, and answers with the bytes
-- that it stored or with an `errno`. `W` is the state of the world that it changes. A call that updates
-- `*rb` returns the new buffer. The loops run on fuel; `ReadN` and `ReadLine` prove that it suffices.
pub mod Valid
pub mod Stream
pub mod ReadN
pub mod ReadLine
pub mod Lines
mod Examples
use linen.Base.{
  ℕ, zero, suc, ◌+◌, ◌-◌, Bool, true, false, ◌&&◌, List, [], ◌∷◌, ◌++◌, reverse, ltb, leb, ◌==◌,
  if◌then◌else◌, length, get_or, take, drop, replicate, write_at, add_size, sub_size, Fd, Errno,
  errno_other, would_block, user_error, os_error, Result, ok, error, out_of_fuel,
}

-- RECVBUF_SIZE
abbrev pub recvbuf_size : ℕ
recvbuf_size = 4096

-- `uint8_t line[8192]`
abbrev pub line_size : ℕ
line_size = 8192

-- `linen_recvbuf_t`
pub record RecvBuf : Type 0 where
  pub fd : Fd
  pub pos : ℕ
  pub len : ℕ
  pub buf : List ℕ

-- what `recv` returns: the bytes stored (none of them at end of file), or -1 with `errno`
pub data RecvReply : Type 0 where
  got : List ℕ → RecvReply
  fails : Errno → RecvReply

-- what `recvbuf_fill` returns: a number of bytes, or -1 with `errno`
pub data Fill : Type 0 where
  filled : ℕ → Fill
  fill_failed : Errno → Fill

-- `calloc` zeroes the structure.
pub create : Fd → RecvBuf
create sock = record { fd = sock; pos = 0; len = 0; buf = replicate recvbuf_size 0 }

-- the bytes of the buffer that are not yet consumed, `buf[pos .. len)`
abbrev pub slice : List ℕ → ℕ → ℕ → List ℕ
slice b i n = take n (drop i b)

-- The first part of `recvbuf_fill`: remaining bytes move to the front.
pub compact : RecvBuf → RecvBuf
compact rb =
    if ltb 0 rb.pos && ltb rb.pos rb.len
    then record rb {
      pos = 0;
      len = sub_size rb.len rb.pos;
      buf = write_at rb.buf 0 (slice rb.buf rb.pos (sub_size rb.len rb.pos));
    }
    else if ltb 0 rb.pos
    then record rb { pos = 0; len = 0 }
    else rb

-- the bytes that `recv` stores behind `len`
pub store : RecvBuf → List ℕ → RecvBuf
store rb bs = record rb { len = add_size rb.len (length bs); buf = write_at rb.buf rb.len bs }

-- what the scan over the buffered bytes comes to
pub data Scan : Type 0 where
  line_done : List ℕ → Scan
  line_too_long : Scan
  drained : List ℕ → Scan

-- The line is kept newest byte first, so `line[line_len - 1]` is its head.
abbrev pub ends_cr : List ℕ → Bool
ends_cr [] = false
ends_cr (c ∷ line) = c == b'\r'

-- the line without its last byte, in order
abbrev pub without_last : List ℕ → List ℕ
without_last [] = []
without_last (c ∷ line) = reverse line

-- `while (rb->pos < rb->len)`, on the number of bytes that are left
pub scan : ℕ → List ℕ → RecvBuf → Scan × RecvBuf
scan zero line rb = (drained line, rb)
scan (suc n) line rb =
    let c = get_or rb.buf rb.pos 0 in
    let rb' : RecvBuf = record rb { pos = add_size rb.pos 1 } in
    let rest = scan n (c ∷ line) rb' in
    if ends_cr line && c == b'\n'
    then (line_done (without_last line), rb')
    else if ltb (length line) (line_size - 1)
    then rest
    else (line_too_long, rb')

module _ {W : Type 0} where
  -- The body of the loop in `recvbuf_fill` after its call of `recv`; `retry` is the next round.
  pub fill_after : (Errno → W → Fill × RecvBuf × W) → RecvBuf → RecvReply × W → Fill × RecvBuf × W
  fill_after retry rb (got bs, w) = (filled (length bs), store rb bs, w)
  fill_after retry rb (fails e, w) = if would_block e then retry e w else (fill_failed e, rb, w)

  -- The end of the outer loop's body in `linen_recvbuf_readline`, after the refill. An empty line at
  -- the end of the input gives the empty string, as any other gives its bytes.
  pub readline_after :
      (RecvBuf → W → Result (List ℕ) × RecvBuf × W)
      → List ℕ
      → Fill × RecvBuf × W
      → Result (List ℕ) × RecvBuf × W
  readline_after again line (fill_failed e, rb, w) = (error (os_error e), rb, w)
  readline_after again line (filled zero, rb, w) = (ok (reverse line), rb, w)
  readline_after again line (filled (suc n), rb, w) = again rb w

  -- The end of the loop's body in `linen_recvbuf_readn`, after the refill.
  pub readn_after :
      (RecvBuf → W → Result (List ℕ) × RecvBuf × W)
      → List ℕ
      → Fill × RecvBuf × W
      → Result (List ℕ) × RecvBuf × W
  readn_after again dst (fill_failed e, rb, w) = (error (os_error e), rb, w)
  readn_after again dst (filled zero, rb, w) = (ok dst, rb, w)
  readn_after again dst (filled (suc n), rb, w) = again rb w

-- The copy in the loop of `linen_recvbuf_readn`: up to `n` bytes in all, `dst` being those so far.
pub copy_avail : ℕ → List ℕ × RecvBuf → List ℕ × RecvBuf
copy_avail n (dst, rb) =
    let avail = sub_size rb.len rb.pos in
    let wanted = sub_size n (length dst) in
    let to_copy = if ltb avail wanted then avail else wanted in
    if ltb 0 avail
    then (dst ++ slice rb.buf rb.pos to_copy, record rb { pos = add_size rb.pos to_copy })
    else (dst, rb)

module _ {W : Type 0} (recv : Fd → ℕ → W → RecvReply × W) where
  -- `for (int retry = 0; retry < 4; retry++)`, on the rounds left and the `errno` of the last one
  pub fill_retry : ℕ → Errno → ℕ → RecvBuf → W → Fill × RecvBuf × W
  unfolding fill_after store
  fill_retry zero e space rb w = (fill_failed e, rb, w)
  fill_retry (suc k) e space rb w =
      fill_after (λ e' w'. fill_retry k e' space rb w') rb (recv rb.fd space w)

  -- `recvbuf_fill`
  pub fill : RecvBuf → W → Fill × RecvBuf × W
  unfolding compact fill_retry
  fill rb w =
      let rb' = compact rb in
      let space = sub_size recvbuf_size rb'.len in
      if space == 0 then (filled 0, rb', w) else fill_retry 4 (errno_other 0) space rb' w

  -- the outer loop of `linen_recvbuf_readline`
  pub readline_loop : ℕ → List ℕ → RecvBuf → W → Result (List ℕ) × RecvBuf × W
  unfolding scan fill readline_after
  readline_loop zero line rb w = (out_of_fuel, rb, w)
  readline_loop (suc f) line rb w =
      let (s, rb') = scan (sub_size rb.len rb.pos) line rb in
      elim s [
        | line_done l ↦ (ok l, rb', w)
        | line_too_long ↦ (error (user_error "recvbuf_readline: line too long (>8KB)"), rb', w)
        | drained line' ↦
            readline_after (λ rb'' w'. readline_loop f line' rb'' w') line' (fill rb' w)
      ]

  pub readline : RecvBuf → W → Result (List ℕ) × RecvBuf × W
  unfolding readline_loop
  readline rb w = readline_loop (line_size + 1) [] rb w

  -- `while (total < n)` in `linen_recvbuf_readn`
  pub readn_loop : ℕ → ℕ → List ℕ → RecvBuf → W → Result (List ℕ) × RecvBuf × W
  unfolding copy_avail fill readn_after
  readn_loop zero n dst rb w = (out_of_fuel, rb, w)
  readn_loop (suc f) n dst rb w =
      let (dst', rb') = copy_avail n (dst, rb) in
      let rest = readn_after (λ rb'' w'. readn_loop f n dst' rb'' w') dst' (fill rb' w) in
      if ltb (length dst) n
      then if leb n (length dst') then (ok dst', rb', w) else rest
      else (ok dst, rb, w)

  pub readn : RecvBuf → ℕ → W → Result (List ℕ) × RecvBuf × W
  unfolding readn_loop
  readn rb n w = readn_loop (n + 2) n [] rb w
