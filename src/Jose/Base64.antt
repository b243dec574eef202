-- ===== src/Jose/Base64.antt =====
-- base64url in ffi/jose.c, over the base64 of libcrypto.
pub mod RoundTrip
use linen.Base.{
  ℕ, zero, suc, ◌+◌, ◌-◌, ◌*◌, ◌/◌, ◌%◌, Bool, true, false, not, List, [], ◌∷◌, ◌++◌, map, reverse,
  String, ◌==◌, if◌then◌else◌, length, replicate, int_of_size,
}
use linen.Calls.{Code, done, ok, branch, ◌>>=◌, ◌>>◌, pure, ask, make_or, free, unless}
use linen.Jose.{
  b64_buf, decoded_buf, encode_ctx, malloc, evp_encode_ctx_new, encode_block, decode_init,
  decode_update, decode_final, crypto, fail, is_nonneg, is_empty,
}

-- `(4 - (input_len % 4)) % 4`
abbrev pub pad_of : ℕ → ℕ
pad_of n = (4 - n % 4) % 4

-- one character to base64, in `linen_jose_base64url_decode`
abbrev pub to_base64 : ℕ → ℕ
to_base64 c = if c == b'-' then b'+' else if c == b'_' then b'/' else c

-- one character to base64url, in `linen_jose_base64url_encode`
abbrev pub to_base64url : ℕ → ℕ
to_base64url c = if c == b'+' then b'-' else if c == b'/' then b'_' else c

-- `b64`
pub padded : List ℕ → List ℕ
padded input = map to_base64 input ++ replicate (pad_of (length input)) b'='

-- `while (out_len > 0 && b64[out_len - 1] == '=') out_len--;`, on the bytes from the last one on
pub strip : List ℕ → List ℕ
strip [] = []
strip (c ∷ cs) = let rest = strip cs in if c == b'=' then rest else c ∷ cs

-- the characters of `linen_jose_base64url_encode`'s result
pub stripped : List ℕ → List ℕ
unfolding strip
stripped b64 = reverse (strip (reverse (map to_base64url b64)))

-- `linen_jose_base64url_decode`
unfoldable pub base64url_decode : List ℕ → Code crypto (List ℕ)
unfolding padded
base64url_decode input = branch (is_empty input) (pure []) (do
  make_or b64_buf (malloc (length (padded input) + 1)) (fail "base64url decode: malloc failed")
  make_or decoded_buf (malloc (length (padded input) / 4 * 3))
      (do free b64_buf; fail "base64url decode: malloc failed")
  make_or encode_ctx evp_encode_ctx_new
      (do free b64_buf; free decoded_buf; fail "base64url decode: EVP_ENCODE_CTX_new failed")
  ask decode_init
  rc ← ask (decode_update (padded input) (int_of_size (length (padded input))))
  unless (is_nonneg rc.0) (do
    free encode_ctx
    free b64_buf
    free decoded_buf
    fail "base64url decode: EVP_DecodeUpdate failed")
  rc' ← ask decode_final
  free encode_ctx
  free b64_buf
  unless (is_nonneg rc'.0) (do free decoded_buf; fail "base64url decode: EVP_DecodeFinal failed")
  free decoded_buf
  pure (rc.1 ++ rc'.1))

-- `linen_jose_base64url_encode`
unfoldable pub base64url_encode : List ℕ → Code crypto (List ℕ)
unfolding stripped
base64url_encode text = branch (is_empty text) (pure []) (do
  make_or b64_buf (malloc ((length text + 2) / 3 * 4 + 1)) (fail "base64url encode: malloc failed")
  r ← ask (encode_block text (int_of_size (length text)))
  unless (is_nonneg r.0) (do free b64_buf; fail "base64url encode: EVP_EncodeBlock failed")
  free b64_buf
  pure (stripped r.1))
