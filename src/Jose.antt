-- ===== src/Jose.antt =====
-- ffi/jose.c: digests, signatures, keys and base64url over OpenSSL's libcrypto.
--
-- libcrypto and malloc are the library: a function is the program of its calls, and what is said of it
-- holds for every answer. A call that returns an int and fills a buffer answers with both.
pub mod Rsa
pub mod Ec
pub mod Keys
pub mod Base64
pub mod Ownership
pub mod Verdict
mod Examples
use linen.Base.{
  ℕ, zero, suc, ◌-◌, ◌^◌, Bool, true, false, Option, none, some, List, [], ◌∷◌, String, ltb, ◌==◌,
  if◌then◌else◌, length, ℤ, pos, negsuc, int_of_size,
}
use linen.Calls.{
  Api, Failure, message, library, error, Code, done, branch, ◌>>=◌, ◌>>◌, pure, ask, ok, free,
  or_else, unless,
}

pub data Digest : Type 0 where
  sha256 sha384 sha512 : Digest

-- `jose_select_md`
unfoldable pub select_md : ℕ → Option Digest
select_md zero = some sha256
select_md (suc zero) = some sha384
select_md (suc (suc zero)) = some sha512
select_md (suc (suc (suc n))) = none

-- what a function of jose.c can own
pub data Object : Type 0 where
  pkey md_ctx pkey_ctx bio der_buf sig_buf pt_buf bn_first bn_second : Object
  ecdsa_sig bld params b64_buf decoded_buf encode_ctx : Object

-- Calls of libcrypto, and `malloc`. A size that the code casts to int is the int.
pub data Call : Type 0 where
  err_get_error evp_md_ctx_new evp_encode_ctx_new ecdsa_sig_new param_bld_new : Call
  malloc : ℕ → Call
  hmac : Digest → List ℕ → ℤ → List ℕ → Call
  evp_digest : List ℕ → Call
  rand_bytes : ℤ → Call
  d2i_pubkey d2i_private : List ℕ → Call
  bio_new_mem_buf : List ℕ → Call
  pem_read i2d_private : Call
  verify_init sign_init : Digest → Call
  set_pss_padding set_pss_saltlen : Call
  digest_verify : List ℕ → List ℕ → Call
  digest_sign_size digest_sign : List ℕ → Call
  bn_bin2bn : List ℕ → ℤ → Object → Call
  ecdsa_set0 i2d_sig_size i2d_sig : Call
  push_bn : String → Object → Call
  push_utf8 : String → String → Call
  push_octet : String → List ℕ → Call
  bld_to_param fromdata_init fromdata i2d_pubkey_size i2d_pubkey : Call
  pkey_ctx_new : String → Call
  encode_block : List ℕ → ℤ → Call
  decode_init : Call
  decode_update : List ℕ → ℤ → Call
  decode_final : Call

-- An int is a return code, and a list what was written to the call's buffer.
abbrev pub Reply : Call → Type 0
Reply err_get_error = ℕ
Reply (hmac md key n text) = Bool × List ℕ
Reply (evp_digest text) = ℤ × List ℕ
Reply (rand_bytes n) = ℤ × List ℕ
Reply i2d_private = ℤ × List ℕ
Reply (verify_init md) = ℤ
Reply (sign_init md) = ℤ
Reply set_pss_padding = ℤ
Reply set_pss_saltlen = ℤ
Reply (digest_verify sig text) = ℤ
Reply (digest_sign_size text) = ℤ × ℕ
Reply (digest_sign text) = ℤ × List ℕ
Reply ecdsa_set0 = ℤ
Reply i2d_sig_size = ℤ
Reply i2d_sig = List ℕ
Reply fromdata_init = ℤ
Reply i2d_pubkey_size = ℤ
Reply i2d_pubkey = List ℕ
Reply (encode_block text n) = ℤ × List ℕ
Reply (decode_update text n) = ℤ × List ℕ
Reply decode_final = ℤ × List ℕ
Reply _ = Unit {0}

-- the objects that a call works on
abbrev pub uses : Call → List Object
uses pem_read = bio ∷ []
uses i2d_private = pkey ∷ []
uses (verify_init md) = md_ctx ∷ pkey ∷ []
uses (sign_init md) = md_ctx ∷ pkey ∷ []
uses set_pss_padding = md_ctx ∷ pkey ∷ []
uses set_pss_saltlen = md_ctx ∷ pkey ∷ []
uses (digest_verify sig text) = md_ctx ∷ pkey ∷ []
uses (digest_sign_size text) = md_ctx ∷ pkey ∷ []
uses (digest_sign text) = sig_buf ∷ md_ctx ∷ pkey ∷ []
uses ecdsa_set0 = ecdsa_sig ∷ bn_first ∷ bn_second ∷ []
uses i2d_sig_size = ecdsa_sig ∷ []
uses i2d_sig = ecdsa_sig ∷ sig_buf ∷ []
uses (push_bn name o) = bld ∷ o ∷ []
uses (push_utf8 name s) = bld ∷ []
uses (push_octet name bs) = bld ∷ pt_buf ∷ []
uses bld_to_param = bld ∷ []
uses fromdata_init = pkey_ctx ∷ []
uses fromdata = pkey_ctx ∷ params ∷ []
uses i2d_pubkey_size = pkey ∷ []
uses i2d_pubkey = pkey ∷ []
uses (encode_block text n) = b64_buf ∷ []
uses decode_init = encode_ctx ∷ []
uses (decode_update text n) = encode_ctx ∷ decoded_buf ∷ b64_buf ∷ []
uses decode_final = encode_ctx ∷ decoded_buf ∷ []
uses _ = []

abbrev pub number : Object → ℕ
number pkey = 0
number md_ctx = 1
number pkey_ctx = 2
number bio = 3
number der_buf = 4
number sig_buf = 5
number pt_buf = 6
number bn_first = 7
number bn_second = 8
number ecdsa_sig = 9
number bld = 10
number params = 11
number b64_buf = 12
number decoded_buf = 13
number encode_ctx = 14

abbrev pub crypto : Api
crypto = record {
  Object = Object;
  Call = Call;
  Reply = Reply;
  uses = uses;
  same = λ a b. number a == number b;
}

-- `jose_mk_io_error`
abbrev pub fail : {A : Type 0} → String → Code crypto A
fail m = do e ← ask err_get_error; done (error (if e == 0 then message m else library e))

-- `rc == 1`
abbrev pub is_one : ℤ → Bool
is_one (pos n) = n == 1
is_one (negsuc n) = false

-- `!rc` is false
abbrev pub is_nonzero : ℤ → Bool
is_nonzero (pos n) = ltb 0 n
is_nonzero (negsuc n) = true

-- `(size_t)rc` of a positive int
abbrev pub size_of_int : ℤ → ℕ
size_of_int (pos n) = n
size_of_int (negsuc n) = 2 ^ 64 - 1 - n

-- `rc >= 0`
abbrev pub is_nonneg : ℤ → Bool
is_nonneg (pos n) = true
is_nonneg (negsuc n) = false

abbrev pub is_empty : List ℕ → Bool
is_empty [] = true
is_empty (b ∷ bs) = false

-- `rc > 0`
abbrev pub is_positive : ℤ → Bool
is_positive (pos n) = ltb 0 n
is_positive (negsuc n) = false

-- `BN_free` of what may be NULL
abbrev pub free_some : {A : Type 0} → Option A → Object → Code crypto (Unit {0})
free_some none o = done (ok tt)
free_some (some a) o = free o

-- `if (!r || !s) { BN_free(r); BN_free(s); ... }`
abbrev pub both_or :
    {A B : Type 0} → Option A → Option B → Code crypto (Unit {0}) → Code crypto (Unit {0})
both_or (some r) (some s) m = done (ok tt)
both_or r s m = do free_some r bn_first; free_some s bn_second; m

-- `linen_jose_hmac` after the selection of the digest; a reply has whether `HMAC` returned a pointer
pub hmac_with : Option Digest → List ℕ → List ℕ → Code crypto (List ℕ)
hmac_with none key text = fail "HMAC: unsupported algorithm"
hmac_with (some md) key text = do
  r ← ask (hmac md key (int_of_size (length key)) text)
  unless r.0 (fail "HMAC computation failed")
  pure r.1

-- `linen_jose_hmac`
pub jose_hmac : List ℕ → List ℕ → ℕ → Code crypto (List ℕ)
unfolding hmac_with
jose_hmac key text algorithm = hmac_with (select_md algorithm) key text

-- `linen_crypto_sha256`
pub sha256_digest : List ℕ → Code crypto (List ℕ)
sha256_digest text = do
  r ← ask (evp_digest text)
  unless (is_one r.0) (fail "SHA-256 digest failed")
  pure r.1

-- `linen_crypto_random_bytes`: of an array of n bytes, those that `RAND_bytes` filled
pub random_bytes : ℕ → Code crypto (List ℕ)
random_bytes n =
    branch (ltb 0 n)
      (do
        r ← ask (rand_bytes (int_of_size n))
        unless (is_one r.0) (fail "RAND_bytes failed")
        pure r.1)
      (pure [])
