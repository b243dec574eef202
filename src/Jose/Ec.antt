-- ===== src/Jose/Ec.antt =====
-- ECDSA signatures of ffi/jose.c, which JWS writes as r and s side by side.
use linen.Base.{
  ℕ, zero, suc, ◌*◌, Bool, not, ◌||◌, Option, some, none, List, ◌==◌, length, take, drop,
  int_of_size,
}
use linen.Calls.{Code, ◌>>=◌, ◌>>◌, pure, ask, make_or, make, free, unless}
use linen.Jose.{
  Digest, select_md, pkey, md_ctx, sig_buf, bn_first, bn_second, ecdsa_sig, evp_md_ctx_new, malloc,
  d2i_pubkey, verify_init, digest_verify, bn_bin2bn, ecdsa_sig_new, ecdsa_set0, i2d_sig_size,
  i2d_sig, crypto, fail, is_one, is_positive, is_nonzero, size_of_int, both_or,
}

-- `jose_ec_component_size`
pub component_size : ℕ → ℕ
component_size zero = 32
component_size (suc zero) = 48
component_size (suc (suc zero)) = 66
component_size (suc (suc (suc n))) = 0

-- `if (!sig_der)` in `linen_jose_ec_verify`
abbrev pub null : {A : Type 0} → Code crypto A
null = fail "EC verify: invalid JWS signature format"

-- `jose_jws_sig_to_der`: the DER bytes, in a buffer that the caller owns. A return of NULL is
-- what its one caller does then. A successful `ECDSA_SIG_set0` takes r and s over, and frees them with itself.
pub jws_sig_to_der : List ℕ → ℕ → Code crypto (List ℕ)
unfolding component_size
jws_sig_to_der raw algorithm = do
  unless (not (component_size algorithm == 0 || not (length raw == component_size algorithm * 2)))
      null
  r ← make bn_first (
      bn_bin2bn (take (component_size algorithm) raw) (int_of_size (component_size algorithm))
        bn_first)
  s ← make bn_second (
      bn_bin2bn (take (component_size algorithm) (drop (component_size algorithm) raw))
        (int_of_size (component_size algorithm)) bn_second)
  both_or r s null
  make_or ecdsa_sig ecdsa_sig_new (do free bn_first; free bn_second; null)
  taken ← ask ecdsa_set0
  unless (is_nonzero taken) (do free ecdsa_sig; null)
  free bn_first
  free bn_second
  size ← ask i2d_sig_size
  unless (is_positive size) (do free ecdsa_sig; null)
  make_or sig_buf (malloc (size_of_int size)) (do free ecdsa_sig; null)
  der ← ask i2d_sig
  free ecdsa_sig
  pure der

-- `linen_jose_ec_verify` after the selection of the digest
unfoldable pub ec_verify_with : Option Digest → List ℕ → List ℕ → List ℕ → ℕ → Code crypto Bool
unfolding jws_sig_to_der
ec_verify_with none der text sig algorithm = fail "EC verify: unsupported algorithm"
ec_verify_with (some md) der text sig algorithm = do
  sig_der ← jws_sig_to_der sig algorithm
  make_or pkey (d2i_pubkey der) (do free sig_buf; fail "EC verify: failed to parse DER public key")
  make_or md_ctx evp_md_ctx_new
      (do free sig_buf; free pkey; fail "EC verify: EVP_MD_CTX_new failed")
  rc ← ask (verify_init md)
  unless (is_one rc)
      (do free md_ctx; free pkey; free sig_buf; fail "EC verify: EVP_DigestVerifyInit failed")
  rc' ← ask (digest_verify sig_der text)
  free md_ctx
  free pkey
  free sig_buf
  pure (is_one rc')

-- `linen_jose_ec_verify`
unfoldable pub ec_verify : List ℕ → List ℕ → List ℕ → ℕ → Code crypto Bool
unfolding ec_verify_with
ec_verify der text sig algorithm = ec_verify_with (select_md algorithm) der text sig algorithm
