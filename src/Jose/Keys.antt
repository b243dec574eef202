-- ===== src/Jose/Keys.antt =====
-- Public keys from the components of a JWK, in ffi/jose.c.
use linen.Base.{ℕ, zero, suc, ◌+◌, Option, some, none, List, ◌∷◌, ◌++◌, String, length, int_of_size}
use linen.Calls.{Code, ◌>>=◌, ◌>>◌, pure, ask, make_or, make, or_else, free, unless}
use linen.Jose.{
  pkey, pkey_ctx, pt_buf, bn_first, bn_second, bld, params, malloc, bn_bin2bn, param_bld_new,
  push_bn, push_utf8, push_octet, bld_to_param, pkey_ctx_new, fromdata_init, fromdata,
  i2d_pubkey_size, i2d_pubkey, crypto, fail, is_positive, both_or,
}

-- From the parameters on, as both functions end: the key of a type, and its DER encoding.
pub pubkey_of_params : String → String → String → String → Code crypto (List ℕ)
pubkey_of_params kind no_ctx no_key no_der = do
  make_or pkey_ctx (pkey_ctx_new kind) (do free params; fail no_ctx)
  rc ← ask fromdata_init
  unless (is_positive rc) (do free pkey_ctx; free params; fail no_key)
  make_or pkey fromdata (do free pkey_ctx; free params; fail no_key)
  free pkey_ctx
  free params
  size ← ask i2d_pubkey_size
  unless (is_positive size) (do free pkey; fail no_der)
  der ← ask i2d_pubkey
  free pkey
  pure der

-- `linen_jose_rsa_pubkey_from_components`
unfoldable pub rsa_pubkey_from_components : List ℕ → List ℕ → Code crypto (List ℕ)
unfolding pubkey_of_params
rsa_pubkey_from_components n e = do
  r ← make bn_first (bn_bin2bn n (int_of_size (length n)) bn_first)
  s ← make bn_second (bn_bin2bn e (int_of_size (length e)) bn_second)
  both_or r s (fail "RSA pubkey: BN_bin2bn failed")
  make_or bld param_bld_new
      (do free bn_first; free bn_second; fail "RSA pubkey: OSSL_PARAM_BLD_new failed")
  ask (push_bn "n" bn_first)
  ask (push_bn "e" bn_second)
  p ← make params bld_to_param
  free bld
  free bn_first
  free bn_second
  or_else p (fail "RSA pubkey: OSSL_PARAM_BLD_to_param failed")
  pubkey_of_params "RSA" "RSA pubkey: EVP_PKEY_CTX_new_from_name failed"
      "RSA pubkey: EVP_PKEY_fromdata failed" "RSA pubkey: i2d_PUBKEY failed"

-- `jose_curve_name`
pub curve_name : ℕ → Option String
curve_name zero = some "prime256v1"
curve_name (suc zero) = some "secp384r1"
curve_name (suc (suc zero)) = some "secp521r1"
curve_name (suc (suc (suc n))) = none

-- `linen_jose_ec_pubkey_from_components` after the choice of the curve: the point is 0x04, x and y.
unfoldable pub ec_pubkey_with : Option String → List ℕ → List ℕ → Code crypto (List ℕ)
unfolding pubkey_of_params
ec_pubkey_with none x y = fail "EC pubkey: unsupported curve"
ec_pubkey_with (some curve) x y = do
  make_or pt_buf (malloc (1 + length x + length y)) (fail "EC pubkey: malloc failed")
  make_or bld param_bld_new (do free pt_buf; fail "EC pubkey: OSSL_PARAM_BLD_new failed")
  ask (push_utf8 "group" curve)
  ask (push_octet "pub" (4 ∷ (x ++ y)))
  p ← make params bld_to_param
  free bld
  free pt_buf
  or_else p (fail "EC pubkey: OSSL_PARAM_BLD_to_param failed")
  pubkey_of_params "EC" "EC pubkey: EVP_PKEY_CTX_new_from_name failed"
      "EC pubkey: EVP_PKEY_fromdata failed" "EC pubkey: i2d_PUBKEY failed"

-- `linen_jose_ec_pubkey_from_components`
unfoldable pub ec_pubkey_from_components : ℕ → List ℕ → List ℕ → Code crypto (List ℕ)
unfolding ec_pubkey_with curve_name
ec_pubkey_from_components crv x y = ec_pubkey_with (curve_name crv) x y
