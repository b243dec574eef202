-- ===== src/Jose/Rsa.antt =====
-- RSA signatures and private keys of ffi/jose.c.
use linen.Base.{ℕ, Bool, Option, some, none, List, String}
use linen.Calls.{Code, ◌>>=◌, ◌>>◌, pure, ask, or_else, make_or, make, free, unless, when}
use linen.Jose.{
  Digest, select_md, pkey, md_ctx, bio, der_buf, sig_buf, evp_md_ctx_new, malloc, d2i_pubkey,
  d2i_private, bio_new_mem_buf, pem_read, i2d_private, verify_init, sign_init, set_pss_padding,
  set_pss_saltlen, digest_verify, digest_sign_size, digest_sign, crypto, fail, is_one, is_positive,
}

-- `EVP_MD_CTX_free(ctx); EVP_PKEY_free(pkey); return jose_mk_io_error(msg);`
abbrev pub give_up : {A : Type 0} → String → Code crypto A
give_up m = do free md_ctx; free pkey; fail m

-- `if (use_pss) { ... }`
abbrev pub set_pss : Bool → String → String → Code crypto (Unit {0})
set_pss use_pss padding salt = when use_pss (do
  p ← ask set_pss_padding
  unless (is_positive p) (give_up padding)
  s ← ask set_pss_saltlen
  unless (is_positive s) (give_up salt))

-- `linen_jose_rsa_verify` after the selection of the digest
unfoldable pub rsa_verify_with : Option Digest → List ℕ → List ℕ → List ℕ → Bool → Code crypto Bool
rsa_verify_with none der text sig use_pss = fail "RSA verify: unsupported algorithm"
rsa_verify_with (some md) der text sig use_pss = do
  make_or pkey (d2i_pubkey der) (fail "RSA verify: failed to parse DER public key")
  make_or md_ctx evp_md_ctx_new (do free pkey; fail "RSA verify: EVP_MD_CTX_new failed")
  rc ← ask (verify_init md)
  unless (is_one rc) (give_up "RSA verify: EVP_DigestVerifyInit failed")
  set_pss use_pss "RSA verify: failed to set PSS padding"
      "RSA verify: failed to set PSS salt length"
  rc' ← ask (digest_verify sig text)
  free md_ctx
  free pkey
  pure (is_one rc')

-- `linen_jose_rsa_verify`
unfoldable pub rsa_verify : List ℕ → List ℕ → List ℕ → ℕ → Bool → Code crypto Bool
unfolding rsa_verify_with
rsa_verify der text sig algorithm use_pss =
    rsa_verify_with (select_md algorithm) der text sig use_pss

-- `linen_jose_rsa_sign` after the selection of the digest
unfoldable pub rsa_sign_with : Option Digest → List ℕ → List ℕ → Bool → Code crypto (List ℕ)
rsa_sign_with none der text use_pss = fail "RSA sign: unsupported algorithm"
rsa_sign_with (some md) der text use_pss = do
  make_or pkey (d2i_private der) (fail "RSA sign: failed to parse DER private key")
  make_or md_ctx evp_md_ctx_new (do free pkey; fail "RSA sign: EVP_MD_CTX_new failed")
  rc ← ask (sign_init md)
  unless (is_one rc) (give_up "RSA sign: EVP_DigestSignInit failed")
  set_pss use_pss "RSA sign: failed to set PSS padding" "RSA sign: failed to set PSS salt length"
  size ← ask (digest_sign_size text)
  unless (is_one size.0) (give_up "RSA sign: could not determine signature length")
  make_or sig_buf (malloc size.1) (give_up "RSA sign: out of memory")
  sig ← ask (digest_sign text)
  unless (is_one sig.0) (do free sig_buf; give_up "RSA sign: EVP_DigestSign failed")
  free sig_buf
  free md_ctx
  free pkey
  pure sig.1

-- `linen_jose_rsa_sign`
unfoldable pub rsa_sign : List ℕ → List ℕ → ℕ → Bool → Code crypto (List ℕ)
unfolding rsa_sign_with
rsa_sign der text algorithm use_pss = rsa_sign_with (select_md algorithm) der text use_pss

-- `linen_jose_privkey_pem_to_der`; `OPENSSL_free` of NULL does nothing.
unfoldable pub privkey_pem_to_der : List ℕ → Code crypto (List ℕ)
privkey_pem_to_der pem = do
  make_or bio (bio_new_mem_buf pem) (fail "PEM to DER: BIO_new_mem_buf failed")
  key ← make pkey pem_read
  free bio
  or_else key (fail "PEM to DER: failed to parse PEM private key")
  der ← make der_buf i2d_private
  free pkey
  d ← or_else der (fail "PEM to DER: i2d_PrivateKey failed")
  unless (is_positive d.0) (do free der_buf; fail "PEM to DER: i2d_PrivateKey failed")
  free der_buf
  pure d.1
