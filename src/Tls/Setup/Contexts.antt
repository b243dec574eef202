-- ===== src/Tls/Setup/Contexts.antt =====
-- The contexts of ffi/tls.c (`linen_ssl_ctx_t`), and the CA bundle that a client's may fall back on.
use linen.Base.{ℕ, Bool, true, false, Option, some, none, List, [], ◌∷◌, String}
use linen.Calls.{Code, branch, ◌>>=◌, ◌>>◌, pure, ask, make_or, free, unless}
use linen.Tls.Setup.{
  ssl_ctx, wrapper, err_clear_error, ctx_new, Method, server_method, any_method, malloc_context,
  set_min_proto_tls12, set_modes, set_cipher_list, set_no_renegotiation, use_certificate_chain_file,
  use_private_key_file, check_private_key, set_default_verify_paths, load_verify_locations,
  set_verify_peer, getenv_cert_file, default_cert_file, access_read, openssl, fail, is_one,
}

-- `alpn` and `alpn_len` of `linen_ssl_ctx_t`; the list that is there is the object `alpn`
pub record Context : Type 0 where
  pub alpn_list : Option (List ℕ)
  pub alpn_len : ℕ

-- a context of the method, with TLS 1.2 as the least version, and the modes of `linen_tls_set_modes`
abbrev pub new_context : Method → String → Code openssl (Unit {0})
new_context m failed = do
  make_or ssl_ctx (ctx_new m) (fail failed)
  ask set_min_proto_tls12
  ask set_modes

-- `SSL_CTX_free(ctx); return ...`
abbrev pub give_up : String → Code openssl (Unit {0})
give_up m = do free ssl_ctx; fail m

-- the wrapper, as all three functions end
abbrev pub wrap : Code openssl Context
wrap = do
  make_or wrapper malloc_context (do free ssl_ctx; fail "malloc failed")
  pure (record { alpn_list = none; alpn_len = 0 })

abbrev pub tls12_suites : String
tls12_suites =
    "ECDHE-ECDSA-AES128-GCM-SHA256:ECDHE-RSA-AES128-GCM-SHA256:ECDHE-ECDSA-AES256-GCM-SHA384:ECDHE-RSA-AES256-GCM-SHA384:ECDHE-ECDSA-CHACHA20-POLY1305:ECDHE-RSA-CHACHA20-POLY1305:DHE-RSA-AES128-GCM-SHA256:DHE-RSA-AES256-GCM-SHA384"

-- `linen_tls_ctx_create`, where `SSL_OP_NO_RENEGOTIATION` is defined
unfoldable pub ctx_create : String → String → Code openssl Context
ctx_create cert_path key_path = do
  new_context server_method "SSL_CTX_new failed"
  suites ← ask (set_cipher_list tls12_suites)
  unless (is_one suites) (give_up "SSL_CTX_set_cipher_list failed")
  ask set_no_renegotiation
  cert ← ask (use_certificate_chain_file cert_path)
  unless (is_one cert) (give_up "Failed to load certificate")
  key ← ask (use_private_key_file key_path)
  unless (is_one key) (give_up "Failed to load private key")
  matches ← ask check_private_key
  unless (is_one matches) (give_up "Private key does not match certificate")
  wrap

-- `linen_ca_bundle_candidates`
abbrev pub ca_bundle_candidates : List String
ca_bundle_candidates =
    "/etc/ssl/certs/ca-certificates.crt" ∷ "/etc/pki/tls/certs/ca-bundle.crt"
    ∷ "/etc/ssl/ca-bundle.pem" ∷ "/etc/ssl/cert.pem" ∷ []

-- the loop of `linen_tls_fallback_ca_path`
unfoldable pub first_candidate : List String → Code openssl (Option String)
first_candidate [] = pure none
first_candidate (path ∷ paths) = do
  readable ← ask (access_read path)
  branch readable (pure (some path)) (first_candidate paths)

-- `env && *env`, on the value of the variable
abbrev pub is_set : Option (List ℕ) → Bool
is_set none = false
is_set (some []) = false
is_set (some (c ∷ cs)) = true

-- from `def` on
abbrev pub without_default : Option String → Code openssl (Option String)
without_default none = first_candidate ca_bundle_candidates
without_default (some path) = do
  readable ← ask (access_read path)
  branch readable (pure none) (first_candidate ca_bundle_candidates)

-- `linen_tls_fallback_ca_path`
unfoldable pub fallback_ca_path : Code openssl (Option String)
unfolding first_candidate
fallback_ca_path = do
  env ← ask getenv_cert_file
  branch (is_set env) (pure none) (do path ← ask default_cert_file; without_default path)

-- `linen_tls_add_fallback_ca`
abbrev pub add_ca : Option String → Code openssl (Unit {0})
add_ca none = pure tt
add_ca (some path) = do
  rc ← ask (load_verify_locations path)
  unless (is_one rc) (ask err_clear_error)

-- `linen_tls_fallback_ca_bundle`
abbrev pub path_or_empty : Option String → String
path_or_empty none = ""
path_or_empty (some path) = path

unfoldable pub fallback_ca_bundle : Code openssl String
unfolding fallback_ca_path
fallback_ca_bundle = do path ← fallback_ca_path; pure (path_or_empty path)

-- `linen_tls_client_ctx_create`
unfoldable pub client_ctx_create : Code openssl Context
unfolding fallback_ca_path
client_ctx_create = do
  new_context any_method "SSL_CTX_new (client) failed"
  rc ← ask set_default_verify_paths
  unless (is_one rc) (give_up "Failed to load system CA certificates")
  path ← fallback_ca_path
  add_ca path
  ask set_verify_peer
  wrap

-- `linen_tls_client_ctx_create_with_ca`
unfoldable pub client_ctx_create_with_ca : String → Code openssl Context
client_ctx_create_with_ca ca_path = do
  new_context any_method "SSL_CTX_new (client) failed"
  rc ← ask (load_verify_locations ca_path)
  unless (is_one rc) (give_up "Failed to load CA certificate")
  ask set_verify_peer
  wrap
