-- ===== src/Tls/Setup/Ready.antt =====
-- What has been done when ffi/tls.c hands out a server's context.
use linen.Base.{◌≡◌, refl, true, List, [], ◌∷◌, String, ℤ, arith}
use linen.Calls.{Exit, ok, Library, run, Event, made, called}
use linen.Calls.Outcomes.{Ends, Ends-run}
use linen.Tls.Setup.{
  ssl_ctx, wrapper, openssl, is_one, ctx_new, server_method, set_min_proto_tls12, set_modes,
  set_cipher_list, set_no_renegotiation, use_certificate_chain_file, use_private_key_file,
  check_private_key, malloc_context,
}
use linen.Tls.Setup.Contexts.{Context, ctx_create, tls12_suites}

-- the calls that make a server's context with the certificate and the key of these paths
abbrev pub server_calls : String → String → ℤ → ℤ → ℤ → ℤ → List (Event openssl)
server_calls cert_path key_path suites cert key matches =
    made ssl_ctx (ctx_new server_method)
    ∷ called set_min_proto_tls12 tt
    ∷ called set_modes tt
    ∷ called (set_cipher_list tls12_suites) suites
    ∷ called set_no_renegotiation tt
    ∷ called (use_certificate_chain_file cert_path) cert
    ∷ called (use_private_key_file key_path) key
    ∷ called check_private_key matches
    ∷ made wrapper malloc_context
    ∷ []

pub record ServerReady (cert_path key_path : String) (es : List (Event openssl)) : Type 0 where
  pub suites : ℤ
  pub cert : ℤ
  pub key : ℤ
  pub matches : ℤ
  pub events : es ≡ server_calls cert_path key_path suites cert key matches
  pub accepted :
      (is_one suites ≡ true) × (is_one cert ≡ true) × (is_one key ≡ true) × (is_one matches ≡ true)

abbrev ServerReadyIf : String → String → Exit Context → List (Event openssl) → Type 0
ServerReadyIf cert_path key_path r es = (c : Context) → r ≡ ok c → ServerReady cert_path key_path es

ctx_create-ServerReadyIf :
    (cert_path key_path : String)
    → Ends (ServerReadyIf cert_path key_path) (ctx_create cert_path key_path)
unfolding ctx_create
ctx_create-ServerReadyIf cert_path key_path = (
  λ _. λ _. λ _. λ suites. (
    λ a. λ _. λ cert. (
      λ b. λ key. (
        λ c. λ matches. (
          λ d. (
            λ _. λ x h. record {
              suites = suites;
              cert = cert;
              key = key;
              matches = matches;
              events = refl;
              accepted = (a, b, c, d);
            },
            ground arith,
          ),
          ground arith,
        ),
        ground arith,
      ),
      ground arith,
    ),
    ground arith,
  ),
  ground arith,
)

pub ctx_create-ServerReady :
    {W : Type 0} (lib : Library openssl W) (cert_path key_path : String) (w : W) (c : Context)
    → (run lib (ctx_create cert_path key_path) w).0 ≡ ok c
    → ServerReady cert_path key_path (run lib (ctx_create cert_path key_path) w).1
ctx_create-ServerReady lib cert_path key_path w c h =
    Ends-run lib (ServerReadyIf cert_path key_path) (ctx_create cert_path key_path) w
      (ctx_create-ServerReadyIf cert_path key_path) c h
