-- ===== src/Tls/Setup/Examples.antt =====
-- A client's set-up in ffi/tls.c over an OpenSSL that succeeds.
use linen.Base.{ℕ, suc, ◌≡◌, refl, true, false, Bool, some, none, String, pos}
use linen.Calls.{ok, Library, run}
use linen.Calls.Legal.{after_all}
use linen.Tls.Setup.{
  Call, Reply, err_get_error, set_fd, inet_pton, get0_param, set1_ip_asc, set1_host,
  set_tlsext_host_name, set_cipher_list, use_certificate_chain_file, use_private_key_file,
  check_private_key, set_default_verify_paths, load_verify_locations, getenv_cert_file,
  default_cert_file, access_read, set_alpn_protos, openssl,
}
use linen.Tls.Setup.Session.{session_new_client}
use linen.Tls.Setup.Contexts.{fallback_ca_bundle, path_or_empty}
use linen.Tls.Setup.Ownership.{Any, client, step_code, held_before, held_after, step_code-Owns}
use linen.Tls.Setup.Events.{Identified, session_new_client-Identified}
use linen.Tls.Setup.Fallback.{bundle, fallback_ca_bundle-bundle}

-- No name is an address, the variable is not set, and there is no default file.
abbrev answer : (c : Call) → Reply c
answer err_get_error = 0
answer (set_fd fd) = pos 1
answer (inet_pton family host) = pos 0
answer get0_param = true
answer (set1_ip_asc host) = pos 1
answer (set1_host host) = pos 1
answer (set_tlsext_host_name host) = pos 1
answer (set_cipher_list names) = pos 1
answer (use_certificate_chain_file path) = pos 1
answer (use_private_key_file path) = pos 1
answer check_private_key = pos 1
answer set_default_verify_paths = pos 1
answer (load_verify_locations path) = pos 1
answer getenv_cert_file = none
answer default_cert_file = none
answer (access_read path) = true
answer (set_alpn_protos wire) = pos 0
answer _ = tt

abbrev succeeds : Library openssl ℕ
succeeds = record { makes = λ o c w. (some (answer c), suc w); answers = λ c w. (answer c, suc w) }

opened :
    (run succeeds (session_new_client (pos 5) "example.org") 0).0
    ≡ ok (record { ssl = true; failed = false })
unfolding run session_new_client
opened = refl

session_new_client-Identified_example :
    Identified (pos 5) "example.org" (run succeeds (session_new_client (pos 5) "example.org") 0).1
session_new_client-Identified_example =
    session_new_client-Identified succeeds (pos 5) "example.org" 0
      (record { ssl = true; failed = false }) opened

step_code-Owns_example :
    after_all openssl Any (run succeeds (step_code client) 0).1 (some (held_before client))
    ≡ some (held_after client (run succeeds (step_code client) 0).0)
step_code-Owns_example = step_code-Owns succeeds client 0

abbrev all_readable : String → Bool
all_readable path = true

fallback_ca_bundle-bundle_example :
    (run succeeds fallback_ca_bundle 0).0 ≡ ok (path_or_empty (bundle none none all_readable))
fallback_ca_bundle-bundle_example =
    fallback_ca_bundle-bundle succeeds none none all_readable (λ w. refl) (λ w. refl) (λ p w. refl)
      0
