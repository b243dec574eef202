-- ===== src/Tls/Setup.antt =====
-- How ffi/tls.c sets up contexts and sessions, as programs of the calls of OpenSSL, libc and pthread.
pub mod Session
pub mod Contexts
pub mod Alpn
pub mod Ownership
pub mod Events
pub mod Ready
pub mod Fallback
mod Examples
use linen.Base.{
  ℕ, zero, suc, Bool, true, false, Option, some, none, List, [], ◌∷◌, String, ltb, ◌==◌,
  if◌then◌else◌, ℤ, pos, negsuc,
}
use linen.Calls.{Api, Failure, message, library, error, Code, done, ◌>>=◌, ask}

-- what a function of the set-up can own; `alpn` is a context's list, `new_alpn` the one to replace it
pub data Object : Type 0 where
  ssl_ctx ssl wrapper lock alpn new_alpn : Object

-- `AF_INET`, `AF_INET6`
pub data Family : Type 0 where
  inet inet6 : Family

-- `TLS_server_method()`, `TLS_method()`
pub data Method : Type 0 where
  server_method any_method : Method

pub data Call : Type 0 where
  err_get_error err_clear_error : Call
  -- sessions
  ssl_new : Call
  set_fd : ℤ → Call
  inet_pton : Family → String → Call
  get0_param : Call
  set1_ip_asc set1_host set_tlsext_host_name : String → Call
  set_connect_state set_accept_state mutex_init : Call
  malloc_session malloc_context : Call
  -- contexts
  ctx_new : Method → Call
  set_min_proto_tls12 set_modes : Call
  set_cipher_list : String → Call
  set_no_renegotiation : Call
  use_certificate_chain_file use_private_key_file : String → Call
  check_private_key set_default_verify_paths : Call
  load_verify_locations : String → Call
  set_verify_peer : Call
  -- the environment
  getenv_cert_file default_cert_file : Call
  access_read : String → Call
  -- ALPN
  malloc_copy : List ℕ → Call
  set_alpn_select_cb : Bool → Call
  set_alpn_protos : List ℕ → Call

-- An int is a return code. `getenv` and the default file may answer NULL; `get0_param` says whether it
-- did not, and `access` whether it returned 0.
abbrev pub Reply : Call → Type 0
Reply err_get_error = ℕ
Reply (set_fd fd) = ℤ
Reply (inet_pton family host) = ℤ
Reply get0_param = Bool
Reply (set1_ip_asc host) = ℤ
Reply (set1_host host) = ℤ
Reply (set_tlsext_host_name host) = ℤ
Reply (set_cipher_list names) = ℤ
Reply (use_certificate_chain_file path) = ℤ
Reply (use_private_key_file path) = ℤ
Reply check_private_key = ℤ
Reply set_default_verify_paths = ℤ
Reply (load_verify_locations path) = ℤ
Reply getenv_cert_file = Option (List ℕ)
Reply default_cert_file = Option String
Reply (access_read path) = Bool
Reply (set_alpn_protos wire) = ℤ
Reply _ = Unit {0}

abbrev pub uses : Call → List Object
uses (set_fd fd) = ssl ∷ []
uses get0_param = ssl ∷ []
uses (set1_ip_asc host) = ssl ∷ []
uses (set1_host host) = ssl ∷ []
uses (set_tlsext_host_name host) = ssl ∷ []
uses set_connect_state = ssl ∷ []
uses set_accept_state = ssl ∷ []
uses ssl_new = ssl_ctx ∷ []
uses mutex_init = wrapper ∷ []
uses set_min_proto_tls12 = ssl_ctx ∷ []
uses set_modes = ssl_ctx ∷ []
uses (set_cipher_list names) = ssl_ctx ∷ []
uses set_no_renegotiation = ssl_ctx ∷ []
uses (use_certificate_chain_file path) = ssl_ctx ∷ []
uses (use_private_key_file path) = ssl_ctx ∷ []
uses check_private_key = ssl_ctx ∷ []
uses set_default_verify_paths = ssl_ctx ∷ []
uses (load_verify_locations path) = ssl_ctx ∷ []
uses set_verify_peer = ssl_ctx ∷ []
uses (set_alpn_select_cb true) = ssl_ctx ∷ new_alpn ∷ []
uses (set_alpn_select_cb false) = ssl_ctx ∷ []
uses (set_alpn_protos wire) = ssl_ctx ∷ []
uses _ = []

abbrev pub number : Object → ℕ
number ssl_ctx = 0
number ssl = 1
number wrapper = 2
number lock = 3
number alpn = 4
number new_alpn = 5

abbrev pub openssl : Api
openssl = record {
  Object = Object;
  Call = Call;
  Reply = Reply;
  uses = uses;
  same = λ a b. number a == number b;
}

-- `mk_io_error`
abbrev pub fail : {A : Type 0} → String → Code openssl A
fail m = do e ← ask err_get_error; done (error (if e == 0 then message m else library e))

-- `rc == 1`
abbrev pub is_one : ℤ → Bool
is_one (pos n) = n == 1
is_one (negsuc n) = false

-- `rc == 0`
abbrev pub is_zero : ℤ → Bool
is_zero (pos n) = n == 0
is_zero (negsuc n) = false
