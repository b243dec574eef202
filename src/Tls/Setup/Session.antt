-- ===== src/Tls/Setup/Session.antt =====
-- `linen_tls_new_session`, with which a server's and a client's sessions start.
use linen.Base.{Bool, true, false, not, Option, some, none, String, ℤ}
use linen.Calls.{Code, branch, ◌>>=◌, ◌>>◌, pure, ask, make_or, free, unless}
use linen.Tls.{Session}
use linen.Tls.Setup.{
  ssl, wrapper, lock, inet, inet6, err_clear_error, ssl_new, set_fd, inet_pton, get0_param,
  set1_ip_asc, set1_host, set_tlsext_host_name, set_connect_state, set_accept_state, mutex_init,
  malloc_session, openssl, fail, is_one, is_zero,
}

-- `is_ip`: the second test is made only if the first fails
abbrev pub is_address : String → Code openssl Bool
is_address host = do
  v4 ← ask (inet_pton inet host)
  branch (is_one v4) (pure true) (do v6 ← ask (inet_pton inet6 host); pure (is_one v6))

-- `SSL_free(ssl); return ...` where the identity cannot be set up
abbrev pub refuse : Code openssl (Unit {0})
refuse = do free ssl; fail "TLS peer identity configuration failed"

-- the parameters of the check of the peer's certificate, once there are any
abbrev pub set_identity : Bool → String → Code openssl (Unit {0})
set_identity is_ip host =
    branch is_ip (do rc ← ask (set1_ip_asc host); unless (not (is_zero rc)) refuse)
      (do
        rc ← ask (set1_host host)
        unless (not (is_zero rc)) refuse
        rc' ← ask (set_tlsext_host_name host)
        unless (is_one rc') refuse)

-- `if (hostname) { ... } else { ... }`
abbrev pub take_role : Option String → Code openssl (Unit {0})
take_role none = ask set_accept_state
take_role (some host) = do
  is_ip ← is_address host
  has_param ← ask get0_param
  unless has_param refuse
  set_identity is_ip host
  ask set_connect_state

-- `linen_tls_new_session`
unfoldable pub new_session : ℤ → Option String → Code openssl Session
new_session fd hostname = do
  ask err_clear_error
  make_or ssl ssl_new (fail "SSL_new failed")
  rc ← ask (set_fd fd)
  unless (is_one rc) (do free ssl; fail "SSL_set_fd failed")
  take_role hostname
  make_or wrapper malloc_session (do free ssl; fail "malloc failed")
  make_or lock mutex_init
      (do free ssl; free wrapper; fail "TLS session mutex initialization failed")
  pure (record { ssl = true; failed = false })

-- `linen_tls_session_new_server`
unfoldable pub session_new_server : ℤ → Code openssl Session
unfolding new_session
session_new_server fd = new_session fd none

-- `linen_tls_session_new_client`
unfoldable pub session_new_client : ℤ → String → Code openssl Session
unfolding new_session
session_new_client fd host = new_session fd (some host)
