-- ===== src/Tls/Setup/Events.antt =====
-- What has been done when ffi/tls.c hands out a session or a context.
use linen.Base.{◌≡◌, refl, Bool, true, false, not, some, List, [], ◌∷◌, ◌++◌, String, ℤ, arith}
use linen.Calls.{Exit, ok, Library, run, Event, made, called}
use linen.Calls.Outcomes.{Ends, Ends-run}
use linen.Tls.{Session}
use linen.Tls.Setup.{
  ssl, wrapper, lock, openssl, inet, inet6, ssl_new, set_fd, err_clear_error, inet_pton, get0_param,
  set1_ip_asc, set1_host, set_tlsext_host_name, set_connect_state, mutex_init, malloc_session,
  is_one, is_zero,
}
use linen.Tls.Setup.Session.{new_session, session_new_client}

-- How a name was taken: as an IPv4 or IPv6 address, or as a DNS name, with the return codes.
pub data Identity : Type 0 where
  as_v4 : (v4 rc : ℤ) → Identity
  as_v6 : (v4 v6 rc : ℤ) → Identity
  as_dns : (v4 v6 rc sni : ℤ) → Identity

abbrev pub identity_calls : Identity → String → List (Event openssl)
identity_calls (as_v4 v4 rc) host =
    called (inet_pton inet host) v4 ∷ called get0_param true ∷ called (set1_ip_asc host) rc ∷ []
identity_calls (as_v6 v4 v6 rc) host =
    called (inet_pton inet host) v4
    ∷ called (inet_pton inet6 host) v6
    ∷ called get0_param true
    ∷ called (set1_ip_asc host) rc
    ∷ []
identity_calls (as_dns v4 v6 rc sni) host =
    called (inet_pton inet host) v4
    ∷ called (inet_pton inet6 host) v6
    ∷ called get0_param true
    ∷ called (set1_host host) rc
    ∷ called (set_tlsext_host_name host) sni
    ∷ []

-- Each call of it succeeded, and the name is what it was taken for.
abbrev pub Accepted : Identity → Type 0
Accepted (as_v4 v4 rc) = (is_one v4 ≡ true) × (is_zero rc ≡ false)
Accepted (as_v6 v4 v6 rc) = (is_one v4 ≡ false) × (is_one v6 ≡ true) × (is_zero rc ≡ false)
Accepted (as_dns v4 v6 rc sni) =
    (is_one v4 ≡ false) × (is_one v6 ≡ false) × (is_zero rc ≡ false) × (is_one sni ≡ true)

pub record Identified (fd : ℤ) (host : String) (es : List (Event openssl)) : Type 0 where
  pub rc : ℤ
  pub identity : Identity
  pub events :
      es
      ≡ called err_clear_error tt
        ∷ made ssl ssl_new
        ∷ called (set_fd fd) rc
        ∷ (identity_calls identity host
            ++ called set_connect_state tt
              ∷ made wrapper malloc_session
              ∷ made lock mutex_init
              ∷ [])
  pub fd_set : is_one rc ≡ true
  pub accepted : Accepted identity

abbrev IdentifiedIf : ℤ → String → Exit Session → List (Event openssl) → Type 0
IdentifiedIf fd host r es = (s : Session) → r ≡ ok s → Identified fd host es

negated : (b : Bool) → not b ≡ true → b ≡ false
negated b h = ground arith

abbrev session_events : ℤ → ℤ → List (Event openssl) → List (Event openssl)
session_events fd rc mid =
    called err_clear_error tt
    ∷ made ssl ssl_new
    ∷ called (set_fd fd) rc
    ∷ (mid ++ called set_connect_state tt ∷ made wrapper malloc_session ∷ made lock mutex_init ∷ [])

module _ (fd : ℤ) (host : String) (rc : ℤ) (fd_set : is_one rc ≡ true) where
  of_checks :
      (i : Identity)
      → Accepted i
      → Identified fd host (session_events fd rc (identity_calls i host))
  of_checks i accepted = record {
    rc = rc;
    identity = i;
    events = refl;
    fd_set = fd_set;
    accepted = accepted;
  }

  address-Identified :
      (v4 : ℤ) (param : Bool) (set : ℤ)
      → is_one v4 ≡ true
      → param ≡ true
      → not (is_zero set) ≡ true
      → Identified fd host (
          session_events fd rc (
            called (inet_pton inet host) v4
            ∷ called get0_param param
            ∷ called (set1_ip_asc host) set
            ∷ []))
  address-Identified v4 param set a p n = rw p (of_checks (as_v4 v4 set) (a, negated _ n))

  address6-Identified :
      (v4 v6 : ℤ) (param : Bool) (set : ℤ)
      → is_one v4 ≡ false
      → is_one v6 ≡ true
      → param ≡ true
      → not (is_zero set) ≡ true
      → Identified fd host (
          session_events fd rc (
            called (inet_pton inet host) v4
            ∷ called (inet_pton inet6 host) v6
            ∷ called get0_param param
            ∷ called (set1_ip_asc host) set
            ∷ []))
  address6-Identified v4 v6 param set a b p n =
      rw p (of_checks (as_v6 v4 v6 set) (a, b, negated _ n))

  name-Identified :
      (v4 v6 : ℤ) (param : Bool) (set sni : ℤ)
      → is_one v4 ≡ false
      → is_one v6 ≡ false
      → param ≡ true
      → not (is_zero set) ≡ true
      → is_one sni ≡ true
      → Identified fd host (
          session_events fd rc (
            called (inet_pton inet host) v4
            ∷ called (inet_pton inet6 host) v6
            ∷ called get0_param param
            ∷ called (set1_host host) set
            ∷ called (set_tlsext_host_name host) sni
            ∷ []))
  name-Identified v4 v6 param set sni a b p n k =
      rw p (of_checks (as_dns v4 v6 set sni) (a, b, negated _ n, k))

new_session-IdentifiedIf :
    (fd : ℤ) (host : String) → Ends (IdentifiedIf fd host) (new_session fd (some host))
unfolding new_session
new_session-IdentifiedIf fd host = λ _. (
  λ _. λ rc. (
    λ f. λ v4. (
      λ a. λ p. (
        λ hp. (
          λ _. λ set. (
            λ n. λ _. (
              λ _. (λ _. λ s h. address-Identified fd host rc f v4 p set a hp n, ground arith),
              ground arith,
            ),
            ground arith,
          ),
          ground arith,
        ),
        ground arith,
      ),
      λ a. λ v6. λ p. (
        λ hp. (
          λ b. λ set. (
            λ n. λ _. (
              λ _.
                  (λ _. λ s h. address6-Identified fd host rc f v4 v6 p set a b hp n, ground arith),
              ground arith,
            ),
            ground arith,
          ),
          λ b. λ set. (
            λ n. λ sni. (
              λ k. λ _. (
                λ _. (
                  λ _. λ s h. name-Identified fd host rc f v4 v6 p set sni a b hp n k,
                  ground arith,
                ),
                ground arith,
              ),
              ground arith,
            ),
            ground arith,
          ),
        ),
        ground arith,
      ),
    ),
    ground arith,
  ),
  ground arith,
)

-- A client's session is handed out only if the peer's identity was set up for the host that was asked for:
-- whatever OpenSSL answers, a session means that the socket was set, and that the name was taken as an
-- address by `X509_VERIFY_PARAM_set1_ip_asc` or, when it is no address, as a DNS name with SNI, each call
-- with success, before the wrapper and its lock were made. Nothing else was done.
pub session_new_client-Identified :
    {W : Type 0} (lib : Library openssl W) (fd : ℤ) (host : String) (w : W) (s : Session)
    → (run lib (session_new_client fd host) w).0 ≡ ok s
    → Identified fd host (run lib (session_new_client fd host) w).1
unfolding session_new_client
session_new_client-Identified lib fd host w s h =
    Ends-run lib (IdentifiedIf fd host) (new_session fd (some host)) w
      (new_session-IdentifiedIf fd host) s h
