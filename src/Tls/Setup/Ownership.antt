-- ===== src/Tls/Setup/Ownership.antt =====
-- What the set-up of ffi/tls.c allocates is with its result, or freed.
use linen.Base.{ℕ, ◌≡◌, Option, some, none, List, [], ◌∷◌, String, ℤ, arith}
use linen.Calls.{Code, Exit, ok, error, Library, run}
use linen.Calls.Legal.{Legal, Legal-run, Documented, SomeIs, after_all}
use linen.Tls.{Session}
use linen.Tls.Setup.{Call, Reply, Object, ssl_ctx, ssl, wrapper, lock, alpn, new_alpn, openssl}
use linen.Tls.Setup.Session.{new_session}
use linen.Tls.Setup.Contexts.{
  Context, ctx_create, client_ctx_create, client_ctx_create_with_ca, first_candidate,
  fallback_ca_path,
}
use linen.Tls.Setup.Alpn.{set_alpn, h2_http11, set_alpn_protocols, set_alpn_offer, ctx_finalizer}

-- nothing is assumed of the answers
abbrev pub Any : (c : Call) → Reply c → Type 0
Any c r = Unit {0}

abbrev pub session_held : Exit Session → List Object
session_held (ok s) = lock ∷ wrapper ∷ ssl ∷ ssl_ctx ∷ []
session_held (error e) = ssl_ctx ∷ []

new_session-Legal :
    (fd : ℤ) (hostname : Option String)
    → Legal openssl Any session_held (ssl_ctx ∷ []) (new_session fd hostname)
unfolding new_session
new_session-Legal fd none = ground arith
new_session-Legal fd (some host) = ground arith

abbrev pub context_held : Exit Context → List Object
context_held (ok c) = wrapper ∷ ssl_ctx ∷ []
context_held (error e) = []

ctx_create-Legal : (cert key : String) → Legal openssl Any context_held [] (ctx_create cert key)
unfolding ctx_create
ctx_create-Legal cert key = ground arith

client_ctx_create_with_ca-Legal :
    (path : String) → Legal openssl Any context_held [] (client_ctx_create_with_ca path)
unfolding client_ctx_create_with_ca
client_ctx_create_with_ca-Legal path = ground arith

client_ctx_create-Legal : Legal openssl Any context_held [] client_ctx_create
unfolding client_ctx_create fallback_ca_path first_candidate
client_ctx_create-Legal = ground arith

abbrev pub list_held : Option (List ℕ) → List Object → List Object
list_held none rest = rest
list_held (some wire) rest = alpn ∷ rest

abbrev pub new_list_held : Option (List ℕ) → List Object → List Object
new_list_held none rest = rest
new_list_held (some wire) rest = new_alpn ∷ rest

abbrev pub context_now : Context → List Object
context_now c = list_held c.alpn_list (wrapper ∷ ssl_ctx ∷ [])

abbrev pub alpn_held : Context → Exit Context → List Object
alpn_held before (ok c) = new_list_held c.alpn_list (wrapper ∷ ssl_ctx ∷ [])
alpn_held before (error e) = context_now before

set_alpn_protocols-Legal :
    (l : Option (List ℕ)) (n : ℕ) (wire : List ℕ)
    → Legal openssl Any
        (alpn_held (record { alpn_list = l; alpn_len = n }))
        (list_held l (wrapper ∷ ssl_ctx ∷ []))
        (set_alpn_protocols (record { alpn_list = l; alpn_len = n }) wire)
unfolding set_alpn_protocols
set_alpn_protocols-Legal none n wire = ground arith
set_alpn_protocols-Legal (some old) n wire = ground arith

abbrev pub none_held : Exit (Unit {0}) → List Object
none_held r = []

ctx_finalizer-Legal :
    (l : Option (List ℕ)) (n : ℕ)
    → Legal openssl Any none_held
        (list_held l (wrapper ∷ ssl_ctx ∷ []))
        (ctx_finalizer (record { alpn_list = l; alpn_len = n }))
unfolding ctx_finalizer
ctx_finalizer-Legal none n = ground arith
ctx_finalizer-Legal (some old) n = ground arith

set_alpn_offer-Legal :
    (wire : List ℕ)
    → Legal openssl Any (λ r. wrapper ∷ ssl_ctx ∷ []) (wrapper ∷ ssl_ctx ∷ []) (set_alpn_offer wire)
unfolding set_alpn_offer
set_alpn_offer-Legal wire = ground arith

-- a function of the set-up, with its arguments; `start` is a session's, on a context that is there
pub data Step : Type 0 where
  start : ℤ → Option String → Step
  serve : String → String → Step
  client : Step
  connect_with_ca : String → Step
  set_list : Context → List ℕ → Step
  set_default_list : Context → Step
  offer : List ℕ → Step
  drop_context : Context → Step

abbrev pub StepResult : Step → Type 0
StepResult (drop_context c) = Unit {0}
StepResult (offer wire) = Unit {0}
StepResult (start fd hostname) = Session
StepResult _ = Context

pub step_code : (s : Step) → Code openssl (StepResult s)
step_code (start fd hostname) = new_session fd hostname
step_code (serve cert key) = ctx_create cert key
step_code client = client_ctx_create
step_code (connect_with_ca path) = client_ctx_create_with_ca path
step_code (set_list c wire) = set_alpn_protocols c wire
step_code (set_default_list c) = set_alpn c
step_code (offer wire) = set_alpn_offer wire
step_code (drop_context c) = ctx_finalizer c

-- what is there before a step, and after it
abbrev pub held_before : Step → List Object
held_before (set_list c wire) = context_now c
held_before (set_default_list c) = context_now c
held_before (offer wire) = wrapper ∷ ssl_ctx ∷ []
held_before (start fd hostname) = ssl_ctx ∷ []
held_before (drop_context c) = context_now c
held_before _ = []

abbrev pub held_after : (s : Step) → Exit (StepResult s) → List Object
held_after (serve cert key) r = context_held r
held_after client r = context_held r
held_after (connect_with_ca path) r = context_held r
held_after (set_list c wire) r = alpn_held c r
held_after (set_default_list c) r = alpn_held c r
held_after (offer wire) r = wrapper ∷ ssl_ctx ∷ []
held_after (start fd hostname) r = session_held r
held_after (drop_context c) r = []

step_code-Legal : (s : Step) → Legal openssl Any (held_after s) (held_before s) (step_code s)
unfolding step_code set_alpn
step_code-Legal (start fd hostname) = new_session-Legal fd hostname
step_code-Legal (serve cert key) = ctx_create-Legal cert key
step_code-Legal client = client_ctx_create-Legal
step_code-Legal (connect_with_ca path) = client_ctx_create_with_ca-Legal path
step_code-Legal (set_list c wire) = set_alpn_protocols-Legal c.alpn_list c.alpn_len wire
step_code-Legal (set_default_list c) = set_alpn_protocols-Legal c.alpn_list c.alpn_len h2_http11
step_code-Legal (offer wire) = set_alpn_offer-Legal wire
step_code-Legal (drop_context c) = ctx_finalizer-Legal c.alpn_list c.alpn_len

answered : {B : Type 0} (r : Option B) → SomeIs (λ b. Unit {0}) r
answered none = tt
answered (some b) = tt

always : {W : Type 0} (lib : Library openssl W) → Documented openssl Any lib
always lib = record { made_reply = λ o c w. answered (lib.makes o c w).0; reply = λ c w. tt }

-- Whatever OpenSSL, malloc and the mutex answer, a function of the set-up uses and frees only what is there,
-- and then holds just what its result says. A new context is the SSL_CTX and its wrapper, a session the SSL,
-- the wrapper and the lock, and after an error nothing new is there. A list that is set takes the place of the
-- old one, which is freed, and stays on an error; the finalizer leaves nothing.
pub step_code-Owns :
    {W : Type 0} (lib : Library openssl W) (s : Step) (w : W)
    → after_all openssl Any (run lib (step_code s) w).1 (some (held_before s))
      ≡ some (held_after s (run lib (step_code s) w).0)
step_code-Owns lib s w =
    Legal-run openssl Any lib (always lib) (held_after s) (held_before s) (step_code s) w
      (step_code-Legal s)
