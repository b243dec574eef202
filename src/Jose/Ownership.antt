-- ===== src/Jose/Ownership.antt =====
-- What the functions of ffi/jose.c allocate is freed, on every path.
use linen.Base.{ℕ, ◌≡◌, Bool, true, Option, some, none, List, [], String, arith}
use linen.Calls.{Code, Exit, Library, run}
use linen.Calls.Legal.{Legal, Legal-run, Documented, after_all}
use linen.Jose.{
  Digest, Call, Reply, ecdsa_set0, select_md, crypto, is_nonzero, hmac_with, jose_hmac,
  sha256_digest, random_bytes,
}
use linen.Jose.Rsa.{rsa_verify_with, rsa_verify, rsa_sign_with, rsa_sign, privkey_pem_to_der}
use linen.Jose.Ec.{ec_verify_with, ec_verify}
use linen.Jose.Keys.{
  curve_name, rsa_pubkey_from_components, ec_pubkey_with, ec_pubkey_from_components,
}
use linen.Jose.Base64.{base64url_decode, base64url_encode}

-- What libcrypto documents: `ECDSA_SIG_set0` fails only on NULL.
abbrev pub Possible : (c : Call) → Reply c → Type 0
Possible ecdsa_set0 rc = is_nonzero rc ≡ true
Possible _ rc = Unit {0}

abbrev pub nothing : {A : Type 0} → Exit A → List crypto.Object
nothing r = []

abbrev Frees : {A : Type 0} → Code crypto A → Type 0
Frees p = Legal crypto Possible nothing [] p

hmac_with-Frees : (md : Option Digest) (key text : List ℕ) → Frees (hmac_with md key text)
unfolding hmac_with
hmac_with-Frees none key text = ground arith
hmac_with-Frees (some md) key text = ground arith

sha256_digest-Frees : (text : List ℕ) → Frees (sha256_digest text)
unfolding sha256_digest
sha256_digest-Frees text = ground arith

rsa_verify_with-Frees :
    (md : Option Digest) (der text sig : List ℕ) (use_pss : Bool)
    → Frees (rsa_verify_with md der text sig use_pss)
unfolding rsa_verify_with
rsa_verify_with-Frees none der text sig use_pss = ground arith
rsa_verify_with-Frees (some md) der text sig use_pss = ground arith

rsa_sign_with-Frees :
    (md : Option Digest) (der text : List ℕ) (use_pss : Bool)
    → Frees (rsa_sign_with md der text use_pss)
unfolding rsa_sign_with
rsa_sign_with-Frees none der text use_pss = ground arith
rsa_sign_with-Frees (some md) der text use_pss = ground arith

privkey_pem_to_der-Frees : (pem : List ℕ) → Frees (privkey_pem_to_der pem)
unfolding privkey_pem_to_der
privkey_pem_to_der-Frees pem = ground arith

ec_verify_with-Frees :
    (md : Option Digest) (der text sig : List ℕ) (algorithm : ℕ)
    → Frees (ec_verify_with md der text sig algorithm)
unfolding ec_verify_with
ec_verify_with-Frees none der text sig algorithm = ground arith
ec_verify_with-Frees (some md) der text sig algorithm = ground arith

rsa_pubkey_from_components-Frees : (n e : List ℕ) → Frees (rsa_pubkey_from_components n e)
unfolding rsa_pubkey_from_components
rsa_pubkey_from_components-Frees n e = ground arith

ec_pubkey_with-Frees : (curve : Option String) (x y : List ℕ) → Frees (ec_pubkey_with curve x y)
unfolding ec_pubkey_with
ec_pubkey_with-Frees none x y = ground arith
ec_pubkey_with-Frees (some curve) x y = ground arith

base64url_decode-Frees : (input : List ℕ) → Frees (base64url_decode input)
unfolding base64url_decode
base64url_decode-Frees input = ground arith

base64url_encode-Frees : (text : List ℕ) → Frees (base64url_encode text)
unfolding base64url_encode
base64url_encode-Frees text = ground arith

-- a call of jose.c from Lean, with its arguments
pub data Function : Type 0 where
  hmac : List ℕ → List ℕ → ℕ → Function
  sha256 : List ℕ → Function
  random : ℕ → Function
  rsa_checks : List ℕ → List ℕ → List ℕ → ℕ → Bool → Function
  rsa_signs : List ℕ → List ℕ → ℕ → Bool → Function
  pem_to_der : List ℕ → Function
  ec_checks : List ℕ → List ℕ → List ℕ → ℕ → Function
  rsa_key : List ℕ → List ℕ → Function
  ec_key : ℕ → List ℕ → List ℕ → Function
  decodes : List ℕ → Function
  encodes : List ℕ → Function

abbrev pub Result : Function → Type 0
Result (rsa_checks der text sig algorithm use_pss) = Bool
Result (ec_checks der text sig algorithm) = Bool
Result _ = List ℕ

pub code : (f : Function) → Code crypto (Result f)
code (hmac key text algorithm) = jose_hmac key text algorithm
code (sha256 text) = sha256_digest text
code (random n) = random_bytes n
code (rsa_checks der text sig algorithm use_pss) = rsa_verify der text sig algorithm use_pss
code (rsa_signs der text algorithm use_pss) = rsa_sign der text algorithm use_pss
code (pem_to_der pem) = privkey_pem_to_der pem
code (ec_checks der text sig algorithm) = ec_verify der text sig algorithm
code (rsa_key n e) = rsa_pubkey_from_components n e
code (ec_key crv x y) = ec_pubkey_from_components crv x y
code (decodes input) = base64url_decode input
code (encodes text) = base64url_encode text

code-Frees : (f : Function) → Frees (code f)
unfolding code jose_hmac random_bytes rsa_verify rsa_sign ec_verify ec_pubkey_from_components
code-Frees (hmac key text algorithm) = hmac_with-Frees (select_md algorithm) key text
code-Frees (sha256 text) = sha256_digest-Frees text
code-Frees (random n) = ground arith
code-Frees (rsa_checks der text sig algorithm use_pss) =
    rsa_verify_with-Frees (select_md algorithm) der text sig use_pss
code-Frees (rsa_signs der text algorithm use_pss) =
    rsa_sign_with-Frees (select_md algorithm) der text use_pss
code-Frees (pem_to_der pem) = privkey_pem_to_der-Frees pem
code-Frees (ec_checks der text sig algorithm) =
    ec_verify_with-Frees (select_md algorithm) der text sig algorithm
code-Frees (rsa_key n e) = rsa_pubkey_from_components-Frees n e
code-Frees (ec_key crv x y) = ec_pubkey_with-Frees (curve_name crv) x y
code-Frees (decodes input) = base64url_decode-Frees input
code-Frees (encodes text) = base64url_encode-Frees text

-- Every function of jose.c, on every path, errors included: it uses only what it holds, makes nothing that it
-- holds already, frees only what it holds, and holds nothing when it returns. Its library answers as
-- libcrypto documents: `ECDSA_SIG_set0` succeeds on a signature and two numbers that are there.
pub calls-Frees :
    {W : Type 0} (lib : Library crypto W)
    → Documented crypto Possible lib
    → (f : Function) (w : W) → after_all crypto Possible (run lib (code f) w).1 (some []) ≡ some []
calls-Frees lib doc f w = Legal-run crypto Possible lib doc nothing [] (code f) w (code-Frees f)
