-- ===== src/Jose/Verdict.antt =====
-- When the verifications of ffi/jose.c say yes.
use linen.Base.{
  ℕ, ◌≡◌, refl, ap, Bool, true, false, Option, some, none, List, [], ◌∷◌, ◌++◌, arith, ℤ, pos,
}
use linen.Calls.{Exit, ok, error, Event, made, freed, called, Library, run}
use linen.Calls.Outcomes.{Ends, Ends-run}
use linen.Jose.{
  Digest, select_md, crypto, pkey, md_ctx, d2i_pubkey, evp_md_ctx_new, verify_init, set_pss_padding,
  set_pss_saltlen, digest_verify, is_one, is_positive,
}
use linen.Jose.Rsa.{rsa_verify_with, rsa_verify}

abbrev pub pss_calls : Bool → ℤ → ℤ → List (Event crypto)
pss_calls false p s = []
pss_calls true p s = called set_pss_padding p ∷ called set_pss_saltlen s ∷ []

-- The whole of a verification that says yes: the key read from `der`, the digest chosen, the PSS
-- parameters set if asked for, and a verification of `sig` over `text` that returned 1.
pub record Verified (md : Digest) (der text sig : List ℕ) (use_pss : Bool)
    (es : List (Event crypto)) : Type 0 where
  pub init : ℤ
  pub pad : ℤ
  pub salt : ℤ
  pub verdict : ℤ
  pub events :
      es
      ≡ made pkey (d2i_pubkey der)
        ∷ made md_ctx evp_md_ctx_new
        ∷ called (verify_init md) init
        ∷ (pss_calls use_pss pad salt
            ++ called (digest_verify sig text) verdict ∷ freed md_ctx ∷ freed pkey ∷ [])
  pub init_done : is_one init ≡ true
  pub pss_done : use_pss ≡ true → (is_positive pad ≡ true) × (is_positive salt ≡ true)
  pub valid : is_one verdict ≡ true

abbrev YesIf :
    Option Digest → List ℕ → List ℕ → List ℕ → Bool → Exit Bool → List (Event crypto) → Type 0
YesIf md der text sig use_pss r es =
    r ≡ ok true → (m : Digest) × (md ≡ some m) × Verified m der text sig use_pss es

abbrev says : Exit Bool → Bool
says (ok b) = b
says (error e) = false

rsa_verify_with-YesIf :
    (md : Option Digest) (der text sig : List ℕ) (use_pss : Bool)
    → Ends (YesIf md der text sig use_pss) (rsa_verify_with md der text sig use_pss)
unfolding rsa_verify_with
rsa_verify_with-YesIf none der text sig use_pss = ground arith
rsa_verify_with-YesIf (some md) der text sig use_pss = (
  λ _. (
    λ _. λ init. (
      λ started. (
        λ pss. λ pad. (
          λ padded. λ salt. (
            λ salted. λ verdict. λ yes. (
              md,
              refl,
              record {
                init = init;
                pad = pad;
                salt = salt;
                verdict = verdict;
                events = rw pss refl;
                init_done = started;
                pss_done = λ _. (padded, salted);
                valid = ap says yes;
              },
            ),
            ground arith,
          ),
          ground arith,
        ),
        λ no_pss. λ verdict. λ yes. (
          md,
          refl,
          record {
            init = init;
            pad = pos 0;
            salt = pos 0;
            verdict = verdict;
            events = rw no_pss refl;
            init_done = started;
            pss_done = λ h. ground arith;
            valid = ap says yes;
          },
        ),
      ),
      ground arith,
    ),
    ground arith,
  ),
  ground arith,
)

-- A verification says yes only after the whole of it succeeded: whatever libcrypto answers, a true result
-- means a supported algorithm, both objects made, the digest set up, PSS set up when asked for, and a
-- check of this signature over this text that returned 1. The objects are then freed, and nothing else was done.
pub rsa_verify-Verified :
    {W : Type 0} (lib : Library crypto W) (der text sig : List ℕ) (algorithm : ℕ) (use_pss : Bool)
    (w : W)
    → (run lib (rsa_verify der text sig algorithm use_pss) w).0 ≡ ok true
    → (m : Digest) × (select_md algorithm ≡ some m)
      × Verified m der text sig use_pss (run lib (rsa_verify der text sig algorithm use_pss) w).1
unfolding rsa_verify
rsa_verify-Verified lib der text sig algorithm use_pss w =
    Ends-run lib (YesIf (select_md algorithm) der text sig use_pss)
      (rsa_verify_with (select_md algorithm) der text sig use_pss) w
      (rsa_verify_with-YesIf (select_md algorithm) der text sig use_pss)
