-- ===== src/Tls/Setup/Fallback.antt =====
-- Which CA bundle a client's context of ffi/tls.c falls back on.
use linen.Base.{
  ℕ, ◌≡◌, refl, ap, ◌∙◌, Bool, Bool-cases, inl, inr, false, ◌||◌, Option, some, none, List, [], ◌∷◌,
  String, if◌then◌else◌,
}
use linen.Calls.{ok, Library, run}
use linen.Calls.Outcomes.{mapped, run-map}
use linen.Tls.Setup.{openssl, getenv_cert_file, default_cert_file, access_read}
use linen.Tls.Setup.Contexts.{
  is_set, ca_bundle_candidates, first_candidate, without_default, fallback_ca_path,
  fallback_ca_bundle, path_or_empty,
}

-- the first path that is readable
abbrev pub first_readable : (String → Bool) → List String → Option String
first_readable readable [] = none
first_readable readable (path ∷ paths) =
    if readable path then some path else first_readable readable paths

-- whether there is a default file and it is readable
abbrev pub is_readable : (String → Bool) → Option String → Bool
is_readable readable none = false
is_readable readable (some path) = readable path

-- the first bundle that can be read, unless the variable is set or the default file can be
abbrev pub bundle : Option (List ℕ) → Option String → (String → Bool) → Option String
bundle env path readable =
    if is_set env || is_readable readable path
    then none
    else first_readable readable ca_bundle_candidates

module _ {W : Type 0} (lib : Library openssl W) (env : Option (List ℕ)) (path : Option String)
    (readable : String → Bool) (getenv : (w : W) → (lib.answers getenv_cert_file w).0 ≡ env)
    (default_file : (w : W) → (lib.answers default_cert_file w).0 ≡ path)
    (access : (p : String) (w : W) → (lib.answers (access_read p) w).0 ≡ readable p) where
  first_candidate-readable :
      (ps : List String) (w : W)
      → (run lib (first_candidate ps) w).0 ≡ ok (first_readable readable ps)
  unfolding run first_candidate
  first_candidate-readable [] w = refl
  first_candidate-readable (p ∷ ps) w = rw (access p w) (elim (Bool-cases (readable p)) [
    | inl e ↦ rw e refl
    | inr e ↦ rw e (first_candidate-readable ps (lib.answers (access_read p) w).1)
  ])

  without_default-readable :
      (p : Option String) (w : W)
      → (run lib (without_default p) w).0
        ≡ ok (if is_readable readable p then none else first_readable readable ca_bundle_candidates)
  unfolding run
  without_default-readable none w = first_candidate-readable ca_bundle_candidates w
  without_default-readable (some p) w = rw (access p w) (elim (Bool-cases (readable p)) [
    | inl e ↦ rw e refl
    | inr e ↦ rw e (first_candidate-readable ca_bundle_candidates (lib.answers (access_read p) w).1)
  ])

  fallback_ca_path-bundle : (w : W) → (run lib fallback_ca_path w).0 ≡ ok (bundle env path readable)
  unfolding run fallback_ca_path
  fallback_ca_path-bundle w =
      rw (getenv w, default_file (lib.answers getenv_cert_file w).1)
        (elim (Bool-cases (is_set env)) [
          | inl e ↦ rw e refl
          | inr e ↦ rw e (
              without_default-readable path
                (lib.answers default_cert_file (lib.answers getenv_cert_file w).1).1)
        ])

  -- The bundle that is reported, when the environment and the files stay as they are: the first of the four
  -- known paths that can be read, and "" if there is none, if the variable is set to a text that is not empty,
  -- or if OpenSSL's own default file can be read.
  pub fallback_ca_bundle-bundle :
      (w : W) → (run lib fallback_ca_bundle w).0 ≡ ok (path_or_empty (bundle env path readable))
  unfolding fallback_ca_bundle
  fallback_ca_bundle-bundle w =
      run-map lib path_or_empty fallback_ca_path w
      ∙ ap (mapped path_or_empty) (fallback_ca_path-bundle w)
