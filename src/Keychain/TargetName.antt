-- ===== src/Keychain/TargetName.antt =====
-- The name of a credential on Windows, in ffi/keychain.c: which pairs share one.
use linen.Base.{
  ℕ, ◌≡◌, refl, ap, ap₂, Bool, true, List, [], ◌∷◌, ◌++◌, append_assoc, ◌==◌, arith, not, ◌&&◌,
}
use linen.Keychain.Windows.{combined_name}

-- no ':' in a service
abbrev pub no_colon : List ℕ → Bool
no_colon [] = true
no_colon (c ∷ cs) = not (c == b':') && no_colon cs

abbrev head_or : ℕ → List ℕ → ℕ
head_or d [] = d
head_or d (c ∷ cs) = c

abbrev tail_of : List ℕ → List ℕ
tail_of [] = []
tail_of (c ∷ cs) = cs

-- Two services without a colon have different credentials on Windows unless service and account are the same.
combined_name-injective :
    (s s' a a' : List ℕ)
    → no_colon s ≡ true
    → no_colon s' ≡ true
    → combined_name s a ≡ combined_name s' a'
    → (s ≡ s') × (a ≡ a')
combined_name-injective [] [] a a' h h' e = (refl, ap tail_of e)
combined_name-injective [] (c ∷ s') a a' h h' e = let q = ap (head_or 0) e in ground arith
combined_name-injective (c ∷ s) [] a a' h h' e = let q = ap (head_or 0) e in ground arith
combined_name-injective (c ∷ s) (c' ∷ s') a a' h h' e =
    let rest = combined_name-injective s s' a a' (ground arith) (ground arith) (ap tail_of e) in
    (ap₂ (λ x l. x ∷ l) (ap (head_or 0) e) rest.0, rest.1)

-- The service "s:m" with account "a" and the service "s" with account "m:a" are one credential.
combined_name-shared :
    (s m a : List ℕ) → combined_name (s ++ (b':' ∷ m)) a ≡ combined_name s (m ++ (b':' ∷ a))
combined_name-shared s m a = append_assoc s (b':' ∷ m) (b':' ∷ a)
