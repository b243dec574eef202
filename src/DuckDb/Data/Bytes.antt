-- ===== src/DuckDb/Data/Bytes.antt =====
-- Bytes that ffi/duckdb_shim.c writes into a vector are read back as they were written, and keep to their place.
use linen.Base.{
  length, ℕ, zero, suc, ◌+◌, ◌*◌, ◌/◌, ◌^◌, ◌≤◌, ◌<◌, ◌≡◌, refl, ap, subst, ◌⊎◌, some, List, [],
  ◌∷◌, arith,
}
use linen.DuckDb.Data.{cons_some, load, store, le_bytes, of_le}
use native.Mathlib.Nat.{pow-suc}

-- places that do not meet
abbrev pub Apart : ℕ → ℕ → ℕ → ℕ → Type 0
Apart o m p n = (o + m ≤ p) ⊎ (p + n ≤ o)

-- what bytes are after some were written at a place
pub record Stored (o : ℕ) (xs d : List ℕ) : Type 0 where
  pub bytes : List ℕ
  pub stores : store o xs d ≡ some bytes
  pub loads : load o (length xs) bytes ≡ some xs
  pub keeps : (p n : ℕ) → Apart o (length xs) p n → load p n bytes ≡ load p n d

keeps_cons :
    (x b : ℕ) (m : ℕ) (e d : List ℕ)
    → ((p n : ℕ) → Apart 0 m p n → load p n e ≡ load p n d)
    → (p n : ℕ) → Apart 0 (suc m) p n
    → load p n (x ∷ e) ≡ load p n (b ∷ d)
keeps_cons x b m e d h zero zero apart = refl
keeps_cons x b m e d h zero (suc n) apart = ground arith
keeps_cons x b m e d h (suc p) n apart = h p n (ground arith)

keeps_next :
    (b o m : ℕ) (e d : List ℕ)
    → ((p n : ℕ) → Apart o m p n → load p n e ≡ load p n d)
    → (p n : ℕ) → Apart (suc o) m p n
    → load p n (b ∷ e) ≡ load p n (b ∷ d)
keeps_next b o m e d h zero zero apart = refl
keeps_next b o m e d h zero (suc n) apart = ap (λ r. cons_some b r) (h zero n (ground arith))
keeps_next b o m e d h (suc p) n apart = h p n (ground arith)

-- Bytes that fit are written.
pub store-Stored : (o : ℕ) (xs d : List ℕ) → o + length xs ≤ length d → Stored o xs d
store-Stored zero [] d fit = record {
  bytes = d;
  stores = refl;
  loads = refl;
  keeps = λ p n a. refl;
}
store-Stored zero (x ∷ xs) [] fit = ground arith
store-Stored zero (x ∷ xs) (b ∷ d) fit =
    let s = store-Stored zero xs d (ground arith) in
    record {
      bytes = x ∷ s.bytes;
      stores = ap (λ r. cons_some x r) s.stores;
      loads = ap (λ r. cons_some x r) s.loads;
      keeps = keeps_cons x b (length xs) s.bytes d s.keeps;
    }
store-Stored (suc o) xs [] fit = ground arith
store-Stored (suc o) xs (b ∷ d) fit =
    let s = store-Stored o xs d (ground arith) in
    record {
      bytes = b ∷ s.bytes;
      stores = ap (λ r. cons_some b r) s.stores;
      loads = s.loads;
      keeps = keeps_next b o (length xs) s.bytes d s.keeps;
    }

pub length-le_bytes : (w v : ℕ) → length (le_bytes w v) ≡ w
length-le_bytes zero v = refl
length-le_bytes (suc w) v = ap suc (length-le_bytes w (v / 256))

quotient_small : (m v : ℕ) → v < m * 256 → v / 256 < m
quotient_small m v small = omega arith

pub of_le-le_bytes : (w v : ℕ) → v < 256 ^ w → of_le (le_bytes w v) ≡ v
of_le-le_bytes zero v small = omega arith
of_le-le_bytes (suc w) v small =
    let e =
      of_le-le_bytes w (v / 256)
        (quotient_small (256 ^ w) v (subst (λ m. v < m) (pow-suc 256 w) small)) in
    omega arith
