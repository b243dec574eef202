-- ===== src/DuckDb/Closures/Refs.antt =====
-- The references to the closures of scalar functions and log storages in ffi/duckdb_shim.c, over their lives.
use linen.Base.{ℕ, ◌+◌, ◌≡◌, Bool, false}
use linen.DuckDb.Closures.{State, count_made}

-- the references that are not DuckDB's own
abbrev pub Leaks : ℕ → ℕ → State → Type 0
Leaks n m s = (s.references ≡ count_made s.has_closure + n) × (s.wrappers ≡ m)

abbrev at : Bool → Bool → ℕ → ℕ → State
at l b r k = record { live = l; has_closure = b; references = r; wrappers = k }

-- a new handle, perhaps of NULL
abbrev pub unused : Bool → State
unused l = record { live = l; has_closure = false; references = 0; wrappers = 0 }
