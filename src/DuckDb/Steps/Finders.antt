-- ===== src/DuckDb/Steps/Finders.antt =====
-- The functions of ffi/duckdb_shim.c that return what DuckDB has found, or none.
use linen.Base.{ℕ, refl, Option, List}
use linen.Calls.{Code}
use linen.Calls.Legal.{Legal}
use linen.DuckDb.Api.{Kind, client_context, catalog, catalog_entry, Handle, Arg, duckdb}
use linen.DuckDb.Catalogs.{client_context_get_catalog, catalog_get_entry}
use linen.DuckDb.Functions.{duckdb_client_context_get_catalog, duckdb_catalog_get_entry}
use linen.DuckDb.Handles.{one, two}
use linen.DuckDb.Owned.{Any, held}
use linen.DuckDb.Shapes.{found_held, finds-Legal}

-- a call from Lean, with its arguments
pub data Finder : Type 0 where
  calls_client_context_get_catalog : Handle → List ℕ → Finder
  calls_catalog_get_entry : Handle → Handle → ℕ → List ℕ → List ℕ → Finder

abbrev pub finder_code : Finder → Code duckdb (Option (Option Handle))
finder_code (calls_client_context_get_catalog a b) = client_context_get_catalog a b
finder_code (calls_catalog_get_entry a b c d e) = catalog_get_entry a b c d e

-- the handles that it gets
abbrev pub finder_args : Finder → List Arg
finder_args (calls_client_context_get_catalog a b) = one client_context a
finder_args (calls_catalog_get_entry a b c d e) = two catalog a client_context b

-- the kind of what it makes
abbrev pub finder_kind : Finder → Kind
finder_kind (calls_catalog_get_entry a b c d e) = catalog_entry
finder_kind _ = catalog

pub finder_code-Legal :
    (s : Finder)
    → Legal duckdb Any
        (found_held (finder_kind s) (held (finder_args s)))
        (held (finder_args s))
        (finder_code s)
finder_code-Legal (calls_client_context_get_catalog a b) =
    finds-Legal catalog (duckdb_client_context_get_catalog b) (one client_context a) refl
finder_code-Legal (calls_catalog_get_entry a b c d e) =
    finds-Legal catalog_entry (duckdb_catalog_get_entry c d e) (two catalog a client_context b) refl
