-- ===== src/DuckDb/Steps/Guarded.antt =====
-- The functions of ffi/duckdb_shim.c that ask something of a handle where it is not NULL, or give an answer another form.
use linen.Base.{ℕ, refl, Bool, Option, List, []}
use linen.Calls.{Code}
use linen.Calls.Legal.{Legal}
use linen.DuckDb.Api.{
  connection, appender, prepared_statement, catalog, catalog_entry, data_chunk, error_data,
  validity_mask, Handle, Arg, Progress, duckdb,
}
use linen.DuckDb.Appender.{appender_clear, appender_flush, appender_close}
use linen.DuckDb.Catalogs.{catalog_get_type_name, catalog_entry_get_name, get_config_flag}
use linen.DuckDb.Chunks.{
  data_chunk_reset, data_chunk_set_size, error_data_message, error_data_has_error,
}
use linen.DuckDb.Functions.{
  Numeric, duckdb_interrupt, duckdb_appender_clear, duckdb_appender_flush, duckdb_appender_close,
  duckdb_data_chunk_reset, duckdb_data_chunk_set_size,
}
use linen.DuckDb.Handles.{one, number_of}
use linen.DuckDb.Opening.{interrupt, progress, library_version}
use linen.DuckDb.Owned.{Any, held, usable}
use linen.DuckDb.Prepared.{bind_parameter_index}
use linen.DuckDb.Shapes.{unchanged, state_of-Legal, silently-Legal}
use linen.DuckDb.Vectors.{validity_row_is_valid}

-- a call from Lean, with its arguments
pub data Guarded : Type 0 where
  calls_interrupt : Handle → Guarded
  calls_query_progress : Handle → Guarded
  calls_library_version : Guarded
  calls_appender_clear : Handle → Guarded
  calls_appender_flush : Handle → Guarded
  calls_appender_close : Handle → Guarded
  calls_bind_parameter_index : Handle → List ℕ → Guarded
  calls_catalog_get_type_name : Handle → Guarded
  calls_catalog_entry_get_name : Handle → Guarded
  calls_get_config_flag : ℕ → Guarded
  calls_data_chunk_reset : Handle → Guarded
  calls_data_chunk_set_size : Handle → ℕ → Guarded
  calls_error_data_message : Handle → Guarded
  calls_error_data_has_error : Handle → Guarded
  calls_validity_row_is_valid : Handle → ℕ → Guarded
  asks_count : ℕ → Numeric → List Arg → Guarded

abbrev pub GuardedResult : Guarded → Type 0
GuardedResult (calls_interrupt h) = Unit {0}
GuardedResult (calls_query_progress h) = Progress
GuardedResult calls_library_version = List ℕ
GuardedResult (calls_appender_clear h) = ℕ
GuardedResult (calls_appender_flush h) = ℕ
GuardedResult (calls_appender_close h) = ℕ
GuardedResult (calls_bind_parameter_index h name) = ℕ × Option ℕ
GuardedResult (calls_catalog_get_type_name h) = List ℕ
GuardedResult (calls_catalog_entry_get_name h) = List ℕ
GuardedResult (calls_get_config_flag n) = ℕ × Option (List ℕ) × Option (List ℕ)
GuardedResult (calls_data_chunk_reset h) = Unit {0}
GuardedResult (calls_data_chunk_set_size h n) = Unit {0}
GuardedResult (calls_error_data_message h) = List ℕ
GuardedResult (calls_error_data_has_error h) = Bool
GuardedResult (calls_validity_row_is_valid h n) = Bool
GuardedResult (asks_count n f given) = ℕ

abbrev pub guarded_code : (g : Guarded) → Code duckdb (GuardedResult g)
guarded_code (calls_interrupt h) = interrupt h
guarded_code (calls_query_progress h) = progress h
guarded_code calls_library_version = library_version
guarded_code (calls_appender_clear h) = appender_clear h
guarded_code (calls_appender_flush h) = appender_flush h
guarded_code (calls_appender_close h) = appender_close h
guarded_code (calls_bind_parameter_index h name) = bind_parameter_index h name
guarded_code (calls_catalog_get_type_name h) = catalog_get_type_name h
guarded_code (calls_catalog_entry_get_name h) = catalog_entry_get_name h
guarded_code (calls_get_config_flag n) = get_config_flag n
guarded_code (calls_data_chunk_reset h) = data_chunk_reset h
guarded_code (calls_data_chunk_set_size h n) = data_chunk_set_size h n
guarded_code (calls_error_data_message h) = error_data_message h
guarded_code (calls_error_data_has_error h) = error_data_has_error h
guarded_code (calls_validity_row_is_valid h n) = validity_row_is_valid h n
guarded_code (asks_count n f given) = number_of n f given

-- the handles that it gets
abbrev pub guarded_args : Guarded → List Arg
guarded_args (calls_interrupt h) = one connection h
guarded_args (calls_query_progress h) = one connection h
guarded_args calls_library_version = []
guarded_args (calls_appender_clear h) = one appender h
guarded_args (calls_appender_flush h) = one appender h
guarded_args (calls_appender_close h) = one appender h
guarded_args (calls_bind_parameter_index h name) = one prepared_statement h
guarded_args (calls_catalog_get_type_name h) = one catalog h
guarded_args (calls_catalog_entry_get_name h) = one catalog_entry h
guarded_args (calls_get_config_flag n) = []
guarded_args (calls_data_chunk_reset h) = one data_chunk h
guarded_args (calls_data_chunk_set_size h n) = one data_chunk h
guarded_args (calls_error_data_message h) = one error_data h
guarded_args (calls_error_data_has_error h) = one error_data h
guarded_args (calls_validity_row_is_valid h n) = one validity_mask h
guarded_args (asks_count n f given) = given

pub guarded_code-Legal :
    (g : Guarded)
    → Legal duckdb Any (unchanged (guarded_args g)) (held (guarded_args g)) (guarded_code g)
guarded_code-Legal (calls_interrupt h) =
    ((λ e. silently-Legal duckdb_interrupt (one connection h)), λ e. refl)
guarded_code-Legal (calls_query_progress h) =
    ((λ e. (usable (one connection h), λ r t. refl)), λ e. refl)
guarded_code-Legal calls_library_version = (usable ([]), λ r t. refl)
guarded_code-Legal (calls_appender_clear h) =
    ((λ e. state_of-Legal duckdb_appender_clear (one appender h)), λ e. refl)
guarded_code-Legal (calls_appender_flush h) =
    ((λ e. state_of-Legal duckdb_appender_flush (one appender h)), λ e. refl)
guarded_code-Legal (calls_appender_close h) =
    ((λ e. state_of-Legal duckdb_appender_close (one appender h)), λ e. refl)
guarded_code-Legal (calls_bind_parameter_index h name) =
    (usable (one prepared_statement h), λ r t. (refl, λ i t. refl))
guarded_code-Legal (calls_catalog_get_type_name h) =
    ((λ e. (usable (one catalog h), λ r t. refl)), λ e. refl)
guarded_code-Legal (calls_catalog_entry_get_name h) =
    ((λ e. (usable (one catalog_entry h), λ r t. refl)), λ e. refl)
guarded_code-Legal (calls_get_config_flag n) = (usable ([]), λ r t. (refl, λ i t. refl))
guarded_code-Legal (calls_data_chunk_reset h) =
    ((λ e. silently-Legal duckdb_data_chunk_reset (one data_chunk h)), λ e. refl)
guarded_code-Legal (calls_data_chunk_set_size h n) =
    ((λ e. silently-Legal (duckdb_data_chunk_set_size n) (one data_chunk h)), λ e. refl)
guarded_code-Legal (calls_error_data_message h) =
    ((λ e. (usable (one error_data h), λ r t. refl)), λ e. refl)
guarded_code-Legal (calls_error_data_has_error h) =
    ((λ e. (usable (one error_data h), λ r t. refl)), λ e. refl)
guarded_code-Legal (calls_validity_row_is_valid h n) = (usable (one validity_mask h), λ r t. refl)
guarded_code-Legal (asks_count n f given) = (usable (given), λ r t. refl)
