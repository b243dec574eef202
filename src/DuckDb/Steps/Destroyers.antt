-- ===== src/DuckDb/Steps/Destroyers.antt =====
-- The functions of ffi/duckdb_shim.c that destroy what a handle holds, and the finalizers.
use linen.Base.{refl, []}
use linen.Calls.{Code}
use linen.Calls.Legal.{Legal}
use linen.DuckDb.Api.{
  Kind, database, connection, instance_cache, client_context, arrow_options, appender,
  prepared_statement, data_chunk, vector, logical_type, config, config_option, error_data, catalog,
  catalog_entry, result, file_system, file_open_options, file_handle, log_storage, raw_memory,
  scalar_function, scalar_function_set, borrowed_data_chunk, validity_mask, Handle, duckdb,
}
use linen.DuckDb.Appender.{appender_destroy}
use linen.DuckDb.Callbacks.{
  destroy_scalar_function, destroy_scalar_function_set, destroy_log_storage,
}
use linen.DuckDb.Catalogs.{
  destroy_catalog, destroy_catalog_entry, destroy_config, destroy_config_option,
}
use linen.DuckDb.Chunks.{destroy_data_chunk, error_data_destroy, duckdb_free_raw}
use linen.DuckDb.Files.{destroy_file_system, destroy_file_open_options, destroy_file_handle}
use linen.DuckDb.Handles.{finalizer, borrowed_finalizer, one}
use linen.DuckDb.Opening.{
  destroy_instance_cache, close_database, disconnect, destroy_client_context, destroy_arrow_options,
}
use linen.DuckDb.Owned.{Any, held}
use linen.DuckDb.Prepared.{destroy_prepare, test_destroy_prepare}
use linen.DuckDb.Releases.{destroyed_held, destroy-Legal, finalizer-Legal, borrowed_finalizer-Legal}
use linen.DuckDb.Results.{destroy_result, result_finalizer}
use linen.DuckDb.Types.{destroy_logical_type}

-- a call from Lean that destroys what a handle holds
pub data Destroyer : Type 0 where
  calls_destroy_instance_cache : Handle → Destroyer
  calls_close_database : Handle → Destroyer
  calls_disconnect : Handle → Destroyer
  calls_destroy_client_context : Handle → Destroyer
  calls_destroy_arrow_options : Handle → Destroyer
  calls_appender_destroy : Handle → Destroyer
  calls_destroy_catalog : Handle → Destroyer
  calls_destroy_catalog_entry : Handle → Destroyer
  calls_destroy_config : Handle → Destroyer
  calls_destroy_config_option : Handle → Destroyer
  calls_destroy_data_chunk : Handle → Destroyer
  calls_error_data_destroy : Handle → Destroyer
  calls_destroy_result : Handle → Destroyer
  calls_destroy_file_system : Handle → Destroyer
  calls_destroy_file_open_options : Handle → Destroyer
  calls_destroy_file_handle : Handle → Destroyer
  calls_duckdb_free_raw : Handle → Destroyer
  calls_destroy_log_storage : Handle → Destroyer
  calls_destroy_logical_type : Handle → Destroyer
  calls_destroy_prepare : Handle → Destroyer
  calls_test_destroy_prepare : Handle → Destroyer
  calls_destroy_scalar_function : Handle → Destroyer
  calls_destroy_scalar_function_set : Handle → Destroyer

abbrev pub destroyer_code : Destroyer → Code duckdb Handle
destroyer_code (calls_destroy_instance_cache a) = destroy_instance_cache a
destroyer_code (calls_close_database a) = close_database a
destroyer_code (calls_disconnect a) = disconnect a
destroyer_code (calls_destroy_client_context a) = destroy_client_context a
destroyer_code (calls_destroy_arrow_options a) = destroy_arrow_options a
destroyer_code (calls_appender_destroy a) = appender_destroy a
destroyer_code (calls_destroy_catalog a) = destroy_catalog a
destroyer_code (calls_destroy_catalog_entry a) = destroy_catalog_entry a
destroyer_code (calls_destroy_config a) = destroy_config a
destroyer_code (calls_destroy_config_option a) = destroy_config_option a
destroyer_code (calls_destroy_data_chunk a) = destroy_data_chunk a
destroyer_code (calls_error_data_destroy a) = error_data_destroy a
destroyer_code (calls_destroy_result a) = destroy_result a
destroyer_code (calls_destroy_file_system a) = destroy_file_system a
destroyer_code (calls_destroy_file_open_options a) = destroy_file_open_options a
destroyer_code (calls_destroy_file_handle a) = destroy_file_handle a
destroyer_code (calls_duckdb_free_raw a) = duckdb_free_raw a
destroyer_code (calls_destroy_log_storage a) = destroy_log_storage a
destroyer_code (calls_destroy_logical_type a) = destroy_logical_type a
destroyer_code (calls_destroy_prepare a) = destroy_prepare a
destroyer_code (calls_test_destroy_prepare a) = test_destroy_prepare a
destroyer_code (calls_destroy_scalar_function a) = destroy_scalar_function a
destroyer_code (calls_destroy_scalar_function_set a) = destroy_scalar_function_set a

abbrev pub destroyer_kind : Destroyer → Kind
destroyer_kind (calls_destroy_instance_cache a) = instance_cache
destroyer_kind (calls_close_database a) = database
destroyer_kind (calls_disconnect a) = connection
destroyer_kind (calls_destroy_client_context a) = client_context
destroyer_kind (calls_destroy_arrow_options a) = arrow_options
destroyer_kind (calls_appender_destroy a) = appender
destroyer_kind (calls_destroy_catalog a) = catalog
destroyer_kind (calls_destroy_catalog_entry a) = catalog_entry
destroyer_kind (calls_destroy_config a) = config
destroyer_kind (calls_destroy_config_option a) = config_option
destroyer_kind (calls_destroy_data_chunk a) = data_chunk
destroyer_kind (calls_error_data_destroy a) = error_data
destroyer_kind (calls_destroy_result a) = result
destroyer_kind (calls_destroy_file_system a) = file_system
destroyer_kind (calls_destroy_file_open_options a) = file_open_options
destroyer_kind (calls_destroy_file_handle a) = file_handle
destroyer_kind (calls_duckdb_free_raw a) = raw_memory
destroyer_kind (calls_destroy_log_storage a) = log_storage
destroyer_kind (calls_destroy_logical_type a) = logical_type
destroyer_kind (calls_destroy_prepare a) = prepared_statement
destroyer_kind (calls_test_destroy_prepare a) = prepared_statement
destroyer_kind (calls_destroy_scalar_function a) = scalar_function
destroyer_kind (calls_destroy_scalar_function_set a) = scalar_function_set

abbrev pub destroyer_handle : Destroyer → Handle
destroyer_handle (calls_destroy_instance_cache a) = a
destroyer_handle (calls_close_database a) = a
destroyer_handle (calls_disconnect a) = a
destroyer_handle (calls_destroy_client_context a) = a
destroyer_handle (calls_destroy_arrow_options a) = a
destroyer_handle (calls_appender_destroy a) = a
destroyer_handle (calls_destroy_catalog a) = a
destroyer_handle (calls_destroy_catalog_entry a) = a
destroyer_handle (calls_destroy_config a) = a
destroyer_handle (calls_destroy_config_option a) = a
destroyer_handle (calls_destroy_data_chunk a) = a
destroyer_handle (calls_error_data_destroy a) = a
destroyer_handle (calls_destroy_result a) = a
destroyer_handle (calls_destroy_file_system a) = a
destroyer_handle (calls_destroy_file_open_options a) = a
destroyer_handle (calls_destroy_file_handle a) = a
destroyer_handle (calls_duckdb_free_raw a) = a
destroyer_handle (calls_destroy_log_storage a) = a
destroyer_handle (calls_destroy_logical_type a) = a
destroyer_handle (calls_destroy_prepare a) = a
destroyer_handle (calls_test_destroy_prepare a) = a
destroyer_handle (calls_destroy_scalar_function a) = a
destroyer_handle (calls_destroy_scalar_function_set a) = a

pub destroyer_code-Legal :
    (s : Destroyer)
    → Legal duckdb Any
        (destroyed_held (destroyer_kind s))
        (held (one (destroyer_kind s) (destroyer_handle s)))
        (destroyer_code s)
destroyer_code-Legal (calls_destroy_instance_cache a) = destroy-Legal instance_cache a.live refl
destroyer_code-Legal (calls_close_database a) = destroy-Legal database a.live refl
destroyer_code-Legal (calls_disconnect a) = destroy-Legal connection a.live refl
destroyer_code-Legal (calls_destroy_client_context a) = destroy-Legal client_context a.live refl
destroyer_code-Legal (calls_destroy_arrow_options a) = destroy-Legal arrow_options a.live refl
destroyer_code-Legal (calls_appender_destroy a) = destroy-Legal appender a.live refl
destroyer_code-Legal (calls_destroy_catalog a) = destroy-Legal catalog a.live refl
destroyer_code-Legal (calls_destroy_catalog_entry a) = destroy-Legal catalog_entry a.live refl
destroyer_code-Legal (calls_destroy_config a) = destroy-Legal config a.live refl
destroyer_code-Legal (calls_destroy_config_option a) = destroy-Legal config_option a.live refl
destroyer_code-Legal (calls_destroy_data_chunk a) = destroy-Legal data_chunk a.live refl
destroyer_code-Legal (calls_error_data_destroy a) = destroy-Legal error_data a.live refl
destroyer_code-Legal (calls_destroy_result a) = destroy-Legal result a.live refl
destroyer_code-Legal (calls_destroy_file_system a) = destroy-Legal file_system a.live refl
destroyer_code-Legal (calls_destroy_file_open_options a) =
    destroy-Legal file_open_options a.live refl
destroyer_code-Legal (calls_destroy_file_handle a) = destroy-Legal file_handle a.live refl
destroyer_code-Legal (calls_duckdb_free_raw a) = destroy-Legal raw_memory a.live refl
destroyer_code-Legal (calls_destroy_log_storage a) = destroy-Legal log_storage a.live refl
destroyer_code-Legal (calls_destroy_logical_type a) = destroy-Legal logical_type a.live refl
destroyer_code-Legal (calls_destroy_prepare a) = destroy-Legal prepared_statement a.live refl
destroyer_code-Legal (calls_test_destroy_prepare a) = destroy-Legal prepared_statement a.live refl
destroyer_code-Legal (calls_destroy_scalar_function a) = destroy-Legal scalar_function a.live refl
destroyer_code-Legal (calls_destroy_scalar_function_set a) =
    destroy-Legal scalar_function_set a.live refl

-- the finalizer of each kind
abbrev pub finalizer_of : Kind → Handle → Code duckdb (Unit {0})
finalizer_of vector h = borrowed_finalizer vector h
finalizer_of borrowed_data_chunk h = borrowed_finalizer borrowed_data_chunk h
finalizer_of validity_mask h = borrowed_finalizer validity_mask h
finalizer_of result h = result_finalizer h
finalizer_of k h = finalizer k h

pub finalizer_of-Legal :
    (k : Kind) (h : Handle) → Legal duckdb Any (λ r. []) (held (one k h)) (finalizer_of k h)
finalizer_of-Legal vector h = borrowed_finalizer-Legal vector h refl
finalizer_of-Legal borrowed_data_chunk h = borrowed_finalizer-Legal borrowed_data_chunk h refl
finalizer_of-Legal validity_mask h = borrowed_finalizer-Legal validity_mask h refl
finalizer_of-Legal result h = finalizer-Legal result h.live refl
finalizer_of-Legal k h = finalizer-Legal k h.live refl
