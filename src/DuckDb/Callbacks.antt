-- ===== src/DuckDb/Callbacks.antt =====
-- Scalar functions and log storages in ffi/duckdb_shim.c, but for their closures.
use linen.Base.{ℕ, List, []}
use linen.Calls.{Code}
use linen.DuckDb.Api.{
  database, connection, logical_type, log_storage, scalar_function, scalar_function_set, Handle,
  duckdb,
}
use linen.DuckDb.Functions.{
  duckdb_create_log_storage, duckdb_create_scalar_function, duckdb_create_scalar_function_set,
  duckdb_register_log_storage, duckdb_register_scalar_function, duckdb_add_scalar_function_to_set,
  duckdb_register_scalar_function_set, duckdb_log_storage_set_write_log_entry,
  duckdb_log_storage_set_name, duckdb_scalar_function_set_name, duckdb_scalar_function_set_varargs,
  duckdb_scalar_function_set_special_handling, duckdb_scalar_function_set_volatile,
  duckdb_scalar_function_add_parameter, duckdb_scalar_function_set_return_type,
  duckdb_scalar_function_set_function,
}
use linen.DuckDb.Handles.{destroy, one, two, gets, state_of, silently}

abbrev pub create_scalar_function : Code duckdb Handle
create_scalar_function =
    gets scalar_function duckdb_create_scalar_function []
      "malloc failed for duckdb_scalar_function wrapper"

abbrev pub destroy_scalar_function : Handle → Code duckdb Handle
destroy_scalar_function f = destroy scalar_function f

abbrev pub scalar_function_set_name : Handle → List ℕ → Code duckdb (Unit {0})
scalar_function_set_name f name =
    silently (duckdb_scalar_function_set_name name) (one scalar_function f)

abbrev pub scalar_function_set_varargs : Handle → Handle → Code duckdb (Unit {0})
scalar_function_set_varargs f t =
    silently duckdb_scalar_function_set_varargs (two scalar_function f logical_type t)

abbrev pub scalar_function_set_special_handling : Handle → Code duckdb (Unit {0})
scalar_function_set_special_handling f =
    silently duckdb_scalar_function_set_special_handling (one scalar_function f)

abbrev pub scalar_function_set_volatile : Handle → Code duckdb (Unit {0})
scalar_function_set_volatile f =
    silently duckdb_scalar_function_set_volatile (one scalar_function f)

abbrev pub scalar_function_add_parameter : Handle → Handle → Code duckdb (Unit {0})
scalar_function_add_parameter f t =
    silently duckdb_scalar_function_add_parameter (two scalar_function f logical_type t)

abbrev pub scalar_function_set_return_type : Handle → Handle → Code duckdb (Unit {0})
scalar_function_set_return_type f t =
    silently duckdb_scalar_function_set_return_type (two scalar_function f logical_type t)

abbrev pub scalar_function_set_function : Handle → Code duckdb (Unit {0})
scalar_function_set_function f =
    silently duckdb_scalar_function_set_function (one scalar_function f)

abbrev pub register_scalar_function_raw : Handle → Handle → Code duckdb ℕ
register_scalar_function_raw c f =
    state_of duckdb_register_scalar_function (two connection c scalar_function f)

abbrev pub create_scalar_function_set : List ℕ → Code duckdb Handle
create_scalar_function_set name =
    gets scalar_function_set (duckdb_create_scalar_function_set name) []
      "malloc failed for duckdb_scalar_function_set wrapper"

abbrev pub destroy_scalar_function_set : Handle → Code duckdb Handle
destroy_scalar_function_set s = destroy scalar_function_set s

abbrev pub add_scalar_function_to_set_raw : Handle → Handle → Code duckdb ℕ
add_scalar_function_to_set_raw s f =
    state_of duckdb_add_scalar_function_to_set (two scalar_function_set s scalar_function f)

abbrev pub register_scalar_function_set_raw : Handle → Handle → Code duckdb ℕ
register_scalar_function_set_raw c s =
    state_of duckdb_register_scalar_function_set (two connection c scalar_function_set s)

abbrev pub create_log_storage : Code duckdb Handle
create_log_storage =
    gets log_storage duckdb_create_log_storage [] "malloc failed for duckdb_log_storage wrapper"

abbrev pub destroy_log_storage : Handle → Code duckdb Handle
destroy_log_storage s = destroy log_storage s

abbrev pub log_storage_set_write_log_entry : Handle → Code duckdb (Unit {0})
log_storage_set_write_log_entry s =
    silently duckdb_log_storage_set_write_log_entry (one log_storage s)

abbrev pub log_storage_set_name : Handle → List ℕ → Code duckdb (Unit {0})
log_storage_set_name s name = silently (duckdb_log_storage_set_name name) (one log_storage s)

abbrev pub register_log_storage : Handle → Handle → Code duckdb ℕ
register_log_storage d s = state_of duckdb_register_log_storage (two database d log_storage s)
