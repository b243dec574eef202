-- ===== src/DuckDb/Appender.antt =====
-- Appenders in ffi/duckdb_shim.c, but for that of a query.
use linen.Base.{ℕ, Option, List}
use linen.Calls.{branch, Code, pure}
use linen.DuckDb.Api.{
  connection, value, appender, data_chunk, logical_type, error_data, Handle, duckdb,
}
use linen.DuckDb.Functions.{
  duckdb_appender_column_type, duckdb_appender_error_data, Stateful, duckdb_appender_create,
  duckdb_appender_create_ext, duckdb_appender_clear, duckdb_appender_flush, duckdb_appender_close,
  duckdb_appender_add_column, duckdb_appender_clear_columns, duckdb_appender_begin_row,
  duckdb_appender_end_row, duckdb_append_default, duckdb_append_null, duckdb_append_value,
  duckdb_append_data_chunk, duckdb_append_default_to_chunk, duckdb_append,
  duckdb_appender_column_count,
}
use linen.DuckDb.Handles.{destroy, one, two, gets, opens, state_of, number_or}
use linen.DuckDb.Values.{Value, appended}

abbrev pub appender_create :
    Handle → Option (List ℕ) → List ℕ → Code duckdb (ℕ × Option (Option Handle))
appender_create c schema table =
    opens appender (duckdb_appender_create schema table) (one connection c)

abbrev pub appender_create_ext :
    Handle → Option (List ℕ) → Option (List ℕ) → List ℕ → Code duckdb (ℕ × Option (Option Handle))
appender_create_ext c catalog_name schema table =
    opens appender (duckdb_appender_create_ext catalog_name schema table) (one connection c)

abbrev pub appender_column_count : Handle → Code duckdb ℕ
appender_column_count a = number_or 64 a.live duckdb_appender_column_count (one appender a) 0

abbrev pub appender_column_type : Handle → ℕ → Code duckdb Handle
appender_column_type a i =
    gets logical_type (duckdb_appender_column_type i) (one appender a)
      "malloc failed for duckdb_logical_type wrapper"

abbrev pub appender_error_data : Handle → Code duckdb Handle
appender_error_data a =
    gets error_data duckdb_appender_error_data (one appender a)
      "malloc failed for duckdb_error_data wrapper"

-- `DuckDBError`
abbrev pub duckdb_error : ℕ
duckdb_error = 1

-- `app ? f(app) : DuckDBError`
abbrev pub state_or_error : Handle → Stateful → Code duckdb ℕ
state_or_error a f = branch a.live (state_of f (one appender a)) (pure duckdb_error)

abbrev pub appender_clear : Handle → Code duckdb ℕ
appender_clear a = state_or_error a duckdb_appender_clear

abbrev pub appender_flush : Handle → Code duckdb ℕ
appender_flush a = state_or_error a duckdb_appender_flush

abbrev pub appender_close : Handle → Code duckdb ℕ
appender_close a = state_or_error a duckdb_appender_close

abbrev pub appender_destroy : Handle → Code duckdb Handle
appender_destroy a = destroy appender a

abbrev pub appender_add_column : Handle → List ℕ → Code duckdb ℕ
appender_add_column a name = state_of (duckdb_appender_add_column name) (one appender a)

abbrev pub appender_clear_columns : Handle → Code duckdb ℕ
appender_clear_columns a = state_of duckdb_appender_clear_columns (one appender a)

abbrev pub appender_begin_row : Handle → Code duckdb ℕ
appender_begin_row a = state_of duckdb_appender_begin_row (one appender a)

abbrev pub appender_end_row : Handle → Code duckdb ℕ
appender_end_row a = state_of duckdb_appender_end_row (one appender a)

abbrev pub append_default : Handle → Code duckdb ℕ
append_default a = state_of duckdb_append_default (one appender a)

abbrev pub append_default_to_chunk : Handle → Handle → ℕ → ℕ → Code duckdb ℕ
append_default_to_chunk a c col row =
    state_of (duckdb_append_default_to_chunk col row) (two appender a data_chunk c)

abbrev pub append_null : Handle → Code duckdb ℕ
append_null a = state_of duckdb_append_null (one appender a)

abbrev pub append_value : Handle → Handle → Code duckdb ℕ
append_value a v = state_of duckdb_append_value (two appender a value v)

abbrev pub append_data_chunk : Handle → Handle → Code duckdb ℕ
append_data_chunk a c = state_of duckdb_append_data_chunk (two appender a data_chunk c)

-- `linen_duckdb_append_bool`, ..., `linen_duckdb_append_blob`
abbrev pub append_plain : Handle → Value → Code duckdb ℕ
append_plain a v = state_of (duckdb_append (appended v)) (one appender a)
