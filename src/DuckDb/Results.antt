-- ===== src/DuckDb/Results.antt =====
-- Queries and results in ffi/duckdb_shim.c.
use linen.Base.{ℕ, ◌%◌, ◌^◌, Option, none, some, List}
use linen.Calls.{Code, ◌>>=◌, ◌>>◌, pure, make, free, ask, when}
use linen.DuckDb.Api.{
  connection, arrow_options, prepared_statement, data_chunk, logical_type, result, fresh, native,
  Handle, Arg, makes, states, stored, duckdb, fail,
}
use linen.DuckDb.Functions.{
  duckdb_column_logical_type, duckdb_result_get_arrow_options, duckdb_fetch_chunk, Stateful,
  duckdb_execute_prepared, duckdb_query, duckdb_column_type, duckdb_result_statement_type,
  duckdb_column_count, duckdb_rows_changed, duckdb_result_error_type, duckdb_row_count,
  duckdb_result_error, duckdb_column_name,
}
use linen.DuckDb.Handles.{
  mk_result_wrapper, destroy, finalizer, one, is_made, option_or_fail, gets, number_of,
  borrowed_text,
}

-- A result whose handle is live is one that DuckDB has filled. `duckdb_destroy_result` does nothing on one that
-- is zero, so here it is not called there.
abbrev pub destroy_result : Handle → Code duckdb Handle
destroy_result r = destroy result r

abbrev pub result_finalizer : Handle → Code duckdb (Unit {0})
result_finalizer r = finalizer result r

-- a call that fills a result, after its wrapper
abbrev pub filled : Option Handle → Stateful → List Arg → Code duckdb (ℕ × Handle)
filled none f given = fail "malloc failed for duckdb_result wrapper"
filled (some h) f given = do
  rc ← ask (states f given)
  p ← make (native result fresh) (stored result)
  pure (rc % 2 ^ 32, record { live = is_made p })

abbrev pub execute_prepared : Handle → Code duckdb (ℕ × Handle)
execute_prepared s = do
  h ← mk_result_wrapper
  filled h duckdb_execute_prepared (one prepared_statement s)

abbrev pub query : Handle → List ℕ → Code duckdb (ℕ × Handle)
query c text_of = do h ← mk_result_wrapper; filled h (duckdb_query text_of) (one connection c)

abbrev pub column_name : Handle → ℕ → Code duckdb (Option (List ℕ))
column_name r i = borrowed_text (duckdb_column_name i) (one result r)

abbrev pub column_type_raw : Handle → ℕ → Code duckdb ℕ
column_type_raw r i = number_of 32 (duckdb_column_type i) (one result r)

abbrev pub result_statement_type_raw : Handle → Code duckdb ℕ
result_statement_type_raw r = number_of 32 duckdb_result_statement_type (one result r)

abbrev pub column_logical_type : Handle → ℕ → Code duckdb Handle
column_logical_type r i =
    gets logical_type (duckdb_column_logical_type i) (one result r)
      "malloc failed for duckdb_logical_type wrapper"

abbrev pub result_get_arrow_options : Handle → Code duckdb Handle
result_get_arrow_options r =
    gets arrow_options duckdb_result_get_arrow_options (one result r)
      "malloc failed for duckdb_arrow_options wrapper"

abbrev pub column_count : Handle → Code duckdb ℕ
column_count r = number_of 64 duckdb_column_count (one result r)

abbrev pub rows_changed : Handle → Code duckdb ℕ
rows_changed r = number_of 64 duckdb_rows_changed (one result r)

abbrev pub result_error : Handle → Code duckdb (Option (List ℕ))
result_error r = borrowed_text duckdb_result_error (one result r)

abbrev pub result_error_type_raw : Handle → Code duckdb ℕ
result_error_type_raw r = number_of 32 duckdb_result_error_type (one result r)

abbrev pub fetch_chunk : Handle → Code duckdb (Option Handle)
fetch_chunk r = do
  p ← make (native data_chunk fresh) (makes duckdb_fetch_chunk (one result r))
  option_or_fail data_chunk p "malloc failed for duckdb_data_chunk wrapper"

-- `linen_duckdb_test_query`: the result is destroyed at once
abbrev pub test_query : Handle → List ℕ → Code duckdb ℕ
test_query c text_of = do
  rc ← ask (states (duckdb_query text_of) (one connection c))
  p ← make (native result fresh) (stored result)
  when (is_made p) (free (native result fresh))
  pure (rc % 2 ^ 32)

abbrev pub test_result_row_count : Handle → Code duckdb ℕ
test_result_row_count r = number_of 64 duckdb_row_count (one result r)
