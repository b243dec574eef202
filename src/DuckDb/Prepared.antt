-- ===== src/DuckDb/Prepared.antt =====
-- Prepared statements and their parameters in ffi/duckdb_shim.c.
use linen.Base.{◌==◌, if◌then◌else◌, ℕ, ◌%◌, ◌^◌, Option, none, some, List}
use linen.Calls.{Code, ◌>>=◌, pure, make, ask}
use linen.DuckDb.Api.{
  connection, value, prepared_statement, logical_type, fresh, native, Handle, states, stored,
  stored_index, duckdb,
}
use linen.DuckDb.Functions.{
  duckdb_param_logical_type, duckdb_prepared_statement_column_logical_type, duckdb_bind_value,
  duckdb_bind, duckdb_bind_parameter_index, duckdb_bind_null, duckdb_prepare, duckdb_clear_bindings,
  duckdb_nparams, duckdb_prepared_statement_type, duckdb_prepared_statement_column_count,
  duckdb_param_type, duckdb_prepared_statement_column_type, duckdb_prepare_error,
  duckdb_parameter_name, duckdb_prepared_statement_column_name,
}
use linen.DuckDb.Handles.{
  destroy, one, two, wrapper_of, gets, opens, state_of, number_of, borrowed_text, owned_text,
}
use linen.DuckDb.Values.{Bound, bound}

abbrev pub bind_value : Handle → ℕ → Handle → Code duckdb ℕ
bind_value s i v = state_of (duckdb_bind_value i) (two prepared_statement s value v)

-- `rc == DuckDBSuccess ? some index : none`
abbrev pub index_if : ℕ → ℕ → Option ℕ
index_if rc i = if rc == 0 then some i else none

abbrev pub bind_parameter_index : Handle → List ℕ → Code duckdb (ℕ × Option ℕ)
bind_parameter_index s name = do
  rc ← ask (states (duckdb_bind_parameter_index name) (one prepared_statement s))
  i ← ask stored_index
  pure (rc % 2 ^ 32, index_if rc i)

-- `linen_duckdb_bind_boolean`, ..., `linen_duckdb_bind_blob`
abbrev pub bind_plain : Handle → ℕ → Bound → Code duckdb ℕ
bind_plain s i v = state_of (duckdb_bind i (bound v)) (one prepared_statement s)

abbrev pub bind_null : Handle → ℕ → Code duckdb ℕ
bind_null s i = state_of (duckdb_bind_null i) (one prepared_statement s)

-- `linen_duckdb_prepare`: the statement may be NULL in its wrapper
abbrev pub prepare : Handle → List ℕ → Code duckdb (ℕ × Handle)
prepare c sql = do
  rc ← ask (states (duckdb_prepare sql) (one connection c))
  p ← make (native prepared_statement fresh) (stored prepared_statement)
  h ← wrapper_of prepared_statement p "malloc failed for duckdb_prepared_statement wrapper"
  pure (rc % 2 ^ 32, h)

abbrev pub destroy_prepare : Handle → Code duckdb Handle
destroy_prepare s = destroy prepared_statement s

abbrev pub prepare_error : Handle → Code duckdb (Option (List ℕ))
prepare_error s = borrowed_text duckdb_prepare_error (one prepared_statement s)

abbrev pub nparams : Handle → Code duckdb ℕ
nparams s = number_of 64 duckdb_nparams (one prepared_statement s)

abbrev pub parameter_name : Handle → ℕ → Code duckdb (Option (List ℕ))
parameter_name s i = owned_text (duckdb_parameter_name i) (one prepared_statement s)

abbrev pub param_type_raw : Handle → ℕ → Code duckdb ℕ
param_type_raw s i = number_of 32 (duckdb_param_type i) (one prepared_statement s)

abbrev pub param_logical_type : Handle → ℕ → Code duckdb Handle
param_logical_type s i =
    gets logical_type (duckdb_param_logical_type i) (one prepared_statement s)
      "malloc failed for duckdb_logical_type wrapper"

abbrev pub clear_bindings_raw : Handle → Code duckdb ℕ
clear_bindings_raw s = state_of duckdb_clear_bindings (one prepared_statement s)

abbrev pub prepared_statement_type_raw : Handle → Code duckdb ℕ
prepared_statement_type_raw s =
    number_of 32 duckdb_prepared_statement_type (one prepared_statement s)

abbrev pub prepared_statement_column_count : Handle → Code duckdb ℕ
prepared_statement_column_count s =
    number_of 64 duckdb_prepared_statement_column_count (one prepared_statement s)

abbrev pub prepared_statement_column_name : Handle → ℕ → Code duckdb (Option (List ℕ))
prepared_statement_column_name s i =
    owned_text (duckdb_prepared_statement_column_name i) (one prepared_statement s)

abbrev pub prepared_statement_column_logical_type : Handle → ℕ → Code duckdb Handle
prepared_statement_column_logical_type s i =
    gets logical_type (duckdb_prepared_statement_column_logical_type i) (one prepared_statement s)
      "malloc failed for duckdb_logical_type wrapper"

abbrev pub prepared_statement_column_type_raw : Handle → ℕ → Code duckdb ℕ
prepared_statement_column_type_raw s i =
    number_of 32 (duckdb_prepared_statement_column_type i) (one prepared_statement s)

-- `linen_duckdb_test_prepare`
abbrev pub test_prepare : Handle → List ℕ → Code duckdb (ℕ × Option (Option Handle))
test_prepare c sql = opens prepared_statement (duckdb_prepare sql) (one connection c)

-- `linen_duckdb_test_destroy_prepare`
abbrev pub test_destroy_prepare : Handle → Code duckdb Handle
test_destroy_prepare s = destroy prepared_statement s
