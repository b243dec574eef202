-- ===== src/DuckDb/Chunks.antt =====
-- Data chunks, error data and raw memory in ffi/duckdb_shim.c.
use linen.Base.{◌==◌, ℕ, Bool, false, not, Option, List, []}
use linen.Calls.{branch, Code, ◌>>=◌, pure, make, ask, when}
use linen.DuckDb.Api.{
  data_chunk, vector, error_data, raw_memory, borrowed_data_chunk, fresh, native, Handle, Arg,
  makes, counts, lends, duckdb,
}
use linen.DuckDb.Functions.{
  duckdb_create_error_data, duckdb_malloc, duckdb_valid_utf8_check, Numeric,
  duckdb_data_chunk_get_column_count, duckdb_data_chunk_get_size, duckdb_error_data_error_type,
  duckdb_error_data_has_error, duckdb_vector_size, duckdb_error_data_message,
  duckdb_data_chunk_get_vector, duckdb_data_chunk_reset, duckdb_data_chunk_set_size,
}
use linen.DuckDb.Handles.{
  destroy, one, option_or_fail, gets, views, number_of, number_or, silently, string_or_empty,
}

abbrev pub destroy_data_chunk : Handle → Code duckdb Handle
destroy_data_chunk c = destroy data_chunk c

abbrev pub data_chunk_reset : Handle → Code duckdb (Unit {0})
data_chunk_reset c = when c.live (silently duckdb_data_chunk_reset (one data_chunk c))

abbrev pub data_chunk_get_column_count : Handle → Code duckdb ℕ
data_chunk_get_column_count c =
    number_or 64 c.live duckdb_data_chunk_get_column_count (one data_chunk c) 0

abbrev pub data_chunk_get_vector : Handle → ℕ → Code duckdb Handle
data_chunk_get_vector c i =
    views (duckdb_data_chunk_get_vector i) (one data_chunk c) vector
      "malloc failed for duckdb_vector wrapper"

abbrev pub data_chunk_get_size : Handle → Code duckdb ℕ
data_chunk_get_size c = number_or 64 c.live duckdb_data_chunk_get_size (one data_chunk c) 0

abbrev pub data_chunk_set_size : Handle → ℕ → Code duckdb (Unit {0})
data_chunk_set_size c n = when c.live (silently (duckdb_data_chunk_set_size n) (one data_chunk c))

abbrev pub error_data_create : ℕ → List ℕ → Code duckdb Handle
error_data_create error_type m =
    gets error_data (duckdb_create_error_data error_type m) []
      "malloc failed for duckdb_error_data wrapper"

abbrev pub error_data_destroy : Handle → Code duckdb Handle
error_data_destroy e = destroy error_data e

-- `DUCKDB_ERROR_INVALID`
abbrev pub error_invalid : ℕ
error_invalid = 0

abbrev pub error_data_error_type : Handle → Code duckdb ℕ
error_data_error_type e =
    number_or 32 e.live duckdb_error_data_error_type (one error_data e) error_invalid

abbrev pub error_data_message : Handle → Code duckdb (List ℕ)
error_data_message e =
    branch e.live
      (do s ← ask (lends duckdb_error_data_message (one error_data e)); pure (string_or_empty s))
      (pure [])

-- `x ? 1 : 0`
abbrev pub flag_of : Numeric → List Arg → Code duckdb Bool
flag_of f given = do n ← ask (counts f given); pure (not (n == 0))

abbrev pub error_data_has_error : Handle → Code duckdb Bool
error_data_has_error e =
    branch e.live (flag_of duckdb_error_data_has_error (one error_data e)) (pure false)

-- `linen_duckdb_malloc`
abbrev pub duckdb_malloc_raw : ℕ → Code duckdb Handle
duckdb_malloc_raw n = gets raw_memory (duckdb_malloc n) [] "malloc failed for duckdb_malloc wrapper"

-- `linen_duckdb_free`
abbrev pub duckdb_free_raw : Handle → Code duckdb Handle
duckdb_free_raw m = destroy raw_memory m

abbrev pub vector_size : Code duckdb ℕ
vector_size = number_of 64 duckdb_vector_size []

abbrev pub valid_utf8_check : List ℕ → Code duckdb (Option Handle)
valid_utf8_check bytes = do
  p ← make (native error_data fresh) (makes (duckdb_valid_utf8_check bytes) [])
  option_or_fail error_data p "malloc failed for duckdb_error_data wrapper"

abbrev pub scalar_function_input_get_size : Handle → Code duckdb ℕ
scalar_function_input_get_size i =
    number_of 64 duckdb_data_chunk_get_size (one borrowed_data_chunk i)

abbrev pub scalar_function_input_get_column_count : Handle → Code duckdb ℕ
scalar_function_input_get_column_count i =
    number_of 64 duckdb_data_chunk_get_column_count (one borrowed_data_chunk i)

abbrev pub scalar_function_input_get_vector : Handle → ℕ → Code duckdb Handle
scalar_function_input_get_vector i col =
    views (duckdb_data_chunk_get_vector col) (one borrowed_data_chunk i) vector
      "malloc failed for duckdb_vector wrapper"
