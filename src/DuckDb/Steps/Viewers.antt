-- ===== src/DuckDb/Steps/Viewers.antt =====
-- The functions of ffi/duckdb_shim.c that return a pointer into something, in a wrapper.
use linen.Base.{ℕ, refl, List}
use linen.Calls.{Code}
use linen.Calls.Legal.{Legal}
use linen.DuckDb.Api.{data_chunk, vector, borrowed_data_chunk, Handle, Arg, duckdb}
use linen.DuckDb.Chunks.{data_chunk_get_vector, scalar_function_input_get_vector}
use linen.DuckDb.Functions.{
  duckdb_data_chunk_get_vector, duckdb_struct_vector_get_child, duckdb_list_vector_get_child,
  duckdb_array_vector_get_child,
}
use linen.DuckDb.Handles.{one}
use linen.DuckDb.Owned.{Any, held}
use linen.DuckDb.Shapes.{new_held, views-Legal}
use linen.DuckDb.Vectors.{list_vector_get_child, struct_vector_get_child, array_vector_get_child}

-- a call from Lean, with its arguments
pub data Viewer : Type 0 where
  calls_data_chunk_get_vector : Handle → ℕ → Viewer
  calls_scalar_function_input_get_vector : Handle → ℕ → Viewer
  calls_list_vector_get_child : Handle → Viewer
  calls_struct_vector_get_child : Handle → ℕ → Viewer
  calls_array_vector_get_child : Handle → Viewer

abbrev pub viewer_code : Viewer → Code duckdb Handle
viewer_code (calls_data_chunk_get_vector a b) = data_chunk_get_vector a b
viewer_code (calls_scalar_function_input_get_vector a b) = scalar_function_input_get_vector a b
viewer_code (calls_list_vector_get_child a) = list_vector_get_child a
viewer_code (calls_struct_vector_get_child a b) = struct_vector_get_child a b
viewer_code (calls_array_vector_get_child a) = array_vector_get_child a

-- the handles that it gets
abbrev pub viewer_args : Viewer → List Arg
viewer_args (calls_data_chunk_get_vector a b) = one data_chunk a
viewer_args (calls_scalar_function_input_get_vector a b) = one borrowed_data_chunk a
viewer_args (calls_list_vector_get_child a) = one vector a
viewer_args (calls_struct_vector_get_child a b) = one vector a
viewer_args (calls_array_vector_get_child a) = one vector a

pub viewer_code-Legal :
    (s : Viewer)
    → Legal duckdb Any
        (new_held vector (held (viewer_args s)))
        (held (viewer_args s))
        (viewer_code s)
viewer_code-Legal (calls_data_chunk_get_vector a b) =
    views-Legal (duckdb_data_chunk_get_vector b) (one data_chunk a) vector refl
viewer_code-Legal (calls_scalar_function_input_get_vector a b) =
    views-Legal (duckdb_data_chunk_get_vector b) (one borrowed_data_chunk a) vector refl
viewer_code-Legal (calls_list_vector_get_child a) =
    views-Legal duckdb_list_vector_get_child (one vector a) vector refl
viewer_code-Legal (calls_struct_vector_get_child a b) =
    views-Legal (duckdb_struct_vector_get_child b) (one vector a) vector refl
viewer_code-Legal (calls_array_vector_get_child a) =
    views-Legal duckdb_array_vector_get_child (one vector a) vector refl
