-- ===== src/DuckDb/Vectors.antt =====
-- Vectors and validity masks in ffi/duckdb_shim.c, but for the bytes of a vector.
use linen.Base.{◌==◌, ℕ, Bool, true, not, Option, none, some, List}
use linen.Calls.{branch, Code, ◌>>=◌, pure, make, ask}
use linen.DuckDb.Api.{
  value, vector, logical_type, validity_mask, fresh, native, Handle, makes, counts, borrows, duckdb,
  fail,
}
use linen.DuckDb.Functions.{
  duckdb_vector_get_column_type, duckdb_create_vector, duckdb_list_vector_set_size,
  duckdb_list_vector_reserve, duckdb_list_vector_get_size, duckdb_validity_row_is_valid,
  duckdb_struct_vector_get_child, duckdb_list_vector_get_child, duckdb_array_vector_get_child,
  duckdb_vector_get_validity, duckdb_validity_set_row_validity, duckdb_validity_set_row_invalid,
  duckdb_validity_set_row_valid, duckdb_vector_ensure_validity_writable,
  duckdb_vector_assign_string_element, duckdb_vector_assign_string_element_len,
  duckdb_unsafe_vector_assign_string_element_len, duckdb_vector_reference_value,
  duckdb_vector_reference_vector,
}
use linen.DuckDb.Handles.{
  mk_borrowed, destroy, one, two, is_made, or_fail, gets, views, state_of, number_of, silently,
}
use linen.DuckDb.Values.{c_string}

-- The wrapper does not own the vector, so it stays where there is no wrapper.
abbrev pub create_vector : Handle → ℕ → Code duckdb Handle
create_vector t capacity = do
  p ← make (native vector fresh) (makes (duckdb_create_vector capacity) (one logical_type t))
  h ← mk_borrowed vector (is_made p)
  or_fail h "malloc failed for duckdb_vector wrapper"

abbrev pub destroy_vector : Handle → Code duckdb Handle
destroy_vector v = destroy vector v

abbrev pub vector_get_column_type : Handle → Code duckdb Handle
vector_get_column_type v =
    gets logical_type duckdb_vector_get_column_type (one vector v)
      "malloc failed for duckdb_logical_type wrapper"

-- a mask in a wrapper that does not own it, or none
abbrev pub mask_of : Bool → Option Handle → Code duckdb (Option Handle)
mask_of b none = fail "malloc failed for duckdb validity mask wrapper"
mask_of b (some h) = pure (some h)

abbrev pub vector_get_validity : Handle → Code duckdb (Option Handle)
vector_get_validity v = do
  p ← ask (borrows duckdb_vector_get_validity (one vector v))
  branch p (do h ← mk_borrowed validity_mask true; mask_of p h) (pure none)

abbrev pub vector_ensure_validity_writable : Handle → Code duckdb (Unit {0})
vector_ensure_validity_writable v = silently duckdb_vector_ensure_validity_writable (one vector v)

abbrev pub vector_assign_string_element : Handle → ℕ → List ℕ → Code duckdb (Unit {0})
vector_assign_string_element v i s =
    silently (duckdb_vector_assign_string_element i (c_string s)) (one vector v)

abbrev pub vector_assign_string_element_len : Handle → ℕ → List ℕ → Code duckdb (Unit {0})
vector_assign_string_element_len v i s =
    silently (duckdb_vector_assign_string_element_len i s) (one vector v)

abbrev pub unsafe_vector_assign_string_element_len : Handle → ℕ → List ℕ → Code duckdb (Unit {0})
unsafe_vector_assign_string_element_len v i s =
    silently (duckdb_unsafe_vector_assign_string_element_len i s) (one vector v)

abbrev pub list_vector_get_child : Handle → Code duckdb Handle
list_vector_get_child v =
    views duckdb_list_vector_get_child (one vector v) vector
      "malloc failed for duckdb_vector wrapper"

abbrev pub list_vector_get_size : Handle → Code duckdb ℕ
list_vector_get_size v = number_of 64 duckdb_list_vector_get_size (one vector v)

abbrev pub list_vector_set_size_raw : Handle → ℕ → Code duckdb ℕ
list_vector_set_size_raw v n = state_of (duckdb_list_vector_set_size n) (one vector v)

abbrev pub list_vector_reserve_raw : Handle → ℕ → Code duckdb ℕ
list_vector_reserve_raw v n = state_of (duckdb_list_vector_reserve n) (one vector v)

abbrev pub struct_vector_get_child : Handle → ℕ → Code duckdb Handle
struct_vector_get_child v i =
    views (duckdb_struct_vector_get_child i) (one vector v) vector
      "malloc failed for duckdb_vector wrapper"

abbrev pub array_vector_get_child : Handle → Code duckdb Handle
array_vector_get_child v =
    views duckdb_array_vector_get_child (one vector v) vector
      "malloc failed for duckdb_vector wrapper"

abbrev pub vector_reference_value : Handle → Handle → Code duckdb (Unit {0})
vector_reference_value v w = silently duckdb_vector_reference_value (two vector v value w)

abbrev pub vector_reference_vector : Handle → Handle → Code duckdb (Unit {0})
vector_reference_vector v w = silently duckdb_vector_reference_vector (two vector v vector w)

abbrev pub validity_row_is_valid : Handle → ℕ → Code duckdb Bool
validity_row_is_valid m row = do
  n ← ask (counts (duckdb_validity_row_is_valid row) (one validity_mask m))
  pure (not (n == 0))

abbrev pub validity_set_row_validity : Handle → ℕ → ℕ → Code duckdb (Unit {0})
validity_set_row_validity m row valid =
    silently (duckdb_validity_set_row_validity row (not (valid == 0))) (one validity_mask m)

abbrev pub validity_set_row_invalid : Handle → ℕ → Code duckdb (Unit {0})
validity_set_row_invalid m row =
    silently (duckdb_validity_set_row_invalid row) (one validity_mask m)

abbrev pub validity_set_row_valid : Handle → ℕ → Code duckdb (Unit {0})
validity_set_row_valid m row = silently (duckdb_validity_set_row_valid row) (one validity_mask m)
