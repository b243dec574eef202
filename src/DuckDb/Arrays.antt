-- ===== src/DuckDb/Arrays.antt =====
-- The C arrays that ffi/duckdb_shim.c builds for a call of DuckDB and frees after it.
use linen.Base.{if◌then◌else◌, length, ℕ, suc, ◌%◌, ◌^◌, Bool, Option, none, some, List, [], ◌∷◌}
use linen.Calls.{Code, ◌>>=◌, ◌>>◌, pure, make, free, ask}
use linen.DuckDb.Api.{
  connection, appender, data_chunk, logical_type, fresh, Object, native, types_array, names_array,
  Handle, Arg, makes, states, stored, calloc, duckdb,
}
use linen.DuckDb.Functions.{
  Maker, duckdb_create_data_chunk, duckdb_create_union_type, duckdb_create_struct_type,
  duckdb_create_enum_type, duckdb_appender_create_query,
}
use linen.DuckDb.Handles.{arg, is_made, wrapper_of, option_of}

-- the types of an array, as arguments of the call
abbrev pub type_args : List Handle → List Arg
type_args [] = []
type_args (t ∷ ts) = arg logical_type t ∷ type_args ts

-- an array that is allocated if it has elements: none is NULL
abbrev pub allocated : {A : Type 0} → Object → List A → Code duckdb (Option (List A))
allocated o [] = pure none
allocated o (x ∷ xs) = do
  p ← make o (calloc (suc (length xs)))
  pure (if is_made p then some (x ∷ xs) else none)

abbrev pub build_logical_type_array : List Handle → Code duckdb (Option (List Handle))
build_logical_type_array ts = allocated types_array ts

abbrev pub build_cstring_array : List (List ℕ) → Code duckdb (Option (List (List ℕ)))
build_cstring_array names = allocated names_array names

-- `if (types) free(types)`
abbrev pub free_array : {A : Type 0} → Object → Option (List A) → Code duckdb (Unit {0})
free_array o none = pure tt
free_array o (some xs) = free o

-- a chunk of an array of types, which is freed
abbrev pub chunk_of : List Handle → Option (List Handle) → Code duckdb Handle
chunk_of ts types = do
  p ←
      make (native data_chunk fresh)
        (makes (duckdb_create_data_chunk (is_made types) (length ts)) (type_args ts))
  free_array types_array types
  wrapper_of data_chunk p "malloc failed for duckdb_data_chunk wrapper"

abbrev pub create_data_chunk : List Handle → Code duckdb Handle
create_data_chunk ts = do types ← build_logical_type_array ts; chunk_of ts types

-- a type of arrays of types and of names, which are freed; the number is that of the types
abbrev pub members_of :
    (Bool → Option (List (List ℕ)) → ℕ → Maker)
    → List Handle
    → Option (List Handle)
    → Option (List (List ℕ))
    → Code duckdb Handle
members_of f ts types names = do
  p ← make (native logical_type fresh) (makes (f (is_made types) names (length ts)) (type_args ts))
  free_array types_array types
  free_array names_array names
  wrapper_of logical_type p "malloc failed for duckdb_logical_type wrapper"

abbrev pub create_union_type : List Handle → List (List ℕ) → Code duckdb Handle
create_union_type ts ns = do
  types ← build_logical_type_array ts
  names ← build_cstring_array ns
  members_of duckdb_create_union_type ts types names

abbrev pub create_struct_type : List Handle → List (List ℕ) → Code duckdb Handle
create_struct_type ts ns = do
  types ← build_logical_type_array ts
  names ← build_cstring_array ns
  members_of duckdb_create_struct_type ts types names

abbrev pub enum_of : List (List ℕ) → Option (List (List ℕ)) → Code duckdb Handle
enum_of ns names = do
  p ← make (native logical_type fresh) (makes (duckdb_create_enum_type names (length ns)) [])
  free_array names_array names
  wrapper_of logical_type p "malloc failed for duckdb_logical_type wrapper"

abbrev pub create_enum_type : List (List ℕ) → Code duckdb Handle
create_enum_type ns = do names ← build_cstring_array ns; enum_of ns names

-- the names of an appender's columns, where there are some
abbrev pub build_names : Option (List (List ℕ)) → Code duckdb (Option (List (List ℕ)))
build_names none = pure none
build_names (some ns) = build_cstring_array ns

abbrev pub appender_of :
    Handle
    → List ℕ
    → List Handle
    → Option (List ℕ)
    → Option (List Handle)
    → Option (List (List ℕ))
    → Code duckdb (ℕ × Option (Option Handle))
appender_of c sql ts table types names = do
  rc ← ask (
      states (duckdb_appender_create_query sql (length ts) (is_made types) table names)
        (arg connection c ∷ type_args ts))
  p ← make (native appender fresh) (stored appender)
  free_array types_array types
  free_array names_array names
  h ← option_of appender p
  pure (rc % 2 ^ 32, h)

abbrev pub appender_create_query :
    Handle
    → List ℕ
    → List Handle
    → Option (List ℕ)
    → Option (List (List ℕ))
    → Code duckdb (ℕ × Option (Option Handle))
appender_create_query c sql ts table columns = do
  types ← build_logical_type_array ts
  names ← build_names columns
  appender_of c sql ts table types names
