-- ===== src/DuckDb/Steps/Builders.antt =====
-- The functions of ffi/duckdb_shim.c that build arrays, as calls from Lean.
use linen.Base.{ℕ, refl, Bool, Option, List, []}
use linen.Calls.{Code, ◌>>=◌}
use linen.Calls.Legal.{Legal}
use linen.DuckDb.Api.{
  Kind, appender, data_chunk, logical_type, types_array, names_array, Handle, Arg, duckdb,
}
use linen.DuckDb.Arrays.{
  type_args, build_logical_type_array, build_cstring_array, create_data_chunk, members_of,
  create_union_type, create_struct_type, create_enum_type, appender_create_query,
}
use linen.DuckDb.Functions.{Maker, duckdb_create_union_type, duckdb_create_struct_type}
use linen.DuckDb.Owned.{Any, held, not_held}
use linen.DuckDb.Shapes.{new_held, opened_held}
use linen.DuckDb.Steps.Arrays.{
  allocated-Legal, names-Legal, IsNew-types, no_names, members_of-Legal, chunk_of-Legal,
  enum_of-Legal, appender_args, appender_of-Legal,
}

-- a call from Lean that builds arrays
pub data Builder : Type 0 where
  calls_create_data_chunk : List Handle → Builder
  calls_create_union_type calls_create_struct_type : List Handle → List (List ℕ) → Builder
  calls_create_enum_type : List (List ℕ) → Builder

abbrev pub builder_code : Builder → Code duckdb Handle
builder_code (calls_create_data_chunk ts) = create_data_chunk ts
builder_code (calls_create_union_type ts ns) = create_union_type ts ns
builder_code (calls_create_struct_type ts ns) = create_struct_type ts ns
builder_code (calls_create_enum_type ns) = create_enum_type ns

-- the handles that it gets
abbrev pub builder_args : Builder → List Arg
builder_args (calls_create_data_chunk ts) = type_args ts
builder_args (calls_create_union_type ts ns) = type_args ts
builder_args (calls_create_struct_type ts ns) = type_args ts
builder_args (calls_create_enum_type ns) = []

abbrev pub builder_kind : Builder → Kind
builder_kind (calls_create_data_chunk ts) = data_chunk
builder_kind _ = logical_type

members-Legal :
    (f : Bool → Option (List (List ℕ)) → ℕ → Maker) (ts : List Handle) (ns : List (List ℕ))
    → Legal duckdb Any (new_held logical_type (held (type_args ts))) (held (type_args ts)) (do
      types ← build_logical_type_array ts
      names ← build_cstring_array ns
      members_of f ts types names)
members-Legal f ts ns =
    allocated-Legal types_array ts _ _ _ (not_held types_array (type_args ts) IsNew-types) (λ types.
      allocated-Legal names_array ns _ _ _ (no_names (type_args ts) types)
        (λ names. members_of-Legal f ts types names))

pub builder_code-Legal :
    (s : Builder)
    → Legal duckdb Any
        (new_held (builder_kind s) (held (builder_args s)))
        (held (builder_args s))
        (builder_code s)
builder_code-Legal (calls_create_data_chunk ts) =
    allocated-Legal types_array ts _ _ _ (not_held types_array (type_args ts) IsNew-types)
      (λ types. chunk_of-Legal ts types)
builder_code-Legal (calls_create_union_type ts ns) = members-Legal duckdb_create_union_type ts ns
builder_code-Legal (calls_create_struct_type ts ns) = members-Legal duckdb_create_struct_type ts ns
builder_code-Legal (calls_create_enum_type ns) =
    allocated-Legal names_array ns _ _ _ refl (λ names. enum_of-Legal ns names)

pub appender_create_query-Legal :
    (c : Handle) (sql : List ℕ) (ts : List Handle) (table : Option (List ℕ))
    (columns : Option (List (List ℕ)))
    → Legal duckdb Any
        (opened_held appender (held (appender_args c ts)))
        (held (appender_args c ts))
        (appender_create_query c sql ts table columns)
appender_create_query-Legal c sql ts table columns =
    allocated-Legal types_array ts _ _ _ (not_held types_array (appender_args c ts) IsNew-types)
      (λ types.
        names-Legal columns _ _ _ (no_names (appender_args c ts) types)
          (λ names. appender_of-Legal c sql ts table types names))
