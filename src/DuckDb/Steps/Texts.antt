-- ===== src/DuckDb/Steps/Texts.antt =====
-- The functions of ffi/duckdb_shim.c that return a text which DuckDB has made for them.
use linen.Base.{ℕ, Option, List}
use linen.Calls.{Code}
use linen.Calls.Legal.{Legal}
use linen.DuckDb.Api.{prepared_statement, logical_type, Handle, Arg, duckdb}
use linen.DuckDb.Functions.{
  duckdb_logical_type_get_alias, duckdb_enum_dictionary_value, duckdb_struct_type_child_name,
  duckdb_union_type_member_name, duckdb_parameter_name, duckdb_prepared_statement_column_name,
}
use linen.DuckDb.Handles.{one}
use linen.DuckDb.Owned.{Any, held}
use linen.DuckDb.Prepared.{parameter_name, prepared_statement_column_name}
use linen.DuckDb.Shapes.{unchanged, owned_text-Legal}
use linen.DuckDb.Types.{
  logical_type_get_alias, enum_dictionary_value, struct_type_child_name, union_type_member_name,
}

-- a call from Lean, with its arguments
pub data Text : Type 0 where
  calls_logical_type_get_alias : Handle → Text
  calls_enum_dictionary_value : Handle → ℕ → Text
  calls_struct_type_child_name : Handle → ℕ → Text
  calls_union_type_member_name : Handle → ℕ → Text
  calls_parameter_name : Handle → ℕ → Text
  calls_prepared_statement_column_name : Handle → ℕ → Text

abbrev pub text_code : Text → Code duckdb (Option (List ℕ))
text_code (calls_logical_type_get_alias a) = logical_type_get_alias a
text_code (calls_enum_dictionary_value a b) = enum_dictionary_value a b
text_code (calls_struct_type_child_name a b) = struct_type_child_name a b
text_code (calls_union_type_member_name a b) = union_type_member_name a b
text_code (calls_parameter_name a b) = parameter_name a b
text_code (calls_prepared_statement_column_name a b) = prepared_statement_column_name a b

-- the handles that it gets
abbrev pub text_args : Text → List Arg
text_args (calls_logical_type_get_alias a) = one logical_type a
text_args (calls_enum_dictionary_value a b) = one logical_type a
text_args (calls_struct_type_child_name a b) = one logical_type a
text_args (calls_union_type_member_name a b) = one logical_type a
text_args (calls_parameter_name a b) = one prepared_statement a
text_args (calls_prepared_statement_column_name a b) = one prepared_statement a

pub text_code-Legal :
    (s : Text) → Legal duckdb Any (unchanged (text_args s)) (held (text_args s)) (text_code s)
text_code-Legal (calls_logical_type_get_alias a) =
    owned_text-Legal duckdb_logical_type_get_alias (one logical_type a)
text_code-Legal (calls_enum_dictionary_value a b) =
    owned_text-Legal (duckdb_enum_dictionary_value b) (one logical_type a)
text_code-Legal (calls_struct_type_child_name a b) =
    owned_text-Legal (duckdb_struct_type_child_name b) (one logical_type a)
text_code-Legal (calls_union_type_member_name a b) =
    owned_text-Legal (duckdb_union_type_member_name b) (one logical_type a)
text_code-Legal (calls_parameter_name a b) =
    owned_text-Legal (duckdb_parameter_name b) (one prepared_statement a)
text_code-Legal (calls_prepared_statement_column_name a b) =
    owned_text-Legal (duckdb_prepared_statement_column_name b) (one prepared_statement a)
