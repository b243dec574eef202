-- ===== src/DuckDb/Steps/Getters.antt =====
-- The functions of ffi/duckdb_shim.c that return something new in a wrapper, or an error.
use linen.Base.{ℕ, refl, Bool, List, []}
use linen.Calls.{Code}
use linen.Calls.Legal.{Legal}
use linen.DuckDb.Api.{
  Kind, connection, instance_cache, client_context, arrow_options, value, appender,
  prepared_statement, vector, logical_type, config_option, error_data, result, file_system,
  file_open_options, file_handle, log_storage, raw_memory, scalar_function, scalar_function_set,
  Handle, Arg, duckdb,
}
use linen.DuckDb.Appender.{appender_column_type, appender_error_data}
use linen.DuckDb.Callbacks.{create_scalar_function, create_scalar_function_set, create_log_storage}
use linen.DuckDb.Catalogs.{create_config_option}
use linen.DuckDb.Chunks.{error_data_create, duckdb_malloc_raw}
use linen.DuckDb.Files.{
  client_context_get_file_system, file_system_error_data, create_file_open_options,
  file_handle_error_data,
}
use linen.DuckDb.Functions.{
  duckdb_create_instance_cache, duckdb_get_table_names, duckdb_appender_column_type,
  duckdb_appender_error_data, duckdb_create_config_option, duckdb_create_error_data,
  duckdb_client_context_get_file_system, duckdb_file_system_error_data,
  duckdb_create_file_open_options, duckdb_file_handle_error_data, duckdb_malloc,
  duckdb_create_log_storage, duckdb_create_logical_type, duckdb_create_list_type,
  duckdb_create_array_type, duckdb_create_map_type, duckdb_create_decimal_type,
  duckdb_list_type_child_type, duckdb_array_type_child_type, duckdb_map_type_key_type,
  duckdb_map_type_value_type, duckdb_struct_type_child_type, duckdb_union_type_member_type,
  duckdb_param_logical_type, duckdb_prepared_statement_column_logical_type,
  duckdb_column_logical_type, duckdb_result_get_arrow_options, duckdb_create_scalar_function,
  duckdb_create_scalar_function_set, duckdb_vector_get_column_type,
}
use linen.DuckDb.Handles.{one, two}
use linen.DuckDb.Opening.{create_instance_cache, get_table_names}
use linen.DuckDb.Owned.{Any, held}
use linen.DuckDb.Prepared.{param_logical_type, prepared_statement_column_logical_type}
use linen.DuckDb.Results.{column_logical_type, result_get_arrow_options}
use linen.DuckDb.Shapes.{new_held, gets-Legal}
use linen.DuckDb.Types.{
  create_logical_type, create_list_type, create_array_type, create_map_type, create_decimal_type,
  list_type_child_type, array_type_child_type, map_type_key_type, map_type_value_type,
  struct_type_child_type, union_type_member_type,
}
use linen.DuckDb.Vectors.{vector_get_column_type}

-- a call from Lean, with its arguments
pub data Getter : Type 0 where
  calls_create_instance_cache : Getter
  calls_get_table_names : Handle → List ℕ → Bool → Getter
  calls_appender_column_type : Handle → ℕ → Getter
  calls_appender_error_data : Handle → Getter
  calls_create_config_option : Getter
  calls_error_data_create : ℕ → List ℕ → Getter
  calls_duckdb_malloc_raw : ℕ → Getter
  calls_client_context_get_file_system : Handle → Getter
  calls_file_system_error_data : Handle → Getter
  calls_create_file_open_options : Getter
  calls_file_handle_error_data : Handle → Getter
  calls_param_logical_type : Handle → ℕ → Getter
  calls_prepared_statement_column_logical_type : Handle → ℕ → Getter
  calls_column_logical_type : Handle → ℕ → Getter
  calls_result_get_arrow_options : Handle → Getter
  calls_create_scalar_function : Getter
  calls_create_scalar_function_set : List ℕ → Getter
  calls_create_log_storage : Getter
  calls_vector_get_column_type : Handle → Getter
  calls_create_logical_type : ℕ → Getter
  calls_create_list_type : Handle → Getter
  calls_create_array_type : Handle → ℕ → Getter
  calls_create_map_type : Handle → Handle → Getter
  calls_create_decimal_type : ℕ → ℕ → Getter
  calls_list_type_child_type : Handle → Getter
  calls_array_type_child_type : Handle → Getter
  calls_map_type_key_type : Handle → Getter
  calls_map_type_value_type : Handle → Getter
  calls_struct_type_child_type : Handle → ℕ → Getter
  calls_union_type_member_type : Handle → ℕ → Getter

abbrev pub getter_code : Getter → Code duckdb Handle
getter_code calls_create_instance_cache = create_instance_cache
getter_code (calls_get_table_names a b c) = get_table_names a b c
getter_code (calls_appender_column_type a b) = appender_column_type a b
getter_code (calls_appender_error_data a) = appender_error_data a
getter_code calls_create_config_option = create_config_option
getter_code (calls_error_data_create a b) = error_data_create a b
getter_code (calls_duckdb_malloc_raw a) = duckdb_malloc_raw a
getter_code (calls_client_context_get_file_system a) = client_context_get_file_system a
getter_code (calls_file_system_error_data a) = file_system_error_data a
getter_code calls_create_file_open_options = create_file_open_options
getter_code (calls_file_handle_error_data a) = file_handle_error_data a
getter_code (calls_param_logical_type a b) = param_logical_type a b
getter_code (calls_prepared_statement_column_logical_type a b) =
    prepared_statement_column_logical_type a b
getter_code (calls_column_logical_type a b) = column_logical_type a b
getter_code (calls_result_get_arrow_options a) = result_get_arrow_options a
getter_code calls_create_scalar_function = create_scalar_function
getter_code (calls_create_scalar_function_set a) = create_scalar_function_set a
getter_code calls_create_log_storage = create_log_storage
getter_code (calls_vector_get_column_type a) = vector_get_column_type a
getter_code (calls_create_logical_type a) = create_logical_type a
getter_code (calls_create_list_type a) = create_list_type a
getter_code (calls_create_array_type a b) = create_array_type a b
getter_code (calls_create_map_type a b) = create_map_type a b
getter_code (calls_create_decimal_type a b) = create_decimal_type a b
getter_code (calls_list_type_child_type a) = list_type_child_type a
getter_code (calls_array_type_child_type a) = array_type_child_type a
getter_code (calls_map_type_key_type a) = map_type_key_type a
getter_code (calls_map_type_value_type a) = map_type_value_type a
getter_code (calls_struct_type_child_type a b) = struct_type_child_type a b
getter_code (calls_union_type_member_type a b) = union_type_member_type a b

-- the handles that it gets
abbrev pub getter_args : Getter → List Arg
getter_args (calls_get_table_names a b c) = one connection a
getter_args (calls_appender_column_type a b) = one appender a
getter_args (calls_appender_error_data a) = one appender a
getter_args (calls_client_context_get_file_system a) = one client_context a
getter_args (calls_file_system_error_data a) = one file_system a
getter_args (calls_file_handle_error_data a) = one file_handle a
getter_args (calls_param_logical_type a b) = one prepared_statement a
getter_args (calls_prepared_statement_column_logical_type a b) = one prepared_statement a
getter_args (calls_column_logical_type a b) = one result a
getter_args (calls_result_get_arrow_options a) = one result a
getter_args (calls_vector_get_column_type a) = one vector a
getter_args (calls_create_list_type a) = one logical_type a
getter_args (calls_create_array_type a b) = one logical_type a
getter_args (calls_create_map_type a b) = two logical_type a logical_type b
getter_args (calls_list_type_child_type a) = one logical_type a
getter_args (calls_array_type_child_type a) = one logical_type a
getter_args (calls_map_type_key_type a) = one logical_type a
getter_args (calls_map_type_value_type a) = one logical_type a
getter_args (calls_struct_type_child_type a b) = one logical_type a
getter_args (calls_union_type_member_type a b) = one logical_type a
getter_args _ = []

-- the kind of what it makes
abbrev pub getter_kind : Getter → Kind
getter_kind calls_create_instance_cache = instance_cache
getter_kind (calls_get_table_names a b c) = value
getter_kind (calls_appender_error_data a) = error_data
getter_kind calls_create_config_option = config_option
getter_kind (calls_error_data_create a b) = error_data
getter_kind (calls_duckdb_malloc_raw a) = raw_memory
getter_kind (calls_client_context_get_file_system a) = file_system
getter_kind (calls_file_system_error_data a) = error_data
getter_kind calls_create_file_open_options = file_open_options
getter_kind (calls_file_handle_error_data a) = error_data
getter_kind (calls_result_get_arrow_options a) = arrow_options
getter_kind calls_create_scalar_function = scalar_function
getter_kind (calls_create_scalar_function_set a) = scalar_function_set
getter_kind calls_create_log_storage = log_storage
getter_kind _ = logical_type

pub getter_code-Legal :
    (s : Getter)
    → Legal duckdb Any
        (new_held (getter_kind s) (held (getter_args s)))
        (held (getter_args s))
        (getter_code s)
getter_code-Legal calls_create_instance_cache =
    gets-Legal instance_cache duckdb_create_instance_cache [] refl
getter_code-Legal (calls_get_table_names a b c) =
    gets-Legal value (duckdb_get_table_names b c) (one connection a) refl
getter_code-Legal (calls_appender_column_type a b) =
    gets-Legal logical_type (duckdb_appender_column_type b) (one appender a) refl
getter_code-Legal (calls_appender_error_data a) =
    gets-Legal error_data duckdb_appender_error_data (one appender a) refl
getter_code-Legal calls_create_config_option =
    gets-Legal config_option duckdb_create_config_option [] refl
getter_code-Legal (calls_error_data_create a b) =
    gets-Legal error_data (duckdb_create_error_data a b) [] refl
getter_code-Legal (calls_duckdb_malloc_raw a) = gets-Legal raw_memory (duckdb_malloc a) [] refl
getter_code-Legal (calls_client_context_get_file_system a) =
    gets-Legal file_system duckdb_client_context_get_file_system (one client_context a) refl
getter_code-Legal (calls_file_system_error_data a) =
    gets-Legal error_data duckdb_file_system_error_data (one file_system a) refl
getter_code-Legal calls_create_file_open_options =
    gets-Legal file_open_options duckdb_create_file_open_options [] refl
getter_code-Legal (calls_file_handle_error_data a) =
    gets-Legal error_data duckdb_file_handle_error_data (one file_handle a) refl
getter_code-Legal (calls_param_logical_type a b) =
    gets-Legal logical_type (duckdb_param_logical_type b) (one prepared_statement a) refl
getter_code-Legal (calls_prepared_statement_column_logical_type a b) =
    gets-Legal logical_type (duckdb_prepared_statement_column_logical_type b)
      (one prepared_statement a) refl
getter_code-Legal (calls_column_logical_type a b) =
    gets-Legal logical_type (duckdb_column_logical_type b) (one result a) refl
getter_code-Legal (calls_result_get_arrow_options a) =
    gets-Legal arrow_options duckdb_result_get_arrow_options (one result a) refl
getter_code-Legal calls_create_scalar_function =
    gets-Legal scalar_function duckdb_create_scalar_function [] refl
getter_code-Legal (calls_create_scalar_function_set a) =
    gets-Legal scalar_function_set (duckdb_create_scalar_function_set a) [] refl
getter_code-Legal calls_create_log_storage =
    gets-Legal log_storage duckdb_create_log_storage [] refl
getter_code-Legal (calls_vector_get_column_type a) =
    gets-Legal logical_type duckdb_vector_get_column_type (one vector a) refl
getter_code-Legal (calls_create_logical_type a) =
    gets-Legal logical_type (duckdb_create_logical_type a) [] refl
getter_code-Legal (calls_create_list_type a) =
    gets-Legal logical_type duckdb_create_list_type (one logical_type a) refl
getter_code-Legal (calls_create_array_type a b) =
    gets-Legal logical_type (duckdb_create_array_type b) (one logical_type a) refl
getter_code-Legal (calls_create_map_type a b) =
    gets-Legal logical_type duckdb_create_map_type (two logical_type a logical_type b) refl
getter_code-Legal (calls_create_decimal_type a b) =
    gets-Legal logical_type (duckdb_create_decimal_type a b) [] refl
getter_code-Legal (calls_list_type_child_type a) =
    gets-Legal logical_type duckdb_list_type_child_type (one logical_type a) refl
getter_code-Legal (calls_array_type_child_type a) =
    gets-Legal logical_type duckdb_array_type_child_type (one logical_type a) refl
getter_code-Legal (calls_map_type_key_type a) =
    gets-Legal logical_type duckdb_map_type_key_type (one logical_type a) refl
getter_code-Legal (calls_map_type_value_type a) =
    gets-Legal logical_type duckdb_map_type_value_type (one logical_type a) refl
getter_code-Legal (calls_struct_type_child_type a b) =
    gets-Legal logical_type (duckdb_struct_type_child_type b) (one logical_type a) refl
getter_code-Legal (calls_union_type_member_type a b) =
    gets-Legal logical_type (duckdb_union_type_member_type b) (one logical_type a) refl
