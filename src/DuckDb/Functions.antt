-- ===== src/DuckDb/Functions.antt =====
-- The functions of DuckDB that ffi/duckdb_shim.c calls, with the arguments that are not handles. A string is
-- the bytes before its NUL, and an optional one is none for NULL. The functions stand by what they answer.
use linen.Base.{ℕ, Bool, Option, List}
use linen.DuckDb.Values.{Native}

-- a pointer to something new, which the caller destroys
pub data Maker : Type 0 where
  duckdb_create_instance_cache : Maker
  duckdb_get_table_names : List ℕ → Bool → Maker
  duckdb_appender_column_type : ℕ → Maker
  duckdb_appender_error_data : Maker
  duckdb_client_context_get_catalog : List ℕ → Maker
  duckdb_catalog_get_entry : ℕ → List ℕ → List ℕ → Maker
  duckdb_create_config_option : Maker
  duckdb_client_context_get_config_option : List ℕ → Maker
  duckdb_create_error_data : ℕ → List ℕ → Maker
  duckdb_client_context_get_file_system duckdb_file_system_error_data : Maker
  duckdb_create_file_open_options duckdb_file_handle_error_data : Maker
  duckdb_malloc : ℕ → Maker
  duckdb_valid_utf8_check : List ℕ → Maker
  duckdb_create_log_storage : Maker
  duckdb_create_logical_type : ℕ → Maker
  duckdb_create_list_type : Maker
  duckdb_create_array_type : ℕ → Maker
  duckdb_create_map_type : Maker
  duckdb_create_decimal_type : ℕ → ℕ → Maker
  duckdb_list_type_child_type duckdb_array_type_child_type : Maker
  duckdb_map_type_key_type duckdb_map_type_value_type : Maker
  duckdb_struct_type_child_type duckdb_union_type_member_type : ℕ → Maker
  duckdb_param_logical_type duckdb_prepared_statement_column_logical_type : ℕ → Maker
  duckdb_column_logical_type : ℕ → Maker
  duckdb_result_get_arrow_options duckdb_fetch_chunk : Maker
  duckdb_create_scalar_function : Maker
  duckdb_create_scalar_function_set : List ℕ → Maker
  duckdb_vector_get_column_type : Maker
  duckdb_create_vector : ℕ → Maker
  -- an array of types or names, or NULL, and the number of types that goes with them
  duckdb_create_data_chunk : Bool → ℕ → Maker
  duckdb_create_union_type duckdb_create_struct_type : Bool → Option (List (List ℕ)) → ℕ → Maker
  duckdb_create_enum_type : Option (List (List ℕ)) → ℕ → Maker

-- a `duckdb_state`
pub data Stateful : Type 0 where
  duckdb_get_or_create_from_cache : Option (List ℕ) → Stateful
  duckdb_open duckdb_open_ext : Option (List ℕ) → Stateful
  duckdb_connect : Stateful
  duckdb_appender_create : Option (List ℕ) → List ℕ → Stateful
  duckdb_appender_create_ext : Option (List ℕ) → Option (List ℕ) → List ℕ → Stateful
  -- the query, the number of types, whether their array is there, the table's name and the columns' names
  duckdb_appender_create_query :
      List ℕ → ℕ → Bool → Option (List ℕ) → Option (List (List ℕ)) → Stateful
  duckdb_appender_clear duckdb_appender_flush duckdb_appender_close : Stateful
  duckdb_appender_add_column : List ℕ → Stateful
  duckdb_appender_clear_columns duckdb_appender_begin_row duckdb_appender_end_row : Stateful
  duckdb_append_default duckdb_append_null duckdb_append_value duckdb_append_data_chunk : Stateful
  duckdb_append_default_to_chunk : ℕ → ℕ → Stateful
  -- `duckdb_append_bool`, `duckdb_append_int8` and the others
  duckdb_append : Native → Stateful
  duckdb_bind_value : ℕ → Stateful
  -- `duckdb_bind_boolean`, `duckdb_bind_int8` and the others
  duckdb_bind : ℕ → Native → Stateful
  duckdb_bind_parameter_index : List ℕ → Stateful
  duckdb_bind_null : ℕ → Stateful
  duckdb_create_config : Stateful
  duckdb_get_config_flag : ℕ → Stateful
  duckdb_set_config : List ℕ → List ℕ → Stateful
  duckdb_register_config_option : Stateful
  duckdb_execute_prepared : Stateful
  duckdb_file_open_options_set_flag : ℕ → Bool → Stateful
  duckdb_file_system_open : List ℕ → Stateful
  duckdb_file_handle_seek : ℕ → Stateful
  duckdb_file_handle_sync duckdb_file_handle_close : Stateful
  duckdb_register_log_storage : Stateful
  duckdb_prepare duckdb_query : List ℕ → Stateful
  duckdb_clear_bindings : Stateful
  duckdb_register_scalar_function duckdb_add_scalar_function_to_set : Stateful
  duckdb_register_scalar_function_set : Stateful
  duckdb_list_vector_set_size duckdb_list_vector_reserve : ℕ → Stateful

-- a number, an enumeration or a Boolean
pub data Numeric : Type 0 where
  duckdb_client_context_get_connection_id : Numeric
  duckdb_appender_column_count duckdb_catalog_entry_get_type duckdb_config_count : Numeric
  duckdb_data_chunk_get_column_count duckdb_data_chunk_get_size : Numeric
  duckdb_error_data_error_type duckdb_error_data_has_error : Numeric
  duckdb_file_handle_tell duckdb_file_handle_size : Numeric
  duckdb_file_handle_write : List ℕ → Numeric
  duckdb_vector_size : Numeric
  duckdb_get_type_id duckdb_decimal_width duckdb_decimal_scale : Numeric
  duckdb_decimal_internal_type duckdb_enum_internal_type duckdb_enum_dictionary_size : Numeric
  duckdb_array_type_array_size duckdb_struct_type_child_count : Numeric
  duckdb_union_type_member_count : Numeric
  duckdb_nparams duckdb_prepared_statement_type duckdb_prepared_statement_column_count : Numeric
  duckdb_param_type duckdb_prepared_statement_column_type duckdb_column_type : ℕ → Numeric
  duckdb_result_statement_type duckdb_column_count duckdb_rows_changed : Numeric
  duckdb_result_error_type duckdb_row_count duckdb_list_vector_get_size : Numeric
  duckdb_validity_row_is_valid : ℕ → Numeric

-- a text that belongs to DuckDB, or NULL
pub data Lent : Type 0 where
  duckdb_library_version duckdb_catalog_get_type_name duckdb_catalog_entry_get_name : Lent
  duckdb_error_data_message duckdb_prepare_error duckdb_result_error : Lent
  duckdb_column_name : ℕ → Lent

-- a text that the caller frees
pub data Given : Type 0 where
  duckdb_logical_type_get_alias : Given
  duckdb_enum_dictionary_value duckdb_struct_type_child_name : ℕ → Given
  duckdb_union_type_member_name duckdb_parameter_name : ℕ → Given
  duckdb_prepared_statement_column_name : ℕ → Given

-- a pointer into something that there is, or NULL
pub data Borrower : Type 0 where
  duckdb_data_chunk_get_vector duckdb_struct_vector_get_child : ℕ → Borrower
  duckdb_list_vector_get_child duckdb_array_vector_get_child : Borrower
  duckdb_vector_get_validity : Borrower

-- nothing
pub data Silent : Type 0 where
  duckdb_interrupt : Silent
  -- the context and the options are stored
  duckdb_connection_get_client_context duckdb_connection_get_arrow_options : Silent
  duckdb_config_option_set_name duckdb_config_option_set_description : List ℕ → Silent
  duckdb_config_option_set_type duckdb_config_option_set_default_value : Silent
  duckdb_config_option_set_default_scope : ℕ → Silent
  duckdb_data_chunk_reset : Silent
  duckdb_data_chunk_set_size : ℕ → Silent
  duckdb_log_storage_set_write_log_entry : Silent
  duckdb_log_storage_set_name duckdb_logical_type_set_alias : List ℕ → Silent
  duckdb_scalar_function_set_name : List ℕ → Silent
  duckdb_scalar_function_set_varargs duckdb_scalar_function_set_special_handling : Silent
  duckdb_scalar_function_set_volatile duckdb_scalar_function_add_parameter : Silent
  duckdb_scalar_function_set_return_type duckdb_scalar_function_set_function : Silent
  duckdb_validity_set_row_validity : ℕ → Bool → Silent
  duckdb_validity_set_row_invalid duckdb_validity_set_row_valid : ℕ → Silent
  duckdb_vector_ensure_validity_writable : Silent
  duckdb_vector_assign_string_element : ℕ → List ℕ → Silent
  duckdb_vector_assign_string_element_len : ℕ → List ℕ → Silent
  duckdb_unsafe_vector_assign_string_element_len : ℕ → List ℕ → Silent
  duckdb_vector_reference_value duckdb_vector_reference_vector : Silent
