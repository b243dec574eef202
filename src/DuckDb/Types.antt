-- ===== src/DuckDb/Types.antt =====
-- Logical types in ffi/duckdb_shim.c.
use linen.Base.{ℕ, Option, List, []}
use linen.Calls.{Code}
use linen.DuckDb.Api.{logical_type, Handle, duckdb}
use linen.DuckDb.Functions.{
  duckdb_create_logical_type, duckdb_create_list_type, duckdb_create_array_type,
  duckdb_create_map_type, duckdb_create_decimal_type, duckdb_list_type_child_type,
  duckdb_array_type_child_type, duckdb_map_type_key_type, duckdb_map_type_value_type,
  duckdb_struct_type_child_type, duckdb_union_type_member_type, duckdb_get_type_id,
  duckdb_decimal_width, duckdb_decimal_scale, duckdb_decimal_internal_type,
  duckdb_enum_internal_type, duckdb_enum_dictionary_size, duckdb_array_type_array_size,
  duckdb_struct_type_child_count, duckdb_union_type_member_count, duckdb_logical_type_get_alias,
  duckdb_enum_dictionary_value, duckdb_struct_type_child_name, duckdb_union_type_member_name,
  duckdb_logical_type_set_alias,
}
use linen.DuckDb.Handles.{destroy, one, two, gets, number_of, silently, owned_text}

abbrev pub create_logical_type : ℕ → Code duckdb Handle
create_logical_type ty =
    gets logical_type (duckdb_create_logical_type ty) []
      "malloc failed for duckdb_logical_type wrapper"

abbrev pub logical_type_get_alias : Handle → Code duckdb (Option (List ℕ))
logical_type_get_alias t = owned_text duckdb_logical_type_get_alias (one logical_type t)

abbrev pub logical_type_set_alias : Handle → List ℕ → Code duckdb (Unit {0})
logical_type_set_alias t alias = silently (duckdb_logical_type_set_alias alias) (one logical_type t)

abbrev pub create_list_type : Handle → Code duckdb Handle
create_list_type t =
    gets logical_type duckdb_create_list_type (one logical_type t)
      "malloc failed for duckdb_logical_type wrapper"

abbrev pub create_array_type : Handle → ℕ → Code duckdb Handle
create_array_type t n =
    gets logical_type (duckdb_create_array_type n) (one logical_type t)
      "malloc failed for duckdb_logical_type wrapper"

abbrev pub create_map_type : Handle → Handle → Code duckdb Handle
create_map_type k v =
    gets logical_type duckdb_create_map_type (two logical_type k logical_type v)
      "malloc failed for duckdb_logical_type wrapper"

abbrev pub create_decimal_type : ℕ → ℕ → Code duckdb Handle
create_decimal_type width scale =
    gets logical_type (duckdb_create_decimal_type width scale) []
      "malloc failed for duckdb_logical_type wrapper"

abbrev pub get_type_id_raw : Handle → Code duckdb ℕ
get_type_id_raw t = number_of 32 duckdb_get_type_id (one logical_type t)

abbrev pub decimal_width : Handle → Code duckdb ℕ
decimal_width t = number_of 8 duckdb_decimal_width (one logical_type t)

abbrev pub decimal_scale : Handle → Code duckdb ℕ
decimal_scale t = number_of 8 duckdb_decimal_scale (one logical_type t)

abbrev pub decimal_internal_type_raw : Handle → Code duckdb ℕ
decimal_internal_type_raw t = number_of 32 duckdb_decimal_internal_type (one logical_type t)

abbrev pub enum_internal_type_raw : Handle → Code duckdb ℕ
enum_internal_type_raw t = number_of 32 duckdb_enum_internal_type (one logical_type t)

abbrev pub enum_dictionary_size : Handle → Code duckdb ℕ
enum_dictionary_size t = number_of 32 duckdb_enum_dictionary_size (one logical_type t)

abbrev pub enum_dictionary_value : Handle → ℕ → Code duckdb (Option (List ℕ))
enum_dictionary_value t i = owned_text (duckdb_enum_dictionary_value i) (one logical_type t)

abbrev pub list_type_child_type : Handle → Code duckdb Handle
list_type_child_type t =
    gets logical_type duckdb_list_type_child_type (one logical_type t)
      "malloc failed for duckdb_logical_type wrapper"

abbrev pub array_type_child_type : Handle → Code duckdb Handle
array_type_child_type t =
    gets logical_type duckdb_array_type_child_type (one logical_type t)
      "malloc failed for duckdb_logical_type wrapper"

abbrev pub array_type_array_size : Handle → Code duckdb ℕ
array_type_array_size t = number_of 64 duckdb_array_type_array_size (one logical_type t)

abbrev pub map_type_key_type : Handle → Code duckdb Handle
map_type_key_type t =
    gets logical_type duckdb_map_type_key_type (one logical_type t)
      "malloc failed for duckdb_logical_type wrapper"

abbrev pub map_type_value_type : Handle → Code duckdb Handle
map_type_value_type t =
    gets logical_type duckdb_map_type_value_type (one logical_type t)
      "malloc failed for duckdb_logical_type wrapper"

abbrev pub struct_type_child_count : Handle → Code duckdb ℕ
struct_type_child_count t = number_of 64 duckdb_struct_type_child_count (one logical_type t)

abbrev pub struct_type_child_name : Handle → ℕ → Code duckdb (Option (List ℕ))
struct_type_child_name t i = owned_text (duckdb_struct_type_child_name i) (one logical_type t)

abbrev pub struct_type_child_type : Handle → ℕ → Code duckdb Handle
struct_type_child_type t i =
    gets logical_type (duckdb_struct_type_child_type i) (one logical_type t)
      "malloc failed for duckdb_logical_type wrapper"

abbrev pub union_type_member_count : Handle → Code duckdb ℕ
union_type_member_count t = number_of 64 duckdb_union_type_member_count (one logical_type t)

abbrev pub union_type_member_name : Handle → ℕ → Code duckdb (Option (List ℕ))
union_type_member_name t i = owned_text (duckdb_union_type_member_name i) (one logical_type t)

abbrev pub union_type_member_type : Handle → ℕ → Code duckdb Handle
union_type_member_type t i =
    gets logical_type (duckdb_union_type_member_type i) (one logical_type t)
      "malloc failed for duckdb_logical_type wrapper"

abbrev pub destroy_logical_type : Handle → Code duckdb Handle
destroy_logical_type t = destroy logical_type t
