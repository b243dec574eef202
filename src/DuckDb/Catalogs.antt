-- ===== src/DuckDb/Catalogs.antt =====
-- Catalogs and configuration in ffi/duckdb_shim.c.
use linen.Base.{ℕ, ◌%◌, ◌^◌, Option, List, []}
use linen.Calls.{branch, Code, ◌>>=◌, pure, make, ask}
use linen.DuckDb.Api.{
  connection, client_context, value, logical_type, config, config_option, catalog, catalog_entry,
  fresh, native, Handle, Arg, makes, states, lends, stored_scope, stored_flag, duckdb,
}
use linen.DuckDb.Functions.{
  duckdb_client_context_get_catalog, duckdb_catalog_get_entry, duckdb_create_config_option,
  duckdb_client_context_get_config_option, duckdb_create_config, duckdb_get_config_flag,
  duckdb_set_config, duckdb_register_config_option, duckdb_catalog_entry_get_type,
  duckdb_config_count, Lent, duckdb_catalog_get_type_name, duckdb_catalog_entry_get_name,
  duckdb_config_option_set_name, duckdb_config_option_set_description,
  duckdb_config_option_set_type, duckdb_config_option_set_default_value,
  duckdb_config_option_set_default_scope,
}
use linen.DuckDb.Handles.{
  destroy, one, two, wrapper_of, gets, finds, opens, state_of, number_of, number_or, silently,
  string_or_empty,
}

abbrev pub client_context_get_catalog : Handle → List ℕ → Code duckdb (Option (Option Handle))
client_context_get_catalog x name =
    finds catalog (duckdb_client_context_get_catalog name) (one client_context x)

-- `mk_string_or_empty(pointer ? f(pointer) : NULL)`
abbrev pub text_or_empty : Handle → Lent → List Arg → Code duckdb (List ℕ)
text_or_empty h f given =
    branch h.live (do s ← ask (lends f given); pure (string_or_empty s)) (pure [])

abbrev pub catalog_get_type_name : Handle → Code duckdb (List ℕ)
catalog_get_type_name c = text_or_empty c duckdb_catalog_get_type_name (one catalog c)

abbrev pub catalog_get_entry :
    Handle → Handle → ℕ → List ℕ → List ℕ → Code duckdb (Option (Option Handle))
catalog_get_entry c x entry_type schema name =
    finds catalog_entry (duckdb_catalog_get_entry entry_type schema name)
      (two catalog c client_context x)

abbrev pub destroy_catalog : Handle → Code duckdb Handle
destroy_catalog c = destroy catalog c

-- `DUCKDB_CATALOG_ENTRY_TYPE_INVALID`
abbrev pub entry_type_invalid : ℕ
entry_type_invalid = 0

abbrev pub catalog_entry_get_type : Handle → Code duckdb ℕ
catalog_entry_get_type e =
    number_or 32 e.live duckdb_catalog_entry_get_type (one catalog_entry e) entry_type_invalid

abbrev pub catalog_entry_get_name : Handle → Code duckdb (List ℕ)
catalog_entry_get_name e = text_or_empty e duckdb_catalog_entry_get_name (one catalog_entry e)

abbrev pub destroy_catalog_entry : Handle → Code duckdb Handle
destroy_catalog_entry e = destroy catalog_entry e

abbrev pub create_config : Code duckdb (ℕ × Option (Option Handle))
create_config = opens config duckdb_create_config []

abbrev pub config_count : Code duckdb ℕ
config_count = number_of 64 duckdb_config_count []

abbrev pub get_config_flag : ℕ → Code duckdb (ℕ × Option (List ℕ) × Option (List ℕ))
get_config_flag i = do
  rc ← ask (states (duckdb_get_config_flag i) [])
  f ← ask stored_flag
  pure (rc % 2 ^ 32, f.0, f.1)

abbrev pub set_config : Handle → List ℕ → List ℕ → Code duckdb ℕ
set_config c name setting = state_of (duckdb_set_config name setting) (one config c)

abbrev pub destroy_config : Handle → Code duckdb Handle
destroy_config c = destroy config c

abbrev pub create_config_option : Code duckdb Handle
create_config_option =
    gets config_option duckdb_create_config_option []
      "malloc failed for duckdb_config_option wrapper"

abbrev pub destroy_config_option : Handle → Code duckdb Handle
destroy_config_option o = destroy config_option o

abbrev pub config_option_set_name : Handle → List ℕ → Code duckdb (Unit {0})
config_option_set_name o name = silently (duckdb_config_option_set_name name) (one config_option o)

abbrev pub config_option_set_type : Handle → Handle → Code duckdb (Unit {0})
config_option_set_type o t =
    silently duckdb_config_option_set_type (two config_option o logical_type t)

abbrev pub config_option_set_default_value : Handle → Handle → Code duckdb (Unit {0})
config_option_set_default_value o v =
    silently duckdb_config_option_set_default_value (two config_option o value v)

abbrev pub config_option_set_default_scope : Handle → ℕ → Code duckdb (Unit {0})
config_option_set_default_scope o scope =
    silently (duckdb_config_option_set_default_scope scope) (one config_option o)

abbrev pub config_option_set_description : Handle → List ℕ → Code duckdb (Unit {0})
config_option_set_description o description =
    silently (duckdb_config_option_set_description description) (one config_option o)

abbrev pub register_config_option : Handle → Handle → Code duckdb ℕ
register_config_option c o =
    state_of duckdb_register_config_option (two connection c config_option o)

abbrev pub client_context_get_config_option : Handle → List ℕ → Code duckdb (Handle × ℕ)
client_context_get_config_option x name = do
  p ←
      make (native value fresh)
        (makes (duckdb_client_context_get_config_option name) (one client_context x))
  scope ← ask stored_scope
  h ← wrapper_of value p "malloc failed for duckdb_value wrapper"
  pure (h, scope % 2 ^ 32)
