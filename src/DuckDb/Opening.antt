-- ===== src/DuckDb/Opening.antt =====
-- Opening and asking databases and connections in ffi/duckdb_shim.c.
use linen.Base.{ℕ, ◌%◌, ◌^◌, String, Bool, Option, none, some, List, []}
use linen.Calls.{branch, Code, ◌>>=◌, ◌>>◌, pure, make, free, ask, when}
use linen.DuckDb.Api.{
  Kind, database, connection, instance_cache, client_context, arrow_options, value, fresh, native,
  err_text, Handle, Arg, Progress, states, lends, acts, query_progress, stored, stored_err, duckdb,
}
use linen.DuckDb.Functions.{
  duckdb_create_instance_cache, duckdb_get_table_names, duckdb_get_or_create_from_cache,
  duckdb_open, duckdb_open_ext, duckdb_connect, duckdb_client_context_get_connection_id,
  duckdb_library_version, Silent, duckdb_interrupt, duckdb_connection_get_client_context,
  duckdb_connection_get_arrow_options,
}
use linen.DuckDb.Handles.{
  destroy, one, wrapper_of, option_of, gets, opens, number_or, silently, string_or_empty,
}

-- the text of an error, which is copied and freed
abbrev pub copy_err : Option (List ℕ) → Code duckdb (Option (List ℕ))
copy_err none = pure none
copy_err (some e) = do free err_text; pure (some e)

abbrev pub create_instance_cache : Code duckdb Handle
create_instance_cache =
    gets instance_cache duckdb_create_instance_cache []
      "malloc failed for duckdb_instance_cache wrapper"

-- the database and the error that a call stored
abbrev pub database_or_err : ℕ → Code duckdb (ℕ × Option (Option Handle) × Option (List ℕ))
database_or_err rc = do
  p ← make (native database fresh) (stored database)
  e ← make err_text stored_err
  h ← option_of database p
  message_text ← copy_err e
  pure (rc % 2 ^ 32, h, message_text)

abbrev pub get_or_create_from_cache :
    Handle → Option (List ℕ) → Code duckdb (ℕ × Option (Option Handle) × Option (List ℕ))
get_or_create_from_cache c path = do
  rc ← ask (states (duckdb_get_or_create_from_cache path) (one instance_cache c))
  database_or_err rc

-- `linen_duckdb_destroy_instance_cache`
abbrev pub destroy_instance_cache : Handle → Code duckdb Handle
destroy_instance_cache h = destroy instance_cache h

-- `linen_duckdb_open`
abbrev pub open_database : Option (List ℕ) → Code duckdb (ℕ × Option (Option Handle))
open_database path = opens database (duckdb_open path) []

-- `linen_duckdb_open_ext`
abbrev pub open_ext : Option (List ℕ) → Code duckdb (ℕ × Option (Option Handle) × Option (List ℕ))
open_ext path = do rc ← ask (states (duckdb_open_ext path) []); database_or_err rc

-- `linen_duckdb_close`
abbrev pub close_database : Handle → Code duckdb Handle
close_database h = destroy database h

abbrev pub connect : Handle → Code duckdb (ℕ × Option (Option Handle))
connect d = opens connection duckdb_connect (one database d)

abbrev pub interrupt : Handle → Code duckdb (Unit {0})
interrupt c = when c.live (silently duckdb_interrupt (one connection c))

-- the bits of -1.0, and no rows
abbrev pub no_progress : Progress
no_progress = record { percentage = 13830554455654793216; rows_processed = 0; total_rows = 0 }

-- `linen_duckdb_query_progress`
abbrev pub progress : Handle → Code duckdb Progress
progress c = branch c.live (ask (query_progress (one connection c))) (pure no_progress)

abbrev pub disconnect : Handle → Code duckdb Handle
disconnect h = destroy connection h

-- a pointer that a call without an answer stores, in a wrapper
abbrev pub fetches : Kind → Silent → List Arg → String → Code duckdb Handle
fetches k f given m = do ask (acts f given); p ← make (native k fresh) (stored k); wrapper_of k p m

abbrev pub connection_get_client_context : Handle → Code duckdb Handle
connection_get_client_context c =
    fetches client_context duckdb_connection_get_client_context (one connection c)
      "malloc failed for duckdb_client_context wrapper"

abbrev pub connection_get_arrow_options : Handle → Code duckdb Handle
connection_get_arrow_options c =
    fetches arrow_options duckdb_connection_get_arrow_options (one connection c)
      "malloc failed for duckdb_arrow_options wrapper"

abbrev pub client_context_get_connection_id : Handle → Code duckdb ℕ
client_context_get_connection_id c =
    number_or 64 c.live duckdb_client_context_get_connection_id (one client_context c) 0

-- `linen_duckdb_destroy_client_context`
abbrev pub destroy_client_context : Handle → Code duckdb Handle
destroy_client_context h = destroy client_context h

-- `linen_duckdb_destroy_arrow_options`
abbrev pub destroy_arrow_options : Handle → Code duckdb Handle
destroy_arrow_options h = destroy arrow_options h

abbrev pub library_version : Code duckdb (List ℕ)
library_version = do v ← ask (lends duckdb_library_version []); pure (string_or_empty v)

abbrev pub get_table_names : Handle → List ℕ → Bool → Code duckdb Handle
get_table_names c sql qualified =
    gets value (duckdb_get_table_names sql qualified) (one connection c)
      "malloc failed for duckdb_value wrapper"
