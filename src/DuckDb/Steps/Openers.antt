-- ===== src/DuckDb/Steps/Openers.antt =====
-- The functions of ffi/duckdb_shim.c that return a state and what DuckDB stored.
use linen.Base.{ℕ, refl, Option, List, []}
use linen.Calls.{Code}
use linen.Calls.Legal.{Legal}
use linen.DuckDb.Api.{
  Kind, database, connection, appender, prepared_statement, config, file_system, file_open_options,
  file_handle, Handle, Arg, duckdb,
}
use linen.DuckDb.Appender.{appender_create, appender_create_ext}
use linen.DuckDb.Catalogs.{create_config}
use linen.DuckDb.Files.{file_system_open}
use linen.DuckDb.Functions.{
  duckdb_open, duckdb_connect, duckdb_appender_create, duckdb_appender_create_ext,
  duckdb_create_config, duckdb_file_system_open, duckdb_prepare,
}
use linen.DuckDb.Handles.{one, two}
use linen.DuckDb.Opening.{open_database, connect}
use linen.DuckDb.Owned.{Any, held}
use linen.DuckDb.Prepared.{test_prepare}
use linen.DuckDb.Shapes.{opened_held, opens-Legal}

-- a call from Lean, with its arguments
pub data Opener : Type 0 where
  calls_open_database : Option (List ℕ) → Opener
  calls_connect : Handle → Opener
  calls_appender_create : Handle → Option (List ℕ) → List ℕ → Opener
  calls_appender_create_ext : Handle → Option (List ℕ) → Option (List ℕ) → List ℕ → Opener
  calls_create_config : Opener
  calls_file_system_open : Handle → List ℕ → Handle → Opener
  calls_test_prepare : Handle → List ℕ → Opener

abbrev pub opener_code : Opener → Code duckdb (ℕ × Option (Option Handle))
opener_code (calls_open_database a) = open_database a
opener_code (calls_connect a) = connect a
opener_code (calls_appender_create a b c) = appender_create a b c
opener_code (calls_appender_create_ext a b c d) = appender_create_ext a b c d
opener_code calls_create_config = create_config
opener_code (calls_file_system_open a b c) = file_system_open a b c
opener_code (calls_test_prepare a b) = test_prepare a b

-- the handles that it gets
abbrev pub opener_args : Opener → List Arg
opener_args (calls_connect a) = one database a
opener_args (calls_appender_create a b c) = one connection a
opener_args (calls_appender_create_ext a b c d) = one connection a
opener_args (calls_file_system_open a b c) = two file_system a file_open_options c
opener_args (calls_test_prepare a b) = one connection a
opener_args _ = []

-- the kind of what it makes
abbrev pub opener_kind : Opener → Kind
opener_kind (calls_open_database a) = database
opener_kind (calls_connect a) = connection
opener_kind calls_create_config = config
opener_kind (calls_file_system_open a b c) = file_handle
opener_kind (calls_test_prepare a b) = prepared_statement
opener_kind _ = appender

pub opener_code-Legal :
    (s : Opener)
    → Legal duckdb Any
        (opened_held (opener_kind s) (held (opener_args s)))
        (held (opener_args s))
        (opener_code s)
opener_code-Legal (calls_open_database a) = opens-Legal database (duckdb_open a) [] refl
opener_code-Legal (calls_connect a) = opens-Legal connection duckdb_connect (one database a) refl
opener_code-Legal (calls_appender_create a b c) =
    opens-Legal appender (duckdb_appender_create b c) (one connection a) refl
opener_code-Legal (calls_appender_create_ext a b c d) =
    opens-Legal appender (duckdb_appender_create_ext b c d) (one connection a) refl
opener_code-Legal calls_create_config = opens-Legal config duckdb_create_config [] refl
opener_code-Legal (calls_file_system_open a b c) =
    opens-Legal file_handle (duckdb_file_system_open b) (two file_system a file_open_options c) refl
opener_code-Legal (calls_test_prepare a b) =
    opens-Legal prepared_statement (duckdb_prepare b) (one connection a) refl
