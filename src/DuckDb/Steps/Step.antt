-- ===== src/DuckDb/Steps/Step.antt =====
-- The functions of ffi/duckdb_shim.c on handles, as calls from Lean, and what they hold after them.
use linen.Base.{ℕ, Bool, Option, List, []}
use linen.Calls.{Exit, Code}
use linen.DuckDb.Api.{
  Kind, connection, instance_cache, client_context, arrow_options, appender, prepared_statement,
  data_chunk, vector, error_data, result, file_handle, validity_mask, Object, Handle, Arg, duckdb,
}
use linen.DuckDb.Arrays.{appender_create_query}
use linen.DuckDb.Catalogs.{client_context_get_config_option}
use linen.DuckDb.Chunks.{valid_utf8_check}
use linen.DuckDb.Files.{file_handle_read}
use linen.DuckDb.Functions.{Stateful, Numeric, Lent, Silent}
use linen.DuckDb.Handles.{one, state_of, number_or, silently, borrowed_text}
use linen.DuckDb.Opening.{
  get_or_create_from_cache, open_ext, connection_get_client_context, connection_get_arrow_options,
}
use linen.DuckDb.Owned.{held}
use linen.DuckDb.Prepared.{prepare}
use linen.DuckDb.Releases.{destroyed_held}
use linen.DuckDb.Results.{execute_prepared, query, fetch_chunk, test_query}
use linen.DuckDb.Shapes.{new_held, found_held, opened_held, some_held}
use linen.DuckDb.Steps.Arrays.{appender_args}
use linen.DuckDb.Steps.Builders.{Builder, builder_code, builder_args, builder_kind}
use linen.DuckDb.Steps.Destroyers.{
  Destroyer, destroyer_code, destroyer_kind, destroyer_handle, finalizer_of,
}
use linen.DuckDb.Steps.Finders.{Finder, finder_code, finder_args, finder_kind}
use linen.DuckDb.Steps.Getters.{Getter, getter_code, getter_args, getter_kind}
use linen.DuckDb.Steps.Guarded.{Guarded, GuardedResult, guarded_code, guarded_args}
use linen.DuckDb.Steps.Openers.{Opener, opener_code, opener_args, opener_kind}
use linen.DuckDb.Steps.Others.{ext_held, scoped_held}
use linen.DuckDb.Steps.Results.{paired_held, result_held}
use linen.DuckDb.Steps.Texts.{Text, text_code, text_args}
use linen.DuckDb.Steps.Viewers.{Viewer, viewer_code, viewer_args}
use linen.DuckDb.Vectors.{vector_get_validity}

-- a call from Lean, with its handles
pub data Step : Type 0 where
  getter : Getter → Step
  opener : Opener → Step
  finder : Finder → Step
  viewer : Viewer → Step
  builder : Builder → Step
  texts : Text → Step
  guarded : Guarded → Step
  destroyer : Destroyer → Step
  finalizes : Kind → Handle → Step
  calls_open_ext : Option (List ℕ) → Step
  calls_get_or_create_from_cache : Handle → Option (List ℕ) → Step
  calls_get_client_context calls_get_arrow_options : Handle → Step
  calls_appender_create_query :
      Handle → List ℕ → List Handle → Option (List ℕ) → Option (List (List ℕ)) → Step
  calls_prepare calls_query calls_test_query : Handle → List ℕ → Step
  calls_execute_prepared calls_fetch_chunk : Handle → Step
  calls_valid_utf8_check : List ℕ → Step
  calls_get_config_option : Handle → List ℕ → Step
  calls_get_validity : Handle → Step
  calls_file_handle_read : Handle → ℕ → Step
  -- the functions that ask for a state, a number or a text, or change something, with whatever they ask
  asks_state : Stateful → List Arg → Step
  asks_number : ℕ → Bool → Numeric → List Arg → ℕ → Step
  asks_text : Lent → List Arg → Step
  changes : Silent → List Arg → Step

abbrev pub Opened : Type 0
Opened = ℕ × Option (Option Handle)

abbrev pub OpenedExt : Type 0
OpenedExt = ℕ × Option (Option Handle) × Option (List ℕ)

abbrev pub Result : Step → Type 0
Result (opener o) = Opened
Result (finder f) = Option (Option Handle)
Result (texts t) = Option (List ℕ)
Result (guarded g) = GuardedResult g
Result (finalizes k h) = Unit {0}
Result (calls_open_ext path) = OpenedExt
Result (calls_get_or_create_from_cache c path) = OpenedExt
Result (calls_appender_create_query c sql ts table columns) = Opened
Result (calls_prepare c sql) = ℕ × Handle
Result (calls_query c sql) = ℕ × Handle
Result (calls_test_query c sql) = ℕ
Result (calls_execute_prepared s) = ℕ × Handle
Result (calls_fetch_chunk r) = Option Handle
Result (calls_valid_utf8_check bytes) = Option Handle
Result (calls_get_config_option x name) = Handle × ℕ
Result (calls_get_validity v) = Option Handle
Result (calls_file_handle_read h n) = ℕ × List ℕ
Result (asks_state f given) = ℕ
Result (asks_number w b f given n) = ℕ
Result (asks_text f given) = Option (List ℕ)
Result (changes f given) = Unit {0}
Result _ = Handle

unfoldable pub code : (s : Step) → Code duckdb (Result s)
code (getter g) = getter_code g
code (opener o) = opener_code o
code (finder f) = finder_code f
code (viewer v) = viewer_code v
code (builder b) = builder_code b
code (texts t) = text_code t
code (guarded g) = guarded_code g
code (destroyer d) = destroyer_code d
code (finalizes k h) = finalizer_of k h
code (calls_open_ext path) = open_ext path
code (calls_get_or_create_from_cache c path) = get_or_create_from_cache c path
code (calls_get_client_context c) = connection_get_client_context c
code (calls_get_arrow_options c) = connection_get_arrow_options c
code (calls_appender_create_query c sql ts table columns) =
    appender_create_query c sql ts table columns
code (calls_prepare c sql) = prepare c sql
code (calls_query c sql) = query c sql
code (calls_test_query c sql) = test_query c sql
code (calls_execute_prepared s) = execute_prepared s
code (calls_fetch_chunk r) = fetch_chunk r
code (calls_valid_utf8_check bytes) = valid_utf8_check bytes
code (calls_get_config_option x name) = client_context_get_config_option x name
code (calls_get_validity v) = vector_get_validity v
code (calls_file_handle_read h n) = file_handle_read h n
code (asks_state f given) = state_of f given
code (asks_number w b f given n) = number_or w b f given n
code (asks_text f given) = borrowed_text f given
code (changes f given) = silently f given

-- the handles of a step
abbrev pub args : Step → List Arg
args (getter g) = getter_args g
args (opener o) = opener_args o
args (finder f) = finder_args f
args (viewer v) = viewer_args v
args (builder b) = builder_args b
args (texts t) = text_args t
args (guarded g) = guarded_args g
args (destroyer d) = one (destroyer_kind d) (destroyer_handle d)
args (finalizes k h) = one k h
args (calls_get_or_create_from_cache c path) = one instance_cache c
args (calls_get_client_context c) = one connection c
args (calls_get_arrow_options c) = one connection c
args (calls_appender_create_query c sql ts table columns) = appender_args c ts
args (calls_prepare c sql) = one connection c
args (calls_query c sql) = one connection c
args (calls_test_query c sql) = one connection c
args (calls_execute_prepared s) = one prepared_statement s
args (calls_fetch_chunk r) = one result r
args (calls_get_config_option x name) = one client_context x
args (calls_get_validity v) = one vector v
args (calls_file_handle_read h n) = one file_handle h
args (asks_state f given) = given
args (asks_number w b f given n) = given
args (asks_text f given) = given
args (changes f given) = given
args _ = []

-- what its handles and its result hold after a step
abbrev pub held_after : (s : Step) → Exit (Result s) → List Object
held_after (getter g) r = new_held (getter_kind g) (held (getter_args g)) r
held_after (opener o) r = opened_held (opener_kind o) (held (opener_args o)) r
held_after (finder f) r = found_held (finder_kind f) (held (finder_args f)) r
held_after (viewer v) r = new_held vector (held (viewer_args v)) r
held_after (builder b) r = new_held (builder_kind b) (held (builder_args b)) r
held_after (texts t) r = held (text_args t)
held_after (guarded g) r = held (guarded_args g)
held_after (destroyer d) r = destroyed_held (destroyer_kind d) r
held_after (finalizes k h) r = []
held_after (calls_open_ext path) r = ext_held [] r
held_after (calls_get_or_create_from_cache c path) r = ext_held (held (one instance_cache c)) r
held_after (calls_get_client_context c) r = new_held client_context (held (one connection c)) r
held_after (calls_get_arrow_options c) r = new_held arrow_options (held (one connection c)) r
held_after (calls_appender_create_query c sql ts table columns) r =
    opened_held appender (held (appender_args c ts)) r
held_after (calls_prepare c sql) r = paired_held prepared_statement (held (one connection c)) r
held_after (calls_query c sql) r = result_held (held (one connection c)) r
held_after (calls_test_query c sql) r = held (one connection c)
held_after (calls_execute_prepared s) r = result_held (held (one prepared_statement s)) r
held_after (calls_fetch_chunk q) r = some_held data_chunk (held (one result q)) r
held_after (calls_valid_utf8_check bytes) r = some_held error_data [] r
held_after (calls_get_config_option x name) r = scoped_held (held (one client_context x)) r
held_after (calls_get_validity v) r = some_held validity_mask (held (one vector v)) r
held_after (calls_file_handle_read h n) r = held (one file_handle h)
held_after (asks_state f given) r = held given
held_after (asks_number w b f given n) r = held given
held_after (asks_text f given) r = held given
held_after (changes f given) r = held given
