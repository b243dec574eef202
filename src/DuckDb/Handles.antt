-- ===== src/DuckDb/Handles.antt =====
-- The handles of ffi/duckdb_shim.c: each kind has a wrapper, a finalizer and a function that destroys it.
use linen.Base.{ℕ, ◌%◌, ◌^◌, String, Bool, true, false, Option, none, some, List, [], ◌∷◌}
use linen.Calls.{branch, Code, ◌>>=◌, ◌>>◌, pure, make, free, ask, when}
use linen.Calls.Legal.{has}
use linen.DuckDb.Api.{
  Kind, database, connection, instance_cache, client_context, arrow_options, value, appender,
  prepared_statement, data_chunk, vector, logical_type, config, config_option, error_data, catalog,
  catalog_entry, result, file_system, file_open_options, file_handle, log_storage, raw_memory,
  scalar_function, scalar_function_set, borrowed_data_chunk, validity_mask, fresh, argument, native,
  wrapper, text, Handle, Arg, makes, states, counts, lends, gives, borrows, acts, stored,
  malloc_wrapper, duckdb, fail,
}
use linen.DuckDb.Functions.{Maker, Stateful, Numeric, Lent, Given, Borrower, Silent}

-- what `mk_duckdb_database` and the others return for a pointer that is NULL or not: none is NULL
abbrev pub wrapped : Kind → Bool → Option (Unit {0}) → Code duckdb (Option Handle)
wrapped k has none = do when has (free (native k fresh)); pure none
wrapped k has (some w) = pure (some (record { live = has }))

-- `mk_duckdb_database`, `mk_duckdb_connection`, ..., `mk_duckdb_scalar_function_set`
abbrev pub mk : Kind → Bool → Code duckdb (Option Handle)
mk k has = do w ← make (wrapper k fresh) (malloc_wrapper k); wrapped k has w

abbrev pub borrowing : Bool → Option (Unit {0}) → Option Handle
borrowing has none = none
borrowing has (some w) = some (record { live = has })

-- `mk_duckdb_vector`, `mk_duckdb_borrowed_data_chunk` and `mk_duckdb_validity_mask`, which own nothing
abbrev pub mk_borrowed : Kind → Bool → Code duckdb (Option Handle)
mk_borrowed k has = do w ← make (wrapper k fresh) (malloc_wrapper k); pure (borrowing has w)

-- `mk_duckdb_result_wrapper`: a result that is zero
abbrev pub mk_result_wrapper : Code duckdb (Option Handle)
mk_result_wrapper = do
  w ← make (wrapper result fresh) (malloc_wrapper result)
  pure (borrowing false w)

-- how a handle is destroyed; its wrapper stays
unfoldable pub destroy : Kind → Handle → Code duckdb Handle
destroy k h =
    branch h.live (do free (native k (argument 0)); pure (record { live = false })) (pure h)

-- `linen_duckdb_database_finalizer`, ..., `linen_duckdb_scalar_function_set_finalizer`
unfoldable pub finalizer : Kind → Handle → Code duckdb (Unit {0})
finalizer k h = do when h.live (free (native k (argument 0))); free (wrapper k (argument 0))

-- `linen_duckdb_vector_finalizer`, `linen_duckdb_borrowed_data_chunk_finalizer` and
-- `linen_duckdb_validity_mask_finalizer`
unfoldable pub borrowed_finalizer : Kind → Handle → Code duckdb (Unit {0})
borrowed_finalizer k h = free (wrapper k (argument 0))

-- an argument of a kind
abbrev pub arg : Kind → Handle → Arg
arg k h = record { kind = k; handle = h }

abbrev pub one : Kind → Handle → List Arg
one k h = arg k h ∷ []

abbrev pub two : Kind → Handle → Kind → Handle → List Arg
two k h l i = arg k h ∷ arg l i ∷ []

abbrev pub is_made : {A : Type 0} → Option A → Bool
is_made none = false
is_made (some a) = true

-- `if (!obj) return an error; return obj`
abbrev pub or_fail : Option Handle → String → Code duckdb Handle
or_fail none m = fail m
or_fail (some h) m = pure h

-- a pointer that may be NULL, in a wrapper, or an error
abbrev pub wrapper_of : Kind → Option (Unit {0}) → String → Code duckdb Handle
wrapper_of k p m = do h ← mk k (is_made p); or_fail h m

-- `db ? mk_option_some(mk_duckdb_database(db)) : mk_option_none()`: the inner none is a NULL in a Lean `some`
abbrev pub option_of : Kind → Option (Unit {0}) → Code duckdb (Option (Option Handle))
option_of k none = pure none
option_of k (some p) = do h ← mk k true; pure (some h)

-- `if (!chunk) return none; obj = mk(chunk); if (!obj) return an error; return some(obj)`
abbrev pub option_or_fail : Kind → Option (Unit {0}) → String → Code duckdb (Option Handle)
option_or_fail k none m = pure none
option_or_fail k (some p) m = do h ← wrapper_of k (some p) m; pure (some h)

-- something new in a wrapper, whose failure is an error
abbrev pub gets : Kind → Maker → List Arg → String → Code duckdb Handle
gets k f given m = do p ← make (native k fresh) (makes f given); wrapper_of k p m

-- something new in a wrapper, or none
abbrev pub finds : Kind → Maker → List Arg → Code duckdb (Option (Option Handle))
finds k f given = do p ← make (native k fresh) (makes f given); option_of k p

-- a state, and what the call stored
abbrev pub opens : Kind → Stateful → List Arg → Code duckdb (ℕ × Option (Option Handle))
opens k f given = do
  rc ← ask (states f given)
  p ← make (native k fresh) (stored k)
  h ← option_of k p
  pure (rc % 2 ^ 32, h)

-- a vector of something, in a wrapper that does not own it
abbrev pub views : Borrower → List Arg → Kind → String → Code duckdb Handle
views f given k m = do p ← ask (borrows f given); h ← mk_borrowed k p; or_fail h m

-- `(uint32_t)rc` of a call
abbrev pub state_of : Stateful → List Arg → Code duckdb ℕ
state_of f given = do rc ← ask (states f given); pure (rc % 2 ^ 32)

-- a number as a word
abbrev pub number_of : ℕ → Numeric → List Arg → Code duckdb ℕ
number_of w f given = do n ← ask (counts f given); pure (n % 2 ^ w)

-- `pointer ? f(pointer) : a number`
abbrev pub number_or : ℕ → Bool → Numeric → List Arg → ℕ → Code duckdb ℕ
number_or w live f given n = branch live (number_of w f given) (pure n)

abbrev pub silently : Silent → List Arg → Code duckdb (Unit {0})
silently f given = ask (acts f given)

-- `mk_string_or_empty`
abbrev pub string_or_empty : Option (List ℕ) → List ℕ
string_or_empty none = []
string_or_empty (some s) = s

-- `mk_string_opt_borrowed(f(pointer))`
abbrev pub borrowed_text : Lent → List Arg → Code duckdb (Option (List ℕ))
borrowed_text f given = ask (lends f given)

-- `mk_string_opt_owned_free`
abbrev pub owned_free : Option (List ℕ) → Code duckdb (Option (List ℕ))
owned_free none = pure none
owned_free (some s) = do free text; pure (some s)

-- `mk_string_opt_owned_free(f(pointer))`
abbrev pub owned_text : Given → List Arg → Code duckdb (Option (List ℕ))
owned_text f given = do s ← make text (gives f given); owned_free s

-- each `mk_duckdb_...`, by its kind
abbrev pub mk_of : Kind → Bool → Code duckdb (Option Handle)
mk_of vector has = mk_borrowed vector has
mk_of borrowed_data_chunk has = mk_borrowed borrowed_data_chunk has
mk_of validity_mask has = mk_borrowed validity_mask has
mk_of result has = mk_result_wrapper
mk_of k has = mk k has

-- the classes in the order in which `linen_duckdb_ensure_classes_initialized` registers them
abbrev pub all_kinds : List Kind
all_kinds =
    database ∷ connection ∷ instance_cache ∷ client_context ∷ arrow_options ∷ value ∷ appender
    ∷ prepared_statement ∷ data_chunk ∷ vector ∷ logical_type ∷ config ∷ config_option ∷ error_data
    ∷ catalog ∷ catalog_entry ∷ result ∷ file_system ∷ file_open_options ∷ file_handle ∷ log_storage
    ∷ raw_memory ∷ scalar_function ∷ scalar_function_set ∷ borrowed_data_chunk ∷ validity_mask ∷ []
