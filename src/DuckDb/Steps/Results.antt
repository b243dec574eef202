-- ===== src/DuckDb/Steps/Results.antt =====
-- Statements, results and chunks of ffi/duckdb_shim.c: what their functions hold.
use linen.Base.{ok, error, ℕ, refl, none, some, List, [], ◌∷◌, arith}
use linen.Calls.{Exit, ok, error, ◌>>=◌}
use linen.Calls.Legal.{Legal}
use linen.DuckDb.Api.{
  Kind, connection, prepared_statement, data_chunk, error_data, result, fresh, Object, native,
  wrapper, Handle, Arg, held_if, lives, duckdb,
}
use linen.DuckDb.Chunks.{valid_utf8_check}
use linen.DuckDb.Functions.{Stateful, duckdb_execute_prepared, duckdb_query}
use linen.DuckDb.Handles.{mk_result_wrapper, one}
use linen.DuckDb.Owned.{Any, handle_held, held, has_all-grow, usable, not_held}
use linen.DuckDb.Prepared.{prepare}
use linen.DuckDb.Results.{filled, execute_prepared, query, fetch_chunk, test_query}
use linen.DuckDb.Shapes.{
  some_held, wrapper_of-Legal, IsNew-native, IsNew-wrapper, unchanged, option_or_fail-Legal,
}

-- a state and a handle
abbrev pub paired_held : Kind → List Object → Exit (ℕ × Handle) → List Object
paired_held k rest (ok r) = handle_held k fresh r.1 rest
paired_held k rest (error e) = rest

pub prepare-Legal :
    (c : Handle) (sql : List ℕ)
    → Legal duckdb Any
        (paired_held prepared_statement (held (one connection c)))
        (held (one connection c))
        (prepare c sql)
prepare-Legal c sql =
    let given = one connection c in
    let k = prepared_statement in
    let free_slot = not_held (wrapper k fresh) given (IsNew-wrapper k) in
    (
      usable given,
      λ rc t. (
        refl,
        not_held (native k fresh) given (IsNew-native k),
        (λ p t. wrapper_of-Legal k (some p) "" (held given) refl free_slot),
        wrapper_of-Legal k none "" (held given) refl free_slot,
      ),
    )

-- a result that may be filled, on top of its wrapper
abbrev pub result_held : List Object → Exit (ℕ × Handle) → List Object
result_held rest (ok r) = held_if r.1.live (native result fresh) (wrapper result fresh ∷ rest)
result_held rest (error e) = rest

filled-Legal :
    (f : Stateful) (given : List Arg)
    → Legal duckdb Any
        (result_held (held given))
        (held given)
        (do h ← mk_result_wrapper; filled h f given)
filled-Legal f given = (
  refl,
  not_held (wrapper result fresh) given (IsNew-wrapper result),
  (λ w t. (
    has_all-grow (wrapper result fresh) (held given) (lives given) (usable given),
    λ rc t. (refl, not_held (native result fresh) given (IsNew-native result), (λ r t. refl), refl),
  )),
  refl,
)

pub execute_prepared-Legal :
    (s : Handle)
    → Legal duckdb Any
        (result_held (held (one prepared_statement s)))
        (held (one prepared_statement s))
        (execute_prepared s)
execute_prepared-Legal s = filled-Legal duckdb_execute_prepared (one prepared_statement s)

pub query-Legal :
    (c : Handle) (sql : List ℕ)
    → Legal duckdb Any
        (result_held (held (one connection c)))
        (held (one connection c))
        (query c sql)
query-Legal c sql = filled-Legal (duckdb_query sql) (one connection c)

pub test_query-Legal :
    (c : Handle) (sql : List ℕ)
    → Legal duckdb Any (unchanged (one connection c)) (held (one connection c)) (test_query c sql)
test_query-Legal c sql =
    let given = one connection c in
    (
      usable given,
      λ rc t. (
        refl,
        not_held (native result fresh) given (IsNew-native result),
        (λ r t. ((λ e. (refl, refl)), λ e. ground arith)),
        ((λ e. ground arith), λ e. refl),
      ),
    )

pub fetch_chunk-Legal :
    (r : Handle)
    → Legal duckdb Any
        (some_held data_chunk (held (one result r)))
        (held (one result r))
        (fetch_chunk r)
fetch_chunk-Legal r =
    let given = one result r in
    (
      usable given,
      not_held (native data_chunk fresh) given (IsNew-native data_chunk),
      (λ p t. option_or_fail-Legal data_chunk (some p) "" given refl),
      option_or_fail-Legal data_chunk none "" given refl,
    )

pub valid_utf8_check-Legal :
    (bytes : List ℕ) → Legal duckdb Any (some_held error_data []) [] (valid_utf8_check bytes)
valid_utf8_check-Legal bytes = ground arith
