-- ===== src/Postgres/Examples.antt =====
-- A connection of ffi/postgres.c that makes a query, over a libpq that answers the same.
use linen.Base.{ℕ, suc, ◌≡◌, some, none, List, [], ◌∷◌, pos}
use linen.Calls.{Library, run}
use linen.Calls.Legal.{after_all}
use linen.Postgres.{
  ConnCall, ConnReply, ResultCall, ResultReply, Call, Reply, libpq, error_message, db, user, host,
  port, reset, result_error_message, cmd_tuples, getvalue, fname, on_conn, on_result,
  escape_literal, escape_identifier, notifies, res_status, alloc_sarray,
}
use linen.Postgres.Life.{ConnOp, connects, closes, execs_params, takes_notify, connection}
use linen.Postgres.Life.Results.{Any, reads_value, clears}
use linen.Postgres.Life.Frees.{connection-Releases}

abbrev conn_answer : (c : ConnCall) → ConnReply c
conn_answer error_message = none
conn_answer db = none
conn_answer user = none
conn_answer host = none
conn_answer port = none
conn_answer reset = tt
conn_answer _ = pos 0

abbrev result_answer : (c : ResultCall) → ResultReply c
result_answer result_error_message = none
result_answer cmd_tuples = none
result_answer (getvalue row col) = some (7 ∷ [])
result_answer (fname col) = none
result_answer _ = pos 1

abbrev answer : (c : Call) → Reply c
answer (on_conn p c) = conn_answer c
answer (on_result p c) = result_answer c
answer (escape_literal s) = s
answer (escape_identifier s) = s
answer notifies = record { channel = []; payload = []; be_pid = pos 1 }
answer (res_status n) = none
answer (alloc_sarray n) = []
answer _ = tt

abbrev succeeds : Library libpq ℕ
succeeds = record { makes = λ o c w. (some (answer c), suc w); answers = λ c w. (answer c, suc w) }

abbrev ops : List ConnOp
ops =
    execs_params (1 ∷ []) (some (2 ∷ []) ∷ none ∷ [])
      (reads_value 0 0 ∷ clears ∷ reads_value 0 0 ∷ [])
    ∷ takes_notify
    ∷ closes
    ∷ []

connection-Releases_example :
    after_all libpq Any (run succeeds (connection (connects (3 ∷ [])) ops) 0).1 (some []) ≡ some []
connection-Releases_example = connection-Releases succeeds (connects (3 ∷ [])) ops 0
