-- ===== src/Sqlite/Examples.antt =====
-- A connection and a registration of ffi/sqlite3_shim.c, over an SQLite that answers the same.
use linen.Base.{ℕ, suc, ◌≡◌, refl, true, some, none, List, [], ◌∷◌, pos, if◌then◌else◌}
use linen.Calls.{Library}
use linen.Sqlite.{
  StmtCall, StmtReply, DbCall, DbReply, Call, Reply, sqlite, is_ok, bind_parameter_name,
  column_name, column_double, column_text, column_blob, errmsg, interrupt, on_stmt, on_db, open_v2,
  exec_errmsg, alloc_sarray,
}
use linen.Sqlite.Database.{text_rep}
use linen.Sqlite.Life.{steps, finalizes, reads_text}
use linen.Sqlite.Life.Connection.{DbOp, closes, execs, prepares, creates_function, deletes_function}
use linen.Sqlite.Registration.{Registrar, create_function, refs, create_function-refs}

abbrev stmt_answer : (c : StmtCall) → StmtReply c
stmt_answer (bind_parameter_name idx) = none
stmt_answer (column_name idx) = none
stmt_answer (column_double idx) = 0
stmt_answer (column_text idx) = some (7 ∷ [])
stmt_answer (column_blob idx) = none
stmt_answer _ = pos 1

abbrev db_answer : (c : DbCall) → DbReply c
db_answer errmsg = none
db_answer interrupt = tt
db_answer _ = pos 0

abbrev answer : (c : Call) → Reply c
answer (on_stmt p c) = stmt_answer c
answer (on_db p c) = db_answer c
answer (open_v2 path) = pos 0
answer exec_errmsg = 7 ∷ []
answer (alloc_sarray n) = []
answer _ = tt

abbrev succeeds : Library sqlite ℕ
succeeds = record { makes = λ o c w. (some (answer c), suc w); answers = λ c w. (answer c, suc w) }

abbrev calls : List DbOp
calls =
    prepares (2 ∷ []) (steps ∷ reads_text 0 ∷ finalizes ∷ steps ∷ [])
    ∷ creates_function (4 ∷ []) (pos 1) true
    ∷ execs (3 ∷ [])
    ∷ closes
    ∷ deletes_function (4 ∷ []) (pos 1)
    ∷ closes
    ∷ []

-- SQLITE_MISUSE, for a name that is too long
abbrev refuses : Registrar ℕ
refuses name n_arg flags has_closure w = (record { rc = pos 21; destroyed = 1 }, suc w)

create_function-refs_example :
    let done = is_ok (refuses (1 ∷ []) (pos 1) (text_rep true) true 0).0.rc in
    let events = (create_function refuses (1 ∷ []) (pos 1) true 0).1 in
    (refs events 1 ≡ (if done then some 1 else none))
    × (refs events (suc (suc 0)) ≡ some (if done then suc (suc 0) else 0))
create_function-refs_example =
    create_function-refs refuses (λ name n_arg flags w. refl) (1 ∷ []) (pos 1) true 0 0
