-- ===== src/Sqlite/Life/Connection.antt =====
-- The life of a connection of ffi/sqlite3_shim.c, with the statements that are prepared on it.
use linen.Base.{ℕ, Bool, true, false, Option, some, none, List, [], ◌∷◌, ℤ}
use linen.Calls.{Code, Exit, ok, error, Prog, done, and_then}
use linen.Calls.Legal.{Legal}
use linen.Sqlite.{Object, sqlite}
use linen.Sqlite.Statement.{Stmt}
use linen.Sqlite.Database.{
  Database, open_db, close_db, errmsg_of, interrupt_db, autocommit, exec_sql, prepare, insert_rowid,
  changes, total_changes, function_created, function_deleted, db_finalizer,
}
use linen.Sqlite.Life.{Any, db_held, stmt_held, StmtOp, stmt_life}

-- what Lean calls on a connection; a statement that is prepared lives its life
pub data DbOp : Type 0 where
  closes asks_errmsg interrupts asks_autocommit asks_rowid asks_changes asks_total : DbOp
  execs : List ℕ → DbOp
  prepares : List ℕ → List StmtOp → DbOp
  creates_function : List ℕ → ℤ → Bool → DbOp
  deletes_function : List ℕ → ℤ → DbOp

abbrev closed : Database → Exit (ℕ × Database) → Database
closed d (ok r) = r.1
closed d (error e) = d

abbrev with_stmt : Database → List StmtOp → Exit (ℕ × Option Stmt) → Prog sqlite Database
with_stmt d os (ok (rc, some s)) = and_then (stmt_life os s) (λ r. done d)
with_stmt d os (ok (rc, none)) = done d
with_stmt d os (error e) = done d

abbrev keep : {A : Type 0} → Database → Code sqlite A → Prog sqlite Database
keep d p = and_then p (λ r. done d)

pub db_code : DbOp → Database → Prog sqlite Database
db_code closes d = and_then (close_db d) (λ r. done (closed d r))
db_code asks_errmsg d = keep d (errmsg_of d)
db_code interrupts d = keep d (interrupt_db d)
db_code asks_autocommit d = keep d (autocommit d)
db_code asks_rowid d = keep d (insert_rowid d)
db_code asks_changes d = keep d (changes d)
db_code asks_total d = keep d (total_changes d)
db_code (execs sql) d = keep d (exec_sql d sql)
db_code (creates_function name n_arg deterministic) d =
    keep d (function_created d name n_arg deterministic)
db_code (deletes_function name n_arg) d = keep d (function_deleted d name n_arg)
db_code (prepares sql os) d = and_then (prepare d sql) (with_stmt d os)

-- The calls on a connection, and then its finalizer, or none where a reference to the handle is never released:
-- the connection that is left.
pub db_life : Bool → List DbOp → Database → Prog sqlite (Option Database)
unfolding db_code
db_life true [] d = and_then (db_finalizer d) (λ r. done none)
db_life false [] d = done (some d)
db_life finalizes (o ∷ os) d = and_then (db_code o d) (λ d'. db_life finalizes os d')

abbrev opened_life : Bool → List DbOp → Exit (ℕ × Database) → Prog sqlite (Option Database)
opened_life finalizes os (ok r) = db_life finalizes os r.1
opened_life finalizes os (error e) = done none

-- a connection from its opening to its finalizer, or without one
pub connection : Bool → List ℕ → List DbOp → Prog sqlite (Option Database)
unfolding db_life
connection finalizes path os = and_then (open_db path) (opened_life finalizes os)

-- what is left: nothing, or the wrapper, and the connection where it is not closed
abbrev pub left : Option Database → List Object
left none = []
left (some d) = db_held d

abbrev Passes : Database → Prog sqlite Database → Type 0
Passes d p = Legal sqlite Any (λ d'. db_held d') (db_held d) p

-- what is held when a statement has been prepared, or not
abbrev prepared_held : Database → Exit (ℕ × Option Stmt) → List Object
prepared_held d (ok (rc, s)) = stmt_held s (db_held d)
prepared_held d (error e) = db_held d

abbrev opened_held : Exit (ℕ × Database) → List Object
opened_held (ok r) = db_held r.1
opened_held (error e) = []
