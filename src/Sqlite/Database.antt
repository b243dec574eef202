-- ===== src/Sqlite/Database.antt =====
-- The connections of ffi/sqlite3_shim.c (`linen_sqlite3_db_t`).
use linen.Base.{ℕ, ◌+◌, Bool, true, false, Option, some, none, List, [], ltb, ℤ, pos, negsuc}
use linen.Calls.{Code, branch, ◌>>=◌, ◌>>◌, pure, ask, make, make_or, free, when}
use linen.Sqlite.{
  db, wrapper, stmt, stmt_wrapper, errmsg_buf, close_v2, errmsg, interrupt, get_autocommit, exec,
  prepare_v2, last_insert_rowid, changes64, total_changes64, create_function_v2, on_db, on_stmt,
  stmt_finalize, open_v2, opened, exec_errmsg, prepared, malloc_db, malloc_stmt, sqlite, fail,
  is_ok, uint32_of, uint64_of, string_or_empty,
}
use linen.Sqlite.Statement.{Stmt}

-- `linen_sqlite3_db_t`: whether `db` is not NULL
pub record Database : Type 0 where
  pub db_open : Bool

-- `linen_sqlite3_open` with `mk_sqlite3_db`
unfoldable pub open_db : List ℕ → Code sqlite (ℕ × Database)
open_db path = do
  rc ← ask (open_v2 path)
  make_or db opened (fail "sqlite3_open_v2 returned NULL")
  make_or wrapper malloc_db
      (do ask (on_db true close_v2); free db; fail "malloc failed for sqlite3 wrapper")
  pure (uint32_of rc, record { db_open = true })

-- `linen_sqlite3_close`
unfoldable pub close_db : Database → Code sqlite (ℕ × Database)
close_db d =
    branch d.db_open
      (do
        rc ← ask (on_db true close_v2)
        branch (is_ok rc) (do free db; pure (uint32_of rc, record { db_open = false }))
            (pure (uint32_of rc, d)))
      (pure (0, d))

-- `linen_sqlite3_errmsg`
unfoldable pub errmsg_of : Database → Code sqlite (List ℕ)
errmsg_of d = branch d.db_open (do m ← ask (on_db true errmsg); pure (string_or_empty m)) (pure [])

-- `linen_sqlite3_interrupt`
unfoldable pub interrupt_db : Database → Code sqlite (Unit {0})
interrupt_db d = when d.db_open (ask (on_db true interrupt))

-- `ac != 0`
abbrev pub nonzero : ℤ → Bool
nonzero (pos n) = ltb 0 n
nonzero (negsuc n) = true

-- `linen_sqlite3_get_autocommit`
unfoldable pub autocommit : Database → Code sqlite Bool
autocommit d =
    branch d.db_open (do ac ← ask (on_db true get_autocommit); pure (nonzero ac)) (pure true)

-- `if (errmsg) sqlite3_free(errmsg);`, after the text is copied
abbrev pub copy_errmsg : Option (List ℕ) → Code sqlite (List ℕ)
copy_errmsg none = pure []
copy_errmsg (some m) = do free errmsg_buf; pure m

-- `linen_sqlite3_exec`
unfoldable pub exec_sql : Database → List ℕ → Code sqlite (ℕ × List ℕ)
exec_sql d sql = do
  rc ← ask (on_db d.db_open (exec sql))
  m ← make errmsg_buf exec_errmsg
  text ← copy_errmsg m
  pure (uint32_of rc, text)

-- the statement that was prepared, if any, in its wrapper
abbrev pub wrap_stmt : ℕ → Option (Unit {0}) → Code sqlite (ℕ × Option Stmt)
wrap_stmt rc none = pure (rc, none)
wrap_stmt rc (some s) = do
  make_or stmt_wrapper malloc_stmt (do
    ask (on_stmt true stmt_finalize)
    free stmt
    fail "malloc failed for sqlite3_stmt wrapper")
  pure (rc, some (record { stmt_open = true }))

-- `linen_sqlite3_prepare` with `mk_sqlite3_stmt`
unfoldable pub prepare : Database → List ℕ → Code sqlite (ℕ × Option Stmt)
prepare d sql = do
  rc ← ask (on_db d.db_open (prepare_v2 sql))
  s ← make stmt prepared
  wrap_stmt (uint32_of rc) s

-- `linen_sqlite3_last_insert_rowid`
unfoldable pub insert_rowid : Database → Code sqlite ℕ
insert_rowid d =
    branch d.db_open (do n ← ask (on_db true last_insert_rowid); pure (uint64_of n)) (pure 0)

-- `linen_sqlite3_changes`
unfoldable pub changes : Database → Code sqlite ℕ
changes d = branch d.db_open (do n ← ask (on_db true changes64); pure (uint64_of n)) (pure 0)

-- `linen_sqlite3_total_changes`
unfoldable pub total_changes : Database → Code sqlite ℕ
total_changes d =
    branch d.db_open (do n ← ask (on_db true total_changes64); pure (uint64_of n)) (pure 0)

-- `SQLITE_UTF8 | (deterministic ? SQLITE_DETERMINISTIC : 0)`
abbrev pub text_rep : Bool → ℕ
text_rep true = 1 + 2048
text_rep false = 1

-- The calls of SQLite in `linen_sqlite3_create_function` and `linen_sqlite3_delete_function`, with or without a
-- closure; Registration has the references to the closure.
abbrev pub register : Database → List ℕ → ℤ → ℕ → Bool → Code sqlite ℕ
register d name n_arg flags has_closure = do
  rc ← ask (on_db d.db_open (create_function_v2 name n_arg flags has_closure))
  pure (uint32_of rc)

-- `linen_sqlite3_create_function`
unfoldable pub function_created : Database → List ℕ → ℤ → Bool → Code sqlite ℕ
function_created d name n_arg deterministic = register d name n_arg (text_rep deterministic) true

-- `linen_sqlite3_delete_function`
unfoldable pub function_deleted : Database → List ℕ → ℤ → Code sqlite ℕ
function_deleted d name n_arg = register d name n_arg (text_rep false) false

-- `linen_sqlite3_db_finalizer`
unfoldable pub db_finalizer : Database → Code sqlite (Unit {0})
db_finalizer d = do when d.db_open (do ask (on_db true close_v2); free db); free wrapper
