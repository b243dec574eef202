-- ===== src/Sqlite.antt =====
-- ffi/sqlite3_shim.c: connections, statements and functions of SQLite.
--
-- SQLite and malloc are the library. A call that answers with an int and stores a pointer is two
-- events: the call with its int, and the object that is made, or not. The NULL pointer of a handle
-- that is closed is handed to SQLite where the code does so: the Boolean of a call says that the
-- pointer is not NULL.
pub mod Statement
pub mod Database
pub mod Life
pub mod Registration
pub mod Functions
mod Examples
use linen.Base.{
  ℕ, ◌+◌, ◌-◌, ◌%◌, ◌^◌, Bool, true, false, Option, some, none, List, [], ◌∷◌, String, ltb, ◌==◌,
  if◌then◌else◌, ℤ, pos, negsuc,
}
use linen.Calls.{Api, Failure, message, error, Code, done}

-- `wrapper` is a connection's wrapper, `stmt_wrapper` a statement's
pub data Object : Type 0 where
  db wrapper stmt stmt_wrapper errmsg_buf : Object

-- calls on a statement; a double is its bits
pub data StmtCall : Type 0 where
  stmt_step stmt_reset stmt_finalize clear_bindings bind_parameter_count column_count : StmtCall
  bind_parameter_name column_name : ℤ → StmtCall
  bind_parameter_index : List ℕ → StmtCall
  bind_int64 : ℤ → ℤ → StmtCall
  bind_double : ℤ → ℕ → StmtCall
  bind_text bind_blob : ℤ → List ℕ → ℤ → StmtCall
  bind_null column_type column_int64 column_double : ℤ → StmtCall
  column_text column_blob column_bytes : ℤ → StmtCall

-- calls on a connection
pub data DbCall : Type 0 where
  close_v2 errmsg interrupt get_autocommit : DbCall
  exec prepare_v2 : List ℕ → DbCall
  last_insert_rowid changes64 total_changes64 : DbCall
  -- the name, the number of arguments, the flags, and whether there is a closure
  create_function_v2 : List ℕ → ℤ → ℕ → Bool → DbCall

pub data Call : Type 0 where
  on_stmt : Bool → StmtCall → Call
  on_db : Bool → DbCall → Call
  open_v2 : List ℕ → Call
  -- the pointers that `sqlite3_open_v2`, `sqlite3_exec` and `sqlite3_prepare_v2` store
  opened exec_errmsg prepared : Call
  malloc_db malloc_stmt : Call
  -- a Lean array of so many bytes, with what its memory held
  alloc_sarray : ℕ → Call

-- A text or a blob is what can be read at the pointer, none for NULL.
abbrev pub StmtReply : StmtCall → Type 0
StmtReply (bind_parameter_name idx) = Option (List ℕ)
StmtReply (column_name idx) = Option (List ℕ)
StmtReply (column_double idx) = ℕ
StmtReply (column_text idx) = Option (List ℕ)
StmtReply (column_blob idx) = Option (List ℕ)
StmtReply _ = ℤ

abbrev pub DbReply : DbCall → Type 0
DbReply errmsg = Option (List ℕ)
DbReply interrupt = Unit {0}
DbReply _ = ℤ

abbrev pub Reply : Call → Type 0
Reply (on_stmt p c) = StmtReply c
Reply (on_db p c) = DbReply c
Reply (open_v2 path) = ℤ
Reply exec_errmsg = List ℕ
Reply (alloc_sarray n) = List ℕ
Reply _ = Unit {0}

-- what a call works on: the handle, where the pointer is not NULL
abbrev pub uses : Call → List Object
uses (on_stmt true c) = stmt ∷ []
uses (on_db true c) = db ∷ []
uses _ = []

abbrev pub number : Object → ℕ
number db = 0
number wrapper = 1
number stmt = 2
number stmt_wrapper = 3
number errmsg_buf = 4

abbrev pub sqlite : Api
sqlite = record {
  Object = Object;
  Call = Call;
  Reply = Reply;
  uses = uses;
  same = λ a b. number a == number b;
}

-- `lean_io_result_mk_error(lean_mk_io_user_error(lean_mk_string(m)))`
abbrev pub fail : {A : Type 0} → String → Code sqlite A
fail m = done (error (message m))

-- `(uint32_t)` of an int
abbrev pub uint32_of : ℤ → ℕ
uint32_of (pos n) = n % 2 ^ 32
uint32_of (negsuc n) = 2 ^ 32 - 1 - n % 2 ^ 32

-- `(uint64_t)` of an int64
abbrev pub uint64_of : ℤ → ℕ
uint64_of (pos n) = n % 2 ^ 64
uint64_of (negsuc n) = 2 ^ 64 - 1 - n % 2 ^ 64

-- `(int)` of a uint32_t
abbrev pub int_of_uint32 : ℕ → ℤ
int_of_uint32 n = if ltb n (2 ^ 31) then pos n else negsuc (2 ^ 32 - 1 - n)

-- `rc == SQLITE_OK`
abbrev pub is_ok : ℤ → Bool
is_ok (pos n) = n == 0
is_ok (negsuc n) = false

-- `mk_string_or_empty`
abbrev pub string_or_empty : Option (List ℕ) → List ℕ
string_or_empty none = []
string_or_empty (some s) = s
