-- ===== src/Postgres.antt =====
-- ffi/postgres.c: connections and results of PostgreSQL.
--
-- libpq and malloc are the library. The Boolean of a call says that the pointer that it gets is not NULL:
-- the code hands NULL to libpq for a handle that is closed where it does not test for it.
pub mod Connection
pub mod Result
pub mod Getters
pub mod Life
mod Examples
use linen.Base.{
  ℕ, ◌-◌, ◌%◌, ◌^◌, Bool, true, false, Option, some, none, List, [], ◌∷◌, String, ◌==◌, ltb,
  if◌then◌else◌, ℤ, pos, negsuc,
}
use linen.Calls.{Api, Failure, message, described, error, Code, Prog, done, branch}

-- `values` is an array of parameters, `memory` what `PQfreemem` frees
pub data Object : Type 0 where
  conn conn_wrapper result result_wrapper values memory : Object

pub data ConnCall : Type 0 where
  status error_message consume_input transaction_status server_version socket : ConnCall
  db user host port connect_poll is_nonblocking reset : ConnCall
  put_copy_data : List ℕ → ℤ → ConnCall
  put_copy_end : Option (List ℕ) → ConnCall
  setnonblocking : ℕ → ConnCall

pub data ResultCall : Type 0 where
  result_status result_error_message ntuples nfields cmd_tuples : ResultCall
  getvalue getisnull getlength : ℤ → ℤ → ResultCall
  fname ftype fformat : ℤ → ResultCall

pub data Call : Type 0 where
  on_conn : Bool → ConnCall → Call
  on_result : Bool → ResultCall → Call
  connectdb connect_start : List ℕ → Call
  malloc_conn malloc_result : Call
  calloc : ℕ → Call
  exec : List ℕ → Call
  exec_params : List ℕ → ℤ → List (Option (List ℕ)) → Call
  prepare : List ℕ → List ℕ → Call
  exec_prepared : List ℕ → ℤ → List (Option (List ℕ)) → Call
  escape_literal escape_identifier : List ℕ → Call
  notifies : Call
  res_status : ℕ → Call
  alloc_sarray : ℕ → Call

-- a notification: its channel, its payload and the server's process
pub record Notify : Type 0 where
  pub channel : List ℕ
  pub payload : List ℕ
  pub be_pid : ℤ

-- A text is the bytes of a C string, none for NULL.
abbrev pub ConnReply : ConnCall → Type 0
ConnReply error_message = Option (List ℕ)
ConnReply db = Option (List ℕ)
ConnReply user = Option (List ℕ)
ConnReply host = Option (List ℕ)
ConnReply port = Option (List ℕ)
ConnReply reset = Unit {0}
ConnReply _ = ℤ

abbrev pub ResultReply : ResultCall → Type 0
ResultReply result_error_message = Option (List ℕ)
ResultReply cmd_tuples = Option (List ℕ)
ResultReply (getvalue row col) = Option (List ℕ)
ResultReply (fname col) = Option (List ℕ)
ResultReply _ = ℤ

abbrev pub Reply : Call → Type 0
Reply (on_conn p c) = ConnReply c
Reply (on_result p c) = ResultReply c
Reply (escape_literal s) = List ℕ
Reply (escape_identifier s) = List ℕ
Reply notifies = Notify
Reply (res_status n) = Option (List ℕ)
Reply (alloc_sarray n) = List ℕ
Reply _ = Unit {0}

abbrev pub uses : Call → List Object
uses (on_conn true c) = conn ∷ []
uses (on_result true c) = result ∷ []
uses (exec query) = conn ∷ []
uses (exec_params query n []) = conn ∷ []
uses (exec_params query n (p ∷ ps)) = conn ∷ values ∷ []
uses (prepare name query) = conn ∷ []
uses (exec_prepared name n []) = conn ∷ []
uses (exec_prepared name n (p ∷ ps)) = conn ∷ values ∷ []
uses (escape_literal s) = conn ∷ []
uses (escape_identifier s) = conn ∷ []
uses notifies = conn ∷ []
uses _ = []

abbrev pub number : Object → ℕ
number conn = 0
number conn_wrapper = 1
number result = 2
number result_wrapper = 3
number values = 4
number memory = 5

abbrev pub libpq : Api
libpq = record {
  Object = Object;
  Call = Call;
  Reply = Reply;
  uses = uses;
  same = λ a b. number a == number b;
}

-- `mk_pg_io_error`
abbrev pub fail : {A : Type 0} → String → Code libpq A
fail m = done (error (message m))

-- `(uint32_t)`, `(uint8_t)` of an int
abbrev pub word_of : ℕ → ℤ → ℕ
word_of w (pos n) = n % 2 ^ w
word_of w (negsuc n) = 2 ^ w - 1 - n % 2 ^ w

-- `(int)` of a uint32_t
abbrev pub int_of_uint32 : ℕ → ℤ
int_of_uint32 n = if ltb n (2 ^ 31) then pos n else negsuc (2 ^ 32 - 1 - n)

-- `if (!s) s = "";`
abbrev pub text_or_empty : Option (List ℕ) → List ℕ
text_or_empty none = []
text_or_empty (some s) = s
