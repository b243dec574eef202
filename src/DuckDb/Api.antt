-- ===== src/DuckDb/Api.antt =====
-- DuckDB and malloc, as ffi/duckdb_shim.c calls them: the library of its programs.
--
-- A call that answers and stores a pointer is two events: the call, and the object that it stored, or not.
use linen.Base.{ℕ, suc, Bool, true, false, ◌&&◌, Option, List, [], ◌∷◌, String, ◌==◌}
use linen.Calls.{Api, Code, done, message, error}
use linen.DuckDb.Functions.{Maker, Stateful, Numeric, Lent, Given, Borrower, Silent}

-- the kinds of handles
pub data Kind : Type 0 where
  database connection instance_cache client_context arrow_options value : Kind
  appender prepared_statement data_chunk vector logical_type config config_option error_data : Kind
  catalog catalog_entry result file_system file_open_options file_handle log_storage : Kind
  raw_memory scalar_function scalar_function_set borrowed_data_chunk validity_mask : Kind

-- where an object of a function comes from: it is new, or that of an argument
pub data Place : Type 0 where
  fresh : Place
  argument : ℕ → Place

-- what DuckDB made, its wrapper, the text of an error, a text that DuckDB made, arrays of types and of names,
-- and the buffer of a read
pub data Object : Type 0 where
  native wrapper : Kind → Place → Object
  err_text text types_array names_array buffer : Object

-- `linen_duckdb_database_t` and the others: whether the pointer in it is not NULL
pub record Handle : Type 0 where
  pub live : Bool

-- a handle that a function gets
pub record Arg : Type 0 where
  pub kind : Kind
  pub handle : Handle

-- progress of a query: the percentage as the bits of a double, and the rows
pub record Progress : Type 0 where
  pub percentage : ℕ
  pub rows_processed : ℕ
  pub total_rows : ℕ

pub data Call : Type 0 where
  -- functions of DuckDB, with the pointers of the handles that they get
  makes : Maker → List Arg → Call
  states : Stateful → List Arg → Call
  counts : Numeric → List Arg → Call
  lends : Lent → List Arg → Call
  gives : Given → List Arg → Call
  borrows : Borrower → List Arg → Call
  acts : Silent → List Arg → Call
  query_progress : List Arg → Call
  -- a read of so many bytes into the buffer, or into NULL: its number, and the bytes
  reads : Bool → ℕ → List Arg → Call
  -- what the call before stored: a pointer, an error's text, a number and two texts
  stored : Kind → Call
  stored_err stored_index stored_scope stored_flag : Call
  malloc_wrapper : Kind → Call
  calloc malloc : ℕ → Call

abbrev pub Reply : Call → Type 0
Reply (makes f given) = Unit {0}
Reply (states f given) = ℕ
Reply (counts f given) = ℕ
Reply (lends f given) = Option (List ℕ)
Reply (gives f given) = List ℕ
Reply (borrows f given) = Bool
Reply (acts f given) = Unit {0}
Reply (query_progress given) = Progress
Reply (reads b n given) = ℕ × List ℕ
Reply stored_err = List ℕ
Reply stored_index = ℕ
Reply stored_scope = ℕ
Reply stored_flag = Option (List ℕ) × Option (List ℕ)
Reply _ = Unit {0}

-- A vector, a borrowed chunk and a mask belong to something else.
abbrev pub owns : Kind → Bool
owns vector = false
owns borrowed_data_chunk = false
owns validity_mask = false
owns _ = true

abbrev pub held_if : Bool → Object → List Object → List Object
held_if true o rest = o ∷ rest
held_if false o rest = rest

-- what a handle holds apart from its wrapper
abbrev pub native_held : Kind → Place → Handle → List Object → List Object
native_held k p h rest = held_if (owns k && h.live) (native k p) rest

-- the objects that a function gets with its handles, the first of which is that of the number given
abbrev pub lives_from : ℕ → List Arg → List Object
lives_from i [] = []
lives_from i (a ∷ given) = native_held a.kind (argument i) a.handle (lives_from (suc i) given)

abbrev pub lives : List Arg → List Object
lives = lives_from 0

-- what a call works on
abbrev pub uses : Call → List Object
uses (makes f given) = lives given
uses (states f given) = lives given
uses (counts f given) = lives given
uses (lends f given) = lives given
uses (gives f given) = lives given
uses (borrows f given) = lives given
uses (acts f given) = lives given
uses (query_progress given) = lives given
uses (reads b n given) = lives given
uses _ = []

abbrev pub kind_number : Kind → ℕ
kind_number database = 0
kind_number connection = 1
kind_number instance_cache = 2
kind_number client_context = 3
kind_number arrow_options = 4
kind_number value = 5
kind_number appender = 6
kind_number prepared_statement = 7
kind_number data_chunk = 8
kind_number vector = 9
kind_number logical_type = 10
kind_number config = 11
kind_number config_option = 12
kind_number error_data = 13
kind_number catalog = 14
kind_number catalog_entry = 15
kind_number result = 16
kind_number file_system = 17
kind_number file_open_options = 18
kind_number file_handle = 19
kind_number log_storage = 20
kind_number raw_memory = 21
kind_number scalar_function = 22
kind_number scalar_function_set = 23
kind_number borrowed_data_chunk = 24
kind_number validity_mask = 25

abbrev pub same_place : Place → Place → Bool
same_place fresh fresh = true
same_place (argument i) (argument j) = i == j
same_place _ _ = false

abbrev pub same : Object → Object → Bool
same (native k p) (native l q) = same_place p q && (kind_number k == kind_number l)
same (wrapper k p) (wrapper l q) = same_place p q && (kind_number k == kind_number l)
same err_text err_text = true
same text text = true
same types_array types_array = true
same names_array names_array = true
same buffer buffer = true
same _ _ = false

abbrev pub duckdb : Api
duckdb = record { Object = Object; Call = Call; Reply = Reply; uses = uses; same = same }

abbrev pub fail : {A : Type 0} → String → Code duckdb A
fail m = done (error (message m))
