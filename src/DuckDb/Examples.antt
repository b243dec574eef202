-- ===== src/DuckDb/Examples.antt =====
-- Runs of ffi/duckdb_shim.c: an appender of a query, a read, vectors, dates and closures.
use linen.Base.{
  ltb, if◌then◌else◌, ℤ, pos, negsuc, ℕ, suc, ◌+◌, ◌*◌, ◌/◌, ◌%◌, ◌^◌, ◌<◌, ◌≡◌, refl, ap, ◌≢◌,
  Bool, true, false, none, some, List, [], ◌∷◌, arith,
}
use linen.Calls.{Library, run}
use linen.DuckDb.Api.{
  Handle, Call, makes, states, counts, lends, gives, borrows, acts, query_progress, reads,
  stored_err, stored_index, stored_scope, stored_flag, Reply, duckdb,
}
use linen.DuckDb.Closures.{Use, sets, destroys, writes, calls}
use linen.DuckDb.Data.{copied, get_data_bytes, set_data_bytes}
use linen.DuckDb.Data.Elements.{of_int32, get, set, get-set, get-set_data_bytes}
use linen.DuckDb.Dates.{
  DateStruct, TimeStruct, Conversions, from_date, to_date, is_finite_date, from_time,
  from_timestamp, is_finite_timestamp,
}
use linen.DuckDb.Files.{buffer_size, file_handle_read}
use linen.DuckDb.Passing.{bound-appended, as_int16, value_of, native_of, appended-signed}
use linen.DuckDb.Reading.{IsRead, file_handle_read-IsRead}
use linen.DuckDb.RoundTrip.{
  IsInt, IsTime, Documented, to_date-from_date, day_time_of, to_time-from_time, stamp_of,
  to_timestamp-from_timestamp,
}
use linen.DuckDb.Steps.Step.{Step, calls_appender_create_query}
use linen.DuckDb.Values.{interval, plain, unsigned, appended, bound}

abbrev answer : (c : Call) → Reply c
answer (makes f given) = tt
answer (states f given) = 0
answer (counts f given) = 3
answer (lends f given) = none
answer (gives f given) = 7 ∷ []
answer (borrows f given) = true
answer (acts f given) = tt
answer (query_progress given) = record { percentage = 0; rows_processed = 1; total_rows = 2 }
answer (reads b n given) = (3, 1 ∷ 2 ∷ 3 ∷ 4 ∷ [])
answer stored_err = 7 ∷ []
answer stored_index = 1
answer stored_scope = 0
answer stored_flag = (none, none)
answer _ = tt

-- the first two calls succeed, and nothing is made after them
abbrev runs_out : Library duckdb ℕ
runs_out = record {
  makes = λ o c w. (if ltb w 2 then some (answer c) else none, suc w);
  answers = λ c w. (answer c, suc w);
}

abbrev open_handle : Handle
open_handle = record { live = true }

-- an appender of a query with two types, and with names for which there is memory
abbrev creates : Step
creates =
    calls_appender_create_query open_handle (65 ∷ []) (open_handle ∷ open_handle ∷ []) none
      (some ((66 ∷ []) ∷ []))

file_handle_read-IsRead_example :
    IsRead (buffer_size 10) (run runs_out (file_handle_read open_handle 10) 0).0
file_handle_read-IsRead_example = file_handle_read-IsRead runs_out open_handle 10 0

abbrev zeros : List ℕ
zeros = 0 ∷ 0 ∷ 0 ∷ 0 ∷ 0 ∷ 0 ∷ 0 ∷ 0 ∷ []

get-set_example :
    (e : List ℕ) × (set of_int32 (some zeros) 1 4294967295 ≡ some (some e))
    × (get of_int32 (some e) 1 ≡ some 4294967295)
    × ((j : ℕ) → j ≢ 1 → get of_int32 (some e) j ≡ get of_int32 (some zeros) j)
get-set_example = get-set of_int32 zeros 1 4294967295 (omega arith) (omega arith)

get-set_data_bytes_example :
    (e : List ℕ) × (set_data_bytes (some zeros) 3 (9 ∷ 8 ∷ []) ≡ some (some e))
    × (get_data_bytes (some e) 3 2 ≡ some (copied (9 ∷ 8 ∷ [])))
get-set_data_bytes_example = get-set_data_bytes zeros 3 9 (8 ∷ []) (omega arith)

-- Conversions that keep a date in its year, and a timestamp of less than 2^31 microseconds too; the others give
-- zero.
abbrev year_of : ℤ → DateStruct
year_of z = record { year = z; month = pos 1; day = pos 1 }

abbrev midnight : TimeStruct
midnight = record { hour = pos 0; min = pos 0; sec = pos 0; micros = pos 0 }

abbrev clock_of : ℤ → TimeStruct
clock_of (pos n) = record {
  hour = pos (n / 3_600_000_000);
  min = pos (n / 60_000_000 % 60);
  sec = pos (n / 1_000_000 % 60);
  micros = pos (n % 1_000_000);
}
clock_of (negsuc n) = midnight

abbrev size_of : ℤ → ℕ
size_of (pos n) = n
size_of (negsuc n) = 0

abbrev micros_of : TimeStruct → ℤ
micros_of t = pos (
    size_of t.hour * 3_600_000_000
    + size_of t.min * 60_000_000
    + size_of t.sec * 1_000_000
    + size_of t.micros)

abbrev is_small : ℤ → Bool
is_small (pos n) = ltb n (2 ^ 31)
is_small (negsuc n) = false

abbrev years : Conversions
years = record {
  duckdb_from_date = year_of;
  duckdb_to_date = λ d. d.year;
  duckdb_is_finite_date = λ d. true;
  duckdb_from_time = clock_of;
  duckdb_to_time = micros_of;
  duckdb_create_time_tz = λ t o. 0;
  duckdb_from_time_tz = λ b. (midnight, pos 0);
  duckdb_from_timestamp = λ t. (year_of t, midnight);
  duckdb_to_timestamp = λ s. s.0.year;
  duckdb_is_finite_timestamp = is_small;
  duckdb_is_finite_timestamp_s = λ t. true;
  duckdb_is_finite_timestamp_ms = λ t. true;
  duckdb_is_finite_timestamp_ns = λ t. true;
  duckdb_hugeint_to_double = λ l u. 0;
  duckdb_double_to_hugeint = λ x. (0, pos 0);
  duckdb_uhugeint_to_double = λ l u. 0;
  duckdb_double_to_uhugeint = λ x. (0, 0);
  duckdb_double_to_decimal = λ x w s. record { width = w; scale = s; lower = 0; upper = pos 0 };
  duckdb_decimal_to_double = λ d. 0;
}

small-IsInt : (t : ℤ) → is_small t ≡ true → IsInt 32 t
small-IsInt (pos n) h = ground arith
small-IsInt (negsuc n) h = ground arith

clock_of-IsTime : (n : ℕ) → n < 86_400_000_000 → IsTime (clock_of (pos n))
clock_of-IsTime n small = (omega arith, omega arith, omega arith, omega arith)

years-Documented : Documented years
years-Documented = record {
  date_fields = λ d e h. (h, omega arith, omega arith);
  date_back = λ d e h. refl;
  time_fields = clock_of-IsTime;
  time_back = λ n h. ap pos (omega arith);
  stamp_fields = λ t e h. (
    (small-IsInt t e, omega arith, omega arith),
    (omega arith, omega arith, omega arith, omega arith),
  );
  stamp_back = λ t e h. refl;
}

to_date-from_date_example :
    to_date years
      (from_date years 4294967290).0
      (from_date years 4294967290).1
      (from_date years 4294967290).2
    ≡ 4294967290
unfolding is_finite_date
to_date-from_date_example = to_date-from_date years years-Documented 4294967290 (omega arith) refl

to_time-from_time_example : day_time_of years (from_time years 45_296_000_007) ≡ 45_296_000_007
to_time-from_time_example = to_time-from_time years years-Documented 45_296_000_007 (omega arith)

to_timestamp-from_timestamp_example : stamp_of years (from_timestamp years 77) ≡ 77
unfolding is_finite_timestamp
to_timestamp-from_timestamp_example =
    to_timestamp-from_timestamp years years-Documented 77 (omega arith) refl

appended-signed_example :
    (appended (value_of as_int16 (unsigned 16 (negsuc 4))) ≡ native_of as_int16 (negsuc 4))
    × (bound (plain (value_of as_int16 (unsigned 16 (negsuc 4)))) ≡ native_of as_int16 (negsuc 4))
appended-signed_example = appended-signed as_int16 (negsuc 4) (omega arith)

bound-appended_example : bound (plain (interval 1 2 3)) ≡ appended (interval 1 2 3)
bound-appended_example = bound-appended (interval 1 2 3)

-- a call that lacks memory, and a closure that is set after the handle is destroyed
abbrev uses : List Use
uses = sets ∷ calls true false ∷ writes ∷ destroys ∷ sets ∷ []
