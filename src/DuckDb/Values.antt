-- ===== src/DuckDb/Values.antt =====
-- Values on the way to DuckDB in ffi/duckdb_shim.c: the words that Lean passes, and the C values made of them.
use linen.Base.{
  ℕ, ◌-◌, ◌%◌, ◌^◌, Bool, not, List, [], ◌∷◌, ltb, ◌==◌, if◌then◌else◌, ℤ, pos, negsuc,
}

-- what a function of DuckDB gets; a float or a double is its bits
pub data Native : Type 0 where
  c_bool : Bool → Native
  c_int8 c_int16 c_int32 c_int64 : ℤ → Native
  c_uint8 c_uint16 c_uint32 c_uint64 c_float c_double : ℕ → Native
  c_hugeint : ℕ → ℤ → Native
  c_uhugeint : ℕ → ℕ → Native
  c_decimal : ℕ → ℕ → ℕ → ℤ → Native
  c_date c_time c_timestamp c_timestamp_tz : ℤ → Native
  c_interval : ℤ → ℤ → ℤ → Native
  c_varchar : List ℕ → Native
  c_varchar_length : List ℕ → ℕ → Native
  c_blob : List ℕ → Native

-- The words and bytes that Lean passes for a value. A signed number is passed as its word.
pub data Value : Type 0 where
  boolean int8 int16 int32 int64 : ℕ → Value
  uint8 uint16 uint32 uint64 float double : ℕ → Value
  hugeint uhugeint : ℕ → ℕ → Value
  date time timestamp : ℕ → Value
  interval : ℕ → ℕ → ℕ → Value
  varchar : List ℕ → Value
  varchar_length : List ℕ → ℕ → Value
  blob : List ℕ → Value

-- the values that only a prepared statement takes
pub data Bound : Type 0 where
  plain : Value → Bound
  decimal : ℕ → ℕ → ℕ → ℕ → Bound
  timestamp_tz : ℕ → Bound

-- `(int8_t)x`, `(int16_t)x`, ... of a word of w bits, in two's complement
abbrev pub signed : ℕ → ℕ → ℤ
signed w x =
    if ltb (x % 2 ^ w) (2 ^ (w - 1)) then pos (x % 2 ^ w) else negsuc (2 ^ w - 1 - x % 2 ^ w)

-- `(uint8_t)z`, `(uint16_t)z`, ... of a signed number
abbrev pub unsigned : ℕ → ℤ → ℕ
unsigned w (pos n) = n % 2 ^ w
unsigned w (negsuc n) = 2 ^ w - 1 - n % 2 ^ w

-- `lean_string_cstr`, as C reads it: up to the first NUL
abbrev pub c_string : List ℕ → List ℕ
c_string [] = []
c_string (b ∷ bs) = let rest = c_string bs in if b == 0 then [] else b ∷ rest

-- the value that `linen_duckdb_append_bool`, ..., `linen_duckdb_append_blob` append
unfoldable pub appended : Value → Native
appended (boolean v) = c_bool (not (v == 0))
appended (int8 v) = c_int8 (signed 8 v)
appended (int16 v) = c_int16 (signed 16 v)
appended (int32 v) = c_int32 (signed 32 v)
appended (int64 v) = c_int64 (signed 64 v)
appended (hugeint lower upper) = c_hugeint lower (signed 64 upper)
appended (uint8 v) = c_uint8 v
appended (uint16 v) = c_uint16 v
appended (uint32 v) = c_uint32 v
appended (uint64 v) = c_uint64 v
appended (uhugeint lower upper) = c_uhugeint lower upper
appended (float v) = c_float v
appended (double v) = c_double v
appended (date days) = c_date (signed 32 days)
appended (time micros) = c_time (signed 64 micros)
appended (timestamp micros) = c_timestamp (signed 64 micros)
appended (interval months days micros) =
    c_interval (signed 32 months) (signed 32 days) (signed 64 micros)
appended (varchar v) = c_varchar (c_string v)
appended (varchar_length v n) = c_varchar_length v n
appended (blob v) = c_blob v

-- the value that `linen_duckdb_bind_boolean`, ..., `linen_duckdb_bind_blob` bind
unfoldable pub bound : Bound → Native
bound (plain (boolean v)) = c_bool (not (v == 0))
bound (plain (int8 v)) = c_int8 (signed 8 v)
bound (plain (int16 v)) = c_int16 (signed 16 v)
bound (plain (int32 v)) = c_int32 (signed 32 v)
bound (plain (int64 v)) = c_int64 (signed 64 v)
bound (plain (hugeint lower upper)) = c_hugeint lower (signed 64 upper)
bound (plain (uhugeint lower upper)) = c_uhugeint lower upper
bound (decimal width scale lower upper) = c_decimal width scale lower (signed 64 upper)
bound (plain (uint8 v)) = c_uint8 v
bound (plain (uint16 v)) = c_uint16 v
bound (plain (uint32 v)) = c_uint32 v
bound (plain (uint64 v)) = c_uint64 v
bound (plain (float v)) = c_float v
bound (plain (double v)) = c_double v
bound (plain (date days)) = c_date (signed 32 days)
bound (plain (time micros)) = c_time (signed 64 micros)
bound (plain (timestamp micros)) = c_timestamp (signed 64 micros)
bound (timestamp_tz micros) = c_timestamp_tz (signed 64 micros)
bound (plain (interval months days micros)) =
    c_interval (signed 32 months) (signed 32 days) (signed 64 micros)
bound (plain (varchar v)) = c_varchar (c_string v)
bound (plain (varchar_length v n)) = c_varchar_length v n
bound (plain (blob v)) = c_blob v
