-- ===== src/DuckDb/Passing.antt =====
-- What DuckDB gets of the values that Lean passes in ffi/duckdb_shim.c.
use linen.Base.{◌==◌, ℤ, pos, negsuc, ℕ, ◌≡◌, refl, ap, false, List, [], ◌∷◌, ◌++◌, arith}
use linen.DuckDb.RoundTrip.{IsInt, signed-unsigned8, signed-unsigned32, signed-unsigned64}
use linen.DuckDb.Values.{
  Native, c_int8, c_int16, c_int32, c_int64, c_date, c_time, c_timestamp, c_varchar, Value, int8,
  int16, int32, int64, date, time, timestamp, varchar, plain, signed, unsigned, c_string, appended,
  bound,
}

-- A value is bound as it is appended.
pub bound-appended : (v : Value) → bound (plain v) ≡ appended v
unfolding bound appended
bound-appended _ = refl

-- the values that are one signed number
pub data Signed : Type 0 where
  as_int8 as_int16 as_int32 as_int64 as_date as_time as_timestamp : Signed

abbrev pub bits : Signed → ℕ
bits as_int8 = 8
bits as_int16 = 16
bits as_int32 = 32
bits as_date = 32
bits _ = 64

-- the value of a word
abbrev pub value_of : Signed → ℕ → Value
value_of as_int8 v = int8 v
value_of as_int16 v = int16 v
value_of as_int32 v = int32 v
value_of as_int64 v = int64 v
value_of as_date v = date v
value_of as_time v = time v
value_of as_timestamp v = timestamp v

-- the number as DuckDB gets it
abbrev pub native_of : Signed → ℤ → Native
native_of as_int8 z = c_int8 z
native_of as_int16 z = c_int16 z
native_of as_int32 z = c_int32 z
native_of as_int64 z = c_int64 z
native_of as_date z = c_date z
native_of as_time z = c_time z
native_of as_timestamp z = c_timestamp z

signed-unsigned16 : (z : ℤ) → IsInt 16 z → signed 16 (unsigned 16 z) ≡ z
signed-unsigned16 (pos n) h = ground arith
signed-unsigned16 (negsuc n) h = ground arith

-- A signed number, a date, a time or a timestamp that is in the range of its type reaches DuckDB unchanged, sign
-- included, where it is appended and where it is bound.
pub appended-signed :
    (k : Signed) (z : ℤ)
    → IsInt (bits k) z
    → (appended (value_of k (unsigned (bits k) z)) ≡ native_of k z)
      × (bound (plain (value_of k (unsigned (bits k) z))) ≡ native_of k z)
unfolding bound appended
appended-signed as_int8 z h = let e = signed-unsigned8 z h in (ap c_int8 e, ap c_int8 e)
appended-signed as_int16 z h = let e = signed-unsigned16 z h in (ap c_int16 e, ap c_int16 e)
appended-signed as_int32 z h = let e = signed-unsigned32 z h in (ap c_int32 e, ap c_int32 e)
appended-signed as_int64 z h = let e = signed-unsigned64 z h in (ap c_int64 e, ap c_int64 e)
appended-signed as_date z h = let e = signed-unsigned32 z h in (ap c_date e, ap c_date e)
appended-signed as_time z h = let e = signed-unsigned64 z h in (ap c_time e, ap c_time e)
appended-signed as_timestamp z h =
    let e = signed-unsigned64 z h in (ap c_timestamp e, ap c_timestamp e)

-- bytes without a NUL
abbrev pub NoNul : List ℕ → Type 0
NoNul [] = Unit {0}
NoNul (b ∷ bs) = ((b == 0) ≡ false) × NoNul bs

c_string-cuts : (xs ys : List ℕ) → NoNul xs → c_string (xs ++ 0 ∷ ys) ≡ xs
c_string-cuts [] ys h = refl
c_string-cuts (x ∷ xs) ys h = rw (h.0, c_string-cuts xs ys h.1) refl

-- A text with a NUL in it is appended and bound without the NUL and all that follows it.
varchar-cuts :
    (xs ys : List ℕ)
    → NoNul xs
    → (appended (varchar (xs ++ 0 ∷ ys)) ≡ c_varchar xs)
      × (bound (plain (varchar (xs ++ 0 ∷ ys))) ≡ c_varchar xs)
unfolding bound appended
varchar-cuts xs ys h = let e = c_string-cuts xs ys h in (ap c_varchar e, ap c_varchar e)
