-- ===== src/DuckDb/Data.antt =====
-- The bytes of a vector in ffi/duckdb_shim.c: reading and writing them, as bytes and as numbers.
--
-- A vector's data is NULL or a list of bytes. Elements lie in it one after the other, their low byte first, as
-- on the machines that the binding is built for. An access outside of the bytes is `none`.
pub mod Bytes
pub mod Elements
use linen.Base.{
  ◌==◌, if◌then◌else◌, ℕ, zero, suc, ◌+◌, ◌*◌, ◌/◌, ◌%◌, Option, none, some, List, [], ◌∷◌,
}
use linen.DuckDb.Values.{signed, unsigned}

-- `duckdb_vector_get_data`
abbrev pub Memory : Type 0
Memory = Option (List ℕ)

abbrev pub cons_some : ℕ → Option (List ℕ) → Option (List ℕ)
cons_some b none = none
cons_some b (some bs) = some (b ∷ bs)

-- `memcpy(result, data + offset, length)`
abbrev pub load : ℕ → ℕ → List ℕ → Option (List ℕ)
load zero zero d = some []
load zero (suc n) [] = none
load zero (suc n) (b ∷ d) = cons_some b (load zero n d)
load (suc o) n [] = none
load (suc o) n (b ∷ d) = load o n d

-- `memcpy(data + offset, bytes, length)`
abbrev pub store : ℕ → List ℕ → List ℕ → Option (List ℕ)
store zero [] d = some d
store zero (x ∷ xs) [] = none
store zero (x ∷ xs) (b ∷ d) = cons_some x (store zero xs d)
store (suc o) xs [] = none
store (suc o) xs (b ∷ d) = cons_some b (store o xs d)

-- A Lean byte array of a length: the bytes that were copied into it, or none where nothing was
pub data Copy : Type 0 where
  copied : List ℕ → Copy
  uninitialized : ℕ → Copy

abbrev pub copied_of : Option (List ℕ) → Option Copy
copied_of none = none
copied_of (some bs) = some (copied bs)

-- `linen_duckdb_vector_get_data_bytes`
unfoldable pub get_data_bytes : Memory → ℕ → ℕ → Option Copy
get_data_bytes m o zero = some (copied [])
get_data_bytes none o (suc n) = some (uninitialized (suc n))
get_data_bytes (some d) o (suc n) = copied_of (load o (suc n) d)

abbrev pub stored_of : Option (List ℕ) → Option Memory
stored_of none = none
stored_of (some d) = some (some d)

-- `linen_duckdb_vector_set_data_bytes`
unfoldable pub set_data_bytes : Memory → ℕ → List ℕ → Option Memory
set_data_bytes m o [] = some m
set_data_bytes none o (x ∷ xs) = some none
set_data_bytes (some d) o (x ∷ xs) = stored_of (store o (x ∷ xs) d)

-- a number of so many bytes
abbrev pub le_bytes : ℕ → ℕ → List ℕ
le_bytes zero v = []
le_bytes (suc w) v = v % 256 ∷ le_bytes w (v / 256)

abbrev pub of_le : List ℕ → ℕ
of_le [] = 0
of_le (b ∷ bs) = b + 256 * of_le bs

abbrev pub number_of_bytes : Option (List ℕ) → Option ℕ
number_of_bytes none = none
number_of_bytes (some bs) = some (of_le bs)

-- `data ? data[idx] : 0` of elements of so many bytes
abbrev pub element : ℕ → Memory → ℕ → Option ℕ
element w none i = some 0
element w (some d) i = number_of_bytes (load (i * w) w d)

-- `if (data) data[idx] = value`
abbrev pub set_element : ℕ → Memory → ℕ → ℕ → Option Memory
set_element w none i v = some none
set_element w (some d) i v = stored_of (store (i * w) (le_bytes w v) d)

-- `(uint32_t)(int32_t)value` and the like
abbrev pub recast : ℕ → ℕ → ℕ
recast w v = unsigned w (signed w v)

abbrev pub mapped_number : (ℕ → ℕ) → Option ℕ → Option ℕ
mapped_number f none = none
mapped_number f (some v) = some (f v)

unfoldable pub vector_get_int32 : Memory → ℕ → Option ℕ
vector_get_int32 m i = mapped_number (recast 32) (element 4 m i)

unfoldable pub vector_set_int32 : Memory → ℕ → ℕ → Option Memory
vector_set_int32 m i v = set_element 4 m i (recast 32 v)

unfoldable pub vector_get_int64 : Memory → ℕ → Option ℕ
vector_get_int64 m i = mapped_number (recast 64) (element 8 m i)

unfoldable pub vector_set_int64 : Memory → ℕ → ℕ → Option Memory
vector_set_int64 m i v = set_element 8 m i (recast 64 v)

-- a double is its bits
unfoldable pub vector_get_double : Memory → ℕ → Option ℕ
vector_get_double m i = element 8 m i

unfoldable pub vector_set_double : Memory → ℕ → ℕ → Option Memory
vector_set_double m i v = set_element 8 m i v

-- `x ? 1 : 0`
abbrev pub bit : ℕ → ℕ
bit v = if v == 0 then 0 else 1

unfoldable pub vector_get_bool : Memory → ℕ → Option ℕ
vector_get_bool m i = mapped_number bit (element 1 m i)

unfoldable pub vector_set_bool : Memory → ℕ → ℕ → Option Memory
vector_set_bool m i v = set_element 1 m i (bit v)
