-- ===== src/DuckDb/Data/Elements.antt =====
-- Elements that ffi/duckdb_shim.c writes into a vector are read back as they were written.
use linen.Base.{
  ltb, Bool-cases, length, ℕ, suc, ◌+◌, ◌*◌, ◌^◌, ◌≤◌, ◌<◌, ◌≡◌, sym, ap, ◌∙◌, subst, ◌≢◌, inl, inr,
  Option, some, List, ◌∷◌, arith,
}
use linen.DuckDb.Data.{
  Memory, load, copied, copied_of, get_data_bytes, stored_of, set_data_bytes, le_bytes,
  number_of_bytes, element, set_element, recast, mapped_number, vector_get_int32, vector_set_int32,
  vector_get_int64, vector_set_int64, vector_get_double, vector_set_double, bit, vector_get_bool,
  vector_set_bool,
}
use linen.DuckDb.Data.Bytes.{Apart, store-Stored, length-le_bytes, of_le-le_bytes}
use native.Mathlib.Nat.{suc-mul, mul-le-mul_right}

-- the elements of a vector: their size, and how their values are read and written
pub data Element : Type 0 where
  of_int32 of_int64 of_double of_bool : Element

abbrev pub width : Element → ℕ
width of_int32 = 4
width of_bool = 1
width _ = 8

-- the words that are values of an element
abbrev pub IsValue : Element → ℕ → Type 0
IsValue of_int32 v = v < 2 ^ 32
IsValue of_bool v = v < 2
IsValue _ v = v < 2 ^ 64

abbrev pub get : Element → Memory → ℕ → Option ℕ
get of_int32 m i = vector_get_int32 m i
get of_int64 m i = vector_get_int64 m i
get of_double m i = vector_get_double m i
get of_bool m i = vector_get_bool m i

abbrev pub set : Element → Memory → ℕ → ℕ → Option Memory
set of_int32 m i v = vector_set_int32 m i v
set of_int64 m i v = vector_set_int64 m i v
set of_double m i v = vector_set_double m i v
set of_bool m i v = vector_set_bool m i v

recast32 : (v : ℕ) → v < 2 ^ 32 → recast 32 v ≡ v
recast32 v small = ground arith

recast64 : (v : ℕ) → v < 2 ^ 64 → recast 64 v ≡ v
recast64 v small = ground arith

bit_lem : (v : ℕ) → v < 2 → bit v ≡ v
bit_lem v small = ground arith

beyond : (w : ℕ) {i j : ℕ} → i < j → i * w + w ≤ j * w
beyond w {i} {j} h = subst (λ n. n ≤ j * w) (suc-mul i w) (mul-le-mul_right w h)

-- Different elements do not meet.
apart : (w i j : ℕ) → j ≢ i → Apart (i * w) w (j * w) w
apart w i j other = elim (Bool-cases (ltb i j)) [
  | inl below ↦ inl (beyond w (ground arith))
  | inr above ↦ inr (beyond w (ground arith))
]

-- what is read after an element was written
element-set :
    (w : ℕ) (d : List ℕ) (i v : ℕ)
    → i * w + w ≤ length d
    → v < 256 ^ w
    → (e : List ℕ) × (set_element w (some d) i v ≡ some (some e))
      × (element w (some e) i ≡ some v)
      × ((j : ℕ) → j ≢ i → element w (some e) j ≡ element w (some d) j)
element-set w d i v fit small =
    let len = length-le_bytes w v in
    let s = store-Stored (i * w) (le_bytes w v) d (rw len fit) in
    (
      s.bytes,
      ap stored_of s.stores,
      ap number_of_bytes (subst (λ n. load (i * w) n s.bytes ≡ some (le_bytes w v)) len s.loads)
          ∙ ap some (of_le-le_bytes w v small),
      λ j other. ap number_of_bytes (
          s.keeps (j * w) w (subst (λ n. Apart (i * w) n (j * w) w) (sym len) (apart w i j other))),
    )

-- The same of values that are converted on both ways.
element-set_as :
    (w : ℕ) (f : ℕ → ℕ) (d : List ℕ) (i v : ℕ)
    → f v ≡ v
    → i * w + w ≤ length d
    → v < 256 ^ w
    → (e : List ℕ) × (set_element w (some d) i (f v) ≡ some (some e))
      × (mapped_number f (element w (some e) i) ≡ some v)
      × ((j : ℕ)
          → j ≢ i
          → mapped_number f (element w (some e) j) ≡ mapped_number f (element w (some d) j))
element-set_as w f d i v same_value fit small =
    let (e, sets, gets_back, others) = element-set w d i v fit small in
    (
      e,
      ap (λ x. set_element w (some d) i x) same_value ∙ sets,
      ap (mapped_number f) gets_back ∙ ap some same_value,
      λ j other. ap (mapped_number f) (others j other),
    )

-- An element that fits is written, and is read back as it was written, with every other element as it was: for
-- the signed numbers of 32 and 64 bits, the doubles and the Booleans of a vector.
pub get-set :
    (t : Element) (d : List ℕ) (i v : ℕ)
    → i * width t + width t ≤ length d
    → IsValue t v
    → (e : List ℕ) × (set t (some d) i v ≡ some (some e))
      × (get t (some e) i ≡ some v)
      × ((j : ℕ) → j ≢ i → get t (some e) j ≡ get t (some d) j)
unfolding vector_get_int32 vector_set_int32 vector_get_int64 vector_set_int64 vector_get_double
    vector_set_double vector_get_bool vector_set_bool
get-set of_int32 d i v fit small = element-set_as 4 (recast 32) d i v (recast32 v small) fit small
get-set of_int64 d i v fit small = element-set_as 8 (recast 64) d i v (recast64 v small) fit small
get-set of_double d i v fit small = element-set 8 d i v fit small
get-set of_bool d i v fit small = element-set_as 1 bit d i v (bit_lem v small) fit (ground arith)

-- The bytes that were copied into a vector are those that are copied out of it again, from the same place.
pub get-set_data_bytes :
    (d : List ℕ) (o : ℕ) (x : ℕ) (xs : List ℕ)
    → o + suc (length xs) ≤ length d
    → (e : List ℕ) × (set_data_bytes (some d) o (x ∷ xs) ≡ some (some e))
      × (get_data_bytes (some e) o (suc (length xs)) ≡ some (copied (x ∷ xs)))
unfolding get_data_bytes set_data_bytes
get-set_data_bytes d o x xs fit =
    let s = store-Stored o (x ∷ xs) d fit in (s.bytes, ap stored_of s.stores, ap copied_of s.loads)
