-- ===== src/DuckDb/Reading.antt =====
-- What a read of a file returns in ffi/duckdb_shim.c.
use linen.Base.{
  ltb, leb, Bool-cases, length, take, length-take, ok, error, ℕ, zero, suc, ◌%◌, ◌^◌, ◌≤◌, ◌<◌, ◌≡◌,
  refl, ◌⊎◌, inl, inr, ◌&&◌, Option, none, some, List, arith,
}
use linen.Calls.{Exit, ok, error, ◌>>=◌, Library, run}
use linen.Calls.Outcomes.{Ends, Ends-run}
use linen.DuckDb.Api.{Handle, duckdb}
use linen.DuckDb.Files.{buffer_size, copy_size, read_buffer, read_into, file_handle_read}

-- The bytes are at most those of the buffer and those of the number, and none where the number is negative.
abbrev pub IsRead : ℕ → Exit (ℕ × List ℕ) → Type 0
IsRead size (ok r) = (length r.1 ≤ size) × (length r.1 ≤ r.0) × ((length r.1 ≡ 0) ⊎ (r.0 < 2 ^ 63))
IsRead size (error e) = Unit {0}

copy_size_bounds :
    (n size : ℕ)
    → (copy_size n size ≤ size) × (copy_size n size ≤ n) × ((copy_size n size ≡ 0) ⊎ (n < 2 ^ 63))
copy_size_bounds n size = elim (Bool-cases (ltb n (2 ^ 63) && leb n size)) [
  | inl fits ↦ rw fits (ground arith)
  | inr other ↦ rw other (omega arith, omega arith, inl refl)
]

length-take_le : (n : ℕ) (bs : List ℕ) → length (take n bs) ≤ n
length-take_le n bs = rw (length-take n bs) (omega arith)

none_or : {a b n : ℕ} → a ≤ b → (b ≡ 0) ⊎ (n < 2 ^ 63) → (a ≡ 0) ⊎ (n < 2 ^ 63)
none_or short (inl e) = inl (omega arith)
none_or short (inr small) = inr small

copied-IsRead : (n size : ℕ) (bs : List ℕ) → IsRead size (ok (n, take (copy_size n size) bs))
copied-IsRead n size bs =
    let short = length-take_le (copy_size n size) bs in
    let (fits, read, sign) = copy_size_bounds n size in
    (omega arith, omega arith, none_or short sign)

read_into-Ends :
    (h : Handle) (size : ℕ) (b : Option (Unit {0}))
    → Ends (λ r es. IsRead (buffer_size size) r) (read_into h size b)
read_into-Ends h size none = λ r. copied-IsRead (r.0 % 2 ^ 64) (buffer_size size) r.1
read_into-Ends h size (some b) = λ r. copied-IsRead (r.0 % 2 ^ 64) (buffer_size size) r.1

read_buffer-Ends :
    (h : Handle) (size n : ℕ)
    → Ends (λ r es. IsRead (buffer_size size) r) (do b ← read_buffer n; read_into h size b)
read_buffer-Ends h size zero = read_into-Ends h size none
read_buffer-Ends h size (suc n) =
    ((λ b. read_into-Ends h size (some b)), read_into-Ends h size none)

-- A read, whatever DuckDB and malloc answer, returns a number and bytes, or an error: the bytes are at most as
-- many as were asked for and as the number says, and there are none where the number stands for a negative one.
pub file_handle_read-IsRead :
    {W : Type 0} (lib : Library duckdb W) (h : Handle) (size : ℕ) (w : W)
    → IsRead (buffer_size size) (run lib (file_handle_read h size) w).0
file_handle_read-IsRead lib h size w =
    Ends-run lib (λ r es. IsRead (buffer_size size) r) (file_handle_read h size) w
      (read_buffer-Ends h size (buffer_size size))
