-- ===== src/DuckDb/Strings.antt =====
-- The 16 bytes of a `duckdb_string_t`, as ffi/duckdb_shim.c gets them from Lean. DuckDB's functions on them are
-- parameters.
use linen.Base.{
  ◌==◌, if◌then◌else◌, length, take, replicate, ℕ, ◌%◌, ◌^◌, Bool, Option, none, some, List, [],
}

-- the bytes of a string that DuckDB's accessors read, or NULL for where they are
pub record Accessors : Type 0 where
  pub duckdb_string_is_inlined : List ℕ → Bool
  pub duckdb_string_t_length : List ℕ → ℕ
  pub duckdb_string_t_data : List ℕ → Option (List ℕ)

-- the image of a string, all zero for an array of another size
unfoldable pub unpack_string_t : List ℕ → List ℕ
unpack_string_t bytes = if length bytes == 16 then bytes else replicate 16 0

abbrev pub bytes_at : Option (List ℕ) → ℕ → List ℕ
bytes_at none n = []
bytes_at (some bs) n = take n bs

module _ (lib : Accessors) where
  unfoldable pub string_is_inlined : List ℕ → Bool
  string_is_inlined bytes = lib.duckdb_string_is_inlined (unpack_string_t bytes)

  unfoldable pub string_t_length : List ℕ → ℕ
  string_t_length bytes = lib.duckdb_string_t_length (unpack_string_t bytes) % 2 ^ 32

  unfoldable pub string_t_data : List ℕ → List ℕ
  string_t_data bytes =
      let s = unpack_string_t bytes in
      bytes_at (lib.duckdb_string_t_data s) (lib.duckdb_string_t_length s % 2 ^ 32)
