-- ===== src/DuckDb/Files.antt =====
-- File systems and files in ffi/duckdb_shim.c.
use linen.Base.{
  ltb, leb, ◌==◌, if◌then◌else◌, take, ℕ, zero, suc, ◌%◌, ◌^◌, not, ◌&&◌, Option, none, some, List,
  [],
}
use linen.Calls.{Code, ◌>>=◌, ◌>>◌, pure, make, free, ask}
use linen.DuckDb.Api.{
  client_context, error_data, file_system, file_open_options, file_handle, buffer, Handle, reads,
  malloc, duckdb,
}
use linen.DuckDb.Functions.{
  duckdb_client_context_get_file_system, duckdb_file_system_error_data,
  duckdb_create_file_open_options, duckdb_file_handle_error_data, duckdb_file_open_options_set_flag,
  duckdb_file_system_open, duckdb_file_handle_seek, duckdb_file_handle_sync,
  duckdb_file_handle_close, duckdb_file_handle_tell, duckdb_file_handle_size,
  duckdb_file_handle_write,
}
use linen.DuckDb.Handles.{destroy, one, two, is_made, gets, opens, state_of, number_of}

abbrev pub client_context_get_file_system : Handle → Code duckdb Handle
client_context_get_file_system x =
    gets file_system duckdb_client_context_get_file_system (one client_context x)
      "malloc failed for duckdb_file_system wrapper"

abbrev pub destroy_file_system : Handle → Code duckdb Handle
destroy_file_system f = destroy file_system f

abbrev pub file_system_error_data : Handle → Code duckdb Handle
file_system_error_data f =
    gets error_data duckdb_file_system_error_data (one file_system f)
      "malloc failed for duckdb_error_data wrapper"

abbrev pub create_file_open_options : Code duckdb Handle
create_file_open_options =
    gets file_open_options duckdb_create_file_open_options []
      "malloc failed for duckdb_file_open_options wrapper"

abbrev pub file_open_options_set_flag : Handle → ℕ → ℕ → Code duckdb ℕ
file_open_options_set_flag o flag v =
    state_of (duckdb_file_open_options_set_flag flag (not (v == 0))) (one file_open_options o)

abbrev pub destroy_file_open_options : Handle → Code duckdb Handle
destroy_file_open_options o = destroy file_open_options o

abbrev pub file_system_open : Handle → List ℕ → Handle → Code duckdb (ℕ × Option (Option Handle))
file_system_open f path o =
    opens file_handle (duckdb_file_system_open path) (two file_system f file_open_options o)

abbrev pub destroy_file_handle : Handle → Code duckdb Handle
destroy_file_handle h = destroy file_handle h

abbrev pub file_handle_error_data : Handle → Code duckdb Handle
file_handle_error_data h =
    gets error_data duckdb_file_handle_error_data (one file_handle h)
      "malloc failed for duckdb_error_data wrapper"

-- `requested > 0 ? (size_t)requested : 0`
abbrev pub buffer_size : ℕ → ℕ
buffer_size size = if ltb size (2 ^ 63) then size else 0

-- `n > 0 && (size_t)n <= bufSize ? (size_t)n : 0`, of the word of n
abbrev pub copy_size : ℕ → ℕ → ℕ
copy_size n size = if ltb n (2 ^ 63) && leb n size then n else 0

-- a buffer that is allocated if it has a size
abbrev pub read_buffer : ℕ → Code duckdb (Option (Unit {0}))
read_buffer zero = pure none
read_buffer (suc n) = make buffer (malloc (suc n))

-- `if (buf) free(buf)`
abbrev pub free_buffer : Option (Unit {0}) → Code duckdb (Unit {0})
free_buffer none = pure tt
free_buffer (some b) = free buffer

-- the read into the buffer: the number, as a word, and the bytes that are copied out of it
abbrev pub read_into : Handle → ℕ → Option (Unit {0}) → Code duckdb (ℕ × List ℕ)
read_into h size b = do
  r ← ask (reads (is_made b) size (one file_handle h))
  free_buffer b
  pure (r.0 % 2 ^ 64, take (copy_size (r.0 % 2 ^ 64) (buffer_size size)) r.1)

abbrev pub file_handle_read : Handle → ℕ → Code duckdb (ℕ × List ℕ)
file_handle_read h size = do b ← read_buffer (buffer_size size); read_into h size b

abbrev pub file_handle_write : Handle → List ℕ → Code duckdb ℕ
file_handle_write h bytes = number_of 64 (duckdb_file_handle_write bytes) (one file_handle h)

abbrev pub file_handle_tell : Handle → Code duckdb ℕ
file_handle_tell h = number_of 64 duckdb_file_handle_tell (one file_handle h)

abbrev pub file_handle_size : Handle → Code duckdb ℕ
file_handle_size h = number_of 64 duckdb_file_handle_size (one file_handle h)

abbrev pub file_handle_seek : Handle → ℕ → Code duckdb ℕ
file_handle_seek h position = state_of (duckdb_file_handle_seek position) (one file_handle h)

abbrev pub file_handle_sync : Handle → Code duckdb ℕ
file_handle_sync h = state_of duckdb_file_handle_sync (one file_handle h)

abbrev pub file_handle_close : Handle → Code duckdb ℕ
file_handle_close h = state_of duckdb_file_handle_close (one file_handle h)
