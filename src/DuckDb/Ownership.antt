-- ===== src/DuckDb/Ownership.antt =====
-- What the functions of ffi/duckdb_shim.c on handles hold and release.
use linen.Calls.Legal.{Legal}
use linen.DuckDb.Steps.Step.{Step}
