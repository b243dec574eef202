-- ===== src/DuckDb/Steps.antt =====
-- The functions of ffi/duckdb_shim.c on handles, and what they hold after them.
pub mod Getters
pub mod Openers
pub mod Finders
pub mod Viewers
pub mod Texts
pub mod Guarded
pub mod Destroyers
pub mod Arrays
pub mod Others
pub mod Builders
pub mod Step
pub mod Results
