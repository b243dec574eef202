-- ===== src/DuckDb.antt =====
-- ffi/duckdb_shim.c, the binding of DuckDB: its handles, what it asks DuckDB for, and the values it passes.
pub mod Values
pub mod Functions
pub mod Api
pub mod Handles
pub mod Opening
pub mod Arrays
pub mod Appender
pub mod Prepared
pub mod Results
pub mod Catalogs
pub mod Chunks
pub mod Types
pub mod Files
pub mod Callbacks
pub mod Vectors
pub mod Owned
pub mod Shapes
pub mod Releases
pub mod Steps
pub mod Ownership
pub mod NewVector
pub mod Data
pub mod Dates
pub mod RoundTrip
pub mod Passing
pub mod Reading
pub mod Closures
pub mod Strings
mod Examples
