-- ===== src/DuckDb/Dates.antt =====
-- Dates, times, huge integers and decimals in ffi/duckdb_shim.c: the words of Lean and the structures of DuckDB.
--
-- DuckDB's conversions are parameters. A signed field is passed as its word, in nested pairs.
use linen.Base.{ℤ, ℕ, min, Bool}
use linen.DuckDb.Data.Elements.{width}
use linen.DuckDb.Values.{signed, unsigned}

pub record DateStruct : Type 0 where
  pub year : ℤ
  pub month : ℤ
  pub day : ℤ

pub record TimeStruct : Type 0 where
  pub hour : ℤ
  pub min : ℤ
  pub sec : ℤ
  pub micros : ℤ

pub record Decimal : Type 0 where
  pub width : ℕ
  pub scale : ℕ
  pub lower : ℕ
  pub upper : ℤ

-- the functions of DuckDB; a double is its bits
pub record Conversions : Type 0 where
  pub duckdb_from_date : ℤ → DateStruct
  pub duckdb_to_date : DateStruct → ℤ
  pub duckdb_is_finite_date : ℤ → Bool
  pub duckdb_from_time : ℤ → TimeStruct
  pub duckdb_to_time : TimeStruct → ℤ
  pub duckdb_create_time_tz : ℤ → ℤ → ℕ
  pub duckdb_from_time_tz : ℕ → TimeStruct × ℤ
  pub duckdb_from_timestamp : ℤ → DateStruct × TimeStruct
  pub duckdb_to_timestamp : DateStruct × TimeStruct → ℤ
  pub duckdb_is_finite_timestamp : ℤ → Bool
  pub duckdb_is_finite_timestamp_s : ℤ → Bool
  pub duckdb_is_finite_timestamp_ms : ℤ → Bool
  pub duckdb_is_finite_timestamp_ns : ℤ → Bool
  pub duckdb_hugeint_to_double : ℕ → ℤ → ℕ
  pub duckdb_double_to_hugeint : ℕ → ℕ × ℤ
  pub duckdb_uhugeint_to_double : ℕ → ℕ → ℕ
  pub duckdb_double_to_uhugeint : ℕ → ℕ × ℕ
  pub duckdb_double_to_decimal : ℕ → ℕ → ℕ → Decimal
  pub duckdb_decimal_to_double : Decimal → ℕ

module _ (lib : Conversions) where
  unfoldable pub from_date : ℕ → ℕ × ℕ × ℕ
  from_date days =
      let ds = lib.duckdb_from_date (signed 32 days) in
      (unsigned 32 ds.year, unsigned 8 ds.month, unsigned 8 ds.day)

  unfoldable pub to_date : ℕ → ℕ → ℕ → ℕ
  to_date year month day = unsigned 32 (
      lib.duckdb_to_date
        (record { year = signed 32 year; month = signed 8 month; day = signed 8 day }))

  unfoldable pub is_finite_date : ℕ → Bool
  is_finite_date days = lib.duckdb_is_finite_date (signed 32 days)

  unfoldable pub from_time : ℕ → ℕ × ℕ × ℕ × ℕ
  from_time micros =
      let ts = lib.duckdb_from_time (signed 64 micros) in
      (unsigned 8 ts.hour, unsigned 8 ts.min, unsigned 8 ts.sec, unsigned 32 ts.micros)

  unfoldable pub create_time_tz : ℕ → ℕ → ℕ
  create_time_tz micros offset = lib.duckdb_create_time_tz (signed 64 micros) (signed 32 offset)

  unfoldable pub from_time_tz : ℕ → ℕ × ℕ × ℕ × ℕ × ℕ
  from_time_tz bits =
      let (ts, offset) = lib.duckdb_from_time_tz bits in
      (
        unsigned 8 ts.hour,
        unsigned 8 ts.min,
        unsigned 8 ts.sec,
        unsigned 32 ts.micros,
        unsigned 32 offset,
      )

  -- the structure of the words of a time
  abbrev pub time_of : ℕ → ℕ → ℕ → ℕ → TimeStruct
  time_of hour min sec micros = record {
    hour = signed 8 hour;
    min = signed 8 min;
    sec = signed 8 sec;
    micros = signed 32 micros;
  }

  unfoldable pub to_time : ℕ → ℕ → ℕ → ℕ → ℕ
  to_time hour min sec micros = unsigned 64 (lib.duckdb_to_time (time_of hour min sec micros))

  unfoldable pub from_timestamp : ℕ → ℕ × ℕ × ℕ × ℕ × ℕ × ℕ × ℕ
  from_timestamp micros =
      let (ds, ts) = lib.duckdb_from_timestamp (signed 64 micros) in
      (
        unsigned 32 ds.year,
        unsigned 8 ds.month,
        unsigned 8 ds.day,
        unsigned 8 ts.hour,
        unsigned 8 ts.min,
        unsigned 8 ts.sec,
        unsigned 32 ts.micros,
      )

  unfoldable pub to_timestamp : ℕ → ℕ → ℕ → ℕ → ℕ → ℕ → ℕ → ℕ
  to_timestamp year month day hour min sec micros = unsigned 64 (
      lib.duckdb_to_timestamp (
        record { year = signed 32 year; month = signed 8 month; day = signed 8 day },
        time_of hour min sec micros,
      ))

  unfoldable pub is_finite_timestamp : ℕ → Bool
  is_finite_timestamp micros = lib.duckdb_is_finite_timestamp (signed 64 micros)

  unfoldable pub is_finite_timestamp_s : ℕ → Bool
  is_finite_timestamp_s seconds = lib.duckdb_is_finite_timestamp_s (signed 64 seconds)

  unfoldable pub is_finite_timestamp_ms : ℕ → Bool
  is_finite_timestamp_ms millis = lib.duckdb_is_finite_timestamp_ms (signed 64 millis)

  unfoldable pub is_finite_timestamp_ns : ℕ → Bool
  is_finite_timestamp_ns nanos = lib.duckdb_is_finite_timestamp_ns (signed 64 nanos)

  unfoldable pub hugeint_to_double : ℕ → ℕ → ℕ
  hugeint_to_double lower upper = lib.duckdb_hugeint_to_double lower (signed 64 upper)

  unfoldable pub double_to_hugeint : ℕ → ℕ × ℕ
  double_to_hugeint x = let h = lib.duckdb_double_to_hugeint x in (h.0, unsigned 64 h.1)

  unfoldable pub uhugeint_to_double : ℕ → ℕ → ℕ
  uhugeint_to_double lower upper = lib.duckdb_uhugeint_to_double lower upper

  unfoldable pub double_to_uhugeint : ℕ → ℕ × ℕ
  double_to_uhugeint x = lib.duckdb_double_to_uhugeint x

  unfoldable pub double_to_decimal : ℕ → ℕ → ℕ → ℕ × ℕ × ℕ × ℕ
  double_to_decimal x width scale =
      let dec = lib.duckdb_double_to_decimal x width scale in
      (dec.width, dec.scale, dec.lower, unsigned 64 dec.upper)

  unfoldable pub decimal_to_double : ℕ → ℕ → ℕ → ℕ → ℕ
  decimal_to_double width scale lower upper =
      lib.duckdb_decimal_to_double
        (record { width = width; scale = scale; lower = lower; upper = signed 64 upper })
