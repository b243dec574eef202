-- ===== src/DuckDb/RoundTrip.antt =====
-- Values that go through ffi/duckdb_shim.c to DuckDB and back come back unchanged.
use linen.Base.{
  ℤ, pos, negsuc, ℕ, ◌-◌, ◌%◌, ◌^◌, ◌<◌, ◌≡◌, refl, sym, ap, ap₂, ◌∙◌, subst, true, arith,
}
use linen.DuckDb.Dates.{
  DateStruct, TimeStruct, Conversions, from_date, to_date, is_finite_date, from_time, to_time,
  from_timestamp, to_timestamp, is_finite_timestamp,
}
use linen.DuckDb.Values.{signed, unsigned}

-- a signed number of so many bits
abbrev pub IsInt : ℕ → ℤ → Type 0
IsInt w (pos n) = n < 2 ^ (w - 1)
IsInt w (negsuc n) = n < 2 ^ (w - 1)

pub signed-unsigned8 : (z : ℤ) → IsInt 8 z → signed 8 (unsigned 8 z) ≡ z
signed-unsigned8 (pos n) h = ground arith
signed-unsigned8 (negsuc n) h = ground arith

pub signed-unsigned32 : (z : ℤ) → IsInt 32 z → signed 32 (unsigned 32 z) ≡ z
signed-unsigned32 (pos n) h = ground arith
signed-unsigned32 (negsuc n) h = ground arith

pub signed-unsigned64 : (z : ℤ) → IsInt 64 z → signed 64 (unsigned 64 z) ≡ z
signed-unsigned64 (pos n) h = ground arith
signed-unsigned64 (negsuc n) h = ground arith

unsigned-signed32 : (v : ℕ) → v < 2 ^ 32 → unsigned 32 (signed 32 v) ≡ v
unsigned-signed32 v small = ground arith

unsigned-signed64 : (v : ℕ) → v < 2 ^ 64 → unsigned 64 (signed 64 v) ≡ v
unsigned-signed64 v small = ground arith

-- the fields of a date and of a time are of the types that they have in C
abbrev pub IsDate : DateStruct → Type 0
IsDate d = IsInt 32 d.year × IsInt 8 d.month × IsInt 8 d.day

abbrev pub IsTime : TimeStruct → Type 0
IsTime t = IsInt 8 t.hour × IsInt 8 t.min × IsInt 8 t.sec × IsInt 32 t.micros

-- what DuckDB documents of its conversions: of a finite date, of a time of a day and of a finite timestamp the
-- fields are of their types, and give it back
pub record Documented (lib : Conversions) : Type 0 where
  pub date_fields :
      (d : ℤ) → lib.duckdb_is_finite_date d ≡ true → IsInt 32 d → IsDate (lib.duckdb_from_date d)
  pub date_back :
      (d : ℤ)
      → lib.duckdb_is_finite_date d ≡ true
      → IsInt 32 d
      → lib.duckdb_to_date (lib.duckdb_from_date d) ≡ d
  pub time_fields : (n : ℕ) → n < 86_400_000_000 → IsTime (lib.duckdb_from_time (pos n))
  pub time_back :
      (n : ℕ) → n < 86_400_000_000 → lib.duckdb_to_time (lib.duckdb_from_time (pos n)) ≡ pos n
  pub stamp_fields :
      (t : ℤ)
      → lib.duckdb_is_finite_timestamp t ≡ true
      → IsInt 64 t
      → IsDate (lib.duckdb_from_timestamp t).0 × IsTime (lib.duckdb_from_timestamp t).1
  pub stamp_back :
      (t : ℤ)
      → lib.duckdb_is_finite_timestamp t ≡ true
      → IsInt 64 t
      → lib.duckdb_to_timestamp (lib.duckdb_from_timestamp t) ≡ t

signed-IsInt32 : (v : ℕ) → IsInt 32 (signed 32 v)
signed-IsInt32 v = ground arith

signed-IsInt64 : (v : ℕ) → IsInt 64 (signed 64 v)
signed-IsInt64 v = ground arith

signed-small : (n : ℕ) → n < 86_400_000_000 → signed 64 n ≡ pos n
signed-small n small = ground arith

word_small : (n : ℕ) → n < 86_400_000_000 → n % 2 ^ 64 ≡ n
word_small n small = omega arith

-- the structure of the words of a date
abbrev date_words : DateStruct → DateStruct
date_words d = record {
  year = signed 32 (unsigned 32 d.year);
  month = signed 8 (unsigned 8 d.month);
  day = signed 8 (unsigned 8 d.day);
}

abbrev time_words : TimeStruct → TimeStruct
time_words t = record {
  hour = signed 8 (unsigned 8 t.hour);
  min = signed 8 (unsigned 8 t.min);
  sec = signed 8 (unsigned 8 t.sec);
  micros = signed 32 (unsigned 32 t.micros);
}

date_words_lem : (d : DateStruct) → IsDate d → date_words d ≡ d
date_words_lem d h =
    rw (signed-unsigned32 d.year h.0, signed-unsigned8 d.month h.1, signed-unsigned8 d.day h.2) refl

time_words_lem : (t : TimeStruct) → IsTime t → time_words t ≡ t
time_words_lem t h =
    rw
      (
        signed-unsigned8 t.hour h.0,
        signed-unsigned8 t.min h.1,
        signed-unsigned8 t.sec h.2,
        signed-unsigned32 t.micros h.3,
      )
      refl

-- A finite date that is taken apart and put together again is the same.
pub to_date-from_date :
    (lib : Conversions) (doc : Documented lib) (days : ℕ)
    → days < 2 ^ 32
    → is_finite_date lib days ≡ true
    → to_date lib (from_date lib days).0 (from_date lib days).1 (from_date lib days).2 ≡ days
unfolding to_date from_date is_finite_date
to_date-from_date lib doc days small finite =
    let d = signed 32 days in
    ap (λ x. unsigned 32 (lib.duckdb_to_date x))
      (date_words_lem (lib.duckdb_from_date d) (doc.date_fields d finite (signed-IsInt32 days)))
    ∙ ap (unsigned 32) (doc.date_back d finite (signed-IsInt32 days))
    ∙ unsigned-signed32 days small

-- the time of four words
abbrev pub day_time_of : Conversions → ℕ × ℕ × ℕ × ℕ → ℕ
day_time_of lib r = to_time lib r.0 r.1 r.2 r.3

-- A time of a day that is taken apart into its four words and put together again is the same.
pub to_time-from_time :
    (lib : Conversions) (doc : Documented lib) (micros : ℕ)
    → micros < 86_400_000_000
    → day_time_of lib (from_time lib micros) ≡ micros
unfolding to_time from_time
to_time-from_time lib doc micros small =
    subst (λ t. unsigned 64 (lib.duckdb_to_time (time_words (lib.duckdb_from_time t))) ≡ micros)
      (sym (signed-small micros small))
      (ap (λ x. unsigned 64 (lib.duckdb_to_time x))
          (time_words_lem (lib.duckdb_from_time (pos micros)) (doc.time_fields micros small))
        ∙ ap (unsigned 64) (doc.time_back micros small)
        ∙ word_small micros small)

-- the timestamp of seven words
abbrev pub stamp_of : Conversions → ℕ × ℕ × ℕ × ℕ × ℕ × ℕ × ℕ → ℕ
stamp_of lib r = to_timestamp lib r.0 r.1 r.2 r.3 r.4 r.5 r.6

-- A finite timestamp that is taken apart into its seven words and put together again is the same.
pub to_timestamp-from_timestamp :
    (lib : Conversions) (doc : Documented lib) (micros : ℕ)
    → micros < 2 ^ 64
    → is_finite_timestamp lib micros ≡ true
    → stamp_of lib (from_timestamp lib micros) ≡ micros
unfolding to_timestamp from_timestamp is_finite_timestamp
to_timestamp-from_timestamp lib doc micros small finite =
    let t = signed 64 micros in
    let s = lib.duckdb_from_timestamp t in
    let fields = doc.stamp_fields t finite (signed-IsInt64 micros) in
    ap (λ x. unsigned 64 (lib.duckdb_to_timestamp x))
      (ap₂ (λ d x. (d, x)) (date_words_lem s.0 fields.0) (time_words_lem s.1 fields.1))
    ∙ ap (unsigned 64) (doc.stamp_back t finite (signed-IsInt64 micros))
    ∙ unsigned-signed64 micros small
