-- ===== src/Zlib/Grow.antt =====
-- The output buffer of ffi/zlib.c: what the driving loops append fits, and the doubling loop never
-- turns.
use linen.Base.{
  ℕ, suc, ◌+◌, ◌*◌, ◌%◌, ◌^◌, ◌≤◌, ◌<◌, ◌≡◌, refl, ◌⊎◌, inl, inr, Bool, false, some, List, ◌++◌,
  append-nil, sym, ap, ◌∙◌, nil_of_length, arith, ltb, ◌==◌, ltb→lt, ltb→ge, if◌then◌else◌,
  Bool-cases, length, length-append, add_size,
}
use linen.Zlib.{
  chunk_size, Out, no_out, grow_cap, Appended, appended, no_memory, grow_stuck, copy_grown,
  append_out,
}

-- The bytes fit the buffer, which is absent or at least a chunk, and at most about twice as large as
-- they need.
pub record Room (o : Out) : Type 0 where
  pub fits : length o.bytes ≤ o.cap
  pub whole : (o.cap ≡ 0) ⊎ (chunk_size ≤ o.cap)
  pub bounded : o.cap ≤ chunk_size + 2 * length o.bytes

pub no_out-Room : Room no_out
no_out-Room = record { fits = omega arith; whole = inl refl; bounded = omega arith }

module _ {W : Type 0} (realloc : ℕ → W → Bool × W) where
  -- What becomes of the output `o` when `bs` is appended in the state `v`.
  abbrev pub Appends : Out → List ℕ → W → Appended × W → Type 0
  Appends o bs v (appended o', w') =
      (o'.bytes ≡ o.bytes ++ bs) × Room o' × ((w' ≡ v) ⊎ ((n : ℕ) × (w' ≡ (realloc n v).1)))
  Appends o bs v (no_memory, w') = (n : ℕ) × (w : W) × ((realloc n w).0 ≡ false)
  Appends o bs v (grow_stuck, w') = ⊥

  copy_grown-Appends :
      (o : Out) (bs : List ℕ) (c : ℕ) (w : W)
      → length o.bytes + length bs ≤ c
      → chunk_size ≤ c
      → c ≤ chunk_size + 2 * (length o.bytes + length bs)
      → Appends o bs w (copy_grown realloc o bs (some c) w)
  unfolding copy_grown
  copy_grown-Appends o bs c w fits whole bounded = elim (Bool-cases (realloc c w).0) [
    | inl there ↦ rw there (
      refl,
      record {
        fits = omega (arith, length-append {0} o.bytes bs);
        whole = inr whole;
        bounded = omega (arith, length-append {0} o.bytes bs);
      },
      inr (c, refl),
    )
    | inr refused ↦ rw refused (c, w, refused)
  ]

  -- the first capacity that is tried is large enough
  grow_cap-first : (f c need : ℕ) → need ≤ c → grow_cap (suc f) c need ≡ some c
  unfolding grow_cap
  grow_cap-first f c need h = ground arith

  abbrev first_cap : Out → ℕ
  first_cap o = if o.cap == 0 then chunk_size else o.cap * 2 % 2 ^ 64

  first_cap_bounds :
      (o : Out) (bs : List ℕ)
      → Room o
      → length bs ≤ chunk_size
      → length o.bytes + length bs < 2 ^ 62
      → o.cap < length o.bytes + length bs
      → (length o.bytes + length bs ≤ first_cap o)
        × (chunk_size ≤ first_cap o)
        × (first_cap o ≤ chunk_size + 2 * (length o.bytes + length bs))
  first_cap_bounds o bs r small total short = ground (arith, r.fits, r.whole, r.bounded)

  -- Appending what one call of zlib wrote, to a buffer that has `Room`, keeps the bytes in order and
  -- the `Room`, unless `realloc` refused; the doubling loop ends at once.
  pub append_out-Appends :
      (o : Out) (bs : List ℕ) (w : W)
      → Room o
      → length bs ≤ chunk_size
      → length o.bytes + length bs < 2 ^ 62
      → Appends o bs w (append_out realloc o bs w)
  unfolding append_out
  append_out-Appends o bs w r small total =
      let need = add_size (length o.bytes) (length bs) in
      elim (Bool-cases (ltb 0 (length bs))) [
        | inr nothing ↦ rw nothing (
          sym (ap (λ b. o.bytes ++ b) (nil_of_length bs (ground arith)) ∙ append-nil o.bytes),
          r,
          inl refl,
        )
        | inl something ↦ rw something (elim (Bool-cases (ltb o.cap need)) [
          | inr fits ↦ rw fits (
            refl,
            record {
              fits = omega (arith, ltb→ge _ _ fits, length-append {0} o.bytes bs, r.fits);
              whole = r.whole;
              bounded = omega (arith, r.bounded, length-append {0} o.bytes bs);
            },
            inl refl,
          )
          | inl short ↦ rw short (
              let b = first_cap_bounds o bs r small total (omega (arith, ltb→lt _ _ short)) in
              rw (grow_cap-first 63 (first_cap o) need (omega (arith, b.0)))
                (copy_grown-Appends o bs (first_cap o) w b.0 b.1 b.2))
        ])
      ]
