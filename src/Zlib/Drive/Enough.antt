-- ===== src/Zlib/Drive/Enough.antt =====
-- Fuel for the driving loops of ffi/zlib.c, and what they then collect.
use linen.Base.{
  ℕ, zero, suc, ◌+◌, ◌^◌, ◌≤◌, ◌<◌, ◌≡◌, Bool, List, ◌++◌, ap, arith, length, length-append,
}
use linen.Zlib.{Flush, z_ok, Reply, Out, drive, drive_deflate}
use linen.Zlib.Grow.{Room, append_out-Appends}
use linen.Zlib.Drive.{
  IsCodec, Drives, After, pending-After, inflate_after-Drives, deflate_after-Drives,
}

-- the measure that each round lowers: the input and the output still to come
abbrev pub work : {W : Type 0} → (W → List ℕ → List ℕ) → List ℕ → W → ℕ
work pending input w = length input + length (pending w input)

module _ {W : Type 0} (realloc : ℕ → W → Bool × W) (codec : Flush → List ℕ → W → Reply × W)
    {pending : W → List ℕ → List ℕ} (flush : Flush) (law : IsCodec (codec flush) pending)
    (same : (n : ℕ) (w : W) (input : List ℕ)
      → pending (realloc n w).1 input ≡ pending w input) where
  less_work :
      (f : ℕ) (input : List ℕ) (w w' : W)
      → After realloc (codec flush) law same input w w'
      → ((codec flush) input w).0.ret ≡ z_ok
      → work pending input w < suc f
      → work pending (codec flush input w).0.left w' < f
  less_work f input w w' world is_ok h =
      rw
        (pending-After realloc (codec flush) law same input w w' world (codec flush input w).0.left)
        (omega (arith, law.progress input w is_ok))

  written_bound :
      (input : List ℕ) (w : W) → length (codec flush input w).0.written ≤ length (pending w input)
  written_bound input w = omega (
    arith,
    ap length (law.writes_next input w),
    length-append {0} (codec flush input w).0.written
        (pending (codec flush input w).1 (codec flush input w).0.left),
  )

  -- `linen_zlib_drive`, started on an output with `Room` that stays below 2^62 bytes, collects behind
  -- it all that the stream still gives for the input, however zlib cuts it into chunks, and leaves an
  -- output with `Room`. It fails only if memory or zlib does. It ends: a fuel above the input and
  -- output still to come is enough.
  pub drive-Drives :
      (f : ℕ) (input : List ℕ) (o : Out) (w : W)
      → Room o
      → work pending input w < f
      → length o.bytes + length (pending w input) < 2 ^ 62
      → Drives realloc
          (codec flush)
          (o.bytes ++ pending w input)
          (drive realloc codec f flush input o w)
  unfolding drive
  drive-Drives zero input o w room h total = absurd (omega arith)
  drive-Drives (suc f) input o w room h total =
      inflate_after-Drives realloc (codec flush) law same
        (λ i o' w'. drive realloc codec f flush i o' w') input o w _ _
        (append_out-Appends realloc o (codec flush input w).0.written _ room
          (law.written_small input w) (omega (arith, written_bound input w)))
        λ o' w' room' e world is_ok. rw (← e) (
          drive-Drives f (codec flush input w).0.left o' w' room'
            (less_work f input w w' world is_ok h)
            (omega (
              arith,
              total,
              ap length e,
              length-append {0} o'.bytes (pending w' (codec flush input w).0.left),
              length-append {0} o.bytes (pending w input),
            )))

  -- `linen_zlib_drive_deflate` does the same.
  pub drive_deflate-Drives :
      (f : ℕ) (input : List ℕ) (o : Out) (w : W)
      → Room o
      → work pending input w < f
      → length o.bytes + length (pending w input) < 2 ^ 62
      → Drives realloc
          (codec flush)
          (o.bytes ++ pending w input)
          (drive_deflate realloc codec f flush input o w)
  unfolding drive_deflate
  drive_deflate-Drives zero input o w room h total = absurd (omega arith)
  drive_deflate-Drives (suc f) input o w room h total =
      deflate_after-Drives realloc (codec flush) law same
        (λ i o' w'. drive_deflate realloc codec f flush i o' w') input o w _ _
        (append_out-Appends realloc o (codec flush input w).0.written _ room
          (law.written_small input w) (omega (arith, written_bound input w)))
        λ o' w' room' e world is_ok. rw (← e) (
          drive_deflate-Drives f (codec flush input w).0.left o' w' room'
            (less_work f input w w' world is_ok h)
            (omega (
              arith,
              total,
              ap length e,
              length-append {0} o'.bytes (pending w' (codec flush input w).0.left),
              length-append {0} o.bytes (pending w input),
            )))
