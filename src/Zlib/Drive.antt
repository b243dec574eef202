-- ===== src/Zlib/Drive.antt =====
-- The driving loops of ffi/zlib.c, `linen_zlib_drive` and `linen_zlib_drive_deflate`: they collect all
-- that zlib makes of the input.
pub mod Enough
use linen.Base.{
  ℕ, zero, suc, ◌+◌, ◌^◌, ◌≤◌, ◌<◌, ◌≡◌, ◌≢◌, refl, ◌⊎◌, inl, inr, Bool, true, false, List, [], ◌∷◌,
  ◌++◌, append-nil, append_assoc, sym, ap, ◌∙◌, lt→ltb, ◌&&◌, arith, ltb, if◌then◌else◌, Bool-cases,
  length, length-append,
}
use linen.Zlib.{
  chunk_size, Flush, Ret, z_ok, z_stream_end, z_buf_error, z_failed, Reply, Out, Appended, appended,
  no_memory, grow_stuck, Driven, drove, drive_failed, drive_stuck, is_empty, message, inflate_after,
  deflate_after, drive, drive_deflate,
}
use linen.Zlib.Grow.{Room, Appends, append_out-Appends}

-- What zlib documents of a call with a fresh chunk of output. `pending w input` is what the stream in
-- the state `w` still gives for `input`.
pub record IsCodec {W : Type 0} (codec : List ℕ → W → Reply × W) (pending : W → List ℕ → List ℕ)
    : Type 0 where
  pub written_small : (input : List ℕ) (w : W) → length (codec input w).0.written ≤ chunk_size
  -- what is written is the next of the output
  pub writes_next :
      (input : List ℕ) (w : W)
      → pending w input
        ≡ (codec input w).0.written ++ pending (codec input w).1 (codec input w).0.left
  -- Z_OK: some input was read or some output written
  pub progress :
      (input : List ℕ) (w : W)
      → (codec input w).0.ret ≡ z_ok
      → length (codec input w).0.left + length (pending (codec input w).1 (codec input w).0.left)
        < length input + length (pending w input)
  -- Z_STREAM_END: the output is complete
  pub ended :
      (input : List ℕ) (w : W)
      → (codec input w).0.ret ≡ z_stream_end
      → pending (codec input w).1 (codec input w).0.left ≡ []
  -- With the input used up and room left in the chunk, zlib holds nothing back.
  pub drained :
      (input : List ℕ) (w : W)
      → (codec input w).0.left ≡ []
      → length (codec input w).0.written < chunk_size
      → pending (codec input w).1 [] ≡ []
  -- Z_BUF_ERROR: no progress was possible, though there was room for output
  pub blocked :
      (input : List ℕ) (w : W)
      → (codec input w).0.ret ≡ z_buf_error
      → ((codec input w).0.left ≡ []) × (length (codec input w).0.written < chunk_size)

is_empty_lem : (bs : List ℕ) → is_empty bs ≡ true → bs ≡ []
is_empty_lem [] h = refl
is_empty_lem (b ∷ bs) h = cc

module _ {W : Type 0} (realloc : ℕ → W → Bool × W) (codec : List ℕ → W → Reply × W) where
  -- `realloc` never refuses and zlib never fails.
  pub record Reliable : Type 0 where
    pub memory : (n : ℕ) (w : W) → (realloc n w).0 ≡ true
    pub success : (input : List ℕ) (w : W) → (codec input w).0.ret ≢ z_failed

  -- what a loop that is to collect `all` returns
  abbrev pub Drives : List ℕ → Driven × W → Type 0
  Drives all (drove o ended, w) = (o.bytes ≡ all) × Room o
  Drives all (drive_failed m, w) = ¬ Reliable
  Drives all (drive_stuck, w) = ⊥

  module _ {pending : W → List ℕ → List ℕ} (law : IsCodec codec pending)
      (same : (n : ℕ) (w : W) (input : List ℕ)
        → pending (realloc n w).1 input ≡ pending w input) where
    -- a state after a call, before or after `realloc`
    abbrev After : List ℕ → W → W → Type 0
    After input w w' = (w' ≡ (codec input w).1) ⊎ ((n : ℕ) × (w' ≡ (realloc n (codec input w).1).1))

    pending-After :
        (input : List ℕ) (w w' : W)
        → After input w w'
        → (rest : List ℕ) → pending w' rest ≡ pending (codec input w).1 rest
    pending-After input w w' (inl e) rest = ap (λ v. pending v rest) e
    pending-After input w w' (inr (n, e)) rest =
        ap (λ v. pending v rest) e ∙ same n (codec input w).1 rest

    -- The output so far and what is still to come, after a call in the state `w` and the copy.
    collected :
        (input : List ℕ) (o o' : Out) (w w' : W)
        → o'.bytes ≡ o.bytes ++ (codec input w).0.written
        → After input w w'
        → o'.bytes ++ pending w' (codec input w).0.left ≡ o.bytes ++ pending w input
    collected input o o' w w' e world =
        let left = (codec input w).0.left in
        let written = (codec input w).0.written in
        ap (λ b. b ++ pending w' left) e
        ∙ append_assoc o.bytes written (pending w' left)
        ∙ ap (λ p. o.bytes ++ (written ++ p)) (pending-After input w w' world left)
        ∙ ap (λ b. o.bytes ++ b) (sym (law.writes_next input w))

    -- Nothing is to come any more.
    complete :
        (input : List ℕ) (o o' : Out) (w w' : W)
        → o'.bytes ≡ o.bytes ++ (codec input w).0.written
        → After input w w'
        → pending (codec input w).1 (codec input w).0.left ≡ []
        → o'.bytes ≡ o.bytes ++ pending w input
    complete input o o' w w' e world none_left =
        sym (append-nil o'.bytes)
        ∙ ap (λ p. o'.bytes ++ p) (sym (pending-After input w w' world _ ∙ none_left))
        ∙ collected input o o' w w' e world

    -- What is known of the rest of a loop after a round on `input` in the state `w`.
    abbrev Continues : List ℕ → Out → W → (List ℕ → Out → W → Driven × W) → Type 0
    Continues input o w again =
        (o' : Out) (w' : W)
        → Room o'
        → o'.bytes ++ pending w' (codec input w).0.left ≡ o.bytes ++ pending w input
        → After input w w'
        → (codec input w).0.ret ≡ z_ok
        → Drives (o.bytes ++ pending w input) (again (codec input w).0.left o' w')

    drained_left :
        (input : List ℕ) (w : W)
        → (codec input w).0.left ≡ []
        → length (codec input w).0.written < chunk_size
        → pending (codec input w).1 (codec input w).0.left ≡ []
    drained_left input w e small = ap (pending (codec input w).1) e ∙ law.drained input w e small

    -- the round's end that both loops share: stop when input and output are used up
    module _ (again : List ℕ → Out → W → Driven × W) (input : List ℕ) (o o' : Out) (w w' : W)
        (e : o'.bytes ≡ o.bytes ++ (codec input w).0.written) (room : Room o')
        (world : After input w w') (ih : Continues input o w again) where
      go_on :
          (codec input w).0.ret ≡ z_ok
          → Drives (o.bytes ++ pending w input) (
              if is_empty (codec input w).0.left
                && ltb (length (codec input w).0.written) chunk_size
              then (drove o' false, w')
              else again (codec input w).0.left o' w')
      go_on is_ok =
          elim (Bool-cases (
            is_empty (codec input w).0.left && ltb (length (codec input w).0.written) chunk_size)) [
              | inl stop ↦ rw stop (
                complete input o o' w w' e world
                    (drained_left input w (is_empty_lem _ (ground arith)) (ground arith)),
                room,
              )
              | inr more ↦ rw more (ih o' w' room (collected input o o' w w' e world) world is_ok)
            ]

      stopped : (codec input w).0.ret ≡ z_buf_error → o'.bytes ≡ o.bytes ++ pending w input
      stopped blocked =
          let b = law.blocked input w blocked in
          complete input o o' w w' e world (drained_left input w b.0 b.1)

      inflate_done :
          (t : Ret)
          → (codec input w).0.ret ≡ t
          → Drives (o.bytes ++ pending w input) (elim t [
            | z_stream_end ↦ (drove o' true, w')
            | z_ok ↦
                if is_empty (codec input w).0.left
                  && ltb (length (codec input w).0.written) chunk_size
                then (drove o' false, w')
                else again (codec input w).0.left o' w'
            | z_buf_error ↦
                if is_empty (codec input w).0.left
                then (drove o' false, w')
                else again (codec input w).0.left o' w'
            | z_failed ↦ (drive_failed (message (codec input w).0.msg "inflate failed"), w')
          ])
      inflate_done z_stream_end t = (complete input o o' w w' e world (law.ended input w t), room)
      inflate_done z_ok t = go_on t
      inflate_done z_buf_error t = rw (ap is_empty (law.blocked input w t).0) (stopped t, room)
      inflate_done z_failed t = λ r. r.success input w t

      deflate_done :
          (t : Ret)
          → (codec input w).0.ret ≡ t
          → Drives (o.bytes ++ pending w input) (
              let rest =
                if is_empty (codec input w).0.left
                  && ltb (length (codec input w).0.written) chunk_size
                then (drove o' false, w')
                else again (codec input w).0.left o' w' in
              elim t [
                | z_stream_end ↦ (drove o' true, w')
                | z_ok ↦ rest
                | z_buf_error ↦ rest
                | z_failed ↦ (drive_failed (message (codec input w).0.msg "deflate failed"), w')
              ])
      deflate_done z_stream_end t = (complete input o o' w w' e world (law.ended input w t), room)
      deflate_done z_ok t = go_on t
      deflate_done z_buf_error t =
          let b = law.blocked input w t in rw (ap is_empty b.0, lt→ltb _ _ b.1) (stopped t, room)
      deflate_done z_failed t = λ r. r.success input w t

    inflate_after-Drives :
        (again : List ℕ → Out → W → Driven × W) (input : List ℕ) (o : Out) (w : W) (a : Appended)
        (w' : W)
        → Appends realloc o (codec input w).0.written (codec input w).1 (a, w')
        → Continues input o w again
        → Drives (o.bytes ++ pending w input) (inflate_after again (codec input w).0 (a, w'))
    unfolding inflate_after
    inflate_after-Drives again input o w no_memory w' refused ih =
        λ r. cc (r.memory refused.0 refused.1, refused.2)
    inflate_after-Drives again input o w grow_stuck w' stuck ih = stuck
    inflate_after-Drives again input o w (appended o') w' done ih =
        inflate_done again input o o' w w' done.0 done.1 done.2 ih (codec input w).0.ret refl

    deflate_after-Drives :
        (again : List ℕ → Out → W → Driven × W) (input : List ℕ) (o : Out) (w : W) (a : Appended)
        (w' : W)
        → Appends realloc o (codec input w).0.written (codec input w).1 (a, w')
        → Continues input o w again
        → Drives (o.bytes ++ pending w input) (deflate_after again (codec input w).0 (a, w'))
    unfolding deflate_after
    deflate_after-Drives again input o w no_memory w' refused ih =
        λ r. cc (r.memory refused.0 refused.1, refused.2)
    deflate_after-Drives again input o w grow_stuck w' stuck ih = stuck
    deflate_after-Drives again input o w (appended o') w' done ih =
        deflate_done again input o o' w w' done.0 done.1 done.2 ih (codec input w).0.ret refl
