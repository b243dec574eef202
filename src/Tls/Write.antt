-- ===== src/Tls/Write.antt =====
-- The blocking write of ffi/tls.c, `linen_tls_write`, against the bytes that the session has sent.
use linen.Base.{
  ℕ, zero, suc, ◌+◌, ◌≤◌, ◌<◌, ◌≡◌, refl, sym, ap, ◌∙◌, subst, inl, inr, true, List, [], ◌∷◌, ◌++◌,
  append-nil, append_assoc, arith, none, ◌==◌, Bool-cases, length, take, drop, length-drop,
  take-append-drop,
}
use linen.Tls.{
  Ssl, Session, Event, io, TlsResult, ok, error, out_of_fuel, mark_failed, clamp_int, write_loop,
  write,
}

-- What SSL_write documents: when it returns n > 0, it has written the first n bytes of its buffer.
pub record IsWriter {W : Type 0} (lib : Ssl W) : Type 0 where
  pub sent : W → List ℕ
  pub writes :
      (bytes : List ℕ) (w : W)
      → 0 < (lib.ssl_write bytes w).0.n
      → ((lib.ssl_write bytes w).0.n ≤ length bytes)
        × (sent (lib.ssl_write bytes w).1 ≡ sent w ++ take (lib.ssl_write bytes w).0.n bytes)

-- What a write of bytes does: all are sent and the session stays, or it is marked as failed.
abbrev pub WriteOutcome : List ℕ → Session → TlsResult (Unit {0}) → Session → List ℕ → Type 0
WriteOutcome all s (ok u) s' new = (new ≡ all) × (s' ≡ s)
WriteOutcome all s (error e) s' new = s' ≡ mark_failed s
WriteOutcome all s out_of_fuel s' new = ⊥

pub record Writes {W : Type 0} (sent : W → List ℕ) (all : List ℕ) (s : Session)
    (x : TlsResult (Unit {0}) × Session × List Event × W) : Type 0 where
  pub outcome : WriteOutcome all s x.0 x.1 (sent x.3)

take-take : (n m : ℕ) (xs : List ℕ) → n ≤ length (take m xs) → take n (take m xs) ≡ take n xs
take-take zero m xs h = refl
take-take (suc n) zero xs h = absurd (omega arith)
take-take (suc n) (suc m) [] h = refl
take-take (suc n) (suc m) (x ∷ xs) h = ap (λ l. x ∷ l) (take-take n m xs (omega arith))

module _ {W : Type 0} (lib : Ssl W) (law : IsWriter lib) where
  -- a round that wrote n bytes, before those that write the rest
  written_before :
      (old rest : List ℕ) (n : ℕ) (s : Session) (e : Event)
      (x : TlsResult (Unit {0}) × Session × List Event × W)
      → Writes law.sent ((old ++ take n rest) ++ drop n rest) s x
      → Writes law.sent (old ++ rest) s (x.0, x.1, e ∷ x.2, x.3)
  written_before old rest n s e (ok u, s', es, w) h = record {
    outcome = (
      h.outcome.0
          ∙ append_assoc old (take n rest) (drop n rest)
          ∙ ap (λ l. old ++ l) (take-append-drop n rest),
      h.outcome.1,
    );
  }
  written_before old rest n s e (error m, s', es, w) h = record { outcome = h.outcome }
  written_before old rest n s e (out_of_fuel, s', es, w) h = record { outcome = h.outcome }

  write_loop-Writes :
      (f : ℕ) (rest : List ℕ) (s : Session) (w : W)
      → length rest < f
      → Writes law.sent (law.sent w ++ rest) s (write_loop lib f rest s w)
  unfolding write_loop
  write_loop-Writes zero rest s w enough = omega arith
  write_loop-Writes (suc f) [] s w enough = record {
    outcome = (sym (append-nil (law.sent w)), refl);
  }
  write_loop-Writes (suc f) (b ∷ bs) s w enough =
      let rest = b ∷ bs in
      let chunk = take (clamp_int (length rest)) rest in
      let (r, w') = lib.ssl_write chunk w in
      elim (Bool-cases (r.n == 0)) [
        | inl none_written ↦ rw none_written (record { outcome = refl })
        | inr some_written ↦ rw some_written (
            let some_n : 0 < r.n = ground arith in
            let (within, wrote) = law.writes chunk w some_n in
            let same =
              wrote
              ∙ ap (λ l. law.sent w ++ l) (take-take r.n (clamp_int (length rest)) rest within) in
            written_before (law.sent w) rest r.n s (io none) (write_loop lib f (drop r.n rest) s w')
              (subst
                (λ o.
                  Writes law.sent (o ++ drop r.n rest) s (write_loop lib f (drop r.n rest) s w'))
                same
                (write_loop-Writes f (drop r.n rest) s w'
                  (omega (arith, length-drop {0} r.n rest)))))
      ]

  -- On an open session `linen_tls_write` ends. If it succeeds, it has written exactly its bytes, in
  -- order, however SSL_write cuts them, and leaves the session as it was; if it fails, the session is
  -- marked as failed.
  pub write-Writes :
      (bytes : List ℕ) (s : Session) (w : W)
      → s.ssl ≡ true
      → Writes law.sent (law.sent w ++ bytes) s (write lib bytes s w)
  unfolding write
  write-Writes bytes s w is_open =
      simp (is_open) (write_loop-Writes (length bytes + 1) bytes s w (omega arith))
