-- ===== src/Tls/Examples.antt =====
-- A session of ffi/tls.c that meets a fatal error, and one that writes two bytes at a time.
use linen.Base.{
  none, List, min, ◌++◌, length, take, arith, ℕ, suc, ◌≡◌, refl, true, false, [], ◌∷◌, ltb,
  if◌then◌else◌,
}
use linen.Tls.{write, Ssl, want_read_error, ssl_error, queue_empty, queued}
use linen.Tls.Safety.{live, freed, steps}
use linen.Tls.Lifetime.{
  handshakes, closes, gets_version, gets_alpn, reads, writes, nb_reads, life, life_keeps_protocol,
}
use linen.Tls.Write.{IsWriter, Writes, write-Writes}

-- counts the calls: the first handshake would block, the next two calls succeed, the rest fail
abbrev breaks : Ssl ℕ
breaks = record {
  ssl_read = λ n w.
      if ltb w 3
      then (record { bytes = 7 ∷ []; err = want_read_error; queue = queue_empty }, suc w)
      else (record { bytes = []; err = ssl_error; queue = queued 5 }, suc w);
  ssl_write = λ bs w.
      if ltb w 3
      then (record { n = 1; err = want_read_error; queue = queue_empty }, suc w)
      else (record { n = 0; err = ssl_error; queue = queued 5 }, suc w);
  ssl_do_handshake = λ w.
      (record { n = if ltb 0 w then 1 else 0; err = want_read_error; queue = queue_empty }, suc w);
  ssl_shutdown = suc;
  ssl_free = suc;
  is_init_finished = ltb 1;
  get_version = λ w. 84 ∷ [];
  get0_alpn_selected = λ w. none;
}

life_keeps_protocol_example :
    steps live (
      life breaks
        (handshakes
          ∷ handshakes
          ∷ nb_reads 4
          ∷ writes (1 ∷ 2 ∷ [])
          ∷ gets_version
          ∷ closes
          ∷ gets_alpn
          ∷ closes
          ∷ reads 3
          ∷ [])
        (record { ssl = true; failed = false })
        0)
    ≡ freed
life_keeps_protocol_example =
    life_keeps_protocol breaks
      (handshakes
        ∷ handshakes
        ∷ nb_reads 4
        ∷ writes (1 ∷ 2 ∷ [])
        ∷ gets_version
        ∷ closes
        ∷ gets_alpn
        ∷ closes
        ∷ reads 3
        ∷ [])
      (record { ssl = true; failed = false }) 0 refl

-- the bytes written so far, two at most in each call
abbrev pairs : Ssl (List ℕ)
pairs = record {
  ssl_read = λ n w. (record { bytes = []; err = want_read_error; queue = queue_empty }, w);
  ssl_write = λ bs w. (
    record { n = min 2 (length bs); err = ssl_error; queue = queue_empty },
    w ++ take (min 2 (length bs)) bs,
  );
  ssl_do_handshake = λ w. (record { n = 1; err = want_read_error; queue = queue_empty }, w);
  ssl_shutdown = λ w. w;
  ssl_free = λ w. w;
  is_init_finished = λ w. true;
  get_version = λ w. 84 ∷ [];
  get0_alpn_selected = λ w. none;
}

pairs-IsWriter : IsWriter pairs
pairs-IsWriter = record { sent = λ w. w; writes = λ bytes w some_n. (omega arith, refl) }

write-Writes_example :
    Writes
      (pairs-IsWriter.sent)
      (pairs-IsWriter.sent (9 ∷ []) ++ (1 ∷ 2 ∷ 3 ∷ []))
      (record { ssl = true; failed = false })
      (write pairs (1 ∷ 2 ∷ 3 ∷ []) (record { ssl = true; failed = false }) (9 ∷ []))
write-Writes_example =
    write-Writes pairs pairs-IsWriter (1 ∷ 2 ∷ 3 ∷ []) (record { ssl = true; failed = false })
      (9 ∷ []) refl
