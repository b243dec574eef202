-- ===== src/RecvBuffer/Valid.antt =====
-- The invariant of linen_recvbuf_t in ffi/network.c, with the moving and storing of its bytes.
use linen.Base.{
  ℕ, zero, suc, ◌+◌, ◌-◌, ◌≤◌, ◌≡◌, refl, ap, ◌∙◌, inl, inr, List, ◌++◌, arith, ltb, ltb→ge,
  Bool-cases, length, take, drop, length-write_at, length-take, length-drop, length-replicate,
  take-write_at, write_at, add_size, sub_size, Fd,
}
use linen.RecvBuffer.{RecvBuf, recvbuf_size, create, slice, compact, store}

pub record IsValid (rb : RecvBuf) : Type 0 where
  pub consumed : rb.pos ≤ rb.len
  pub fits : rb.len ≤ recvbuf_size
  pub sized : length rb.buf ≡ recvbuf_size

-- the buffered bytes that are not yet consumed
abbrev pub view : RecvBuf → List ℕ
view rb = slice rb.buf rb.pos (rb.len - rb.pos)

pub create-IsValid : (sock : Fd) → IsValid (create sock)
unfolding create
create-IsValid sock = record {
  consumed = omega arith;
  fits = omega arith;
  sized = length-replicate {A = ℕ} recvbuf_size 0;
}

pub length-view : {rb : RecvBuf} → IsValid rb → length (view rb) ≡ rb.len - rb.pos
length-view {rb} v =
    omega
      (arith, length-take {0} (rb.len - rb.pos) (drop rb.pos rb.buf), length-drop {0} rb.pos rb.buf)

-- Moving the remaining bytes to the front changes none of them.
pub record Compacted (rb c : RecvBuf) : Type 0 where
  pub valid : IsValid c
  pub front : c.pos ≡ 0
  pub same_fd : c.fd ≡ rb.fd
  pub same_view : view c ≡ view rb

pub sub_size-eq : (a b : ℕ) → b ≤ a → a ≤ recvbuf_size → sub_size a b ≡ a - b
sub_size-eq a b h k = omega arith

compact-moved :
    (rb : RecvBuf) (n : ℕ)
    → IsValid rb
    → n ≡ rb.len - rb.pos
    → take (n - 0) (write_at rb.buf 0 (slice rb.buf rb.pos n)) ≡ view rb
compact-moved rb n v e =
    take-write_at rb.buf 0 (slice rb.buf rb.pos n) (n - 0)
      (omega
        (arith, length-take {0} n (drop rb.pos rb.buf), length-drop {0} rb.pos rb.buf, v.sized))
      (omega (arith, v.sized))
    ∙ ap (slice rb.buf rb.pos) e

pub compact-Compacted : (rb : RecvBuf) → IsValid rb → Compacted rb (compact rb)
unfolding compact
compact-Compacted rb v = elim (Bool-cases (ltb 0 rb.pos)) [
  | inl some_consumed ↦ elim (Bool-cases (ltb rb.pos rb.len)) [
    | inl some_left ↦
        rw (some_consumed, some_left)
          (record {
            valid = record {
              consumed = omega arith;
              fits = omega arith;
              sized = length-write_at rb.buf 0 _ ∙ v.sized;
            };
            front = refl;
            same_fd = refl;
            same_view = compact-moved rb _ v (sub_size-eq rb.len rb.pos v.consumed v.fits);
          })
    | inr none_left ↦
        rw (some_consumed, none_left)
          (record {
            valid = record { consumed = omega arith; fits = omega arith; sized = v.sized };
            front = refl;
            same_fd = refl;
            same_view =
                ap (slice rb.buf rb.pos) {x = 0} (omega (arith, ltb→ge rb.pos rb.len none_left));
          })
  ]
  | inr none_consumed ↦
      rw none_consumed
        (record { valid = v; front = ground arith; same_fd = refl; same_view = refl })
]

stored :
    (b bs : List ℕ) (p l k : ℕ)
    → p ≡ 0
    → k ≡ l + length bs
    → k ≤ length b
    → take (k - p) (drop p (write_at b l bs)) ≡ take (l - p) (drop p b) ++ bs
stored b bs zero l k front e h =
    take-write_at b l bs (k - 0) (omega arith) (omega arith)
    ∙ ap (λ n. take n b ++ bs) (omega arith)
stored b bs (suc p) l k front e h = absurd (omega arith)

-- What `recv` stores stands behind what the buffer held.
pub record Stored (rb : RecvBuf) (bs : List ℕ) (s : RecvBuf) : Type 0 where
  pub valid : IsValid s
  pub same_fd : s.fd ≡ rb.fd
  pub longer : view s ≡ view rb ++ bs

pub store-Stored :
    (rb : RecvBuf) (bs : List ℕ)
    → IsValid rb
    → rb.pos ≡ 0
    → length bs ≤ sub_size recvbuf_size rb.len
    → Stored rb bs (store rb bs)
unfolding store
store-Stored rb bs v front room = record {
  valid = record {
    consumed = omega (arith, v.fits);
    fits = omega (arith, v.fits);
    sized = length-write_at rb.buf rb.len bs ∙ v.sized;
  };
  same_fd = refl;
  longer =
      stored rb.buf bs rb.pos rb.len (add_size rb.len (length bs)) front (omega (arith, v.fits))
        (omega (arith, v.fits, v.sized));
}
