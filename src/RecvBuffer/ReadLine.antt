-- ===== src/RecvBuffer/ReadLine.antt =====
-- `linen_recvbuf_readline` of ffi/network.c: it takes the bytes up to the first CRLF of the stream.
use linen.Base.{
  ℕ, zero, suc, ◌+◌, ◌-◌, ◌≤◌, ◌<◌, ◌≡◌, refl, sym, ap, ap₂, ◌∙◌, inl, inr, Bool, true, false, ◌&&◌,
  ◌||◌, List, [], ◌∷◌, ◌++◌, append-nil, append_assoc, reverse, arith, ltb, ◌==◌, Bool-cases,
  length, take-drop-cons, get_or, length-append, add_size, ltb→lt, ltb→ge,
}
use mathlib.Core.List.{reverse-cons}
use linen.RecvBuffer.{
  RecvBuf, line_size, slice, Scan, line_done, line_too_long, drained, ends_cr, without_last, scan,
}
use linen.RecvBuffer.Valid.{IsValid, view}

-- whether a carriage return and a newline stand side by side
abbrev pub has_crlf : List ℕ → Bool
has_crlf [] = false
has_crlf (c ∷ []) = false
has_crlf (c ∷ d ∷ bs) = (c == b'\r' && d == b'\n') || has_crlf (d ∷ bs)

has_crlf-snoc :
    (bs : List ℕ) (d c : ℕ)
    → has_crlf ((bs ++ d ∷ []) ++ c ∷ []) ≡ (has_crlf (bs ++ d ∷ []) || (d == b'\r' && c == b'\n'))
has_crlf-snoc [] d c = ground arith
has_crlf-snoc (b ∷ []) d c = ground arith
has_crlf-snoc (b ∷ b' ∷ bs) d c = ground (arith, has_crlf-snoc (b' ∷ bs) d c)

-- A byte that does not close the line brings no CRLF into it.
has_crlf-cons :
    (line : List ℕ) (c : ℕ)
    → has_crlf (reverse line) ≡ false
    → (ends_cr line && c == b'\n') ≡ false
    → has_crlf (reverse (c ∷ line)) ≡ false
has_crlf-cons [] c h k = refl
has_crlf-cons (d ∷ line) c h k = rw (
  reverse-cons c (d ∷ line),
  reverse-cons d line,
  has_crlf-snoc (reverse line) d c,
  k,
  ← reverse-cons d line,
  h,
)

shift : (line bs : List ℕ) (c : ℕ) → reverse (c ∷ line) ++ bs ≡ reverse line ++ c ∷ bs
shift line bs c = ap (λ l. l ++ bs) (reverse-cons c line) ∙ append_assoc (reverse line) (c ∷ []) bs

pub length-reverse : (xs : List ℕ) → length (reverse xs) ≡ length xs
length-reverse [] = refl
length-reverse (x ∷ xs) = omega (
  arith,
  ap length (reverse-cons x xs),
  length-append {0} (reverse xs) (x ∷ []),
  length-reverse xs,
)

-- What a scan of the bytes `bs` behind the line read so far finds, `rest` being what it leaves.
abbrev pub Finds : List ℕ → List ℕ → Scan → List ℕ → Type 0
Finds line bs (line_done l) rest =
    (reverse line ++ bs ≡ l ++ b'\r' ∷ b'\n' ∷ rest)
    × (has_crlf (l ++ b'\r' ∷ []) ≡ false)
    × (length l + 2 ≤ line_size)
Finds line bs line_too_long rest =
    (p : List ℕ) × (reverse line ++ bs ≡ p ++ rest) × (has_crlf p ≡ false) × (length p ≡ line_size)
Finds line bs (drained line') rest =
    (reverse line' ≡ reverse line ++ bs)
    × (rest ≡ [])
    × (has_crlf (reverse line') ≡ false)
    × (length line' < line_size)
    × (length line' ≡ length line + length bs)

pub record Scanned (line : List ℕ) (rb : RecvBuf) (s : Scan) (rb' : RecvBuf) : Type 0 where
  pub valid : IsValid rb'
  pub same_fd : rb'.fd ≡ rb.fd
  pub finds : Finds line (view rb) s (view rb')

-- The byte at `pos` is the first of those that are not consumed.
view-cons :
    (rb : RecvBuf) (n : ℕ)
    → IsValid rb
    → rb.len - rb.pos ≡ suc n
    → view rb ≡ get_or rb.buf rb.pos 0 ∷ view (record rb { pos = add_size rb.pos 1 })
view-cons rb n v e =
    ap (slice rb.buf rb.pos) e
    ∙ take-drop-cons rb.buf rb.pos n 0 (omega (arith, v.sized, v.fits))
    ∙ ap₂ (λ i k. get_or rb.buf rb.pos 0 ∷ slice rb.buf i k) {x = suc rb.pos}
        (omega (arith, v.fits)) (omega (arith, v.fits))

-- A line that a newline ends: its last byte is a carriage return.
ends_cr_lem : (line : List ℕ) → ends_cr line ≡ true → reverse line ≡ without_last line ++ b'\r' ∷ []
ends_cr_lem [] h = absurd (cc)
ends_cr_lem (d ∷ line) h = reverse-cons d line ∙ ap (λ x. reverse line ++ x ∷ []) (ground arith)

length-without_last :
    (line : List ℕ) → ends_cr line ≡ true → length (without_last line) + 1 ≡ length line
length-without_last line h = omega (
  arith,
  length-reverse line,
  ap length (ends_cr_lem line h),
  length-append {0} (without_last line) (b'\r' ∷ []),
)

-- One more byte in the line is one less to scan.
Finds-cons :
    (line bs : List ℕ) (c : ℕ) (s : Scan) (rest : List ℕ)
    → Finds (c ∷ line) bs s rest
    → Finds line (c ∷ bs) s rest
Finds-cons line bs c (line_done l) rest f = (sym (shift line bs c) ∙ f.0, f.1, f.2)
Finds-cons line bs c line_too_long rest f = (f.0, sym (shift line bs c) ∙ f.1, f.2, f.3)
Finds-cons line bs c (drained line') rest f =
    (f.0 ∙ shift line bs c, f.1, f.2, f.3, omega (arith, f.4))

module _ (rb : RecvBuf) (line : List ℕ) (c : ℕ) (v : IsValid rb) (n : ℕ)
    (some_left : rb.len - rb.pos ≡ suc n) (byte : c ≡ get_or rb.buf rb.pos 0) where
  -- the buffer after the byte at `pos`
  abbrev next : RecvBuf
  next = record rb { pos = add_size rb.pos 1 }

  next-IsValid : IsValid next
  next-IsValid = record { consumed = omega (arith, v.fits); fits = v.fits; sized = v.sized }

  view-next : view rb ≡ c ∷ view next
  view-next = view-cons rb n v some_left ∙ ap (λ x. x ∷ view next) (sym byte)

  closing-Scanned :
      has_crlf (reverse line) ≡ false
      → length line < line_size
      → (ends_cr line && c == b'\n') ≡ true
      → Scanned line rb (line_done (without_last line)) next
  closing-Scanned no_crlf short h = record {
    valid = next-IsValid;
    same_fd = refl;
    finds = (
      ap (λ l. reverse line ++ l) view-next
          ∙ ap₂ (λ l x. l ++ x ∷ view next) ended newline
          ∙ append_assoc (without_last line) (b'\r' ∷ []) (b'\n' ∷ view next),
      ap has_crlf (sym ended) ∙ no_crlf,
      omega (arith, length-without_last line (ground arith)),
    );
  }
    where
      ended : reverse line ≡ without_last line ++ b'\r' ∷ []
      ended = ends_cr_lem line (ground arith)

      newline : c ≡ b'\n'
      newline = ground arith

  long-Scanned :
      has_crlf (reverse line) ≡ false
      → (ends_cr line && c == b'\n') ≡ false
      → length line + 1 ≡ line_size
      → Scanned line rb line_too_long next
  long-Scanned no_crlf h full = record {
    valid = next-IsValid;
    same_fd = refl;
    finds = (
      reverse (c ∷ line),
      ap (λ l. reverse line ++ l) view-next ∙ sym (shift line (view next) c),
      has_crlf-cons line c no_crlf h,
      length-reverse (c ∷ line) ∙ omega arith,
    );
  }

  more-Scanned : (s : Scan) (rb' : RecvBuf) → Scanned (c ∷ line) next s rb' → Scanned line rb s rb'
  more-Scanned s rb' k = record {
    valid = k.valid;
    same_fd = k.same_fd;
    finds = rw view-next (Finds-cons line (view next) c s (view rb') k.finds);
  }

pub scan-Scanned :
    (n : ℕ) (line : List ℕ) (rb : RecvBuf)
    → IsValid rb
    → rb.len - rb.pos ≡ n
    → has_crlf (reverse line) ≡ false
    → length line < line_size
    → let (s, rb') = scan n line rb in Scanned line rb s rb'
unfolding scan
scan-Scanned zero line rb v e no_crlf short = record {
  valid = v;
  same_fd = refl;
  finds = (
    sym (ap (λ l. reverse line ++ l) none_left ∙ append-nil (reverse line)),
    none_left,
    no_crlf,
    short,
    omega (arith, ap length none_left),
  );
}
  where
    none_left : view rb ≡ []
    none_left = ap (slice rb.buf rb.pos) e
scan-Scanned (suc n) line rb v e no_crlf short = elim (Bool-cases (ends_cr line && c == b'\n')) [
  | inl closes ↦ rw closes (closing-Scanned rb line c v n e refl no_crlf short closes)
  | inr open_line ↦ rw open_line (elim (Bool-cases (ltb (length line) (line_size - 1))) [
    | inl room ↦ rw room (
        more-Scanned rb line c v n e refl _ _ (
          scan-Scanned n (c ∷ line) (next rb line c v n e refl) (next-IsValid rb line c v n e refl)
            (omega (arith, v.fits)) (has_crlf-cons line c no_crlf open_line)
            (omega (arith, ltb→lt _ _ room))))
    | inr full ↦
        rw full
          (long-Scanned rb line c v n e refl no_crlf open_line (omega (arith, ltb→ge _ _ full)))
  ])
]
  where
    c : ℕ
    c = get_or rb.buf rb.pos 0
