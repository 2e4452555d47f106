-- ===== src/Sshwire/Cursor.antt =====
-- hsm-core/src/sshwire.rs: what the cursor reads, and that it reads back what `put_string` writes.
use picosignet.Prelude.{
  sym, take-drop, All-drop, length-take, ◌>>=◌, ℕ, ◌+◌, ◌-◌, ◌≡◌, ◌≤◌, ◌<◌, refl, ok, arith, ◌++◌,
  length, drop, take, All, length-drop, length-append, take-append, drop-append, drop-add, ap, ◌∙◌,
}
use picosignet.Prelude.Bytes.{Bytes, IsByte, of_be32, slice, of_be32-be32, be32-of_be32}
use picosignet.Wrap.{put_string}
use picosignet.Sshwire.Reader.{Target, Reader, Read, has, advance, read_string}

-- What is left to read.
abbrev pub rest : Reader → Bytes
rest r = drop r.pos r.buf

-- The cursor stays in its buffer.
abbrev pub InBounds : Reader → Type 0
InBounds r = r.pos ≤ length r.buf

module _ ⦃t : Target⦄ where
  has-ok :
      (n : ℕ) (r : Reader)
      → r.pos + n ≤ length r.buf
      → r.pos + n ≤ t.usize_max
      → has n r ≡ (ok tt, r)
  unfolding has
  has-ok n r a b = ground arith

  length-put_string : (s tail : Bytes) → length (put_string s ++ tail) ≡ 4 + length s + length tail
  unfolding put_string
  length-put_string s tail = omega (arith, length-append s tail)

  field_at :
      (s tail : Bytes) (r : Reader)
      → rest r ≡ put_string s ++ tail
      → length s < 4294967296
      → (of_be32 (rest r) ≡ length s) × (drop (r.pos + 4) r.buf ≡ s ++ tail)
  unfolding put_string
  field_at s tail r e small = (
    rw e (of_be32-be32 (length s) (s ++ tail) small),
    drop-add r.pos 4 r.buf ∙ ap (λ t. drop 4 t) e,
  )

  -- A field that `put_string` wrote is read back, and the cursor stands behind it.
  pub read_string-put_string :
      (s tail : Bytes) (r : Reader)
      → rest r ≡ put_string s ++ tail
      → InBounds r
      → length s < 4294967296
      → length r.buf ≤ t.usize_max
      → (read_string r ≡ (ok s, record r { pos = r.pos + 4 + length s }))
        × (rest (record r { pos = r.pos + 4 + length s }) ≡ tail)
        × (r.pos + 4 + length s ≤ length r.buf)
  unfolding read_string advance
  read_string-put_string s tail r e b small fits = (
    rw
        (
          has-ok 4 r (omega (arith, total)) (omega (arith, total)),
          f.0,
          has-ok (length s) (record r { pos = r.pos + 4 }) (omega (arith, total))
              (omega (arith, total)),
          f.1,
          n,
        )
        (ap (λ x. (ok x, record r { pos = r.pos + 4 + length s }))
          (take-append (length s) s tail refl)),
    drop-add (r.pos + 4) (length s) r.buf
        ∙ (ap (λ x. drop (length s) x) f.1 ∙ drop-append (length s) s tail refl),
    omega (arith, total),
  )
    where
      f : (of_be32 (rest r) ≡ length s) × (drop (r.pos + 4) r.buf ≡ s ++ tail)
      f = field_at s tail r e small

      n : r.pos + 4 + length s - (r.pos + 4) ≡ length s
      n = omega arith

      total : length r.buf ≡ r.pos + 4 + length s + length tail
      total = omega (arith, length-drop r.pos r.buf, ap length e, length-put_string s tail)

  -- A bound check that passes changes nothing.
  has-inv :
      {B : Type 0} (n : ℕ) (f : Unit {0} → Read B) (r : Reader) {r' : Reader} {b : B}
      → (has n >>= f) r ≡ (ok b, r')
      → (r.pos + n ≤ length r.buf) × (f tt r ≡ (ok b, r'))
  unfolding has
  has-inv n f r h = ground arith

  unfoldable pub read_bytes : Reader → Bytes
  read_bytes r = slice r.buf (r.pos + 4) (r.pos + 4 + of_be32 (rest r))

  unfoldable pub after_read : Reader → Reader
  after_read r = record r { pos = r.pos + 4 + of_be32 (rest r) }

  read_string-eq :
      (r : Reader) {r' : Reader} {s : Bytes}
      → read_string r ≡ (ok s, r')
      → (r.pos + 4 + of_be32 (rest r) ≤ length r.buf) × (read_bytes r ≡ s) × (after_read r ≡ r')
  unfolding read_string advance read_bytes after_read
  read_string-eq r {r'} {s} h =
      let (b1, k1) = has-inv 4 _ r h in
      let (b2, k2) = has-inv (of_be32 (rest r)) _ (record r { pos = r.pos + 4 }) k1 in
      (b2, ground (arith, k2), ground (arith, k2))

  read_bytes-eq : (r : Reader) → read_bytes r ≡ take (of_be32 (rest r)) (drop (r.pos + 4) r.buf)
  unfolding read_bytes
  read_bytes-eq r =
      let n : r.pos + 4 + of_be32 (rest r) - (r.pos + 4) ≡ of_be32 (rest r) = omega arith in
      ap (λ k. take k (drop (r.pos + 4) r.buf)) n

  length-read_bytes :
      (r : Reader)
      → r.pos + 4 + of_be32 (rest r) ≤ length r.buf
      → length (read_bytes r) ≡ of_be32 (rest r)
  length-read_bytes r b = omega (
    arith,
    ap length (read_bytes-eq r),
    length-take (of_be32 (rest r)) (drop (r.pos + 4) r.buf),
    length-drop (r.pos + 4) r.buf,
  )

  -- The bytes that are left begin with the field that is read.
  rest-eq :
      (r : Reader)
      → All IsByte r.buf
      → r.pos + 4 + of_be32 (rest r) ≤ length r.buf
      → rest r ≡ put_string (read_bytes r) ++ rest (after_read r)
  unfolding after_read put_string
  rest-eq r bytes b =
      rw
        (
          length-read_bytes r b,
          read_bytes-eq r,
          drop-add (r.pos + 4) (of_be32 (rest r)) r.buf,
          take-drop (of_be32 (rest r)) (drop (r.pos + 4) r.buf),
          drop-add r.pos 4 r.buf,
        )
        (sym (
          be32-of_be32 (rest r) (omega (arith, length-drop r.pos r.buf))
            (All-drop IsByte r.pos r.buf bytes)))

  -- What a successful read took is a field that `put_string` writes.
  pub read_string-inv :
      (r : Reader) {r' : Reader} {s : Bytes}
      → All IsByte r.buf
      → read_string r ≡ (ok s, r')
      → (rest r ≡ put_string s ++ rest r') × (r'.buf ≡ r.buf) × InBounds r'
  unfolding after_read
  read_string-inv r bytes h =
      let (b, es, er) = read_string-eq r h in rw (← es, ← er) (rest-eq r bytes b, refl, b)
