-- ===== src/Sshwire/Panic.antt =====
-- hsm-core/src/sshwire.rs: where an addition of `usize` overflows.
use picosignet.Prelude.{overflows, ℕ, ◌+◌, ◌≡◌, ◌≤◌, ◌<◌, arith, ◌++◌, err, ok, length}
use picosignet.Prelude.Bytes.{Bytes, be32, of_be32-be32}
use picosignet.Sshwire.Reader.{Target, Reader, new, has, advance, read_string}
use picosignet.Sshwire.Key.{KeyCrates, Algo}
use picosignet.Sshwire.Line.{parse_blob}

module _ ⦃t : Target⦄ where
  has-overflows : (n : ℕ) (r : Reader) → t.usize_max < r.pos + n → has n r ≡ (err overflows, r)
  unfolding has
  has-overflows n r h = ground arith

  has_first :
      (r : Reader) → r.pos + 4 ≤ length r.buf → r.pos + 4 ≤ t.usize_max → has 4 r ≡ (ok tt, r)
  unfolding has
  has_first r a b = ground arith

  read_string-overflows :
      (n : ℕ) (tail : Bytes)
      → n < 4294967296
      → 4 ≤ t.usize_max
      → t.usize_max < 4 + n
      → (read_string (new (be32 n ++ tail))).0 ≡ err overflows
  unfolding read_string advance new
  read_string-overflows n tail small four past = rw (
    has_first (record { buf = be32 n ++ tail; pos = 0 }) (omega arith) (omega arith),
    of_be32-be32 n tail small,
    has-overflows n (record { buf = be32 n ++ tail; pos = 4 }) past,
  )

  -- Where the length that a key's blob begins with passes the platform's word by the four bytes
  -- already read, reading the key panics: on a 32-bit device, for each of the four largest lengths.
  pub parse_blob-overflows :
      ⦃kc : KeyCrates⦄ (algo : Algo) (n : ℕ) (tail : Bytes)
      → n < 4294967296
      → 4 ≤ t.usize_max
      → t.usize_max < 4 + n
      → parse_blob algo (be32 n ++ tail) ≡ err overflows
  unfolding parse_blob
  parse_blob-overflows algo n tail small four past =
      rw (read_string-overflows n tail small four past)
