-- ===== src/Sshwire/Reader.antt =====
-- hsm-core/src/sshwire.rs: the cursor over wire bytes. A `usize` addition that overflows panics,
-- since `overflow-checks` is on in the release profile of Cargo.toml.
use picosignet.Prelude.{
  Fault, fails, overflows, ℕ, ◌+◌, Bool, Exec, ok, err, pure, ◌>>=◌, ◌>>◌, ltb, leb, if◌then◌else◌,
  length, drop,
}
use picosignet.Prelude.Bytes.{Bytes, of_be32, slice}

-- The platform's word: `usize::MAX`.
pub record Target : Type 0 where
  pub usize_max : ℕ

pub data KeyError : Type 0 where
  parse options trailing : KeyError
  rejected : Bytes → KeyError

pub record Reader : Type 0 where
  pub buf : Bytes
  pub pos : ℕ

unfoldable pub new : Bytes → Reader
new buf = record { buf = buf; pos = 0 }

-- `Reader` methods that may fail.
abbrev pub Read : Type 0 → Type 0
Read A = Exec (Fault KeyError) Reader A

unfoldable pub is_empty : Reader → Bool
is_empty r = leb (length r.buf) r.pos

unfoldable pub position : Reader → ℕ
position r = r.pos

module _ ⦃t : Target⦄ where
  -- The bound check `self.buf.len() < self.pos + n`.
  unfoldable pub has : ℕ → Read (Unit {0})
  has n r =
      if ltb t.usize_max (r.pos + n)
      then (err overflows, r)
      else if ltb (length r.buf) (r.pos + n)
      then (err (fails parse), r)
      else (ok tt, r)

  -- `self.pos += n`, after its check.
  unfoldable pub advance : ℕ → Read (Unit {0})
  advance n r = (ok tt, record r { pos = r.pos + n })

  unfoldable pub read_string : Read Bytes
  read_string = do
    has 4
    len ← λ r. (ok (of_be32 (drop r.pos r.buf)), r)
    advance 4
    has len
    s ← λ r. (ok (slice r.buf r.pos (r.pos + len)), r)
    advance len
    pure s

  unfoldable pub skip : ℕ → Read (Unit {0})
  skip n = do has n; advance n
