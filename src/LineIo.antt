-- ===== src/LineIo.antt =====
-- hsm-core/src/lineio.rs: newline-delimited lines out of single bytes, with a size cap.
pub mod Framing
use picosignet.Prelude.{
  ◌*◌, ℕ, List, [], ◌∷◌, ◌++◌, Bool, true, false, Option, none, some, leb, ◌==◌, if◌then◌else◌,
  length,
}
use picosignet.Prelude.Bytes.{Bytes}

abbrev pub max_line : ℕ
max_line = 16 * 1024

pub data Event : Type 0 where
  line : Bytes → Event
  too_long : Event

pub record LineAssembler : Type 0 where
  pub buf : Bytes
  pub overflowed : Bool

abbrev pub new : LineAssembler
new = record { buf = []; overflowed = false }

-- `if self.buf.last() == Some(&b'\r') { self.buf.pop(); }`
unfoldable pub trim_cr : Bytes → Bytes
trim_cr [] = []
trim_cr (x ∷ []) = if x == 13 then [] else x ∷ []
trim_cr (x ∷ y ∷ rest) = x ∷ trim_cr (y ∷ rest)

unfoldable pub push : ℕ → LineAssembler → Option Event × LineAssembler
push b s =
    if b == 10
    then if s.overflowed
      then (some too_long, new)
      else (some (line (trim_cr s.buf)), record s { buf = [] })
    else if s.overflowed
    then (none, s)
    else if leb max_line (length s.buf)
    then (none, record { buf = []; overflowed = true })
    else (none, record s { buf = s.buf ++ b ∷ [] })

-- The bytes of a transfer, one by one, and the events that they bring.
unfoldable pub feed : Bytes → LineAssembler → List Event × LineAssembler
feed [] s = ([], s)
feed (b ∷ bs) s =
    let (e, s') = push b s in
    let (es, s'') = feed bs s' in (elim e [ none ↦ es | some x ↦ x ∷ es ], s'')
