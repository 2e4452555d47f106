-- ===== src/Storage/AbPair.antt =====
-- hsm-core/src/storage.rs, `AbPair`: a record kept in two sectors, of which a write replaces the
-- older one.
use picosignet.Prelude.{
  ℕ, ◌+◌, ◌%◌, ◌^◌, max, [], ◌∷◌, Bool, true, ◌&&◌, Option, none, some, Result, ok, err, Exec, pure,
  ◌>>=◌, ◌>>◌, leb, ◌==◌, if◌then◌else◌, unwrap_or,
}
use picosignet.Prelude.Bytes.{Bytes}
use picosignet.Hal.{
  HalError, flash, Region, time_a, time_b, config_a, config_b, key_a, key_b, FlashStore,
}
use picosignet.Storage.Record.{Crc, parse_record, read_record, write_record}

pub record AbPair : Type 0 where
  pub a : Region
  pub b : Region

abbrev pub time_floor : AbPair
time_floor = record { a = time_a; b = time_b }

abbrev pub config_pair : AbPair
config_pair = record { a = config_a; b = config_b }

abbrev pub key_pair : AbPair
key_pair = record { a = key_a; b = key_b }

-- `Option::map(|(s, _)| s)`
abbrev pub seq_of : Option (ℕ × Bytes) → Option ℕ
seq_of none = none
seq_of (some (s, p)) = some s

-- The choice of `read_latest` between the two copies.
unfoldable pub latest : Option (ℕ × Bytes) → Option (ℕ × Bytes) → Option Bytes
latest none none = none
latest (some (s, p)) none = some p
latest none (some (s, p)) = some p
latest (some (sa, pa)) (some (sb, pb)) = if leb sb sa then some pa else some pb

pub data RecordState : Type 0 where
  erased : RecordState
  valid : ℕ → Bytes → RecordState
  invalid : RecordState

unfoldable pub all_ones : Bytes → Bool
all_ones [] = true
all_ones (x ∷ xs) = x == 0xff && all_ones xs

module _ ⦃crc : Crc⦄ where
  unfoldable pub record_state : Bytes → RecordState
  record_state buf =
      if all_ones buf
      then erased
      else elim (parse_record buf) [ some (seq, payload) ↦ valid seq payload | none ↦ invalid ]

-- The choice of `read_latest_fail_closed`.
unfoldable pub latest_state : RecordState → RecordState → Result HalError (Option Bytes)
latest_state (valid sa pa) (valid sb pb) = if leb sb sa then ok (some pa) else ok (some pb)
latest_state (valid s p) _ = ok (some p)
latest_state _ (valid s p) = ok (some p)
latest_state erased erased = ok none
latest_state _ _ = err flash

-- The copy that a write replaces; a missing one counts as sequence number 0.
unfoldable pub target : AbPair → Option ℕ → Option ℕ → Region
target pair sa sb = if leb (unwrap_or sa 0) (unwrap_or sb 0) then pair.a else pair.b

unfoldable pub next_seq : Option ℕ → Option ℕ → ℕ
next_seq sa sb = (max (unwrap_or sa 0) (unwrap_or sb 0) + 1) % 2 ^ 32

module _ {F : Type 0} ⦃fs : FlashStore F⦄ ⦃crc : Crc⦄ where
  unfoldable pub read_latest : AbPair → Exec HalError F (Option Bytes)
  read_latest pair = do ra ← read_record pair.a; rb ← read_record pair.b; pure (latest ra rb)

  unfoldable pub read_record_state : Region → Exec HalError F RecordState
  read_record_state region = do buf ← fs.read region; pure (record_state buf)

  unfoldable pub read_latest_fail_closed : AbPair → Exec HalError F (Option Bytes)
  read_latest_fail_closed pair = do
    ra ← read_record_state pair.a
    rb ← read_record_state pair.b
    λ f. (latest_state ra rb, f)

  unfoldable pub write : AbPair → Bytes → Exec HalError F (Unit {0})
  write pair payload = do
    ra ← read_record pair.a
    rb ← read_record pair.b
    write_record (target pair (seq_of ra) (seq_of rb)) (next_seq (seq_of ra) (seq_of rb)) payload

  unfoldable pub erase_both : AbPair → Exec HalError F (Unit {0})
  erase_both pair = do fs.erase pair.a; fs.erase pair.b
