-- ===== src/Storage/Histories.antt =====
-- hsm-core/src/storage.rs, `AbPair` over a NOR flash: what any run of writes, complete or cut off,
-- leaves.
use picosignet.Prelude.{◌+◌, ◌^◌, ◌<◌, ◌≡◌, ◌≢◌, none, ok, All}
use picosignet.Prelude.Bytes.{Bytes, IsByte}
use picosignet.Hal.{FlashStore}
use picosignet.Hal.Nor.{NorFlash}
use picosignet.Storage.Record.{Crc, parse_record}
use picosignet.Storage.AbPair.{AbPair, write}
use picosignet.Storage.Stored.{stored}
use picosignet.Storage.Pairs.{IsPair, number}
use picosignet.Storage.PowerFail.{IsTorn, write-IsPair, torn-stored}

module _ {F : Type 0} ⦃fs : FlashStore F⦄ ⦃crc : Crc⦄ (nor : NorFlash fs) where
  open nor use {cell}

  -- The flashes that a pair without a valid record can come to by writes that succeed and writes that
  -- are cut off, while the numbers of the records have not run out of 32 bits.
  pub data Writes (pair : AbPair) : F → Type 0 where
    blank :
        (f : F)
        → parse_record (cell f pair.a) ≡ none
        → parse_record (cell f pair.b) ≡ none
        → Writes pair f
    done :
        {f : F}
        → Writes pair f
        → (p : Bytes) → All IsByte p
        → number (parse_record (cell f pair.a)) + 1 < 2 ^ 32
        → number (parse_record (cell f pair.b)) + 1 < 2 ^ 32
        → (write pair p f).0 ≡ ok tt
        → Writes pair (write pair p f).1
    cut : {f : F} → Writes pair f → (p : Bytes) (g : F) → IsTorn nor pair p f g → Writes pair g

  Writes-IsPair :
      {pair : AbPair} {f : F}
      → pair.a ≢ pair.b
      → Writes pair f
      → IsPair (parse_record (cell f pair.a)) (parse_record (cell f pair.b))
  Writes-IsPair ne (blank f ea eb) = rw (ea, eb) tt
  Writes-IsPair {pair = pair} ne (done {f = f} w p hp ha hb e) =
      write-IsPair nor pair p f ne hp ha hb (Writes-IsPair ne w) e
  Writes-IsPair {pair = pair} ne (cut {f = f} w p g torn) =
      (torn-stored nor pair p f g ne (Writes-IsPair ne w) torn).1

  -- On a NOR flash, for a pair of two different sectors, after any run of writes that succeeded or were
  -- cut off, from a pair without a valid record and with record numbers that have not run out of 32
  -- bits: one more write that is cut off, so that the sector that it was replacing holds no valid
  -- record and every other sector is as the write leaves it, leaves stored what was stored before.
  pub torn_write :
      (pair : AbPair) (p : Bytes) (f g : F)
      → pair.a ≢ pair.b
      → Writes pair f
      → IsTorn nor pair p f g
      → stored nor pair g ≡ stored nor pair f
  torn_write pair p f g ne w torn = (torn-stored nor pair p f g ne (Writes-IsPair ne w) torn).0
