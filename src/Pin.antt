-- ===== src/Pin.antt =====
-- hsm-core/src/pin.rs: the PIN attempt counter, a tick log in a flash sector, and the backoff.
pub mod Ticks
pub mod Attempts
use picosignet.Prelude.{
  ℕ, zero, suc, ◌+◌, ◌*◌, ◌/◌, ◌%◌, ◌^◌, List, [], ◌∷◌, min, ltb, leb, ◌==◌, if◌then◌else◌, Exec,
  pure, ◌>>=◌, ◌>>◌, replicate,
}
use picosignet.Prelude.Bytes.{Bytes}
use picosignet.Hal.{HalError, pin_counter, FlashStore, sector_len, page_len}

-- The loop of `count`: the bytes before the first erased one.
unfoldable pub used_ticks : Bytes → ℕ
used_ticks [] = 0
used_ticks (b ∷ bs) = if b == 0xff then 0 else suc (used_ticks bs)

-- `page[within] = 0x00` on an erased page.
unfoldable pub tick_page : ℕ → ℕ → Bytes
tick_page zero within = []
tick_page (suc n) zero = 0x00 ∷ replicate n 0xff
tick_page (suc n) (suc within) = 0xff ∷ tick_page n within

module _ {F : Type 0} ⦃fs : FlashStore F⦄ where
  unfoldable pub count : Exec HalError F ℕ
  count = do buf ← fs.read pin_counter; pure (used_ticks buf)

  unfoldable pub tick : Exec HalError F ℕ
  tick = do
    n ← count
    if leb sector_len n then pure n else do
      fs.program pin_counter (n / page_len * page_len) (tick_page page_len (n % page_len))
      pure (n + 1)

  unfoldable pub reset : Exec HalError F (Unit {0})
  reset = fs.erase pin_counter

-- `min(250ms · 2^failed, 30s)` on u32.
unfoldable pub backoff_ms : ℕ → ℕ
backoff_ms failed_attempts =
    if leb 7 failed_attempts then 30000 else min (250 * 2 ^ failed_attempts % 2 ^ 32) 30000
