-- ===== src/Firmware/FlashHal.antt =====
-- hsm-fw/src/flash_hal.rs: the flash store over the chip's flash, whose driver is a parameter.
pub mod IsNor
use picosignet.Prelude.{
  ℕ, ◌+◌, Option, none, some, Result, ok, err, Exec, map_err, ltb, if◌then◌else◌, length, replicate,
}
use picosignet.Prelude.Bytes.{Bytes, be64}
use picosignet.Hal.{
  HalError, flash, out_of_range, Region, time_a, time_b, config_a, config_b, key_a, key_b,
  pin_counter, FlashStore, sector_len,
}

-- `embassy_rp::flash::Flash`, whose errors the source does not look into.
pub record Chip (D : Type 0) : Type 0 where
  pub blocking_read : ℕ → ℕ → Exec (Unit {0}) D Bytes
  pub blocking_erase : ℕ → ℕ → Exec (Unit {0}) D (Unit {0})
  pub blocking_write : ℕ → Bytes → Exec (Unit {0}) D (Unit {0})

pub record EmbassyFlash (D : Type 0) : Type 0 where
  pub chip : D
  pub id : Bytes
  pub otp_secret : Result HalError Bytes

-- `EmbassyFlash::new`, with what `get_chipid` gives.
unfoldable pub new : {D : Type 0} → D → Option ℕ → Result HalError Bytes → EmbassyFlash D
new chip chip_id otp_secret = record {
  chip = chip;
  id = elim chip_id [ some n ↦ be64 n | none ↦ replicate 8 0 ];
  otp_secret = otp_secret;
}

unfoldable pub base : Region → ℕ
base time_a = 0x3f8000
base time_b = 0x3f9000
base config_a = 0x3fa000
base config_b = 0x3fb000
base key_a = 0x3fc000
base key_b = 0x3fd000
base pin_counter = 0x3fe000

module _ {D : Type 0} ⦃ch : Chip D⦄ where
  -- A step of the chip, whose failure is a flash error.
  abbrev pub on_chip : {A : Type 0} → Exec (Unit {0}) D A → Exec HalError (EmbassyFlash D) A
  on_chip m f = (map_err (λ _. flash) (m f.chip).0, record f { chip = (m f.chip).1 })

  -- Its callers' buffers hold a sector, as the trait's do here.
  unfoldable pub read : Region → Exec HalError (EmbassyFlash D) Bytes
  read region = on_chip (ch.blocking_read (base region) sector_len)

  unfoldable pub erase : Region → Exec HalError (EmbassyFlash D) (Unit {0})
  erase region = on_chip (ch.blocking_erase (base region) (base region + sector_len))

  unfoldable pub program : Region → ℕ → Bytes → Exec HalError (EmbassyFlash D) (Unit {0})
  program region offset page f =
      if ltb sector_len (offset + length page)
      then (err out_of_range, f)
      else on_chip (ch.blocking_write (base region + offset) page) f

  instance abbrev pub embassy_flash : FlashStore (EmbassyFlash D)
  embassy_flash = record {
    read = read;
    erase = erase;
    program = program;
    unique_id = λ f. f.id;
    device_secret = λ f. f.otp_secret;
  }
