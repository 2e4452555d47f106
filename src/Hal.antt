-- ===== src/Hal.antt =====
-- hsm-core/src/hal.rs: the hardware traits. A trait is a record of operations over an implementing
-- type; a method with `&mut self` is a step over that type.
pub mod Nor
pub mod Mock
pub mod Snapshot
pub mod Programming
pub mod Sources
use picosignet.Prelude.{ℕ, Exec, Result}
use picosignet.Prelude.Bytes.{Bytes}

pub data HalError : Type 0 where
  flash entropy out_of_range secret : HalError

pub data Region : Type 0 where
  time_a time_b config_a config_b key_a key_b pin_counter : Region

abbrev pub sector_len : ℕ
sector_len = 4096

abbrev pub page_len : ℕ
page_len = 256

-- `read` fills a whole sector's buffer, so it returns the sector.
pub record FlashStore (F : Type 0) : Type 0 where
  pub read : Region → Exec HalError F Bytes
  pub erase : Region → Exec HalError F (Unit {0})
  pub program : Region → ℕ → Bytes → Exec HalError F (Unit {0})
  pub unique_id : F → Bytes
  pub device_secret : F → Result HalError Bytes

pub record EntropySource (E : Type 0) : Type 0 where
  pub fill_raw : ℕ → Exec HalError E Bytes

pub record Monotonic (M : Type 0) : Type 0 where
  pub now_micros : M → ℕ
  pub delay_ms : ℕ → M → M
