-- ===== src/Dispatch/Pins.antt =====
-- hsm-core/src/dispatch.rs, the helpers around the PIN: `verify_pin`, the verified wipe, the counter's
-- reset and the relock.
use picosignet.Prelude.{
  ℕ, zero, suc, ◌+◌, ◌-◌, ◌/◌, ◌%◌, ◌^◌, Bool, true, false, ◌&&◌, ◌||◌, Option, none, some, Result,
  ok, err, Exec, pure, raise, ◌>>=◌, ◌>>◌, ltb, leb, if◌then◌else◌,
}
use picosignet.Prelude.Bytes.{Bytes}
use picosignet.Hal.{HalError, FlashStore, Monotonic}
use picosignet.Crypto.{Crypto}
use picosignet.Pin.{count, tick, reset, backoff_ms}
use picosignet.Storage.Record.{Crc}
use picosignet.Storage.AbPair.{read_latest, erase_both, key_pair}
use picosignet.Storage.Config.{dev, prod, DeviceConfig, blob_from_bytes}
use picosignet.Wrap.{WrapError, derive_pin_kek, unwrap_seed}
use picosignet.Proto.{
  err_flash, err_busy, err_internal, err_no_key, err_locked_out, err_bad_pin, pin_error,
}
use picosignet.Dispatch.Session.{
  DeviceState, prod_locked, prod_ready, locked_out, Hsm, Stop, responds, saturating_u64, on_flash,
  modify, require, require_some, current_config, drop_live_secrets, enter_locked_out,
}

-- The seed, the KEK and the salt that a verified PIN brings.
abbrev pub UnlockedSeed : Type 0
UnlockedSeed = Bytes × Bytes × Bytes

-- Whether the last read shows that no valid record remains.
unfoldable pub gone : Result HalError (Option Bytes) → Bool
gone (ok none) = true
gone _ = false

abbrev pub is_production : DeviceState → Bool
is_production prod_locked = true
is_production prod_ready = true
is_production locked_out = true
is_production _ = false

abbrev pub is_prod_config : Option DeviceConfig → Bool
is_prod_config none = false
is_prod_config (some c) = elim c.mode [ prod ↦ true | dev ↦ false ]

abbrev pub relocked : DeviceState → DeviceState
relocked prod_ready = prod_locked
relocked s = s

module _ {E M F R : Type 0} where
  unfoldable pub relock_if : Bool → Hsm E M F R → Hsm E M F R
  unfolding drop_live_secrets
  relock_if true h = record (drop_live_secrets h) { state = relocked h.state }
  relock_if false h = h

  unfoldable pub relock_on_transport_reset : Hsm E M F R → Hsm E M F R
  unfolding relock_if
  relock_on_transport_reset h = relock_if (is_production h.state || is_prod_config h.config) h

module _ {E M F R : Type 0} ⦃fs : FlashStore F⦄ ⦃crc : Crc⦄ where
  -- The loop of `erase_key_verified`, with the rounds left.
  unfoldable pub erase_key_rounds : ℕ → Exec Stop (Hsm E M F R) Bool
  erase_key_rounds zero = pure false
  erase_key_rounds (suc n) = do
    on_flash (erase_both key_pair)
    left ← on_flash (read_latest key_pair)
    elim (gone left) [ true ↦ pure true | false ↦ erase_key_rounds n ]

  unfoldable pub erase_key_verified : Exec Stop (Hsm E M F R) Bool
  erase_key_verified = erase_key_rounds 2

module _ {E M F R : Type 0} ⦃fs : FlashStore F⦄ where
  unfoldable pub device_secret : Exec Stop (Hsm E M F R) Bytes
  device_secret h = require (fs.device_secret h.flash) err_internal "device secret unavailable" h

  -- The loop of `reset_pin_counter_best_effort`.
  unfoldable pub reset_rounds : ℕ → Exec Stop (Hsm E M F R) (Unit {0})
  reset_rounds zero = pure tt
  reset_rounds (suc n) = do
    done ← on_flash reset
    elim done [
      | ok u ↦ modify (λ h. record h { pin_backoff_until_ms = 0 })
      | err e ↦ reset_rounds n
    ]

  unfoldable pub reset_pin_counter_best_effort : Exec Stop (Hsm E M F R) (Unit {0})
  reset_pin_counter_best_effort = reset_rounds 2

module _ {E M F R : Type 0} ⦃mono : Monotonic M⦄ ⦃fs : FlashStore F⦄ ⦃crc : Crc⦄ ⦃cr : Crypto⦄ where
  unfoldable pub now_ms : Hsm E M F R → ℕ
  now_ms h = mono.now_micros h.mono / 1000

  -- The gate before an attempt is counted.
  unfoldable pub check_backoff : DeviceConfig → ℕ → Exec Stop (Hsm E M F R) (Unit {0})
  check_backoff cfg prior_failures h =
      if ltb 0 prior_failures && ltb (now_ms h) h.pin_backoff_until_ms
      then (
        err (
            responds (
              pin_error err_busy "still backing off after a recent failed attempt"
                (cfg.max_retries - prior_failures) ((h.pin_backoff_until_ms - now_ms h) % 2 ^ 32))),
        h,
      )
      else (ok tt, h)

  -- The wipe at the end of the budget, where it is configured.
  unfoldable pub wipe : Bool → ℕ → Exec Stop (Hsm E M F R) (Unit {0})
  wipe false backoff = pure tt
  wipe true backoff = do
    done ← erase_key_verified
    elim done [
      | true ↦ modify (λ h. record h { ca_pubkey = none })
      | false ↦ raise (
          responds (
            pin_error err_flash "lockout reached but key wipe failed; key material may remain" 0
              backoff))
    ]

  -- What a PIN that does not open the blob costs.
  unfoldable pub wrong_pin : DeviceConfig → ℕ → Exec Stop (Hsm E M F R) UnlockedSeed
  wrong_pin cfg attempts = do
    let backoff = backoff_ms (attempts - 1)
    modify (λ h. record h { pin_backoff_until_ms = saturating_u64 (now_ms h + backoff) })
    elim (leb cfg.max_retries attempts) [
      | true ↦ do
        modify enter_locked_out
        wipe cfg.wipe_on_lockout backoff
        raise (responds (pin_error err_locked_out "too many attempts; device locked out" 0 backoff))
      | false ↦
          raise
            (responds (pin_error err_bad_pin "incorrect PIN" (cfg.max_retries - attempts) backoff))
    ]

  unfoldable pub judge :
      DeviceConfig
      → ℕ
      → Bytes
      → Bytes
      → Result WrapError Bytes
      → Exec Stop (Hsm E M F R) UnlockedSeed
  judge cfg attempts kek salt (ok seed) = do reset_pin_counter_best_effort; pure (seed, kek, salt)
  judge cfg attempts kek salt (err e) = wrong_pin cfg attempts

  unfoldable pub verify_pin : Bytes → Exec Stop (Hsm E M F R) UnlockedSeed
  verify_pin pin = do
    cfg ← current_config
    counted ← on_flash count
    prior_failures ← require counted err_flash "counter read failed"
    check_backoff cfg prior_failures
    ticked ← on_flash tick
    attempts ← require ticked err_flash "counter write failed"
    found ← on_flash (read_latest key_pair)
    stored ← require found err_flash "key read failed"
    bytes ← require_some stored err_no_key "no CA key present"
    blob ← require_some (blob_from_bytes bytes) err_internal "corrupt key blob"
    secret ← device_secret
    kek ←
        require (derive_pin_kek pin blob.salt cfg.argon2 secret) err_internal
          "key derivation failed"
    judge cfg attempts kek blob.salt (unwrap_seed kek blob)
