-- ===== src/Dispatch/Boot.antt =====
-- hsm-core/src/dispatch.rs, `boot` and `load_from_flash`: the session that flash and entropy give.
use mathlib.Core.Option
use picosignet.Prelude.{
  Bool, true, false, ℕ, ◌+◌, ◌-◌, ◌/◌, true, false, ◌&&◌, Option, none, some, Result, ok, err, ltb,
  leb, ◌==◌, if◌then◌else◌, is_some, ok_or_else, length,
}
use picosignet.Prelude.Bytes.{Bytes, of_be64}
use picosignet.Prelude.Int.{of_u64}
use picosignet.Hal.{HalError, FlashStore, EntropySource, Monotonic}
use picosignet.Crypto.{Crypto, ChaCha}
use picosignet.Clock
use picosignet.Rng
use picosignet.Rng.{Drbg, seed}
use picosignet.Pin.{count, backoff_ms}
use picosignet.Storage.Record.{Crc}
use picosignet.Storage.AbPair.{
  read_latest, read_latest_fail_closed, config_pair, key_pair, time_floor,
}
use picosignet.Storage.Config.{
  Mode, dev, prod, DeviceConfig, KeyBlob, config_from_bytes, blob_from_bytes,
}
use picosignet.Wrap.{WrapError, derive_dev_kek, unwrap_seed}
use picosignet.Dispatch.Session.{
  Hsm, uninitialized, dev_ready, prod_locked, saturating_u64, drop_live_secrets, enter_locked_out,
}

-- `.ok().flatten().and_then(…)` on what a pair of sectors holds.
unfoldable pub decoded :
    {A : Type 0} → (Bytes → Option A) → Result HalError (Option Bytes) → Option A
decoded decode (ok (some b)) = decode b
decoded decode (ok none) = none
decoded decode (err e) = none

module _ {M : Type 0} ⦃mono : Monotonic M⦄ where
  -- The backoff that a boot reconstructs from the persisted counter.
  unfoldable pub boot_backoff : M → ℕ → ℕ
  boot_backoff m attempts =
      if ltb 0 attempts
      then saturating_u64 (mono.now_micros m / 1000 + backoff_ms (attempts - 1))
      else 0

module _ {E M F R : Type 0} ⦃mono : Monotonic M⦄ ⦃fs : FlashStore F⦄ ⦃crc : Crc⦄ ⦃cr : Crypto⦄ where
  -- The match on the stored time floor.
  unfoldable pub load_floor : Result HalError (Option Bytes) → Hsm E M F R → Hsm E M F R
  load_floor (ok (some bytes)) h =
      if length bytes == 8
      then record h {
        trusted_time_floor = some (of_u64 (of_be64 bytes));
        trusted_time_floor_unavailable = false;
      }
      else record h { trusted_time_floor = none; trusted_time_floor_unavailable = true }
  load_floor (ok none) h = record h {
    trusted_time_floor = none;
    trusted_time_floor_unavailable = false;
  }
  load_floor (err e) h = record h {
    trusted_time_floor = none;
    trusted_time_floor_unavailable = true;
  }

  -- The match on the opened blob.
  unfoldable pub with_dev_seed : Result WrapError Bytes → Hsm E M F R → Hsm E M F R
  with_dev_seed (ok seed) h = record h { ca = some seed }
  with_dev_seed (err e) h = h

  -- The key of a dev device, if its blob opens.
  unfoldable pub load_dev_key : Bytes → Option KeyBlob → Hsm E M F R → Hsm E M F R
  unfolding with_dev_seed
  load_dev_key kek none h = h
  load_dev_key kek (some kb) h = with_dev_seed (unwrap_seed kek kb) h

  -- The match on the device secret.
  unfoldable pub load_dev_secret :
      Option KeyBlob → Result HalError Bytes → Hsm E M F R → Hsm E M F R
  unfolding load_dev_key
  load_dev_secret keyblob (ok secret) h =
      let kek = derive_dev_kek secret in record (load_dev_key kek keyblob h) { wrap_kek = some kek }
  load_dev_secret keyblob (err e) h = h

  unfoldable pub load_dev : Option KeyBlob → Hsm E M F R → Hsm E M F R
  unfolding load_dev_secret
  load_dev keyblob h =
      load_dev_secret keyblob (fs.device_secret h.flash)
        (record h { state = dev_ready; pin_backoff_until_ms = 0 })

  -- The choice between the two states of a production device at boot.
  unfoldable pub lockout_check : Bool → Hsm E M F R → Hsm E M F R
  unfolding enter_locked_out
  lockout_check true h = enter_locked_out h
  lockout_check false h = record h { state = prod_locked }

  unfoldable pub load_prod : DeviceConfig → Option KeyBlob → Hsm E M F R → Hsm E M F R
  unfolding drop_live_secrets lockout_check
  load_prod c keyblob h =
      let h' = drop_live_secrets h in
      let (counted, flash') = count h.flash in
      let attempts = ok_or_else counted 0 in
      let h'' = record h' { flash = flash'; pin_backoff_until_ms = boot_backoff h.mono attempts } in
      lockout_check (is_some keyblob && leb c.max_retries attempts) h''

  unfoldable pub load_mode : Mode → DeviceConfig → Option KeyBlob → Hsm E M F R → Hsm E M F R
  unfolding load_dev load_prod
  load_mode dev c keyblob h = load_dev keyblob h
  load_mode prod c keyblob h = load_prod c keyblob h

  unfoldable pub load_config : Option DeviceConfig → Option KeyBlob → Hsm E M F R → Hsm E M F R
  unfolding load_mode
  load_config none keyblob h = record h {
    config = none;
    state = uninitialized;
    ca = none;
    wrap_kek = none;
    pin_backoff_until_ms = 0;
  }
  load_config (some c) keyblob h = load_mode c.mode c keyblob (record h { config = some c })

  unfoldable pub load_from_flash : Hsm E M F R → Hsm E M F R
  load_from_flash h =
      let (rc, f1) = read_latest config_pair h.flash in
      let (rk, f2) = read_latest key_pair f1 in
      let (rt, f3) = read_latest_fail_closed time_floor f2 in
      let keyblob = decoded blob_from_bytes rk in
      let h' = load_floor rt (record h { flash = f3 }) in
      load_config (decoded config_from_bytes rc) keyblob
        (record h' { ca_pubkey = Option.map (λ kb. kb.pubkey) keyblob; wrap_salt = none })

module _ {E M F R : Type 0} ⦃src : EntropySource E⦄ ⦃mono : Monotonic M⦄ ⦃fs : FlashStore F⦄
    ⦃crc : Crc⦄ ⦃cr : Crypto⦄ ⦃gen : ChaCha R⦄ where
  unfoldable pub boot : E → M → F → Hsm E M F R
  boot entropy mono' flash =
      let (drbg, entropy') = (seed (Rng.new, entropy)).1 in
      load_from_flash (record {
        entropy = entropy';
        mono = mono';
        flash = flash;
        drbg = drbg;
        clock = Clock.new;
        state = uninitialized;
        config = none;
        ca = none;
        ca_pubkey = none;
        wrap_kek = none;
        wrap_salt = none;
        pin_backoff_until_ms = 0;
        trusted_time_floor = none;
        trusted_time_floor_unavailable = false;
        physical_recovery_authorized = false;
        heap_free = 0;
        glitch_armed = false;
        secure_boot = false;
        glitch_reset = false;
        reboot_requested = false;
      })
