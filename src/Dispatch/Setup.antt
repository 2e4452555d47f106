-- ===== src/Dispatch/Setup.antt =====
-- hsm-core/src/dispatch.rs, `hsm_init`, the constants and the entropy for key material.

use picosignet.Prelude.{
  not, Result, ℕ, zero, suc, ◌+◌, ◌-◌, ◌*◌, List, [], ◌∷◌, Bool, true, false, ◌&&◌, Option, none,
  some, ok, Exec, pure, ◌>>=◌, ◌>>◌, ltb, leb, ◌==◌, if◌then◌else◌, is_some, unwrap_or, length,
}
use picosignet.Prelude.Bytes.{Bytes, codes, beq_bytes}
use picosignet.Hal.{HalError, FlashStore, EntropySource}
use picosignet.Crypto.{Crypto, ChaCha}
use picosignet.Rng.{Drbg, seed, reseed, fill_bytes}
use picosignet.Storage.Record.{Crc}
use picosignet.Storage.AbPair.{write, config_pair, key_pair}
use picosignet.Storage.Config.{
  Argon2Params, DeviceConfig, dev, prod, pin_kek, config_to_bytes, blob_to_bytes,
}
use picosignet.Wrap.{derive_dev_kek, derive_pin_kek, wrap_seed, public_bytes}
use picosignet.Proto.{
  InitReq, HsmResponse, empty, err_bad_request, err_already_init, err_bad_mode, err_entropy,
  err_flash, err_internal,
}
use picosignet.Dispatch.Session.{
  Hsm, Stop, dev_ready, prod_locked, on_flash, modify, refuse, require, require_that,
}
use picosignet.Dispatch.Pins.{device_secret, reset_pin_counter_best_effort}

abbrev pub default_argon : Argon2Params
default_argon = record { m_cost = 256; t_cost = 14; parallelism = 1 }

abbrev pub pin_min : ℕ
pin_min = 6

abbrev pub pin_max : ℕ
pin_max = 64

-- `(PIN_MIN..=PIN_MAX).contains(&p.len())`
unfoldable pub pin_length_ok : Bytes → Bool
pin_length_ok pin = leb pin_min (length pin) && leb (length pin) pin_max

-- `CARGO_PKG_VERSION`, which the workspace's Cargo.toml sets.
abbrev pub fw_version : Bytes
fw_version = codes "0.3.0"

-- `str::split('.')`, from the part that is being read.
unfoldable pub split_dots : Bytes → List Bytes
split_dots [] = [] ∷ []
split_dots (c ∷ cs) =
    if c == 46
    then [] ∷ split_dots cs
    else elim (split_dots cs) [ [] ↦ (c ∷ []) ∷ [] | part ∷ parts ↦ (c ∷ part) ∷ parts ]

-- `parse::<u8>()` of a part without a sign, `.unwrap_or(0)` included.
unfoldable pub digits : ℕ → Bytes → Option ℕ
digits n [] = some n
digits n (c ∷ cs) =
    if leb 48 c && leb c 57 && leb (n * 10 + (c - 48)) 255
    then digits (n * 10 + (c - 48)) cs
    else none

unfoldable pub parse_u8 : Bytes → ℕ
unfolding digits
parse_u8 [] = 0
parse_u8 (c ∷ cs) = unwrap_or (digits 0 (c ∷ cs)) 0

unfoldable pub nth_part : ℕ → List Bytes → ℕ
nth_part n [] = 0
nth_part zero (p ∷ ps) = parse_u8 p
nth_part (suc n) (p ∷ ps) = nth_part n ps

unfoldable pub fw_version_triple : Bytes
fw_version_triple =
    let parts = split_dots fw_version in nth_part 0 parts ∷ nth_part 1 parts ∷ nth_part 2 parts ∷ []

module _ {E R : Type 0} ⦃src : EntropySource E⦄ ⦃cr : Crypto⦄ ⦃gen : ChaCha R⦄ where
  unfoldable pub ensure_seeded : Exec HalError (Drbg R × E) (Unit {0})
  ensure_seeded (d, e) = if d.seeded then (ok tt, (d, e)) else seed (d, e)

  unfoldable pub prepare_keygen_entropy : Exec HalError (Drbg R × E) (Unit {0})
  prepare_keygen_entropy = do ensure_seeded; reseed

module _ {E M F R : Type 0} ⦃src : EntropySource E⦄ ⦃cr : Crypto⦄ ⦃gen : ChaCha R⦄ where
  -- `self.prepare_keygen_entropy()`, its result kept as a value.
  unfoldable pub prepared : Exec Stop (Hsm E M F R) (Result HalError (Unit {0}))
  prepared h =
      let (r, (d, e)) = prepare_keygen_entropy (h.drbg, h.entropy) in
      (ok r, record h { drbg = d; entropy = e })

  unfoldable pub fresh_entropy : Exec Stop (Hsm E M F R) (Unit {0})
  fresh_entropy = do r ← prepared; require r err_entropy "entropy source unhealthy"

  -- `self.drbg.random_array::<N>()`
  unfoldable pub draw : ℕ → Exec Stop (Hsm E M F R) Bytes
  draw n h = let (out, d) = fill_bytes n h.drbg in (ok out, record h { drbg = d })

module _ {E M F R : Type 0} ⦃fs : FlashStore F⦄ ⦃crc : Crc⦄ where
  -- `storage::KEY.write(…)`, with the response to its failure.
  unfoldable pub write_key : Bytes → Exec Stop (Hsm E M F R) (Unit {0})
  write_key bytes = do
    wrote ← on_flash (write key_pair bytes)
    require wrote err_flash "failed to write key"

  unfoldable pub write_config : DeviceConfig → Exec Stop (Hsm E M F R) (Unit {0})
  write_config cfg = do
    wrote ← on_flash (write config_pair (config_to_bytes cfg))
    require wrote err_flash "failed to write config"

-- The configurations that `hsm_init` writes.
unfoldable pub dev_config : DeviceConfig
dev_config = record {
  mode = dev;
  argon2 = default_argon;
  max_retries = 0;
  wipe_on_lockout = false;
  fw_version = fw_version_triple;
}

unfoldable pub prod_config : InitReq → DeviceConfig
prod_config req = record {
  mode = prod;
  argon2 = default_argon;
  max_retries = unwrap_or req.max_retries 10;
  wipe_on_lockout = unwrap_or req.wipe_on_lockout false;
  fw_version = fw_version_triple;
}

abbrev pub init_response : Bytes → HsmResponse
init_response mode = record empty { init = some (record { ok = true; mode = mode }) }

module _ {E M F R : Type 0} where
  -- The session of a device that was set up for development.
  unfoldable pub as_dev : DeviceConfig → Bytes → Hsm E M F R → Hsm E M F R
  as_dev cfg kek h = record h { config = some cfg; state = dev_ready; wrap_kek = some kek }

  -- The session of a device that was set up for production.
  unfoldable pub as_prod : DeviceConfig → Bytes → Hsm E M F R → Hsm E M F R
  as_prod cfg pubkey h = record h {
    config = some cfg;
    ca_pubkey = some pubkey;
    ca = none;
    wrap_kek = none;
    wrap_salt = none;
    pin_backoff_until_ms = 0;
    state = prod_locked;
  }

  unfoldable pub unprovisioned : Exec Stop (Hsm E M F R) (Unit {0})
  unprovisioned h =
      require_that (not (is_some h.config)) err_already_init
        "device already initialized; factory-reset first" h

module _ {E M F R : Type 0} ⦃fs : FlashStore F⦄ ⦃crc : Crc⦄ ⦃cr : Crypto⦄ where
  unfoldable pub init_dev : Exec Stop (Hsm E M F R) HsmResponse
  init_dev = do
    secret ← device_secret
    let cfg = dev_config
    write_config cfg
    modify (as_dev cfg (derive_dev_kek secret))
    pure (init_response (codes "dev"))

module _ {E M F R : Type 0} ⦃src : EntropySource E⦄ ⦃fs : FlashStore F⦄ ⦃crc : Crc⦄ ⦃cr : Crypto⦄
    ⦃gen : ChaCha R⦄ where
  -- The response of the prod branch to its `pin` field.
  unfoldable pub init_pin : Option Bytes → Exec Stop (Hsm E M F R) Bytes
  init_pin none = refuse err_bad_request "prod mode requires a pin"
  init_pin (some pin) = elim (pin_length_ok pin) [
    | true ↦ pure pin
    | false ↦ refuse err_bad_request "pin must be 6..64 bytes"
  ]

  unfoldable pub init_prod : InitReq → Exec Stop (Hsm E M F R) HsmResponse
  init_prod req = do
    pin ← init_pin req.pin
    fresh_entropy
    salt ← draw 16
    require_that (ltb 0 (unwrap_or req.max_retries 10)) err_bad_request
        "maxRetries must be between 1 and 255"
    secret ← device_secret
    seed ← draw 32
    let pubkey = public_bytes seed
    kek ←
        require (derive_pin_kek pin salt default_argon secret) err_internal "key derivation failed"
    nonce ← draw 12
    write_key (blob_to_bytes (wrap_seed kek seed pubkey pin_kek salt nonce))
    let cfg = prod_config req
    write_config cfg
    reset_pin_counter_best_effort
    modify (as_prod cfg pubkey)
    pure (init_response (codes "prod"))

  unfoldable pub hsm_init : InitReq → Exec Stop (Hsm E M F R) HsmResponse
  hsm_init req = do
    unprovisioned
    elim (beq_bytes req.mode (codes "dev")) [
      | true ↦ init_dev
      | false ↦ elim (beq_bytes req.mode (codes "prod")) [
        | true ↦ init_prod req
        | false ↦ refuse err_bad_mode "mode must be \"dev\" or \"prod\""
      ]
    ]
