-- ===== src/Dispatch/Keys.antt =====
-- hsm-core/src/dispatch.rs: `hsm_generate_key`, `hsm_get_public_key`, `hsm_unlock`, `hsm_lock` and
-- `hsm_change_pin`.

use picosignet.Prelude.{
  Bool, true, false, not, ◌&&◌, Option, none, some, Exec, pure, ◌>>=◌, ◌>>◌, is_some,
}
use picosignet.Prelude.Bytes.{Bytes, codes}
use picosignet.Hal.{FlashStore, EntropySource, Monotonic}
use picosignet.Crypto.{Crypto, ChaCha}
use picosignet.Storage.Record.{Crc}
use picosignet.Storage.Config.{Mode, WrapType, dev_kek, pin_kek, dev, prod, blob_to_bytes}
use picosignet.Wrap.{derive_pin_kek, wrap_seed, public_bytes, authorized_line}
use picosignet.Proto.{
  GenerateKeyReq, UnlockReq, ChangePinReq, HsmResponse, empty, err_bad_request, err_not_init,
  err_no_key, err_key_exists, err_locked, err_locked_out, err_bad_mode, err_internal,
}
use picosignet.Dispatch.Session.{
  DeviceState, Hsm, Stop, uninitialized, dev_ready, prod_locked, prod_ready, locked_out, modify,
  refuse, require, require_field, current_config, require_that, drop_live_secrets,
}
use picosignet.Dispatch.Setup.{pin_length_ok, fresh_entropy, draw, write_key}
use picosignet.Dispatch.Pins.{
  device_secret, verify_pin, reset_pin_counter_best_effort, UnlockedSeed,
}

abbrev pub ca_comment : Bytes
ca_comment = codes "picosignet-ca"

abbrev pub wrap_type_for : Mode → WrapType
wrap_type_for dev = dev_kek
wrap_type_for prod = pin_kek

abbrev pub generate_key_response : Bytes → HsmResponse
generate_key_response line = record empty {
  generate_key = some (record { ok = true; public_key = line });
}

abbrev pub unlock_response : HsmResponse
unlock_response = record empty { unlock = some (record { ok = true }) }

abbrev pub lock_response : HsmResponse
lock_response = record empty { lock = some (record { ok = true }) }

abbrev pub change_pin_response : HsmResponse
change_pin_response = record empty { change_pin = some (record { ok = true }) }

module _ {E M F R : Type 0} where
  -- The salt that a rotated blob carries: none is kept for a dev blob.
  unfoldable pub pin_salt : WrapType → Exec Stop (Hsm E M F R) (Option Bytes)
  pin_salt dev_kek = pure none
  pin_salt pin_kek = do
    salt ← require_field (λ h. h.wrap_salt) err_locked "unlock the device first"
    pure (some salt)

  -- The test on the key that is there.
  unfoldable pub may_replace : Bool → Exec Stop (Hsm E M F R) (Unit {0})
  may_replace force h =
      require_that (not (is_some h.ca_pubkey && not force)) err_key_exists
        "key already exists; pass force=true" h

module _ {E M F R : Type 0} ⦃src : EntropySource E⦄ ⦃cr : Crypto⦄ ⦃gen : ChaCha R⦄ where
  -- `pin_salt.unwrap_or_else(…)`
  unfoldable pub blob_salt : Option Bytes → Exec Stop (Hsm E M F R) Bytes
  blob_salt (some s) = pure s
  blob_salt none = draw 16

module _ {E M F R : Type 0} ⦃src : EntropySource E⦄ ⦃fs : FlashStore F⦄ ⦃crc : Crc⦄ ⦃cr : Crypto⦄
    ⦃gen : ChaCha R⦄ where
  -- The branch of `hsm_generate_key` for a ready device.
  unfoldable pub generate_ready : GenerateKeyReq → Exec Stop (Hsm E M F R) HsmResponse
  generate_ready req = do
    may_replace req.force
    cfg ← require_field (λ h. h.config) err_not_init "initialize the device first"
    let wrap_type = wrap_type_for cfg.mode
    kek ← require_field (λ h. h.wrap_kek) err_locked "unlock the device first"
    fresh_entropy
    kept ← pin_salt wrap_type
    seed ← draw 32
    let pubkey = public_bytes seed
    nonce ← draw 12
    salt ← blob_salt kept
    write_key (blob_to_bytes (wrap_seed kek seed pubkey wrap_type salt nonce))
    modify (λ h. record h { ca = some seed; ca_pubkey = some pubkey })
    pure (generate_key_response (authorized_line pubkey ca_comment))

  -- The match on the state.
  unfoldable pub generate_in : GenerateKeyReq → DeviceState → Exec Stop (Hsm E M F R) HsmResponse
  generate_in req dev_ready = generate_ready req
  generate_in req prod_ready = generate_ready req
  generate_in req prod_locked = refuse err_locked "unlock the device first"
  generate_in req locked_out = refuse err_locked "unlock the device first"
  generate_in req uninitialized = refuse err_not_init "initialize the device first"

  unfoldable pub hsm_generate_key : GenerateKeyReq → Exec Stop (Hsm E M F R) HsmResponse
  hsm_generate_key req h = generate_in req h.state h

module _ {E M F R : Type 0} ⦃cr : Crypto⦄ where
  unfoldable pub hsm_get_public_key : Exec Stop (Hsm E M F R) HsmResponse
  hsm_get_public_key = do
    pk ← require_field (λ h. h.ca_pubkey) err_no_key "no CA key present"
    pure (record empty {
      get_public_key = some (record { public_key = authorized_line pk ca_comment });
    })

module _ {E M F R : Type 0} where
  -- The session that a verified PIN unlocks.
  unfoldable pub unlocked : UnlockedSeed → Hsm E M F R → Hsm E M F R
  unlocked (seed, kek, salt) h = record h {
    ca = some seed;
    wrap_kek = some kek;
    wrap_salt = some salt;
    state = prod_ready;
  }

module _ {E M F R : Type 0} where
  -- The session that a changed PIN leaves.
  unfoldable pub settled : Bool → UnlockedSeed → Hsm E M F R → Hsm E M F R
  unfolding unlocked
  settled true got h = unlocked got h
  settled false got h = record h {
    ca = none;
    wrap_kek = none;
    wrap_salt = none;
    state = prod_locked;
  }

  unfoldable pub locked : Hsm E M F R → Hsm E M F R
  unfolding drop_live_secrets
  locked h = record (drop_live_secrets h) { state = prod_locked }

  -- The match on the state.
  unfoldable pub lock_in : DeviceState → Exec Stop (Hsm E M F R) HsmResponse
  lock_in prod_ready = do modify locked; pure lock_response
  lock_in prod_locked = do modify drop_live_secrets; pure lock_response
  lock_in locked_out = do modify drop_live_secrets; pure lock_response
  lock_in dev_ready = refuse err_bad_mode "dev mode cannot be locked"
  lock_in uninitialized = refuse err_not_init "initialize the device first"

  unfoldable pub hsm_lock : Exec Stop (Hsm E M F R) HsmResponse
  hsm_lock h = lock_in h.state h

module _ {E M F R : Type 0} ⦃mono : Monotonic M⦄ ⦃fs : FlashStore F⦄ ⦃crc : Crc⦄ ⦃cr : Crypto⦄ where
  -- The match on the state.
  unfoldable pub unlock_in : UnlockReq → DeviceState → Exec Stop (Hsm E M F R) HsmResponse
  unlock_in req prod_ready = pure unlock_response
  unlock_in req prod_locked = do
    got ← verify_pin req.pin
    modify (unlocked got)
    pure unlock_response
  unlock_in req locked_out = refuse err_locked_out "device locked out; factory-reset required"
  unlock_in req dev_ready = refuse err_bad_mode "device is in dev mode; no unlock required"
  unlock_in req uninitialized = refuse err_not_init "initialize the device first"

  unfoldable pub hsm_unlock : UnlockReq → Exec Stop (Hsm E M F R) HsmResponse
  hsm_unlock req h = unlock_in req h.state h

module _ {E M F R : Type 0} ⦃src : EntropySource E⦄ ⦃mono : Monotonic M⦄ ⦃fs : FlashStore F⦄
    ⦃crc : Crc⦄ ⦃cr : Crypto⦄ ⦃gen : ChaCha R⦄ where
  -- `hsm_change_pin` after the match on the state.
  unfoldable pub rewrap : ChangePinReq → Bool → Exec Stop (Hsm E M F R) HsmResponse
  rewrap req was_ready = do
    require_that (pin_length_ok req.new_pin) err_bad_request "new pin must be 6..64 bytes"
    (seed, _old_kek, _old_salt) ← verify_pin req.current_pin
    fresh_entropy
    new_salt ← draw 16
    cfg ← current_config
    secret ← device_secret
    new_kek ←
        require (derive_pin_kek req.new_pin new_salt cfg.argon2 secret) err_internal
          "key derivation failed"
    pubkey ← require_field (λ h. h.ca_pubkey) err_no_key "no CA key present"
    nonce ← draw 12
    write_key (blob_to_bytes (wrap_seed new_kek seed pubkey pin_kek new_salt nonce))
    reset_pin_counter_best_effort
    modify (settled was_ready (seed, new_kek, new_salt))
    pure change_pin_response

  -- The match on the state.
  unfoldable pub change_pin_in : ChangePinReq → DeviceState → Exec Stop (Hsm E M F R) HsmResponse
  change_pin_in req prod_ready = rewrap req true
  change_pin_in req prod_locked = rewrap req false
  change_pin_in req locked_out = refuse err_locked_out "device locked out; factory-reset required"
  change_pin_in req dev_ready = refuse err_bad_mode "dev mode has no PIN"
  change_pin_in req uninitialized = refuse err_not_init "initialize the device first"

  unfoldable pub hsm_change_pin : ChangePinReq → Exec Stop (Hsm E M F R) HsmResponse
  hsm_change_pin req h = change_pin_in req h.state h
