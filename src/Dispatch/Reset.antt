-- ===== src/Dispatch/Reset.antt =====
-- hsm-core/src/dispatch.rs: `hsm_factory_reset` and `hsm_reboot_bootloader`.

use picosignet.Prelude.{
  Bool, true, false, ◌&&◌, Option, none, some, String, Exec, pure, ◌>>=◌, ◌>>◌, is_ok,
}
use picosignet.Prelude.Bytes.{Bytes, codes, beq_bytes}
use picosignet.Hal.{FlashStore, Monotonic}
use picosignet.Crypto.{Crypto}
use picosignet.Pin.{reset}
use picosignet.Storage.Record.{Crc}
use picosignet.Storage.AbPair.{read_latest, erase_both, config_pair, time_floor}
use picosignet.Proto.{
  FactoryResetReq, RebootBootloaderReq, HsmResponse, empty, err_bad_request, err_locked_out,
  err_flash,
}
use picosignet.Dispatch.Session.{
  DeviceState, Hsm, Stop, uninitialized, dev_ready, prod_locked, prod_ready, locked_out, on_flash,
  modify, refuse, require_that, drop_live_secrets,
}
use picosignet.Dispatch.Boot.{load_from_flash}
use picosignet.Dispatch.Pins.{verify_pin, erase_key_verified, gone}

abbrev pub reset_response : HsmResponse
reset_response = record empty { factory_reset = some (record { ok = true }) }

abbrev pub reboot_response : HsmResponse
reboot_response = record empty { reboot_bootloader = some (record { ok = true }) }

module _ {E M F R : Type 0} ⦃mono : Monotonic M⦄ ⦃fs : FlashStore F⦄ ⦃crc : Crc⦄ ⦃cr : Crypto⦄ where
  -- A PIN, where the device asks for one, with the message for a request without it.
  unfoldable pub prove_pin : String → Option Bytes → Exec Stop (Hsm E M F R) (Unit {0})
  prove_pin message (some pin) = do verify_pin pin; pure tt
  prove_pin message none = refuse err_bad_request message

  -- A production device's gate: the physical gesture, or the PIN.
  unfoldable pub prove_in : String → Option Bytes → Bool → Exec Stop (Hsm E M F R) (Unit {0})
  prove_in message pin true = pure tt
  prove_in message pin false = prove_pin message pin

  unfoldable pub prove : String → Option Bytes → Exec Stop (Hsm E M F R) (Unit {0})
  prove message pin h = prove_in message pin h.physical_recovery_authorized h

  -- A locked out device's gate.
  unfoldable pub recovered : Exec Stop (Hsm E M F R) (Unit {0})
  recovered h =
      require_that h.physical_recovery_authorized err_locked_out
        "device locked out; hold physical recovery low during reset" h

  -- The gate of both commands: the match on the state.
  unfoldable pub authorize_in :
      String → Option Bytes → DeviceState → Exec Stop (Hsm E M F R) (Unit {0})
  authorize_in message pin prod_locked = prove message pin
  authorize_in message pin prod_ready = prove message pin
  authorize_in message pin locked_out = recovered
  authorize_in message pin uninitialized = pure tt
  authorize_in message pin dev_ready = pure tt

  unfoldable pub authorize : String → Option Bytes → Exec Stop (Hsm E M F R) (Unit {0})
  authorize message pin h = authorize_in message pin h.state h

  unfoldable pub hsm_reboot_bootloader : RebootBootloaderReq → Exec Stop (Hsm E M F R) HsmResponse
  hsm_reboot_bootloader req = do
    authorize
        "rebooting into the bootloader requires a PIN or physical recovery held low during reset"
        req.pin
    modify (λ h. record h { reboot_requested = true })
    pure reboot_response

  -- The session after an erase that took.
  unfoldable pub wiped : Hsm E M F R → Hsm E M F R
  wiped h = record h {
    ca_pubkey = none;
    config = none;
    trusted_time_floor = none;
    trusted_time_floor_unavailable = false;
    pin_backoff_until_ms = 0;
    state = uninitialized;
  }

  unfoldable pub hsm_factory_reset : FactoryResetReq → Exec Stop (Hsm E M F R) HsmResponse
  hsm_factory_reset req = do
    require_that (beq_bytes req.confirm (codes "ERASE")) err_bad_request "confirm must be \"ERASE\""
    authorize "factory-reset requires a PIN or physical recovery held low during reset" req.pin
    modify drop_live_secrets
    key_gone ← erase_key_verified
    cfg_erased ← on_flash (erase_both config_pair)
    time_erased ← on_flash (erase_both time_floor)
    pin_erased ← on_flash reset
    cfg_left ← on_flash (read_latest config_pair)
    time_left ← on_flash (read_latest time_floor)
    elim (key_gone
        && (is_ok cfg_erased
            && (is_ok time_erased && (is_ok pin_erased && (gone cfg_left && gone time_left))))) [
              | true ↦ do modify wiped; pure reset_response
              | false ↦ do
                modify load_from_flash
                refuse err_flash "factory reset incomplete; key material may remain — retry"
            ]
