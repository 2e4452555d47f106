-- ===== src/Dispatch/Session.antt =====
-- hsm-core/src/dispatch.rs and hsm-core/src/state.rs: the session `Hsm`, the states, and the steps
-- that handlers are made of.
use picosignet.Prelude.{
  ℕ, ◌-◌, ◌^◌, min, Bool, true, false, Option, none, some, String, Result, ok, err, Exec,
}
use picosignet.Prelude.Bytes.{Bytes, codes}
use picosignet.Prelude.Int.{ℤ}
use picosignet.Hal.{HalError}
use picosignet.Clock.{Clock}
use picosignet.Rng.{Drbg}
use picosignet.Storage.Config.{DeviceConfig}
use picosignet.Proto.{HsmResponse, ErrorCode, refusal}

pub data DeviceState : Type 0 where
  uninitialized dev_ready prod_locked prod_ready locked_out : DeviceState

unfoldable pub as_str : DeviceState → Bytes
as_str uninitialized = codes "uninitialized"
as_str dev_ready = codes "devReady"
as_str prod_locked = codes "prodLocked"
as_str prod_ready = codes "prodReady"
as_str locked_out = codes "lockedOut"

abbrev pub signer_ready : DeviceState → Bool
signer_ready dev_ready = true
signer_ready prod_ready = true
signer_ready _ = false

-- The live CA key is its seed.
pub record Hsm (E M F R : Type 0) : Type 0 where
  pub entropy : E
  pub mono : M
  pub flash : F
  pub drbg : Drbg R
  pub clock : Clock
  pub state : DeviceState
  pub config : Option DeviceConfig
  pub ca : Option Bytes
  pub ca_pubkey : Option Bytes
  pub wrap_kek : Option Bytes
  pub wrap_salt : Option Bytes
  pub pin_backoff_until_ms : ℕ
  pub trusted_time_floor : Option ℤ
  pub trusted_time_floor_unavailable : Bool
  pub physical_recovery_authorized : Bool
  pub heap_free : ℕ
  pub glitch_armed : Bool
  pub secure_boot : Bool
  pub glitch_reset : Bool
  pub reboot_requested : Bool

-- How a handler ends early: with its response, or in a panic of `expect`.
pub data Stop : Type 0 where
  responds : HsmResponse → Stop
  panics : Stop

abbrev pub saturating_u64 : ℕ → ℕ
saturating_u64 n = min n (2 ^ 64 - 1)

module _ {E M F R : Type 0} where
  -- `let r = …(&mut self.flash)`, the result kept as a value.
  unfoldable pub on_flash :
      {A : Type 0} → Exec HalError F A → Exec Stop (Hsm E M F R) (Result HalError A)
  on_flash m h = (ok (m h.flash).0, record h { flash = (m h.flash).1 })

  abbrev pub gets : {A : Type 0} → (Hsm E M F R → A) → Exec Stop (Hsm E M F R) A
  gets f h = (ok (f h), h)

  abbrev pub modify : (Hsm E M F R → Hsm E M F R) → Exec Stop (Hsm E M F R) (Unit {0})
  modify f h = (ok tt, f h)

  abbrev pub refuse : {A : Type 0} → ErrorCode → String → Exec Stop (Hsm E M F R) A
  refuse code message h = (err (responds (refusal code message)), h)

  -- A result that must be there, or the handler ends with this response.
  abbrev pub require : {X A : Type 0} → Result X A → ErrorCode → String → Exec Stop (Hsm E M F R) A
  require (ok a) code message h = (ok a, h)
  require (err x) code message h = (err (responds (refusal code message)), h)

  abbrev pub require_some : {A : Type 0} → Option A → ErrorCode → String → Exec Stop (Hsm E M F R) A
  require_some (some a) code message h = (ok a, h)
  require_some none code message h = (err (responds (refusal code message)), h)

  -- `expect`
  abbrev pub expect : {A : Type 0} → Option A → Exec Stop (Hsm E M F R) A
  expect (some a) h = (ok a, h)
  expect none h = (err panics, h)

  -- A field that must be there.
  unfoldable pub require_field :
      {A : Type 0} → (Hsm E M F R → Option A) → ErrorCode → String → Exec Stop (Hsm E M F R) A
  require_field f code message h = require_some (f h) code message h

  -- `self.config.expect(…)`
  unfoldable pub current_config : Exec Stop (Hsm E M F R) DeviceConfig
  current_config h = expect h.config h

  -- A test that must hold.
  abbrev pub require_that : Bool → ErrorCode → String → Exec Stop (Hsm E M F R) (Unit {0})
  require_that true code message h = (ok tt, h)
  require_that false code message h = (err (responds (refusal code message)), h)

  -- Drop every production live secret.
  unfoldable pub drop_live_secrets : Hsm E M F R → Hsm E M F R
  drop_live_secrets h = record h { ca = none; wrap_kek = none; wrap_salt = none }

  unfoldable pub enter_locked_out : Hsm E M F R → Hsm E M F R
  unfolding drop_live_secrets
  enter_locked_out h = record (drop_live_secrets h) { state = locked_out }
