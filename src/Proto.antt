-- ===== src/Proto.antt =====
-- hsm-core/src/proto.rs: the management requests and responses, as serde hands them over and takes
-- them. A text of the wire is its bytes; an error code is a constructor, and a message a text.
pub mod Outer
use picosignet.Prelude.{ℕ, Bool, Option, none, some, String}
use picosignet.Prelude.Bytes.{Bytes}
use picosignet.Prelude.Int.{ℤ}

-- The codes of hsm-core/src/dispatch.rs, one for each `ERR_…` constant.
pub data ErrorCode : Type 0 where
  err_bad_request err_already_init err_not_init err_no_key err_key_exists err_locked : ErrorCode
  err_bad_pin err_locked_out err_bad_mode err_entropy err_flash err_busy err_internal : ErrorCode

pub record InitReq : Type 0 where
  pub mode : Bytes
  pub pin : Option Bytes
  pub max_retries : Option ℕ
  pub wipe_on_lockout : Option Bool

pub record GenerateKeyReq : Type 0 where
  pub force : Bool

pub record UnlockReq : Type 0 where
  pub pin : Bytes

pub record SetTimeReq : Type 0 where
  pub unix_seconds : ℤ

pub record ChangePinReq : Type 0 where
  pub current_pin : Bytes
  pub new_pin : Bytes

pub record AddEntropyReq : Type 0 where
  pub hex : Bytes

pub record FactoryResetReq : Type 0 where
  pub confirm : Bytes
  pub pin : Option Bytes

pub record RebootBootloaderReq : Type 0 where
  pub pin : Option Bytes

-- `EmptyReq`, a struct with no field.
pub data EmptyReq : Type 0 where
  empty_req : EmptyReq

pub record HsmRequest : Type 0 where
  pub init : Option InitReq
  pub generate_key : Option GenerateKeyReq
  pub get_public_key : Option EmptyReq
  pub unlock : Option UnlockReq
  pub lock : Option EmptyReq
  pub set_time : Option SetTimeReq
  pub status : Option EmptyReq
  pub change_pin : Option ChangePinReq
  pub add_entropy : Option AddEntropyReq
  pub self_test : Option EmptyReq
  pub factory_reset : Option FactoryResetReq
  pub reboot_bootloader : Option RebootBootloaderReq

pub record HsmError : Type 0 where
  pub code : ErrorCode
  pub message : String
  pub remaining_attempts : Option ℕ
  pub backoff_ms : Option ℕ

pub record InitResp : Type 0 where
  pub ok : Bool
  pub mode : Bytes

pub record GenerateKeyResp : Type 0 where
  pub ok : Bool
  pub public_key : Bytes

pub record PublicKeyResp : Type 0 where
  pub public_key : Bytes

pub record UnlockResp : Type 0 where
  pub ok : Bool

pub record OkResp : Type 0 where
  pub ok : Bool

pub record SetTimeResp : Type 0 where
  pub ok : Bool
  pub uptime_ms : ℕ
  pub previous_set : Bool

pub record StatusResp : Type 0 where
  pub state : Bytes
  pub mode : Bytes
  pub key_present : Bool
  pub unlocked : Bool
  pub clock_set : Bool
  pub unix_seconds : Option ℤ
  pub uptime_ms : ℕ
  pub retry_remaining : Option ℕ
  pub fw_version : Bytes
  pub serial : Bytes
  pub heap_free_bytes : ℕ
  pub otp_secret : Bool
  pub glitch_armed : Bool
  pub secure_boot : Bool
  pub glitch_reset : Bool

pub record SelfTestDetails : Type 0 where
  pub ed25519_kat : Bytes
  pub sha2_kat : Bytes
  pub aead_kat : Bytes
  pub drbg_health : Bytes
  pub flash_crc : Bytes
  pub otp_secret : Bytes

pub record SelfTestResp : Type 0 where
  pub ok : Bool
  pub tests : SelfTestDetails

pub record HsmResponse : Type 0 where
  pub error : Option HsmError
  pub init : Option InitResp
  pub generate_key : Option GenerateKeyResp
  pub get_public_key : Option PublicKeyResp
  pub unlock : Option UnlockResp
  pub lock : Option OkResp
  pub set_time : Option SetTimeResp
  pub status : Option StatusResp
  pub change_pin : Option OkResp
  pub add_entropy : Option OkResp
  pub self_test : Option SelfTestResp
  pub factory_reset : Option OkResp
  pub reboot_bootloader : Option OkResp

-- `HsmResponse::default()`, which `HsmResponse::with` starts from.
abbrev pub empty : HsmResponse
empty = record {
  error = none;
  init = none;
  generate_key = none;
  get_public_key = none;
  unlock = none;
  lock = none;
  set_time = none;
  status = none;
  change_pin = none;
  add_entropy = none;
  self_test = none;
  factory_reset = none;
  reboot_bootloader = none;
}

-- `HsmResponse::err`
abbrev pub refusal : ErrorCode → String → HsmResponse
refusal code message = record empty {
  error =
      some
        (record { code = code; message = message; remaining_attempts = none; backoff_ms = none });
}

-- `pin_error` of hsm-core/src/dispatch.rs
abbrev pub pin_error : ErrorCode → String → ℕ → ℕ → HsmResponse
pin_error code message remaining backoff = record empty {
  error = some (record {
    code = code;
    message = message;
    remaining_attempts = some remaining;
    backoff_ms = some backoff;
  });
}
