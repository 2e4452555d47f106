-- ===== src/Proto/Outer.antt =====
-- hsm-core/src/proto.rs: the top-level requests and responses.
use picosignet.Prelude.{ℕ, Bool, List, Option, none, some}
use picosignet.Prelude.Bytes.{Bytes}
use picosignet.Maps.{Map}
use picosignet.Proto.{EmptyReq, HsmRequest, HsmResponse}

-- The maps are what serde gathers in a `BTreeMap`.
pub record EnclaveSigningRequest : Type 0 where
  pub ssh_key : Bytes
  pub key_id : Bytes
  pub principals : List Bytes
  pub validity : Bytes
  pub permissions : Map
  pub custom_attributes : Map
  pub critical_options : Map

-- The requests without a field, `LoadKeySignerRequest`, `PingRequest` and
-- `GetEnclaveMetricsRequest`, are `EmptyReq` too.
pub record Request : Type 0 where
  pub load_key_signer : Option EmptyReq
  pub sign_ssh_key : Option EnclaveSigningRequest
  pub ping : Option EmptyReq
  pub get_enclave_metrics : Option EmptyReq
  pub hsm : Option HsmRequest

pub record LoadKeySignerResponse : Type 0 where
  pub success : Bool
  pub error : Bytes

pub record SigningResponse : Type 0 where
  pub signed_key : Bytes
  pub error : Bytes

pub record PingResponse : Type 0 where
  pub signer_loaded : Bool

-- The numbers are doubles, each one its bits.
pub record EnclaveCpuTimes : Type 0 where
  pub user : ℕ
  pub nice : ℕ
  pub system : ℕ
  pub idle : ℕ
  pub iowait : ℕ
  pub irq : ℕ
  pub softirq : ℕ

pub record EnclaveMemoryStats : Type 0 where
  pub total_bytes : ℕ
  pub available_bytes : ℕ
  pub free_bytes : ℕ
  pub buffers_bytes : ℕ
  pub cached_bytes : ℕ

pub record EnclaveMetricsResponse : Type 0 where
  pub cpu : EnclaveCpuTimes
  pub memory : EnclaveMemoryStats

pub record Response : Type 0 where
  pub load_key_signer : Option LoadKeySignerResponse
  pub error : Option Bytes
  pub sign_ssh_key : Option SigningResponse
  pub pong : Option PingResponse
  pub enclave_metrics : Option EnclaveMetricsResponse
  pub hsm : Option HsmResponse

-- `Response::default()`
abbrev pub blank : Response
blank = record {
  load_key_signer = none;
  error = none;
  sign_ssh_key = none;
  pong = none;
  enclave_metrics = none;
  hsm = none;
}

-- `Response::error`
abbrev pub failure : Bytes → Response
failure msg = record blank { error = some msg }
