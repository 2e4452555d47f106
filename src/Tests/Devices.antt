-- ===== src/Tests/Devices.antt =====
-- Concrete devices: erased mock flash, a timer that is a number, and stand-ins for the crates.
use picosignet.Prelude.{arith, ℕ, ◌+◌, ◌*◌, ◌%◌, [], ◌∷◌, true, none, some, ok, take, replicate}
use picosignet.Prelude.Bytes.{codes}
use picosignet.Hal.{Monotonic, EntropySource}
use picosignet.Hal.Mock
use picosignet.Hal.Mock.{MockFlash, mock_flash, mock_nor}
use picosignet.Crypto.{Crypto, ChaCha}
use picosignet.Storage.Record.{Crc}
use picosignet.Storage.Config.{DeviceConfig, prod}
use picosignet.Proto.{HsmRequest, empty_req}
use picosignet.Dispatch.Boot.{boot}
use picosignet.Dispatch.Session.{Hsm}

abbrev pub a_config : DeviceConfig
a_config = record {
  mode = prod;
  argon2 = record { m_cost = 256; t_cost = 14; parallelism = 1 };
  max_retries = 10;
  wipe_on_lockout = true;
  fw_version = 0 ∷ 3 ∷ 0 ∷ [];
}

instance abbrev pub timer : Monotonic ℕ
timer = record { now_micros = λ m. m; delay_ms = λ ms m. m + ms * 1000 }

instance abbrev pub zeros : EntropySource ℕ
zeros = record { fill_raw = λ n e. (ok (replicate n 0), e + 1) }

instance abbrev pub no_crc : Crc
no_crc = record { checksum = λ b. 0; checksum_u32 = λ b. omega arith }

instance abbrev pub stream : ChaCha ℕ
stream = record {
  from_seed = λ b. 0;
  fill = λ n r. (replicate n r, r + 1);
  next_u64 = λ r. (r % 18446744073709551616, r + 1);
}

instance abbrev pub plain : Crypto
plain = record {
  sha512 = λ b. replicate 64 0;
  hkdf_sha256 = λ salt ikm info. take 32 ikm;
  argon2id = λ pin salt m t p. some (take 32 pin);
  aead_encrypt = λ key nonce aad text. (text, replicate 16 0);
  aead_decrypt = λ key nonce aad text tag. some text;
  ed25519_public = λ seed. replicate 32 1;
  ed25519_sign = λ seed message. replicate 64 0;
  ed25519_verify = λ key message signature. true;
  base64_encode = λ b. b;
}

abbrev pub fresh : Hsm ℕ ℕ MockFlash ℕ
fresh = boot 0 5000000 Mock.new

abbrev pub status_request : HsmRequest
status_request = record {
  init = none;
  generate_key = none;
  get_public_key = none;
  unlock = none;
  lock = none;
  set_time = none;
  status = some empty_req;
  change_pin = none;
  add_entropy = none;
  self_test = none;
  factory_reset = none;
  reboot_bootloader = none;
}

abbrev pub prod_init : HsmRequest
prod_init = record status_request {
  init = some (record {
    mode = codes "prod";
    pin = some (codes "123456");
    max_retries = some 3;
    wipe_on_lockout = none;
  });
  status = none;
}
