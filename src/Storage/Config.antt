-- ===== src/Storage/Config.antt =====
-- hsm-core/src/storage.rs: the device configuration and the wrapped key, and their byte forms. A
-- fixed array `[u8; N]` is a list of bytes; the encoders assume its length.
use picosignet.Prelude.{
  ℕ, ◌∷◌, ◌++◌, Bool, not, Option, none, some, ltb, ◌==◌, if◌then◌else◌, length, drop, get_or,
}
use picosignet.Prelude.Bytes.{Bytes, be32, of_be32, slice}

pub data Mode : Type 0 where
  dev prod : Mode

pub record Argon2Params : Type 0 where
  pub m_cost : ℕ
  pub t_cost : ℕ
  pub parallelism : ℕ

pub record DeviceConfig : Type 0 where
  pub mode : Mode
  pub argon2 : Argon2Params
  pub max_retries : ℕ
  pub wipe_on_lockout : Bool
  pub fw_version : Bytes

-- The match on the mode byte.
unfoldable pub mode_byte : Mode → ℕ
mode_byte dev = 0
mode_byte prod = 1

unfoldable pub mode_of : ℕ → Option Mode
mode_of b = if b == 0 then some dev else if b == 1 then some prod else none

unfoldable pub config_to_bytes : DeviceConfig → Bytes
unfolding mode_byte
config_to_bytes c =
    mode_byte c.mode
    ∷ (be32 c.argon2.m_cost
        ++ (be32 c.argon2.t_cost
            ++ (c.argon2.parallelism
                ∷ c.max_retries
                ∷ (if c.wipe_on_lockout then 1 else 0)
                ∷ c.fw_version)))

unfoldable pub config_from_bytes : Bytes → Option DeviceConfig
unfolding mode_of
config_from_bytes b = if ltb (length b) 15 then none else elim (mode_of (get_or b 0 0)) [
  | none ↦ none
  | some mode ↦ some (record {
    mode = mode;
    argon2 = record {
      m_cost = of_be32 (drop 1 b);
      t_cost = of_be32 (drop 5 b);
      parallelism = get_or b 9 0;
    };
    max_retries = get_or b 10 0;
    wipe_on_lockout = not (get_or b 11 0 == 0);
    fw_version = slice b 12 15;
  })
]

pub data WrapType : Type 0 where
  dev_kek pin_kek : WrapType

-- `wrap_type as u8`
unfoldable pub wrap_byte : WrapType → ℕ
wrap_byte dev_kek = 3
wrap_byte pin_kek = 4

unfoldable pub wrap_of : ℕ → Option WrapType
wrap_of b = if b == 3 then some dev_kek else if b == 4 then some pin_kek else none

pub record KeyBlob : Type 0 where
  pub wrap_type : WrapType
  pub aead_nonce : Bytes
  pub pubkey : Bytes
  pub ciphertext : Bytes
  pub tag : Bytes
  pub salt : Bytes

unfoldable pub blob_to_bytes : KeyBlob → Bytes
unfolding wrap_byte
blob_to_bytes k =
    wrap_byte k.wrap_type ∷ (k.aead_nonce ++ (k.pubkey ++ (k.ciphertext ++ (k.tag ++ k.salt))))

unfoldable pub blob_from_bytes : Bytes → Option KeyBlob
unfolding wrap_of
blob_from_bytes b = if ltb (length b) 109 then none else elim (wrap_of (get_or b 0 0)) [
  | none ↦ none
  | some wrap_type ↦ some (record {
    wrap_type = wrap_type;
    aead_nonce = slice b 1 13;
    pubkey = slice b 13 45;
    ciphertext = slice b 45 77;
    tag = slice b 77 93;
    salt = slice b 93 109;
  })
]
