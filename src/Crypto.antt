-- ===== src/Crypto.antt =====
-- The cryptography that hsm-core calls and does not implement: the crates `rand_chacha`, `sha2`,
-- `hkdf`, `argon2`, `chacha20poly1305`, `ed25519-dalek` and `base64`. Keys, nonces and texts are
-- bytes; `R` is the state of a ChaCha20 generator.
use picosignet.Prelude.{ℕ, ◌≡◌, Bool, Option, some}
use picosignet.Prelude.Bytes.{Bytes}

pub record ChaCha (R : Type 0) : Type 0 where
  pub from_seed : Bytes → R
  pub fill : ℕ → R → Bytes × R
  pub next_u64 : R → ℕ × R

pub record Crypto : Type 0 where
  pub sha512 : Bytes → Bytes
  -- salt, input key material and info, to 32 bytes
  pub hkdf_sha256 : Option Bytes → Bytes → Bytes → Bytes
  -- password, salt, m_cost, t_cost and parallelism, to 32 bytes; `none` where it fails
  pub argon2id : Bytes → Bytes → ℕ → ℕ → ℕ → Option Bytes
  -- key, nonce, associated data and plain text, to cipher text and tag
  pub aead_encrypt : Bytes → Bytes → Bytes → Bytes → Bytes × Bytes
  -- key, nonce, associated data, cipher text and tag, to plain text
  pub aead_decrypt : Bytes → Bytes → Bytes → Bytes → Bytes → Option Bytes
  pub ed25519_public : Bytes → Bytes
  -- seed and message, to the signature
  pub ed25519_sign : Bytes → Bytes → Bytes
  -- public key, message and signature; a key that does not decode verifies nothing
  pub ed25519_verify : Bytes → Bytes → Bytes → Bool
  pub base64_encode : Bytes → Bytes

-- What RFC 8439 promises: the cipher opens what it sealed, under the same key, nonce and data.
pub record AeadOpens (cr : Crypto) : Type 0 where
  pub opens :
      (key nonce aad plain : Bytes)
      → cr.aead_decrypt key nonce aad
          (cr.aead_encrypt key nonce aad plain).0
          (cr.aead_encrypt key nonce aad plain).1
        ≡ some plain
