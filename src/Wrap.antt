-- ===== src/Wrap.antt =====
-- hsm-core/src/wrap.rs and hsm-core/src/keys.rs: key-encryption keys, the wrapped CA seed, and the
-- CA key's public forms.
use picosignet.Prelude.{◌≡◌, [], ◌∷◌, ◌++◌, none, some, Result, ok, err, length}
use picosignet.Prelude.Bytes.{Bytes, codes, be32}
use picosignet.Storage.Config.{Argon2Params, KeyBlob, WrapType, wrap_byte}
use picosignet.Crypto.{Crypto, AeadOpens}

pub data WrapError : Type 0 where
  kdf auth : WrapError

-- hsm-core/src/sshwire.rs, `put_string`: the bytes that it appends.
unfoldable pub put_string : Bytes → Bytes
put_string s = be32 (length s) ++ s

unfoldable pub aad : WrapType → Bytes → Bytes
aad wrap_type pubkey = wrap_byte wrap_type ∷ pubkey

unfoldable pub public_blob : Bytes → Bytes
public_blob pubkey = put_string (codes "ssh-ed25519") ++ put_string pubkey

module _ ⦃cr : Crypto⦄ where
  unfoldable pub derive_dev_kek : Bytes → Bytes
  derive_dev_kek device_secret = cr.hkdf_sha256 none device_secret (codes "usbhsm-dev-kek-v2")

  unfoldable pub derive_pin_kek : Bytes → Bytes → Argon2Params → Bytes → Result WrapError Bytes
  derive_pin_kek pin salt params device_secret =
      elim (cr.argon2id pin salt params.m_cost params.t_cost params.parallelism) [
        | none ↦ err kdf
        | some stretched ↦
            ok (cr.hkdf_sha256 (some device_secret) stretched (codes "usbhsm-prod-kek-v2"))
      ]

  unfoldable pub wrap_seed : Bytes → Bytes → Bytes → WrapType → Bytes → Bytes → KeyBlob
  wrap_seed kek seed pubkey wrap_type salt nonce =
      let (ciphertext, tag) = cr.aead_encrypt kek nonce (aad wrap_type pubkey) seed in
      record {
        wrap_type = wrap_type;
        aead_nonce = nonce;
        pubkey = pubkey;
        ciphertext = ciphertext;
        tag = tag;
        salt = salt;
      }

  unfoldable pub unwrap_seed : Bytes → KeyBlob → Result WrapError Bytes
  unwrap_seed kek blob =
      elim (cr.aead_decrypt kek blob.aead_nonce (aad blob.wrap_type blob.pubkey) blob.ciphertext
        blob.tag) [ none ↦ err auth | some seed ↦ ok seed ]

  -- A CA key is its seed.
  unfoldable pub public_bytes : Bytes → Bytes
  public_bytes seed = cr.ed25519_public seed

  unfoldable pub authorized_line : Bytes → Bytes → Bytes
  authorized_line pubkey [] = codes "ssh-ed25519 " ++ cr.base64_encode (public_blob pubkey)
  authorized_line pubkey (c ∷ comment) =
      codes "ssh-ed25519 "
      ++ (cr.base64_encode (public_blob pubkey) ++ (codes " " ++ (c ∷ comment)))

  -- What was wrapped is unwrapped, under the key that wrapped it.
  pub unwrap_seed-wrap_seed :
      AeadOpens cr
      → (kek seed pubkey : Bytes) (wrap_type : WrapType) (salt nonce : Bytes)
      → unwrap_seed kek (wrap_seed kek seed pubkey wrap_type salt nonce) ≡ ok seed
  unfolding unwrap_seed wrap_seed
  unwrap_seed-wrap_seed law kek seed pubkey wrap_type salt nonce =
      rw (law.opens kek nonce (aad wrap_type pubkey) seed, unwrap_seed)
