-- ===== src/Storage/RoundTrip.antt =====
-- hsm-core/src/storage.rs: what is written is read back, for the configuration, the key blob and the
-- record that holds either.
use picosignet.Prelude.{
  ℕ, ◌^◌, ◌<◌, ◌≡◌, refl, ◌∙◌, [], ◌∷◌, ◌++◌, some, arith, length, length-append, take_all,
  drop_past, drop-append, take-append,
}
use picosignet.Prelude.Bytes.{Bytes, of_be32, slice, slice_at}
use picosignet.Storage.Config.{
  Mode, dev, prod, DeviceConfig, WrapType, dev_kek, pin_kek, KeyBlob, mode_byte, mode_of, wrap_byte,
  wrap_of, config_to_bytes, config_from_bytes, blob_to_bytes, blob_from_bytes,
}

-- The fields fit their Rust types.
pub record IsConfig (c : DeviceConfig) : Type 0 where
  pub m_cost : c.argon2.m_cost < 2 ^ 32
  pub t_cost : c.argon2.t_cost < 2 ^ 32
  pub version_len : length c.fw_version ≡ 3

pub record IsBlob (k : KeyBlob) : Type 0 where
  pub nonce_len : length k.aead_nonce ≡ 12
  pub pubkey_len : length k.pubkey ≡ 32
  pub ciphertext_len : length k.ciphertext ≡ 32
  pub tag_len : length k.tag ≡ 16
  pub salt_len : length k.salt ≡ 16

mode_of-mode_byte : (m : Mode) → mode_of (mode_byte m) ≡ some m
unfolding mode_of mode_byte
mode_of-mode_byte dev = refl
mode_of-mode_byte prod = refl

wrap_of-wrap_byte : (w : WrapType) → wrap_of (wrap_byte w) ≡ some w
unfolding wrap_of wrap_byte
wrap_of-wrap_byte dev_kek = refl
wrap_of-wrap_byte pin_kek = refl

-- A configuration whose fields fit their Rust types is read back as it was written.
pub config_from_bytes-to_bytes :
    (c : DeviceConfig) → IsConfig c → config_from_bytes (config_to_bytes c) ≡ some c
unfolding config_from_bytes config_to_bytes of_be32
config_from_bytes-to_bytes c v =
    ground (arith, mode_of-mode_byte c.mode, take_all 3 c.fw_version v.version_len)

module _ (w : ℕ) (n p c t s : Bytes) where
  -- The byte form of a key blob, cut at the offsets that the reader uses.
  whole : Bytes
  whole = w ∷ (n ++ (p ++ (c ++ (t ++ s))))

  slices :
      length n ≡ 12
      → length p ≡ 32
      → length c ≡ 32
      → length t ≡ 16
      → length s ≡ 16
      → (slice whole 1 13 ≡ n)
        × (slice whole 13 45 ≡ p)
        × (slice whole 45 77 ≡ c)
        × (slice whole 77 93 ≡ t)
        × (slice whole 93 109 ≡ s)
        × (length whole ≡ 109)
  unfolding whole
  slices hn hp hc ht hs = (
    slice_at 1 13 (w ∷ []) n (p ++ (c ++ (t ++ s))) (omega arith) hn,
    slice_at 13 45 (w ∷ n) p (c ++ (t ++ s)) (omega arith) hp,
    rw (drop_past 12 32 n (p ++ (c ++ (t ++ s))) hn ∙ drop-append 32 p (c ++ (t ++ s)) hp)
        (take-append 32 c (t ++ s) hc),
    rw
        (drop_past 12 64 n (p ++ (c ++ (t ++ s))) hn
          ∙ drop_past 32 32 p (c ++ (t ++ s)) hp
          ∙ drop-append 32 c (t ++ s) hc)
        (take-append 16 t s ht),
    rw
        (drop_past 12 80 n (p ++ (c ++ (t ++ s))) hn
          ∙ drop_past 32 48 p (c ++ (t ++ s)) hp
          ∙ drop_past 32 16 c (t ++ s) hc
          ∙ drop-append 16 t s ht)
        (take_all 16 s hs),
    simp length-append (omega arith),
  )

-- A key blob whose fields have their lengths is read back as it was written.
pub blob_from_bytes-to_bytes : (k : KeyBlob) → IsBlob k → blob_from_bytes (blob_to_bytes k) ≡ some k
unfolding blob_from_bytes blob_to_bytes
blob_from_bytes-to_bytes k v =
    let cut =
      slices (wrap_byte k.wrap_type) k.aead_nonce k.pubkey k.ciphertext k.tag k.salt v.nonce_len
        v.pubkey_len v.ciphertext_len v.tag_len v.salt_len in
    unfold whole in ground (arith, wrap_of-wrap_byte k.wrap_type, cut)
