-- ===== src/Selftest.antt =====
-- hsm-core/src/selftest.rs: the known-answer tests.
use picosignet.Prelude.{
  ◌+◌, ◌-◌, ◌%◌, [], ◌∷◌, Bool, false, ◌&&◌, not, Result, ok, err, ◌==◌, if◌then◌else◌, is_ok,
  replicate,
}
use picosignet.Prelude.Bytes.{Bytes, codes, beq_bytes}
use picosignet.Crypto.{Crypto}
use picosignet.Storage.Config.{dev_kek}
use picosignet.Wrap.{derive_dev_kek, wrap_seed, unwrap_seed, public_bytes}

abbrev pub ed_seed : Bytes
ed_seed =
    0x9d ∷ 0x61 ∷ 0xb1 ∷ 0x9d ∷ 0xef ∷ 0xfd ∷ 0x5a ∷ 0x60 ∷ 0xba ∷ 0x84 ∷ 0x4a ∷ 0xf4 ∷ 0x92 ∷ 0xec
    ∷ 0x2c ∷ 0xc4 ∷ 0x44 ∷ 0x49 ∷ 0xc5 ∷ 0x69 ∷ 0x7b ∷ 0x32 ∷ 0x69 ∷ 0x19 ∷ 0x70 ∷ 0x3b ∷ 0xac
    ∷ 0x03 ∷ 0x1c ∷ 0xae ∷ 0x7f ∷ 0x60 ∷ []

abbrev pub ed_pub : Bytes
ed_pub =
    0xd7 ∷ 0x5a ∷ 0x98 ∷ 0x01 ∷ 0x82 ∷ 0xb1 ∷ 0x0a ∷ 0xb7 ∷ 0xd5 ∷ 0x4b ∷ 0xfe ∷ 0xd3 ∷ 0xc9 ∷ 0x64
    ∷ 0x07 ∷ 0x3a ∷ 0x0e ∷ 0xe1 ∷ 0x72 ∷ 0xf3 ∷ 0xda ∷ 0xa6 ∷ 0x23 ∷ 0x25 ∷ 0xaf ∷ 0x02 ∷ 0x1a
    ∷ 0x68 ∷ 0xf7 ∷ 0x07 ∷ 0x51 ∷ 0x1a ∷ []

abbrev pub sha512_abc : Bytes
sha512_abc =
    0xdd ∷ 0xaf ∷ 0x35 ∷ 0xa1 ∷ 0x93 ∷ 0x61 ∷ 0x7a ∷ 0xba ∷ 0xcc ∷ 0x41 ∷ 0x73 ∷ 0x49 ∷ 0xae ∷ 0x20
    ∷ 0x41 ∷ 0x31 ∷ 0x12 ∷ 0xe6 ∷ 0xfa ∷ 0x4e ∷ 0x89 ∷ 0xa9 ∷ 0x7e ∷ 0xa2 ∷ 0x0a ∷ 0x9e ∷ 0xee
    ∷ 0xe6 ∷ 0x4b ∷ 0x55 ∷ 0xd3 ∷ 0x9a ∷ 0x21 ∷ 0x92 ∷ 0x99 ∷ 0x2a ∷ 0x27 ∷ 0x4f ∷ 0xc1 ∷ 0xa8
    ∷ 0x36 ∷ 0xba ∷ 0x3c ∷ 0x23 ∷ 0xa3 ∷ 0xfe ∷ 0xeb ∷ 0xbd ∷ 0x45 ∷ 0x4d ∷ 0x44 ∷ 0x23 ∷ 0x64
    ∷ 0x3c ∷ 0xe8 ∷ 0x0e ∷ 0x2a ∷ 0x9a ∷ 0xc9 ∷ 0x4f ∷ 0xa5 ∷ 0x4c ∷ 0xa4 ∷ 0x9f ∷ []

-- `tag[0] ^= 0x01`
unfoldable pub tampered : Bytes → Bytes
tampered [] = []
tampered (b ∷ bs) = (if b % 2 == 0 then b + 1 else b - 1) ∷ bs

-- Whether a blob opened to this seed.
unfoldable pub opened_as : {X : Type 0} → Bytes → Result X Bytes → Bool
opened_as seed (ok s) = beq_bytes s seed
opened_as seed (err e) = false

module _ ⦃cr : Crypto⦄ where
  unfoldable pub ed25519_kat : Bool
  ed25519_kat =
      beq_bytes (public_bytes ed_seed) ed_pub
      && cr.ed25519_verify (public_bytes ed_seed) (codes "picosignet-selftest")
          (cr.ed25519_sign ed_seed (codes "picosignet-selftest"))

  unfoldable pub sha512_kat : Bool
  sha512_kat = beq_bytes (cr.sha512 (codes "abc")) sha512_abc

  unfoldable pub aead_kat : Bool
  aead_kat =
      let kek = derive_dev_kek (replicate 32 0xa5) in
      let seed = replicate 32 0x33 in
      let blob = wrap_seed kek seed (replicate 32 0x44) dev_kek (replicate 16 0) (replicate 12 0) in
      opened_as seed (unwrap_seed kek blob)
      && not (is_ok (unwrap_seed kek (record blob { tag = tampered blob.tag })))
