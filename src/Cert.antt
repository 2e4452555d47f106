-- ===== src/Cert.antt =====
-- hsm-core/src/cert.rs and `signature_blob` of hsm-core/src/keys.rs: OpenSSH user certificates.
-- A live CA key is its seed.
pub mod Decode
pub mod RoundTrip
pub mod Sizes
use picosignet.Prelude.{ℕ, List, [], ◌∷◌, ◌++◌}
use picosignet.Prelude.Bytes.{Bytes, codes, be32, be64}
use picosignet.Crypto.{Crypto}
use picosignet.Maps.{Map}
use picosignet.Wrap.{put_string, public_blob, public_bytes}

abbrev pub cert_type_user : ℕ
cert_type_user = 1

pub record CertParams : Type 0 where
  pub cert_algo : Bytes
  pub key_body : Bytes
  pub nonce : Bytes
  pub serial : ℕ
  pub key_id : Bytes
  pub principals : List Bytes
  pub valid_after : ℕ
  pub valid_before : ℕ
  pub critical_options : Map
  pub extensions : Map

unfoldable pub marshal_principals : List Bytes → Bytes
marshal_principals [] = []
marshal_principals (p ∷ ps) = put_string p ++ marshal_principals ps

-- The field of an option's value: empty for a flag, or a second string.
unfoldable pub value_field : Bytes → Bytes
value_field [] = []
value_field (c ∷ cs) = put_string (c ∷ cs)

unfoldable pub marshal_tuples : Map → Bytes
marshal_tuples [] = []
marshal_tuples ((k, v) ∷ rest) = put_string k ++ (put_string (value_field v) ++ marshal_tuples rest)

module _ ⦃cr : Crypto⦄ where
  unfoldable pub signature_blob : Bytes → Bytes → Bytes
  signature_blob seed msg =
      put_string (codes "ssh-ed25519") ++ put_string (cr.ed25519_sign seed msg)

  -- `blob` when it is signed.
  unfoldable pub signed_bytes : CertParams → Bytes → Bytes
  signed_bytes p seed =
      put_string p.cert_algo
      ++ (put_string p.nonce
          ++ (p.key_body
              ++ (be64 p.serial
                  ++ (be32 cert_type_user
                      ++ (put_string p.key_id
                          ++ (put_string (marshal_principals p.principals)
                              ++ (be64 p.valid_after
                                  ++ (be64 p.valid_before
                                      ++ (put_string (marshal_tuples p.critical_options)
                                          ++ (put_string (marshal_tuples p.extensions)
                                              ++ (put_string []
                                                  ++ put_string
                                                      (public_blob (public_bytes seed)))))))))))))

  -- `blob` at the end.
  unfoldable pub certificate_blob : CertParams → Bytes → Bytes
  certificate_blob p seed =
      signed_bytes p seed ++ put_string (signature_blob seed (signed_bytes p seed))

  unfoldable pub build_certificate : CertParams → Bytes → Bytes
  build_certificate p seed =
      p.cert_algo ++ (codes " " ++ cr.base64_encode (certificate_blob p seed))
