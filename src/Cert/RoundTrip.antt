-- ===== src/Cert/RoundTrip.antt =====
-- hsm-core/src/cert.rs: a reader of certificates gets back what `build_certificate` was given.
use mathlib.Core.List.{append_assoc, append-nil}
use picosignet.Prelude.{
  ℕ, ◌+◌, ◌≡◌, ◌<◌, refl, ap, ◌∙◌, arith, some, List, [], ◌∷◌, ◌++◌, length, length-append, All,
}
use picosignet.Prelude.Bytes.{Bytes, codes, be32, be64}
use picosignet.Crypto.{Crypto}
use picosignet.Wrap.{put_string, public_blob, public_bytes}
use picosignet.Sshwire.Key.{KeyKind, ed25519, ecdsa_p256, ecdsa_p384, ecdsa_p521, rsa, KeyCrates}
use picosignet.Sshwire.Bodies.{IsBody, IsPoint}
use picosignet.Cert.{
  CertParams, cert_type_user, marshal_principals, marshal_tuples, value_field, signature_blob,
  signed_bytes, certificate_blob,
}
use picosignet.Maps.{Map}
use picosignet.Cert.Decode.{
  get_u32, get_u64, get_string, get_strings, get_pair, get_value, get_tuples, get_body, get_fields,
  Fields, taken, get_u32-be32, get_u64-be64, get_string-put_string,
}

-- A text whose length a `u32` holds, four bytes to spare.
abbrev pub IsShort : Bytes → Type 0
IsShort s = length s + 4 < 4294967296

string_at : (s tail : Bytes) → IsShort s → get_string (put_string s ++ tail) ≡ some (s, tail)
string_at s tail h = get_string-put_string s tail (omega arith)

pub get_strings-marshal_principals :
    (ps : List Bytes) → All IsShort ps → get_strings (length ps) (marshal_principals ps) ≡ some ps
unfolding get_strings marshal_principals put_string
get_strings-marshal_principals [] h = refl
get_strings-marshal_principals (p ∷ ps) h =
    ground (arith, string_at p (marshal_principals ps) h.0, get_strings-marshal_principals ps h.1)

abbrev pub IsShortPair : Bytes × Bytes → Type 0
IsShortPair e = IsShort e.0 × IsShort e.1

get_value-value_field : (v : Bytes) → IsShort v → get_value (value_field v) ≡ some v
unfolding get_value value_field put_string
get_value-value_field [] h = refl
get_value-value_field (c ∷ cs) h = ground (arith, string_at (c ∷ cs) [] h, append-nil cs)

length-value_field : (v : Bytes) → IsShort v → length (value_field v) < 4294967296
unfolding value_field put_string
length-value_field [] h = omega arith
length-value_field (c ∷ cs) h = omega arith

get_pair-append :
    (k field tail : Bytes)
    → length k < 4294967296
    → length field < 4294967296
    → get_pair (put_string k ++ (put_string field ++ tail)) ≡ some ((k, field), tail)
unfolding get_pair
get_pair-append k field tail hk hf =
    taken get_string _ _ (get_string-put_string k (put_string field ++ tail) hk)
    ∙ taken get_string _ _ (get_string-put_string field tail hf)

pub get_tuples-marshal_tuples :
    (m : Map) → All IsShortPair m → get_tuples (length m) (marshal_tuples m) ≡ some m
unfolding get_tuples marshal_tuples put_string
get_tuples-marshal_tuples [] h = refl
get_tuples-marshal_tuples ((k, v) ∷ rest) h = ground (
  arith,
  get_pair-append k (value_field v) (marshal_tuples rest) (omega arith)
      (length-value_field v h.0.1),
  get_value-value_field v h.0.1,
  get_tuples-marshal_tuples rest h.1,
)

unfoldable pub body_strings : KeyKind → ℕ
body_strings ed25519 = 1
body_strings _ = 2

one_string :
    (a tail : Bytes)
    → length a < 4294967296
    → get_body 1 (put_string a ++ tail) ≡ some (put_string a, tail)
unfolding get_body
one_string a tail h =
    taken get_string _ _ (get_string-put_string a tail h)
    ∙ ap (λ s. some (s, tail)) (append-nil (put_string a))

two_strings :
    (a b tail : Bytes)
    → length a < 4294967296
    → length b < 4294967296
    → get_body 2 (put_string a ++ (put_string b ++ tail))
      ≡ some (put_string a ++ put_string b, tail)
unfolding get_body
two_strings a b tail ha hb =
    taken get_string _ _ (get_string-put_string a (put_string b ++ tail) ha)
    ∙ taken (get_body 1) _ _ (one_string b tail hb)

length-two : (a b : Bytes) → length (put_string a ++ put_string b) ≡ 8 + length a + length b
unfolding put_string
length-two a b = omega (arith, length-append a (put_string b))

pair_at :
    (a b body tail : Bytes)
    → body ≡ put_string a ++ put_string b
    → length body < 4294967296
    → get_body 2 (body ++ tail) ≡ some (body, tail)
pair_at a b body tail e h =
    let n : 8 + length a + length b < 4294967296 = omega (arith, ap length e, length-two a b) in
    rw (e, append_assoc (put_string a) (put_string b) tail)
      (two_strings a b tail (omega arith) (omega arith))

-- The body of a key that was accepted is so many strings.
body_at :
    ⦃kc : KeyCrates⦄ (kind : KeyKind) (body tail : Bytes)
    → IsBody kind body
    → length body < 4294967296
    → get_body (body_strings kind) (body ++ tail) ≡ some (body, tail)
unfolding IsBody IsPoint body_strings
body_at ed25519 body tail (pk, e, size) h = rw e (one_string pk tail (omega arith))
body_at (rsa bits) body tail (a, b, v, e, _, _, _, _) h = pair_at a b body tail e h
body_at ecdsa_p256 body tail (q, e, _, _, _) h = pair_at (codes "nistp256") q body tail e h
body_at ecdsa_p384 body tail (q, e, _, _, _) h = pair_at (codes "nistp384") q body tail e h
body_at ecdsa_p521 body tail (q, e, _, _, _) h = pair_at (codes "nistp521") q body tail e h

-- What fits the widths of the wire.
pub record IsFitting (p : CertParams) : Type 0 where
  pub cert_algo : length p.cert_algo < 4294967296
  pub nonce : length p.nonce < 4294967296
  pub key_body : length p.key_body < 4294967296
  pub serial : p.serial < 18446744073709551616
  pub key_id : length p.key_id < 4294967296
  pub principals : length (marshal_principals p.principals) < 4294967296
  pub valid_after : p.valid_after < 18446744073709551616
  pub valid_before : p.valid_before < 18446744073709551616
  pub critical_options : length (marshal_tuples p.critical_options) < 4294967296
  pub extensions : length (marshal_tuples p.extensions) < 4294967296

module _ ⦃cr : Crypto⦄ where
  tail_of :
      (p : CertParams) (seed tail : Bytes)
      → signed_bytes p seed ++ tail
        ≡ put_string p.cert_algo
          ++ (put_string p.nonce
              ++ (p.key_body
                  ++ (be64 p.serial
                      ++ (be32 cert_type_user
                          ++ (put_string p.key_id
                              ++ (put_string (marshal_principals p.principals)
                                  ++ (be64 p.valid_after
                                      ++ (be64 p.valid_before
                                          ++ (put_string (marshal_tuples p.critical_options)
                                              ++ (put_string (marshal_tuples p.extensions)
                                                  ++ (put_string []
                                                      ++ (put_string
                                                            (public_blob (public_bytes seed))
                                                          ++ tail))))))))))))
  unfolding signed_bytes
  tail_of p seed tail = simp append_assoc

  unfoldable pub fields_of : CertParams → Bytes → Fields
  fields_of p seed = record {
    cert_algo = p.cert_algo;
    nonce = p.nonce;
    body = p.key_body;
    serial = p.serial;
    cert_type = cert_type_user;
    key_id = p.key_id;
    principals = marshal_principals p.principals;
    valid_after = p.valid_after;
    valid_before = p.valid_before;
    critical_options = marshal_tuples p.critical_options;
    extensions = marshal_tuples p.extensions;
    reserved = [];
    ca_key = public_blob (public_bytes seed);
  }

  pub get_fields-signed_bytes :
      ⦃kc : KeyCrates⦄ (kind : KeyKind) (p : CertParams) (seed tail : Bytes)
      → IsBody kind p.key_body
      → IsFitting p
      → length (public_blob (public_bytes seed)) < 4294967296
      → get_fields (body_strings kind) (signed_bytes p seed ++ tail) ≡ some (fields_of p seed, tail)
  unfolding get_fields fields_of
  get_fields-signed_bytes kind p seed tail body fits ca =
      ap (λ b. get_fields (body_strings kind) b) (tail_of p seed tail)
      ∙ (taken get_string _ _ (get_string-put_string p.cert_algo _ fits.cert_algo)
          ∙ (taken get_string _ _ (get_string-put_string p.nonce _ fits.nonce)
              ∙ (taken (get_body (body_strings kind)) _ _
                    (body_at kind p.key_body _ body fits.key_body)
                  ∙ (taken get_u64 _ _ (get_u64-be64 p.serial _ fits.serial)
                      ∙ (taken get_u32 _ _ (get_u32-be32 cert_type_user _ (omega arith))
                          ∙ (taken get_string _ _ (get_string-put_string p.key_id _ fits.key_id)
                              ∙ (taken get_string _ _ (
                                    get_string-put_string (marshal_principals p.principals) _
                                      fits.principals)
                                  ∙ (taken get_u64 _ _
                                        (get_u64-be64 p.valid_after _ fits.valid_after)
                                      ∙ (taken get_u64 _ _
                                            (get_u64-be64 p.valid_before _ fits.valid_before)
                                          ∙ (taken get_string _ _ (
                                                get_string-put_string
                                                  (marshal_tuples p.critical_options) _
                                                  fits.critical_options)
                                              ∙ (taken get_string _ _ (
                                                    get_string-put_string
                                                      (marshal_tuples p.extensions) _
                                                      fits.extensions)
                                                  ∙ (taken get_string _ _
                                                        (get_string-put_string [] _ (omega arith))
                                                      ∙ taken get_string _ _ (
                                                          get_string-put_string
                                                            (public_blob (public_bytes seed)) tail
                                                            ca)))))))))))))

  -- A reader that takes the fields of PROTOCOL.certkeys off the front of a certificate gets back what
  -- the certificate was built from, for every accepted kind of key: the public key's own bytes, the
  -- serial, the names, the validity and the options, the lists of principals and options entry by
  -- entry, and at the end the CA's signature over exactly the bytes before it. The lengths fit the
  -- wire's words.
  pub certificate_blob-fields :
      ⦃kc : KeyCrates⦄ (kind : KeyKind) (p : CertParams) (seed : Bytes)
      → IsBody kind p.key_body
      → IsFitting p
      → All IsShort p.principals
      → All IsShortPair p.critical_options
      → All IsShortPair p.extensions
      → length (public_blob (public_bytes seed)) < 4294967296
      → (get_fields (body_strings kind) (certificate_blob p seed)
          ≡ some (fields_of p seed, put_string (signature_blob seed (signed_bytes p seed))))
        × (get_strings (length p.principals) (fields_of p seed).principals ≡ some p.principals)
        × (get_tuples (length p.critical_options) (fields_of p seed).critical_options
            ≡ some p.critical_options)
        × (get_tuples (length p.extensions) (fields_of p seed).extensions ≡ some p.extensions)
  unfolding certificate_blob fields_of
  certificate_blob-fields kind p seed body fits names crit ext ca = (
    get_fields-signed_bytes kind p seed _ body fits ca,
    get_strings-marshal_principals p.principals names,
    get_tuples-marshal_tuples p.critical_options crit,
    get_tuples-marshal_tuples p.extensions ext,
  )
