-- ===== src/Sshwire/Sizes.antt =====
-- hsm-core/src/sshwire.rs and hsm-core/src/validate.rs: how long the body of a granted key can be.
use picosignet.Prelude.{
  ℕ, ◌+◌, ◌≡◌, ◌≤◌, ap, arith, some, [], ◌∷◌, ◌++◌, Option-cases, inl, inr, length, length-append,
}
use picosignet.Prelude.Bytes.{Bytes, codes}
use picosignet.Wrap.{put_string}
use picosignet.Sshwire.Key.{
  KeyCrates, KeyKind, ed25519, ecdsa_p256, ecdsa_p384, ecdsa_p521, rsa, positive_mpint_magnitude,
  positive_mpint_u64, positive_mpint_bit_len,
}
use picosignet.Sshwire.Bodies.{IsBody, IsPoint}
use picosignet.Validate.Permitted.{IsSized}

-- A number is its magnitude, and at most one byte of sign.
length-magnitude :
    (bytes : Bytes) {m : Bytes}
    → positive_mpint_magnitude bytes ≡ some m
    → length bytes ≤ length m + 1
unfolding positive_mpint_magnitude
length-magnitude [] h = cc
length-magnitude (b ∷ []) h = ground (arith, h)
length-magnitude (b ∷ c ∷ rest) h = ground (arith, h)

length-exponent : (bytes : Bytes) {v : ℕ} → positive_mpint_u64 bytes ≡ some v → length bytes ≤ 9
unfolding positive_mpint_u64
length-exponent bytes h = elim (Option-cases (positive_mpint_magnitude bytes)) [
  | inl e ↦ absurd (ground (arith, e, h))
  | inr (m, e) ↦ ground (arith, e, h, length-magnitude bytes e)
]

length-modulus :
    (bytes : Bytes) {bits : ℕ}
    → positive_mpint_bit_len bytes ≡ some bits
    → bits ≤ 8192
    → length bytes ≤ 1026
unfolding positive_mpint_bit_len
length-modulus bytes h l = elim (Option-cases (positive_mpint_magnitude bytes)) [
  | inl e ↦ absurd (ground (arith, e, h))
  | inr (m, e) ↦ ground (arith, e, h, length-magnitude bytes e)
]

length-fields : (a b : Bytes) → length (put_string a ++ put_string b) ≡ 8 + length a + length b
unfolding put_string
length-fields a b = omega (arith, length-append a (put_string b))

pair-length :
    (a b body : Bytes)
    → body ≡ put_string a ++ put_string b
    → length a + length b ≤ 1035
    → length body ≤ 1043
pair-length a b body e l = omega (arith, ap length e, length-fields a b)

-- The body of a key that was accepted and is granted.
pub IsBody-length :
    ⦃kc : KeyCrates⦄ (kind : KeyKind) (body : Bytes)
    → IsBody kind body
    → IsSized kind
    → length body ≤ 1043
unfolding IsBody IsPoint IsSized put_string
IsBody-length ed25519 body (pk, e, size) s = omega (arith, ap length e, size)
IsBody-length (rsa bits) body (a, b, v, e, ve, _, _, bl) s =
    let one = length-exponent a ve in
    let two = length-modulus b bl s.1 in pair-length a b body e (omega arith)
IsBody-length ecdsa_p256 body (q, e, size, _, _) s =
    pair-length (codes "nistp256") q body e (omega arith)
IsBody-length ecdsa_p384 body (q, e, size, _, _) s =
    pair-length (codes "nistp384") q body e (omega arith)
IsBody-length ecdsa_p521 body (q, e, size, _, _) s =
    pair-length (codes "nistp521") q body e (omega arith)
