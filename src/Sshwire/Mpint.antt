-- ===== src/Sshwire/Mpint.antt =====
-- hsm-core/src/sshwire.rs: `mpint` magnitudes against the numbers that they stand for.
use native.Mathlib.Omega.{pow_step}
use picosignet.Prelude.{
  ℕ, zero, suc, ◌+◌, ◌*◌, ◌^◌, ◌≡◌, ◌≤◌, ◌<◌, arith, some, [], ◌∷◌, length, All,
}
use picosignet.Prelude.Bytes.{Bytes, IsByte}
use picosignet.Sshwire.Key.{positive_mpint_magnitude, positive_mpint_bit_len, bit_width}

-- The number that big-endian bytes stand for.
unfoldable pub value : Bytes → ℕ
value [] = 0
value (b ∷ bs) = b * 256 ^ length bs + value bs

value-lt : (bs : Bytes) → All IsByte bs → value bs < 256 ^ length bs
unfolding value
value-lt [] h = omega arith
value-lt (b ∷ bs) h = grind (arith, value-lt bs h.1)

bit_width-eq :
    (b : ℕ)
    → 0 < b
    → b < 256
    → (b < 2 ^ bit_width b) × (2 ^ bit_width b ≤ 2 * b) × (0 < bit_width b)
unfolding bit_width
bit_width-eq b p h = ground arith

power_step : (k : ℕ) → 2 ^ suc (suc (suc (suc (suc (suc (suc (suc k))))))) ≡ 256 * 2 ^ k
power_step k = grind arith

power_shift : (n w : ℕ) → 2 ^ (n * 8 + w) ≡ 256 ^ n * 2 ^ w
power_shift zero w = let e : 0 * 8 + w ≡ w = omega arith in rw e (omega arith)
power_shift (suc n) w =
    let e : suc n * 8 + w ≡ suc (suc (suc (suc (suc (suc (suc (suc (n * 8 + w)))))))) =
      omega arith in
    rw (e, power_step (n * 8 + w), power_shift n w, pow_step 256 n) (grind arith)

scaled : (k x y : ℕ) → x ≤ y → k * x ≤ k * y
scaled k x y h = grind arith

-- The number of a magnitude whose first byte is not zero has as many bits as are counted.
magnitude-bits :
    (b : ℕ) (bs : Bytes)
    → 0 < b
    → All IsByte (b ∷ bs)
    → (value (b ∷ bs) < 2 ^ (length bs * 8 + bit_width b))
      × (2 ^ (length bs * 8 + bit_width b) ≤ 2 * value (b ∷ bs))
unfolding value
magnitude-bits b bs p h =
    let (top, low, _) = bit_width-eq b p h.0 in
    let rest = value-lt bs h.1 in
    rw (power_shift (length bs) (bit_width b))
      (grind arith, grind (arith, scaled (256 ^ length bs) (2 ^ bit_width b) (2 * b) low))

-- The number of bits that is checked against the limits on an RSA modulus is the one that the
-- number itself has: a canonical positive `mpint` of `bits` bits is below 2 ^ bits and not below half
-- of that.
pub positive_mpint_bit_len-value :
    (bytes : Bytes) {bits : ℕ}
    → All IsByte bytes
    → positive_mpint_bit_len bytes ≡ some bits
    → (value bytes < 2 ^ bits) × (2 ^ bits ≤ 2 * value bytes)
unfolding positive_mpint_bit_len positive_mpint_magnitude value
positive_mpint_bit_len-value [] h e = absurd (ground arith)
positive_mpint_bit_len-value (b ∷ []) h e = ground (arith, magnitude-bits b [])
positive_mpint_bit_len-value (b ∷ c ∷ rest) h e =
    ground (arith, magnitude-bits b (c ∷ rest), magnitude-bits c rest)
