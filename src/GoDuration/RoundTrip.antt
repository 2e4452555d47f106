-- ===== src/GoDuration/RoundTrip.antt =====
-- hsm-core/src/goduration.rs: `parse_duration` of what `format_duration` writes.
use native.Mathlib.Omega.{pow_step}
use picosignet.Prelude.{
  if◌then◌else◌, ℕ, zero, suc, ◌-◌, ◌*◌, ◌/◌, ◌%◌, ◌^◌, ◌≡◌, ◌≤◌, ◌<◌, refl, sym, ap, ◌∙◌, arith,
  Bool, true, false, ◌||◌, [], ◌∷◌, ok, ◌==◌, ltb, Bool-cases, inl, inr, length,
}
use picosignet.Prelude.Bytes.{Bytes, codes, beq_bytes}
use picosignet.Prelude.Int.{pos, negsuc, of_u64, to_u64}
use picosignet.GoDuration.{
  fmt_int, two_63, second, write_places, fmt_frac, fmt_minutes, fmt_hours, fmt_clock, fmt_magnitude,
  format_duration,
}
use picosignet.GoDuration.Reading.{
  Float64, refuse_if, parse_loop, parse_unsigned, signed, parse_duration,
}
use picosignet.GoDuration.ReadClock.{StartsWithDigit, fmt_int-head, clock_text, clock_read}

no_places : (k n : ℕ) (buf : Bytes) → write_places k false (n * 10 ^ k) buf ≡ (false, buf, n)
unfolding write_places
no_places zero n buf = let e : n * 10 ^ 0 ≡ n = omega arith in rw e
no_places (suc k) n buf =
    let e : n * 10 ^ suc k ≡ 10 * (n * 10 ^ k) = rw (pow_step 10 k) (grind arith) in
    let r : n * 10 ^ suc k % 10 ≡ 0 = omega arith in
    let q : n * 10 ^ suc k / 10 ≡ n * 10 ^ k = omega arith in rw (r, q) (no_places k n buf)

fmt_clock-eq : (n : ℕ) → fmt_clock (n * second) ≡ clock_text n
unfolding fmt_clock fmt_frac clock_text
fmt_clock-eq n = rw (no_places 9 n (115 ∷ []))

fmt_magnitude-eq : (n : ℕ) → 0 < n → fmt_magnitude (n * second) ≡ clock_text n
unfolding fmt_magnitude
fmt_magnitude-eq n p =
    let big : ltb (n * second) second ≡ false = ground arith in rw (big, fmt_clock-eq n)

format_duration-pos : (u : ℕ) → 0 < u → format_duration (pos u) ≡ fmt_magnitude u
unfolding format_duration
format_duration-pos zero p = absurd (omega arith)
format_duration-pos (suc u) p = refl

format_duration-negsuc : (u : ℕ) → 0 < u → format_duration (negsuc (u - 1)) ≡ 45 ∷ fmt_magnitude u
unfolding format_duration
format_duration-negsuc u p = let e : suc (u - 1) ≡ u = omega arith in rw e

-- A clock's text is a digit and more.
wider : (buf s : Bytes) → StartsWithDigit buf s → 1 ≤ length buf → StartsWithDigit (115 ∷ []) s
wider buf s (c, cs, e, digit, longer) h = (c, cs, e, digit, omega arith)

clock-head : (n : ℕ) → StartsWithDigit (115 ∷ []) (clock_text n)
unfolding clock_text fmt_minutes fmt_hours
clock-head n = elim (Bool-cases (n / 60 == 0)) [
  | inl short ↦ rw short (fmt_int-head (n % 60) (115 ∷ []))
  | inr longer ↦ elim (Bool-cases (n / 60 / 60 == 0)) [
    | inl short ↦
        rw (longer, short)
          (wider (109 ∷ fmt_int (115 ∷ []) (n % 60)) _ (fmt_int-head (n / 60 % 60) _) (omega arith))
    | inr long ↦
        rw (longer, long)
          (wider (104 ∷ fmt_int (109 ∷ fmt_int (115 ∷ []) (n % 60)) (n / 60 % 60)) _
            (fmt_int-head (n / 60 / 60) _) (omega arith))
  ]
]

-- The wrapping negation of a magnitude.
negated :
    (d : ℕ) → 0 < d → d < two_63 → of_u64 ((2 ^ 64 - to_u64 (of_u64 d)) % 2 ^ 64) ≡ negsuc (d - 1)
unfolding of_u64 to_u64
negated d p h = ground arith

positive : (d : ℕ) → d < two_63 → of_u64 d ≡ pos d
unfolding of_u64
positive d h = ground arith

in_range : (d : ℕ) → d < two_63 → ltb (two_63 - 1) d ≡ false
in_range d h = ground arith

not_zero_text : (c b : ℕ) (cs : Bytes) → beq_bytes (c ∷ b ∷ cs) (codes "0") ≡ false
unfolding beq_bytes
not_zero_text c b cs = ground arith

module _ ⦃fl : Float64⦄ where
  -- What is left after the sign, for a text that the loop reads to the end.
  unsigned_read :
      (orig : Bytes) (neg : Bool) (c d : ℕ) (cs : Bytes)
      → 1 < length (c ∷ cs)
      → parse_loop (length (c ∷ cs)) orig 0 (c ∷ cs) ≡ ok d
      → 0 < d
      → d < two_63
      → parse_unsigned orig neg (c ∷ cs) ≡ ok (if neg then negsuc (d - 1) else pos d)
  unfolding parse_unsigned refuse_if signed
  unsigned_read orig neg c d [] two h p small = absurd (omega arith)
  unsigned_read orig true c d (b ∷ cs) two h p small =
      ground (arith, not_zero_text c b cs, h, negated d p small)
  unsigned_read orig false c d (b ∷ cs) two h p small =
      ground (arith, not_zero_text c b cs, h, in_range d small, positive d small)

  text_read :
      (orig : Bytes) (neg : Bool) (n : ℕ)
      → 0 < n
      → n * second < two_63
      → parse_unsigned orig neg (clock_text n)
        ≡ ok (if neg then negsuc (n * second - 1) else pos (n * second))
  text_read orig neg n p small =
      let (c, cs, e, _, longer) = clock-head n in
      rw e (
        unsigned_read orig neg c (n * second) cs (omega (arith, ap length e))
          (ap (λ s. parse_loop (length s) orig 0 s) (sym e)
            ∙ clock_read orig n (omega arith) (length (clock_text n)) (omega arith))
          (omega arith) small)

  unsigned_text :
      (n : ℕ) → parse_duration (clock_text n) ≡ parse_unsigned (clock_text n) false (clock_text n)
  unfolding parse_duration
  unsigned_text n =
      let (c, cs, e, digit, _) = clock-head n in
      let sign : (c == 45 || c == 43) ≡ false = ground arith in rw (e, sign)

  -- A whole number of seconds, positive or negative, up to the largest that a duration holds, is read
  -- back from the text that is written for it.
  pub parse_duration-format_duration :
      (n : ℕ)
      → 0 < n
      → n * second < two_63
      → (parse_duration (format_duration (pos (n * second))) ≡ ok (pos (n * second)))
        × (parse_duration (format_duration (negsuc (n * second - 1)))
            ≡ ok (negsuc (n * second - 1)))
  unfolding parse_duration
  parse_duration-format_duration n p small =
      let some_time : 0 < n * second = omega arith in
      (
        rw (format_duration-pos (n * second) some_time, fmt_magnitude-eq n p)
            (unsigned_text n ∙ text_read (clock_text n) false n p small),
        rw (format_duration-negsuc (n * second) some_time, fmt_magnitude-eq n p)
            (text_read (45 ∷ clock_text n) true n p small),
      )
