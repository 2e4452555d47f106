-- ===== src/GoDuration/ReadClock.antt =====
-- hsm-core/src/goduration.rs: the loop of `parse_duration` on hours, minutes and whole seconds.
use picosignet.Prelude.{
  ℕ, zero, suc, ◌+◌, ◌*◌, ◌/◌, ◌%◌, ◌^◌, ◌≡◌, ◌≤◌, ◌<◌, refl, sym, ap, ◌∙◌, arith, true, false, not,
  ◌||◌, some, [], ◌∷◌, ok, ◌==◌, ltb, Bool-cases, inl, inr, length,
}
use picosignet.Prelude.Bytes.{Bytes, beq_bytes}
use picosignet.GoDuration.{
  write_digits, fmt_int, two_63, second, minute, hour, unit_map, fmt_hours, fmt_minutes,
}
use picosignet.GoDuration.Reading.{
  Float64, is_digit, leading_int, refuse_if, unit_text, fraction, with_fraction, parse_round,
  parse_loop,
}
use picosignet.GoDuration.Digits.{leading_int-fmt_int}

-- What follows the letter of a unit: nothing, or the next number.
abbrev Follows : Bytes → Type 0
Follows rest = unit_text rest ≡ ([], rest)

-- A number that is written is a digit and more, and longer than what it was put before.
abbrev pub StartsWithDigit : Bytes → Bytes → Type 0
StartsWithDigit buf s =
    (c : ℕ) × (cs : Bytes) × (s ≡ c ∷ cs) × (is_digit c ≡ true) × (length buf < length s)

digit-write_digits :
    (f v : ℕ) (c : ℕ) (cs : Bytes) (buf : Bytes)
    → is_digit c ≡ true
    → length buf < length (c ∷ cs)
    → StartsWithDigit buf (write_digits f v (c ∷ cs))
unfolding write_digits
digit-write_digits zero v c cs buf d l = (c, cs, refl, d, l)
digit-write_digits (suc f) v c cs buf d l = elim (Bool-cases (v == 0)) [
  | inl done ↦ rw done (c, cs, refl, d, l)
  | inr more ↦
      rw more
        (digit-write_digits f (v / 10) (48 + v % 10) (c ∷ cs) buf (ground arith) (omega arith))
]

pub fmt_int-head : (v : ℕ) (buf : Bytes) → StartsWithDigit buf (fmt_int buf v)
unfolding fmt_int write_digits
fmt_int-head v buf = elim (Bool-cases (v == 0)) [
  | inl done ↦ rw done (48, buf, refl, refl, omega arith)
  | inr more ↦
      rw more (digit-write_digits 19 (v / 10) (48 + v % 10) buf buf (ground arith) (omega arith))
]

-- The text of so many whole seconds.
unfoldable pub clock_text : ℕ → Bytes
clock_text n = fmt_minutes (n / 60) (fmt_int (115 ∷ []) (n % 60))

module _ ⦃fl : Float64⦄ where
  number_at :
      (v letter : ℕ) (rest : Bytes)
      → v ≤ two_63
      → (letter == 46 || is_digit letter) ≡ false
      → leading_int 0 (fmt_int (letter ∷ rest) v) ≡ some (v, letter ∷ rest)
  unfolding leading_int
  number_at v letter rest small plain = ground (arith, leading_int-fmt_int v (letter ∷ rest))

  no_fraction :
      (letter : ℕ) (rest : Bytes)
      → (letter == 46 || is_digit letter) ≡ false
      → fraction (letter ∷ rest) ≡ (0, fl.one, false, letter ∷ rest)
  unfolding fraction
  no_fraction letter rest plain = ground arith

  letter_at :
      (letter : ℕ) (rest : Bytes)
      → (letter == 46 || is_digit letter) ≡ false
      → Follows rest
      → unit_text (letter ∷ rest) ≡ (letter ∷ [], rest)
  unfolding unit_text
  letter_at letter rest plain follows = rw (plain, follows)

  -- One number and its unit's letter.
  round_at :
      (orig : Bytes) (d v unit letter c : ℕ) (rest cs : Bytes)
      → fmt_int (letter ∷ rest) v ≡ c ∷ cs
      → is_digit c ≡ true
      → length (letter ∷ rest) < length (c ∷ cs)
      → Follows rest
      → (letter == 46 || is_digit letter) ≡ false
      → unit_map (letter ∷ []) ≡ some unit
      → v ≤ two_63 / unit
      → d + v * unit ≤ two_63
      → v ≤ two_63
      → parse_round orig d c (c ∷ cs) ≡ ok (d + v * unit, rest)
  unfolding parse_round refuse_if with_fraction
  round_at orig d v unit letter c rest cs e digit longer follows plain known room fits small = rw (
    starts,
    number,
    no_fraction letter rest plain,
    read,
    letter_at letter rest plain follows,
    known,
    holds,
    kept,
    final,
  )
    where
      starts : not (c == 46 || is_digit c) ≡ false
      starts = ground arith

      number : leading_int 0 (c ∷ cs) ≡ some (v, letter ∷ rest)
      number = ap (λ s. leading_int 0 s) (sym e) ∙ number_at v letter rest small plain

      read : (suc (length cs) == suc (length rest)) ≡ false
      read = ground arith

      holds : ltb (two_63 / unit) v ≡ false
      holds = ground arith

      kept : (d + v * unit) % 2 ^ 64 ≡ d + v * unit
      kept = omega arith

      final : ltb two_63 (d + v * unit) ≡ false
      final = ground arith

  -- The rest of a text is read from the sum so far to this total, on fuel for its length.
  abbrev pub Reads : Bytes → ℕ → Bytes → ℕ → Type 0
  Reads orig d s total = (fuel : ℕ) → length s ≤ fuel → parse_loop fuel orig d s ≡ ok total

  then-Reads :
      (orig : Bytes) (d v unit letter total : ℕ) (rest : Bytes)
      → Follows rest
      → (letter == 46 || is_digit letter) ≡ false
      → unit_map (letter ∷ []) ≡ some unit
      → v ≤ two_63 / unit
      → d + v * unit ≤ two_63
      → v ≤ two_63
      → Reads orig (d + v * unit) rest total
      → Reads orig d (fmt_int (letter ∷ rest) v) total
  unfolding parse_loop
  then-Reads orig d v unit letter total rest follows plain known room fits small more fuel enough =
      let (c, cs, e, digit, longer) = fmt_int-head v (letter ∷ rest) in
      rw e (go fuel c cs e digit (omega (arith, ap length e)) (omega (arith, ap length e)))
    where
      go :
          (fuel c : ℕ) (cs : Bytes)
          → fmt_int (letter ∷ rest) v ≡ c ∷ cs
          → is_digit c ≡ true
          → length (letter ∷ rest) < length (c ∷ cs)
          → length (c ∷ cs) ≤ fuel
          → parse_loop fuel orig d (c ∷ cs) ≡ ok total
      go zero c cs e digit longer enough = absurd (omega arith)
      go (suc fuel) c cs e digit longer enough =
          rw
            (round_at orig d v unit letter c rest cs e digit longer follows plain known room fits
              small)
            (more fuel (omega arith))

  loop_done : (fuel : ℕ) (orig : Bytes) (d : ℕ) → parse_loop fuel orig d [] ≡ ok d
  unfolding parse_loop
  loop_done zero orig d = refl
  loop_done (suc fuel) orig d = refl

  Follows-fmt_int : (v : ℕ) (buf : Bytes) → Follows (fmt_int buf v)
  unfolding unit_text
  Follows-fmt_int v buf = let (c, cs, e, digit, _) = fmt_int-head v buf in rw e (starts c cs digit)
    where
      starts : (c : ℕ) (cs : Bytes) → is_digit c ≡ true → Follows (c ∷ cs)
      starts c cs digit = ground arith

  seconds_read :
      (orig : Bytes) (d v total : ℕ)
      → d + v * second ≡ total
      → total ≤ two_63
      → Reads orig d (fmt_int (115 ∷ []) v) total
  unfolding unit_map unit_text beq_bytes
  seconds_read orig d v total e fits =
      then-Reads orig d v second 115 total [] refl refl refl (omega arith) (omega arith)
        (omega arith) (λ fuel h. rw e (loop_done fuel orig total))

  minutes_read :
      (orig : Bytes) (d m v total : ℕ)
      → d + m * minute + v * second ≡ total
      → total ≤ two_63
      → Reads orig d (fmt_int (109 ∷ fmt_int (115 ∷ []) v) m) total
  unfolding unit_map beq_bytes
  minutes_read orig d m v total e fits =
      then-Reads orig d m minute 109 total (fmt_int (115 ∷ []) v) (Follows-fmt_int v _) refl refl
        (omega arith) (omega arith) (omega arith)
        (seconds_read orig (d + m * minute) v total (omega arith) fits)

  hours_read :
      (orig : Bytes) (d h m v total : ℕ)
      → d + h * hour + m * minute + v * second ≡ total
      → total ≤ two_63
      → Reads orig d (fmt_int (104 ∷ fmt_int (109 ∷ fmt_int (115 ∷ []) v) m) h) total
  unfolding unit_map beq_bytes
  hours_read orig d h m v total e fits =
      then-Reads orig d h hour 104 total (fmt_int (109 ∷ fmt_int (115 ∷ []) v) m)
        (Follows-fmt_int m _) refl refl (omega arith) (omega arith) (omega arith)
        (minutes_read orig (d + h * hour) m v total (omega arith) fits)

  pub clock_read :
      (orig : Bytes) (n : ℕ) → n * second ≤ two_63 → Reads orig 0 (clock_text n) (n * second)
  unfolding clock_text fmt_minutes fmt_hours
  clock_read orig n fits = elim (Bool-cases (n / 60 == 0)) [
    | inl short ↦ rw short (seconds_read orig 0 (n % 60) (n * second) (ground arith) fits)
    | inr longer ↦ elim (Bool-cases (n / 60 / 60 == 0)) [
      | inl short ↦
          rw (longer, short)
            (minutes_read orig 0 (n / 60 % 60) (n % 60) (n * second) (ground arith) fits)
      | inr long ↦
          rw (longer, long)
            (hours_read orig 0 (n / 60 / 60) (n / 60 % 60) (n % 60) (n * second) (omega arith) fits)
    ]
  ]
