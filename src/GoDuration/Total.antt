-- ===== src/GoDuration/Total.antt =====
-- hsm-core/src/goduration.rs: `parse_duration` ends on every text, and stays in range.
use picosignet.Prelude.{
  ℕ, zero, suc, ◌+◌, ◌-◌, ◌*◌, ◌%◌, ◌^◌, ◌≡◌, ◌⊎◌, ◌≤◌, ◌<◌, refl, arith, Bool, true, false, Option,
  none, some, [], ◌∷◌, ok, err, ok_or, fails, overflows, unfinished, ltb, ◌==◌, inl, inr, length,
  if◌then◌else◌,
}
use picosignet.Prelude.Bytes.{Bytes}
use picosignet.Prelude.Int.{ℤ, pos, IsI64, of_u64, to_u64}
use picosignet.Text.{is_nil}
use picosignet.GoDuration.{two_63, unit_map}
use picosignet.GoDuration.Reading.{
  ◌>>◌, ◌>>=◌, Float64, Parsed, leading_int, refuse_if, unit_text, fraction, leading_fraction,
  with_fraction, parse_round, parse_loop, parse_unsigned, signed, parse_duration,
}

leading_int-shorter :
    (x : ℕ) (s : Bytes) (v : ℕ) (rest : Bytes)
    → leading_int x s ≡ some (v, rest)
    → length rest ≤ length s
unfolding leading_int
leading_int-shorter x [] v rest h = ground arith
leading_int-shorter x (c ∷ cs) v rest h =
    ground (arith, leading_int-shorter (x * 10 + (c - 48)) cs v rest)

unit_text-shorter : (s : Bytes) → length (unit_text s).0 + length (unit_text s).1 ≡ length s
unfolding unit_text
unit_text-shorter [] = refl
unit_text-shorter (c ∷ cs) = ground (arith, unit_text-shorter cs)

-- A step ends with a value that holds, or with a message: it neither panics nor runs out of fuel.
unfoldable pub Good : {A : Type 0} → (A → Type 0) → Parsed A → Type 0
Good P (ok a) = P a
Good P (err (fails message)) = Unit {0}
Good P (err overflows) = ⊥
Good P (err unfinished) = ⊥

pub record Ends {A : Type 0} (P : A → Type 0) (m : Parsed A) : Type 0 where
  pub good : Good P m

module _ {A B : Type 0} {P : B → Type 0} where
  pub then_Ends :
      {Q : A → Type 0} (m : Parsed A) (f : A → Parsed B)
      → Ends Q m
      → ((a : A) → Q a → Ends P (f a))
      → Ends P (m >>= f)
  unfolding Good
  then_Ends (ok a) f q k = k a q.good
  then_Ends (err (fails message)) f q k = record { good = tt }
  then_Ends (err overflows) f q k = record { good = q.good }
  then_Ends (err unfinished) f q k = record { good = q.good }

  pub known :
      (o : Option A) (message : Bytes) (f : A → Parsed B)
      → ((a : A) → o ≡ some a → Ends P (f a))
      → Ends P (ok_or o (fails message) >>= f)
  unfolding Good
  known none message f k = record { good = tt }
  known (some a) message f k = k a refl

module _ {B : Type 0} {P : B → Type 0} where
  pub ended : (b : B) → P b → Ends P (ok b)
  unfolding Good
  ended b p = record { good = p }

  pub refused :
      (b : Bool) (message : Bytes) (k : Parsed B)
      → (b ≡ false → Ends P k)
      → Ends P (refuse_if b message >> k)
  unfolding refuse_if Good
  refused true message k h = record { good = tt }
  refused false message k h = h refl

module _ {B : Type 0} {P : B → Type 0} where
  either : (b : Bool) (m k : Parsed B) → Ends P m → Ends P k → Ends P (if b then m else k)
  either true m k p q = p
  either false m k p q = q

  pub outcome :
      (m : Parsed B)
      → Ends P m
      → ((b : B) × (m ≡ ok b) × P b) ⊎ ((message : Bytes) × (m ≡ err (fails message)))
  unfolding Good
  outcome (ok b) e = inl (b, refl, e.good)
  outcome (err (fails message)) e = inr (message, refl)
  outcome (err overflows) e = absurd e.good
  outcome (err unfinished) e = absurd e.good

signed-Ends : (orig : Bytes) (neg : Bool) (d : ℕ) → d ≤ two_63 → Ends IsI64 (signed orig neg d)
unfolding signed of_u64 to_u64
signed-Ends orig true d small = ended _ (ground arith)
signed-Ends orig false d small = refused _ _ _ λ fits. ended _ (ground arith)

module _ ⦃fl : Float64⦄ where
  leading_fraction-shorter :
      (x scale : ℕ) (overflow : Bool) (s : Bytes)
      → length (leading_fraction x scale overflow s).2 ≤ length s
  unfolding leading_fraction
  leading_fraction-shorter x scale overflow [] = omega arith
  leading_fraction-shorter x scale overflow (c ∷ cs) = ground (
    arith,
    leading_fraction-shorter x scale true cs,
    leading_fraction-shorter (x * 10 + (c - 48)) (fl.mul scale fl.ten) false cs,
  )

  fraction-shorter : (s : Bytes) → length (fraction s).3 ≤ length s
  unfolding fraction
  fraction-shorter [] = omega arith
  fraction-shorter (c ∷ cs) = ground (arith, leading_fraction-shorter 0 fl.one false cs)

  -- A round leaves less of the text, and a sum in range.
  abbrev Round : Bytes → ℕ × Bytes → Type 0
  Round s r = (r.0 ≤ two_63) × (length r.1 < length s)

  has_unit :
      (u rest s : Bytes)
      → is_nil u ≡ false
      → length u + length rest ≤ length s
      → length rest < length s
  has_unit [] rest s h l = cc
  has_unit (c ∷ cs) rest s h l = omega arith

  with_fraction-Ends :
      (orig : Bytes) (v unit f scale : ℕ) → Ends (λ x. Unit {0}) (with_fraction orig v unit f scale)
  unfolding with_fraction
  with_fraction-Ends orig v unit zero scale = ended _ tt
  with_fraction-Ends orig v unit (suc f) scale = refused _ _ _ (λ h. ended _ tt)

  parse_round-Ends :
      (orig : Bytes) (d b0 : ℕ) (s : Bytes) → Ends (Round s) (parse_round orig d b0 s)
  unfolding parse_round
  parse_round-Ends orig d b0 s = refused _ _ _ λ starts.
      known (leading_int 0 s) _ _ λ (v, s1) number. refused _ _ _ λ digits. refused _ _ _ λ named.
        known (unit_map (unit_text (fraction s1).3).0) _ _ λ unit is_unit. refused _ _ _ λ room.
          then_Ends (with_fraction _ _ _ _ _) _ (with_fraction-Ends _ _ _ _ _) λ v' u.
            refused (ltb two_63 ((d + v') % 2 ^ 64)) _ _ λ fits. ended _ (
              ground (arith, fits),
              has_unit (unit_text (fraction s1).3).0 (unit_text (fraction s1).3).1 s named (
                  ground (
                    arith,
                    unit_text-shorter (fraction s1).3,
                    fraction-shorter s1,
                    leading_int-shorter 0 s v s1 number,
                  )),
            )

  loop-Ends :
      (fuel : ℕ) (orig : Bytes) (d : ℕ) (s : Bytes)
      → length s ≤ fuel
      → d ≤ two_63
      → Ends (λ t. t ≤ two_63) (parse_loop fuel orig d s)
  unfolding parse_loop
  loop-Ends zero orig d [] enough small = ended d small
  loop-Ends (suc fuel) orig d [] enough small = ended d small
  loop-Ends zero orig d (c ∷ cs) enough small = absurd (omega arith)
  loop-Ends (suc fuel) orig d (c ∷ cs) enough small =
      then_Ends (parse_round orig d c (c ∷ cs)) _ (parse_round-Ends orig d c (c ∷ cs))
        λ (d', rest) r. loop-Ends fuel orig d' rest (omega arith) r.0

  unsigned-Ends : (orig : Bytes) (neg : Bool) (s : Bytes) → Ends IsI64 (parse_unsigned orig neg s)
  unfolding parse_unsigned
  unsigned-Ends orig neg s = either _ _ _ (ended (pos 0) (omega arith)) (
      refused _ _ _ λ some_text.
        then_Ends (parse_loop (length s) orig 0 s) _
          (loop-Ends (length s) orig 0 s (omega arith) (omega arith))
          λ d small. signed-Ends orig neg d small)

  duration-Ends : (s : Bytes) → Ends IsI64 (parse_duration s)
  unfolding parse_duration
  duration-Ends [] = unsigned-Ends [] false []
  duration-Ends (c ∷ cs) =
      either _ _ _ (unsigned-Ends (c ∷ cs) (c == 45) cs) (unsigned-Ends (c ∷ cs) false (c ∷ cs))

  -- Parsing a duration ends on every text: with a duration that an `i64` holds, or with a message. The
  -- fuel of the loop suffices, whatever the floating-point operations give.
  pub parse_duration-ends :
      (s : Bytes)
      → ((d : ℤ) × (parse_duration s ≡ ok d) × IsI64 d)
        ⊎ ((message : Bytes) × (parse_duration s ≡ err (fails message)))
  parse_duration-ends s = outcome (parse_duration s) (duration-Ends s)
