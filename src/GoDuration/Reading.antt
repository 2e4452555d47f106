-- ===== src/GoDuration/Reading.antt =====
-- hsm-core/src/goduration.rs: `parse_duration`. What is left of the text stands for the offsets.
use picosignet.Prelude.{
  ℕ, zero, suc, ◌+◌, ◌-◌, ◌*◌, ◌/◌, ◌%◌, ◌^◌, Bool, true, false, not, ◌&&◌, ◌||◌, Option, none,
  some, [], ◌∷◌, Result, ok, err, and_then, ok_or, Fault, fails, unfinished, ltb, leb, ◌==◌,
  if◌then◌else◌, length,
}
use picosignet.Prelude.Bytes.{Bytes, codes, beq_bytes}
use picosignet.Prelude.Int.{ℤ, pos, of_u64, to_u64}
use picosignet.Text.{is_nil}
use picosignet.GoDuration.{two_63, unit_map, err_invalid, err_missing_unit, err_unknown_unit}

-- The operations of `f64` that the parser uses; a double is its bits.
pub record Float64 : Type 0 where
  pub one : ℕ
  pub ten : ℕ
  pub of_int : ℕ → ℕ
  pub to_int : ℕ → ℕ
  pub mul : ℕ → ℕ → ℕ
  pub div : ℕ → ℕ → ℕ

-- A parser's step: a value, or the message.
abbrev pub Parsed : Type 0 → Type 0
Parsed A = Result (Fault Bytes) A

infixl 10 ◌>>=◌ ◌>>◌
abbrev pub ◌>>=◌ : {A B : Type 0} → Parsed A → (A → Parsed B) → Parsed B
m >>= f = and_then m f

abbrev pub ◌>>◌ : {B : Type 0} → Parsed (Unit {0}) → Parsed B → Parsed B
m >> k = and_then m (λ _. k)

abbrev pub is_digit : ℕ → Bool
is_digit c = leb 48 c && leb c 57

-- The value of the leading digits and what follows them; `none` where it passes 2 ^ 63.
unfoldable pub leading_int : ℕ → Bytes → Option (ℕ × Bytes)
leading_int x [] = some (x, [])
leading_int x (c ∷ cs) =
    let more = leading_int (x * 10 + (c - 48)) cs in
    if not (is_digit c)
    then some (x, c ∷ cs)
    else if ltb (two_63 / 10) x
    then none
    else if ltb two_63 (x * 10 + (c - 48))
    then none
    else more

-- A test that must fail.
unfoldable pub refuse_if : Bool → Bytes → Parsed (Unit {0})
refuse_if true message = err (fails message)
refuse_if false message = ok tt

-- The run of bytes up to a point or a digit, and what follows it.
unfoldable pub unit_text : Bytes → Bytes × Bytes
unit_text [] = ([], [])
unit_text (c ∷ cs) =
    let (u, rest) = unit_text cs in if c == 46 || is_digit c then ([], c ∷ cs) else (c ∷ u, rest)

-- The magnitude with its sign: on `i64`, the largest negative one is its own negation.
unfoldable pub signed : Bytes → Bool → ℕ → Parsed ℤ
signed orig true d = ok (of_u64 ((2 ^ 64 - to_u64 (of_u64 d)) % 2 ^ 64))
signed orig false d = do refuse_if (ltb (two_63 - 1) d) (err_invalid orig); ok (of_u64 d)

module _ ⦃fl : Float64⦄ where
  -- The fraction's value, its scale and what follows it. What does not fit is left out.
  unfoldable pub leading_fraction : ℕ → ℕ → Bool → Bytes → ℕ × ℕ × Bytes
  leading_fraction x scale overflow [] = (x, scale, [])
  leading_fraction x scale overflow (c ∷ cs) =
      let full = overflow || ltb ((two_63 - 1) / 10) x || ltb two_63 (x * 10 + (c - 48)) in
      let skipped = leading_fraction x scale true cs in
      let taken = leading_fraction (x * 10 + (c - 48)) (fl.mul scale fl.ten) false cs in
      if not (is_digit c) then (x, scale, c ∷ cs) else if full then skipped else taken

  -- The fractional part, if a point stands there: value, scale, whether it has digits, what follows.
  unfoldable pub fraction : Bytes → ℕ × ℕ × Bool × Bytes
  fraction [] = (0, fl.one, false, [])
  fraction (c ∷ cs) =
      let (f, scale, rest) = leading_fraction 0 fl.one false cs in
      if c == 46
      then (f, scale, not (length cs == length rest), rest)
      else (0, fl.one, false, c ∷ cs)

  -- `v` with the fraction of a unit, if that is not 0.
  unfoldable pub with_fraction : Bytes → ℕ → ℕ → ℕ → ℕ → Parsed ℕ
  with_fraction orig v unit zero scale = ok v
  with_fraction orig v unit (suc f) scale = do
    let sum = (v + fl.to_int (fl.mul (fl.of_int (suc f)) (fl.div (fl.of_int unit) scale))) % 2 ^ 64
    refuse_if (ltb two_63 sum) (err_invalid orig)
    ok sum

  -- One round of the loop, on a text that is not empty: the sum so far and what is left.
  unfoldable pub parse_round : Bytes → ℕ → ℕ → Bytes → Parsed (ℕ × Bytes)
  parse_round orig d b0 s = do
    refuse_if (not (b0 == 46 || is_digit b0)) (err_invalid orig)
    (v, s1) ← ok_or (leading_int 0 s) (fails (err_invalid orig))
    let pre = not (length s == length s1)
    let (f, scale, post, s2) = fraction s1
    refuse_if (not pre && not post) (err_invalid orig)
    let (u, s3) = unit_text s2
    refuse_if (is_nil u) (err_missing_unit orig)
    unit ← ok_or (unit_map u) (fails (err_unknown_unit u orig))
    refuse_if (ltb (two_63 / unit) v) (err_invalid orig)
    v' ← with_fraction orig (v * unit) unit f scale
    refuse_if (ltb two_63 ((d + v') % 2 ^ 64)) (err_invalid orig)
    ok ((d + v') % 2 ^ 64, s3)

  unfoldable pub parse_loop : ℕ → Bytes → ℕ → Bytes → Parsed ℕ
  parse_loop fuel orig d [] = ok d
  parse_loop zero orig d (c ∷ cs) = err unfinished
  parse_loop (suc fuel) orig d (c ∷ cs) =
      parse_round orig d c (c ∷ cs) >>= λ (d', rest). parse_loop fuel orig d' rest

  -- After the sign; each round takes a byte at least.
  unfoldable pub parse_unsigned : Bytes → Bool → Bytes → Parsed ℤ
  parse_unsigned orig neg s = if beq_bytes s (codes "0") then ok (pos 0) else do
    refuse_if (is_nil s) (err_invalid orig)
    d ← parse_loop (length s) orig 0 s
    signed orig neg d

  unfoldable pub parse_duration : Bytes → Parsed ℤ
  parse_duration [] = parse_unsigned [] false []
  parse_duration (c ∷ cs) =
      if c == 45 || c == 43
      then parse_unsigned (c ∷ cs) (c == 45) cs
      else parse_unsigned (c ∷ cs) false (c ∷ cs)
