-- ===== src/Simulator/Args.antt =====
-- hsm-sim/src/main.rs: the command line.
use Prim.Native.Nat.{bit_xor}
use picosignet.Prelude.{
  ℕ, ◌+◌, ◌-◌, ◌*◌, ◌%◌, ◌^◌, Bool, true, false, ◌&&◌, List, [], ◌∷◌, ◌++◌, Option, none, some,
  Result, ok, err, leb, ◌==◌, if◌then◌else◌,
}
use picosignet.Prelude.Bytes.{Bytes, codes, beq_bytes}
use picosignet.Prelude.Int.{ℤ, pos, sub_ℕ, i64_max}

abbrev pub default_seed : ℕ
default_seed = 0x75736268736d0042

pub record Args : Type 0 where
  pub seed : ℕ
  pub fixed_time : Option ℤ
  pub state_file : Option Bytes

unfoldable pub fold_bytes : ℕ → Bytes → ℕ
fold_bytes acc [] = acc
fold_bytes acc (b ∷ bs) = fold_bytes (bit_xor acc b * 0x100000001b3 % 2 ^ 64) bs

unfoldable pub fold_hex_seed : Bytes → ℕ
fold_hex_seed hex = fold_bytes 0xcbf29ce484222325 hex

-- `str::parse::<i64>`: the number that digits stand for, and the number of a text, at most `most` of it.
unfoldable pub decimal : ℕ → Bytes → Option ℕ
decimal acc [] = some acc
decimal acc (c ∷ cs) = elim (leb 48 c && leb c 57) [
  | true ↦ decimal (acc * 10 + (c - 48)) cs
  | false ↦ none
]

unfoldable pub magnitude : ℕ → Bytes → Option ℕ
magnitude most [] = none
magnitude most (c ∷ cs) = elim (decimal 0 (c ∷ cs)) [
  | none ↦ none
  | some n ↦ if leb n most then some n else none
]

abbrev signed_by : Bool → Option ℕ → Option ℤ
signed_by negative none = none
signed_by true (some n) = some (sub_ℕ 0 n)
signed_by false (some n) = some (pos n)

unfoldable pub parse_i64 : Bytes → Option ℤ
parse_i64 [] = none
parse_i64 (c ∷ cs) =
    if c == 45
    then signed_by true (magnitude (i64_max + 1) cs)
    else if c == 43
    then signed_by false (magnitude i64_max cs)
    else signed_by false (magnitude i64_max (c ∷ cs))

-- The arms of the loop's `match`.
pub data Flag : Type 0 where
  deterministic_rng with_fixed_time with_state_file : Flag
  unknown : Flag

unfoldable pub flag_of : Bytes → Flag
flag_of a =
    if beq_bytes a (codes "--deterministic-rng")
    then deterministic_rng
    else if beq_bytes a (codes "--fixed-time")
    then with_fixed_time
    else if beq_bytes a (codes "--state-file")
    then with_state_file
    else unknown

-- A flag with the argument that follows it, if one does.
unfoldable pub take_flag : Bytes → Flag → Option Bytes → Args → Result Bytes Args
take_flag a unknown v args = err (codes "unknown flag: " ++ a)
take_flag a _ none args = err (a ++ codes " needs a value")
take_flag a deterministic_rng (some v) args = ok (record args { seed = fold_hex_seed v })
take_flag a with_fixed_time (some v) args = elim (parse_i64 v) [
  | none ↦ err (codes "invalid --fixed-time")
  | some t ↦ ok (record args { fixed_time = some t })
]
take_flag a with_state_file (some v) args = ok (record args { state_file = some v })

-- The loop of `parse_args`, with what it has so far.
unfoldable pub parse_from : Args → List Bytes → Result Bytes Args
parse_from args [] = ok args
parse_from args (a ∷ []) = take_flag a (flag_of a) none args
parse_from args (a ∷ v ∷ rest) = elim (take_flag a (flag_of a) (some v) args) [
  | err e ↦ err e
  | ok args' ↦ parse_from args' rest
]

unfoldable pub parse_args : List Bytes → Result Bytes Args
parse_args = parse_from (record { seed = default_seed; fixed_time = none; state_file = none })
