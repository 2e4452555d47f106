-- ===== src/Prelude/Bytes.antt =====
-- Byte strings: lists of numbers below 256, with Rust's big-endian conversions.
use Prim.Native.Nat.{zero, suc, bit_and, ◌-◌, ℕ, zero, suc, ◌+◌, ◌*◌, ◌/◌, ◌%◌, ◌<◌, ◌≤◌}
use Prim.Native.Char.{code}
use Prim.Native.String.{String}
use mathlib.Core.Logic.{inl, inr}
use mathlib.Core.Path.{◌≡◌, refl, ap, sym, ◌∙◌}
use mathlib.Core.Bool.{Bool, true, false, ◌&&◌}
use mathlib.Core.List.{List, [], ◌∷◌, ◌++◌}
use native.Mathlib.Omega.{arith}
use picosignet.Prelude.Tests.{◌==◌, ==_iff, if◌then◌else◌, Bool-cases}
use picosignet.Prelude.Lists.{All, length, get_or, take, drop, take-append, drop-append}

abbrev pub Bytes : Type 0
Bytes = List ℕ

abbrev pub IsByte : ℕ → Type 0
IsByte b = b < 256

-- The bytes of an ASCII text.
abbrev pub codes : String → Bytes
codes String.[] = []
codes (String.◌∷◌ c s) = code c ∷ codes s

unfoldable pub beq_bytes : Bytes → Bytes → Bool
beq_bytes [] [] = true
beq_bytes (x ∷ xs) (y ∷ ys) = x == y && beq_bytes xs ys
beq_bytes _ _ = false

pub beq_bytes_refl : (xs : Bytes) → beq_bytes xs xs ≡ true
unfolding beq_bytes
beq_bytes_refl [] = refl
beq_bytes_refl (x ∷ xs) = ground (arith, beq_bytes_refl xs)

pub beq_bytes-eq : (xs ys : Bytes) → beq_bytes xs ys ≡ true → xs ≡ ys
unfolding beq_bytes
beq_bytes-eq [] [] h = refl
beq_bytes-eq [] (y ∷ ys) h = cc
beq_bytes-eq (x ∷ xs) [] h = cc
beq_bytes-eq (x ∷ xs) (y ∷ ys) h = ground (arith, beq_bytes-eq xs ys)

-- `u16::to_be_bytes`, `u32::to_be_bytes` and `u64::to_be_bytes`, of a value in range.
abbrev pub be16 : ℕ → Bytes
be16 v = (v / 256 % 256) ∷ (v % 256) ∷ []

abbrev pub be32 : ℕ → Bytes
be32 v = (v / 16777216 % 256) ∷ (v / 65536 % 256) ∷ (v / 256 % 256) ∷ (v % 256) ∷ []

abbrev pub be64 : ℕ → Bytes
be64 v = be32 (v / 4294967296) ++ be32 (v % 4294967296)

-- `from_be_bytes` of the first bytes.
unfoldable pub of_be16 : Bytes → ℕ
of_be16 b = get_or b 0 0 * 256 + get_or b 1 0

unfoldable pub of_be32 : Bytes → ℕ
of_be32 b = get_or b 0 0 * 16777216 + get_or b 1 0 * 65536 + get_or b 2 0 * 256 + get_or b 3 0

unfoldable pub of_be64 : Bytes → ℕ
unfolding of_be32
of_be64 b = of_be32 b * 4294967296 + of_be32 (drop 4 b)

-- `b[i..j]`
abbrev pub slice : Bytes → ℕ → ℕ → Bytes
slice b i j = take (j - i) (drop i b)

pub slice_at :
    (i j : ℕ) (xs ys zs : Bytes)
    → length xs ≡ i
    → length ys ≡ j - i
    → slice (xs ++ (ys ++ zs)) i j ≡ ys
slice_at i j xs ys zs hi hj = rw (drop-append i xs (ys ++ zs) hi) (take-append (j - i) ys zs hj)

pub be32-IsByte : (v : ℕ) → All IsByte (be32 v)
be32-IsByte v = omega arith

pub be16-IsByte : (v : ℕ) → All IsByte (be16 v)
be16-IsByte v = omega arith

pub of_be32-be32 : (v : ℕ) (rest : Bytes) → v < 4294967296 → of_be32 (be32 v ++ rest) ≡ v
unfolding of_be32
of_be32-be32 v rest h = omega arith

pub be32-of_be32 :
    (xs : Bytes) → 4 ≤ length xs → All IsByte xs → be32 (of_be32 xs) ++ drop 4 xs ≡ xs
unfolding of_be32
be32-of_be32 [] h b = absurd (omega arith)
be32-of_be32 (x ∷ []) h b = absurd (omega arith)
be32-of_be32 (x ∷ y ∷ []) h b = absurd (omega arith)
be32-of_be32 (x ∷ y ∷ z ∷ []) h b = absurd (omega arith)
be32-of_be32 (x ∷ y ∷ z ∷ w ∷ rest) h b = ground arith

pub of_be16-be16 : (v : ℕ) (rest : Bytes) → v < 65536 → of_be16 (be16 v ++ rest) ≡ v
unfolding of_be16
of_be16-be16 v rest h = omega arith

-- How many values below a bound two functions differ on; over bytes it is computed.
unfoldable pub mismatches : (ℕ → ℕ) → (ℕ → ℕ) → ℕ → ℕ
mismatches f g zero = 0
mismatches f g (suc n) = (if f n == g n then 0 else 1) + mismatches f g n

pub agree_below : (f g : ℕ → ℕ) (n x : ℕ) → mismatches f g n ≡ 0 → x < n → f x ≡ g x
unfolding mismatches
agree_below f g zero x none h = absurd (omega arith)
agree_below f g (suc n) x none h = elim (Bool-cases (x == n)) [
  | inl same ↦ let e = (==_iff x n).0 same in ap f e ∙ (agree_at ∙ sym (ap g e))
  | inr other ↦ agree_below f g n x (ground arith) (ground arith)
]
  where
    agree_at : f n ≡ g n
    agree_at = ground arith

pub ff-bit_and : (x : ℕ) → x < 256 → bit_and 0xff x ≡ x
unfolding mismatches
ff-bit_and x h = agree_below (λ y. bit_and 0xff y) (λ y. y) 256 x refl h

pub bit_and-ff : (x : ℕ) → x < 256 → bit_and x 0xff ≡ x
unfolding mismatches
bit_and-ff x h = agree_below (λ y. bit_and y 0xff) (λ y. y) 256 x refl h

pub bit_and-zero : (x : ℕ) → x < 256 → bit_and x 0 ≡ 0
unfolding mismatches
bit_and-zero x h = agree_below (λ y. bit_and y 0) (λ y. 0) 256 x refl h
