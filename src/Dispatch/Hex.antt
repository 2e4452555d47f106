-- ===== src/Dispatch/Hex.antt =====
-- hsm-core/src/dispatch.rs: `hex_encode`, `hex_decode` and `hexval`. A digit is its byte.
use picosignet.Prelude.{
  ℕ, ◌+◌, ◌-◌, ◌*◌, ◌/◌, ◌%◌, [], ◌∷◌, ◌&&◌, Option, none, some, leb, ltb, ◌==◌, if◌then◌else◌,
  length,
}
use picosignet.Prelude.Bytes.{Bytes}

-- `HEX[n]`
unfoldable pub hex_digit : ℕ → ℕ
hex_digit n = if ltb n 10 then 48 + n else 87 + n

unfoldable pub hex_encode : Bytes → Bytes
unfolding hex_digit
hex_encode [] = []
hex_encode (x ∷ xs) = hex_digit (x / 16) ∷ hex_digit (x % 16) ∷ hex_encode xs

unfoldable pub hexval : ℕ → Option ℕ
hexval c =
    if leb 48 c && leb c 57
    then some (c - 48)
    else if leb 97 c && leb c 102
    then some (c - 97 + 10)
    else if leb 65 c && leb c 70
    then some (c - 65 + 10)
    else none

-- One byte of `hex_decode`, of its two digits, before the bytes that follow it.
unfoldable pub hex_byte : Option ℕ → Option ℕ → Option Bytes → Option Bytes
hex_byte (some hi) (some lo) (some rest) = some ((hi * 16 + lo) ∷ rest)
hex_byte _ _ _ = none

-- The loop of `hex_decode`.
unfoldable pub hex_pairs : Bytes → Option Bytes
unfolding hex_byte
hex_pairs [] = some []
hex_pairs (a ∷ []) = none
hex_pairs (a ∷ b ∷ bs) = hex_byte (hexval a) (hexval b) (hex_pairs bs)

unfoldable pub hex_decode : Bytes → Option Bytes
hex_decode s = if length s % 2 == 0 then hex_pairs s else none
