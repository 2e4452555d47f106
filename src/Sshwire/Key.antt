-- ===== src/Sshwire/Key.antt =====
-- hsm-core/src/sshwire.rs: `parse_key_kind` and what it reads, `mpint` and SEC1 points.
use picosignet.Prelude.{
  fails, ℕ, ◌+◌, ◌-◌, ◌*◌, ◌%◌, ◌^◌, Bool, true, false, not, ◌&&◌, ◌||◌, Option, none, some, [],
  ◌∷◌, String, ok, err, pure, raise, ◌>>=◌, ◌>>◌, ltb, leb, ◌==◌, if◌then◌else◌, length, get_or,
}
use picosignet.Prelude.Bytes.{Bytes, codes, beq_bytes}
use picosignet.Sshwire.Reader.{Target, rejected, trailing, Read, read_string, is_empty}

-- The crates `base64`, `p256`, `p384` and `p521`: the standard alphabet's decoder, and whether
-- `PublicKey::from_sec1_bytes` takes a point.
pub record KeyCrates : Type 0 where
  pub base64_decode : Bytes → Option Bytes
  pub p256_point : Bytes → Bool
  pub p384_point : Bytes → Bool
  pub p521_point : Bytes → Bool

pub data KeyKind : Type 0 where
  ed25519 ecdsa_p256 ecdsa_p384 ecdsa_p521 : KeyKind
  rsa : ℕ → KeyKind

-- `byte & 0x80 != 0` of a byte.
abbrev pub high_bit : ℕ → Bool
high_bit b = leb 0x80 b

unfoldable pub positive_mpint_magnitude : Bytes → Option Bytes
positive_mpint_magnitude [] = none
positive_mpint_magnitude (b ∷ []) = if high_bit b || b == 0 then none else some (b ∷ [])
positive_mpint_magnitude (b ∷ c ∷ rest) =
    if high_bit b
    then none
    else if b == 0
    then (if high_bit c then some (c ∷ rest) else none)
    else some (b ∷ c ∷ rest)

-- `fold` of `(value << 8) | byte as u64`
unfoldable pub fold_u64 : ℕ → Bytes → ℕ
fold_u64 v [] = v
fold_u64 v (b ∷ bs) = fold_u64 (v * 256 % 2 ^ 64 + b) bs

unfoldable pub positive_mpint_u64 : Bytes → Option ℕ
positive_mpint_u64 bytes = elim (positive_mpint_magnitude bytes) [
  | none ↦ none
  | some magnitude ↦ if ltb 8 (length magnitude) then none else some (fold_u64 0 magnitude)
]

-- `8 - byte.leading_zeros()`
unfoldable pub bit_width : ℕ → ℕ
bit_width b =
    if ltb b 1
    then 0
    else if ltb b 2
    then 1
    else if ltb b 4
    then 2
    else if ltb b 8
    then 3
    else if ltb b 16
    then 4
    else if ltb b 32
    then 5
    else if ltb b 64
    then 6
    else if ltb b 128
    then 7
    else 8

unfoldable pub positive_mpint_bit_len : Bytes → Option ℕ
positive_mpint_bit_len bytes = elim (positive_mpint_magnitude bytes) [
  | none ↦ none
  | some magnitude ↦ some ((length magnitude - 1) * 8 + bit_width (get_or magnitude 0 0))
]

-- `KeyError::Rejected` of a text.
abbrev pub reject : {A : Type 0} → String → Read A
reject why = raise (fails (rejected (codes why)))

-- A value that must be there.
unfoldable pub need : {A : Type 0} → Option A → String → Read A
need (some a) why = pure a
need none why = reject why

unfoldable pub demand : Bool → String → Read (Unit {0})
demand true why = pure tt
demand false why = reject why

unfoldable pub require_uncompressed_sec1 : Bytes → ℕ → Read (Unit {0})
require_uncompressed_sec1 q expected_len =
    demand (length q == expected_len && not (length q == 0) && get_or q 0 0 == 0x04)
      "ECDSA public point must use uncompressed SEC1 encoding"

-- No byte may be left after the fields.
unfoldable pub exhausted : Read (Unit {0})
exhausted r = if is_empty r then (ok tt, r) else (err (fails trailing), r)

-- The key types that can be certified, one for each name of `cert_algo_for`.
pub data Algo : Type 0 where
  ssh_ed25519 ssh_rsa nistp256 nistp384 nistp521 : Algo

module _ ⦃t : Target⦄ where
  unfoldable pub ed25519_kind : Read KeyKind
  ed25519_kind = do pk ← read_string; demand (length pk == 32) "malformed ed25519 key"; pure ed25519

  unfoldable pub rsa_kind : Read KeyKind
  rsa_kind = do
    e_bytes ← read_string
    e ← need (positive_mpint_u64 e_bytes) "malformed RSA public exponent"
    demand (not (ltb e 3 || e % 2 == 0)) "RSA public exponent must be an odd integer >= 3"
    n_bytes ← read_string
    bits ← need (positive_mpint_bit_len n_bytes) "malformed RSA modulus"
    pure (rsa bits)

  -- The arm of one curve: its name, the length of a point, and what its crate accepts.
  unfoldable pub ecdsa_kind : String → ℕ → (Bytes → Bool) → KeyKind → Read KeyKind
  ecdsa_kind name expected_len point kind = do
    curve ← read_string
    q ← read_string
    demand (beq_bytes curve (codes name)) "mismatched ECDSA curve"
    require_uncompressed_sec1 q expected_len
    demand (point q) "invalid ECDSA public point"
    pure kind

module _ ⦃t : Target⦄ ⦃kc : KeyCrates⦄ where
  unfoldable pub kind_of : Algo → Read KeyKind
  kind_of ssh_ed25519 = ed25519_kind
  kind_of ssh_rsa = rsa_kind
  kind_of nistp256 = ecdsa_kind "nistp256" 65 kc.p256_point ecdsa_p256
  kind_of nistp384 = ecdsa_kind "nistp384" 97 kc.p384_point ecdsa_p384
  kind_of nistp521 = ecdsa_kind "nistp521" 133 kc.p521_point ecdsa_p521

  -- The names outside `Algo`, on which the source answers `Parse`, do not reach this function.
  unfoldable pub parse_key_kind : Algo → Read KeyKind
  parse_key_kind algo = do kind ← kind_of algo; exhausted; pure kind
