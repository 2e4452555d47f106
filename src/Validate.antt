-- ===== src/Validate.antt =====
-- hsm-core/src/validate.rs: which signing requests are granted, and with what message others are
-- refused.
pub mod Permitted
use picosignet.Prelude.{
  ℕ, zero, suc, ◌+◌, ◌*◌, Bool, true, false, not, List, [], ◌∷◌, ◌++◌, Result, ok, err, Fault,
  fails, overflows, unfinished, ltb, ◌==◌, if◌then◌else◌, length,
}
use picosignet.Prelude.Bytes.{Bytes, codes}
use picosignet.Prelude.Int.{ℤ, pos, leb_ℤ}
use picosignet.Text.{trim, is_nil}
use picosignet.Maps.{Map, contains_key, insert_all}
use picosignet.Proto.Outer.{EnclaveSigningRequest}
use picosignet.GoDuration.{quote, fmt_int, format_duration}
use picosignet.GoDuration.Reading.{Parsed, ◌>>=◌, ◌>>◌, refuse_if, Float64, parse_duration}
use picosignet.Sshwire.Reader.{Target, KeyError, parse, options, trailing, rejected}
use picosignet.Sshwire.Key.{KeyCrates, KeyKind, ed25519, ecdsa_p256, ecdsa_p384, ecdsa_p521, rsa}
use picosignet.Sshwire.Line.{ParsedKey, parse_authorized_key}

abbrev pub max_principals : ℕ
max_principals = 100

abbrev pub max_validity_ns : ℕ
max_validity_ns = 24 * 3600 * 1000000000

abbrev pub min_rsa_bits : ℕ
min_rsa_bits = 2048

abbrev pub max_rsa_bits : ℕ
max_rsa_bits = 8192

pub record Validated : Type 0 where
  pub key : ParsedKey
  pub duration_ns : ℤ
  pub extensions : Map
  pub critical_options : Map

-- A number as `{}` formats it.
abbrev pub decimal : ℕ → Bytes
decimal n = fmt_int [] n

unfoldable pub map_key_error : KeyError → Bytes
map_key_error parse = codes "failed to parse public key: invalid authorized key"
map_key_error options = codes "public key must not carry SSH options"
map_key_error trailing = codes "public key must not carry trailing data"
map_key_error (rejected r) = codes "rejected public key: " ++ r

-- `map_err` of an error; what is no error passes through.
unfoldable pub map_fault : {E F A : Type 0} → (E → F) → Result (Fault E) A → Result (Fault F) A
map_fault f (ok a) = ok a
map_fault f (err (fails e)) = err (fails (f e))
map_fault f (err overflows) = err overflows
map_fault f (err unfinished) = err unfinished

-- The loop over the principals, from an index.
unfoldable pub check_principals : ℕ → List Bytes → Parsed (Unit {0})
check_principals i [] = ok tt
check_principals i (p ∷ ps) = do
  refuse_if (is_nil (trim p))
      (codes "invalid request: principal at index " ++ (decimal i ++ codes " cannot be empty"))
  check_principals (suc i) ps

-- The loop over the custom attributes' keys.
unfoldable pub check_attributes : Map → Map → Parsed (Unit {0})
check_attributes permissions [] = ok tt
check_attributes permissions ((k, v) ∷ rest) = do
  refuse_if (contains_key k permissions) (
      codes "invalid request: key "
      ++ (quote k ++ codes " present in both permissions and custom_attributes"))
  check_attributes permissions rest

unfoldable pub validate_public_key : KeyKind → Parsed (Unit {0})
validate_public_key (rsa bits) = do
  refuse_if (ltb bits min_rsa_bits) (
      codes "rejected public key: RSA key too small: "
      ++ (decimal bits ++ (codes " bits (minimum " ++ (decimal min_rsa_bits ++ codes ")"))))
  refuse_if (ltb max_rsa_bits bits) (
      codes "rejected public key: RSA key too large: "
      ++ (decimal bits ++ (codes " bits (maximum " ++ (decimal max_rsa_bits ++ codes ")"))))
validate_public_key ed25519 = ok tt
validate_public_key ecdsa_p256 = ok tt
validate_public_key ecdsa_p384 = ok tt
validate_public_key ecdsa_p521 = ok tt

-- Steps 4 and 5 of `validate`: the bounds on the duration.
unfoldable pub check_duration : ℤ → Parsed (Unit {0})
check_duration duration_ns = do
  refuse_if (leb_ℤ duration_ns (pos 0)) (
      codes "validity duration must be positive (got "
      ++ (format_duration duration_ns ++ codes ")"))
  refuse_if (not (leb_ℤ duration_ns (pos max_validity_ns))) (
      codes "validity duration "
      ++ (format_duration duration_ns
          ++ (codes " exceeds maximum allowed " ++ format_duration (pos max_validity_ns))))

module _ ⦃fl : Float64⦄ where
  unfoldable pub validate_request : EnclaveSigningRequest → Parsed ℤ
  validate_request req = do
    refuse_if (is_nil (trim req.ssh_key)) (codes "invalid request: SSH key cannot be empty")
    refuse_if (is_nil (trim req.key_id)) (codes "invalid request: KeyID cannot be empty")
    refuse_if (is_nil (trim req.validity))
        (codes "invalid request: validity duration cannot be empty")
    duration ←
        map_fault (λ e. codes "invalid request: invalid validity duration format: " ++ e)
          (parse_duration req.validity)
    refuse_if (length req.principals == 0) (codes "invalid request: principals cannot be empty")
    refuse_if (ltb max_principals (length req.principals)) (
        codes "invalid request: too many principals: "
        ++ (decimal (length req.principals)
            ++ (codes " (maximum: " ++ (decimal max_principals ++ codes ")"))))
    check_principals 0 req.principals
    check_attributes req.permissions req.custom_attributes
    ok duration

module _ ⦃fl : Float64⦄ ⦃t : Target⦄ ⦃kc : KeyCrates⦄ where
  unfoldable pub validate : EnclaveSigningRequest → Parsed Validated
  validate req = do
    duration_ns ← validate_request req
    key ← map_fault map_key_error (parse_authorized_key req.ssh_key)
    validate_public_key key.kind
    check_duration duration_ns
    ok (record {
      key = key;
      duration_ns = duration_ns;
      extensions = insert_all req.custom_attributes (insert_all req.permissions []);
      critical_options = req.critical_options;
    })
