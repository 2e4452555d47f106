-- ===== src/Tests/Signing.antt =====
-- The theorems on the signing path, at a ready device and a small request.
use picosignet.Prelude.{
  arith, ℕ, ◌-◌, ◌*◌, ◌^◌, ◌<◌, ◌≤◌, ◌≡◌, ◌⊎◌, refl, [], ◌∷◌, ◌++◌, true, some, ok, err, fails,
  overflows, replicate, if◌then◌else◌,
}
use picosignet.Prelude.Bytes.{Bytes, codes, be32}
use picosignet.Prelude.Int.{ℤ, pos, negsuc, IsI64}
use picosignet.Hal.Mock.{MockFlash}
use picosignet.Clock.{now_unix}
use picosignet.Wrap.{put_string}
use picosignet.Maps.{IsSorted, lookup, contains_key}
use picosignet.Proto.Outer.{EnclaveSigningRequest, Response, blank}
use picosignet.GoDuration.{second, format_duration}
use picosignet.GoDuration.Reading.{Float64, parse_duration, refuse_if}
use picosignet.GoDuration.RoundTrip.{parse_duration-format_duration}
use picosignet.GoDuration.Total.{parse_duration-ends}
use picosignet.Sshwire.Reader.{Target, read_string}
use picosignet.Sshwire.Key.{
  KeyCrates, ed25519, ssh_ed25519, positive_mpint_bit_len, positive_mpint_magnitude, bit_width,
}
use picosignet.Sshwire.Line.{parse_blob, algo_name, cert_algo, parse_authorized_key}
use picosignet.Sshwire.Mpint.{value, positive_mpint_bit_len-value}
use picosignet.Sshwire.Panic.{parse_blob-overflows}
use picosignet.Validate.{Validated, validate, validate_request}
use picosignet.Dispatch.Session.{Hsm, dev_ready}
use picosignet.Text.{
  trim, join, trim_end, trim_start, chars, strip_cr, join_char, continues, is_white, lines,
  split_lines, split_whitespace, split_words,
}
use picosignet.Sshwire.Line.{
  type_and_text, text_after, nonempty_lines, find_type, algo_for, is_known_unsupported, parse_body,
  parsed,
}
use picosignet.Sshwire.Key.{demand, ed25519_kind, exhausted, kind_of, parse_key_kind}
use picosignet.Sshwire.Reader.{advance, has, is_empty, new}
use picosignet.Validate.{
  map_fault, check_principals, check_attributes, validate_public_key, check_duration,
}
use picosignet.Validate.Permitted.{IsPermitted, validate-IsPermitted, validate-extensions}
use picosignet.GoDuration.Reading.{
  parse_unsigned, signed, parse_loop, parse_round, leading_int, unit_text, fraction,
  leading_fraction, with_fraction,
}
use picosignet.GoDuration.{unit_map}
use picosignet.Maps.{insert_all, insert, before}
use picosignet.Prelude.Int.{of_u64, checked_add}
use picosignet.Prelude.Bytes.{beq_bytes, of_be32}
use picosignet.Dispatch.Sign.{
  handle_sign, need_signer, can_sign, current_time, known_time, granted, seeding, need_seed,
  random_array, random_u64, signing_key,
}
use picosignet.Dispatch.Setup.{ensure_seeded}
use picosignet.Rng.{fill_bytes, bump, next_u64}
use picosignet.Clock.{elapsed_secs, moved_on}
use picosignet.Tests.Devices.{timer, zeros, no_crc, stream, plain, fresh}

instance abbrev pub floats : Float64
floats = record {
  one = 1;
  ten = 10;
  of_int = λ n. n;
  to_int = λ x. x;
  mul = λ x y. x * y;
  div = λ x y. 0;
}

-- The word of the device.
instance abbrev pub word32 : Target
word32 = record { usize_max = 4294967295 }

abbrev pub key_blob : Bytes
key_blob = put_string (codes "ssh-ed25519") ++ put_string (replicate 32 7)

instance abbrev pub crates : KeyCrates
crates = record {
  base64_decode = λ b. some key_blob;
  p256_point = λ q. true;
  p384_point = λ q. true;
  p521_point = λ q. true;
}

parse_duration-format_duration_example :
    (parse_duration (format_duration (pos (3661 * second))) ≡ ok (pos (3661 * second)))
    × (parse_duration (format_duration (negsuc (3661 * second - 1)))
        ≡ ok (negsuc (3661 * second - 1)))
parse_duration-format_duration_example =
    parse_duration-format_duration 3661 (omega arith) (omega arith)

parse_duration-ends_example :
    ((d : ℤ) × (parse_duration (codes "1h30m") ≡ ok d) × IsI64 d)
    ⊎ ((message : Bytes) × (parse_duration (codes "1h30m") ≡ err (fails message)))
parse_duration-ends_example = parse_duration-ends (codes "1h30m")

three_bytes : positive_mpint_bit_len (1 ∷ 0 ∷ 1 ∷ []) ≡ some 17
unfolding positive_mpint_bit_len positive_mpint_magnitude bit_width
three_bytes = refl

positive_mpint_bit_len-value_example :
    (value (1 ∷ 0 ∷ 1 ∷ []) < 2 ^ 17) × (2 ^ 17 ≤ 2 * value (1 ∷ 0 ∷ 1 ∷ []))
positive_mpint_bit_len-value_example =
    positive_mpint_bit_len-value (1 ∷ 0 ∷ 1 ∷ []) (omega arith, (omega arith, (omega arith, tt)))
      three_bytes

parse_blob-overflows_example : parse_blob ssh_ed25519 (be32 4294967295 ++ []) ≡ err overflows
parse_blob-overflows_example =
    parse_blob-overflows ssh_ed25519 4294967295 [] (omega arith) (omega arith) (omega arith)

abbrev pub request : EnclaveSigningRequest
request = record {
  ssh_key = codes "ssh-ed25519 KEY me";
  key_id = codes "alice";
  principals = codes "alice" ∷ [];
  validity = codes "1h";
  permissions = (codes "permit-pty", []) ∷ [];
  custom_attributes = (codes "team", codes "ops") ∷ [];
  critical_options = [];
}

-- A device that is set up for development, with a key, a set clock and a seeded generator.
abbrev pub ready : Hsm ℕ ℕ MockFlash ℕ
ready = record fresh {
  mono = 5000000;
  state = dev_ready;
  ca = some (replicate 32 9);
  clock = record {
    epoch_unix = some (pos 1750000000);
    epoch_mono_us = 0;
    trust_anchor_unix = some (pos 1750000000);
    trust_anchor_mono_us = 0;
  };
  drbg = record { rng = 0; seeded = true; since_reseed = 0 };
}

abbrev pub grant : Validated
grant = record {
  key = record {
    algo = algo_name ssh_ed25519;
    cert_algo = cert_algo ssh_ed25519;
    key_body = put_string (replicate 32 7);
    kind = ed25519;
  };
  duration_ns = pos 3600000000000;
  extensions = (codes "permit-pty", []) ∷ ((codes "team", codes "ops") ∷ []);
  critical_options = [];
}

pub key_ok : parse_authorized_key request.ssh_key ≡ ok grant.key
unfolding parse_authorized_key type_and_text text_after nonempty_lines lines split_lines trim join
    trim_end trim_start chars strip_cr join_char continues is_white find_type split_whitespace
    split_words algo_for beq_bytes of_be32 demand ed25519_kind exhausted kind_of parse_key_kind
    algo_name cert_algo is_known_unsupported parse_blob parse_body parsed advance has is_empty new
    read_string put_string
key_ok = refl

pub granted_ok : validate request ≡ ok grant
unfolding validate validate_request refuse_if map_fault parse_duration parse_unsigned signed
    parse_loop parse_round leading_int unit_text fraction leading_fraction with_fraction unit_map
    check_principals check_attributes validate_public_key check_duration contains_key lookup
    insert_all insert before of_u64 parse_authorized_key type_and_text text_after nonempty_lines
    lines split_lines trim join trim_end trim_start chars strip_cr join_char continues is_white
    find_type split_whitespace split_words algo_for beq_bytes of_be32 demand ed25519_kind exhausted
    kind_of parse_key_kind algo_name cert_algo is_known_unsupported parse_blob parse_body parsed
    advance has is_empty new read_string put_string
granted_ok = refl

abbrev pub issued : Response
issued = elim (handle_sign request ready).0 [ ok r ↦ r | err l ↦ blank ]

pub issued_ok : handle_sign request ready ≡ (ok issued, (handle_sign request ready).1)
unfolding handle_sign need_signer can_sign current_time known_time now_unix moved_on checked_add
    elapsed_secs granted seeding ensure_seeded need_seed random_array fill_bytes bump random_u64
    next_u64 signing_key validate validate_request refuse_if map_fault parse_duration parse_unsigned
    signed parse_loop parse_round leading_int unit_text fraction leading_fraction with_fraction
    unit_map check_principals check_attributes validate_public_key check_duration contains_key
    lookup insert_all insert before of_u64 parse_authorized_key type_and_text text_after
    nonempty_lines lines split_lines trim join trim_end trim_start chars strip_cr join_char
    continues is_white find_type split_whitespace split_words algo_for beq_bytes of_be32 demand
    ed25519_kind exhausted kind_of parse_key_kind algo_name cert_algo is_known_unsupported
    parse_blob parse_body parsed advance has is_empty new read_string put_string
issued_ok = refl

validate-IsPermitted_example : IsPermitted request grant
validate-IsPermitted_example = validate-IsPermitted request granted_ok

validate-extensions_example :
    IsSorted grant.extensions
    × (lookup (codes "team") grant.extensions ≡ (
        if contains_key (codes "team") request.custom_attributes
        then lookup (codes "team") request.custom_attributes
        else lookup (codes "team") request.permissions))
unfolding IsSorted
validate-extensions_example =
    validate-extensions request (codes "team") (tt, tt) (tt, tt) granted_ok
