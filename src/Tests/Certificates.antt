-- ===== src/Tests/Certificates.antt =====
-- The theorems on certificates and on lines of input, at the same device and request.
use mathlib.Core.Path.{subst}
use picosignet.Prelude.{
  ◌≢◌, overflows, true, arith, ℕ, ◌+◌, ◌<◌, ◌≤◌, ◌≡◌, refl, [], ◌∷◌, none, some, ok, err, All, inr,
  length, replicate, length-replicate,
}
use picosignet.Prelude.Bytes.{Bytes, IsByte, codes}
use picosignet.Prelude.Int.{ℤ, pos, checked_add}
use picosignet.Hal.Mock
use picosignet.Hal.Mock.{MockFlash, mock_flash}
use picosignet.Clock.{now_unix, moved_on, elapsed_secs}
use picosignet.Wrap.{put_string, public_blob, public_bytes}
use picosignet.Proto.Outer.{failure}
use picosignet.Sshwire.NoPanic.{HasRoom, parse_authorized_key_no_panic}
use picosignet.Sshwire.Key.{ed25519, ssh_ed25519}
use picosignet.Sshwire.Reader.{Target}
use picosignet.Sshwire.Line.{ParsedKey, cert_algo, parse_authorized_key}
use picosignet.Sshwire.Bodies.{IsBody}
use picosignet.Sshwire.Accepted.{IsAccepted, parse_authorized_key-IsAccepted}
use picosignet.Validate.{Validated}
use picosignet.Validate.Permitted.{IsPermitted}
use picosignet.Cert.{
  CertParams, signed_bytes, signature_blob, certificate_blob, build_certificate, marshal_principals,
  marshal_tuples, value_field,
}
use picosignet.Cert.Decode.{get_fields, get_strings, get_tuples}
use picosignet.Cert.RoundTrip.{IsFitting, body_strings, fields_of, certificate_blob-fields}
use picosignet.Dispatch.Session.{Hsm}
use picosignet.Dispatch.Runs.{live}
use picosignet.Dispatch.Safety.{IsSafe}
use picosignet.Dispatch.Commands.{booted, Reaches-IsSafe}
use picosignet.Dispatch.Sign.{handle_sign, params, signed_response, answers, not_initialized}
use picosignet.Dispatch.Keeps.{masked}
use picosignet.Dispatch.Signing.{
  Signs, drawn_from, nonce_of, serial_of, handle_sign-keeps, handle_sign-refuses,
  handle_sign-issues,
}
use picosignet.Dispatch.Window.{handle_sign-window}
use picosignet.Dispatch.Issued.{CrateLaws, IsSmall, IsReadable, handle_sign-IsReadable}
use picosignet.Dispatch.Lines.{Json, process_line}
use picosignet.Dispatch.LineSafety.{process_line-IsSafe}
use picosignet.Tests.Devices.{timer, zeros, no_crc, stream, plain, fresh}
use picosignet.Tests.Signing.{
  floats, word32, crates, key_blob, request, ready, grant, key_ok, issued, issued_ok,
}

instance abbrev pub no_json : Json
no_json = record { from_slice = λ b. err (codes "EOF"); to_vec = λ r. none }

process_line-IsSafe_example : IsSafe (live (process_line (codes "{}") fresh).1)
process_line-IsSafe_example =
    process_line-IsSafe (codes "{}") fresh (Reaches-IsSafe (booted 0 5000000 Mock.new))

handle_sign-keeps_example :
    masked {M = ℕ} {F = MockFlash} fresh.drbg 0 (handle_sign request fresh).1
    ≡ masked fresh.drbg 0 fresh
handle_sign-keeps_example = handle_sign-keeps request fresh.drbg 0 fresh

-- The device after its key is gone.
abbrev keyless : Hsm ℕ ℕ MockFlash ℕ
keyless = record ready { ca = none }

handle_sign-refuses_example :
    handle_sign request keyless ≡ (err (answers (failure not_initialized)), keyless)
handle_sign-refuses_example = handle_sign-refuses request keyless (inr refl)

handle_sign-issues_example :
    (now : ℤ) × (v : Validated) × (seed : Bytes) × Signs ready.state
    × (now_unix ready.mono ready.clock ≡ ok (some now))
    × IsPermitted request v
    × (ready.ca ≡ some seed)
    × ((drawn_from ready).seeded ≡ true)
    × (issued
        ≡ signed_response (
            build_certificate
              (params request v now (nonce_of (drawn_from ready)) (serial_of (drawn_from ready)))
              seed))
handle_sign-issues_example = handle_sign-issues request ready issued_ok

ready_time : now_unix ready.mono ready.clock ≡ ok (some (pos 1750000005))
unfolding now_unix moved_on checked_add elapsed_secs
ready_time = refl

handle_sign-window_example :
    (p : CertParams) × (seed : Bytes) × (issued ≡ signed_response (build_certificate p seed))
    × (p.valid_after + 300 ≡ 1750000005)
    × (1750000005 ≤ p.valid_before)
    × (p.valid_before ≤ 1750000005 + 86400)
handle_sign-window_example =
    handle_sign-window request ready 1750000005 ready_time (omega arith) (omega arith) issued_ok

some_inj : {A : Type 0} {a b : A} → some a ≡ some b → a ≡ b
some_inj h = cc

key_blob-IsByte : All IsByte key_blob
unfolding put_string
key_blob-IsByte = omega arith

parse_authorized_key-IsAccepted_example : IsAccepted request.ssh_key grant.key
parse_authorized_key-IsAccepted_example =
    parse_authorized_key-IsAccepted request.ssh_key
      (λ text blob e. subst (λ b. All IsByte b) (some_inj e) key_blob-IsByte) key_ok

abbrev a_certificate : CertParams
a_certificate = record {
  cert_algo = cert_algo ssh_ed25519;
  key_body = put_string (replicate 32 7);
  nonce = replicate 32 1;
  serial = 5;
  key_id = codes "alice";
  principals = codes "alice" ∷ [];
  valid_after = 1749999705;
  valid_before = 1750003605;
  critical_options = [];
  extensions = (codes "permit-pty", []) ∷ ((codes "team", codes "ops") ∷ []);
}

a_certificate-IsFitting : IsFitting a_certificate
unfolding marshal_principals marshal_tuples value_field put_string cert_algo
a_certificate-IsFitting = record {
  cert_algo = omega arith;
  nonce = omega arith;
  key_body = omega arith;
  serial = omega arith;
  key_id = omega arith;
  principals = omega arith;
  valid_after = omega arith;
  valid_before = omega arith;
  critical_options = omega arith;
  extensions = omega arith;
}

a_certificate-IsBody : IsBody ed25519 a_certificate.key_body
unfolding IsBody
a_certificate-IsBody = (replicate 32 7, refl, refl)

ca_fits : length (public_blob (public_bytes (replicate 32 9))) < 4294967296
unfolding public_blob public_bytes put_string
ca_fits = omega arith

certificate_blob-fields_example :
    (get_fields (body_strings ed25519) (certificate_blob a_certificate (replicate 32 9))
      ≡ some (
        fields_of a_certificate (replicate 32 9),
        put_string (signature_blob (replicate 32 9) (signed_bytes a_certificate (replicate 32 9))),
      ))
    × (get_strings 1 (fields_of a_certificate (replicate 32 9)).principals
        ≡ some a_certificate.principals)
    × (get_tuples 0 (fields_of a_certificate (replicate 32 9)).critical_options
        ≡ some a_certificate.critical_options)
    × (get_tuples 2 (fields_of a_certificate (replicate 32 9)).extensions
        ≡ some a_certificate.extensions)
certificate_blob-fields_example =
    certificate_blob-fields ed25519 a_certificate (replicate 32 9) a_certificate-IsBody
      a_certificate-IsFitting (omega arith, tt) tt
      ((omega arith, omega arith), ((omega arith, omega arith), tt)) ca_fits

abbrev word64 : Target
word64 = record { usize_max = 18446744073709551615 }

parse_authorized_key_no_panic_example :
    parse_authorized_key ⦃t = word64⦄ request.ssh_key ≢ err overflows
unfolding put_string
parse_authorized_key_no_panic_example =
    parse_authorized_key_no_panic ⦃t = word64⦄ request.ssh_key (λ text blob e.
      subst (λ b. HasRoom ⦃t = word64⦄ b) (some_inj e) (key_blob-IsByte, omega arith))

crate_laws : CrateLaws plain stream crates
crate_laws = record {
  fill_size = λ n r. length-replicate n r;
  next_small = λ r. omega arith;
  public_size = λ seed. refl;
  decoded = λ text blob e. subst (λ b. All IsByte b) (some_inj e) key_blob-IsByte;
}

request-IsSmall : IsSmall request
unfolding marshal_principals marshal_tuples value_field put_string
request-IsSmall = record {
  key_id = omega arith;
  names = (omega arith, tt);
  principals = omega arith;
  options = tt;
  critical_options = omega arith;
  permissions = ((omega arith, omega arith), tt);
  attributes = ((omega arith, omega arith), tt);
  extensions = omega arith;
}

handle_sign-IsReadable_example :
    (now : ℤ) × (seed : Bytes) × (key : ParsedKey) × (now_unix ready.mono ready.clock
      ≡ ok (some now))
    × (ready.ca ≡ some seed)
    × (parse_authorized_key request.ssh_key ≡ ok key)
    × IsAccepted request.ssh_key key
    × IsReadable request seed now key issued
handle_sign-IsReadable_example =
    handle_sign-IsReadable crate_laws request ready request-IsSmall issued_ok
