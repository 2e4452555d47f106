-- ===== src/Dispatch/Sign.antt =====
-- hsm-core/src/dispatch.rs: the signer path, `handle_ping`, `handle_metrics`,
-- `handle_load_key_signer` and `handle_sign`.
use picosignet.Prelude.{
  ℕ, ◌+◌, ◌-◌, ◌%◌, ◌^◌, Bool, true, false, ◌&&◌, Option, none, some, [], Result, ok, err, fails,
  overflows, unfinished, Exec, pure, raise, ◌>>=◌, ◌>>◌, is_some,
}
use picosignet.Prelude.Bytes.{Bytes, codes}
use picosignet.Prelude.Int.{ℤ, to_u64, quotient}
use picosignet.Hal.{HalError, EntropySource, Monotonic}
use picosignet.Crypto.{Crypto, ChaCha}
use picosignet.Clock.{now_unix, is_set}
use picosignet.Rng.{fill_bytes, next_u64}
use picosignet.Proto.Outer.{EnclaveSigningRequest, Response, blank, failure}
use picosignet.Metrics.{build}
use picosignet.GoDuration.Reading.{Parsed, Float64}
use picosignet.Sshwire.Reader.{Target}
use picosignet.Sshwire.Key.{KeyCrates}
use picosignet.Validate.{Validated, validate}
use picosignet.Cert.{CertParams, build_certificate}
use picosignet.Dispatch.Session.{Hsm, signer_ready}
use picosignet.Dispatch.Setup.{ensure_seeded}

-- How a handler of the signer path ends early: with its response, in a panic, or with a loop's fuel
-- used up, which GoDuration/Total shows not to happen to the duration of a request.
pub data Leave : Type 0 where
  answers : Response → Leave
  panics gives_up : Leave

abbrev pub not_initialized : Bytes
not_initialized = codes "CA signer is not initialized; call LoadKeySigner first"

module _ {E M F R : Type 0} where
  -- `return Response::error(…)`
  abbrev pub answer : {A : Type 0} → Bytes → Exec Leave (Hsm E M F R) A
  answer msg = raise (answers (failure msg))

  unfoldable pub can_sign : Hsm E M F R → Bool
  can_sign h = signer_ready h.state && is_some h.ca

  unfoldable pub handle_ping : Hsm E M F R → Response
  handle_ping h = record blank {
    pong = some (record { signer_loaded = signer_ready h.state && is_some h.ca && is_set h.clock });
  }

  unfoldable pub handle_load_key_signer : Hsm E M F R → Response
  handle_load_key_signer h = elim (can_sign h) [
    | true ↦ record blank { load_key_signer = some (record { success = true; error = [] }) }
    | false ↦ failure not_initialized
  ]

  unfoldable pub need_signer : Exec Leave (Hsm E M F R) (Unit {0})
  need_signer h = elim (can_sign h) [ true ↦ (ok tt, h) | false ↦ answer not_initialized h ]

  -- The validation's outcome, kept as the handler keeps it.
  unfoldable pub granted : Parsed Validated → Exec Leave (Hsm E M F R) Validated
  granted (ok v) = pure v
  granted (err (fails msg)) = answer msg
  granted (err overflows) = raise panics
  granted (err unfinished) = raise gives_up

  -- `self.ca.as_ref().expect(…)`
  unfoldable pub signing_key : Exec Leave (Hsm E M F R) Bytes
  signing_key h = elim h.ca [ some seed ↦ (ok seed, h) | none ↦ (err panics, h) ]

module _ {E M F R : Type 0} where
  -- The match on what the clock says, or its panic.
  unfoldable pub known_time : Result (Unit {0}) (Option ℤ) → Exec Leave (Hsm E M F R) ℤ
  known_time (ok (some t)) h = (ok t, h)
  known_time (ok none) h = answer (codes "device clock not set; send hsm.setTime first") h
  known_time (err u) h = (err panics, h)

module _ {E M F R : Type 0} ⦃mono : Monotonic M⦄ where
  unfoldable pub handle_metrics : ⦃fl : Float64⦄ → Hsm E M F R → Response
  handle_metrics h = record blank {
    enclave_metrics = some (build (mono.now_micros h.mono) h.heap_free);
  }

  unfoldable pub current_time : Exec Leave (Hsm E M F R) ℤ
  current_time h = known_time (now_unix h.mono h.clock) h

module _ {E M F R : Type 0} ⦃src : EntropySource E⦄ ⦃cr : Crypto⦄ ⦃gen : ChaCha R⦄ where
  -- `self.ensure_seeded()`, its result kept as a value.
  unfoldable pub seeding : Exec Leave (Hsm E M F R) (Result HalError (Unit {0}))
  seeding h =
      let (r, (d, e)) = ensure_seeded (h.drbg, h.entropy) in
      (ok r, record h { drbg = d; entropy = e })

  unfoldable pub need_seed : Result HalError (Unit {0}) → Exec Leave (Hsm E M F R) (Unit {0})
  need_seed (ok u) = pure tt
  need_seed (err e) = answer (codes "internal error: entropy unavailable")

  unfoldable pub random_array : ℕ → Exec Leave (Hsm E M F R) Bytes
  random_array n h = let (out, d) = fill_bytes n h.drbg in (ok out, record h { drbg = d })

  unfoldable pub random_u64 : Exec Leave (Hsm E M F R) ℕ
  random_u64 h = let (n, d) = next_u64 h.drbg in (ok n, record h { drbg = d })

-- `(now as u64).wrapping_sub(300)` and the end of the validity.
unfoldable pub valid_after : ℤ → ℕ
valid_after now = (to_u64 now + 2 ^ 64 - 300) % 2 ^ 64

unfoldable pub valid_before : ℤ → ℤ → ℕ
valid_before now duration_ns = (to_u64 now + to_u64 (quotient duration_ns 1000000000)) % 2 ^ 64

unfoldable pub params : EnclaveSigningRequest → Validated → ℤ → Bytes → ℕ → CertParams
params req v now nonce serial = record {
  cert_algo = v.key.cert_algo;
  key_body = v.key.key_body;
  nonce = nonce;
  serial = serial;
  key_id = req.key_id;
  principals = req.principals;
  valid_after = valid_after now;
  valid_before = valid_before now v.duration_ns;
  critical_options = v.critical_options;
  extensions = v.extensions;
}

abbrev pub signed_response : Bytes → Response
signed_response line = record blank {
  sign_ssh_key = some (record { signed_key = line; error = [] });
}

module _ {E M F R : Type 0} ⦃src : EntropySource E⦄ ⦃mono : Monotonic M⦄ ⦃cr : Crypto⦄
    ⦃gen : ChaCha R⦄ ⦃fl : Float64⦄ ⦃t : Target⦄ ⦃kc : KeyCrates⦄ where
  unfoldable pub handle_sign : EnclaveSigningRequest → Exec Leave (Hsm E M F R) Response
  handle_sign req = do
    need_signer
    now ← current_time
    v ← granted (validate req)
    seeded ← seeding
    need_seed seeded
    nonce ← random_array 32
    serial ← random_u64
    seed ← signing_key
    pure (signed_response (build_certificate (params req v now nonce serial) seed))
