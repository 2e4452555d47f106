-- ===== src/Dispatch/Signing.antt =====
-- hsm-core/src/dispatch.rs, `handle_sign`: when a certificate is issued, and what signing changes.
use picosignet.Prelude.{
  ℕ, Bool, if◌then◌else◌, ◌≡◌, refl, arith, true, false, Option, none, some, Result, ok, err, fails,
  overflows, unfinished, Exec, pure, ◌>>=◌, Option-cases, ◌⊎◌, inl, inr,
}
use picosignet.Prelude.Bytes.{Bytes}
use picosignet.Prelude.Int.{ℤ}
use picosignet.Hal.{HalError, EntropySource, Monotonic}
use picosignet.Crypto.{Crypto, ChaCha}
use picosignet.Clock.{now_unix}
use picosignet.Rng.{Drbg, seed, fill_bytes, next_u64}
use picosignet.Proto.Outer.{EnclaveSigningRequest, Response, failure}
use picosignet.GoDuration.Reading.{Parsed, Float64}
use picosignet.Sshwire.Reader.{Target}
use picosignet.Sshwire.Key.{KeyCrates}
use picosignet.Validate.{Validated, validate}
use picosignet.Validate.Permitted.{IsPermitted, validate-IsPermitted}
use picosignet.Cert.{build_certificate}
use picosignet.Rng.Health.{seed-seeded}
use picosignet.Dispatch.Session.{
  Hsm, DeviceState, signer_ready, uninitialized, dev_ready, prod_locked, prod_ready, locked_out,
}
use picosignet.Dispatch.Setup.{ensure_seeded}
use picosignet.Dispatch.Keeps.{
  masked, Keeps, then_Keeps, need_signer-Keeps, granted-Keeps, signing_key-Keeps,
  current_time-Keeps, seeding-Keeps, need_seed-Keeps, draws-Keeps,
}
use picosignet.Dispatch.Sign.{
  Leave, answers, not_initialized, can_sign, need_signer, granted, signing_key, known_time,
  current_time, seeding, need_seed, random_array, random_u64, params, signed_response, handle_sign,
}

module _ {E M F R A : Type 0} where
  need_signer-inv :
      (f : Unit {0} → Exec Leave (Hsm E M F R) A) (h : Hsm E M F R) {a : A} {h' : Hsm E M F R}
      → (need_signer >>= f) h ≡ (ok a, h')
      → (can_sign h ≡ true) × (f tt h ≡ (ok a, h'))
  unfolding need_signer
  need_signer-inv f h e = ground arith

  granted-inv :
      (m : Parsed Validated) (f : Validated → Exec Leave (Hsm E M F R) A) (h : Hsm E M F R) {a : A}
      {h' : Hsm E M F R}
      → (granted m >>= f) h ≡ (ok a, h')
      → (v : Validated) × (m ≡ ok v) × (f v h ≡ (ok a, h'))
  unfolding granted
  granted-inv (ok v) f h e = (v, refl, e)
  granted-inv (err (fails msg)) f h e = cc
  granted-inv (err overflows) f h e = cc
  granted-inv (err unfinished) f h e = cc

  known_time-inv :
      (r : Result (Unit {0}) (Option ℤ)) (f : ℤ → Exec Leave (Hsm E M F R) A) (h : Hsm E M F R)
      {a : A} {h' : Hsm E M F R}
      → (known_time r >>= f) h ≡ (ok a, h')
      → (t : ℤ) × (r ≡ ok (some t)) × (f t h ≡ (ok a, h'))
  unfolding known_time
  known_time-inv (ok (some t)) f h e = (t, refl, e)
  known_time-inv (ok none) f h e = cc
  known_time-inv (err u) f h e = cc

  current_time-inv :
      ⦃mono : Monotonic M⦄ (f : ℤ → Exec Leave (Hsm E M F R) A) (h : Hsm E M F R) {a : A}
      {h' : Hsm E M F R}
      → (current_time >>= f) h ≡ (ok a, h')
      → (t : ℤ) × (now_unix h.mono h.clock ≡ ok (some t)) × (f t h ≡ (ok a, h'))
  unfolding current_time
  current_time-inv f h e = known_time-inv (now_unix h.mono h.clock) f h e

  need_seed-inv :
      ⦃src : EntropySource E⦄ ⦃cr : Crypto⦄ ⦃gen : ChaCha R⦄ (r : Result HalError (Unit {0}))
      (f : Unit {0} → Exec Leave (Hsm E M F R) A) (h : Hsm E M F R) {a : A} {h' : Hsm E M F R}
      → (need_seed r >>= f) h ≡ (ok a, h')
      → (r ≡ ok tt) × (f tt h ≡ (ok a, h'))
  unfolding need_seed
  need_seed-inv (ok u) f h e = (refl, e)
  need_seed-inv (err x) f h e = cc

  signing_key-inv :
      (f : Bytes → Exec Leave (Hsm E M F R) A) (h : Hsm E M F R) {a : A} {h' : Hsm E M F R}
      → (signing_key >>= f) h ≡ (ok a, h')
      → (seed : Bytes) × (h.ca ≡ some seed) × (f seed h ≡ (ok a, h'))
  unfolding signing_key
  signing_key-inv f h e = elim (Option-cases h.ca) [
    | inl gone ↦ absurd (ground arith)
    | inr (seed, live) ↦ (seed, live, ground arith)
  ]

-- The states that sign.
abbrev pub Signs : DeviceState → Type 0
Signs st = (st ≡ dev_ready) ⊎ (st ≡ prod_ready)

signer_ready-Signs : (st : DeviceState) → signer_ready st ≡ true → Signs st
signer_ready-Signs dev_ready e = inl refl
signer_ready-Signs prod_ready e = inr refl
signer_ready-Signs uninitialized e = cc
signer_ready-Signs prod_locked e = cc
signer_ready-Signs locked_out e = cc

not_ready : (st : DeviceState) → (Signs st → ⊥) → signer_ready st ≡ false
not_ready dev_ready n = absurd (n (inl refl))
not_ready prod_ready n = absurd (n (inr refl))
not_ready _ n = refl

module _ {E M F R : Type 0} where
  can_sign-Signs : (h : Hsm E M F R) → can_sign h ≡ true → Signs h.state
  unfolding can_sign
  can_sign-Signs h e = signer_ready-Signs h.state (ground arith)

  cannot_sign : (h : Hsm E M F R) → (Signs h.state → ⊥) ⊎ (h.ca ≡ none) → can_sign h ≡ false
  unfolding can_sign
  cannot_sign h (inl n) = let e = not_ready h.state n in ground arith
  cannot_sign h (inr gone) = ground arith

if-seeded :
    {E R : Type 0} (b : Bool) (x y : Result HalError (Unit {0}) × (Drbg R × E))
    → (b ≡ true → x.1.0.seeded ≡ true)
    → (y.0 ≡ ok tt → y.1.0.seeded ≡ true)
    → (if b then x else y).0 ≡ ok tt
    → (if b then x else y).1.0.seeded ≡ true
if-seeded true x y p q h = p refl
if-seeded false x y p q h = q h

-- A generator that could be seeded counts as seeded.
ensure_seeded-seeded :
    {E R : Type 0} ⦃src : EntropySource E⦄ ⦃cr : Crypto⦄ ⦃gen : ChaCha R⦄ (d : Drbg R) (e : E)
    → (ensure_seeded (d, e)).0 ≡ ok tt
    → (ensure_seeded (d, e)).1.0.seeded ≡ true
unfolding ensure_seeded
ensure_seeded-seeded d e =
    if-seeded d.seeded (ok tt, (d, e)) (seed (d, e)) (λ y. y) (λ h. (seed-seeded d e h).0)

need_signer-stops :
    {E M F R A : Type 0} (f : Unit {0} → Exec Leave (Hsm E M F R) A) (h : Hsm E M F R)
    → can_sign h ≡ false
    → (need_signer >>= f) h ≡ (err (answers (failure not_initialized)), h)
unfolding need_signer
need_signer-stops f h idle = ground arith

-- The random fields, drawn one after the other.
module _ {R : Type 0} ⦃cr : Crypto⦄ ⦃gen : ChaCha R⦄ where
  abbrev pub nonce_of : Drbg R → Bytes
  nonce_of d = (fill_bytes 32 d).0

  abbrev pub serial_of : Drbg R → ℕ
  serial_of d = (next_u64 (fill_bytes 32 d).1).0

-- The generator that they are drawn from: the session's, seeded if it was not.
abbrev pub drawn_from :
    {E M F R : Type 0} ⦃src : EntropySource E⦄ ⦃cr : Crypto⦄ ⦃gen : ChaCha R⦄ → Hsm E M F R → Drbg R
drawn_from h = (ensure_seeded (h.drbg, h.entropy)).1.0

module _ {E M F R : Type 0} ⦃src : EntropySource E⦄ ⦃mono : Monotonic M⦄ ⦃cr : Crypto⦄
    ⦃gen : ChaCha R⦄ ⦃fl : Float64⦄ ⦃t : Target⦄ ⦃kc : KeyCrates⦄ where
  handle_sign-Keeps :
      (req : EnclaveSigningRequest) → Keeps {E = E} {M = M} {F = F} {R = R} (handle_sign req)
  unfolding handle_sign
  handle_sign-Keeps req = then_Keeps need_signer-Keeps λ u. then_Keeps current_time-Keeps λ now.
      then_Keeps (granted-Keeps (validate req)) λ v. then_Keeps seeding-Keeps λ seeded.
        then_Keeps (need_seed-Keeps seeded) λ w.
          draws-Keeps _
            λ nonce serial. then_Keeps signing_key-Keeps λ seed. record { keep = λ d e h. refl }

  -- Signing, granted or refused, changes nothing of the session but its random generator and the
  -- source of entropy: not the keys, the state, the clock, the configuration or the flash.
  pub handle_sign-keeps :
      (req : EnclaveSigningRequest) (d : Drbg R) (e : E) (h : Hsm E M F R)
      → masked d e (handle_sign req h).1 ≡ masked d e h
  handle_sign-keeps req d e h = (handle_sign-Keeps req).keep d e h

  -- A device that has no live CA key, or whose state is neither ready for development nor unlocked for
  -- production, answers that the signer is not initialized, whatever the request, and nothing changes.
  pub handle_sign-refuses :
      (req : EnclaveSigningRequest) (h : Hsm E M F R)
      → (Signs h.state → ⊥) ⊎ (h.ca ≡ none)
      → handle_sign req h ≡ (err (answers (failure not_initialized)), h)
  unfolding handle_sign
  handle_sign-refuses req h idle = need_signer-stops _ h (cannot_sign h idle)

  tail-inv :
      (g : Bytes → ℕ → Bytes → Response) (h : Hsm E M F R) {r : Response} {h' : Hsm E M F R}
      → (random_array 32 >>= λ nonce.
            random_u64 >>= λ serial. signing_key >>= λ seed. pure (g nonce serial seed))
          h
        ≡ (ok r, h')
      → (seed : Bytes) × (h.ca ≡ some seed) × (r ≡ g (nonce_of h.drbg) (serial_of h.drbg) seed)
  unfolding random_array random_u64
  tail-inv g h e =
      let nonce = nonce_of h.drbg in
      let serial = serial_of h.drbg in
      let (seed, live, k) =
        signing_key-inv (λ seed. pure (g nonce serial seed))
          (record h { drbg = (next_u64 (fill_bytes 32 h.drbg).1).1 }) e in
      (seed, live, ground (arith, k))

  -- A certificate is issued only by a device that is ready for development or unlocked for production,
  -- under its live CA key, with its clock set, on a request that validation grants and with a generator
  -- that counts as seeded; and it is then the certificate of that request and that time, with a nonce
  -- and a serial that this generator gives.
  pub handle_sign-issues :
      (req : EnclaveSigningRequest) (h : Hsm E M F R) {r : Response} {h' : Hsm E M F R}
      → handle_sign req h ≡ (ok r, h')
      → (now : ℤ) × (v : Validated) × (seed : Bytes) × Signs h.state
        × (now_unix h.mono h.clock ≡ ok (some now))
        × IsPermitted req v
        × (h.ca ≡ some seed)
        × ((drawn_from h).seeded ≡ true)
        × (r
            ≡ signed_response (
                build_certificate
                  (params req v now (nonce_of (drawn_from h)) (serial_of (drawn_from h)))
                  seed))
  unfolding handle_sign seeding
  handle_sign-issues req h e =
      let (able, k1) = need_signer-inv _ h e in
      let (now, timed, k2) = current_time-inv _ h k1 in
      let (v, valid, k3) = granted-inv (validate req) _ h k2 in
      let (got, k4) = need_seed-inv _ _ _ k3 in
      let (seed, live, same) =
        tail-inv
          (λ nonce serial seed.
            signed_response (build_certificate (params req v now nonce serial) seed))
          _ k4 in
      (
        now,
        v,
        seed,
        can_sign-Signs h able,
        timed,
        validate-IsPermitted req valid,
        live,
        ensure_seeded-seeded h.drbg h.entropy got,
        same,
      )
