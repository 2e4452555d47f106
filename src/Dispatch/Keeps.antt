-- ===== src/Dispatch/Keeps.antt =====
-- hsm-core/src/dispatch.rs, `handle_sign`: the steps of signing, none of which changes more than the
-- generator and the entropy source.
use picosignet.Prelude.{
  ℕ, ◌≡◌, refl, ap, ◌∙◌, arith, Option, none, some, Result, ok, err, fails, overflows, unfinished,
  Exec, resume, ◌>>=◌,
}
use picosignet.Prelude.Bytes.{Bytes}
use picosignet.Prelude.Int.{ℤ}
use picosignet.Hal.{HalError, EntropySource, Monotonic}
use picosignet.Crypto.{Crypto, ChaCha}
use picosignet.Clock.{now_unix}
use picosignet.Rng.{Drbg}
use picosignet.GoDuration.Reading.{Parsed}
use picosignet.Validate.{Validated}
use picosignet.Dispatch.Session.{Hsm}
use picosignet.Dispatch.Sign.{
  Leave, need_signer, granted, signing_key, known_time, current_time, seeding, need_seed,
  random_array, random_u64,
}

-- The session with its generator and its entropy source put aside.
unfoldable pub masked : {E M F R : Type 0} → Drbg R → E → Hsm E M F R → Hsm E M F R
masked d e h = record h { drbg = d; entropy = e }

-- A step that changes at most the generator and the entropy source, however it ends.
pub record Keeps {E M F R A : Type 0} (m : Exec Leave (Hsm E M F R) A) : Type 0 where
  pub keep : (d : Drbg R) (e : E) (h : Hsm E M F R) → masked d e (m h).1 ≡ masked d e h

module _ {E M F R A B : Type 0} where
  resume-keep :
      (r : Result Leave A) (f : A → Exec Leave (Hsm E M F R) B) (d : Drbg R) (e : E)
      (h : Hsm E M F R)
      → ((a : A) → Keeps (f a))
      → masked d e (resume r f h).1 ≡ masked d e h
  resume-keep (ok a) f d e h k = (k a).keep d e h
  resume-keep (err l) f d e h k = refl

  pub then_Keeps :
      {m : Exec Leave (Hsm E M F R) A} {f : A → Exec Leave (Hsm E M F R) B}
      → Keeps m
      → ((a : A) → Keeps (f a))
      → Keeps (m >>= f)
  then_Keeps {m} {f} km kf = record {
    keep = λ d e h. resume-keep (m h).0 f d e (m h).1 kf ∙ km.keep d e h;
  }

module _ {E M F R : Type 0} where
  pub need_signer-Keeps : Keeps {E = E} {M = M} {F = F} {R = R} need_signer
  unfolding need_signer
  need_signer-Keeps = record { keep = λ d e h. ground arith }

  pub granted-Keeps : (m : Parsed Validated) → Keeps {E = E} {M = M} {F = F} {R = R} (granted m)
  unfolding granted
  granted-Keeps (ok v) = record { keep = λ d e h. refl }
  granted-Keeps (err (fails msg)) = record { keep = λ d e h. refl }
  granted-Keeps (err overflows) = record { keep = λ d e h. refl }
  granted-Keeps (err unfinished) = record { keep = λ d e h. refl }

  pub signing_key-Keeps : Keeps {E = E} {M = M} {F = F} {R = R} signing_key
  unfolding signing_key
  signing_key-Keeps = record { keep = λ d e h. ground arith }

  known_time-same : (r : Result (Unit {0}) (Option ℤ)) (h : Hsm E M F R) → (known_time r h).1 ≡ h
  unfolding known_time
  known_time-same (ok (some t)) h = refl
  known_time-same (ok none) h = refl
  known_time-same (err u) h = refl

  pub current_time-Keeps : ⦃mono : Monotonic M⦄ → Keeps {E = E} {M = M} {F = F} {R = R} current_time
  unfolding current_time
  current_time-Keeps = record {
    keep = λ d e h. ap (masked d e) (known_time-same (now_unix h.mono h.clock) h);
  }

module _ {E M F R : Type 0} ⦃src : EntropySource E⦄ ⦃cr : Crypto⦄ ⦃gen : ChaCha R⦄ where
  pub seeding-Keeps : Keeps {E = E} {M = M} {F = F} {R = R} seeding
  unfolding seeding masked
  seeding-Keeps = record { keep = λ d e h. refl }

  pub need_seed-Keeps :
      (r : Result HalError (Unit {0})) → Keeps {E = E} {M = M} {F = F} {R = R} (need_seed r)
  unfolding need_seed
  need_seed-Keeps (ok u) = record { keep = λ d e h. refl }
  need_seed-Keeps (err x) = record { keep = λ d e h. refl }

  pub random_array-Keeps : (n : ℕ) → Keeps {E = E} {M = M} {F = F} {R = R} (random_array n)
  unfolding random_array masked
  random_array-Keeps n = record { keep = λ d e h. refl }

  pub random_u64-Keeps : Keeps {E = E} {M = M} {F = F} {R = R} random_u64
  unfolding random_u64 masked
  random_u64-Keeps = record { keep = λ d e h. refl }

  -- The random fields of a certificate.
  pub draws-Keeps :
      {A : Type 0} (f : Bytes → ℕ → Exec Leave (Hsm E M F R) A)
      → ((nonce : Bytes) (serial : ℕ) → Keeps (f nonce serial))
      → Keeps (random_array 32 >>= λ nonce. random_u64 >>= λ serial. f nonce serial)
  draws-Keeps f k =
      then_Keeps (random_array-Keeps 32)
        λ nonce. then_Keeps random_u64-Keeps λ serial. k nonce serial
