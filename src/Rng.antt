-- ===== src/Rng.antt =====
-- hsm-core/src/rng.rs: the health checks on raw entropy and the DRBG over ChaCha20.
pub mod Health
use picosignet.Prelude.{
  ℕ, zero, suc, ◌+◌, ◌-◌, ◌^◌, min, max, List, [], ◌∷◌, ◌++◌, Bool, true, false, not, ◌&&◌, ◌||◌,
  Option, none, some, Result, ok, err, Exec, pure, raise, ◌>>=◌, ◌>>◌, ltb, leb, ◌==◌,
  if◌then◌else◌, take, replicate,
}
use picosignet.Prelude.Bytes.{Bytes, codes}
use picosignet.Hal.{HalError, entropy, EntropySource}
use picosignet.Crypto.{Crypto, ChaCha}

abbrev pub seed_sample : ℕ
seed_sample = 256

abbrev pub reseed_interval : ℕ
reseed_interval = 64

abbrev pub rct_cutoff : ℕ
rct_cutoff = 24

abbrev pub apt_max : ℕ
apt_max = 64

abbrev pub max_health_retries : ℕ
max_health_retries = 16

-- The first loop of `health_check`, from the byte `prev` on, with the run and the longest run so far.
unfoldable pub max_run : ℕ → ℕ → ℕ → Bytes → ℕ
max_run prev run best [] = best
max_run prev run best (b ∷ bs) =
    max_run b (if b == prev then run + 1 else 1) (if b == prev then max best (run + 1) else best) bs

unfoldable pub longest_run : Bytes → ℕ
unfolding max_run
longest_run [] = 1
longest_run (b ∷ bs) = max_run b 1 1 bs

-- `counts[v]` after the second loop.
unfoldable pub count_byte : ℕ → Bytes → ℕ
count_byte v [] = 0
count_byte v (b ∷ bs) = (if b == v then 1 else 0) + count_byte v bs

-- Whether a count of a byte value below `n` passes the cutoff.
unfoldable pub any_over : ℕ → Bytes → Bool
any_over zero raw = false
any_over (suc n) raw = ltb apt_max (count_byte n raw) || any_over n raw

unfoldable pub health_check : Bytes → Result HalError (Unit {0})
health_check raw =
    if leb rct_cutoff (longest_run raw)
    then err entropy
    else if any_over 256 raw
    then err entropy
    else ok tt

module _ {E : Type 0} ⦃src : EntropySource E⦄ where
  -- The loop of `gather_healthy`, with the samples left to draw.
  unfoldable pub gather : ℕ → Exec HalError E Bytes
  gather zero = raise entropy
  gather (suc n) = do
    raw ← src.fill_raw seed_sample
    elim (health_check raw) [ ok u ↦ pure raw | err e ↦ gather n ]

  unfoldable pub gather_healthy : Exec HalError E Bytes
  gather_healthy = gather max_health_retries

pub record Drbg (R : Type 0) : Type 0 where
  pub rng : R
  pub seeded : Bool
  pub since_reseed : ℕ

module _ {R : Type 0} ⦃gen : ChaCha R⦄ where
  unfoldable pub new : Drbg R
  new = record { rng = gen.from_seed (replicate 32 0); seeded = false; since_reseed = 0 }

module _ {R : Type 0} ⦃cr : Crypto⦄ ⦃gen : ChaCha R⦄ where
  unfoldable pub reinit : Bytes → Option Bytes → Bytes → Drbg R → Drbg R
  reinit domain prev material d = record d {
    rng =
        gen.from_seed
          (take 32 (cr.sha512 (domain ++ (elim prev [ none ↦ [] | some p ↦ p ] ++ material))));
    since_reseed = 0;
  }

  unfoldable pub bump : Drbg R → Drbg R
  bump d = record d { since_reseed = min (d.since_reseed + 1) (2 ^ 64 - 1) }

  -- `fill_bytes`, and with it `random_array`.
  unfoldable pub fill_bytes : ℕ → Drbg R → Bytes × Drbg R
  unfolding bump
  fill_bytes n d = let (out, rng') = gen.fill n d.rng in (out, record (bump d) { rng = rng' })

  unfoldable pub next_u64 : Drbg R → ℕ × Drbg R
  unfolding bump
  next_u64 d = let (n, rng') = gen.next_u64 d.rng in (n, record (bump d) { rng = rng' })

  unfoldable pub mix_host : Bytes → Drbg R → Drbg R
  unfolding reinit
  mix_host host d =
      let (cur, rng') = gen.fill 32 d.rng in
      reinit (codes "usbhsm-drbg-mix-host-v1") (some cur) host (record d { rng = rng' })

-- A generator with its entropy source.
module _ {E R : Type 0} ⦃src : EntropySource E⦄ ⦃cr : Crypto⦄ ⦃gen : ChaCha R⦄ where
  unfoldable pub seed : Exec HalError (Drbg R × E) (Unit {0})
  unfolding reinit
  seed (d, e) =
      let (r, e') = gather_healthy e in
      elim r [
        | ok raw ↦ (
          ok tt,
          (record (reinit (codes "usbhsm-drbg-seed-v1") none raw d) { seeded = true }, e'),
        )
        | err x ↦ (err x, (d, e'))
      ]

  unfoldable pub reseed : Exec HalError (Drbg R × E) (Unit {0})
  unfolding reinit
  reseed (d, e) =
      let (r, e') = gather_healthy e in
      elim r [
        | ok raw ↦
            let (cur, rng') = gen.fill 32 d.rng in
            (
              ok tt,
              (reinit (codes "usbhsm-drbg-reseed-v1") (some cur) raw (record d { rng = rng' }), e'),
            )
        | err x ↦ (err x, (d, e'))
      ]
