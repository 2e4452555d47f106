-- ===== src/Rng/Health.antt =====
-- hsm-core/src/rng.rs: which samples pass the health checks, and when the generator counts as seeded.
use picosignet.Prelude.{
  ℕ, zero, suc, ◌+◌, ◌≤◌, ◌<◌, ◌≡◌, ◌≢◌, max, List, [], ◌∷◌, ◌++◌, true, false, ok, arith, ◌==◌,
  if◌then◌else◌, replicate, Bool-cases, Result-cases, inl, inr,
}
use picosignet.Prelude.Bytes.{Bytes}
use picosignet.Hal.{EntropySource}
use picosignet.Crypto.{Crypto, ChaCha}
use picosignet.Rng.{
  Drbg, max_run, longest_run, count_byte, any_over, health_check, gather, gather_healthy, seed,
  reseed, mix_host, fill_bytes, rct_cutoff, apt_max, seed_sample, max_health_retries,
}

max_run-ge-best : (prev run best : ℕ) (bs : Bytes) → best ≤ max_run prev run best bs
unfolding max_run
max_run-ge-best prev run best [] = omega arith
max_run-ge-best prev run best (b ∷ bs) = ground (
  arith,
  max_run-ge-best b (if b == prev then run + 1 else 1)
      (if b == prev then max best (run + 1) else best) bs,
)

-- A run of `n` more bytes of the value that was read last is seen.
max_run-sees :
    (v run best n : ℕ) (bs : Bytes)
    → run ≤ best
    → run + n ≤ max_run v run best (replicate n v ++ bs)
unfolding max_run
max_run-sees v run best zero bs h = ground (arith, max_run-ge-best v run best bs)
max_run-sees v run best (suc n) bs h =
    ground (arith, max_run-sees v (run + 1) (max best (run + 1)) n bs)

-- ... also behind other bytes.
max_run-behind :
    (prev run best v n : ℕ) (pre bs : Bytes)
    → run ≤ best
    → 1 ≤ best
    → suc n ≤ max_run prev run best (pre ++ (replicate (suc n) v ++ bs))
unfolding max_run
max_run-behind prev run best v n [] bs h k = elim (Bool-cases (v == prev)) [
  | inl e ↦ rw (e, max_run) (ground (arith, max_run-sees v (run + 1) (max best (run + 1)) n bs))
  | inr e ↦ rw (e, max_run) (ground (arith, max_run-sees v 1 best n bs))
]
max_run-behind prev run best v n (b ∷ pre) bs h k = elim (Bool-cases (b == prev)) [
  | inl e ↦
      rw (e, max_run)
        (max_run-behind b (run + 1) (max best (run + 1)) v n pre bs (omega arith) (omega arith))
  | inr e ↦ rw (e, max_run) (max_run-behind b 1 best v n pre bs k k)
]

longest_run-sees :
    (v n : ℕ) (pre bs : Bytes) → suc n ≤ longest_run (pre ++ (replicate (suc n) v ++ bs))
unfolding longest_run
longest_run-sees v n [] bs = ground (arith, max_run-sees v 1 1 n bs)
longest_run-sees v n (b ∷ pre) bs = max_run-behind b 1 1 v n pre bs (omega arith) (omega arith)

any_over-sees :
    (n v : ℕ) (raw : Bytes) → v < n → any_over n raw ≡ false → count_byte v raw ≤ apt_max
unfolding any_over
any_over-sees zero v raw h e = absurd (omega arith)
any_over-sees (suc n) v raw h e = elim (Bool-cases (v == n)) [
  | inl same ↦ ground arith
  | inr other ↦ any_over-sees n v raw (ground arith) (ground arith)
]

-- A sample that passes holds no run of 24 equal bytes anywhere, and no byte value more than 64 times.
pub health_check_sound :
    (raw : Bytes)
    → health_check raw ≡ ok tt
    → ((v : ℕ) (pre post : Bytes) → raw ≢ pre ++ (replicate rct_cutoff v ++ post))
      × ((v : ℕ) → v < 256 → count_byte v raw ≤ apt_max)
unfolding health_check
health_check_sound raw h = (
  λ v pre post e. let long = rw (← e) at (longest_run-sees v 23 pre post) in absurd (ground arith),
  λ v lt. any_over-sees 256 v raw lt (ground arith),
)

module _ {E : Type 0} ⦃src : EntropySource E⦄ where
  gather-healthy :
      (n : ℕ) (e : E) (raw : Bytes) → (gather n e).0 ≡ ok raw → health_check raw ≡ ok tt
  unfolding gather
  gather-healthy zero e raw h = absurd (ground arith)
  gather-healthy (suc n) e raw h = elim (Result-cases (src.fill_raw seed_sample e).0) [
    | inl (b, eb) ↦ ground (arith, gather-healthy n (src.fill_raw seed_sample e).1 raw)
    | inr (x, eb) ↦ absurd (ground arith)
  ]

  -- Where no sample that the source ever delivers is healthy, the loop fails, whatever its retries.
  gather-unhealthy :
      ((e : E) (b : Bytes) → (src.fill_raw seed_sample e).0 ≡ ok b → health_check b ≢ ok tt)
      → (n : ℕ) (e : E) (raw : Bytes) → (gather n e).0 ≢ ok raw
  unfolding gather
  gather-unhealthy bad zero e raw h = ground arith
  gather-unhealthy bad (suc n) e raw h = elim (Result-cases (src.fill_raw seed_sample e).0) [
    | inl (b, eb) ↦
        ground (arith, gather-unhealthy bad n (src.fill_raw seed_sample e).1 raw, bad e b)
    | inr (x, eb) ↦ ground arith
  ]

-- What firmware may do with its generator.
pub data Op : Type 0 where
  seeds reseeds : Op
  mixes : Bytes → Op
  fills : ℕ → Op

module _ {E R : Type 0} ⦃src : EntropySource E⦄ ⦃cr : Crypto⦄ ⦃gen : ChaCha R⦄ where
  pub run_op : Op → Drbg R × E → Drbg R × E
  run_op seeds s = (seed s).1
  run_op reseeds s = (reseed s).1
  run_op (mixes host) (d, e) = (mix_host host d, e)
  run_op (fills n) (d, e) = ((fill_bytes n d).1, e)

  pub run_ops : List Op → Drbg R × E → Drbg R × E
  run_ops [] s = s
  run_ops (o ∷ os) s = run_ops os (run_op o s)

  -- `seed` marks the generator as seeded exactly when it reports success, and then a sample passed
  -- the health checks.
  pub seed-seeded :
      (d : Drbg R) (e : E)
      → (seed (d, e)).0 ≡ ok tt
      → ((seed (d, e)).1.0.seeded ≡ true)
        × ((raw : Bytes) × ((gather_healthy e).0 ≡ ok raw) × (health_check raw ≡ ok tt))
  unfolding seed gather_healthy
  seed-seeded d e h = elim (Result-cases (gather max_health_retries e).0) [
    | inl (raw, er) ↦ (ground arith, (raw, er, gather-healthy max_health_retries e raw er))
    | inr (x, er) ↦ absurd (ground arith)
  ]

  run_op-unseeded :
      ((e : E) (b : Bytes) → (src.fill_raw seed_sample e).0 ≡ ok b → health_check b ≢ ok tt)
      → (o : Op) (d : Drbg R) (e : E) → d.seeded ≡ false
      → (run_op o (d, e)).0.seeded ≡ false
  unfolding run_op seed reseed mix_host fill_bytes gather_healthy
  run_op-unseeded bad seeds d e h = elim (Result-cases (gather max_health_retries e).0) [
    | inl (raw, er) ↦ absurd (gather-unhealthy bad max_health_retries e raw er)
    | inr (x, er) ↦ ground arith
  ]
  run_op-unseeded bad reseeds d e h = ground arith
  run_op-unseeded bad (mixes host) d e h = h
  run_op-unseeded bad (fills n) d e h = h

  -- With a source that delivers no healthy sample, a generator that is not seeded never becomes so,
  -- whatever is asked of it and whatever the host mixes in.
  pub run_ops-unseeded :
      ((e : E) (b : Bytes) → (src.fill_raw seed_sample e).0 ≡ ok b → health_check b ≢ ok tt)
      → (os : List Op) (s : Drbg R × E) → s.0.seeded ≡ false
      → (run_ops os s).0.seeded ≡ false
  unfolding run_ops
  run_ops-unseeded bad [] s h = h
  run_ops-unseeded bad (o ∷ os) s h =
      run_ops-unseeded bad os (run_op o s) (run_op-unseeded bad o s.0 s.1 h)
