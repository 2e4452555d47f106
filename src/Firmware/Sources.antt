-- ===== src/Firmware/Sources.antt =====
-- hsm-fw/src/entropy_hal.rs and hsm-fw/src/time_hal.rs: the entropy source and the clock over the
-- drivers of the random generator and of the timer, which are parameters.
use picosignet.Prelude.{
  ℕ, zero, suc, ◌+◌, ◌*◌, ◌≤◌, ◌<◌, arith, inl, inr, Bool-cases, ok, ltb, if◌then◌else◌,
}
use picosignet.Prelude.Bytes.{Bytes}
use picosignet.Hal.{EntropySource, Monotonic}

-- `embassy_rp::trng::Trng`
pub record Trng (T : Type 0) : Type 0 where
  pub blocking_fill_bytes : ℕ → T → Bytes × T

instance abbrev pub trng_entropy : {T : Type 0} ⦃trng : Trng T⦄ → EntropySource T
trng_entropy ⦃trng⦄ = record {
  fill_raw = λ n t. (ok (trng.blocking_fill_bytes n t).0, (trng.blocking_fill_bytes n t).1);
}

-- `embassy_time::Instant`: the microseconds of a reading, and what the timer is at the next one.
pub record Timer (T : Type 0) : Type 0 where
  pub as_micros : T → ℕ
  pub elapse : T → T

module _ {T : Type 0} ⦃timer : Timer T⦄ where
  -- The loop of `delay_ms`, with as many readings as there are microseconds to wait.
  unfoldable pub spin : ℕ → ℕ → T → T
  spin zero until t = t
  spin (suc fuel) until t =
      let rest = spin fuel until (timer.elapse t) in
      if ltb (timer.as_micros t) until then rest else t

  unfoldable pub delay_ms : ℕ → T → T
  delay_ms ms t = spin (ms * 1000) (timer.as_micros t + ms * 1000) t

  instance abbrev pub embassy_clock : Monotonic T
  embassy_clock = record { now_micros = timer.as_micros; delay_ms = delay_ms }

  module _ (moves : (t : T) → timer.as_micros t < timer.as_micros (timer.elapse t)) where
    spin-reaches :
        (fuel until : ℕ) (t : T)
        → until ≤ timer.as_micros t + fuel
        → until ≤ timer.as_micros (spin fuel until t)
    unfolding spin
    spin-reaches zero until t h = omega arith
    spin-reaches (suc fuel) until t h = elim (Bool-cases (ltb (timer.as_micros t) until)) [
      | inl e ↦ let step = moves t in rw e (spin-reaches fuel until (timer.elapse t) (omega arith))
      | inr e ↦ rw e (ground (arith, e))
    ]

    -- On a timer that moves between two readings a delay ends, and no sooner than it was asked to.
    pub delay_ms-waits :
        (ms : ℕ) (t : T) → timer.as_micros t + ms * 1000 ≤ timer.as_micros (delay_ms ms t)
    unfolding delay_ms
    delay_ms-waits ms t = spin-reaches (ms * 1000) _ t (omega arith)
