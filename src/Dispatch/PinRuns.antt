-- ===== src/Dispatch/PinRuns.antt =====
-- hsm-core/src/dispatch.rs, what `verify_pin` and its helpers do to the session.
use picosignet.Prelude.{
  ℕ, zero, suc, ◌+◌, ◌-◌, ◌%◌, ◌^◌, raise, ◌≡◌, refl, Bool, true, false, ◌&&◌, none, some, Result,
  ok, err, ltb, leb, is_some, Bool-cases, pure, inl, inr,
}
use picosignet.Prelude.Bytes.{Bytes}
use picosignet.Hal.{FlashStore, Monotonic}
use picosignet.Crypto.{Crypto}
use picosignet.Pin.{count, reset, tick, backoff_ms}
use picosignet.Storage.Record.{Crc}
use picosignet.Storage.AbPair.{read_latest, erase_both, key_pair}
use picosignet.Storage.Config.{DeviceConfig, blob_from_bytes}
use picosignet.Wrap.{WrapError, derive_pin_kek, unwrap_seed}
use picosignet.Proto.{err_busy, pin_error}
use picosignet.Dispatch.Session.{
  require, responds, locked_out, saturating_u64, drop_live_secrets, enter_locked_out,
}
use picosignet.Dispatch.Pins.{
  device_secret, gone, erase_key_rounds, erase_key_verified, reset_rounds,
  reset_pin_counter_best_effort, now_ms, check_backoff, wipe, wrong_pin, judge, verify_pin,
}
use picosignet.Dispatch.Runs.{
  Live, live, Runs, Frames, framed, Frames-Runs, Frames->>=, Frames-pure, Frames-on_flash,
  Frames-raise, Frames-require, Frames-require_some, Frames-modify, Frames-if, Frames-result,
  Frames-choice, Runs-if, Runs-raise, modify-Runs, current_config-Runs, moved_by, moved>>, framed>>,
}

-- The session of a locked out device.
abbrev pub shut : Live → Live
shut s = record s { state = locked_out; ca = none; wrap_kek = none; wrap_salt = none }

module _ {E M F R : Type 0} ⦃fs : FlashStore F⦄ ⦃crc : Crc⦄ where
  Frames-erase_key_rounds : (n : ℕ) → Frames {E = E} {M = M} {F = F} {R = R} (erase_key_rounds n)
  unfolding erase_key_rounds
  Frames-erase_key_rounds zero = Frames-pure false
  Frames-erase_key_rounds (suc n) = Frames->>= (Frames-on_flash (erase_both key_pair)) (λ _.
      Frames->>= (Frames-on_flash (read_latest key_pair))
        (λ left. Frames-if (gone left) _ _ (Frames-pure true) (Frames-erase_key_rounds n)))

  pub Frames-erase_key_verified : Frames {E = E} {M = M} {F = F} {R = R} erase_key_verified
  unfolding erase_key_verified
  Frames-erase_key_verified = Frames-erase_key_rounds 2

module _ {E M F R : Type 0} ⦃fs : FlashStore F⦄ where
  Frames-reset_rounds : (n : ℕ) → Frames {E = E} {M = M} {F = F} {R = R} (reset_rounds n)
  unfolding reset_rounds live
  Frames-reset_rounds zero = Frames-pure tt
  Frames-reset_rounds (suc n) = Frames->>= (Frames-on_flash reset) (λ done.
      Frames-result done _ _
        (λ u. Frames-modify (λ h. record h { pin_backoff_until_ms = 0 }) (λ h. refl))
        (λ e. Frames-reset_rounds n))

  pub Frames-device_secret : Frames {E = E} {M = M} {F = F} {R = R} device_secret
  unfolding device_secret
  Frames-device_secret =
      Frames-choice device_secret
        (λ h. (require (fs.device_secret h.flash) _ _, Frames-require _ _ _, refl))

  pub Frames-reset_pin_counter_best_effort :
      Frames {E = E} {M = M} {F = F} {R = R} reset_pin_counter_best_effort
  unfolding reset_pin_counter_best_effort
  Frames-reset_pin_counter_best_effort = Frames-reset_rounds 2

module _ {E M F R : Type 0} ⦃mono : Monotonic M⦄ ⦃fs : FlashStore F⦄ ⦃crc : Crc⦄ ⦃cr : Crypto⦄ where
  Frames-check_backoff :
      (cfg : DeviceConfig) (n : ℕ) → Frames {E = E} {M = M} {F = F} {R = R} (check_backoff cfg n)
  unfolding check_backoff
  Frames-check_backoff cfg n = Frames-choice (check_backoff cfg n) (λ h.
      elim (Bool-cases (ltb 0 n && ltb (now_ms h) h.pin_backoff_until_ms)) [
        | inl b ↦ (
          raise (
              responds (
                pin_error err_busy "still backing off after a recent failed attempt"
                  (cfg.max_retries - n) ((h.pin_backoff_until_ms - now_ms h) % 2 ^ 32))),
          Frames-raise _,
          rw (b, check_backoff),
        )
        | inr b ↦ (pure tt, Frames-pure tt, rw (b, check_backoff))
      ])

  Frames-wipe : (b : Bool) (backoff : ℕ) → Frames {E = E} {M = M} {F = F} {R = R} (wipe b backoff)
  unfolding wipe live
  Frames-wipe false backoff = Frames-pure tt
  Frames-wipe true backoff = Frames->>= Frames-erase_key_verified (λ done.
      Frames-if done _ _ (Frames-modify (λ h. record h { ca_pubkey = none }) (λ h. refl))
        (Frames-raise _))

  -- A PIN that opens nothing leaves the session as it was, or shuts it.
  Runs-wrong_pin :
      {s : Live} {refused : Live → Type 0} (cfg : DeviceConfig) (attempts : ℕ)
      → refused s
      → refused (shut s)
      → Runs {E = E} {M = M} {F = F} {R = R} s (wrong_pin cfg attempts) (λ _ t. t ≡ s) refused
  unfolding wrong_pin live enter_locked_out drop_live_secrets
  Runs-wrong_pin {s} cfg attempts p q =
      let backoff = backoff_ms (attempts - 1) in
      framed>>
        (Frames-modify
          (λ h. record h { pin_backoff_until_ms = saturating_u64 (now_ms h + backoff) })
          (λ h. refl))
        (Runs-if (leb cfg.max_retries attempts) _ _
          (moved>> (modify-Runs enter_locked_out shut (λ h. refl))
            (framed>> (Frames-wipe cfg.wipe_on_lockout backoff) (Runs-raise _ q) q))
          (Runs-raise _ p))
        p

  Runs-judge :
      {s : Live} {refused : Live → Type 0} (cfg : DeviceConfig) (attempts : ℕ) (kek salt : Bytes)
      (opened : Result WrapError Bytes)
      → refused s
      → refused (shut s)
      → Runs {E = E} {M = M} {F = F} {R = R} s
          (judge cfg attempts kek salt opened)
          (λ _ t. t ≡ s)
          refused
  unfolding judge
  Runs-judge cfg attempts kek salt (ok seed) p q =
      framed>> Frames-reset_pin_counter_best_effort
        (Frames-Runs (Frames-pure (seed, kek, salt)) (λ a. refl) p) p
  Runs-judge cfg attempts kek salt (err e) p q = Runs-wrong_pin cfg attempts p q

  -- A verified PIN leaves the session as it was; an early response leaves it so, or shuts it.
  pub Runs-verify_pin :
      {s : Live} {refused : Live → Type 0} (pin : Bytes)
      → is_some s.config ≡ true
      → refused s
      → refused (shut s)
      → Runs {E = E} {M = M} {F = F} {R = R} s (verify_pin pin) (λ _ t. t ≡ s) refused
  unfolding verify_pin
  Runs-verify_pin {s} {refused} pin c p q =
      moved_by (λ cfg. s.config ≡ some cfg) (current_config-Runs c)
        (λ cfg _.
          framed (Frames-on_flash count)
            (λ counted.
              framed (Frames-require counted _ _)
                (λ prior.
                  framed>> (Frames-check_backoff cfg prior)
                    (framed (Frames-on_flash tick)
                      (λ ticked.
                        framed (Frames-require ticked _ _)
                          (λ attempts.
                            framed (Frames-on_flash (read_latest key_pair))
                              (λ found.
                                framed (Frames-require found _ _)
                                  (λ stored.
                                    framed (Frames-require_some stored _ _)
                                      (λ bytes.
                                        framed (Frames-require_some (blob_from_bytes bytes) _ _)
                                          (λ blob.
                                            framed Frames-device_secret
                                              (λ secret.
                                                framed
                                                  (Frames-require
                                                    (derive_pin_kek pin blob.salt cfg.argon2 secret)
                                                    _ _)
                                                  (λ kek.
                                                    Runs-judge cfg attempts kek blob.salt
                                                      (unwrap_seed kek blob) p q)
                                                  p)
                                              p)
                                          p)
                                      p)
                                  p)
                              p)
                          p)
                      p)
                    p)
                p)
            p)
