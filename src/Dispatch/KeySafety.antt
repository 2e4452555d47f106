-- ===== src/Dispatch/KeySafety.antt =====
-- hsm-core/src/dispatch.rs: `hsm_generate_key`, `hsm_change_pin` and `hsm_init` keep the session safe.
use mathlib.Core.Path.{subst}
use picosignet.Prelude.{
  arith, not, ◌≡◌, refl, sym, Bool, true, false, Option, none, some, ◌>>◌, pure, ltb, unwrap_or,
  is_some,
}
use picosignet.Prelude.Bytes.{Bytes, codes, beq_bytes}
use picosignet.Hal.{FlashStore, EntropySource, Monotonic}
use picosignet.Crypto.{Crypto, ChaCha}
use picosignet.Storage.Record.{Crc}
use picosignet.Storage.Config.{DeviceConfig, blob_to_bytes}
use picosignet.Wrap.{derive_pin_kek, wrap_seed, public_bytes, derive_dev_kek}
use picosignet.Proto.{GenerateKeyReq, ChangePinReq, InitReq}
use picosignet.Dispatch.Session.{
  modify, DeviceState, uninitialized, dev_ready, prod_locked, prod_ready, locked_out,
}
use picosignet.Dispatch.Setup.{
  pin_length_ok, init_pin, init_dev, init_prod, dev_config, prod_config, as_dev, as_prod,
  unprovisioned, hsm_init, default_argon,
}
use picosignet.Dispatch.Keys.{
  change_pin_response, wrap_type_for, generate_ready, generate_in, hsm_generate_key, rewrap,
  settled, unlocked, change_pin_in, hsm_change_pin,
}
use picosignet.Dispatch.Pins.{UnlockedSeed}
use picosignet.Dispatch.Runs.{
  Live, live, Runs, framed, framed>>, require_config-Runs, moved_by, moved_to, by_state, Frames,
  Frames-if, Frames-pure, Runs-if, Frames-refuse, Frames-require, Frames-require_field,
  Frames-require_that, current_config-Runs,
}
use picosignet.Dispatch.PinRuns.{
  Runs-verify_pin, Frames-device_secret, Frames-reset_pin_counter_best_effort,
}
use picosignet.Dispatch.Frames.{
  Frames-pin_salt, Frames-may_replace, Frames-draw, Frames-fresh_entropy, Frames-blob_salt,
  Frames-write_key, Frames-write_config,
}
use picosignet.Dispatch.Safety.{
  IsSafe, Consistent, is_dev_config, facts, scrubbed, opened, Production, ready-Production,
  locked-Production, settles, stays,
}

no_salt :
    (st : DeviceState) (c : Option DeviceConfig) (ca kek salt : Option Bytes)
    → not (is_some c) ≡ true
    → Consistent st c ca kek salt
    → salt ≡ none
unfolding Consistent is_dev_config
no_salt uninitialized c ca kek salt n p = p.1.2
no_salt dev_ready c ca kek salt n p = p.1
no_salt prod_locked c ca kek salt n p = p.1.2
no_salt prod_ready none ca kek salt n p = ground (arith, p.0)
no_salt prod_ready (some c) ca kek salt n p = ground (arith, n)
no_salt locked_out c ca kek salt n p = p.1.2

-- A session without a configuration holds no salt.
no_config : (s : Live) → not (is_some s.config) ≡ true → IsSafe s → s.wrap_salt ≡ none
unfolding IsSafe
no_config s n p = no_salt s.state s.config s.ca s.wrap_kek s.wrap_salt n p

module _ {E M F R : Type 0} where
  unprovisioned-Runs :
      {s : Live}
      → IsSafe s
      → Runs {E = E} {M = M} {F = F} {R = R} s unprovisioned
          (λ _ t. (t ≡ s) × (not (is_some s.config) ≡ true))
          IsSafe
  unfolding unprovisioned
  unprovisioned-Runs p = require_config-Runs unprovisioned (λ c. not (is_some c)) _ _ (λ h. refl) p

module _ {E M F R : Type 0} ⦃src : EntropySource E⦄ ⦃fs : FlashStore F⦄ ⦃crc : Crc⦄ ⦃cr : Crypto⦄
    ⦃gen : ChaCha R⦄ where
  generate_ready-Runs :
      {s : Live} (req : GenerateKeyReq)
      → IsSafe s
      → ((seed : Bytes) → IsSafe (record s { ca = some seed }))
      → Runs {E = E} {M = M} {F = F} {R = R} s (generate_ready req) (λ _ t. IsSafe t) IsSafe
  unfolding generate_ready live
  generate_ready-Runs req p q =
      framed>> (Frames-may_replace req.force)
        (framed (Frames-require_field (λ h. h.config) _ _)
          (λ cfg.
            framed (Frames-require_field (λ h. h.wrap_kek) _ _)
              (λ kek.
                framed>> Frames-fresh_entropy
                  (framed (Frames-pin_salt (wrap_type_for cfg.mode))
                    (λ kept.
                      framed (Frames-draw 32)
                        (λ seed.
                          framed (Frames-draw 12)
                            (λ nonce.
                              framed (Frames-blob_salt kept)
                                (λ salt.
                                  framed>>
                                    (Frames-write_key (
                                      blob_to_bytes (
                                        wrap_seed kek seed (public_bytes seed)
                                          (wrap_type_for cfg.mode) salt nonce)))
                                    (settles
                                      (λ h. record h {
                                        ca = some seed;
                                        ca_pubkey = some (public_bytes seed);
                                      })
                                      (λ s. record s { ca = some seed }) _ (λ h. refl) (q seed))
                                    p)
                                p)
                            p)
                        p)
                    p)
                  p)
              p)
          p)
        p

  generate_in-Runs :
      {s : Live} (req : GenerateKeyReq) (st : DeviceState)
      → s.state ≡ st
      → IsSafe s
      → Runs {E = E} {M = M} {F = F} {R = R} s (generate_in req st) (λ _ t. IsSafe t) IsSafe
  unfolding generate_in IsSafe Consistent
  generate_in-Runs {s} req dev_ready e p = generate_ready-Runs req p (λ seed.
      subst (λ t. Consistent t s.config (some seed) s.wrap_kek s.wrap_salt) (sym e)
        (facts s dev_ready e p))
  generate_in-Runs {s} req prod_ready e p =
      let (c, a, k, l) = facts s prod_ready e p in
      generate_ready-Runs req p (λ seed.
        subst (λ t. Consistent t s.config (some seed) s.wrap_kek s.wrap_salt) (sym e)
          (c, refl, k, l))
  generate_in-Runs req prod_locked e p = stays (Frames-refuse _ _) p
  generate_in-Runs req locked_out e p = stays (Frames-refuse _ _) p
  generate_in-Runs req uninitialized e p = stays (Frames-refuse _ _) p

  pub generate_key-Runs :
      {s : Live} (req : GenerateKeyReq)
      → IsSafe s
      → Runs {E = E} {M = M} {F = F} {R = R} s (hsm_generate_key req) (λ _ t. IsSafe t) IsSafe
  unfolding hsm_generate_key
  generate_key-Runs {s} req p =
      by_state (hsm_generate_key req) (generate_in req) (λ h. refl)
        (generate_in-Runs req s.state refl p)

module _ {E M F R : Type 0} ⦃src : EntropySource E⦄ ⦃mono : Monotonic M⦄ ⦃fs : FlashStore F⦄
    ⦃crc : Crc⦄ ⦃cr : Crypto⦄ ⦃gen : ChaCha R⦄ where
  ending :
      {s : Live} (ready : Bool) (got : UnlockedSeed)
      → Production s
      → Runs {E = E} {M = M} {F = F} {R = R} s
          (modify (settled ready got) >> pure change_pin_response)
          (λ _ t. IsSafe t)
          IsSafe
  unfolding settled unlocked live
  ending true got q = settles (settled true got) (opened got) _ (λ h. refl) (q.ready got)
  ending false got q = settles (settled false got) (scrubbed prod_locked) _ (λ h. refl) q.relocked

  rewrap-Runs :
      {s : Live} (req : ChangePinReq) (ready : Bool)
      → Production s
      → Runs {E = E} {M = M} {F = F} {R = R} s (rewrap req ready) (λ _ t. IsSafe t) IsSafe
  unfolding rewrap live
  rewrap-Runs {s} req ready q =
      let p = q.here in
      framed>> (Frames-require_that (pin_length_ok req.new_pin) _ _)
        (moved_to (Runs-verify_pin req.current_pin q.configured p q.shut) (λ got.
          framed>> Frames-fresh_entropy
            (framed (Frames-draw 16)
              (λ salt.
                moved_by (λ cfg. s.config ≡ some cfg) (current_config-Runs q.configured)
                  (λ cfg _.
                    framed Frames-device_secret
                      (λ secret.
                        framed
                          (Frames-require (derive_pin_kek req.new_pin salt cfg.argon2 secret) _ _)
                          (λ kek.
                            framed (Frames-require_field (λ h. h.ca_pubkey) _ _)
                              (λ pubkey.
                                framed (Frames-draw 12)
                                  (λ nonce.
                                    framed>> (Frames-write_key _)
                                      (framed>> Frames-reset_pin_counter_best_effort
                                        (ending ready (got.0, kek, salt) q) p)
                                      p)
                                  p)
                              p)
                          p)
                      p))
              p)
            p))
        p

  change_pin_in-Runs :
      {s : Live} (req : ChangePinReq) (st : DeviceState)
      → s.state ≡ st
      → IsSafe s
      → Runs {E = E} {M = M} {F = F} {R = R} s (change_pin_in req st) (λ _ t. IsSafe t) IsSafe
  unfolding change_pin_in
  change_pin_in-Runs req prod_ready e p = rewrap-Runs req true (ready-Production e p)
  change_pin_in-Runs req prod_locked e p = rewrap-Runs req false (locked-Production e p)
  change_pin_in-Runs req locked_out e p = stays (Frames-refuse _ _) p
  change_pin_in-Runs req dev_ready e p = stays (Frames-refuse _ _) p
  change_pin_in-Runs req uninitialized e p = stays (Frames-refuse _ _) p

  pub change_pin-Runs :
      {s : Live} (req : ChangePinReq)
      → IsSafe s
      → Runs {E = E} {M = M} {F = F} {R = R} s (hsm_change_pin req) (λ _ t. IsSafe t) IsSafe
  unfolding hsm_change_pin
  change_pin-Runs {s} req p =
      by_state (hsm_change_pin req) (change_pin_in req) (λ h. refl)
        (change_pin_in-Runs req s.state refl p)

  init_pin-Frames : (o : Option Bytes) → Frames {E = E} {M = M} {F = F} {R = R} (init_pin o)
  unfolding init_pin
  init_pin-Frames none = Frames-refuse _ _
  init_pin-Frames (some pin) =
      Frames-if (pin_length_ok pin) _ _ (Frames-pure pin) (Frames-refuse _ _)

  init_dev-Runs :
      {s : Live}
      → s.wrap_salt ≡ none
      → IsSafe s
      → Runs {E = E} {M = M} {F = F} {R = R} s init_dev (λ _ t. IsSafe t) IsSafe
  unfolding init_dev as_dev dev_config live IsSafe Consistent is_dev_config
  init_dev-Runs w p =
      framed Frames-device_secret
        (λ secret.
          framed>> (Frames-write_config _)
            (settles (as_dev _ _)
              (λ s. record s {
                config = some dev_config;
                state = dev_ready;
                wrap_kek = some (derive_dev_kek secret);
              })
              _ (λ h. refl) (refl, w))
            p)
        p

  init_prod-Runs :
      {s : Live} (req : InitReq)
      → IsSafe s
      → Runs {E = E} {M = M} {F = F} {R = R} s (init_prod req) (λ _ t. IsSafe t) IsSafe
  unfolding init_prod as_prod prod_config live IsSafe Consistent
  init_prod-Runs req p =
      framed (init_pin-Frames req.pin)
        (λ pin.
          framed>> Frames-fresh_entropy
            (framed (Frames-draw 16)
              (λ salt.
                framed>> (Frames-require_that (ltb 0 (unwrap_or req.max_retries 10)) _ _)
                  (framed Frames-device_secret
                    (λ secret.
                      framed (Frames-draw 32)
                        (λ seed.
                          framed (Frames-require (derive_pin_kek pin salt default_argon secret) _ _)
                            (λ kek.
                              framed (Frames-draw 12)
                                (λ nonce.
                                  framed>> (Frames-write_key _)
                                    (framed>> (Frames-write_config _)
                                      (framed>> Frames-reset_pin_counter_best_effort
                                        (settles (as_prod _ _)
                                          (λ s.
                                            scrubbed prod_locked
                                              (record s { config = some (prod_config req) }))
                                          _ (λ h. refl) (refl, (refl, refl, refl)))
                                        p)
                                      p)
                                    p)
                                p)
                            p)
                        p)
                    p)
                  p)
              p)
            p)
        p

  pub init-Runs :
      {s : Live} (req : InitReq)
      → IsSafe s
      → Runs {E = E} {M = M} {F = F} {R = R} s (hsm_init req) (λ _ t. IsSafe t) IsSafe
  unfolding hsm_init
  init-Runs {s} req p =
      moved_by (λ _. not (is_some s.config) ≡ true) (unprovisioned-Runs p)
        (λ _ n. Runs-if (beq_bytes req.mode (codes "dev")) _ _ (init_dev-Runs (no_config s n p) p) (
          Runs-if (beq_bytes req.mode (codes "prod")) _ _ (init_prod-Runs req p)
            (stays (Frames-refuse _ _) p)))
