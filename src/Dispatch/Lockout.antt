-- ===== src/Dispatch/Lockout.antt =====
-- hsm-core/src/dispatch.rs: a locked out device without the physical gesture stays locked out.
use mathlib.Core.Path.{subst}
use picosignet.Prelude.{
  arith, ◌≡◌, refl, sym, ap, ◌∙◌, true, false, not, Option, none, String, Exec, is_some, ◌==◌,
}
use picosignet.Prelude.Bytes.{Bytes, codes, beq_bytes}
use picosignet.Hal.{FlashStore, EntropySource, Monotonic}
use picosignet.Crypto.{Crypto, ChaCha}
use picosignet.Storage.Record.{Crc}
use picosignet.Proto.{
  ErrorCode, err_locked_out, HsmRequest, HsmResponse, InitReq, FactoryResetReq, RebootBootloaderReq,
}
use picosignet.Dispatch.Session.{
  DeviceState, locked_out, Hsm, Stop, refuse, require_that, drop_live_secrets,
}
use picosignet.Dispatch.Setup.{unprovisioned, hsm_init}
use picosignet.Dispatch.Keys.{
  generate_in, hsm_generate_key, hsm_get_public_key, unlock_in, hsm_unlock, lock_in, hsm_lock,
  change_pin_in, hsm_change_pin,
}
use picosignet.Dispatch.Time.{hsm_set_time, hsm_status, hsm_add_entropy, hsm_self_test}
use picosignet.Dispatch.Reset.{
  recovered, authorize_in, authorize, hsm_factory_reset, hsm_reboot_bootloader,
}
use picosignet.Dispatch.Handle.{set_count, variants, first_set, handlers, handle_hsm}
use picosignet.Dispatch.Leaves.{Leaves, Runs-Leaves, first-Leaves, if-Leaves, status-Leaves}
use picosignet.Dispatch.Runs.{
  Live, live, Runs, Frames, Frames-Runs, Frames-pure, Frames-refuse, Frames-require_that,
  Runs-raise, >>=-Runs, framed>>, moved_by, moved>>, modify-Runs, by_state, by_recovery,
  require_config-Runs,
}
use picosignet.Dispatch.Frames.{
  Frames-get_public_key, Frames-set_time, Frames-add_entropy, Frames-self_test,
}
use picosignet.Dispatch.Safety.{IsSafe, Consistent, facts, prod_some}

-- A locked out device without the physical gesture.
pub record Shut (s : Live) : Type 0 where
  pub out : s.state ≡ locked_out
  pub closed : s.recovery ≡ false
  pub safe : IsSafe s

no_secret : {s : Live} → Shut s → record s { ca = none; wrap_kek = none; wrap_salt = none } ≡ s
unfolding Consistent
no_secret {s} v =
    let (c, q) = facts s locked_out v.out v.safe in
    sym (
      ap (λ a. record s { ca = a }) q.0
      ∙ (ap (λ k. record s { ca = none; wrap_kek = k }) q.1
          ∙ ap (λ l. record s { ca = none; wrap_kek = none; wrap_salt = l }) q.2))

module _ {E M F R : Type 0} where
  Frames-at :
      {s : Live} (m : Exec Stop (Hsm E M F R) HsmResponse)
      (table : DeviceState → Exec Stop (Hsm E M F R) HsmResponse)
      → Shut s
      → ((h : Hsm E M F R) → m h ≡ table h.state h)
      → Frames (table locked_out)
      → Runs s m (λ _ t. t ≡ s) (λ t. t ≡ s)
  Frames-at {s} m table v k f =
      by_state m table k
        (subst (λ st. Runs s (table st) (λ _ t. t ≡ s) (λ t. t ≡ s)) (sym v.out) (f.frame s))

  lock-Shut :
      {s : Live}
      → Shut s
      → Runs {E = E} {M = M} {F = F} {R = R} s hsm_lock (λ _ t. t ≡ s) (λ t. t ≡ s)
  unfolding hsm_lock lock_in drop_live_secrets live
  lock-Shut {s} v =
      by_state hsm_lock lock_in (λ h. refl)
        (subst
          (λ st. Runs {E = E} {M = M} {F = F} {R = R} s (lock_in st) (λ _ t. t ≡ s) (λ t. t ≡ s))
          (sym v.out)
          (moved>>
            (modify-Runs drop_live_secrets
              (λ s. record s { ca = none; wrap_kek = none; wrap_salt = none }) (λ h. refl))
            (Frames-Runs (Frames-pure _) (λ _. no_secret v) (no_secret v))))

module _ {E M F R : Type 0} ⦃mono : Monotonic M⦄ ⦃fs : FlashStore F⦄ ⦃crc : Crc⦄ ⦃cr : Crypto⦄ where
  recovered-Shut :
      {s : Live}
      → s.recovery ≡ false
      → Runs {E = E} {M = M} {F = F} {R = R} s recovered (λ _ t. ⊥) (λ t. t ≡ s)
  unfolding recovered
  recovered-Shut {s} r =
      by_recovery recovered
        (λ b.
          require_that b err_locked_out
            "device locked out; hold physical recovery low during reset")
        (λ h. refl)
        (subst
          (λ b.
            Runs {E = E} {M = M} {F = F} {R = R} s
              (require_that b err_locked_out
                "device locked out; hold physical recovery low during reset")
              (λ _ t. ⊥) (λ t. t ≡ s))
          (sym r) (Runs-raise _ refl))

  -- The gate of the resets never opens.
  authorize-Shut :
      {s : Live} (message : String) (pin : Option Bytes)
      → Shut s
      → Runs {E = E} {M = M} {F = F} {R = R} s (authorize message pin) (λ _ t. ⊥) (λ t. t ≡ s)
  unfolding authorize authorize_in
  authorize-Shut {s} message pin v =
      by_state (authorize message pin) (authorize_in message pin) (λ h. refl)
        (subst
          (λ st.
            Runs {E = E} {M = M} {F = F} {R = R} s (authorize_in message pin st) (λ _ t. ⊥)
              (λ t. t ≡ s))
          (sym v.out) (recovered-Shut v.closed))

  reboot-Shut :
      {s : Live} (req : RebootBootloaderReq)
      → Shut s
      → Runs {E = E} {M = M} {F = F} {R = R} s
          (hsm_reboot_bootloader req)
          (λ _ t. t ≡ s)
          (λ t. t ≡ s)
  unfolding hsm_reboot_bootloader
  reboot-Shut req v = >>=-Runs (authorize-Shut _ req.pin v) (λ a t never. absurd never)

  factory_reset-Shut :
      {s : Live} (req : FactoryResetReq)
      → Shut s
      → Runs {E = E} {M = M} {F = F} {R = R} s (hsm_factory_reset req) (λ _ t. t ≡ s) (λ t. t ≡ s)
  unfolding hsm_factory_reset
  factory_reset-Shut req v =
      framed>> (Frames-require_that (beq_bytes req.confirm (codes "ERASE")) _ _)
        (>>=-Runs (authorize-Shut _ req.pin v) (λ a t never. absurd never)) refl

module _ {E M F R : Type 0} ⦃src : EntropySource E⦄ ⦃mono : Monotonic M⦄ ⦃fs : FlashStore F⦄
    ⦃crc : Crc⦄ ⦃cr : Crypto⦄ ⦃gen : ChaCha R⦄ where
  init-Shut :
      {s : Live} (req : InitReq)
      → Shut s
      → Runs {E = E} {M = M} {F = F} {R = R} s (hsm_init req) (λ _ t. t ≡ s) (λ t. t ≡ s)
  unfolding hsm_init unprovisioned Consistent
  init-Shut {s} req v =
      moved_by (λ _. not (is_some s.config) ≡ true)
        (require_config-Runs unprovisioned (λ c. not (is_some c)) _ _ (λ h. refl) refl)
        (λ _ n. absurd (ground (arith, n, prod_some s.config (facts s locked_out v.out v.safe).0)))

  handlers-Shut :
      {s : Live} (req : HsmRequest) (last : Exec Stop (Hsm E M F R) HsmResponse)
      → Shut s
      → Leaves (λ t. t ≡ s) s last
      → Leaves (λ t. t ≡ s) s (first_set (handlers req) last)
  unfolding handlers first_set hsm_generate_key generate_in hsm_unlock unlock_in hsm_change_pin
      change_pin_in
  handlers-Shut {s} req last v q =
      first-Leaves hsm_init req.init _ _ (λ r. Runs-Leaves (init-Shut r v))
        (first-Leaves hsm_generate_key req.generate_key _ _
          (λ r.
            Runs-Leaves
              (Frames-at (hsm_generate_key r) (generate_in r) v (λ h. refl) (Frames-refuse _ _)))
          (first-Leaves (λ _. hsm_get_public_key) req.get_public_key _ _
            (λ _. Runs-Leaves (Frames-get_public_key.frame s))
            (first-Leaves hsm_unlock req.unlock _ _
              (λ r.
                Runs-Leaves
                  (Frames-at (hsm_unlock r) (unlock_in r) v (λ h. refl) (Frames-refuse _ _)))
              (first-Leaves (λ _. hsm_lock) req.lock _ _ (λ _. Runs-Leaves (lock-Shut v))
                (first-Leaves hsm_set_time req.set_time _ _
                  (λ r. Runs-Leaves ((Frames-set_time r).frame s))
                  (first-Leaves (λ _. hsm_status) req.status _ _
                    (λ _. status-Leaves {Q = λ t. t ≡ s} refl)
                    (first-Leaves hsm_change_pin req.change_pin _ _
                      (λ r. Runs-Leaves (
                        Frames-at (hsm_change_pin r) (change_pin_in r) v (λ h. refl)
                          (Frames-refuse _ _)))
                      (first-Leaves hsm_add_entropy req.add_entropy _ _
                        (λ r. Runs-Leaves ((Frames-add_entropy r).frame s))
                        (first-Leaves (λ _. hsm_self_test) req.self_test _ _
                          (λ _. Runs-Leaves (Frames-self_test.frame s))
                          (first-Leaves hsm_factory_reset req.factory_reset _ _
                            (λ r. Runs-Leaves (factory_reset-Shut r v))
                            (first-Leaves hsm_reboot_bootloader req.reboot_bootloader _ _
                              (λ r. Runs-Leaves (reboot-Shut r v)) q)))))))))))

  refused-Shut :
      {s : Live} (code : ErrorCode) (message : String)
      → Leaves {E = E} {M = M} {F = F} {R = R} (λ t. t ≡ s) s (refuse code message)
  refused-Shut {s} code message = Runs-Leaves ((Frames-refuse code message).frame s)

  handle-Shut :
      {s : Live} (req : HsmRequest)
      → Shut s
      → Leaves {E = E} {M = M} {F = F} {R = R} (λ t. t ≡ s) s (handle_hsm req)
  unfolding handle_hsm
  handle-Shut {s} req v =
      if-Leaves (set_count (variants req) == 1) _ _ (handlers-Shut req _ v (refused-Shut _ _))
        (refused-Shut _ _)

  -- A safe session that is locked out, on a device without the physical gesture, keeps its state, its
  -- configuration and its empty memory through every management request, so no request unlocks it,
  -- sets it up again or resets it.
  pub handle_hsm-lockout :
      (req : HsmRequest) (h : Hsm E M F R)
      → h.state ≡ locked_out
      → h.physical_recovery_authorized ≡ false
      → IsSafe (live h)
      → live (handle_hsm req h).1 ≡ live h
  unfolding live
  handle_hsm-lockout req h out closed safe =
      ((handle-Shut req (record { out = out; closed = closed; safe = safe })).leave h refl).0
