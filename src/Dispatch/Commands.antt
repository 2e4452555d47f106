-- ===== src/Dispatch/Commands.antt =====
-- hsm-core/src/dispatch.rs, `handle_hsm` over every history of a session.

use picosignet.Prelude.{
  ℕ, ◌^◌, ◌<◌, ◌≤◌, sym, ◌∙◌, String, ◌≡◌, refl, Bool, true, false, ◌||◌, Option, none, Result, ok,
  err, Exec, is_some, ◌==◌,
}
use picosignet.Prelude.Bytes.{Bytes}
use picosignet.Hal.{FlashStore, EntropySource, Monotonic}
use picosignet.Crypto.{Crypto, ChaCha}
use picosignet.Storage.Record.{Crc}
use picosignet.Storage.Config.{DeviceConfig}
use picosignet.Proto.{HsmRequest, HsmResponse, ErrorCode}
use picosignet.Dispatch.Session.{
  DeviceState, uninitialized, dev_ready, prod_locked, prod_ready, locked_out, Hsm, Stop, responds,
  panics, refuse, drop_live_secrets,
}
use picosignet.Dispatch.Boot.{boot}
use picosignet.Dispatch.Pins.{
  is_production, is_prod_config, relocked, relock_if, relock_on_transport_reset,
}
use picosignet.Dispatch.Setup.{hsm_init}
use picosignet.Dispatch.Keys.{
  hsm_generate_key, hsm_get_public_key, hsm_unlock, hsm_lock, hsm_change_pin,
}
use picosignet.Dispatch.Time.{hsm_set_time, hsm_status, hsm_add_entropy, hsm_self_test}
use picosignet.Dispatch.Reset.{hsm_factory_reset, hsm_reboot_bootloader}
use picosignet.Dispatch.Handle.{handlers, set_count, variants, first_set, handle_hsm, response}
use picosignet.Clock.Drift.{History, now_unix_fits}
use picosignet.Dispatch.Leaves.{Leaves, Runs-Leaves, first-Leaves, if-Leaves, status-Leaves}
use picosignet.Dispatch.Runs.{Live, live, Frames-refuse}
use picosignet.Dispatch.Frames.{
  Frames-get_public_key, Frames-set_time, Frames-add_entropy, Frames-self_test,
}
use picosignet.Dispatch.Safety.{IsSafe, Consistent, is_dev_config, lock-Runs, unlock-Runs, stays}
use picosignet.Dispatch.KeySafety.{init-Runs, generate_key-Runs, change_pin-Runs}
use picosignet.Dispatch.ResetSafety.{load_from_flash-IsSafe, factory_reset-Runs, reboot-Runs}

relocked-Consistent :
    (st : DeviceState) (c : Option DeviceConfig) (ca kek salt : Option Bytes)
    → Consistent st c ca kek salt
    → is_production st || is_prod_config c ≡ true
    → Consistent (relocked st) c none none none
unfolding Consistent is_dev_config
relocked-Consistent uninitialized c ca kek salt p b = (p.0, (refl, refl, refl))
relocked-Consistent dev_ready c ca kek salt p b = (p.0, refl)
relocked-Consistent prod_locked c ca kek salt p b = (p.0, (refl, refl, refl))
relocked-Consistent prod_ready c ca kek salt p b = (p.0, (refl, refl, refl))
relocked-Consistent locked_out c ca kek salt p b = (p.0, (refl, refl, refl))

differ : {A : Type 0} {a : A} → ◌≡◌ {A = Result (Unit {0}) A} (ok a) (err tt) → ⊥
differ e = cc

answered : (r : Result Stop HsmResponse) → (r ≡ err panics → ⊥) → is_some (response r) ≡ true
unfolding response
answered (ok r) alive = refl
answered (err (responds r)) alive = refl
answered (err panics) alive = absurd (alive refl)

module _ {E M F R : Type 0} where
  relock_if-IsSafe :
      (b : Bool) (h : Hsm E M F R)
      → is_production h.state || is_prod_config h.config ≡ b
      → IsSafe (live h)
      → IsSafe (live (relock_if b h))
  unfolding relock_if drop_live_secrets live IsSafe
  relock_if-IsSafe true h e p = relocked-Consistent h.state h.config h.ca h.wrap_kek h.wrap_salt p e
  relock_if-IsSafe false h e p = p

  pub relock-IsSafe :
      (h : Hsm E M F R) → IsSafe (live h) → IsSafe (live (relock_on_transport_reset h))
  unfolding relock_on_transport_reset
  relock-IsSafe h p = relock_if-IsSafe _ h refl p

module _ {E M F R : Type 0} ⦃src : EntropySource E⦄ ⦃mono : Monotonic M⦄ ⦃fs : FlashStore F⦄
    ⦃crc : Crc⦄ ⦃cr : Crypto⦄ ⦃gen : ChaCha R⦄ where
  handlers-Leaves :
      {s : Live} (req : HsmRequest) (last : Exec Stop (Hsm E M F R) HsmResponse)
      → IsSafe s
      → Leaves IsSafe s last
      → Leaves IsSafe s (first_set (handlers req) last)
  unfolding handlers first_set
  handlers-Leaves req last p q =
      first-Leaves hsm_init req.init _ _ (λ r. Runs-Leaves (init-Runs r p))
        (first-Leaves hsm_generate_key req.generate_key _ _
          (λ r. Runs-Leaves (generate_key-Runs r p))
          (first-Leaves (λ _. hsm_get_public_key) req.get_public_key _ _
            (λ _. Runs-Leaves (stays Frames-get_public_key p))
            (first-Leaves hsm_unlock req.unlock _ _ (λ r. Runs-Leaves (unlock-Runs r p))
              (first-Leaves (λ _. hsm_lock) req.lock _ _ (λ _. Runs-Leaves (lock-Runs p))
                (first-Leaves hsm_set_time req.set_time _ _
                  (λ r. Runs-Leaves (stays (Frames-set_time r) p))
                  (first-Leaves (λ _. hsm_status) req.status _ _ (λ _. status-Leaves p)
                    (first-Leaves hsm_change_pin req.change_pin _ _
                      (λ r. Runs-Leaves (change_pin-Runs r p))
                      (first-Leaves hsm_add_entropy req.add_entropy _ _
                        (λ r. Runs-Leaves (stays (Frames-add_entropy r) p))
                        (first-Leaves (λ _. hsm_self_test) req.self_test _ _
                          (λ _. Runs-Leaves (stays Frames-self_test p))
                          (first-Leaves hsm_factory_reset req.factory_reset _ _
                            (λ r. Runs-Leaves (factory_reset-Runs r p))
                            (first-Leaves hsm_reboot_bootloader req.reboot_bootloader _ _
                              (λ r. Runs-Leaves (reboot-Runs r p)) q)))))))))))

  refused-Leaves :
      {s : Live} (code : ErrorCode) (message : String)
      → IsSafe s
      → Leaves {E = E} {M = M} {F = F} {R = R} IsSafe s (refuse code message)
  refused-Leaves code message p = Runs-Leaves (stays (Frames-refuse code message) p)

  handle-Leaves :
      {s : Live} (req : HsmRequest)
      → IsSafe s
      → Leaves {E = E} {M = M} {F = F} {R = R} IsSafe s (handle_hsm req)
  unfolding handle_hsm
  handle-Leaves req p =
      if-Leaves (set_count (variants req) == 1) _ _ (handlers-Leaves req _ p (refused-Leaves _ _ p))
        (refused-Leaves _ _ p)

  -- A management request leaves a safe session safe, even if it panics.
  pub handle_hsm-keeps :
      (req : HsmRequest) (h : Hsm E M F R) → IsSafe (live h) → IsSafe (live (handle_hsm req h).1)
  handle_hsm-keeps req h p = ((handle-Leaves req p).leave h refl).0

  -- From a safe session whose clock is as some history of `set` leaves it, at a reading of the timer
  -- that is not before the last of that history and fits 64 bits, every management request gets a
  -- response, so nothing panics, and it leaves a safe session: the state agrees with the
  -- configuration, no secret is in memory before setup, while locked or when locked out, and all of
  -- them are there while unlocked. The flash, the entropy source and the cryptography may answer and
  -- fail in any way.
  pub handle_hsm-IsSafe :
      (req : HsmRequest) (h : Hsm E M F R) (now : ℕ)
      → IsSafe (live h)
      → History M h.clock now
      → now ≤ mono.now_micros h.mono
      → mono.now_micros h.mono < 2 ^ 64
      → IsSafe (live (handle_hsm req h).1) × (is_some (response (handle_hsm req h).0) ≡ true)
  handle_hsm-IsSafe req h now p past later fits =
      let (safe, only) = (handle-Leaves req p).leave h refl in
      let (t, reads) = now_unix_fits h.mono h.clock now past later fits in
      (safe, answered (handle_hsm req h).0 (λ e. differ (sym reads ∙ only e)))

  -- The sessions that a device can come to by management requests, transport resets, the latching of
  -- the physical gesture and time going by.
  pub data Reaches : Hsm E M F R → Type 0 where
    booted : (e : E) (m : M) (f : F) → Reaches (boot e m f)
    commanded : {h : Hsm E M F R} → Reaches h → (req : HsmRequest) → Reaches (handle_hsm req h).1
    reset : {h : Hsm E M F R} → Reaches h → Reaches (relock_on_transport_reset h)
    latched :
        {h : Hsm E M F R}
        → Reaches h
        → (b : Bool) → Reaches (record h { physical_recovery_authorized = b })
    waited : {h : Hsm E M F R} → Reaches h → (m : M) → Reaches (record h { mono = m })

  -- Every session that is reached from a boot on any flash contents is safe.
  pub Reaches-IsSafe : {h : Hsm E M F R} → Reaches h → IsSafe (live h)
  unfolding boot live IsSafe
  Reaches-IsSafe (booted e m f) = load_from_flash-IsSafe _
  Reaches-IsSafe (commanded {h} r req) = handle_hsm-keeps req h (Reaches-IsSafe r)
  Reaches-IsSafe (reset {h} r) = relock-IsSafe h (Reaches-IsSafe r)
  Reaches-IsSafe (latched r b) = Reaches-IsSafe r
  Reaches-IsSafe (waited r m) = Reaches-IsSafe r
