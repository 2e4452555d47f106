-- ===== src/Dispatch/ResetSafety.antt =====
-- hsm-core/src/dispatch.rs: `boot`, `load_from_flash`, the relock and the commands that reset keep the
-- session safe.
use mathlib.Core.Path.{subst}
use picosignet.Prelude.{
  ◌≡◌, refl, sym, Bool, true, false, ◌&&◌, Option, none, some, String, Result, ok, err, ◌>>◌, pure,
  is_ok, is_some, leb, ok_or_else,
}
use picosignet.Prelude.Bytes.{Bytes, codes, beq_bytes}
use picosignet.Hal.{HalError, FlashStore, Monotonic}
use picosignet.Crypto.{Crypto}
use picosignet.Pin.{count, reset}
use picosignet.Storage.Record.{Crc}
use picosignet.Storage.AbPair.{read_latest, erase_both, config_pair, time_floor}
use picosignet.Storage.Config.{Mode, dev, prod, DeviceConfig, KeyBlob}
use picosignet.Wrap.{WrapError, unwrap_seed, derive_dev_kek}
use picosignet.Proto.{HsmResponse, ErrorCode, FactoryResetReq, RebootBootloaderReq}
use picosignet.Dispatch.Session.{
  refuse, DeviceState, Hsm, uninitialized, dev_ready, prod_locked, prod_ready, locked_out, modify,
  drop_live_secrets, enter_locked_out,
}
use picosignet.Dispatch.Boot.{
  lockout_check, with_dev_seed, load_dev_secret, load_dev_key, load_dev, load_prod, load_mode,
  load_config, load_from_flash,
}
use picosignet.Dispatch.Pins.{gone, is_prod_config}
use picosignet.Dispatch.Reset.{
  prove_pin, prove_in, prove, recovered, authorize_in, authorize, hsm_reboot_bootloader, wiped,
  hsm_factory_reset, reset_response,
}
use picosignet.Dispatch.Runs.{
  >>=-Runs, Live, live, Runs, Frames-Runs, Frames-pure, Frames-refuse, Frames-require_that,
  Frames-choice, Runs-if, framed>>, moved>>, moved_to, by_state, by_recovery, modify-Runs,
}
use picosignet.Dispatch.PinRuns.{Runs-verify_pin}
use picosignet.Dispatch.Quiet.{Quiet-erase_key_verified, Quiet-on_flash, quietly, modify-post}
use picosignet.Dispatch.Safety.{
  Sealed, IsSafe, Consistent, is_dev_config, Production, ready-Production, locked-Production,
  settles, stays,
}

-- What loading a dev device keeps.
abbrev pub DevLoaded : DeviceState → Option DeviceConfig → Option Bytes → Type 0
DevLoaded st c salt = (st ≡ dev_ready) × (is_dev_config c ≡ true) × (salt ≡ none)

module _ {E M F R : Type 0} ⦃mono : Monotonic M⦄ ⦃fs : FlashStore F⦄ ⦃crc : Crc⦄ ⦃cr : Crypto⦄ where
  dev_seed-keeps :
      (r : Result WrapError Bytes) (h : Hsm E M F R)
      → DevLoaded h.state h.config h.wrap_salt
      → DevLoaded (with_dev_seed r h).state (with_dev_seed r h).config (with_dev_seed r h).wrap_salt
  unfolding with_dev_seed
  dev_seed-keeps (ok seed) h p = p
  dev_seed-keeps (err e) h p = p

  dev_key-keeps :
      (kek : Bytes) (kb : Option KeyBlob) (h : Hsm E M F R)
      → DevLoaded h.state h.config h.wrap_salt
      → DevLoaded
          (load_dev_key kek kb h).state
          (load_dev_key kek kb h).config
          (load_dev_key kek kb h).wrap_salt
  unfolding load_dev_key
  dev_key-keeps kek none h p = p
  dev_key-keeps kek (some kb) h p = dev_seed-keeps (unwrap_seed kek kb) h p

  dev_secret-keeps :
      (kb : Option KeyBlob) (r : Result HalError Bytes) (h : Hsm E M F R)
      → DevLoaded h.state h.config h.wrap_salt
      → DevLoaded
          (load_dev_secret kb r h).state
          (load_dev_secret kb r h).config
          (load_dev_secret kb r h).wrap_salt
  unfolding load_dev_secret
  dev_secret-keeps kb (ok secret) h p = dev_key-keeps (derive_dev_kek secret) kb h p
  dev_secret-keeps kb (err e) h p = p

  dev_loaded-IsSafe : (h : Hsm E M F R) → DevLoaded h.state h.config h.wrap_salt → IsSafe (live h)
  unfolding IsSafe live Consistent
  dev_loaded-IsSafe h p =
      subst (λ t. Consistent t h.config h.ca h.wrap_kek h.wrap_salt) (sym p.0) (p.1, p.2)

  lockout_check-IsSafe :
      (b : Bool) (h : Hsm E M F R)
      → is_prod_config h.config ≡ true
      → Sealed h.ca h.wrap_kek h.wrap_salt
      → IsSafe (live (lockout_check b h))
  unfolding lockout_check enter_locked_out drop_live_secrets IsSafe Consistent live
  lockout_check-IsSafe true h p q = (p, (refl, refl, refl))
  lockout_check-IsSafe false h p q = (p, q)

  load_mode-IsSafe :
      (m : Mode) (c : DeviceConfig) (kb : Option KeyBlob) (h : Hsm E M F R)
      → c.mode ≡ m
      → h.config ≡ some c
      → h.wrap_salt ≡ none
      → IsSafe (live (load_mode m c kb h))
  unfolding load_mode load_dev load_prod drop_live_secrets is_dev_config
  load_mode-IsSafe dev c kb h e p q =
      dev_loaded-IsSafe (load_mode dev c kb h)
        (dev_secret-keeps kb (fs.device_secret h.flash) _ (refl, rw (p, e, is_dev_config), q))
  load_mode-IsSafe prod c kb h e p q =
      lockout_check-IsSafe (is_some kb && leb c.max_retries (ok_or_else (count h.flash).0 0)) _
        (rw (p, e)) (refl, refl, refl)

  load_config-IsSafe :
      (c : Option DeviceConfig) (kb : Option KeyBlob) (h : Hsm E M F R)
      → h.wrap_salt ≡ none
      → IsSafe (live (load_config c kb h))
  unfolding load_config IsSafe Consistent live
  load_config-IsSafe none kb h q = (refl, (refl, refl, q))
  load_config-IsSafe (some c) kb h q = load_mode-IsSafe c.mode c kb _ refl refl q

  -- Whatever flash holds, the session that it gives is safe.
  pub load_from_flash-IsSafe : (h : Hsm E M F R) → IsSafe (live (load_from_flash h))
  unfolding load_from_flash
  load_from_flash-IsSafe h = load_config-IsSafe _ _ _ refl

  prove_in-Runs :
      {s : Live} (message : String) (pin : Option Bytes) (b : Bool)
      → Production s
      → Runs {E = E} {M = M} {F = F} {R = R} s (prove_in message pin b) (λ _ t. t ≡ s) IsSafe
  unfolding prove_in prove_pin
  prove_in-Runs message pin true q = Frames-Runs (Frames-pure tt) (λ _. refl) q.here
  prove_in-Runs message (some pin) false q =
      moved_to (Runs-verify_pin pin q.configured q.here q.shut)
        (λ got. Frames-Runs (Frames-pure tt) (λ _. refl) q.here)
  prove_in-Runs message none false q = Frames-Runs (Frames-refuse _ _) (λ _. refl) q.here

  prove-Runs :
      {s : Live} (message : String) (pin : Option Bytes)
      → Production s
      → Runs {E = E} {M = M} {F = F} {R = R} s (prove message pin) (λ _ t. t ≡ s) IsSafe
  unfolding prove
  prove-Runs {s} message pin q =
      by_recovery (prove message pin) (prove_in message pin) (λ h. refl)
        (prove_in-Runs message pin s.recovery q)

  authorize_in-Runs :
      {s : Live} (message : String) (pin : Option Bytes) (st : DeviceState)
      → s.state ≡ st
      → IsSafe s
      → Runs {E = E} {M = M} {F = F} {R = R} s (authorize_in message pin st) (λ _ t. t ≡ s) IsSafe
  unfolding authorize_in recovered
  authorize_in-Runs {s} message pin prod_locked e p =
      prove-Runs message pin (locked-Production {s = s} e p)
  authorize_in-Runs {s} message pin prod_ready e p =
      prove-Runs message pin (ready-Production {s = s} e p)
  authorize_in-Runs message pin locked_out e p =
      Frames-Runs (Frames-choice recovered (λ h. (_, Frames-require_that _ _ _, refl))) (λ _. refl)
        p
  authorize_in-Runs message pin uninitialized e p = Frames-Runs (Frames-pure tt) (λ _. refl) p
  authorize_in-Runs message pin dev_ready e p = Frames-Runs (Frames-pure tt) (λ _. refl) p

  authorize-Runs :
      {s : Live} (message : String) (pin : Option Bytes)
      → IsSafe s
      → Runs {E = E} {M = M} {F = F} {R = R} s (authorize message pin) (λ _ t. t ≡ s) IsSafe
  unfolding authorize
  authorize-Runs {s} message pin p =
      by_state (authorize message pin) (authorize_in message pin) (λ h. refl)
        (authorize_in-Runs message pin s.state refl p)

  pub reboot-Runs :
      {s : Live} (req : RebootBootloaderReq)
      → IsSafe s
      → Runs {E = E} {M = M} {F = F} {R = R} s (hsm_reboot_bootloader req) (λ _ t. IsSafe t) IsSafe
  unfolding hsm_reboot_bootloader live
  reboot-Runs req p =
      moved>> (authorize-Runs _ req.pin p)
        (settles (λ h. record h { reboot_requested = true }) (λ s. s) _ (λ h. refl) p)

  wiped-Runs :
      {s : Live}
      → Sealed s.ca s.wrap_kek s.wrap_salt
      → Runs {E = E} {M = M} {F = F} {R = R} s
          (modify wiped >> pure reset_response)
          (λ _ t. IsSafe t)
          IsSafe
  unfolding wiped live IsSafe Consistent
  wiped-Runs p =
      settles wiped (λ s. record s { config = none; state = uninitialized }) _ (λ h. refl) (refl, p)

  reload-Runs :
      {s : Live} (code : ErrorCode) (message : String)
      → Runs {E = E} {M = M} {F = F} {R = R} s
          (modify load_from_flash >> refuse {A = HsmResponse} code message)
          (λ _ t. IsSafe t)
          IsSafe
  reload-Runs code message =
      >>=-Runs (modify-post load_from_flash IsSafe load_from_flash-IsSafe)
        (λ _ t p. stays (Frames-refuse code message) p)

  pub factory_reset-Runs :
      {s : Live} (req : FactoryResetReq)
      → IsSafe s
      → Runs {E = E} {M = M} {F = F} {R = R} s (hsm_factory_reset req) (λ _ t. IsSafe t) IsSafe
  unfolding hsm_factory_reset drop_live_secrets live
  factory_reset-Runs req p =
      framed>> (Frames-require_that (beq_bytes req.confirm (codes "ERASE")) _ _)
        (moved>> (authorize-Runs _ req.pin p) (
          moved>>
            (modify-Runs drop_live_secrets
              (λ s. record s { ca = none; wrap_kek = none; wrap_salt = none }) (λ h. refl))
            (quietly Quiet-erase_key_verified (λ key_gone.
              quietly (Quiet-on_flash (erase_both config_pair)) (λ cfg_erased.
                quietly (Quiet-on_flash (erase_both time_floor)) (λ time_erased.
                  quietly (Quiet-on_flash reset) (λ pin_erased.
                    quietly (Quiet-on_flash (read_latest config_pair)) (λ cfg_left.
                      quietly (Quiet-on_flash (read_latest time_floor)) (λ time_left.
                        Runs-if
                          (key_gone
                            && (is_ok cfg_erased
                                && (is_ok time_erased
                                    && (is_ok pin_erased && (gone cfg_left && gone time_left)))))
                          _ _ (wiped-Runs (refl, refl, refl)) (reload-Runs _ _))))))))))
        p
