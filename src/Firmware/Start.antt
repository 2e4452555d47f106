-- ===== src/Firmware/Start.antt =====
-- hsm-fw/src/usb.rs, the start of `run`, with hsm-fw/src/security.rs: from the pins, the registers and
-- the one-time-programmable memory to a session with its light.
use Prim.Native.Nat.{bit_and}
use picosignet.Prelude.{ℕ, ◌-◌, Bool, false, not, Option, ok, err, ◌==◌}
use picosignet.Prelude.Bytes.{Bytes}
use picosignet.Hal.{EntropySource, Monotonic}
use picosignet.Crypto.{Crypto, ChaCha}
use picosignet.Storage.Record.{Crc}
use picosignet.Dispatch.Session.{Hsm}
use picosignet.Dispatch.Boot.{boot}
use picosignet.Dispatch.Lines.{set_physical_recovery_authorized, set_security_flags, mix_entropy}
use picosignet.Firmware.Otp.{Otp, slot_pages, load_or_provision, lock_slots}
use picosignet.Firmware.FlashHal.{Chip, EmbassyFlash, embassy_flash}
use picosignet.Firmware.FlashHal
use picosignet.Firmware.Led.{color_for}
use picosignet.Firmware.Usb.{World, show_state}

-- The glitch detectors' registers and the cause of the last reset.
pub record Security (S : Type 0) : Type 0 where
  pub set_sensitivity : ℕ → ℕ → S → S
  pub arm : S → S
  pub armed : S → Bool
  pub lock : S → S
  pub had_glitch_detect : S → Bool

abbrev pub sensitivity : ℕ
sensitivity = 2

-- Each detector takes its sensitivity with its inverse beside it.
unfoldable pub arm_glitch_detectors : {S : Type 0} ⦃sec : Security S⦄ → S → Bool × S
arm_glitch_detectors ⦃sec⦄ s =
    let s' = sec.arm (sec.set_sensitivity sensitivity (bit_and (255 - sensitivity) 3) s) in
    (sec.armed s', sec.lock s')

-- `CRIT1.SECURE_BOOT_ENABLE`; a read that fails counts as off.
unfoldable pub secure_boot_enabled : {O : Type 0} ⦃otp : Otp O⦄ → O → Bool × O
secure_boot_enabled ⦃otp⦄ o =
    let (r, o') = otp.read_raw_word 0x40 o in
    (elim r [ ok w ↦ not (bit_and w 1 == 0) | err e ↦ false ], o')

-- What `run` starts from: the level of GPIO15, the registers, the one-time-programmable memory with the
-- chip's identifier, the flash, the serial port, the entropy source, the timer and the noise of the
-- memory at power-on.
pub record Parts (C E M D O S : Type 0) : Type 0 where
  pub recovery_low : Bool
  pub security : S
  pub otp_memory : O
  pub chip_id : Option ℕ
  pub chip : D
  pub port : C
  pub trng : E
  pub timer : M
  pub noise : Bytes

module _ {C E M D O S : Type 0} (R : Type 0) ⦃sec : Security S⦄ ⦃otp : Otp O⦄ ⦃ch : Chip D⦄
    ⦃src : EntropySource E⦄ ⦃mono : Monotonic M⦄ ⦃crc : Crc⦄ ⦃cr : Crypto⦄ ⦃gen : ChaCha R⦄ where
  -- The session as `run` sets it up.
  unfoldable pub start_hsm : Parts C E M D O S → Hsm E M (EmbassyFlash D) R
  start_hsm p =
      let (glitch_armed, s) = arm_glitch_detectors p.security in
      let (device_secret, (o, e)) = load_or_provision R (p.otp_memory, p.trng) in
      let h = boot e p.timer (FlashHal.new p.chip p.chip_id device_secret) in
      let (secure_boot, o') = secure_boot_enabled (lock_slots slot_pages o) in
      mix_entropy p.noise (
        set_security_flags glitch_armed secure_boot (sec.had_glitch_detect s)
          (set_physical_recovery_authorized p.recovery_low h))

  unfoldable pub start : Parts C E M D O S → World C E M (EmbassyFlash D) R
  start p = show_state (record {
    port = p.port;
    hsm = start_hsm p;
    relock_requested = false;
    light = color_for (start_hsm p).state;
  })
