-- ===== src/Firmware/Running.antt =====
-- hsm-fw/src/usb.rs: the firmware from its start on.
use picosignet.Hal.{EntropySource, Monotonic}
use picosignet.Crypto.{Crypto, ChaCha}
use picosignet.Storage.Record.{Crc}
use picosignet.GoDuration.Reading.{Float64}
use picosignet.Sshwire.Reader.{Target}
use picosignet.Sshwire.Key.{KeyCrates}
use picosignet.Dispatch.Runs.{live}
use picosignet.Dispatch.Safety.{IsSafe}
use picosignet.Dispatch.Commands.{Reaches-IsSafe}
use picosignet.Dispatch.Commands
use picosignet.Dispatch.Lines.{
  Json, set_physical_recovery_authorized, set_security_flags, mix_entropy,
}
use picosignet.Firmware.Otp.{Otp}
use picosignet.Firmware.FlashHal.{Chip, EmbassyFlash, embassy_flash}
use picosignet.Firmware.Usb.{CdcAcm, World}
use picosignet.Firmware.Usb.Safety.{IsTrue, shown, Reaches, Reaches-IsTrue}
use picosignet.Firmware.Start.{Security, Parts, start_hsm, start}

module _ {C E M D O S : Type 0} (R : Type 0) ⦃sec : Security S⦄ ⦃otp : Otp O⦄ ⦃ch : Chip D⦄
    ⦃src : EntropySource E⦄ ⦃mono : Monotonic M⦄ ⦃crc : Crc⦄ ⦃cr : Crypto⦄ ⦃gen : ChaCha R⦄ where
  start_hsm-IsSafe : (p : Parts C E M D O S) → IsSafe (live (start_hsm R p))
  unfolding start_hsm live mix_entropy set_security_flags set_physical_recovery_authorized IsSafe
  start_hsm-IsSafe p = Reaches-IsSafe (Commands.booted _ _ _)

  start-IsTrue : (p : Parts C E M D O S) → IsTrue (start R p)
  unfolding start
  start-IsTrue p = shown _ (start_hsm-IsSafe p)

module _ {C E M D O S : Type 0} (R : Type 0) ⦃cdc : CdcAcm C⦄ ⦃sec : Security S⦄ ⦃otp : Otp O⦄
    ⦃ch : Chip D⦄ ⦃src : EntropySource E⦄ ⦃mono : Monotonic M⦄ ⦃crc : Crc⦄ ⦃cr : Crypto⦄
    ⦃gen : ChaCha R⦄ ⦃fl : Float64⦄ ⦃t : Target⦄ ⦃kc : KeyCrates⦄ ⦃js : Json⦄ where
  -- Whatever the drivers and the host do: from its start on, as long as the core has not panicked, the
  -- firmware's session is safe between any two events and the light shows its state.
  pub running-IsTrue :
      (p : Parts C E M D O S) {w : World C E M (EmbassyFlash D) R}
      → Reaches (start R p) w
      → IsTrue w
  running-IsTrue p r = Reaches-IsTrue (start-IsTrue R p) r
