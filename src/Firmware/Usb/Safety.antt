-- ===== src/Firmware/Usb/Safety.antt =====
-- hsm-fw/src/usb.rs: what holds of the session and of its light between any two events.
use picosignet.Prelude.{
  ◌≡◌, ◌≢◌, refl, Bool, true, false, Result, ok, err, Ends, ok-Ends, err-Ends, Triple, Triple-after,
  then_Triple, if◌then◌else◌, map_err,
}
use picosignet.Prelude.Bytes.{Bytes}
use picosignet.Hal.{FlashStore, EntropySource, Monotonic}
use picosignet.Crypto.{Crypto, ChaCha}
use picosignet.Storage.Record.{Crc}
use picosignet.GoDuration.Reading.{Float64}
use picosignet.Sshwire.Reader.{Target}
use picosignet.Sshwire.Key.{KeyCrates}
use picosignet.LineIo.{Event, line, too_long}
use picosignet.Dispatch.Runs.{live}
use picosignet.Dispatch.Safety.{IsSafe}
use picosignet.Dispatch.Commands.{relock-IsSafe}
use picosignet.Dispatch.Pins.{relock_on_transport_reset}
use picosignet.Dispatch.Sign.{Leave}
use picosignet.Dispatch.Lines.{Json, process_line, take_reboot_requested}
use picosignet.Dispatch.LineSafety.{process_line-IsSafe}
use picosignet.Firmware.Led.{color_for}
use picosignet.Firmware.Usb.{
  CdcAcm, Ended, disconnected, halted, rebooted, World, write_framed, on_reset, on_suspended,
  show_state, dropped, take_line, send_framed, reboot_if_requested, finish, answer_line, answer,
}

module _ {C E M F R : Type 0} where
  -- The session is safe, and the light shows its state.
  pub record IsTrue (w : World C E M F R) : Type 0 where
    pub safe : IsSafe (live w.hsm)
    pub lit : w.light ≡ color_for w.hsm.state

  pub shown : (w : World C E M F R) → IsSafe (live w.hsm) → IsTrue (show_state w)
  unfolding show_state
  shown w p = record { safe = p; lit = refl }

module _ {C E M F R : Type 0} ⦃cdc : CdcAcm C⦄ where
  sent-Ends :
      {P : World C E M F R → Type 0} (r : Result (Unit {0}) (Unit {0})) (w : World C E M F R)
      → P w
      → Ends {E = Ended} (λ _. P) P (map_err (λ _. disconnected) r) w
  sent-Ends (ok u) w p = ok-Ends u p
  sent-Ends (err u) w p = err-Ends disconnected p

  asked-Ends :
      {P : World C E M F R → Type 0} (b : Bool) (w : World C E M F R)
      → P w
      → Ends {A = Unit {0}} (λ _. P) P (if b then err rebooted else ok tt) w
  asked-Ends true w p = err-Ends rebooted p
  asked-Ends false w p = ok-Ends tt p

  send_framed-Triple :
      (resp : Bytes)
      → Triple {E = Ended} {S = World C E M F R} IsTrue (λ _. IsTrue) IsTrue (send_framed resp)
  unfolding send_framed
  send_framed-Triple resp = record {
    run = λ w v. sent-Ends (write_framed resp w.port).0 _ (record { safe = v.safe; lit = v.lit });
  }

  reboot-Triple :
      Triple {E = Ended} {S = World C E M F R} IsTrue (λ _. IsTrue) IsTrue reboot_if_requested
  unfolding reboot_if_requested take_reboot_requested live
  reboot-Triple = record {
    run = λ w v. asked-Ends w.hsm.reboot_requested _ (record { safe = v.safe; lit = v.lit });
  }

  finish-IsTrue :
      (r : Result Leave Bytes) (w : World C E M F R)
      → IsSafe (live w.hsm)
      → (finish r w).0 ≢ err halted
      → IsTrue (finish r w).1
  unfolding finish
  finish-IsTrue (ok resp) w p alive =
      Triple-after (then_Triple (send_framed-Triple resp) (λ _. reboot-Triple)) (show_state w)
        (shown w p)
  finish-IsTrue (err l) w p alive = absurd (alive refl)

  taken-IsSafe : (w : World C E M F R) → IsSafe (live w.hsm) → IsSafe (live (take_line w).hsm)
  unfolding take_line
  taken-IsSafe w p = relocked w.relock_requested
    where
      relocked : (b : Bool) → IsSafe (live (if b then relock_on_transport_reset w.hsm else w.hsm))
      relocked true = relock-IsSafe w.hsm p
      relocked false = p

module _ {C E M F R : Type 0} ⦃cdc : CdcAcm C⦄ ⦃src : EntropySource E⦄ ⦃mono : Monotonic M⦄
    ⦃fs : FlashStore F⦄ ⦃crc : Crc⦄ ⦃cr : Crypto⦄ ⦃gen : ChaCha R⦄ ⦃fl : Float64⦄ ⦃t : Target⦄
    ⦃kc : KeyCrates⦄ ⦃js : Json⦄ where
  answer-IsTrue :
      (e : Event) (w : World C E M F R)
      → IsTrue w
      → (answer e w).0 ≢ err halted
      → IsTrue (answer e w).1
  unfolding answer answer_line
  answer-IsTrue (line l) w v alive =
      finish-IsTrue (process_line l (take_line w).hsm).0 _
        (process_line-IsSafe l (take_line w).hsm (taken-IsSafe w v.safe)) alive
  answer-IsTrue too_long w v alive = Triple-after (send_framed-Triple _) w v

  -- The worlds that the firmware comes to from a start: events of the line assembler, bus resets,
  -- suspends and resumes at any moment between them, connections that drop, and time going by.
  pub data Reaches (start : World C E M F R) : World C E M F R → Type 0 where
    started : Reaches start start
    answered :
        {w : World C E M F R}
        → Reaches start w
        → (e : Event) → (answer e w).0 ≢ err halted
        → Reaches start (answer e w).1
    was_reset : {w : World C E M F R} → Reaches start w → Reaches start (on_reset w)
    was_suspended :
        {w : World C E M F R} → Reaches start w → (b : Bool) → Reaches start (on_suspended b w)
    lost : {w : World C E M F R} → Reaches start w → Reaches start (dropped w)
    waited :
        {w : World C E M F R}
        → Reaches start w
        → (m : M) → Reaches start (record w { hsm = record w.hsm { mono = m } })

  suspended-IsTrue : (b : Bool) (w : World C E M F R) → IsTrue w → IsTrue (on_suspended b w)
  unfolding on_suspended
  suspended-IsTrue true w v = record { safe = v.safe; lit = v.lit }
  suspended-IsTrue false w v = v

  pub Reaches-IsTrue : {start w : World C E M F R} → IsTrue start → Reaches start w → IsTrue w
  unfolding on_reset dropped live
  Reaches-IsTrue s started = s
  Reaches-IsTrue s (answered {w} r e alive) = answer-IsTrue e w (Reaches-IsTrue s r) alive
  Reaches-IsTrue s (was_reset {w} r) =
      let v = Reaches-IsTrue s r in record { safe = v.safe; lit = v.lit }
  Reaches-IsTrue s (was_suspended {w} r b) = suspended-IsTrue b w (Reaches-IsTrue s r)
  Reaches-IsTrue s (lost {w} r) = shown _ (relock-IsSafe w.hsm (Reaches-IsTrue s r).safe)
  Reaches-IsTrue s (waited r m) =
      let v = Reaches-IsTrue s r in record { safe = v.safe; lit = v.lit }
