-- ===== src/Firmware/Usb.antt =====
-- hsm-fw/src/usb.rs: the protocol loop over a USB serial port. The port is `embassy_usb`'s, a
-- parameter; the status light keeps the color that was last written to it.
pub mod Serves
pub mod Safety
use picosignet.Prelude.{
  ℕ, ◌*◌, List, [], ◌∷◌, ◌++◌, Bool, true, false, Option, none, some, Result, ok, err, Exec, pure,
  raise, ◌>>=◌, ◌>>◌, map_err, ◌==◌, if◌then◌else◌, length,
}
use picosignet.Prelude.Bytes.{Bytes, codes}
use picosignet.Hal.{FlashStore, EntropySource, Monotonic}
use picosignet.Crypto.{Crypto, ChaCha}
use picosignet.Storage.Record.{Crc}
use picosignet.GoDuration.Reading.{Float64}
use picosignet.Sshwire.Reader.{Target}
use picosignet.Sshwire.Key.{KeyCrates}
use picosignet.LineIo.{Event, line, too_long, LineAssembler, push}
use picosignet.LineIo
use picosignet.Dispatch.Session.{Hsm}
use picosignet.Dispatch.Sign.{Leave}
use picosignet.Dispatch.Pins.{relock_on_transport_reset}
use picosignet.Dispatch.Lines.{Json, process_line, take_reboot_requested}
use picosignet.Firmware.Led.{Rgb8, busy, color_for}

abbrev pub packet_len : ℕ
packet_len = 64

-- `CdcAcmClass`, whose errors the source does not look into.
pub record CdcAcm (C : Type 0) : Type 0 where
  pub write_packet : Bytes → Exec (Unit {0}) C (Unit {0})

-- Why a session ends: the connection drops, the core panics and the device halts, or it restarts in
-- its boot loader, from which the call into the ROM does not return.
pub data Ended : Type 0 where
  disconnected halted rebooted : Ended

-- A session that reads everything it gets ends when its connection drops.
abbrev pub outcome : {A : Type 0} → Result Ended A → Ended
outcome (ok a) = disconnected
outcome (err x) = x

pub record World (C E M F R : Type 0) : Type 0 where
  pub port : C
  pub hsm : Hsm E M F R
  pub relock_requested : Bool
  pub light : Rgb8

module _ {C : Type 0} ⦃cdc : CdcAcm C⦄ where
  -- The loop of `write_framed` over the bytes that are left, with those in the buffer, and what it
  -- writes after the loop.
  unfoldable pub write_from : Bytes → Bytes → Exec (Unit {0}) C (Unit {0})
  write_from [] [] = pure tt
  write_from (x ∷ xs) [] = cdc.write_packet (x ∷ xs)
  write_from held (b ∷ bs) = elim (length (held ++ b ∷ []) == packet_len) [
    | true ↦ cdc.write_packet (held ++ b ∷ []) >> write_from [] bs
    | false ↦ write_from (held ++ b ∷ []) bs
  ]

  unfoldable pub write_framed : Bytes → Exec (Unit {0}) C (Unit {0})
  write_framed resp = write_from [] (resp ++ 10 ∷ [])

module _ {C E M F R : Type 0} where
  -- `ResetHandler`: a bus reset, and a suspend or a resume.
  unfoldable pub on_reset : World C E M F R → World C E M F R
  on_reset w = record w { relock_requested = true }

  unfoldable pub on_suspended : Bool → World C E M F R → World C E M F R
  on_suspended suspended w = if suspended then record w { relock_requested = true } else w

  -- `led.set_state(hsm.state())`
  unfoldable pub show_state : World C E M F R → World C E M F R
  show_state w = record w { light = color_for w.hsm.state }

  -- What `run` does when a session is over.
  unfoldable pub dropped : World C E M F R → World C E M F R
  dropped w =
      show_state (record w { relock_requested = false; hsm = relock_on_transport_reset w.hsm })

  -- `RELOCK_REQUESTED.swap(false)`, and the relock where it was set; then the light shows white.
  unfoldable pub take_line : World C E M F R → World C E M F R
  take_line w = record w {
    hsm = if w.relock_requested then relock_on_transport_reset w.hsm else w.hsm;
    relock_requested = false;
    light = busy;
  }

module _ {C E M F R : Type 0} ⦃cdc : CdcAcm C⦄ where
  unfoldable pub send_framed : Bytes → Exec Ended (World C E M F R) (Unit {0})
  send_framed resp w = (
    map_err (λ _. disconnected) (write_framed resp w.port).0,
    record w { port = (write_framed resp w.port).1 },
  )

  -- `if hsm.take_reboot_requested()`
  unfoldable pub reboot_if_requested : Exec Ended (World C E M F R) (Unit {0})
  reboot_if_requested w =
      let (requested, h) = take_reboot_requested w.hsm in
      (if requested then err rebooted else ok tt, record w { hsm = h })

  -- What follows the core's answer to a line: the light shows the state and the answer is sent; a core
  -- that panicked answers nothing.
  unfoldable pub finish : Result Leave Bytes → Exec Ended (World C E M F R) (Unit {0})
  finish (ok resp) w = (send_framed resp >> reboot_if_requested) (show_state w)
  finish (err l) w = (err halted, w)

module _ {C E M F R : Type 0} ⦃cdc : CdcAcm C⦄ ⦃src : EntropySource E⦄ ⦃mono : Monotonic M⦄
    ⦃fs : FlashStore F⦄ ⦃crc : Crc⦄ ⦃cr : Crypto⦄ ⦃gen : ChaCha R⦄ ⦃fl : Float64⦄ ⦃t : Target⦄
    ⦃kc : KeyCrates⦄ ⦃js : Json⦄ where
  unfoldable pub answer_line : Bytes → Exec Ended (World C E M F R) (Unit {0})
  answer_line l w =
      let (r, h) = process_line l (take_line w).hsm in finish r (record (take_line w) { hsm = h })

  -- An event of the assembler.
  unfoldable pub answer : Event → Exec Ended (World C E M F R) (Unit {0})
  answer too_long = send_framed (codes "{\"error\":\"request too large (max 16384 bytes)\"}")
  answer (line l) = answer_line l

  unfoldable pub on_push : Option Event → Exec Ended (World C E M F R) (Unit {0})
  on_push none = pure tt
  on_push (some e) = answer e

  -- The bytes of a packet, and what the assembler holds after them.
  unfoldable pub serve_bytes : Bytes → LineAssembler → Exec Ended (World C E M F R) LineAssembler
  serve_bytes [] s = pure s
  serve_bytes (b ∷ bs) s = on_push (push b s).0 >> serve_bytes bs (push b s).1

  -- The packets that a session reads, until reading fails.
  unfoldable pub serve : List Bytes → LineAssembler → Exec Ended (World C E M F R) LineAssembler
  serve [] s = pure s
  serve (p ∷ ps) s = serve_bytes p s >>= serve ps

  -- A session that reads these packets and then loses its connection.
  unfoldable pub session : List Bytes → World C E M F R → Ended × World C E M F R
  session ps w = let (r, w') = serve ps LineIo.new w in (outcome r, w')
