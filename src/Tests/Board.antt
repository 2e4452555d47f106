-- ===== src/Tests/Board.antt =====
-- The theorems on the firmware's flash, port and session, at a board of functions.
use Prim.Native.Nat.{bit_and}
use picosignet.Prelude.{
  arith, ℕ, ◌+◌, ◌-◌, ◌≡◌, ◌≢◌, refl, List, [], ◌∷◌, ◌++◌, map, Bool, true, false, some, Result, ok,
  err, leb, ltb, if◌then◌else◌, length, get_or, replicate,
}
use picosignet.Prelude.Bytes.{Bytes, codes}
use picosignet.Hal.Mock.{MockFlash, mock_flash}
use picosignet.Hal.Nor.{NorFlash}
use picosignet.LineIo.Framing.{event_of, send}
use picosignet.Firmware.FlashHal.{Chip, embassy_flash}
use picosignet.Firmware.FlashHal.IsNor.{bytes_at, ChipLaws, embassy_flash-NorFlash}
use picosignet.Firmware.Led.{busy}
use picosignet.Firmware.Usb
use picosignet.Firmware.Usb.{
  CdcAcm, session, outcome, halted, answer, send_framed, write_framed, write_from, show_state,
}
use picosignet.LineIo.{too_long}
use picosignet.Firmware.Usb.Serves.{packed, answer_all, session-send}
use picosignet.Firmware.Usb.Safety.{IsTrue, started, answered, was_reset, lost}
use picosignet.Firmware.Usb.{on_reset, dropped}
use picosignet.Firmware.Start.{Security, Parts, start}
use picosignet.Firmware.Running.{running-IsTrue}
use picosignet.Tests.Devices.{timer, zeros, no_crc, stream, plain, fresh}
use picosignet.Tests.Signing.{floats, word32, crates}
use picosignet.Tests.Certificates.{no_json}
use picosignet.Tests.Firmware.{Memory, rows, blank_memory}

-- A chip that never fails: the value of each address.
abbrev within : ℕ → ℕ → ℕ → Bool
within a z s = if leb a s then ltb s z else false

abbrev erased : ℕ → ℕ → Memory → Memory
erased a z m s = if within a z s then 0xff else m s

abbrev after_write : ℕ → Bytes → Memory → Memory
after_write a page m s =
    if within a (a + length page) s then bit_and (m s) (get_or page (s - a) 0) else m s

instance abbrev chip : Chip Memory
chip = record {
  blocking_read = λ a n m. (ok (bytes_at m a n), m);
  blocking_erase = λ a z m. (ok tt, erased a z m);
  blocking_write = λ a page m. (ok tt, after_write a page m);
}

read_ok : {b c : Bytes} → ◌≡◌ {A = Result (Unit {0}) Bytes} (ok c) (ok b) → b ≡ c
read_ok e = cc

chip_laws : ChipLaws chip
chip_laws = record {
  at = λ m. m;
  read_keeps = λ a n s m. refl;
  read_at = λ a n m b e. read_ok e;
  erase_at = λ a z s m e p q. ground arith;
  erase_other = λ a z s m h. ground arith;
  write_at = λ a i page m e l. ground arith;
  write_other = λ a s page m h. ground arith;
}

embassy_flash-NorFlash_example : NorFlash (embassy_flash {D = Memory})
embassy_flash-NorFlash_example = embassy_flash-NorFlash chip_laws

-- A port that keeps what it sent.
instance abbrev port : CdcAcm (List Bytes)
port = record { write_packet = λ p sent. (ok tt, sent ++ p ∷ []) }

abbrev Plugged : Type 0
Plugged = Usb.World (List Bytes) ℕ ℕ MockFlash ℕ

abbrev plugged : Plugged
plugged = record { port = []; hsm = fresh; relock_requested = false; light = busy }

abbrev two_requests : List Bytes
two_requests = codes "{}" ∷ codes "ab" ∷ []

-- The requests in three packets, which end elsewhere than the lines.
abbrev packets : List Bytes
packets = (123 ∷ []) ∷ ((125 ∷ 10 ∷ 97 ∷ []) ∷ ((98 ∷ 10 ∷ []) ∷ []))

same_bytes : packed packets ≡ send two_requests
unfolding packed send
same_bytes = refl

session-send_example : session packets plugged ≡ (
  outcome (answer_all (map event_of two_requests) plugged).0,
  (answer_all (map event_of two_requests) plugged).1,
)
session-send_example =
    session-send two_requests packets plugged
      (
        ((λ e. ground (arith, e)), ((λ e. ground (arith, e)), tt)),
        (((λ e. ground (arith, e)), ((λ e. ground (arith, e)), tt)), tt),
      )
      same_bytes

-- Registers that arm when they are told to.
instance abbrev registers : Security Bool
registers = record {
  set_sensitivity = λ v w s. s;
  arm = λ s. true;
  armed = λ s. s;
  lock = λ s. s;
  had_glitch_detect = λ s. false;
}

abbrev board : Parts (List Bytes) ℕ ℕ Memory Memory Bool
board = record {
  recovery_low = false;
  security = false;
  otp_memory = blank_memory;
  chip_id = some 7;
  chip = λ a. 0xff;
  port = [];
  trng = 0;
  timer = 5000000;
  noise = replicate 256 0;
}

awake : (answer too_long (start {E = ℕ} {M = ℕ} ℕ board)).0 ≢ err halted
unfolding answer send_framed write_framed write_from start show_state
awake e = cc

running-IsTrue_example :
    IsTrue (dropped (on_reset (answer too_long (start {E = ℕ} {M = ℕ} ℕ board)).1))
running-IsTrue_example = running-IsTrue ℕ board (lost (was_reset (answered started too_long awake)))
