-- ===== src/Simulator/Run.antt =====
-- hsm-sim/src/main.rs: `main`. Standard output is a parameter; standard input is the lines that reading
-- it gives, each valid UTF-8 or an error.
use picosignet.Prelude.{
  ◌+◌, Bool, true, false, List, [], ◌∷◌, ◌++◌, Option, none, some, Result, ok, err, Exec, pure,
  ◌>>◌,
}
use picosignet.Prelude.Bytes.{Bytes, codes}
use picosignet.Prelude.Int.{ℤ, pos, negsuc}
use picosignet.Hal.Mock
use picosignet.Hal.Mock.{MockFlash, mock_flash}
use picosignet.Hal.Snapshot.{snapshot, restore}
use picosignet.Hal.Sources.{
  MockEntropy, MockClock, mock_entropy, mock_clock, new_entropy, new_clock,
}
use picosignet.Crypto.{Crypto, ChaCha}
use picosignet.Storage.Record.{Crc}
use picosignet.Text.{trim, is_nil}
use picosignet.GoDuration.{fmt_int}
use picosignet.GoDuration.Reading.{Float64}
use picosignet.Sshwire.Reader.{Target}
use picosignet.Sshwire.Key.{KeyCrates}
use picosignet.Dispatch.Session.{Hsm}
use picosignet.Dispatch.Sign.{Leave}
use picosignet.Dispatch.Boot.{boot}
use picosignet.Dispatch.Lines.{Json, process_line}
use picosignet.Simulator.Args.{Args}

-- `StdoutLock`, whose errors the source does not look into.
pub record Stdout (W : Type 0) : Type 0 where
  pub write_all : Bytes → Exec (Unit {0}) W (Unit {0})
  pub flush : Exec (Unit {0}) W (Unit {0})

abbrev pub Device : Type 0 → Type 0
Device R = Hsm MockEntropy MockClock MockFlash R

-- `format!("{t}")`
unfoldable pub show_i64 : ℤ → Bytes
show_i64 (pos n) = fmt_int [] n
show_i64 (negsuc n) = 45 ∷ fmt_int [] (n + 1)

unfoldable pub set_time_line : ℤ → Bytes
set_time_line t = codes "{\"hsm\":{\"setTime\":{\"unixSeconds\":" ++ (show_i64 t ++ codes "}}}")

unfoldable pub put : {W : Type 0} ⦃io : Stdout W⦄ → Bytes → Exec (Unit {0}) W (Unit {0})
put ⦃io⦄ resp = do io.write_all resp; io.write_all (10 ∷ []); io.flush

-- The flash that a run starts from, given what the state file held, if it was there and could be read.
unfoldable pub loaded : Option Bytes → MockFlash
loaded none = Mock.new
loaded (some image) = (restore image Mock.new).1

module _ {R W : Type 0} where
  -- Once an answer was written: the loop goes on unless that failed.
  unfoldable pub written :
      Result (Unit {0}) (Unit {0})
      → Exec Leave (Device R × W) (Unit {0})
      → Exec Leave (Device R × W) (Unit {0})
  written (ok u) rest x = rest x
  written (err u) rest x = pure tt x

  -- What follows the core's answer; a core that panicked ends the process.
  unfoldable pub printed :
      ⦃io : Stdout W⦄
      → Result Leave Bytes
      → Exec Leave (Device R × W) (Unit {0})
      → Exec Leave (Device R × W) (Unit {0})
  printed (err l) rest x = (err l, x)
  printed (ok resp) rest (h, out) = written (put resp out).0 rest (h, (put resp out).1)

abbrev pub ended : {D : Type 0} → Result Leave (Unit {0}) → D → Result Leave D
ended (ok u) h = ok h
ended (err l) h = err l

abbrev pub ignored : Result Leave Bytes → Result Leave (Unit {0})
ignored (ok resp) = ok tt
ignored (err l) = err l

module _ {R : Type 0} ⦃crc : Crc⦄ ⦃cr : Crypto⦄ ⦃gen : ChaCha R⦄ ⦃fl : Float64⦄ ⦃t : Target⦄
    ⦃kc : KeyCrates⦄ ⦃js : Json⦄ where
  unfoldable pub booted : Args → Option Bytes → Device R
  booted args file = boot (new_entropy args.seed) new_clock (loaded file)

  -- `--fixed-time`, whose answer is not looked at.
  unfoldable pub fix_time : Option ℤ → Exec Leave (Device R) (Unit {0})
  fix_time none h = pure tt h
  fix_time (some s) h =
      (ignored (process_line (set_time_line s) h).0, (process_line (set_time_line s) h).1)

module _ {R W : Type 0} ⦃io : Stdout W⦄ ⦃crc : Crc⦄ ⦃cr : Crypto⦄ ⦃gen : ChaCha R⦄ ⦃fl : Float64⦄
    ⦃t : Target⦄ ⦃kc : KeyCrates⦄ ⦃js : Json⦄ where
  -- A line, by whether it is blank, and the rest of the loop.
  unfoldable pub respond :
      Bool → Bytes → Exec Leave (Device R × W) (Unit {0}) → Exec Leave (Device R × W) (Unit {0})
  respond true l rest x = rest x
  respond false l rest (h, out) = printed (process_line l h).0 rest ((process_line l h).1, out)

  -- The loop over the lines.
  unfoldable pub pump : List (Result (Unit {0}) Bytes) → Exec Leave (Device R × W) (Unit {0})
  pump [] x = pure tt x
  pump (err e ∷ ls) x = pure tt x
  pump (ok l ∷ ls) x = respond (is_nil (trim l)) l (pump ls) x

  -- The loop once the time was fixed.
  unfoldable pub pumped :
      Result Leave (Unit {0})
      → List (Result (Unit {0}) Bytes)
      → Device R × W
      → Result Leave (Device R) × W
  pumped (err l) ls (h, out) = (err l, out)
  pumped (ok u) ls x = (ended (pump ls x).0 (pump ls x).1.0, (pump ls x).1.1)

  -- From the arguments, the state file's contents and the lines to the device and the output at the
  -- end, and whether the process got there.
  unfoldable pub simulate :
      Args → Option Bytes → List (Result (Unit {0}) Bytes) → Exec Leave W (Device R)
  simulate args file ls out =
      let m = fix_time args.fixed_time (booted args file) in pumped m.0 ls (m.1, out)

-- What is written to the state file when the process gets to its end.
unfoldable pub saved : {R : Type 0} → Args → Device R → Option Bytes
saved args h = elim args.state_file [ none ↦ none | some path ↦ some (snapshot h.flash) ]
