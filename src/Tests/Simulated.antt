-- ===== src/Tests/Simulated.antt =====
-- The theorem on the simulator, at a run with a fixed time over two lines.
use picosignet.Prelude.{ℕ, ◌≡◌, refl, List, [], ◌∷◌, ◌++◌, none, some, Result, ok}
use picosignet.Prelude.Bytes.{Bytes, codes}
use picosignet.Hal.Mock.{mock_flash}
use picosignet.Hal.Sources.{mock_entropy, mock_clock, new_entropy, new_clock}
use picosignet.Simulator.Args.{Args}
use picosignet.Simulator.Run.{Stdout, Device, simulate, saved, booted}
use picosignet.Simulator.Answers.{
  IsOutput, received, as_lines, conversation, handed_on, simulate-session,
}
use picosignet.Tests.Flash.{new-IsImage}
use picosignet.Hal.Snapshot.{snapshot}
use picosignet.Hal.Mock
use picosignet.Prelude.Int.{pos}
use picosignet.Dispatch.Sign.{Leave}
use picosignet.Dispatch.Boot.{boot}
use picosignet.Tests.Devices.{no_crc, stream, plain}
use picosignet.Tests.Signing.{floats, word32, crates}
use picosignet.Tests.Certificates.{no_json}

-- An output that keeps what was written.
instance abbrev kept : Stdout Bytes
kept = record { write_all = λ b out. (ok tt, out ++ b); flush = λ out. (ok tt, out) }

abbrev arguments : Args
arguments = record {
  seed = 0x2a;
  fixed_time = some (pos 1750000000);
  state_file = some (codes "state");
}

abbrev typed : List (Result (Unit {0}) Bytes)
typed = ok (codes " ") ∷ ok (codes "{}") ∷ []

-- The device that the run before left, on a new flash.
abbrev before : Device ℕ
before = record (booted arguments none) { flash = Mock.new }

saved_before : saved arguments before ≡ some (snapshot Mock.new)
unfolding saved
saved_before = refl

abbrev kept_takes : IsOutput kept
kept_takes = record { text = λ w. w; taken = λ b w. (refl, refl); flushed = λ w. (refl, refl) }

abbrev ran : Result Leave (Device ℕ) × Bytes
ran = simulate arguments (some (snapshot Mock.new)) typed []

abbrev spoken : Result Leave (Device ℕ) × List Bytes
spoken =
    conversation arguments.fixed_time (received typed)
      (boot (new_entropy arguments.seed) new_clock (handed_on Mock.new))

simulate-session_example : (ran.0 ≡ spoken.0) × (ran.1 ≡ [] ++ as_lines spoken.1)
simulate-session_example =
    simulate-session kept_takes arguments arguments before (snapshot Mock.new) typed [] new-IsImage
      saved_before
