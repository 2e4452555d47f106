-- ===== src/Hal/Sources.antt =====
-- hsm-core/src/testhal.rs: the entropy source and the clock that the simulator and the tests run on.
use Prim.Native.Nat.{bit_or, bit_xor}
use picosignet.Prelude.{ℕ, zero, suc, ◌+◌, ◌*◌, ◌/◌, ◌%◌, ◌^◌, ◌≡◌, refl, ap, [], ◌∷◌, ok, length}
use picosignet.Prelude.Bytes.{Bytes}
use picosignet.Hal.{EntropySource, Monotonic}

pub record MockEntropy : Type 0 where
  pub state : ℕ

unfoldable pub new_entropy : ℕ → MockEntropy
new_entropy seed = record { state = bit_or seed 1 }

-- The three shifts of xorshift64*, on 64 bits.
unfoldable pub scramble : ℕ → ℕ
scramble x =
    let y = bit_xor x (x / 2 ^ 12) in
    let z = bit_xor y (y * 2 ^ 25 % 2 ^ 64) in bit_xor z (z / 2 ^ 27)

unfoldable pub next_byte : MockEntropy → ℕ × MockEntropy
next_byte e =
    let x = scramble e.state in (x * 0x2545f4914f6cdd1d % 2 ^ 64 / 2 ^ 56, record { state = x })

-- The loop of `fill_raw`.
unfoldable pub next_bytes : ℕ → MockEntropy → Bytes × MockEntropy
next_bytes zero e = ([], e)
next_bytes (suc n) e = let (b, e1) = next_byte e in let (bs, e2) = next_bytes n e1 in (b ∷ bs, e2)

instance abbrev pub mock_entropy : EntropySource MockEntropy
mock_entropy = record { fill_raw = λ n e. let (bs, e') = next_bytes n e in (ok bs, e') }

-- The buffer is filled.
pub length-next_bytes : (n : ℕ) (e : MockEntropy) → length (next_bytes n e).0 ≡ n
unfolding next_bytes
length-next_bytes zero e = refl
length-next_bytes (suc n) e = ap suc (length-next_bytes n (next_byte e).1)

-- The clock's microseconds, which 64 bits hold for 584,000 years.
pub record MockClock : Type 0 where
  pub micros : ℕ

abbrev pub new_clock : MockClock
new_clock = record { micros = 0 }

unfoldable pub advance_secs : ℕ → MockClock → MockClock
advance_secs secs c = record { micros = c.micros + secs * 1000000 }

instance abbrev pub mock_clock : Monotonic MockClock
mock_clock = record {
  now_micros = λ c. c.micros;
  delay_ms = λ ms c. record { micros = c.micros + ms * 1000 };
}
