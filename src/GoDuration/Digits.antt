-- ===== src/GoDuration/Digits.antt =====
-- hsm-core/src/goduration.rs: `leading_int` reads what `fmt_int` writes.
use picosignet.Prelude.{ℕ, zero, suc, ◌+◌, ◌-◌, ◌*◌, ◌/◌, ◌%◌, ◌^◌, ◌≡◌, ◌≤◌, ◌<◌, arith, ◌∷◌}
use picosignet.Prelude.Bytes.{Bytes}
use picosignet.GoDuration.{write_digits, fmt_int, two_63}
use picosignet.GoDuration.Reading.{leading_int}

leading_step :
    (v : ℕ) (buf : Bytes)
    → v ≤ two_63
    → leading_int (v / 10) ((48 + v % 10) ∷ buf) ≡ leading_int v buf
unfolding leading_int
leading_step v buf h = let e : v / 10 * 10 + (48 + v % 10 - 48) ≡ v = omega arith in ground arith

leading_int-write_digits :
    (f v : ℕ) (buf : Bytes)
    → v < 10 ^ f
    → v ≤ two_63
    → leading_int 0 (write_digits f v buf) ≡ leading_int v buf
unfolding write_digits
leading_int-write_digits zero v buf h m = let e : v ≡ 0 = omega arith in rw e
leading_int-write_digits (suc f) v buf h m =
    ground (arith, leading_step v buf m, leading_int-write_digits f (v / 10) ((48 + v % 10) ∷ buf))

-- The digits that are written are read back, up to the largest value that is read.
pub leading_int-fmt_int :
    (v : ℕ) (buf : Bytes) → v ≤ two_63 → leading_int 0 (fmt_int buf v) ≡ leading_int v buf
unfolding fmt_int leading_int
leading_int-fmt_int v buf m = ground (arith, leading_int-write_digits 20 v buf)
