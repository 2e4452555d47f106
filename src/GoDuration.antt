-- ===== src/GoDuration.antt =====
-- hsm-core/src/goduration.rs: Go's durations, read and written. The buffer that is filled from its
-- end is the list of what was written so far.
pub mod Reading
pub mod Digits
mod ReadClock
pub mod RoundTrip
pub mod Total
use picosignet.Prelude.{
  ℕ, zero, suc, ◌+◌, ◌-◌, ◌*◌, ◌/◌, ◌%◌, ◌^◌, Bool, true, false, not, ◌&&◌, ◌||◌, Option, none,
  some, List, [], ◌∷◌, ◌++◌, ltb, leb, ◌==◌, if◌then◌else◌, get_or,
}
use picosignet.Prelude.Bytes.{Bytes, codes, beq_bytes}
use picosignet.Prelude.Int.{ℤ, pos, negsuc, unsigned_abs}

abbrev pub nanosecond : ℕ
nanosecond = 1

abbrev pub microsecond : ℕ
microsecond = 1000

abbrev pub millisecond : ℕ
millisecond = 1000000

abbrev pub second : ℕ
second = 1000000000

abbrev pub minute : ℕ
minute = 60 * second

abbrev pub hour : ℕ
hour = 3600 * second

abbrev pub two_63 : ℕ
two_63 = 2 ^ 63

unfoldable pub unit_map : Bytes → Option ℕ
unit_map u =
    if beq_bytes u (codes "ns")
    then some nanosecond
    else if beq_bytes u (codes "us")
    then some microsecond
    else if beq_bytes u (0xc2 ∷ 0xb5 ∷ codes "s")
    then some microsecond
    else if beq_bytes u (0xce ∷ 0xbc ∷ codes "s")
    then some microsecond
    else if beq_bytes u (codes "ms")
    then some millisecond
    else if beq_bytes u (codes "s")
    then some second
    else if beq_bytes u (codes "m")
    then some minute
    else if beq_bytes u (codes "h")
    then some hour
    else none

abbrev pub hex_digit : ℕ → ℕ
hex_digit n = get_or (codes "0123456789abcdef") n 0

unfoldable pub quote_byte : ℕ → Bytes
quote_byte b =
    if b == 0x22 || b == 0x5c
    then 0x5c ∷ b ∷ []
    else if leb 0x20 b && leb b 0x7f
    then b ∷ []
    else 0x5c ∷ 0x78 ∷ hex_digit (b / 16) ∷ hex_digit (b % 16) ∷ []

unfoldable pub quote_bytes : Bytes → Bytes
quote_bytes [] = []
quote_bytes (b ∷ bs) = quote_byte b ++ quote_bytes bs

unfoldable pub quote : Bytes → Bytes
quote s = codes "\"" ++ (quote_bytes s ++ codes "\"")

unfoldable pub err_invalid : Bytes → Bytes
err_invalid orig = codes "time: invalid duration " ++ quote orig

unfoldable pub err_missing_unit : Bytes → Bytes
err_missing_unit orig = codes "time: missing unit in duration " ++ quote orig

unfoldable pub err_unknown_unit : Bytes → Bytes → Bytes
err_unknown_unit u orig =
    codes "time: unknown unit " ++ (quote u ++ (codes " in duration " ++ quote orig))

-- The loop `while v > 0`; twenty rounds write any `u64`.
unfoldable pub write_digits : ℕ → ℕ → Bytes → Bytes
write_digits zero v buf = buf
write_digits (suc f) v buf =
    let more = write_digits f (v / 10) ((48 + v % 10) ∷ buf) in if v == 0 then buf else more

unfoldable pub fmt_int : Bytes → ℕ → Bytes
fmt_int buf v = if v == 0 then 48 ∷ buf else write_digits 20 v buf

-- The loop over the places after the point: whether one was printed, what is written, and what is
-- left of the number.
unfoldable pub write_places : ℕ → Bool → ℕ → Bytes → Bool × Bytes × ℕ
write_places zero print v buf = (print, buf, v)
write_places (suc prec) print v buf =
    let printing = print || not (v % 10 == 0) in
    write_places prec printing (v / 10) (if printing then (48 + v % 10) ∷ buf else buf)

unfoldable pub fmt_frac : Bytes → ℕ → ℕ → Bytes × ℕ
fmt_frac buf v prec =
    let (print, out, left) = write_places prec false v buf in
    ((if print then 46 ∷ out else out), left)

unfoldable pub fmt_part : Bytes → ℕ → ℕ → Bytes
fmt_part unit v prec = let (buf, left) = fmt_frac unit v prec in fmt_int buf left

-- The seconds with their fraction, then the minutes and the hours that there are.
unfoldable pub fmt_hours : ℕ → Bytes → Bytes
fmt_hours h buf = if h == 0 then buf else fmt_int (104 ∷ buf) h

unfoldable pub fmt_minutes : ℕ → Bytes → Bytes
fmt_minutes m buf = if m == 0 then buf else fmt_hours (m / 60) (fmt_int (109 ∷ buf) (m % 60))

unfoldable pub fmt_clock : ℕ → Bytes
fmt_clock u =
    let (buf, secs) = fmt_frac (115 ∷ []) u 9 in fmt_minutes (secs / 60) (fmt_int buf (secs % 60))

unfoldable pub fmt_magnitude : ℕ → Bytes
fmt_magnitude u =
    if ltb u second
    then (if ltb u microsecond
        then fmt_part (codes "ns") u 0
        else if ltb u millisecond
        then fmt_part (0xc2 ∷ 0xb5 ∷ codes "s") u 3
        else fmt_part (codes "ms") u 6)
    else fmt_clock u

unfoldable pub format_duration : ℤ → Bytes
format_duration (pos zero) = codes "0s"
format_duration (pos (suc u)) = fmt_magnitude (suc u)
format_duration (negsuc n) = 45 ∷ fmt_magnitude (suc n)
