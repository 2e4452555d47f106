-- ===== src/Tests/Firmware.antt =====
-- The theorems on the firmware, at memories that are functions.
use picosignet.Prelude.{
  arith, ℕ, zero, suc, ◌+◌, ◌-◌, ◌%◌, ◌≡◌, refl, ◌≢◌, [], ◌∷◌, inl, inr, Result, ok, if◌then◌else◌,
  ◌==◌, ==_iff, Bool-cases,
}
use picosignet.Prelude.Bytes.{Bytes, mismatches, agree_below}
use picosignet.Hal.{EntropySource}
use picosignet.Rng
use picosignet.Rng.{
  seed, fill_bytes, reinit, gather_healthy, gather, health_check, longest_run, max_run, any_over,
  count_byte, bump,
}
use picosignet.Firmware.Otp.{
  Otp, load_or_provision, load_slots, choose, try_load, look, judge, check_blank, blank_row,
  provision, burn_drawn, generate, drawn, degenerate, all_bytes, burn, burnt, burn_rows, write_rows,
  word, write_verified, ensure_hard_lock, has_lock, provisioned, returned, lock_others,
}
use picosignet.Firmware.Otp.Rows.{OtpLaws}
use picosignet.Firmware.Otp.Slots.{IsSettled}
use picosignet.Firmware.Otp.Guard.{Guarded}
use picosignet.Firmware.Otp.Secret.{
  IsSlot, IsDrawn, load_or_provision-Guarded, load_or_provision-IsSettled,
}
use picosignet.Firmware.Otp.Again.{IsReadable, primary, load_or_provision_again}
use picosignet.Crypto.{ChaCha}
use picosignet.Tests.Devices.{plain}

-- A memory is the value of each row, which both views read.
abbrev pub Memory : Type 0
Memory = ℕ → ℕ

abbrev put_row : ℕ → ℕ → Memory → Memory
put_row row v m s = if s == row then v else m s

instance abbrev pub rows : Otp Memory
rows = record {
  read_ecc_word = λ row m. (ok (m row % 65536), m);
  write_ecc_word = λ row v m. (ok tt, put_row row v m);
  read_raw_word = λ row m. (ok (m row), m);
  write_raw_word = λ row v m. (ok tt, put_row row v m);
  sw_lock_inaccessible = λ page m. m;
}

put_other :
    (row v s : ℕ) (m : Memory)
    → s ≢ row
    → ◌≡◌ {A = ℕ × ℕ} (put_row row v m s % 65536, put_row row v m s) (m s % 65536, m s)
put_other row v s m h = elim (Bool-cases (s == row)) [
  | inl e ↦ absurd (h ((==_iff s row).0 e))
  | inr e ↦ rw e
]

read_ok : {v w : ℕ} → ◌≡◌ {A = Result (Unit {0}) ℕ} (ok w) (ok v) → v ≡ w
read_ok e = cc

abbrev row_laws : OtpLaws rows
row_laws = record {
  cell = λ m s. (m s % 65536, m s);
  ecc_small = λ m row. omega arith;
  read_ecc_keeps = λ row s m. refl;
  read_ecc_cell = λ row m v e. read_ok e;
  read_raw_keeps = λ row s m. refl;
  read_raw_cell = λ row m v e. read_ok e;
  write_ecc_other = λ row v s m h. put_other row v s m h;
  write_raw_other = λ row v s m h. put_other row v s m h;
}

abbrev pub blank_memory : Memory
blank_memory s = 0

abbrev count_up : ℕ → ℕ → Bytes
count_up zero v = []
count_up (suc n) v = (v % 256) ∷ count_up n (v + 1)

-- A source that passes the health check, and a generator that gives bytes that differ.
instance abbrev counting : EntropySource ℕ
counting = record { fill_raw = λ n e. (ok (count_up n e), e + n) }

instance abbrev counter : ChaCha ℕ
counter = record {
  from_seed = λ b. 1;
  fill = λ n r. (count_up n r, r + n);
  next_u64 = λ r. (r, r + 1);
}

abbrev ran : Memory × ℕ
ran = (load_or_provision {E = ℕ} ℕ (blank_memory, 0)).1

first_boot : (load_or_provision {E = ℕ} ℕ (blank_memory, 0)).0 ≡ ok (count_up 32 1)
unfolding load_or_provision load_slots choose try_load look judge check_blank blank_row provision
    burn_drawn generate drawn seed reinit gather_healthy gather health_check longest_run max_run
    any_over count_byte fill_bytes bump degenerate all_bytes burn burnt burn_rows write_rows word
    write_verified ensure_hard_lock has_lock provisioned returned lock_others Rng.new
first_boot = refl

load_or_provision-Guarded_example :
    Guarded row_laws blank_memory
      (IsDrawn ℕ ℕ)
      61
      (load_or_provision {E = ℕ} ℕ (blank_memory, 0)).1.0
load_or_provision-Guarded_example =
    load_or_provision-Guarded ℕ ℕ row_laws blank_memory 0 61 (omega arith)

load_or_provision-IsSettled_example :
    (page : ℕ) × IsSlot page
    × IsSettled row_laws page (count_up 32 1) (load_or_provision {E = ℕ} ℕ (blank_memory, 0)).1.0
load_or_provision-IsSettled_example =
    load_or_provision-IsSettled ℕ ℕ row_laws blank_memory 0 first_boot

-- A memory whose first slot holds that secret.
abbrev settled_memory : Memory
settled_memory r =
    if r == 3920
    then 0xa5c3
    else if r == 3921
    then 0
    else if r == 4091
    then 0x3d3d3d
    else word (count_up 32 1) (r - 3904)

memory-IsSettled : IsSettled row_laws 61 (count_up 32 1) settled_memory
unfolding mismatches word degenerate all_bytes has_lock
memory-IsSettled = record {
  holds = λ i l.
      agree_below (λ j. settled_memory (3904 + j) % 65536) (λ j. word (count_up 32 1) j) 16 i refl
        l;
  marked = refl;
  kept = refl;
  locked = refl;
  sound = refl;
}

readable : IsReadable rows
readable = record { ecc_reads = λ row m. refl; raw_reads = λ row m. refl }

load_or_provision_again_example :
    ((load_or_provision {E = ℕ} ℕ (settled_memory, 5)).0 ≡ ok (count_up 32 1))
    × ((load_or_provision {E = ℕ} ℕ (settled_memory, 5)).1.1 ≡ 5)
load_or_provision_again_example =
    load_or_provision_again row_laws readable ℕ 61 (count_up 32 1) settled_memory 5 refl
      (omega arith) memory-IsSettled (primary refl)
