-- ===== src/Hal/Mock.antt =====
-- hsm-core/src/testhal.rs: the flash in memory that the simulator and the tests run on.
use picosignet.Prelude.{
  ℕ, ◌+◌, ◌≡◌, ◌≢◌, refl, Option, none, some, Bool, false, arith, Result, ok, err, Exec, ltb,
  Bool-cases, inl, inr, ◌==◌, if◌then◌else◌, length, replicate,
}
use picosignet.Prelude.Bytes.{Bytes, codes}
use picosignet.Hal.{
  HalError, flash, out_of_range, Region, time_a, time_b, config_a, config_b, key_a, key_b,
  pin_counter, FlashStore, sector_len,
}
use picosignet.Hal.Nor.{NorFlash, and_at, erased_sector}

pub record MockFlash : Type 0 where
  pub in_time_a : Bytes
  pub in_time_b : Bytes
  pub in_config_a : Bytes
  pub in_config_b : Bytes
  pub in_key_a : Bytes
  pub in_key_b : Bytes
  pub in_pin_counter : Bytes
  pub id : Bytes
  pub otp_secret : Result HalError Bytes
  pub erase_fault : Bool
  pub read_fault : Option Region

abbrev pub mock_device_secret : Bytes
mock_device_secret = codes "usbhsm-mock-otp-secret-32bytes!!"

unfoldable pub new : MockFlash
new = record {
  in_time_a = erased_sector;
  in_time_b = erased_sector;
  in_config_a = erased_sector;
  in_config_b = erased_sector;
  in_key_a = erased_sector;
  in_key_b = erased_sector;
  in_pin_counter = erased_sector;
  id = replicate 8 0x42;
  otp_secret = ok mock_device_secret;
  erase_fault = false;
  read_fault = none;
}

unfoldable pub region : MockFlash → Region → Bytes
region f time_a = f.in_time_a
region f time_b = f.in_time_b
region f config_a = f.in_config_a
region f config_b = f.in_config_b
region f key_a = f.in_key_a
region f key_b = f.in_key_b
region f pin_counter = f.in_pin_counter

-- What is written through `region_mut`.
unfoldable pub put_region : Region → Bytes → MockFlash → MockFlash
put_region time_a b f = record f { in_time_a = b }
put_region time_b b f = record f { in_time_b = b }
put_region config_a b f = record f { in_config_a = b }
put_region config_b b f = record f { in_config_b = b }
put_region key_a b f = record f { in_key_a = b }
put_region key_b b f = record f { in_key_b = b }
put_region pin_counter b f = record f { in_pin_counter = b }

abbrev region_index : Region → ℕ
region_index time_a = 0
region_index time_b = 1
region_index config_a = 2
region_index config_b = 3
region_index key_a = 4
region_index key_b = 5
region_index pin_counter = 6

-- `self.read_fault == Some(region)`
unfoldable pub faulty : Option Region → Region → Bool
faulty none r = false
faulty (some s) r = region_index s == region_index r

unfoldable pub read : Region → Exec HalError MockFlash Bytes
unfolding region faulty
read r f = if faulty f.read_fault r then (err flash, f) else (ok (region f r), f)

unfoldable pub erase : Region → Exec HalError MockFlash (Unit {0})
unfolding put_region
erase r f = if f.erase_fault then (err flash, f) else (ok tt, put_region r erased_sector f)

unfoldable pub program : Region → ℕ → Bytes → Exec HalError MockFlash (Unit {0})
unfolding put_region region
program r off page f =
    if ltb sector_len (off + length page)
    then (err out_of_range, f)
    else (ok tt, put_region r (and_at off page (region f r)) f)

instance abbrev pub mock_flash : FlashStore MockFlash
mock_flash = record {
  read = read;
  erase = erase;
  program = program;
  unique_id = λ f. f.id;
  device_secret = λ f. f.otp_secret;
}

region-put_region_self : (r : Region) (b : Bytes) (f : MockFlash) → region (put_region r b f) r ≡ b
unfolding region put_region
region-put_region_self time_a b f = refl
region-put_region_self _ b f = refl

pub region-put_region_ne :
    (r s : Region) (b : Bytes) (f : MockFlash) → r ≢ s → region (put_region r b f) s ≡ region f s
unfolding region put_region
region-put_region_ne time_a time_a b f h = absurd (h refl)
region-put_region_ne time_b time_b b f h = absurd (h refl)
region-put_region_ne config_a config_a b f h = absurd (h refl)
region-put_region_ne config_b config_b b f h = absurd (h refl)
region-put_region_ne key_a key_a b f h = absurd (h refl)
region-put_region_ne key_b key_b b f h = absurd (h refl)
region-put_region_ne pin_counter pin_counter b f h = absurd (h refl)
region-put_region_ne _ _ b f h = refl

pub read_keeps : (r s : Region) (f : MockFlash) → region (read r f).1 s ≡ region f s
unfolding read
read_keeps r s f = ground arith

pub read_cell : (r : Region) (f : MockFlash) (b : Bytes) → (read r f).0 ≡ ok b → b ≡ region f r
unfolding read
read_cell r f b e = ground arith

pub erase_cell :
    (r : Region) (f : MockFlash) → (erase r f).0 ≡ ok tt → region (erase r f).1 r ≡ erased_sector
unfolding erase
erase_cell r f e = ground (arith, region-put_region_self r erased_sector f)

pub erase_other : (r s : Region) (f : MockFlash) → r ≢ s → region (erase r f).1 s ≡ region f s
unfolding erase
erase_other r s f h = elim (Bool-cases f.erase_fault) [
  | inl e ↦ simp e
  | inr e ↦ simp e (region-put_region_ne r s erased_sector f h)
]

pub program_cell :
    (r : Region) (off : ℕ) (page : Bytes) (f : MockFlash)
    → (program r off page f).0 ≡ ok tt
    → region (program r off page f).1 r ≡ and_at off page (region f r)
unfolding program
program_cell r off page f e =
    ground (arith, region-put_region_self r (and_at off page (region f r)) f)

pub program_other :
    (r s : Region) (off : ℕ) (page : Bytes) (f : MockFlash)
    → r ≢ s
    → region (program r off page f).1 s ≡ region f s
unfolding program
program_other r s off page f h = elim (Bool-cases (ltb sector_len (off + length page))) [
  | inl e ↦ rw e
  | inr e ↦ rw e (region-put_region_ne r s (and_at off page (region f r)) f h)
]

-- The flash in memory is a NOR flash.
abbrev pub mock_nor : NorFlash mock_flash
mock_nor = record {
  cell = region;
  read_keeps = λ r s f. read_keeps r s f;
  read_cell = λ r f b e. read_cell r f b e;
  erase_cell = λ r f e. erase_cell r f e;
  erase_other = λ r s f h. erase_other r s f h;
  program_cell = λ r off page f e. program_cell r off page f e;
  program_other = λ r s off page f h. program_other r s off page f h;
}
