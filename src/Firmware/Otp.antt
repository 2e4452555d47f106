-- ===== src/Firmware/Otp.antt =====
-- hsm-fw/src/otp_secret.rs: the device secret in one-time-programmable memory. The driver of the
-- memory is `embassy_rp`'s and the lock registers are the chip's: parameters.
pub mod Rows
pub mod Slots
pub mod Burn
pub mod Guard
pub mod Secret
pub mod Again
use Prim.Native.Nat.{bit_and}
use picosignet.Prelude.{
  ℕ, zero, suc, ◌+◌, ◌*◌, ◌/◌, ◌%◌, List, [], ◌∷◌, Bool, true, false, not, ◌&&◌, ◌||◌, Result, ok,
  err, Exec, pure, raise, ◌>>=◌, ◌>>◌, map_err, ◌==◌, if◌then◌else◌,
}
use picosignet.Prelude.Bytes.{Bytes}
use picosignet.Hal.{HalError, entropy, secret, EntropySource}
use picosignet.Crypto.{Crypto, ChaCha}
use picosignet.Rng.{seed, fill_bytes}
use picosignet.Rng

-- `embassy_rp::otp`, whose errors the source does not look into, and the register `SW_LOCK`.
pub record Otp (O : Type 0) : Type 0 where
  pub read_ecc_word : ℕ → Exec (Unit {0}) O ℕ
  pub write_ecc_word : ℕ → ℕ → Exec (Unit {0}) O (Unit {0})
  pub read_raw_word : ℕ → Exec (Unit {0}) O ℕ
  pub write_raw_word : ℕ → ℕ → Exec (Unit {0}) O (Unit {0})
  pub sw_lock_inaccessible : ℕ → O → O

abbrev pub slot_pages : List ℕ
slot_pages = 61 ∷ 60 ∷ []

abbrev pub rows_per_page : ℕ
rows_per_page = 64

abbrev pub secret_rows : ℕ
secret_rows = 16

abbrev pub marker_valid : ℕ
marker_valid = 0xa5c3

abbrev pub marker_void : ℕ
marker_void = 0xdead

abbrev pub lock1_value : ℕ
lock1_value = 0x003d3d3d

abbrev pub lock1_row : ℕ → ℕ
lock1_row page = 0xf80 + 2 * page + 1

abbrev pub base_row : ℕ → ℕ
base_row page = page * rows_per_page

-- `base + SECRET_ROWS` and the row after it.
abbrev pub marker_row : ℕ → ℕ
marker_row page = base_row page + secret_rows

abbrev pub void_row : ℕ → ℕ
void_row page = base_row page + secret_rows + 1

pub data SlotState : Type 0 where
  valid : Bytes → SlotState
  blank unusable : SlotState

unfoldable pub all_bytes : ℕ → Bytes → Bool
all_bytes v [] = true
all_bytes v (b ∷ bs) = b == v && all_bytes v bs

unfoldable pub degenerate : Bytes → Bool
degenerate s = all_bytes 0 s || all_bytes 0xff s

-- `u16::from_le_bytes([secret[2 * i], secret[2 * i + 1]])`
unfoldable pub word : Bytes → ℕ → ℕ
word (a ∷ b ∷ rest) zero = b * 256 + a
word (a ∷ b ∷ rest) (suc i) = word rest i
word _ i = 0

-- `.map_err(|_| HalError::Secret)`
abbrev pub or_secret : {O A : Type 0} → Exec (Unit {0}) O A → Exec HalError O A
or_secret m o = (map_err (λ _. secret) (m o).0, (m o).1)

-- What a slot is when a read of it failed.
abbrev pub or_unusable : Result (Unit {0}) SlotState → SlotState
or_unusable (ok st) = st
or_unusable (err u) = unusable

-- `v & LOCK1_VALUE == LOCK1_VALUE`
unfoldable pub has_lock : ℕ → Bool
has_lock v = bit_and v lock1_value == lock1_value

module _ {O : Type 0} ⦃otp : Otp O⦄ where
  unfoldable pub write_verified : ℕ → ℕ → Exec HalError O (Unit {0})
  write_verified row value = do
    or_secret (otp.write_ecc_word row value)
    v ← or_secret (otp.read_ecc_word row)
    if v == value then pure tt else raise secret

  unfoldable pub ensure_hard_lock : ℕ → Exec HalError O (Unit {0})
  ensure_hard_lock page = do
    cur ← or_secret (otp.read_raw_word (lock1_row page))
    if has_lock cur then pure tt else do
      or_secret (otp.write_raw_word (lock1_row page) lock1_value)
      v ← or_secret (otp.read_raw_word (lock1_row page))
      if has_lock v then pure tt else raise secret

  unfoldable pub void_slot : ℕ → O → O
  void_slot page o = (otp.write_ecc_word (void_row page) marker_void o).1

  -- A slot that is given up: voided, and not usable.
  unfoldable pub abandon : ℕ → Exec (Unit {0}) O SlotState
  abandon page o = (ok unusable, void_slot page o)

  -- The bytes of `n` rows.
  unfoldable pub read_rows : ℕ → ℕ → Exec (Unit {0}) O Bytes
  read_rows zero row = pure []
  read_rows (suc n) row = do
    w ← otp.read_ecc_word row
    rest ← read_rows n (row + 1)
    pure ((w % 256) ∷ (w / 256 % 256) ∷ rest)

  -- A secret that was read, by whether its page could be locked.
  unfoldable pub locked_up : ℕ → Bytes → Result HalError (Unit {0}) → Exec (Unit {0}) O SlotState
  locked_up page s (ok u) = pure (valid s)
  locked_up page s (err e) = abandon page

  unfoldable pub confirm : ℕ → Bytes → Exec (Unit {0}) O SlotState
  confirm page s o =
      if degenerate s
      then abandon page o
      else locked_up page s (ensure_hard_lock page o).0 (ensure_hard_lock page o).1

  -- A row of a slot that should be blank, and the rest of the loop over the rows.
  unfoldable pub blank_row :
      ℕ → Result (Unit {0}) ℕ → Exec (Unit {0}) O SlotState → Exec (Unit {0}) O SlotState
  blank_row page (ok v) rest = if v == 0 then rest else abandon page
  blank_row page (err e) rest = abandon page

  unfoldable pub check_blank : ℕ → ℕ → ℕ → Exec (Unit {0}) O SlotState
  check_blank page zero row o = (ok blank, o)
  check_blank page (suc n) row o =
      blank_row page (otp.read_ecc_word row o).0 (check_blank page n (row + 1))
        (otp.read_ecc_word row o).1

  -- What the two markers of a slot say of it.
  unfoldable pub judge : ℕ → ℕ → ℕ → Exec (Unit {0}) O SlotState
  judge page marker void =
      if not (void == 0)
      then pure unusable
      else if marker == marker_valid
      then (read_rows secret_rows (base_row page) >>= confirm page)
      else if not (marker == 0)
      then abandon page
      else check_blank page secret_rows (base_row page)

  -- `try_load`, where a read that fails ends in an error.
  unfoldable pub look : ℕ → Exec (Unit {0}) O SlotState
  look page = do
    marker ← otp.read_ecc_word (marker_row page)
    void ← otp.read_ecc_word (void_row page)
    judge page marker void

  unfoldable pub try_load : ℕ → O → SlotState × O
  try_load page o = (or_unusable (look page o).0, (look page o).1)

  -- The rows of a secret from its word `i` on, `n` of them.
  unfoldable pub write_rows : ℕ → Bytes → ℕ → ℕ → Exec HalError O (Unit {0})
  write_rows page s zero i = pure tt
  write_rows page s (suc n) i = do
    write_verified (base_row page + i) (word s i)
    write_rows page s n (i + 1)

  unfoldable pub burn_rows : ℕ → Bytes → Exec HalError O Bytes
  burn_rows page s = do
    write_rows page s secret_rows 0
    write_verified (marker_row page) marker_valid
    ensure_hard_lock page
    pure s

  -- Each failure voids the slot.
  unfoldable pub burnt : ℕ → Result HalError Bytes → Exec HalError O Bytes
  burnt page (ok s) o = (ok s, o)
  burnt page (err e) o = (err secret, void_slot page o)

  unfoldable pub burn : ℕ → Bytes → Exec HalError O Bytes
  burn page s o = burnt page (burn_rows page s o).0 (burn_rows page s o).1

  -- The other pages' locks, whose failures are ignored.
  unfoldable pub lock_others : ℕ → List ℕ → O → O
  lock_others page [] o = o
  lock_others page (p ∷ ps) o =
      lock_others page ps (if p == page then o else (ensure_hard_lock p o).1)

  unfoldable pub lock_slots : List ℕ → O → O
  lock_slots [] o = o
  lock_slots (p ∷ ps) o = lock_slots ps (otp.sw_lock_inaccessible p o)

-- A secret that was drawn, if the generator could be seeded.
unfoldable pub drawn : Result HalError (Unit {0}) → Bytes → Result HalError Bytes
drawn (ok u) s = if degenerate s then err entropy else ok s
drawn (err x) s = err x

module _ {E : Type 0} (R : Type 0) ⦃src : EntropySource E⦄ ⦃cr : Crypto⦄ ⦃gen : ChaCha R⦄ where
  -- The random part of `provision`.
  unfoldable pub generate : Exec HalError E Bytes
  generate e = let (r, (d, e')) = seed (Rng.new {R = R}, e) in (drawn r (fill_bytes 32 d).0, e')

-- A secret that is returned, with the other pages locked.
unfoldable pub returned : {O E : Type 0} ⦃otp : Otp O⦄ → ℕ → Bytes → Exec HalError (O × E) Bytes
returned page s (o, e) = (ok s, (lock_others page slot_pages o, e))

module _ {O E : Type 0} (R : Type 0) ⦃otp : Otp O⦄ ⦃src : EntropySource E⦄ ⦃cr : Crypto⦄
    ⦃gen : ChaCha R⦄ where
  -- `provision` once its secret was drawn.
  unfoldable pub burn_drawn : ℕ → Result HalError Bytes → Exec HalError (O × E) Bytes
  burn_drawn page (err x) (o, e) = (err x, (o, e))
  burn_drawn page (ok s) (o, e) = ((burn page s o).0, ((burn page s o).1, e))

  unfoldable pub provision : ℕ → Exec HalError (O × E) Bytes
  provision page (o, e) = burn_drawn page (generate R e).0 (o, (generate R e).1)

  -- After `provision`: a failure of the entropy source ends the loop, any other goes on with it.
  unfoldable pub provisioned :
      ℕ → Result HalError Bytes → Exec HalError (O × E) Bytes → Exec HalError (O × E) Bytes
  provisioned page (ok s) rest = returned page s
  provisioned page (err entropy) rest = raise entropy
  provisioned page (err _) rest = rest

  -- What the loop does with a slot.
  unfoldable pub choose : ℕ → SlotState → Exec HalError (O × E) Bytes → Exec HalError (O × E) Bytes
  choose page (valid s) rest x = returned page s x
  choose page unusable rest x = rest x
  choose page blank rest x = provisioned page (provision page x).0 rest (provision page x).1

  -- The loop of `load_or_provision` over the pages that are left.
  unfoldable pub load_slots : List ℕ → Exec HalError (O × E) Bytes
  load_slots [] x = raise secret x
  load_slots (page ∷ rest) (o, e) =
      choose page (try_load page o).0 (load_slots rest) ((try_load page o).1, e)

  unfoldable pub load_or_provision : Exec HalError (O × E) Bytes
  load_or_provision = load_slots slot_pages
