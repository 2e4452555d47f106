-- ===== src/Firmware/FlashHal/IsNor.antt =====
-- hsm-fw/src/flash_hal.rs: the firmware's flash keeps the laws that the core's theorems take.
use Prim.Native.Nat.{bit_and}
use picosignet.Prelude.{
  ℕ, zero, suc, ◌+◌, ◌*◌, ◌≤◌, ◌<◌, ◌≡◌, ◌≢◌, refl, sym, ap, ◌∙◌, arith, [], ◌∷◌, inl, inr, ◌⊎◌,
  Result, ok, err, map_err, ltb, Bool-cases, false, length, get_or, replicate,
}
use picosignet.Prelude.Bytes.{Bytes}
use picosignet.Hal.{
  flash, Region, time_a, time_b, config_a, config_b, key_a, key_b, pin_counter, sector_len,
}
use picosignet.Hal.Nor.{NorFlash, and_at, and_page, erased_sector}
use picosignet.Firmware.FlashHal.{Chip, EmbassyFlash, base, read, erase, program, embassy_flash}

-- The bytes from an address on.
unfoldable pub bytes_at : (ℕ → ℕ) → ℕ → ℕ → Bytes
bytes_at m a zero = []
bytes_at m a (suc n) = m a ∷ bytes_at m (a + 1) n

-- What the chip's flash does, address by address: an operation may fail at any time, and touches no
-- address outside its range.
pub record ChipLaws {D : Type 0} (ch : Chip D) : Type 0 where
  pub at : D → ℕ → ℕ
  pub read_keeps : (a n s : ℕ) (d : D) → at (ch.blocking_read a n d).1 s ≡ at d s
  pub read_at :
      (a n : ℕ) (d : D) (b : Bytes) → (ch.blocking_read a n d).0 ≡ ok b → b ≡ bytes_at (at d) a n
  pub erase_at :
      (a z s : ℕ) (d : D)
      → (ch.blocking_erase a z d).0 ≡ ok tt
      → a ≤ s
      → s < z
      → at (ch.blocking_erase a z d).1 s ≡ 0xff
  pub erase_other :
      (a z s : ℕ) (d : D) → (s < a) ⊎ (z ≤ s) → at (ch.blocking_erase a z d).1 s ≡ at d s
  pub write_at :
      (a i : ℕ) (page : Bytes) (d : D)
      → (ch.blocking_write a page d).0 ≡ ok tt
      → i < length page
      → at (ch.blocking_write a page d).1 (a + i) ≡ bit_and (at d (a + i)) (get_or page i 0)
  pub write_other :
      (a s : ℕ) (page : Bytes) (d : D)
      → (s < a) ⊎ (a + length page ≤ s)
      → at (ch.blocking_write a page d).1 s ≡ at d s

bytes_at_same :
    (m k : ℕ → ℕ) (a n : ℕ)
    → ((s : ℕ) → a ≤ s → s < a + n → m s ≡ k s)
    → bytes_at m a n ≡ bytes_at k a n
unfolding bytes_at
bytes_at_same m k a zero h = refl
bytes_at_same m k a (suc n) h =
    let head = h a (omega arith) (omega arith) in
    let tail = bytes_at_same m k (a + 1) n (λ s p q. h s (omega arith) (omega arith)) in cc

bytes_at-ff :
    (m : ℕ → ℕ) (a n : ℕ)
    → ((s : ℕ) → a ≤ s → s < a + n → m s ≡ 0xff)
    → bytes_at m a n ≡ replicate n 0xff
unfolding bytes_at
bytes_at-ff m a zero h = refl
bytes_at-ff m a (suc n) h =
    let head = h a (omega arith) (omega arith) in
    let tail = bytes_at-ff m (a + 1) n (λ s p q. h s (omega arith) (omega arith)) in cc

-- A page that was written at the front.
bytes_at-and_page :
    (m k : ℕ → ℕ) (page : Bytes) (a n : ℕ)
    → length page ≤ n
    → ((i : ℕ) → i < length page → k (a + i) ≡ bit_and (m (a + i)) (get_or page i 0))
    → ((s : ℕ) → a + length page ≤ s → k s ≡ m s)
    → bytes_at k a n ≡ and_page page (bytes_at m a n)
unfolding bytes_at and_page
bytes_at-and_page m k [] a n l inside behind =
    bytes_at_same k m a n (λ s p q. behind s (omega arith))
bytes_at-and_page m k (p ∷ ps) a zero l inside behind = absurd (omega arith)
bytes_at-and_page m k (p ∷ ps) a (suc n) l inside behind =
    let here : a + 0 ≡ a = omega arith in
    let head : k a ≡ bit_and (m a) p =
      ap k (sym here) ∙ (inside 0 (omega arith) ∙ ap (λ x. bit_and (m x) p) here) in
    let tail =
      bytes_at-and_page m k ps (a + 1) n (omega arith)
        (λ i q.
          let next : a + 1 + i ≡ a + suc i = omega arith in
          ap k next
          ∙ (inside (suc i) (omega arith) ∙ ap (λ x. bit_and (m x) (get_or ps i 0)) (sym next)))
        (λ s q. behind s (omega arith)) in
    cc

-- A page that was written at `p`, `off` behind the front.
bytes_at-and_at :
    (m k : ℕ → ℕ) (page : Bytes) (p off a n : ℕ)
    → p ≡ a + off
    → off + length page ≤ n
    → ((s : ℕ) → s < p → k s ≡ m s)
    → ((i : ℕ) → i < length page → k (p + i) ≡ bit_and (m (p + i)) (get_or page i 0))
    → ((s : ℕ) → p + length page ≤ s → k s ≡ m s)
    → bytes_at k a n ≡ and_at off page (bytes_at m a n)
unfolding bytes_at and_at
bytes_at-and_at m k page p zero a n e l before inside behind =
    bytes_at-and_page m k page a n (omega arith)
      (λ i q.
        let same : a + i ≡ p + i = omega arith in
        ap k same ∙ (inside i q ∙ ap (λ x. bit_and (m x) (get_or page i 0)) (sym same)))
      (λ s q. behind s (omega arith))
bytes_at-and_at m k page p (suc off) a zero e l before inside behind = absurd (omega arith)
bytes_at-and_at m k page p (suc off) a (suc n) e l before inside behind =
    let head = before a (omega arith) in
    let tail =
      bytes_at-and_at m k page p off (a + 1) n (omega arith) (omega arith) before inside behind in
    cc

-- The regions lie one behind the other.
order : Region → ℕ
order time_a = 0
order time_b = 1
order config_a = 2
order config_b = 3
order key_a = 4
order key_b = 5
order pin_counter = 6

region_at : ℕ → Region
region_at zero = time_a
region_at (suc zero) = time_b
region_at (suc (suc zero)) = config_a
region_at (suc (suc (suc zero))) = config_b
region_at (suc (suc (suc (suc zero)))) = key_a
region_at (suc (suc (suc (suc (suc zero))))) = key_b
region_at (suc (suc (suc (suc (suc (suc n)))))) = pin_counter

region_at-order : (r : Region) → region_at (order r) ≡ r
unfolding region_at order
region_at-order time_a = refl
region_at-order _ = refl

base-order : (r : Region) → base r ≡ 0x3f8000 + sector_len * order r
unfolding base order
base-order time_a = refl
base-order _ = refl

order-ne : (r s : Region) → r ≢ s → order r ≢ order s
order-ne r s ne e = ne (sym (region_at-order r) ∙ (ap region_at e ∙ region_at-order s))

-- Two regions share no address.
apart :
    (r s : Region) (a : ℕ)
    → r ≢ s
    → base s ≤ a
    → a < base s + sector_len
    → (a < base r) ⊎ (base r + sector_len ≤ a)
apart r s a ne low high =
    let differ : order r ≢ order s = order-ne r s ne in
    elim (Bool-cases (ltb (order r) (order s))) [
      | inl less ↦ inr (ground (arith, base-order r, base-order s, less))
      | inr more ↦ inl (ground (arith, base-order r, base-order s, more, differ))
    ]

outside :
    (b off n a : ℕ)
    → ltb sector_len (off + n) ≡ false
    → (a < b) ⊎ (b + sector_len ≤ a)
    → (a < b + off) ⊎ (b + off + n ≤ a)
outside b off n a fits (inl l) = inl (omega arith)
outside b off n a fits (inr l) = inr (ground arith)

was_ok : {A : Type 0} (r : Result (Unit {0}) A) {a : A} → map_err (λ _. flash) r ≡ ok a → r ≡ ok a
was_ok (ok x) h = cc
was_ok (err u) h = cc

module _ {D : Type 0} ⦃ch : Chip D⦄ (laws : ChipLaws ch) where
  abbrev contents : EmbassyFlash D → Region → Bytes
  contents f r = bytes_at (laws.at f.chip) (base r) sector_len

  program-contents :
      (r : Region) (off : ℕ) (page : Bytes) (f : EmbassyFlash D)
      → (program r off page f).0 ≡ ok tt
      → contents (program r off page f).1 r ≡ and_at off page (contents f r)
  unfolding program
  program-contents r off page f = elim (Bool-cases (ltb sector_len (off + length page))) [
    | inl past ↦ rw past (λ e. cc)
    | inr fits ↦ rw fits λ e.
        bytes_at-and_at _ _ page (base r + off) off (base r) sector_len refl (ground arith)
          (λ s l. laws.write_other (base r + off) s page f.chip (inl l))
          (λ i l. laws.write_at (base r + off) i page f.chip (was_ok _ e) l)
          (λ s l. laws.write_other (base r + off) s page f.chip (inr l))
  ]

  program-other :
      (r s : Region) (off : ℕ) (page : Bytes) (f : EmbassyFlash D)
      → r ≢ s
      → contents (program r off page f).1 s ≡ contents f s
  unfolding program
  program-other r s off page f ne = elim (Bool-cases (ltb sector_len (off + length page))) [
    | inl past ↦ rw past
    | inr fits ↦ rw fits (
        bytes_at_same _ _ (base s) sector_len λ a p q.
          laws.write_other (base r + off) a page f.chip
            (outside (base r) off (length page) a fits (apart r s a ne p q)))
  ]

  erase-other :
      (r s : Region) (f : EmbassyFlash D) → r ≢ s → contents (erase r f).1 s ≡ contents f s
  unfolding erase
  erase-other r s f ne =
      bytes_at_same _ _ (base s) sector_len
        λ a p q. laws.erase_other (base r) (base r + sector_len) a f.chip (apart r s a ne p q)

  -- A chip that keeps its own laws, address by address, gives the core a flash that keeps those of
  -- hsm-core/src/hal.rs, sector by sector: no operation on one region touches another.
  pub embassy_flash-NorFlash : NorFlash (embassy_flash {D = D})
  unfolding read erase
  embassy_flash-NorFlash = record {
    cell = contents;
    read_keeps = λ r s f.
        bytes_at_same _ _ (base s) sector_len λ a p q. laws.read_keeps (base r) sector_len a f.chip;
    read_cell = λ r f b e. laws.read_at (base r) sector_len f.chip b (was_ok _ e);
    erase_cell = λ r f e.
        unfold erased_sector in
        bytes_at-ff _ (base r) sector_len
          λ s p q. laws.erase_at (base r) (base r + sector_len) s f.chip (was_ok _ e) p q;
    erase_other = erase-other;
    program_cell = program-contents;
    program_other = program-other;
  }
