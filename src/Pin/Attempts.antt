-- ===== src/Pin/Attempts.antt =====
-- The attempt counter of hsm-core/src/pin.rs over any NOR flash, and the backoff schedule.
use native.Mathlib.Nat.{pow-suc}
use native.Mathlib.Numerals.{towards_suc}
use picosignet.Prelude.{
  ap, ◌∙◌, ℕ, zero, suc, ◌+◌, ◌-◌, ◌*◌, ◌/◌, ◌%◌, ◌^◌, ◌≤◌, ◌<◌, ◌≡◌, refl, min, leb, ok, arith,
  length, inl, inr, Bool-cases, Result-cases,
}
use picosignet.Prelude.Bytes.{Bytes}
use picosignet.Hal.{Region, pin_counter, FlashStore, sector_len, page_len}
use picosignet.Hal.Nor.{NorFlash, and_at}
use picosignet.Pin.{used_ticks, tick_page, count, tick, reset, backoff_ms}
use picosignet.Pin.Ticks.{Ticked, and_at-Ticked, erased-Ticked}

module _ {F : Type 0} ⦃fs : FlashStore F⦄ (nor : NorFlash fs) where
  open nor use {cell, read_keeps, read_cell, erase_cell, erase_other, program_cell, program_other}

  count_reads : (f : F) (n : ℕ) → (count f).0 ≡ ok n → n ≡ used_ticks (cell f pin_counter)
  unfolding count
  count_reads f n h = elim (Result-cases (fs.read pin_counter f).0) [
    | inl (b, e) ↦ ground (arith, read_cell pin_counter f b e, rw e at h)
    | inr (x, e) ↦ absurd (ground arith)
  ]

  count_keeps : (r : Region) (f : F) → cell (count f).1 r ≡ cell f r
  unfolding count
  count_keeps r f = elim (Result-cases (fs.read pin_counter f).0) [
    | inl (b, e) ↦ rw (e, count) (read_keeps pin_counter r f)
    | inr (x, e) ↦ rw (e, count) (read_keeps pin_counter r f)
  ]

  -- The page of the next tick, where the log has `n` ticks.
  and_at_next :
      (n : ℕ) (xs : Bytes)
      → n < length xs
      → Ticked n xs
      → Ticked (suc n) (and_at (n / page_len * page_len) (tick_page page_len (n % page_len)) xs)
  and_at_next n xs room t =
      let e : n / page_len * page_len + n % page_len ≡ n = omega arith in
      rw e at (
        and_at-Ticked (n / page_len * page_len) page_len (n % page_len) xs (omega arith)
          (omega arith) (rw e t))

  program_next :
      (f : F) (m : ℕ)
      → m < length (cell f pin_counter)
      → Ticked m (cell f pin_counter)
      → (fs.program pin_counter (m / page_len * page_len) (tick_page page_len (m % page_len)) f).0
        ≡ ok tt
      → Ticked (suc m) (
          cell
            (fs.program pin_counter
              (m / page_len * page_len)
              (tick_page page_len (m % page_len))
              f).1
            pin_counter)
  program_next f m room t e = rw (program_cell pin_counter _ _ f e) (and_at_next m _ room t)

  -- What the second half of `tick` does, the count being read.
  tick_from :
      (f g : F) (m n : ℕ)
      → (count f) ≡ (ok m, g)
      → (tick f).0 ≡ ok n
      → m < length (cell g pin_counter)
      → length (cell g pin_counter) ≡ sector_len
      → Ticked m (cell g pin_counter)
      → (n ≡ suc m) × Ticked n (cell (tick f).1 pin_counter)
  unfolding tick
  tick_from f g m n c h room len t =
      elim (Result-cases
        (fs.program pin_counter (m / page_len * page_len) (tick_page page_len (m % page_len))
          g).0) [
            | inl (u, e) ↦ ground (arith, program_next g m room t e)
            | inr (x, e) ↦ absurd (ground arith)
          ]

  -- On a NOR flash, with a whole counter sector that is a well-formed log of `m` attempts and has room:
  -- a tick that reports success returns one more than `m`, the log stays well formed, and every later
  -- count of the sector that succeeds agrees.
  pub tick-count :
      (f : F) (m n : ℕ)
      → length (cell f pin_counter) ≡ sector_len
      → Ticked m (cell f pin_counter)
      → m < sector_len
      → (tick f).0 ≡ ok n
      → (n ≡ suc m)
        × Ticked n (cell (tick f).1 pin_counter)
        × ((k : ℕ) → (count (tick f).1).0 ≡ ok k → k ≡ n)
  tick-count f m n len t room h = elim (Result-cases (count f).0) [
    | inl (c, e) ↦
        let same : c ≡ m = count_reads f c e ∙ t.0 in
        let kept = count_keeps pin_counter f in
        let done =
          tick_from f (count f).1 m n (λ i. ((e ∙ ap ok same) i, (count f).1)) h
            (rw kept (omega arith)) (rw kept len) (rw kept t) in
        (done.0, done.1, λ k r. count_reads (tick f).1 k r ∙ done.1.0)
    | inr (x, e) ↦ absurd (unfold tick in ground arith)
  ]

  -- On a NOR flash, after a reset that reports success, a count that succeeds is zero.
  pub reset-count : (f : F) (k : ℕ) → (reset f).0 ≡ ok tt → (count (reset f).1).0 ≡ ok k → k ≡ 0
  unfolding reset
  reset-count f k h r =
      count_reads (fs.erase pin_counter f).1 k r ∙ rw (erase_cell pin_counter f h) erased-Ticked.0

two_pow_pos : (k : ℕ) → 1 ≤ 2 ^ k
two_pow_pos zero = omega arith
two_pow_pos (suc k) = rw pow-suc (omega (arith, two_pow_pos k))

two_pow_seven : (k : ℕ) → 2 ^ (k + 7) ≡ 128 * 2 ^ k
two_pow_seven k = simp towards_suc (omega arith)

small_shift : (n : ℕ) → n < 7 → 250 * 2 ^ n % 2 ^ 32 ≡ 250 * 2 ^ n
small_shift zero h = refl
small_shift (suc zero) h = refl
small_shift (suc (suc zero)) h = refl
small_shift (suc (suc (suc zero))) h = refl
small_shift (suc (suc (suc (suc zero)))) h = refl
small_shift (suc (suc (suc (suc (suc zero))))) h = refl
small_shift (suc (suc (suc (suc (suc (suc zero)))))) h = refl
small_shift (suc (suc (suc (suc (suc (suc (suc n))))))) h = absurd (omega arith)

large_shift : (n : ℕ) → 7 ≤ n → 30000 ≤ 250 * 2 ^ n
large_shift n h =
    let e : n ≡ (n - 7) + 7 = omega arith in
    rw e (omega (arith, two_pow_seven (n - 7), two_pow_pos (n - 7)))

-- The backoff is `min(250 · 2^failed, 30000)` for every number of failures: the shift on `u32` does
-- not overflow where it is made, and where it is not made the cap applies.
pub backoff_ms-eq : (n : ℕ) → backoff_ms n ≡ min (250 * 2 ^ n) 30000
unfolding backoff_ms
backoff_ms-eq n = elim (Bool-cases (leb 7 n)) [
  | inl big ↦ rw big (omega (arith, large_shift n (ground arith)))
  | inr small ↦ rw small (rw (small_shift n (ground arith)))
]
