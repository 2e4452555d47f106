-- ===== src/Pin/Ticks.antt =====
-- What an attempt does to the tick log of hsm-core/src/pin.rs.
use picosignet.Prelude.{
  ℕ, zero, suc, ◌+◌, ◌<◌, ◌≡◌, ◌≢◌, refl, [], ◌∷◌, arith, length, All, replicate, ◌⊎◌, inl, inr,
}
use picosignet.Prelude.Bytes.{Bytes, IsByte, bit_and-ff, bit_and-zero}
use picosignet.Hal.{sector_len}
use picosignet.Hal.Nor.{and_page, and_at, erased_sector}
use picosignet.Pin.{used_ticks, tick_page}

-- Programming a page of ones changes nothing.
and_page-ones : (n : ℕ) (xs : Bytes) → All IsByte xs → and_page (replicate n 0xff) xs ≡ xs
unfolding and_page
and_page-ones zero xs h = refl
and_page-ones (suc n) [] h = refl
and_page-ones (suc n) (x ∷ xs) h = ground (arith, bit_and-ff x, and_page-ones n xs h.1)

abbrev pub IsErased : Bytes → Type 0
IsErased = All (λ y. y ≡ 0xff)

-- The log has no gap: only erased bytes follow the first erased one.
abbrev pub IsTickLog : Bytes → Type 0
IsTickLog [] = Unit {0}
IsTickLog (x ∷ xs) = ((x ≡ 0xff) × IsErased xs) ⊎ ((x ≢ 0xff) × IsTickLog xs)

pub ones-IsTickLog : (xs : Bytes) → IsErased xs → IsTickLog xs
ones-IsTickLog [] h = tt
ones-IsTickLog (x ∷ xs) h = inl h

pub used_ticks-ones : (xs : Bytes) → IsErased xs → used_ticks xs ≡ 0
unfolding used_ticks
used_ticks-ones [] h = refl
used_ticks-ones (x ∷ xs) h = ground arith

-- The cleared byte is counted, and the log stays without a gap.
abbrev pub Ticked : ℕ → Bytes → Type 0
Ticked n xs = (used_ticks xs ≡ n) × IsTickLog xs × All IsByte xs

and_page-Ticked :
    (k w : ℕ) (xs : Bytes)
    → w < k
    → w < length xs
    → Ticked w xs
    → Ticked (suc w) (and_page (tick_page k w) xs)
unfolding and_page tick_page used_ticks
and_page-Ticked zero w xs hk hl t = absurd (omega arith)
and_page-Ticked (suc k) w [] hk hl t = absurd (omega arith)
and_page-Ticked (suc k) zero (x ∷ xs) hk hl (u, inl g, b) =
    ground
      (arith, bit_and-zero x, and_page-ones k xs b.1, used_ticks-ones xs g.1, ones-IsTickLog xs g.1)
and_page-Ticked (suc k) zero (x ∷ xs) hk hl (u, inr g, b) = absurd (ground arith)
and_page-Ticked (suc k) (suc w) (x ∷ xs) hk hl (u, inl g, b) = absurd (ground arith)
and_page-Ticked (suc k) (suc w) (x ∷ xs) hk hl (u, inr g, b) =
    let rest = and_page-Ticked k w xs (omega arith) (omega arith) (ground arith, g.1, b.1) in
    ground (arith, bit_and-ff x, rest)

pub and_at-Ticked :
    (off k w : ℕ) (xs : Bytes)
    → w < k
    → off + w < length xs
    → Ticked (off + w) xs
    → Ticked (suc (off + w)) (and_at off (tick_page k w) xs)
unfolding and_at used_ticks
and_at-Ticked zero k w xs hk hl t = ground (arith, and_page-Ticked k w xs)
and_at-Ticked (suc off) k w [] hk hl t = absurd (omega arith)
and_at-Ticked (suc off) k w (x ∷ xs) hk hl (u, inl g, b) = absurd (ground arith)
and_at-Ticked (suc off) k w (x ∷ xs) hk hl (u, inr g, b) =
    let rest = and_at-Ticked off k w xs hk (omega arith) (ground arith, g.1, b.1) in
    ground (arith, rest)

pub All-replicate : (n : ℕ) → IsErased (replicate n 0xff)
All-replicate zero = tt
All-replicate (suc n) = (refl, All-replicate n)

pub ones-IsByte : (xs : Bytes) → IsErased xs → All IsByte xs
ones-IsByte [] h = tt
ones-IsByte (x ∷ xs) h = (omega arith, ones-IsByte xs h.1)

pub erased-Ticked : Ticked 0 erased_sector
unfolding erased_sector
erased-Ticked =
    let ones = All-replicate sector_len in
    let xs = replicate sector_len 0xff in
    (used_ticks-ones xs ones, ones-IsTickLog xs ones, ones-IsByte xs ones)
