-- ===== src/Hal/Nor.antt =====
-- What hsm-core/src/hal.rs asks of a flash part: NOR semantics, region by region. An operation may
-- fail at any time; a failed one may leave anything in its own region and touches no other.
use Prim.Native.Nat.{bit_and}
use picosignet.Prelude.{ℕ, zero, suc, [], ◌∷◌, ◌≡◌, ◌≢◌, ok, replicate}
use picosignet.Prelude.Bytes.{Bytes}
use picosignet.Hal.{Region, FlashStore, sector_len}

-- Programming clears bits and sets none. Bytes past the end of the sector are dropped.
unfoldable pub and_page : Bytes → Bytes → Bytes
and_page [] xs = xs
and_page (p ∷ ps) [] = []
and_page (p ∷ ps) (x ∷ xs) = bit_and x p ∷ and_page ps xs

unfoldable pub and_at : ℕ → Bytes → Bytes → Bytes
unfolding and_page
and_at zero page xs = and_page page xs
and_at (suc off) page [] = []
and_at (suc off) page (x ∷ xs) = x ∷ and_at off page xs

-- A sector after an erase.
unfoldable pub erased_sector : Bytes
erased_sector = replicate sector_len 0xff

pub record NorFlash {F : Type 0} (fs : FlashStore F) : Type 0 where
  pub cell : F → Region → Bytes
  pub read_keeps : (r s : Region) (f : F) → cell (fs.read r f).1 s ≡ cell f s
  pub read_cell : (r : Region) (f : F) (b : Bytes) → (fs.read r f).0 ≡ ok b → b ≡ cell f r
  pub erase_cell :
      (r : Region) (f : F) → (fs.erase r f).0 ≡ ok tt → cell (fs.erase r f).1 r ≡ erased_sector
  pub erase_other : (r s : Region) (f : F) → r ≢ s → cell (fs.erase r f).1 s ≡ cell f s
  pub program_cell :
      (r : Region) (off : ℕ) (page : Bytes) (f : F)
      → (fs.program r off page f).0 ≡ ok tt
      → cell (fs.program r off page f).1 r ≡ and_at off page (cell f r)
  pub program_other :
      (r s : Region) (off : ℕ) (page : Bytes) (f : F)
      → r ≢ s
      → cell (fs.program r off page f).1 s ≡ cell f s
