-- ===== src/Hal/Snapshot.antt =====
-- hsm-core/src/testhal.rs, `snapshot` and `restore`: the flash in memory as one run of bytes, which
-- the simulator keeps in a file.
use mathlib.Core.List.{append_assoc}
use picosignet.Prelude.{
  ℕ, ◌+◌, ◌-◌, ◌*◌, ◌≡◌, refl, arith, Bool, true, false, not, ◌&&◌, List, [], ◌∷◌, ◌++◌, ◌==◌,
  if◌then◌else◌, length, drop, length-append, take-append, drop-append,
}
use picosignet.Prelude.Bytes.{Bytes, slice}
use picosignet.Hal.{
  Region, time_a, time_b, config_a, config_b, key_a, key_b, pin_counter, sector_len,
}
use picosignet.Hal.Nor.{erased_sector}
use picosignet.Hal.Mock.{MockFlash, region, put_region}

abbrev legacy_len : ℕ
legacy_len = 5 * sector_len + 8

abbrev current_len : ℕ
current_len = 7 * sector_len + 8

abbrev pub legacy_regions : List Region
legacy_regions = config_a ∷ config_b ∷ key_a ∷ key_b ∷ pin_counter ∷ []

abbrev current_regions : List Region
current_regions = time_a ∷ time_b ∷ legacy_regions

-- The sectors one behind the other.
unfoldable pub image : List Region → MockFlash → Bytes
image [] f = []
image (r ∷ rs) f = region f r ++ image rs f

unfoldable pub snapshot : MockFlash → Bytes
snapshot f = image current_regions f ++ f.id

-- The loop of `restore`, from its round `i` on.
unfoldable pub copy_regions : List Region → ℕ → Bytes → MockFlash → MockFlash
copy_regions [] i bytes f = f
copy_regions (r ∷ rs) i bytes f =
    let off = i * sector_len in
    copy_regions rs (i + 1) bytes (put_region r (slice bytes off (off + sector_len)) f)

-- What `restore` does with an image whose length it knows.
unfoldable pub restored : List Region → Bytes → MockFlash → MockFlash
restored regions bytes f =
    let g =
      copy_regions regions 0 bytes
        (put_region time_b erased_sector (put_region time_a erased_sector f)) in
    record g { id = drop (length bytes - 8) bytes }

-- An image of neither length is refused.
unfoldable pub restore : Bytes → MockFlash → Bool × MockFlash
restore bytes f =
    if not (length bytes == legacy_len) && not (length bytes == current_len) then (false, f) else (
      true,
      restored (if length bytes == current_len then current_regions else legacy_regions) bytes f,
    )

-- Every sector has its length, and so has the identifier.
pub record IsImage (f : MockFlash) : Type 0 where
  pub sector : (r : Region) → length (region f r) ≡ sector_len
  pub id_len : length f.id ≡ 8

-- The contents of the regions, from one flash to the other.
copied : List Region → MockFlash → MockFlash → MockFlash
copied [] f g = g
copied (r ∷ rs) f g = copied rs f (put_region r (region f r) g)

module _ (f : MockFlash) (fits : IsImage f) where
  length-image : (rs : List Region) → length (image rs f) ≡ length rs * sector_len
  unfolding image
  length-image [] = refl
  length-image (r ∷ rs) =
      omega (arith, length-append (region f r) (image rs f), fits.sector r, length-image rs)

  copy_regions-image :
      (rs : List Region) (i : ℕ) (pre tail : Bytes) (g : MockFlash)
      → length pre ≡ i * sector_len
      → copy_regions rs i (pre ++ (image rs f ++ tail)) g ≡ copied rs f g
  unfolding copy_regions image copied
  copy_regions-image [] i pre tail g h = refl
  copy_regions-image (r ∷ rs) i pre tail g h =
      let rest = image rs f ++ tail in
      let off = i * sector_len in
      let n : off + sector_len - off ≡ sector_len = omega arith in
      let head : slice (pre ++ (region f r ++ rest)) off (off + sector_len) ≡ region f r =
        rw (n, drop-append off pre (region f r ++ rest) h)
          (take-append sector_len (region f r) rest (fits.sector r)) in
      let moved : length (pre ++ region f r) ≡ (i + 1) * sector_len =
        omega (arith, length-append pre (region f r), fits.sector r, h) in
      rw (append_assoc (region f r) (image rs f) tail, head, ← append_assoc pre (region f r) rest)
        (copy_regions-image rs (i + 1) (pre ++ region f r) tail _ moved)

  length-imaged : (rs : List Region) → length (image rs f ++ f.id) ≡ length rs * sector_len + 8
  length-imaged rs = omega (arith, length-append (image rs f) f.id, length-image rs, fits.id_len)

  restored-image :
      (rs : List Region) (g : MockFlash)
      → restored rs (image rs f ++ f.id) g
        ≡ record (copied rs f
            (put_region time_b erased_sector (put_region time_a erased_sector g))) { id = f.id }
  unfolding restored
  restored-image rs g =
      let at_id : length (image rs f) ≡ length (image rs f ++ f.id) - 8 =
        omega (arith, length-imaged rs, length-image rs) in
      rw (
        drop-append (length (image rs f ++ f.id) - 8) (image rs f) f.id at_id,
        copy_regions-image rs 0 [] f.id
            (put_region time_b erased_sector (put_region time_a erased_sector g)) refl,
      )

  -- A snapshot of a flash whose sectors and identifier have their lengths is restored into any other:
  -- sectors and identifier are those of the snapshot, and the secret and the faults stay.
  pub restore-snapshot :
      (g : MockFlash)
      → restore (snapshot f) g ≡ (
        true,
        record f {
          otp_secret = g.otp_secret;
          erase_fault = g.erase_fault;
          read_fault = g.read_fault;
        },
      )
  unfolding restore snapshot copied put_region region
  restore-snapshot g = rw (length-imaged current_regions, restored-image current_regions g)

  -- The five sectors and the identifier of such a flash, as older versions saved them, are restored
  -- likewise, with an empty time journal.
  pub restore-legacy :
      (g : MockFlash)
      → restore (image legacy_regions f ++ f.id) g ≡ (
        true,
        record f {
          in_time_a = erased_sector;
          in_time_b = erased_sector;
          otp_secret = g.otp_secret;
          erase_fault = g.erase_fault;
          read_fault = g.read_fault;
        },
      )
  unfolding restore copied put_region region
  restore-legacy g = rw (length-imaged legacy_regions, restored-image legacy_regions g)
