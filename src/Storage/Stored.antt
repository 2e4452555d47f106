-- ===== src/Storage/Stored.antt =====
-- hsm-core/src/storage.rs over a NOR flash: what one write does to its sector, and what is read.
use native.Mathlib.Nat.{zero-add}
use picosignet.Prelude.{
  ℕ, ◌+◌, ◌*◌, ◌/◌, ◌≤◌, ◌≡◌, ◌≢◌, refl, ap, ◌∙◌, Option, ok, resume, arith, ltb, length, All,
  Bool-cases, Result-cases, inl, inr,
}
use picosignet.Prelude.Bytes.{Bytes, IsByte}
use picosignet.Hal.{Region, FlashStore, sector_len, page_len}
use picosignet.Hal.Nor.{NorFlash, erased_sector}
use picosignet.Storage.Record.{
  Crc, parse_record, record_sector, program_pages, read_record, write_record, header_len,
}
use picosignet.Storage.AbPair.{AbPair, latest, read_latest}
use picosignet.Storage.Write.{
  written, program_pages-cell, program_pages-other, pages_enough, sector_size, sector-IsByte,
}

module _ {F : Type 0} ⦃fs : FlashStore F⦄ ⦃crc : Crc⦄ (nor : NorFlash fs) where
  open nor use {cell, read_keeps, read_cell, erase_cell, erase_other}

  -- Whatever its result, `write_record` touches its own sector only.
  pub write_record-other :
      (r o : Region) (seq : ℕ) (p : Bytes) (f : F)
      → r ≢ o
      → cell (write_record r seq p f).1 o ≡ cell f o
  unfolding write_record
  write_record-other r o seq p f h =
      elim (Bool-cases (ltb sector_len (header_len + length p + 4))) [
        | inl big ↦ rw (big, write_record)
        | inr fits ↦
            let g = (fs.erase r f).1 in
            let pages = (header_len + length p + 4 + 255) / page_len in
            let rest = program_pages-other nor r o (record_sector seq p) pages 0 g h in
            elim (Result-cases (fs.erase r f).0) [
              | inl (u, e) ↦ rw (fits, write_record) (rw (e, resume) (rest ∙ erase_other r o f h))
              | inr (x, e) ↦ rw (fits, write_record) (rw (e, resume) (erase_other r o f h))
            ]
      ]

  pub write_record-cell :
      (r : Region) (seq : ℕ) (p : Bytes) (f : F)
      → All IsByte p
      → (write_record r seq p f).0 ≡ ok tt
      → (header_len + length p + 4 ≤ sector_len)
        × (cell (write_record r seq p f).1 r ≡ record_sector seq p)
  unfolding write_record
  write_record-cell r seq p f hp e =
      elim (Bool-cases (ltb sector_len (header_len + length p + 4))) [
        | inl big ↦ absurd (ground arith)
        | inr fits ↦
            let room : header_len + length p + 4 ≤ sector_len = ground arith in
            let g = (fs.erase r f).1 in
            let pages = (header_len + length p + 4 + 255) / page_len in
            elim (Result-cases (fs.erase r f).0) [
              | inl (u, e') ↦
                  let done : (program_pages r (record_sector seq p) pages 0 g).0 ≡ ok tt =
                    rw (e', resume) at (rw (fits, write_record) at e) in
                  let all =
                    program_pages-cell nor r (record_sector seq p) pages 0 g
                      (sector-IsByte seq p hp) (rw (sector_size seq p room) (omega arith))
                      (erase_cell r f e' ∙ blank room) done in
                  (
                    room,
                    rw (fits, write_record)
                        (rw (e', resume)
                          (all
                            ∙ ap (λ t. written (record_sector seq p) (t * page_len))
                                (zero-add pages)
                            ∙ pages_enough seq p room)),
                  )
              | inr (x, e') ↦ absurd (ground arith)
            ]
      ]
    where
      blank :
          header_len + length p + 4 ≤ sector_len
          → erased_sector ≡ written (record_sector seq p) (0 * page_len)
      blank room = unfold erased_sector in rw (sector_size seq p room) refl

  -- The records that the two sectors hold.
  abbrev pub at : F → Region → Option (ℕ × Bytes)
  at f r = parse_record (cell f r)

  -- What `read_latest` answers where the flash can be read.
  abbrev pub stored : AbPair → F → Option Bytes
  stored pair f = latest (at f pair.a) (at f pair.b)

  pub read_record-at :
      (r : Region) (f : F) (x : Option (ℕ × Bytes)) → (read_record r f).0 ≡ ok x → x ≡ at f r
  unfolding read_record
  read_record-at r f x e = elim (Result-cases (fs.read r f).0) [
    | inl (b, e') ↦ ground (arith, read_cell r f b e')
    | inr (y, e') ↦ absurd (ground arith)
  ]

  pub read_record-keeps : (r o : Region) (f : F) → cell (read_record r f).1 o ≡ cell f o
  unfolding read_record
  read_record-keeps r o f = elim (Result-cases (fs.read r f).0) [
    | inl (b, e) ↦ rw (e, read_record) (read_keeps r o f)
    | inr (y, e) ↦ rw (e, read_record) (read_keeps r o f)
  ]

  pub read_latest-stored :
      (pair : AbPair) (f : F) (x : Option Bytes) → (read_latest pair f).0 ≡ ok x → x ≡ stored pair f
  unfolding read_latest
  read_latest-stored pair f x e =
      let g = (read_record pair.a f).1 in
      elim (Result-cases (read_record pair.a f).0) [
        | inl (ra, ea) ↦ elim (Result-cases (read_record pair.b g).0) [
          | inl (rb, eb) ↦ ground (
            arith,
            read_record-at pair.a f ra ea,
            read_record-at pair.b g rb eb,
            read_record-keeps pair.a pair.b f,
          )
          | inr (y, eb) ↦ absurd (ground arith)
        ]
        | inr (y, ea) ↦ absurd (ground arith)
      ]
