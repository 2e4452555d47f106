-- ===== src/Storage/Write.antt =====
-- hsm-core/src/storage.rs: what a write that reports success leaves in a NOR flash.
use mathlib.Core.List.{append_assoc}
use picosignet.Prelude.{
  ℕ, zero, suc, ◌+◌, ◌-◌, ◌*◌, ◌/◌, ◌^◌, ◌≤◌, ◌<◌, ◌≡◌, ◌≢◌, refl, sym, ap, ◌∙◌, List, [], ◌∷◌,
  ◌++◌, some, ok, arith, length, length-append, length-take, length-drop, take, drop,
  take-append-take, replicate, replicate-add, length-replicate, All, All-append, Result-cases, inl,
  inr,
}
use picosignet.Prelude.Bytes.{Bytes, IsByte, be32, slice, be32-IsByte}
use picosignet.Hal.{Region, FlashStore, sector_len, page_len}
use picosignet.Hal.Nor.{NorFlash, and_at}
use picosignet.Hal.Programming.{and_at-extends}
use picosignet.Storage.Record.{
  Crc, parse_record, header, record_bytes, record_sector, program_pages, header_len,
}
use picosignet.Storage.ParseWrite.{parse-framed}

All-take {ℓ} : {A : Type ℓ} (P : A → Type 0) (n : ℕ) (xs : List A) → All P xs → All P (take n xs)
All-take P zero xs h = tt
All-take P (suc n) [] h = tt
All-take P (suc n) (x ∷ xs) h = (h.0, All-take P n xs h.1)

All-drop {ℓ} : {A : Type ℓ} (P : A → Type 0) (n : ℕ) (xs : List A) → All P xs → All P (drop n xs)
All-drop P zero xs h = h
All-drop P (suc n) [] h = tt
All-drop P (suc n) (x ∷ xs) h = All-drop P n xs h.1

-- The sector `s` as far as byte `n`, and erased from there on.
abbrev pub written : Bytes → ℕ → Bytes
written s n = take n s ++ replicate (length s - n) 0xff

-- One page more.
written-page :
    (s : Bytes) (n : ℕ)
    → All IsByte s
    → n + page_len ≤ length s
    → and_at n (slice s n (n + page_len)) (written s n) ≡ written s (n + page_len)
written-page s n h fits =
    rw (ap (λ t. and_at n (slice s n (n + page_len)) (take n s ++ replicate t 0xff)) room) (
      and_at-extends n (length s - (n + page_len)) (slice s n (n + page_len)) (take n s)
        (All-take IsByte _ _ (All-drop IsByte n s h)) (length-take n s ∙ omega arith)
      ∙ ap (λ t. t ++ replicate (length s - (n + page_len)) 0xff) joined)
  where
    width : n + page_len - n ≡ page_len
    width = omega arith

    page_length : length (slice s n (n + page_len)) ≡ page_len
    page_length = length-take _ (drop n s) ∙ rw (length-drop n s) (omega arith)

    room : length s - n ≡ length (slice s n (n + page_len)) + (length s - (n + page_len))
    room = rw page_length (omega arith)

    joined : take n s ++ slice s n (n + page_len) ≡ take (n + page_len) s
    joined = ap (λ t. take n s ++ take t (drop n s)) width ∙ take-append-take n page_len s

abbrev ones : ℕ → Bytes
ones n = replicate n 0xff

take-replicate : (n k : ℕ) → n ≤ k → take n (ones k) ≡ ones n
take-replicate zero k h = refl
take-replicate (suc n) zero h = absurd (omega arith)
take-replicate (suc n) (suc k) h = ap (λ t. 0xff ∷ t) (take-replicate n k (omega arith))

-- What lies behind the record is erased anyway, so it need not be programmed.
written_past :
    (xs : Bytes) (k n : ℕ)
    → length xs ≤ n
    → n ≤ length xs + k
    → take n (xs ++ replicate k 0xff) ++ replicate (length xs + k - n) 0xff ≡ xs ++ replicate k 0xff
written_past [] k n low high =
    let e : n + (0 + k - n) ≡ k = omega arith in
    rw (take-replicate n k (omega arith))
      (sym (replicate-add n (0 + k - n) 0xff) ∙ ap (λ t. replicate t 0xff) e)
written_past (x ∷ xs) k zero low high = absurd (omega arith)
written_past (x ∷ xs) k (suc n) low high =
    let e : suc (length xs) + k - suc n ≡ length xs + k - n = omega arith in
    rw e (ap (λ t. x ∷ t) (written_past xs k n (omega arith) (omega arith)))

ones-IsByte : (n : ℕ) → All IsByte (replicate n 0xff)
ones-IsByte zero = tt
ones-IsByte (suc n) = (omega arith, ones-IsByte n)

header-IsByte : (seq n : ℕ) → All IsByte (header seq n)
unfolding header
header-IsByte seq n = omega arith

module _ ⦃crc : Crc⦄ (seq : ℕ) (payload : Bytes) where
  record_len : length (record_bytes seq payload) ≡ header_len + length payload + 4
  unfolding record_bytes
  record_len = simp length-append (omega arith)

  pub sector_size :
      header_len + length payload + 4 ≤ sector_len → length (record_sector seq payload) ≡ sector_len
  unfolding record_sector
  sector_size h = simp (length-append, length-replicate, record_len) (omega arith)

  pub sector-IsByte : All IsByte payload → All IsByte (record_sector seq payload)
  unfolding record_sector record_bytes
  sector-IsByte h =
      let body = header seq (length payload) ++ payload in
      let sum = be32 (crc.checksum body) in
      All-append IsByte (ones _) (body ++ sum) (ones-IsByte _) (
        All-append IsByte sum body (be32-IsByte (crc.checksum body)) (
          All-append IsByte payload (header seq (length payload)) h
            (header-IsByte seq (length payload))))

  -- The pages that `write_record` programs are enough.
  pub pages_enough :
      header_len + length payload + 4 ≤ sector_len
      → written
          (record_sector seq payload)
          ((header_len + length payload + 4 + 255) / page_len * page_len)
        ≡ record_sector seq payload
  unfolding record_sector
  pages_enough h =
      let k = sector_len - (header_len + length payload + 4) in
      rw (length-append (record_bytes seq payload) (replicate k 0xff), length-replicate k)
        (written_past (record_bytes seq payload) k _ (rw record_len (omega arith))
          (rw record_len (omega arith)))

  -- A sector as it is written parses to what was put in.
  pub parse-record_sector :
      seq < 2 ^ 32
      → header_len + length payload + 4 ≤ sector_len
      → parse_record (record_sector seq payload) ≡ some (seq, payload)
  unfolding record_sector record_bytes
  parse-record_sector hs hl =
      rw (append_assoc (header seq (length payload) ++ payload))
        (parse-framed seq payload _ hs (omega arith))

module _ {F : Type 0} ⦃fs : FlashStore F⦄ (nor : NorFlash fs) where
  open nor use {cell, erase_cell, erase_other, program_cell, program_other}

  pub program_pages-other :
      (r o : Region) (s : Bytes) (n p : ℕ) (f : F)
      → r ≢ o
      → cell (program_pages r s n p f).1 o ≡ cell f o
  unfolding program_pages
  program_pages-other r o s zero p f h = refl
  program_pages-other r o s (suc n) p f h =
      let page = slice s (p * page_len) (p * page_len + page_len) in
      let g = (fs.program r (p * page_len) page f).1 in
      let first = program_other r o (p * page_len) page f h in
      let rest = program_pages-other r o s n (p + 1) g h in
      elim (Result-cases (fs.program r (p * page_len) page f).0) [
        | inl (u, e) ↦ rw (e, program_pages) (rest ∙ first)
        | inr (x, e) ↦ rw (e, program_pages) first
      ]

  pub program_pages-cell :
      (r : Region) (s : Bytes) (n p : ℕ) (f : F)
      → All IsByte s
      → (p + n) * page_len ≤ length s
      → cell f r ≡ written s (p * page_len)
      → (program_pages r s n p f).0 ≡ ok tt
      → cell (program_pages r s n p f).1 r ≡ written s ((p + n) * page_len)
  unfolding program_pages
  program_pages-cell r s zero p f h fits c e =
      c ∙ ap (λ (t : ℕ). written s (t * page_len)) (omega arith)
  program_pages-cell r s (suc n) p f h fits c e =
      let page = slice s (p * page_len) (p * page_len + page_len) in
      let g = (fs.program r (p * page_len) page f).1 in
      elim (Result-cases (fs.program r (p * page_len) page f).0) [
        | inl (u, ok') ↦
            let first : cell g r ≡ written s ((p + 1) * page_len) =
              program_cell r (p * page_len) page f ok'
              ∙ ap (λ t. and_at (p * page_len) page t) c
              ∙ written-page s (p * page_len) h (omega arith)
              ∙ ap (λ (t : ℕ). written s t) (omega arith) in
            let rest =
              program_pages-cell r s n (p + 1) g h (omega arith) first
                (rw (ok', program_pages) at e) in
            rw (ok', program_pages) (rest ∙ ap (λ (t : ℕ). written s (t * page_len)) (omega arith))
        | inr (x, bad) ↦ absurd (ground arith)
      ]
