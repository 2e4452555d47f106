-- ===== src/Storage/Record.antt =====
-- hsm-core/src/storage.rs, `parse_record` and `write_record`: one record in one sector. The CRC-32
-- is the `crc` crate's, a parameter.
use picosignet.Prelude.{
  ℕ, zero, suc, ◌+◌, ◌-◌, ◌*◌, ◌/◌, ◌%◌, ◌^◌, ◌<◌, ◌++◌, not, Option, none, some, Exec, pure, raise,
  ◌>>=◌, ◌>>◌, ltb, ◌==◌, if◌then◌else◌, length, take, drop, replicate,
}
use picosignet.Prelude.Bytes.{Bytes, codes, beq_bytes, be16, be32, of_be16, of_be32, slice}
use picosignet.Hal.{HalError, out_of_range, Region, FlashStore, sector_len, page_len}

pub record Crc : Type 0 where
  pub checksum : Bytes → ℕ
  pub checksum_u32 : (b : Bytes) → checksum b < 2 ^ 32

abbrev pub magic : Bytes
magic = codes "UHSM"

abbrev pub version : ℕ
version = 2

abbrev pub header_len : ℕ
header_len = 12

-- What `write_record` puts before the payload.
unfoldable pub header : ℕ → ℕ → Bytes
header seq len = magic ++ (be16 version ++ (be32 seq ++ be16 (len % 65536)))

module _ ⦃crc : Crc⦄ where
  unfoldable pub parse_record : Bytes → Option (ℕ × Bytes)
  parse_record sector =
      if ltb (length sector) (header_len + 4)
      then none
      else if not (beq_bytes (take 4 sector) magic)
      then none
      else if not (of_be16 (drop 4 sector) == version)
      then none
      else let end = header_len + of_be16 (drop 10 sector) in
        if ltb (length sector) (end + 4)
        then none
        else if not (crc.checksum (take end sector) == of_be32 (drop end sector))
        then none
        else some (of_be32 (drop 6 sector), slice sector header_len end)

  unfoldable pub record_bytes : ℕ → Bytes → Bytes
  unfolding header
  record_bytes seq payload =
      let body = header seq (length payload) ++ payload in body ++ be32 (crc.checksum body)

  unfoldable pub record_sector : ℕ → Bytes → Bytes
  record_sector seq payload =
      record_bytes seq payload ++ replicate (sector_len - (header_len + length payload + 4)) 0xff

-- The pages from `p` on, as many as `n`.
module _ {F : Type 0} ⦃fs : FlashStore F⦄ where
  unfoldable pub program_pages : Region → Bytes → ℕ → ℕ → Exec HalError F (Unit {0})
  program_pages region sector zero p = pure tt
  program_pages region sector (suc n) p = do
    fs.program region (p * page_len) (slice sector (p * page_len) (p * page_len + page_len))
    program_pages region sector n (p + 1)

module _ {F : Type 0} ⦃fs : FlashStore F⦄ ⦃crc : Crc⦄ where
  unfoldable pub read_record : Region → Exec HalError F (Option (ℕ × Bytes))
  read_record region = do buf ← fs.read region; pure (parse_record buf)

  unfoldable pub write_record : Region → ℕ → Bytes → Exec HalError F (Unit {0})
  write_record region seq payload =
      let total = header_len + length payload + 4 in
      if ltb sector_len total then raise out_of_range else do
        fs.erase region
        program_pages region (record_sector seq payload) ((total + 255) / page_len) 0
