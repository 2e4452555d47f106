-- ===== src/Storage/ParseWrite.antt =====
-- hsm-core/src/storage.rs: a record that was laid out in a sector parses to what was put in.
use picosignet.Prelude.{
  ℕ, ◌+◌, ◌-◌, ◌^◌, ◌≤◌, ◌<◌, ◌≡◌, refl, ◌++◌, some, arith, length, length-append, take, drop,
  take-append, drop-append,
}
use picosignet.Prelude.Bytes.{Bytes, be32, of_be16, of_be32, of_be32-be32, beq_bytes_refl}
use picosignet.Storage.Record.{Crc, parse_record, header, magic, version}

-- A sector whose fields are in place parses.
parse_fields :
    ⦃crc : Crc⦄ (s : Bytes) (n seq : ℕ) (p : Bytes)
    → take 4 s ≡ magic
    → of_be16 (drop 4 s) ≡ version
    → of_be32 (drop 6 s) ≡ seq
    → of_be16 (drop 10 s) ≡ n
    → 12 + n + 4 ≤ length s
    → crc.checksum (take (12 + n) s) ≡ of_be32 (drop (12 + n) s)
    → take n (drop 12 s) ≡ p
    → parse_record s ≡ some (seq, p)
unfolding parse_record
parse_fields s n seq p hm hv hs hn hl hc hp =
    let cut : 12 + n - 12 ≡ n = omega arith in ground (arith, beq_bytes_refl magic, cut)

module _ ⦃crc : Crc⦄ (seq : ℕ) (payload tail : Bytes) where
  abbrev body : Bytes
  body = header seq (length payload) ++ payload

  abbrev framed : Bytes
  framed = body ++ (be32 (crc.checksum body) ++ tail)

  length-body : length body ≡ 12 + length payload
  unfolding header
  length-body = omega arith

  magic_field : take 4 framed ≡ magic
  unfolding header
  magic_field = refl

  version_field : of_be16 (drop 4 framed) ≡ version
  unfolding header of_be16
  version_field = refl

  seq_field : seq < 2 ^ 32 → of_be32 (drop 6 framed) ≡ seq
  unfolding header of_be32
  seq_field h = omega arith

  len_field : length payload < 65536 → of_be16 (drop 10 framed) ≡ length payload
  unfolding header of_be16
  len_field h = omega arith

  payload_field : take (length payload) (drop 12 framed) ≡ payload
  unfolding header
  payload_field = take-append (length payload) payload _ refl

  crc_field : of_be32 (drop (12 + length payload) framed) ≡ crc.checksum body
  crc_field =
      rw (drop-append (12 + length payload) body (be32 (crc.checksum body) ++ tail) length-body)
        (of_be32-be32 (crc.checksum body) tail (crc.checksum_u32 body))

  -- The reader finds every field where the writer put it.
  pub parse-framed :
      seq < 2 ^ 32 → length payload < 65536 → parse_record framed ≡ some (seq, payload)
  parse-framed hs hl =
      parse_fields framed (length payload) seq payload magic_field version_field (seq_field hs)
        (len_field hl) long sum payload_field
    where
      long : 12 + length payload + 4 ≤ length framed
      long = rw (length-append body (be32 (crc.checksum body) ++ tail), length-body) (omega arith)

      sum :
          crc.checksum (take (12 + length payload) framed)
          ≡ of_be32 (drop (12 + length payload) framed)
      sum = rw (
        crc_field,
        take-append (12 + length payload) body (be32 (crc.checksum body) ++ tail) length-body,
      )
