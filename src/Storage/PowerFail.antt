-- ===== src/Storage/PowerFail.antt =====
-- hsm-core/src/storage.rs, `AbPair` over a NOR flash: a write that reports success is read back, and
-- one that is torn anywhere leaves the record before it.
use picosignet.Prelude.{
  ◌+◌, ◌^◌, ◌<◌, ◌≡◌, ◌≢◌, sym, ap, ◌∙◌, true, false, Option, none, some, ok, resume, arith, leb,
  All, Bool-cases, Result-cases, inl, inr,
}
use picosignet.Prelude.Bytes.{Bytes, IsByte}
use picosignet.Hal.{Region, FlashStore}
use picosignet.Hal.Nor.{NorFlash}
use picosignet.Storage.Record.{Crc, parse_record, read_record}
use picosignet.Storage.AbPair.{AbPair, seq_of, target, next_seq, read_latest, write}
use picosignet.Storage.Pairs.{
  number, latest_over_a, latest_over_b, IsPair, latest_torn_a, latest_torn_b, IsPair-without_a,
  IsPair-without_b, IsPair-over_a, IsPair-over_b, next_seq-lt,
}
use picosignet.Storage.Write.{parse-record_sector}
use picosignet.Storage.Stored.{
  write_record-other, write_record-cell, read_record-at, read_record-keeps, read_latest-stored,
  stored,
}

module _ {F : Type 0} ⦃fs : FlashStore F⦄ ⦃crc : Crc⦄ (nor : NorFlash fs) where
  open nor use {cell, read_keeps, read_cell, erase_cell, erase_other}

  -- The sector that a write on `f` replaces.
  abbrev pub replaced : AbPair → F → Region
  replaced pair f =
      target pair (seq_of (parse_record (cell f pair.a))) (seq_of (parse_record (cell f pair.b)))

  replaced_a :
      (pair : AbPair) (f : F)
      → leb (number (parse_record (cell f pair.a))) (number (parse_record (cell f pair.b))) ≡ true
      → replaced pair f ≡ pair.a
  unfolding target
  replaced_a pair f h = ground arith

  replaced_b :
      (pair : AbPair) (f : F)
      → leb (number (parse_record (cell f pair.a))) (number (parse_record (cell f pair.b))) ≡ false
      → replaced pair f ≡ pair.b
  unfolding target
  replaced_b pair f h = ground arith

  -- Whatever the result of a write, the sector that it was not replacing is as it was.
  write-other :
      (pair : AbPair) (p : Bytes) (f : F) (o : Region)
      → replaced pair f ≢ o
      → cell (write pair p f).1 o ≡ cell f o
  unfolding write
  write-other pair p f o ne =
      let g = (read_record pair.a f).1 in
      let h = (read_record pair.b g).1 in
      let kg = λ (o : Region). read_record-keeps nor pair.a o f in
      let kh = λ (o : Region). read_record-keeps nor pair.b o g in
      elim (Result-cases (read_record pair.a f).0) [
        | inl (ra, ea) ↦ elim (Result-cases (read_record pair.b g).0) [
          | inl (rb, eb) ↦
              let xa : ra ≡ parse_record (cell f pair.a) = read_record-at nor pair.a f ra ea in
              let xb : rb ≡ parse_record (cell f pair.b) =
                read_record-at nor pair.b g rb eb ∙ ap parse_record (kg pair.b) in
              rw (ea, resume)
                (rw (eb, resume)
                  (write_record-other nor (target pair (seq_of ra) (seq_of rb)) o _ p h
                      (rw (xa, xb) ne)
                    ∙ kh o
                    ∙ kg o))
          | inr (y, eb) ↦ rw (ea, resume) (rw (eb, resume) (kh o ∙ kg o))
        ]
        | inr (y, ea) ↦ rw (ea, resume) (kg o)
      ]

  -- What a write that reports success leaves: its record, numbered above both that were there.
  write-cell :
      (pair : AbPair) (p : Bytes) (f : F)
      → All IsByte p
      → (write pair p f).0 ≡ ok tt
      → parse_record (cell (write pair p f).1 (replaced pair f))
        ≡ some (
          next_seq (seq_of (parse_record (cell f pair.a))) (seq_of (parse_record (cell f pair.b))),
          p,
        )
  unfolding write
  write-cell pair p f hp e =
      let g = (read_record pair.a f).1 in
      let h = (read_record pair.b g).1 in
      elim (Result-cases (read_record pair.a f).0) [
        | inl (ra, ea) ↦ elim (Result-cases (read_record pair.b g).0) [
          | inl (rb, eb) ↦
              let xa : ra ≡ parse_record (cell f pair.a) = read_record-at nor pair.a f ra ea in
              let xb : rb ≡ parse_record (cell f pair.b) =
                read_record-at nor pair.b g rb eb
                ∙ ap parse_record (read_record-keeps nor pair.a pair.b f) in
              let n = next_seq (seq_of ra) (seq_of rb) in
              let r = target pair (seq_of ra) (seq_of rb) in
              let done =
                write_record-cell nor r n p h hp (rw (eb, resume) at (rw (ea, resume) at e)) in
              let parsed = parse-record_sector n p (next_seq-lt (seq_of ra) (seq_of rb)) done.0 in
              rw (ea, resume) (rw (eb, resume) (rw (← xa, ← xb) (rw (done.1) parsed)))
          | inr (y, eb) ↦ absurd (ground arith)
        ]
        | inr (y, ea) ↦ absurd (ground arith)
      ]

  -- On a NOR flash, for a pair of two different sectors, a payload of bytes and record numbers that
  -- have not run out of 32 bits: after a write that reports success, a read of the pair that succeeds
  -- returns the payload.
  pub read_latest-write :
      (pair : AbPair) (p : Bytes) (f : F) (x : Option Bytes)
      → pair.a ≢ pair.b
      → All IsByte p
      → number (parse_record (cell f pair.a)) + 1 < 2 ^ 32
      → number (parse_record (cell f pair.b)) + 1 < 2 ^ 32
      → (write pair p f).0 ≡ ok tt
      → (read_latest pair (write pair p f).1).0 ≡ ok x
      → x ≡ some p
  read_latest-write pair p f x ne hp ha hb e r =
      let ra = parse_record (cell f pair.a) in
      let rb = parse_record (cell f pair.b) in
      let g = (write pair p f).1 in
      let new = write-cell pair p f hp e in
      read_latest-stored nor pair g x r ∙ elim (Bool-cases (leb (number ra) (number rb))) [
        | inl over_a ↦
            let t = replaced_a pair f over_a in
            rw (rw t at new, ap parse_record (write-other pair p f pair.b (rw t ne)))
              (latest_over_a ra rb p ha hb over_a)
        | inr over_b ↦
            let t = replaced_b pair f over_b in
            rw (rw t at new, ap parse_record (write-other pair p f pair.a (rw t (λ h. ne (sym h)))))
              (latest_over_b ra rb p ha hb over_b)
      ]

  -- On a NOR flash, for a pair of two different sectors whose valid records are numbered from 1 on and
  -- differently, a payload of bytes and record numbers that have not run out of 32 bits: a write that
  -- reports success leaves valid records that are numbered from 1 on and differently.
  pub write-IsPair :
      (pair : AbPair) (p : Bytes) (f : F)
      → pair.a ≢ pair.b
      → All IsByte p
      → number (parse_record (cell f pair.a)) + 1 < 2 ^ 32
      → number (parse_record (cell f pair.b)) + 1 < 2 ^ 32
      → IsPair (parse_record (cell f pair.a)) (parse_record (cell f pair.b))
      → (write pair p f).0 ≡ ok tt
      → IsPair
          (parse_record (cell (write pair p f).1 pair.a))
          (parse_record (cell (write pair p f).1 pair.b))
  write-IsPair pair p f ne hp ha hb v e =
      let ra = parse_record (cell f pair.a) in
      let rb = parse_record (cell f pair.b) in
      let new = write-cell pair p f hp e in
      elim (Bool-cases (leb (number ra) (number rb))) [
        | inl over_a ↦
            let t = replaced_a pair f over_a in
            rw (rw t at new, ap parse_record (write-other pair p f pair.b (rw t ne)))
              (IsPair-over_a ra rb p ha hb v)
        | inr over_b ↦
            let t = replaced_b pair f over_b in
            rw (rw t at new, ap parse_record (write-other pair p f pair.a (rw t (λ h. ne (sym h)))))
              (IsPair-over_b ra rb p ha hb v)
      ]

  -- What a write of `p` on `f` may leave where it is cut off, or fails: no valid record in the sector
  -- that it was replacing, and every other sector as the write leaves it.
  abbrev pub IsTorn : AbPair → Bytes → F → F → Type 0
  IsTorn pair p f g =
      ((o : Region) → replaced pair f ≢ o → cell g o ≡ cell (write pair p f).1 o)
      × (parse_record (cell g (replaced pair f)) ≡ none)

  -- On a NOR flash, for a pair of two different sectors whose valid records are numbered from 1 on and
  -- differently: a flash that has no valid record in the sector that a write was replacing, and that
  -- holds in every other sector what the write leaves there, whatever its result, stores what was
  -- stored before the write, and its valid records are numbered in the same way.
  pub torn-stored :
      (pair : AbPair) (p : Bytes) (f g : F)
      → pair.a ≢ pair.b
      → IsPair (parse_record (cell f pair.a)) (parse_record (cell f pair.b))
      → IsTorn pair p f g
      → (stored nor pair g ≡ stored nor pair f)
        × IsPair (parse_record (cell g pair.a)) (parse_record (cell g pair.b))
  torn-stored pair p f g ne v (same, torn) =
      let ra = parse_record (cell f pair.a) in
      let rb = parse_record (cell f pair.b) in
      let kept = λ (o : Region) (n : replaced pair f ≢ o). same o n ∙ write-other pair p f o n in
      elim (Bool-cases (leb (number ra) (number rb))) [
        | inl over_a ↦
            let t = replaced_a pair f over_a in
            rw (rw t at torn, kept pair.b (rw t ne))
              (latest_torn_a ra rb v over_a, IsPair-without_a ra rb v)
        | inr over_b ↦
            let t = replaced_b pair f over_b in
            rw (rw t at torn, kept pair.a (rw t (λ h. ne (sym h))))
              (latest_torn_b ra rb v over_b, IsPair-without_b ra rb v)
      ]
