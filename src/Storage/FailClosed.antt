-- ===== src/Storage/FailClosed.antt =====
-- hsm-core/src/storage.rs, `read_latest_fail_closed`: against `read_latest`, and when it may say
-- that nothing is stored.
use picosignet.Prelude.{
  ℕ, ◌≡◌, refl, ◌≢◌, ap, ◌∙◌, pure, ◌>>=◌, [], ◌∷◌, true, inl, inr, Option, none, some, ok, All,
  Bool-cases, >>=-ok, arith,
}
use picosignet.Prelude.Bytes.{Bytes, beq_bytes}
use picosignet.Hal.{Region, FlashStore}
use picosignet.Storage.Record.{Crc, parse_record, read_record}
use picosignet.Storage.AbPair.{
  AbPair, latest, RecordState, erased, valid, invalid, all_ones, record_state, latest_state,
  read_latest, read_record_state, read_latest_fail_closed,
}

abbrev pub IsOnes : Bytes → Type 0
IsOnes = All (λ x. x ≡ 0xff)

all_ones-IsOnes : (b : Bytes) → all_ones b ≡ true → IsOnes b
unfolding all_ones
all_ones-IsOnes [] h = tt
all_ones-IsOnes (x ∷ xs) h = (ground arith, all_ones-IsOnes xs (ground arith))

module _ ⦃crc : Crc⦄ where
  -- An erased sector holds no record.
  parse_record-ones : (b : Bytes) → all_ones b ≡ true → parse_record b ≡ none
  unfolding all_ones parse_record beq_bytes
  parse_record-ones [] h = refl
  parse_record-ones (x ∷ xs) h = ground arith

  -- What `read_latest` keeps of a sector's state.
  abbrev found : RecordState → Option (ℕ × Bytes)
  found erased = none
  found (valid s p) = some (s, p)
  found invalid = none

  found-parsed :
      (o : Option (ℕ × Bytes)) → found (elim o [ some (s, p) ↦ valid s p | none ↦ invalid ]) ≡ o
  found-parsed (some (s, p)) = refl
  found-parsed none = refl

  found-record_state : (b : Bytes) → found (record_state b) ≡ parse_record b
  unfolding record_state
  found-record_state b = elim (Bool-cases (all_ones b)) [
    | inl ones ↦ rw (ones, parse_record-ones b ones, found)
    | inr other ↦ rw other (found-parsed (parse_record b))
  ]

latest_state-found :
    ⦃crc : Crc⦄ (a b : RecordState) {r : Option Bytes}
    → latest_state a b ≡ ok r
    → latest (found a) (found b) ≡ r
unfolding latest_state latest
latest_state-found erased erased h = cc
latest_state-found erased (valid s p) h = cc
latest_state-found erased invalid h = cc
latest_state-found (valid s p) erased h = cc
latest_state-found (valid s p) (valid s' p') h = ground arith
latest_state-found (valid s p) invalid h = cc
latest_state-found invalid erased h = cc
latest_state-found invalid (valid s p) h = cc
latest_state-found invalid invalid h = cc

-- Nothing is found only where both copies are erased.
latest_state-none : (a b : RecordState) → latest_state a b ≡ ok none → (a ≡ erased) × (b ≡ erased)
unfolding latest_state
latest_state-none erased erased h = (refl, refl)
latest_state-none erased (valid s p) h = cc
latest_state-none erased invalid h = cc
latest_state-none (valid s p) erased h = cc
latest_state-none (valid s p) (valid s' p') h = ground arith
latest_state-none (valid s p) invalid h = cc
latest_state-none invalid erased h = cc
latest_state-none invalid (valid s p) h = cc
latest_state-none invalid invalid h = cc

module _ ⦃crc : Crc⦄ where
  parsed-not_erased :
      (o : Option (ℕ × Bytes)) → elim o [ some (s, p) ↦ valid s p | none ↦ invalid ] ≢ erased
  parsed-not_erased (some (s, p)) h = cc
  parsed-not_erased none h = cc

  record_state-erased : (b : Bytes) → record_state b ≡ erased → all_ones b ≡ true
  unfolding record_state
  record_state-erased b h = elim (Bool-cases (all_ones b)) [
    | inl ones ↦ ones
    | inr other ↦ absurd (parsed-not_erased (parse_record b) (rw other at h))
  ]

module _ {F : Type 0} ⦃fs : FlashStore F⦄ ⦃crc : Crc⦄ where
  read_record_state-ok :
      (region : Region) (f t : F) {s : RecordState}
      → read_record_state region f ≡ (ok s, t)
      → (b : Bytes) × (fs.read region f ≡ (ok b, t)) × (record_state b ≡ s)
  unfolding read_record_state
  read_record_state-ok region f t {s = s} h =
      let (b, t', e, k) = >>=-ok (fs.read region) (λ buf. pure (record_state buf)) f h in
      let kept : record_state b ≡ s = (let same = ap (λ o. o.0) k in cc) in
      (b, e ∙ ap (λ x. (ok b, x)) (ap (λ o. o.1) k), kept)

  -- A run that succeeds has read both sectors.
  read_latest_fail_closed-ok :
      (pair : AbPair) (f g : F) {r : Option Bytes}
      → read_latest_fail_closed pair f ≡ (ok r, g)
      → (a : Bytes) × (b : Bytes) × (t : F) × (fs.read pair.a f ≡ (ok a, t))
        × (fs.read pair.b t ≡ (ok b, g))
        × (latest_state (record_state a) (record_state b) ≡ ok r)
  unfolding read_latest_fail_closed
  read_latest_fail_closed-ok pair f g h =
      let (ra, t, ea, h1) =
        >>=-ok (read_record_state pair.a)
          (λ ra. read_record_state pair.b >>= (λ rb f'. (latest_state ra rb, f'))) f h in
      let (rb, g', eb, h2) =
        >>=-ok (read_record_state pair.b) (λ rb f'. (latest_state ra rb, f')) t h1 in
      let (a, fa, sa) = read_record_state-ok pair.a f t ea in
      let (b, fb, sb) = read_record_state-ok pair.b t g' eb in
      (a, b, t, fa, fb ∙ ap (λ x. (ok b, x)) (ap (λ o. o.1) h2), rw (sa, sb) (ap (λ o. o.0) h2))

  -- Whatever the flash: when `read_latest_fail_closed` succeeds, `read_latest` gives the same result
  -- and leaves the flash in the same state.
  pub read_latest-fail_closed :
      (pair : AbPair) (f g : F) (r : Option Bytes)
      → read_latest_fail_closed pair f ≡ (ok r, g)
      → read_latest pair f ≡ (ok r, g)
  unfolding read_latest read_latest_fail_closed read_record read_record_state
  read_latest-fail_closed pair f g r h =
      let (a, b, t, ea, eb, e) = read_latest_fail_closed-ok pair f g h in
      let latest_eq : latest (parse_record a) (parse_record b) ≡ r =
        rw (← found-record_state a, ← found-record_state b)
          (latest_state-found (record_state a) (record_state b) e) in
      rw (ea, eb) (ap (λ x. (ok x, g)) latest_eq)

  -- When `read_latest_fail_closed` says that nothing is stored, it has read both sectors, and every
  -- byte of both is 0xff.
  pub read_latest_fail_closed-IsOnes :
      (pair : AbPair) (f g : F)
      → read_latest_fail_closed pair f ≡ (ok none, g)
      → (a : Bytes) × (b : Bytes) × (t : F) × (fs.read pair.a f ≡ (ok a, t))
        × (fs.read pair.b t ≡ (ok b, g))
        × IsOnes a
        × IsOnes b
  unfolding read_latest_fail_closed read_record_state
  read_latest_fail_closed-IsOnes pair f g h =
      let (a, b, t, ea, eb, e) = read_latest_fail_closed-ok pair f g h in
      let (za, zb) = latest_state-none (record_state a) (record_state b) e in
      (
        a,
        b,
        t,
        ea,
        eb,
        all_ones-IsOnes a (record_state-erased a za),
        all_ones-IsOnes b (record_state-erased b zb),
      )
