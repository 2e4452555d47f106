-- ===== src/Storage/Pairs.antt =====
-- hsm-core/src/storage.rs, `AbPair`: which of two records is the newest one, and how writes number them.
use picosignet.Prelude.{
  ℕ, ◌+◌, ◌^◌, ◌<◌, ◌≡◌, ◌≢◌, refl, true, false, Option, none, some, arith, leb, unwrap_or,
}
use picosignet.Prelude.Bytes.{Bytes}
use picosignet.Storage.AbPair.{latest, seq_of, next_seq}

-- The number of the record that a sector holds, 0 where it holds none.
abbrev pub number : Option (ℕ × Bytes) → ℕ
number r = unwrap_or (seq_of r) 0

pub latest_over_a :
    (ra rb : Option (ℕ × Bytes)) (p : Bytes)
    → number ra + 1 < 2 ^ 32
    → number rb + 1 < 2 ^ 32
    → leb (number ra) (number rb) ≡ true
    → latest (some (next_seq (seq_of ra) (seq_of rb), p)) rb ≡ some p
unfolding latest next_seq
latest_over_a ra rb p ha hb h = ground arith

pub latest_over_b :
    (ra rb : Option (ℕ × Bytes)) (p : Bytes)
    → number ra + 1 < 2 ^ 32
    → number rb + 1 < 2 ^ 32
    → leb (number ra) (number rb) ≡ false
    → latest ra (some (next_seq (seq_of ra) (seq_of rb), p)) ≡ some p
unfolding latest next_seq
latest_over_b ra rb p ha hb h = ground arith

-- The two sectors as writes leave them: numbers start at 1, and two valid records differ in theirs.
abbrev pub IsPair : Option (ℕ × Bytes) → Option (ℕ × Bytes) → Type 0
IsPair none none = Unit {0}
IsPair none (some (t, q)) = 0 < t
IsPair (some (s, p)) none = 0 < s
IsPair (some (s, p)) (some (t, q)) = (0 < s) × (0 < t) × (s ≢ t)

pub latest_torn_a :
    (ra rb : Option (ℕ × Bytes))
    → IsPair ra rb
    → leb (number ra) (number rb) ≡ true
    → latest none rb ≡ latest ra rb
unfolding latest
latest_torn_a none none v h = refl
latest_torn_a none (some (t, q)) v h = refl
latest_torn_a (some (s, p)) none v h = absurd (ground arith)
latest_torn_a (some (s, p)) (some (t, q)) v h = ground arith

pub latest_torn_b :
    (ra rb : Option (ℕ × Bytes))
    → IsPair ra rb
    → leb (number ra) (number rb) ≡ false
    → latest ra none ≡ latest ra rb
unfolding latest
latest_torn_b none none v h = refl
latest_torn_b none (some (t, q)) v h = absurd (ground arith)
latest_torn_b (some (s, p)) none v h = refl
latest_torn_b (some (s, p)) (some (t, q)) v h = ground arith

pub IsPair-without_a : (ra rb : Option (ℕ × Bytes)) → IsPair ra rb → IsPair none rb
IsPair-without_a none rb v = v
IsPair-without_a (some (s, p)) none v = tt
IsPair-without_a (some (s, p)) (some (t, q)) v = v.1

pub IsPair-without_b : (ra rb : Option (ℕ × Bytes)) → IsPair ra rb → IsPair ra none
IsPair-without_b none rb v = tt
IsPair-without_b (some (s, p)) none v = v
IsPair-without_b (some (s, p)) (some (t, q)) v = v.0

pub IsPair-over_a :
    (ra rb : Option (ℕ × Bytes)) (p : Bytes)
    → number ra + 1 < 2 ^ 32
    → number rb + 1 < 2 ^ 32
    → IsPair ra rb
    → IsPair (some (next_seq (seq_of ra) (seq_of rb), p)) rb
unfolding next_seq
IsPair-over_a none none p ha hb v = omega arith
IsPair-over_a none (some (t, q)) p ha hb v = (omega arith, v, λ e. omega arith)
IsPair-over_a (some (s, x)) none p ha hb v = omega arith
IsPair-over_a (some (s, x)) (some (t, q)) p ha hb v = (omega arith, v.1, λ e. omega arith)

pub IsPair-over_b :
    (ra rb : Option (ℕ × Bytes)) (p : Bytes)
    → number ra + 1 < 2 ^ 32
    → number rb + 1 < 2 ^ 32
    → IsPair ra rb
    → IsPair ra (some (next_seq (seq_of ra) (seq_of rb), p))
unfolding next_seq
IsPair-over_b none none p ha hb v = omega arith
IsPair-over_b none (some (t, q)) p ha hb v = omega arith
IsPair-over_b (some (s, x)) none p ha hb v = (v, omega arith, λ e. omega arith)
IsPair-over_b (some (s, x)) (some (t, q)) p ha hb v = (v.0, omega arith, λ e. omega arith)

pub next_seq-lt : (sa sb : Option ℕ) → next_seq sa sb < 2 ^ 32
unfolding next_seq
next_seq-lt sa sb = omega arith
