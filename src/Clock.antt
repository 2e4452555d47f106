-- ===== src/Clock.antt =====
-- hsm-core/src/clock.rs: wall-clock time as an offset over the monotonic timer. A reading of the
-- timer is one value during a call.
pub mod Drift
use picosignet.Prelude.{
  ℕ, ◌+◌, ◌-◌, ◌*◌, ◌/◌, Bool, true, false, not, ◌&&◌, Option, none, some, Result, ok, err, Exec,
  pure, raise, ◌>>=◌, ◌>>◌, ltb, if◌then◌else◌, is_some,
}
use picosignet.Prelude.Int.{ℤ, pos, leb_ℤ, saturating_add, checked_sub, checked_add, unsigned_abs}
use picosignet.Hal.{Monotonic}

abbrev pub max_drift_secs : ℕ
max_drift_secs = 900

abbrev pub min_plausible_unix : ℕ
min_plausible_unix = 1700000000

abbrev pub max_plausible_unix : ℕ
max_plausible_unix = min_plausible_unix + 100 * 365 * 24 * 3600

-- The unit struct that a refused time is answered with.
pub data Rejected : Type 0 where
  rejected : Rejected

pub record Clock : Type 0 where
  pub epoch_unix : Option ℤ
  pub epoch_mono_us : ℕ
  pub trust_anchor_unix : Option ℤ
  pub trust_anchor_mono_us : ℕ

abbrev pub new : Clock
new = record {
  epoch_unix = none;
  epoch_mono_us = 0;
  trust_anchor_unix = none;
  trust_anchor_mono_us = 0;
}

-- Whether a time is too far from the one that is expected; a difference that overflows is.
unfoldable pub too_far : ℤ → ℤ → Bool
too_far unix_seconds expected = elim (checked_sub unix_seconds expected) [
  | some delta ↦ ltb max_drift_secs (unsigned_abs delta)
  | none ↦ true
]

-- A sum, and where there is none the panic.
abbrev pub no_overflow : Option ℤ → Result (Unit {0}) (Option ℤ)
no_overflow none = err tt
no_overflow (some t) = ok (some t)

-- A time that was set, so many seconds later.
unfoldable pub moved_on : Option ℤ → ℕ → Result (Unit {0}) (Option ℤ)
moved_on none secs = ok none
moved_on (some epoch) secs = no_overflow (checked_add epoch (pos secs))

unfoldable pub is_set : Clock → Bool
is_set c = is_some c.epoch_unix

module _ {M : Type 0} ⦃mono : Monotonic M⦄ where
  -- Whole seconds since a reading of the timer.
  unfoldable pub elapsed_secs : M → ℕ → ℕ
  elapsed_secs m since = (mono.now_micros m - since) / 1000000

  -- The test of a new time, before anything is changed.
  unfoldable pub refuses : M → ℤ → Clock → Bool
  refuses m unix_seconds c = elim c.trust_anchor_unix [
    | none ↦
        not (
          leb_ℤ (pos min_plausible_unix) unix_seconds
          && leb_ℤ unix_seconds (pos max_plausible_unix))
    | some anchor ↦
        too_far unix_seconds (saturating_add anchor (pos (elapsed_secs m c.trust_anchor_mono_us)))
  ]

  -- The first accepted time becomes the anchor.
  unfoldable pub anchored : M → ℤ → Clock → Clock
  anchored m unix_seconds c = if is_some c.trust_anchor_unix then c else record c {
    trust_anchor_unix = some unix_seconds;
    trust_anchor_mono_us = mono.now_micros m;
  }

  unfoldable pub set : M → ℤ → Exec Rejected Clock Bool
  set m unix_seconds c = if refuses m unix_seconds c then (err rejected, c) else (
    ok (is_some c.epoch_unix),
    record (anchored m unix_seconds c) {
      epoch_unix = some unix_seconds;
      epoch_mono_us = mono.now_micros m;
    },
  )

  unfoldable pub trusted_now : M → Clock → Option ℤ
  trusted_now m c = elim c.trust_anchor_unix [
    | none ↦ none
    | some anchor ↦ some (saturating_add anchor (pos (elapsed_secs m c.trust_anchor_mono_us)))
  ]

  -- The source's `+` on `i64` panics on overflow, as `overflow-checks` is on in every profile: an error
  -- here is that panic.
  unfoldable pub now_unix : M → Clock → Result (Unit {0}) (Option ℤ)
  now_unix m c = moved_on c.epoch_unix (elapsed_secs m c.epoch_mono_us)
