-- ===== src/Clock/Drift.antt =====
-- How far the clock of hsm-core/src/clock.rs can be moved: every history of calls of `set`.
use picosignet.Prelude.{
  ℕ, ◌+◌, ◌-◌, ◌/◌, ◌^◌, ◌≤◌, ◌<◌, ◌≡◌, ◌⊎◌, inl, inr, refl, ap, ◌∙◌, true, false, not, ◌&&◌,
  Option, none, some, ok, arith, is_ok, ◌↔◌, Bool-cases,
}
use picosignet.Prelude.Int.{ℤ, pos, negsuc, leb_ℤ, saturating_add, checked_sub, checked_add, ◌+ℤ◌}
use picosignet.Hal.{Monotonic}
use picosignet.Clock.{
  is_set, Clock, new, set, trusted_now, now_unix, elapsed_secs, refuses, anchored, too_far,
  moved_on, no_overflow, min_plausible_unix, max_plausible_unix, max_drift_secs,
}

-- `a` and `b` differ by at most `d`.
abbrev pub Near : ℕ → ℕ → ℕ → Type 0
Near d a b = (a ≤ b + d) × (b ≤ a + d)

-- On a positive time below 2 ^ 62 the test is the plain one.
too_far-Near :
    (t : ℤ) (x : ℕ)
    → 1000 ≤ x
    → x < 2 ^ 62
    → too_far t (pos x) ≡ false
    → (e : ℕ) × (t ≡ pos e) × Near max_drift_secs e x
unfolding too_far checked_sub
too_far-Near (pos e) x low high h = (e, refl, ground arith)
too_far-Near (negsuc e) x low high h = absurd (ground arith)

Near-too_far : (e x : ℕ) → x < 2 ^ 62 → Near max_drift_secs e x → too_far (pos e) (pos x) ≡ false
unfolding too_far checked_sub
Near-too_far e x high h = ground arith

-- What holds of a clock after any calls of `set` whose last timer reading was `now`: it was never
-- set, or it was anchored at a plausible time `a` and set last, at reading `em`, to a time `e` that
-- is near the time which the anchor and the timer give.
abbrev Anchored : Clock → ℕ → ℕ → ℕ → ℕ → ℕ → Type 0
Anchored c now a am e em =
    (c.trust_anchor_unix ≡ some (pos a))
    × (c.trust_anchor_mono_us ≡ am)
    × (c.epoch_unix ≡ some (pos e))
    × (c.epoch_mono_us ≡ em)
    × (min_plausible_unix ≤ a)
    × (a ≤ max_plausible_unix)
    × (am ≤ em)
    × (em ≤ now)
    × Near max_drift_secs e (a + (em - am) / 1000000)

abbrev Sound : Clock → ℕ → Type 0
Sound c now =
    ((c.trust_anchor_unix ≡ none) × (c.epoch_unix ≡ none))
    ⊎ ((a : ℕ) × (am : ℕ) × (e : ℕ) × (em : ℕ) × Anchored c now a am e em)

-- A saturating sum of plausible parts is the plain sum.
saturating_add-pos : (a b : ℕ) → a + b < 2 ^ 62 → saturating_add (pos a) (pos b) ≡ pos (a + b)
unfolding saturating_add
saturating_add-pos a b h = ground arith

checked_add-pos : (a b : ℕ) → a + b < 2 ^ 62 → checked_add (pos a) (pos b) ≡ some (pos (a + b))
unfolding checked_add ◌+ℤ◌
checked_add-pos a b h = ground arith

plausible_cases :
    (t : ℤ)
    → not (leb_ℤ (pos min_plausible_unix) t && leb_ℤ t (pos max_plausible_unix)) ≡ false
    → (e : ℕ) × (t ≡ pos e) × (min_plausible_unix ≤ e) × (e ≤ max_plausible_unix)
plausible_cases (pos e) h = (e, refl, ground arith, ground arith)
plausible_cases (negsuc e) h = absurd (ground arith)

module _ {M : Type 0} ⦃mono : Monotonic M⦄ where
  refuses_first :
      (m : M) (t : ℤ) (c : Clock)
      → c.trust_anchor_unix ≡ none
      → refuses m t c ≡ false
      → (e : ℕ) × (t ≡ pos e) × (min_plausible_unix ≤ e) × (e ≤ max_plausible_unix)
  unfolding refuses
  refuses_first m t c na h = plausible_cases t (rw (na, refuses) at h)

  -- What the timer adds to a plausible anchor is far from the ends of `i64`.
  expected_fits :
      (m : M) (a am : ℕ)
      → a ≤ max_plausible_unix
      → mono.now_micros m < 2 ^ 64
      → a + elapsed_secs m am < 2 ^ 62
  unfolding elapsed_secs
  expected_fits m a am h fits = omega arith

  refuses_next :
      (m : M) (t : ℤ) (c : Clock) (a : ℕ)
      → c.trust_anchor_unix ≡ some (pos a)
      → min_plausible_unix ≤ a
      → a ≤ max_plausible_unix
      → mono.now_micros m < 2 ^ 64
      → refuses m t c ≡ false
      → (e : ℕ) × (t ≡ pos e) × Near max_drift_secs e (a + elapsed_secs m c.trust_anchor_mono_us)
  unfolding refuses
  refuses_next m t c a ha low high fits h =
      let small = expected_fits m a c.trust_anchor_mono_us high fits in
      too_far-Near t _ (omega arith) small (
        rw (saturating_add-pos a (elapsed_secs m c.trust_anchor_mono_us) small) at
          (rw (ha, refuses) at h))

  set-Sound :
      (m : M) (t : ℤ) (c : Clock) (now : ℕ)
      → now ≤ mono.now_micros m
      → mono.now_micros m < 2 ^ 64
      → Sound c now
      → Sound (set m t c).1 (mono.now_micros m)
  unfolding set
  set-Sound m t c now later fits (inl (na, ne)) = elim (Bool-cases (refuses m t c)) [
    | inl bad ↦ inl (ground arith)
    | inr good ↦
        let (e, te, low, high) = refuses_first m t c na good in
        inr (e, mono.now_micros m, e, mono.now_micros m, unfold anchored in ground arith)
  ]
  set-Sound m t c now later fits (inr (a, am, e, em, s)) = elim (Bool-cases (refuses m t c)) [
    | inl bad ↦ inr (a, am, e, em, ground arith)
    | inr good ↦
        let (e', te, near) = refuses_next m t c a s.0 s.4 s.5 fits good in
        inr (a, am, e', mono.now_micros m, unfold anchored elapsed_secs in ground arith)
  ]

module _ (M : Type 0) ⦃mono : Monotonic M⦄ where
  -- Calls of `set` from boot on, at readings of the timer that do not fall; the number is the last
  -- reading.
  pub data History : Clock → ℕ → Type 0 where
    boot : (c : Clock) → c ≡ new → History c 0
    call :
        {c : Clock} {now : ℕ}
        → History c now
        → (m : M) (t : ℤ) → now ≤ mono.now_micros m
        → mono.now_micros m < 2 ^ 64
        → History (set m t c).1 (mono.now_micros m)

module _ {M : Type 0} ⦃mono : Monotonic M⦄ where
  History-Sound : {c : Clock} {now : ℕ} → History M c now → Sound c now
  History-Sound (boot c e) = inl (ground arith)
  History-Sound (call {c = c} {now = now} h m t later fits) =
      set-Sound m t c now later fits (History-Sound h)

  -- What the clock answers now, as the boot anchor and the timer have it, and the difference.
  abbrev pub Bounded : M → Clock → Type 0
  Bounded m c =
      (x : ℕ) × (y : ℕ) × (now_unix m c ≡ ok (some (pos x)))
      × (trusted_now m c ≡ some (pos y))
      × Near (max_drift_secs + 1) x y
      × (x < 2 ^ 62)

  unset_now : (m : M) (c : Clock) → c.epoch_unix ≡ none → now_unix m c ≡ ok none
  unfolding now_unix moved_on
  unset_now m c e = ap (λ o. moved_on o (elapsed_secs m c.epoch_mono_us)) e

  now_unix_at :
      (m : M) (c : Clock) (e em : ℕ)
      → c.epoch_unix ≡ some (pos e)
      → c.epoch_mono_us ≡ em
      → e + elapsed_secs m em < 2 ^ 62
      → now_unix m c ≡ ok (some (pos (e + elapsed_secs m em)))
  unfolding now_unix moved_on
  now_unix_at m c e em he hm h =
      ap (λ o. moved_on o (elapsed_secs m c.epoch_mono_us)) he
      ∙ (ap (λ n. moved_on (some (pos e)) (elapsed_secs m n)) hm
          ∙ ap no_overflow (checked_add-pos e (elapsed_secs m em) h))

  drift_at :
      (m : M) (c : Clock) (now a am e em : ℕ)
      → now ≤ mono.now_micros m
      → mono.now_micros m < 2 ^ 64
      → Anchored c now a am e em
      → Bounded m c
  unfolding trusted_now
  drift_at m c now a am e em later fits s =
      let small = expected_fits m a am s.5 fits in
      let same = saturating_add-pos a (elapsed_secs m am) small in
      let low : e + elapsed_secs m em < 2 ^ 62 = unfold elapsed_secs in omega arith in
      (
        e + elapsed_secs m em,
        a + elapsed_secs m am,
        now_unix_at m c e em s.2 s.3 low,
        ground (arith, same),
        unfold elapsed_secs in omega arith,
        low,
      )

  -- After any history of `set` a reading does not overflow.
  pub now_unix_fits :
      (m : M) (c : Clock) (now : ℕ)
      → History M c now
      → now ≤ mono.now_micros m
      → mono.now_micros m < 2 ^ 64
      → (t : Option ℤ) × (now_unix m c ≡ ok t)
  now_unix_fits m c now h later fits = elim (History-Sound h) [
    | inl unset ↦ (none, unset_now m c unset.1)
    | inr (a, am, e, em, sound) ↦
        let (x, y, reads, _, _, _) = drift_at m c now a am e em later fits sound in
        (some (pos x), reads)
  ]

  -- After any history of `set`, accepted and refused, a clock that is set answers a time within 901
  -- seconds (the bound and a second of rounding) of what the boot anchor and the timer give, at
  -- every later reading; its sum does not overflow, and that time is below 2 ^ 62.
  pub now_unix-Bounded :
      (m : M) (c : Clock) (now : ℕ)
      → History M c now
      → now ≤ mono.now_micros m
      → mono.now_micros m < 2 ^ 64
      → is_set c ≡ true
      → Bounded m c
  unfolding is_set
  now_unix-Bounded m c now h later fits s = elim (History-Sound h) [
    | inl unset ↦ absurd (ground arith)
    | inr (a, am, e, em, sound) ↦ drift_at m c now a am e em later fits sound
  ]

  -- On a clock that is anchored at a plausible time, at a reading of the timer that fits 64 bits, `set`
  -- accepts exactly the times within 900 seconds of what the anchor and the timer give.
  pub set_accepts_iff :
      (m : M) (t : ℤ) (c : Clock) (a : ℕ)
      → c.trust_anchor_unix ≡ some (pos a)
      → min_plausible_unix ≤ a
      → a ≤ max_plausible_unix
      → mono.now_micros m < 2 ^ 64
      → (is_ok (set m t c).0 ≡ true) ↔ (
          (e : ℕ) × (t ≡ pos e) × Near max_drift_secs e (a + elapsed_secs m c.trust_anchor_mono_us))
  unfolding set
  set_accepts_iff m t c a ha low high fits = (
    λ h. refuses_next m t c a ha low high fits (ground arith),
    λ (e, te, near).
        let small = expected_fits m a c.trust_anchor_mono_us high fits in
        let same = saturating_add-pos a (elapsed_secs m c.trust_anchor_mono_us) small in
        let near' = Near-too_far e (a + elapsed_secs m c.trust_anchor_mono_us) small near in
        unfold refuses in ground (arith, same, near'),
  )
