-- ===== src/Firmware/Otp/Burn.antt =====
-- hsm-fw/src/otp_secret.rs: what `provision` leaves in a slot, wherever it fails.
use picosignet.Prelude.{
  ℕ, zero, suc, ◌+◌, ◌<◌, ◌≡◌, ◌≢◌, refl, sym, ap, ◌∙◌, arith, false, inl, inr, ◌==◌, ==_iff,
  Bool-cases, Result, ok, err, Ends, err-Ends, Triple, pure-Triple, from-Triple, to-Triple,
  then_Triple,
}
use picosignet.Prelude.Bytes.{Bytes}
use picosignet.Hal.{HalError, secret}
use picosignet.Firmware.Otp.{
  Otp, marker_valid, lock1_row, base_row, marker_row, void_row, degenerate, word, write_rows,
  burn_rows, burnt, burn,
}
use picosignet.Firmware.Otp.Rows.{
  OtpLaws, ecc, Stable, write_verified-Triple, ensure_hard_lock-Triple, void_slot-stable,
}
use picosignet.Firmware.Otp.Slots.{Holds, IsSettled}

module _ {O : Type 0} ⦃otp : Otp O⦄ (laws : OtpLaws otp) (page : ℕ) (low : page < 62)
    (P : O → Type 0) (at_rows : (i : ℕ) → i < 16 → Stable laws (base_row page + i) P)
    (at_mark : Stable laws (marker_row page) P) (at_void : Stable laws (void_row page) P)
    (at_lock : Stable laws (lock1_row page) P) (s : Bytes) (sound : degenerate s ≡ false) where
  abbrev mark : O → ℕ
  mark t = ecc laws t (marker_row page)

  -- Before the marker is written: the first `i` rows are there, and the slot counts as no secret.
  abbrev Begun : ℕ → O → Type 0
  Begun i t =
      P t
      × (ecc laws t (void_row page) ≡ 0)
      × (mark t ≢ marker_valid)
      × ((j : ℕ) → j < i → ecc laws t (base_row page + j) ≡ word s j)

  -- From then on: all rows are there.
  abbrev Whole : O → Type 0
  Whole t = P t × (ecc laws t (void_row page) ≡ 0) × Holds laws page s t

  -- What is left at a failure: a valid marker stands over the whole secret only.
  abbrev pub Fine : O → Type 0
  Fine t = P t × (mark t ≡ marker_valid → Holds laws page s t)

  at_row : (i : ℕ) → i < 16 → Stable laws (base_row page + i) (Begun i)
  at_row i l t u h (p, void, none_yet, rows) = (
    at_rows i l t u h p,
    ap (λ c. c.0) (h (void_row page) (λ e. omega arith)) ∙ void,
    λ m. none_yet (sym (ap (λ c. c.0) (h (marker_row page) (λ e. omega arith))) ∙ m),
    λ j k. ap (λ c. c.0) (h (base_row page + j) (λ e. omega arith)) ∙ rows j k,
  )

  one_more :
      (t : O) (i : ℕ)
      → ((j : ℕ) → j < i → ecc laws t (base_row page + j) ≡ word s j)
      → ecc laws t (base_row page + i) ≡ word s i
      → (j : ℕ) → j < i + 1
      → ecc laws t (base_row page + j) ≡ word s j
  one_more t i rows here j l = elim (Bool-cases (j == i)) [
    | inl e ↦
        let same = (==_iff j i).0 e in
        ap (λ k. ecc laws t (base_row page + k)) same ∙ (here ∙ ap (λ k. word s k) (sym same))
    | inr e ↦ rows j (ground arith)
  ]

  write_rows-Triple :
      (n i : ℕ) → i + n ≡ 16 → Triple (Begun i) (λ _. Begun 16) Fine (write_rows page s n i)
  unfolding write_rows
  write_rows-Triple zero i e = pure-Triple tt (λ t g. (g.0, g.1, g.2, λ j k. g.3 j (omega arith)))
  write_rows-Triple (suc n) i e =
      then_Triple
        (to-Triple (λ _ t g. (g.0.0, g.0.1, g.0.2, one_more t i g.0.3 g.1))
          (λ t g. (g.0, λ m. absurd (g.2 m)))
          (write_verified-Triple laws (Begun i) (base_row page + i) (at_row i (omega arith))
            (word s i)))
        λ u. write_rows-Triple n (i + 1) (omega arith)

  mark_Stable : Stable laws (marker_row page) Whole
  mark_Stable t u h (p, void, rows) = (
    at_mark t u h p,
    ap (λ c. c.0) (h (void_row page) (λ e. omega arith)) ∙ void,
    λ j k. ap (λ c. c.0) (h (base_row page + j) (λ e. omega arith)) ∙ rows j k,
  )

  lock_Stable : Stable laws (lock1_row page) (λ t. Whole t × (mark t ≡ marker_valid))
  lock_Stable t u h ((p, void, rows), m) = (
    (
      at_lock t u h p,
      ap (λ c. c.0) (h (void_row page) (λ e. omega arith)) ∙ void,
      λ j k. ap (λ c. c.0) (h (base_row page + j) (λ e. omega arith)) ∙ rows j k,
    ),
    ap (λ c. c.0) (h (marker_row page) (λ e. omega arith)) ∙ m,
  )

  void_Stable : Stable laws (void_row page) Fine
  void_Stable t u h (p, rows) = (
    at_void t u h p,
    λ m j k.
        ap (λ c. c.0) (h (base_row page + j) (λ e. omega arith))
        ∙ rows (sym (ap (λ c. c.0) (h (marker_row page) (λ e. omega arith))) ∙ m) j k,
  )

  abbrev pub Burnt : Bytes → O → Type 0
  Burnt k t = (k ≡ s) × P t × IsSettled laws page s t

  burn_rows-Triple : Triple (Begun 0) Burnt Fine (burn_rows page s)
  unfolding burn_rows
  burn_rows-Triple = then_Triple (write_rows-Triple 16 0 (omega arith)) λ _.
      then_Triple
        (to-Triple (λ _ t g. g) (λ t g. (g.0, λ m. g.2))
          (from-Triple {pre = Whole} (λ t g. (g.0, g.1, g.3))
            (write_verified-Triple laws Whole (marker_row page) mark_Stable marker_valid)))
        λ _.
          then_Triple
            (to-Triple (λ _ t g. g) (λ t g. (g.0.0, λ m. g.0.2))
              (ensure_hard_lock-Triple laws (λ t. Whole t × (mark t ≡ marker_valid)) page
                lock_Stable))
            λ _. pure-Triple s λ t g. (
              refl,
              g.0.0.0,
              record {
                holds = g.0.0.2;
                marked = g.0.1;
                kept = g.0.0.1;
                locked = g.1;
                sound = sound;
              },
            )

  burnt-Ends :
      (r : Result HalError Bytes) (t : O)
      → Ends Burnt Fine r t
      → Ends Burnt Fine (burnt page r t).0 (burnt page r t).1
  unfolding burnt
  burnt-Ends (ok k) t p = p
  burnt-Ends (err e) t p =
      err-Ends secret (void_slot-stable laws Fine page void_Stable t (p.on_err e refl))

  pub burn-Triple : Triple (Begun 0) Burnt Fine (burn page s)
  unfolding burn
  burn-Triple = record {
    run =
        λ o p. burnt-Ends (burn_rows page s o).0 (burn_rows page s o).1 (burn_rows-Triple.run o p);
  }
