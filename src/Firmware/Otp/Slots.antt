-- ===== src/Firmware/Otp/Slots.antt =====
-- hsm-fw/src/otp_secret.rs: what `try_load` and `provision` make of a slot.
use picosignet.Prelude.{
  ℕ, zero, suc, ◌+◌, ◌<◌, ◌≡◌, refl, sym, ap, ◌∙◌, arith, true, false, not, inl, inr, Result, ok,
  err, Exec, ◌==◌, ==_iff, Bool-cases, Ends, ok-Ends, Triple, pure-Triple, if-Triple, from-Triple,
  to-Triple, then_Triple,
}
use picosignet.Prelude.Bytes.{Bytes}
use picosignet.Hal.{HalError}
use picosignet.Firmware.Otp.{
  Otp, secret_rows, marker_valid, lock1_row, base_row, marker_row, void_row, SlotState, valid,
  blank, unusable, degenerate, word, has_lock, ensure_hard_lock, abandon, locked_up, blank_row,
  confirm, check_blank, judge, look,
}
use picosignet.Firmware.Otp.Rows.{
  OtpLaws, ecc, raw, Stable, Fixed, Stable-Fixed, read_ecc-Triple, ensure_hard_lock-Triple,
  void_slot-stable, read_rows-Triple,
}

module _ {O : Type 0} ⦃otp : Otp O⦄ (laws : OtpLaws otp) where
  -- The rows of a slot hold the words of these bytes.
  abbrev pub Holds : ℕ → Bytes → O → Type 0
  Holds page s t = (i : ℕ) → i < secret_rows → ecc laws t (base_row page + i) ≡ word s i

  -- A slot whose secret is whole, marked, not given up and locked.
  pub record IsSettled (page : ℕ) (s : Bytes) (t : O) : Type 0 where
    pub holds : Holds page s t
    pub marked : ecc laws t (marker_row page) ≡ marker_valid
    pub kept : ecc laws t (void_row page) ≡ 0
    pub locked : has_lock (raw laws t (lock1_row page)) ≡ true
    pub sound : degenerate s ≡ false

  -- What the outcome of a look says of the slot.
  unfoldable pub Says : ℕ → SlotState → O → Type 0
  Says page (valid s) t = IsSettled page s t
  Says page blank t = (ecc laws t (marker_row page) ≡ 0) × (ecc laws t (void_row page) ≡ 0)
  Says page unusable t = Unit

  module _ (page : ℕ) (low : page < 62) (P : O → Type 0) (at_void : Stable laws (void_row page) P)
      (at_lock : Stable laws (lock1_row page) P) where
    fixed : Fixed laws P
    fixed = Stable-Fixed laws P (void_row page) at_void

    abbrev Judged : SlotState → O → Type 0
    Judged st t = P t × Says page st t

    abandon-Triple : Triple P Judged P (abandon page)
    unfolding abandon Says
    abandon-Triple = record {
      run = λ o p. ok-Ends unusable (void_slot-stable laws P page at_void o p, tt);
    }

    -- A secret that was read from a slot that is marked and not given up.
    abbrev Seen : Bytes → O → Type 0
    Seen s t =
        P t
        × Holds page s t
        × (ecc laws t (marker_row page) ≡ marker_valid)
        × (ecc laws t (void_row page) ≡ 0)

    Stable-Seen : (s : Bytes) → Stable laws (lock1_row page) (Seen s)
    Stable-Seen s t u h (p, rows, marker, void) = (
      at_lock t u h p,
      λ i l. ap (λ c. c.0) (h (base_row page + i) (λ e. omega arith)) ∙ rows i l,
      ap (λ c. c.0) (h (marker_row page) (λ e. omega arith)) ∙ marker,
      ap (λ c. c.0) (h (void_row page) (λ e. omega arith)) ∙ void,
    )

    locked_up-Ends :
        (s : Bytes) (r : Result HalError (Unit {0})) (t : O)
        → degenerate s ≡ false
        → Ends (λ _ t. Seen s t × (has_lock (raw laws t (lock1_row page)) ≡ true)) (Seen s) r t
        → Ends Judged P (locked_up page s r t).0 (locked_up page s r t).1
    unfolding Says locked_up
    locked_up-Ends s (ok u) t sound p =
        let ((q, rows, marker, void), lock) = p.on_ok u refl in
        ok-Ends (valid s)
          (q, record { holds = rows; marked = marker; kept = void; locked = lock; sound = sound })
    locked_up-Ends s (err e) t sound p = abandon-Triple.run t (p.on_err e refl).0

    confirm-Triple : (s : Bytes) → Triple (Seen s) Judged P (confirm page s)
    unfolding confirm
    confirm-Triple s = record {
      run = λ o p. elim (Bool-cases (degenerate s)) [
        | inl bad ↦ rw bad (abandon-Triple.run o p.0)
        | inr sound ↦ rw sound (
            locked_up-Ends s (ensure_hard_lock page o).0 (ensure_hard_lock page o).1 sound
              ((ensure_hard_lock-Triple laws (Seen s) page (Stable-Seen s)).run o p))
      ];
    }

    abbrev Empty : O → Type 0
    Empty t = P t × (ecc laws t (marker_row page) ≡ 0) × (ecc laws t (void_row page) ≡ 0)

    fixed-Empty : Fixed laws Empty
    fixed-Empty t u h (p, marker, void) = (
      fixed t u h p,
      ap (λ c. c.0) (h (marker_row page)) ∙ marker,
      ap (λ c. c.0) (h (void_row page)) ∙ void,
    )

    blank_row-Ends :
        {G : ℕ → O → Type 0} (r : Result (Unit {0}) ℕ) (rest : Exec (Unit {0}) O SlotState) (t : O)
        → Triple Empty Judged P rest
        → Ends (λ v t. Empty t × G v t) Empty r t
        → Ends Judged P (blank_row page r rest t).0 (blank_row page r rest t).1
    unfolding blank_row
    blank_row-Ends (ok v) rest t k p =
        (if-Triple {pre = Empty} (v == 0) (λ _. k)
            (λ _. from-Triple (λ t p. p.0) abandon-Triple)).run
          t (p.on_ok v refl).0
    blank_row-Ends (err e) rest t k p = abandon-Triple.run t (p.on_err e refl).0

    check_blank-Triple : (n row : ℕ) → Triple Empty Judged P (check_blank page n row)
    unfolding check_blank Says
    check_blank-Triple zero row = record { run = λ o p. ok-Ends blank (p.0, (p.1, p.2)) }
    check_blank-Triple (suc n) row = record {
      run = λ o p.
          blank_row-Ends (otp.read_ecc_word row o).0 (check_blank page n (row + 1)) _
            (check_blank-Triple n (row + 1)) ((read_ecc-Triple laws Empty fixed-Empty row).run o p);
    }

    abbrev Marks : ℕ → ℕ → O → Type 0
    Marks marker void t =
        (P t × (marker ≡ ecc laws t (marker_row page))) × (void ≡ ecc laws t (void_row page))

    fixed-Marks : (marker void : ℕ) → Fixed laws (Marks marker void)
    fixed-Marks marker void t u h ((p, m), v) = (
      (fixed t u h p, m ∙ sym (ap (λ c. c.0) (h (marker_row page)))),
      v ∙ sym (ap (λ c. c.0) (h (void_row page))),
    )

    judge-Triple : (marker void : ℕ) → Triple (Marks marker void) Judged P (judge page marker void)
    unfolding judge Says
    judge-Triple marker void =
        if-Triple (not (void == 0)) (λ e. pure-Triple unusable (λ t p. (p.0.0, tt)))
          (λ e.
            if-Triple (marker == marker_valid)
              (λ m.
                then_Triple
                  (to-Triple
                    (λ s t g.
                      (g.0.0.0, g.1, sym g.0.0.1 ∙ (==_iff marker marker_valid).0 m, ground arith))
                    (λ t g. g.0.0)
                    (read_rows-Triple laws (Marks marker void) (fixed-Marks marker void) secret_rows
                      (base_row page)))
                  (λ s. confirm-Triple s))
              (λ m.
                if-Triple (not (marker == 0)) (λ k. from-Triple (λ t p. p.0.0) abandon-Triple)
                  (λ k.
                    from-Triple (λ t p. (p.0.0, ground arith, ground arith))
                      (check_blank-Triple secret_rows (base_row page)))))

    pub look-Triple : Triple P Judged P (look page)
    unfolding look
    look-Triple = then_Triple (read_ecc-Triple laws P fixed (marker_row page)) λ marker.
        then_Triple
          (to-Triple (λ v t g. g) (λ t g. g.0)
            (read_ecc-Triple laws (λ t. P t × (marker ≡ ecc laws t (marker_row page)))
              (λ t u h p. (fixed t u h p.0, p.1 ∙ sym (ap (λ c. c.0) (h (marker_row page)))))
              (void_row page)))
          (λ void. judge-Triple marker void)
