-- ===== src/Firmware/Otp/Rows.antt =====
-- hsm-fw/src/otp_secret.rs: which rows its steps touch. Of the memory's driver only this is taken: a
-- read that succeeds returns what the row holds and changes nothing, a row that is written changes no
-- other, and a row's error-corrected value has 16 bits. Any read or write may fail at any time, and
-- one that fails, as where the power goes, leaves anything in its own row.
use picosignet.Prelude.{
  ℕ, zero, suc, ◌+◌, ◌/◌, ◌%◌, [], ◌∷◌, ◌<◌, ◌≡◌, ◌≢◌, refl, sym, ap, ◌∙◌, arith, true, Result, ok,
  err, Exec, map_err, ◌==◌, ==_iff, Ends, ok-Ends, err-Ends, Triple, pure-Triple, raise-Triple,
  if-Triple, from-Triple, to-Triple, then_Triple,
}
use picosignet.Prelude.Bytes.{Bytes}
use picosignet.Hal.{secret}
use picosignet.Firmware.Otp.{
  Otp, or_secret, write_verified, ensure_hard_lock, has_lock, lock1_row, lock1_value, void_row,
  marker_void, void_slot, read_rows, word,
}

-- A row's error-corrected value, and its raw one.
pub record OtpLaws {O : Type 0} (otp : Otp O) : Type 0 where
  pub cell : O → ℕ → ℕ × ℕ
  pub ecc_small : (o : O) (row : ℕ) → (cell o row).0 < 65536
  pub read_ecc_keeps : (row s : ℕ) (o : O) → cell (otp.read_ecc_word row o).1 s ≡ cell o s
  pub read_ecc_cell :
      (row : ℕ) (o : O) (v : ℕ) → (otp.read_ecc_word row o).0 ≡ ok v → v ≡ (cell o row).0
  pub read_raw_keeps : (row s : ℕ) (o : O) → cell (otp.read_raw_word row o).1 s ≡ cell o s
  pub read_raw_cell :
      (row : ℕ) (o : O) (v : ℕ) → (otp.read_raw_word row o).0 ≡ ok v → v ≡ (cell o row).1
  pub write_ecc_other :
      (row v s : ℕ) (o : O) → s ≢ row → cell (otp.write_ecc_word row v o).1 s ≡ cell o s
  pub write_raw_other :
      (row v s : ℕ) (o : O) → s ≢ row → cell (otp.write_raw_word row v o).1 s ≡ cell o s

module _ {O A : Type 0} {good : A → O → Type 0} {bad : O → Type 0} where
  secret-Ends :
      (r : Result (Unit {0}) A) (t : O)
      → Ends good bad r t
      → Ends good bad (map_err (λ _. secret) r) t
  secret-Ends (ok a) t p = ok-Ends a (p.on_ok a refl)
  secret-Ends (err u) t p = err-Ends secret (p.on_err u refl)

module _ {O A : Type 0} {pre : O → Type 0} {good : A → O → Type 0} {bad : O → Type 0} where
  pub or_secret-Triple :
      {m : Exec (Unit {0}) O A} → Triple pre good bad m → Triple pre good bad (or_secret m)
  or_secret-Triple {m} t = record { run = λ o p. secret-Ends (m o).0 (m o).1 (t.run o p) }

module _ {O : Type 0} ⦃otp : Otp O⦄ (laws : OtpLaws otp) where
  abbrev pub ecc : O → ℕ → ℕ
  ecc o row = (laws.cell o row).0

  abbrev pub raw : O → ℕ → ℕ
  raw o row = (laws.cell o row).1

  -- What holds of a state holds of every other that differs from it in this row at most.
  abbrev pub Stable : ℕ → (O → Type 0) → Type 0
  Stable row P = (t u : O) → ((s : ℕ) → s ≢ row → laws.cell u s ≡ laws.cell t s) → P t → P u

  -- What holds of a state by its rows.
  abbrev pub Fixed : (O → Type 0) → Type 0
  Fixed P = (t u : O) → ((s : ℕ) → laws.cell u s ≡ laws.cell t s) → P t → P u

  pub Stable-Fixed : (P : O → Type 0) (row : ℕ) → Stable row P → Fixed P
  Stable-Fixed P row stable t u h = stable t u (λ s n. h s)

  module _ (P : O → Type 0) (fixed : Fixed P) where
    pub read_ecc-Triple : (r : ℕ) → Triple P (λ v t. P t × (v ≡ ecc t r)) P (otp.read_ecc_word r)
    read_ecc-Triple r = record {
      run = λ o p.
          let q = fixed o (otp.read_ecc_word r o).1 (λ s. laws.read_ecc_keeps r s o) p in
          record {
            on_ok = λ v e.
                (q, laws.read_ecc_cell r o v e ∙ ap (λ c. c.0) (sym (laws.read_ecc_keeps r r o)));
            on_err = λ x e. q;
          };
    }

    pub read_raw-Triple : (r : ℕ) → Triple P (λ v t. P t × (v ≡ raw t r)) P (otp.read_raw_word r)
    read_raw-Triple r = record {
      run = λ o p.
          let q = fixed o (otp.read_raw_word r o).1 (λ s. laws.read_raw_keeps r s o) p in
          record {
            on_ok = λ v e.
                (q, laws.read_raw_cell r o v e ∙ ap (λ c. c.1) (sym (laws.read_raw_keeps r r o)));
            on_err = λ x e. q;
          };
    }

  module _ (P : O → Type 0) (row : ℕ) (stable : Stable row P) where
    write_ecc-Triple : (v : ℕ) → Triple P (λ _. P) P (otp.write_ecc_word row v)
    write_ecc-Triple v = record {
      run = λ o p.
          let q =
            stable o (otp.write_ecc_word row v o).1 (λ s n. laws.write_ecc_other row v s o n) p in
          record { on_ok = λ u e. q; on_err = λ x e. q };
    }

    write_raw-Triple : (v : ℕ) → Triple P (λ _. P) P (otp.write_raw_word row v)
    write_raw-Triple v = record {
      run = λ o p.
          let q =
            stable o (otp.write_raw_word row v o).1 (λ s n. laws.write_raw_other row v s o n) p in
          record { on_ok = λ u e. q; on_err = λ x e. q };
    }

    -- A row that was written and read back holds the value.
    pub write_verified-Triple :
        (v : ℕ) → Triple P (λ _ t. P t × (ecc t row ≡ v)) P (write_verified row v)
    unfolding write_verified
    write_verified-Triple v = then_Triple (or_secret-Triple (write_ecc-Triple v)) λ u.
        then_Triple (or_secret-Triple (read_ecc-Triple P (Stable-Fixed P row stable) row)) λ w.
          if-Triple (w == v) (λ e. pure-Triple tt (λ t g. (g.0, sym g.1 ∙ (==_iff w v).0 e)))
            (λ e. raise-Triple secret (λ t g. g.0))

  -- The lock of a page was set, or found set.
  pub ensure_hard_lock-Triple :
      (P : O → Type 0) (page : ℕ)
      → Stable (lock1_row page) P
      → Triple P (λ _ t. P t × (has_lock (raw t (lock1_row page)) ≡ true)) P (ensure_hard_lock page)
  unfolding ensure_hard_lock
  ensure_hard_lock-Triple P page stable =
      let row = lock1_row page in
      then_Triple (or_secret-Triple (read_raw-Triple P (Stable-Fixed P row stable) row)) λ v.
        if-Triple (has_lock v) (λ e. pure-Triple tt (λ t g. (g.0, ap has_lock (sym g.1) ∙ e)))
          (λ _.
            from-Triple (λ t g. g.0)
              (then_Triple (or_secret-Triple (write_raw-Triple P row stable lock1_value)) λ u.
                then_Triple (or_secret-Triple (read_raw-Triple P (Stable-Fixed P row stable) row))
                  λ w.
                    if-Triple (has_lock w)
                      (λ e. pure-Triple tt (λ t g. (g.0, ap has_lock (sym g.1) ∙ e)))
                      (λ e. raise-Triple secret (λ t g. g.0))))

  pub void_slot-stable :
      (P : O → Type 0) (page : ℕ) → Stable (void_row page) P → (o : O) → P o → P (void_slot page o)
  unfolding void_slot
  void_slot-stable P page stable o p =
      stable o _ (λ s n. laws.write_ecc_other (void_row page) marker_void s o n) p

  word_at :
      (t : O) (row w : ℕ) (rest : Bytes) (n : ℕ)
      → w ≡ ecc t row
      → ((i : ℕ) → i < n → ecc t (row + 1 + i) ≡ word rest i)
      → (i : ℕ) → i < suc n
      → ecc t (row + i) ≡ word ((w % 256) ∷ (w / 256 % 256) ∷ rest) i
  unfolding word
  word_at t row w rest n e h zero l =
      let here : row + 0 ≡ row = omega arith in
      ap (λ r. ecc t r) here ∙ omega (arith, laws.ecc_small t row)
  word_at t row w rest n e h (suc i) l =
      let next : row + suc i ≡ row + 1 + i = omega arith in
      ap (λ r. ecc t r) next ∙ h i (omega arith)

  -- The bytes that were read are those of the rows.
  pub read_rows-Triple :
      (P : O → Type 0)
      → Fixed P
      → (n row : ℕ)
      → Triple P (λ s t. P t × ((i : ℕ) → i < n → ecc t (row + i) ≡ word s i)) P (read_rows n row)
  unfolding read_rows
  read_rows-Triple P fixed zero row = pure-Triple [] (λ t p. (p, λ i h. absurd (omega arith)))
  read_rows-Triple P fixed (suc n) row = then_Triple (read_ecc-Triple P fixed row) λ w.
      then_Triple
        (to-Triple (λ a t g. g) (λ t g. g.0)
          (read_rows-Triple (λ t. P t × (w ≡ ecc t row))
            (λ t u h p. (fixed t u h p.0, p.1 ∙ sym (ap (λ c. c.0) (h row)))) n (row + 1)))
        λ rest. pure-Triple _ (λ t g. (g.0.0, word_at t row w rest n g.0.1 g.1))
