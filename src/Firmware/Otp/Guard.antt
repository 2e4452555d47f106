-- ===== src/Firmware/Otp/Guard.antt =====
-- hsm-fw/src/otp_secret.rs: what a valid marker stands over while the slots are worked on.
use mathlib.Core.Path.{subst}
use picosignet.Prelude.{
  ℕ, ◌+◌, ◌<◌, ◌≡◌, ◌≢◌, refl, sym, ap, ◌∙◌, arith, inl, inr, ◌⊎◌, ◌==◌, ==_iff, Bool-cases,
}
use picosignet.Prelude.Bytes.{Bytes}
use picosignet.Firmware.Otp.{
  Otp, secret_rows, marker_valid, lock1_row, base_row, marker_row, void_row, has_lock,
}
use picosignet.Firmware.Otp.Rows.{OtpLaws, ecc, Stable}
use picosignet.Firmware.Otp.Slots.{Holds, IsSettled}

module _ {O : Type 0} ⦃otp : Otp O⦄ (laws : OtpLaws otp) (start : O) where
  abbrev pub mark : ℕ → O → ℕ
  mark q t = ecc laws t (marker_row q)

  -- The rows of a page are those of the start.
  abbrev pub Kept : ℕ → O → Type 0
  Kept q t =
      (mark q start ≡ marker_valid)
      × ((i : ℕ) → i < secret_rows → ecc laws t (base_row q + i) ≡ ecc laws start (base_row q + i))

  module _ (D : Bytes → Type 0) where
    -- A valid marker stands over what it stood over, or over a whole secret of these.
    abbrev pub Guarded : ℕ → O → Type 0
    Guarded q t = mark q t ≡ marker_valid → Kept q t ⊎ ((s : Bytes) × D s × Holds laws q s t)

    Guarded-Stable :
        (q row : ℕ) → ((i : ℕ) → i < 17 → base_row q + i ≢ row) → Stable laws row (Guarded q)
    Guarded-Stable q row away t u h g m =
        let same = λ (i : ℕ) (l : i < 17). ap (λ c. c.0) (h (base_row q + i) (away i l)) in
        elim (g (sym (same 16 (omega arith)) ∙ m)) [
          | inl (was, rows) ↦ inl (was, λ i l. same i (omega arith) ∙ rows i l)
          | inr (s, drawn, rows) ↦ inr (s, drawn, λ i l. same i (omega arith) ∙ rows i l)
        ]

    abbrev pub Inv : O → Type 0
    Inv t = (q : ℕ) → q < 62 → Guarded q t

    pub start-Inv : Inv start
    start-Inv q l m = inl (m, λ i k. refl)

    pub Inv-void : (page : ℕ) → page < 62 → Stable laws (void_row page) Inv
    Inv-void page low t u h g q l =
        Guarded-Stable q (void_row page) (λ i k e. omega arith) t u h (g q l)

    pub Inv-lock : (page : ℕ) → Stable laws (lock1_row page) Inv
    Inv-lock page t u h g q l =
        Guarded-Stable q (lock1_row page) (λ i k e. omega arith) t u h (g q l)

    -- Of every page but one.
    abbrev pub Others : ℕ → O → Type 0
    Others page t = (q : ℕ) → q < 62 → q ≢ page → Guarded q t

    -- No row of a page is one that another page's guard looks at.
    pub Others-Stable :
        (page j : ℕ) → page < 62 → j < 18 → Stable laws (base_row page + j) (Others page)
    Others-Stable page j low k t u h g q l ne =
        Guarded-Stable q (base_row page + j) (λ i m e. ne (omega arith)) t u h (g q l ne)

    pub Others-lock : (page p : ℕ) → Stable laws (lock1_row p) (Others page)
    Others-lock page p t u h g q l ne =
        Guarded-Stable q (lock1_row p) (λ i k e. omega arith) t u h (g q l ne)

    pub Inv-Others : (page : ℕ) (t : O) → Others page t → Guarded page t → Inv t
    Inv-Others page t others this q l = elim (Bool-cases (q == page)) [
      | inl e ↦ subst (λ x. Guarded x t) (sym ((==_iff q page).0 e)) this
      | inr e ↦ others q l (λ same. ground arith)
    ]

  -- A lock of another page leaves a settled slot settled.
  pub IsSettled-lock :
      (page p : ℕ) (s : Bytes)
      → page < 62
      → p ≢ page
      → Stable laws (lock1_row p) (IsSettled laws page s)
  IsSettled-lock page p s low ne t u h v = record {
    holds = λ i l. ap (λ c. c.0) (h (base_row page + i) (λ e. omega arith)) ∙ v.holds i l;
    marked = ap (λ c. c.0) (h (marker_row page) (λ e. omega arith)) ∙ v.marked;
    kept = ap (λ c. c.0) (h (void_row page) (λ e. omega arith)) ∙ v.kept;
    locked = ap (λ c. has_lock c.1) (h (lock1_row page) (λ e. ne (omega arith))) ∙ v.locked;
    sound = v.sound;
  }
