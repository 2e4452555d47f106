-- ===== src/Firmware/Otp/Again.antt =====
-- hsm-fw/src/otp_secret.rs: a boot after the secret was provisioned.
use mathlib.Core.Path.{subst}
use picosignet.Prelude.{
  ℕ, zero, suc, ◌+◌, ◌*◌, ◌/◌, ◌%◌, ◌<◌, ◌≡◌, ◌≢◌, refl, sym, ap, ◌∙◌, arith, [], ◌∷◌, true, not,
  ◌==◌, Result, ok, err, Exec, is_ok, length, All, Ends, ok-Ends, Triple, pure-Triple, if-Triple,
  from-Triple, to-Triple, then_Triple,
}
use picosignet.Prelude.Bytes.{Bytes, IsByte}
use picosignet.Hal.{HalError, EntropySource}
use picosignet.Crypto.{Crypto, ChaCha}
use picosignet.Firmware.Otp.{
  Otp, secret_rows, marker_valid, lock1_row, base_row, marker_row, void_row, SlotState, valid,
  unusable, word, has_lock, ensure_hard_lock, read_rows, locked_up, confirm, judge, look, try_load,
  or_unusable, returned, choose, load_slots, load_or_provision,
}
use picosignet.Firmware.Otp.Rows.{
  OtpLaws, ecc, raw, Fixed, Stable-Fixed, read_ecc-Triple, read_raw-Triple, or_secret-Triple,
}
use picosignet.Firmware.Otp.Slots.{IsSettled}
use picosignet.Firmware.Otp.Guard.{IsSettled-lock}

-- No read of the memory fails.
pub record IsReadable {O : Type 0} (otp : Otp O) : Type 0 where
  pub ecc_reads : (row : ℕ) (o : O) → is_ok (otp.read_ecc_word row o).0 ≡ true
  pub raw_reads : (row : ℕ) (o : O) → is_ok (otp.read_raw_word row o).0 ≡ true

abbrev Never : {S : Type 0} → S → Type 0
Never s = ⊥

module _ {E S A : Type 0} {good : A → S → Type 0} {bad : S → Type 0} where
  no_err : (r : Result E A) (s : S) → is_ok r ≡ true → Ends good bad r s → Ends good Never r s
  no_err (ok a) s e p = ok-Ends a (p.on_ok a refl)
  no_err (err x) s e p = cc

module _ {E S A : Type 0} {pre : S → Type 0} {good : A → S → Type 0} {bad : S → Type 0} where
  sure :
      {m : Exec E S A}
      → ((s : S) → is_ok (m s).0 ≡ true)
      → Triple pre good bad m
      → Triple pre good Never m
  sure {m} reads t = record { run = λ s p. no_err (m s).0 (m s).1 (reads s) (t.run s p) }

  absurd-Triple : {m : Exec E S A} → ((s : S) → pre s → ⊥) → Triple pre good bad m
  absurd-Triple f = record { run = λ s p. absurd (f s p) }

certain :
    {E S A : Type 0} {P : S → Type 0} {c : A} (r : Result E A) (s : S)
    → Ends (λ a t. P t × (a ≡ c)) Never r s
    → (r ≡ ok c) × P s
certain (ok a) s p = let (q, e) = p.on_ok a refl in (ap ok e, q)
certain (err x) s p = absurd (p.on_err x refl)

two_bytes :
    (w a b : ℕ) (rest s : Bytes)
    → w ≡ b * 256 + a
    → IsByte a
    → IsByte b
    → rest ≡ s
    → (w % 256) ∷ (w / 256 % 256) ∷ rest ≡ a ∷ b ∷ s
two_bytes w a b rest s e ha hb r =
    let low : w % 256 ≡ a = omega arith in let high : w / 256 % 256 ≡ b = omega arith in cc

module _ {O : Type 0} ⦃otp : Otp O⦄ (laws : OtpLaws otp) (reads : IsReadable otp) where
  ecc-Triple :
      (P : O → Type 0)
      → Fixed laws P
      → (r : ℕ) → Triple P (λ v t. P t × (v ≡ ecc laws t r)) Never (otp.read_ecc_word r)
  ecc-Triple P fixed r = sure (reads.ecc_reads r) (read_ecc-Triple laws P fixed r)

  -- Rows that hold the words of some bytes are read as those bytes.
  read_rows_exact :
      (P : O → Type 0)
      → Fixed laws P
      → (n row : ℕ) (s : Bytes) → length s ≡ n * 2
      → All IsByte s
      → ((t : O) → P t → (i : ℕ) → i < n → ecc laws t (row + i) ≡ word s i)
      → Triple P (λ k t. P t × (k ≡ s)) Never (read_rows n row)
  unfolding read_rows word
  read_rows_exact P fixed zero row [] size bytes h = pure-Triple [] (λ t p. (p, refl))
  read_rows_exact P fixed zero row (a ∷ s) size bytes h = absurd (omega arith)
  read_rows_exact P fixed (suc n) row [] size bytes h = absurd (omega arith)
  read_rows_exact P fixed (suc n) row (a ∷ []) size bytes h = absurd (omega arith)
  read_rows_exact P fixed (suc n) row (a ∷ b ∷ s) size bytes h =
      then_Triple (ecc-Triple P fixed row) λ w.
        then_Triple
          (to-Triple (λ k t g. g) (λ t g. g)
            (read_rows_exact (λ t. P t × (w ≡ ecc laws t row))
              (λ t u k p. (fixed t u k p.0, p.1 ∙ sym (ap (λ c. c.0) (k row)))) n (row + 1) s
              (omega arith) bytes.1.1
              λ t p i l.
                let next : row + 1 + i ≡ row + suc i = omega arith in
                ap (λ r. ecc laws t r) next ∙ h t p.0 (suc i) (omega arith)))
          λ rest. pure-Triple _ λ t g.
            let here : row ≡ row + 0 = omega arith in
            let first = g.0.1 ∙ (ap (λ r. ecc laws t r) here ∙ h t g.0.0 0 (omega arith)) in
            (g.0.0, two_bytes w a b rest s first bytes.0 bytes.1.0 g.1)

  module _ (page : ℕ) (s : Bytes) (size : length s ≡ 32) (bytes : All IsByte s) (P : O → Type 0)
      (fixed : Fixed laws P) where
    -- A slot that is settled is read, found locked and taken.
    ensure-Triple :
        ((t : O) → P t → has_lock (raw laws t (lock1_row page)) ≡ true)
        → Triple P (λ _. P) Never (ensure_hard_lock page)
    unfolding ensure_hard_lock
    ensure-Triple locked =
        then_Triple
          (or_secret-Triple (
            sure (reads.raw_reads (lock1_row page))
              (read_raw-Triple laws P fixed (lock1_row page))))
          λ v.
            if-Triple (has_lock v) (λ _. pure-Triple tt (λ t g. g.0))
              (λ e. absurd-Triple (λ t g. cc (locked t g.0, ap has_lock g.1, e)))

    locked_up-Ends :
        (r : Result HalError (Unit {0})) (t : O)
        → Ends (λ _. P) Never r t
        → Ends
            (λ st t. P t × (st ≡ valid s))
            Never
            (locked_up page s r t).0
            (locked_up page s r t).1
    unfolding locked_up
    locked_up-Ends (ok u) t p = ok-Ends (valid s) (p.on_ok u refl, refl)
    locked_up-Ends (err x) t p = absurd (p.on_err x refl)

    confirm-Triple :
        (k : Bytes)
        → ((t : O) → P t → IsSettled laws page s t)
        → Triple (λ t. P t × (k ≡ s)) (λ st t. P t × (st ≡ valid s)) Never (confirm page k)
    unfolding confirm
    confirm-Triple k settled = record {
      run = λ o p.
          rw (p.1, (settled o p.0).sound)
            (locked_up-Ends (ensure_hard_lock page o).0 (ensure_hard_lock page o).1
              ((ensure-Triple (λ t q. (settled t q).locked)).run o p.0));
    }

    abbrev Marks : ℕ → ℕ → O → Type 0
    Marks marker void t =
        (P t × (marker ≡ ecc laws t (marker_row page))) × (void ≡ ecc laws t (void_row page))

    reads-Marks :
        (c : SlotState)
        → ((marker void : ℕ)
            → Triple (Marks marker void) (λ st t. P t × (st ≡ c)) Never (judge page marker void))
        → Triple P (λ st t. P t × (st ≡ c)) Never (look page)
    unfolding look
    reads-Marks c judged = then_Triple (ecc-Triple P fixed (marker_row page)) λ marker.
        then_Triple
          (ecc-Triple (λ t. P t × (marker ≡ ecc laws t (marker_row page)))
            (λ t u h p. (fixed t u h p.0, p.1 ∙ sym (ap (λ c. c.0) (h (marker_row page)))))
            (void_row page))
          (λ void. judged marker void)

    settled-Triple :
        ((t : O) → P t → IsSettled laws page s t)
        → Triple P (λ st t. P t × (st ≡ valid s)) Never (look page)
    unfolding judge
    settled-Triple settled = reads-Marks (valid s) λ marker void.
        if-Triple (not (void == 0))
          (λ e. absurd-Triple (λ t g. ground (arith, g.1, (settled t g.0.0).kept, e)))
          (λ e.
            if-Triple (marker == marker_valid)
              (λ m.
                then_Triple
                  (from-Triple (λ t g. g.0.0)
                    (read_rows_exact P fixed secret_rows (base_row page) s size bytes
                      (λ t p. (settled t p).holds)))
                  (λ k. confirm-Triple k settled))
              (λ m. absurd-Triple (λ t g. ground (arith, g.0.1, (settled t g.0.0).marked, m))))

    given_up-Triple :
        ((t : O) → P t → ecc laws t (void_row page) ≢ 0)
        → Triple P (λ st t. P t × (st ≡ unusable)) Never (look page)
    unfolding judge
    given_up-Triple gone = reads-Marks unusable λ marker void.
        if-Triple (not (void == 0)) (λ e. pure-Triple unusable (λ t g. (g.0.0, refl)))
          (λ e. absurd-Triple (λ t g. gone t g.0.0 (ground (arith, g.1, e))))

  fixed-IsSettled : (page : ℕ) (s : Bytes) (o : O) → page < 62 → Fixed laws (IsSettled laws page s)
  fixed-IsSettled page s o low =
      Stable-Fixed laws (IsSettled laws page s) (lock1_row (page + 1))
        (IsSettled-lock laws o page (page + 1) s low (λ e. omega arith))

  -- The slot that a boot finds the secret in: the first page, or the other where the first is given up.
  pub data IsActive (o : O) : ℕ → Type 0 where
    primary : {page : ℕ} → page ≡ 61 → IsActive o page
    fallback : {page : ℕ} → page ≡ 60 → ecc laws o (void_row 61) ≢ 0 → IsActive o page

  look_settled :
      (page : ℕ) (s : Bytes) (o : O)
      → page < 62
      → length s ≡ 32
      → All IsByte s
      → IsSettled laws page s o
      → (try_load page o).0 ≡ valid s
  unfolding try_load
  look_settled page s o low size bytes settled =
      ap or_unusable
        (certain (look page o).0 (look page o).1 (
          (settled-Triple page s size bytes (IsSettled laws page s) (fixed-IsSettled page s o low)
              (λ t p. p)).run
            o settled)).0

  module _ {E : Type 0} (R : Type 0) ⦃src : EntropySource E⦄ ⦃cr : Crypto⦄ ⦃gen : ChaCha R⦄ where
    choose_valid :
        (page : ℕ) (s : Bytes) (st : SlotState) (rest : Exec HalError (O × E) Bytes) (x : O × E)
        → st ≡ valid s
        → ((choose R page st rest x).0 ≡ ok s) × ((choose R page st rest x).1.1 ≡ x.1)
    unfolding choose returned
    choose_valid page s st rest (o, e) h = rw h (refl, refl)

    choose_unusable :
        (page : ℕ) (st : SlotState) (rest : Exec HalError (O × E) Bytes) (x : O × E)
        → st ≡ unusable
        → choose R page st rest x ≡ rest x
    unfolding choose
    choose_unusable page st rest x h = rw h

    -- Where no read fails, a boot finds the secret that is settled in the active slot, and draws no
    -- entropy for it.
    pub load_or_provision_again :
        (page : ℕ) (s : Bytes) (o : O) (e : E)
        → length s ≡ 32
        → All IsByte s
        → IsSettled laws page s o
        → IsActive o page
        → ((load_or_provision R (o, e)).0 ≡ ok s) × ((load_or_provision R (o, e)).1.1 ≡ e)
    unfolding load_or_provision load_slots try_load
    load_or_provision_again page s o e size bytes settled (primary at) =
        choose_valid 61 s (try_load 61 o).0 (load_slots R (60 ∷ [])) ((try_load 61 o).1, e)
          (look_settled 61 s o (omega arith) size bytes
            (subst (λ q. IsSettled laws q s o) at settled))
    load_or_provision_again page s o e size bytes settled (fallback at gone) =
        let P : O → Type 0 = λ t. IsSettled laws 60 s t × (ecc laws t (void_row 61) ≢ 0) in
        let fixed : Fixed laws P = λ t u h p. (
          fixed-IsSettled 60 s o (omega arith) t u h p.0,
          λ z. p.1 (sym (ap (λ c. c.0) (h (void_row 61))) ∙ z),
        ) in
        let seen = certain (look 61 o).0 (look 61 o).1 (
          (given_up-Triple 61 s size bytes P fixed (λ t p. p.1)).run o
            (subst (λ q. IsSettled laws q s o) at settled, gone)) in
        let t = (try_load 61 o).1 in
        let rest = load_slots R (60 ∷ []) in
        let skip = choose_unusable 61 (try_load 61 o).0 rest (t, e) (ap or_unusable seen.0) in
        rw skip (
          choose_valid 60 s (try_load 60 t).0 (load_slots R []) ((try_load 60 t).1, e)
            (look_settled 60 s t (omega arith) size bytes seen.1.0))
