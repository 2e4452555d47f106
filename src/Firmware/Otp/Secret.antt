-- ===== src/Firmware/Otp/Secret.antt =====
-- hsm-fw/src/otp_secret.rs: what `load_or_provision` returns, and what it leaves in the memory.
use mathlib.Core.Path.{subst}
use picosignet.Prelude.{
  ℕ, ◌+◌, ◌<◌, ◌≡◌, refl, sym, arith, List, [], ◌∷◌, false, inl, inr, ◌⊎◌, ◌==◌, Bool-cases, Result,
  ok, err, Exec, All, Ends, ok-Ends, err-Ends, Triple, Triple-after, to-Triple,
}
use picosignet.Prelude.Bytes.{Bytes}
use picosignet.Hal.{HalError, flash, out_of_range, entropy, secret, EntropySource}
use picosignet.Crypto.{Crypto, ChaCha}
use picosignet.Rng.{seed, fill_bytes}
use picosignet.Rng
use picosignet.Firmware.Otp.{
  Otp, slot_pages, base_row, void_row, SlotState, valid, blank, unusable, degenerate, look,
  try_load, or_unusable, burn, lock_others, returned, drawn, generate, burn_drawn, provision,
  provisioned, choose, load_slots, load_or_provision,
}
use picosignet.Firmware.Otp.Rows.{OtpLaws, Stable, ensure_hard_lock-Triple}
use picosignet.Firmware.Otp.Slots.{IsSettled, Says, look-Triple}
use picosignet.Firmware.Otp.Guard.{
  Guarded, Inv, start-Inv, Inv-void, Inv-lock, Others, Others-Stable, Others-lock, Inv-Others,
  IsSettled-lock,
}
use picosignet.Firmware.Otp.Burn.{burn-Triple}

abbrev pub IsSlot : ℕ → Type 0
IsSlot page = (page ≡ 61) ⊎ (page ≡ 60)

slot_low : (page : ℕ) → IsSlot page → page < 62
slot_low page (inl e) = omega arith
slot_low page (inr e) = omega arith

drawn_sound :
    (r : Result HalError (Unit {0})) (s : Bytes) {k : Bytes}
    → drawn r s ≡ ok k
    → degenerate k ≡ false
unfolding drawn
drawn_sound (ok u) s h = ground (arith, h)
drawn_sound (err x) s h = cc

lift-Ends :
    {O E : Type 0} {good : Bytes → O → Type 0} {bad : O → Type 0} {good' : Bytes → O × E → Type 0}
    {bad' : O × E → Type 0} {r : Result HalError Bytes} {t : O} (e : E)
    → Ends good bad r t
    → ((k : Bytes) → good k t → good' k (t, e))
    → (bad t → bad' (t, e))
    → Ends good' bad' r (t, e)
lift-Ends e p f g = record { on_ok = λ k h. f k (p.on_ok k h); on_err = λ x h. g (p.on_err x h) }

module _ (E R : Type 0) ⦃src : EntropySource E⦄ ⦃cr : Crypto⦄ ⦃gen : ChaCha R⦄ where
  -- A secret that the health-checked generator gives from some state of its source.
  abbrev pub IsDrawn : Bytes → Type 0
  IsDrawn s = (e : E) × ((generate R e).0 ≡ ok s)

  generate_sound : (e : E) {s : Bytes} → (generate R e).0 ≡ ok s → degenerate s ≡ false
  unfolding generate
  generate_sound e h = drawn_sound (seed (Rng.new {R = R}, e)).0 _ h

module _ {O : Type 0} (E R : Type 0) ⦃otp : Otp O⦄ ⦃src : EntropySource E⦄ ⦃cr : Crypto⦄
    ⦃gen : ChaCha R⦄ (laws : OtpLaws otp) (start : O) where
  abbrev SafeRows : O → Type 0
  SafeRows t = Inv laws start (IsDrawn E R) t

  abbrev Safe : O × E → Type 0
  Safe x = SafeRows x.0

  -- A page and its secret, where it is settled.
  abbrev Settled : ℕ → Bytes → O × E → Type 0
  Settled page s x = Safe x × IsSettled laws page s x.0

  abbrev Done : Bytes → O × E → Type 0
  Done s x = Safe x × (page : ℕ) × IsSlot page × IsSettled laws page s x.0

  judged :
      (page : ℕ) (r : Result (Unit {0}) SlotState) (t : O)
      → Ends (λ st t. SafeRows t × Says laws page st t) SafeRows r t
      → SafeRows t × Says laws page (or_unusable r) t
  unfolding Says
  judged page (ok st) t p = p.on_ok st refl
  judged page (err u) t p = (p.on_err u refl, tt)

  try_load-Says :
      (page : ℕ) (t : O)
      → page < 62
      → SafeRows t
      → SafeRows (try_load page t).1 × Says laws page (try_load page t).0 (try_load page t).1
  unfolding try_load
  try_load-Says page t low p = judged page (look page t).0 (look page t).1 (
      (look-Triple laws page low SafeRows (Inv-void laws start _ page low)
          (Inv-lock laws start _ page)).run
        t p)

  burn-Ends :
      (page : ℕ) (s : Bytes) (o : O) (e : E)
      → page < 62
      → IsDrawn E R s
      → degenerate s ≡ false
      → SafeRows o
      → Says laws page blank o
      → Ends (Settled page) Safe (burn page s o).0 ((burn page s o).1, e)
  unfolding Says
  burn-Ends page s o e low drawn sound p (marker, void) =
      let D = IsDrawn E R in
      let others = Others laws start D page in
      let last : base_row page + 17 ≡ void_row page = omega arith in
      lift-Ends e
        ((burn-Triple laws page low others
            (λ i l. Others-Stable laws start D page i low (omega arith))
            (Others-Stable laws start D page 16 low (omega arith))
            (subst (λ r. Stable laws r others) last
              (Others-Stable laws start D page 17 low (omega arith)))
            (Others-lock laws start D page page) s sound).run
          o
          (
            λ q l ne. p q l,
            void,
            λ m. absurd (omega (arith, marker, m)),
            λ j k. absurd (omega arith),
          ))
        (λ k g. (
          Inv-Others laws start D page _ g.1 (λ m. inr (s, drawn, g.2.holds)),
          subst (λ x. IsSettled laws page x (burn page s o).1) (sym g.0) g.2,
        ))
        (λ g. Inv-Others laws start D page _ g.0 (λ m. inr (s, drawn, g.1 m)))

  burn_drawn-Ends :
      (page : ℕ) (r : Result HalError Bytes) (o : O) (e : E)
      → page < 62
      → ((s : Bytes) → r ≡ ok s → IsDrawn E R s × (degenerate s ≡ false))
      → SafeRows o
      → Says laws page blank o
      → Ends (Settled page) Safe (burn_drawn R page r (o, e)).0 (burn_drawn R page r (o, e)).1
  unfolding burn_drawn
  burn_drawn-Ends page (ok s) o e low fresh p q =
      let (drawn, sound) = fresh s refl in burn-Ends page s o e low drawn sound p q
  burn_drawn-Ends page (err x) o e low fresh p q = err-Ends x p

  provision-Ends :
      (page : ℕ) (x : O × E)
      → page < 62
      → Safe x
      → Says laws page blank x.0
      → Ends (Settled page) Safe (provision R page x).0 (provision R page x).1
  unfolding provision
  provision-Ends page (o, e) low p q =
      burn_drawn-Ends page (generate R e).0 o (generate R e).1 low
        (λ s h. ((e, h), generate_sound E R e h)) p q

  -- A slot whose page keeps its lock when the others are locked.
  lock_others-keeps :
      (page : ℕ) (s : Bytes) (ps : List ℕ) (t : O)
      → page < 62
      → SafeRows t × IsSettled laws page s t
      → SafeRows (lock_others page ps t) × IsSettled laws page s (lock_others page ps t)
  unfolding lock_others
  lock_others-keeps page s [] t low w = w
  lock_others-keeps page s (p ∷ ps) t low w =
      lock_others-keeps page s ps _ low (elim (Bool-cases (p == page)) [
        | inl e ↦ rw e w
        | inr e ↦ rw e (
            Triple-after
              (to-Triple (λ u t g. g.0) (λ t g. g)
                (ensure_hard_lock-Triple laws (λ t. SafeRows t × IsSettled laws page s t) p
                  (λ t u h v. (
                    Inv-lock laws start (IsDrawn E R) p t u h v.0,
                    IsSettled-lock laws start page p s low (λ same. ground arith) t u h v.1,
                  ))))
              t w)
      ])

  returned-Ends :
      (page : ℕ) (s : Bytes) (x : O × E)
      → IsSlot page
      → Settled page s x
      → Ends Done Safe (returned page s x).0 (returned page s x).1
  unfolding returned
  returned-Ends page s (o, e) slot w =
      let (p, v) = lock_others-keeps page s slot_pages o (slot_low page slot) w in
      ok-Ends s (p, page, slot, v)

  provisioned-Ends :
      (page : ℕ) (r : Result HalError Bytes) (rest : Exec HalError (O × E) Bytes) (x : O × E)
      → IsSlot page
      → Triple Safe Done Safe rest
      → Ends (Settled page) Safe r x
      → Ends Done Safe (provisioned R page r rest x).0 (provisioned R page r rest x).1
  unfolding provisioned
  provisioned-Ends page (ok s) rest x slot k p = returned-Ends page s x slot (p.on_ok s refl)
  provisioned-Ends page (err entropy) rest x slot k p = err-Ends entropy (p.on_err entropy refl)
  provisioned-Ends page (err flash) rest x slot k p = k.run x (p.on_err flash refl)
  provisioned-Ends page (err out_of_range) rest x slot k p = k.run x (p.on_err out_of_range refl)
  provisioned-Ends page (err secret) rest x slot k p = k.run x (p.on_err secret refl)

  choose-Ends :
      (page : ℕ) (st : SlotState) (rest : Exec HalError (O × E) Bytes) (x : O × E)
      → IsSlot page
      → Triple Safe Done Safe rest
      → Safe x × Says laws page st x.0
      → Ends Done Safe (choose R page st rest x).0 (choose R page st rest x).1
  unfolding choose
  choose-Ends page (valid s) rest x slot k p = returned-Ends page s x slot (p.0, unfold Says in p.1)
  choose-Ends page blank rest x slot k p =
      provisioned-Ends page (provision R page x).0 rest (provision R page x).1 slot k
        (provision-Ends page x (slot_low page slot) p.0 p.1)
  choose-Ends page unusable rest x slot k p = k.run x p.0

  load_slots-Triple : (ps : List ℕ) → All IsSlot ps → Triple Safe Done Safe (load_slots R ps)
  unfolding load_slots
  load_slots-Triple [] slots = record { run = λ x p. err-Ends secret p }
  load_slots-Triple (page ∷ ps) slots = record {
    run = λ x p.
        choose-Ends page (try_load page x.0).0 (load_slots R ps) ((try_load page x.0).1, x.1)
          slots.0 (load_slots-Triple ps slots.1) (try_load-Says page x.0 (slot_low page slots.0) p);
  }

  run-Ends :
      (e : E) → Ends Done Safe (load_or_provision R (start, e)).0 (load_or_provision R (start, e)).1
  unfolding load_or_provision
  run-Ends e =
      (load_slots-Triple slot_pages (inl refl, (inr refl, tt))).run (start, e)
        (start-Inv laws start (IsDrawn E R))

  either_way : (r : Result HalError Bytes) {x : O × E} → Ends Done Safe r x → Safe x
  either_way (ok s) p = (p.on_ok s refl).0
  either_way (err x) p = p.on_err x refl

  -- However a run ends, and whatever failed on its way, where a page's marker reads valid it did so at
  -- the start and the secret's rows are those of the start, or the rows hold a whole secret that the
  -- health-checked generator gave.
  pub load_or_provision-Guarded :
      (e : E) (page : ℕ)
      → page < 62
      → Guarded laws start (IsDrawn E R) page (load_or_provision R (start, e)).1.0
  load_or_provision-Guarded e page low =
      either_way (load_or_provision R (start, e)).0 (run-Ends e) page low

  -- A secret that is returned is not degenerate and stands whole in the rows of one of the two pages,
  -- under a valid marker, not given up, and with the page locked.
  pub load_or_provision-IsSettled :
      (e : E) {s : Bytes}
      → (load_or_provision R (start, e)).0 ≡ ok s
      → (page : ℕ) × IsSlot page × IsSettled laws page s (load_or_provision R (start, e)).1.0
  load_or_provision-IsSettled e {s = s} h =
      let done = (run-Ends e).on_ok s h in (done.1, done.2, done.3)
