-- ===== src/Dispatch/Leaves.antt =====
-- Reasoning about handlers: what a command leaves, even in a panic, and that the only panic is that of
-- the clock.
use mathlib.Core.Path.{subst}
use mathlib.Core.Option
use picosignet.Prelude.{
  ℕ, ◌≡◌, refl, sym, List, ◌∷◌, Bool, true, false, Option, none, some, Result, ok, err, Exec, ◌>>=◌,
}
use picosignet.Prelude.Int.{ℤ}
use picosignet.Hal.{FlashStore, Monotonic}
use picosignet.Clock.{now_unix}
use picosignet.Storage.Config.{DeviceConfig, Mode, dev, prod}
use picosignet.Proto.{HsmResponse}
use picosignet.Dispatch.Session.{Hsm, Stop, responds, panics, on_flash, gets}
use picosignet.Dispatch.Time.{told, read_clock, retries_in, retries_of, retry_remaining, hsm_status}
use picosignet.Dispatch.Handle.{first_set}
use picosignet.Dispatch.Runs.{Live, live, Outcome, Runs}

module _ {E M F R : Type 0} ⦃mono : Monotonic M⦄ where
  -- Whether reading the clock overflows.
  abbrev pub Overruns : Hsm E M F R → Type 0
  Overruns h = now_unix h.mono h.clock ≡ err tt

  -- What holds of an outcome of a command on `h`: the session is left so, and a panic is the clock's.
  abbrev Left : (Live → Type 0) → Hsm E M F R → Result Stop HsmResponse × Hsm E M F R → Type 0
  Left Q h x = Q (live x.1) × (x.0 ≡ err panics → Overruns h)

  pub record Leaves (Q : Live → Type 0) (s : Live) (m : Exec Stop (Hsm E M F R) HsmResponse)
      : Type 0 where
    pub leave : (h : Hsm E M F R) → live h ≡ s → Left Q h (m h)

  kept_through :
      (Q : Live → Type 0) (r : Result Stop HsmResponse) (h k : Hsm E M F R)
      → Outcome (λ _. Q) Q r k
      → Left Q h (r, k)
  unfolding Outcome
  kept_through Q (ok r) h k o = (o, λ e. cc)
  kept_through Q (err (responds r)) h k o = (o, λ e. cc)
  kept_through Q (err panics) h k o = absurd o

  pub Runs-Leaves :
      {Q : Live → Type 0} {s : Live} {m : Exec Stop (Hsm E M F R) HsmResponse}
      → Runs s m (λ _. Q) Q
      → Leaves Q s m
  Runs-Leaves {Q} {m = m} r = record { leave = λ h e. kept_through Q (m h).0 h (m h).1 (r.run h e) }

  pub first-Leaves :
      {X : Type 0} {Q : Live → Type 0} {s : Live} (f : X → Exec Stop (Hsm E M F R) HsmResponse)
      (o : Option X) (rest : List (Option (Exec Stop (Hsm E M F R) HsmResponse)))
      (last : Exec Stop (Hsm E M F R) HsmResponse)
      → ((x : X) → Leaves Q s (f x))
      → Leaves Q s (first_set rest last)
      → Leaves Q s (first_set (Option.map f o ∷ rest) last)
  unfolding first_set
  first-Leaves f none rest last k r = r
  first-Leaves f (some x) rest last k r = k x

  pub if-Leaves :
      {Q : Live → Type 0} {s : Live} (b : Bool) (x y : Exec Stop (Hsm E M F R) HsmResponse)
      → Leaves Q s x
      → Leaves Q s y
      → Leaves Q s (elim b [ true ↦ x | false ↦ y ])
  if-Leaves true x y rx ry = rx
  if-Leaves false x y rx ry = ry

  told-Left :
      (Q : Live → Type 0) (r : Result (Unit {0}) (Option ℤ))
      (g : Option ℤ → Hsm E M F R → HsmResponse) (h k : Hsm E M F R)
      → r ≡ now_unix h.mono h.clock
      → Q (live k)
      → Left Q h ((told r >>= λ t. gets (g t)) k)
  unfolding told
  told-Left Q (ok t) g h k e p = (p, λ e. cc)
  told-Left Q (err u) g h k e p = (p, λ _. sym e)

module _ {E M F R : Type 0} ⦃fs : FlashStore F⦄ where
  retries_of-keeps :
      (c : Option DeviceConfig) (h : Hsm E M F R)
      → (n : Option ℕ) × (f : F) × (retries_of c h ≡ (ok n, record h { flash = f }))
  unfolding retries_of retries_in on_flash
  retries_of-keeps none h = (none, h.flash, refl)
  retries_of-keeps (some c) h = in_mode c.mode
    where
      in_mode :
          (m : Mode)
          → (n : Option ℕ) × (f : F) × (retries_in m c h ≡ (ok n, record h { flash = f }))
      in_mode dev = (none, h.flash, refl)
      in_mode prod = (_, _, refl)

module _ {E M F R : Type 0} ⦃mono : Monotonic M⦄ ⦃fs : FlashStore F⦄ where
  pub status-Leaves :
      {Q : Live → Type 0} {s : Live} → Q s → Leaves Q s (hsm_status {E = E} {M = M} {F = F} {R = R})
  unfolding hsm_status retry_remaining read_clock live
  status-Leaves {Q} p = record {
    leave = λ h e.
        let (n, f, same) = retries_of-keeps h.config h in
        rw same (
          told-Left Q (now_unix h.mono h.clock) _ h (record h { flash = f }) refl
            (subst Q (sym e) p));
  }
