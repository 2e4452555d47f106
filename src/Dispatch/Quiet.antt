-- ===== src/Dispatch/Quiet.antt =====
-- Reasoning about handlers: the steps that leave the session as it was and always return.
use picosignet.Prelude.{ℕ, zero, suc, ◌≡◌, Bool, true, false, Exec, ◌>>=◌, pure}
use picosignet.Hal.{HalError, FlashStore}
use picosignet.Storage.Record.{Crc}
use picosignet.Storage.AbPair.{read_latest, erase_both, key_pair}
use picosignet.Dispatch.Session.{Hsm, Stop, on_flash, modify}
use picosignet.Dispatch.Pins.{gone, erase_key_rounds, erase_key_verified}
use picosignet.Dispatch.Runs.{Live, live, Outcome, Runs, moved_to}

pub record Quiet {E M F R A : Type 0} (m : Exec Stop (Hsm E M F R) A) : Type 1 where
  pub quiet : (s : Live) (refused : Live → Type 0) → Runs s m (λ _ t. t ≡ s) refused

module _ {E M F R A : Type 0} where
  pub Quiet-pure : (a : A) → Quiet {E = E} {M = M} {F = F} {R = R} (pure a)
  unfolding Outcome
  Quiet-pure a = record { quiet = λ s r. record { run = λ h e. e } }

  pub Quiet-on_flash : (m : Exec HalError F A) → Quiet {E = E} {M = M} {F = F} {R = R} (on_flash m)
  unfolding Outcome live on_flash
  Quiet-on_flash m = record { quiet = λ s r. record { run = λ h e. e } }

  pub Quiet-if :
      (b : Bool) (x y : Exec Stop (Hsm E M F R) A)
      → Quiet x
      → Quiet y
      → Quiet (elim b [ true ↦ x | false ↦ y ])
  Quiet-if true x y qx qy = qx
  Quiet-if false x y qx qy = qy

module _ {E M F R A B : Type 0} where
  pub quietly :
      {s : Live} {m : Exec Stop (Hsm E M F R) A} {f : A → Exec Stop (Hsm E M F R) B}
      {after' : B → Live → Type 0} {refused : Live → Type 0}
      → Quiet m
      → ((a : A) → Runs s (f a) after' refused)
      → Runs s (m >>= f) after' refused
  quietly {s} {refused} q k = moved_to (q.quiet s refused) k

  Quiet->>= :
      {m : Exec Stop (Hsm E M F R) A} {f : A → Exec Stop (Hsm E M F R) B}
      → Quiet m
      → ((a : A) → Quiet (f a))
      → Quiet (m >>= f)
  Quiet->>= q k = record { quiet = λ s r. quietly q (λ a. (k a).quiet s r) }

module _ {E M F R : Type 0} where
  -- A change to a session of which this is known.
  pub modify-post :
      {s : Live} {refused : Live → Type 0} (f : Hsm E M F R → Hsm E M F R) (P : Live → Type 0)
      → ((h : Hsm E M F R) → P (live (f h)))
      → Runs s (modify f) (λ _ t. P t) refused
  unfolding Outcome
  modify-post f P k = record { run = λ h e. k h }

module _ {E M F R : Type 0} ⦃fs : FlashStore F⦄ ⦃crc : Crc⦄ where
  Quiet-erase_key_rounds : (n : ℕ) → Quiet {E = E} {M = M} {F = F} {R = R} (erase_key_rounds n)
  unfolding erase_key_rounds
  Quiet-erase_key_rounds zero = Quiet-pure false
  Quiet-erase_key_rounds (suc n) = Quiet->>= (Quiet-on_flash (erase_both key_pair)) (λ _.
      Quiet->>= (Quiet-on_flash (read_latest key_pair))
        (λ left. Quiet-if (gone left) _ _ (Quiet-pure true) (Quiet-erase_key_rounds n)))

  pub Quiet-erase_key_verified : Quiet {E = E} {M = M} {F = F} {R = R} erase_key_verified
  unfolding erase_key_verified
  Quiet-erase_key_verified = Quiet-erase_key_rounds 2
