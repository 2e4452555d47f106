-- ===== src/Prelude/Outcomes.antt =====
-- What a step promises: from a state with `pre` it ends in success with `good`, of the result and the
-- state, or in failure with `bad`.
use mathlib.Core.Path.{◌≡◌, refl, subst}
use mathlib.Core.Bool.{Bool, true, false}
use picosignet.Prelude.Tests.{if◌then◌else◌}
use picosignet.Prelude.Steps.{Result, ok, err, Exec, resume, ◌>>=◌, pure, raise}

pub record Ends {E S A : Type 0} (good : A → S → Type 0) (bad : S → Type 0) (r : Result E A) (s : S)
    : Type 0 where
  pub on_ok : (a : A) → r ≡ ok a → good a s
  pub on_err : (e : E) → r ≡ err e → bad s

pub record Triple {E S A : Type 0} (pre : S → Type 0) (good : A → S → Type 0) (bad : S → Type 0)
    (m : Exec E S A) : Type 0 where
  pub run : (s : S) → pre s → Ends good bad (m s).0 (m s).1

ok_same : {E A : Type 0} {a b : A} → ◌≡◌ {A = Result E A} (ok a) (ok b) → a ≡ b
ok_same h = cc

module _ {E S A : Type 0} {good : A → S → Type 0} {bad : S → Type 0} where
  pub ok-Ends : (a : A) {s : S} → good a s → Ends {E = E} good bad (ok a) s
  ok-Ends a {s} g = record {
    on_ok = λ a' e. subst (λ x. good x s) (ok_same e) g;
    on_err = λ e h. cc;
  }

  pub err-Ends : (e : E) {s : S} → bad s → Ends {A = A} good bad (err e) s
  err-Ends e b = record { on_ok = λ a h. cc; on_err = λ e' h. b }

module _ {E S A : Type 0} {pre : S → Type 0} {good : A → S → Type 0} {bad : S → Type 0} where
  pub pure-Triple : (a : A) → ((s : S) → pre s → good a s) → Triple {E = E} pre good bad (pure a)
  pure-Triple a g = record { run = λ s p. ok-Ends a (g s p) }

  pub raise-Triple : (e : E) → ((s : S) → pre s → bad s) → Triple {A = A} pre good bad (raise e)
  raise-Triple e b = record { run = λ s p. err-Ends e (b s p) }

  pub if-Triple :
      (b : Bool) {m n : Exec E S A}
      → (b ≡ true → Triple pre good bad m)
      → (b ≡ false → Triple pre good bad n)
      → Triple pre good bad (if b then m else n)
  if-Triple true p q = p refl
  if-Triple false p q = q refl

  pub from-Triple :
      {pre' : S → Type 0} {m : Exec E S A}
      → ((s : S) → pre' s → pre s)
      → Triple pre good bad m
      → Triple pre' good bad m
  from-Triple f t = record { run = λ s p. t.run s (f s p) }

  pub to-Triple :
      {good' : A → S → Type 0} {bad' : S → Type 0} {m : Exec E S A}
      → ((a : A) (s : S) → good a s → good' a s)
      → ((s : S) → bad s → bad' s)
      → Triple pre good bad m
      → Triple pre good' bad' m
  to-Triple {m = m} f g t = record {
    run = λ s p. record {
      on_ok = λ a e. f a (m s).1 ((t.run s p).on_ok a e);
      on_err = λ x e. g (m s).1 ((t.run s p).on_err x e);
    };
  }

module _ {E S A B : Type 0} {good : A → S → Type 0} {good' : B → S → Type 0}
    {bad : S → Type 0} where
  resume-Ends :
      (r : Result E A) (f : A → Exec E S B) (s : S)
      → Ends good bad r s
      → ((a : A) → Triple (good a) good' bad (f a))
      → Ends good' bad (resume r f s).0 (resume r f s).1
  resume-Ends (ok a) f s p k = (k a).run s (p.on_ok a refl)
  resume-Ends (err e) f s p k = err-Ends e (p.on_err e refl)

module _ {E S A B : Type 0} {pre : S → Type 0} {good : A → S → Type 0} {good' : B → S → Type 0}
    {bad : S → Type 0} where
  pub then_Triple :
      {m : Exec E S A} {f : A → Exec E S B}
      → Triple pre good bad m
      → ((a : A) → Triple (good a) good' bad (f a))
      → Triple pre good' bad (m >>= f)
  then_Triple {m} {f} t k = record { run = λ s p. resume-Ends (m s).0 f (m s).1 (t.run s p) k }

module _ {E S A : Type 0} {P : S → Type 0} where
  either : (r : Result E A) (s : S) → Ends (λ _. P) P r s → P s
  either (ok a) s p = p.on_ok a refl
  either (err e) s p = p.on_err e refl

  -- What holds however a step ends.
  pub Triple-after :
      {pre : S → Type 0} {m : Exec E S A} → Triple pre (λ _. P) P m → (s : S) → pre s → P (m s).1
  Triple-after {m} t s p = either (m s).0 (m s).1 (t.run s p)
