-- ===== src/Prelude/Steps.antt =====
-- Fallible code, and stateful code that may fail. What a step wrote before a failure stays
-- written, so the state comes back beside the error too, as with Rust's `&mut` and `?`.
use mathlib.Core.Path.{◌≡◌, refl, ap}
use mathlib.Core.Bool.{Bool, true, false}
use mathlib.Core.Option.{Option, none, some}
use mathlib.Core.Logic.{◌⊎◌, inl, inr}
use picosignet.Prelude.Tests.{if◌then◌else◌}

pub data Result (E A : Type 0) : Type 0 where
  ok : A → Result E A
  err : E → Result E A

-- How code ends early: with an error, in the panic of an addition, or with a loop's fuel used up.
pub data Fault (E : Type 0) : Type 0 where
  fails : E → Fault E
  overflows unfinished : Fault E

module _ {E A : Type 0} where
  abbrev pub is_ok : Result E A → Bool
  is_ok (ok a) = true
  is_ok (err e) = false

  pub Result-cases : (r : Result E A) → ((a : A) × (r ≡ ok a)) ⊎ ((e : E) × (r ≡ err e))
  Result-cases (ok a) = inl (a, refl)
  Result-cases (err e) = inr (e, refl)

  -- Rust's `Result::ok`.
  abbrev pub to_option : Result E A → Option A
  to_option (ok a) = some a
  to_option (err e) = none

  -- Rust's `Option::ok_or`.
  abbrev pub ok_or : Option A → E → Result E A
  ok_or (some a) e = ok a
  ok_or none e = err e

  -- Rust's `Result::unwrap_or`.
  abbrev pub ok_or_else : Result E A → A → A
  ok_or_else (ok a) d = a
  ok_or_else (err e) d = d

module _ {E A : Type 0} where
  -- A test whose failure is an error held, where the outcome is no error.
  pub if-else-err :
      (b : Bool) (r : Result E A) (e : E) {a : A}
      → (if b then r else err e) ≡ ok a
      → (b ≡ true) × (r ≡ ok a)
  if-else-err true r e h = (refl, h)
  if-else-err false r e h = cc

  pub if-then-err :
      (b : Bool) (r : Result E A) (e : E) {a : A}
      → (if b then err e else r) ≡ ok a
      → (b ≡ false) × (r ≡ ok a)
  if-then-err true r e h = cc
  if-then-err false r e h = (refl, h)

module _ {E X A : Type 0} where
  abbrev pub map_err : (X → E) → Result X A → Result E A
  map_err f (ok a) = ok a
  map_err f (err x) = err (f x)

  pub map_err-ok : (f : X → E) (r : Result X A) {a : A} → map_err f r ≡ ok a → r ≡ ok a
  map_err-ok f (ok x) h = cc
  map_err-ok f (err x) h = cc

module _ {X A : Type 0} where
  pub ok_or-ok : (o : Option A) (e : X) {a : A} → ok_or o e ≡ ok a → o ≡ some a
  ok_or-ok (some x) e h = cc
  ok_or-ok none e h = cc

module _ {E A B : Type 0} where
  -- Rust's `?` on a plain result.
  abbrev pub and_then : Result E A → (A → Result E B) → Result E B
  and_then (ok a) f = f a
  and_then (err e) f = err e

  pub and_then-ok :
      (r : Result E A) (f : A → Result E B) {b : B}
      → and_then r f ≡ ok b
      → (a : A) × (r ≡ ok a) × (f a ≡ ok b)
  and_then-ok (ok a) f h = (a, refl, h)
  and_then-ok (err e) f h = cc

-- A step over the state `S` that returns an `A` or leaves early with an `E`.
abbrev pub Exec : Type 0 → Type 0 → Type 0 → Type 0
Exec E S A = S → Result E A × S

module _ {E S A : Type 0} where
  abbrev pub pure : A → Exec E S A
  pure a s = (ok a, s)

  abbrev pub raise : E → Exec E S A
  raise e s = (err e, s)

module _ {E S A B : Type 0} where
  abbrev pub resume : Result E A → (A → Exec E S B) → Exec E S B
  resume (ok a) f s = f a s
  resume (err e) f s = (err e, s)

  infixl 10 ◌>>=◌ ◌>>◌
  abbrev pub ◌>>=◌ : Exec E S A → (A → Exec E S B) → Exec E S B
  ◌>>=◌ m f s = resume (m s).0 f (m s).1

  abbrev pub ◌>>◌ : Exec E S A → Exec E S B → Exec E S B
  m >> n = m >>= λ _. n

  resume-ok :
      (r : Result E A) (f : A → Exec E S B) (t : S) {s' : S} {b : B}
      → resume r f t ≡ (ok b, s')
      → (a : A) × (r ≡ ok a) × (f a t ≡ (ok b, s'))
  resume-ok (ok a) f t h = (a, refl, h)
  resume-ok (err e) f t h = cc

  -- A sequence that succeeds is two steps that do.
  pub >>=-ok :
      (m : Exec E S A) (f : A → Exec E S B) (s : S) {s' : S} {b : B}
      → (m >>= f) s ≡ (ok b, s')
      → (a : A) × (t : S) × (m s ≡ (ok a, t)) × (f a t ≡ (ok b, s'))
  >>=-ok m f s h =
      let (a, e, k) = resume-ok (m s).0 f (m s).1 h in (a, (m s).1, ap (λ x. (x, (m s).1)) e, k)
