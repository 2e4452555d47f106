-- ===== src/Dispatch/Runs.antt =====
-- Reasoning about handlers: what a step promises of the session it leaves, where it returns and where
-- it responds early; a panic is never allowed.
use mathlib.Core.Path.{subst}
use picosignet.Prelude.{
  arith, Bool-cases, Option-cases, inl, inr, ◌≡◌, refl, sym, ap, ◌∙◌, pure, raise, Bool, true,
  false, Option, none, some, String, Result, ok, err, Exec, resume, ◌>>=◌, ◌>>◌, is_some,
}
use picosignet.Prelude.Bytes.{Bytes}
use picosignet.Hal.{HalError}
use picosignet.Storage.Config.{DeviceConfig}
use picosignet.Proto.{ErrorCode, HsmResponse}
use picosignet.Dispatch.Session.{
  DeviceState, Hsm, Stop, responds, panics, on_flash, gets, modify, refuse, require, require_some,
  require_that, require_field, current_config, expect,
}

-- The part of the session that says what the device is and which secrets are in memory.
pub record Live : Type 0 where
  pub state : DeviceState
  pub config : Option DeviceConfig
  pub ca : Option Bytes
  pub wrap_kek : Option Bytes
  pub wrap_salt : Option Bytes
  pub recovery : Bool

module _ {E M F R : Type 0} where
  unfoldable pub live : Hsm E M F R → Live
  live h = record {
    state = h.state;
    config = h.config;
    ca = h.ca;
    wrap_kek = h.wrap_kek;
    wrap_salt = h.wrap_salt;
    recovery = h.physical_recovery_authorized;
  }

  unfoldable pub Outcome :
      {A : Type 0} → (A → Live → Type 0) → (Live → Type 0) → Result Stop A → Hsm E M F R → Type 0
  Outcome after refused (ok a) h = after a (live h)
  Outcome after refused (err (responds r)) h = refused (live h)
  Outcome after refused (err panics) h = ⊥

-- From the session `s` the step returns with `after`, or responds early with `refused`.
pub record Runs {E M F R A : Type 0} (s : Live) (m : Exec Stop (Hsm E M F R) A)
    (after : A → Live → Type 0) (refused : Live → Type 0) : Type 0 where
  pub run : (h : Hsm E M F R) → live h ≡ s → Outcome after refused (m h).0 (m h).1

-- A step that leaves the session as it was.
pub record Frames {E M F R A : Type 0} (m : Exec Stop (Hsm E M F R) A) : Type 0 where
  pub frame : (s : Live) → Runs s m (λ _ t. t ≡ s) (λ t. t ≡ s)

module _ {E M F R A B : Type 0} where
  resume-Outcome :
      (f : A → Exec Stop (Hsm E M F R) B) (after : A → Live → Type 0) (after' : B → Live → Type 0)
      (refused : Live → Type 0) (r : Result Stop A) (h : Hsm E M F R)
      → Outcome after refused r h
      → ((a : A) (t : Live) → after a t → Runs t (f a) after' refused)
      → Outcome after' refused (resume r f h).0 (resume r f h).1
  unfolding Outcome
  resume-Outcome f after after' refused (ok a) h o k = (k a (live h) o).run h refl
  resume-Outcome f after after' refused (err (responds r)) h o k = o
  resume-Outcome f after after' refused (err panics) h o k = o

  pub >>=-Runs :
      {s : Live} {m : Exec Stop (Hsm E M F R) A} {f : A → Exec Stop (Hsm E M F R) B}
      {after : A → Live → Type 0} {after' : B → Live → Type 0} {refused : Live → Type 0}
      → Runs s m after refused
      → ((a : A) (t : Live) → after a t → Runs t (f a) after' refused)
      → Runs s (m >>= f) after' refused
  >>=-Runs {s} {m} {f} {after} {after'} {refused} mr fr = record {
    run = λ h e. resume-Outcome f after after' refused (m h).0 (m h).1 (mr.run h e) fr;
  }

module _ {E M F R A : Type 0} where
  moved :
      (s : Live) (after : A → Live → Type 0) (refused : Live → Type 0) (r : Result Stop A)
      (h : Hsm E M F R)
      → Outcome (λ _ t. t ≡ s) (λ t. t ≡ s) r h
      → ((a : A) → after a s)
      → refused s
      → Outcome after refused r h
  unfolding Outcome
  moved s after refused (ok a) h o k p = subst (after a) (sym o) (k a)
  moved s after refused (err (responds r)) h o k p = subst refused (sym o) p
  moved s after refused (err panics) h o k p = o

  -- A frame step, with what holds of the session it leaves as it was.
  pub Frames-Runs :
      {s : Live} {m : Exec Stop (Hsm E M F R) A} {after : A → Live → Type 0}
      {refused : Live → Type 0}
      → Frames m
      → ((a : A) → after a s)
      → refused s
      → Runs s m after refused
  Frames-Runs {s} {m} {after} {refused} fm k p = record {
    run = λ h e. moved s after refused (m h).0 (m h).1 ((fm.frame s).run h e) k p;
  }

module _ {E M F R A B : Type 0} where
  pub framed :
      {s : Live} {m : Exec Stop (Hsm E M F R) A} {f : A → Exec Stop (Hsm E M F R) B}
      {after' : B → Live → Type 0} {refused : Live → Type 0}
      → Frames m
      → ((a : A) → Runs s (f a) after' refused)
      → refused s
      → Runs s (m >>= f) after' refused
  framed {s} {m} {f} {after'} {refused} fm k p =
      >>=-Runs {after = λ a t. Runs t (f a) after' refused} (Frames-Runs fm k p) (λ a t r. r)

  pub Frames->> :
      {m : Exec Stop (Hsm E M F R) A} {n : Exec Stop (Hsm E M F R) B}
      → Frames m
      → Frames n
      → Frames (m >> n)
  Frames->> fm fn = record { frame = λ s. framed fm (λ _. fn.frame s) refl }

  pub Frames->>= :
      {m : Exec Stop (Hsm E M F R) A} {f : A → Exec Stop (Hsm E M F R) B}
      → Frames m
      → ((a : A) → Frames (f a))
      → Frames (m >>= f)
  Frames->>= fm ff = record { frame = λ s. framed fm (λ a. (ff a).frame s) refl }

module _ {E M F R A : Type 0} where
  pub Frames-pure : (a : A) → Frames {E = E} {M = M} {F = F} {R = R} (pure a)
  unfolding Outcome
  Frames-pure a = record { frame = λ s. record { run = λ h e. e } }

  pub Frames-gets : (f : Hsm E M F R → A) → Frames (gets f)
  unfolding Outcome
  Frames-gets f = record { frame = λ s. record { run = λ h e. e } }

  pub Frames-on_flash :
      (m : Exec HalError F A) → Frames {E = E} {M = M} {F = F} {R = R} (on_flash m)
  unfolding Outcome live on_flash
  Frames-on_flash m = record { frame = λ s. record { run = λ h e. e } }

  pub Frames-refuse :
      (code : ErrorCode) (message : String)
      → Frames {E = E} {M = M} {F = F} {R = R} {A = A} (refuse code message)
  unfolding Outcome
  Frames-refuse code message = record { frame = λ s. record { run = λ h e. e } }

  pub Frames-raise :
      (r : HsmResponse) → Frames {E = E} {M = M} {F = F} {R = R} {A = A} (raise (responds r))
  unfolding Outcome
  Frames-raise r = record { frame = λ s. record { run = λ h e. e } }

  pub Frames-require :
      {X : Type 0} (r : Result X A) (code : ErrorCode) (message : String)
      → Frames {E = E} {M = M} {F = F} {R = R} (require r code message)
  Frames-require (ok a) code message = Frames-pure a
  Frames-require (err x) code message = Frames-refuse code message

  pub Frames-require_some :
      (r : Option A) (code : ErrorCode) (message : String)
      → Frames {E = E} {M = M} {F = F} {R = R} (require_some r code message)
  Frames-require_some (some a) code message = Frames-pure a
  Frames-require_some none code message = Frames-refuse code message

module _ {E M F R : Type 0} where
  pub Frames-modify :
      (f : Hsm E M F R → Hsm E M F R)
      → ((h : Hsm E M F R) → live (f h) ≡ live h)
      → Frames (modify f)
  unfolding Outcome
  Frames-modify f k = record { frame = λ s. record { run = λ h e. k h ∙ e } }

  pub Frames-require_that :
      (b : Bool) (code : ErrorCode) (message : String)
      → Frames {E = E} {M = M} {F = F} {R = R} (require_that b code message)
  Frames-require_that true code message = Frames-pure tt
  Frames-require_that false code message = Frames-refuse code message

module _ {E M F R A : Type 0} where
  pub Frames-if :
      (b : Bool) (x y : Exec Stop (Hsm E M F R) A)
      → Frames x
      → Frames y
      → Frames (elim b [ true ↦ x | false ↦ y ])
  Frames-if true x y fx fy = fx
  Frames-if false x y fx fy = fy

  pub Frames-result :
      {X B : Type 0} (r : Result X B) (f : B → Exec Stop (Hsm E M F R) A)
      (g : X → Exec Stop (Hsm E M F R) A)
      → ((b : B) → Frames (f b))
      → ((x : X) → Frames (g x))
      → Frames (elim r [ ok b ↦ f b | err x ↦ g x ])
  Frames-result (ok b) f g ff gg = ff b
  Frames-result (err x) f g ff gg = gg x

  -- A step that chooses by the session it starts from.
  pub Frames-choice :
      (m : Exec Stop (Hsm E M F R) A)
      → ((h : Hsm E M F R) → (n : Exec Stop (Hsm E M F R) A) × Frames n × (m h ≡ n h))
      → Frames m
  Frames-choice m k = record {
    frame = λ s. record {
      run = λ h e.
          let (n, fn, eq) = k h in
          subst (λ o. Outcome (λ _ t. t ≡ s) (λ t. t ≡ s) o.0 o.1) (sym eq) ((fn.frame s).run h e);
    };
  }

  pub Runs-if :
      {s : Live} {after : A → Live → Type 0} {refused : Live → Type 0} (b : Bool)
      (x y : Exec Stop (Hsm E M F R) A)
      → Runs s x after refused
      → Runs s y after refused
      → Runs s (elim b [ true ↦ x | false ↦ y ]) after refused
  Runs-if true x y rx ry = rx
  Runs-if false x y rx ry = ry

module _ {E M F R A : Type 0} where
  pub Runs-raise :
      {s : Live} {after : A → Live → Type 0} {refused : Live → Type 0} (r : HsmResponse)
      → refused s
      → Runs {E = E} {M = M} {F = F} {R = R} s (raise (responds r)) after refused
  unfolding Outcome
  Runs-raise {refused} r p = record { run = λ h e. subst refused (sym e) p }

module _ {E M F R : Type 0} where
  pub modify-Runs :
      {s : Live} {refused : Live → Type 0} (f : Hsm E M F R → Hsm E M F R) (g : Live → Live)
      → ((h : Hsm E M F R) → live (f h) ≡ g (live h))
      → Runs s (modify f) (λ _ t. t ≡ g s) refused
  unfolding Outcome
  modify-Runs f g k = record { run = λ h e. k h ∙ ap g e }

  -- The configuration, where there is one.
  pub current_config-Runs :
      {s : Live} {refused : Live → Type 0}
      → is_some s.config ≡ true
      → Runs {E = E} {M = M} {F = F} {R = R} s current_config
          (λ c t. (t ≡ s) × (s.config ≡ some c))
          refused
  unfolding current_config Outcome live
  current_config-Runs {s} {refused} p = record {
    run = λ h e. elim (Option-cases h.config) [
      | inl n ↦ ground (arith, ap (λ l. l.config) e, n, p)
      | inr (c, q) ↦
          subst
            (λ o.
              Outcome (λ c t. (t ≡ s) × (s.config ≡ some c)) refused (expect o h).0 (expect o h).1)
            (sym q) (e, sym (ap (λ l. l.config) e) ∙ q)
    ];
  }

module _ {E M F R A B : Type 0} where
  -- A step to the session `g`, with a fact on the value that it returns.
  pub moved_by :
      {s g : Live} {m : Exec Stop (Hsm E M F R) A} {f : A → Exec Stop (Hsm E M F R) B}
      {after' : B → Live → Type 0} {refused : Live → Type 0} (P : A → Type 0)
      → Runs s m (λ a t. (t ≡ g) × P a) refused
      → ((a : A) → P a → Runs g (f a) after' refused)
      → Runs s (m >>= f) after' refused
  moved_by {f} {after'} {refused} P mr k =
      >>=-Runs mr (λ a t e. subst (λ t. Runs t (f a) after' refused) (sym e.0) (k a e.1))

  -- The same, of steps whose value is not used.
  pub moved>> :
      {s g : Live} {m : Exec Stop (Hsm E M F R) A} {n : Exec Stop (Hsm E M F R) B}
      {after' : B → Live → Type 0} {refused : Live → Type 0}
      → Runs s m (λ _ t. t ≡ g) refused
      → Runs g n after' refused
      → Runs s (m >> n) after' refused
  moved>> {n} {after'} {refused} mr k =
      >>=-Runs mr (λ a t e. subst (λ t. Runs t n after' refused) (sym e) k)

  pub framed>> :
      {s : Live} {m : Exec Stop (Hsm E M F R) A} {n : Exec Stop (Hsm E M F R) B}
      {after' : B → Live → Type 0} {refused : Live → Type 0}
      → Frames m
      → Runs s n after' refused
      → refused s
      → Runs s (m >> n) after' refused
  framed>> fm k p = framed fm (λ _. k) p

module _ {E M F R A : Type 0} where
  pub Frames-require_field :
      (f : Hsm E M F R → Option A) (code : ErrorCode) (message : String)
      → Frames (require_field f code message)
  unfolding require_field
  Frames-require_field f code message =
      Frames-choice (require_field f code message)
        (λ h. (require_some (f h) code message, Frames-require_some (f h) code message, refl))

  -- A step that chooses by the state.
  pub by_state :
      {s : Live} {after : A → Live → Type 0} {refused : Live → Type 0}
      (m : Exec Stop (Hsm E M F R) A) (table : DeviceState → Exec Stop (Hsm E M F R) A)
      → ((h : Hsm E M F R) → m h ≡ table h.state h)
      → Runs s (table s.state) after refused
      → Runs s m after refused
  unfolding live
  by_state {after} {refused} m table k r = record {
    run = λ h e.
        subst (λ o. Outcome after refused o.0 o.1)
          (sym (k h ∙ ap (λ t. table t h) (ap (λ l. l.state) e))) (r.run h e);
  }

module _ {E M F R A B : Type 0} where
  -- A step to the session `g`, whose value is used and of which nothing is known.
  pub moved_to :
      {s g : Live} {m : Exec Stop (Hsm E M F R) A} {f : A → Exec Stop (Hsm E M F R) B}
      {after' : B → Live → Type 0} {refused : Live → Type 0}
      → Runs s m (λ _ t. t ≡ g) refused
      → ((a : A) → Runs g (f a) after' refused)
      → Runs s (m >>= f) after' refused
  moved_to {f} {after'} {refused} mr k =
      >>=-Runs mr (λ a t e. subst (λ t. Runs t (f a) after' refused) (sym e) (k a))

module _ {E M F R : Type 0} where
  -- A test of the configuration.
  pub require_config-Runs :
      {s : Live} {refused : Live → Type 0} (m : Exec Stop (Hsm E M F R) (Unit {0}))
      (test : Option DeviceConfig → Bool) (code : ErrorCode) (message : String)
      → ((h : Hsm E M F R) → m h ≡ require_that (test h.config) code message h)
      → refused s
      → Runs s m (λ _ t. (t ≡ s) × (test s.config ≡ true)) refused
  unfolding Outcome live
  require_config-Runs {s} {refused} m test code message k p = record {
    run = λ h e.
        subst (λ o. Outcome (λ _ t. (t ≡ s) × (test s.config ≡ true)) refused o.0 o.1) (sym (k h))
          (elim (Bool-cases (test h.config)) [
            | inl b ↦
                subst
                  (λ t.
                    Outcome (λ _ t. (t ≡ s) × (test s.config ≡ true)) refused
                      (require_that t code message h).0 (require_that t code message h).1)
                  (sym b) (e, sym (ap (λ l. test l.config) e) ∙ b)
            | inr b ↦
                subst
                  (λ t.
                    Outcome (λ _ t. (t ≡ s) × (test s.config ≡ true)) refused
                      (require_that t code message h).0 (require_that t code message h).1)
                  (sym b) (subst refused (sym e) p)
          ]);
  }

module _ {E M F R A : Type 0} where
  -- A step that chooses by the physical gesture.
  pub by_recovery :
      {s : Live} {after : A → Live → Type 0} {refused : Live → Type 0}
      (m : Exec Stop (Hsm E M F R) A) (table : Bool → Exec Stop (Hsm E M F R) A)
      → ((h : Hsm E M F R) → m h ≡ table h.physical_recovery_authorized h)
      → Runs s (table s.recovery) after refused
      → Runs s m after refused
  unfolding live
  by_recovery {after} {refused} m table k r = record {
    run = λ h e.
        subst (λ o. Outcome after refused o.0 o.1)
          (sym (k h ∙ ap (λ t. table t h) (ap (λ l. l.recovery) e))) (r.run h e);
  }
