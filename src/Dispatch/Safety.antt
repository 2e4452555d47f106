-- ===== src/Dispatch/Safety.antt =====
-- hsm-core/src/dispatch.rs: which secrets are in memory in which state, and that no command breaks it.
use mathlib.Core.Path.{subst}
use picosignet.Prelude.{
  Exec, ◌>>◌, pure, ◌≡◌, refl, sym, Bool, true, false, Option, none, some, is_some,
}
use picosignet.Prelude.Bytes.{Bytes}
use picosignet.Hal.{FlashStore, Monotonic}
use picosignet.Crypto.{Crypto}
use picosignet.Storage.Record.{Crc}
use picosignet.Storage.Config.{dev, prod, DeviceConfig}
use picosignet.Proto.{UnlockReq}
use picosignet.Dispatch.Session.{
  Hsm, Stop, modify, DeviceState, uninitialized, dev_ready, prod_locked, prod_ready, locked_out,
  drop_live_secrets,
}
use picosignet.Dispatch.Pins.{is_prod_config, UnlockedSeed}
use picosignet.Dispatch.Keys.{lock_in, hsm_lock, locked, unlocked, unlock_in, hsm_unlock}
use picosignet.Dispatch.Runs.{
  moved_to, Live, live, Runs, Frames, Frames-Runs, Frames-pure, Frames-refuse, moved>>, modify-Runs,
  by_state,
}
use picosignet.Dispatch.PinRuns.{shut, Runs-verify_pin}

unfoldable pub is_dev_config : Option DeviceConfig → Bool
is_dev_config none = false
is_dev_config (some c) = elim c.mode [ dev ↦ true | prod ↦ false ]

-- No secret is in memory.
abbrev pub Sealed : Option Bytes → Option Bytes → Option Bytes → Type 0
Sealed ca kek salt = (ca ≡ none) × (kek ≡ none) × (salt ≡ none)

unfoldable pub Consistent :
    DeviceState → Option DeviceConfig → Option Bytes → Option Bytes → Option Bytes → Type 0
unfolding is_dev_config
Consistent uninitialized c ca kek salt = (c ≡ none) × Sealed ca kek salt
Consistent dev_ready c ca kek salt = (is_dev_config c ≡ true) × (salt ≡ none)
Consistent prod_locked c ca kek salt = (is_prod_config c ≡ true) × Sealed ca kek salt
Consistent prod_ready c ca kek salt =
    (is_prod_config c ≡ true) × (is_some ca ≡ true) × (is_some kek ≡ true) × (is_some salt ≡ true)
Consistent locked_out c ca kek salt = (is_prod_config c ≡ true) × Sealed ca kek salt

-- The state agrees with the configuration, and the secrets in memory are those that the state allows.
unfoldable pub IsSafe : Live → Type 0
IsSafe s = Consistent s.state s.config s.ca s.wrap_kek s.wrap_salt

-- A production device has a configuration.
pub prod_some : (c : Option DeviceConfig) → is_prod_config c ≡ true → is_some c ≡ true
prod_some none p = p
prod_some (some c) p = refl

pub facts :
    (s : Live) (st : DeviceState)
    → s.state ≡ st
    → IsSafe s
    → Consistent st s.config s.ca s.wrap_kek s.wrap_salt
unfolding IsSafe
facts s st e p = subst (λ t. Consistent t s.config s.ca s.wrap_kek s.wrap_salt) e p

-- The session without its secrets, and the session with all of them.
abbrev pub scrubbed : DeviceState → Live → Live
scrubbed st s = record s { state = st; ca = none; wrap_kek = none; wrap_salt = none }

abbrev pub opened : UnlockedSeed → Live → Live
opened (seed, kek, salt) s = record s {
  state = prod_ready;
  ca = some seed;
  wrap_kek = some kek;
  wrap_salt = some salt;
}

-- What a command needs of the sessions that it can leave, on a production device.
pub record Production (s : Live) : Type 0 where
  pub here : IsSafe s
  pub configured : is_some s.config ≡ true
  pub relocked : IsSafe (scrubbed prod_locked s)
  pub shut : IsSafe (shut s)
  pub ready : (got : UnlockedSeed) → IsSafe (opened got s)

production : {s : Live} → IsSafe s → is_prod_config s.config ≡ true → Production s
unfolding IsSafe Consistent
production {s} p c = record {
  here = p;
  configured = prod_some s.config c;
  relocked = (c, (refl, refl, refl));
  shut = (c, (refl, refl, refl));
  ready = λ (seed, kek, salt). (c, refl, refl, refl);
}

pub ready-Production : {s : Live} → s.state ≡ prod_ready → IsSafe s → Production s
unfolding Consistent
ready-Production {s} e p = production p (facts s prod_ready e p).0

pub locked-Production : {s : Live} → s.state ≡ prod_locked → IsSafe s → Production s
unfolding Consistent
locked-Production {s} e p = production p (facts s prod_locked e p).0

module _ {E M F R A : Type 0} where
  -- The end of a handler: a change of the session to a safe one, and the response.
  pub settles :
      {s : Live} (f : Hsm E M F R → Hsm E M F R) (g : Live → Live) (a : A)
      → ((h : Hsm E M F R) → live (f h) ≡ g (live h))
      → IsSafe (g s)
      → Runs s (modify f >> pure a) (λ _ t. IsSafe t) IsSafe
  settles f g a k p = moved>> (modify-Runs f g k) (Frames-Runs (Frames-pure a) (λ _. p) p)

  pub stays :
      {s : Live} {m : Exec Stop (Hsm E M F R) A}
      → Frames m
      → IsSafe s
      → Runs s m (λ _ t. IsSafe t) IsSafe
  stays fm p = Frames-Runs fm (λ _. p) p

module _ {E M F R : Type 0} where
  lock_in-Runs :
      {s : Live} (st : DeviceState)
      → s.state ≡ st
      → IsSafe s
      → Runs {E = E} {M = M} {F = F} {R = R} s (lock_in st) (λ _ t. IsSafe t) IsSafe
  unfolding IsSafe Consistent lock_in locked drop_live_secrets live
  lock_in-Runs {s} prod_ready e p =
      settles locked (scrubbed prod_locked) _ (λ h. refl) (ready-Production {s = s} e p).relocked
  lock_in-Runs {s} prod_locked e p =
      settles drop_live_secrets (λ s. scrubbed s.state s) _ (λ h. refl)
        (subst (λ t. IsSafe (scrubbed t s)) (sym e)
          ((facts s prod_locked e p).0, (refl, refl, refl)))
  lock_in-Runs {s} locked_out e p =
      settles drop_live_secrets (λ s. scrubbed s.state s) _ (λ h. refl)
        (subst (λ t. IsSafe (scrubbed t s)) (sym e)
          ((facts s locked_out e p).0, (refl, refl, refl)))
  lock_in-Runs dev_ready e p = stays (Frames-refuse _ _) p
  lock_in-Runs uninitialized e p = stays (Frames-refuse _ _) p

  pub lock-Runs :
      {s : Live}
      → IsSafe s
      → Runs {E = E} {M = M} {F = F} {R = R} s hsm_lock (λ _ t. IsSafe t) IsSafe
  unfolding hsm_lock
  lock-Runs {s} p = by_state hsm_lock lock_in (λ h. refl) (lock_in-Runs s.state refl p)

module _ {E M F R : Type 0} ⦃mono : Monotonic M⦄ ⦃fs : FlashStore F⦄ ⦃crc : Crc⦄ ⦃cr : Crypto⦄ where
  unlock_in-Runs :
      {s : Live} (req : UnlockReq) (st : DeviceState)
      → s.state ≡ st
      → IsSafe s
      → Runs {E = E} {M = M} {F = F} {R = R} s (unlock_in req st) (λ _ t. IsSafe t) IsSafe
  unfolding unlock_in unlocked live
  unlock_in-Runs req prod_ready e p = stays (Frames-pure _) p
  unlock_in-Runs {s} req prod_locked e p =
      let q = locked-Production {s = s} e p in
      moved_to (Runs-verify_pin req.pin q.configured q.here q.shut)
        (λ got. settles (unlocked got) (opened got) _ (λ h. refl) (q.ready got))
  unlock_in-Runs req locked_out e p = stays (Frames-refuse _ _) p
  unlock_in-Runs req dev_ready e p = stays (Frames-refuse _ _) p
  unlock_in-Runs req uninitialized e p = stays (Frames-refuse _ _) p

  pub unlock-Runs :
      {s : Live} (req : UnlockReq)
      → IsSafe s
      → Runs {E = E} {M = M} {F = F} {R = R} s (hsm_unlock req) (λ _ t. IsSafe t) IsSafe
  unfolding hsm_unlock
  unlock-Runs {s} req p =
      by_state (hsm_unlock req) (unlock_in req) (λ h. refl) (unlock_in-Runs req s.state refl p)
