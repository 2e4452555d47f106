-- ===== src/Dispatch/Frames.antt =====
-- hsm-core/src/dispatch.rs, the steps and commands that leave the session's secrets as they are.
use picosignet.Prelude.{arith, ℕ, ◌≡◌, refl, Bool, Option, none, some, Result, ok, err, leb, length}
use picosignet.Prelude.Bytes.{Bytes, be64}
use picosignet.Prelude.Int.{ℤ, to_u64}
use picosignet.Hal.{FlashStore, EntropySource, Monotonic}
use picosignet.Crypto.{Crypto, ChaCha}
use picosignet.Clock.{Clock, Rejected}
use picosignet.Pin.{count}
use picosignet.Rng.{mix_host}
use picosignet.Storage.Record.{Crc}
use picosignet.Storage.AbPair.{write, read_latest, time_floor, config_pair, key_pair}
use picosignet.Storage.Config.{
  DeviceConfig, Mode, WrapType, dev_kek, pin_kek, dev, prod, config_to_bytes,
}
use picosignet.Proto.{SetTimeReq, AddEntropyReq}
use picosignet.Dispatch.Setup.{prepared, fresh_entropy, draw, write_key, write_config}
use picosignet.Dispatch.Keys.{pin_salt, may_replace, blob_salt, hsm_get_public_key}
use picosignet.Dispatch.Hex.{hex_decode}
use picosignet.Dispatch.Time.{
  host_bytes, retries_in, write_floor, settle_time, set_time_response, floor_available, near_floor,
  persist_floor, same_floor, next_floor, progressed, accept_time, hsm_set_time, retries_of,
  hsm_add_entropy, hsm_self_test, max_entropy_hex,
}
use picosignet.Dispatch.Runs.{
  live, Outcome, Frames, Frames->>=, Frames->>, Frames-pure, Frames-gets, Frames-on_flash,
  Frames-refuse, Frames-require, Frames-require_field, Frames-require_that, Frames-modify,
  Frames-choice, Frames-if,
}

module _ {E M F R : Type 0} where
  pub Frames-pin_salt : (w : WrapType) → Frames {E = E} {M = M} {F = F} {R = R} (pin_salt w)
  unfolding pin_salt
  Frames-pin_salt dev_kek = Frames-pure none
  Frames-pin_salt pin_kek =
      Frames->>= (Frames-require_field (λ h. h.wrap_salt) _ _) (λ salt. Frames-pure (some salt))

  pub Frames-may_replace : (b : Bool) → Frames {E = E} {M = M} {F = F} {R = R} (may_replace b)
  unfolding may_replace
  Frames-may_replace force =
      Frames-choice (may_replace force) (λ h. (_, Frames-require_that _ _ _, refl))

module _ {E M F R : Type 0} ⦃src : EntropySource E⦄ ⦃cr : Crypto⦄ ⦃gen : ChaCha R⦄ where
  pub Frames-draw : (n : ℕ) → Frames {E = E} {M = M} {F = F} {R = R} (draw n)
  unfolding draw Outcome live
  Frames-draw n = record { frame = λ s. record { run = λ h e. e } }

  Frames-prepared : Frames {E = E} {M = M} {F = F} {R = R} prepared
  unfolding prepared Outcome live
  Frames-prepared = record { frame = λ s. record { run = λ h e. e } }

  pub Frames-fresh_entropy : Frames {E = E} {M = M} {F = F} {R = R} fresh_entropy
  unfolding fresh_entropy
  Frames-fresh_entropy = Frames->>= Frames-prepared (λ r. Frames-require r _ _)

  pub Frames-blob_salt : (o : Option Bytes) → Frames {E = E} {M = M} {F = F} {R = R} (blob_salt o)
  unfolding blob_salt
  Frames-blob_salt (some s) = Frames-pure s
  Frames-blob_salt none = Frames-draw 16

module _ {E M F R : Type 0} ⦃fs : FlashStore F⦄ ⦃crc : Crc⦄ where
  pub Frames-write_key : (b : Bytes) → Frames {E = E} {M = M} {F = F} {R = R} (write_key b)
  unfolding write_key
  Frames-write_key b =
      Frames->>= (Frames-on_flash (write key_pair b)) (λ wrote. Frames-require wrote _ _)

  pub Frames-write_config :
      (c : DeviceConfig) → Frames {E = E} {M = M} {F = F} {R = R} (write_config c)
  unfolding write_config
  Frames-write_config c =
      Frames->>= (Frames-on_flash (write config_pair (config_to_bytes c)))
        (λ wrote. Frames-require wrote _ _)

module _ {E M F R : Type 0} ⦃cr : Crypto⦄ where
  pub Frames-get_public_key : Frames {E = E} {M = M} {F = F} {R = R} hsm_get_public_key
  unfolding hsm_get_public_key
  Frames-get_public_key =
      Frames->>= (Frames-require_field (λ h. h.ca_pubkey) _ _) (λ pk. Frames-pure _)

module _ {E M F R : Type 0} where
  Frames-host_bytes : (o : Option Bytes) → Frames {E = E} {M = M} {F = F} {R = R} (host_bytes o)
  unfolding host_bytes
  Frames-host_bytes none = Frames-refuse _ _
  Frames-host_bytes (some b) =
      Frames-if (leb (length b) max_entropy_hex) _ _ (Frames-pure b) (Frames-refuse _ _)

module _ {E M F R : Type 0} ⦃cr : Crypto⦄ ⦃gen : ChaCha R⦄ where
  pub Frames-add_entropy :
      (req : AddEntropyReq) → Frames {E = E} {M = M} {F = F} {R = R} (hsm_add_entropy req)
  unfolding hsm_add_entropy live
  Frames-add_entropy req = Frames->>= (Frames-host_bytes (hex_decode req.hex)) (λ bytes.
      Frames->> (Frames-modify (λ h. record h { drbg = mix_host bytes h.drbg }) (λ h. refl))
        (Frames-pure _))

module _ {E M F R : Type 0} ⦃fs : FlashStore F⦄ ⦃crc : Crc⦄ ⦃cr : Crypto⦄ where
  pub Frames-self_test : Frames {E = E} {M = M} {F = F} {R = R} hsm_self_test
  unfolding hsm_self_test
  Frames-self_test = Frames->>= (Frames-on_flash (read_latest config_pair)) (λ found. Frames-gets _)

module _ {E M F R : Type 0} ⦃mono : Monotonic M⦄ ⦃fs : FlashStore F⦄ where
  Frames-retries_in :
      (m : Mode) (c : DeviceConfig) → Frames {E = E} {M = M} {F = F} {R = R} (retries_in m c)
  unfolding retries_in
  Frames-retries_in dev c = Frames-pure none
  Frames-retries_in prod c = Frames->>= (Frames-on_flash count) (λ used. Frames-pure _)

  Frames-retries_of :
      (c : Option DeviceConfig) → Frames {E = E} {M = M} {F = F} {R = R} (retries_of c)
  unfolding retries_of
  Frames-retries_of none = Frames-pure none
  Frames-retries_of (some c) = Frames-retries_in c.mode c

next_floor_some :
    (first recovery : Bool) (t : ℤ) (old now : Option ℤ)
    → next_floor first recovery t old now ≡ none
    → old ≡ none
unfolding next_floor
next_floor_some first recovery t old now e = ground (arith, next_floor, progressed)

module _ {E M F R : Type 0} ⦃fs : FlashStore F⦄ ⦃crc : Crc⦄ where
  -- A floor to be written is there: what changes is never the absence of one.
  Frames-persist_floor :
      (old next : Option ℤ)
      → (next ≡ none → old ≡ none)
      → Frames {E = E} {M = M} {F = F} {R = R} (persist_floor old next)
  unfolding persist_floor write_floor same_floor
  Frames-persist_floor none none k = Frames-pure tt
  Frames-persist_floor (some a) none k = ground (arith, k refl)
  Frames-persist_floor old (some b) k = Frames-if (same_floor (some b) old) _ _ (Frames-pure tt) (
      Frames->>= (Frames-on_flash (write time_floor (be64 (to_u64 b))))
        (λ wrote. Frames-require wrote _ _))

module _ {E M F R : Type 0} ⦃mono : Monotonic M⦄ ⦃fs : FlashStore F⦄ ⦃crc : Crc⦄ where
  Frames-settle_time :
      (c : Clock) (old next : Option ℤ) (r : Result Rejected Bool)
      → (next ≡ none → old ≡ none)
      → Frames {E = E} {M = M} {F = F} {R = R} (settle_time c old next r)
  unfolding settle_time live
  Frames-settle_time c old next (err e) k = Frames-refuse _ _
  Frames-settle_time c old next (ok b) k = Frames->> (Frames-persist_floor old next k) (
      Frames->> (Frames-modify (λ h. record h { clock = c; trusted_time_floor = next }) (λ h. refl))
        (Frames-gets (set_time_response b)))

  pub Frames-set_time :
      (req : SetTimeReq) → Frames {E = E} {M = M} {F = F} {R = R} (hsm_set_time req)
  unfolding hsm_set_time accept_time floor_available near_floor
  Frames-set_time req =
      Frames->> (Frames-choice floor_available (λ h. (_, Frames-require_that _ _ _, refl))) (
        Frames->>
          (Frames-choice (near_floor req.unix_seconds) (λ h. (_, Frames-require_that _ _ _, refl)))
          (Frames-choice (accept_time req.unix_seconds) (λ h.
            (_, Frames-settle_time _ h.trusted_time_floor _ _ (next_floor_some _ _ _ _ _), refl))))
