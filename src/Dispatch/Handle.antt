-- ===== src/Dispatch/Handle.antt =====
-- hsm-core/src/dispatch.rs, `handle_hsm`: the one command of a management request.
use mathlib.Core.Option
use picosignet.Prelude.{
  true, false, ℕ, ◌+◌, List, [], ◌∷◌, Bool, Option, none, some, Result, ok, err, Exec, ◌==◌,
  if◌then◌else◌, is_some,
}
use picosignet.Hal.{FlashStore, EntropySource, Monotonic}
use picosignet.Crypto.{Crypto, ChaCha}
use picosignet.Storage.Record.{Crc}
use picosignet.Proto.{HsmRequest, HsmResponse, err_bad_request}
use picosignet.Dispatch.Session.{Hsm, Stop, responds, panics, refuse}
use picosignet.Dispatch.Setup.{hsm_init}
use picosignet.Dispatch.Keys.{
  hsm_generate_key, hsm_get_public_key, hsm_unlock, hsm_lock, hsm_change_pin,
}
use picosignet.Dispatch.Time.{hsm_set_time, hsm_status, hsm_add_entropy, hsm_self_test}
use picosignet.Dispatch.Reset.{hsm_factory_reset, hsm_reboot_bootloader}

unfoldable pub set_count : List Bool → ℕ
set_count [] = 0
set_count (b ∷ bs) = (if b then 1 else 0) + set_count bs

unfoldable pub variants : HsmRequest → List Bool
variants h =
    is_some h.init
    ∷ is_some h.generate_key
    ∷ is_some h.get_public_key
    ∷ is_some h.unlock
    ∷ is_some h.lock
    ∷ is_some h.set_time
    ∷ is_some h.status
    ∷ is_some h.change_pin
    ∷ is_some h.add_entropy
    ∷ is_some h.self_test
    ∷ is_some h.factory_reset
    ∷ is_some h.reboot_bootloader
    ∷ []

-- The chain of `if let Some(…)`, with the response at its end.
unfoldable pub first_set {ℓ} : {A : Type ℓ} → List (Option A) → A → A
first_set [] last = last
first_set (none ∷ rest) last = first_set rest last
first_set (some handler ∷ rest) last = handler

module _ {E M F R : Type 0} ⦃src : EntropySource E⦄ ⦃mono : Monotonic M⦄ ⦃fs : FlashStore F⦄
    ⦃crc : Crc⦄ ⦃cr : Crypto⦄ ⦃gen : ChaCha R⦄ where
  unfoldable pub handlers : HsmRequest → List (Option (Exec Stop (Hsm E M F R) HsmResponse))
  handlers h =
      Option.map hsm_init h.init
      ∷ Option.map hsm_generate_key h.generate_key
      ∷ Option.map (λ _. hsm_get_public_key) h.get_public_key
      ∷ Option.map hsm_unlock h.unlock
      ∷ Option.map (λ _. hsm_lock) h.lock
      ∷ Option.map hsm_set_time h.set_time
      ∷ Option.map (λ _. hsm_status) h.status
      ∷ Option.map hsm_change_pin h.change_pin
      ∷ Option.map hsm_add_entropy h.add_entropy
      ∷ Option.map (λ _. hsm_self_test) h.self_test
      ∷ Option.map hsm_factory_reset h.factory_reset
      ∷ Option.map hsm_reboot_bootloader h.reboot_bootloader
      ∷ []

  unfoldable pub handle_hsm : HsmRequest → Exec Stop (Hsm E M F R) HsmResponse
  unfolding set_count variants first_set handlers
  handle_hsm req = elim (set_count (variants req) == 1) [
    | true ↦ first_set (handlers req) (refuse err_bad_request "exactly one hsm command expected")
    | false ↦ refuse err_bad_request "exactly one hsm command expected"
  ]

-- The response of a handler, however it ended; none where it panicked.
unfoldable pub response : Result Stop HsmResponse → Option HsmResponse
response (ok r) = some r
response (err (responds r)) = some r
response (err panics) = none
