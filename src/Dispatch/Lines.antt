-- ===== src/Dispatch/Lines.antt =====
-- hsm-core/src/dispatch.rs: `process_line` and `handle`, from a request's line to its response, and
-- the small calls that the firmware makes between lines.
use picosignet.Prelude.{
  ℕ, Bool, false, ◌||◌, Option, none, some, [], ◌∷◌, ◌++◌, Result, ok, err, Exec, ltb, ◌==◌,
  if◌then◌else◌, is_some, unwrap_or,
}
use picosignet.Prelude.Bytes.{Bytes, codes}
use picosignet.Hal.{HalError, FlashStore, EntropySource, Monotonic}
use picosignet.Crypto.{Crypto, ChaCha}
use picosignet.Rng.{reseed, mix_host}
use picosignet.Storage.Record.{Crc}
use picosignet.Proto.{HsmRequest, HsmResponse}
use picosignet.Proto.Outer.{EnclaveSigningRequest, Request, Response, blank, failure}
use picosignet.GoDuration.Reading.{Float64}
use picosignet.Sshwire.Reader.{Target}
use picosignet.Sshwire.Key.{KeyCrates}
use picosignet.Dispatch.Session.{Hsm, Stop, responds}
use picosignet.Dispatch.Session
use picosignet.Dispatch.Handle.{handle_hsm, set_count}
use picosignet.Dispatch.Sign.{
  Leave, answers, panics, handle_ping, handle_metrics, handle_load_key_signer, handle_sign,
}

-- `serde_json`: a request, or the text of the error; a response, or nothing where it fails.
pub record Json : Type 0 where
  pub from_slice : Bytes → Result Bytes Request
  pub to_vec : Response → Option Bytes

-- The first byte that is no JSON space.
unfoldable pub first_byte : Bytes → Option ℕ
first_byte [] = none
first_byte (b ∷ bs) =
    if b == 0x20 || (b == 0x09 || (b == 0x0a || b == 0x0d)) then first_byte bs else some b

unfoldable pub is_object : Bytes → Bool
is_object line = elim (first_byte line) [ none ↦ false | some b ↦ b == 0x7b ]

-- How many variants of a request are set.
unfoldable pub request_count : Request → ℕ
request_count req = set_count (
    is_some req.load_key_signer
    ∷ is_some req.sign_ssh_key
    ∷ is_some req.ping
    ∷ is_some req.get_enclave_metrics
    ∷ is_some req.hsm
    ∷ [])

-- The response of a management handler, however it ended.
unfoldable pub wrapped : Result Stop HsmResponse → Result Leave Response
wrapped (ok r) = ok (record blank { hsm = some r })
wrapped (err (responds r)) = ok (record blank { hsm = some r })
wrapped (err Session.panics) = err panics

-- A response, whether it was returned early or at the end.
unfoldable pub responded : Result Leave Response → Result Leave Response
responded (ok r) = ok r
responded (err (answers r)) = ok r
responded (err l) = err l

-- The bytes of a response.
unfoldable pub rendered : ⦃js : Json⦄ → Result Leave Response → Result Leave Bytes
rendered ⦃js⦄ (ok r) = ok (unwrap_or (js.to_vec r) (codes "{\"error\":\"internal error\"}"))
rendered (err l) = err l

module _ {E M F R : Type 0} where
  unfoldable pub take_reboot_requested : Hsm E M F R → Bool × Hsm E M F R
  take_reboot_requested h = (h.reboot_requested, record h { reboot_requested = false })

  unfoldable pub set_physical_recovery_authorized : Bool → Hsm E M F R → Hsm E M F R
  set_physical_recovery_authorized authorized h = record h {
    physical_recovery_authorized = authorized;
  }

  unfoldable pub set_heap_free : ℕ → Hsm E M F R → Hsm E M F R
  set_heap_free bytes h = record h { heap_free = bytes }

  unfoldable pub set_security_flags : Bool → Bool → Bool → Hsm E M F R → Hsm E M F R
  set_security_flags glitch_armed secure_boot glitch_reset h = record h {
    glitch_armed = glitch_armed;
    secure_boot = secure_boot;
    glitch_reset = glitch_reset;
  }

module _ {E M F R : Type 0} ⦃src : EntropySource E⦄ ⦃cr : Crypto⦄ ⦃gen : ChaCha R⦄ where
  unfoldable pub reseed_drbg : Hsm E M F R → Result HalError (Unit {0}) × Hsm E M F R
  reseed_drbg h =
      let (r, (d, e)) = reseed (h.drbg, h.entropy) in (r, record h { drbg = d; entropy = e })

  unfoldable pub mix_entropy : Bytes → Hsm E M F R → Hsm E M F R
  mix_entropy bytes h = record h { drbg = mix_host bytes h.drbg }

module _ {E M F R : Type 0} ⦃src : EntropySource E⦄ ⦃mono : Monotonic M⦄ ⦃fs : FlashStore F⦄
    ⦃crc : Crc⦄ ⦃cr : Crypto⦄ ⦃gen : ChaCha R⦄ ⦃fl : Float64⦄ ⦃t : Target⦄ ⦃kc : KeyCrates⦄ where
  -- `if let Some(s) = req.sign_ssh_key`, with what comes after it.
  unfoldable pub run_sign :
      Option EnclaveSigningRequest
      → Exec Leave (Hsm E M F R) Response
      → Exec Leave (Hsm E M F R) Response
  run_sign none otherwise h = otherwise h
  run_sign (some s) otherwise h = (responded (handle_sign s h).0, (handle_sign s h).1)

  unfoldable pub run_hsm :
      Option HsmRequest → Exec Leave (Hsm E M F R) Response → Exec Leave (Hsm E M F R) Response
  run_hsm none otherwise h = otherwise h
  run_hsm (some r) otherwise h = (wrapped (handle_hsm r h).0, (handle_hsm r h).1)

  -- The chain of `if … else if …` on the variants.
  unfoldable pub run_request : Request → Exec Leave (Hsm E M F R) Response
  run_request req h =
      if is_some req.load_key_signer
      then (ok (handle_load_key_signer h), h)
      else run_sign req.sign_ssh_key
          (λ h.
            if is_some req.ping
            then (ok (handle_ping h), h)
            else if is_some req.get_enclave_metrics
            then (ok (handle_metrics h), h)
            else run_hsm req.hsm (λ h. (ok (failure (codes "unexpected command")), h)) h)
          h

  unfoldable pub answer_request : Request → Exec Leave (Hsm E M F R) Response
  answer_request req h =
      if ltb 1 (request_count req)
      then (ok (failure (codes "multiple request variants set; expected exactly one")), h)
      else run_request req h

  -- A line that begins an object, as it parses.
  unfoldable pub handle_parsed : Result Bytes Request → Exec Leave (Hsm E M F R) Response
  handle_parsed (ok req) h = answer_request req h
  handle_parsed (err e) h = (ok (failure (codes "json.Unmarshal failed: " ++ e)), h)

  unfoldable pub handle : ⦃js : Json⦄ → Bytes → Exec Leave (Hsm E M F R) Response
  handle ⦃js⦄ line h =
      if is_object line
      then handle_parsed (js.from_slice line) h
      else (ok (failure (codes "json.Unmarshal failed: request must be a JSON object")), h)

  unfoldable pub process_line : ⦃js : Json⦄ → Bytes → Exec Leave (Hsm E M F R) Bytes
  process_line line h = (rendered (handle line h).0, (handle line h).1)
