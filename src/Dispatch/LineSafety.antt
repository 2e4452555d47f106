-- ===== src/Dispatch/LineSafety.antt =====
-- hsm-core/src/dispatch.rs: what any line of input leaves.
use picosignet.Prelude.{
  sym, Bool, true, false, Option, none, some, Result, ok, err, Exec, if◌then◌else◌, ltb, is_some,
}
use mathlib.Core.Path.{subst}
use picosignet.Prelude.Bytes.{Bytes}
use picosignet.Hal.{FlashStore, EntropySource, Monotonic}
use picosignet.Crypto.{Crypto, ChaCha}
use picosignet.Storage.Record.{Crc}
use picosignet.Proto.{HsmRequest}
use picosignet.Proto.Outer.{EnclaveSigningRequest, Request, Response}
use picosignet.GoDuration.Reading.{Float64}
use picosignet.Sshwire.Reader.{Target}
use picosignet.Sshwire.Key.{KeyCrates}
use picosignet.Dispatch.Session.{Hsm}
use picosignet.Dispatch.Runs.{live}
use picosignet.Dispatch.Safety.{IsSafe}
use picosignet.Dispatch.Commands.{handle_hsm-keeps}
use picosignet.Dispatch.Sign.{Leave, handle_sign}
use picosignet.Dispatch.Keeps.{masked}
use picosignet.Dispatch.Signing.{handle_sign-keeps}
use picosignet.Dispatch.Lines.{
  Json, is_object, request_count, run_sign, run_hsm, handle_parsed, run_request, answer_request,
  handle, process_line,
}

module _ {E M F R : Type 0} ⦃src : EntropySource E⦄ ⦃mono : Monotonic M⦄ ⦃fs : FlashStore F⦄
    ⦃crc : Crc⦄ ⦃cr : Crypto⦄ ⦃gen : ChaCha R⦄ ⦃fl : Float64⦄ ⦃t : Target⦄ ⦃kc : KeyCrates⦄ where
  -- A step from this session that leaves a safe one.
  abbrev Stays : {A : Type 0} → Exec Leave (Hsm E M F R) A → Hsm E M F R → Type 0
  Stays m h = IsSafe (live (m h).1)

  sign-IsSafe :
      (req : EnclaveSigningRequest) (h : Hsm E M F R)
      → IsSafe (live h)
      → IsSafe (live (handle_sign req h).1)
  unfolding live masked
  sign-IsSafe req h p =
      subst (λ x. IsSafe (live x)) (sym (handle_sign-keeps req h.drbg h.entropy h)) p

  chosen :
      {A : Type 0} (b : Bool) (x y : A × Hsm E M F R)
      → IsSafe (live x.1)
      → IsSafe (live y.1)
      → IsSafe (live (if b then x else y).1)
  chosen true x y p q = p
  chosen false x y p q = q

  run_hsm-IsSafe :
      (o : Option HsmRequest) (m : Exec Leave (Hsm E M F R) Response) (h : Hsm E M F R)
      → IsSafe (live h)
      → Stays m h
      → Stays (run_hsm o m) h
  unfolding run_hsm
  run_hsm-IsSafe none m h p q = q
  run_hsm-IsSafe (some r) m h p q = handle_hsm-keeps r h p

  run_sign-IsSafe :
      (o : Option EnclaveSigningRequest) (m : Exec Leave (Hsm E M F R) Response) (h : Hsm E M F R)
      → IsSafe (live h)
      → Stays m h
      → Stays (run_sign o m) h
  unfolding run_sign
  run_sign-IsSafe none m h p q = q
  run_sign-IsSafe (some s) m h p q = sign-IsSafe s h p

  answer-IsSafe : (req : Request) (h : Hsm E M F R) → IsSafe (live h) → Stays (answer_request req) h
  unfolding answer_request run_request
  answer-IsSafe req h p = chosen (ltb 1 (request_count req)) _ _ p (
      chosen (is_some req.load_key_signer) _ _ p (
        run_sign-IsSafe req.sign_ssh_key _ h p (
          chosen (is_some req.ping) _ _ p
            (chosen (is_some req.get_enclave_metrics) _ _ p (run_hsm-IsSafe req.hsm _ h p p)))))

  parsed-IsSafe :
      (o : Result Bytes Request) (h : Hsm E M F R) → IsSafe (live h) → Stays (handle_parsed o) h
  unfolding handle_parsed
  parsed-IsSafe (ok req) h p = answer-IsSafe req h p
  parsed-IsSafe (err e) h p = p

  -- Every line of input, well formed or not, whatever its parser makes of it, leaves a safe session
  -- safe: the state agrees with the configuration, and the secrets in memory are those that the state
  -- allows.
  pub process_line-IsSafe :
      ⦃js : Json⦄ (line : Bytes) (h : Hsm E M F R)
      → IsSafe (live h)
      → IsSafe (live (process_line line h).1)
  unfolding process_line handle
  process_line-IsSafe ⦃js⦄ line h p =
      chosen (is_object line) _ _ (parsed-IsSafe (js.from_slice line) h p) p
