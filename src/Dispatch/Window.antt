-- ===== src/Dispatch/Window.antt =====
-- hsm-core/src/dispatch.rs, `handle_sign`: the validity of the certificates that are issued.
use picosignet.Prelude.{
  ℕ, ◌+◌, ◌/◌, ◌^◌, ◌≡◌, ◌≤◌, ◌<◌, sym, ap, ◌∙◌, arith, Option, some, Result, ok,
}
use picosignet.Prelude.Bytes.{Bytes}
use picosignet.Prelude.Int.{pos, to_u64, quotient}
use picosignet.Hal.{EntropySource, Monotonic}
use picosignet.Crypto.{Crypto, ChaCha}
use picosignet.Clock.{now_unix}
use picosignet.Proto.Outer.{EnclaveSigningRequest, Response}
use picosignet.GoDuration.Reading.{Float64}
use picosignet.Sshwire.Reader.{Target}
use picosignet.Sshwire.Key.{KeyCrates}
use picosignet.Validate.{max_validity_ns}
use picosignet.Cert.{CertParams, build_certificate}
use picosignet.Dispatch.Session.{Hsm}
use picosignet.Dispatch.Sign.{valid_after, valid_before, params, signed_response, handle_sign}
use picosignet.Dispatch.Signing.{nonce_of, serial_of, drawn_from, handle_sign-issues}

after-eq : (x : ℕ) → 300 ≤ x → x < 2 ^ 62 → valid_after (pos x) + 300 ≡ x
unfolding valid_after to_u64
after-eq x low high = omega arith

before-eq :
    (x n : ℕ) → x < 2 ^ 62 → n ≤ max_validity_ns → valid_before (pos x) (pos n) ≡ x + n / 1000000000
unfolding valid_before to_u64 quotient
before-eq x n high long = omega arith

pos_inj : {a b : ℕ} → pos a ≡ pos b → a ≡ b
pos_inj h = cc

reading_inj :
    {A : Type 0} {a b : A}
    → ◌≡◌ {A = Result (Unit {0}) (Option A)} (ok (some a)) (ok (some b))
    → a ≡ b
reading_inj h = cc

module _ {E M F R : Type 0} ⦃src : EntropySource E⦄ ⦃mono : Monotonic M⦄ ⦃cr : Crypto⦄
    ⦃gen : ChaCha R⦄ ⦃fl : Float64⦄ ⦃t : Target⦄ ⦃kc : KeyCrates⦄ where
  -- On a clock that answers a time from 300 seconds on and below 2 ^ 62, a certificate that is issued
  -- is valid from 300 seconds before that time, and until a day after it at most.
  pub handle_sign-window :
      (req : EnclaveSigningRequest) (h : Hsm E M F R) (x : ℕ) {r : Response} {h' : Hsm E M F R}
      → now_unix h.mono h.clock ≡ ok (some (pos x))
      → 300 ≤ x
      → x < 2 ^ 62
      → handle_sign req h ≡ (ok r, h')
      → (p : CertParams) × (seed : Bytes) × (r ≡ signed_response (build_certificate p seed))
        × (p.valid_after + 300 ≡ x)
        × (x ≤ p.valid_before)
        × (p.valid_before ≤ x + 86400)
  unfolding params
  handle_sign-window req h x timed low high e =
      let (now, v, seed, _, clock, permitted, _, _, same) = handle_sign-issues req h e in
      let is_now : now ≡ pos x = reading_inj (sym clock ∙ timed) in
      let (n, lasts, _, short) = permitted.duration in
      let starts = ap valid_after is_now in
      let ends : valid_before now v.duration_ns ≡ x + n / 1000000000 =
        ap (λ d. valid_before d v.duration_ns) is_now
        ∙ (ap (λ d. valid_before (pos x) d) lasts ∙ before-eq x n high short) in
      let first : valid_after now + 300 ≡ x = rw starts (after-eq x low high) in
      let last : x ≤ valid_before now v.duration_ns = omega (arith, ends) in
      let most : valid_before now v.duration_ns ≤ x + 86400 = omega (arith, ends) in
      (
        params req v now (nonce_of (drawn_from h)) (serial_of (drawn_from h)),
        seed,
        same,
        first,
        last,
        most,
      )
