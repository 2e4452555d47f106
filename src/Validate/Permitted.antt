-- ===== src/Validate/Permitted.antt =====
-- hsm-core/src/validate.rs: what a granted request is.
use picosignet.Prelude.{
  ℕ, suc, ◌≡◌, ◌≤◌, ◌<◌, refl, ◌∙◌, arith, Bool, true, false, List, [], ◌∷◌, ◌++◌, Result, ok, err,
  Fault, fails, overflows, unfinished, and_then-ok, ltb, ◌==◌, if◌then◌else◌, length, All,
}
use picosignet.Prelude.Bytes.{Bytes, codes}
use picosignet.Prelude.Int.{ℤ, pos, negsuc}
use picosignet.Text.{trim, is_nil}
use picosignet.Maps.{Map, contains_key, insert_all, lookup, IsSorted}
use picosignet.Maps.Order.{insert_all-IsSorted}
use picosignet.Maps.Lookup.{lookup-insert_all, lookup_copied}
use picosignet.Proto.Outer.{EnclaveSigningRequest}
use picosignet.GoDuration.Reading.{Parsed, ◌>>◌, refuse_if, Float64, parse_duration}
use picosignet.Sshwire.Reader.{Target}
use picosignet.Sshwire.Key.{KeyCrates, KeyKind, ed25519, ecdsa_p256, ecdsa_p384, ecdsa_p521, rsa}
use picosignet.Sshwire.Line.{parse_authorized_key}
use picosignet.Validate.{
  Validated, max_principals, max_validity_ns, map_key_error, map_fault, check_principals,
  check_attributes, validate_public_key, check_duration, validate_request, validate,
}

-- A text with something besides spaces.
abbrev pub IsFilled : Bytes → Type 0
IsFilled s = is_nil (trim s) ≡ false

unfoldable pub IsSized : KeyKind → Type 0
IsSized (rsa bits) = (2048 ≤ bits) × (bits ≤ 8192)
IsSized ed25519 = Unit {0}
IsSized ecdsa_p256 = Unit {0}
IsSized ecdsa_p384 = Unit {0}
IsSized ecdsa_p521 = Unit {0}

module _ {B : Type 0} where
  passes :
      (b : Bool) (message : Bytes) (k : Parsed B) {x : B}
      → (refuse_if b message >> k) ≡ ok x
      → (b ≡ false) × (k ≡ ok x)
  unfolding refuse_if
  passes true message k h = cc
  passes false message k h = (refl, h)

ok_inj : {E A : Type 0} {a b : A} → ◌≡◌ {A = Result E A} (ok a) (ok b) → a ≡ b
ok_inj h = cc

map_fault-ok :
    {E F A : Type 0} (f : E → F) (m : Result (Fault E) A) {a : A} → map_fault f m ≡ ok a → m ≡ ok a
unfolding map_fault
map_fault-ok f (ok x) h = cc
map_fault-ok f (err (fails e)) h = cc
map_fault-ok f (err overflows) h = cc
map_fault-ok f (err unfinished) h = cc

principals-IsFilled :
    (i : ℕ) (ps : List Bytes) {u : Unit {0}} → check_principals i ps ≡ ok u → All IsFilled ps
unfolding check_principals
principals-IsFilled i [] h = tt
principals-IsFilled i (p ∷ ps) h =
    let (filled, k) = passes (is_nil (trim p)) _ _ h in (filled, principals-IsFilled (suc i) ps k)

attributes-apart :
    (permissions m : Map) {u : Unit {0}}
    → check_attributes permissions m ≡ ok u
    → All (λ e. contains_key e.0 permissions ≡ false) m
unfolding check_attributes
attributes-apart permissions [] h = tt
attributes-apart permissions ((k, v) ∷ rest) h =
    let (apart, more) = passes (contains_key k permissions) _ _ h in
    (apart, attributes-apart permissions rest more)

key-IsSized : (kind : KeyKind) {u : Unit {0}} → validate_public_key kind ≡ ok u → IsSized kind
unfolding validate_public_key IsSized refuse_if
key-IsSized (rsa bits) h = (ground (arith, h), ground (arith, h))
key-IsSized ed25519 h = tt
key-IsSized ecdsa_p256 h = tt
key-IsSized ecdsa_p384 h = tt
key-IsSized ecdsa_p521 h = tt

duration-bounded :
    (d : ℤ) {u : Unit {0}}
    → check_duration d ≡ ok u
    → (n : ℕ) × (d ≡ pos n) × (0 < n) × (n ≤ max_validity_ns)
unfolding check_duration refuse_if
duration-bounded (pos n) h = (n, refl, ground (arith, h), ground (arith, h))
duration-bounded (negsuc n) h = absurd (ground (arith, h))

-- What the checks of the request's own fields leave.
pub record IsFilledIn ⦃fl : Float64⦄ (req : EnclaveSigningRequest) (d : ℤ) : Type 0 where
  pub ssh_key : IsFilled req.ssh_key
  pub key_id : IsFilled req.key_id
  pub duration : parse_duration req.validity ≡ ok d
  pub some_principal : 0 < length req.principals
  pub few_principals : length req.principals ≤ max_principals
  pub principals : All IsFilled req.principals
  pub apart : All (λ e. contains_key e.0 req.permissions ≡ false) req.custom_attributes

module _ ⦃fl : Float64⦄ where
  request-IsFilledIn :
      (req : EnclaveSigningRequest) {d : ℤ} → validate_request req ≡ ok d → IsFilledIn req d
  unfolding validate_request
  request-IsFilledIn req h =
      let (a, k1) = passes (is_nil (trim req.ssh_key)) _ _ h in
      let (b, k2) = passes (is_nil (trim req.key_id)) _ _ k1 in
      let (_, k3) = passes (is_nil (trim req.validity)) _ _ k2 in
      let (d, e, k4) =
        and_then-ok
          (map_fault (λ e. codes "invalid request: invalid validity duration format: " ++ e)
            (parse_duration req.validity))
          _ k3 in
      let (few, k5) = passes (length req.principals == 0) _ _ k4 in
      let (many, k6) = passes (ltb max_principals (length req.principals)) _ _ k5 in
      let (u, p, k7) = and_then-ok (check_principals 0 req.principals) _ k6 in
      let (w, q, k8) = and_then-ok (check_attributes req.permissions req.custom_attributes) _ k7 in
      let some_principal : 0 < length req.principals = ground (arith, few) in
      let few_principals : length req.principals ≤ max_principals = ground (arith, many) in
      record {
        ssh_key = a;
        key_id = b;
        duration = map_fault-ok _ _ e ∙ k8;
        some_principal = some_principal;
        few_principals = few_principals;
        principals = principals-IsFilled 0 req.principals p;
        apart = attributes-apart req.permissions req.custom_attributes q;
      }

-- A granted request, and what the certificate takes from it.
pub record IsPermitted ⦃fl : Float64⦄ ⦃t : Target⦄ ⦃kc : KeyCrates⦄ (req : EnclaveSigningRequest)
    (v : Validated) : Type 0 where
  pub filled : IsFilledIn req v.duration_ns
  pub key : parse_authorized_key req.ssh_key ≡ ok v.key
  pub size : IsSized v.key.kind
  pub duration : (n : ℕ) × (v.duration_ns ≡ pos n) × (0 < n) × (n ≤ max_validity_ns)
  pub merged : v.extensions ≡ insert_all req.custom_attributes (insert_all req.permissions [])
  pub options : v.critical_options ≡ req.critical_options

module _ ⦃fl : Float64⦄ ⦃t : Target⦄ ⦃kc : KeyCrates⦄ where
  -- A request that is granted has a key, a name and one to a hundred principals that are not blank, no
  -- attribute that is a permission too, a validity that parses to more than nothing and at most a day,
  -- and a public key that parses, with an RSA modulus of 2048 to 8192 bits.
  pub validate-IsPermitted :
      (req : EnclaveSigningRequest) {v : Validated} → validate req ≡ ok v → IsPermitted req v
  unfolding validate
  validate-IsPermitted req {v} h =
      let (d, e1, k1) = and_then-ok (validate_request req) _ h in
      let (key, e2, k2) =
        and_then-ok (map_fault map_key_error (parse_authorized_key req.ssh_key)) _ k1 in
      let (_, e3, k3) = and_then-ok (validate_public_key key.kind) _ k2 in
      let (_, e4, k4) = and_then-ok (check_duration d) _ k3 in
      rw (← (ok_inj k4)) (record {
        filled = request-IsFilledIn req e1;
        key = map_fault-ok _ _ e2;
        size = key-IsSized key.kind e3;
        duration = duration-bounded d e4;
        merged = refl;
        options = refl;
      })

  -- The extensions of a certificate are in the order that OpenSSH asks for, and hold each custom
  -- attribute and each permission, and nothing else.
  pub validate-extensions :
      (req : EnclaveSigningRequest) (k : Bytes) {v : Validated}
      → IsSorted req.permissions
      → IsSorted req.custom_attributes
      → validate req ≡ ok v
      → IsSorted v.extensions
        × (lookup k v.extensions ≡ (
            if contains_key k req.custom_attributes
            then lookup k req.custom_attributes
            else lookup k req.permissions))
  unfolding IsSorted
  validate-extensions req k sp sc h =
      let merged = (validate-IsPermitted req h).merged in
      rw merged (
        insert_all-IsSorted _ _ (insert_all-IsSorted _ _ tt),
        rw (← (lookup_copied k req.permissions sp))
            (lookup-insert_all k req.custom_attributes _ sc),
      )
