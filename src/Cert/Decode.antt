-- ===== src/Cert/Decode.antt =====
-- A reader of certificates after PROTOCOL.certkeys, independent of hsm-core/src/cert.rs: the fields
-- in their order, each taken off the front.
use picosignet.Prelude.{
  ap, ◌∙◌, ℕ, zero, suc, ◌≡◌, ◌<◌, refl, arith, Option, none, some, List, [], ◌∷◌, ◌++◌, ltb,
  if◌then◌else◌, length, take, drop, length-append, take-append, drop-append,
}
use picosignet.Prelude.Bytes.{Bytes, be32, be64, of_be32, of_be64, of_be32-be32}
use picosignet.Wrap.{put_string}
use picosignet.Maps.{Map}

abbrev pub Decode : Type 0 → Type 0
Decode A = Bytes → Option (A × Bytes)

module _ {A B : Type 0} where
  infixl 10 ◌>>=◌
  abbrev pub ◌>>=◌ : Decode A → (A → Decode B) → Decode B
  ◌>>=◌ m f b = elim (m b) [ none ↦ none | some (a, rest) ↦ f a rest ]

abbrev pub pure : {A : Type 0} → A → Decode A
pure a b = some (a, b)

unfoldable pub get_bytes : ℕ → Decode Bytes
get_bytes n b = if ltb (length b) n then none else some (take n b, drop n b)

unfoldable pub get_u32 : Decode ℕ
get_u32 = do s ← get_bytes 4; pure (of_be32 s)

unfoldable pub get_u64 : Decode ℕ
get_u64 = do s ← get_bytes 8; pure (of_be64 s)

unfoldable pub get_string : Decode Bytes
get_string = do n ← get_u32; get_bytes n

-- As many strings as there are, given a bound on their number.
unfoldable pub get_strings : ℕ → Bytes → Option (List Bytes)
get_strings fuel [] = some []
get_strings zero (c ∷ cs) = none
get_strings (suc fuel) (c ∷ cs) = elim (get_string (c ∷ cs)) [
  | none ↦ none
  | some (s, rest) ↦ elim (get_strings fuel rest) [ none ↦ none | some ss ↦ some (s ∷ ss) ]
]

unfoldable pub get_pair : Decode (Bytes × Bytes)
get_pair = do k ← get_string; field ← get_string; pure (k, field)

-- An option's value: a flag has none.
unfoldable pub get_value : Bytes → Option Bytes
get_value [] = some []
get_value (c ∷ cs) = elim (get_string (c ∷ cs)) [ some (v, []) ↦ some v | _ ↦ none ]

unfoldable pub get_tuples : ℕ → Bytes → Option Map
get_tuples fuel [] = some []
get_tuples zero (c ∷ cs) = none
get_tuples (suc fuel) (c ∷ cs) = elim (get_pair (c ∷ cs)) [
  | none ↦ none
  | some ((k, field), rest) ↦ elim (get_value field) [
    | none ↦ none
    | some v ↦ elim (get_tuples fuel rest) [ none ↦ none | some ps ↦ some ((k, v) ∷ ps) ]
  ]
]

-- The strings of a key's body, put back together: `n` of them.
unfoldable pub get_body : ℕ → Decode Bytes
get_body zero = pure []
get_body (suc n) = do s ← get_string; more ← get_body n; pure (put_string s ++ more)

pub record Fields : Type 0 where
  pub cert_algo : Bytes
  pub nonce : Bytes
  pub body : Bytes
  pub serial : ℕ
  pub cert_type : ℕ
  pub key_id : Bytes
  pub principals : Bytes
  pub valid_after : ℕ
  pub valid_before : ℕ
  pub critical_options : Bytes
  pub extensions : Bytes
  pub reserved : Bytes
  pub ca_key : Bytes

-- The fields that are signed, of a key whose body has `n` strings.
unfoldable pub get_fields : ℕ → Decode Fields
get_fields n = do
  cert_algo ← get_string
  nonce ← get_string
  body ← get_body n
  serial ← get_u64
  cert_type ← get_u32
  key_id ← get_string
  principals ← get_string
  valid_after ← get_u64
  valid_before ← get_u64
  critical_options ← get_string
  extensions ← get_string
  reserved ← get_string
  ca_key ← get_string
  pure (record {
    cert_algo = cert_algo;
    nonce = nonce;
    body = body;
    serial = serial;
    cert_type = cert_type;
    key_id = key_id;
    principals = principals;
    valid_after = valid_after;
    valid_before = valid_before;
    critical_options = critical_options;
    extensions = extensions;
    reserved = reserved;
    ca_key = ca_key;
  })

-- A step that gives `a` and leaves `rest` goes on with those.
pub taken :
    {A B : Type 0} (m : Decode A) (f : A → Decode B) (b : Bytes) {a : A} {rest : Bytes}
    → m b ≡ some (a, rest)
    → (m >>= f) b ≡ f a rest
taken m f b {a} {rest} e = ap (λ x. elim x [ none ↦ none | some (a, rest) ↦ f a rest ]) e

pub get_bytes-append :
    (n : ℕ) (s tail : Bytes) → length s ≡ n → get_bytes n (s ++ tail) ≡ some (s, tail)
unfolding get_bytes
get_bytes-append n s tail h =
    rw (take-append n s tail h, drop-append n s tail h) (ground (arith, length-append s tail))

pub get_u32-be32 :
    (v : ℕ) (tail : Bytes) → v < 4294967296 → get_u32 (be32 v ++ tail) ≡ some (v, tail)
unfolding get_u32
get_u32-be32 v tail h =
    taken (get_bytes 4) _ _ (get_bytes-append 4 (be32 v) tail refl)
    ∙ ap (λ n. some (n, tail)) (of_be32-be32 v [] h)

of_be64-be64 : (v : ℕ) → v < 18446744073709551616 → of_be64 (be64 v) ≡ v
unfolding of_be64 of_be32
of_be64-be64 v h = omega arith

pub get_u64-be64 :
    (v : ℕ) (tail : Bytes) → v < 18446744073709551616 → get_u64 (be64 v ++ tail) ≡ some (v, tail)
unfolding get_u64
get_u64-be64 v tail h =
    taken (get_bytes 8) _ _ (get_bytes-append 8 (be64 v) tail refl)
    ∙ ap (λ n. some (n, tail)) (of_be64-be64 v h)

pub get_string-put_string :
    (s tail : Bytes) → length s < 4294967296 → get_string (put_string s ++ tail) ≡ some (s, tail)
unfolding get_string put_string
get_string-put_string s tail h =
    taken get_u32 _ _ (get_u32-be32 (length s) (s ++ tail) h)
    ∙ get_bytes-append (length s) s tail refl
