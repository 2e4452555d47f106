-- ===== src/Sshwire/Tokens.antt =====
-- hsm-core/src/sshwire.rs: the tokens of a line of which a type and a text are taken.
use picosignet.Prelude.{
  ℕ, zero, suc, ◌≡◌, refl, ap, ◌∙◌, arith, Bool, true, false, Option, none, some, List, [], ◌∷◌,
  ◌⊎◌, inl, inr, Bool-cases, Option-cases, Result, ok, err, Fault, fails, map_err, and_then-ok,
  if-then-err, ltb, if◌then◌else◌,
}
use picosignet.Prelude.Bytes.{Bytes, beq_bytes, beq_bytes-eq}
use picosignet.Text.{trim, is_nil, split_whitespace, lines}
use picosignet.Sshwire.Reader.{KeyError}
use picosignet.Sshwire.Key.{Algo, ssh_ed25519, ssh_rsa, nistp256, nistp384, nistp521}
use picosignet.Sshwire.Line.{
  algo_name, algo_for, is_known_unsupported, find_type, text_after, nonempty_lines, type_and_text,
}

test-inv :
    (b : Bool) (x : Algo) (o : Option Algo) {a : Algo}
    → (if b then some x else o) ≡ some a
    → ((b ≡ true) × (x ≡ a)) ⊎ (o ≡ some a)
test-inv true x o h = inl (refl, ground (arith, h))
test-inv false x o h = inr h

-- One test of a token against the name of a type.
named_or :
    (tok : Bytes) (x : Algo) (o : Option Algo) {a : Algo}
    → (o ≡ some a → tok ≡ algo_name a)
    → (if beq_bytes tok (algo_name x) then some x else o) ≡ some a
    → tok ≡ algo_name a
named_or tok x o others h = elim (test-inv (beq_bytes tok (algo_name x)) x o h) [
  | inl (e, same) ↦ beq_bytes-eq tok (algo_name x) e ∙ ap algo_name same
  | inr e ↦ others e
]

algo_for-name : (tok : Bytes) {a : Algo} → algo_for tok ≡ some a → tok ≡ algo_name a
unfolding algo_for
algo_for-name tok h =
    named_or tok ssh_ed25519 _
      (named_or tok ssh_rsa _
        (named_or tok nistp256 _ (named_or tok nistp384 _ (named_or tok nistp521 none (λ e. cc)))))
      h

-- A type that is found behind the first token is not the first.
find_type-later :
    (i : ℕ) (toks : List Bytes) {a : Algo} {more : List Bytes}
    → find_type (suc i) toks ≡ ok (zero, a, more)
    → ⊥
unfolding find_type
find_type-later i [] h = cc
find_type-later i (tok ∷ others) {a} {more} h = elim (Option-cases (algo_for tok)) [
  | inr (x, e) ↦ absurd (ground (arith, e, h))
  | inl e ↦ elim (Bool-cases (is_known_unsupported tok)) [
    | inl u ↦ absurd (ground (arith, e, u, h))
    | inr u ↦ find_type-later (suc i) others {a = a} {more = more} (ground (arith, e, u, h))
  ]
]

find_type-first :
    (toks : List Bytes) {a : Algo} {more : List Bytes}
    → find_type zero toks ≡ ok (zero, a, more)
    → toks ≡ algo_name a ∷ more
unfolding find_type
find_type-first [] h = cc
find_type-first (tok ∷ others) {a} {more} h = elim (Option-cases (algo_for tok)) [
  | inr (x, e) ↦
      let same : x ≡ a = ground (arith, e, h) in
      let left : others ≡ more = ground (arith, e, h) in
      ap (λ n. n ∷ others) (algo_for-name tok e ∙ ap algo_name same)
      ∙ ap (λ l. algo_name a ∷ l) left
  | inl e ↦ elim (Bool-cases (is_known_unsupported tok)) [
    | inl u ↦ absurd (ground (arith, e, u, h))
    | inr u ↦ absurd (find_type-later zero others {a = a} {more = more} (ground (arith, e, u, h)))
  ]
]

text_after-inv :
    (x : ℕ × Algo × List Bytes) {a : Algo} {text : Bytes}
    → text_after x ≡ ok (a, text)
    → (more : List Bytes) × (x ≡ (zero, a, text ∷ more))
unfolding text_after
text_after-inv (suc i, b, others) h = cc
text_after-inv (zero, b, []) h = cc
text_after-inv (zero, b, t ∷ others) {a} {text} h =
    let same : b ≡ a = ground (arith, h) in let given : t ≡ text = ground (arith, h) in (others, cc)

-- The tokens of a line that gives a type and a text.
pub type_and_text-inv :
    (input : Bytes) {a : Algo} {text : Bytes}
    → type_and_text input ≡ ok (a, text)
    → (more : List Bytes) × (split_whitespace (trim input) ≡ algo_name a ∷ (text ∷ more))
unfolding type_and_text
type_and_text-inv input h =
    let (_, k1) = if-then-err (ltb 1 (nonempty_lines (lines input))) _ _ h in
    let (_, k2) = if-then-err (is_nil (trim input)) _ _ k1 in
    let (x, found, k3) = and_then-ok (find_type 0 (split_whitespace (trim input))) _ k2 in
    let (more, same) = text_after-inv x k3 in
    (more, find_type-first (split_whitespace (trim input)) (found ∙ ap ok same))

pub map_err-inv :
    {A : Type 0} (r : Result KeyError A) {a : A}
    → ◌≡◌ {A = Result (Fault KeyError) A} (map_err fails r) (ok a)
    → r ≡ ok a
map_err-inv (ok x) h = cc
map_err-inv (err e) h = cc
