-- ===== src/Sshwire/Bodies.antt =====
-- hsm-core/src/sshwire.rs, `parse_key_kind`: the fields of a key of each kind.
use mathlib.Core.List.{append-nil}
use picosignet.Prelude.{
  Fault, pure, ℕ, ◌%◌, ◌≡◌, ◌≤◌, refl, ap, ◌∙◌, arith, Bool, true, false, not, ◌&&◌, Option, none,
  some, [], ◌∷◌, ◌++◌, String, Result, ok, ◌>>=◌, >>=-ok, length, drop, All, ◌==◌, ==_iff,
  length-drop, get_or,
}
use picosignet.Prelude.Bytes.{Bytes, IsByte, codes, beq_bytes, beq_bytes-eq}
use picosignet.Wrap.{put_string}
use picosignet.Sshwire.Reader.{Target, Reader, Read, KeyError, read_string, is_empty}
use picosignet.Sshwire.Key.{
  KeyCrates, KeyKind, ed25519, ecdsa_p256, ecdsa_p384, ecdsa_p521, rsa, Algo, ssh_ed25519, ssh_rsa,
  nistp256, nistp384, nistp521, need, demand, require_uncompressed_sec1, positive_mpint_u64,
  positive_mpint_bit_len, ed25519_kind, rsa_kind, ecdsa_kind, kind_of, exhausted, parse_key_kind,
}
use picosignet.Sshwire.Line.{algo_name}
use picosignet.Sshwire.Cursor.{rest, read_string-inv}

-- A body of SSH fields: an uncompressed point on a named curve.
unfoldable pub IsPoint : String → ℕ → (Bytes → Bool) → Bytes → Type 0
IsPoint name size point body =
    (q : Bytes) × (body ≡ put_string (codes name) ++ put_string q)
    × (length q ≡ size)
    × (get_or q 0 0 ≡ 4)
    × (point q ≡ true)

module _ ⦃kc : KeyCrates⦄ where
  -- What the type-specific bytes of a key of each kind are, to the last byte.
  unfoldable pub IsBody : KeyKind → Bytes → Type 0
  IsBody ed25519 body = (pk : Bytes) × (body ≡ put_string pk) × (length pk ≡ 32)
  IsBody (rsa bits) body =
      (e n : Bytes) × (v : ℕ) × (body ≡ put_string e ++ put_string n)
      × (positive_mpint_u64 e ≡ some v)
      × (3 ≤ v)
      × (v % 2 ≡ 1)
      × (positive_mpint_bit_len n ≡ some bits)
  IsBody ecdsa_p256 body = IsPoint "nistp256" 65 kc.p256_point body
  IsBody ecdsa_p384 body = IsPoint "nistp384" 97 kc.p384_point body
  IsBody ecdsa_p521 body = IsPoint "nistp521" 133 kc.p521_point body

-- The name of a kind of key, in a line and in a blob.
unfoldable pub kind_name : KeyKind → Bytes
kind_name ed25519 = codes "ssh-ed25519"
kind_name (rsa bits) = codes "ssh-rsa"
kind_name ecdsa_p256 = codes "ecdsa-sha2-nistp256"
kind_name ecdsa_p384 = codes "ecdsa-sha2-nistp384"
kind_name ecdsa_p521 = codes "ecdsa-sha2-nistp521"

pub ok_inj : {E A : Type 0} {a b : A} → ◌≡◌ {A = Result E A} (ok a) (ok b) → a ≡ b
ok_inj h = cc

module _ {B : Type 0} where
  demand-inv :
      (b : Bool) (why : String) (f : Unit {0} → Read B) (r : Reader) {r' : Reader} {x : B}
      → (demand b why >>= f) r ≡ (ok x, r')
      → (b ≡ true) × (f tt r ≡ (ok x, r'))
  unfolding demand
  demand-inv true why f r h = (refl, h)
  demand-inv false why f r h = cc

  need-inv :
      {A : Type 0} (o : Option A) (why : String) (f : A → Read B) (r : Reader) {r' : Reader} {x : B}
      → (need o why >>= f) r ≡ (ok x, r')
      → (a : A) × (o ≡ some a) × (f a r ≡ (ok x, r'))
  unfolding need
  need-inv (some a) why f r h = (a, refl, h)
  need-inv none why f r h = cc

  string-inv :
      ⦃t : Target⦄ (f : Bytes → Read B) (r : Reader) {r' : Reader} {x : B}
      → All IsByte r.buf
      → (read_string >>= f) r ≡ (ok x, r')
      → (s : Bytes) × (r1 : Reader) × (rest r ≡ put_string s ++ rest r1)
        × All IsByte r1.buf
        × (f s r1 ≡ (ok x, r'))
  string-inv f r bytes h =
      let (s, r1, e, k) = >>=-ok read_string f r h in
      let (split, same, _) = read_string-inv r bytes e in (s, r1, split, rw same bytes, k)

-- A reader at its end has nothing left.
drop_end : (n : ℕ) (xs : Bytes) → length xs ≤ n → drop n xs ≡ []
drop_end n xs h = nothing (drop n xs) (omega (arith, length-drop n xs))
  where
    nothing : (ys : Bytes) → length ys ≡ 0 → ys ≡ []
    nothing [] e = refl
    nothing (y ∷ ys) e = absurd (omega arith)

exhausted-inv :
    {B : Type 0} (f : Unit {0} → Read B) (r : Reader) {r' : Reader} {x : B}
    → (exhausted >>= f) r ≡ (ok x, r')
    → (rest r ≡ []) × (f tt r ≡ (ok x, r'))
unfolding exhausted is_empty
exhausted-inv f r h = (ground (arith, drop_end r.pos r.buf), ground arith)

returned :
    {B : Type 0} {b x : B} {r r' : Reader}
    → ◌≡◌ {A = Result (Fault KeyError) B × Reader} (pure b r) (ok x, r')
    → (b ≡ x) × (r ≡ r')
returned h = (ground (arith, h), ground (arith, h))

last_field : {xs ys zs : Bytes} → xs ≡ ys ++ zs → zs ≡ [] → xs ≡ ys
last_field {xs} {ys} {zs} e n = e ∙ (ap (λ t. ys ++ t) n ∙ append-nil ys)

module _ ⦃t : Target⦄ ⦃kc : KeyCrates⦄ where
  ed25519-inv :
      (r : Reader) {r' : Reader} {k : KeyKind}
      → All IsByte r.buf
      → ed25519_kind r ≡ (ok k, r')
      → rest r' ≡ []
      → IsBody k (rest r) × (kind_name k ≡ codes "ssh-ed25519")
  unfolding ed25519_kind IsBody kind_name
  ed25519-inv r bytes h none_left =
      let (pk, r1, split, _, k1) = string-inv _ r bytes h in
      let (size, k2) = demand-inv _ _ _ r1 k1 in
      let (same, stop) = returned k2 in
      rw (← same) ((pk, last_field split (rw stop none_left), (==_iff (length pk) 32).0 size), refl)

  rsa-inv :
      (r : Reader) {r' : Reader} {k : KeyKind}
      → All IsByte r.buf
      → rsa_kind r ≡ (ok k, r')
      → rest r' ≡ []
      → IsBody k (rest r) × (kind_name k ≡ codes "ssh-rsa")
  unfolding rsa_kind IsBody kind_name
  rsa-inv r bytes h none_left =
      let (e, r1, split1, bytes1, k1) = string-inv _ r bytes h in
      let (v, ev, k2) = need-inv (positive_mpint_u64 e) _ _ r1 k1 in
      let (odd, k3) = demand-inv _ _ _ r1 k2 in
      let (n, r2, split2, _, k4) = string-inv _ r1 bytes1 k3 in
      let (bits, eb, k5) = need-inv (positive_mpint_bit_len n) _ _ r2 k4 in
      let (same, stop) = returned k5 in
      let low : 3 ≤ v = ground (arith, odd) in
      let parity : v % 2 ≡ 1 = ground (arith, odd) in
      let fields = split1 ∙ ap (λ t. put_string e ++ t) (last_field split2 (rw stop none_left)) in
      rw (← same) ((e, n, v, fields, ev, low, parity, eb), refl)

  ecdsa-inv :
      (name : String) (size : ℕ) (point : Bytes → Bool) (kind : KeyKind) (r : Reader) {r' : Reader}
      {k : KeyKind}
      → All IsByte r.buf
      → ecdsa_kind name size point kind r ≡ (ok k, r')
      → rest r' ≡ []
      → (kind ≡ k) × IsPoint name size point (rest r)
  unfolding ecdsa_kind IsPoint require_uncompressed_sec1
  ecdsa-inv name size point kind r bytes h none_left =
      let (curve, r1, split1, bytes1, k1) = string-inv _ r bytes h in
      let (q, r2, split2, _, k2) = string-inv _ r1 bytes1 k1 in
      let (named, k3) = demand-inv (beq_bytes curve (codes name)) _ _ r2 k2 in
      let (form, k4) =
        demand-inv (length q == size && not (length q == 0) && get_or q 0 0 == 4) _ _ r2 k3 in
      let (valid, k5) = demand-inv (point q) _ _ r2 k4 in
      let (same, stop) = returned k5 in
      let size_is : length q ≡ size = ground (arith, form) in
      let tagged : get_or q 0 0 ≡ 4 = ground (arith, form) in
      let is_named = ap put_string (beq_bytes-eq curve (codes name) named) in
      let fields =
        split1
        ∙ (ap (λ t. put_string curve ++ t) (last_field split2 (rw stop none_left))
            ∙ ap (λ t. t ++ put_string q) is_named) in
      (same, (q, fields, size_is, tagged, valid))

  kind-inv :
      (algo : Algo) (r : Reader) {r' : Reader} {k : KeyKind}
      → All IsByte r.buf
      → kind_of algo r ≡ (ok k, r')
      → rest r' ≡ []
      → IsBody k (rest r) × (kind_name k ≡ algo_name algo)
  unfolding kind_of IsBody kind_name algo_name
  kind-inv ssh_ed25519 r bytes h n = ed25519-inv r bytes h n
  kind-inv ssh_rsa r bytes h n = rsa-inv r bytes h n
  kind-inv nistp256 r bytes h n = let (e, p) = ecdsa-inv _ _ _ _ r bytes h n in rw (← e) (p, refl)
  kind-inv nistp384 r bytes h n = let (e, p) = ecdsa-inv _ _ _ _ r bytes h n in rw (← e) (p, refl)
  kind-inv nistp521 r bytes h n = let (e, p) = ecdsa-inv _ _ _ _ r bytes h n in rw (← e) (p, refl)

  pub parse_key_kind-IsBody :
      (algo : Algo) (r : Reader) {r' : Reader} {k : KeyKind}
      → All IsByte r.buf
      → parse_key_kind algo r ≡ (ok k, r')
      → IsBody k (rest r) × (kind_name k ≡ algo_name algo)
  unfolding parse_key_kind
  parse_key_kind-IsBody algo r bytes h =
      let (kind, r1, e, k1) = >>=-ok (kind_of algo) _ r h in
      let (left, k2) = exhausted-inv _ r1 k1 in
      let (same, _) = returned k2 in rw (← same) (kind-inv algo r bytes e left)
