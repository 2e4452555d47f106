-- ===== src/Sshwire/NoPanic.antt =====
-- hsm-core/src/sshwire.rs: on a word that is wide enough no addition of `usize` overflows.
use picosignet.Prelude.{
  Fault, fails, overflows, ℕ, ◌+◌, [], ◌∷◌, ◌≡◌, ◌≢◌, ◌≤◌, ◌<◌, refl, ap, arith, inl, inr, ◌⊎◌,
  Bool, true, false, Option, none, some, String, Result, ok, err, pure, resume, ◌>>=◌, and_then,
  map_err, ok_or, ok_or-ok, leb, Bool-cases, length, drop, All, All-drop,
}
use picosignet.Prelude.Bytes.{Bytes, IsByte, beq_bytes, of_be32}
use picosignet.Sshwire.Reader.{
  Target, KeyError, parse, Reader, Read, new, has, advance, read_string, is_empty,
}
use picosignet.Sshwire.Key.{
  KeyCrates, KeyKind, need, demand, require_uncompressed_sec1, exhausted, Algo, ssh_ed25519,
  ssh_rsa, nistp256, nistp384, nistp521, ed25519_kind, rsa_kind, ecdsa_kind, kind_of,
  parse_key_kind,
}
use picosignet.Sshwire.Line.{algo_name, parse_body, parse_blob, parse_authorized_key, type_and_text}

and_then_no_panic :
    {E A B : Type 0} (r : Result (Fault E) A) (f : A → Result (Fault E) B)
    → r ≢ err overflows
    → ((a : A) → r ≡ ok a → f a ≢ err overflows)
    → and_then r f ≢ err overflows
and_then_no_panic (ok a) f c k = k a refl
and_then_no_panic (err e) f c k = λ h. c (let same : e ≡ overflows = cc in ap err same)

map_fails_no_panic :
    {E A : Type 0} (r : Result E A) → ◌≢◌ {A = Result (Fault E) A} (map_err fails r) (err overflows)
map_fails_no_panic (ok a) h = cc
map_fails_no_panic (err e) h = cc

ok_or_no_panic :
    {E A : Type 0} (o : Option A) (e : E)
    → ◌≢◌ {A = Result (Fault E) A} (ok_or o (fails e)) (err overflows)
ok_or_no_panic (some a) e h = cc
ok_or_no_panic none e h = cc

module _ ⦃t : Target⦄ where
  -- A buffer of bytes behind which the word has room for one more length of 32 bits.
  abbrev pub HasRoom : Bytes → Type 0
  HasRoom b = All IsByte b × (length b + 4294967296 ≤ t.usize_max)

  abbrev Ready : Reader → Type 0
  Ready r = HasRoom r.buf × (r.pos ≤ length r.buf)

  -- A step that does not panic, and leaves the cursor in its buffer.
  record Calm {A : Type 0} (m : Read A) : Type 0 where
    calm : (r : Reader) → Ready r → ((m r).0 ≢ err overflows) × Ready (m r).1

  resume-Calm :
      {A B : Type 0} (x : Result (Fault KeyError) A) (f : A → Read B) (r : Reader)
      → (x ≢ err overflows) × Ready r
      → ((a : A) → Calm (f a))
      → ((resume x f r).0 ≢ err overflows) × Ready (resume x f r).1
  resume-Calm (ok a) f r (c, s) k = (k a).calm r s
  resume-Calm (err e) f r (c, s) k = (λ h. c (let same : e ≡ overflows = cc in ap err same), s)

  then_Calm :
      {A B : Type 0} {m : Read A} {f : A → Read B}
      → Calm m
      → ((a : A) → Calm (f a))
      → Calm (m >>= f)
  then_Calm {m = m} {f = f} km kf = record {
    calm = λ r s. resume-Calm (m r).0 f (m r).1 (km.calm r s) kf;
  }

  of_be32-small : (b : Bytes) → All IsByte b → of_be32 b < 4294967296
  unfolding of_be32
  of_be32-small [] h = omega arith
  of_be32-small (x ∷ []) h = omega arith
  of_be32-small (x ∷ y ∷ []) h = omega arith
  of_be32-small (x ∷ y ∷ z ∷ []) h = omega arith
  of_be32-small (x ∷ y ∷ z ∷ w ∷ rest) h = omega arith

  has-within :
      (n : ℕ) (r : Reader)
      → r.pos + n ≤ t.usize_max
      → ((has n r ≡ (ok tt, r)) × (r.pos + n ≤ length r.buf)) ⊎ (has n r ≡ (err (fails parse), r))
  unfolding has
  has-within n r h = elim (Bool-cases (leb (r.pos + n) (length r.buf))) [
    | inl fits ↦ inl (ground arith, ground arith)
    | inr past ↦ inr (ground arith)
  ]

  read_string-Calm : Calm read_string
  unfolding read_string advance
  read_string-Calm = record {
    calm = λ r s.
        let ((bytes, room), inside) = s in
        let small = of_be32-small (drop r.pos r.buf) (All-drop IsByte r.pos r.buf bytes) in
        let n = of_be32 (drop r.pos r.buf) in
        let r1 : Reader = record r { pos = r.pos + 4 } in
        elim (has-within 4 r (omega arith)) [
          | inr short ↦ rw short ((λ h. cc), s)
          | inl (first, b) ↦ elim (has-within n r1 (omega arith)) [
            | inr short ↦ rw (first, short) ((λ h. cc), ((bytes, room), b))
            | inl (second, c) ↦ rw (first, second) ((λ h. cc), ((bytes, room), c))
          ]
        ];
  }

  pure-Calm : {A : Type 0} (a : A) → Calm (pure a)
  pure-Calm a = record { calm = λ r s. ((λ h. cc), s) }

  need-Calm : {A : Type 0} (o : Option A) (why : String) → Calm (need o why)
  unfolding need
  need-Calm (some a) why = pure-Calm a
  need-Calm none why = record { calm = λ r s. ((λ h. cc), s) }

  demand-Calm : (b : Bool) (why : String) → Calm (demand b why)
  unfolding demand
  demand-Calm true why = pure-Calm tt
  demand-Calm false why = record { calm = λ r s. ((λ h. cc), s) }

  exhausted-Calm : Calm exhausted
  unfolding exhausted
  exhausted-Calm = record {
    calm = λ r s. elim (Bool-cases (is_empty r)) [
      | inl e ↦ rw e ((λ h. cc), s)
      | inr e ↦ rw e ((λ h. cc), s)
    ];
  }

  ed25519_kind-Calm : Calm ed25519_kind
  unfolding ed25519_kind
  ed25519_kind-Calm = then_Calm read_string-Calm λ pk. then_Calm (demand-Calm _ _) λ u. pure-Calm _

  rsa_kind-Calm : Calm rsa_kind
  unfolding rsa_kind
  rsa_kind-Calm = then_Calm read_string-Calm λ e_bytes. then_Calm (need-Calm _ _) λ e.
      then_Calm (demand-Calm _ _)
        λ u. then_Calm read_string-Calm λ n_bytes. then_Calm (need-Calm _ _) λ bits. pure-Calm _

  ecdsa_kind-Calm :
      (name : String) (len : ℕ) (point : Bytes → Bool) (kind : KeyKind)
      → Calm (ecdsa_kind name len point kind)
  unfolding ecdsa_kind require_uncompressed_sec1
  ecdsa_kind-Calm name len point kind = then_Calm read_string-Calm λ curve.
      then_Calm read_string-Calm λ q.
        then_Calm (demand-Calm _ _)
          λ u. then_Calm (demand-Calm _ _) λ v. then_Calm (demand-Calm _ _) λ w. pure-Calm _

module _ ⦃t : Target⦄ ⦃kc : KeyCrates⦄ where
  kind_of-Calm : (algo : Algo) → Calm (kind_of algo)
  unfolding kind_of
  kind_of-Calm ssh_ed25519 = ed25519_kind-Calm
  kind_of-Calm ssh_rsa = rsa_kind-Calm
  kind_of-Calm nistp256 = ecdsa_kind-Calm _ _ _ _
  kind_of-Calm nistp384 = ecdsa_kind-Calm _ _ _ _
  kind_of-Calm nistp521 = ecdsa_kind-Calm _ _ _ _

  parse_key_kind-Calm : (algo : Algo) → Calm (parse_key_kind algo)
  unfolding parse_key_kind
  parse_key_kind-Calm algo =
      then_Calm (kind_of-Calm algo) λ kind. then_Calm exhausted-Calm λ u. pure-Calm kind

  parse_body_no_panic :
      (algo : Algo) (blob inner_algo : Bytes) (r : Reader)
      → Ready r
      → parse_body algo blob inner_algo r ≢ err overflows
  unfolding parse_body
  parse_body_no_panic algo blob inner_algo r s =
      elim (Bool-cases (beq_bytes inner_algo (algo_name algo))) [
        | inl named ↦ rw named (
            and_then_no_panic (parse_key_kind algo r).0 _ ((parse_key_kind-Calm algo).calm r s).0
              (λ kind e h. cc))
        | inr other ↦ rw other (λ h. cc)
      ]

  parse_blob_no_panic :
      (algo : Algo) (blob : Bytes) → HasRoom blob → parse_blob algo blob ≢ err overflows
  unfolding parse_blob new
  parse_blob_no_panic algo blob room =
      let (c, s) = read_string-Calm.calm (new blob) (room, omega arith) in
      and_then_no_panic (read_string (new blob)).0 _ c
        (λ inner e. parse_body_no_panic algo blob inner _ s)

  -- Where the decoder gives bytes that leave room in the platform's word for one more length of
  -- 32 bits, no addition of `usize` overflows when a public key is read, whatever the text.
  pub parse_authorized_key_no_panic :
      (input : Bytes)
      → ((text blob : Bytes) → kc.base64_decode text ≡ some blob → HasRoom blob)
      → parse_authorized_key input ≢ err overflows
  unfolding parse_authorized_key
  parse_authorized_key_no_panic input decoded =
      and_then_no_panic (map_err fails (type_and_text input)) _
        (map_fails_no_panic (type_and_text input))
        λ (algo, text) e.
          and_then_no_panic (ok_or (kc.base64_decode text) (fails parse)) _
            (ok_or_no_panic (kc.base64_decode text) parse)
            λ blob k. parse_blob_no_panic algo blob (decoded text blob (ok_or-ok _ _ k))
