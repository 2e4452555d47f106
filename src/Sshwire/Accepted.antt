-- ===== src/Sshwire/Accepted.antt =====
-- hsm-core/src/sshwire.rs, `parse_authorized_key`: what an accepted public key is.
use picosignet.Prelude.{
  fails, drop-append, if-else-err, ok_or, ok_or-ok, map_err, and_then-ok, ◌+◌, ◌≡◌, refl, sym, ap,
  ◌∙◌, arith, some, ◌∷◌, ◌++◌, List, ok, length, drop, All,
}
use picosignet.Prelude.Bytes.{Bytes, IsByte, codes, beq_bytes, beq_bytes-eq}
use picosignet.Text.{trim, split_whitespace}
use picosignet.Wrap.{put_string}
use picosignet.Sshwire.Reader.{parse, Target, Reader, new, read_string}
use picosignet.Sshwire.Key.{KeyCrates, KeyKind, Algo, ssh_ed25519, parse_key_kind}
use picosignet.Sshwire.Tokens.{type_and_text-inv, map_err-inv}
use picosignet.Sshwire.Line.{
  ParsedKey, parse_blob, parse_authorized_key, type_and_text, parse_body, parsed, algo_name,
  cert_algo,
}
use picosignet.Sshwire.Cursor.{rest, read_string-inv}
use picosignet.Sshwire.Bodies.{IsBody, kind_name, ok_inj, parse_key_kind-IsBody}

-- The certificate type of a kind of key.
abbrev pub cert_name : KeyKind → Bytes
cert_name k = kind_name k ++ codes "-cert-v01@openssh.com"

-- A key that was read from a line: its name and its text stand first there, and the blob that the text
-- decodes to is that name and the fields of a key of that kind.
pub record IsAccepted ⦃kc : KeyCrates⦄ (input : Bytes) (k : ParsedKey) : Type 0 where
  pub text : Bytes
  pub blob : Bytes
  pub comment : List Bytes
  pub line : split_whitespace (trim input) ≡ kind_name k.kind ∷ (text ∷ comment)
  pub decoded : kc.base64_decode text ≡ some blob
  pub named : blob ≡ put_string (kind_name k.kind) ++ k.key_body
  pub body : IsBody k.kind k.key_body
  pub algo : k.algo ≡ kind_name k.kind
  pub certified : k.cert_algo ≡ cert_name k.kind

cert_algo-name : (a : Algo) → cert_algo a ≡ algo_name a ++ codes "-cert-v01@openssh.com"
unfolding cert_algo algo_name
cert_algo-name ssh_ed25519 = refl
cert_algo-name _ = refl

module _ ⦃t : Target⦄ ⦃kc : KeyCrates⦄ where
  -- What a blob that was read is, for the name that the line gave.
  IsBlob : Algo → Bytes → ParsedKey → Type 0
  IsBlob algo blob k =
      (blob ≡ put_string (algo_name algo) ++ k.key_body)
      × IsBody k.kind k.key_body
      × (kind_name k.kind ≡ algo_name algo)
      × (k.algo ≡ algo_name algo)
      × (k.cert_algo ≡ cert_algo algo)

  parse_body-IsBlob :
      (algo : Algo) (blob s : Bytes) (r : Reader) {k : ParsedKey}
      → All IsByte r.buf
      → blob ≡ put_string s ++ rest r
      → rest r ≡ drop (4 + length s) blob
      → parse_body algo blob s r ≡ ok k
      → IsBlob algo blob k
  unfolding parse_body parsed IsBlob
  parse_body-IsBlob algo blob s r bytes split here h =
      let (named, k1) = if-else-err (beq_bytes s (algo_name algo)) _ _ h in
      let (kind, e, k2) = and_then-ok (parse_key_kind algo r).0 _ k1 in
      let (is_body, is_kind) =
        parse_key_kind-IsBody algo r {r' = (parse_key_kind algo r).1} {k = kind} bytes
          (ap (λ x. (x, (parse_key_kind algo r).1)) e) in
      let whole =
        split ∙ ap (λ n. put_string n ++ rest r) (beq_bytes-eq s (algo_name algo) named) in
      rw (← (ok_inj k2)) (rw (← here) (whole, is_body, is_kind, refl, refl))

  parse_blob-IsBlob :
      (algo : Algo) (blob : Bytes) {k : ParsedKey}
      → All IsByte blob
      → parse_blob algo blob ≡ ok k
      → IsBlob algo blob k
  unfolding parse_blob new put_string
  parse_blob-IsBlob algo blob bytes h =
      let (s, e, k1) = and_then-ok (read_string (new blob)).0 _ h in
      let (split, same, _) =
        read_string-inv (new blob) bytes (ap (λ x. (x, (read_string (new blob)).1)) e) in
      let here = drop-append (4 + length s) (put_string s) _ (omega arith) in
      parse_body-IsBlob algo blob s (read_string (new blob)).1 (rw same bytes) split
        (sym (ap (λ x. drop (4 + length s) x) split ∙ here)) k1

  -- Where the base64 decoder gives bytes, a line that is accepted begins with the name of a kind of key
  -- and a text, the blob that the text decodes to is that name and the fields of a key of that kind, to
  -- the last byte, and the certificate type is that of the kind.
  pub parse_authorized_key-IsAccepted :
      (input : Bytes) {k : ParsedKey}
      → ((text blob : Bytes) → kc.base64_decode text ≡ some blob → All IsByte blob)
      → parse_authorized_key input ≡ ok k
      → IsAccepted input k
  unfolding parse_authorized_key IsBlob
  parse_authorized_key-IsAccepted input decoded h =
      let ((algo, text), first, k1) = and_then-ok (map_err fails (type_and_text input)) _ h in
      let (blob, e, k2) = and_then-ok (ok_or (kc.base64_decode text) (fails parse)) _ k1 in
      let given = ok_or-ok _ _ e in
      let (named, body, kind, is_algo, certified) =
        parse_blob-IsBlob algo blob (decoded text blob given) k2 in
      let (comment, line) = type_and_text-inv input (map_err-inv (type_and_text input) first) in
      let certified = certified ∙ cert_algo-name algo in
      record {
        text = text;
        blob = blob;
        comment = comment;
        line = rw kind line;
        decoded = given;
        named = rw kind named;
        body = body;
        algo = is_algo ∙ sym kind;
        certified = rw kind certified;
      }
