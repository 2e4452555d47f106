-- ===== src/Sshwire/Line.antt =====
-- hsm-core/src/sshwire.rs: `parse_authorized_key`, from the line to the parsed key.
use picosignet.Prelude.{
  Fault, fails, and_then, map_err, ok_or, ℕ, zero, suc, ◌+◌, Bool, true, false, ◌||◌, Option, none,
  some, List, [], ◌∷◌, ◌++◌, Result, ok, err, ltb, if◌then◌else◌, length, drop,
}
use picosignet.Prelude.Bytes.{Bytes, codes, beq_bytes}
use picosignet.Text.{trim, lines, split_whitespace, is_nil}
use picosignet.Sshwire.Reader.{
  Target, KeyError, parse, options, trailing, rejected, Reader, new, read_string,
}
use picosignet.Sshwire.Key.{
  KeyCrates, KeyKind, Algo, ssh_ed25519, ssh_rsa, nistp256, nistp384, nistp521, parse_key_kind,
}

pub record ParsedKey : Type 0 where
  pub algo : Bytes
  pub cert_algo : Bytes
  pub key_body : Bytes
  pub kind : KeyKind

-- The names that the arms of `cert_algo_for` match, and what they return.
unfoldable pub algo_name : Algo → Bytes
algo_name ssh_ed25519 = codes "ssh-ed25519"
algo_name ssh_rsa = codes "ssh-rsa"
algo_name nistp256 = codes "ecdsa-sha2-nistp256"
algo_name nistp384 = codes "ecdsa-sha2-nistp384"
algo_name nistp521 = codes "ecdsa-sha2-nistp521"

unfoldable pub cert_algo : Algo → Bytes
cert_algo ssh_ed25519 = codes "ssh-ed25519-cert-v01@openssh.com"
cert_algo ssh_rsa = codes "ssh-rsa-cert-v01@openssh.com"
cert_algo nistp256 = codes "ecdsa-sha2-nistp256-cert-v01@openssh.com"
cert_algo nistp384 = codes "ecdsa-sha2-nistp384-cert-v01@openssh.com"
cert_algo nistp521 = codes "ecdsa-sha2-nistp521-cert-v01@openssh.com"

-- `cert_algo_for`, up to the name that it finds.
unfoldable pub algo_for : Bytes → Option Algo
algo_for tok =
    if beq_bytes tok (algo_name ssh_ed25519)
    then some ssh_ed25519
    else if beq_bytes tok (algo_name ssh_rsa)
    then some ssh_rsa
    else if beq_bytes tok (algo_name nistp256)
    then some nistp256
    else if beq_bytes tok (algo_name nistp384)
    then some nistp384
    else if beq_bytes tok (algo_name nistp521)
    then some nistp521
    else none

unfoldable pub is_known_unsupported : Bytes → Bool
is_known_unsupported tok =
    beq_bytes tok (codes "ssh-dss")
    || (beq_bytes tok (codes "sk-ssh-ed25519@openssh.com")
        || (beq_bytes tok (codes "sk-ecdsa-sha2-nistp256@openssh.com")
            || (beq_bytes tok (codes "ssh-rsa-sha2-256")
                || beq_bytes tok (codes "ssh-rsa-sha2-512"))))

-- The loop over the tokens: the first key type that is known, the number of tokens before it, and
-- the tokens after it.
unfoldable pub find_type : ℕ → List Bytes → Result KeyError (ℕ × Algo × List Bytes)
find_type i [] = err parse
find_type i (tok ∷ rest) = elim (algo_for tok) [
  | some algo ↦ ok (i, algo, rest)
  | none ↦ elim (is_known_unsupported tok) [
    | true ↦ err (rejected (codes "unsupported public key type: " ++ tok))
    | false ↦ find_type (suc i) rest
  ]
]

unfoldable pub nonempty_lines : List Bytes → ℕ
nonempty_lines [] = 0
nonempty_lines (l ∷ ls) = (if is_nil (trim l) then 0 else 1) + nonempty_lines ls

-- What stands behind the first key type: the type must stand first, and a text must follow.
unfoldable pub text_after : ℕ × Algo × List Bytes → Result KeyError (Algo × Bytes)
text_after (suc i, algo, rest) = err options
text_after (zero, algo, []) = err parse
text_after (zero, algo, text ∷ rest) = ok (algo, text)

-- A line up to its base64 text: the key type and the text.
unfoldable pub type_and_text : Bytes → Result KeyError (Algo × Bytes)
type_and_text input =
    if ltb 1 (nonempty_lines (lines input))
    then err trailing
    else if is_nil (trim input)
    then err parse
    else and_then (find_type 0 (split_whitespace (trim input))) text_after

module _ ⦃t : Target⦄ ⦃kc : KeyCrates⦄ where
  unfoldable pub parsed : Algo → Bytes → Bytes → KeyKind → ParsedKey
  parsed algo blob inner_algo kind = record {
    algo = algo_name algo;
    cert_algo = cert_algo algo;
    key_body = drop (4 + length inner_algo) blob;
    kind = kind;
  }

  -- After the blob's own name of the algorithm, which must be the line's.
  unfoldable pub parse_body : Algo → Bytes → Bytes → Reader → Result (Fault KeyError) ParsedKey
  parse_body algo blob inner_algo r =
      if beq_bytes inner_algo (algo_name algo)
      then and_then (parse_key_kind algo r).0 (λ kind. ok (parsed algo blob inner_algo kind))
      else err (fails parse)

  unfoldable pub parse_blob : Algo → Bytes → Result (Fault KeyError) ParsedKey
  parse_blob algo blob =
      and_then (read_string (new blob)).0
        (λ inner_algo. parse_body algo blob inner_algo (read_string (new blob)).1)

  unfoldable pub parse_authorized_key : Bytes → Result (Fault KeyError) ParsedKey
  parse_authorized_key input = and_then (map_err fails (type_and_text input)) (λ (algo, text).
      and_then (ok_or (kc.base64_decode text) (fails parse)) (λ blob. parse_blob algo blob))
