-- ===== src/Dispatch/Issued.antt =====
-- hsm-core/src/dispatch.rs, `handle_sign`, with hsm-core/src/cert.rs: what a reader finds in a
-- certificate that was issued.
use picosignet.Prelude.{
  ℕ, ◌+◌, ◌^◌, ◌%◌, ◌≡◌, ◌≤◌, ◌<◌, refl, ap, arith, some, ok, [], ◌++◌, length, All,
}
use picosignet.Prelude.Bytes.{Bytes, IsByte, codes}
use picosignet.Prelude.Int.{ℤ}
use picosignet.Hal.{EntropySource, Monotonic}
use picosignet.Crypto.{Crypto, ChaCha}
use picosignet.Rng.{Drbg, fill_bytes, next_u64}
use picosignet.Clock.{now_unix}
use picosignet.Maps.{insert_all}
use picosignet.Wrap.{put_string, public_blob, public_bytes}
use picosignet.Proto.Outer.{EnclaveSigningRequest, Response}
use picosignet.GoDuration.Reading.{Float64, parse_duration}
use picosignet.Sshwire.Reader.{Target}
use picosignet.Sshwire.Key.{KeyCrates, KeyKind, ed25519}
use picosignet.Sshwire.Line.{ParsedKey, parse_authorized_key}
use picosignet.Sshwire.Bodies.{kind_name}
use picosignet.Sshwire.Accepted.{IsAccepted, cert_name, parse_authorized_key-IsAccepted}
use picosignet.Sshwire.Sizes.{IsBody-length}
use picosignet.Validate.{Validated}
use picosignet.Validate.Permitted.{IsPermitted}
use picosignet.Cert.{
  signed_bytes, signature_blob, certificate_blob, build_certificate, marshal_principals,
  marshal_tuples,
}
use picosignet.Cert.Decode.{Fields, get_fields, get_strings, get_tuples}
use picosignet.Cert.RoundTrip.{
  IsShort, IsShortPair, IsFitting, body_strings, fields_of, certificate_blob-fields,
}
use picosignet.Cert.Sizes.{All-insert_all, length-insert_all}
use picosignet.Dispatch.Session.{Hsm}
use picosignet.Dispatch.Sign.{valid_after, valid_before, params, signed_response, handle_sign}
use picosignet.Dispatch.Signing.{nonce_of, serial_of, drawn_from, handle_sign-issues}

-- What the crates promise: as many random bytes as are asked for, a random number of 64 bits, an
-- Ed25519 key of 32 bytes, and a base64 decoder that gives bytes.
pub record CrateLaws {R : Type 0} (cr : Crypto) (gen : ChaCha R) (kc : KeyCrates) : Type 0 where
  pub fill_size : (n : ℕ) (r : R) → length (gen.fill n r).0 ≡ n
  pub next_small : (r : R) → (gen.next_u64 r).0 < 2 ^ 64
  pub public_size : (seed : Bytes) → length (cr.ed25519_public seed) ≡ 32
  pub decoded : (text blob : Bytes) → kc.base64_decode text ≡ some blob → All IsByte blob

-- A request whose parts have lengths that the wire's words hold.
pub record IsSmall (req : EnclaveSigningRequest) : Type 0 where
  pub key_id : length req.key_id < 2 ^ 32
  pub names : All IsShort req.principals
  pub principals : length (marshal_principals req.principals) < 2 ^ 32
  pub options : All IsShortPair req.critical_options
  pub critical_options : length (marshal_tuples req.critical_options) < 2 ^ 32
  pub permissions : All IsShortPair req.permissions
  pub attributes : All IsShortPair req.custom_attributes
  pub extensions :
      length (marshal_tuples req.custom_attributes) + length (marshal_tuples req.permissions)
      < 2 ^ 32

-- A certificate line for this key, with what a reader of its blob finds in it.
pub record IsReadable ⦃cr : Crypto⦄ ⦃fl : Float64⦄ (req : EnclaveSigningRequest) (seed : Bytes)
    (now : ℤ) (key : ParsedKey) (r : Response) : Type 0 where
  pub signed : Bytes
  pub fields : Fields
  pub line :
      r
      ≡ signed_response (
          cert_name key.kind
          ++ (codes " " ++ cr.base64_encode (signed ++ put_string (signature_blob seed signed))))
  pub read :
      get_fields (body_strings key.kind) (signed ++ put_string (signature_blob seed signed))
      ≡ some (fields, put_string (signature_blob seed signed))
  pub type_name : fields.cert_algo ≡ cert_name key.kind
  pub nonce : length fields.nonce ≡ 32
  pub body : fields.body ≡ key.key_body
  pub cert_type : fields.cert_type ≡ 1
  pub key_id : fields.key_id ≡ req.key_id
  pub principals : get_strings (length req.principals) fields.principals ≡ some req.principals
  pub after : fields.valid_after ≡ valid_after now
  pub before :
      (d : ℤ) × (parse_duration req.validity ≡ ok d) × (fields.valid_before ≡ valid_before now d)
  pub options :
      get_tuples (length req.critical_options) fields.critical_options ≡ some req.critical_options
  pub extensions :
      (n : ℕ) × (get_tuples n fields.extensions
        ≡ some (insert_all req.custom_attributes (insert_all req.permissions [])))
  pub ca_key : fields.ca_key ≡ public_blob (public_bytes seed)

length-cert_name : (k : KeyKind) → length (cert_name k) ≤ 64
unfolding kind_name
length-cert_name ed25519 = omega arith
length-cert_name _ = omega arith

small_64 : (n : ℕ) → n % 2 ^ 64 < 2 ^ 64
small_64 n = omega arith

module _ {R : Type 0} ⦃cr : Crypto⦄ ⦃gen : ChaCha R⦄ ⦃fl : Float64⦄ ⦃t : Target⦄ ⦃kc : KeyCrates⦄
    (laws : CrateLaws cr gen kc) where
  ca-length : (seed : Bytes) → length (public_blob (public_bytes seed)) < 2 ^ 32
  unfolding public_blob public_bytes put_string
  ca-length seed = omega (arith, laws.public_size seed)

  draw_sizes : (d : Drbg R) → (length (nonce_of d) ≡ 32) × (serial_of d < 2 ^ 64)
  unfolding fill_bytes next_u64
  draw_sizes d = (laws.fill_size 32 _, laws.next_small _)

  params-IsFitting :
      (req : EnclaveSigningRequest) (v : Validated) (now : ℤ) (d : Drbg R)
      → IsSmall req
      → IsPermitted req v
      → v.key.cert_algo ≡ cert_name v.key.kind
      → length v.key.key_body ≤ 1043
      → IsFitting (params req v now (nonce_of d) (serial_of d))
  unfolding params valid_after valid_before marshal_tuples
  params-IsFitting req v now d small permitted named short =
      let (nonce, serial) = draw_sizes d in
      record {
        cert_algo = omega (arith, ap length named, length-cert_name v.key.kind);
        nonce = omega (arith, nonce);
        key_body = omega arith;
        serial = serial;
        key_id = small.key_id;
        principals = small.principals;
        valid_after = small_64 _;
        valid_before = small_64 _;
        critical_options = rw permitted.options small.critical_options;
        extensions = rw permitted.merged (
            omega (
              arith,
              small.extensions,
              length-insert_all req.custom_attributes (insert_all req.permissions []),
              length-insert_all req.permissions [],
            ));
      }

  readable :
      (req : EnclaveSigningRequest) (v : Validated) (seed : Bytes) (now : ℤ) (d : Drbg R)
      → IsSmall req
      → IsPermitted req v
      → IsReadable req seed now v.key
          (signed_response (build_certificate (params req v now (nonce_of d) (serial_of d)) seed))
  unfolding params fields_of build_certificate certificate_blob
  readable req v seed now d small permitted =
      let p = params req v now (nonce_of d) (serial_of d) in
      let accepted = parse_authorized_key-IsAccepted req.ssh_key laws.decoded permitted.key in
      let named = accepted.certified in
      let short = IsBody-length v.key.kind v.key.key_body accepted.body permitted.size in
      let fits = params-IsFitting req v now d small permitted named short in
      let both =
        All-insert_all IsShortPair req.custom_attributes (insert_all req.permissions [])
          small.attributes (All-insert_all IsShortPair req.permissions [] small.permissions tt) in
      let (read, names, options, extensions) =
        certificate_blob-fields v.key.kind p seed accepted.body fits small.names
          (rw permitted.options small.options) (rw permitted.merged both) (ca-length seed) in
      record {
        signed = signed_bytes p seed;
        fields = fields_of p seed;
        line = rw named refl;
        read = read;
        type_name = named;
        nonce = (draw_sizes d).0;
        body = refl;
        cert_type = refl;
        key_id = refl;
        principals = names;
        after = refl;
        before = (v.duration_ns, permitted.filled.duration, refl);
        options = rw (← permitted.options) options;
        extensions = (length v.extensions, rw (← permitted.merged) extensions);
        ca_key = refl;
      }

  -- On a request whose parts fit the wire, what a device issues is a line with the certificate type of
  -- the kind of key that the request's text names and holds, and a reader of PROTOCOL.certkeys finds in its blob that key's own bytes, the
  -- request's name, principals and critical options, its permissions and attributes merged, a nonce of
  -- 32 bytes and the validity that follows from the clock and the request's duration, all under the
  -- live CA key's signature over exactly those bytes. The crates keep the laws named above.
  pub handle_sign-IsReadable :
      {E M F : Type 0} ⦃src : EntropySource E⦄ ⦃mono : Monotonic M⦄ (req : EnclaveSigningRequest)
      (h : Hsm E M F R) {r : Response} {h' : Hsm E M F R}
      → IsSmall req
      → handle_sign req h ≡ (ok r, h')
      → (now : ℤ) × (seed : Bytes) × (key : ParsedKey) × (now_unix h.mono h.clock ≡ ok (some now))
        × (h.ca ≡ some seed)
        × (parse_authorized_key req.ssh_key ≡ ok key)
        × IsAccepted req.ssh_key key
        × IsReadable req seed now key r
  handle_sign-IsReadable req h small e =
      let (now, v, seed, _, timed, permitted, live, _, same) = handle_sign-issues req h e in
      (
        now,
        seed,
        v.key,
        timed,
        live,
        permitted.key,
        parse_authorized_key-IsAccepted req.ssh_key laws.decoded permitted.key,
        rw same (readable req v seed now (drawn_from h) small permitted),
      )
