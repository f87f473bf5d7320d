-- ===== src/Handshake/Peer/Honest.antt =====
-- What an honest device sends under encryption passes the checks of pairing.rs at the other one.
use omarchy_sync.Certificate
use omarchy_sync.Certificate.Verify as CertificateCheck
use omarchy_sync.Identity
use omarchy_sync.Cursor.{
  Cursor, Parser, advance, bytes, left, lift, new, pure, put_bytes, remaining, run, take, u8, ◌>>=◌,
  ◌>>◌,
}
use omarchy_sync.Certificate.RoundTrip.{
  from_bytes-to_bytes, is_utf8-bad_hex_id, length-bad_hex_id, to_bytes-eq-ok,
}
use omarchy_sync.Cursor.Reads.{
  IsFit, Reads, Reads-bytes, Reads-lift, Reads-take, Reads-u8, advance-IsFit, finish_at_end,
  left-advance, length-field, length-left, put_bytes-eq-ok,
}
use omarchy_sync.Handshake.Parse.{AuthFields, optional_signature, parse_fields}
use omarchy_sync.Handshake.{PeerAuth, auth_magic}
use omarchy_sync.Certificate.Decode.{from_bytes}
use omarchy_sync.Handshake.Peer.{
  parse_auth, parse_auth_hello, parse_auth_proof, verify_signature, verify_signature_payload,
}
use omarchy_sync.Handshake.Checks.{validate_local}
use omarchy_sync.Handshake.Hello.{auth_hello, auth_proof, signed_auth_payload, signed_message}
use omarchy_sync.Base.{
  ==_iff, >>=-elim, Bytes, Option, Result, [], ap, append-nil, append_assoc, arith, bail_if-elim,
  drop, drop-append, drop-ge, eq_bytes, eq_bytes_refl, eq_bytes→eq, false, length, length-append,
  none, not, not-eq-false, ok, ok_inj, or-eq-false, refl, some, some-injective, sym, true, ℕ, ◌++◌,
  ◌+◌, ◌<◌, ◌==◌, ◌^◌, ◌||◌, ◌∙◌, ◌∷◌, ◌≡◌, ◌≤◌,
}
use mathlib.Core.Path.{subst}
use omarchy_sync.Identity.{DeviceIdentity, device_id, public_key, sign}
use omarchy_sync.Certificate.{DeviceCertificate, IsTyped, max_certificate_bytes, to_bytes}
use omarchy_sync.Crypto.{Crypto, CryptoLaws}
use omarchy_sync.Root.{PinnedOmarchyRoot}
use omarchy_sync.Discovery.{protocol_v3}
use omarchy_sync.Certificate.Verify.{verify}
use omarchy_sync.Runtime.Peers.{put}

-- The proof or the hello, up to the signature.
abbrev hello_bytes : DeviceCertificate → Bytes → Bytes
hello_bytes cert cert_field =
    auth_magic ++ ((protocol_v3 ∷ []) ++ (cert.device_id ++ (cert.public_key ++ cert_field)))

-- `p` reads `enc`, when nothing follows.
record ReadsLast {A : Type 0} (p : Parser A) (v : A) (enc : Bytes) : Type 0 where
  pub at : (c : Cursor) → IsFit c → left c ≡ enc → p c ≡ ok (v, advance c (length enc))

last-bind :
    {A B : Type 0} (p : Parser A) (f : A → Parser B) (v : A) (w : B) (e1 e2 : Bytes)
    → Reads p v e1
    → ReadsLast (f v) w e2
    → ReadsLast (p >>= f) w (e1 ++ e2)
last-bind p f v w e1 e2 hp hf = record {
  at = λ c fit h.
      let long : length e1 ≤ length (left c) =
        omega (arith, ap (λ (l : Bytes). length l) h, length-append e1 e2) in
      let h2 : left (advance c (length e1)) ≡ e2 =
        left-advance c (length e1) ∙ ap (λ (l : Bytes). drop (length e1) l) h ∙ drop-append e1 e2 in
      rw (hp.at c e2 fit h) (
        hf.at (advance c (length e1)) (advance-IsFit c _ fit long) h2
        ∙ ap (λ (k : ℕ). ok (w, record c { position = k })) (omega (arith, length-append e1 e2)));
}

last-check :
    {B : Type 0} (r : Result (Unit {0})) (k : Parser B) (w : B) (enc : Bytes)
    → r ≡ ok tt
    → ReadsLast k w enc
    → ReadsLast (lift r >> k) w enc
last-check r k w enc h hk = last-bind (lift r) (λ _. k) tt w [] enc (Reads-lift r tt h) hk

run-last :
    {A : Type 0} (p : Parser A) (v : A) (enc : Bytes)
    → length enc < 2 ^ 64
    → ReadsLast p v enc
    → run p enc ≡ ok v
unfolding pure run
run-last p v enc h r =
    let over : drop (length enc) enc ≡ [] = drop-ge (length enc) enc (omega arith) in
    let zero_add : 0 + length enc ≡ length enc = omega arith in
    rw (r.at (new enc) (omega arith) refl, zero_add)
      (rw (finish_at_end (record { bytes = enc; position = length enc }) (omega arith) over))

-- What the last field of a message may be.
abbrev tail : Option Bytes → Bytes
tail none = []
tail (some sig) = sig

optional_signature-last :
    (o : Option Bytes) (f : Option Bytes → AuthFields)
    → ((sig : Bytes) → o ≡ some sig → length sig ≡ 64)
    → ReadsLast (do s ← optional_signature; pure (f s)) (f o) (tail o)
unfolding optional_signature remaining pure
optional_signature-last none f h = record {
  at = λ c fit e.
      let none_left : (remaining c == 64) ≡ false =
        ground (arith, length-left c, ap (λ (l : Bytes). length l) e) in
      rw none_left (ap (λ (p : ℕ). ok (f none, record c { position = p })) (omega arith));
}
optional_signature-last (some sig) f h = record {
  at = λ c fit e.
      let all_left : (remaining c == 64) ≡ true =
        (==_iff (remaining c) 64).1
          (omega (arith, length-left c, ap (λ (l : Bytes). length l) e, h sig refl)) in
      rw all_left
        (rw ((Reads-take sig 64 (h sig refl)).at c [] fit (e ∙ sym (append-nil sig))) refl);
}

length-tail :
    (o : Option Bytes) → ((sig : Bytes) → o ≡ some sig → length sig ≡ 64) → length (tail o) ≤ 64
length-tail none h = omega arith
length-tail (some sig) h = omega (arith, h sig refl)

parse_fields-last :
    (cert : DeviceCertificate) (bs cert_field : Bytes) (o : Option Bytes)
    → Certificate.IsTyped cert
    → Certificate.to_bytes cert ≡ ok bs
    → put_bytes bs max_certificate_bytes ≡ ok cert_field
    → ((sig : Bytes) → o ≡ some sig → length sig ≡ 64)
    → run parse_fields (hello_bytes cert (cert_field ++ tail o))
      ≡ ok (record {
        certificate = cert;
        public_key = cert.public_key;
        device_id = cert.device_id;
        signature = o;
      })
unfolding parse_fields
parse_fields-last cert bs cert_field o typed made put sized =
    let shape = to_bytes-eq-ok cert bs made in
    let (there, short, _, same) = put_bytes-eq-ok bs 512 cert_field put in
    let id_size = length-bad_hex_id cert.device_id shape.id_good in
    let f : AuthFields = record {
      certificate = cert;
      public_key = cert.public_key;
      device_id = cert.device_id;
      signature = o;
    } in
    let reads : ReadsLast parse_fields f (hello_bytes cert (cert_field ++ tail o)) =
      last-bind (take (length auth_magic)) _ auth_magic f auth_magic _
        (Reads-take auth_magic _ refl)
        (last-check _ _ _ _ (rw (eq_bytes_refl auth_magic)) (
          last-bind u8 _ protocol_v3 f (protocol_v3 ∷ []) _ (Reads-u8 protocol_v3) (
            last-check _ _ _ _ refl (
              last-bind (take 32) _ cert.device_id f cert.device_id _ (Reads-take _ 32 id_size) (
                last-check _ _ _ _ (rw (is_utf8-bad_hex_id cert.device_id shape.id_good)) (
                  last-bind (take 32) _ cert.public_key f cert.public_key _
                    (Reads-take _ 32 typed.key_size)
                    (last-bind (bytes 512) _ bs f cert_field _
                      (subst (λ x. Reads (bytes 512) bs x) (sym same)
                        (Reads-bytes bs 512 there short (omega arith)))
                      (last-bind (lift (from_bytes bs)) _ cert f [] _
                        (Reads-lift _ _ (from_bytes-to_bytes cert bs typed made))
                        (optional_signature-last o
                          (λ s. record {
                            certificate = cert;
                            public_key = cert.public_key;
                            device_id = cert.device_id;
                            signature = s;
                          })
                          sized))))))))) in
    let size : length (hello_bytes cert (cert_field ++ tail o)) ≤ 1000 = omega (
      arith,
      length-append cert.device_id (cert.public_key ++ (cert_field ++ tail o)),
      length-append cert.public_key (cert_field ++ tail o),
      length-append cert_field (tail o),
      length-tail o sized,
      ap (λ (x : Bytes). length x) same,
      length-field bs,
      typed.key_size,
      id_size,
      short,
    ) in
    run-last parse_fields f _ (omega (arith, size)) reads

-- The message of a device is the certificate's part, and the signature or nothing.
record IsMessage (cert : DeviceCertificate) (o : Option Bytes) (out : Bytes) : Type 0 where
  pub bs : Bytes
  pub cert_field : Bytes
  pub made : Certificate.to_bytes cert ≡ ok bs
  pub put : put_bytes bs max_certificate_bytes ≡ ok cert_field
  pub same : out ≡ hello_bytes cert (cert_field ++ tail o)

auth_hello-IsMessage :
    (cert : DeviceCertificate) (out : Bytes)
    → Certificate.IsTyped cert
    → auth_hello cert ≡ ok out
    → IsMessage cert none out
unfolding auth_hello
auth_hello-IsMessage cert out typed h = >>=-elim (Certificate.to_bytes cert) _ h λ bs made h1.
    >>=-elim (from_bytes bs) _ h1 λ parsed read h2.
      >>=-elim (put_bytes bs max_certificate_bytes) _ h2 λ cert_field put h3.
        let one : parsed ≡ cert = ok_inj (sym read ∙ from_bytes-to_bytes cert bs typed made) in
        record {
          bs = bs;
          cert_field = cert_field;
          made = made;
          put = put;
          same =
              sym (ok_inj h3)
              ∙ ap (λ (c : DeviceCertificate). hello_bytes c cert_field) one
              ∙ ap (λ (x : Bytes). hello_bytes cert x) (sym (append-nil cert_field));
        }

auth_proof-IsMessage :
    (k : Crypto) (cert : DeviceCertificate) (identity : DeviceIdentity) (t out : Bytes) (role : ℕ)
    → Certificate.IsTyped cert
    → auth_proof k cert identity t role ≡ ok out
    → IsMessage cert (some (signed_auth_payload k identity t role)) out
unfolding auth_proof
auth_proof-IsMessage k cert identity t out role typed h =
    >>=-elim (auth_hello cert) _ h λ hello made h1.
      let m = auth_hello-IsMessage cert hello typed made in
      record {
        bs = m.bs;
        cert_field = m.cert_field;
        made = m.made;
        put = m.put;
        same =
            sym (ok_inj h1)
            ∙ joined hello (signed_auth_payload k identity t role) m.cert_field m.same;
      }
  where
    joined :
        (hello sig cert_field : Bytes)
        → hello ≡ hello_bytes cert (cert_field ++ [])
        → hello ++ sig ≡ hello_bytes cert (cert_field ++ sig)
    joined hello sig cert_field e =
        ap (λ (x : Bytes). x ++ sig) e
        ∙ append_assoc auth_magic
            ((protocol_v3 ∷ []) ++ (cert.device_id ++ (cert.public_key ++ (cert_field ++ [])))) sig
        ∙ ap (λ (x : Bytes). auth_magic ++ ((protocol_v3 ∷ []) ++ x))
            (append_assoc cert.device_id (cert.public_key ++ (cert_field ++ [])) sig
              ∙ ap (λ (x : Bytes). cert.device_id ++ x)
                  (append_assoc cert.public_key (cert_field ++ []) sig
                    ∙ ap (λ (x : Bytes). cert.public_key ++ (x ++ sig)) (append-nil cert_field)))

parse_auth-IsMessage :
    (cert : DeviceCertificate) (o : Option Bytes) (out : Bytes)
    → Certificate.IsTyped cert
    → ((sig : Bytes) → o ≡ some sig → length sig ≡ 64)
    → IsMessage cert o out
    → parse_auth out
      ≡ ok (record {
        certificate = cert;
        public_key = cert.public_key;
        device_id = cert.device_id;
        signature = o;
      })
unfolding parse_auth
parse_auth-IsMessage cert o out typed sized m =
    ap (λ x. run parse_fields x) m.same
    ∙ parse_fields-last cert m.bs m.cert_field o typed m.made m.put sized

module _ (k : Crypto) (laws : CryptoLaws k) where
  validate_local-eq-ok :
      (identity : DeviceIdentity) (cert : DeviceCertificate) (root : PinnedOmarchyRoot) (now : ℕ)
      → validate_local k identity cert root now ≡ ok tt
      → (cert.public_key ≡ k.public_of identity.signing_key)
        × (CertificateCheck.verify k cert root now ≡ ok tt)
  unfolding validate_local Identity.public_key
  validate_local-eq-ok identity cert root now h =
      bail_if-elim
        (not (eq_bytes cert.device_id (Identity.device_id k identity))
          || not (eq_bytes cert.public_key (Identity.public_key k identity)))
        _ _ h
        λ same h1.
          let (_, b) =
            or-eq-false (not (eq_bytes cert.device_id (Identity.device_id k identity))) _ same in
          (eq_bytes→eq _ _ (not-eq-false b), h1)

  length-signature :
      (identity : DeviceIdentity) (m : Bytes) → length (Identity.sign k identity m) ≡ 64
  unfolding Identity.sign
  length-signature identity m = laws.length-sign identity.signing_key m

  verify-signed :
      (identity : DeviceIdentity) (m : Bytes)
      → (k.key_ok (k.public_of identity.signing_key) ≡ true)
        × (k.verify_strict (k.public_of identity.signing_key) m (Identity.sign k identity m) ≡ true)
  unfolding Identity.sign
  verify-signed identity m =
      (laws.key_ok-public_of identity.signing_key, laws.verify-sign identity.signing_key m)

  -- The proof of an honest device is accepted: if the primitives meet their laws, the device, whose
  -- certificate's fields have their Rust types, passes `validate_local` at the time `now` under the
  -- root, and `auth_proof` makes a proof of a transcript under a role, then `parse_auth_proof` at
  -- that time reads back its certificate, DeviceID and key, and `verify_signature` of what it read
  -- passes for that transcript and role.
  pub auth_proof-accepted :
      (identity : DeviceIdentity) (cert : DeviceCertificate) (root : PinnedOmarchyRoot) (now : ℕ)
      (t out : Bytes) (role : ℕ)
      → Certificate.IsTyped cert
      → validate_local k identity cert root now ≡ ok tt
      → auth_proof k cert identity t role ≡ ok out
      → (p : PeerAuth) × (parse_auth_proof k out root now ≡ ok p)
        × (p.certificate ≡ cert)
        × (p.device_id ≡ cert.device_id)
        × (p.public_key ≡ cert.public_key)
        × (verify_signature k p t role ≡ ok tt)
  unfolding parse_auth_proof verify_signature signed_auth_payload
  auth_proof-accepted identity cert root now t out role typed local made =
      let (key, valid) = validate_local-eq-ok identity cert root now local in
      let sig = signed_auth_payload k identity t role in
      let sized : length sig ≡ 64 = length-signature identity _ in
      let read =
        parse_auth-IsMessage cert (some sig) out typed
          (λ s e. ap (λ (x : Bytes). length x) (sym (some-injective _ _ e)) ∙ sized)
          (auth_proof-IsMessage k cert identity t out role typed made) in
      let (good, verified) = verify-signed identity (signed_message t role) in
      let p : PeerAuth = record {
        device_id = cert.device_id;
        public_key = cert.public_key;
        certificate = cert;
        signature = some sig;
      } in
      (
        p,
        rw (read, valid, eq_bytes_refl cert.device_id, eq_bytes_refl cert.public_key) refl,
        refl,
        refl,
        refl,
        rw (key, good, verified) refl,
      )

  -- The hello and the signature of an honest device are accepted: if the primitives meet their laws,
  -- the device, whose certificate's fields have their Rust types, passes `validate_local` at the time
  -- `now` under the root, and `auth_hello` makes a hello, then `parse_auth_hello` at that time reads
  -- back its certificate, DeviceID and key without a signature, and `verify_signature_payload` of
  -- what it read passes for the device's signature over any transcript under any role.
  pub auth_hello-accepted :
      (identity : DeviceIdentity) (cert : DeviceCertificate) (root : PinnedOmarchyRoot) (now : ℕ)
      (t out : Bytes) (role : ℕ)
      → Certificate.IsTyped cert
      → validate_local k identity cert root now ≡ ok tt
      → auth_hello cert ≡ ok out
      → (p : PeerAuth) × (parse_auth_hello k out root now ≡ ok p)
        × (p.certificate ≡ cert)
        × (p.device_id ≡ cert.device_id)
        × (p.public_key ≡ cert.public_key)
        × (p.signature ≡ none)
        × (verify_signature_payload k p t role (signed_auth_payload k identity t role) ≡ ok tt)
  unfolding parse_auth_hello verify_signature_payload signed_auth_payload
  auth_hello-accepted identity cert root now t out role typed local made =
      let (key, valid) = validate_local-eq-ok identity cert root now local in
      let sized : length (signed_auth_payload k identity t role) ≡ 64 =
        length-signature identity _ in
      let read =
        parse_auth-IsMessage cert none out typed (λ s e. cc e)
          (auth_hello-IsMessage cert out typed made) in
      let (good, verified) = verify-signed identity (signed_message t role) in
      let p : PeerAuth = record {
        device_id = cert.device_id;
        public_key = cert.public_key;
        certificate = cert;
        signature = none;
      } in
      (
        p,
        rw (read, valid, eq_bytes_refl cert.device_id, eq_bytes_refl cert.public_key) refl,
        refl,
        refl,
        refl,
        refl,
        rw (sized, key, good, verified) refl,
      )
