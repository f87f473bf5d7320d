-- ===== src/Certificate/RoundTrip.antt =====
-- `to_bytes` and `from_bytes` of protocol_v3.rs, in the direction from certificate to bytes.
use omarchy_sync.Certificate.Decode.{from_bytes}
use omarchy_sync.Cursor.{field, string, take, u64, u8}
use omarchy_sync.Certificate.{
  DeviceCertificate, IsTyped, bad_hex_id, bad_issuer_key_id, cert_magic, is_key_id_byte,
  max_device_name_bytes, payload, signing_bytes, to_bytes, validate_shape,
}
use omarchy_sync.Base.{
  >>-eq-ok, >>=-eq-ok, All, Bytes, List, [], all, all-hexdigit-ascii, and-eq-true, ap, arith,
  bail_if-eq-ok, eq_bytes_refl, false, is_ascii_alphanumeric, is_ascii_hexdigit, is_empty, is_utf8,
  is_utf8-ascii, join, join-append, leb, leb→lt, length, length-join, length-to_be, le→ltb, ltb,
  ltb→le, lt→leb, ok, or-eq-false, refl, to_be, true, ◌++◌, ◌<◌, ◌||◌, ◌∷◌, ◌≡◌, ◌≤◌,
}
use omarchy_sync.Cursor.Reads.{
  Reads, Reads-bind, Reads-check, Reads-pure, Reads-string, Reads-take, Reads-u64, Reads-u8,
  length-field, put_bytes-field, run-Reads,
}
use omarchy_sync.Certificate.Parse.{parse_fields}

-- What passes `validate_shape`.
pub record HasShape (cert : DeviceCertificate) : Type 0 where
  pub id_good : bad_hex_id cert.device_id ≡ false
  pub name_there : is_empty cert.device_name ≡ false
  pub name_short : length cert.device_name ≤ 64
  pub window : cert.not_before < cert.not_after
  pub issuer_good : bad_issuer_key_id cert.issuer_key_id ≡ false

pub validate_shape-eq-ok : (cert : DeviceCertificate) → validate_shape cert ≡ ok tt → HasShape cert
unfolding validate_shape
validate_shape-eq-ok cert h =
    let (a, h1) = bail_if-eq-ok (bad_hex_id cert.device_id) _ _ h in
    let (b, h2) =
      bail_if-eq-ok
        (is_empty cert.device_name || ltb max_device_name_bytes (length cert.device_name)) _ _ h1 in
    let (c, h3) = bail_if-eq-ok (leb cert.not_after cert.not_before) _ _ h2 in
    let (b1, b2) = or-eq-false (is_empty cert.device_name) _ b in
    record {
      id_good = a;
      name_there = b1;
      name_short = ltb→le 64 (length cert.device_name) b2;
      window = leb→lt cert.not_after cert.not_before c;
      issuer_good = ground arith;
    }

pub HasShape-validate_shape :
    (cert : DeviceCertificate) → HasShape cert → validate_shape cert ≡ ok tt
unfolding validate_shape
HasShape-validate_shape cert s = rw (
  s.id_good,
  s.name_there,
  le→ltb 64 (length cert.device_name) s.name_short,
  lt→leb cert.not_after cert.not_before s.window,
  s.issuer_good,
)

pub length-bad_hex_id : (id : Bytes) → bad_hex_id id ≡ false → length id ≡ 32
unfolding bad_hex_id
length-bad_hex_id id h = ground arith

pub is_utf8-bad_hex_id : (id : Bytes) → bad_hex_id id ≡ false → is_utf8 id ≡ true
unfolding bad_hex_id
is_utf8-bad_hex_id id h =
    let digits : all is_ascii_hexdigit id ≡ true = ground arith in
    is_utf8-ascii id (all-hexdigit-ascii id digits)

key_id-ascii : (id : Bytes) → all is_key_id_byte id ≡ true → All (λ b. b < 128) id
unfolding is_key_id_byte is_ascii_alphanumeric
key_id-ascii [] h = tt
key_id-ascii (b ∷ bs) h =
    let (p, q) = and-eq-true (is_key_id_byte b) (all is_key_id_byte bs) h in
    (ground arith, key_id-ascii bs q)

pub bad_issuer_key_id-eq-false :
    (id : Bytes)
    → bad_issuer_key_id id ≡ false
    → (is_empty id ≡ false) × (length id ≤ 64) × (is_utf8 id ≡ true)
unfolding bad_issuer_key_id
bad_issuer_key_id-eq-false id h =
    let (ab, c) = or-eq-false (is_empty id || ltb 64 (length id)) _ h in
    let (a, b) = or-eq-false (is_empty id) _ ab in
    let letters : all is_key_id_byte id ≡ true = ground arith in
    (a, ltb→le 64 (length id) b, is_utf8-ascii id (key_id-ascii id letters))

-- The canonical bytes of a certificate.
abbrev pub pieces : DeviceCertificate → List Bytes
pieces cert =
    payload cert (field cert.device_name) (field cert.issuer_key_id) ++ (cert.signature ∷ [])

abbrev pub encoding : DeviceCertificate → Bytes
encoding cert = join (pieces cert)

pub signing_bytes-HasShape :
    (cert : DeviceCertificate)
    → HasShape cert
    → signing_bytes cert
      ≡ ok (join (payload cert (field cert.device_name) (field cert.issuer_key_id)))
unfolding signing_bytes
signing_bytes-HasShape cert s =
    let (ne, le, _) = bad_issuer_key_id-eq-false cert.issuer_key_id s.issuer_good in
    rw (
      HasShape-validate_shape cert s,
      put_bytes-field cert.device_name 64 s.name_there s.name_short (omega arith),
      put_bytes-field cert.issuer_key_id 64 ne le (omega arith),
    )

pub length-encoding :
    (cert : DeviceCertificate) → IsTyped cert → HasShape cert → length (encoding cert) ≤ 292
length-encoding cert t s =
    let (_, le, _) = bad_issuer_key_id-eq-false cert.issuer_key_id s.issuer_good in
    omega (
      arith,
      length-join (pieces cert),
      length-bad_hex_id cert.device_id s.id_good,
      t.key_size,
      t.signature_size,
      length-field cert.device_name,
      length-field cert.issuer_key_id,
      length-to_be 8 cert.not_before,
      length-to_be 8 cert.not_after,
    )

-- A certificate whose fields have their Rust types and whose shape is good always encodes, to its
-- canonical bytes: the size limit of `to_bytes` never refuses it.
pub to_bytes-HasShape :
    (cert : DeviceCertificate) → IsTyped cert → HasShape cert → to_bytes cert ≡ ok (encoding cert)
unfolding to_bytes
to_bytes-HasShape cert t s =
    let signed : List Bytes = payload cert (field cert.device_name) (field cert.issuer_key_id) in
    let all_of : join signed ++ cert.signature ≡ encoding cert =
      join-append signed cert.signature in
    let fits : length (join signed ++ cert.signature) ≤ 512 =
      omega (arith, ap (λ (l : Bytes). length l) all_of, length-encoding cert t s) in
    rw (
      signing_bytes-HasShape cert s,
      le→ltb 512 (length (join signed ++ cert.signature)) fits,
      all_of,
    )

pub parse_fields-Reads :
    (cert : DeviceCertificate)
    → IsTyped cert
    → HasShape cert
    → Reads parse_fields cert (encoding cert)
unfolding parse_fields
parse_fields-Reads cert t s =
    let id_size = length-bad_hex_id cert.device_id s.id_good in
    let (ne, le, u) = bad_issuer_key_id-eq-false cert.issuer_key_id s.issuer_good in
    Reads-bind (take (length cert_magic)) _ cert_magic cert cert_magic _
      (Reads-take cert_magic _ refl)
      (Reads-check _ _ _ _ (rw (eq_bytes_refl cert_magic)) (
        Reads-bind u8 _ 1 cert (1 ∷ []) _ (Reads-u8 1) (
          Reads-check _ _ _ _ refl (
            Reads-bind (take 32) _ cert.device_id cert cert.device_id _
              (Reads-take cert.device_id 32 id_size)
              (Reads-check _ _ _ _ (rw (is_utf8-bad_hex_id cert.device_id s.id_good)) (
                Reads-bind (take 32) _ cert.public_key cert cert.public_key _
                  (Reads-take cert.public_key 32 t.key_size)
                  (Reads-bind (string 64) _ cert.device_name cert (field cert.device_name) _
                    (Reads-string cert.device_name 64 s.name_there s.name_short (omega arith)
                      t.name_utf8)
                    (Reads-bind u64 _ cert.not_before cert (to_be 8 cert.not_before) _
                      (Reads-u64 cert.not_before t.before_fits)
                      (Reads-bind u64 _ cert.not_after cert (to_be 8 cert.not_after) _
                        (Reads-u64 cert.not_after t.after_fits)
                        (Reads-bind (string 64) _ cert.issuer_key_id cert (field cert.issuer_key_id)
                          _ (Reads-string cert.issuer_key_id 64 ne le (omega arith) u)
                          (Reads-bind (take 64) _ cert.signature cert cert.signature _
                            (Reads-take cert.signature 64 t.signature_size)
                            (Reads-pure cert))))))))))))

-- `signing_bytes` and `to_bytes` check the shape.
pub signing_bytes-eq-ok :
    (cert : DeviceCertificate) (bs : Bytes) → signing_bytes cert ≡ ok bs → HasShape cert
unfolding signing_bytes
signing_bytes-eq-ok cert bs h =
    let (q, _) = >>-eq-ok (validate_shape cert) _ h in validate_shape-eq-ok cert q

pub to_bytes-eq-ok : (cert : DeviceCertificate) (bs : Bytes) → to_bytes cert ≡ ok bs → HasShape cert
unfolding to_bytes
to_bytes-eq-ok cert bs h =
    let (signed, p, _) = >>=-eq-ok (signing_bytes cert) _ h in signing_bytes-eq-ok cert signed p

-- A certificate whose fields have their Rust types, if it encodes, is decoded to itself.
pub from_bytes-to_bytes :
    (cert : DeviceCertificate) (bs : Bytes)
    → IsTyped cert
    → to_bytes cert ≡ ok bs
    → from_bytes bs ≡ ok cert
unfolding from_bytes
from_bytes-to_bytes cert bs t h =
    let s : HasShape cert = to_bytes-eq-ok cert bs h in
    let same : bs ≡ encoding cert = cc (h, to_bytes-HasShape cert t s) in
    let short = length-encoding cert t s in
    rw (
      same,
      le→ltb 512 (length (encoding cert)) (omega (arith, short)),
      run-Reads parse_fields cert (encoding cert) (omega (arith, short))
          (parse_fields-Reads cert t s),
      HasShape-validate_shape cert s,
    )
