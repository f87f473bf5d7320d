-- ===== src/Discovery/RoundTrip.antt =====
-- `to_bytes` and `from_bytes` of an announcement, from announcement to bytes.
use omarchy_sync.Certificate
use omarchy_sync.Discovery.Decode
use omarchy_sync.Certificate.RoundTrip as Certificate_RoundTrip
use omarchy_sync.Cursor.{bytes, field, lift, take, u16, u64, u8}
use omarchy_sync.Discovery.{
  DiscoveryAnnouncement, IsTyped, discovery_magic, payload, protocol_v3, signing_bytes, to_bytes,
}
use omarchy_sync.Certificate.Decode.{from_bytes}
use omarchy_sync.Certificate.RoundTrip.{
  HasShape, encoding, from_bytes-to_bytes, length-encoding, to_bytes-HasShape, to_bytes-eq-ok,
}
use omarchy_sync.Discovery.Parse.{parse_fields}
use omarchy_sync.Base.{
  >>=-eq-ok, Bytes, List, [], ap, arith, bail_if, bail_if-eq-ok, eq_bytes_refl, join, join-append,
  length, length-join, length-to_be, le→ltb, not, ok, refl, to_be, zero_port, ℕ, ◌++◌, ◌==◌, ◌∷◌,
  ◌≡◌, ◌≢◌, ◌≤◌,
}
use omarchy_sync.Cursor.Reads.{
  Reads, Reads-bind, Reads-bytes, Reads-check, Reads-lift, Reads-pure, Reads-take, Reads-u16,
  Reads-u64, Reads-u8, length-field, put_bytes-field, run-Reads,
}

abbrev pub pieces : DiscoveryAnnouncement → List Bytes
pieces a = payload a (field (encoding a.certificate)) ++ (a.signature ∷ [])

-- What passes the checks of the writer.
pub record HasForm (a : DiscoveryAnnouncement) : Type 0 where
  pub version : a.protocol_version ≡ 3
  pub certificate_shape : HasShape a.certificate

pub signing_bytes-eq-ok :
    (a : DiscoveryAnnouncement) (m : Bytes) → signing_bytes a ≡ ok m → HasForm a
unfolding signing_bytes
signing_bytes-eq-ok a m h =
    let (v, h1) = bail_if-eq-ok (not (a.protocol_version == protocol_v3)) _ _ h in
    let (bs, p, _) = >>=-eq-ok (Certificate.to_bytes a.certificate) _ h1 in
    record {
      version = ground arith;
      certificate_shape = Certificate_RoundTrip.to_bytes-eq-ok a.certificate bs p;
    }

pub signing_bytes-HasForm :
    (a : DiscoveryAnnouncement)
    → IsTyped a
    → HasForm a
    → signing_bytes a ≡ ok (join (payload a (field (encoding a.certificate))))
unfolding signing_bytes
signing_bytes-HasForm a t f = rw (
  f.version,
  to_bytes-HasShape a.certificate t.certificate_typed f.certificate_shape,
  put_bytes-field (encoding a.certificate) 512 refl
      (omega (arith, length-encoding a.certificate t.certificate_typed f.certificate_shape))
      (omega arith),
)

pub length-pieces :
    (a : DiscoveryAnnouncement) → IsTyped a → HasForm a → length (join (pieces a)) ≤ 421
length-pieces a t f = omega (
  arith,
  length-join (pieces a),
  length-field (encoding a.certificate),
  length-encoding a.certificate t.certificate_typed f.certificate_shape,
  length-to_be 8 a.timestamp,
  length-to_be 2 a.port,
  t.nonce_size,
  t.signature_size,
)

pub to_bytes-HasForm :
    (a : DiscoveryAnnouncement) → IsTyped a → HasForm a → to_bytes a ≡ ok (join (pieces a))
unfolding to_bytes
to_bytes-HasForm a t f =
    let signed : List Bytes = payload a (field (encoding a.certificate)) in
    let all_of : join signed ++ a.signature ≡ join (pieces a) = join-append signed a.signature in
    let fits : length (join signed ++ a.signature) ≤ 2048 =
      omega (arith, ap (λ (l : Bytes). length l) all_of, length-pieces a t f) in
    rw (signing_bytes-HasForm a t f, le→ltb 2048 (length (join signed ++ a.signature)) fits, all_of)

pub parse_fields-Reads :
    (a : DiscoveryAnnouncement)
    → IsTyped a
    → HasForm a
    → a.port ≢ 0
    → Reads parse_fields a (join (pieces a))
unfolding parse_fields
parse_fields-Reads a t f nz =
    let cert : Bytes = encoding a.certificate in
    let small = length-encoding a.certificate t.certificate_typed f.certificate_shape in
    Reads-bind (take (length discovery_magic)) _ discovery_magic a discovery_magic _
      (Reads-take discovery_magic _ refl)
      (Reads-check _ _ _ _ (rw (eq_bytes_refl discovery_magic)) (
        Reads-bind u8 _ a.protocol_version a (a.protocol_version ∷ []) _
          (Reads-u8 a.protocol_version)
          (Reads-bind (bytes 512) _ cert a (field cert) _
            (Reads-bytes cert 512 refl (omega (arith, small)) (omega arith))
            (Reads-bind (lift (from_bytes cert)) _ a.certificate a [] _
              (Reads-lift (from_bytes cert) a.certificate (
                from_bytes-to_bytes a.certificate cert t.certificate_typed
                  (to_bytes-HasShape a.certificate t.certificate_typed f.certificate_shape)))
              (Reads-bind (take 32) _ a.nonce a a.nonce _ (Reads-take a.nonce 32 t.nonce_size) (
                Reads-bind u64 _ a.timestamp a (to_be 8 a.timestamp) _
                  (Reads-u64 a.timestamp t.timestamp_fits)
                  (Reads-bind u16 _ a.port a (to_be 2 a.port) _
                    (Reads-u16 a.port (omega (arith, t.port_fits)))
                    (Reads-check _ _ _ _ (port_passes a.port nz) (
                      Reads-bind (take 64) _ a.signature a a.signature _
                        (Reads-take a.signature 64 t.signature_size) (Reads-pure a))))))))))
  where
    port_passes : (n : ℕ) → n ≢ 0 → bail_if (n == 0) zero_port ≡ ok tt
    port_passes n h = ground arith

-- An announcement whose fields have their Rust types and whose port is not 0, if it encodes, is
-- decoded to itself.
pub from_bytes-to_bytes_announcement :
    (a : DiscoveryAnnouncement) (bs : Bytes)
    → IsTyped a
    → a.port ≢ 0
    → to_bytes a ≡ ok bs
    → Decode.from_bytes bs ≡ ok a
unfolding to_bytes Decode.from_bytes
from_bytes-to_bytes_announcement a bs t nz h =
    let (signed, p, _) = >>=-eq-ok (signing_bytes a) _ h in
    let f : HasForm a = signing_bytes-eq-ok a signed p in
    let small = length-pieces a t f in
    let same : bs ≡ join (pieces a) = cc (h, to_bytes-HasForm a t f) in
    rw (
      same,
      le→ltb 2048 (length (join (pieces a))) (omega (arith, small)),
      run-Reads parse_fields a (join (pieces a)) (omega (arith, small))
          (parse_fields-Reads a t f nz),
    )
