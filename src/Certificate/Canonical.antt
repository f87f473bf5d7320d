-- ===== src/Certificate/Canonical.antt =====
-- `from_bytes` of protocol_v3.rs, in the direction from bytes to certificate.
use omarchy_sync.Certificate.Decode.{from_bytes}
use omarchy_sync.Cursor.{Cursor, left, new, run}
use omarchy_sync.Certificate.{
  DeviceCertificate, IsTyped, cert_magic, cert_schema, max_certificate_bytes, to_bytes,
  validate_shape,
}
use omarchy_sync.Base.{
  >>-eq-ok, >>=-eq-ok, All, Bytes, IsByte, append-nil, arith, bail_if-eq-ok, eq_bytes, eq_bytes→eq,
  false, length, ltb, not, ok, ℕ, ◌==◌, ◌∙◌, ◌≡◌,
}
use mathlib.Core.Path.{subst}
use omarchy_sync.Cursor.Accepts.{Took, Took-end, Took-trans, run-eq-ok}
use omarchy_sync.Cursor.Elim.{check-elim, pure-elim, string-elim, take-elim, u64-elim, u8-elim}
use omarchy_sync.Certificate.RoundTrip.{HasShape, encoding, to_bytes-HasShape, validate_shape-eq-ok}
use omarchy_sync.Certificate.Parse.{parse_fields}

magic_is : (magic : Bytes) → not (eq_bytes magic cert_magic) ≡ false → magic ≡ cert_magic
magic_is magic h = eq_bytes→eq magic cert_magic (ground arith)

schema_is : (schema : ℕ) → not (schema == cert_schema) ≡ false → schema ≡ 1
schema_is schema h = ground arith

parse_fields-Took :
    (c e : Cursor) (cert : DeviceCertificate)
    → All IsByte (left c)
    → parse_fields c ≡ ok (cert, e)
    → Took c (encoding cert) e × IsTyped cert
unfolding parse_fields
parse_fields-Took c e cert b0 h = take-elim c e cert _ _ b0 h λ magic c1 t1 _ _ b1 h1.
    check-elim c1 e cert _ _ _ h1 λ magic_ok h1'. u8-elim c1 e cert _ b1 h1' λ schema c2 t2 _ b2 h2.
      check-elim c2 e cert _ _ _ h2 λ schema_ok h2'.
        take-elim c2 e cert _ _ b2 h2' λ id c3 t3 _ _ b3 h3. check-elim c3 e cert _ _ _ h3 λ _ h3'.
          take-elim c3 e cert _ _ b3 h3' λ key c4 t4 key_size _ b4 h4.
            string-elim c4 e cert _ _ b4 h4 λ name c5 t5 utf8 b5 h5.
              u64-elim c5 e cert _ b5 h5 λ before c6 t6 before_fits b6 h6.
                u64-elim c6 e cert _ b6 h6 λ after c7 t7 after_fits b7 h7.
                  string-elim c7 e cert _ _ b7 h7 λ issuer c8 t8 _ b8 h8.
                    take-elim c8 e cert _ _ b8 h8 λ sig c9 t9 sig_size _ _ h9.
                      pure-elim (λ r d. Took c (encoding r) d × IsTyped r) _ cert c9 e h9
                        (
                          Took-trans (rw (magic_is magic magic_ok) at t1) (
                              Took-trans (rw (schema_is schema schema_ok) at t2) (
                                Took-trans t3 (
                                  Took-trans t4 (
                                    Took-trans t5 (
                                      Took-trans t6
                                        (Took-trans t7 (Took-trans t8 (Took-end t9)))))))),
                          record {
                            key_size = key_size;
                            signature_size = sig_size;
                            before_fits = before_fits;
                            after_fits = after_fits;
                            name_utf8 = utf8;
                          },
                        )

-- If `from_bytes` accepts a sequence of bytes, then `to_bytes` of the certificate that it returns
-- gives the same bytes, the fields have their Rust types and the shape is good.
pub to_bytes-from_bytes :
    (bs : Bytes) (cert : DeviceCertificate)
    → All IsByte bs
    → from_bytes bs ≡ ok cert
    → (to_bytes cert ≡ ok bs) × IsTyped cert × HasShape cert
unfolding from_bytes
to_bytes-from_bytes bs cert hb h =
    let (_, h1) = bail_if-eq-ok (ltb max_certificate_bytes (length bs)) _ _ h in
    let (cert', p, h2) = >>=-eq-ok (run parse_fields bs) _ h1 in
    let (q, h3) = >>-eq-ok (validate_shape cert') _ h2 in
    let same : cert' ≡ cert = cc h3 in
    let (d, r, end) = run-eq-ok parse_fields bs cert' p in
    let (took, typed) = parse_fields-Took (new bs) d cert' hb r in
    let s : HasShape cert' = validate_shape-eq-ok cert' q in
    let all_of : bs ≡ encoding cert' = took.at ∙ rw end (append-nil (encoding cert')) in
    let result : (to_bytes cert' ≡ ok bs) × IsTyped cert' × HasShape cert' =
      (rw all_of (to_bytes-HasShape cert' typed s), typed, s) in
    subst (λ (c : DeviceCertificate). (to_bytes c ≡ ok bs) × IsTyped c × HasShape c) same result
