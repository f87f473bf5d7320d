-- ===== src/Certificate/Verify/Sound.antt =====
-- What a verified certificate is.
use omarchy_sync.Certificate.Decode.{from_bytes}
use omarchy_sync.Certificate.Verify.{verify}
use omarchy_sync.Certificate.{DeviceCertificate, IsTyped, payload, signing_bytes}
use omarchy_sync.Base.{
  >>=-eq-ok, Bytes, ap, bail_if-eq-ok, bail_if-passed, eq_bytes, eq_bytes_refl, eq_bytes→eq, join,
  join-append, leb→lt, le→ltb, ltb, ltb→le, lt→leb, not, not-eq-false, ok, ok_inj, sym, true, ℕ,
  ◌++◌, ◌<◌, ◌↔◌, ◌∙◌, ◌≡◌, ◌≤◌,
}
use omarchy_sync.Identity.{device_id_for_public_key}
use omarchy_sync.Crypto.{Crypto}
use omarchy_sync.Cursor.{field}
use omarchy_sync.Root.{PinnedOmarchyRoot}
use omarchy_sync.Certificate.RoundTrip.{
  HasShape, encoding, from_bytes-to_bytes, signing_bytes-HasShape, signing_bytes-eq-ok,
  to_bytes-HasShape,
}

-- The facts that `verify` establishes, each on its own.
pub record IsVerified (k : Crypto) (cert : DeviceCertificate) (root : PinnedOmarchyRoot) (now : ℕ)
    : Type 0 where
  pub root_good : k.key_ok root.public_key ≡ true
  pub shape : HasShape cert
  pub signed :
      k.verify_strict root.public_key
        (join (payload cert (field cert.device_name) (field cert.issuer_key_id)))
        cert.signature
      ≡ true
  pub pinned : cert.issuer_key_id ≡ root.key_id
  pub bound : cert.device_id ≡ device_id_for_public_key k cert.public_key
  pub started : cert.not_before ≤ now
  pub running : now < cert.not_after

module _ (k : Crypto) (cert : DeviceCertificate) (root : PinnedOmarchyRoot) (now : ℕ) where
  pub IsVerified-verify : IsVerified k cert root now → verify k cert root now ≡ ok tt
  unfolding verify
  IsVerified-verify v = rw (
    v.root_good,
    signing_bytes-HasShape cert v.shape,
    v.signed,
    ← v.pinned,
    eq_bytes_refl cert.issuer_key_id,
    ← v.bound,
    eq_bytes_refl cert.device_id,
    le→ltb now cert.not_before v.started,
    lt→leb cert.not_after now v.running,
  )

  pub verify-IsVerified : verify k cert root now ≡ ok tt → IsVerified k cert root now
  unfolding verify
  verify-IsVerified h =
      let (a, h1) = bail_if-eq-ok (not (k.key_ok root.public_key)) _ _ h in
      let (m, p, h2) = >>=-eq-ok (signing_bytes cert) _ h1 in
      let (b, h3) = bail_if-eq-ok (not (k.verify_strict root.public_key m cert.signature)) _ _ h2 in
      let (c, h4) = bail_if-eq-ok (not (eq_bytes cert.issuer_key_id root.key_id)) _ _ h3 in
      let (d, h5) =
        bail_if-eq-ok (not (eq_bytes cert.device_id (device_id_for_public_key k cert.public_key))) _
          _ h4 in
      let (e, h6) = bail_if-eq-ok (ltb now cert.not_before) _ _ h5 in
      let shape : HasShape cert = signing_bytes-eq-ok cert m p in
      let message : m ≡ join (payload cert (field cert.device_name) (field cert.issuer_key_id)) =
        cc (p, signing_bytes-HasShape cert shape) in
      record {
        root_good = not-eq-false a;
        shape = shape;
        signed = rw message at (not-eq-false b);
        pinned = eq_bytes→eq cert.issuer_key_id root.key_id (not-eq-false c);
        bound = eq_bytes→eq cert.device_id _ (not-eq-false d);
        started = ltb→le now cert.not_before e;
        running = leb→lt cert.not_after now (bail_if-passed _ _ h6);
      }

  -- `verify` succeeds exactly when the root key is a key, the shape is good, the signature over the
  -- canonical bytes verifies under the root key, the issuer id is the pinned one, the DeviceID is
  -- that of the certified key, and `now` lies in the validity window.
  pub verify_iff : (verify k cert root now ≡ ok tt) ↔ IsVerified k cert root now
  verify_iff = (verify-IsVerified, IsVerified-verify)

-- If two certificates, whose fields have their Rust types, have the same signed bytes, they agree
-- in every field but the signature.
pub signing_bytes_inj :
    (a b : DeviceCertificate) (m : Bytes)
    → IsTyped a
    → IsTyped b
    → signing_bytes a ≡ ok m
    → signing_bytes b ≡ ok m
    → record a { signature = b.signature } ≡ b
signing_bytes_inj a b m ta tb ha hb =
    let a' : DeviceCertificate = record a { signature = b.signature } in
    let sa : HasShape a = signing_bytes-eq-ok a m ha in
    let sb : HasShape b = signing_bytes-eq-ok b m hb in
    let sa' : HasShape a' = record {
      id_good = sa.id_good;
      name_there = sa.name_there;
      name_short = sa.name_short;
      window = sa.window;
      issuer_good = sa.issuer_good;
    } in
    let ta' : IsTyped a' = record {
      key_size = ta.key_size;
      signature_size = tb.signature_size;
      before_fits = ta.before_fits;
      after_fits = ta.after_fits;
      name_utf8 = ta.name_utf8;
    } in
    let same : join (payload a (field a.device_name) (field a.issuer_key_id))
        ≡ join (payload b (field b.device_name) (field b.issuer_key_id)) =
      cc (ha, hb, signing_bytes-HasShape a sa, signing_bytes-HasShape b sb) in
    let whole : encoding a' ≡ encoding b =
      sym (join-append (payload a (field a.device_name) (field a.issuer_key_id)) b.signature)
      ∙ ap (λ (l : Bytes). l ++ b.signature) same
      ∙ join-append (payload b (field b.device_name) (field b.issuer_key_id)) b.signature in
    let da = from_bytes-to_bytes a' (encoding a') ta' (to_bytes-HasShape a' ta' sa') in
    let db = from_bytes-to_bytes b (encoding b) tb (to_bytes-HasShape b tb sb) in
    ok_inj (sym da ∙ ap (λ (l : Bytes). from_bytes l) whole ∙ db)
