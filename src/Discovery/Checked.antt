-- ===== src/Discovery/Checked.antt =====
-- What an announcement that passes the checks of `DiscoveryVerifier::verify` has.
use omarchy_sync.Discovery.Decode
use omarchy_sync.Certificate.Verify as Certificate
use omarchy_sync.Discovery.{DiscoveryAnnouncement, protocol_v3, signing_bytes}
use omarchy_sync.Discovery.Verifier.{DiscoveryVerifier, check, saturating_add}
use omarchy_sync.Base.{
  ==_iff, >>-eq-ok, >>=-eq-ok, Bytes, arith, bail_if-eq-ok, false, le→ltb, ltb, ltb→le, not,
  not-eq-false, ok, ok_inj, true, ℕ, ◌-◌, ◌==◌, ◌≡◌, ◌≤◌,
}
use mathlib.Core.Path.{subst}
use omarchy_sync.Crypto.{Crypto}

pub record Passed (k : Crypto) (v : DiscoveryVerifier) (bs : Bytes) (now : ℕ)
    (a : DiscoveryAnnouncement) : Type 0 where
  pub decoded : Decode.from_bytes bs ≡ ok a
  pub version : a.protocol_version ≡ 3
  pub certified : Certificate.verify k a.certificate v.root now ≡ ok tt
  pub not_ahead : a.timestamp ≤ saturating_add now v.max_future
  pub not_stale : now - a.timestamp ≤ v.max_age
  pub key_good : k.key_ok a.certificate.public_key ≡ true
  pub message : Bytes
  pub signs : signing_bytes a ≡ ok message
  pub signed : k.verify_strict a.certificate.public_key message a.signature ≡ true

module _ (k : Crypto) (v : DiscoveryVerifier) (bs : Bytes) (now : ℕ) where
  pub check-Passed : (a : DiscoveryAnnouncement) → check k v bs now ≡ ok a → Passed k v bs now a
  unfolding check
  check-Passed a h =
      let (a', p, h1) = >>=-eq-ok (Decode.from_bytes bs) _ h in
      let (q, h2) = bail_if-eq-ok (not (a'.protocol_version == protocol_v3)) _ _ h1 in
      let (r, h3) = >>-eq-ok (Certificate.verify k a'.certificate v.root now) _ h2 in
      let (s, h4) = bail_if-eq-ok (ltb (saturating_add now v.max_future) a'.timestamp) _ _ h3 in
      let (t, h5) = bail_if-eq-ok (ltb v.max_age (now - a'.timestamp)) _ _ h4 in
      let (u, h6) = bail_if-eq-ok (not (k.key_ok a'.certificate.public_key)) _ _ h5 in
      let (m, w, h7) = >>=-eq-ok (signing_bytes a') _ h6 in
      let (x, h8) =
        bail_if-eq-ok (not (k.verify_strict a'.certificate.public_key m a'.signature)) _ _ h7 in
      subst (λ (a : DiscoveryAnnouncement). Passed k v bs now a) (ok_inj h8)
        (record {
          decoded = p;
          version = version_is a'.protocol_version q;
          certified = r;
          not_ahead = ltb→le _ a'.timestamp s;
          not_stale = ltb→le v.max_age _ t;
          key_good = not-eq-false u;
          message = m;
          signs = w;
          signed = not-eq-false x;
        })
    where
      version_is : (n : ℕ) → not (n == protocol_v3) ≡ false → n ≡ 3
      version_is n h = ground arith

  pub Passed-check : (a : DiscoveryAnnouncement) → Passed k v bs now a → check k v bs now ≡ ok a
  unfolding check
  Passed-check a p = rw (
    p.decoded,
    (==_iff a.protocol_version 3).1 p.version,
    p.certified,
    le→ltb _ a.timestamp p.not_ahead,
    le→ltb v.max_age _ p.not_stale,
    p.key_good,
    p.signs,
    p.signed,
  )
