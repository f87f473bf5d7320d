-- ===== src/Certificate/Verify/Issue.antt =====
-- Certificates that `issue` of protocol_v3.rs returns.
use omarchy_sync.Certificate.Verify.{issue, unsigned, validate_fields, verify}
use omarchy_sync.Certificate.{DeviceCertificate, payload, signing_bytes, validate_shape}
use omarchy_sync.Base.{
  >>-elim, >>=-elim, Bytes, ap, bail_if-passed, eq_bytes→eq, join, not-eq-false, ok, ok_inj, refl,
  sym, zeros, ℕ, ◌<◌, ◌∙◌, ◌≡◌, ◌≤◌,
}
use mathlib.Core.Path.{subst}
use omarchy_sync.Crypto.{Crypto, CryptoLaws}
use omarchy_sync.Cursor.{field}
use omarchy_sync.Certificate.RoundTrip.{HasShape, signing_bytes-HasShape, validate_shape-eq-ok}
use omarchy_sync.Certificate.Verify.Sound.{IsVerified-verify}

module _ (k : Crypto) (l : CryptoLaws k) where
  -- If the primitives meet their laws, a certificate that `issue` returns is verified against a root
  -- with the issuer's key and the certificate's issuer id, at every moment of its validity window.
  pub verify-issue :
      (issuer_key id key name : Bytes) (before after now : ℕ) (issuer : Bytes)
      (cert : DeviceCertificate)
      → issue k issuer_key id key name before after issuer ≡ ok cert
      → before ≤ now
      → now < after
      → verify k cert (record { public_key = k.public_of issuer_key; key_id = issuer }) now ≡ ok tt
  unfolding issue unsigned validate_fields
  verify-issue issuer_key id key name before after now issuer cert h from until =
      let draft : DeviceCertificate = record {
        device_id = id;
        public_key = key;
        device_name = name;
        not_before = before;
        not_after = after;
        issuer_key_id = issuer;
        signature = zeros 64;
      } in
      >>=-elim (unsigned k id key name before after issuer) _ h λ c u h1.
        >>-elim (validate_fields k draft) _ u λ fields u1.
          >>-elim (validate_shape draft) _ fields λ shape fields1.
            let s : HasShape draft = validate_shape-eq-ok draft shape in
            let drafted : draft ≡ c = ok_inj u1 in
            >>=-elim (signing_bytes c) _ h1 λ m w h2.
              let message : m ≡ join (payload draft (field name) (field issuer)) =
                cc (w, ap (λ x. signing_bytes x) drafted, signing_bytes-HasShape draft s) in
              let signed : record draft { signature = k.sign issuer_key m } ≡ cert =
                ap (λ (x : DeviceCertificate). record x { signature = k.sign issuer_key m }) drafted
                ∙ ok_inj h2 in
              subst
                (λ x.
                  verify k x (record { public_key = k.public_of issuer_key; key_id = issuer }) now
                  ≡ ok tt)
                signed
                (IsVerified-verify k (record draft { signature = k.sign issuer_key m }) _ now
                  (record {
                    root_good = l.key_ok-public_of issuer_key;
                    shape = record {
                      id_good = s.id_good;
                      name_there = s.name_there;
                      name_short = s.name_short;
                      window = s.window;
                      issuer_good = s.issuer_good;
                    };
                    signed = rw (sym message) (l.verify-sign issuer_key m);
                    pinned = refl;
                    bound = eq_bytes→eq id _ (not-eq-false (bail_if-passed _ _ fields1));
                    started = from;
                    running = until;
                  }))
