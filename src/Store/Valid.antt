-- ===== src/Store/Valid.antt =====
-- What a record that passes `validate_record` or `validate_stored` has.
use omarchy_sync.Certificate.Decode as Certificate
use omarchy_sync.Certificate.Verify as CertificateCheck
use omarchy_sync.Identity
use omarchy_sync.Record.{
  PairingRecord, bad_presence, domain_v3, is_complete, is_some, signing_bytes, validate_device_id,
  validate_shape, verify_record_signature,
}
use omarchy_sync.Session.{AuthenticatedPairingSession, role_initiator, role_responder}
use omarchy_sync.Store.{
  PairingStore, bound_elsewhere, certificates_differ, keys_elsewhere, validate_record,
  validate_stored, verify_if_signed, verify_signed,
}
use omarchy_sync.Base.{
  >>-elim, >>=-elim, >>=-eq-ok, bail_if-eq-ok, bail_if-passed, length, refl, [], ◌++◌, ◌∷◌, Bool,
  Bytes, Option, and-eq-true, bail_if-elim, eq_bytes, false, if◌then◌else◌, none, not, not-eq-false,
  ok, or-eq-false, some, true, ℕ, ◌&&◌, ◌==◌, ◌||◌, ◌≡◌,
}
use omarchy_sync.Identity.{DeviceIdentity, device_id}
use omarchy_sync.Certificate.{DeviceCertificate}
use omarchy_sync.Crypto.{Crypto}
use omarchy_sync.Discovery.{protocol_v3}
use omarchy_sync.Certificate.Verify.{verify}

-- A signature that is there and verifies under a key, over the canonical bytes with the role behind
-- them.
pub record IsVerifiedUnder (k : Crypto) (r : PairingRecord) (role : ℕ) (key : Bytes)
    (o : Option Bytes) : Type 0 where
  pub sig : Bytes
  pub present : o ≡ some sig
  pub message : Bytes
  pub canonical : signing_bytes r ≡ ok message
  pub verified : k.verify_strict key (message ++ (role ∷ [])) sig ≡ true

-- Both devices signed the record.
pub record IsBilateral (k : Crypto) (r : PairingRecord) : Type 0 where
  pub by_initiator : IsVerifiedUnder k r role_initiator r.initiator_public_key r.initiator_signature
  pub by_responder : IsVerifiedUnder k r role_responder r.responder_public_key r.responder_signature
  pub complete : is_complete r ≡ true
  pub initiator_signed : verify_signed k r role_initiator r.initiator_signature ≡ ok tt
  pub responder_signed : verify_signed k r role_responder r.responder_signature ≡ ok tt

verify_signed_if :
    (k : Crypto) (r : PairingRecord) (role : ℕ) (o : Option Bytes)
    → is_some o ≡ true
    → verify_if_signed k r role o ≡ ok tt
    → verify_signed k r role o ≡ ok tt
verify_signed_if k r role none c h = cc
verify_signed_if k r role (some sig) c h = h

verify_signed_initiator :
    (k : Crypto) (r : PairingRecord) (o : Option Bytes)
    → verify_signed k r role_initiator o ≡ ok tt
    → IsVerifiedUnder k r role_initiator r.initiator_public_key o
unfolding verify_record_signature
verify_signed_initiator k r none h = cc
verify_signed_initiator k r (some sig) h =
    let (_, h1) = bail_if-eq-ok (not (length sig == 64)) _ _ h in
    let (message, canonical, h2) = >>=-eq-ok (signing_bytes r) _ h1 in
    let (_, h3) = bail_if-eq-ok (not (k.key_ok r.initiator_public_key)) _ _ h2 in
    record {
      sig = sig;
      present = refl;
      message = message;
      canonical = canonical;
      verified = not-eq-false (bail_if-passed _ _ h3);
    }

verify_signed_responder :
    (k : Crypto) (r : PairingRecord) (o : Option Bytes)
    → verify_signed k r role_responder o ≡ ok tt
    → IsVerifiedUnder k r role_responder r.responder_public_key o
unfolding verify_record_signature
verify_signed_responder k r none h = cc
verify_signed_responder k r (some sig) h =
    let (_, h1) = bail_if-eq-ok (not (length sig == 64)) _ _ h in
    let (message, canonical, h2) = >>=-eq-ok (signing_bytes r) _ h1 in
    let (_, h3) = bail_if-eq-ok (not (k.key_ok r.responder_public_key)) _ _ h2 in
    record {
      sig = sig;
      present = refl;
      message = message;
      canonical = canonical;
      verified = not-eq-false (bail_if-passed _ _ h3);
    }

pub record IsValidRecord (k : Crypto) (store : PairingStore) (r : PairingRecord) (time : ℕ)
    : Type 0 where
  pub shape : validate_shape r ≡ ok tt
  pub version : (r.protocol_version == protocol_v3) ≡ true
  pub domain_is : eq_bytes r.domain domain_v3 ≡ true
  pub initiator : DeviceCertificate
  pub responder : DeviceCertificate
  pub initiator_parsed : Certificate.from_bytes r.initiator_certificate ≡ ok initiator
  pub responder_parsed : Certificate.from_bytes r.responder_certificate ≡ ok responder
  pub initiator_verified : CertificateCheck.verify k initiator store.root time ≡ ok tt
  pub responder_verified : CertificateCheck.verify k responder store.root time ≡ ok tt
  pub fields_agree : certificates_differ r initiator responder ≡ false
  pub devices_differ : eq_bytes r.initiator_device_id r.responder_device_id ≡ false
  pub initiator_signed : verify_if_signed k r role_initiator r.initiator_signature ≡ ok tt
  pub responder_signed : verify_if_signed k r role_responder r.responder_signature ≡ ok tt

module _ (k : Crypto) (store : PairingStore) (r : PairingRecord) where
  pub validate_record-eq-ok :
      (session : AuthenticatedPairingSession) (identity : DeviceIdentity)
      (complete bind stored : Bool)
      → validate_record k store r session identity complete bind stored ≡ ok tt
      → IsValidRecord k store r (if stored then r.authorized_at else store.now)
        × ((complete && not (is_complete r)) ≡ false)
  unfolding validate_record
  validate_record-eq-ok session identity complete bind stored h =
      >>-elim (validate_shape r) _ h λ shape h1.
        bail_if-elim (not (r.protocol_version == protocol_v3) || not (eq_bytes r.domain domain_v3))
          _ _ h1
          λ v h2. bail_if-elim (complete && not (is_complete r)) _ _ h2 λ c h3.
            >>=-elim (Certificate.from_bytes r.initiator_certificate) _ h3 λ i pi h4.
              >>=-elim (Certificate.from_bytes r.responder_certificate) _ h4 λ x px h5.
                >>-elim
                  (CertificateCheck.verify k i store.root
                    (if stored then r.authorized_at else store.now))
                  _ h5
                  λ vi h6.
                    >>-elim
                      (CertificateCheck.verify k x store.root
                        (if stored then r.authorized_at else store.now))
                      _ h6
                      λ vx h7. bail_if-elim (certificates_differ r i x) _ _ h7 λ agree h8.
                        bail_if-elim (eq_bytes r.initiator_device_id r.responder_device_id) _ _ h8
                          λ differ h9. bail_if-elim (bound_elsewhere r session bind) _ _ h9 λ _ h10.
                            bail_if-elim (keys_elsewhere r session) _ _ h10 λ _ h11.
                              >>-elim (validate_device_id r.authorizing_device_id) _ h11 λ _ h12.
                                bail_if-elim
                                  (not (eq_bytes r.authorizing_device_id r.initiator_device_id)
                                    && not (eq_bytes r.authorizing_device_id r.responder_device_id))
                                  _ _ h12
                                  λ _ h13.
                                    bail_if-elim (bad_presence r.user_presence) _ _ h13 λ _ h14.
                                      bail_if-elim (r.authorized_at == 0) _ _ h14 λ _ h15.
                                        bail_if-elim
                                          (not (
                                            eq_bytes (Identity.device_id k identity)
                                              session.local_device_id))
                                          _ _ h15
                                          λ _ h16.
                                            >>-elim
                                              (verify_if_signed k r role_initiator
                                                r.initiator_signature)
                                              _ h16
                                              λ si sx. (
                                                record {
                                                  shape = shape;
                                                  version =
                                                      not-eq-false
                                                        (or-eq-false
                                                          (not (r.protocol_version == protocol_v3))
                                                          _ v).0;
                                                  domain_is =
                                                      not-eq-false
                                                        (or-eq-false
                                                          (not (r.protocol_version == protocol_v3))
                                                          _ v).1;
                                                  initiator = i;
                                                  responder = x;
                                                  initiator_parsed = pi;
                                                  responder_parsed = px;
                                                  initiator_verified = vi;
                                                  responder_verified = vx;
                                                  fields_agree = agree;
                                                  devices_differ = differ;
                                                  initiator_signed = si;
                                                  responder_signed = sx;
                                                },
                                                c,
                                              )

  -- A valid record that is complete has two signatures that verify.
  pub valid-IsBilateral :
      {time : ℕ} → IsValidRecord k store r time → is_complete r ≡ true → IsBilateral k r
  unfolding is_complete
  valid-IsBilateral v c =
      let (a, b) = and-eq-true (is_some r.initiator_signature) _ c in
      let initiator_signed =
        verify_signed_if k r role_initiator r.initiator_signature a v.initiator_signed in
      let responder_signed =
        verify_signed_if k r role_responder r.responder_signature b v.responder_signed in
      record {
        by_initiator = verify_signed_initiator k r r.initiator_signature initiator_signed;
        by_responder = verify_signed_responder k r r.responder_signature responder_signed;
        complete = c;
        initiator_signed = initiator_signed;
        responder_signed = responder_signed;
      }

  -- A complete record that is valid at its own authorization time is accepted as a stored one.
  pub valid-validate_stored :
      IsValidRecord k store r r.authorized_at
      → is_complete r ≡ true
      → validate_stored k store r ≡ ok tt
  unfolding validate_stored
  valid-validate_stored v c =
      let b = valid-IsBilateral v c in
      rw (
        v.shape, v.version, v.domain_is, c, v.initiator_parsed, v.responder_parsed,
        v.initiator_verified, v.responder_verified, v.fields_agree, v.devices_differ,
        b.initiator_signed, b.responder_signed,
      )
