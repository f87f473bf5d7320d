-- ===== src/Session.antt =====
-- `AuthenticatedPairingSession` and `PairedIdentityContext` of pairing.rs: what the record layer
-- reads of a session, and the identity pins of an earlier pairing.
use omarchy_sync.Identity
use omarchy_sync.Base.{
  ==_iff, Bool, Bytes, Result, and-eq-true, bail_if, context_fields_differ, eq_bytes, eq_bytes→eq,
  err, if◌then◌else◌, not, not_participant, ok, true, ℕ, ◌&&◌, ◌==◌, ◌≡◌, ◌>>◌, ◌||◌,
}
use omarchy_sync.Identity.{DeviceIdentity, device_id, public_key}
use omarchy_sync.Certificate.{DeviceCertificate}
use omarchy_sync.Crypto.{Crypto}

abbrev pub role_initiator : ℕ
role_initiator = 1

abbrev pub role_responder : ℕ
role_responder = 2

-- The Noise transport of the session is not part of this record.
pub record AuthenticatedPairingSession : Type 0 where
  pub pair_id : Bytes
  pub local_device_id : Bytes
  pub peer_device_id : Bytes
  pub local_certificate : DeviceCertificate
  pub peer_certificate : DeviceCertificate
  pub session_binding : Bytes
  pub peer_public_key : Bytes
  pub local_role : ℕ

unfoldable pub is_initiator : AuthenticatedPairingSession → Bool
is_initiator s = s.local_role == role_initiator

-- Derived equality of certificates.
unfoldable pub eq_certificate : DeviceCertificate → DeviceCertificate → Bool
eq_certificate a b =
    eq_bytes a.device_id b.device_id
    && eq_bytes a.public_key b.public_key
    && eq_bytes a.device_name b.device_name
    && a.not_before == b.not_before
    && a.not_after == b.not_after
    && eq_bytes a.issuer_key_id b.issuer_key_id
    && eq_bytes a.signature b.signature

pub eq_certificate→eq : (a b : DeviceCertificate) → eq_certificate a b ≡ true → a ≡ b
unfolding eq_certificate
eq_certificate→eq a b h =
    let (h1, signature) = and-eq-true _ (eq_bytes a.signature b.signature) h in
    let (h2, issuer) = and-eq-true _ (eq_bytes a.issuer_key_id b.issuer_key_id) h1 in
    let (h3, after) = and-eq-true _ (a.not_after == b.not_after) h2 in
    let (h4, before) = and-eq-true _ (a.not_before == b.not_before) h3 in
    let (h5, name) = and-eq-true _ (eq_bytes a.device_name b.device_name) h4 in
    let (id, key) =
      and-eq-true (eq_bytes a.device_id b.device_id) (eq_bytes a.public_key b.public_key) h5 in
    λ i. record {
      device_id = eq_bytes→eq _ _ id i;
      public_key = eq_bytes→eq _ _ key i;
      device_name = eq_bytes→eq _ _ name i;
      not_before = (==_iff a.not_before b.not_before).0 before i;
      not_after = (==_iff a.not_after b.not_after).0 after i;
      issuer_key_id = eq_bytes→eq _ _ issuer i;
      signature = eq_bytes→eq _ _ signature i;
    }

pub record PairedIdentityContext : Type 0 where
  pub pair_id : Bytes
  pub initiator_device_id : Bytes
  pub responder_device_id : Bytes
  pub initiator_public_key : Bytes
  pub responder_public_key : Bytes
  pub initiator_certificate : DeviceCertificate
  pub responder_certificate : DeviceCertificate

unfoldable pub from_validated_record :
    Bytes
    → Bytes
    → Bytes
    → Bytes
    → Bytes
    → DeviceCertificate
    → DeviceCertificate
    → Result PairedIdentityContext
from_validated_record id i_id r_id i_key r_key i_cert r_cert = do
  bail_if
      (eq_bytes i_id r_id
        || not (eq_bytes i_cert.device_id i_id)
        || not (eq_bytes r_cert.device_id r_id)
        || not (eq_bytes i_cert.public_key i_key)
        || not (eq_bytes r_cert.public_key r_key))
      context_fields_differ
  ok (record {
    pair_id = id;
    initiator_device_id = i_id;
    responder_device_id = r_id;
    initiator_public_key = i_key;
    responder_public_key = r_key;
    initiator_certificate = i_cert;
    responder_certificate = r_cert;
  })

unfoldable pub role_for : Crypto → PairedIdentityContext → DeviceIdentity → Result ℕ
role_for k c identity =
    if eq_bytes (Identity.device_id k identity) c.initiator_device_id
      && eq_bytes (Identity.public_key k identity) c.initiator_public_key
    then ok role_initiator
    else if eq_bytes (Identity.device_id k identity) c.responder_device_id
        && eq_bytes (Identity.public_key k identity) c.responder_public_key
    then ok role_responder
    else err not_participant

unfoldable pub local_certificate : PairedIdentityContext → ℕ → DeviceCertificate
local_certificate c role =
    if role == role_initiator then c.initiator_certificate else c.responder_certificate

unfoldable pub peer_device_id : PairedIdentityContext → ℕ → Bytes
peer_device_id c role =
    if role == role_initiator then c.responder_device_id else c.initiator_device_id

unfoldable pub identity_for_role : PairedIdentityContext → ℕ → Bytes × Bytes × DeviceCertificate
identity_for_role c role =
    if role == role_initiator
    then (c.initiator_device_id, c.initiator_public_key, c.initiator_certificate)
    else (c.responder_device_id, c.responder_public_key, c.responder_certificate)
