-- ===== src/Store.antt =====
-- `PairingStore` of trust.rs: the validation of records, fresh and stored.
use omarchy_sync.Identity
use omarchy_sync.Certificate.Decode as Certificate
use omarchy_sync.Certificate.Verify as CertificateCheck
pub mod Life
pub mod Disk
pub mod Action
pub mod Write
pub mod Lookup
pub mod Draft
pub mod Operations
pub mod Valid
pub mod Keeps
pub mod Facts
pub mod Activation
pub mod Revocation
pub mod Pending
pub mod Load
pub mod Active
pub mod Trust
use omarchy_sync.Record.{
  PairingRecord, bad_presence, domain_v3, from_bytes, is_complete, is_some, validate_device_id,
  validate_shape, verify_record_signature,
}
use omarchy_sync.Session.{
  AuthenticatedPairingSession, is_initiator, local_certificate, role_initiator, role_responder,
}
use omarchy_sync.Base.{
  Bool, Bytes, Option, Result, bail_if, domain_mismatch, eq_bytes, err, foreign_authorizer,
  foreign_identity, identity_fields_differ, if◌then◌else◌, invalid_authorized_at, invalid_presence,
  invalid_state, none, not, not_bilateral, ok, other_session, same_device, session_keys_differ,
  some, ℕ, ◌&&◌, ◌==◌, ◌>>=◌, ◌>>◌, ◌||◌,
}
use omarchy_sync.Identity.{DeviceIdentity, device_id, public_key}
use omarchy_sync.Certificate.{DeviceCertificate}
use omarchy_sync.Crypto.{Crypto}
use omarchy_sync.Root.{PinnedOmarchyRoot}
use omarchy_sync.Discovery.{protocol_v3}
use omarchy_sync.Certificate.Verify.{verify}

-- The two values that a store holds beside its directories.
pub record PairingStore : Type 0 where
  pub root : PinnedOmarchyRoot
  pub now : ℕ

abbrev pub certificates_differ : PairingRecord → DeviceCertificate → DeviceCertificate → Bool
certificates_differ r i c =
    not (eq_bytes i.device_id r.initiator_device_id)
    || not (eq_bytes i.public_key r.initiator_public_key)
    || not (eq_bytes c.device_id r.responder_device_id)
    || not (eq_bytes c.public_key r.responder_public_key)

-- `if let Some(signature) = … { verify_record_signature(…)? }`
abbrev pub verify_if_signed : Crypto → PairingRecord → ℕ → Option Bytes → Result (Unit {0})
verify_if_signed k r role none = ok tt
verify_if_signed k r role (some sig) = verify_record_signature k r role sig

-- `verify_record_signature(record, role, signature.as_ref().unwrap())`, where the record is complete.
abbrev pub verify_signed : Crypto → PairingRecord → ℕ → Option Bytes → Result (Unit {0})
verify_signed k r role none = err invalid_state
verify_signed k r role (some sig) = verify_record_signature k r role sig

unfoldable pub validate_session_identity :
    Crypto → AuthenticatedPairingSession → DeviceIdentity → Result (Unit {0})
validate_session_identity k session identity =
    bail_if
      (not (eq_bytes (Identity.device_id k identity) session.local_device_id)
        || not (eq_bytes (Identity.public_key k identity) session.local_certificate.public_key))
      foreign_identity

unfoldable pub local_role : AuthenticatedPairingSession → ℕ
unfolding is_initiator
local_role session = if is_initiator session then role_initiator else role_responder

abbrev pub bound_elsewhere : PairingRecord → AuthenticatedPairingSession → Bool → Bool
bound_elsewhere r session bind_session =
    bind_session && not (eq_bytes session.session_binding r.session_binding)
    || not (
        eq_bytes session.local_certificate.device_id
          (if is_initiator session then r.initiator_device_id else r.responder_device_id))
    || not (
        eq_bytes session.peer_certificate.device_id
          (if is_initiator session then r.responder_device_id else r.initiator_device_id))

abbrev pub keys_elsewhere : PairingRecord → AuthenticatedPairingSession → Bool
keys_elsewhere r session =
    not (
      eq_bytes session.local_certificate.public_key
        (if is_initiator session then r.initiator_public_key else r.responder_public_key))
    || not (
        eq_bytes session.peer_certificate.public_key
          (if is_initiator session then r.responder_public_key else r.initiator_public_key))

module _ (k : Crypto) (store : PairingStore) where
  -- `validate_record(record, session, identity, require_complete, bind_session, stored_certificate_time)`
  unfoldable pub validate_record :
      PairingRecord
      → AuthenticatedPairingSession
      → DeviceIdentity
      → Bool
      → Bool
      → Bool
      → Result (Unit {0})
  validate_record r session identity require_complete bind_session stored_time = do
    validate_shape r
    bail_if (not (r.protocol_version == protocol_v3) || not (eq_bytes r.domain domain_v3))
        domain_mismatch
    bail_if (require_complete && not (is_complete r)) not_bilateral
    initiator ← Certificate.from_bytes r.initiator_certificate
    responder ← Certificate.from_bytes r.responder_certificate
    let time = if stored_time then r.authorized_at else store.now
    CertificateCheck.verify k initiator store.root time
    CertificateCheck.verify k responder store.root time
    bail_if (certificates_differ r initiator responder) identity_fields_differ
    bail_if (eq_bytes r.initiator_device_id r.responder_device_id) same_device
    bail_if (bound_elsewhere r session bind_session) other_session
    bail_if (keys_elsewhere r session) session_keys_differ
    validate_device_id r.authorizing_device_id
    bail_if
        (not (eq_bytes r.authorizing_device_id r.initiator_device_id)
          && not (eq_bytes r.authorizing_device_id r.responder_device_id))
        foreign_authorizer
    bail_if (bad_presence r.user_presence) invalid_presence
    bail_if (r.authorized_at == 0) invalid_authorized_at
    bail_if (not (eq_bytes (Identity.device_id k identity) session.local_device_id))
        foreign_identity
    verify_if_signed k r role_initiator r.initiator_signature
    verify_if_signed k r role_responder r.responder_signature

  unfoldable pub validate_stored : PairingRecord → Result (Unit {0})
  validate_stored r = do
    validate_shape r
    bail_if (not (r.protocol_version == protocol_v3) || not (eq_bytes r.domain domain_v3))
        domain_mismatch
    bail_if (not (is_complete r)) not_bilateral
    initiator ← Certificate.from_bytes r.initiator_certificate
    responder ← Certificate.from_bytes r.responder_certificate
    CertificateCheck.verify k initiator store.root r.authorized_at
    CertificateCheck.verify k responder store.root r.authorized_at
    bail_if
        (certificates_differ r initiator responder
          || eq_bytes r.initiator_device_id r.responder_device_id)
        identity_fields_differ
    verify_signed k r role_initiator r.initiator_signature
    verify_signed k r role_responder r.responder_signature

  unfoldable pub validate_pending_stored : PairingRecord → Result (Unit {0})
  validate_pending_stored r = do
    validate_shape r
    bail_if (not (r.protocol_version == protocol_v3) || not (eq_bytes r.domain domain_v3))
        domain_mismatch
    initiator ← Certificate.from_bytes r.initiator_certificate
    responder ← Certificate.from_bytes r.responder_certificate
    CertificateCheck.verify k initiator store.root r.authorized_at
    CertificateCheck.verify k responder store.root r.authorized_at
    bail_if
        (certificates_differ r initiator responder
          || eq_bytes r.initiator_device_id r.responder_device_id
          || not (is_some r.initiator_signature) && not (is_some r.responder_signature))
        identity_fields_differ
    verify_if_signed k r role_initiator r.initiator_signature
    verify_if_signed k r role_responder r.responder_signature
