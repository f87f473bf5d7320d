-- ===== src/Store/Draft.antt =====
-- The local authorization, and `record_from_session` of trust.rs.
use omarchy_sync.Identity
use omarchy_sync.Certificate
use omarchy_sync.Record.{PairingRecord, domain_v3}
use omarchy_sync.Session.{AuthenticatedPairingSession, is_initiator}
use omarchy_sync.Base.{Bytes, Error, Result, err, if◌then◌else◌, none, ok, ◌>>=◌}
use omarchy_sync.Identity.{DeviceIdentity, device_id, public_key}
use omarchy_sync.Certificate.{DeviceCertificate}
use omarchy_sync.Crypto.{Crypto}
use omarchy_sync.Discovery.{protocol_v3}

pub record AuthorizationGrant : Type 0 where
  pub user_presence : Bytes

-- `AuthorizationBroker::authorize`: the local policy, which the repository leaves open.
abbrev pub AuthorizationBroker : Type 0
AuthorizationBroker = DeviceCertificate → Result AuthorizationGrant

-- `.context("local pairing authorization denied")`
abbrev pub denied_as {ℓ} : {A : Type ℓ} → Result A → Error → Result A
denied_as (ok a) e = ok a
denied_as (err x) e = err e

module _ (k : Crypto) where
  -- `record_from_session(session, pair_id, grant, identity)`
  unfoldable pub record_from_session :
      AuthenticatedPairingSession
      → Bytes
      → AuthorizationGrant
      → DeviceIdentity
      → Result PairingRecord
  record_from_session session id grant identity = do
    let initiator =
        if is_initiator session then session.local_certificate else session.peer_certificate
    let responder =
        if is_initiator session then session.peer_certificate else session.local_certificate
    i_cert ← Certificate.to_bytes initiator
    r_cert ← Certificate.to_bytes responder
    ok (record {
      protocol_version = protocol_v3;
      domain = domain_v3;
      pair_id = id;
      initiator_device_id = initiator.device_id;
      responder_device_id = responder.device_id;
      initiator_public_key = initiator.public_key;
      responder_public_key = responder.public_key;
      initiator_certificate = i_cert;
      responder_certificate = r_cert;
      session_binding = session.session_binding;
      authorizing_device_id = Identity.device_id k identity;
      user_presence = grant.user_presence;
      authorized_at = 0;
      initiator_signature = none;
      responder_signature = none;
    })
