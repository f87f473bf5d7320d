-- ===== src/Store/Operations.antt =====
-- The operations of `PairingStore` that change the directories.
use omarchy_sync.Identity
use omarchy_sync.Record.{
  PairingRecord, Serde, bad_presence, is_complete, is_some, set_signature, sign_record,
  signature_for,
}
use omarchy_sync.Session.{AuthenticatedPairingSession}
use omarchy_sync.Store.Action.{Action, lift, reading, ◌>>=◌, ◌>>◌}
use omarchy_sync.Store.Disk.{Node, exists, find, path_of, read_record, remove}
use omarchy_sync.Store.Write.{persist_active, write_pending}
use omarchy_sync.Store.{
  PairingStore, local_role, validate_pending_stored, validate_record, validate_session_identity,
  validate_stored,
}
use omarchy_sync.Base.{
  Bytes, Option, already_complete, already_revoked, already_signed, authorization_denied, bail_if,
  context, eq_bytes, err, false, foreign_authorizer, invalid_presence, missing_record, none, not,
  ok, some, true, ◌∷◌,
}
use omarchy_sync.Identity.{DeviceIdentity, device_id}
use omarchy_sync.Crypto.{Crypto}
use omarchy_sync.Store.Draft.{
  AuthorizationBroker, AuthorizationGrant, denied_as, record_from_session,
}
use omarchy_sync.Certificate.Verify.{unsigned}

-- The rename of `revoke`, from the active to the revoked directory.
abbrev pub move_to_revoked : Bytes → Option Node → Action (Unit {0})
move_to_revoked path none d = (d, err missing_record)
move_to_revoked path (some node) d =
    (record d { active = remove path d.active; revoked = (path, node) ∷ d.revoked }, ok tt)

module _ (k : Crypto) (s : Serde) (store : PairingStore) where
  -- The tail of `prepare` and `resume_prepare`: sign, validate, write.
  unfoldable pub sign_and_write :
      AuthenticatedPairingSession → DeviceIdentity → PairingRecord → Action PairingRecord
  sign_and_write session identity unsigned = do
    sig ← lift (sign_record k identity unsigned (local_role session))
    let r = set_signature unsigned (local_role session) sig
    lift (validate_record k store r session identity false true false)
    write_pending s r
    lift (ok r)

  unfoldable pub prepare :
      AuthenticatedPairingSession → DeviceIdentity → AuthorizationBroker → Action PairingRecord
  unfolding sign_and_write record_from_session
  prepare session identity broker = do
    lift (validate_session_identity k session identity)
    grant ← lift (denied_as (broker session.peer_certificate) authorization_denied)
    lift (bail_if (bad_presence grant.user_presence) invalid_presence)
    r ← lift (record_from_session k session session.pair_id grant identity)
    sign_and_write session identity (record r { authorized_at = store.now })

  unfoldable pub co_sign :
      AuthenticatedPairingSession → DeviceIdentity → PairingRecord → Action PairingRecord
  co_sign session identity pending = do
    lift (validate_session_identity k session identity)
    lift (bail_if (is_complete pending) already_complete)
    lift (validate_record k store pending session identity false true false)
    let role = local_role session
    lift (bail_if (is_some (signature_for pending role)) already_signed)
    sig ← lift (sign_record k identity pending role)
    let complete = set_signature pending role sig
    lift (validate_record k store complete session identity true true false)
    write_pending s complete
    lift (ok complete)

  unfoldable pub resume_prepare :
      AuthenticatedPairingSession → DeviceIdentity → PairingRecord → Action PairingRecord
  unfolding sign_and_write record_from_session
  resume_prepare session identity pending = do
    lift (validate_session_identity k session identity)
    lift (validate_pending_stored k store pending)
    lift (
        bail_if (not (eq_bytes pending.authorizing_device_id (Identity.device_id k identity)))
          foreign_authorizer)
    let grant : AuthorizationGrant = record { user_presence = pending.user_presence }
    r ← lift (record_from_session k session session.pair_id grant identity)
    sign_and_write session identity (record r { authorized_at = pending.authorized_at })

  unfoldable pub finalize :
      AuthenticatedPairingSession → DeviceIdentity → PairingRecord → Action (Unit {0})
  finalize session identity r = do
    lift (validate_session_identity k session identity)
    lift (validate_record k store r session identity true true false)
    persist_active s r

  unfoldable pub reconcile :
      AuthenticatedPairingSession → DeviceIdentity → PairingRecord → Action (Unit {0})
  reconcile session identity r = do
    lift (validate_session_identity k session identity)
    lift (validate_record k store r session identity true false true)
    persist_active s r

  unfoldable pub revoke : Bytes → Action (Unit {0})
  revoke id = do
    path ← lift (path_of id)
    found ← reading (λ d. read_record s path d.active)
    r ← lift (context found missing_record)
    lift (validate_stored k store r)
    reading (λ d. bail_if (exists path d.revoked) already_revoked)
    λ d. move_to_revoked path (find path d.active) d
