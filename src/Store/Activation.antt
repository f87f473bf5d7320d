-- ===== src/Store/Activation.antt =====
-- What the active directory holds: complete records that both devices signed, and nothing revoked.
use omarchy_sync.Store.Operations
use omarchy_sync.Record.{PairingRecord, Serde}
use omarchy_sync.Store.Action.{lift}
use omarchy_sync.Store.Disk.{Dir, Disk, Node, find, remove}
use omarchy_sync.Store.Keeps.{
  Keeps, Keeps-bind, Keeps-bind_lift, Keeps-lift, Keeps-reading, write_pending-Keeps,
}
use omarchy_sync.Store.Facts.{Grows, persist_active-Keeps}
use omarchy_sync.Store.Operations.{move_to_revoked, sign_and_write}
use omarchy_sync.Store.{PairingStore, validate_record, validate_session_identity}
use omarchy_sync.Base.{
  Bool, Bytes, List, Option, [], false, none, not-eq-false, ok, refl, some, true, ◌∷◌, ◌≡◌,
}
use omarchy_sync.Identity.{DeviceIdentity}
use omarchy_sync.Crypto.{Crypto}
use omarchy_sync.Session.{AuthenticatedPairingSession}
use omarchy_sync.Store.Draft.{AuthorizationBroker}
use omarchy_sync.Store.Valid.{IsBilateral, valid-IsBilateral, validate_record-eq-ok}

-- An operation of the store, with its arguments; `now` may differ from call to call.
pub data Operation : Type 0 where
  prepare :
      PairingStore → AuthenticatedPairingSession → DeviceIdentity → AuthorizationBroker → Operation
  co_sign : PairingStore → AuthenticatedPairingSession → DeviceIdentity → PairingRecord → Operation
  resume_prepare :
      PairingStore → AuthenticatedPairingSession → DeviceIdentity → PairingRecord → Operation
  finalize : PairingStore → AuthenticatedPairingSession → DeviceIdentity → PairingRecord → Operation
  reconcile :
      PairingStore → AuthenticatedPairingSession → DeviceIdentity → PairingRecord → Operation
  revoke : PairingStore → Bytes → Operation

module _ (k : Crypto) (s : Serde) where
  -- The disk that a call leaves, whether it succeeds or fails.
  unfoldable pub apply : Operation → Disk → Disk
  apply (prepare store session identity broker) d =
      (Operations.prepare k s store session identity broker d).0
  apply (co_sign store session identity r) d = (Operations.co_sign k s store session identity r d).0
  apply (resume_prepare store session identity r) d =
      (Operations.resume_prepare k s store session identity r d).0
  apply (finalize store session identity r) d =
      (Operations.finalize k s store session identity r d).0
  apply (reconcile store session identity r) d =
      (Operations.reconcile k s store session identity r d).0
  apply (revoke store id) d = (Operations.revoke k s store id d).0

  unfoldable pub apply_all : List Operation → Disk → Disk
  apply_all [] d = d
  apply_all (op ∷ ops) d = apply_all ops (apply op d)

  module _ {Q : Dir → Dir → Type 0} (store : PairingStore) (session : AuthenticatedPairingSession)
      (identity : DeviceIdentity) where
    sign_and_write-Keeps :
        (r : PairingRecord) → Keeps Q (Operations.sign_and_write k s store session identity r)
    unfolding Operations.sign_and_write
    sign_and_write-Keeps r = search (Keeps-lift, Keeps-bind, write_pending-Keeps) depth 8

    -- `prepare`, `co_sign` and `resume_prepare` never touch active trust.
    prepare-Keeps :
        (broker : AuthorizationBroker)
        → Keeps Q (Operations.prepare k s store session identity broker)
    prepare-Keeps broker =
        unfold Operations.prepare in search (Keeps-lift, Keeps-bind, sign_and_write-Keeps) depth 12

    pub co_sign-Keeps :
        (r : PairingRecord) → Keeps Q (Operations.co_sign k s store session identity r)
    unfolding Operations.co_sign
    co_sign-Keeps r = search (Keeps-lift, Keeps-bind, write_pending-Keeps) depth 20

    pub resume_prepare-Keeps :
        (r : PairingRecord) → Keeps Q (Operations.resume_prepare k s store session identity r)
    resume_prepare-Keeps r =
        unfold Operations.resume_prepare in
        search (Keeps-lift, Keeps-bind, sign_and_write-Keeps) depth 12

    pub finalize-Keeps :
        (r : PairingRecord)
        → (validate_record k store r session identity true true false ≡ ok tt → Grows s Q r)
        → Keeps Q (Operations.finalize k s store session identity r)
    unfolding Operations.finalize
    finalize-Keeps r grow =
        Keeps-bind (lift (validate_session_identity k session identity)) _ (Keeps-lift _) (λ _.
          Keeps-bind_lift (validate_record k store r session identity true true false) _
            (λ _ h. persist_active-Keeps s r (grow h)))

    pub reconcile-Keeps :
        (r : PairingRecord)
        → (validate_record k store r session identity true false true ≡ ok tt → Grows s Q r)
        → Keeps Q (Operations.reconcile k s store session identity r)
    unfolding Operations.reconcile
    reconcile-Keeps r grow =
        Keeps-bind (lift (validate_session_identity k session identity)) _ (Keeps-lift _) (λ _.
          Keeps-bind_lift (validate_record k store r session identity true false true) _
            (λ _ h. persist_active-Keeps s r (grow h)))

  -- `revoke` moves one name from the active to the revoked directory at most.
  pub revoke-Keeps :
      {Q : Dir → Dir → Type 0} (store : PairingStore) (id : Bytes)
      → ((path : Bytes) (node : Node) (a v : Dir)
          → find path a ≡ some node
          → Q a v
          → Q (remove path a) ((path, node) ∷ v))
      → Keeps Q (Operations.revoke k s store id)
  unfolding Operations.revoke
  revoke-Keeps {Q} store id move = search (Keeps-lift, Keeps-reading, Keeps-bind, moved) depth 16
    where
      moved : (path : Bytes) → Keeps Q (λ d. move_to_revoked path (find path d.active) d)
      moved path = record { at = λ d h. go path (find path d.active) d refl h }
        where
          go :
              (path : Bytes) (o : Option Node) (d : Disk)
              → find path d.active ≡ o
              → Q d.active d.revoked
              → Q (move_to_revoked path o d).0.active (move_to_revoked path o d).0.revoked
          go path none d e h = h
          go path (some node) d e h = move path node d.active d.revoked e h

module _ (k : Crypto) (s : Serde) (Q : Dir → Dir → Type 0)
    (grows : (r : PairingRecord) → IsBilateral k r → Grows s Q r)
    (moves : (path : Bytes) (node : Node) (a v : Dir)
      → find path a ≡ some node
      → Q a v
      → Q (remove path a) ((path, node) ∷ v)) where
  finalize-Grows :
      (store : PairingStore) (session : AuthenticatedPairingSession) (identity : DeviceIdentity)
      (r : PairingRecord) (bind stored : Bool)
      → validate_record k store r session identity true bind stored ≡ ok tt
      → Grows s Q r
  finalize-Grows store session identity r bind stored h =
      let (v, c) = validate_record-eq-ok k store r session identity true bind stored h in
      grows r (valid-IsBilateral k store r v (not-eq-false c))

  -- What the two moves between the directories keep, every operation keeps.
  apply-keeps :
      (op : Operation) (d : Disk)
      → Q d.active d.revoked
      → Q (apply k s op d).active (apply k s op d).revoked
  unfolding apply
  apply-keeps (prepare store session identity broker) d =
      (prepare-Keeps k s {Q = Q} store session identity broker).at d
  apply-keeps (co_sign store session identity r) d =
      (co_sign-Keeps k s {Q = Q} store session identity r).at d
  apply-keeps (resume_prepare store session identity r) d =
      (resume_prepare-Keeps k s {Q = Q} store session identity r).at d
  apply-keeps (finalize store session identity r) d =
      (finalize-Keeps k s {Q = Q} store session identity r
          (finalize-Grows store session identity r true false)).at
        d
  apply-keeps (reconcile store session identity r) d =
      (reconcile-Keeps k s {Q = Q} store session identity r
          (finalize-Grows store session identity r false true)).at
        d
  apply-keeps (revoke store id) d = (revoke-Keeps k s {Q = Q} store id moves).at d

  pub apply_all-keeps :
      (ops : List Operation) (d : Disk)
      → Q d.active d.revoked
      → Q (apply_all k s ops d).active (apply_all k s ops d).revoked
  unfolding apply_all
  apply_all-keeps [] d h = h
  apply_all-keeps (op ∷ ops) d h = apply_all-keeps ops (apply k s op d) (apply-keeps op d h)
