-- ===== src/Store/Lookup.antt =====
-- The queries of trust.rs: `load`, `pending_for_peer`, the contexts, `has_active_pairing`.
use omarchy_sync.Identity
use omarchy_sync.Certificate.Decode as Certificate
use omarchy_sync.Record.{PairingRecord, Serde, is_complete, validate_device_id}
use omarchy_sync.Store.Disk.{Dir, Disk, file_stem, path_of, read_record}
use omarchy_sync.Session.{PairedIdentityContext, from_validated_record}
use omarchy_sync.Store.{PairingStore, validate_pending_stored, validate_stored}
use omarchy_sync.Base.{
  Bool, Bytes, Option, Result, [], bail_if, context, eq_bytes, false, is_utf8, missing_record,
  name_mismatch, none, not, not_bilateral, not_participant, ok, some, true, ◌&&◌, ◌>>=◌, ◌>>◌, ◌||◌,
  ◌∷◌,
}
use omarchy_sync.Identity.{DeviceIdentity, device_id, public_key}
use omarchy_sync.Certificate.{DeviceCertificate}
use omarchy_sync.Crypto.{Crypto}

abbrev pub matches_peers : Bytes → Bytes → PairingRecord → Bool
matches_peers local peer r =
    eq_bytes r.initiator_device_id local && eq_bytes r.responder_device_id peer
    || eq_bytes r.initiator_device_id peer && eq_bytes r.responder_device_id local

module _ (k : Crypto) (s : Serde) (store : PairingStore) where
  -- The checks of `load` on a record that was read.
  abbrev load_checked : Bytes → Option PairingRecord → Result (Option PairingRecord)
  load_checked id none = ok none
  load_checked id (some r) = do
    bail_if (not (eq_bytes r.pair_id id)) name_mismatch
    validate_stored k store r
    ok (some r)

  unfoldable pub load : Bytes → Disk → Result (Option PairingRecord)
  load id d = do path ← path_of id; r ← read_record s path d.active; load_checked id r

  unfoldable pub load_pending : Bytes → Disk → Result (Option PairingRecord)
  load_pending id d = do path ← path_of id; read_record s path d.pending

  -- The loop of `pending_for_peer` over the entries of `dir`, each read by its path.
  unfoldable pub pending_loop : Bytes → Bytes → Dir → Dir → Result (Option PairingRecord)
  pending_loop local peer dir [] = ok none
  pending_loop local peer dir ((name, node) ∷ rest) = do
    let next = pending_loop local peer dir rest
    found ← read_record s name dir
    elim found [
      | none ↦ next
      | some r ↦
          (validate_pending_stored k store r
            >> elim (matches_peers local peer r) [ true ↦ ok (some r) | false ↦ next ])
    ]

  unfoldable pub pending_for_peer : Bytes → Bytes → Disk → Result (Option PairingRecord)
  unfolding pending_loop
  pending_for_peer local peer d = do
    validate_device_id local
    validate_device_id peer
    pending_loop local peer d.pending d.pending

  unfoldable pub context_from_record_parts :
      PairingRecord → DeviceCertificate → DeviceCertificate → Result PairedIdentityContext
  context_from_record_parts r initiator responder =
      from_validated_record r.pair_id r.initiator_device_id r.responder_device_id
        r.initiator_public_key r.responder_public_key initiator responder

  unfoldable pub context_from_record : PairingRecord → DeviceIdentity → Result PairedIdentityContext
  unfolding context_from_record_parts
  context_from_record r identity = do
    validate_pending_stored k store r
    initiator ← Certificate.from_bytes r.initiator_certificate
    responder ← Certificate.from_bytes r.responder_certificate
    bail_if
        (not (eq_bytes (Identity.device_id k identity) r.initiator_device_id)
          && not (eq_bytes (Identity.device_id k identity) r.responder_device_id))
        not_participant
    context_from_record_parts r initiator responder

  -- The loop of `recovery_context` over the active directory.
  unfoldable pub recovery_loop :
      DeviceIdentity → Bytes → Disk → Dir → Result (Option PairedIdentityContext)
  unfolding context_from_record load
  recovery_loop identity peer d [] = ok none
  recovery_loop identity peer d ((name, node) ∷ rest) = do
    let next = recovery_loop identity peer d rest
    let found : PairingRecord → Result (Option PairedIdentityContext) = λ r.
        elim (matches_peers (Identity.device_id k identity) peer r) [
          | true ↦ (context_from_record r identity >>= λ c. ok (some c))
          | false ↦ next
        ]
    elim (is_utf8 (file_stem name)) [
      | false ↦ next
      | true ↦ (load (file_stem name) d >>= λ o. elim o [ none ↦ next | some r ↦ found r ])
    ]

  unfoldable pub recovery_context :
      DeviceIdentity → Bytes → Disk → Result (Option PairedIdentityContext)
  unfolding recovery_loop pending_for_peer
  recovery_context identity peer d = do
    pending ← pending_for_peer (Identity.device_id k identity) peer d
    elim pending [
      | some r ↦ (context_from_record r identity >>= λ c. ok (some c))
      | none ↦ recovery_loop identity peer d d.active
    ]

  unfoldable pub reconnect_context : DeviceIdentity → Bytes → Disk → Result PairedIdentityContext
  unfolding load context_from_record_parts
  reconnect_context identity id d = do
    found ← load id d
    r ← context found missing_record
    bail_if (not (is_complete r)) not_bilateral
    initiator ← Certificate.from_bytes r.initiator_certificate
    responder ← Certificate.from_bytes r.responder_certificate
    let local_id = Identity.device_id k identity
    let local_key = Identity.public_key k identity
    bail_if
        ((not (eq_bytes local_id r.initiator_device_id)
            || not (eq_bytes local_key r.initiator_public_key))
          && (not (eq_bytes local_id r.responder_device_id)
              || not (eq_bytes local_key r.responder_public_key)))
        not_participant
    context_from_record_parts r initiator responder

  -- What `has_active_pairing` does with one entry, before the `next` ones.
  unfoldable pub active_entry : Bytes → Bytes → Result Bool → Option PairingRecord → Result Bool
  active_entry local peer next none = next
  active_entry local peer next (some r) = do
    validate_stored k store r
    elim (matches_peers local peer r) [ true ↦ ok true | false ↦ next ]

  -- The loop of `has_active_pairing` over the entries of `dir`, each read by its path.
  unfoldable pub active_loop : Bytes → Bytes → Dir → Dir → Result Bool
  unfolding active_entry
  active_loop local peer dir [] = ok false
  active_loop local peer dir ((name, node) ∷ rest) = do
    let next = active_loop local peer dir rest
    found ← read_record s name dir
    active_entry local peer next found

  unfoldable pub has_active_pairing : Bytes → Bytes → Disk → Result Bool
  unfolding active_loop
  has_active_pairing local peer d = do
    validate_device_id local
    validate_device_id peer
    active_loop local peer d.active d.active
