-- ===== src/Store/Write.antt =====
-- `write_pending`, `persist_active` and `remove_stale_pending` of trust.rs.
use omarchy_sync.Record.{
  PairingRecord, Serde, ensure_same_binding, eq_record, is_complete, to_bytes,
}
use omarchy_sync.Store.Action.{Action, lift, put_active, put_pending, reading, ◌>>=◌, ◌>>◌}
use omarchy_sync.Store.Disk.{
  Dir, Disk, exists, path_of, read_node, read_record, remove, write_atomic,
}
use omarchy_sync.Base.{
  Bool, Bytes, Option, [], bail_if, conflicting_record, eq_bytes, false, none, not, ok,
  revoked_pair, some, true, ◌&&◌, ◌||◌, ◌∷◌,
}

unfoldable pub same_pair : PairingRecord → PairingRecord → Bool
same_pair a b =
    eq_bytes a.initiator_device_id b.initiator_device_id
      && eq_bytes a.responder_device_id b.responder_device_id
    || eq_bytes a.initiator_device_id b.responder_device_id
      && eq_bytes a.responder_device_id b.initiator_device_id

-- One round of the loop of `remove_stale_pending`.
abbrev pub drop_if : Bool → Bytes → Disk → Disk
drop_if true name d = record d { pending = remove name d.pending }
drop_if false name d = d

module _ (s : Serde) where
  -- `write_atomic(&path, &record.to_bytes()?)` in the pending directory.
  unfoldable pub write_new : Bytes → PairingRecord → Action (Unit {0})
  write_new path r = do
    bs ← lift (to_bytes s r)
    λ d. put_pending d (write_atomic path bs d.pending)

  -- The two ways of `write_pending`: the path is free, or holds an older record.
  unfoldable pub write_over : Bytes → PairingRecord → Option PairingRecord → Action (Unit {0})
  unfolding write_new
  write_over path r none = write_new path r
  write_over path r (some old) = do
    lift (ensure_same_binding old r)
    elim (is_complete old) [ true ↦ lift (ok tt) | false ↦ write_new path r ]

  unfoldable pub write_pending : PairingRecord → Action (Unit {0})
  unfolding write_over
  write_pending r = do
    path ← lift (path_of r.pair_id)
    old ← reading (λ d. read_record s path d.pending)
    write_over path r old

  unfoldable pub remove_stale_loop : Dir → PairingRecord → Action (Unit {0})
  remove_stale_loop [] active = lift (ok tt)
  remove_stale_loop ((name, node) ∷ rest) active = do
    r ← lift (read_node s node)
    λ d. (drop_if (same_pair r active) name d, ok tt)
    remove_stale_loop rest active

  unfoldable pub remove_stale_pending : PairingRecord → Action (Unit {0})
  unfolding remove_stale_loop
  remove_stale_pending active d = remove_stale_loop d.pending active d

  -- The two ways of `persist_active`: the path is free, or holds a record already.
  unfoldable pub persist_over : Bytes → PairingRecord → Option PairingRecord → Action (Unit {0})
  unfolding remove_stale_pending
  persist_over path r none = do
    bs ← lift (to_bytes s r)
    λ d. put_active d (write_atomic path bs d.active)
    remove_stale_pending r
  persist_over path r (some existing) = do
    lift (bail_if (not (eq_record existing r)) conflicting_record)
    remove_stale_pending r

  unfoldable pub persist_active : PairingRecord → Action (Unit {0})
  unfolding persist_over
  persist_active r = do
    path ← lift (path_of r.pair_id)
    reading (λ d. bail_if (exists path d.revoked) revoked_pair)
    existing ← reading (λ d. read_record s path d.active)
    persist_over path r existing
