-- ===== src/Store/Revocation.antt =====
-- What `revoke` of trust.rs achieves: the pair is not trusted again, whatever is called later.
use omarchy_sync.Store.Activation
use omarchy_sync.Store.Operations.{finalize, move_to_revoked, reconcile, revoke}
use omarchy_sync.Record.{PairingRecord, Serde, is_some}
use omarchy_sync.Store.{PairingStore, validate_record, validate_session_identity, validate_stored}
use omarchy_sync.Base.{
  Bool, Bytes, List, Option, Result, [], already_revoked, ap, bail_if, bail_if-passed, context,
  eq_bytes, eq_bytes_refl, false, if◌then◌else◌, missing_record, none, ok, refl, revoked_pair, some,
  sym, true, ◌∙◌, ◌∷◌, ◌≡◌, ◌≢◌,
}
use mathlib.Core.Path.{subst}
use omarchy_sync.Identity.{DeviceIdentity}
use omarchy_sync.Crypto.{Crypto}
use omarchy_sync.Session.{AuthenticatedPairingSession}
use omarchy_sync.Store.Disk.{Dir, Disk, Node, exists, file_name, find, path_of, read_record}
use omarchy_sync.Store.Lookup.{load}
use omarchy_sync.Store.Facts.{lift-elim, path_of-eq-ok}
use omarchy_sync.Store.Trust.{IsTrusted, apply_all-IsTrusted}
use omarchy_sync.Store.Write.{persist_active}
use omarchy_sync.Store.Activation.{Operation, apply, apply_all, apply_all-keeps}

exists-cons :
    (path name : Bytes) (node : Node) (v : Dir)
    → exists name v ≡ true
    → exists name ((path, node) ∷ v) ≡ true
unfolding find
exists-cons path name node v h = go (eq_bytes path name)
  where
    go : (c : Bool) → is_some (if c then some node else find name v) ≡ true
    go true = refl
    go false = h

exists-head : (path : Bytes) (node : Node) (v : Dir) → exists path ((path, node) ∷ v) ≡ true
unfolding find
exists-head path node v = rw (eq_bytes_refl path) refl

module _ (k : Crypto) (s : Serde) where
  -- A revoked name stays revoked.
  apply_all-revoked :
      (name : Bytes) (ops : List Operation) (d : Disk)
      → exists name d.revoked ≡ true
      → exists name (apply_all k s ops d).revoked ≡ true
  apply_all-revoked name =
      apply_all-keeps k s (λ a v. exists name v ≡ true) (λ r b path bs a v p w fresh free h. h)
        (λ path node a v _ h. exists-cons path name node v h)

  revoke-revoked :
      (store : PairingStore) (id : Bytes) (d : Disk)
      → (revoke k s store id d).1 ≡ ok tt
      → exists (file_name id) (revoke k s store id d).0.revoked ≡ true
  unfolding revoke
  revoke-revoked store id d h = lift-elim P d (path_of id) _ h λ path p h1.
      lift-elim P d (read_record s path d.active) _ h1 λ o _ h2.
        lift-elim P d (context o missing_record) _ h2 λ r _ h3.
          lift-elim P d (validate_stored k store r) _ h3 λ _ _ h4.
            lift-elim P d (bail_if (exists path d.revoked) already_revoked) _ h4
              λ _ _ h5. moved path (path_of-eq-ok id path p) (find path d.active) h5
    where
      P : Disk × Result (Unit {0}) → Type 0
      P out = exists (file_name id) out.0.revoked ≡ true

      moved :
          (path : Bytes)
          → path ≡ file_name id
          → (o : Option Node) → (move_to_revoked path o d).1 ≡ ok tt
          → exists (file_name id) (move_to_revoked path o d).0.revoked ≡ true
      moved path e none h = cc
      moved path e (some node) h =
          subst (λ n. exists n ((path, node) ∷ d.revoked) ≡ true) e
            (exists-head path node d.revoked)

  persist_active-revoked :
      (r : PairingRecord) (d : Disk)
      → exists (file_name r.pair_id) d.revoked ≡ true
      → (persist_active s r d).1 ≢ ok tt
  unfolding persist_active
  persist_active-revoked r d e h =
      lift-elim (λ _. ⊥) d (path_of r.pair_id) _ h
        λ path p h1.
          lift-elim (λ _. ⊥) d (bail_if (exists path d.revoked) revoked_pair) _ h1
            λ _ free _. contradiction path (path_of-eq-ok r.pair_id path p) free
    where
      contradiction :
          (path : Bytes) {u : Unit {0}}
          → path ≡ file_name r.pair_id
          → bail_if (exists path d.revoked) revoked_pair ≡ ok u
          → ⊥
      contradiction path q free =
          let taken : exists path d.revoked ≡ true =
            subst (λ n. exists n d.revoked ≡ true) (sym q) e in
          cc (taken, bail_if-passed _ _ free)

  -- A record of a revoked pair is not made active.
  finalize-revoked :
      (store : PairingStore) (session : AuthenticatedPairingSession) (identity : DeviceIdentity)
      (r : PairingRecord) (d : Disk)
      → exists (file_name r.pair_id) d.revoked ≡ true
      → ((finalize k s store session identity r d).1 ≢ ok tt)
        × ((reconcile k s store session identity r d).1 ≢ ok tt)
  unfolding finalize reconcile
  finalize-revoked store session identity r d e = (
    λ h.
        lift-elim (λ _. ⊥) d (validate_session_identity k session identity) _ h
          λ _ _ h1.
            lift-elim (λ _. ⊥) d (validate_record k store r session identity true true false) _ h1
              λ _ _ h2. persist_active-revoked r d e h2,
    λ h.
        lift-elim (λ _. ⊥) d (validate_session_identity k session identity) _ h
          λ _ _ h1.
            lift-elim (λ _. ⊥) d (validate_record k store r session identity true false true) _ h1
              λ _ _ h2. persist_active-revoked r d e h2,
  )

  load-absent :
      (store : PairingStore) (id : Bytes) (d : Disk)
      → path_of id ≡ ok (file_name id)
      → find (file_name id) d.active ≡ none
      → load k s store id d ≡ ok none
  unfolding load read_record
  load-absent store id d p e = rw (p, e) refl

  revoke-path_of :
      (store : PairingStore) (id : Bytes) (d : Disk)
      → (revoke k s store id d).1 ≡ ok tt
      → path_of id ≡ ok (file_name id)
  unfolding revoke
  revoke-path_of store id d h =
      lift-elim (λ _. path_of id ≡ ok (file_name id)) d (path_of id) _ h
        λ path p _. p ∙ ap ok (path_of-eq-ok id path p)

  revoke-IsTrusted :
      (store : PairingStore) (id : Bytes) (d : Disk)
      → IsTrusted k s d.active d.revoked
      → IsTrusted k s (revoke k s store id d).0.active (revoke k s store id d).0.revoked
  unfolding apply apply_all
  revoke-IsTrusted store id d = apply_all-IsTrusted k s (Activation.revoke store id ∷ []) d

  -- When the directories meet the invariant and `revoke` of a record's pair succeeds, then after any
  -- further operations the pair loads as absent, and neither `finalize` nor `reconcile` of a record
  -- with that PairID succeeds, at any time and with any session and identity.
  pub revoke-lasting :
      (store later : PairingStore) (session : AuthenticatedPairingSession)
      (identity : DeviceIdentity) (r : PairingRecord) (ops : List Operation) (d : Disk)
      → IsTrusted k s d.active d.revoked
      → (revoke k s store r.pair_id d).1 ≡ ok tt
      → (load k s later r.pair_id (apply_all k s ops (revoke k s store r.pair_id d).0) ≡ ok none)
        × ((finalize k s later session identity r
              (apply_all k s ops (revoke k s store r.pair_id d).0)).1
            ≢ ok tt)
        × ((reconcile k s later session identity r
              (apply_all k s ops (revoke k s store r.pair_id d).0)).1
            ≢ ok tt)
  revoke-lasting store later session identity r ops d t h =
      let d' : Disk = (revoke k s store r.pair_id d).0 in
      let gone =
        apply_all-revoked (file_name r.pair_id) ops d' (revoke-revoked store r.pair_id d h) in
      let t' = apply_all-IsTrusted k s ops d' (revoke-IsTrusted store r.pair_id d t) in
      (
        load-absent later r.pair_id _ (revoke-path_of store r.pair_id d h)
            (t'.never_revoked _ gone),
        (finalize-revoked later session identity r _ gone).0,
        (finalize-revoked later session identity r _ gone).1,
      )
