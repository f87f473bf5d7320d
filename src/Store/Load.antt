-- ===== src/Store/Load.antt =====
-- What `load` of trust.rs returns after `finalize` or `reconcile` succeeded.
use omarchy_sync.Store.Action as Steps
use omarchy_sync.Store.Operations.{finalize, reconcile}
use omarchy_sync.Record.{
  PairingRecord, Serde, SerdeLaws, eq_option, eq_record, from_bytes, max_record_bytes, to_bytes,
  validate_shape,
}
use omarchy_sync.Store.{PairingStore, validate_record, validate_session_identity, validate_stored}
use omarchy_sync.Base.{
  ==_iff, Bytes, Option, Result, and-eq-true, ap, bail_if, bail_if-elim, bail_if-passed,
  conflicting_record, eq_bytes, eq_bytes_refl, eq_bytes→eq, false, length, ltb, none, not,
  not-eq-false, ok, ok_inj, refl, revoked_pair, some, sym, true, ◌==◌, ◌>>◌, ◌∙◌, ◌∷◌, ◌≡◌,
}
use mathlib.Core.Path.{subst, subst₂}
use omarchy_sync.Identity.{DeviceIdentity}
use omarchy_sync.Crypto.{Crypto}
use omarchy_sync.Session.{AuthenticatedPairingSession}
use omarchy_sync.Store.Action.{Action, put_active}
use omarchy_sync.Store.Disk.{
  Dir, Disk, exists, file_name, find, path_of, read_node, read_record, regular, write_atomic,
}
use omarchy_sync.Store.Lookup.{load}
use omarchy_sync.Store.Facts.{lift-elim, path_of-eq-ok, read_record-none, write_atomic-free}
use omarchy_sync.Store.Keeps.{remove_stale_pending-Keeps}
use omarchy_sync.Store.Write.{persist_active, persist_over, remove_stale_pending}
use omarchy_sync.Store.Valid.{valid-validate_stored, validate_record-eq-ok}

eq_option→eq : (a b : Option Bytes) → eq_option a b ≡ true → a ≡ b
eq_option→eq none none h = refl
eq_option→eq none (some y) h = cc
eq_option→eq (some x) none h = cc
eq_option→eq (some x) (some y) h = ap some (eq_bytes→eq x y h)

-- `existing == *record` holds of the record itself alone.
eq_record→eq : (a b : PairingRecord) → eq_record a b ≡ true → a ≡ b
unfolding eq_record
eq_record→eq a b h =
    let (h15, e15) = and-eq-true _ (eq_option a.responder_signature b.responder_signature) h in
    let (h14, e14) = and-eq-true _ (eq_option a.initiator_signature b.initiator_signature) h15 in
    let (h13, e13) = and-eq-true _ (a.authorized_at == b.authorized_at) h14 in
    let (h12, e12) = and-eq-true _ (eq_bytes a.user_presence b.user_presence) h13 in
    let (h11, e11) = and-eq-true _ (eq_bytes a.authorizing_device_id b.authorizing_device_id) h12 in
    let (h10, e10) = and-eq-true _ (eq_bytes a.session_binding b.session_binding) h11 in
    let (h9, e9) = and-eq-true _ (eq_bytes a.responder_certificate b.responder_certificate) h10 in
    let (h8, e8) = and-eq-true _ (eq_bytes a.initiator_certificate b.initiator_certificate) h9 in
    let (h7, e7) = and-eq-true _ (eq_bytes a.responder_public_key b.responder_public_key) h8 in
    let (h6, e6) = and-eq-true _ (eq_bytes a.initiator_public_key b.initiator_public_key) h7 in
    let (h5, e5) = and-eq-true _ (eq_bytes a.responder_device_id b.responder_device_id) h6 in
    let (h4, e4) = and-eq-true _ (eq_bytes a.initiator_device_id b.initiator_device_id) h5 in
    let (h3, e3) = and-eq-true _ (eq_bytes a.pair_id b.pair_id) h4 in
    let (e1, e2) = and-eq-true _ (eq_bytes a.domain b.domain) h3 in
    λ i. record {
      protocol_version = (==_iff _ _).0 e1 i;
      domain = eq_bytes→eq _ _ e2 i;
      pair_id = eq_bytes→eq _ _ e3 i;
      initiator_device_id = eq_bytes→eq _ _ e4 i;
      responder_device_id = eq_bytes→eq _ _ e5 i;
      initiator_public_key = eq_bytes→eq _ _ e6 i;
      responder_public_key = eq_bytes→eq _ _ e7 i;
      initiator_certificate = eq_bytes→eq _ _ e8 i;
      responder_certificate = eq_bytes→eq _ _ e9 i;
      session_binding = eq_bytes→eq _ _ e10 i;
      authorizing_device_id = eq_bytes→eq _ _ e11 i;
      user_presence = eq_bytes→eq _ _ e12 i;
      authorized_at = (==_iff _ _).0 e13 i;
      initiator_signature = eq_option→eq _ _ e14 i;
      responder_signature = eq_option→eq _ _ e15 i;
    }

module _ (k : Crypto) (s : Serde) (store : PairingStore) (r : PairingRecord) where
  -- What `load` returns when the active directory holds the record under its PairID.
  load-held :
      (d : Disk)
      → path_of r.pair_id ≡ ok (file_name r.pair_id)
      → read_record s (file_name r.pair_id) d.active ≡ ok (some r)
      → load k s store r.pair_id d ≡ (validate_stored k store r >> ok (some r))
  unfolding load
  load-held d p e = rw (p, e, eq_bytes_refl r.pair_id) refl

  abbrev Held : Disk × Result (Unit {0}) → Type 0
  Held out = read_record s (file_name r.pair_id) out.0.active ≡ ok (some r)

  from_bytes-written :
      (l : SerdeLaws s) (bs : Bytes)
      → to_bytes s r ≡ ok bs
      → validate_shape r ≡ ok tt
      → from_bytes s bs ≡ ok r
  unfolding to_bytes from_bytes
  from_bytes-written l bs w v =
      bail_if-elim (ltb max_record_bytes (length (s.to_json r))) _ _ w λ small e.
        let e' : s.to_json r ≡ bs = ok_inj e in
        subst (λ b. from_bytes s b ≡ ok r) e' (rw (small, l.of_json-to_json r, v) refl)

  read_record-added :
      (bs : Bytes) (a : Dir)
      → from_bytes s bs ≡ ok r
      → read_record s (file_name r.pair_id) ((file_name r.pair_id, regular bs) ∷ a) ≡ ok (some r)
  unfolding read_record find read_node
  read_record-added bs a e = rw (eq_bytes_refl (file_name r.pair_id), e) refl

  persist_active-path_of :
      (d : Disk) → (persist_active s r d).1 ≡ ok tt → path_of r.pair_id ≡ ok (file_name r.pair_id)
  unfolding persist_active
  persist_active-path_of d h =
      lift-elim (λ _. path_of r.pair_id ≡ ok (file_name r.pair_id)) d (path_of r.pair_id) _ h
        λ path p _. p ∙ ap ok (path_of-eq-ok r.pair_id path p)

  persist_active-Held :
      (l : SerdeLaws s) (d : Disk)
      → validate_shape r ≡ ok tt
      → (persist_active s r d).1 ≡ ok tt
      → Held (persist_active s r d)
  unfolding persist_active
  persist_active-Held l d v h = lift-elim Held d (path_of r.pair_id) _ h λ path p h1.
      lift-elim Held d (bail_if (exists path d.revoked) revoked_pair) _ h1 λ _ _ h2.
        lift-elim Held d (read_record s path d.active) _ h2
          λ o e h3. over path (path_of-eq-ok r.pair_id path p) o e h3
    where
      stays :
          (e : Disk)
          → read_record s (file_name r.pair_id) e.active ≡ ok (some r)
          → Held (remove_stale_pending s r e)
      stays e h =
          (remove_stale_pending-Keeps
              {Q = λ a v. read_record s (file_name r.pair_id) a ≡ ok (some r)} s r).at
            e h

      unit_ok : {u : Unit {0}} {x : Result (Unit {0})} → x ≡ ok u → x ≡ ok tt
      unit_ok e = e

      found :
          (path : Bytes)
          → path ≡ file_name r.pair_id
          → (old : PairingRecord) → read_record s path d.active ≡ ok (some old)
          → old ≡ r
          → read_record s (file_name r.pair_id) d.active ≡ ok (some r)
      found path p old e q = subst₂ (λ n x. read_record s n d.active ≡ ok (some x)) p q e

      added :
          (path : Bytes)
          → path ≡ file_name r.pair_id
          → (bs : Bytes) → find path d.active ≡ none
          → from_bytes s bs ≡ ok r
          → Held (
              Steps.and_then
                (Steps.put_active d (write_atomic path bs d.active))
                (λ _. remove_stale_pending s r))
      added path p bs free w = rw (write_atomic-free path bs d.active free) (
          stays (record d { active = (path, regular bs) ∷ d.active })
            (subst
              (λ n. read_record s (file_name r.pair_id) ((n, regular bs) ∷ d.active) ≡ ok (some r))
              (sym p) (read_record-added bs d.active w)))

      over :
          (path : Bytes)
          → path ≡ file_name r.pair_id
          → (o : Option PairingRecord) → read_record s path d.active ≡ ok o
          → (persist_over s path r o d).1 ≡ ok tt
          → Held (persist_over s path r o d)
      over path p (some old) e h =
          lift-elim Held d (bail_if (not (eq_record old r)) conflicting_record) _ h λ _ same _.
            stays d (
              found path p old e
                (eq_record→eq old r (not-eq-false (bail_if-passed _ _ (unit_ok same)))))
      over path p none e h = lift-elim Held d (to_bytes s r) _ h λ bs w _.
          added path p bs (read_record-none s path d.active e) (from_bytes-written l bs w v)

  -- If serialization round trips and `finalize` succeeds, `load` of the record's PairID on the disk
  -- that it leaves returns that record if `validate_stored` accepts it, and its error otherwise.
  pub finalize-load :
      (session : AuthenticatedPairingSession) (identity : DeviceIdentity) (l : SerdeLaws s)
      (d : Disk)
      → (finalize k s store session identity r d).1 ≡ ok tt
      → load k s store r.pair_id (finalize k s store session identity r d).0
        ≡ (validate_stored k store r >> ok (some r))
  unfolding finalize
  finalize-load session identity l d h =
      lift-elim P d (validate_session_identity k session identity) _ h λ _ _ h1.
        lift-elim P d (validate_record k store r session identity true true false) _ h1 λ _ v h2.
          let (valid, _) = validate_record-eq-ok k store r session identity true true false v in
          load-held _ (persist_active-path_of d h2) (persist_active-Held l d valid.shape h2)
    where
      P : Disk × Result (Unit {0}) → Type 0
      P out = load k s store r.pair_id out.0 ≡ (validate_stored k store r >> ok (some r))

  -- If serialization round trips and `reconcile` succeeds, `load` of the record's PairID on the disk
  -- that it leaves returns that record.
  pub reconcile-load :
      (session : AuthenticatedPairingSession) (identity : DeviceIdentity) (l : SerdeLaws s)
      (d : Disk)
      → (reconcile k s store session identity r d).1 ≡ ok tt
      → load k s store r.pair_id (reconcile k s store session identity r d).0 ≡ ok (some r)
  unfolding reconcile
  reconcile-load session identity l d h =
      lift-elim P d (validate_session_identity k session identity) _ h λ _ _ h1.
        lift-elim P d (validate_record k store r session identity true false true) _ h1 λ _ v h2.
          let (valid, c) = validate_record-eq-ok k store r session identity true false true v in
          let stored : validate_stored k store r ≡ ok tt =
            valid-validate_stored k store r valid (not-eq-false c) in
          load-held _ (persist_active-path_of d h2) (persist_active-Held l d valid.shape h2)
          ∙ rw stored refl
    where
      P : Disk × Result (Unit {0}) → Type 0
      P out = load k s store r.pair_id out.0 ≡ ok (some r)
