-- ===== src/Store/Facts.antt =====
-- What `persist_active` does to the active directory, and what the other operations leave alone.
use omarchy_sync.Store.Action.{Action, and_then, put_active}
use omarchy_sync.Record.{
  PairingRecord, Serde, checked_pair_id, eq_record, max_record_bytes, to_bytes,
}
use omarchy_sync.Base.{
  >>-eq-ok, Bytes, Option, Result, bail_if, bail_if-elim, bail_if-passed, conflicting_record, err,
  false, length, ltb, none, not, ok, ok_inj, refl, revoked_pair, some, sym, ◌∷◌, ◌≡◌, ◌≢◌,
}
use omarchy_sync.Store.Disk.{
  Dir, Disk, Node, and_some, exists, file_name, find, path_of, read_found, read_node, read_record,
  regular, write_atomic,
}
use omarchy_sync.Store.Keeps.{Keeps, remove_stale_pending-Keeps}
use omarchy_sync.Store.Write.{persist_active, persist_over, remove_stale_pending}

module _ {A B : Type 0} (Q : Disk → Type 0) where
  -- A step that changes nothing, at one disk: the rest may use what it returned.
  pub at_same :
      (d : Disk) (r : Result A) (f : A → Action B)
      → Q d
      → ((a : A) → r ≡ ok a → Q (f a d).0)
      → Q (and_then (d, r) f).0
  at_same d (ok a) f h k = k a refl
  at_same d (err e) f h k = h

-- A step that changes nothing succeeded, with the rest of the block after it.
pub lift-elim :
    {A B : Type 0} {b : B} (P : Disk × Result B → Type 0) (d : Disk) (r : Result A)
    (f : A → Action B)
    → (and_then (d, r) f).1 ≡ ok b
    → ((a : A) → r ≡ ok a → (f a d).1 ≡ ok b → P (f a d))
    → P (and_then (d, r) f)
lift-elim P d (ok a) f h k = k a refl h
lift-elim P d (err e) f h k = cc

pub path_of-eq-ok : (id path : Bytes) → path_of id ≡ ok path → path ≡ file_name id
unfolding path_of
path_of-eq-ok id path h =
    let (_, e) = >>-eq-ok (checked_pair_id id) (ok (file_name id)) h in sym (ok_inj e)

-- A new file lands in its directory.
pub write_atomic-free :
    (name bs : Bytes) (dir : Dir)
    → find name dir ≡ none
    → write_atomic name bs dir ≡ ok ((name, regular bs) ∷ dir)
unfolding write_atomic
write_atomic-free name bs dir h = rw h

pub to_bytes-eq-ok :
    (s : Serde) (r : PairingRecord) (bs : Bytes) → to_bytes s r ≡ ok bs → bs ≡ s.to_json r
unfolding to_bytes
to_bytes-eq-ok s r bs h =
    bail_if-elim (ltb max_record_bytes (length (s.to_json r))) _ _ h λ _ h1. sym (ok_inj h1)

and_some-ne-none : (r : Result PairingRecord) → and_some r ≢ ok none
and_some-ne-none (ok r) e = cc
and_some-ne-none (err x) e = cc

module _ (s : Serde) where
  -- A path that reads as no record is free.
  pub read_record-none :
      (path : Bytes) (dir : Dir) → read_record s path dir ≡ ok none → find path dir ≡ none
  unfolding read_record
  read_record-none path dir h = go (find path dir) h
    where
      go : (o : Option Node) → read_found s o ≡ ok none → o ≡ none
      go none e = refl
      go (some node) e = absurd (and_some-ne-none (read_node s node) e)

  -- `Q` is kept when the record's own file is added under a name that is neither revoked nor taken.
  abbrev pub Grows : (Dir → Dir → Type 0) → PairingRecord → Type 0
  Grows Q r =
      (path bs : Bytes) (a v : Dir)
      → path ≡ file_name r.pair_id
      → to_bytes s r ≡ ok bs
      → exists path v ≡ false
      → find path a ≡ none
      → Q a v
      → Q ((path, regular bs) ∷ a) v

  module _ {Q : Dir → Dir → Type 0} (r : PairingRecord) where
    -- `persist_active` adds the record's own file at most.
    pub persist_active-Keeps : Grows Q r → Keeps Q (persist_active s r)
    unfolding persist_active
    persist_active-Keeps grow = record {
      at = λ d h.
          at_same (λ e. Q e.active e.revoked) d (path_of r.pair_id) _ h
            λ path p.
              at_same (λ e. Q e.active e.revoked) d (bail_if (exists path d.revoked) revoked_pair) _
                h
                λ _ free.
                  at_same (λ e. Q e.active e.revoked) d (read_record s path d.active) _ h
                    (λ o e.
                      over path o d (path_of-eq-ok r.pair_id path p)
                        (bail_if-passed _ _ (unit_ok free)) e h);
    }
      where
        unit_ok : {u : Unit {0}} {x : Result (Unit {0})} → x ≡ ok u → x ≡ ok tt
        unit_ok e = e

        added :
            (path bs : Bytes) (d : Disk)
            → path ≡ file_name r.pair_id
            → to_bytes s r ≡ ok bs
            → exists path d.revoked ≡ false
            → find path d.active ≡ none
            → Q d.active d.revoked
            → Q
                (and_then
                  (put_active d (write_atomic path bs d.active))
                  (λ _. remove_stale_pending s r)).0.active
                (and_then
                  (put_active d (write_atomic path bs d.active))
                  (λ _. remove_stale_pending s r)).0.revoked
        added path bs d p w free none_there h = rw (write_atomic-free path bs d.active none_there) (
            (remove_stale_pending-Keeps {Q = Q} s r).at
              (record d { active = (path, regular bs) ∷ d.active })
              (grow path bs d.active d.revoked p w free none_there h))

        over :
            (path : Bytes) (o : Option PairingRecord) (d : Disk)
            → path ≡ file_name r.pair_id
            → exists path d.revoked ≡ false
            → read_record s path d.active ≡ ok o
            → Q d.active d.revoked
            → Q (persist_over s path r o d).0.active (persist_over s path r o d).0.revoked
        over path (some old) d p free e h =
            at_same (λ e. Q e.active e.revoked) d
              (bail_if (not (eq_record old r)) conflicting_record) _ h
              (λ _ _. (remove_stale_pending-Keeps {Q = Q} s r).at d h)
        over path none d p free e h =
            at_same (λ e. Q e.active e.revoked) d (to_bytes s r) _ h
              (λ bs w. added path bs d p w free (read_record-none path d.active e) h)
