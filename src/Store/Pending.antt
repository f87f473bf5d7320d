-- ===== src/Store/Pending.antt =====
-- What `write_pending` and `persist_active` of trust.rs did when they succeeded.
use omarchy_sync.Store.Action.{Action, lift, put_pending}
use omarchy_sync.Record.{PairingRecord, Serde, ensure_same_binding, is_complete, is_some, to_bytes}
use omarchy_sync.Base.{
  Bool, Bytes, Option, Result, appeared_during_write, err, false, if◌then◌else◌, inl, inr, none, ok,
  refl, some, true, ◌∷◌, ◌≡◌, ◌⊎◌,
}
use mathlib.Core.Path.{subst}
use omarchy_sync.Store.Disk.{
  Disk, Node, file_name, find, path_of, read_record, regular, write_atomic,
}
use omarchy_sync.Store.Facts.{lift-elim, path_of-eq-ok, to_bytes-eq-ok}
use omarchy_sync.Store.Write.{write_new, write_over, write_pending}

-- A record is in its file now, which was free before.
pub record IsNew (s : Serde) (r : PairingRecord) (before after : Disk) : Type 0 where
  pub free : find (file_name r.pair_id) before.pending ≡ none
  pub written :
      after
      ≡ record before { pending = (file_name r.pair_id, regular (s.to_json r)) ∷ before.pending }

-- A complete record that names the same devices and keys is there already, and nothing changed.
pub record IsKept (s : Serde) (r : PairingRecord) (before after : Disk) : Type 0 where
  pub old : PairingRecord
  pub found : read_record s (file_name r.pair_id) before.pending ≡ ok (some old)
  pub same_binding : ensure_same_binding old r ≡ ok tt
  pub complete : is_complete old ≡ true
  pub unchanged : after ≡ before

module _ (s : Serde) (r : PairingRecord) (d : Disk) where
  abbrev Written : Disk × Result (Unit {0}) → Type 0
  Written out = IsNew s r d out.0 ⊎ IsKept s r d out.0

  write_new-Written :
      (path : Bytes)
      → path ≡ file_name r.pair_id
      → (write_new s path r d).1 ≡ ok tt
      → Written (write_new s path r d)
  unfolding write_new write_atomic
  write_new-Written path p h =
      lift-elim Written d (to_bytes s r) _ h
        λ bs w h1. landed bs (to_bytes-eq-ok s r bs w) (find path d.pending) refl h1
    where
      landed :
          (bs : Bytes)
          → bs ≡ s.to_json r
          → (o : Option Node) → find path d.pending ≡ o
          → (put_pending d (
              if is_some o
              then err appeared_during_write
              else ok ((path, regular bs) ∷ d.pending))).1
            ≡ ok tt
          → Written (
              put_pending d (
                if is_some o
                then err appeared_during_write
                else ok ((path, regular bs) ∷ d.pending)))
      landed bs w (some node) e h = cc
      landed bs w none e h =
          inl (record { free = subst (λ n. find n d.pending ≡ none) p e; written = rw (w, p) refl })

  write_over-Written :
      (path : Bytes)
      → path ≡ file_name r.pair_id
      → (o : Option PairingRecord) → read_record s path d.pending ≡ ok o
      → (write_over s path r o d).1 ≡ ok tt
      → Written (write_over s path r o d)
  unfolding write_over
  write_over-Written path p none e h = write_new-Written path p h
  write_over-Written path p (some old) e h =
      lift-elim Written d (ensure_same_binding old r) _ h
        λ _ b h1. kept (unit_ok b) (is_complete old) refl h1
    where
      unit_ok : {u : Unit {0}} {x : Result (Unit {0})} → x ≡ ok u → x ≡ ok tt
      unit_ok e = e

      kept :
          ensure_same_binding old r ≡ ok tt
          → (c : Bool) → is_complete old ≡ c
          → ((elim c as (λ _. Action (Unit {0})) [
            | true ↦ lift (ok tt)
            | false ↦ write_new s path r
          ])
              d).1
            ≡ ok tt
          → Written (
              (elim c as (λ _. Action (Unit {0})) [
                | true ↦ lift (ok tt)
                | false ↦ write_new s path r
              ])
                d)
      kept b true c h = inr (record {
        old = old;
        found = subst (λ n. read_record s n d.pending ≡ ok (some old)) p e;
        same_binding = b;
        complete = c;
        unchanged = refl;
      })
      kept b false c h = write_new-Written path p h

  -- If `write_pending` succeeds, either the record's file was free and holds it now, or a complete
  -- record with the same binding is there and the disk is unchanged: an incomplete record that is
  -- there already is never replaced.
  pub write_pending-written :
      (write_pending s r d).1 ≡ ok tt
      → IsNew s r d (write_pending s r d).0 ⊎ IsKept s r d (write_pending s r d).0
  unfolding write_pending
  write_pending-written h = lift-elim Written d (path_of r.pair_id) _ h λ path p h1.
      lift-elim Written d (read_record s path d.pending) _ h1
        λ o e h2. write_over-Written path (path_of-eq-ok r.pair_id path p) o e h2
