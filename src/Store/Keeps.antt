-- ===== src/Store/Keeps.antt =====
-- What actions keep of the active and the revoked directory, one rule for each way to build one.
use omarchy_sync.Record.{PairingRecord, Serde, ensure_same_binding, is_complete, to_bytes}
use omarchy_sync.Store.Action.{Action, and_then, lift, put_pending, reading, ◌>>=◌}
use omarchy_sync.Store.Disk.{Dir, Disk, path_of, read_node, read_record, write_atomic}
use omarchy_sync.Store.Write.{
  drop_if, remove_stale_loop, remove_stale_pending, same_pair, write_new, write_over, write_pending,
}
use omarchy_sync.Base.{
  Bool, Bytes, Option, Result, [], err, false, none, ok, refl, some, true, ◌∷◌, ◌≡◌,
}

-- `m` keeps `Q` of the active and the revoked directory, whether it succeeds or fails.
pub record Keeps {A : Type 0} (Q : Dir → Dir → Type 0) (m : Action A) : Type 0 where
  pub at : (d : Disk) → Q d.active d.revoked → Q (m d).0.active (m d).0.revoked

module _ {A : Type 0} {Q : Dir → Dir → Type 0} where
  pub Keeps-lift : (r : Result A) → Keeps Q (lift r)
  Keeps-lift r = record { at = λ d h. h }

  pub Keeps-reading : (f : Disk → Result A) → Keeps Q (reading f)
  Keeps-reading f = record { at = λ d h. h }

module _ {A B : Type 0} {Q : Dir → Dir → Type 0} where
  pub Keeps-and_then :
      (r : Disk × Result A) (f : A → Action B)
      → Q r.0.active r.0.revoked
      → ((a : A) → r.1 ≡ ok a → Keeps Q (f a))
      → Q (and_then r f).0.active (and_then r f).0.revoked
  Keeps-and_then (d, ok a) f h k = (k a refl).at d h
  Keeps-and_then (d, err e) f h k = h

  pub Keeps-bind :
      (m : Action A) (f : A → Action B) → Keeps Q m → ((a : A) → Keeps Q (f a)) → Keeps Q (m >>= f)
  Keeps-bind m f km kf = record { at = λ d h. Keeps-and_then (m d) f (km.at d h) (λ a _. kf a) }

  -- The rest of a block may use what a step that changes nothing returned.
  pub Keeps-bind_lift :
      (r : Result A) (f : A → Action B)
      → ((a : A) → r ≡ ok a → Keeps Q (f a))
      → Keeps Q (lift r >>= f)
  Keeps-bind_lift r f k = record { at = λ d h. Keeps-and_then (d, r) f h k }

  pub Keeps-bind_reading :
      (g : Disk → Result A) (f : A → Action B)
      → ((d : Disk) (a : A)
          → g d ≡ ok a
          → Q d.active d.revoked
          → Q (f a d).0.active (f a d).0.revoked)
      → Keeps Q (reading g >>= f)
  Keeps-bind_reading g f k = record { at = λ d h. go d (g d) refl h }
    where
      go :
          (d : Disk) (r : Result A)
          → g d ≡ r
          → Q d.active d.revoked
          → Q (and_then (d, r) f).0.active (and_then (d, r) f).0.revoked
      go d (ok a) e h = k d a e h
      go d (err x) e h = h

module _ {Q : Dir → Dir → Type 0} where
  put_pending-Keeps : (f : Disk → Result Dir) → Keeps Q (λ d. put_pending d (f d))
  put_pending-Keeps f = record { at = λ d h. go d (f d) h }
    where
      go :
          (d : Disk) (r : Result Dir)
          → Q d.active d.revoked
          → Q (put_pending d r).0.active (put_pending d r).0.revoked
      go d (ok dir) h = h
      go d (err e) h = h

  drop_if-Keeps : (b : Bool) (name : Bytes) → Keeps Q (λ d. (drop_if b name d, ok tt))
  drop_if-Keeps true name = record { at = λ d h. h }
  drop_if-Keeps false name = record { at = λ d h. h }

  module _ (s : Serde) where
    write_new-Keeps : (path : Bytes) (r : PairingRecord) → Keeps Q (write_new s path r)
    unfolding write_new
    write_new-Keeps path r =
        Keeps-bind (lift (to_bytes s r)) _ (Keeps-lift (to_bytes s r))
          (λ bs. put_pending-Keeps (λ d. write_atomic path bs d.pending))

    write_over-Keeps :
        (path : Bytes) (r : PairingRecord) (old : Option PairingRecord)
        → Keeps Q (write_over s path r old)
    write_over-Keeps path r none = unfold write_over in write_new-Keeps path r
    write_over-Keeps path r (some old) =
        unfold write_over in
        Keeps-bind (lift (ensure_same_binding old r)) _ (Keeps-lift (ensure_same_binding old r))
          (λ _. go (is_complete old))
      where
        go :
            (b : Bool)
            → Keeps Q (elim b as (λ _. Action (Unit {0})) [
              | true ↦ lift (ok tt)
              | false ↦ write_new s path r
            ])
        go true = Keeps-lift (ok tt)
        go false = write_new-Keeps path r

    -- Pending records never touch active or revoked ones.
    pub write_pending-Keeps : (r : PairingRecord) → Keeps Q (write_pending s r)
    unfolding write_pending
    write_pending-Keeps r =
        Keeps-bind (lift (path_of r.pair_id)) _ (Keeps-lift (path_of r.pair_id)) (λ path.
          Keeps-bind (reading (λ d. read_record s path d.pending)) _
            (Keeps-reading (λ d. read_record s path d.pending))
            (λ old. write_over-Keeps path r old))

    remove_stale_loop-Keeps :
        (dir : Dir) (active : PairingRecord) → Keeps Q (remove_stale_loop s dir active)
    remove_stale_loop-Keeps [] active = unfold remove_stale_loop in Keeps-lift (ok tt)
    remove_stale_loop-Keeps ((name, node) ∷ rest) active =
        step (remove_stale_loop-Keeps rest active)
      where
        step :
            Keeps Q (remove_stale_loop s rest active)
            → Keeps Q (remove_stale_loop s ((name, node) ∷ rest) active)
        step ih =
            unfold remove_stale_loop in
            Keeps-bind (lift (read_node s node)) _ (Keeps-lift (read_node s node)) (λ r.
              Keeps-bind (λ d. (drop_if (same_pair r active) name d, ok tt)) _
                (drop_if-Keeps (same_pair r active) name) (λ _. ih))

    pub remove_stale_pending-Keeps :
        (active : PairingRecord) → Keeps Q (remove_stale_pending s active)
    unfolding remove_stale_pending
    remove_stale_pending-Keeps active = record {
      at = λ d h. (remove_stale_loop-Keeps d.pending active).at d h;
    }
