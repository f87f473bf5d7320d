-- ===== src/Store/Trust.antt =====
-- The invariant of trust.rs's directories: active means signed by both, revoked means never active.
use omarchy_sync.Record.{PairingRecord, Serde, is_some}
use omarchy_sync.Store.Activation.{Operation, apply_all, apply_all-keeps}
use omarchy_sync.Base.{
  Bool, Bytes, List, Option, [], ap, eq_bytes, eq_bytes→eq, false, if◌then◌else◌, none, not, refl,
  some, some-injective, sym, true, ◌∙◌, ◌∷◌, ◌≡◌,
}
use mathlib.Core.Path.{subst}
use omarchy_sync.Crypto.{Crypto}
use omarchy_sync.Store.Disk.{Dir, Disk, Node, exists, file_name, find, regular, remove}
use omarchy_sync.Store.Facts.{Grows, to_bytes-eq-ok}
use omarchy_sync.Store.Valid.{IsBilateral}
use omarchy_sync.Runtime.Peers.{fresh}

-- Nothing is found under a name that was removed.
pub find-removed : (path : Bytes) (dir : Dir) → find path (remove path dir) ≡ none
unfolding find remove
find-removed path [] = refl
find-removed path ((n, x) ∷ dir) = step (eq_bytes n path) refl (find-removed path dir)
  where
    step :
        (b : Bool)
        → eq_bytes n path ≡ b
        → find path (remove path dir) ≡ none
        → find path (elim (not b) as (λ _. Dir) [
          | true ↦ (n, x) ∷ remove path dir
          | false ↦ remove path dir
        ])
          ≡ none
    step true e ih = ih
    step false e ih = rw e ih

-- A removal of another name changes nothing.
pub find-remove_other :
    (path name : Bytes) (dir : Dir)
    → eq_bytes path name ≡ false
    → find name (remove path dir) ≡ find name dir
unfolding find remove
find-remove_other path name [] h = refl
find-remove_other path name ((n, x) ∷ dir) h =
    go (find-remove_other path name dir h) (eq_bytes n path) refl
  where
    go :
        (find name (remove path dir) ≡ find name dir)
        → (b : Bool) → eq_bytes n path ≡ b
        → find name (elim (not b) as (λ _. Dir) [
          | true ↦ (n, x) ∷ remove path dir
          | false ↦ remove path dir
        ])
          ≡ (if eq_bytes n name then some x else find name dir)
    go ih true e =
        let skip : eq_bytes n name ≡ false =
          ap (λ (w : Bytes). eq_bytes w name) (eq_bytes→eq n path e) ∙ h in
        rw skip ih
    go ih false e = rw ih refl

-- What is found after a removal was there before.
find-remove :
    (path name : Bytes) (dir : Dir) (node : Node)
    → find name (remove path dir) ≡ some node
    → find name dir ≡ some node
unfolding find remove
find-remove path name [] node h = h
find-remove path name ((n, x) ∷ dir) node h =
    go (find-remove path name dir node) (eq_bytes n path) refl (eq_bytes n name) refl h
  where
    go :
        (find name (remove path dir) ≡ some node → find name dir ≡ some node)
        → (b : Bool) → eq_bytes n path ≡ b
        → (c : Bool) → eq_bytes n name ≡ c
        → find name (elim (not b) as (λ _. Dir) [
          | true ↦ (n, x) ∷ remove path dir
          | false ↦ remove path dir
        ])
          ≡ some node
        → (if c then some x else find name dir) ≡ some node
    go ih true e false f h = ih h
    go ih true e true f h =
        let same : path ≡ name = sym (eq_bytes→eq n path e) ∙ eq_bytes→eq n name f in
        cc (h, same, find-removed path dir)
    go ih false e true f h =
        subst (λ b. (if b then some x else find name (remove path dir)) ≡ some node) f h
    go ih false e false f h =
        ih (subst (λ b. (if b then some x else find name (remove path dir)) ≡ some node) f h)

-- An entry is the file of a record that both devices signed, under that record's own name.
pub record IsSignedFile (k : Crypto) (s : Serde) (name : Bytes) (node : Node) : Type 0 where
  pub entry : PairingRecord
  pub named : name ≡ file_name entry.pair_id
  pub file : node ≡ regular (s.to_json entry)
  pub signed : IsBilateral k entry

pub record IsTrusted (k : Crypto) (s : Serde) (active revoked : Dir) : Type 0 where
  pub never_revoked : (name : Bytes) → exists name revoked ≡ true → find name active ≡ none
  pub bilateral :
      (name : Bytes) (node : Node) → find name active ≡ some node → IsSignedFile k s name node

module _ (k : Crypto) (s : Serde) where
  -- Adding the file of a signed record under a free name keeps the invariant.
  Grows-IsTrusted : (r : PairingRecord) → IsBilateral k r → Grows s (IsTrusted k s) r
  unfolding find
  Grows-IsTrusted r b path bs a v p w fresh free t = record {
    never_revoked = λ name e. absent name e (eq_bytes path name) refl;
    bilateral = λ name node e. signed name node (eq_bytes path name) refl e;
  }
    where
      at_head :
          (name : Bytes) {o : Option Node}
          → eq_bytes path name ≡ true
          → find name ((path, regular bs) ∷ a) ≡ o
          → some (regular bs) ≡ o
      at_head name {o} f e = subst (λ b. (if b then some (regular bs) else find name a) ≡ o) f e

      past_head :
          (name : Bytes) {o : Option Node}
          → eq_bytes path name ≡ false
          → find name ((path, regular bs) ∷ a) ≡ o
          → find name a ≡ o
      past_head name {o} f e = subst (λ b. (if b then some (regular bs) else find name a) ≡ o) f e

      absent :
          (name : Bytes)
          → exists name v ≡ true
          → (c : Bool) → eq_bytes path name ≡ c
          → find name ((path, regular bs) ∷ a) ≡ none
      absent name e true f =
          let same : path ≡ name = eq_bytes→eq path name f in
          let taken : exists path v ≡ true = subst (λ n. exists n v ≡ true) (sym same) e in
          cc (taken, fresh)
      absent name e false f = rw f (t.never_revoked name e)

      signed :
          (name : Bytes) (node : Node)
          → (c : Bool) → eq_bytes path name ≡ c
          → find name ((path, regular bs) ∷ a) ≡ some node
          → IsSignedFile k s name node
      signed name node true f e = record {
        entry = r;
        named = sym (eq_bytes→eq path name f) ∙ p;
        file = sym (some-injective _ _ (at_head name f e)) ∙ ap regular (to_bytes-eq-ok s r bs w);
        signed = b;
      }
      signed name node false f e = t.bilateral name node (past_head name f e)

  Moves-IsTrusted :
      (path : Bytes) (node : Node) (a v : Dir)
      → find path a ≡ some node
      → IsTrusted k s a v
      → IsTrusted k s (remove path a) ((path, node) ∷ v)
  unfolding find
  Moves-IsTrusted path node a v _ t = record {
    never_revoked = λ name e. absent name e (eq_bytes path name) refl;
    bilateral = λ name n e. t.bilateral name n (find-remove path name a n e);
  }
    where
      still :
          (name : Bytes) (o : Option Node)
          → find name (remove path a) ≡ o
          → find name a ≡ none
          → o ≡ none
      still name none e f = refl
      still name (some x) e f = cc (find-remove path name a x e, f)

      absent :
          (name : Bytes)
          → exists name ((path, node) ∷ v) ≡ true
          → (c : Bool) → eq_bytes path name ≡ c
          → find name (remove path a) ≡ none
      absent name e true f =
          subst (λ n. find n (remove path a) ≡ none) (eq_bytes→eq path name f) (find-removed path a)
      absent name e false f = still name (find name (remove path a)) refl (
          t.never_revoked name
            (subst (λ b. is_some (if b then some node else find name v) ≡ true) f e))

  -- Whatever operations are called with whatever arguments, if before them no revoked name is
  -- active and every active file is a record that both devices signed, so it is after them.
  pub apply_all-IsTrusted :
      (ops : List Operation) (d : Disk)
      → IsTrusted k s d.active d.revoked
      → IsTrusted k s (apply_all k s ops d).active (apply_all k s ops d).revoked
  apply_all-IsTrusted ops d =
      apply_all-keeps k s (IsTrusted k s) Grows-IsTrusted Moves-IsTrusted ops d
