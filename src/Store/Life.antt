-- ===== src/Store/Life.antt =====
-- The life of one name in the directories of trust.rs, as a specification, and that the operations
-- of the store follow it.
use omarchy_sync.Store.Disk.{Dir, Disk, Node, exists, find, regular, remove}
use omarchy_sync.Store.Activation.{Operation, apply_all, apply_all-keeps}
use omarchy_sync.Record.{Serde, is_some}
use omarchy_sync.Store.Trust.{find-remove_other, find-removed}
use omarchy_sync.Base.{
  Bool, Bool-cases, Bytes, List, Option, ap, eq_bytes, eq_bytes→eq, false, if◌then◌else◌, inl, inr,
  none, refl, some, sym, true, ◌∙◌, ◌∷◌, ◌≡◌,
}
use mathlib.Core.Path.{subst}
use omarchy_sync.Crypto.{Crypto}
use omarchy_sync.Runtime.Peers.{fresh}

-- Under a name there is no trusted record, one that is active, or a revoked one.
pub data Life : Type 0 where
  absent : Life
  active : Node → Life
  revoked : Life

-- What may happen to a name: it is activated once, and revoked once.
pub data Lives : Life → Life → Type 0 where
  same : (l : Life) → Lives l l
  activated : (l : Life) (node : Node) → Lives l absent → Lives l (active node)
  retired : (l : Life) (node : Node) → Lives l (active node) → Lives l revoked

abbrev life_found : Option Node → Life
life_found none = absent
life_found (some node) = active node

-- The life of a name that the directories show.
unfoldable pub life : Bytes → Dir → Dir → Life
life name a v = if exists name v then revoked else life_found (find name a)

-- How it went from a life until now, and that a revoked name is not active.
record IsLived (name : Bytes) (l : Life) (a v : Dir) : Type 0 where
  pub lives : Lives l (life name a v)
  pub exclusive : exists name v ≡ true → find name a ≡ none

module _ (name : Bytes) where
  -- Only what is seen under the name decides its life.
  same_life :
      (a b v w : Dir)
      → find name a ≡ find name b
      → find name v ≡ find name w
      → life name a v ≡ life name b w
  unfolding life
  same_life a b v w e f =
      ap (λ x. if is_some x then revoked else life_found (find name a)) f
      ∙ ap (λ x. if exists name w then revoked else life_found x) e

  life-absent : (a v : Dir) → exists name v ≡ false → find name a ≡ none → life name a v ≡ absent
  unfolding life
  life-absent a v h e = rw (h, e) refl

  life-active :
      (a v : Dir) (node : Node)
      → exists name v ≡ false
      → find name a ≡ some node
      → life name a v ≡ active node
  unfolding life
  life-active a v node h e = rw (h, e) refl

  life-revoked : (a v : Dir) → exists name v ≡ true → life name a v ≡ revoked
  unfolding life
  life-revoked a v h = rw h refl

  find-head :
      (path : Bytes) (node : Node) (dir : Dir)
      → eq_bytes path name ≡ true
      → find name ((path, node) ∷ dir) ≡ some node
  unfolding find
  find-head path node dir e = rw e refl

  find-past :
      (path : Bytes) (node : Node) (dir : Dir)
      → eq_bytes path name ≡ false
      → find name ((path, node) ∷ dir) ≡ find name dir
  unfolding find
  find-past path node dir e = rw e refl

  module _ (l : Life) where
    grown :
        (path bs : Bytes) (a v : Dir)
        → exists path v ≡ false
        → find path a ≡ none
        → IsLived name l a v
        → IsLived name l ((path, regular bs) ∷ a) v
    grown path bs a v fresh free h = go (eq_bytes path name) refl
      where
        go : (b : Bool) → eq_bytes path name ≡ b → IsLived name l ((path, regular bs) ∷ a) v
        go false e = record {
          lives =
              subst (λ x. Lives l x)
                (same_life a _ v v (sym (find-past path (regular bs) a e)) refl) h.lives;
          exclusive = λ r. find-past path (regular bs) a e ∙ h.exclusive r;
        }
        go true e =
            let one : path ≡ name = eq_bytes→eq path name e in
            let fresh' : exists name v ≡ false = subst (λ n. exists n v ≡ false) one fresh in
            let free' : find name a ≡ none = subst (λ n. find n a ≡ none) one free in
            record {
              lives =
                  subst (λ x. Lives l x)
                    (sym (
                      life-active ((path, regular bs) ∷ a) v (regular bs) fresh'
                        (find-head path (regular bs) a e)))
                    (activated l (regular bs)
                      (subst (λ x. Lives l x) (life-absent a v fresh' free') h.lives));
              exclusive = λ r. cc (r, fresh');
            }

    moved_out :
        (path : Bytes) (node : Node) (a v : Dir)
        → find path a ≡ some node
        → IsLived name l a v
        → IsLived name l (remove path a) ((path, node) ∷ v)
    moved_out path node a v seen h = go (eq_bytes path name) refl
      where
        go : (b : Bool) → eq_bytes path name ≡ b → IsLived name l (remove path a) ((path, node) ∷ v)
        go false e = record {
          lives =
              subst (λ x. Lives l x)
                (same_life a _ v _ (sym (find-remove_other path name a e))
                  (sym (find-past path node v e)))
                h.lives;
          exclusive = λ r.
              find-remove_other path name a e
              ∙ h.exclusive (ap (λ x. is_some x) (sym (find-past path node v e)) ∙ r);
        }
        go true e =
            let one : path ≡ name = eq_bytes→eq path name e in
            let seen_here : find name a ≡ some node = subst (λ n. find n a ≡ some node) one seen in
            let fresh : exists name v ≡ false = elim (Bool-cases (exists name v)) [
              | inl there ↦ cc (seen_here, h.exclusive there)
              | inr out ↦ out
            ] in
            record {
              lives =
                  subst (λ x. Lives l x)
                    (sym (
                      life-revoked (remove path a) ((path, node) ∷ v)
                        (ap (λ x. is_some x) (find-head path node v e))))
                    (retired l node
                      (subst (λ x. Lives l x) (life-active a v node fresh seen_here) h.lives));
              exclusive = λ r. subst (λ n. find n (remove path a) ≡ none) one (find-removed path a);
            }

module _ (k : Crypto) (s : Serde) where
  -- The store follows the specification of a name's life: whatever operations are called with
  -- whatever arguments, if a name is not active and revoked at once before them, then each name
  -- goes at most from absent to active and from active to revoked: no file that is active is ever
  -- replaced by another, nothing revoked comes back, and nothing is revoked that was not active.
  pub apply_all-Lives :
      (name : Bytes) (ops : List Operation) (d : Disk)
      → (exists name d.revoked ≡ true → find name d.active ≡ none)
      → Lives
          (life name d.active d.revoked)
          (life name (apply_all k s ops d).active (apply_all k s ops d).revoked)
  apply_all-Lives name ops d exclusive =
      (apply_all-keeps k s (IsLived name l)
        (λ r _ path bs a v _ _ fresh free h. grown name l path bs a v fresh free h)
        (λ path node a v seen h. moved_out name l path node a v seen h) ops d
        (record { lives = same l; exclusive = exclusive })).lives
    where
      l : Life
      l = life name d.active d.revoked
