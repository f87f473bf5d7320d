-- ===== src/Root/Chain.antt =====
-- What `from_secure_path` of protocol_v3.rs asks of the file system.
use omarchy_sync.Root.{
  AbsolutePath, FileView, Metadata, PinnedOmarchyRoot, chain_from, from_bytes, from_secure_path,
  insecure_directory, root_controlled_parent_chain, root_key_metadata_is_secure, root_key_policy,
}
use omarchy_sync.Root.Permissions.{bit_and_write_iff}
use omarchy_sync.Base.{
  ==_iff, >>=-eq-ok, All, Bool, Bytes, Error, List, Option, Result, [], and-eq-true, ap,
  bail_if-eq-ok, context, false, io_failed, le→ltb, length, ltb, ltb→le, none, not, not-eq-false,
  ok, ok_inj, or-eq-false, refl, some, true, ◌%◌, ◌&&◌, ◌/◌, ◌==◌, ◌||◌, ◌∙◌, ◌∷◌, ◌↔◌, ◌≡◌, ◌≤◌,
}
use Prim.Native.Nat.{bit_and}
use omarchy_sync.Crypto.{Crypto}

-- Owned by root, with the bits clear that let the group and the others write.
pub record IsRootOnly (m : Metadata) : Type 0 where
  pub owner : m.uid ≡ 0
  pub group : m.mode / 16 % 2 ≡ 0
  pub others : m.mode / 2 % 2 ≡ 0

abbrev pub IsRootFile : FileView → AbsolutePath → Type 0
IsRootFile fs path = (m : Metadata) × (fs.stat path ≡ some m) × (m.is_file ≡ true) × IsRootOnly m

abbrev pub IsRootDirectory : FileView → AbsolutePath → Type 0
IsRootDirectory fs path =
    (m : Metadata) × (fs.stat path ≡ some m) × (m.is_dir ≡ true) × IsRootOnly m

-- A directory and every one above it, up to the root directory.
abbrev pub ancestors : AbsolutePath → List AbsolutePath
ancestors [] = [] ∷ []
ancestors (name ∷ up) = (name ∷ up) ∷ ancestors up

not-eq-true : (b : Bool) → not b ≡ true → b ≡ false
not-eq-true true h = cc
not-eq-true false h = refl

context-some : {A : Type 0} (o : Option A) (e : Error) {a : A} → context o e ≡ ok a → o ≡ some a
context-some none e h = cc
context-some (some x) e h = ap some (ok_inj h)

-- What the checks of an owner and a mode say, bit by bit.
owner_and_mode_iff :
    (m : Metadata) → (((m.uid == 0) ≡ true) × ((bit_and m.mode 0o022 == 0) ≡ true)) ↔ IsRootOnly m
owner_and_mode_iff m = (
  λ h.
      let (group, others) = (bit_and_write_iff m.mode).0 ((==_iff (bit_and m.mode 18) 0).0 h.1) in
      record { owner = (==_iff m.uid 0).0 h.0; group = group; others = others },
  λ o. (
    (==_iff m.uid 0).1 o.owner,
    (==_iff (bit_and m.mode 18) 0).1 ((bit_and_write_iff m.mode).1 (o.group, o.others)),
  ),
)

root_key_metadata_iff :
    (m : Metadata) → (root_key_metadata_is_secure m ≡ true) ↔ ((m.is_file ≡ true) × IsRootOnly m)
unfolding root_key_metadata_is_secure root_key_policy
root_key_metadata_iff m = (
  λ h.
      let (both, masked) = and-eq-true (m.uid == 0 && m.is_file) (bit_and m.mode 0o022 == 0) h in
      let (owned, file) = and-eq-true (m.uid == 0) m.is_file both in
      (file, (owner_and_mode_iff m).0 (owned, masked)),
  λ h. let (owned, masked) = (owner_and_mode_iff m).1 h.1 in all_three _ _ _ owned h.0 masked,
)
  where
    all_three : (a b c : Bool) → a ≡ true → b ≡ true → c ≡ true → (a && b && c) ≡ true
    all_three a b c p q r = rw (p, q, r) refl

insecure_directory_iff :
    (m : Metadata) → (insecure_directory m ≡ false) ↔ ((m.is_dir ≡ true) × IsRootOnly m)
unfolding insecure_directory
insecure_directory_iff m = (
  λ h.
      let (both, masked) = or-eq-false (not m.is_dir || not (m.uid == 0)) _ h in
      let (dir, owned) = or-eq-false (not m.is_dir) _ both in
      (not-eq-false dir, (owner_and_mode_iff m).0 (not-eq-false owned, not-eq-false masked)),
  λ h. let (owned, masked) = (owner_and_mode_iff m).1 h.1 in none_of _ _ _ h.0 owned masked,
)
  where
    none_of : (a b c : Bool) → a ≡ true → b ≡ true → c ≡ true → (not a || not b || not c) ≡ false
    none_of a b c p q r = rw (p, q, r) refl

module _ (fs : FileView) where
  chain_from→All :
      (path : AbsolutePath)
      → chain_from fs path ≡ ok true
      → All (IsRootDirectory fs) (ancestors path)
  unfolding chain_from
  chain_from→All [] h =
      let (m, e, h1) = >>=-eq-ok (context (fs.stat []) io_failed) _ h in
      let (dir, only) = (insecure_directory_iff m).0 (not-eq-true _ (ok_inj h1)) in
      ((m, context-some _ _ e, dir, only), tt)
  chain_from→All (name ∷ up) h =
      let (m, e, h1) = >>=-eq-ok (context (fs.stat (name ∷ up)) io_failed) _ h in
      round m (context-some _ _ e) (chain_from→All up) (insecure_directory m) refl h1
    where
      round :
          (m : Metadata)
          → fs.stat (name ∷ up) ≡ some m
          → (chain_from fs up ≡ ok true → All (IsRootDirectory fs) (ancestors up))
          → (b : Bool) → insecure_directory m ≡ b
          → (elim b as (λ _. Result Bool) [ true ↦ ok false | false ↦ chain_from fs up ]) ≡ ok true
          → All (IsRootDirectory fs) (ancestors (name ∷ up))
      round m e rest true w k = cc
      round m e rest false w k =
          let (dir, only) = (insecure_directory_iff m).0 w in ((m, e, dir, only), rest k)

  All→chain_from :
      (path : AbsolutePath)
      → All (IsRootDirectory fs) (ancestors path)
      → chain_from fs path ≡ ok true
  unfolding chain_from
  All→chain_from [] ((m, e, dir, only), _) = rw (e, (insecure_directory_iff m).1 (dir, only)) refl
  All→chain_from (name ∷ up) ((m, e, dir, only), rest) = rw e (
      go (insecure_directory m) ((insecure_directory_iff m).1 (dir, only)) (All→chain_from up rest))
    where
      go :
          (b : Bool)
          → b ≡ false
          → chain_from fs up ≡ ok true
          → (elim b as (λ _. Result Bool) [ true ↦ ok false | false ↦ chain_from fs up ]) ≡ ok true
      go true w h = cc w
      go false w h = h

-- `from_secure_path` of a file under a directory yields a root exactly if the file itself is a
-- regular one that root owns and neither group nor others may write, every directory above it up to
-- the root directory is a directory that root owns and neither group nor others may write, and the
-- root is what the file's bytes, at most 4096, stand for.
pub from_secure_path_iff :
    (k : Crypto) (fs : FileView) (name : Bytes) (up : AbsolutePath) (root : PinnedOmarchyRoot)
    → (from_secure_path k fs (name ∷ up) ≡ ok root) ↔ (
        IsRootFile fs (name ∷ up)
        × All (IsRootDirectory fs) (ancestors up)
        × ((bs : Bytes) × (fs.content (name ∷ up) ≡ some bs)
            × (length bs ≤ 4096)
            × (from_bytes k bs ≡ ok root)))
unfolding from_secure_path root_controlled_parent_chain
from_secure_path_iff k fs name up root = (
  λ h.
      let (m, e, h1) = >>=-eq-ok (context (fs.stat (name ∷ up)) io_failed) _ h in
      let (secure, h2) = bail_if-eq-ok (not (root_key_metadata_is_secure m)) _ _ h1 in
      let (controlled, c, h3) = >>=-eq-ok (chain_from fs up) _ h2 in
      let (passed, h4) = bail_if-eq-ok (not controlled) _ _ h3 in
      let (bs, t, h5) = >>=-eq-ok (context (fs.content (name ∷ up)) io_failed) _ h4 in
      let (short, h6) = bail_if-eq-ok (ltb 4096 (length bs)) _ _ h5 in
      let (file, only) = (root_key_metadata_iff m).0 (not-eq-false secure) in
      (
        (m, context-some _ _ e, file, only),
        chain_from→All fs up (c ∙ ap ok (not-eq-false passed)),
        (bs, context-some _ _ t, ltb→le 4096 (length bs) short, h6),
      ),
  λ h. accepted h.0 h.1 h.2,
)
  where
    accepted :
        IsRootFile fs (name ∷ up)
        → All (IsRootDirectory fs) (ancestors up)
        → ((bs : Bytes) × (fs.content (name ∷ up) ≡ some bs)
            × (length bs ≤ 4096)
            × (from_bytes k bs ≡ ok root))
        → from_secure_path k fs (name ∷ up) ≡ ok root
    accepted (m, e, file, only) above (bs, t, short, parsed) =
        rw
          (
            e,
            (root_key_metadata_iff m).1 (file, only),
            All→chain_from fs up above,
            t,
            le→ltb 4096 (length bs) short,
          )
          parsed
