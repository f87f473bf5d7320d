-- ===== src/Store/Active.antt =====
-- When `has_active_pairing` of trust.rs says yes, when it says no, and so when it fails.
use omarchy_sync.Record.{PairingRecord, Serde, validate_device_id}
use omarchy_sync.Store.{PairingStore, validate_stored}
use omarchy_sync.Base.{
  >>-eq-ok, >>=-eq-ok, All, Bool, Bytes, Option, Result, [], and-eq-true, ap, append-nil, eq_bytes,
  eq_bytes→eq, eq_bytes_refl, false, inl, inr, none, ok, refl, some, sym, true, ◌&&◌, ◌++◌, ◌>>=◌,
  ◌||◌, ◌∙◌, ◌∷◌, ◌≡◌, ◌↔◌, ◌⊎◌,
}
use omarchy_sync.Crypto.{Crypto}
use omarchy_sync.Store.Disk.{Dir, Disk, Node, read_record}
use omarchy_sync.Store.Lookup.{active_entry, active_loop, has_active_pairing, matches_peers}

-- The two devices of the record are `local` and `peer`, in either role.
abbrev pub IsBetween : Bytes → Bytes → PairingRecord → Type 0
IsBetween local peer r =
    ((r.initiator_device_id ≡ local) × (r.responder_device_id ≡ peer))
    ⊎ ((r.initiator_device_id ≡ peer) × (r.responder_device_id ≡ local))

matches_peers→IsBetween :
    (local peer : Bytes) (r : PairingRecord)
    → matches_peers local peer r ≡ true
    → IsBetween local peer r
matches_peers→IsBetween local peer r h =
    go (eq_bytes r.initiator_device_id local && eq_bytes r.responder_device_id peer) refl h
  where
    both : (a b c d : Bytes) → (eq_bytes a b && eq_bytes c d) ≡ true → (a ≡ b) × (c ≡ d)
    both a b c d e =
        let (p, q) = and-eq-true (eq_bytes a b) (eq_bytes c d) e in
        (eq_bytes→eq a b p, eq_bytes→eq c d q)

    go :
        (b : Bool)
        → (eq_bytes r.initiator_device_id local && eq_bytes r.responder_device_id peer) ≡ b
        → (b || eq_bytes r.initiator_device_id peer && eq_bytes r.responder_device_id local) ≡ true
        → IsBetween local peer r
    go true e w = inl (both r.initiator_device_id local r.responder_device_id peer e)
    go false e w = inr (both r.initiator_device_id peer r.responder_device_id local w)

IsBetween→matches_peers :
    (local peer : Bytes) (r : PairingRecord)
    → IsBetween local peer r
    → matches_peers local peer r ≡ true
IsBetween→matches_peers local peer r (inl (a, b)) =
    rw (a, b, eq_bytes_refl local, eq_bytes_refl peer) refl
IsBetween→matches_peers local peer r (inr (a, b)) =
    rw (a, b, eq_bytes_refl local, eq_bytes_refl peer)
      (last (eq_bytes peer local && eq_bytes local peer))
  where
    last : (b : Bool) → (b || true) ≡ true
    last true = refl
    last false = refl

-- The entry's file is a record that `validate_stored` accepts.
pub record IsStored (k : Crypto) (s : Serde) (store : PairingStore) (dir : Dir) (name : Bytes)
    (r : PairingRecord) : Type 0 where
  pub read : read_record s name dir ≡ ok (some r)
  pub valid : validate_stored k store r ≡ ok tt

module _ (k : Crypto) (s : Serde) (store : PairingStore) (local peer : Bytes) (dir : Dir) where
  -- A valid record of other devices, or an entry that is gone.
  abbrev pub IsOther : Bytes × Node → Type 0
  IsOther (name, node) =
      (read_record s name dir ≡ ok none)
      ⊎ ((r : PairingRecord) × IsStored k s store dir name r × (¬ IsBetween local peer r))

  -- Of the entries listed, one is a valid record of the two devices, and those before it are other.
  pub record IsFound (list : Dir) : Type 0 where
    pub before : Dir
    pub name : Bytes
    pub node : Node
    pub after : Dir
    pub listed : list ≡ before ++ ((name, node) ∷ after)
    pub others : All IsOther before
    pub found : PairingRecord
    pub stored : IsStored k s store dir name found
    pub between : IsBetween local peer found

  later : (e : Bytes × Node) (rest : Dir) → IsOther e → IsFound rest → IsFound (e ∷ rest)
  later e rest other f = record {
    before = e ∷ f.before;
    name = f.name;
    node = f.node;
    after = f.after;
    listed = ap (λ (l : Dir). e ∷ l) f.listed;
    others = (other, f.others);
    found = f.found;
    stored = f.stored;
    between = f.between;
  }

  -- What one entry leads to.
  entry-true :
      (name : Bytes) (node : Node) (rest : Dir) (next : Result Bool) (o : Option PairingRecord)
      → read_record s name dir ≡ ok o
      → (next ≡ ok true → IsFound rest)
      → active_entry k s store local peer next o ≡ ok true
      → IsFound ((name, node) ∷ rest)
  unfolding active_entry
  entry-true name node rest next none e ih h = later (name, node) rest (inl e) (ih h)
  entry-true name node rest next (some r) e ih h =
      let (v, h1) = >>-eq-ok (validate_stored k store r) _ h in
      go v (matches_peers local peer r) refl h1
    where
      go :
          validate_stored k store r ≡ ok tt
          → (b : Bool) → matches_peers local peer r ≡ b
          → (elim b as (λ _. Result Bool) [ true ↦ ok true | false ↦ next ]) ≡ ok true
          → IsFound ((name, node) ∷ rest)
      go v true m w = record {
        before = [];
        name = name;
        node = node;
        after = rest;
        listed = refl;
        others = tt;
        found = r;
        stored = record { read = e; valid = v };
        between = matches_peers→IsBetween local peer r m;
      }
      go v false m w =
          later (name, node) rest
            (inr (
              r,
              record { read = e; valid = v },
              λ b. cc (m, IsBetween→matches_peers local peer r b),
            ))
            (ih w)

  entry-false :
      (name : Bytes) (node : Node) (next : Result Bool) (o : Option PairingRecord)
      → read_record s name dir ≡ ok o
      → active_entry k s store local peer next o ≡ ok false
      → IsOther (name, node) × (next ≡ ok false)
  unfolding active_entry
  entry-false name node next none e h = (inl e, h)
  entry-false name node next (some r) e h =
      let (v, h1) = >>-eq-ok (validate_stored k store r) _ h in
      go v (matches_peers local peer r) refl h1
    where
      go :
          validate_stored k store r ≡ ok tt
          → (b : Bool) → matches_peers local peer r ≡ b
          → (elim b as (λ _. Result Bool) [ true ↦ ok true | false ↦ next ]) ≡ ok false
          → IsOther (name, node) × (next ≡ ok false)
      go v true m w = cc w
      go v false m w = (
        inr (
          r,
          record { read = e; valid = v },
          λ b. cc (m, IsBetween→matches_peers local peer r b),
        ),
        w,
      )

  -- An entry that is other is passed over, and one of the two devices decides.
  entry-IsOther :
      (name : Bytes) (node : Node) (next : Result Bool)
      → IsOther (name, node)
      → (read_record s name dir >>= λ o. active_entry k s store local peer next o) ≡ next
  unfolding active_entry
  entry-IsOther name node next (inl e) = rw e refl
  entry-IsOther name node next (inr (r, stored, other)) =
      rw (stored.read, stored.valid) (go (matches_peers local peer r) refl)
    where
      go :
          (b : Bool)
          → matches_peers local peer r ≡ b
          → (elim b as (λ _. Result Bool) [ true ↦ ok true | false ↦ next ]) ≡ next
      go true m = absurd (other (matches_peers→IsBetween local peer r m))
      go false m = refl

  entry-IsBetween :
      (name : Bytes) (next : Result Bool) (r : PairingRecord)
      → IsStored k s store dir name r
      → IsBetween local peer r
      → (read_record s name dir >>= λ o. active_entry k s store local peer next o) ≡ ok true
  unfolding active_entry
  entry-IsBetween name next r stored between =
      rw (stored.read, stored.valid, IsBetween→matches_peers local peer r between) refl

  loop-true : (list : Dir) → active_loop k s store local peer dir list ≡ ok true → IsFound list
  unfolding active_loop
  loop-true [] h = cc
  loop-true ((name, node) ∷ rest) h =
      let (o, e, h1) = >>=-eq-ok (read_record s name dir) _ h in
      entry-true name node rest (active_loop k s store local peer dir rest) o e (loop-true rest) h1

  loop-false :
      (list : Dir) → active_loop k s store local peer dir list ≡ ok false → All IsOther list
  unfolding active_loop
  loop-false [] h = tt
  loop-false ((name, node) ∷ rest) h =
      let (o, e, h1) = >>=-eq-ok (read_record s name dir) _ h in
      let (other, h2) = entry-false name node (active_loop k s store local peer dir rest) o e h1 in
      (other, loop-false rest h2)

  All-loop :
      (list rest : Dir)
      → All IsOther list
      → active_loop k s store local peer dir (list ++ rest)
        ≡ active_loop k s store local peer dir rest
  unfolding active_loop
  All-loop [] rest h = refl
  All-loop ((name, node) ∷ list) rest h =
      entry-IsOther name node (active_loop k s store local peer dir (list ++ rest)) h.0
      ∙ All-loop list rest h.1

  IsFound-loop : (list : Dir) → IsFound list → active_loop k s store local peer dir list ≡ ok true
  unfolding active_loop
  IsFound-loop list f =
      ap (λ l. active_loop k s store local peer dir l) f.listed
      ∙ All-loop f.before ((f.name, f.node) ∷ f.after) f.others
      ∙ entry-IsBetween f.name (active_loop k s store local peer dir f.after) f.found f.stored
          f.between

module _ (k : Crypto) (s : Serde) (store : PairingStore) (local peer : Bytes) where
  -- `has_active_pairing` says yes exactly if both DeviceIDs are well formed and some entry of the
  -- active directory is a record that `validate_stored` accepts and whose two devices are these, in
  -- either role, all entries listed before it being valid records of other devices or gone; it says
  -- no exactly if both are well formed and every entry is a valid record of other devices or gone.
  -- So it fails whenever it meets a file that is not valid before it can say yes.
  pub has_active_pairing_iff :
      (d : Disk)
      → ((has_active_pairing k s store local peer d ≡ ok true) ↔ (
          (validate_device_id local ≡ ok tt)
          × (validate_device_id peer ≡ ok tt)
          × IsFound k s store local peer d.active d.active))
        × ((has_active_pairing k s store local peer d ≡ ok false) ↔ (
            (validate_device_id local ≡ ok tt)
            × (validate_device_id peer ≡ ok tt)
            × All (IsOther k s store local peer d.active) d.active))
  unfolding has_active_pairing
  has_active_pairing_iff d = (
    (
      λ h.
          let (l, p, h1) = ids true h in
          (l, p, loop-true k s store local peer d.active d.active h1),
      λ h. rw (h.0, h.1) (IsFound-loop k s store local peer d.active d.active h.2),
    ),
    (
      λ h.
          let (l, p, h1) = ids false h in
          (l, p, loop-false k s store local peer d.active d.active h1),
      λ h. rw (h.0, h.1) (none_found h.2),
    ),
  )
    where
      ids :
          (b : Bool)
          → has_active_pairing k s store local peer d ≡ ok b
          → (validate_device_id local ≡ ok tt)
            × (validate_device_id peer ≡ ok tt)
            × (active_loop k s store local peer d.active d.active ≡ ok b)
      ids b h =
          let (l, h1) = >>-eq-ok (validate_device_id local) _ h in
          let (p, h2) = >>-eq-ok (validate_device_id peer) _ h1 in (l, p, h2)

      ended : active_loop k s store local peer d.active [] ≡ ok false
      ended = unfold active_loop in refl

      none_found :
          All (IsOther k s store local peer d.active) d.active
          → active_loop k s store local peer d.active d.active ≡ ok false
      none_found h =
          ap (λ l. active_loop k s store local peer d.active l) (sym (append-nil d.active))
          ∙ All-loop k s store local peer d.active d.active [] h
          ∙ ended
