-- ===== src/Identity/Capability/Grant.antt =====
-- What `grant_capability` of identity.rs leaves behind.
use omarchy_sync.Identity.Capability.{
  ActivePairingLookup, CapabilityRecord, CapabilitySerde, CapabilitySerdeLaws, CapabilityStore,
  grant_capability, granted, load, load_node, or_default, path_for, saved, validate_capability,
  write_atomic,
}
use omarchy_sync.Identity.Capability.Sets.{
  contains, contains-insert, insert, is_sorted, is_sorted-insert,
}
use omarchy_sync.Store.Disk.{Disk, file_name, find, regular, remove}
use omarchy_sync.Store.Trust.{find-remove_other}
use omarchy_sync.Base.{
  ==_iff, >>-elim, >>=-elim, Bool-cases, Bytes, List, Option, Result, all, ap, append_inj,
  bail_if-elim, codes, eq_bytes, eq_bytes_refl, eq_bytes→eq, err, false, if◌then◌else◌, inl, inr,
  is_ascii_hexdigit, length, not, not-eq-false, ok, ok_inj, or-eq-false, refl, some, sym, true,
  ◌==◌, ◌>>=◌, ◌||◌, ◌∙◌, ◌≡◌, ◌≢◌, ◌⊎◌,
}
use omarchy_sync.Crypto.{Crypto}

path_for-eq-ok :
    (id path : Bytes) → path_for id ≡ ok path → (length id ≡ 32) × (path ≡ file_name id)
unfolding path_for
path_for-eq-ok id path h =
    bail_if-elim (not (length id == 32) || not (all is_ascii_hexdigit id)) _ _ h λ good h1.
      let (size, _) = or-eq-false (not (length id == 32)) _ good in
      ((==_iff (length id) 32).0 (not-eq-false size), sym (ok_inj h1))

eq_bytes-ne : (xs ys : Bytes) → xs ≢ ys → eq_bytes xs ys ≡ false
eq_bytes-ne xs ys h = elim (Bool-cases (eq_bytes xs ys)) [
  | inl same ↦ absurd (h (eq_bytes→eq xs ys same))
  | inr other ↦ other
]

module _ (s : CapabilitySerde) where
  -- What is written for one device is not seen for another.
  load-write_atomic :
      (id peer path bs : Bytes) (store : CapabilityStore)
      → id ≢ peer
      → path_for peer ≡ ok path
      → load s id (write_atomic path bs store) ≡ load s id store
  unfolding load write_atomic find
  load-write_atomic id peer path bs store other h = go (path_for id) refl
    where
      go :
          (r : Result Bytes)
          → path_for id ≡ r
          → (r >>= λ name. load_node s id (
              if eq_bytes path name
              then some (regular bs)
              else find name (remove path store.directory)))
            ≡ (r >>= λ name. load_node s id (find name store.directory))
      go (err e) w = refl
      go (ok name) w =
          let (size, named) = path_for-eq-ok id name w in
          let (size', named') = path_for-eq-ok peer path h in
          let distinct : path ≢ name = λ e.
            other
              (append_inj id peer (codes ".json") (codes ".json") (size ∙ sym size')
                (sym named ∙ sym e ∙ named')).0 in
          let skip = eq_bytes-ne path name distinct in
          rw (skip, find-remove_other path name store.directory skip) refl

  -- What is written for a device is loaded for it.
  load-written :
      (laws : CapabilitySerdeLaws s) (path : Bytes) (r : CapabilityRecord) (peer : Bytes)
      (store : CapabilityStore)
      → path_for peer ≡ ok path
      → r.device_id ≡ peer
      → load s peer (write_atomic path (s.to_json r) store) ≡ ok (some r.capabilities)
  unfolding load write_atomic find
  load-written laws path r peer store named same =
      let own : eq_bytes r.device_id peer ≡ true =
        ap (λ x. eq_bytes x peer) same ∙ eq_bytes_refl peer in
      rw (named, eq_bytes_refl path, laws.of_json-to_json r, own) refl

  -- The record that is written, and the checks before it.
  record IsGranted (pairings : ActivePairingLookup) (local peer capability : Bytes)
      (store : CapabilityStore) (path : Bytes) (r : CapabilityRecord) : Type 0 where
    pub old : Option (List Bytes)
    pub active : pairings local peer ≡ ok true
    pub valid : validate_capability capability ≡ ok tt
    pub loaded : load s peer store ≡ ok old
    pub named : path_for peer ≡ ok path
    pub same_device : r.device_id ≡ peer
    pub same_set : r.capabilities ≡ insert capability (or_default old)

  module _ (pairings : ActivePairingLookup) (local_device_id peer_device_id capability : Bytes)
      (store : CapabilityStore) where
    granted-IsGranted :
        (path : Bytes) (r : CapabilityRecord)
        → granted s pairings local_device_id peer_device_id capability store ≡ ok (path, r)
        → IsGranted pairings local_device_id peer_device_id capability store path r
    unfolding granted
    granted-IsGranted path r h =
        >>=-elim (pairings local_device_id peer_device_id) _ h λ active e h1.
          bail_if-elim (not active) _ _ h1 λ yes h2.
            >>-elim (validate_capability capability) _ h2 λ valid h3.
              >>=-elim (load s peer_device_id store) _ h3 λ old loaded h4.
                >>=-elim (path_for peer_device_id) _ h4 λ name named h5. record {
                  old = old;
                  active = e ∙ ap ok (not-eq-false yes);
                  valid = valid;
                  loaded = loaded;
                  named = named ∙ ap (λ x. ok (x.0)) (ok_inj h5);
                  same_device =
                      ap (λ (x : Bytes × CapabilityRecord). x.1.device_id) (sym (ok_inj h5));
                  same_set =
                      ap (λ (x : Bytes × CapabilityRecord). x.1.capabilities) (sym (ok_inj h5));
                }

    -- A grant concerns one device: what is loaded for another device, one with another DeviceID, stays as
    -- it was, whether `grant_capability` succeeds or fails.
    pub grant_capability-load_other :
        (id : Bytes)
        → id ≢ peer_device_id
        → load s id (grant_capability s pairings local_device_id peer_device_id capability store).0
          ≡ load s id store
    unfolding grant_capability
    grant_capability-load_other id other =
        go (granted s pairings local_device_id peer_device_id capability store) refl
      where
        go :
            (x : Result (Bytes × CapabilityRecord))
            → granted s pairings local_device_id peer_device_id capability store ≡ x
            → load s id (saved s store x).0 ≡ load s id store
        go (err e) h = refl
        go (ok (path, r)) h =
            load-write_atomic id peer_device_id path (s.to_json r) store other
              (granted-IsGranted path r h).named

    -- A grant that succeeds was allowed and is remembered, if the JSON of a record round trips: the
    -- lookup said that the two devices have an active pairing, the capability is well formed,
    -- `load` then returns the set that the call returned, and an element is in that set exactly if
    -- it is the capability or was in the set that `load` returned before; a set that was sorted
    -- stays sorted.
    pub grant_capability-eq-ok :
        (set : List Bytes) (z : Bytes)
        → CapabilitySerdeLaws s
        → (grant_capability s pairings local_device_id peer_device_id capability store).1 ≡ ok set
        → (pairings local_device_id peer_device_id ≡ ok true)
          × (validate_capability capability ≡ ok tt)
          × (load s peer_device_id
                (grant_capability s pairings local_device_id peer_device_id capability store).0
              ≡ ok (some set))
          × ((old : Option (List Bytes)) × (load s peer_device_id store ≡ ok old)
              × (contains z set ≡ (eq_bytes capability z || contains z (or_default old)))
              × ((is_sorted (or_default old) ≡ false) ⊎ (is_sorted set ≡ true)))
    unfolding grant_capability
    grant_capability-eq-ok set z laws h =
        go (granted s pairings local_device_id peer_device_id capability store) refl h
      where
        G : CapabilityStore → Type 0
        G after =
            (pairings local_device_id peer_device_id ≡ ok true)
            × (validate_capability capability ≡ ok tt)
            × (load s peer_device_id after ≡ ok (some set))
            × ((old : Option (List Bytes)) × (load s peer_device_id store ≡ ok old)
                × (contains z set ≡ (eq_bytes capability z || contains z (or_default old)))
                × ((is_sorted (or_default old) ≡ false) ⊎ (is_sorted set ≡ true)))

        stays_sorted :
            (old : List Bytes)
            → insert capability old ≡ set
            → (is_sorted old ≡ false) ⊎ (is_sorted set ≡ true)
        stays_sorted old now = elim (Bool-cases (is_sorted old)) [
          | inl sorted ↦
              inr (ap (λ x. is_sorted x) (sym now) ∙ is_sorted-insert capability old sorted)
          | inr mixed ↦ inl mixed
        ]

        go :
            (x : Result (Bytes × CapabilityRecord))
            → granted s pairings local_device_id peer_device_id capability store ≡ x
            → (saved s store x).1 ≡ ok set
            → G (saved s store x).0
        go (err e) w k = cc
        go (ok (path, r)) w k =
            let m = granted-IsGranted path r w in
            let now : insert capability (or_default m.old) ≡ set = sym m.same_set ∙ ok_inj k in
            (
              m.active,
              m.valid,
              load-written laws path r peer_device_id store m.named m.same_device
                  ∙ ap (λ x. ok (some x)) (ok_inj k),
              (
                m.old,
                m.loaded,
                ap (λ x. contains z x) (sym now) ∙ contains-insert z capability (or_default m.old),
                stays_sorted (or_default m.old) now,
              ),
            )
