-- ===== src/Runtime/Peers.antt =====
-- `PeerCache` of runtime_v3.rs: a map from DeviceIDs as a list, with the monotonic clock in milliseconds.
use omarchy_sync.Base.{
  Bool, Bytes, List, Option, [], any, arith, eq_bytes, eq_bytes_refl, false, if◌then◌else◌, leb,
  leb→lt, length, length-retain, ltb, none, not, refl, retain, some, suc, sym, true, ℕ, ◌&&◌, ◌-◌,
  ◌<◌, ◌||◌, ◌∙◌, ◌∷◌, ◌≡◌, ◌≤◌,
}
use mathlib.Core.Path.{subst}
use omarchy_sync.Record.{is_some}
use omarchy_sync.Discovery.Verifier.{VerifiedDiscovery}

-- A cached discovery, with the address that it came from.
pub record CachedPeer : Type 0 where
  pub address : ℕ
  pub discovery : VerifiedDiscovery
  pub seen : ℕ

abbrev pub Entries : Type 0
Entries = List (Bytes × CachedPeer)

abbrev pub peer_max_age : ℕ
peer_max_age = 90000

abbrev pub peer_cache_limit : ℕ
peer_cache_limit = 128

-- `entries.retain(|_, peer| peer.seen.elapsed() <= PEER_MAX_AGE)`
unfoldable pub fresh : ℕ → Entries → Entries
fresh now entries = retain (λ e. leb (now - e.1.seen) peer_max_age) entries

unfoldable pub get : Bytes → Entries → Option CachedPeer
get id [] = none
get id ((i, peer) ∷ rest) = if eq_bytes i id then some peer else get id rest

unfoldable pub remove_id : Bytes → Entries → Entries
remove_id id entries = retain (λ e. not (eq_bytes e.0 id)) entries

-- `min_by_key(|(_, peer)| peer.seen)`: the first of the oldest.
unfoldable pub oldest : Bytes × CachedPeer → Entries → Bytes × CachedPeer
oldest best [] = best
oldest best (e ∷ rest) = if ltb e.1.seen best.1.seen then oldest e rest else oldest best rest

abbrev evict : Entries → Entries
evict [] = []
evict (e ∷ rest) = remove_id (oldest e rest).0 (e ∷ rest)

abbrev make_room : Bytes → Entries → Entries
make_room id entries =
    if leb peer_cache_limit (length entries) && not (is_some (get id entries))
    then evict entries
    else entries

-- `HashMap::insert`
abbrev insert : Bytes → CachedPeer → Entries → Entries
insert id peer entries = (id, peer) ∷ remove_id id entries

unfoldable pub put : ℕ → VerifiedDiscovery → ℕ → Entries → Entries
unfolding fresh oldest
put now discovery address entries =
    insert discovery.device_id (record { address = address; discovery = discovery; seen = now })
      (make_room discovery.device_id (fresh now entries))

unfoldable pub by_id : ℕ → Bytes → Entries → Entries × Option CachedPeer
unfolding fresh
by_id now id entries = let kept = fresh now entries in (kept, get id kept)

-- The oldest entry is one of the entries.
oldest-in :
    (best : Bytes × CachedPeer) (rest : Entries)
    → any (λ e. eq_bytes e.0 (oldest best rest).0) (best ∷ rest) ≡ true
unfolding oldest
oldest-in best [] = rw (eq_bytes_refl best.0) refl
oldest-in best (e ∷ rest) = go (ltb e.1.seen best.1.seen) (oldest-in e rest) (oldest-in best rest)
  where
    chosen : Bool → Bytes
    chosen b = (if b then oldest e rest else oldest best rest).0

    go :
        (b : Bool)
        → any (λ x. eq_bytes x.0 (oldest e rest).0) (e ∷ rest) ≡ true
        → any (λ x. eq_bytes x.0 (oldest best rest).0) (best ∷ rest) ≡ true
        → any (λ x. eq_bytes x.0 (chosen b)) (best ∷ e ∷ rest) ≡ true
    go true p q = ground arith
    go false p q = ground arith

-- Removing an entry that is there makes the list shorter.
shorter :
    (p : Bytes × CachedPeer → Bool) (entries : Entries)
    → any p entries ≡ true
    → length (retain (λ e. not (p e)) entries) < length entries
shorter p [] h = cc
shorter p (e ∷ rest) h = go (p e) h (shorter p rest)
  where
    go :
        (b : Bool)
        → (b || any p rest) ≡ true
        → (any p rest ≡ true → length (retain (λ e. not (p e)) rest) < length rest)
        → length (elim (not b) as (λ _. Entries) [
          | true ↦ e ∷ retain (λ e. not (p e)) rest
          | false ↦ retain (λ e. not (p e)) rest
        ])
          < suc (length rest)
    go true h k = omega (arith, length-retain (λ x. not (p x)) rest)
    go false h k = omega (arith, k h)

length-remove_id-present :
    (id : Bytes) (entries : Entries)
    → any (λ e. eq_bytes e.0 id) entries ≡ true
    → length (remove_id id entries) < length entries
unfolding remove_id
length-remove_id-present id entries h = shorter (λ e. eq_bytes e.0 id) entries h

get-any :
    (id : Bytes) (entries : Entries) → is_some (get id entries) ≡ any (λ e. eq_bytes e.0 id) entries
unfolding get
get-any id [] = refl
get-any id ((i, peer) ∷ rest) = go (eq_bytes i id) (get-any id rest)
  where
    go :
        (b : Bool)
        → is_some (get id rest) ≡ any (λ e. eq_bytes e.0 id) rest
        → is_some (if b then some peer else get id rest) ≡ (b || any (λ e. eq_bytes e.0 id) rest)
    go true h = refl
    go false h = h

-- After making room the insertion does not exceed the limit.
make_room-room :
    (id : Bytes) (entries : Entries)
    → length entries ≤ peer_cache_limit
    → length (remove_id id (make_room id entries)) < peer_cache_limit
unfolding remove_id
make_room-room id entries h =
    go (is_some (get id entries)) (leb peer_cache_limit (length entries)) refl refl
  where
    fewer : (xs : Entries) → length (retain (λ e. not (eq_bytes e.0 id)) xs) ≤ length xs
    fewer xs = length-retain (λ e. not (eq_bytes e.0 id)) xs

    evicted : (xs : Entries) → length xs ≤ peer_cache_limit → length (evict xs) < peer_cache_limit
    evicted [] h = omega arith
    evicted (e ∷ rest) h =
        omega (arith, length-remove_id-present (oldest e rest).0 (e ∷ rest) (oldest-in e rest))

    go :
        (c b : Bool)
        → is_some (get id entries) ≡ c
        → leb peer_cache_limit (length entries) ≡ b
        → length
            (retain (λ e. not (eq_bytes e.0 id)) (if b && not c then evict entries else entries))
          < peer_cache_limit
    go true true f g =
        omega (arith, length-remove_id-present id entries (sym (get-any id entries) ∙ f))
    go true false f g =
        omega (arith, length-remove_id-present id entries (sym (get-any id entries) ∙ f))
    go false true f g = omega (arith, fewer (evict entries), evicted entries h)
    go false false f g = omega (arith, fewer entries, leb→lt peer_cache_limit (length entries) g)

get-kept_head :
    (id : Bytes) (peer : CachedPeer) (p : Bytes × CachedPeer → Bool) (rest : Entries)
    → p (id, peer) ≡ true
    → get id (retain p ((id, peer) ∷ rest)) ≡ some peer
unfolding get
get-kept_head id peer p rest h = go (p (id, peer)) h
  where
    go :
        (b : Bool)
        → b ≡ true
        → get id
            (elim b as (λ _. Entries) [ true ↦ (id, peer) ∷ retain p rest | false ↦ retain p rest ])
          ≡ some peer
    go false h = cc
    go true h =
        subst (λ c. (if c then some peer else get id (retain p rest)) ≡ some peer)
          (sym (eq_bytes_refl id)) refl

-- If the cache holds at most 128 peers, it does so after `put`, and `by_id` at the same moment
-- finds the discovery that was put, at its address.
pub by_id-put :
    (now address : ℕ) (discovery : VerifiedDiscovery) (entries : Entries)
    → length entries ≤ peer_cache_limit
    → (length (put now discovery address entries) ≤ peer_cache_limit)
      × ((by_id now discovery.device_id (put now discovery address entries)).1
          ≡ some (record { address = address; discovery = discovery; seen = now }))
unfolding put fresh by_id get
by_id-put now address discovery entries h =
    let now_fresh : leb (now - now) peer_max_age ≡ true = ground arith in
    let kept =
      length-retain (λ (e : Bytes × CachedPeer). leb (now - e.1.seen) peer_max_age) entries in
    (
      omega (arith, make_room-room discovery.device_id (fresh now entries) (omega arith)),
      get-kept_head discovery.device_id _ (λ e. leb (now - e.1.seen) peer_max_age) _ now_fresh,
    )
