-- ===== src/Discovery/Accept.antt =====
-- The replay cache of the verifier of protocol_v3.rs stays in its bound.
use omarchy_sync.Discovery.{DiscoveryAnnouncement}
use omarchy_sync.Discovery.Verifier.{
  DiscoveryVerifier, admit, admit_checked, check, is_kept, prune_replay, verify, verify_all,
}
use omarchy_sync.Base.{Bytes, List, Result, [], arith, err, length, length-retain, ok, ℕ, ◌∷◌, ◌≤◌}
use omarchy_sync.Crypto.{Crypto}

abbrev pub IsBounded : DiscoveryVerifier → Type 0
IsBounded v = length v.seen ≤ v.max_replay_entries

admit-IsBounded :
    (v : DiscoveryVerifier) (a : DiscoveryAnnouncement) (now : ℕ)
    → IsBounded v
    → IsBounded (admit v a now).0
unfolding admit
admit-IsBounded v a now h = ground arith

module _ (k : Crypto) where
  -- No call of `verify` grows the cache beyond its limit.
  pub verify-IsBounded :
      (v : DiscoveryVerifier) (bs : Bytes) (now : ℕ) → IsBounded v → IsBounded (verify k v bs now).0
  unfolding verify
  verify-IsBounded v bs now h =
      after (check k (prune_replay v now) bs now)
        (omega (arith, length-retain (is_kept v now) v.seen))
    where
      after :
          (r : Result DiscoveryAnnouncement)
          → IsBounded (prune_replay v now)
          → IsBounded (admit_checked (prune_replay v now) r now).0
      after (ok a) b = admit-IsBounded (prune_replay v now) a now b
      after (err e) b = b

  -- If the replay cache is within the verifier's limit, it is so after any sequence of calls.
  pub verify_all-IsBounded :
      (v : DiscoveryVerifier) (calls : List (Bytes × ℕ))
      → IsBounded v
      → IsBounded (verify_all k v calls)
  unfolding verify_all
  verify_all-IsBounded v [] h = h
  verify_all-IsBounded v ((bs, now) ∷ calls) h =
      verify_all-IsBounded (verify k v bs now).0 calls (verify-IsBounded v bs now h)
