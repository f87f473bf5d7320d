-- ===== src/Discovery/Verifier.antt =====
-- `DiscoveryVerifier` of protocol_v3.rs: the checks of an announcement and the replay cache.
-- The hash map of accepted nonces is a list of its entries, newest first.
use omarchy_sync.Discovery.Decode
use omarchy_sync.Certificate.Verify as Certificate
use omarchy_sync.Discovery.{DiscoveryAnnouncement, protocol_v3, signing_bytes}
use omarchy_sync.Base.{
  Bool, Bytes, List, Result, [], any, bail_if, eq_bytes, err, from_the_future, if◌then◌else◌,
  invalid_key, invalid_signature, leb, length, ltb, not, ok, replay_cache_full, replayed, retain,
  stale, unsupported_version, ℕ, ◌&&◌, ◌+◌, ◌-◌, ◌==◌, ◌>>=◌, ◌>>◌, ◌^◌, ◌∷◌,
}
use omarchy_sync.Crypto.{Crypto}
use omarchy_sync.Root.{PinnedOmarchyRoot}

pub record VerifiedDiscovery : Type 0 where
  pub device_id : Bytes
  pub device_name : Bytes
  pub public_key : Bytes
  pub timestamp : ℕ
  pub port : ℕ

-- A key (DeviceID, nonce) of the map with its `ReplayEntry`.
pub record ReplayEntry : Type 0 where
  pub device_id : Bytes
  pub nonce : Bytes
  pub accepted_at : ℕ
  pub announcement_timestamp : ℕ

pub record DiscoveryVerifier : Type 0 where
  pub root : PinnedOmarchyRoot
  pub max_age : ℕ
  pub max_future : ℕ
  pub seen : List ReplayEntry
  pub max_replay_entries : ℕ

abbrev pub max_discovery_age_seconds : ℕ
max_discovery_age_seconds = 90

abbrev pub max_discovery_future_seconds : ℕ
max_discovery_future_seconds = 10

abbrev pub max_replay : ℕ
max_replay = 4096

unfoldable pub new_verifier : PinnedOmarchyRoot → DiscoveryVerifier
new_verifier root = record {
  root = root;
  max_age = max_discovery_age_seconds;
  max_future = max_discovery_future_seconds;
  seen = [];
  max_replay_entries = max_replay;
}

unfoldable pub with_window : PinnedOmarchyRoot → ℕ → ℕ → DiscoveryVerifier
with_window root max_age max_future = record {
  root = root;
  max_age = max_age;
  max_future = max_future;
  seen = [];
  max_replay_entries = max_replay;
}

-- `u64::saturating_add`; `saturating_sub` is the subtraction of ℕ.
abbrev pub saturating_add : ℕ → ℕ → ℕ
saturating_add a b = if ltb (a + b) (2 ^ 64) then a + b else 2 ^ 64 - 1

-- The test that `prune_replay` retains by.
unfoldable pub is_kept : DiscoveryVerifier → ℕ → ReplayEntry → Bool
is_kept v now entry =
    leb (now - entry.accepted_at) (saturating_add v.max_age v.max_future)
    && leb (now - entry.announcement_timestamp) v.max_age

unfoldable pub prune_replay : DiscoveryVerifier → ℕ → DiscoveryVerifier
prune_replay v now = record v { seen = retain (is_kept v now) v.seen }

abbrev pub is_key : Bytes → Bytes → ReplayEntry → Bool
is_key id nonce entry = eq_bytes entry.device_id id && eq_bytes entry.nonce nonce

-- The last part of `verify`, behind the checks: the replay cache and the result.
unfoldable pub admit :
    DiscoveryVerifier → DiscoveryAnnouncement → ℕ → DiscoveryVerifier × Result VerifiedDiscovery
admit v a now =
    if any (is_key a.certificate.device_id a.nonce) v.seen
    then (v, err replayed)
    else if leb v.max_replay_entries (length v.seen)
    then (v, err replay_cache_full)
    else (
      record v {
        seen =
            record {
              device_id = a.certificate.device_id;
              nonce = a.nonce;
              accepted_at = now;
              announcement_timestamp = a.timestamp;
            }
            ∷ v.seen;
      },
      ok (record {
        device_id = a.certificate.device_id;
        device_name = a.certificate.device_name;
        public_key = a.certificate.public_key;
        timestamp = a.timestamp;
        port = a.port;
      }),
    )

-- The rest of `verify`, which goes on only with an announcement that passed the checks.
abbrev pub admit_checked :
    DiscoveryVerifier
    → Result DiscoveryAnnouncement
    → ℕ
    → DiscoveryVerifier × Result VerifiedDiscovery
admit_checked v (ok a) now = admit v a now
admit_checked v (err e) now = (v, err e)

module _ (k : Crypto) where
  -- The checks of `verify`, in its order.
  unfoldable pub check : DiscoveryVerifier → Bytes → ℕ → Result DiscoveryAnnouncement
  check v bs now = do
    a ← Decode.from_bytes bs
    bail_if (not (a.protocol_version == protocol_v3)) unsupported_version
    Certificate.verify k a.certificate v.root now
    bail_if (ltb (saturating_add now v.max_future) a.timestamp) from_the_future
    bail_if (ltb v.max_age (now - a.timestamp)) stale
    bail_if (not (k.key_ok a.certificate.public_key)) invalid_key
    message ← signing_bytes a
    bail_if (not (k.verify_strict a.certificate.public_key message a.signature)) invalid_signature
    ok a

  unfoldable pub verify :
      DiscoveryVerifier → Bytes → ℕ → DiscoveryVerifier × Result VerifiedDiscovery
  unfolding prune_replay admit
  verify v bs now =
      let pruned = prune_replay v now in admit_checked pruned (check pruned bs now) now

  -- A sequence of calls, each with the time at which it is made.
  unfoldable pub verify_all : DiscoveryVerifier → List (Bytes × ℕ) → DiscoveryVerifier
  verify_all v [] = v
  verify_all v ((bs, now) ∷ calls) = verify_all (verify v bs now).0 calls
