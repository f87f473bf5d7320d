-- ===== src/Identity/Capability.antt =====
-- `CapabilityStore` of identity.rs: what each paired device is allowed.
-- The JSON of a record is serde's, a parameter; I/O errors are not modelled.
pub mod Sets
pub mod Grant
use omarchy_sync.Identity.Capability.Sets.{insert}
use omarchy_sync.Store.Disk.{Dir, Node, file_name, find, regular, remove, special}
use omarchy_sync.Identity.KeyFile.{identity_dir_mode}
use omarchy_sync.Identity.{device_id}
use omarchy_sync.Base.{
  Bool, Bytes, List, Option, Result, [], all, bail_if, capability_mismatch, context, eq_bytes, err,
  invalid_capability, invalid_pairing_device_id, is_ascii_alphanumeric, is_ascii_hexdigit, is_empty,
  length, ltb, no_active_pairing, none, not, not_regular_file, ok, parse_failed, some, ℕ, ◌==◌,
  ◌>>=◌, ◌>>◌, ◌||◌, ◌∷◌, ◌≡◌,
}
use omarchy_sync.Session.{peer_device_id}

pub record CapabilityRecord : Type 0 where
  pub device_id : Bytes
  pub capabilities : List Bytes

pub record CapabilitySerde : Type 0 where
  pub to_json : CapabilityRecord → Bytes
  pub of_json : Bytes → Option CapabilityRecord

-- What serde documents of a derived format.
pub record CapabilitySerdeLaws (s : CapabilitySerde) : Type 0 where
  pub of_json-to_json : (r : CapabilityRecord) → s.of_json (s.to_json r) ≡ some r

-- The permissions of the directory, and its entries.
pub record CapabilityStore : Type 0 where
  pub mode : ℕ
  pub directory : Dir

-- `ActivePairingLookup::has_active_pairing`
abbrev pub ActivePairingLookup : Type 0
ActivePairingLookup = Bytes → Bytes → Result Bool

unfoldable pub validate_capability : Bytes → Result (Unit {0})
validate_capability capability =
    bail_if
      (is_empty capability
        || ltb 64 (length capability)
        || not (
            all (λ b. is_ascii_alphanumeric b || (b == b'.' || b == b'-' || b == b'_')) capability))
      invalid_capability

unfoldable pub path_for : Bytes → Result Bytes
path_for id = do
  bail_if (not (length id == 32) || not (all is_ascii_hexdigit id)) invalid_pairing_device_id
  ok (file_name id)

-- `write_atomic` of identity.rs: the file is put in place of what was there.
unfoldable pub write_atomic : Bytes → Bytes → CapabilityStore → CapabilityStore
write_atomic name bs store = record {
  mode = identity_dir_mode;
  directory = (name, regular bs) ∷ remove name store.directory;
}

-- `open`, at an entry that may be there already.
unfoldable pub open_store : Dir → CapabilityStore
open_store directory = record { mode = identity_dir_mode; directory = directory }

-- `unwrap_or_default`
abbrev pub or_default : Option (List Bytes) → List Bytes
or_default none = []
or_default (some set) = set

module _ (s : CapabilitySerde) where
  abbrev pub load_node : Bytes → Option Node → Result (Option (List Bytes))
  load_node id none = ok none
  load_node id (some special) = err not_regular_file
  load_node id (some (regular bs)) = do
    r ← context (s.of_json bs) parse_failed
    bail_if (not (eq_bytes r.device_id id)) capability_mismatch
    ok (some r.capabilities)

  unfoldable pub load : Bytes → CapabilityStore → Result (Option (List Bytes))
  load id store = do path ← path_for id; load_node id (find path store.directory)

  -- What `grant_capability` writes, once its checks have passed: the file's name and the record.
  unfoldable pub granted :
      ActivePairingLookup
      → Bytes
      → Bytes
      → Bytes
      → CapabilityStore
      → Result (Bytes × CapabilityRecord)
  unfolding load
  granted pairings local_device_id peer_device_id capability store = do
    active ← pairings local_device_id peer_device_id
    bail_if (not active) no_active_pairing
    validate_capability capability
    old ← load peer_device_id store
    path ← path_for peer_device_id
    ok (
      path,
      record { device_id = peer_device_id; capabilities = insert capability (or_default old) },
    )

  abbrev pub saved :
      CapabilityStore → Result (Bytes × CapabilityRecord) → CapabilityStore × Result (List Bytes)
  saved store (err e) = (store, err e)
  saved store (ok (path, r)) = (write_atomic path (s.to_json r) store, ok r.capabilities)

  unfoldable pub grant_capability :
      ActivePairingLookup
      → Bytes
      → Bytes
      → Bytes
      → CapabilityStore
      → CapabilityStore × Result (List Bytes)
  unfolding granted
  grant_capability pairings local_device_id peer_device_id capability store =
      saved store (granted pairings local_device_id peer_device_id capability store)
