-- ===== src/Tests/Devices.antt =====
-- Two devices under one root, their certificates, and the record that both sign.
use omarchy_sync.Certificate
use omarchy_sync.Record.{PairingRecord, domain_v3, payload}
use omarchy_sync.Store.{PairingStore}
use omarchy_sync.Certificate.RoundTrip.{encoding}
use omarchy_sync.Tests.Toy.{digest, toy}
use omarchy_sync.Base.{
  Bytes, [], codes, false, join, none, some, true, zeros, ℕ, ◌++◌, ◌+◌, ◌-◌, ◌∷◌,
}
use omarchy_sync.Identity.{DeviceIdentity}
use omarchy_sync.Certificate.{DeviceCertificate}
use omarchy_sync.Session.{AuthenticatedPairingSession}
use omarchy_sync.Cursor.{field}
use omarchy_sync.Root.{AbsolutePath, FileView, Metadata, PinnedOmarchyRoot}
use omarchy_sync.Tests.Json.{json}
use omarchy_sync.Store.Disk.{Disk, file_name, regular}

abbrev pub root_signing_key : Bytes
root_signing_key = 9 ∷ []

abbrev pub root : PinnedOmarchyRoot
root = record { public_key = digest 32 root_signing_key; key_id = codes "root-1" }

abbrev pub device : ℕ → DeviceIdentity
device n = record { signing_key = n ∷ [] }

-- A DeviceID of the device, written out so that no hash is run in every test.
abbrev pub id_of : ℕ → Bytes
id_of n = codes "0" ++ ((b'0' + n) ∷ codes "000000000000000000000000000000")

abbrev pub draft : ℕ → DeviceCertificate
draft n = record {
  device_id = id_of n;
  public_key = digest 32 (n ∷ []);
  device_name = codes "laptop";
  not_before = 100;
  not_after = 200;
  issuer_key_id = codes "root-1";
  signature = zeros 64;
}

abbrev pub certificate : ℕ → DeviceCertificate
certificate n = record (draft n) {
  signature =
      toy.sign root_signing_key
        (join (Certificate.payload (draft n) (field (codes "laptop")) (field (codes "root-1"))));
}

abbrev pub store : ℕ → PairingStore
store now = record { root = root; now = now }

abbrev pub session : ℕ → AuthenticatedPairingSession
session role = record {
  pair_id = id_of 7;
  local_device_id = id_of role;
  peer_device_id = id_of (3 - role);
  local_certificate = certificate role;
  peer_certificate = certificate (3 - role);
  session_binding = digest 32 (7 ∷ []);
  peer_public_key = digest 32 ((3 - role) ∷ []);
  local_role = role;
}

-- The record before either device has signed it.
abbrev pub unsigned : PairingRecord
unsigned = record {
  protocol_version = 3;
  domain = domain_v3;
  pair_id = id_of 7;
  initiator_device_id = id_of 1;
  responder_device_id = id_of 2;
  initiator_public_key = digest 32 (1 ∷ []);
  responder_public_key = digest 32 (2 ∷ []);
  initiator_certificate = encoding (certificate 1);
  responder_certificate = encoding (certificate 2);
  session_binding = digest 32 (7 ∷ []);
  authorizing_device_id = id_of 1;
  user_presence = codes "passkey";
  authorized_at = 150;
  initiator_signature = none;
  responder_signature = none;
}

abbrev pub message : Bytes
message = join (
    payload unsigned (field domain_v3) (field (id_of 7)) (field (encoding (certificate 1)))
      (field (encoding (certificate 2))) (field (codes "passkey")))

abbrev pub signed : PairingRecord
signed = record unsigned {
  initiator_signature = some (toy.sign (1 ∷ []) (message ++ (1 ∷ [])));
  responder_signature = some (toy.sign (2 ∷ []) (message ++ (2 ∷ [])));
}

abbrev pub empty_disk : Disk
empty_disk = record { active = []; pending = []; revoked = [] }

-- A file system with the root's key in a directory of root.
abbrev metadata_of : AbsolutePath → Metadata
metadata_of [] = record { uid = 0; mode = 493; is_file = false; is_dir = true }
metadata_of (name ∷ up) = record { uid = 0; mode = 420; is_file = true; is_dir = false }

abbrev pub files : FileView
files = record { stat = λ path. some (metadata_of path); content = λ path. some root.public_key }

-- The disk on which the record is active.
abbrev pub paired_disk : Disk
paired_disk = record {
  active = (file_name (id_of 7), regular (json.to_json signed)) ∷ [];
  pending = [];
  revoked = [];
}
