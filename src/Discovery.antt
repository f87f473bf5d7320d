-- ===== src/Discovery.antt =====
-- `DiscoveryAnnouncement` of protocol_v3.rs: the signed LAN announcement and its canonical bytes.
use omarchy_sync.Certificate
use omarchy_sync.Identity
pub mod Parse
pub mod Decode
pub mod RoundTrip
pub mod Verifier
pub mod Checked
pub mod Replay
pub mod Accept
use omarchy_sync.Base.{
  Bytes, List, Result, [], bail_if, codes, discovery_too_large, eq_bytes, foreign_certificate, join,
  length, ltb, not, ok, to_be, unsupported_version, zero_port, zeros, ℕ, ◌++◌, ◌<◌, ◌==◌, ◌>>=◌,
  ◌>>◌, ◌^◌, ◌||◌, ◌∷◌, ◌≡◌,
}
use omarchy_sync.Identity.{DeviceIdentity, device_id, public_key}
use omarchy_sync.Certificate.{DeviceCertificate, max_certificate_bytes}
use omarchy_sync.Crypto.{Crypto}
use omarchy_sync.Cursor.{put_bytes}
use omarchy_sync.Certificate.Verify.{unsigned}

pub record DiscoveryAnnouncement : Type 0 where
  pub protocol_version : ℕ
  pub certificate : DeviceCertificate
  pub nonce : Bytes
  pub timestamp : ℕ
  pub port : ℕ
  pub signature : Bytes

abbrev pub protocol_v3 : ℕ
protocol_v3 = 3

abbrev pub max_discovery_bytes : ℕ
max_discovery_bytes = 2048

abbrev pub discovery_magic : Bytes
discovery_magic = codes "OMARCHY-DISCOVERY-V3"

-- The pieces that are appended, `cert` with its length in front.
abbrev pub payload : DiscoveryAnnouncement → Bytes → List Bytes
payload a cert =
    discovery_magic
    ∷ (a.protocol_version ∷ [])
    ∷ cert
    ∷ a.nonce
    ∷ to_be 8 a.timestamp
    ∷ to_be 2 a.port
    ∷ []

unfoldable pub signing_bytes : DiscoveryAnnouncement → Result Bytes
signing_bytes a = do
  bail_if (not (a.protocol_version == protocol_v3)) unsupported_version
  bs ← Certificate.to_bytes a.certificate
  cert ← put_bytes bs max_certificate_bytes
  ok (join (payload a cert))

unfoldable pub to_bytes : DiscoveryAnnouncement → Result Bytes
to_bytes a = do
  signed ← signing_bytes a
  let out = signed ++ a.signature
  bail_if (ltb max_discovery_bytes (length out)) discovery_too_large
  ok out

-- What the Rust types of the fields say.
pub record IsTyped (a : DiscoveryAnnouncement) : Type 0 where
  pub certificate_typed : Certificate.IsTyped a.certificate
  pub nonce_size : length a.nonce ≡ 32
  pub timestamp_fits : a.timestamp < 2 ^ 64
  pub port_fits : a.port < 2 ^ 16
  pub signature_size : length a.signature ≡ 64

module _ (k : Crypto) where
  -- `sign(identity, certificate, nonce, timestamp, port)`
  unfoldable pub sign :
      DeviceIdentity → DeviceCertificate → Bytes → ℕ → ℕ → Result DiscoveryAnnouncement
  sign identity cert nonce timestamp port = do
    bail_if
        (not (eq_bytes cert.public_key (Identity.public_key k identity))
          || not (eq_bytes cert.device_id (Identity.device_id k identity)))
        foreign_certificate
    bail_if (port == 0) zero_port
    let unsigned : DiscoveryAnnouncement = record {
      protocol_version = protocol_v3;
      certificate = cert;
      nonce = nonce;
      timestamp = timestamp;
      port = port;
      signature = zeros 64;
    }
    message ← signing_bytes unsigned
    ok (record unsigned { signature = Identity.sign k identity message })
