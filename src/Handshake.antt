-- ===== src/Handshake.antt =====
-- pairing.rs: the authenticated handshake of two devices over Noise XX, driven by its caller.
-- The Noise state machines are a library's and are parameters; so are the random bytes.
pub mod Method
pub mod Transcript
pub mod Hello
pub mod Parse
pub mod Peer
pub mod Checks
pub mod Endpoint
pub mod Initiator
pub mod Responder
pub mod Open
pub mod Proof
pub mod Steps
pub mod Agreement
use omarchy_sync.Frame.Transport.{Noise}
use omarchy_sync.Base.{Bool, Bytes, Option, codes, ℕ}
use omarchy_sync.Identity.{device_id, public_key}
use omarchy_sync.Certificate.{DeviceCertificate}
use omarchy_sync.Session.{PairedIdentityContext}
use omarchy_sync.Root.{PinnedOmarchyRoot}

abbrev pub kind_auth : ℕ
kind_auth = 2

abbrev pub max_handshake_frame : ℕ
max_handshake_frame = 2048

abbrev pub max_auth_frame : ℕ
max_auth_frame = 4096

abbrev pub max_auth_plaintext : ℕ
max_auth_plaintext = 2048

abbrev pub transcript_magic : Bytes
transcript_magic = codes "OMARCHY-SYNC-V3-PAIRING-TRANSCRIPT"

abbrev pub signature_magic : Bytes
signature_magic = codes "OMARCHY-SYNC-V3-PAIRING-SIGNATURE"

abbrev pub auth_magic : Bytes
auth_magic = codes "OMARCHY-AUTH-V3"

abbrev pub ack_magic : Bytes
ack_magic = codes "OMARCHY-AUTH-ACK-V3"

pub record PeerAuth : Type 0 where
  pub device_id : Bytes
  pub public_key : Bytes
  pub certificate : DeviceCertificate
  pub signature : Option Bytes

pub record HandshakeInfo : Type 0 where
  pub hash : Bytes
  pub remote_static : Bytes

pub data PeerValidation : Type 0 where
  current : PinnedOmarchyRoot → ℕ → PeerValidation
  paired : PairedIdentityContext → PeerValidation

-- snow's `HandshakeState`: a message changes it, or fails and leaves it.
pub record NoiseXx : Type 1 where
  pub transport : Noise
  pub State : Type 0
  -- A static key pair from random bytes, and the state for a prologue: its public key comes along.
  pub build : Bool → Bytes → Bytes → Option (State × Bytes)
  pub write_message : State → Bytes → Option (State × Bytes)
  pub read_message : State → Bytes → Option (State × Bytes)
  pub is_handshake_finished : State → Bool
  pub get_remote_static : State → Option Bytes
  pub get_handshake_hash : State → Bytes
  pub into_transport_mode : State → Option transport.State
