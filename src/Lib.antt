-- ===== src/Lib.antt =====
-- The trust core of omarchy-sync: two devices under one pinned root find each other, open an
-- authenticated channel, and sign a pairing record that each keeps in a store on its disk.
--
-- Base holds the shared vocabulary: Boolean tests, lists, `Result` with the errors that the sources
-- raise, bytes and big-endian words. A number is a natural one, and a word keeps its wrap-around or
-- has its bound as a hypothesis; bytes are numbers, with `IsByte` where the width matters.
--
-- Cursor is the bounded reader `Cursor` and the writer `put_bytes` of src/protocol_v3.rs, with rules
-- for what a reader accepts (Cursor/Reads) and what it accepted (Cursor/Accepts, Cursor/Elim).
-- Crypto has the primitives of ed25519-dalek and sha2 as a parameter, with the laws that their
-- documentation states. Identity is the key and the DeviceID of src/identity.rs; Identity/KeyFile
-- is `load_or_create` over a directory, and Identity/Capability is `CapabilityStore`, whose record's
-- JSON is a parameter.
-- Root is `PinnedOmarchyRoot` of src/protocol_v3.rs: the file system is a view of metadata and
-- contents. Certificate is `DeviceCertificate` (codec, checks, `verify`, `issue`), and Discovery is
-- `DiscoveryAnnouncement` and `DiscoveryVerifier`, whose map of nonces is a list of entries.
-- Session has the fields of `AuthenticatedPairingSession` and the contexts of src/pairing.rs.
-- Record is `PairingRecord` of src/trust.rs; its JSON is a parameter. Store is `PairingStore`: a disk
-- is three association lists from file names to nodes (active, pending, revoked), an operation is
-- a function from a disk to a disk and a result, and a failed call leaves the disk that it had made
-- by then. The lists have the entries for which `path.exists()` says yes: a link that leads nowhere
-- is not among them, as every operation treats it as absent. Store/Activation has every operation as
-- data, for sequences of calls.
-- Frame is the frame codec, `encrypt` and `decrypt` of src/pairing.rs; the Noise state machine of snow
-- is a parameter. Handshake is the rest of src/pairing.rs: `PairingInitiator` is
-- Handshake/Initiator, `PairingResponder` is Handshake/Responder, each with one function for each
-- method, from a state to the state that it leaves and a result, also on an error; their
-- constructors are Handshake/Open, the transcript is Handshake/Transcript, the messages under
-- encryption are Handshake/Hello and Handshake/Parse, and their checks Handshake/Peer. The random
-- bytes are inputs. Initiator/Safe and Responder/Safe below Handshake have every call as data,
-- Handshake/Proof says what a session rests on, and Handshake/Agreement compares two sessions.
-- Runtime is `PeerCache`, `PairCoordinator`, the application and wire frames and
-- the routing preface of src/runtime_v3.rs, with the monotonic clock in milliseconds.
-- Tests has two concrete devices, a toy instance of each parameter, and runs of the operations.
--
-- Loops run over lists and paths, so they end by structure. `trim` of Root runs on the length of
-- its input as fuel, which is enough as each round drops a character.
--
-- Not modelled: threads, sockets and locks, the ceremony of src/runtime_v3.rs that drives the
-- handshake and the store, the temporary files and permissions below `write_atomic` of
-- src/trust.rs, I/O errors of the key file and the capabilities other than a failing source of
-- random bytes, the command line, and the packaging.
pub mod Base
pub mod Cursor
pub mod Crypto
pub mod Identity
pub mod Root
pub mod Certificate
pub mod Discovery
pub mod Session
pub mod Record
pub mod Store
pub mod Frame
pub mod Handshake
pub mod Runtime
pub mod Tests
