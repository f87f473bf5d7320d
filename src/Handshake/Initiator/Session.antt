-- ===== src/Handshake/Initiator/Session.antt =====
-- The session that `PairingInitiator` of pairing.rs hands out.
use omarchy_sync.Crypto.{Crypto}
