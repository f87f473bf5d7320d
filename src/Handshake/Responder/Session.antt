-- ===== src/Handshake/Responder/Session.antt =====
-- The session that `PairingResponder` of pairing.rs hands out.
use omarchy_sync.Certificate
use omarchy_sync.Crypto.{Crypto}
