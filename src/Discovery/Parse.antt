-- ===== src/Discovery/Parse.antt =====
-- The reads of `DiscoveryAnnouncement::from_bytes`.
use omarchy_sync.Certificate.Decode as Certificate
use omarchy_sync.Cursor.{Parser, bytes, lift, pure, take, u16, u64, u8, ◌>>=◌, ◌>>◌}
use omarchy_sync.Discovery.{DiscoveryAnnouncement, discovery_magic}
use omarchy_sync.Base.{bail_if, eq_bytes, invalid_magic, length, not, zero_port, ◌==◌}
use omarchy_sync.Certificate.{max_certificate_bytes}

unfoldable pub parse_fields : Parser DiscoveryAnnouncement
parse_fields = do
  magic ← take (length discovery_magic)
  lift (bail_if (not (eq_bytes magic discovery_magic)) invalid_magic)
  version ← u8
  bs ← bytes max_certificate_bytes
  cert ← lift (Certificate.from_bytes bs)
  nonce ← take 32
  timestamp ← u64
  port ← u16
  lift (bail_if (port == 0) zero_port)
  sig ← take 64
  pure (record {
    protocol_version = version;
    certificate = cert;
    nonce = nonce;
    timestamp = timestamp;
    port = port;
    signature = sig;
  })
