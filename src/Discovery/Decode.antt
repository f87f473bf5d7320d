-- ===== src/Discovery/Decode.antt =====
-- `DiscoveryAnnouncement::from_bytes`.
use omarchy_sync.Discovery.Parse.{parse_fields}
use omarchy_sync.Discovery.{DiscoveryAnnouncement, max_discovery_bytes}
use omarchy_sync.Base.{Bytes, Result, bail_if, discovery_too_large, length, ltb, ◌>>◌}
use omarchy_sync.Cursor.{run}

unfoldable pub from_bytes : Bytes → Result DiscoveryAnnouncement
from_bytes bs = do
  bail_if (ltb max_discovery_bytes (length bs)) discovery_too_large
  run parse_fields bs
