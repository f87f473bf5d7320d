-- ===== src/Frame/Parse.antt =====
-- The reads of `decode_frame_with_sequence` of pairing.rs.
use omarchy_sync.Cursor.{Parser, bytes, lift, pure, take, u8, ◌>>=◌, ◌>>◌}
use omarchy_sync.Frame.{frame_magic}
use omarchy_sync.Base.{Bytes, bail_if, eq_bytes, invalid_frame, length, not, ℕ, ◌==◌}
use omarchy_sync.Discovery.{protocol_v3}

-- What a frame carries: kind, role, sequence and payload.
pub record Frame : Type 0 where
  pub kind : ℕ
  pub role : ℕ
  pub sequence : ℕ
  pub payload : Bytes

unfoldable pub parse_frame : Parser Frame
parse_frame = do
  magic ← take (length frame_magic)
  lift (bail_if (not (eq_bytes magic frame_magic)) invalid_frame)
  version ← u8
  lift (bail_if (not (version == protocol_v3)) invalid_frame)
  k ← u8
  r ← u8
  n ← u8
  p ← bytes 65535
  pure (record { kind = k; role = r; sequence = n; payload = p })
