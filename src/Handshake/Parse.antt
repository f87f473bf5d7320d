-- ===== src/Handshake/Parse.antt =====
-- The reads of `parse_auth` of pairing.rs.
use omarchy_sync.Cursor.{Parser, bytes, lift, pure, remaining, take, u8, ◌>>=◌, ◌>>◌}
use omarchy_sync.Certificate.Decode.{from_bytes}
use omarchy_sync.Handshake.{auth_magic}
use omarchy_sync.Base.{
  Bytes, Option, bail_if, eq_bytes, if◌then◌else◌, invalid_auth_payload, is_utf8, length, none, not,
  not_utf8, some, ◌==◌,
}
use omarchy_sync.Certificate.{DeviceCertificate, max_certificate_bytes}
use omarchy_sync.Discovery.{protocol_v3}

-- `AuthFields`
pub record AuthFields : Type 0 where
  pub certificate : DeviceCertificate
  pub public_key : Bytes
  pub device_id : Bytes
  pub signature : Option Bytes

-- The rest is a signature, if it has the size of one.
unfoldable pub optional_signature : Parser (Option Bytes)
optional_signature c =
    if remaining c == 64 then (do sig ← take 64; pure (some sig)) c else pure none c

unfoldable pub parse_fields : Parser AuthFields
unfolding optional_signature
parse_fields = do
  magic ← take (length auth_magic)
  lift (bail_if (not (eq_bytes magic auth_magic)) invalid_auth_payload)
  version ← u8
  lift (bail_if (not (version == protocol_v3)) invalid_auth_payload)
  id ← take 32
  lift (bail_if (not (is_utf8 id)) not_utf8)
  key ← take 32
  bs ← bytes max_certificate_bytes
  cert ← lift (from_bytes bs)
  sig ← optional_signature
  pure (record { certificate = cert; public_key = key; device_id = id; signature = sig })
