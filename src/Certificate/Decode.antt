-- ===== src/Certificate/Decode.antt =====
-- `DeviceCertificate::from_bytes`.
use omarchy_sync.Certificate.{DeviceCertificate, max_certificate_bytes, validate_shape}
use omarchy_sync.Base.{Bytes, Result, bail_if, certificate_too_large, length, ltb, ok, ◌>>=◌, ◌>>◌}
use omarchy_sync.Cursor.{run}
use omarchy_sync.Certificate.Parse.{parse_fields}

unfoldable pub from_bytes : Bytes → Result DeviceCertificate
from_bytes bs = do
  bail_if (ltb max_certificate_bytes (length bs)) certificate_too_large
  cert ← run parse_fields bs
  validate_shape cert
  ok cert
