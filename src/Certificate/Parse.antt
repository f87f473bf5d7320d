-- ===== src/Certificate/Parse.antt =====
-- The reads of `DeviceCertificate::from_bytes`.
use omarchy_sync.Cursor.{Parser, lift, pure, string, take, u64, u8, ◌>>=◌, ◌>>◌}
use omarchy_sync.Certificate.{
  DeviceCertificate, cert_magic, cert_schema, max_device_name_bytes, max_issuer_key_id_bytes,
}
use omarchy_sync.Base.{
  bail_if, eq_bytes, invalid_magic, is_utf8, length, not, not_utf8, unsupported_schema, ◌==◌,
}

unfoldable pub parse_fields : Parser DeviceCertificate
parse_fields = do
  magic ← take (length cert_magic)
  lift (bail_if (not (eq_bytes magic cert_magic)) invalid_magic)
  schema ← u8
  lift (bail_if (not (schema == cert_schema)) unsupported_schema)
  id ← take 32
  lift (bail_if (not (is_utf8 id)) not_utf8)
  key ← take 32
  name ← string max_device_name_bytes
  before ← u64
  after ← u64
  issuer ← string max_issuer_key_id_bytes
  sig ← take 64
  pure (record {
    device_id = id;
    public_key = key;
    device_name = name;
    not_before = before;
    not_after = after;
    issuer_key_id = issuer;
    signature = sig;
  })
