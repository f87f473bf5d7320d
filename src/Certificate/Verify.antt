-- ===== src/Certificate/Verify.antt =====
-- `DeviceCertificate::verify`, and the constructors of protocol_v3.rs that an issuer uses.
pub mod Sound
pub mod Issue
use omarchy_sync.Certificate.{DeviceCertificate, signing_bytes, validate_shape}
use omarchy_sync.Base.{
  Bytes, Result, bail_if, device_id_key_mismatch, eq_bytes, expired, invalid_key, invalid_signature,
  issuer_not_pinned, leb, ltb, not, not_yet_valid, ok, zeros, ℕ, ◌>>=◌, ◌>>◌,
}
use omarchy_sync.Identity.{device_id, device_id_for_public_key, public_key, sign}
use omarchy_sync.Crypto.{Crypto}
use omarchy_sync.Root.{PinnedOmarchyRoot}

module _ (k : Crypto) where
  unfoldable pub verify : DeviceCertificate → PinnedOmarchyRoot → ℕ → Result (Unit {0})
  verify cert root now = do
    bail_if (not (k.key_ok root.public_key)) invalid_key
    message ← signing_bytes cert
    bail_if (not (k.verify_strict root.public_key message cert.signature)) invalid_signature
    bail_if (not (eq_bytes cert.issuer_key_id root.key_id)) issuer_not_pinned
    bail_if (not (eq_bytes cert.device_id (device_id_for_public_key k cert.public_key)))
        device_id_key_mismatch
    bail_if (ltb now cert.not_before) not_yet_valid
    bail_if (leb cert.not_after now) expired

  unfoldable pub validate_fields : DeviceCertificate → Result (Unit {0})
  validate_fields cert = do
    validate_shape cert
    bail_if (not (eq_bytes cert.device_id (device_id_for_public_key k cert.public_key)))
        device_id_key_mismatch

  -- `unsigned(device_id, public_key, device_name, not_before, not_after, issuer_key_id)`
  unfoldable pub unsigned : Bytes → Bytes → Bytes → ℕ → ℕ → Bytes → Result DeviceCertificate
  unfolding validate_fields
  unsigned id key name before after issuer = do
    let cert : DeviceCertificate = record {
      device_id = id;
      public_key = key;
      device_name = name;
      not_before = before;
      not_after = after;
      issuer_key_id = issuer;
      signature = zeros 64;
    }
    validate_fields cert
    ok cert

  unfoldable pub with_signature : DeviceCertificate → Bytes → Result DeviceCertificate
  with_signature cert sig = do
    let signed = record cert { signature = sig }
    validate_fields signed
    ok signed

  -- `issue`, the issuer given by its signing key.
  unfoldable pub issue : Bytes → Bytes → Bytes → Bytes → ℕ → ℕ → Bytes → Result DeviceCertificate
  unfolding unsigned
  issue issuer_key id key name before after issuer = do
    cert ← unsigned id key name before after issuer
    message ← signing_bytes cert
    ok (record cert { signature = k.sign issuer_key message })
