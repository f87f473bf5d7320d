-- ===== src/Handshake/Hello.antt =====
-- What the devices send each other under encryption: certificate, proof and signature.
use omarchy_sync.Certificate
use omarchy_sync.Certificate.Decode as CertificateCodec
use omarchy_sync.Identity
use omarchy_sync.Handshake.{auth_magic, signature_magic}
use omarchy_sync.Base.{Bytes, Result, [], ok, ℕ, ◌++◌, ◌>>=◌, ◌∷◌}
use omarchy_sync.Identity.{DeviceIdentity, device_id, public_key, sign}
use omarchy_sync.Certificate.{DeviceCertificate, max_certificate_bytes, to_bytes}
use omarchy_sync.Crypto.{Crypto}
use omarchy_sync.Cursor.{put_bytes}
use omarchy_sync.Discovery.{protocol_v3}

unfoldable pub auth_hello : DeviceCertificate → Result Bytes
auth_hello cert = do
  bs ← Certificate.to_bytes cert
  parsed ← CertificateCodec.from_bytes bs
  cert_field ← put_bytes bs max_certificate_bytes
  ok (auth_magic ++ ((protocol_v3 ∷ []) ++ (parsed.device_id ++ (parsed.public_key ++ cert_field))))

-- What a device signs: the transcript under its role.
abbrev pub signed_message : Bytes → ℕ → Bytes
signed_message transcript role = signature_magic ++ (transcript ++ (role ∷ []))

unfoldable pub signed_auth_payload : Crypto → DeviceIdentity → Bytes → ℕ → Bytes
signed_auth_payload k identity transcript role =
    Identity.sign k identity (signed_message transcript role)

unfoldable pub auth_proof : Crypto → DeviceCertificate → DeviceIdentity → Bytes → ℕ → Result Bytes
unfolding auth_hello signed_auth_payload
auth_proof k cert identity transcript role = do
  hello ← auth_hello cert
  ok (hello ++ signed_auth_payload k identity transcript role)
