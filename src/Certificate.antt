-- ===== src/Certificate.antt =====
-- `DeviceCertificate` of protocol_v3.rs: its fields, the shape check and the canonical bytes.
pub mod Parse
pub mod Decode
pub mod RoundTrip
pub mod Canonical
pub mod Verify
use omarchy_sync.Base.{
  Bool, Bytes, List, Result, [], all, any, bail_if, certificate_too_large, codes,
  invalid_certificate_device_id, invalid_device_name, invalid_issuer_key_id, invalid_window,
  is_ascii_alphanumeric, is_ascii_hexdigit, is_ascii_uppercase, is_empty, is_utf8, join, leb,
  length, ltb, not, ok, to_be, true, ℕ, ◌++◌, ◌<◌, ◌==◌, ◌>>=◌, ◌>>◌, ◌^◌, ◌||◌, ◌∷◌, ◌≡◌,
}
use omarchy_sync.Cursor.{put_bytes}

pub record DeviceCertificate : Type 0 where
  pub device_id : Bytes
  pub public_key : Bytes
  pub device_name : Bytes
  pub not_before : ℕ
  pub not_after : ℕ
  pub issuer_key_id : Bytes
  pub signature : Bytes

abbrev pub max_certificate_bytes : ℕ
max_certificate_bytes = 512

abbrev pub max_device_name_bytes : ℕ
max_device_name_bytes = 64

abbrev pub max_issuer_key_id_bytes : ℕ
max_issuer_key_id_bytes = 64

abbrev pub cert_magic : Bytes
cert_magic = codes "OMARCHY-CERT-V3"

abbrev pub cert_schema : ℕ
cert_schema = 1

-- The test that rejects a DeviceID or a PairID: 32 lower-case hexadecimal digits are wanted.
unfoldable pub bad_hex_id : Bytes → Bool
bad_hex_id id = not (length id == 32) || not (all is_ascii_hexdigit id) || any is_ascii_uppercase id

unfoldable pub is_key_id_byte : ℕ → Bool
is_key_id_byte b = is_ascii_alphanumeric b || b == b'-' || b == b'_'

unfoldable pub bad_issuer_key_id : Bytes → Bool
bad_issuer_key_id id =
    is_empty id || ltb max_issuer_key_id_bytes (length id) || not (all is_key_id_byte id)

unfoldable pub validate_shape : DeviceCertificate → Result (Unit {0})
validate_shape cert = do
  bail_if (bad_hex_id cert.device_id) invalid_certificate_device_id
  bail_if (is_empty cert.device_name || ltb max_device_name_bytes (length cert.device_name))
      invalid_device_name
  bail_if (leb cert.not_after cert.not_before) invalid_window
  bail_if (bad_issuer_key_id cert.issuer_key_id) invalid_issuer_key_id

-- The pieces that are appended, `name` and `issuer` with their lengths in front.
abbrev pub payload : DeviceCertificate → Bytes → Bytes → List Bytes
payload cert name issuer =
    cert_magic
    ∷ (cert_schema ∷ [])
    ∷ cert.device_id
    ∷ cert.public_key
    ∷ name
    ∷ to_be 8 cert.not_before
    ∷ to_be 8 cert.not_after
    ∷ issuer
    ∷ []

unfoldable pub signing_bytes : DeviceCertificate → Result Bytes
signing_bytes cert = do
  validate_shape cert
  name ← put_bytes cert.device_name max_device_name_bytes
  issuer ← put_bytes cert.issuer_key_id max_issuer_key_id_bytes
  ok (join (payload cert name issuer))

unfoldable pub to_bytes : DeviceCertificate → Result Bytes
to_bytes cert = do
  signed ← signing_bytes cert
  let out = signed ++ cert.signature
  bail_if (ltb max_certificate_bytes (length out)) certificate_too_large
  ok out

-- What the Rust types of the fields say: arrays of their sizes, words, UTF-8 text.
pub record IsTyped (cert : DeviceCertificate) : Type 0 where
  pub key_size : length cert.public_key ≡ 32
  pub signature_size : length cert.signature ≡ 64
  pub before_fits : cert.not_before < 2 ^ 64
  pub after_fits : cert.not_after < 2 ^ 64
  pub name_utf8 : is_utf8 cert.device_name ≡ true
