-- ===== src/Tests/Decodes.antt =====
-- Runs of the codecs, of the issuer and of the secure path at the two devices.
use omarchy_sync.Certificate
use omarchy_sync.Certificate.Decode as CertificateCodec
use omarchy_sync.Identity
use omarchy_sync.Record.{
  bad_presence, bounded_bytes, checked_pair_id, from_bytes, payload, signing_bytes, to_bytes,
  validate_device_id, validate_shape,
}
use omarchy_sync.Certificate.Verify.{issue, unsigned, validate_fields, verify}
use omarchy_sync.Certificate.RoundTrip.{encoding}
use omarchy_sync.Tests.Toy.{digest, toy}
use omarchy_sync.Tests.Devices.{certificate, device, draft, files, id_of, root, root_signing_key}
use omarchy_sync.Base.{
  [], all, codes, eq_bytes, from_be, from_le, is_ascii_alphanumeric, is_ascii_hexdigit,
  is_ascii_uppercase, is_utf8, join, ltb, ok, refl, take, to_be, to_le, true, ◌∷◌, ◌≡◌,
}
use omarchy_sync.Identity.{
  device_id, device_id_for_public_key, hex, hex_byte, hex_digit, public_key, sign,
}
use omarchy_sync.Certificate.{bad_hex_id, bad_issuer_key_id, is_key_id_byte}
use omarchy_sync.Cursor.{
  Cursor, bytes, field, finish, lift, pure, put_bytes, run, string, u16, u64, u8,
}
use omarchy_sync.Root.{
  chain_from, decode_hex, from_secure_path, hex_value, insecure_directory, key_id_for_public_key,
  root_controlled_parent_chain, root_key_metadata_is_secure, root_key_policy, trim,
}
use omarchy_sync.Certificate.Parse.{parse_fields}
use omarchy_sync.Discovery.Verifier.{admit, check, is_kept, prune_replay}

pub device_id_test : Identity.device_id toy (device 1) ≡ id_of 1
unfolding package.omarchy_sync.Base.from_le package.omarchy_sync.Base.from_be
    package.omarchy_sync.Cursor.pure package.omarchy_sync.Cursor.lift
    package.omarchy_sync.Cursor.take package.omarchy_sync.Cursor.u16
    package.omarchy_sync.Cursor.bytes package.omarchy_sync.Identity.hex_digit
    package.omarchy_sync.Identity.hex_byte package.omarchy_sync.Identity.hex
    package.omarchy_sync.Identity.device_id_for_public_key package.omarchy_sync.Identity.public_key
    package.omarchy_sync.Identity.device_id
device_id_test = refl

pub certificate_test : verify toy (certificate 1) root 150 ≡ ok tt
unfolding package.omarchy_sync.Base.eq_bytes package.omarchy_sync.Base.is_ascii_hexdigit
    package.omarchy_sync.Base.is_ascii_uppercase package.omarchy_sync.Base.is_ascii_alphanumeric
    package.omarchy_sync.Base.is_utf8 package.omarchy_sync.Base.from_le
    package.omarchy_sync.Base.to_le package.omarchy_sync.Base.from_be
    package.omarchy_sync.Base.to_be package.omarchy_sync.Cursor.pure
    package.omarchy_sync.Cursor.lift package.omarchy_sync.Cursor.take package.omarchy_sync.Cursor.u8
    package.omarchy_sync.Cursor.u16 package.omarchy_sync.Cursor.u64
    package.omarchy_sync.Cursor.bytes package.omarchy_sync.Cursor.string
    package.omarchy_sync.Cursor.finish package.omarchy_sync.Cursor.run
    package.omarchy_sync.Cursor.put_bytes package.omarchy_sync.Identity.hex_digit
    package.omarchy_sync.Identity.hex_byte package.omarchy_sync.Identity.hex
    package.omarchy_sync.Identity.device_id_for_public_key package.omarchy_sync.Identity.public_key
    package.omarchy_sync.Identity.device_id package.omarchy_sync.Certificate.bad_hex_id
    package.omarchy_sync.Certificate.is_key_id_byte
    package.omarchy_sync.Certificate.bad_issuer_key_id
    package.omarchy_sync.Certificate.validate_shape package.omarchy_sync.Certificate.signing_bytes
    package.omarchy_sync.Certificate.to_bytes package.omarchy_sync.Certificate.Parse.parse_fields
    package.omarchy_sync.Certificate.Decode.from_bytes
    package.omarchy_sync.Certificate.Verify.verify package.omarchy_sync.Record.validate_device_id
    package.omarchy_sync.Record.checked_pair_id package.omarchy_sync.Record.bad_presence
    package.omarchy_sync.Record.validate_shape package.omarchy_sync.Record.bounded_bytes
    package.omarchy_sync.Record.signing_bytes package.omarchy_sync.Record.to_bytes
    package.omarchy_sync.Record.from_bytes package.omarchy_sync.Root.key_id_for_public_key
    package.omarchy_sync.Root.hex_value package.omarchy_sync.Root.decode_hex
    package.omarchy_sync.Root.trim package.omarchy_sync.Root.from_bytes
    package.omarchy_sync.Discovery.signing_bytes package.omarchy_sync.Discovery.to_bytes
    package.omarchy_sync.Discovery.Parse.parse_fields
    package.omarchy_sync.Discovery.Decode.from_bytes package.omarchy_sync.Discovery.Verifier.is_kept
    package.omarchy_sync.Discovery.Verifier.prune_replay
    package.omarchy_sync.Discovery.Verifier.admit package.omarchy_sync.Discovery.Verifier.check
    package.omarchy_sync.Discovery.Verifier.verify
certificate_test = refl

pub peer_certificate_test : verify toy (certificate 2) root 150 ≡ ok tt
unfolding package.omarchy_sync.Base.eq_bytes package.omarchy_sync.Base.is_ascii_hexdigit
    package.omarchy_sync.Base.is_ascii_uppercase package.omarchy_sync.Base.is_ascii_alphanumeric
    package.omarchy_sync.Base.is_utf8 package.omarchy_sync.Base.from_le
    package.omarchy_sync.Base.to_le package.omarchy_sync.Base.from_be
    package.omarchy_sync.Base.to_be package.omarchy_sync.Cursor.pure
    package.omarchy_sync.Cursor.lift package.omarchy_sync.Cursor.take package.omarchy_sync.Cursor.u8
    package.omarchy_sync.Cursor.u16 package.omarchy_sync.Cursor.u64
    package.omarchy_sync.Cursor.bytes package.omarchy_sync.Cursor.string
    package.omarchy_sync.Cursor.finish package.omarchy_sync.Cursor.run
    package.omarchy_sync.Cursor.put_bytes package.omarchy_sync.Identity.hex_digit
    package.omarchy_sync.Identity.hex_byte package.omarchy_sync.Identity.hex
    package.omarchy_sync.Identity.device_id_for_public_key package.omarchy_sync.Identity.public_key
    package.omarchy_sync.Identity.device_id package.omarchy_sync.Certificate.bad_hex_id
    package.omarchy_sync.Certificate.is_key_id_byte
    package.omarchy_sync.Certificate.bad_issuer_key_id
    package.omarchy_sync.Certificate.validate_shape package.omarchy_sync.Certificate.signing_bytes
    package.omarchy_sync.Certificate.to_bytes package.omarchy_sync.Certificate.Parse.parse_fields
    package.omarchy_sync.Certificate.Decode.from_bytes
    package.omarchy_sync.Certificate.Verify.verify package.omarchy_sync.Record.validate_device_id
    package.omarchy_sync.Record.checked_pair_id package.omarchy_sync.Record.bad_presence
    package.omarchy_sync.Record.validate_shape package.omarchy_sync.Record.bounded_bytes
    package.omarchy_sync.Record.signing_bytes package.omarchy_sync.Record.to_bytes
    package.omarchy_sync.Record.from_bytes package.omarchy_sync.Root.key_id_for_public_key
    package.omarchy_sync.Root.hex_value package.omarchy_sync.Root.decode_hex
    package.omarchy_sync.Root.trim package.omarchy_sync.Root.from_bytes
    package.omarchy_sync.Discovery.signing_bytes package.omarchy_sync.Discovery.to_bytes
    package.omarchy_sync.Discovery.Parse.parse_fields
    package.omarchy_sync.Discovery.Decode.from_bytes package.omarchy_sync.Discovery.Verifier.is_kept
    package.omarchy_sync.Discovery.Verifier.prune_replay
    package.omarchy_sync.Discovery.Verifier.admit package.omarchy_sync.Discovery.Verifier.check
    package.omarchy_sync.Discovery.Verifier.verify
peer_certificate_test = refl

pub signing_bytes_test :
    Certificate.signing_bytes (certificate 1)
    ≡ ok (join (Certificate.payload (draft 1) (field (codes "laptop")) (field (codes "root-1"))))
unfolding package.omarchy_sync.Base.is_ascii_hexdigit package.omarchy_sync.Base.is_ascii_uppercase
    package.omarchy_sync.Base.is_ascii_alphanumeric package.omarchy_sync.Base.from_le
    package.omarchy_sync.Base.to_le package.omarchy_sync.Base.from_be
    package.omarchy_sync.Base.to_be package.omarchy_sync.Cursor.pure
    package.omarchy_sync.Cursor.lift package.omarchy_sync.Cursor.take
    package.omarchy_sync.Cursor.u16 package.omarchy_sync.Cursor.bytes
    package.omarchy_sync.Cursor.put_bytes package.omarchy_sync.Identity.hex_digit
    package.omarchy_sync.Identity.hex_byte package.omarchy_sync.Identity.hex
    package.omarchy_sync.Identity.device_id_for_public_key package.omarchy_sync.Identity.public_key
    package.omarchy_sync.Identity.device_id package.omarchy_sync.Certificate.bad_hex_id
    package.omarchy_sync.Certificate.is_key_id_byte
    package.omarchy_sync.Certificate.bad_issuer_key_id
    package.omarchy_sync.Certificate.validate_shape package.omarchy_sync.Certificate.signing_bytes
    package.omarchy_sync.Certificate.to_bytes package.omarchy_sync.Record.validate_device_id
    package.omarchy_sync.Record.checked_pair_id package.omarchy_sync.Record.bad_presence
    package.omarchy_sync.Record.validate_shape package.omarchy_sync.Record.bounded_bytes
    package.omarchy_sync.Record.signing_bytes package.omarchy_sync.Record.to_bytes
    package.omarchy_sync.Discovery.signing_bytes package.omarchy_sync.Discovery.to_bytes
signing_bytes_test = refl

pub draft-signing_bytes_test :
    Certificate.signing_bytes (draft 1)
    ≡ ok (join (Certificate.payload (draft 1) (field (codes "laptop")) (field (codes "root-1"))))
unfolding package.omarchy_sync.Base.is_ascii_hexdigit package.omarchy_sync.Base.is_ascii_uppercase
    package.omarchy_sync.Base.is_ascii_alphanumeric package.omarchy_sync.Base.from_le
    package.omarchy_sync.Base.to_le package.omarchy_sync.Base.from_be
    package.omarchy_sync.Base.to_be package.omarchy_sync.Cursor.pure
    package.omarchy_sync.Cursor.lift package.omarchy_sync.Cursor.take
    package.omarchy_sync.Cursor.u16 package.omarchy_sync.Cursor.bytes
    package.omarchy_sync.Cursor.put_bytes package.omarchy_sync.Identity.hex_digit
    package.omarchy_sync.Identity.hex_byte package.omarchy_sync.Identity.hex
    package.omarchy_sync.Identity.device_id_for_public_key package.omarchy_sync.Identity.public_key
    package.omarchy_sync.Identity.device_id package.omarchy_sync.Certificate.bad_hex_id
    package.omarchy_sync.Certificate.is_key_id_byte
    package.omarchy_sync.Certificate.bad_issuer_key_id
    package.omarchy_sync.Certificate.validate_shape package.omarchy_sync.Certificate.signing_bytes
    package.omarchy_sync.Certificate.to_bytes package.omarchy_sync.Record.validate_device_id
    package.omarchy_sync.Record.checked_pair_id package.omarchy_sync.Record.bad_presence
    package.omarchy_sync.Record.validate_shape package.omarchy_sync.Record.bounded_bytes
    package.omarchy_sync.Record.signing_bytes package.omarchy_sync.Record.to_bytes
    package.omarchy_sync.Discovery.signing_bytes package.omarchy_sync.Discovery.to_bytes
draft-signing_bytes_test = refl

pub shape_test : Certificate.validate_shape (certificate 1) ≡ ok tt
unfolding package.omarchy_sync.Base.is_ascii_hexdigit package.omarchy_sync.Base.is_ascii_uppercase
    package.omarchy_sync.Base.is_ascii_alphanumeric package.omarchy_sync.Base.from_le
    package.omarchy_sync.Base.from_be package.omarchy_sync.Cursor.pure
    package.omarchy_sync.Cursor.lift package.omarchy_sync.Cursor.take
    package.omarchy_sync.Cursor.u16 package.omarchy_sync.Cursor.bytes
    package.omarchy_sync.Identity.hex_digit package.omarchy_sync.Identity.hex_byte
    package.omarchy_sync.Identity.hex package.omarchy_sync.Identity.device_id_for_public_key
    package.omarchy_sync.Identity.public_key package.omarchy_sync.Identity.device_id
    package.omarchy_sync.Certificate.bad_hex_id package.omarchy_sync.Certificate.is_key_id_byte
    package.omarchy_sync.Certificate.bad_issuer_key_id
    package.omarchy_sync.Certificate.validate_shape package.omarchy_sync.Record.validate_device_id
    package.omarchy_sync.Record.checked_pair_id package.omarchy_sync.Record.bad_presence
    package.omarchy_sync.Record.validate_shape
shape_test = refl

pub from_bytes_test : CertificateCodec.from_bytes (encoding (certificate 1)) ≡ ok (certificate 1)
unfolding package.omarchy_sync.Base.eq_bytes package.omarchy_sync.Base.is_ascii_hexdigit
    package.omarchy_sync.Base.is_ascii_uppercase package.omarchy_sync.Base.is_ascii_alphanumeric
    package.omarchy_sync.Base.is_utf8 package.omarchy_sync.Base.from_le
    package.omarchy_sync.Base.to_le package.omarchy_sync.Base.from_be
    package.omarchy_sync.Base.to_be package.omarchy_sync.Cursor.pure
    package.omarchy_sync.Cursor.lift package.omarchy_sync.Cursor.take package.omarchy_sync.Cursor.u8
    package.omarchy_sync.Cursor.u16 package.omarchy_sync.Cursor.u64
    package.omarchy_sync.Cursor.bytes package.omarchy_sync.Cursor.string
    package.omarchy_sync.Cursor.finish package.omarchy_sync.Cursor.run
    package.omarchy_sync.Identity.hex_digit package.omarchy_sync.Identity.hex_byte
    package.omarchy_sync.Identity.hex package.omarchy_sync.Identity.device_id_for_public_key
    package.omarchy_sync.Identity.public_key package.omarchy_sync.Identity.device_id
    package.omarchy_sync.Certificate.bad_hex_id package.omarchy_sync.Certificate.is_key_id_byte
    package.omarchy_sync.Certificate.bad_issuer_key_id
    package.omarchy_sync.Certificate.validate_shape
    package.omarchy_sync.Certificate.Parse.parse_fields
    package.omarchy_sync.Certificate.Decode.from_bytes
    package.omarchy_sync.Record.validate_device_id package.omarchy_sync.Record.checked_pair_id
    package.omarchy_sync.Record.bad_presence package.omarchy_sync.Record.validate_shape
    package.omarchy_sync.Record.from_bytes package.omarchy_sync.Root.key_id_for_public_key
    package.omarchy_sync.Root.hex_value package.omarchy_sync.Root.decode_hex
    package.omarchy_sync.Root.trim package.omarchy_sync.Root.from_bytes
    package.omarchy_sync.Discovery.Parse.parse_fields
    package.omarchy_sync.Discovery.Decode.from_bytes
from_bytes_test = refl

pub issue_test :
    issue toy root_signing_key
      (id_of 1)
      (digest 32 (1 ∷ []))
      (codes "laptop")
      100
      200
      (codes "root-1")
    ≡ ok (certificate 1)
unfolding package.omarchy_sync.Base.eq_bytes package.omarchy_sync.Base.is_ascii_hexdigit
    package.omarchy_sync.Base.is_ascii_uppercase package.omarchy_sync.Base.is_ascii_alphanumeric
    package.omarchy_sync.Base.from_le package.omarchy_sync.Base.to_le
    package.omarchy_sync.Base.from_be package.omarchy_sync.Base.to_be
    package.omarchy_sync.Cursor.pure package.omarchy_sync.Cursor.lift
    package.omarchy_sync.Cursor.take package.omarchy_sync.Cursor.u16
    package.omarchy_sync.Cursor.bytes package.omarchy_sync.Cursor.put_bytes
    package.omarchy_sync.Identity.hex_digit package.omarchy_sync.Identity.hex_byte
    package.omarchy_sync.Identity.hex package.omarchy_sync.Identity.device_id_for_public_key
    package.omarchy_sync.Identity.public_key package.omarchy_sync.Identity.device_id
    package.omarchy_sync.Identity.sign package.omarchy_sync.Certificate.bad_hex_id
    package.omarchy_sync.Certificate.is_key_id_byte
    package.omarchy_sync.Certificate.bad_issuer_key_id
    package.omarchy_sync.Certificate.validate_shape package.omarchy_sync.Certificate.signing_bytes
    package.omarchy_sync.Certificate.to_bytes
    package.omarchy_sync.Certificate.Verify.validate_fields
    package.omarchy_sync.Certificate.Verify.unsigned package.omarchy_sync.Certificate.Verify.issue
    package.omarchy_sync.Record.validate_device_id package.omarchy_sync.Record.checked_pair_id
    package.omarchy_sync.Record.bad_presence package.omarchy_sync.Record.validate_shape
    package.omarchy_sync.Record.bounded_bytes package.omarchy_sync.Record.signing_bytes
    package.omarchy_sync.Record.to_bytes package.omarchy_sync.Discovery.signing_bytes
    package.omarchy_sync.Discovery.to_bytes package.omarchy_sync.Discovery.sign
issue_test = refl

pub encoding_bytes_test : all (λ b. ltb b 256) (encoding (certificate 1)) ≡ true
unfolding package.omarchy_sync.Base.from_le package.omarchy_sync.Base.to_le
    package.omarchy_sync.Base.from_be package.omarchy_sync.Base.to_be
    package.omarchy_sync.Cursor.pure package.omarchy_sync.Cursor.lift
    package.omarchy_sync.Cursor.take package.omarchy_sync.Cursor.u16
    package.omarchy_sync.Cursor.bytes package.omarchy_sync.Identity.hex_digit
    package.omarchy_sync.Identity.hex_byte package.omarchy_sync.Identity.hex
    package.omarchy_sync.Identity.device_id_for_public_key package.omarchy_sync.Identity.public_key
    package.omarchy_sync.Identity.device_id
encoding_bytes_test = refl

root_file_test :
    from_secure_path toy files (codes "root.key" ∷ [])
    ≡ ok (record root { key_id = key_id_for_public_key toy root.public_key })
unfolding package.omarchy_sync.Base.eq_bytes package.omarchy_sync.Base.is_ascii_hexdigit
    package.omarchy_sync.Base.is_ascii_uppercase package.omarchy_sync.Base.is_ascii_alphanumeric
    package.omarchy_sync.Base.is_utf8 package.omarchy_sync.Base.from_le
    package.omarchy_sync.Base.from_be package.omarchy_sync.Cursor.pure
    package.omarchy_sync.Cursor.lift package.omarchy_sync.Cursor.take package.omarchy_sync.Cursor.u8
    package.omarchy_sync.Cursor.u16 package.omarchy_sync.Cursor.u64
    package.omarchy_sync.Cursor.bytes package.omarchy_sync.Cursor.string
    package.omarchy_sync.Cursor.finish package.omarchy_sync.Cursor.run
    package.omarchy_sync.Identity.hex_digit package.omarchy_sync.Identity.hex_byte
    package.omarchy_sync.Identity.hex package.omarchy_sync.Identity.device_id_for_public_key
    package.omarchy_sync.Identity.public_key package.omarchy_sync.Identity.device_id
    package.omarchy_sync.Certificate.bad_hex_id package.omarchy_sync.Certificate.is_key_id_byte
    package.omarchy_sync.Certificate.bad_issuer_key_id
    package.omarchy_sync.Certificate.validate_shape
    package.omarchy_sync.Certificate.Parse.parse_fields
    package.omarchy_sync.Certificate.Decode.from_bytes
    package.omarchy_sync.Record.validate_device_id package.omarchy_sync.Record.checked_pair_id
    package.omarchy_sync.Record.bad_presence package.omarchy_sync.Record.validate_shape
    package.omarchy_sync.Record.from_bytes package.omarchy_sync.Root.key_id_for_public_key
    package.omarchy_sync.Root.hex_value package.omarchy_sync.Root.decode_hex
    package.omarchy_sync.Root.trim package.omarchy_sync.Root.from_bytes
    package.omarchy_sync.Root.root_key_policy package.omarchy_sync.Root.root_key_metadata_is_secure
    package.omarchy_sync.Root.insecure_directory package.omarchy_sync.Root.chain_from
    package.omarchy_sync.Root.root_controlled_parent_chain
    package.omarchy_sync.Root.from_secure_path package.omarchy_sync.Discovery.Parse.parse_fields
    package.omarchy_sync.Discovery.Decode.from_bytes
root_file_test = refl
