-- ===== src/Tests/Runs.antt =====
-- Runs of the operations of the store at the two devices.
use omarchy_sync.Certificate
use omarchy_sync.Certificate.Decode as CertificateCodec
use omarchy_sync.Identity
use omarchy_sync.Record.{
  bad_presence, bounded_bytes, checked_pair_id, ensure_same_binding, eq_record, from_bytes,
  is_complete, signing_bytes, to_bytes, validate_device_id, validate_shape, verify_record_signature,
}
use omarchy_sync.Store.{local_role, validate_record, validate_session_identity, validate_stored}
use omarchy_sync.Store.Operations.{finalize, reconcile, revoke}
use omarchy_sync.Certificate.Verify.{verify}
use omarchy_sync.Tests.Toy.{toy}
use omarchy_sync.Tests.Devices.{device, empty_disk, id_of, paired_disk, session, signed, store}
use omarchy_sync.Base.{
  eq_bytes, from_be, from_le, is_ascii_alphanumeric, is_ascii_hexdigit, is_ascii_uppercase, is_utf8,
  ok, refl, take, to_be, to_le, true, ◌≡◌,
}
use omarchy_sync.Identity.{
  device_id, device_id_for_public_key, hex, hex_byte, hex_digit, public_key,
}
use omarchy_sync.Certificate.{bad_hex_id, bad_issuer_key_id, is_key_id_byte}
use omarchy_sync.Session.{is_initiator, local_certificate}
use omarchy_sync.Cursor.{Cursor, bytes, finish, lift, pure, put_bytes, run, string, u16, u64, u8}
use omarchy_sync.Root.{decode_hex, hex_value, key_id_for_public_key, trim}
use omarchy_sync.Tests.Json.{json, parse, print}
use omarchy_sync.Store.Disk.{Disk, find, path_of, read_node, read_record, remove, write_atomic}
use omarchy_sync.Store.Lookup.{active_entry, active_loop, has_active_pairing}
use omarchy_sync.Store.Write.{
  persist_active, persist_over, remove_stale_loop, remove_stale_pending, same_pair, write_new,
  write_over, write_pending,
}
use omarchy_sync.Certificate.Parse.{parse_fields}
use omarchy_sync.Discovery.Verifier.{admit, check, is_kept, prune_replay}

pub validate_stored_test : validate_stored toy (store 150) signed ≡ ok tt
unfolding package.omarchy_sync.Base.eq_bytes package.omarchy_sync.Base.is_ascii_hexdigit
    package.omarchy_sync.Base.is_ascii_uppercase package.omarchy_sync.Base.is_ascii_alphanumeric
    package.omarchy_sync.Base.is_utf8 package.omarchy_sync.Base.from_le
    package.omarchy_sync.Base.to_le package.omarchy_sync.Base.from_be
    package.omarchy_sync.Base.to_be package.omarchy_sync.Cursor.pure
    package.omarchy_sync.Cursor.lift package.omarchy_sync.Cursor.take package.omarchy_sync.Cursor.u8
    package.omarchy_sync.Cursor.u16 package.omarchy_sync.Cursor.u64
    package.omarchy_sync.Cursor.bytes package.omarchy_sync.Cursor.string
    package.omarchy_sync.Cursor.finish package.omarchy_sync.Cursor.run
    package.omarchy_sync.Cursor.put_bytes package.omarchy_sync.Identity.hex_digit
    package.omarchy_sync.Identity.hex_byte package.omarchy_sync.Identity.hex
    package.omarchy_sync.Identity.device_id_for_public_key package.omarchy_sync.Identity.public_key
    package.omarchy_sync.Identity.device_id package.omarchy_sync.Certificate.bad_hex_id
    package.omarchy_sync.Certificate.is_key_id_byte
    package.omarchy_sync.Certificate.bad_issuer_key_id
    package.omarchy_sync.Certificate.validate_shape package.omarchy_sync.Certificate.signing_bytes
    package.omarchy_sync.Certificate.to_bytes package.omarchy_sync.Certificate.Parse.parse_fields
    package.omarchy_sync.Certificate.Decode.from_bytes
    package.omarchy_sync.Certificate.Verify.verify package.omarchy_sync.Record.is_complete
    package.omarchy_sync.Record.validate_device_id package.omarchy_sync.Record.checked_pair_id
    package.omarchy_sync.Record.bad_presence package.omarchy_sync.Record.validate_shape
    package.omarchy_sync.Record.bounded_bytes package.omarchy_sync.Record.signing_bytes
    package.omarchy_sync.Record.to_bytes package.omarchy_sync.Record.from_bytes
    package.omarchy_sync.Record.verify_record_signature package.omarchy_sync.Store.validate_stored
    package.omarchy_sync.Root.key_id_for_public_key package.omarchy_sync.Root.hex_value
    package.omarchy_sync.Root.decode_hex package.omarchy_sync.Root.trim
    package.omarchy_sync.Root.from_bytes package.omarchy_sync.Discovery.signing_bytes
    package.omarchy_sync.Discovery.to_bytes package.omarchy_sync.Discovery.Parse.parse_fields
    package.omarchy_sync.Discovery.Decode.from_bytes package.omarchy_sync.Discovery.Verifier.is_kept
    package.omarchy_sync.Discovery.Verifier.prune_replay
    package.omarchy_sync.Discovery.Verifier.admit package.omarchy_sync.Discovery.Verifier.check
    package.omarchy_sync.Discovery.Verifier.verify
validate_stored_test = refl

pub finalize_test :
    (finalize toy json (store 150) (session 1) (device 1) signed empty_disk) ≡ (paired_disk, ok tt)
unfolding package.omarchy_sync.Base.eq_bytes package.omarchy_sync.Base.is_ascii_hexdigit
    package.omarchy_sync.Base.is_ascii_uppercase package.omarchy_sync.Base.is_ascii_alphanumeric
    package.omarchy_sync.Base.is_utf8 package.omarchy_sync.Base.from_le
    package.omarchy_sync.Base.to_le package.omarchy_sync.Base.from_be
    package.omarchy_sync.Base.to_be package.omarchy_sync.Cursor.pure
    package.omarchy_sync.Cursor.lift package.omarchy_sync.Cursor.take package.omarchy_sync.Cursor.u8
    package.omarchy_sync.Cursor.u16 package.omarchy_sync.Cursor.u64
    package.omarchy_sync.Cursor.bytes package.omarchy_sync.Cursor.string
    package.omarchy_sync.Cursor.finish package.omarchy_sync.Cursor.run
    package.omarchy_sync.Cursor.put_bytes package.omarchy_sync.Identity.hex_digit
    package.omarchy_sync.Identity.hex_byte package.omarchy_sync.Identity.hex
    package.omarchy_sync.Identity.device_id_for_public_key package.omarchy_sync.Identity.public_key
    package.omarchy_sync.Identity.device_id package.omarchy_sync.Certificate.bad_hex_id
    package.omarchy_sync.Certificate.is_key_id_byte
    package.omarchy_sync.Certificate.bad_issuer_key_id
    package.omarchy_sync.Certificate.validate_shape package.omarchy_sync.Certificate.signing_bytes
    package.omarchy_sync.Certificate.to_bytes package.omarchy_sync.Certificate.Parse.parse_fields
    package.omarchy_sync.Certificate.Decode.from_bytes
    package.omarchy_sync.Certificate.Verify.verify package.omarchy_sync.Record.is_complete
    package.omarchy_sync.Record.validate_device_id package.omarchy_sync.Record.checked_pair_id
    package.omarchy_sync.Record.bad_presence package.omarchy_sync.Record.validate_shape
    package.omarchy_sync.Record.bounded_bytes package.omarchy_sync.Record.signing_bytes
    package.omarchy_sync.Record.to_bytes package.omarchy_sync.Record.from_bytes
    package.omarchy_sync.Record.verify_record_signature package.omarchy_sync.Record.eq_record
    package.omarchy_sync.Store.validate_session_identity package.omarchy_sync.Store.local_role
    package.omarchy_sync.Store.validate_record package.omarchy_sync.Store.Disk.find
    package.omarchy_sync.Store.Disk.remove package.omarchy_sync.Store.Disk.path_of
    package.omarchy_sync.Store.Disk.read_node package.omarchy_sync.Store.Disk.read_record
    package.omarchy_sync.Store.Disk.write_atomic package.omarchy_sync.Store.Write.same_pair
    package.omarchy_sync.Store.Write.remove_stale_loop
    package.omarchy_sync.Store.Write.remove_stale_pending
    package.omarchy_sync.Store.Write.persist_over package.omarchy_sync.Store.Write.persist_active
    package.omarchy_sync.Store.Operations.finalize package.omarchy_sync.Tests.Json.print
    package.omarchy_sync.Tests.Json.parse package.omarchy_sync.Session.is_initiator
    package.omarchy_sync.Session.local_certificate package.omarchy_sync.Root.key_id_for_public_key
    package.omarchy_sync.Root.hex_value package.omarchy_sync.Root.decode_hex
    package.omarchy_sync.Root.trim package.omarchy_sync.Root.from_bytes
    package.omarchy_sync.Discovery.signing_bytes package.omarchy_sync.Discovery.to_bytes
    package.omarchy_sync.Discovery.Parse.parse_fields
    package.omarchy_sync.Discovery.Decode.from_bytes package.omarchy_sync.Discovery.Verifier.is_kept
    package.omarchy_sync.Discovery.Verifier.prune_replay
    package.omarchy_sync.Discovery.Verifier.admit package.omarchy_sync.Discovery.Verifier.check
    package.omarchy_sync.Discovery.Verifier.verify
finalize_test = refl

pub reconcile_test :
    (reconcile toy json (store 300) (session 1) (device 1) signed empty_disk) ≡ (paired_disk, ok tt)
unfolding package.omarchy_sync.Base.eq_bytes package.omarchy_sync.Base.is_ascii_hexdigit
    package.omarchy_sync.Base.is_ascii_uppercase package.omarchy_sync.Base.is_ascii_alphanumeric
    package.omarchy_sync.Base.is_utf8 package.omarchy_sync.Base.from_le
    package.omarchy_sync.Base.to_le package.omarchy_sync.Base.from_be
    package.omarchy_sync.Base.to_be package.omarchy_sync.Cursor.pure
    package.omarchy_sync.Cursor.lift package.omarchy_sync.Cursor.take package.omarchy_sync.Cursor.u8
    package.omarchy_sync.Cursor.u16 package.omarchy_sync.Cursor.u64
    package.omarchy_sync.Cursor.bytes package.omarchy_sync.Cursor.string
    package.omarchy_sync.Cursor.finish package.omarchy_sync.Cursor.run
    package.omarchy_sync.Cursor.put_bytes package.omarchy_sync.Identity.hex_digit
    package.omarchy_sync.Identity.hex_byte package.omarchy_sync.Identity.hex
    package.omarchy_sync.Identity.device_id_for_public_key package.omarchy_sync.Identity.public_key
    package.omarchy_sync.Identity.device_id package.omarchy_sync.Certificate.bad_hex_id
    package.omarchy_sync.Certificate.is_key_id_byte
    package.omarchy_sync.Certificate.bad_issuer_key_id
    package.omarchy_sync.Certificate.validate_shape package.omarchy_sync.Certificate.signing_bytes
    package.omarchy_sync.Certificate.to_bytes package.omarchy_sync.Certificate.Parse.parse_fields
    package.omarchy_sync.Certificate.Decode.from_bytes
    package.omarchy_sync.Certificate.Verify.verify package.omarchy_sync.Record.is_complete
    package.omarchy_sync.Record.validate_device_id package.omarchy_sync.Record.checked_pair_id
    package.omarchy_sync.Record.bad_presence package.omarchy_sync.Record.validate_shape
    package.omarchy_sync.Record.bounded_bytes package.omarchy_sync.Record.signing_bytes
    package.omarchy_sync.Record.to_bytes package.omarchy_sync.Record.from_bytes
    package.omarchy_sync.Record.verify_record_signature package.omarchy_sync.Record.eq_record
    package.omarchy_sync.Store.validate_session_identity package.omarchy_sync.Store.local_role
    package.omarchy_sync.Store.validate_record package.omarchy_sync.Store.Disk.find
    package.omarchy_sync.Store.Disk.remove package.omarchy_sync.Store.Disk.path_of
    package.omarchy_sync.Store.Disk.read_node package.omarchy_sync.Store.Disk.read_record
    package.omarchy_sync.Store.Disk.write_atomic package.omarchy_sync.Store.Write.same_pair
    package.omarchy_sync.Store.Write.remove_stale_loop
    package.omarchy_sync.Store.Write.remove_stale_pending
    package.omarchy_sync.Store.Write.persist_over package.omarchy_sync.Store.Write.persist_active
    package.omarchy_sync.Store.Operations.reconcile package.omarchy_sync.Tests.Json.print
    package.omarchy_sync.Tests.Json.parse package.omarchy_sync.Session.is_initiator
    package.omarchy_sync.Session.local_certificate package.omarchy_sync.Root.key_id_for_public_key
    package.omarchy_sync.Root.hex_value package.omarchy_sync.Root.decode_hex
    package.omarchy_sync.Root.trim package.omarchy_sync.Root.from_bytes
    package.omarchy_sync.Discovery.signing_bytes package.omarchy_sync.Discovery.to_bytes
    package.omarchy_sync.Discovery.Parse.parse_fields
    package.omarchy_sync.Discovery.Decode.from_bytes package.omarchy_sync.Discovery.Verifier.is_kept
    package.omarchy_sync.Discovery.Verifier.prune_replay
    package.omarchy_sync.Discovery.Verifier.admit package.omarchy_sync.Discovery.Verifier.check
    package.omarchy_sync.Discovery.Verifier.verify
reconcile_test = refl

pub revoke_test : (revoke toy json (store 150) (id_of 7) paired_disk).1 ≡ ok tt
unfolding package.omarchy_sync.Base.eq_bytes package.omarchy_sync.Base.is_ascii_hexdigit
    package.omarchy_sync.Base.is_ascii_uppercase package.omarchy_sync.Base.is_ascii_alphanumeric
    package.omarchy_sync.Base.is_utf8 package.omarchy_sync.Base.from_le
    package.omarchy_sync.Base.to_le package.omarchy_sync.Base.from_be
    package.omarchy_sync.Base.to_be package.omarchy_sync.Cursor.pure
    package.omarchy_sync.Cursor.lift package.omarchy_sync.Cursor.take package.omarchy_sync.Cursor.u8
    package.omarchy_sync.Cursor.u16 package.omarchy_sync.Cursor.u64
    package.omarchy_sync.Cursor.bytes package.omarchy_sync.Cursor.string
    package.omarchy_sync.Cursor.finish package.omarchy_sync.Cursor.run
    package.omarchy_sync.Cursor.put_bytes package.omarchy_sync.Identity.hex_digit
    package.omarchy_sync.Identity.hex_byte package.omarchy_sync.Identity.hex
    package.omarchy_sync.Identity.device_id_for_public_key package.omarchy_sync.Identity.public_key
    package.omarchy_sync.Identity.device_id package.omarchy_sync.Certificate.bad_hex_id
    package.omarchy_sync.Certificate.is_key_id_byte
    package.omarchy_sync.Certificate.bad_issuer_key_id
    package.omarchy_sync.Certificate.validate_shape package.omarchy_sync.Certificate.signing_bytes
    package.omarchy_sync.Certificate.to_bytes package.omarchy_sync.Certificate.Parse.parse_fields
    package.omarchy_sync.Certificate.Decode.from_bytes
    package.omarchy_sync.Certificate.Verify.verify package.omarchy_sync.Record.is_complete
    package.omarchy_sync.Record.validate_device_id package.omarchy_sync.Record.checked_pair_id
    package.omarchy_sync.Record.bad_presence package.omarchy_sync.Record.validate_shape
    package.omarchy_sync.Record.bounded_bytes package.omarchy_sync.Record.signing_bytes
    package.omarchy_sync.Record.to_bytes package.omarchy_sync.Record.from_bytes
    package.omarchy_sync.Record.verify_record_signature package.omarchy_sync.Store.validate_stored
    package.omarchy_sync.Store.Disk.find package.omarchy_sync.Store.Disk.remove
    package.omarchy_sync.Store.Disk.path_of package.omarchy_sync.Store.Disk.read_node
    package.omarchy_sync.Store.Disk.read_record package.omarchy_sync.Store.Operations.revoke
    package.omarchy_sync.Tests.Json.print package.omarchy_sync.Tests.Json.parse
    package.omarchy_sync.Root.key_id_for_public_key package.omarchy_sync.Root.hex_value
    package.omarchy_sync.Root.decode_hex package.omarchy_sync.Root.trim
    package.omarchy_sync.Root.from_bytes package.omarchy_sync.Discovery.signing_bytes
    package.omarchy_sync.Discovery.to_bytes package.omarchy_sync.Discovery.Parse.parse_fields
    package.omarchy_sync.Discovery.Decode.from_bytes package.omarchy_sync.Discovery.Verifier.is_kept
    package.omarchy_sync.Discovery.Verifier.prune_replay
    package.omarchy_sync.Discovery.Verifier.admit package.omarchy_sync.Discovery.Verifier.check
    package.omarchy_sync.Discovery.Verifier.verify
revoke_test = refl

pub write_pending_test : (write_pending json signed empty_disk).1 ≡ ok tt
unfolding package.omarchy_sync.Base.eq_bytes package.omarchy_sync.Base.is_ascii_hexdigit
    package.omarchy_sync.Base.is_ascii_uppercase package.omarchy_sync.Base.is_ascii_alphanumeric
    package.omarchy_sync.Base.is_utf8 package.omarchy_sync.Base.from_le
    package.omarchy_sync.Base.to_le package.omarchy_sync.Base.from_be
    package.omarchy_sync.Base.to_be package.omarchy_sync.Cursor.pure
    package.omarchy_sync.Cursor.lift package.omarchy_sync.Cursor.take package.omarchy_sync.Cursor.u8
    package.omarchy_sync.Cursor.u16 package.omarchy_sync.Cursor.u64
    package.omarchy_sync.Cursor.bytes package.omarchy_sync.Cursor.string
    package.omarchy_sync.Cursor.finish package.omarchy_sync.Cursor.run
    package.omarchy_sync.Cursor.put_bytes package.omarchy_sync.Identity.hex_digit
    package.omarchy_sync.Identity.hex_byte package.omarchy_sync.Identity.hex
    package.omarchy_sync.Identity.device_id_for_public_key package.omarchy_sync.Identity.public_key
    package.omarchy_sync.Identity.device_id package.omarchy_sync.Certificate.bad_hex_id
    package.omarchy_sync.Certificate.is_key_id_byte
    package.omarchy_sync.Certificate.bad_issuer_key_id
    package.omarchy_sync.Certificate.validate_shape package.omarchy_sync.Certificate.signing_bytes
    package.omarchy_sync.Certificate.to_bytes package.omarchy_sync.Certificate.Parse.parse_fields
    package.omarchy_sync.Certificate.Decode.from_bytes package.omarchy_sync.Record.is_complete
    package.omarchy_sync.Record.validate_device_id package.omarchy_sync.Record.checked_pair_id
    package.omarchy_sync.Record.bad_presence package.omarchy_sync.Record.validate_shape
    package.omarchy_sync.Record.bounded_bytes package.omarchy_sync.Record.signing_bytes
    package.omarchy_sync.Record.to_bytes package.omarchy_sync.Record.from_bytes
    package.omarchy_sync.Record.ensure_same_binding package.omarchy_sync.Store.Disk.find
    package.omarchy_sync.Store.Disk.path_of package.omarchy_sync.Store.Disk.read_node
    package.omarchy_sync.Store.Disk.read_record package.omarchy_sync.Store.Disk.write_atomic
    package.omarchy_sync.Store.Write.write_new package.omarchy_sync.Store.Write.write_over
    package.omarchy_sync.Store.Write.write_pending package.omarchy_sync.Tests.Json.print
    package.omarchy_sync.Tests.Json.parse package.omarchy_sync.Root.key_id_for_public_key
    package.omarchy_sync.Root.hex_value package.omarchy_sync.Root.decode_hex
    package.omarchy_sync.Root.trim package.omarchy_sync.Root.from_bytes
    package.omarchy_sync.Discovery.signing_bytes package.omarchy_sync.Discovery.to_bytes
    package.omarchy_sync.Discovery.Parse.parse_fields
    package.omarchy_sync.Discovery.Decode.from_bytes
write_pending_test = refl

pub has_active_pairing_test :
    has_active_pairing toy json (store 300) (id_of 2) (id_of 1) paired_disk ≡ ok true
unfolding package.omarchy_sync.Base.eq_bytes package.omarchy_sync.Base.is_ascii_hexdigit
    package.omarchy_sync.Base.is_ascii_uppercase package.omarchy_sync.Base.is_ascii_alphanumeric
    package.omarchy_sync.Base.is_utf8 package.omarchy_sync.Base.from_le
    package.omarchy_sync.Base.to_le package.omarchy_sync.Base.from_be
    package.omarchy_sync.Base.to_be package.omarchy_sync.Cursor.pure
    package.omarchy_sync.Cursor.lift package.omarchy_sync.Cursor.take package.omarchy_sync.Cursor.u8
    package.omarchy_sync.Cursor.u16 package.omarchy_sync.Cursor.u64
    package.omarchy_sync.Cursor.bytes package.omarchy_sync.Cursor.string
    package.omarchy_sync.Cursor.finish package.omarchy_sync.Cursor.run
    package.omarchy_sync.Cursor.put_bytes package.omarchy_sync.Identity.hex_digit
    package.omarchy_sync.Identity.hex_byte package.omarchy_sync.Identity.hex
    package.omarchy_sync.Identity.device_id_for_public_key package.omarchy_sync.Identity.public_key
    package.omarchy_sync.Identity.device_id package.omarchy_sync.Certificate.bad_hex_id
    package.omarchy_sync.Certificate.is_key_id_byte
    package.omarchy_sync.Certificate.bad_issuer_key_id
    package.omarchy_sync.Certificate.validate_shape package.omarchy_sync.Certificate.signing_bytes
    package.omarchy_sync.Certificate.to_bytes package.omarchy_sync.Certificate.Parse.parse_fields
    package.omarchy_sync.Certificate.Decode.from_bytes
    package.omarchy_sync.Certificate.Verify.verify package.omarchy_sync.Record.is_complete
    package.omarchy_sync.Record.validate_device_id package.omarchy_sync.Record.checked_pair_id
    package.omarchy_sync.Record.bad_presence package.omarchy_sync.Record.validate_shape
    package.omarchy_sync.Record.bounded_bytes package.omarchy_sync.Record.signing_bytes
    package.omarchy_sync.Record.to_bytes package.omarchy_sync.Record.from_bytes
    package.omarchy_sync.Record.verify_record_signature package.omarchy_sync.Store.validate_stored
    package.omarchy_sync.Root.key_id_for_public_key package.omarchy_sync.Root.hex_value
    package.omarchy_sync.Root.decode_hex package.omarchy_sync.Root.trim
    package.omarchy_sync.Root.from_bytes package.omarchy_sync.Discovery.signing_bytes
    package.omarchy_sync.Discovery.to_bytes package.omarchy_sync.Discovery.Parse.parse_fields
    package.omarchy_sync.Discovery.Decode.from_bytes package.omarchy_sync.Discovery.Verifier.is_kept
    package.omarchy_sync.Discovery.Verifier.prune_replay package.omarchy_sync.Record.eq_record
    package.omarchy_sync.Store.validate_session_identity package.omarchy_sync.Store.local_role
    package.omarchy_sync.Store.validate_record package.omarchy_sync.Store.Disk.find
    package.omarchy_sync.Store.Disk.remove package.omarchy_sync.Store.Disk.path_of
    package.omarchy_sync.Store.Lookup.has_active_pairing
    package.omarchy_sync.Store.Lookup.active_loop package.omarchy_sync.Store.Lookup.active_entry
    package.omarchy_sync.Store.Disk.read_record package.omarchy_sync.Store.Disk.read_node
    package.omarchy_sync.Tests.Json.print package.omarchy_sync.Tests.Json.parse
has_active_pairing_test = refl
