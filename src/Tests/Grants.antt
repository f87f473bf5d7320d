-- ===== src/Tests/Grants.antt =====
-- The theorems on the key file and on capabilities at concrete inputs.
use omarchy_sync.Tests.Toy.{toy}
use omarchy_sync.Tests.Devices.{id_of, paired_disk, store}
use omarchy_sync.Tests.Json.{json, parse, print}
use omarchy_sync.Identity.Capability.{
  ActivePairingLookup, CapabilityRecord, CapabilitySerde, CapabilitySerdeLaws, CapabilityStore,
  grant_capability, granted, load, open_store, or_default, path_for, validate_capability,
  write_atomic,
}
use omarchy_sync.Identity.Capability.Grant.{grant_capability-eq-ok, grant_capability-load_other}
use omarchy_sync.Identity.Capability.Sets.{contains, insert, is_sorted, lt_bytes}
use omarchy_sync.Store.Disk.{
  Disk, file_name, file_stem, find, path_of, read_node, read_record, regular, remove,
}
use omarchy_sync.Identity.KeyFile.{
  file, identity_dir_mode, load_or_create, load_or_create-load_or_create, private_key_mode,
}
use omarchy_sync.Record.{
  bad_presence, bounded_bytes, checked_pair_id, ensure_same_binding, eq_record, from_bytes,
  is_complete, is_pending, record_fingerprint, set_signature, sign_record, signature_for,
  signing_bytes, to_bytes, validate_device_id, validate_shape, verify_record_signature,
}
use omarchy_sync.Store.{
  local_role, validate_pending_stored, validate_record, validate_session_identity, validate_stored,
}
use omarchy_sync.Store.Lookup.{
  active_entry, active_loop, context_from_record, context_from_record_parts, has_active_pairing,
  load_pending, pending_for_peer, pending_loop, reconnect_context, recovery_context, recovery_loop,
}
use omarchy_sync.Base.{
  Bytes, List, Option, [], ap, arith, codes, drop, drop-append, eq_bytes, err, false, from_be,
  from_le, is_ascii_alphanumeric, is_ascii_hexdigit, is_ascii_uppercase, is_utf8, length,
  no_active_pairing, none, ok, refl, some, some-injective, start, suc, sym, take, take-append,
  to_be, to_le, true, zero, zeros, ℕ, ◌++◌, ◌||◌, ◌∷◌, ◌≡◌, ◌⊎◌,
}
use omarchy_sync.Identity.{
  device_id, device_id_for_public_key, hex, hex_byte, hex_digit, public_key, sign,
}
use omarchy_sync.Certificate.{bad_hex_id, bad_issuer_key_id, is_key_id_byte}
use omarchy_sync.Session.{
  eq_certificate, from_validated_record, identity_for_role, is_initiator, local_certificate,
  peer_device_id, role_for,
}
use omarchy_sync.Frame.{encode_frame, encode_frame_with_sequence, encode_start_frame}
use omarchy_sync.Cursor.{
  Cursor, bytes, finish, lift, pure, put_bytes, remaining, run, string, u16, u64, u8,
}
use omarchy_sync.Root.{
  chain_from, decode_hex, from_secure_path, hex_value, insecure_directory, key_id_for_public_key,
  root_controlled_parent_chain, root_key_metadata_is_secure, root_key_policy, trim,
}
use omarchy_sync.Store.Operations.{
  co_sign, finalize, prepare, reconcile, resume_prepare, revoke, sign_and_write,
}
use omarchy_sync.Store.Write.{
  persist_active, persist_over, remove_stale_loop, remove_stale_pending, same_pair, write_new,
  write_over, write_pending,
}
use omarchy_sync.Frame.Decode.{decode_frame, decode_frame_with_sequence, decode_start_frame}
use omarchy_sync.Frame.Transport.{decrypt, encrypt}
use omarchy_sync.Frame.Parse.{Frame, parse_frame}
use omarchy_sync.Certificate.Parse.{parse_fields}
use omarchy_sync.Certificate.Verify.{issue, validate_fields, verify, with_signature}
use omarchy_sync.Discovery.Verifier.{
  admit, check, is_kept, new_verifier, prune_replay, verify_all, with_window,
}
use omarchy_sync.Handshake.Initiator.{
  build_transcript, receive_responder_ack, receive_responder_auth, receive_responder_handshake,
}
use omarchy_sync.Handshake.Hello.{auth_hello, auth_proof, signed_auth_payload}
use omarchy_sync.Handshake.Peer.{
  parse_auth, parse_auth_hello, parse_auth_proof, parse_paired_auth, verify_signature,
  verify_signature_payload,
}
use omarchy_sync.Handshake.Transcript.{digest_transcript, make_transcript}
use omarchy_sync.Handshake.Checks.{
  build_handshake, decrypt_auth, encrypt_auth, finish_handshake, validate_expected_peer,
  validate_local,
}
use omarchy_sync.Handshake.Open.{
  new_initiator, new_responder, random_pair_id, reconnect_initiator, reconnect_responder,
  start_is_reconnect,
}
use omarchy_sync.Handshake.Parse.{optional_signature}
use omarchy_sync.Handshake.Responder.{
  answer_hello, receive_initiator_auth, receive_initiator_finish, receive_initiator_start,
}
use omarchy_sync.Handshake.Initiator.Once.{succeeds}

abbrev put_all : List Bytes → Bytes
put_all [] = []
put_all (x ∷ xs) = length x ∷ (x ++ put_all xs)

abbrev get_all : ℕ → Bytes → List Bytes
get_all zero bs = []
get_all (suc n) [] = []
get_all (suc n) (m ∷ bs) = take m bs ∷ get_all n (drop m bs)

abbrev put : CapabilityRecord → Bytes
put r = length r.capabilities ∷ put_all (r.device_id ∷ r.capabilities)

abbrev of_fields : List Bytes → Option CapabilityRecord
of_fields [] = none
of_fields (id ∷ set) = some (record { device_id = id; capabilities = set })

abbrev get : Bytes → Option CapabilityRecord
get [] = none
get (n ∷ bs) = of_fields (get_all (suc n) bs)

get_all-put_all : (xs : List Bytes) → get_all (length xs) (put_all xs) ≡ xs
get_all-put_all [] = refl
get_all-put_all (x ∷ xs) =
    rw (take-append x (put_all xs), drop-append x (put_all xs), get_all-put_all xs) refl

abbrev lists : CapabilitySerde
lists = record { to_json = put; of_json = get }

lists-laws : CapabilitySerdeLaws lists
lists-laws = record {
  of_json-to_json = λ r. ap (λ x. of_fields x) (get_all-put_all (r.device_id ∷ r.capabilities));
}

abbrev theme : Bytes
theme = codes "sync.theme"

-- A store in which the second device has one capability.
abbrev stored : CapabilityStore
stored = record {
  mode = 493;
  directory =
      (
        file_name (id_of 2),
        regular (put (record { device_id = id_of 2; capabilities = codes "a" ∷ [] })),
      )
      ∷ [];
}

abbrev trusting : ActivePairingLookup
trusting local peer = has_active_pairing toy json (store 300) local peer paired_disk

allowed_test :
    (grant_capability lists trusting (id_of 1) (id_of 2) theme stored).1
    ≡ ok (codes "a" ∷ (theme ∷ []))
unfolding package.omarchy_sync.Base.eq_bytes package.omarchy_sync.Base.is_ascii_hexdigit
    package.omarchy_sync.Base.is_ascii_uppercase package.omarchy_sync.Base.is_ascii_alphanumeric
    package.omarchy_sync.Base.is_utf8 package.omarchy_sync.Base.from_le
    package.omarchy_sync.Base.to_le package.omarchy_sync.Base.from_be
    package.omarchy_sync.Base.to_be package.omarchy_sync.Cursor.pure
    package.omarchy_sync.Cursor.lift package.omarchy_sync.Cursor.take package.omarchy_sync.Cursor.u8
    package.omarchy_sync.Cursor.u16 package.omarchy_sync.Cursor.u64
    package.omarchy_sync.Cursor.bytes package.omarchy_sync.Cursor.string
    package.omarchy_sync.Cursor.remaining package.omarchy_sync.Cursor.finish
    package.omarchy_sync.Cursor.run package.omarchy_sync.Cursor.put_bytes
    package.omarchy_sync.Identity.hex_digit package.omarchy_sync.Identity.hex_byte
    package.omarchy_sync.Identity.hex package.omarchy_sync.Identity.device_id_for_public_key
    package.omarchy_sync.Identity.public_key package.omarchy_sync.Identity.device_id
    package.omarchy_sync.Identity.sign package.omarchy_sync.Certificate.bad_hex_id
    package.omarchy_sync.Certificate.is_key_id_byte
    package.omarchy_sync.Certificate.bad_issuer_key_id
    package.omarchy_sync.Certificate.validate_shape package.omarchy_sync.Certificate.signing_bytes
    package.omarchy_sync.Certificate.to_bytes package.omarchy_sync.Certificate.Parse.parse_fields
    package.omarchy_sync.Certificate.Decode.from_bytes
    package.omarchy_sync.Certificate.Verify.verify
    package.omarchy_sync.Certificate.Verify.validate_fields
    package.omarchy_sync.Certificate.Verify.unsigned
    package.omarchy_sync.Certificate.Verify.with_signature
    package.omarchy_sync.Certificate.Verify.issue package.omarchy_sync.Record.is_complete
    package.omarchy_sync.Record.is_pending package.omarchy_sync.Record.validate_device_id
    package.omarchy_sync.Record.checked_pair_id package.omarchy_sync.Record.bad_presence
    package.omarchy_sync.Record.validate_shape package.omarchy_sync.Record.bounded_bytes
    package.omarchy_sync.Record.signing_bytes package.omarchy_sync.Record.to_bytes
    package.omarchy_sync.Record.from_bytes package.omarchy_sync.Record.signature_for
    package.omarchy_sync.Record.set_signature package.omarchy_sync.Record.sign_record
    package.omarchy_sync.Record.verify_record_signature
    package.omarchy_sync.Record.record_fingerprint package.omarchy_sync.Record.ensure_same_binding
    package.omarchy_sync.Record.eq_record package.omarchy_sync.Store.validate_session_identity
    package.omarchy_sync.Store.local_role package.omarchy_sync.Store.validate_record
    package.omarchy_sync.Store.validate_stored package.omarchy_sync.Store.validate_pending_stored
    package.omarchy_sync.Store.Disk.find package.omarchy_sync.Store.Disk.remove
    package.omarchy_sync.Store.Disk.path_of package.omarchy_sync.Store.Disk.file_stem
    package.omarchy_sync.Store.Disk.read_node package.omarchy_sync.Store.Disk.read_record
    package.omarchy_sync.Store.Disk.write_atomic package.omarchy_sync.Store.Write.same_pair
    package.omarchy_sync.Store.Write.write_new package.omarchy_sync.Store.Write.write_over
    package.omarchy_sync.Store.Write.write_pending
    package.omarchy_sync.Store.Write.remove_stale_loop
    package.omarchy_sync.Store.Write.remove_stale_pending
    package.omarchy_sync.Store.Write.persist_over package.omarchy_sync.Store.Write.persist_active
    package.omarchy_sync.Store.Operations.sign_and_write
    package.omarchy_sync.Store.Operations.prepare package.omarchy_sync.Store.Operations.co_sign
    package.omarchy_sync.Store.Operations.resume_prepare
    package.omarchy_sync.Store.Operations.finalize package.omarchy_sync.Store.Operations.reconcile
    package.omarchy_sync.Store.Operations.revoke package.omarchy_sync.Tests.Json.print
    package.omarchy_sync.Tests.Json.parse package.omarchy_sync.Session.is_initiator
    package.omarchy_sync.Session.eq_certificate package.omarchy_sync.Session.from_validated_record
    package.omarchy_sync.Session.role_for package.omarchy_sync.Session.local_certificate
    package.omarchy_sync.Session.peer_device_id package.omarchy_sync.Session.identity_for_role
    package.omarchy_sync.Root.key_id_for_public_key package.omarchy_sync.Root.hex_value
    package.omarchy_sync.Root.decode_hex package.omarchy_sync.Root.trim
    package.omarchy_sync.Root.from_bytes package.omarchy_sync.Root.root_key_policy
    package.omarchy_sync.Root.root_key_metadata_is_secure
    package.omarchy_sync.Root.insecure_directory package.omarchy_sync.Root.chain_from
    package.omarchy_sync.Root.root_controlled_parent_chain
    package.omarchy_sync.Root.from_secure_path package.omarchy_sync.Discovery.signing_bytes
    package.omarchy_sync.Discovery.to_bytes package.omarchy_sync.Discovery.sign
    package.omarchy_sync.Discovery.Parse.parse_fields
    package.omarchy_sync.Discovery.Decode.from_bytes
    package.omarchy_sync.Discovery.Verifier.new_verifier
    package.omarchy_sync.Discovery.Verifier.with_window
    package.omarchy_sync.Discovery.Verifier.is_kept
    package.omarchy_sync.Discovery.Verifier.prune_replay
    package.omarchy_sync.Discovery.Verifier.admit package.omarchy_sync.Discovery.Verifier.check
    package.omarchy_sync.Discovery.Verifier.verify
    package.omarchy_sync.Discovery.Verifier.verify_all
    package.omarchy_sync.Frame.encode_frame_with_sequence package.omarchy_sync.Frame.encode_frame
    package.omarchy_sync.Frame.encode_start_frame package.omarchy_sync.Frame.Parse.parse_frame
    package.omarchy_sync.Frame.Decode.decode_frame_with_sequence
    package.omarchy_sync.Frame.Decode.decode_frame
    package.omarchy_sync.Frame.Decode.decode_start_frame
    package.omarchy_sync.Frame.Transport.encrypt package.omarchy_sync.Frame.Transport.decrypt
    package.omarchy_sync.Handshake.Transcript.make_transcript
    package.omarchy_sync.Handshake.Transcript.digest_transcript
    package.omarchy_sync.Handshake.Hello.auth_hello
    package.omarchy_sync.Handshake.Hello.signed_auth_payload
    package.omarchy_sync.Handshake.Hello.auth_proof
    package.omarchy_sync.Handshake.Parse.optional_signature
    package.omarchy_sync.Handshake.Parse.parse_fields package.omarchy_sync.Handshake.Peer.parse_auth
    package.omarchy_sync.Handshake.Peer.parse_auth_hello
    package.omarchy_sync.Handshake.Peer.parse_auth_proof
    package.omarchy_sync.Handshake.Peer.verify_signature
    package.omarchy_sync.Handshake.Peer.verify_signature_payload
    package.omarchy_sync.Handshake.Peer.parse_paired_auth
    package.omarchy_sync.Handshake.Checks.validate_local
    package.omarchy_sync.Handshake.Checks.validate_expected_peer
    package.omarchy_sync.Handshake.Checks.build_handshake
    package.omarchy_sync.Handshake.Checks.finish_handshake
    package.omarchy_sync.Handshake.Checks.encrypt_auth
    package.omarchy_sync.Handshake.Checks.decrypt_auth
    package.omarchy_sync.Handshake.Initiator.build_transcript
    package.omarchy_sync.Handshake.Initiator.start
    package.omarchy_sync.Handshake.Initiator.receive_responder_handshake
    package.omarchy_sync.Handshake.Initiator.receive_responder_auth
    package.omarchy_sync.Handshake.Initiator.receive_responder_ack
    package.omarchy_sync.Handshake.Responder.build_transcript
    package.omarchy_sync.Handshake.Responder.receive_initiator_start
    package.omarchy_sync.Handshake.Responder.answer_hello
    package.omarchy_sync.Handshake.Responder.receive_initiator_finish
    package.omarchy_sync.Handshake.Responder.receive_initiator_auth
    package.omarchy_sync.Handshake.Open.random_pair_id
    package.omarchy_sync.Handshake.Open.start_is_reconnect
    package.omarchy_sync.Handshake.Open.new_initiator
    package.omarchy_sync.Handshake.Open.reconnect_initiator
    package.omarchy_sync.Handshake.Open.new_responder
    package.omarchy_sync.Handshake.Open.reconnect_responder
    package.omarchy_sync.Handshake.Initiator.Safe.apply
    package.omarchy_sync.Handshake.Initiator.Safe.apply_all
    package.omarchy_sync.Handshake.Responder.Safe.apply
    package.omarchy_sync.Handshake.Responder.Safe.apply_all
    package.omarchy_sync.Handshake.Initiator.Once.succeeds
    package.omarchy_sync.Identity.KeyFile.load_or_create
    package.omarchy_sync.Identity.Capability.validate_capability
    package.omarchy_sync.Identity.Capability.path_for
    package.omarchy_sync.Identity.Capability.write_atomic
    package.omarchy_sync.Identity.Capability.open_store
    package.omarchy_sync.Identity.Capability.load package.omarchy_sync.Identity.Capability.granted
    package.omarchy_sync.Identity.Capability.grant_capability
    package.omarchy_sync.Identity.Capability.Sets.lt_bytes
    package.omarchy_sync.Identity.Capability.Sets.insert
    package.omarchy_sync.Identity.Capability.Sets.contains
    package.omarchy_sync.Identity.Capability.Sets.is_sorted package.omarchy_sync.Store.Lookup.load
    package.omarchy_sync.Store.Lookup.load_pending package.omarchy_sync.Store.Lookup.pending_loop
    package.omarchy_sync.Store.Lookup.pending_for_peer
    package.omarchy_sync.Store.Lookup.context_from_record_parts
    package.omarchy_sync.Store.Lookup.context_from_record
    package.omarchy_sync.Store.Lookup.recovery_loop
    package.omarchy_sync.Store.Lookup.recovery_context
    package.omarchy_sync.Store.Lookup.reconnect_context
    package.omarchy_sync.Store.Lookup.active_loop package.omarchy_sync.Store.Lookup.active_entry
    package.omarchy_sync.Store.Lookup.has_active_pairing
allowed_test = refl

created_test :
    (load_or_create (some (zeros 32)) (record { mode = 493; key = none })).1
    ≡ ok (record { signing_key = zeros 32 })
unfolding package.omarchy_sync.Base.eq_bytes package.omarchy_sync.Base.is_ascii_hexdigit
    package.omarchy_sync.Base.is_ascii_uppercase package.omarchy_sync.Base.is_ascii_alphanumeric
    package.omarchy_sync.Base.is_utf8 package.omarchy_sync.Base.from_le
    package.omarchy_sync.Base.to_le package.omarchy_sync.Base.from_be
    package.omarchy_sync.Base.to_be package.omarchy_sync.Cursor.pure
    package.omarchy_sync.Cursor.lift package.omarchy_sync.Cursor.take package.omarchy_sync.Cursor.u8
    package.omarchy_sync.Cursor.u16 package.omarchy_sync.Cursor.u64
    package.omarchy_sync.Cursor.bytes package.omarchy_sync.Cursor.string
    package.omarchy_sync.Cursor.remaining package.omarchy_sync.Cursor.finish
    package.omarchy_sync.Cursor.run package.omarchy_sync.Cursor.put_bytes
    package.omarchy_sync.Identity.hex_digit package.omarchy_sync.Identity.hex_byte
    package.omarchy_sync.Identity.hex package.omarchy_sync.Identity.device_id_for_public_key
    package.omarchy_sync.Identity.public_key package.omarchy_sync.Identity.device_id
    package.omarchy_sync.Identity.sign package.omarchy_sync.Certificate.bad_hex_id
    package.omarchy_sync.Certificate.is_key_id_byte
    package.omarchy_sync.Certificate.bad_issuer_key_id
    package.omarchy_sync.Certificate.validate_shape package.omarchy_sync.Certificate.signing_bytes
    package.omarchy_sync.Certificate.to_bytes package.omarchy_sync.Certificate.Parse.parse_fields
    package.omarchy_sync.Certificate.Decode.from_bytes
    package.omarchy_sync.Certificate.Verify.verify
    package.omarchy_sync.Certificate.Verify.validate_fields
    package.omarchy_sync.Certificate.Verify.unsigned
    package.omarchy_sync.Certificate.Verify.with_signature
    package.omarchy_sync.Certificate.Verify.issue package.omarchy_sync.Record.is_complete
    package.omarchy_sync.Record.is_pending package.omarchy_sync.Record.validate_device_id
    package.omarchy_sync.Record.checked_pair_id package.omarchy_sync.Record.bad_presence
    package.omarchy_sync.Record.validate_shape package.omarchy_sync.Record.bounded_bytes
    package.omarchy_sync.Record.signing_bytes package.omarchy_sync.Record.to_bytes
    package.omarchy_sync.Record.from_bytes package.omarchy_sync.Record.signature_for
    package.omarchy_sync.Record.set_signature package.omarchy_sync.Record.sign_record
    package.omarchy_sync.Record.verify_record_signature
    package.omarchy_sync.Record.record_fingerprint package.omarchy_sync.Record.ensure_same_binding
    package.omarchy_sync.Record.eq_record package.omarchy_sync.Store.validate_session_identity
    package.omarchy_sync.Store.local_role package.omarchy_sync.Store.validate_record
    package.omarchy_sync.Store.validate_stored package.omarchy_sync.Store.validate_pending_stored
    package.omarchy_sync.Store.Disk.find package.omarchy_sync.Store.Disk.remove
    package.omarchy_sync.Store.Disk.path_of package.omarchy_sync.Store.Disk.file_stem
    package.omarchy_sync.Store.Disk.read_node package.omarchy_sync.Store.Disk.read_record
    package.omarchy_sync.Store.Disk.write_atomic package.omarchy_sync.Store.Write.same_pair
    package.omarchy_sync.Store.Write.write_new package.omarchy_sync.Store.Write.write_over
    package.omarchy_sync.Store.Write.write_pending
    package.omarchy_sync.Store.Write.remove_stale_loop
    package.omarchy_sync.Store.Write.remove_stale_pending
    package.omarchy_sync.Store.Write.persist_over package.omarchy_sync.Store.Write.persist_active
    package.omarchy_sync.Store.Operations.sign_and_write
    package.omarchy_sync.Store.Operations.prepare package.omarchy_sync.Store.Operations.co_sign
    package.omarchy_sync.Store.Operations.resume_prepare
    package.omarchy_sync.Store.Operations.finalize package.omarchy_sync.Store.Operations.reconcile
    package.omarchy_sync.Store.Operations.revoke package.omarchy_sync.Tests.Json.print
    package.omarchy_sync.Tests.Json.parse package.omarchy_sync.Session.is_initiator
    package.omarchy_sync.Session.eq_certificate package.omarchy_sync.Session.from_validated_record
    package.omarchy_sync.Session.role_for package.omarchy_sync.Session.local_certificate
    package.omarchy_sync.Session.peer_device_id package.omarchy_sync.Session.identity_for_role
    package.omarchy_sync.Root.key_id_for_public_key package.omarchy_sync.Root.hex_value
    package.omarchy_sync.Root.decode_hex package.omarchy_sync.Root.trim
    package.omarchy_sync.Root.from_bytes package.omarchy_sync.Root.root_key_policy
    package.omarchy_sync.Root.root_key_metadata_is_secure
    package.omarchy_sync.Root.insecure_directory package.omarchy_sync.Root.chain_from
    package.omarchy_sync.Root.root_controlled_parent_chain
    package.omarchy_sync.Root.from_secure_path package.omarchy_sync.Discovery.signing_bytes
    package.omarchy_sync.Discovery.to_bytes package.omarchy_sync.Discovery.sign
    package.omarchy_sync.Discovery.Parse.parse_fields
    package.omarchy_sync.Discovery.Decode.from_bytes
    package.omarchy_sync.Discovery.Verifier.new_verifier
    package.omarchy_sync.Discovery.Verifier.with_window
    package.omarchy_sync.Discovery.Verifier.is_kept
    package.omarchy_sync.Discovery.Verifier.prune_replay
    package.omarchy_sync.Discovery.Verifier.admit package.omarchy_sync.Discovery.Verifier.check
    package.omarchy_sync.Discovery.Verifier.verify
    package.omarchy_sync.Discovery.Verifier.verify_all
    package.omarchy_sync.Frame.encode_frame_with_sequence package.omarchy_sync.Frame.encode_frame
    package.omarchy_sync.Frame.encode_start_frame package.omarchy_sync.Frame.Parse.parse_frame
    package.omarchy_sync.Frame.Decode.decode_frame_with_sequence
    package.omarchy_sync.Frame.Decode.decode_frame
    package.omarchy_sync.Frame.Decode.decode_start_frame
    package.omarchy_sync.Frame.Transport.encrypt package.omarchy_sync.Frame.Transport.decrypt
    package.omarchy_sync.Handshake.Transcript.make_transcript
    package.omarchy_sync.Handshake.Transcript.digest_transcript
    package.omarchy_sync.Handshake.Hello.auth_hello
    package.omarchy_sync.Handshake.Hello.signed_auth_payload
    package.omarchy_sync.Handshake.Hello.auth_proof
    package.omarchy_sync.Handshake.Parse.optional_signature
    package.omarchy_sync.Handshake.Parse.parse_fields package.omarchy_sync.Handshake.Peer.parse_auth
    package.omarchy_sync.Handshake.Peer.parse_auth_hello
    package.omarchy_sync.Handshake.Peer.parse_auth_proof
    package.omarchy_sync.Handshake.Peer.verify_signature
    package.omarchy_sync.Handshake.Peer.verify_signature_payload
    package.omarchy_sync.Handshake.Peer.parse_paired_auth
    package.omarchy_sync.Handshake.Checks.validate_local
    package.omarchy_sync.Handshake.Checks.validate_expected_peer
    package.omarchy_sync.Handshake.Checks.build_handshake
    package.omarchy_sync.Handshake.Checks.finish_handshake
    package.omarchy_sync.Handshake.Checks.encrypt_auth
    package.omarchy_sync.Handshake.Checks.decrypt_auth
    package.omarchy_sync.Handshake.Initiator.build_transcript
    package.omarchy_sync.Handshake.Initiator.start
    package.omarchy_sync.Handshake.Initiator.receive_responder_handshake
    package.omarchy_sync.Handshake.Initiator.receive_responder_auth
    package.omarchy_sync.Handshake.Initiator.receive_responder_ack
    package.omarchy_sync.Handshake.Responder.build_transcript
    package.omarchy_sync.Handshake.Responder.receive_initiator_start
    package.omarchy_sync.Handshake.Responder.answer_hello
    package.omarchy_sync.Handshake.Responder.receive_initiator_finish
    package.omarchy_sync.Handshake.Responder.receive_initiator_auth
    package.omarchy_sync.Handshake.Open.random_pair_id
    package.omarchy_sync.Handshake.Open.start_is_reconnect
    package.omarchy_sync.Handshake.Open.new_initiator
    package.omarchy_sync.Handshake.Open.reconnect_initiator
    package.omarchy_sync.Handshake.Open.new_responder
    package.omarchy_sync.Handshake.Open.reconnect_responder
    package.omarchy_sync.Handshake.Initiator.Safe.apply
    package.omarchy_sync.Handshake.Initiator.Safe.apply_all
    package.omarchy_sync.Handshake.Responder.Safe.apply
    package.omarchy_sync.Handshake.Responder.Safe.apply_all
    package.omarchy_sync.Handshake.Initiator.Once.succeeds
    package.omarchy_sync.Identity.KeyFile.load_or_create
    package.omarchy_sync.Identity.Capability.validate_capability
    package.omarchy_sync.Identity.Capability.path_for
    package.omarchy_sync.Identity.Capability.write_atomic
    package.omarchy_sync.Identity.Capability.open_store
    package.omarchy_sync.Identity.Capability.load package.omarchy_sync.Identity.Capability.granted
    package.omarchy_sync.Identity.Capability.grant_capability
    package.omarchy_sync.Identity.Capability.Sets.lt_bytes
    package.omarchy_sync.Identity.Capability.Sets.insert
    package.omarchy_sync.Identity.Capability.Sets.contains
    package.omarchy_sync.Identity.Capability.Sets.is_sorted package.omarchy_sync.Store.Lookup.load
    package.omarchy_sync.Store.Lookup.load_pending package.omarchy_sync.Store.Lookup.pending_loop
    package.omarchy_sync.Store.Lookup.pending_for_peer
    package.omarchy_sync.Store.Lookup.context_from_record_parts
    package.omarchy_sync.Store.Lookup.context_from_record
    package.omarchy_sync.Store.Lookup.recovery_loop
    package.omarchy_sync.Store.Lookup.recovery_context
    package.omarchy_sync.Store.Lookup.reconnect_context
    package.omarchy_sync.Store.Lookup.active_loop package.omarchy_sync.Store.Lookup.active_entry
    package.omarchy_sync.Store.Lookup.has_active_pairing
created_test = refl

load_or_create-load_or_create_example :
    (load_or_create none (load_or_create (some (zeros 32)) (record { mode = 493; key = none })).0
      ≡ (
        (load_or_create (some (zeros 32)) (record { mode = 493; key = none })).0,
        ok (record { signing_key = zeros 32 }),
      ))
    × ((load_or_create (some (zeros 32)) (record { mode = 493; key = none })).0.mode
        ≡ identity_dir_mode)
    × ((load_or_create (some (zeros 32)) (record { mode = 493; key = none })).0.key
        ≡ some (file private_key_mode (zeros 32)))
load_or_create-load_or_create_example =
    load_or_create-load_or_create (some (zeros 32)) none (record { mode = 493; key = none })
      (record { signing_key = zeros 32 })
      (λ bs e. ap (λ (x : Bytes). length x) (sym (some-injective _ _ e))) created_test

grant_capability-load_other_example :
    load lists (id_of 3) (grant_capability lists trusting (id_of 1) (id_of 2) theme stored).0
    ≡ load lists (id_of 3) stored
grant_capability-load_other_example =
    grant_capability-load_other lists trusting (id_of 1) (id_of 2) theme stored (id_of 3)
      (λ e. absurd (omega (arith, ap (λ (x : Bytes). second x) e)))
  where
    second : Bytes → ℕ
    second (a ∷ b ∷ bs) = b
    second _ = 0

grant_capability-eq-ok_example :
    (trusting (id_of 1) (id_of 2) ≡ ok true)
    × (validate_capability theme ≡ ok tt)
    × (load lists (id_of 2) (grant_capability lists trusting (id_of 1) (id_of 2) theme stored).0
        ≡ ok (some (codes "a" ∷ (theme ∷ []))))
    × ((old : Option (List Bytes)) × (load lists (id_of 2) stored ≡ ok old)
        × (contains theme (codes "a" ∷ (theme ∷ []))
            ≡ (eq_bytes theme theme || contains theme (or_default old)))
        × ((is_sorted (or_default old) ≡ false) ⊎ (is_sorted (codes "a" ∷ (theme ∷ [])) ≡ true)))
grant_capability-eq-ok_example =
    grant_capability-eq-ok lists trusting (id_of 1) (id_of 2) theme stored
      (codes "a" ∷ (theme ∷ [])) theme lists-laws allowed_test
