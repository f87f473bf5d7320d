-- ===== src/Tests/Meeting.antt =====
-- Two devices that meet: the pairing handshake from the first frame to both sessions.
use omarchy_sync.Handshake.Initiator.Safe as InitiatorSafe
use omarchy_sync.Handshake.Responder.Safe as ResponderSafe
use omarchy_sync.Tests.Toy.{digest, toy, toy-CryptoLaws}
use omarchy_sync.Tests.Channel.{padding}
use omarchy_sync.Tests.Devices.{certificate, device, id_of, root}
use omarchy_sync.Handshake.{NoiseXx, PeerAuth, current}
use omarchy_sync.Handshake.Initiator.{
  PairingInitiator, build_transcript, fresh, receive_responder_ack, receive_responder_auth,
  receive_responder_handshake, start,
}
use omarchy_sync.Handshake.Responder.{
  PairingResponder, answer_hello, receive_initiator_auth, receive_initiator_finish,
  receive_initiator_start, waiting,
}
use omarchy_sync.Handshake.Initiator.Safe.{
  Call, apply, apply_all, hears_auth, hears_handshake, starts,
}
use omarchy_sync.Session.{
  AuthenticatedPairingSession, eq_certificate, identity_for_role, is_initiator, local_certificate,
  peer_device_id, role_responder,
}
use omarchy_sync.Certificate.Verify.{validate_fields, verify}
use omarchy_sync.Base.{
  Bytes, List, Result, [], eq_bytes, err, false, from_be, from_le, is_ascii_alphanumeric,
  is_ascii_hexdigit, is_ascii_uppercase, is_utf8, none, ok, refl, some, take, to_be, to_le, zeros,
  ℕ, ◌+◌, ◌-◌, ◌==◌, ◌∷◌, ◌≡◌,
}
use omarchy_sync.Identity.{
  device_id, device_id_for_public_key, hex, hex_byte, hex_digit, public_key, sign,
}
use omarchy_sync.Certificate.{
  bad_hex_id, bad_issuer_key_id, is_key_id_byte, signing_bytes, to_bytes, validate_shape,
}
use omarchy_sync.Record.{
  bad_presence, bounded_bytes, checked_pair_id, from_bytes, validate_device_id,
}
use omarchy_sync.Frame.{
  encode_frame, encode_frame_with_sequence, encode_start_frame, mode_first_contact,
}
use omarchy_sync.Cursor.{
  Cursor, bytes, finish, lift, pure, put_bytes, remaining, run, string, u16, u64, u8,
}
use omarchy_sync.Root.{decode_hex, hex_value, key_id_for_public_key, trim}
use omarchy_sync.Store.{local_role}
use omarchy_sync.Tests.Codecs.{certificate-IsTyped}
use omarchy_sync.Frame.Decode.{decode_frame, decode_frame_with_sequence, decode_start_frame}
use omarchy_sync.Frame.Parse.{Frame, parse_frame}
use omarchy_sync.Certificate.Parse.{parse_fields}
use omarchy_sync.Discovery.Verifier.{admit, check, is_kept, prune_replay}
use omarchy_sync.Handshake.Hello.{auth_hello, auth_proof, signed_auth_payload}
use omarchy_sync.Handshake.Peer.{
  parse_auth, parse_auth_hello, parse_auth_proof, parse_paired_auth, verify_signature,
  verify_signature_payload,
}
use omarchy_sync.Handshake.Transcript.{digest_transcript, make_transcript}
use omarchy_sync.Handshake.Checks.{
  build_handshake, decrypt_auth, encrypt_auth, finish_handshake, validate_local,
}
use omarchy_sync.Handshake.Parse.{optional_signature}
use omarchy_sync.Handshake.Transcript.Injective.{
  IsSized, Parts, make_transcript-injective, transcript,
}
use omarchy_sync.Handshake.Initiator.Once.{succeeds, succeeds-acknowledged}
use omarchy_sync.Handshake.Peer.Honest.{auth_hello-accepted, auth_proof-accepted}
use omarchy_sync.Handshake.Responder.Safe.{hears_finish, hears_start}

-- A Noise state that counts the messages of the handshake.
abbrev pub counting : NoiseXx
counting = record {
  transport = padding;
  State = ℕ;
  build = λ initiator prologue seed. some (0, digest 32 seed);
  write_message = λ h p. some (h + 1, 7 ∷ []);
  read_message = λ h m. some (h + 1, []);
  is_handshake_finished = λ h. h == 3;
  get_remote_static = λ h. some (zeros 32);
  get_handshake_hash = λ h. digest 32 (h ∷ []);
  into_transport_mode = λ h. some 0;
}

abbrev pub alice : PairingInitiator toy counting
alice =
    fresh toy counting (device 1) (id_of 7) (certificate 1) (id_of 2) (current root 150)
      (0, zeros 32)

abbrev pub bob : PairingResponder toy counting
bob = waiting toy counting (device 2) none (certificate 2) (id_of 1) (current root 150)

abbrev pub got : {A : Type 0} → A → Result A → A
got a (ok b) = b
got a (err e) = a

-- What each side sends, in order.
abbrev pub alice1 : PairingInitiator toy counting × Result Bytes
alice1 = start toy counting alice

abbrev pub bob1 : PairingResponder toy counting × Result Bytes
bob1 = receive_initiator_start toy counting (5 ∷ []) (got [] alice1.1) bob

abbrev pub alice2 : PairingInitiator toy counting × Result (Bytes × Bytes)
alice2 = receive_responder_handshake toy counting (got [] bob1.1) alice1.0

abbrev pub bob2 : PairingResponder toy counting × Result Bytes
bob2 =
    receive_initiator_finish toy counting (got ([], []) alice2.1).0 (got ([], []) alice2.1).1 bob1.0

abbrev pub alice3 : PairingInitiator toy counting × Result Bytes
alice3 = receive_responder_auth toy counting (got [] bob2.1) alice2.0

abbrev pub bob3 : PairingResponder toy counting × Result (Bytes × AuthenticatedPairingSession × ℕ)
bob3 = receive_initiator_auth toy counting (got [] alice3.1) bob2.0

abbrev pub ack : Result (Bytes × AuthenticatedPairingSession × ℕ) → Bytes
ack (ok x) = x.0
ack (err e) = []

abbrev pub alice4 : PairingInitiator toy counting × Result (AuthenticatedPairingSession × ℕ)
alice4 = receive_responder_ack toy counting (ack bob3.1) alice3.0

abbrev pub alice_calls : List InitiatorSafe.Call
alice_calls = starts ∷ hears_handshake (got [] bob1.1) ∷ hears_auth (got [] bob2.1) ∷ []

abbrev pub bob_calls : List ResponderSafe.Call
bob_calls =
    hears_start (5 ∷ []) (got [] alice1.1)
    ∷ hears_finish (got ([], []) alice2.1).0 (got ([], []) alice2.1).1
    ∷ []

-- What both sign, and the session of each.
abbrev pub parts : Parts
parts = record {
  hash = digest 32 (3 ∷ []);
  mode = mode_first_contact;
  pair_id = id_of 7;
  initiator = certificate 1;
  responder = certificate 2;
  initiator_static = zeros 32;
  responder_static = zeros 32;
}

abbrev pub agreed : Bytes
agreed = got [] (transcript parts)

abbrev pub session_between : ℕ → AuthenticatedPairingSession
session_between role = record {
  pair_id = id_of 7;
  local_device_id = id_of role;
  peer_device_id = id_of (3 - role);
  local_certificate = certificate role;
  peer_certificate = certificate (3 - role);
  session_binding = digest 32 agreed;
  peer_public_key = digest 32 ((3 - role) ∷ []);
  local_role = role;
}

alice4_test :
    (receive_responder_ack toy counting
      (ack bob3.1)
      (InitiatorSafe.apply_all toy counting alice_calls alice)).1
    ≡ ok (session_between 1, 4)
unfolding package.omarchy_sync.Base.eq_bytes package.omarchy_sync.Base.is_ascii_hexdigit
    package.omarchy_sync.Base.is_ascii_uppercase package.omarchy_sync.Base.is_ascii_alphanumeric
    package.omarchy_sync.Base.is_utf8 package.omarchy_sync.Base.from_le
    package.omarchy_sync.Base.to_le package.omarchy_sync.Base.from_be
    package.omarchy_sync.Base.to_be package.omarchy_sync.Cursor.pure
    package.omarchy_sync.Cursor.lift package.omarchy_sync.Cursor.take package.omarchy_sync.Cursor.u8
    package.omarchy_sync.Cursor.u16 package.omarchy_sync.Cursor.u64
    package.omarchy_sync.Cursor.bytes package.omarchy_sync.Cursor.string
    package.omarchy_sync.Cursor.remaining package.omarchy_sync.Cursor.finish
    package.omarchy_sync.Cursor.run package.omarchy_sync.Cursor.put_bytes
    package.omarchy_sync.Identity.hex_digit package.omarchy_sync.Identity.hex_byte
    package.omarchy_sync.Identity.hex package.omarchy_sync.Identity.device_id_for_public_key
    package.omarchy_sync.Identity.public_key package.omarchy_sync.Identity.device_id
    package.omarchy_sync.Identity.sign package.omarchy_sync.Certificate.bad_hex_id
    package.omarchy_sync.Certificate.is_key_id_byte
    package.omarchy_sync.Certificate.bad_issuer_key_id
    package.omarchy_sync.Certificate.validate_shape package.omarchy_sync.Certificate.signing_bytes
    package.omarchy_sync.Certificate.to_bytes package.omarchy_sync.Certificate.Parse.parse_fields
    package.omarchy_sync.Certificate.Decode.from_bytes
    package.omarchy_sync.Certificate.Verify.verify
    package.omarchy_sync.Certificate.Verify.validate_fields
    package.omarchy_sync.Certificate.Verify.unsigned package.omarchy_sync.Record.validate_device_id
    package.omarchy_sync.Record.checked_pair_id package.omarchy_sync.Record.bad_presence
    package.omarchy_sync.Record.validate_shape package.omarchy_sync.Record.bounded_bytes
    package.omarchy_sync.Record.signing_bytes package.omarchy_sync.Record.to_bytes
    package.omarchy_sync.Record.from_bytes package.omarchy_sync.Store.local_role
    package.omarchy_sync.Session.is_initiator package.omarchy_sync.Session.eq_certificate
    package.omarchy_sync.Session.local_certificate package.omarchy_sync.Session.peer_device_id
    package.omarchy_sync.Session.identity_for_role package.omarchy_sync.Root.key_id_for_public_key
    package.omarchy_sync.Root.hex_value package.omarchy_sync.Root.decode_hex
    package.omarchy_sync.Root.trim package.omarchy_sync.Root.from_bytes
    package.omarchy_sync.Discovery.signing_bytes package.omarchy_sync.Discovery.to_bytes
    package.omarchy_sync.Discovery.sign package.omarchy_sync.Discovery.Parse.parse_fields
    package.omarchy_sync.Discovery.Decode.from_bytes package.omarchy_sync.Discovery.Verifier.is_kept
    package.omarchy_sync.Discovery.Verifier.prune_replay
    package.omarchy_sync.Discovery.Verifier.admit package.omarchy_sync.Discovery.Verifier.check
    package.omarchy_sync.Discovery.Verifier.verify
    package.omarchy_sync.Frame.encode_frame_with_sequence package.omarchy_sync.Frame.encode_frame
    package.omarchy_sync.Frame.encode_start_frame package.omarchy_sync.Frame.Parse.parse_frame
    package.omarchy_sync.Frame.Decode.decode_frame_with_sequence
    package.omarchy_sync.Frame.Decode.decode_frame
    package.omarchy_sync.Frame.Decode.decode_start_frame
    package.omarchy_sync.Handshake.Transcript.make_transcript
    package.omarchy_sync.Handshake.Transcript.digest_transcript
    package.omarchy_sync.Handshake.Hello.auth_hello
    package.omarchy_sync.Handshake.Hello.signed_auth_payload
    package.omarchy_sync.Handshake.Hello.auth_proof
    package.omarchy_sync.Handshake.Parse.optional_signature
    package.omarchy_sync.Handshake.Parse.parse_fields package.omarchy_sync.Handshake.Peer.parse_auth
    package.omarchy_sync.Handshake.Peer.parse_auth_hello
    package.omarchy_sync.Handshake.Peer.parse_auth_proof
    package.omarchy_sync.Handshake.Peer.verify_signature
    package.omarchy_sync.Handshake.Peer.verify_signature_payload
    package.omarchy_sync.Handshake.Peer.parse_paired_auth
    package.omarchy_sync.Handshake.Checks.build_handshake
    package.omarchy_sync.Handshake.Checks.finish_handshake
    package.omarchy_sync.Handshake.Checks.encrypt_auth
    package.omarchy_sync.Handshake.Checks.decrypt_auth
    package.omarchy_sync.Handshake.Initiator.build_transcript
    package.omarchy_sync.Handshake.Initiator.start
    package.omarchy_sync.Handshake.Initiator.receive_responder_handshake
    package.omarchy_sync.Handshake.Initiator.receive_responder_auth
    package.omarchy_sync.Handshake.Initiator.receive_responder_ack
    package.omarchy_sync.Handshake.Responder.build_transcript
    package.omarchy_sync.Handshake.Responder.receive_initiator_start
    package.omarchy_sync.Handshake.Responder.answer_hello
    package.omarchy_sync.Handshake.Responder.receive_initiator_finish
    package.omarchy_sync.Handshake.Responder.receive_initiator_auth
    package.omarchy_sync.Handshake.Initiator.Safe.apply
    package.omarchy_sync.Handshake.Initiator.Safe.apply_all
    package.omarchy_sync.Handshake.Responder.Safe.apply
    package.omarchy_sync.Handshake.Responder.Safe.apply_all
alice4_test = refl

pub agreed_test : transcript parts ≡ ok agreed
unfolding package.omarchy_sync.Base.is_ascii_hexdigit package.omarchy_sync.Base.is_ascii_uppercase
    package.omarchy_sync.Base.is_ascii_alphanumeric package.omarchy_sync.Base.from_le
    package.omarchy_sync.Base.to_le package.omarchy_sync.Base.from_be
    package.omarchy_sync.Base.to_be package.omarchy_sync.Cursor.pure
    package.omarchy_sync.Cursor.lift package.omarchy_sync.Cursor.take
    package.omarchy_sync.Cursor.u16 package.omarchy_sync.Cursor.bytes
    package.omarchy_sync.Cursor.put_bytes package.omarchy_sync.Identity.hex_digit
    package.omarchy_sync.Identity.hex_byte package.omarchy_sync.Identity.hex
    package.omarchy_sync.Identity.device_id_for_public_key package.omarchy_sync.Identity.public_key
    package.omarchy_sync.Identity.device_id package.omarchy_sync.Certificate.bad_hex_id
    package.omarchy_sync.Certificate.is_key_id_byte
    package.omarchy_sync.Certificate.bad_issuer_key_id
    package.omarchy_sync.Certificate.validate_shape package.omarchy_sync.Certificate.signing_bytes
    package.omarchy_sync.Certificate.to_bytes package.omarchy_sync.Record.validate_device_id
    package.omarchy_sync.Record.checked_pair_id package.omarchy_sync.Record.bad_presence
    package.omarchy_sync.Record.validate_shape package.omarchy_sync.Record.bounded_bytes
    package.omarchy_sync.Record.signing_bytes package.omarchy_sync.Record.to_bytes
    package.omarchy_sync.Discovery.signing_bytes package.omarchy_sync.Discovery.to_bytes
    package.omarchy_sync.Handshake.Transcript.make_transcript
agreed_test = refl

abbrev hello_of_bob : Bytes
hello_of_bob = got [] (auth_hello (certificate 2))

abbrev proof_of_bob : Bytes
proof_of_bob = got [] (auth_proof toy (certificate 2) (device 2) agreed role_responder)

validate_local_test : validate_local toy (device 2) (certificate 2) root 150 ≡ ok tt
unfolding package.omarchy_sync.Base.eq_bytes package.omarchy_sync.Base.is_ascii_hexdigit
    package.omarchy_sync.Base.is_ascii_uppercase package.omarchy_sync.Base.is_ascii_alphanumeric
    package.omarchy_sync.Base.is_utf8 package.omarchy_sync.Base.from_le
    package.omarchy_sync.Base.to_le package.omarchy_sync.Base.from_be
    package.omarchy_sync.Base.to_be package.omarchy_sync.Cursor.pure
    package.omarchy_sync.Cursor.lift package.omarchy_sync.Cursor.take package.omarchy_sync.Cursor.u8
    package.omarchy_sync.Cursor.u16 package.omarchy_sync.Cursor.u64
    package.omarchy_sync.Cursor.bytes package.omarchy_sync.Cursor.string
    package.omarchy_sync.Cursor.remaining package.omarchy_sync.Cursor.finish
    package.omarchy_sync.Cursor.run package.omarchy_sync.Cursor.put_bytes
    package.omarchy_sync.Identity.hex_digit package.omarchy_sync.Identity.hex_byte
    package.omarchy_sync.Identity.hex package.omarchy_sync.Identity.device_id_for_public_key
    package.omarchy_sync.Identity.public_key package.omarchy_sync.Identity.device_id
    package.omarchy_sync.Certificate.bad_hex_id package.omarchy_sync.Certificate.is_key_id_byte
    package.omarchy_sync.Certificate.bad_issuer_key_id
    package.omarchy_sync.Certificate.validate_shape package.omarchy_sync.Certificate.signing_bytes
    package.omarchy_sync.Certificate.to_bytes package.omarchy_sync.Certificate.Parse.parse_fields
    package.omarchy_sync.Certificate.Decode.from_bytes
    package.omarchy_sync.Certificate.Verify.verify package.omarchy_sync.Record.validate_device_id
    package.omarchy_sync.Record.checked_pair_id package.omarchy_sync.Record.bad_presence
    package.omarchy_sync.Record.validate_shape package.omarchy_sync.Record.bounded_bytes
    package.omarchy_sync.Record.signing_bytes package.omarchy_sync.Record.to_bytes
    package.omarchy_sync.Record.from_bytes package.omarchy_sync.Root.key_id_for_public_key
    package.omarchy_sync.Root.hex_value package.omarchy_sync.Root.decode_hex
    package.omarchy_sync.Root.trim package.omarchy_sync.Root.from_bytes
    package.omarchy_sync.Discovery.signing_bytes package.omarchy_sync.Discovery.to_bytes
    package.omarchy_sync.Discovery.Parse.parse_fields
    package.omarchy_sync.Discovery.Decode.from_bytes package.omarchy_sync.Discovery.Verifier.is_kept
    package.omarchy_sync.Discovery.Verifier.prune_replay
    package.omarchy_sync.Discovery.Verifier.admit package.omarchy_sync.Discovery.Verifier.check
    package.omarchy_sync.Discovery.Verifier.verify
    package.omarchy_sync.Frame.encode_frame_with_sequence package.omarchy_sync.Frame.encode_frame
    package.omarchy_sync.Frame.encode_start_frame
    package.omarchy_sync.Handshake.Parse.optional_signature
    package.omarchy_sync.Handshake.Parse.parse_fields
    package.omarchy_sync.Handshake.Checks.validate_local
    package.omarchy_sync.Handshake.Initiator.start
validate_local_test = refl

auth_hello_test : auth_hello (certificate 2) ≡ ok hello_of_bob
unfolding package.omarchy_sync.Base.eq_bytes package.omarchy_sync.Base.is_ascii_hexdigit
    package.omarchy_sync.Base.is_ascii_uppercase package.omarchy_sync.Base.is_ascii_alphanumeric
    package.omarchy_sync.Base.is_utf8 package.omarchy_sync.Base.from_le
    package.omarchy_sync.Base.to_le package.omarchy_sync.Base.from_be
    package.omarchy_sync.Base.to_be package.omarchy_sync.Cursor.pure
    package.omarchy_sync.Cursor.lift package.omarchy_sync.Cursor.take package.omarchy_sync.Cursor.u8
    package.omarchy_sync.Cursor.u16 package.omarchy_sync.Cursor.u64
    package.omarchy_sync.Cursor.bytes package.omarchy_sync.Cursor.string
    package.omarchy_sync.Cursor.remaining package.omarchy_sync.Cursor.finish
    package.omarchy_sync.Cursor.run package.omarchy_sync.Cursor.put_bytes
    package.omarchy_sync.Identity.hex_digit package.omarchy_sync.Identity.hex_byte
    package.omarchy_sync.Identity.hex package.omarchy_sync.Identity.device_id_for_public_key
    package.omarchy_sync.Identity.public_key package.omarchy_sync.Identity.device_id
    package.omarchy_sync.Certificate.bad_hex_id package.omarchy_sync.Certificate.is_key_id_byte
    package.omarchy_sync.Certificate.bad_issuer_key_id
    package.omarchy_sync.Certificate.validate_shape package.omarchy_sync.Certificate.signing_bytes
    package.omarchy_sync.Certificate.to_bytes package.omarchy_sync.Certificate.Parse.parse_fields
    package.omarchy_sync.Certificate.Decode.from_bytes
    package.omarchy_sync.Record.validate_device_id package.omarchy_sync.Record.checked_pair_id
    package.omarchy_sync.Record.bad_presence package.omarchy_sync.Record.validate_shape
    package.omarchy_sync.Record.bounded_bytes package.omarchy_sync.Record.signing_bytes
    package.omarchy_sync.Record.to_bytes package.omarchy_sync.Record.from_bytes
    package.omarchy_sync.Root.key_id_for_public_key package.omarchy_sync.Root.hex_value
    package.omarchy_sync.Root.decode_hex package.omarchy_sync.Root.trim
    package.omarchy_sync.Root.from_bytes package.omarchy_sync.Discovery.signing_bytes
    package.omarchy_sync.Discovery.to_bytes package.omarchy_sync.Discovery.Parse.parse_fields
    package.omarchy_sync.Discovery.Decode.from_bytes
    package.omarchy_sync.Frame.encode_frame_with_sequence package.omarchy_sync.Frame.encode_frame
    package.omarchy_sync.Frame.encode_start_frame package.omarchy_sync.Handshake.Hello.auth_hello
    package.omarchy_sync.Handshake.Parse.optional_signature
    package.omarchy_sync.Handshake.Parse.parse_fields package.omarchy_sync.Handshake.Initiator.start
auth_hello_test = refl

auth_proof_test : auth_proof toy (certificate 2) (device 2) agreed role_responder ≡ ok proof_of_bob
unfolding package.omarchy_sync.Base.eq_bytes package.omarchy_sync.Base.is_ascii_hexdigit
    package.omarchy_sync.Base.is_ascii_uppercase package.omarchy_sync.Base.is_ascii_alphanumeric
    package.omarchy_sync.Base.is_utf8 package.omarchy_sync.Base.from_le
    package.omarchy_sync.Base.to_le package.omarchy_sync.Base.from_be
    package.omarchy_sync.Base.to_be package.omarchy_sync.Cursor.pure
    package.omarchy_sync.Cursor.lift package.omarchy_sync.Cursor.take package.omarchy_sync.Cursor.u8
    package.omarchy_sync.Cursor.u16 package.omarchy_sync.Cursor.u64
    package.omarchy_sync.Cursor.bytes package.omarchy_sync.Cursor.string
    package.omarchy_sync.Cursor.remaining package.omarchy_sync.Cursor.finish
    package.omarchy_sync.Cursor.run package.omarchy_sync.Cursor.put_bytes
    package.omarchy_sync.Identity.hex_digit package.omarchy_sync.Identity.hex_byte
    package.omarchy_sync.Identity.hex package.omarchy_sync.Identity.device_id_for_public_key
    package.omarchy_sync.Identity.public_key package.omarchy_sync.Identity.device_id
    package.omarchy_sync.Identity.sign package.omarchy_sync.Certificate.bad_hex_id
    package.omarchy_sync.Certificate.is_key_id_byte
    package.omarchy_sync.Certificate.bad_issuer_key_id
    package.omarchy_sync.Certificate.validate_shape package.omarchy_sync.Certificate.signing_bytes
    package.omarchy_sync.Certificate.to_bytes package.omarchy_sync.Certificate.Parse.parse_fields
    package.omarchy_sync.Certificate.Decode.from_bytes
    package.omarchy_sync.Certificate.Verify.validate_fields
    package.omarchy_sync.Certificate.Verify.unsigned package.omarchy_sync.Record.validate_device_id
    package.omarchy_sync.Record.checked_pair_id package.omarchy_sync.Record.bad_presence
    package.omarchy_sync.Record.validate_shape package.omarchy_sync.Record.bounded_bytes
    package.omarchy_sync.Record.signing_bytes package.omarchy_sync.Record.to_bytes
    package.omarchy_sync.Record.from_bytes package.omarchy_sync.Root.key_id_for_public_key
    package.omarchy_sync.Root.hex_value package.omarchy_sync.Root.decode_hex
    package.omarchy_sync.Root.trim package.omarchy_sync.Root.from_bytes
    package.omarchy_sync.Discovery.signing_bytes package.omarchy_sync.Discovery.to_bytes
    package.omarchy_sync.Discovery.sign package.omarchy_sync.Discovery.Parse.parse_fields
    package.omarchy_sync.Discovery.Decode.from_bytes
    package.omarchy_sync.Frame.encode_frame_with_sequence package.omarchy_sync.Frame.encode_frame
    package.omarchy_sync.Frame.encode_start_frame
    package.omarchy_sync.Handshake.Transcript.make_transcript
    package.omarchy_sync.Handshake.Hello.auth_hello
    package.omarchy_sync.Handshake.Hello.signed_auth_payload
    package.omarchy_sync.Handshake.Hello.auth_proof
    package.omarchy_sync.Handshake.Parse.optional_signature
    package.omarchy_sync.Handshake.Parse.parse_fields package.omarchy_sync.Handshake.Initiator.start
auth_proof_test = refl

succeeds-acknowledged_example :
    succeeds toy counting (hears_auth (got [] bob2.1)) (
      InitiatorSafe.apply_all toy counting alice_calls
        (receive_responder_ack toy counting
          (ack bob3.1)
          (InitiatorSafe.apply_all toy counting alice_calls alice)).0)
    ≡ false
succeeds-acknowledged_example =
    succeeds-acknowledged toy counting alice alice_calls alice_calls (ack bob3.1)
      (hears_auth (got [] bob2.1)) (session_between 1, 4) refl alice4_test

parts-IsSized : IsSized parts
parts-IsSized = record {
  initiator_typed = certificate-IsTyped 1;
  responder_typed = certificate-IsTyped 2;
  initiator_size = refl;
  responder_size = refl;
}

make_transcript-injective_example : parts ≡ parts
make_transcript-injective_example =
    make_transcript-injective parts parts agreed parts-IsSized parts-IsSized agreed_test agreed_test

auth_proof-accepted_example :
    (p : PeerAuth) × (parse_auth_proof toy proof_of_bob root 150 ≡ ok p)
    × (p.certificate ≡ certificate 2)
    × (p.device_id ≡ (certificate 2).device_id)
    × (p.public_key ≡ (certificate 2).public_key)
    × (verify_signature toy p agreed role_responder ≡ ok tt)
auth_proof-accepted_example =
    auth_proof-accepted toy toy-CryptoLaws (device 2) (certificate 2) root 150 agreed proof_of_bob
      role_responder (certificate-IsTyped 2) validate_local_test auth_proof_test

auth_hello-accepted_example :
    (p : PeerAuth) × (parse_auth_hello toy hello_of_bob root 150 ≡ ok p)
    × (p.certificate ≡ certificate 2)
    × (p.device_id ≡ (certificate 2).device_id)
    × (p.public_key ≡ (certificate 2).public_key)
    × (p.signature ≡ none)
    × (verify_signature_payload toy p agreed role_responder
          (signed_auth_payload toy (device 2) agreed role_responder)
        ≡ ok tt)
auth_hello-accepted_example =
    auth_hello-accepted toy toy-CryptoLaws (device 2) (certificate 2) root 150 agreed hello_of_bob
      role_responder (certificate-IsTyped 2) validate_local_test auth_hello_test
