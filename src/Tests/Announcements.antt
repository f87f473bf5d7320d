-- ===== src/Tests/Announcements.antt =====
-- The theorems on discovery and on the runtime's caches and frames at concrete inputs.
use omarchy_sync.Discovery.Decode
use omarchy_sync.Discovery.Verifier as Verifier
use omarchy_sync.Discovery
use omarchy_sync.Identity
use omarchy_sync.Tests.Devices.{certificate, device, id_of, root}
use omarchy_sync.Tests.Toy.{digest, length-digest, toy, toy-CryptoLaws}
use omarchy_sync.Runtime.Coordinator.{Call, calls, calls-single, done, enter, leave, running, try}
use omarchy_sync.Runtime.Peers.{by_id, by_id-put, peer_cache_limit, put}
use omarchy_sync.Runtime.Route.{
  route_device_id, route_preface, verify-route_preface, verify_route_preface,
}
use omarchy_sync.Discovery.RoundTrip.{from_bytes-to_bytes_announcement, pieces}
use omarchy_sync.Discovery.Verifier.{
  VerifiedDiscovery, admit, check, is_kept, new_verifier, prune_replay, verify, verify_all,
}
use omarchy_sync.Base.{
  Bytes, List, [], arith, codes, eq_bytes, false, from_be, from_le, is_ascii_alphanumeric,
  is_ascii_hexdigit, is_ascii_uppercase, is_utf8, join, length, ok, refl, some, sym, take, to_be,
  to_le, true, zeros, ◌++◌, ◌∷◌, ◌≡◌, ◌≢◌, ◌≤◌,
}
use omarchy_sync.Identity.{
  device_id, device_id_for_public_key, hex, hex_byte, hex_digit, public_key, sign,
}
use omarchy_sync.Certificate.{
  IsTyped, bad_hex_id, bad_issuer_key_id, is_key_id_byte, payload, signing_bytes, to_bytes,
  validate_shape,
}
use omarchy_sync.Record.{
  bad_presence, bounded_bytes, checked_pair_id, from_bytes, validate_device_id,
}
use omarchy_sync.Cursor.{
  Cursor, bytes, field, finish, lift, pure, put_bytes, run, string, u16, u64, u8,
}
use omarchy_sync.Root.{decode_hex, hex_value, key_id_for_public_key, trim}
use omarchy_sync.Discovery.{DiscoveryAnnouncement}
use omarchy_sync.Tests.Decodes.{device_id_test}
use omarchy_sync.Tests.Codecs.{certificate-IsTyped}
use omarchy_sync.Certificate.RoundTrip.{encoding}
use omarchy_sync.Certificate.Parse.{parse_fields}
use omarchy_sync.Certificate.Verify.{validate_fields}
use omarchy_sync.Discovery.Accept.{IsBounded, verify_all-IsBounded}
use omarchy_sync.Discovery.Replay.{verify_once}

abbrev blank : DiscoveryAnnouncement
blank = record {
  protocol_version = 3;
  certificate = certificate 1;
  nonce = zeros 32;
  timestamp = 150;
  port = 4096;
  signature = zeros 64;
}

abbrev announcement : DiscoveryAnnouncement
announcement = record blank {
  signature = toy.sign (1 ∷ []) (join (Discovery.payload blank (field (encoding (certificate 1)))));
}

abbrev announced : Bytes
announced = join (pieces announcement)

abbrev discovered : VerifiedDiscovery
discovered = record {
  device_id = id_of 1;
  device_name = codes "laptop";
  public_key = digest 32 (1 ∷ []);
  timestamp = 150;
  port = 4096;
}

sign_test : Discovery.sign toy (device 1) (certificate 1) (zeros 32) 150 4096 ≡ ok announcement
unfolding package.omarchy_sync.Base.eq_bytes package.omarchy_sync.Base.is_ascii_hexdigit
    package.omarchy_sync.Base.is_ascii_uppercase package.omarchy_sync.Base.is_ascii_alphanumeric
    package.omarchy_sync.Base.from_le package.omarchy_sync.Base.to_le
    package.omarchy_sync.Base.from_be package.omarchy_sync.Base.to_be
    package.omarchy_sync.Cursor.pure package.omarchy_sync.Cursor.lift
    package.omarchy_sync.Cursor.take package.omarchy_sync.Cursor.u16
    package.omarchy_sync.Cursor.bytes package.omarchy_sync.Cursor.put_bytes
    package.omarchy_sync.Identity.hex_digit package.omarchy_sync.Identity.hex_byte
    package.omarchy_sync.Identity.hex package.omarchy_sync.Identity.device_id_for_public_key
    package.omarchy_sync.Identity.public_key package.omarchy_sync.Identity.device_id
    package.omarchy_sync.Identity.sign package.omarchy_sync.Certificate.bad_hex_id
    package.omarchy_sync.Certificate.is_key_id_byte
    package.omarchy_sync.Certificate.bad_issuer_key_id
    package.omarchy_sync.Certificate.validate_shape package.omarchy_sync.Certificate.signing_bytes
    package.omarchy_sync.Certificate.to_bytes
    package.omarchy_sync.Certificate.Verify.validate_fields
    package.omarchy_sync.Certificate.Verify.unsigned package.omarchy_sync.Record.validate_device_id
    package.omarchy_sync.Record.checked_pair_id package.omarchy_sync.Record.bad_presence
    package.omarchy_sync.Record.validate_shape package.omarchy_sync.Record.bounded_bytes
    package.omarchy_sync.Record.signing_bytes package.omarchy_sync.Record.to_bytes
    package.omarchy_sync.Discovery.signing_bytes package.omarchy_sync.Discovery.to_bytes
    package.omarchy_sync.Discovery.sign
sign_test = refl

to_bytes_test : Discovery.to_bytes announcement ≡ ok announced
unfolding package.omarchy_sync.Base.is_ascii_hexdigit package.omarchy_sync.Base.is_ascii_uppercase
    package.omarchy_sync.Base.is_ascii_alphanumeric package.omarchy_sync.Base.from_le
    package.omarchy_sync.Base.to_le package.omarchy_sync.Base.from_be
    package.omarchy_sync.Base.to_be package.omarchy_sync.Cursor.pure
    package.omarchy_sync.Cursor.lift package.omarchy_sync.Cursor.take
    package.omarchy_sync.Cursor.u16 package.omarchy_sync.Cursor.bytes
    package.omarchy_sync.Cursor.put_bytes package.omarchy_sync.Identity.hex_digit
    package.omarchy_sync.Identity.hex_byte package.omarchy_sync.Identity.hex
    package.omarchy_sync.Identity.device_id_for_public_key package.omarchy_sync.Identity.public_key
    package.omarchy_sync.Identity.device_id package.omarchy_sync.Certificate.bad_hex_id
    package.omarchy_sync.Certificate.is_key_id_byte
    package.omarchy_sync.Certificate.bad_issuer_key_id
    package.omarchy_sync.Certificate.validate_shape package.omarchy_sync.Certificate.signing_bytes
    package.omarchy_sync.Certificate.to_bytes package.omarchy_sync.Record.validate_device_id
    package.omarchy_sync.Record.checked_pair_id package.omarchy_sync.Record.bad_presence
    package.omarchy_sync.Record.validate_shape package.omarchy_sync.Record.bounded_bytes
    package.omarchy_sync.Record.signing_bytes package.omarchy_sync.Record.to_bytes
    package.omarchy_sync.Discovery.signing_bytes package.omarchy_sync.Discovery.to_bytes
to_bytes_test = refl

verify_test : (Verifier.verify toy (new_verifier root) announced 152).1 ≡ ok discovered
unfolding package.omarchy_sync.Base.eq_bytes package.omarchy_sync.Base.is_ascii_hexdigit
    package.omarchy_sync.Base.is_ascii_uppercase package.omarchy_sync.Base.is_ascii_alphanumeric
    package.omarchy_sync.Base.is_utf8 package.omarchy_sync.Base.from_le
    package.omarchy_sync.Base.to_le package.omarchy_sync.Base.from_be
    package.omarchy_sync.Base.to_be package.omarchy_sync.Cursor.pure
    package.omarchy_sync.Cursor.lift package.omarchy_sync.Cursor.take package.omarchy_sync.Cursor.u8
    package.omarchy_sync.Cursor.u16 package.omarchy_sync.Cursor.u64
    package.omarchy_sync.Cursor.bytes package.omarchy_sync.Cursor.string
    package.omarchy_sync.Cursor.finish package.omarchy_sync.Cursor.run
    package.omarchy_sync.Cursor.put_bytes package.omarchy_sync.Identity.hex_digit
    package.omarchy_sync.Identity.hex_byte package.omarchy_sync.Identity.hex
    package.omarchy_sync.Identity.device_id_for_public_key package.omarchy_sync.Identity.public_key
    package.omarchy_sync.Identity.device_id package.omarchy_sync.Certificate.bad_hex_id
    package.omarchy_sync.Certificate.is_key_id_byte
    package.omarchy_sync.Certificate.bad_issuer_key_id
    package.omarchy_sync.Certificate.validate_shape package.omarchy_sync.Certificate.signing_bytes
    package.omarchy_sync.Certificate.to_bytes package.omarchy_sync.Certificate.Parse.parse_fields
    package.omarchy_sync.Certificate.Decode.from_bytes
    package.omarchy_sync.Certificate.Verify.verify package.omarchy_sync.Record.validate_device_id
    package.omarchy_sync.Record.checked_pair_id package.omarchy_sync.Record.bad_presence
    package.omarchy_sync.Record.validate_shape package.omarchy_sync.Record.bounded_bytes
    package.omarchy_sync.Record.signing_bytes package.omarchy_sync.Record.to_bytes
    package.omarchy_sync.Record.from_bytes package.omarchy_sync.Root.key_id_for_public_key
    package.omarchy_sync.Root.hex_value package.omarchy_sync.Root.decode_hex
    package.omarchy_sync.Root.trim package.omarchy_sync.Root.from_bytes
    package.omarchy_sync.Discovery.signing_bytes package.omarchy_sync.Discovery.to_bytes
    package.omarchy_sync.Discovery.Parse.parse_fields
    package.omarchy_sync.Discovery.Decode.from_bytes
    package.omarchy_sync.Discovery.Verifier.new_verifier
    package.omarchy_sync.Discovery.Verifier.is_kept
    package.omarchy_sync.Discovery.Verifier.prune_replay
    package.omarchy_sync.Discovery.Verifier.admit package.omarchy_sync.Discovery.Verifier.check
    package.omarchy_sync.Discovery.Verifier.verify
verify_test = refl

verify_once_example :
    (Verifier.verify toy
      (verify_all toy
        (Verifier.verify toy (new_verifier root) announced 152).0
        ((zeros 3, 160) ∷ (announced, 170) ∷ []))
      announced
      180).1
    ≢ ok discovered
verify_once_example =
    verify_once toy (new_verifier root) announced 152 180 ((zeros 3, 160) ∷ (announced, 170) ∷ [])
      discovered discovered verify_test (omega arith, (omega arith, omega arith)) (omega arith)

new-IsBounded : IsBounded (new_verifier root)
unfolding new_verifier
new-IsBounded = omega arith

public_key_test : digest 32 (1 ∷ []) ≡ Identity.public_key toy (device 1)
unfolding Identity.public_key
public_key_test = refl

verify_all-IsBounded_example :
    IsBounded (verify_all toy (new_verifier root) ((announced, 152) ∷ (announced, 153) ∷ []))
verify_all-IsBounded_example =
    verify_all-IsBounded toy (new_verifier root) ((announced, 152) ∷ (announced, 153) ∷ [])
      new-IsBounded

announcement-IsTyped : Discovery.IsTyped announcement
announcement-IsTyped = record {
  certificate_typed = certificate-IsTyped 1;
  nonce_size = refl;
  timestamp_fits = omega arith;
  port_fits = omega arith;
  signature_size =
      length-digest 64
        (digest 32 (1 ∷ []) ++ join (Discovery.payload blank (field (encoding (certificate 1)))));
}

from_bytes-to_bytes_announcement_example : Decode.from_bytes announced ≡ ok announcement
from_bytes-to_bytes_announcement_example =
    from_bytes-to_bytes_announcement announcement announced announcement-IsTyped (omega arith)
      to_bytes_test

by_id-put_example :
    (length (put 9000 discovered 10 []) ≤ peer_cache_limit)
    × ((by_id 9000 (id_of 1) (put 9000 discovered 10 [])).1
        ≡ some (record { address = 10; discovery = discovered; seen = 9000 }))
by_id-put_example = by_id-put 9000 10 discovered [] (omega arith)

abbrev two_calls : List Call
two_calls = try 5 (id_of 1) ∷ try 6 (id_of 2) ∷ done 7 (id_of 1) true ∷ try 8 (id_of 1) ∷ []

calls_test : (calls two_calls (record { active = false; cooldown = [] }, 0)).1 ≡ 0
unfolding calls enter leave eq_bytes
calls_test = refl

calls-single_example :
    ((calls two_calls (record { active = false; cooldown = [] }, 0)).1
      ≡ running (calls two_calls (record { active = false; cooldown = [] }, 0)).0.active)
    × ((calls two_calls (record { active = false; cooldown = [] }, 0)).1 ≤ 1)
calls-single_example = calls-single two_calls (record { active = false; cooldown = [] }) 0 refl

verify-route_preface_example :
    (route_device_id (route_preface toy (device 1)) ≡ some (Identity.device_id toy (device 1)))
    × (verify_route_preface toy
          (route_preface toy (device 1))
          (record { address = 10; discovery = discovered; seen = 5 })
        ≡ ok tt)
verify-route_preface_example =
    verify-route_preface toy toy-CryptoLaws (device 1)
      (record { address = 10; discovery = discovered; seen = 5 }) (sym device_id_test)
      public_key_test
