-- ===== src/Runtime/Route.antt =====
-- The routing preface of runtime_v3.rs, by which a responder finds who calls.
use omarchy_sync.Base.{
  Bool, Bytes, Option, Result, arith, bail_if, codes, drop, drop-append, eq_bytes, eq_bytes_refl,
  false, if◌then◌else◌, invalid_key, invalid_preface, invalid_signature, is_utf8, length,
  length-append, none, not, not_utf8, ok, refl, some, take, take-append, true, wrong_peer, ◌&&◌,
  ◌++◌, ◌+◌, ◌==◌, ◌>>◌, ◌||◌, ◌≡◌,
}
use mathlib.Core.Path.{subst}
use omarchy_sync.Identity.{DeviceIdentity, device_id, public_key, sign}
use omarchy_sync.Certificate.{bad_hex_id}
use omarchy_sync.Crypto.{Crypto, CryptoLaws}
use omarchy_sync.Identity.DeviceId.{device_id_for_public_key-good}
use omarchy_sync.Certificate.RoundTrip.{is_utf8-bad_hex_id, length-bad_hex_id}
use omarchy_sync.Runtime.Peers.{CachedPeer}

abbrev pub route_magic : Bytes
route_magic = codes "OMARCHY-ROUTE-V3"

abbrev pub starts_with : Bytes → Bytes → Bool
starts_with prefix bs = eq_bytes (take (length prefix) bs) prefix

module _ (k : Crypto) where
  unfoldable pub route_preface : DeviceIdentity → Bytes
  route_preface identity =
      let signed = route_magic ++ device_id k identity in signed ++ sign k identity signed

  unfoldable pub verify_route_preface : Bytes → CachedPeer → Result (Unit {0})
  verify_route_preface bs peer = do
    bail_if (not (length bs == length route_magic + 32 + 64) || not (starts_with route_magic bs))
        invalid_preface
    let id = take 32 (drop (length route_magic) bs)
    bail_if (not (is_utf8 id)) not_utf8
    bail_if (not (eq_bytes id peer.discovery.device_id)) wrong_peer
    bail_if (not (k.key_ok peer.discovery.public_key)) invalid_key
    bail_if
        (not (
          k.verify_strict peer.discovery.public_key (take (length route_magic + 32) bs)
            (drop (length route_magic + 32) bs)))
        invalid_signature

unfoldable pub route_device_id : Bytes → Option Bytes
route_device_id bs =
    if length bs == length route_magic + 32 + 64
      && starts_with route_magic bs
      && is_utf8 (take 32 (drop (length route_magic) bs))
    then some (take 32 (drop (length route_magic) bs))
    else none

module _ (k : Crypto) (l : CryptoLaws k) where
  device_id-good : (identity : DeviceIdentity) → bad_hex_id (device_id k identity) ≡ false
  unfolding device_id
  device_id-good identity = device_id_for_public_key-good k l (public_key k identity)

  length-sign_of : (identity : DeviceIdentity) (m : Bytes) → length (sign k identity m) ≡ 64
  unfolding sign
  length-sign_of identity m = l.length-sign identity.signing_key m

  key_ok : (identity : DeviceIdentity) → k.key_ok (public_key k identity) ≡ true
  unfolding public_key
  key_ok identity = l.key_ok-public_of identity.signing_key

  verified :
      (identity : DeviceIdentity) (m : Bytes)
      → k.verify_strict (public_key k identity) m (sign k identity m) ≡ true
  unfolding public_key sign
  verified identity m = l.verify-sign identity.signing_key m

  -- If the primitives meet their laws, and a cached peer has the DeviceID and the public key of an
  -- identity, then the preface of that identity names its DeviceID and is verified for that peer.
  pub verify-route_preface :
      (identity : DeviceIdentity) (peer : CachedPeer)
      → peer.discovery.device_id ≡ device_id k identity
      → peer.discovery.public_key ≡ public_key k identity
      → (route_device_id (route_preface k identity) ≡ some (device_id k identity))
        × (verify_route_preface k (route_preface k identity) peer ≡ ok tt)
  unfolding route_preface verify_route_preface route_device_id eq_bytes
  verify-route_preface identity peer e f =
      let id : Bytes = device_id k identity in
      let sig : Bytes = sign k identity (route_magic ++ id) in
      let good : bad_hex_id id ≡ false = device_id-good identity in
      let id_size : length id ≡ 32 = length-bad_hex_id id good in
      let sig_size : length sig ≡ 64 = length-sign_of identity (route_magic ++ id) in
      let front : take 32 (id ++ sig) ≡ id =
        subst (λ n. take n (id ++ sig) ≡ id) id_size (take-append id sig) in
      let back : drop 32 (id ++ sig) ≡ sig =
        subst (λ n. drop n (id ++ sig) ≡ sig) id_size (drop-append id sig) in
      let size : length (id ++ sig) ≡ 96 = omega (arith, length-append id sig) in
      (
        rw (size, front, is_utf8-bad_hex_id id good) refl,
        rw
            (
              size,
              front,
              back,
              is_utf8-bad_hex_id id good,
              e,
              eq_bytes_refl id,
              f,
              key_ok identity,
              verified identity (route_magic ++ id),
            )
            refl,
      )
