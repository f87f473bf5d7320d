-- ===== src/Handshake/Open.antt =====
-- The constructors of pairing.rs's two sides, and the look at a start frame before there is one.
-- `random` is what the operating system's source of random bytes gave.
use omarchy_sync.Handshake.{NoiseXx, current, max_handshake_frame, paired}
use omarchy_sync.Frame.Decode.{decode_start_frame}
use omarchy_sync.Session.{
  PairedIdentityContext, local_certificate, peer_device_id, role_for, role_initiator,
  role_responder,
}
use omarchy_sync.Handshake.Initiator.{PairingInitiator, fresh, start}
use omarchy_sync.Handshake.Responder.{PairingResponder, waiting}
use omarchy_sync.Base.{
  Bool, Bytes, Result, bail_if, context, none, not, ok, some, take, true, wrong_role, ℕ, ◌==◌,
  ◌>>=◌, ◌>>◌,
}
use omarchy_sync.Identity.{DeviceIdentity, hex}
use omarchy_sync.Certificate.{DeviceCertificate}
use omarchy_sync.Crypto.{Crypto}
use omarchy_sync.Frame.{mode_first_contact, mode_reconnect}
use omarchy_sync.Root.{PinnedOmarchyRoot}
use omarchy_sync.Handshake.Checks.{build_handshake, validate_expected_peer, validate_local}

-- `random_pair_id`
unfoldable pub random_pair_id : Bytes → Bytes
unfolding hex
random_pair_id random = hex (take 16 random)

-- `PairingResponder::start_is_reconnect`
unfoldable pub start_is_reconnect : Bytes → Result Bool
start_is_reconnect frame = do
  start ← decode_start_frame frame max_handshake_frame
  ok (start.0 == mode_reconnect)

module _ (k : Crypto) (n : NoiseXx) where
  unfoldable pub new_initiator :
      DeviceIdentity
      → DeviceCertificate
      → Bytes
      → PinnedOmarchyRoot
      → ℕ
      → Bytes
      → Bytes
      → Result (PairingInitiator k n)
  unfolding random_pair_id
  new_initiator identity cert expected pinned now random seed = do
    validate_local k identity cert pinned now
    validate_expected_peer expected cert.device_id
    built ← build_handshake n true mode_first_contact (random_pair_id random) seed
    ok (fresh k n identity (random_pair_id random) cert expected (current pinned now) built)

  unfoldable pub reconnect_initiator :
      DeviceIdentity → PairedIdentityContext → Bytes → Result (PairingInitiator k n)
  reconnect_initiator identity context seed = do
    role ← role_for k context identity
    bail_if (not (role == role_initiator)) wrong_role
    built ← build_handshake n true mode_reconnect context.pair_id seed
    ok (
        fresh k n identity context.pair_id (local_certificate context role)
          (peer_device_id context role) (paired context) built)

  unfoldable pub new_responder :
      DeviceIdentity
      → DeviceCertificate
      → Bytes
      → PinnedOmarchyRoot
      → ℕ
      → Result (PairingResponder k n)
  new_responder identity cert expected pinned now = do
    validate_local k identity cert pinned now
    validate_expected_peer expected cert.device_id
    ok (waiting k n identity none cert expected (current pinned now))

  unfoldable pub reconnect_responder :
      DeviceIdentity → PairedIdentityContext → Result (PairingResponder k n)
  reconnect_responder identity context = do
    role ← role_for k context identity
    bail_if (not (role == role_responder)) wrong_role
    ok (
        waiting k n identity (some context.pair_id) (local_certificate context role)
          (peer_device_id context role) (paired context))
