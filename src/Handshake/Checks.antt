-- ===== src/Handshake/Checks.antt =====
-- The checks of pairing.rs before a message leaves, and the calls of the Noise library.
use omarchy_sync.Identity
use omarchy_sync.Certificate.Verify as CertificateCheck
use omarchy_sync.Handshake.{
  HandshakeInfo, NoiseXx, kind_auth, max_auth_frame, max_auth_plaintext, transcript_magic,
}
use omarchy_sync.Frame.Decode.{decode_frame_with_sequence}
use omarchy_sync.Base.{
  Bool, Bytes, Option, Result, bail_if, context, decrypt_failed, encrypt_failed, eq_bytes, err,
  foreign_certificate, handshake_failed, handshake_incomplete, if◌then◌else◌, invalid_expected_peer,
  invalid_mode, invalid_pair_id, length, ltb, none, not, ok, plaintext_too_large, reflection, some,
  unexpected_frame, ℕ, ◌++◌, ◌==◌, ◌>>=◌, ◌>>◌, ◌||◌, ◌∷◌,
}
use omarchy_sync.Identity.{DeviceIdentity, device_id, public_key}
use omarchy_sync.Certificate.{DeviceCertificate, bad_hex_id}
use omarchy_sync.Crypto.{Crypto}
use omarchy_sync.Frame.{encode_frame_with_sequence, mode_first_contact, mode_reconnect}
use omarchy_sync.Root.{PinnedOmarchyRoot}
use omarchy_sync.Frame.Parse.{Frame}
use omarchy_sync.Certificate.Verify.{verify}

unfoldable pub validate_local :
    Crypto → DeviceIdentity → DeviceCertificate → PinnedOmarchyRoot → ℕ → Result (Unit {0})
validate_local k identity cert root now = do
  bail_if
      (not (eq_bytes cert.device_id (Identity.device_id k identity))
        || not (eq_bytes cert.public_key (Identity.public_key k identity)))
      foreign_certificate
  CertificateCheck.verify k cert root now

unfoldable pub validate_expected_peer : Bytes → Bytes → Result (Unit {0})
validate_expected_peer expected own = do
  bail_if (bad_hex_id expected) invalid_expected_peer
  bail_if (eq_bytes expected own) reflection

module _ (n : NoiseXx) where
  -- `build_handshake(initiator, mode, pair_id)`; `seed` is the randomness of the static key.
  unfoldable pub build_handshake : Bool → ℕ → Bytes → Bytes → Result (n.State × Bytes)
  build_handshake initiator mode pair_id seed = do
    bail_if (bad_hex_id pair_id) invalid_pair_id
    bail_if (not (mode == mode_first_contact || mode == mode_reconnect)) invalid_mode
    context (n.build initiator (transcript_magic ++ (mode ∷ pair_id)) seed) handshake_failed

  unfoldable pub finish_handshake : n.State → Result (n.transport.State × HandshakeInfo)
  finish_handshake h = do
    bail_if (not (n.is_handshake_finished h)) handshake_incomplete
    remote ← context (n.get_remote_static h) handshake_incomplete
    bail_if (not (length remote == 32)) handshake_incomplete
    bail_if (not (length (n.get_handshake_hash h) == 32)) handshake_incomplete
    t ← context (n.into_transport_mode h) handshake_failed
    ok (t, record { hash = n.get_handshake_hash h; remote_static = remote })

  -- The state after the call, and the frame.
  abbrev pub sealed :
      ℕ
      → ℕ
      → n.transport.State
      → Option (n.transport.State × Bytes)
      → n.transport.State × Result Bytes
  sealed role sequence t none = (t, err encrypt_failed)
  sealed role sequence t (some (t', c)) =
      (t', encode_frame_with_sequence kind_auth role sequence c max_auth_frame)

  unfoldable pub encrypt_auth : n.transport.State → ℕ → ℕ → Bytes → n.transport.State × Result Bytes
  encrypt_auth t role sequence plaintext =
      if ltb max_auth_plaintext (length plaintext)
      then (t, err plaintext_too_large)
      else sealed role sequence t (n.transport.write_message t plaintext)

  abbrev pub opened :
      n.transport.State → Option (n.transport.State × Bytes) → n.transport.State × Result Bytes
  opened t none = (t, err decrypt_failed)
  opened t (some (t', p)) =
      if ltb max_auth_plaintext (length p) then (t, err decrypt_failed) else (t', ok p)

  abbrev pub open_auth : ℕ → ℕ → n.transport.State → Result Frame → n.transport.State × Result Bytes
  open_auth role sequence t (err e) = (t, err e)
  open_auth role sequence t (ok f) =
      if not (f.kind == kind_auth) || not (f.role == role) || not (f.sequence == sequence)
      then (t, err unexpected_frame)
      else opened t (n.transport.read_message t f.payload)

  unfoldable pub decrypt_auth : n.transport.State → Bytes → ℕ → ℕ → n.transport.State × Result Bytes
  decrypt_auth t bs role sequence =
      open_auth role sequence t (decode_frame_with_sequence bs max_auth_frame)
