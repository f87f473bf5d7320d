-- ===== src/Handshake/Endpoint.antt =====
-- The state of `PairingInitiator` and of `PairingResponder`, and calls on its Noise states.
use omarchy_sync.Handshake.Method.{Method}
use omarchy_sync.Handshake.{HandshakeInfo, NoiseXx, PeerAuth, PeerValidation, current, paired}
use omarchy_sync.Base.{
  Bool, Bytes, Option, Result, already_advanced, err, handshake_failed, missing_state, none, ok,
  some, ℕ,
}
use omarchy_sync.Identity.{DeviceIdentity}
use omarchy_sync.Certificate.{DeviceCertificate}
use omarchy_sync.Frame.{mode_first_contact, mode_reconnect}

-- The fields of both; the PairID is `I`: known to the initiator, and an option of the responder.
pub record Endpoint (n : NoiseXx) (I : Type 0) : Type 0 where
  pub identity : DeviceIdentity
  pub pair_id : I
  pub certificate : DeviceCertificate
  pub expected_peer_device_id : Bytes
  pub validation : PeerValidation
  pub handshake : Option n.State
  pub local_static_public : Bytes
  pub transport : Option n.transport.State
  pub handshake_info : Option HandshakeInfo
  pub transcript : Option Bytes
  pub peer : Option PeerAuth
  pub sent_auth : Bool

abbrev pub mode_of : PeerValidation → ℕ
mode_of (current _ _) = mode_first_contact
mode_of (paired _) = mode_reconnect

module _ (n : NoiseXx) where
  -- A call on `self.transport`, which `as_mut()` asks to be there.
  abbrev pub used :
      {I A : Type 0} → Endpoint n I → n.transport.State × Result A → Endpoint n I × Result A
  used e (t, r) = (record e { transport = some t }, r)

  abbrev pub on_transport :
      {I A : Type 0}
      → (n.transport.State → n.transport.State × Result A)
      → Option n.transport.State
      → Method (Endpoint n I) A
  on_transport f none e = (e, err missing_state)
  on_transport f (some t) e = used e (f t)

  abbrev pub with_transport :
      {I A : Type 0} → (n.transport.State → n.transport.State × Result A) → Method (Endpoint n I) A
  with_transport f e = on_transport f e.transport e

  -- A call on `self.handshake`: a message read or written, or an error.
  abbrev pub moved :
      {I : Type 0} → Endpoint n I → Option (n.State × Bytes) → Endpoint n I × Result Bytes
  moved e none = (e, err handshake_failed)
  moved e (some (h, bs)) = (record e { handshake = some h }, ok bs)

  abbrev pub on_handshake :
      {I : Type 0}
      → (n.State → Option (n.State × Bytes))
      → Option n.State
      → Method (Endpoint n I) Bytes
  on_handshake f none e = (e, err already_advanced)
  on_handshake f (some h) e = moved e (f h)

  abbrev pub with_handshake :
      {I : Type 0} → (n.State → Option (n.State × Bytes)) → Method (Endpoint n I) Bytes
  with_handshake f e = on_handshake f e.handshake e
