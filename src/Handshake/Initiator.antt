-- ===== src/Handshake/Initiator.antt =====
-- `PairingInitiator` of pairing.rs.
pub mod Safe
pub mod Session
pub mod Once
use omarchy_sync.Certificate
use omarchy_sync.Handshake.Method.{Method, asks, lift, modify, ◌>>=◌, ◌>>◌}
use omarchy_sync.Handshake.{
  HandshakeInfo, NoiseXx, PeerAuth, PeerValidation, ack_magic, current, max_handshake_frame, paired,
}
use omarchy_sync.Frame.Decode.{decode_frame}
use omarchy_sync.Session.{
  AuthenticatedPairingSession, local_certificate, peer_device_id, role_initiator, role_responder,
}
use omarchy_sync.Handshake.Endpoint.{Endpoint, mode_of, with_handshake, with_transport}
use omarchy_sync.Base.{
  Bytes, Option, Result, [], already_advanced, bad_acknowledgement, bail_if, context, eq_bytes, err,
  false, missing_state, none, not, ok, reflection, some, true, unexpected_frame, wrong_peer, ◌==◌,
  ◌||◌,
}
use omarchy_sync.Identity.{DeviceIdentity, device_id, public_key}
use omarchy_sync.Certificate.{DeviceCertificate, payload}
use omarchy_sync.Crypto.{Crypto}
use omarchy_sync.Frame.{encode_frame, encode_start_frame, kind_handshake}
use omarchy_sync.Store.{local_role}
use omarchy_sync.Handshake.Hello.{auth_hello, signed_auth_payload}
use omarchy_sync.Handshake.Peer.{parse_auth_proof, parse_paired_auth, verify_signature}
use omarchy_sync.Handshake.Transcript.{digest_transcript, make_transcript}
use omarchy_sync.Handshake.Checks.{decrypt_auth, encrypt_auth, finish_handshake}
use omarchy_sync.Handshake.Transcript.Injective.{transcript}

module _ (k : Crypto) (n : NoiseXx) where
  abbrev pub PairingInitiator : Type 0
  PairingInitiator = Endpoint n Bytes

  -- `new`, once its checks have passed.
  abbrev pub fresh :
      DeviceIdentity
      → Bytes
      → DeviceCertificate
      → Bytes
      → PeerValidation
      → n.State × Bytes
      → PairingInitiator
  fresh identity pair_id cert expected validation (h, public) = record {
    identity = identity;
    pair_id = pair_id;
    certificate = cert;
    expected_peer_device_id = expected;
    validation = validation;
    handshake = some h;
    local_static_public = public;
    transport = none;
    handshake_info = none;
    transcript = none;
    peer = none;
    sent_auth = false;
  }

  -- `parse_auth_proof`, as the validation asks.
  abbrev pub proof_of : PeerValidation → Bytes → Result PeerAuth
  proof_of (current pinned now) bs = parse_auth_proof k bs pinned now
  proof_of (paired context) bs = parse_paired_auth bs context role_responder true

  abbrev pub transcript_with : PairingInitiator → PeerAuth → Option HandshakeInfo → Result Bytes
  transcript_with i peer none = err missing_state
  transcript_with i peer (some info) =
      make_transcript info.hash (mode_of i.validation) i.pair_id i.certificate peer.certificate
        i.local_static_public info.remote_static

  unfoldable pub build_transcript : PairingInitiator → PeerAuth → Result Bytes
  build_transcript i peer = transcript_with i peer i.handshake_info

  unfoldable pub start : Method PairingInitiator Bytes
  start = do
    message ← with_handshake n (λ h. n.write_message h [])
    asks (λ i.
        encode_start_frame kind_handshake role_initiator (mode_of i.validation) i.pair_id message
          max_handshake_frame)

  -- `finish_handshake(self.handshake.take().unwrap())?` and the fields that follow.
  abbrev pub completed : n.transport.State × HandshakeInfo → PairingInitiator → PairingInitiator
  completed (t, info) i = record i {
    handshake_info = some info;
    transport = some t;
    sent_auth = true;
  }

  unfoldable pub receive_responder_handshake : Bytes → Method PairingInitiator (Bytes × Bytes)
  receive_responder_handshake frame = do
    f ← lift (decode_frame frame max_handshake_frame)
    lift (
        bail_if (not (f.kind == kind_handshake) || not (f.role == role_responder)) unexpected_frame)
    _ ← with_handshake n (λ h. n.read_message h f.payload)
    message3 ← with_handshake n (λ h. n.write_message h [])
    h ← asks (λ i. context i.handshake already_advanced)
    modify (λ i. record i { handshake = none })
    finished ← lift (finish_handshake n h)
    modify (completed finished)
    hello ← asks (λ i. auth_hello i.certificate)
    auth ← with_transport n (λ t. encrypt_auth n t role_initiator 1 hello)
    out ← lift (encode_frame kind_handshake role_initiator message3 max_handshake_frame)
    lift (ok (out, auth))

  unfoldable pub receive_responder_auth : Bytes → Method PairingInitiator Bytes
  unfolding build_transcript
  receive_responder_auth frame = do
    asks (λ i. bail_if (not i.sent_auth) missing_state)
    bs ← with_transport n (λ t. decrypt_auth n t frame role_responder 2)
    peer ← asks (λ i. proof_of i.validation bs)
    asks (λ i. bail_if (eq_bytes peer.device_id i.certificate.device_id) reflection)
    asks (λ i. bail_if (not (eq_bytes peer.device_id i.expected_peer_device_id)) wrong_peer)
    transcript ← asks (λ i. build_transcript i peer)
    lift (verify_signature k peer transcript role_responder)
    modify (λ i. record i { transcript = some transcript; peer = some peer })
    sig ← asks (λ i. ok (signed_auth_payload k i.identity transcript role_initiator))
    with_transport n (λ t. encrypt_auth n t role_initiator 3 sig)

  -- The session of an initiator with a proven peer, and the transport that it takes along.
  abbrev pub session_of : PairingInitiator → PeerAuth → Bytes → AuthenticatedPairingSession
  session_of i peer transcript = record {
    pair_id = i.pair_id;
    local_device_id = i.certificate.device_id;
    peer_device_id = peer.device_id;
    local_certificate = i.certificate;
    peer_certificate = peer.certificate;
    session_binding = digest_transcript k transcript;
    peer_public_key = peer.public_key;
    local_role = role_initiator;
  }

  unfoldable pub receive_responder_ack :
      Bytes → Method PairingInitiator (AuthenticatedPairingSession × n.transport.State)
  receive_responder_ack frame = do
    bs ← with_transport n (λ t. decrypt_auth n t frame role_responder 4)
    lift (bail_if (not (eq_bytes bs ack_magic)) bad_acknowledgement)
    peer ← asks (λ i. context i.peer missing_state)
    modify (λ i. record i { peer = none })
    transcript ← asks (λ i. context i.transcript missing_state)
    t ← asks (λ i. context i.transport missing_state)
    modify (λ i. record i { transport = none })
    asks (λ i. ok (session_of i peer transcript, t))
