-- ===== src/Handshake/Responder.antt =====
-- `PairingResponder` of pairing.rs.
pub mod Safe
pub mod Session
use omarchy_sync.Handshake.Method.{Method, asks, lift, modify, ◌>>=◌, ◌>>◌}
use omarchy_sync.Handshake.{
  HandshakeInfo, NoiseXx, PeerAuth, PeerValidation, ack_magic, current, max_handshake_frame, paired,
}
use omarchy_sync.Frame.Decode.{decode_frame, decode_start_frame}
use omarchy_sync.Session.{
  AuthenticatedPairingSession, local_certificate, peer_device_id, role_initiator, role_responder,
}
use omarchy_sync.Handshake.Endpoint.{Endpoint, mode_of, with_handshake, with_transport}
use omarchy_sync.Base.{
  Bytes, Option, Result, [], already_advanced, bail_if, context, eq_bytes, err, false,
  missing_state, none, not, ok, reflection, some, true, unexpected_frame, wrong_mode, wrong_pair_id,
  wrong_peer, zeros, ◌==◌, ◌||◌,
}
use omarchy_sync.Identity.{DeviceIdentity, device_id, public_key}
use omarchy_sync.Certificate.{DeviceCertificate, payload}
use omarchy_sync.Crypto.{Crypto}
use omarchy_sync.Frame.{encode_frame, kind_handshake}
use omarchy_sync.Store.{local_role}
use omarchy_sync.Handshake.Hello.{auth_proof}
use omarchy_sync.Handshake.Peer.{parse_auth_hello, parse_paired_auth, verify_signature_payload}
use omarchy_sync.Handshake.Transcript.{digest_transcript, make_transcript}
use omarchy_sync.Handshake.Checks.{build_handshake, decrypt_auth, encrypt_auth, finish_handshake}

module _ (k : Crypto) (n : NoiseXx) where
  abbrev pub PairingResponder : Type 0
  PairingResponder = Endpoint n (Option Bytes)

  -- `new`, once its checks have passed; a reconnection knows its PairID.
  abbrev pub waiting :
      DeviceIdentity → Option Bytes → DeviceCertificate → Bytes → PeerValidation → PairingResponder
  waiting identity pair_id cert expected validation = record {
    identity = identity;
    pair_id = pair_id;
    certificate = cert;
    expected_peer_device_id = expected;
    validation = validation;
    handshake = none;
    local_static_public = zeros 32;
    transport = none;
    handshake_info = none;
    transcript = none;
    peer = none;
    sent_auth = false;
  }

  -- `parse_auth_hello`, as the validation asks.
  abbrev pub hello_of : PeerValidation → Bytes → Result PeerAuth
  hello_of (current pinned now) bs = parse_auth_hello k bs pinned now
  hello_of (paired context) bs = parse_paired_auth bs context role_initiator false

  abbrev pub transcript_with :
      PairingResponder → PeerAuth → Option HandshakeInfo → Option Bytes → Result Bytes
  transcript_with r peer none pair = err missing_state
  transcript_with r peer (some info) none = err missing_state
  transcript_with r peer (some info) (some pair_id) =
      make_transcript info.hash (mode_of r.validation) pair_id peer.certificate r.certificate
        info.remote_static r.local_static_public

  unfoldable pub build_transcript : PairingResponder → PeerAuth → Result Bytes
  build_transcript r peer = transcript_with r peer r.handshake_info r.pair_id

  -- `if let Some(expected) = &self.pair_id { … } else { … }`
  abbrev pub adopt : Bytes → Option Bytes → Method PairingResponder (Unit {0})
  adopt pair_id none r = (record r { pair_id = some pair_id }, ok tt)
  adopt pair_id (some expected) r = (r, bail_if (not (eq_bytes expected pair_id)) wrong_pair_id)

  -- The new Noise state, with its static key.
  abbrev pub opened_by : n.State × Bytes → PairingResponder → PairingResponder
  opened_by (h, public) r = record r { local_static_public = public; handshake = some h }

  unfoldable pub receive_initiator_start : Bytes → Bytes → Method PairingResponder Bytes
  receive_initiator_start seed frame = do
    (mode, pair_id, message) ← lift (decode_start_frame frame max_handshake_frame)
    asks (λ r. bail_if (not (mode == mode_of r.validation)) wrong_mode)
    λ r. adopt pair_id r.pair_id r
    built ← lift (build_handshake n false mode pair_id seed)
    modify (opened_by built)
    _ ← with_handshake n (λ h. n.read_message h message)
    message2 ← with_handshake n (λ h. n.write_message h [])
    lift (encode_frame kind_handshake role_responder message2 max_handshake_frame)

  -- `finish_handshake(self.handshake.take().unwrap())?` and the fields that follow.
  abbrev pub completed : n.transport.State × HandshakeInfo → PairingResponder → PairingResponder
  completed (t, info) r = record r { handshake_info = some info; transport = some t }

  -- The end of `receive_initiator_finish`, from the decrypted hello on.
  unfoldable pub answer_hello : Bytes → Method PairingResponder Bytes
  unfolding build_transcript
  answer_hello hello = do
    peer ← asks (λ r. hello_of r.validation hello)
    transcript ← asks (λ r. build_transcript r peer)
    asks (λ r. bail_if (eq_bytes peer.device_id r.certificate.device_id) reflection)
    asks (λ r. bail_if (not (eq_bytes peer.device_id r.expected_peer_device_id)) wrong_peer)
    modify (λ r. record r { peer = some peer; sent_auth = true })
    proof ← asks (λ r. auth_proof k r.certificate r.identity transcript role_responder)
    modify (λ r. record r { transcript = some transcript })
    with_transport n (λ t. encrypt_auth n t role_responder 2 proof)

  unfoldable pub receive_initiator_finish : Bytes → Bytes → Method PairingResponder Bytes
  unfolding answer_hello
  receive_initiator_finish handshake_frame auth_frame = do
    f ← lift (decode_frame handshake_frame max_handshake_frame)
    lift (
        bail_if (not (f.kind == kind_handshake) || not (f.role == role_initiator)) unexpected_frame)
    _ ← with_handshake n (λ h. n.read_message h f.payload)
    h ← asks (λ r. context r.handshake already_advanced)
    modify (λ r. record r { handshake = none })
    finished ← lift (finish_handshake n h)
    modify (completed finished)
    hello ← with_transport n (λ t. decrypt_auth n t auth_frame role_initiator 1)
    answer_hello hello

  -- The session of a responder with a proven peer, and the transport that it takes along.
  abbrev pub session_of : PairingResponder → PeerAuth → Bytes → Bytes → AuthenticatedPairingSession
  session_of r peer transcript pair_id = record {
    pair_id = pair_id;
    local_device_id = r.certificate.device_id;
    peer_device_id = peer.device_id;
    local_certificate = r.certificate;
    peer_certificate = peer.certificate;
    session_binding = digest_transcript k transcript;
    peer_public_key = peer.public_key;
    local_role = role_responder;
  }

  unfoldable pub receive_initiator_auth :
      Bytes → Method PairingResponder (Bytes × AuthenticatedPairingSession × n.transport.State)
  receive_initiator_auth frame = do
    asks (λ r. bail_if (not r.sent_auth) missing_state)
    bs ← with_transport n (λ t. decrypt_auth n t frame role_initiator 3)
    peer ← asks (λ r. context r.peer missing_state)
    transcript ← asks (λ r. context r.transcript missing_state)
    lift (verify_signature_payload k peer transcript role_initiator bs)
    ack ← with_transport n (λ t. encrypt_auth n t role_responder 4 ack_magic)
    pair_id ← asks (λ r. context r.pair_id missing_state)
    t ← asks (λ r. context r.transport missing_state)
    modify (λ r. record r { transport = none })
    asks (λ r. ok (ack, session_of r peer transcript pair_id, t))
