-- ===== src/Handshake/Initiator/Safe.antt =====
-- What `PairingInitiator` of pairing.rs keeps, and what its session rests on.
use omarchy_sync.Handshake.Method.{
  Keeps, Keeps-asks, Keeps-bind, Keeps-lift, Keeps-modify, asks, at_asks, modify,
}
use omarchy_sync.Handshake.{HandshakeInfo, NoiseXx, PeerAuth, PeerValidation, current, paired}
use omarchy_sync.Handshake.Endpoint.{mode_of, with_handshake, with_transport}
use omarchy_sync.Handshake.Initiator.{
  PairingInitiator, build_transcript, completed, proof_of, receive_responder_ack,
  receive_responder_auth, receive_responder_handshake, start, transcript_with,
}
use omarchy_sync.Handshake.Steps.{with_handshake-Keeps, with_transport-Keeps}
use omarchy_sync.Handshake.Proof.{
  IsKnown, IsProven, IsSigned, Setup, parse_auth_proof-IsKnown, parse_paired_auth-IsKnown, setup_of,
  verify_signature-IsSigned,
}
use omarchy_sync.Session.{role_initiator, role_responder}
use omarchy_sync.Base.{
  Bytes, List, Option, Result, [], bail_if, bail_if-passed, eq_bytes, eq_bytes→eq, false,
  missing_state, ne_of_eq_bytes, none, not, not-eq-false, ok, refl, reflection, some,
  some-injective, sym, true, wrong_peer, ◌∙◌, ◌∷◌, ◌≡◌,
}
use mathlib.Core.Path.{subst, subst₂}
use omarchy_sync.Crypto.{Crypto}
use omarchy_sync.Handshake.Hello.{signed_auth_payload}
use omarchy_sync.Handshake.Peer.{verify_signature}
use omarchy_sync.Handshake.Transcript.{make_transcript}
use omarchy_sync.Handshake.Checks.{decrypt_auth, encrypt_auth}

-- Its setup and PairID stay, and a peer that it holds is proven and has signed.
pub record IsSafe (k : Crypto) (n : NoiseXx) (s : Setup) (pair_id : Bytes)
    (i : PairingInitiator k n) : Type 0 where
  pub same_setup : setup_of i ≡ s
  pub same_pair : i.pair_id ≡ pair_id
  pub holds :
      (p : PeerAuth)
      → i.peer ≡ some p
      → (t : Bytes) × (i.transcript ≡ some t) × IsProven k true s pair_id p t × IsSigned k true p t

-- A call, with its argument.
pub data Call : Type 0 where
  starts : Call
  hears_handshake : Bytes → Call
  hears_auth : Bytes → Call
  hears_ack : Bytes → Call

module _ (k : Crypto) (n : NoiseXx) where
  -- The state that a call leaves, whether it succeeds or fails.
  unfoldable pub apply : Call → PairingInitiator k n → PairingInitiator k n
  apply starts i = (start k n i).0
  apply (hears_handshake frame) i = (receive_responder_handshake k n frame i).0
  apply (hears_auth frame) i = (receive_responder_auth k n frame i).0
  apply (hears_ack frame) i = (receive_responder_ack k n frame i).0

  unfoldable pub apply_all : List Call → PairingInitiator k n → PairingInitiator k n
  apply_all [] i = i
  apply_all (c ∷ cs) i = apply_all cs (apply c i)

  -- The fields that the invariant does not read.
  same_view :
      {s : Setup} {pair_id : Bytes} (i j : PairingInitiator k n)
      → setup_of j ≡ setup_of i
      → j.pair_id ≡ i.pair_id
      → j.peer ≡ i.peer
      → j.transcript ≡ i.transcript
      → IsSafe k n s pair_id i
      → IsSafe k n s pair_id j
  same_view {s} {pair_id} i j a b c d h = record {
    same_setup = a ∙ h.same_setup;
    same_pair = b ∙ h.same_pair;
    holds = λ p e. let (t, f, proven, signed) = h.holds p (sym c ∙ e) in (t, d ∙ f, proven, signed);
  }

  proof_of-IsKnown :
      (v : PeerValidation) (bs : Bytes) (p : PeerAuth)
      → proof_of k n v bs ≡ ok p
      → IsKnown k v role_responder p
  proof_of-IsKnown (current pinned now) bs p h =
      parse_auth_proof-IsKnown k bs pinned now role_responder p h
  proof_of-IsKnown (paired c) bs p h = parse_paired_auth-IsKnown k bs c role_responder true p h

  build_transcript-eq-ok :
      (i : PairingInitiator k n) (p : PeerAuth) (t : Bytes)
      → build_transcript k n i p ≡ ok t
      → (info : HandshakeInfo) × (make_transcript info.hash
            (mode_of i.validation)
            i.pair_id
            i.certificate
            p.certificate
            i.local_static_public
            info.remote_static
          ≡ ok t)
  unfolding build_transcript
  build_transcript-eq-ok i p t h = go i.handshake_info h
    where
      go :
          (o : Option HandshakeInfo)
          → transcript_with k n i p o ≡ ok t
          → (info : HandshakeInfo) × (make_transcript info.hash
                (mode_of i.validation)
                i.pair_id
                i.certificate
                p.certificate
                i.local_static_public
                info.remote_static
              ≡ ok t)
      go none e = cc
      go (some info) e = (info, e)

  -- A peer that passes every check of `receive_responder_auth` is proven.
  checked-IsProven :
      (i : PairingInitiator k n) (bs : Bytes) (p : PeerAuth) (t : Bytes)
      → proof_of k n i.validation bs ≡ ok p
      → eq_bytes p.device_id i.certificate.device_id ≡ false
      → eq_bytes p.device_id i.expected_peer_device_id ≡ true
      → build_transcript k n i p ≡ ok t
      → IsProven k true (setup_of i) i.pair_id p t
  checked-IsProven i bs p t known other expected bound =
      let (info, e) = build_transcript-eq-ok i p t bound in
      record {
        known = proof_of-IsKnown i.validation bs p known;
        expected = eq_bytes→eq _ _ expected;
        other = ne_of_eq_bytes _ _ other;
        hash = info.hash;
        own_static = i.local_static_public;
        peer_static = info.remote_static;
        bound = e;
      }

  module _ (s : Setup) (pair_id : Bytes) where
    abbrev Safe : PairingInitiator k n → Type 0
    Safe i = IsSafe k n s pair_id i

    -- A peer that is let go is not held.
    no_peer : (i : PairingInitiator k n) → Safe i → Safe (record i { peer = none })
    no_peer i h = record { same_setup = h.same_setup; same_pair = h.same_pair; holds = λ p e. cc }

    start-Keeps : Keeps Safe (start k n)
    unfolding start
    start-Keeps =
        Keeps-bind (with_handshake n (λ h. n.write_message h [])) _
          (with_handshake-Keeps n Safe _
            (λ i h p. same_view i (record i { handshake = some h }) refl refl refl refl p))
          (λ message. Keeps-asks _)

    accepted :
        (i : PairingInitiator k n) (p : PeerAuth) (t : Bytes)
        → IsProven k true (setup_of i) i.pair_id p t
        → verify_signature k p t role_responder ≡ ok tt
        → Safe i
        → Safe (record i { transcript = some t; peer = some p })
    accepted i p t proven signed h = record {
      same_setup = h.same_setup;
      same_pair = h.same_pair;
      holds = λ q e.
          subst
            (λ x.
              (t' : Bytes) × (some t ≡ some t')
              × IsProven k true s pair_id x t'
              × IsSigned k true x t')
            (some-injective _ _ e)
            (
              t,
              refl,
              subst₂ (λ x y. IsProven k true x y p t) h.same_setup h.same_pair proven,
              verify_signature-IsSigned k true p t signed,
            );
    }

    transport_set :
        (i : PairingInitiator k n) (t : n.transport.State)
        → Safe i
        → Safe (record i { transport = some t })
    transport_set i t h = same_view i (record i { transport = some t }) refl refl refl refl h

    handshake_set :
        (i : PairingInitiator k n) (h : n.State) → Safe i → Safe (record i { handshake = some h })
    handshake_set i h p = same_view i (record i { handshake = some h }) refl refl refl refl p

    noise-Keeps : (f : n.State → Option (n.State × Bytes)) → Keeps Safe (with_handshake n f)
    noise-Keeps f = with_handshake-Keeps n Safe f handshake_set

    pub channel-Keeps :
        {A : Type 0} (f : n.transport.State → n.transport.State × Result A)
        → Keeps Safe (with_transport n f)
    channel-Keeps f = with_transport-Keeps n Safe f transport_set

    taken-Keeps : Keeps Safe (modify (λ i. record i { handshake = none }))
    taken-Keeps =
        Keeps-modify _ (λ i h. same_view i (record i { handshake = none }) refl refl refl refl h)

    completed-Keeps :
        (x : n.transport.State × HandshakeInfo) → Keeps Safe (modify (completed k n x))
    completed-Keeps x =
        Keeps-modify _ (λ i h. same_view i (completed k n x i) refl refl refl refl h)

    spent-Keeps : Keeps Safe (modify (λ i. record i { transport = none }))
    spent-Keeps =
        Keeps-modify _ (λ i h. same_view i (record i { transport = none }) refl refl refl refl h)

    no_peer-Keeps : Keeps Safe (modify (λ i. record i { peer = none }))
    no_peer-Keeps = Keeps-modify _ no_peer

    handshake-Keeps : (frame : Bytes) → Keeps Safe (receive_responder_handshake k n frame)
    unfolding receive_responder_handshake
    handshake-Keeps frame =
        search
          (
            Keeps-lift, Keeps-asks, Keeps-bind, noise-Keeps, channel-Keeps, taken-Keeps,
            completed-Keeps,
          )
          depth 40

    auth-Keeps : (frame : Bytes) → Keeps Safe (receive_responder_auth k n frame)
    unfolding receive_responder_auth
    auth-Keeps frame =
        Keeps-bind (asks (λ i. bail_if (not i.sent_auth) missing_state)) _ (Keeps-asks _) λ _.
          Keeps-bind (with_transport n (λ t. decrypt_auth n t frame role_responder 2)) _
            (with_transport-Keeps n Safe _ transport_set)
            λ bs. record {
              at = λ i h. at_asks Safe i (proof_of k n i.validation bs) _ h λ p known.
                  at_asks Safe i (bail_if (eq_bytes p.device_id i.certificate.device_id) reflection)
                    _ h
                    λ _ other.
                      at_asks Safe i
                        (bail_if (not (eq_bytes p.device_id i.expected_peer_device_id)) wrong_peer)
                        _ h
                        λ _ expected. at_asks Safe i (build_transcript k n i p) _ h λ t bound.
                          at_asks Safe i (verify_signature k p t role_responder) _ h λ _ signed.
                            (with_transport-Keeps n Safe
                                (λ c.
                                  encrypt_auth n c role_initiator 3
                                    (signed_auth_payload k i.identity t role_initiator))
                                transport_set).at
                              (record i { transcript = some t; peer = some p })
                              (accepted i p t
                                (checked-IsProven i bs p t known (bail_if-passed _ _ other)
                                  (not-eq-false (bail_if-passed _ _ expected)) bound)
                                signed h);
            }

    ack-Keeps : (frame : Bytes) → Keeps Safe (receive_responder_ack k n frame)
    unfolding receive_responder_ack
    ack-Keeps frame =
        search (Keeps-lift, Keeps-asks, Keeps-bind, channel-Keeps, no_peer-Keeps, spent-Keeps) depth
          40

    apply-IsSafe : (c : Call) (i : PairingInitiator k n) → Safe i → Safe (apply c i)
    unfolding apply
    apply-IsSafe starts i = start-Keeps.at i
    apply-IsSafe (hears_handshake frame) i = (handshake-Keeps frame).at i
    apply-IsSafe (hears_auth frame) i = (auth-Keeps frame).at i
    apply-IsSafe (hears_ack frame) i = (ack-Keeps frame).at i

    pub apply_all-IsSafe :
        (cs : List Call) (i : PairingInitiator k n) → Safe i → Safe (apply_all cs i)
    unfolding apply_all
    apply_all-IsSafe [] i h = h
    apply_all-IsSafe (c ∷ cs) i h = apply_all-IsSafe cs (apply c i) (apply-IsSafe c i h)
