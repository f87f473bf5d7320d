-- ===== src/Handshake/Responder/Safe.antt =====
-- What `PairingResponder` of pairing.rs keeps.
use omarchy_sync.Certificate
use omarchy_sync.Handshake.Method.{
  Keeps, Keeps-asks, Keeps-bind, Keeps-lift, Keeps-modify, at_asks, at_ok, modify,
}
use omarchy_sync.Handshake.{
  HandshakeInfo, NoiseXx, PeerAuth, PeerValidation, auth_magic, current, paired,
}
use omarchy_sync.Handshake.Endpoint.{mode_of, with_handshake, with_transport}
use omarchy_sync.Handshake.Responder.{
  PairingResponder, adopt, answer_hello, build_transcript, completed, hello_of, opened_by,
  receive_initiator_auth, receive_initiator_finish, receive_initiator_start, transcript_with,
}
use omarchy_sync.Handshake.Steps.{with_handshake-Keeps, with_transport-Keeps}
use omarchy_sync.Handshake.Proof.{
  IsKnown, IsProven, Setup, parse_auth_hello-IsKnown, parse_paired_auth-IsKnown, setup_of,
}
use omarchy_sync.Session.{role_initiator, role_responder}
use omarchy_sync.Certificate.RoundTrip.{from_bytes-to_bytes}
use omarchy_sync.Base.{
  >>=-elim, Bytes, List, Option, Result, [], bail_if, bail_if-passed, eq_bytes, eq_bytes→eq, false,
  ne_of_eq_bytes, none, not, not-eq-false, ok, refl, reflection, some, some-injective, sym, true,
  wrong_peer, ◌++◌, ◌∙◌, ◌∷◌, ◌≡◌,
}
use mathlib.Core.Path.{subst, subst₂}
use omarchy_sync.Certificate.{IsTyped, max_certificate_bytes, to_bytes}
use omarchy_sync.Crypto.{Crypto}
use omarchy_sync.Cursor.{put_bytes}
use omarchy_sync.Discovery.{protocol_v3}
use omarchy_sync.Handshake.Hello.{auth_hello, auth_proof, signed_auth_payload}
use omarchy_sync.Handshake.Transcript.{make_transcript}
use omarchy_sync.Handshake.Checks.{encrypt_auth}

-- Its setup stays, and of the peer and the transcript that it holds the one proves the other, under
-- its PairID.
pub record IsSafe (k : Crypto) (n : NoiseXx) (s : Setup) (r : PairingResponder k n) : Type 0 where
  pub same_setup : setup_of r ≡ s
  pub holds :
      (p : PeerAuth) (t : Bytes)
      → r.peer ≡ some p
      → r.transcript ≡ some t
      → (pair_id : Bytes) × (r.pair_id ≡ some pair_id) × IsProven k false s pair_id p t

-- A call, with its arguments; a start comes with the randomness of the static key.
pub data Call : Type 0 where
  hears_start : Bytes → Bytes → Call
  hears_finish : Bytes → Bytes → Call
  hears_auth : Bytes → Call

module _ (k : Crypto) (n : NoiseXx) where
  -- The state that a call leaves, whether it succeeds or fails.
  unfoldable pub apply : Call → PairingResponder k n → PairingResponder k n
  apply (hears_start seed frame) r = (receive_initiator_start k n seed frame r).0
  apply (hears_finish handshake_frame auth_frame) r =
      (receive_initiator_finish k n handshake_frame auth_frame r).0
  apply (hears_auth frame) r = (receive_initiator_auth k n frame r).0

  unfoldable pub apply_all : List Call → PairingResponder k n → PairingResponder k n
  apply_all [] r = r
  apply_all (c ∷ cs) r = apply_all cs (apply c r)

  -- The fields that the invariant does not read.
  same_view :
      {s : Setup} (r q : PairingResponder k n)
      → setup_of q ≡ setup_of r
      → q.pair_id ≡ r.pair_id
      → q.peer ≡ r.peer
      → q.transcript ≡ r.transcript
      → IsSafe k n s r
      → IsSafe k n s q
  same_view {s} r q a b c d h = record {
    same_setup = a ∙ h.same_setup;
    holds = λ p t e f.
        let (pair_id, g, proven) = h.holds p t (sym c ∙ e) (sym d ∙ f) in (pair_id, b ∙ g, proven);
  }

  hello_of-IsKnown :
      (v : PeerValidation) (bs : Bytes) (p : PeerAuth)
      → hello_of k n v bs ≡ ok p
      → IsKnown k v role_initiator p
  hello_of-IsKnown (current pinned now) bs p h =
      parse_auth_hello-IsKnown k bs pinned now role_initiator p h
  hello_of-IsKnown (paired c) bs p h = parse_paired_auth-IsKnown k bs c role_initiator false p h

  -- What the transcript was built from.
  build_transcript-eq-ok :
      (r : PairingResponder k n) (p : PeerAuth) (t : Bytes)
      → build_transcript k n r p ≡ ok t
      → (pair_id : Bytes) × (r.pair_id ≡ some pair_id)
        × ((info : HandshakeInfo) × (make_transcript info.hash
                (mode_of r.validation)
                pair_id
                p.certificate
                r.certificate
                info.remote_static
                r.local_static_public
              ≡ ok t))
  unfolding build_transcript
  build_transcript-eq-ok r p t h = go r.handshake_info r.pair_id h
    where
      go :
          (o : Option HandshakeInfo) (x : Option Bytes)
          → transcript_with k n r p o x ≡ ok t
          → (pair_id : Bytes) × (x ≡ some pair_id)
            × ((info : HandshakeInfo) × (make_transcript info.hash
                    (mode_of r.validation)
                    pair_id
                    p.certificate
                    r.certificate
                    info.remote_static
                    r.local_static_public
                  ≡ ok t))
      go none x e = cc
      go (some info) none e = cc
      go (some info) (some pair_id) e = (pair_id, refl, (info, e))

  -- A peer that passes every check of `receive_initiator_finish` is proven.
  checked-IsProven :
      (r : PairingResponder k n) (bs : Bytes) (p : PeerAuth) (t : Bytes)
      → hello_of k n r.validation bs ≡ ok p
      → eq_bytes p.device_id r.certificate.device_id ≡ false
      → eq_bytes p.device_id r.expected_peer_device_id ≡ true
      → build_transcript k n r p ≡ ok t
      → (pair_id : Bytes) × (r.pair_id ≡ some pair_id) × IsProven k false (setup_of r) pair_id p t
  checked-IsProven r bs p t known other expected bound =
      let (pair_id, e, (info, made)) = build_transcript-eq-ok r p t bound in
      (
        pair_id,
        e,
        record {
          known = hello_of-IsKnown r.validation bs p known;
          expected = eq_bytes→eq _ _ expected;
          other = ne_of_eq_bytes _ _ other;
          hash = info.hash;
          own_static = r.local_static_public;
          peer_static = info.remote_static;
          bound = made;
        },
      )

  -- A device that has built a transcript with its certificate can send the certificate.
  proof_there :
      (r : PairingResponder k n) (p : PeerAuth) (t : Bytes)
      → Certificate.IsTyped r.certificate
      → build_transcript k n r p ≡ ok t
      → (proof : Bytes) × (auth_proof k r.certificate r.identity t role_responder ≡ ok proof)
  unfolding make_transcript auth_proof auth_hello
  proof_there r p t typed h =
      let (pair_id, _, (info, made)) = build_transcript-eq-ok r p t h in
      >>=-elim (Certificate.to_bytes p.certificate) _ made λ i_bytes _ h1.
        >>=-elim (Certificate.to_bytes r.certificate) _ h1 λ bs w h2.
          >>=-elim (put_bytes pair_id 32) _ h2 λ _ _ h3.
            >>=-elim (put_bytes info.hash 32) _ h3 λ _ _ h4.
              >>=-elim (put_bytes i_bytes max_certificate_bytes) _ h4 λ _ _ h5.
                >>=-elim (put_bytes bs max_certificate_bytes) _ h5 λ cert_field q _.
                  let parsed = from_bytes-to_bytes r.certificate bs typed w in
                  (
                    auth_magic
                        ++ ((protocol_v3 ∷ [])
                            ++ (r.certificate.device_id
                                ++ (r.certificate.public_key ++ cert_field)))
                        ++ signed_auth_payload k r.identity t role_responder,
                    rw (w, parsed, q) refl,
                  )

module _ (k : Crypto) (n : NoiseXx) (s : Setup) (typed : Certificate.IsTyped s.certificate) where
  abbrev Safe : PairingResponder k n → Type 0
  Safe r = IsSafe k n s r

  handshake_set :
      (r : PairingResponder k n) (h : n.State) → Safe r → Safe (record r { handshake = some h })
  handshake_set r h p = same_view k n r (record r { handshake = some h }) refl refl refl refl p

  transport_set :
      (r : PairingResponder k n) (t : n.transport.State)
      → Safe r
      → Safe (record r { transport = some t })
  transport_set r t h = same_view k n r (record r { transport = some t }) refl refl refl refl h

  noise-Keeps : (f : n.State → Option (n.State × Bytes)) → Keeps Safe (with_handshake n f)
  noise-Keeps f = with_handshake-Keeps n Safe f handshake_set

  pub channel-Keeps :
      {A : Type 0} (f : n.transport.State → n.transport.State × Result A)
      → Keeps Safe (with_transport n f)
  channel-Keeps f = with_transport-Keeps n Safe f transport_set

  taken-Keeps : Keeps Safe (modify (λ r. record r { handshake = none }))
  taken-Keeps =
      Keeps-modify _ (λ r h. same_view k n r (record r { handshake = none }) refl refl refl refl h)

  completed-Keeps : (x : n.transport.State × HandshakeInfo) → Keeps Safe (modify (completed k n x))
  completed-Keeps x =
      Keeps-modify _ (λ r h. same_view k n r (completed k n x r) refl refl refl refl h)

  opened-Keeps : (x : n.State × Bytes) → Keeps Safe (modify (opened_by k n x))
  opened-Keeps x = Keeps-modify _ (λ r h. same_view k n r (opened_by k n x r) refl refl refl refl h)

  spent-Keeps : Keeps Safe (modify (λ r. record r { transport = none }))
  spent-Keeps =
      Keeps-modify _ (λ r h. same_view k n r (record r { transport = none }) refl refl refl refl h)

  -- Only a responder that proved no peer yet adopts a PairID.
  adopt-Keeps : (pair_id : Bytes) → Keeps Safe (λ r. adopt k n pair_id r.pair_id r)
  adopt-Keeps pair_id = record { at = λ r h. go r r.pair_id refl h }
    where
      go :
          (r : PairingResponder k n) (o : Option Bytes)
          → r.pair_id ≡ o
          → Safe r
          → Safe (adopt k n pair_id o r).0
      go r (some x) e h = h
      go r none e h = record {
        same_setup = h.same_setup;
        holds = λ p t a b. let (x, f, _) = h.holds p t a b in cc (e, f);
      }

  start-Keeps : (seed frame : Bytes) → Keeps Safe (receive_initiator_start k n seed frame)
  unfolding receive_initiator_start
  start-Keeps seed frame =
      search (Keeps-lift, Keeps-asks, Keeps-bind, noise-Keeps, adopt-Keeps, opened-Keeps) depth 40

  -- The last part of `receive_initiator_finish`, from the hello on.
  proven-Safe :
      (r : PairingResponder k n) (p : PeerAuth) (t : Bytes)
      → ((pair_id : Bytes) × (r.pair_id ≡ some pair_id) × IsProven k false (setup_of r) pair_id p t)
      → Safe r
      → Safe (record r { peer = some p; sent_auth = true; transcript = some t })
  proven-Safe r p t proven h = record {
    same_setup = h.same_setup;
    holds = λ q u e f.
        subst₂
          (λ x y. (pair_id : Bytes) × (r.pair_id ≡ some pair_id) × IsProven k false s pair_id x y)
          (some-injective _ _ e) (some-injective _ _ f)
          (subst
            (λ x. (pair_id : Bytes) × (r.pair_id ≡ some pair_id) × IsProven k false x pair_id p t)
            h.same_setup proven);
  }

  answer_hello-Keeps : (hello : Bytes) → Keeps Safe (answer_hello k n hello)
  unfolding answer_hello
  answer_hello-Keeps hello = record {
    at = λ r h. at_asks Safe r (hello_of k n r.validation hello) _ h λ p known.
        at_asks Safe r (build_transcript k n r p) _ h λ t bound.
          at_asks Safe r (bail_if (eq_bytes p.device_id r.certificate.device_id) reflection) _ h
            λ _ other.
              at_asks Safe r
                (bail_if (not (eq_bytes p.device_id r.expected_peer_device_id)) wrong_peer) _ h
                λ _ expected.
                  let own : Certificate.IsTyped r.certificate =
                    subst (λ (x : Setup). Certificate.IsTyped x.certificate) (sym h.same_setup)
                      typed in
                  let (proof, e) = proof_there k n r p t own bound in
                  at_ok Safe (record r { peer = some p; sent_auth = true })
                    (auth_proof k r.certificate r.identity t role_responder) _ proof e
                    ((channel-Keeps (λ c. encrypt_auth n c role_responder 2 proof)).at
                      (record r { peer = some p; sent_auth = true; transcript = some t })
                      (proven-Safe r p t
                        (checked-IsProven k n r hello p t known (bail_if-passed _ _ other)
                          (not-eq-false (bail_if-passed _ _ expected)) bound)
                        h));
  }

  finish-Keeps :
      (handshake_frame auth_frame : Bytes)
      → Keeps Safe (receive_initiator_finish k n handshake_frame auth_frame)
  unfolding receive_initiator_finish
  finish-Keeps handshake_frame auth_frame =
      search
        (
          Keeps-lift, Keeps-asks, Keeps-bind, noise-Keeps, channel-Keeps, taken-Keeps,
          completed-Keeps, answer_hello-Keeps,
        )
        depth 40

  auth-Keeps : (frame : Bytes) → Keeps Safe (receive_initiator_auth k n frame)
  unfolding receive_initiator_auth
  auth-Keeps frame =
      search (Keeps-lift, Keeps-asks, Keeps-bind, channel-Keeps, spent-Keeps) depth 40

  apply-IsSafe : (c : Call) (r : PairingResponder k n) → Safe r → Safe (apply k n c r)
  unfolding apply
  apply-IsSafe (hears_start seed frame) r = (start-Keeps seed frame).at r
  apply-IsSafe (hears_finish handshake_frame auth_frame) r =
      (finish-Keeps handshake_frame auth_frame).at r
  apply-IsSafe (hears_auth frame) r = (auth-Keeps frame).at r

  pub apply_all-IsSafe :
      (cs : List Call) (r : PairingResponder k n) → Safe r → Safe (apply_all k n cs r)
  unfolding apply_all
  apply_all-IsSafe [] r h = h
  apply_all-IsSafe (c ∷ cs) r h = apply_all-IsSafe cs (apply k n c r) (apply-IsSafe c r h)
