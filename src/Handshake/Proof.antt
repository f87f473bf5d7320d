-- ===== src/Handshake/Proof.antt =====
-- What a device knows of its peer once pairing.rs has checked it.
use omarchy_sync.Certificate.Verify as CertificateCheck
use omarchy_sync.Handshake.{NoiseXx, signature_magic, PeerAuth, PeerValidation, current, paired}
use omarchy_sync.Handshake.Endpoint.{Endpoint, mode_of}
use omarchy_sync.Handshake.Parse.{AuthFields}
use omarchy_sync.Handshake.Peer.{
  differs, parse_auth, parse_auth_hello, parse_auth_proof, parse_paired_auth, verify_signature,
  verify_signature_payload,
}
use omarchy_sync.Session.{
  AuthenticatedPairingSession, PairedIdentityContext, eq_certificate, eq_certificate→eq,
  identity_for_role, role_initiator, role_responder,
}
use omarchy_sync.Base.{
  >>-elim, >>=-elim, Bool, Bytes, Error, Option, Result, ap, bail_if-elim, bail_if-passed, context,
  eq_bytes, eq_bytes→eq, false, if◌then◌else◌, length, none, not, not-eq-false, ok, ok_inj,
  or-eq-false, some, sym, true, unexpected_signature_state, ℕ, ◌==◌, ◌++◌, ◌∷◌, [], ◌||◌, ◌≡◌, ◌≢◌,
}
use mathlib.Core.Path.{subst}
use omarchy_sync.Identity.{DeviceIdentity}
use omarchy_sync.Certificate.{DeviceCertificate}
use omarchy_sync.Crypto.{Crypto}
use omarchy_sync.Record.{is_some}
use omarchy_sync.Root.{PinnedOmarchyRoot}
use omarchy_sync.Certificate.Verify.{verify}
use omarchy_sync.Handshake.Transcript.{make_transcript}

-- The peer is certified under the root now, or is the one that the earlier pairing pins.
abbrev pub IsKnown : Crypto → PeerValidation → ℕ → PeerAuth → Type 0
IsKnown k (current pinned now) role p =
    (CertificateCheck.verify k p.certificate pinned now ≡ ok tt)
    × (p.certificate.device_id ≡ p.device_id)
    × (p.certificate.public_key ≡ p.public_key)
IsKnown k (paired c) role p =
    (p.device_id ≡ (identity_for_role c role).0)
    × (p.public_key ≡ (identity_for_role c role).1)
    × (p.certificate ≡ (identity_for_role c role).2)

-- What a side is set up with, and never changes.
pub record Setup : Type 0 where
  pub identity : DeviceIdentity
  pub certificate : DeviceCertificate
  pub expected_peer_device_id : Bytes
  pub validation : PeerValidation

abbrev pub setup_of : {n : NoiseXx} {I : Type 0} → Endpoint n I → Setup
setup_of e = record {
  identity = e.identity;
  certificate = e.certificate;
  expected_peer_device_id = e.expected_peer_device_id;
  validation = e.validation;
}

-- The role of the other side, and the transcript as either side builds it.
abbrev pub peer_role : Bool → ℕ
peer_role initiates = if initiates then role_responder else role_initiator

abbrev pub transcript_of :
    Bool → Setup → Bytes → DeviceCertificate → Bytes → Bytes → Bytes → Result Bytes
transcript_of true s pair_id cert hash own theirs =
    make_transcript hash (mode_of s.validation) pair_id s.certificate cert own theirs
transcript_of false s pair_id cert hash own theirs =
    make_transcript hash (mode_of s.validation) pair_id cert s.certificate theirs own

-- The peer is known, the expected one and not the device itself, and `t` is the transcript of both.
pub record IsProven (k : Crypto) (initiates : Bool) (s : Setup) (pair_id : Bytes) (p : PeerAuth)
    (t : Bytes) : Type 0 where
  pub known : IsKnown k s.validation (peer_role initiates) p
  pub expected : p.device_id ≡ s.expected_peer_device_id
  pub other : p.device_id ≢ s.certificate.device_id
  pub hash : Bytes
  pub own_static : Bytes
  pub peer_static : Bytes
  pub bound : transcript_of initiates s pair_id p.certificate hash own_static peer_static ≡ ok t

-- The peer signed the transcript under its role.
pub record IsSigned (k : Crypto) (initiates : Bool) (p : PeerAuth) (t : Bytes) : Type 0 where
  pub sig : Bytes
  pub key_good : k.key_ok p.public_key ≡ true
  pub verified :
      k.verify_strict p.public_key (signature_magic ++ (t ++ (peer_role initiates ∷ []))) sig ≡ true

-- What stands behind a session: a proven peer that signed the transcript of which the binding is
-- the digest, and the fields of the two devices.
pub record IsAuthenticated (k : Crypto) (initiates : Bool) (s : Setup) (pair_id : Bytes)
    (session : AuthenticatedPairingSession) : Type 0 where
  pub peer : PeerAuth
  pub transcript : Bytes
  pub proven : IsProven k initiates s pair_id peer transcript
  pub signed : IsSigned k initiates peer transcript
  pub same_pair : session.pair_id ≡ pair_id
  pub local_id : session.local_device_id ≡ s.certificate.device_id
  pub local_certificate : session.local_certificate ≡ s.certificate
  pub peer_id : session.peer_device_id ≡ s.expected_peer_device_id
  pub peer_certificate : session.peer_certificate ≡ peer.certificate
  pub peer_key : session.peer_public_key ≡ peer.public_key
  pub binding : session.session_binding ≡ k.sha256 transcript

pub context-eq-ok :
    {A : Type 0} (o : Option A) (e : Error) (a : A) → context o e ≡ ok a → o ≡ some a
context-eq-ok none e a h = cc
context-eq-ok (some x) e a h = ap some (ok_inj h)

differs-eq-false :
    (f : AuthFields) (id key : Bytes)
    → differs f id key ≡ false
    → (id ≡ f.device_id) × (key ≡ f.public_key)
differs-eq-false f id key h =
    let (a, b) = or-eq-false (not (eq_bytes id f.device_id)) _ h in
    (eq_bytes→eq _ _ (not-eq-false a), eq_bytes→eq _ _ (not-eq-false b))

module _ (k : Crypto) where
  pub parse_auth_hello-IsKnown :
      (bs : Bytes) (pinned : PinnedOmarchyRoot) (now role : ℕ) (p : PeerAuth)
      → parse_auth_hello k bs pinned now ≡ ok p
      → IsKnown k (current pinned now) role p
  unfolding parse_auth_hello
  parse_auth_hello-IsKnown bs pinned now role p h = >>=-elim (parse_auth bs) _ h λ f _ h1.
      bail_if-elim (is_some f.signature) _ _ h1 λ _ h2.
        >>-elim (CertificateCheck.verify k f.certificate pinned now) _ h2 λ v h3.
          bail_if-elim (differs f f.certificate.device_id f.certificate.public_key) _ _ h3
            λ same h4.
              subst (λ q. IsKnown k (current pinned now) role q) (ok_inj h4)
                (v, (differs-eq-false f _ _ same).0, (differs-eq-false f _ _ same).1)

  pub parse_auth_proof-IsKnown :
      (bs : Bytes) (pinned : PinnedOmarchyRoot) (now role : ℕ) (p : PeerAuth)
      → parse_auth_proof k bs pinned now ≡ ok p
      → IsKnown k (current pinned now) role p
  unfolding parse_auth_proof
  parse_auth_proof-IsKnown bs pinned now role p h = >>=-elim (parse_auth bs) _ h λ f _ h1.
      bail_if-elim (not (is_some f.signature)) _ _ h1 λ _ h2.
        >>-elim (CertificateCheck.verify k f.certificate pinned now) _ h2 λ v h3.
          bail_if-elim (differs f f.certificate.device_id f.certificate.public_key) _ _ h3
            λ same h4.
              subst (λ q. IsKnown k (current pinned now) role q) (ok_inj h4)
                (v, (differs-eq-false f _ _ same).0, (differs-eq-false f _ _ same).1)

  pub parse_paired_auth-IsKnown :
      (bs : Bytes) (c : PairedIdentityContext) (role : ℕ) (signed : Bool) (p : PeerAuth)
      → parse_paired_auth bs c role signed ≡ ok p
      → IsKnown k (paired c) role p
  unfolding parse_paired_auth
  parse_paired_auth-IsKnown bs c role signed p h = >>=-elim (parse_auth bs) _ h λ f _ h1.
      bail_if-elim (if signed then not (is_some f.signature) else is_some f.signature) _ _ h1
        λ _ h2.
          bail_if-elim
            (differs f (identity_for_role c role).0 (identity_for_role c role).1
              || not (eq_certificate f.certificate (identity_for_role c role).2))
            _ _ h2
            λ bad h3.
              let (a, b) =
                or-eq-false (differs f (identity_for_role c role).0 (identity_for_role c role).1) _
                  bad in
              let (id, key) = differs-eq-false f _ _ a in
              subst (λ q. IsKnown k (paired c) role q) (ok_inj h3)
                (sym id, sym key, eq_certificate→eq _ _ (not-eq-false b))

  pub verify_signature-IsSigned :
      (initiates : Bool) (p : PeerAuth) (t : Bytes)
      → verify_signature k p t (peer_role initiates) ≡ ok tt
      → IsSigned k initiates p t
  unfolding verify_signature
  verify_signature-IsSigned initiates p t h =
      >>=-elim (context p.signature unexpected_signature_state) _ h λ sig _ h1.
        bail_if-elim (not (k.key_ok p.public_key)) _ _ h1 λ good h2. record {
          sig = sig;
          key_good = not-eq-false good;
          verified = not-eq-false (bail_if-passed _ _ h2);
        }

  pub verify_signature_payload-IsSigned :
      (initiates : Bool) (p : PeerAuth) (t bs : Bytes)
      → verify_signature_payload k p t (peer_role initiates) bs ≡ ok tt
      → IsSigned k initiates p t
  unfolding verify_signature_payload
  verify_signature_payload-IsSigned initiates p t bs h =
      bail_if-elim (not (length bs == 64)) _ _ h λ _ h1.
        bail_if-elim (not (k.key_ok p.public_key)) _ _ h1 λ good h2. record {
          sig = bs;
          key_good = not-eq-false good;
          verified = not-eq-false (bail_if-passed _ _ h2);
        }
