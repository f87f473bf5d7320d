-- ===== src/Handshake/Agreement.antt =====
-- What the two sessions of one pairing agree in, by the digest that both of pairing.rs's sides keep.
use omarchy_sync.Certificate
use omarchy_sync.Certificate.{DeviceCertificate}
use omarchy_sync.Crypto.{Crypto}
use omarchy_sync.Cursor.Reads.{put_bytes-eq-ok}
use omarchy_sync.Cursor.{field, put_bytes}
use omarchy_sync.Handshake.Endpoint.{mode_of}
use omarchy_sync.Handshake.Proof.{IsAuthenticated, Setup}
use omarchy_sync.Handshake.Transcript.Injective.{IsMade, Parts, length-device_id, transcript-IsMade}
use omarchy_sync.Handshake.{transcript_magic}
use omarchy_sync.Session.{AuthenticatedPairingSession, role_initiator, role_responder}
use omarchy_sync.Base.{
  Bytes, false, true, [], ap, append_assoc, append_inj, arith, from_be, from_be-to_be, length,
  length-to_be, ok, refl, sym, to_be, ℕ, ◌++◌, ◌∙◌, ◌∷◌, ◌≡◌, ◌≤◌,
}

-- A field tells where it ends.
field_inj :
    (x y r s : Bytes)
    → length x ≤ 65535
    → length y ≤ 65535
    → field x ++ r ≡ field y ++ s
    → (x ≡ y) × (r ≡ s)
field_inj x y r s hx hy e =
    let (sizes, rest) =
      append_inj (to_be 2 (length x)) (to_be 2 (length y)) (x ++ r) (y ++ s)
        (length-to_be 2 (length x) ∙ sym (length-to_be 2 (length y)))
        (sym (append_assoc (to_be 2 (length x)) x r) ∙ e ∙ append_assoc (to_be 2 (length y)) y s) in
    append_inj x y r s
      (sym (from_be-to_be 2 (length x) (omega arith))
        ∙ ap (λ (b : Bytes). from_be b) sizes
        ∙ from_be-to_be 2 (length y) (omega arith))
      rest

put_inj :
    (x y fx fy r s : Bytes) (max : ℕ)
    → put_bytes x max ≡ ok fx
    → put_bytes y max ≡ ok fy
    → fx ++ r ≡ fy ++ s
    → (x ≡ y) × (r ≡ s)
put_inj x y fx fy r s max px py e =
    let (_, _, hx, ex) = put_bytes-eq-ok x max fx px in
    let (_, _, hy, ey) = put_bytes-eq-ok y max fy py in
    field_inj x y r s hx hy
      (ap (λ (b : Bytes). b ++ r) (sym ex) ∙ e ∙ ap (λ (b : Bytes). b ++ s) ey)

-- Two lists of arguments with one transcript agree in all that stands before the static keys.
made_inj :
    (p q : Parts) (t : Bytes) (m : IsMade p t) (n : IsMade q t)
    → (p.mode ≡ q.mode)
      × (p.pair_id ≡ q.pair_id)
      × (p.initiator.device_id ≡ q.initiator.device_id)
      × (p.responder.device_id ≡ q.responder.device_id)
      × (m.i_bytes ≡ n.i_bytes)
      × (m.r_bytes ≡ n.r_bytes)
made_inj p q t m n =
    let (_, e1) = append_inj transcript_magic transcript_magic _ _ refl (m.same ∙ sym n.same) in
    let (mode, e2) = append_inj (3 ∷ (p.mode ∷ [])) (3 ∷ (q.mode ∷ [])) _ _ refl e1 in
    let (pair, e3) = put_inj p.pair_id q.pair_id m.pair n.pair _ _ 32 m.pair_put n.pair_put e2 in
    let (_, e4) = put_inj p.hash q.hash m.noise n.noise _ _ 32 m.noise_put n.noise_put e3 in
    let roles : Bytes = role_initiator ∷ (role_responder ∷ []) in
    let (_, e5) = append_inj roles roles _ _ refl e4 in
    let (i_id, e6) =
      append_inj p.initiator.device_id q.initiator.device_id _ _
        (length-device_id p.initiator m.i_bytes m.i_made
          ∙ sym (length-device_id q.initiator n.i_bytes n.i_made))
        e5 in
    let (r_id, e7) =
      append_inj p.responder.device_id q.responder.device_id _ _
        (length-device_id p.responder m.r_bytes m.r_made
          ∙ sym (length-device_id q.responder n.r_bytes n.r_made))
        e6 in
    let (i, e8) = put_inj m.i_bytes n.i_bytes m.i_field n.i_field _ _ 512 m.i_put n.i_put e7 in
    let (r, _) = put_inj m.r_bytes n.r_bytes m.r_field n.r_field _ _ 512 m.r_put n.r_put e8 in
    (cc mode, pair, i_id, r_id, i, r)

-- The certificates' encodings, and the arguments as they stand in the transcript of a session.
abbrev parts_of : Setup → Bytes → DeviceCertificate → Bytes → Bytes → Bytes → Parts
parts_of s pair_id cert hash own theirs = record {
  hash = hash;
  mode = mode_of s.validation;
  pair_id = pair_id;
  initiator = s.certificate;
  responder = cert;
  initiator_static = own;
  responder_static = theirs;
}

abbrev parts_for : Setup → Bytes → DeviceCertificate → Bytes → Bytes → Bytes → Parts
parts_for s pair_id cert hash own theirs = record {
  hash = hash;
  mode = mode_of s.validation;
  pair_id = pair_id;
  initiator = cert;
  responder = s.certificate;
  initiator_static = theirs;
  responder_static = own;
}

module _ (k : Crypto) (s u : Setup) (i_pair r_pair : Bytes)
    (ours theirs : AuthenticatedPairingSession) (a : IsAuthenticated k true s i_pair ours)
    (b : IsAuthenticated k false u r_pair theirs) where
  -- An initiator and a responder that each hold an authenticated session with the same binding hold
  -- two ends of one pairing, if the digests of their two transcripts do not collide: they have the
  -- same PairID and the same mode, and the certificate that each takes for the other's is, byte for
  -- byte and with its DeviceID, the one that the other calls its own.
  pub authenticated_sessions_agree :
      (k.sha256 a.transcript ≡ k.sha256 b.transcript → a.transcript ≡ b.transcript)
      → ours.session_binding ≡ theirs.session_binding
      → (ours.pair_id ≡ theirs.pair_id)
        × (mode_of s.validation ≡ mode_of u.validation)
        × (ours.local_certificate.device_id ≡ theirs.peer_certificate.device_id)
        × (ours.peer_certificate.device_id ≡ theirs.local_certificate.device_id)
        × (Certificate.to_bytes ours.local_certificate
            ≡ Certificate.to_bytes theirs.peer_certificate)
        × (Certificate.to_bytes ours.peer_certificate
            ≡ Certificate.to_bytes theirs.local_certificate)
  authenticated_sessions_agree no_collision same =
      let one : a.transcript ≡ b.transcript = no_collision (sym a.binding ∙ same ∙ b.binding) in
      let p =
        parts_of s i_pair a.peer.certificate a.proven.hash a.proven.own_static
          a.proven.peer_static in
      let q =
        parts_for u r_pair b.peer.certificate b.proven.hash b.proven.own_static
          b.proven.peer_static in
      let m = transcript-IsMade p a.transcript a.proven.bound in
      let n = transcript-IsMade q a.transcript (b.proven.bound ∙ ap ok (sym one)) in
      let (mode, pair, i_id, r_id, i, r) = made_inj p q a.transcript m n in
      let own = λ (c : DeviceCertificate). c.device_id in
      let enc = λ (c : DeviceCertificate). Certificate.to_bytes c in
      (
        a.same_pair ∙ pair ∙ sym b.same_pair,
        mode,
        ap own a.local_certificate ∙ i_id ∙ sym (ap own b.peer_certificate),
        ap own a.peer_certificate ∙ r_id ∙ sym (ap own b.local_certificate),
        ap enc a.local_certificate
            ∙ m.i_made
            ∙ ap ok i
            ∙ sym n.i_made
            ∙ sym (ap enc b.peer_certificate),
        ap enc a.peer_certificate
            ∙ m.r_made
            ∙ ap ok r
            ∙ sym n.r_made
            ∙ sym (ap enc b.local_certificate),
      )
