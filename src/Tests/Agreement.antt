-- ===== src/Tests/Agreement.antt =====
-- The sessions of the two devices that meet, and what they agree in.
use omarchy_sync.Tests.Devices.{certificate, id_of}
use omarchy_sync.Tests.Toy.{digest, toy}
use omarchy_sync.Tests.Meeting.{agreed, agreed_test, alice, bob, session_between}
use omarchy_sync.Tests.Decodes.{certificate_test, peer_certificate_test}
use omarchy_sync.Certificate
use omarchy_sync.Handshake.{PeerAuth, signature_magic}
use omarchy_sync.Handshake.Agreement.{authenticated_sessions_agree}
use omarchy_sync.Handshake.Endpoint.{mode_of}
use omarchy_sync.Handshake.Proof.{IsAuthenticated, setup_of}
use omarchy_sync.Base.{
  Bytes, [], ap, arith, eq_bytes_refl, false, none, refl, true, zeros, ℕ, ◌++◌, ◌∷◌, ◌≡◌, ◌≢◌,
}

abbrev peer_number : ℕ → PeerAuth
peer_number n = record {
  device_id = id_of n;
  public_key = digest 32 (n ∷ []);
  certificate = certificate n;
  signature = none;
}

second : Bytes → ℕ
second (a ∷ b ∷ bs) = b
second _ = 0

two-ne-one : id_of 2 ≢ id_of 1
unfolding second
two-ne-one e = absurd (omega (arith, ap (λ (x : Bytes). second x) e))

one-ne-two : id_of 1 ≢ id_of 2
unfolding second
one-ne-two e = absurd (omega (arith, ap (λ (x : Bytes). second x) e))

abbrev session_of_alice : IsAuthenticated toy true (setup_of alice) (id_of 7) (session_between 1)
session_of_alice = record {
  peer = peer_number 2;
  transcript = agreed;
  proven = record {
    known = (peer_certificate_test, refl, refl);
    expected = refl;
    other = two-ne-one;
    hash = digest 32 (3 ∷ []);
    own_static = zeros 32;
    peer_static = zeros 32;
    bound = agreed_test;
  };
  signed = record {
    sig = digest 64 (digest 32 (2 ∷ []) ++ (signature_magic ++ (agreed ++ (2 ∷ []))));
    key_good = refl;
    verified =
        eq_bytes_refl (digest 64 (digest 32 (2 ∷ []) ++ (signature_magic ++ (agreed ++ (2 ∷ [])))));
  };
  same_pair = refl;
  local_id = refl;
  local_certificate = refl;
  peer_id = refl;
  peer_certificate = refl;
  peer_key = refl;
  binding = refl;
}

abbrev session_of_bob : IsAuthenticated toy false (setup_of bob) (id_of 7) (session_between 2)
session_of_bob = record {
  peer = peer_number 1;
  transcript = agreed;
  proven = record {
    known = (certificate_test, refl, refl);
    expected = refl;
    other = one-ne-two;
    hash = digest 32 (3 ∷ []);
    own_static = zeros 32;
    peer_static = zeros 32;
    bound = agreed_test;
  };
  signed = record {
    sig = digest 64 (digest 32 (1 ∷ []) ++ (signature_magic ++ (agreed ++ (1 ∷ []))));
    key_good = refl;
    verified =
        eq_bytes_refl (digest 64 (digest 32 (1 ∷ []) ++ (signature_magic ++ (agreed ++ (1 ∷ [])))));
  };
  same_pair = refl;
  local_id = refl;
  local_certificate = refl;
  peer_id = refl;
  peer_certificate = refl;
  peer_key = refl;
  binding = refl;
}

authenticated_sessions_agree_example :
    ((session_between 1).pair_id ≡ (session_between 2).pair_id)
    × (mode_of (setup_of alice).validation ≡ mode_of (setup_of bob).validation)
    × ((session_between 1).local_certificate.device_id
        ≡ (session_between 2).peer_certificate.device_id)
    × ((session_between 1).peer_certificate.device_id
        ≡ (session_between 2).local_certificate.device_id)
    × (Certificate.to_bytes (session_between 1).local_certificate
        ≡ Certificate.to_bytes (session_between 2).peer_certificate)
    × (Certificate.to_bytes (session_between 1).peer_certificate
        ≡ Certificate.to_bytes (session_between 2).local_certificate)
authenticated_sessions_agree_example =
    authenticated_sessions_agree toy (setup_of alice) (setup_of bob) (id_of 7) (id_of 7)
      (session_between 1) (session_between 2) session_of_alice session_of_bob (λ e. refl) refl
