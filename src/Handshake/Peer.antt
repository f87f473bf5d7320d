-- ===== src/Handshake/Peer.antt =====
-- What a device checks of the other one: `parse_auth_hello`, `parse_auth_proof`, `parse_paired_auth`,
-- and the signature over the transcript.
pub mod Honest
use omarchy_sync.Certificate.Verify as CertificateCheck
use omarchy_sync.Handshake.Parse.{AuthFields, parse_fields}
use omarchy_sync.Handshake.{PeerAuth}
use omarchy_sync.Base.{
  Bool, Bytes, Result, bail_if, context, eq_bytes, if◌then◌else◌, invalid_key, invalid_signature,
  length, none, not, ok, peer_key_mismatch, reconnect_differs, unexpected_signature_state, ℕ, ◌==◌,
  ◌>>=◌, ◌>>◌, ◌||◌,
}
use omarchy_sync.Identity.{device_id, public_key}
use omarchy_sync.Crypto.{Crypto}
use omarchy_sync.Session.{PairedIdentityContext, eq_certificate, identity_for_role}
use omarchy_sync.Record.{is_some}
use omarchy_sync.Cursor.{run}
use omarchy_sync.Root.{PinnedOmarchyRoot}
use omarchy_sync.Certificate.Verify.{verify}
use omarchy_sync.Handshake.Hello.{signed_message}
use omarchy_sync.Handshake.Transcript.Injective.{transcript}

unfoldable pub parse_auth : Bytes → Result AuthFields
parse_auth bs = run parse_fields bs

abbrev pub differs : AuthFields → Bytes → Bytes → Bool
differs f id key = not (eq_bytes id f.device_id) || not (eq_bytes key f.public_key)

abbrev pub peer_of : AuthFields → PeerAuth
peer_of f = record {
  device_id = f.device_id;
  public_key = f.public_key;
  certificate = f.certificate;
  signature = f.signature;
}

module _ (k : Crypto) where
  unfoldable pub parse_auth_hello : Bytes → PinnedOmarchyRoot → ℕ → Result PeerAuth
  unfolding parse_auth
  parse_auth_hello bs root now = do
    f ← parse_auth bs
    bail_if (is_some f.signature) unexpected_signature_state
    CertificateCheck.verify k f.certificate root now
    bail_if (differs f f.certificate.device_id f.certificate.public_key) peer_key_mismatch
    ok (record (peer_of f) { signature = none })

  unfoldable pub parse_auth_proof : Bytes → PinnedOmarchyRoot → ℕ → Result PeerAuth
  unfolding parse_auth
  parse_auth_proof bs root now = do
    f ← parse_auth bs
    bail_if (not (is_some f.signature)) unexpected_signature_state
    CertificateCheck.verify k f.certificate root now
    bail_if (differs f f.certificate.device_id f.certificate.public_key) peer_key_mismatch
    ok (peer_of f)

  -- `key.verify_strict` under the peer's key, once it is a key.
  abbrev verify_under : Bytes → Bytes → Bytes → Result (Unit {0})
  verify_under key message sig = do
    bail_if (not (k.key_ok key)) invalid_key
    bail_if (not (k.verify_strict key message sig)) invalid_signature

  unfoldable pub verify_signature : PeerAuth → Bytes → ℕ → Result (Unit {0})
  verify_signature peer transcript role = do
    sig ← context peer.signature unexpected_signature_state
    verify_under peer.public_key (signed_message transcript role) sig

  unfoldable pub verify_signature_payload : PeerAuth → Bytes → ℕ → Bytes → Result (Unit {0})
  verify_signature_payload peer transcript role bs = do
    bail_if (not (length bs == 64)) invalid_signature
    verify_under peer.public_key (signed_message transcript role) bs

-- The peer of an earlier pairing, as its context pins it.
unfoldable pub parse_paired_auth : Bytes → PairedIdentityContext → ℕ → Bool → Result PeerAuth
unfolding parse_auth
parse_paired_auth bs pinned role require_signature = do
  f ← parse_auth bs
  bail_if (if require_signature then not (is_some f.signature) else is_some f.signature)
      unexpected_signature_state
  let (id, key, cert) = identity_for_role pinned role
  bail_if (differs f id key || not (eq_certificate f.certificate cert)) reconnect_differs
  ok (peer_of f)
