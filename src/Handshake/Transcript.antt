-- ===== src/Handshake/Transcript.antt =====
-- The transcript that both devices sign, and its digest.
pub mod Injective
use omarchy_sync.Certificate
use omarchy_sync.Handshake.{transcript_magic}
use omarchy_sync.Base.{Bytes, List, Result, [], join, ok, ℕ, ◌>>=◌, ◌>>◌, ◌∷◌}
use omarchy_sync.Identity.{device_id}
use omarchy_sync.Certificate.{DeviceCertificate, max_certificate_bytes, to_bytes}
use omarchy_sync.Crypto.{Crypto}
use omarchy_sync.Session.{role_initiator, role_responder}
use omarchy_sync.Cursor.{put_bytes}
use omarchy_sync.Discovery.{protocol_v3}

-- The pieces of the transcript; the certificates have their lengths in front.
abbrev pub payload : ℕ → Bytes → Bytes → Bytes → Bytes → Bytes → Bytes → Bytes → Bytes → List Bytes
payload mode pair hash i_id r_id i_cert r_cert i_static r_static =
    transcript_magic
    ∷ (protocol_v3 ∷ mode ∷ [])
    ∷ pair
    ∷ hash
    ∷ (role_initiator ∷ role_responder ∷ [])
    ∷ i_id
    ∷ r_id
    ∷ i_cert
    ∷ r_cert
    ∷ i_static
    ∷ r_static
    ∷ []

-- `make_transcript(hash, mode, pair_id, initiator_cert, responder_cert, initiator_static, responder_static)`
unfoldable pub make_transcript :
    Bytes → ℕ → Bytes → DeviceCertificate → DeviceCertificate → Bytes → Bytes → Result Bytes
make_transcript hash mode pair_id i_cert r_cert i_static r_static = do
  i_bytes ← Certificate.to_bytes i_cert
  r_bytes ← Certificate.to_bytes r_cert
  pair ← put_bytes pair_id 32
  noise ← put_bytes hash 32
  i_field ← put_bytes i_bytes max_certificate_bytes
  r_field ← put_bytes r_bytes max_certificate_bytes
  ok (
      join (
        payload mode pair noise i_cert.device_id r_cert.device_id i_field r_field i_static
          r_static))

unfoldable pub digest_transcript : Crypto → Bytes → Bytes
digest_transcript k transcript = k.sha256 transcript
