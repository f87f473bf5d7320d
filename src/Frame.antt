-- ===== src/Frame.antt =====
-- pairing.rs: the frames of the pairing protocol, and the transport of an authenticated session.
-- The Noise state machine is a library's: its `write_message` and `read_message` are parameters.
pub mod Parse
pub mod Decode
pub mod RoundTrip
pub mod Transport
pub mod Limits
use omarchy_sync.Base.{
  Bytes, Result, [], bail_if, codes, frame_too_large, invalid_mode, invalid_pair_id, length, ltb,
  not, ok, to_be, ℕ, ◌%◌, ◌*◌, ◌++◌, ◌+◌, ◌==◌, ◌>>=◌, ◌>>◌, ◌^◌, ◌||◌, ◌∷◌,
}
use Prim.Native.Nat.{max}
use omarchy_sync.Certificate.{bad_hex_id, payload}
use omarchy_sync.Discovery.{protocol_v3}

abbrev pub frame_magic : Bytes
frame_magic = codes "OMARCHY-PAIR-V3"

abbrev pub mode_first_contact : ℕ
mode_first_contact = 1

abbrev pub mode_reconnect : ℕ
mode_reconnect = 2

abbrev pub kind_handshake : ℕ
kind_handshake = 1

abbrev pub kind_transport : ℕ
kind_transport = 3

abbrev pub max_transport_plaintext : ℕ
max_transport_plaintext = 48 * 1024

abbrev pub max_transport_frame : ℕ
max_transport_frame = max_transport_plaintext + 16 + 8

-- What stands before the payload's length.
abbrev pub head : ℕ → ℕ → ℕ → Bytes
head kind role sequence = frame_magic ++ (protocol_v3 ∷ kind ∷ role ∷ sequence ∷ [])

unfoldable pub encode_frame_with_sequence : ℕ → ℕ → ℕ → Bytes → ℕ → Result Bytes
encode_frame_with_sequence kind role sequence payload max = do
  bail_if (ltb 65535 (length payload)) frame_too_large
  let out = head kind role sequence ++ (to_be 2 (length payload % 2 ^ 16) ++ payload)
  bail_if (ltb max (length out)) frame_too_large
  ok out

unfoldable pub encode_frame : ℕ → ℕ → Bytes → ℕ → Result Bytes
unfolding encode_frame_with_sequence
encode_frame kind role payload max = encode_frame_with_sequence kind role 0 payload max

unfoldable pub encode_start_frame : ℕ → ℕ → ℕ → Bytes → Bytes → ℕ → Result Bytes
unfolding encode_frame
encode_start_frame kind role mode pair_id payload max = do
  bail_if (bad_hex_id pair_id) invalid_pair_id
  bail_if (not (mode == mode_first_contact || mode == mode_reconnect)) invalid_mode
  encode_frame kind role (mode ∷ (pair_id ++ payload)) max
