-- ===== src/Frame/Decode.antt =====
-- `decode_frame` and its variants of pairing.rs.
use omarchy_sync.Frame.{kind_handshake}
use omarchy_sync.Base.{
  Bytes, Result, bail_if, drop, frame_too_large, invalid_pair_id, invalid_role, is_utf8, length,
  ltb, not, not_utf8, ok, take, truncated_start, unexpected_frame, unexpected_sequence, ℕ, ◌==◌,
  ◌>>=◌, ◌>>◌, ◌||◌,
}
use Prim.Native.Nat.{max}
use omarchy_sync.Certificate.{bad_hex_id}
use omarchy_sync.Session.{role_initiator, role_responder}
use omarchy_sync.Cursor.{first, run}
use omarchy_sync.Frame.Parse.{Frame, parse_frame}

unfoldable pub decode_frame_with_sequence : Bytes → ℕ → Result Frame
decode_frame_with_sequence bs max = do
  bail_if (ltb max (length bs)) frame_too_large
  f ← run parse_frame bs
  bail_if (not (f.role == role_initiator || f.role == role_responder)) invalid_role
  ok f

unfoldable pub decode_frame : Bytes → ℕ → Result Frame
unfolding decode_frame_with_sequence
decode_frame bs max = do
  f ← decode_frame_with_sequence bs max
  bail_if (not (f.sequence == 0)) unexpected_sequence
  ok f

-- The mode, the PairID and the handshake message of a start frame.
unfoldable pub decode_start_frame : Bytes → ℕ → Result (ℕ × Bytes × Bytes)
unfolding decode_frame
decode_start_frame bs max = do
  f ← decode_frame bs max
  bail_if (not (f.kind == kind_handshake) || not (f.role == role_initiator)) unexpected_frame
  bail_if (ltb (length f.payload) 33) truncated_start
  let pair_id = take 32 (drop 1 f.payload)
  bail_if (not (is_utf8 pair_id)) not_utf8
  bail_if (bad_hex_id pair_id) invalid_pair_id
  ok (first f.payload, pair_id, drop 33 f.payload)
