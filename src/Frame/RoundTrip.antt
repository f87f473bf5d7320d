-- ===== src/Frame/RoundTrip.antt =====
-- Frames that pairing.rs writes are read back.
use omarchy_sync.Cursor.{bytes, field, run, take, u8}
use omarchy_sync.Frame.Parse.{Frame, parse_frame}
use omarchy_sync.Frame.{encode_frame_with_sequence, frame_magic, head}
use omarchy_sync.Base.{
  Bytes, [], arith, bail_if-elim, eq_bytes_refl, false, is_empty, length, length-append, le→ltb,
  ltb, ltb→le, ok, ok_inj, refl, sym, to_be, true, ℕ, ◌%◌, ◌++◌, ◌<◌, ◌==◌, ◌^◌, ◌||◌, ◌∷◌, ◌≡◌,
  ◌≤◌,
}
use Prim.Native.Nat.{max}
use mathlib.Core.Path.{subst}
use omarchy_sync.Session.{role_initiator, role_responder}
use omarchy_sync.Discovery.{protocol_v3}
use omarchy_sync.Cursor.Reads.{
  Reads, Reads-bind, Reads-bytes, Reads-check, Reads-last, Reads-take, Reads-u8, length-field,
  run-Reads,
}
use omarchy_sync.Frame.Decode.{decode_frame_with_sequence}

parse_frame-Reads :
    (k r n : ℕ) (p : Bytes)
    → is_empty p ≡ false
    → length p ≤ 65535
    → Reads parse_frame
        (record { kind = k; role = r; sequence = n; payload = p })
        (head k r n ++ field p)
unfolding parse_frame
parse_frame-Reads k r n p ne le =
    let w : Frame = record { kind = k; role = r; sequence = n; payload = p } in
    Reads-bind (take (length frame_magic)) _ frame_magic w frame_magic
      ((protocol_v3 ∷ k ∷ r ∷ n ∷ []) ++ field p) (Reads-take frame_magic _ refl)
      (Reads-check _ _ _ _ (rw (eq_bytes_refl frame_magic)) (
        Reads-bind u8 _ protocol_v3 w (protocol_v3 ∷ []) _ (Reads-u8 protocol_v3) (
          Reads-check _ _ _ _ refl (
            Reads-bind u8 _ k w (k ∷ []) _ (Reads-u8 k) (
              Reads-bind u8 _ r w (r ∷ []) _ (Reads-u8 r) (
                Reads-bind u8 _ n w (n ∷ []) (field p) (Reads-u8 n) (
                  Reads-last (bytes 65535) _ p (field p)
                    (Reads-bytes p 65535 ne le (omega arith)))))))))

-- What `encode_frame_with_sequence` returned, if it did.
pub encode_frame-eq-ok :
    (k r n : ℕ) (p bs : Bytes) (max : ℕ)
    → encode_frame_with_sequence k r n p max ≡ ok bs
    → (length p ≤ 65535) × (length bs ≤ max) × (bs ≡ head k r n ++ field p)
unfolding encode_frame_with_sequence
encode_frame-eq-ok k r n p bs max h = bail_if-elim (ltb 65535 (length p)) _ _ h λ a h1.
    let le : length p ≤ 65535 = ltb→le 65535 (length p) a in
    let small : length p % 2 ^ 16 ≡ length p = omega arith in
    bail_if-elim (ltb max (length (head k r n ++ (to_be 2 (length p % 2 ^ 16) ++ p)))) _ _ h1
      λ b h2.
        let same : head k r n ++ (to_be 2 (length p % 2 ^ 16) ++ p) ≡ bs = ok_inj h2 in
        (le, subst (λ x. length x ≤ max) same (ltb→le max _ b), sym (rw small at same))

-- A frame with a payload and a known role, if it encodes within 2^64 bytes, decodes to its parts.
pub decode_frame-encode_frame :
    (k r n : ℕ) (p bs : Bytes) (max : ℕ)
    → is_empty p ≡ false
    → (r == role_initiator || r == role_responder) ≡ true
    → encode_frame_with_sequence k r n p max ≡ ok bs
    → decode_frame_with_sequence bs max
      ≡ ok (record { kind = k; role = r; sequence = n; payload = p })
unfolding decode_frame_with_sequence
decode_frame-encode_frame k r n p bs max ne known h =
    let (le, fits, same) = encode_frame-eq-ok k r n p bs max h in
    let short : length (head k r n ++ field p) < 2 ^ 64 =
      omega (arith, length-field p, length-append (head k r n) (field p)) in
    let parsed : run parse_frame bs
        ≡ ok (record { kind = k; role = r; sequence = n; payload = p }) =
      rw same
        (run-Reads parse_frame _ (head k r n ++ field p) short (parse_frame-Reads k r n p ne le)) in
    rw (le→ltb max (length bs) fits, parsed, known)
