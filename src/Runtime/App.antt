-- ===== src/Runtime/App.antt =====
-- The messages of the pairing ceremony in runtime_v3.rs, and their length-prefixed wire.
-- JSON is a library's: its two functions are parameters.
use omarchy_sync.Base.{
  Bool, Bytes, Option, Result, [], append_assoc, arith, bail_if, bail_if-elim, codes, context, drop,
  drop-append, eq_bytes, eq_bytes_refl, err, false, frame_too_large, from_be, from_be-to_be,
  if◌then◌else◌, invalid_frame, io_failed, is_empty, length, length-append, length-to_be, le→ltb,
  ltb, ltb→le, not, ok, ok_inj, or-eq-false, parse_failed, refl, some, take, take-append, to_be,
  wire_frame, ℕ, ◌%◌, ◌*◌, ◌++◌, ◌==◌, ◌>>=◌, ◌>>◌, ◌^◌, ◌||◌, ◌∷◌, ◌≡◌, ◌≤◌,
}
use mathlib.Core.Path.{subst}

pub data PairMessage : Type 0 where
  request : PairMessage
  prepared : Bytes → PairMessage
  complete : Bytes → PairMessage
  finalized : PairMessage

pub record MessageSerde : Type 0 where
  pub to_vec : PairMessage → Bytes
  pub from_slice : Bytes → Option PairMessage

pub record MessageSerdeLaws (s : MessageSerde) : Type 0 where
  pub from_slice-to_vec : (m : PairMessage) → s.from_slice (s.to_vec m) ≡ some m

abbrev pub app_magic : Bytes
app_magic = codes "OMARCHY-PAIR-RECORD-V3"

abbrev pub app_frame_limit : ℕ
app_frame_limit = 48 * 1024

abbrev pub max_wire_frame : ℕ
max_wire_frame = 64 * 1024

abbrev pub starts_with : Bytes → Bytes → Bool
starts_with prefix bs = eq_bytes (take (length prefix) bs) prefix

unfoldable pub encode_app : MessageSerde → PairMessage → Result Bytes
encode_app s m = do
  let payload = app_magic ++ s.to_vec m
  bail_if (ltb app_frame_limit (length payload)) frame_too_large
  ok payload

unfoldable pub decode_app : MessageSerde → Bytes → Result PairMessage
decode_app s bs = do
  bail_if (ltb app_frame_limit (length bs) || not (starts_with app_magic bs)) invalid_frame
  context (s.from_slice (drop (length app_magic) bs)) parse_failed

-- `write_wire`: the bytes that the stream takes.
unfoldable pub write_wire : Bytes → Result Bytes
write_wire bs = do
  bail_if (is_empty bs || ltb max_wire_frame (length bs)) wire_frame
  ok (to_be 4 (length bs % 2 ^ 32) ++ bs)

-- `read_exact` of so many bytes: they, and what the stream holds after them.
abbrev pub read_exact : ℕ → Bytes → Result (Bytes × Bytes)
read_exact n stream =
    if ltb (length stream) n then err io_failed else ok (take n stream, drop n stream)

-- `read_wire`: the frame, and what the stream holds after it.
unfoldable pub read_wire : Bytes → Result (Bytes × Bytes)
read_wire stream = do
  word ← read_exact 4 stream
  bail_if (from_be word.0 == 0 || ltb max_wire_frame (from_be word.0)) wire_frame
  read_exact (from_be word.0) word.1

-- If JSON round trips, a message that encodes is decoded to itself.
pub decode_app-encode_app :
    (s : MessageSerde) (l : MessageSerdeLaws s) (m : PairMessage) (bs : Bytes)
    → encode_app s m ≡ ok bs
    → decode_app s bs ≡ ok m
unfolding encode_app decode_app
decode_app-encode_app s l m bs h =
    bail_if-elim (ltb app_frame_limit (length (app_magic ++ s.to_vec m))) _ _ h λ small h1.
      subst (λ x. decode_app s x ≡ ok m) (ok_inj h1)
        (rw
          (
            small,
            take-append app_magic (s.to_vec m),
            drop-append app_magic (s.to_vec m),
            eq_bytes_refl app_magic,
            l.from_slice-to_vec m,
          )
          refl)

read_exact-append : (n : ℕ) (x y : Bytes) → length x ≡ n → read_exact n (x ++ y) ≡ ok (x, y)
read_exact-append n x y e =
    let enough : n ≤ length (x ++ y) = omega (arith, length-append x y) in
    rw (← e) (
      rw (le→ltb (length (x ++ y)) (length x) (omega arith), take-append x y, drop-append x y) refl)

-- Frames that `write_wire` accepts are read back from the stream, and what follows is left in it.
pub read_wire-write_wire :
    (bs out rest : Bytes) → write_wire bs ≡ ok out → read_wire (out ++ rest) ≡ ok (bs, rest)
unfolding write_wire read_wire
read_wire-write_wire bs out rest h =
    bail_if-elim (is_empty bs || ltb max_wire_frame (length bs)) _ _ h λ good h1.
      let (there, short) = or-eq-false (is_empty bs) _ good in
      let n : ℕ = length bs in
      let le : n ≤ max_wire_frame = ltb→le max_wire_frame n short in
      let small : n % 2 ^ 32 ≡ n = omega arith in
      let nonzero : (n == 0) ≡ false = length_ne_zero bs there in
      let value : from_be (to_be 4 n) ≡ n = from_be-to_be 4 n (omega arith) in
      let split : (to_be 4 n ++ bs) ++ rest ≡ to_be 4 n ++ (bs ++ rest) =
        append_assoc (to_be 4 n) bs rest in
      let same : to_be 4 n ++ bs ≡ out = rw small at (ok_inj h1) in
      subst (λ x. read_wire (x ++ rest) ≡ ok (bs, rest)) same
        (rw
          (
            split,
            read_exact-append 4 (to_be 4 n) (bs ++ rest) (length-to_be 4 n),
            value,
            nonzero,
            short,
            read_exact-append n bs rest refl,
          )
          refl)
  where
    length_ne_zero : (xs : Bytes) → is_empty xs ≡ false → (length xs == 0) ≡ false
    length_ne_zero [] e = cc
    length_ne_zero (x ∷ xs) e = ground arith
