-- ===== src/Tests/Channel.antt =====
-- The theorems on frames, the encrypted channel and the wire at concrete inputs.
use omarchy_sync.Frame.Decode as FrameCodec
use omarchy_sync.Runtime.App.{
  MessageSerde, MessageSerdeLaws, PairMessage, app_magic, complete, decode_app,
  decode_app-encode_app, encode_app, finalized, prepared, read_wire, read_wire-write_wire, request,
  write_wire,
}
use omarchy_sync.Frame.{
  encode_frame, encode_frame_with_sequence, head, kind_transport, max_transport_plaintext,
}
use omarchy_sync.Frame.Transport.{Noise, NoiseLaws, decrypt, encrypt}
use omarchy_sync.Base.{
  Bytes, Option, [], ap, arith, codes, length, length-append, none, ok, refl, some, some-injective,
  suc, sym, take, take-append, to_be, zero, zeros, ℕ, ◌++◌, ◌+◌, ◌-◌, ◌∷◌, ◌≡◌, ◌≤◌,
}
use mathlib.Core.Path.{subst}
use omarchy_sync.Cursor.{field}
use omarchy_sync.Frame.Decode.{decode_frame_with_sequence}
use omarchy_sync.Frame.Limits.{decrypt-encrypt, encrypt-limit}
use omarchy_sync.Frame.RoundTrip.{decode_frame-encode_frame}

-- A channel that pads each message with 16 zeros and counts them.
abbrev pub padding : Noise
padding = record {
  State = ℕ;
  write_message = λ n p. some (n + 1, p ++ zeros 16);
  read_message = λ n c. some (n + 1, take (length c - 16) c);
}

unpad : (p : Bytes) → take (length (p ++ zeros 16) - 16) (p ++ zeros 16) ≡ p
unpad p =
    let size : length (p ++ zeros 16) - 16 ≡ length p = omega (arith, length-append p (zeros 16)) in
    subst (λ n. take n (p ++ zeros 16) ≡ p) (sym size) (take-append p (zeros 16))

read_back :
    (peer : ℕ) (p c : Bytes) → p ++ zeros 16 ≡ c → padding.read_message peer c ≡ some (peer + 1, p)
read_back peer p c e =
    subst (λ (x : Bytes). padding.read_message peer x ≡ some (peer + 1, p)) e
      (ap (λ (x : Bytes). padding_result (peer + 1) x) (unpad p))
  where
    padding_result : ℕ → Bytes → Option (ℕ × Bytes)
    padding_result n x = some (n, x)

abbrev padding_laws : NoiseLaws padding
padding_laws = record {
  InStep = λ a b. a ≡ b;
  length-write_message = λ st st' p c h. omega (
    arith,
    length-append p (zeros 16),
    ap (λ (x : Bytes). length x) (ap (λ x. x.1) (some-injective _ _ h)),
  );
  read-write = λ st st' peer p c step h.
      let e : p ++ zeros 16 ≡ c = ap (λ x. x.1) (some-injective _ _ h) in
      let next : st + 1 ≡ st' = ap (λ x. x.0) (some-injective _ _ h) in
      (peer + 1, read_back peer p c e, omega (arith, next, step));
}

abbrev hello : Bytes
hello = codes "hello"

abbrev frame : Bytes
frame = head kind_transport 1 0 ++ field (hello ++ zeros 16)

abbrev first_frame : Bytes
first_frame = head 1 1 0 ++ field hello

encode_frame_test : encode_frame_with_sequence 1 1 0 hello 2048 ≡ ok first_frame
unfolding encode_frame_with_sequence to_be
encode_frame_test = refl

encrypt_test : encrypt padding 1 4 hello ≡ (5, ok frame)
unfolding encrypt encode_frame encode_frame_with_sequence to_be
encrypt_test = refl

decode_frame-encode_frame_example :
    FrameCodec.decode_frame_with_sequence first_frame 2048
    ≡ ok (record { kind = 1; role = 1; sequence = 0; payload = hello })
decode_frame-encode_frame_example =
    decode_frame-encode_frame 1 1 0 hello first_frame 2048 refl refl encode_frame_test

encrypt-limit_example : length hello + 13 ≤ max_transport_plaintext
encrypt-limit_example = encrypt-limit padding padding_laws 1 4 5 hello frame encrypt_test

decrypt-encrypt_example : (peer : ℕ) × (decrypt padding 2 4 frame ≡ (peer, ok hello)) × (5 ≡ peer)
decrypt-encrypt_example =
    decrypt-encrypt padding padding_laws 1 2 4 5 4 hello frame refl refl refl encrypt_test

abbrev to_tag : PairMessage → Bytes
to_tag request = 0 ∷ []
to_tag (prepared bs) = 1 ∷ bs
to_tag (complete bs) = 2 ∷ bs
to_tag finalized = 3 ∷ []

abbrev of_tag : Bytes → Option PairMessage
of_tag (zero ∷ []) = some request
of_tag (suc zero ∷ bs) = some (prepared bs)
of_tag (suc (suc zero) ∷ bs) = some (complete bs)
of_tag (suc (suc (suc zero)) ∷ []) = some finalized
of_tag _ = none

-- Messages as numbers: the payload after its tag.
abbrev tags : MessageSerde
tags = record { to_vec = to_tag; from_slice = of_tag }

tags-MessageSerdeLaws : MessageSerdeLaws tags
tags-MessageSerdeLaws = record { from_slice-to_vec = back }
  where
    back : (m : PairMessage) → of_tag (to_tag m) ≡ some m
    back request = refl
    back (prepared bs) = refl
    back (complete bs) = refl
    back finalized = refl

encode_app_test : encode_app tags (prepared hello) ≡ ok (app_magic ++ (1 ∷ hello))
unfolding encode_app
encode_app_test = refl

decode_app-encode_app_example : decode_app tags (app_magic ++ (1 ∷ hello)) ≡ ok (prepared hello)
decode_app-encode_app_example =
    decode_app-encode_app tags tags-MessageSerdeLaws (prepared hello) (app_magic ++ (1 ∷ hello))
      encode_app_test

write_wire_test : write_wire hello ≡ ok (0 ∷ 0 ∷ 0 ∷ 5 ∷ hello)
unfolding write_wire to_be
write_wire_test = refl

read_wire-write_wire_example :
    read_wire ((0 ∷ 0 ∷ 0 ∷ 5 ∷ hello) ++ (1 ∷ 2 ∷ [])) ≡ ok (hello, 1 ∷ 2 ∷ [])
read_wire-write_wire_example =
    read_wire-write_wire hello (0 ∷ 0 ∷ 0 ∷ 5 ∷ hello) (1 ∷ 2 ∷ []) write_wire_test
