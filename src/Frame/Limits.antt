-- ===== src/Frame/Limits.antt =====
-- How the limits of `encrypt` of pairing.rs fit together, and what the peer's `decrypt` returns.
use omarchy_sync.Frame.{
  encode_frame, encode_frame_with_sequence, head, kind_transport, max_transport_frame,
  max_transport_plaintext,
}
use omarchy_sync.Base.{
  Bool-cases, Bytes, Option, [], ap, arith, false, inl, inr, is_empty, length, length-append, ltb,
  none, ok, refl, some, true, ℕ, ◌+◌, ◌==◌, ◌||◌, ◌∙◌, ◌∷◌, ◌≡◌, ◌≤◌,
}
use omarchy_sync.Session.{role_initiator, role_responder}
use omarchy_sync.Cursor.{field}
use omarchy_sync.Cursor.Reads.{length-field}
use omarchy_sync.Frame.Decode.{decode_frame}
use omarchy_sync.Frame.Transport.{Noise, NoiseLaws, decrypt, encrypt, framed}
use omarchy_sync.Frame.RoundTrip.{decode_frame-encode_frame, encode_frame-eq-ok}

module _ (noise : Noise) (l : NoiseLaws noise) where
  -- A frame that `encrypt` built holds a message that the state wrote.
  encrypt-eq-ok :
      (role : ℕ) (st st' : noise.State) (p bs : Bytes)
      → encrypt noise role st p ≡ (st', ok bs)
      → (c : Bytes) × (noise.write_message st p ≡ some (st', c))
        × (encode_frame_with_sequence kind_transport role 0 c max_transport_frame ≡ ok bs)
  unfolding encrypt encode_frame
  encrypt-eq-ok role st st' p bs h = elim (Bool-cases (ltb max_transport_plaintext (length p))) [
    | inl long ↦ cc (rw long at h)
    | inr short ↦ written (noise.write_message st p) refl (rw short at h)
  ]
    where
      written :
          (o : Option (noise.State × Bytes))
          → noise.write_message st p ≡ o
          → framed noise role st o ≡ (st', ok bs)
          → (c : Bytes) × (noise.write_message st p ≡ some (st', c))
            × (encode_frame_with_sequence kind_transport role 0 c max_transport_frame ≡ ok bs)
      written none e h = cc
      written (some (st2, c)) e h =
          (c, e ∙ ap (λ s. some (s, c)) (ap (λ x. x.0) h), ap (λ x. x.1) h)

  -- If the library's messages are 16 bytes longer than their plaintexts and `encrypt` succeeds, the
  -- plaintext has at most 49139 bytes, 13 less than the limit that `encrypt` checks.
  pub encrypt-limit :
      (role : ℕ) (st st' : noise.State) (p bs : Bytes)
      → encrypt noise role st p ≡ (st', ok bs)
      → length p + 13 ≤ max_transport_plaintext
  encrypt-limit role st st' p bs h =
      let (c, w, e) = encrypt-eq-ok role st st' p bs h in
      let (_, fits, same) = encode_frame-eq-ok kind_transport role 0 c bs max_transport_frame e in
      omega (
        arith,
        l.length-write_message st st' p c w,
        ap (λ (x : Bytes). length x) same,
        length-append (head kind_transport role 0) (field c),
        length-field c,
      )

  -- If the states of two devices are in step and the roles differ, a frame that one's `encrypt`
  -- returned makes the other's `decrypt` return the plaintext, and the states are in step after it.
  pub decrypt-encrypt :
      (role other : ℕ) (st st' peer : noise.State) (p bs : Bytes)
      → (role == role_initiator || role == role_responder) ≡ true
      → (role == other) ≡ false
      → l.InStep st peer
      → encrypt noise role st p ≡ (st', ok bs)
      → (peer' : noise.State) × (decrypt noise other peer bs ≡ (peer', ok p)) × l.InStep st' peer'
  unfolding decrypt decode_frame
  decrypt-encrypt role other st st' peer p bs known differ step h =
      let (c, w, e) = encrypt-eq-ok role st st' p bs h in
      let (peer', r, step') = l.read-write st st' peer p c step w in
      let there : is_empty c ≡ false =
        is_empty-long c (omega (arith, l.length-write_message st st' p c w)) in
      let decoded =
        decode_frame-encode_frame kind_transport role 0 c bs max_transport_frame there known e in
      (peer', rw (decoded, differ, r) refl, step')
    where
      is_empty-long : (c : Bytes) → 1 ≤ length c → is_empty c ≡ false
      is_empty-long [] h = absurd (omega arith)
      is_empty-long (x ∷ c) h = refl
