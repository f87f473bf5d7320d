-- ===== src/Handshake/Transcript/Injective.antt =====
-- `make_transcript` of pairing.rs, from its bytes back to its arguments.
use omarchy_sync.Certificate
use omarchy_sync.Cursor.{Parser, bytes, lift, pure, put_bytes, run, take, u8, ◌>>=◌}
use omarchy_sync.Certificate.RoundTrip.{from_bytes-to_bytes, length-bad_hex_id, to_bytes-eq-ok}
use omarchy_sync.Certificate.Decode.{from_bytes}
use omarchy_sync.Handshake.Transcript.{make_transcript, payload}
use omarchy_sync.Cursor.Reads.{
  Reads, Reads-bind, Reads-bytes, Reads-lift, Reads-pure, Reads-take, Reads-u8, length-field,
  put_bytes-eq-ok, run-Reads,
}
use omarchy_sync.Handshake.{transcript_magic}
use omarchy_sync.Base.{
  >>=-elim, Bytes, Result, [], ap, arith, join, length, length-join, ok, ok_inj, refl, sym, ℕ, ◌+◌,
  ◌∙◌, ◌∷◌, ◌≡◌, ◌≤◌,
}
use Prim.Native.Nat.{max}
use mathlib.Core.Path.{subst}
use omarchy_sync.Certificate.{DeviceCertificate, IsTyped, max_certificate_bytes, to_bytes}
use omarchy_sync.Session.{role_initiator, role_responder}
use omarchy_sync.Discovery.{protocol_v3}

-- The arguments of `make_transcript`.
pub record Parts : Type 0 where
  pub hash : Bytes
  pub mode : ℕ
  pub pair_id : Bytes
  pub initiator : DeviceCertificate
  pub responder : DeviceCertificate
  pub initiator_static : Bytes
  pub responder_static : Bytes

abbrev pub transcript : Parts → Result Bytes
transcript p =
    make_transcript p.hash p.mode p.pair_id p.initiator p.responder p.initiator_static
      p.responder_static

-- The sizes that the Rust types of the arguments and the checks before give.
pub record IsSized (p : Parts) : Type 0 where
  pub initiator_typed : Certificate.IsTyped p.initiator
  pub responder_typed : Certificate.IsTyped p.responder
  pub initiator_size : length p.initiator_static ≡ 32
  pub responder_size : length p.responder_static ≡ 32

-- A reader of transcripts, which the program has no use for: that it is there is why no two
-- transcripts are the same.
read_parts : Parser Parts
read_parts = do
  _ ← take (length transcript_magic)
  _ ← u8
  mode ← u8
  pair ← bytes 32
  hash ← bytes 32
  _ ← take 2
  _ ← take 32
  _ ← take 32
  i_bytes ← bytes max_certificate_bytes
  i ← lift (from_bytes i_bytes)
  r_bytes ← bytes max_certificate_bytes
  r ← lift (from_bytes r_bytes)
  i_static ← take 32
  r_static ← take 32
  pure (record {
    hash = hash;
    mode = mode;
    pair_id = pair;
    initiator = i;
    responder = r;
    initiator_static = i_static;
    responder_static = r_static;
  })

pub record IsMade (p : Parts) (t : Bytes) : Type 0 where
  pub i_bytes : Bytes
  pub r_bytes : Bytes
  pub i_made : Certificate.to_bytes p.initiator ≡ ok i_bytes
  pub r_made : Certificate.to_bytes p.responder ≡ ok r_bytes
  pub pair : Bytes
  pub noise : Bytes
  pub i_field : Bytes
  pub r_field : Bytes
  pub pair_put : put_bytes p.pair_id 32 ≡ ok pair
  pub noise_put : put_bytes p.hash 32 ≡ ok noise
  pub i_put : put_bytes i_bytes max_certificate_bytes ≡ ok i_field
  pub r_put : put_bytes r_bytes max_certificate_bytes ≡ ok r_field
  pub same :
      join (
        payload p.mode pair noise p.initiator.device_id p.responder.device_id i_field r_field
          p.initiator_static p.responder_static)
      ≡ t

pub transcript-IsMade : (p : Parts) (t : Bytes) → transcript p ≡ ok t → IsMade p t
unfolding make_transcript
transcript-IsMade p t h = >>=-elim (Certificate.to_bytes p.initiator) _ h λ i_bytes w1 h1.
    >>=-elim (Certificate.to_bytes p.responder) _ h1 λ r_bytes w2 h2.
      >>=-elim (put_bytes p.pair_id 32) _ h2 λ pair w3 h3.
        >>=-elim (put_bytes p.hash 32) _ h3 λ noise w4 h4.
          >>=-elim (put_bytes i_bytes max_certificate_bytes) _ h4 λ i_field w5 h5.
            >>=-elim (put_bytes r_bytes max_certificate_bytes) _ h5 λ r_field w6 h6. record {
              i_bytes = i_bytes;
              r_bytes = r_bytes;
              i_made = w1;
              r_made = w2;
              pair = pair;
              noise = noise;
              i_field = i_field;
              r_field = r_field;
              pair_put = w3;
              noise_put = w4;
              i_put = w5;
              r_put = w6;
              same = ok_inj h6;
            }

-- What a part was appended as, and its size.
put-Reads :
    (v enc : Bytes) (max : ℕ) → max ≤ 65535 → put_bytes v max ≡ ok enc → Reads (bytes max) v enc
put-Reads v enc max h e =
    let (there, short, _, same) = put_bytes-eq-ok v max enc e in
    subst (λ x. Reads (bytes max) v x) (sym same) (Reads-bytes v max there short h)

length-put : (v enc : Bytes) (max : ℕ) → put_bytes v max ≡ ok enc → length enc ≤ max + 2
length-put v enc max e =
    let (_, short, _, same) = put_bytes-eq-ok v max enc e in
    omega (arith, ap (λ (x : Bytes). length x) same, length-field v)

pub length-device_id :
    (cert : DeviceCertificate) (bs : Bytes)
    → Certificate.to_bytes cert ≡ ok bs
    → length cert.device_id ≡ 32
length-device_id cert bs h = length-bad_hex_id cert.device_id (to_bytes-eq-ok cert bs h).id_good

module _ (p : Parts) (t : Bytes) (sized : IsSized p) (m : IsMade p t) where
  abbrev encoding : Bytes
  encoding = join (
      payload p.mode m.pair m.noise p.initiator.device_id p.responder.device_id m.i_field m.r_field
        p.initiator_static p.responder_static)

  read_parts-Reads : Reads read_parts p encoding
  unfolding read_parts
  read_parts-Reads =
      Reads-bind (take (length transcript_magic)) _ transcript_magic p transcript_magic _
        (Reads-take transcript_magic _ refl)
        (Reads-bind u8 _ protocol_v3 p (protocol_v3 ∷ []) _ (Reads-u8 protocol_v3) (
          Reads-bind u8 _ p.mode p (p.mode ∷ []) _ (Reads-u8 p.mode) (
            Reads-bind (bytes 32) _ p.pair_id p m.pair _
              (put-Reads p.pair_id m.pair 32 (omega arith) m.pair_put)
              (Reads-bind (bytes 32) _ p.hash p m.noise _
                (put-Reads p.hash m.noise 32 (omega arith) m.noise_put)
                (Reads-bind (take 2) _ (role_initiator ∷ role_responder ∷ []) p
                  (role_initiator ∷ role_responder ∷ []) _ (Reads-take _ 2 refl)
                  (Reads-bind (take 32) _ p.initiator.device_id p p.initiator.device_id _
                    (Reads-take _ 32 (length-device_id p.initiator m.i_bytes m.i_made))
                    (Reads-bind (take 32) _ p.responder.device_id p p.responder.device_id _
                      (Reads-take _ 32 (length-device_id p.responder m.r_bytes m.r_made))
                      (Reads-bind (bytes 512) _ m.i_bytes p m.i_field _
                        (put-Reads m.i_bytes m.i_field 512 (omega arith) m.i_put)
                        (Reads-bind (lift (from_bytes m.i_bytes)) _ p.initiator p [] _
                          (Reads-lift _ _ (
                            from_bytes-to_bytes p.initiator m.i_bytes sized.initiator_typed
                              m.i_made))
                          (Reads-bind (bytes 512) _ m.r_bytes p m.r_field _
                            (put-Reads m.r_bytes m.r_field 512 (omega arith) m.r_put)
                            (Reads-bind (lift (from_bytes m.r_bytes)) _ p.responder p [] _
                              (Reads-lift _ _ (
                                from_bytes-to_bytes p.responder m.r_bytes sized.responder_typed
                                  m.r_made))
                              (Reads-bind (take 32) _ p.initiator_static p p.initiator_static _
                                (Reads-take _ 32 sized.initiator_size)
                                (Reads-bind (take 32) _ p.responder_static p p.responder_static _
                                  (Reads-take _ 32 sized.responder_size) (Reads-pure p))))))))))))))

  length-encoding : length encoding ≤ 2000
  length-encoding = omega (
    arith,
    length-join (
        payload p.mode m.pair m.noise p.initiator.device_id p.responder.device_id m.i_field
          m.r_field p.initiator_static p.responder_static),
    length-put p.pair_id m.pair 32 m.pair_put,
    length-put p.hash m.noise 32 m.noise_put,
    length-put m.i_bytes m.i_field 512 m.i_put,
    length-put m.r_bytes m.r_field 512 m.r_put,
    length-device_id p.initiator m.i_bytes m.i_made,
    length-device_id p.responder m.r_bytes m.r_made,
    sized.initiator_size,
    sized.responder_size,
  )

  read-transcript : run read_parts t ≡ ok p
  read-transcript =
      subst (λ x. run read_parts x ≡ ok p) m.same
        (run-Reads read_parts p encoding (omega (arith, length-encoding)) read_parts-Reads)

-- A transcript says everything that it was made of: of two lists of arguments with well-formed
-- certificates and static keys of 32 bytes, if `make_transcript` gives the same bytes for both, then
-- they agree in the mode, the PairID, the Noise hash, both certificates and both static keys, each
-- in its role.
pub make_transcript-injective :
    (p q : Parts) (t : Bytes)
    → IsSized p
    → IsSized q
    → transcript p ≡ ok t
    → transcript q ≡ ok t
    → p ≡ q
make_transcript-injective p q t hp hq mp mq = ok_inj (
    sym (read-transcript p t hp (transcript-IsMade p t mp))
    ∙ read-transcript q t hq (transcript-IsMade q t mq))
