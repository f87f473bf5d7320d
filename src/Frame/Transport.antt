-- ===== src/Frame/Transport.antt =====
-- `encrypt` and `decrypt` of an `AuthenticatedPairingSession` of pairing.rs.
use omarchy_sync.Frame.{encode_frame, kind_transport, max_transport_frame, max_transport_plaintext}
use omarchy_sync.Base.{
  Bytes, Option, Result, decrypt_failed, encrypt_failed, err, if◌then◌else◌, length, ltb, none, not,
  ok, plaintext_too_large, some, unexpected_frame, ℕ, ◌+◌, ◌==◌, ◌||◌, ◌≡◌,
}
use omarchy_sync.Frame.Decode.{decode_frame}
use omarchy_sync.Frame.Parse.{Frame}

-- snow's `TransportState`: messages that change the state, or fail and leave it.
pub record Noise : Type 1 where
  pub State : Type 0
  pub write_message : State → Bytes → Option (State × Bytes)
  pub read_message : State → Bytes → Option (State × Bytes)

-- A message is 16 bytes longer than its plaintext, and a peer in step reads it and stays in step.
pub record NoiseLaws (noise : Noise) : Type 1 where
  pub InStep : noise.State → noise.State → Type 0
  pub length-write_message :
      (st st' : noise.State) (p c : Bytes)
      → noise.write_message st p ≡ some (st', c)
      → length c ≡ length p + 16
  pub read-write :
      (st st' peer : noise.State) (p c : Bytes)
      → InStep st peer
      → noise.write_message st p ≡ some (st', c)
      → (peer' : noise.State) × (noise.read_message peer c ≡ some (peer', p)) × InStep st' peer'

module _ (noise : Noise) where
  abbrev pub framed : ℕ → noise.State → Option (noise.State × Bytes) → noise.State × Result Bytes
  framed role st none = (st, err encrypt_failed)
  framed role st (some (st', c)) = (st', encode_frame kind_transport role c max_transport_frame)

  -- The state after the call, and the frame.
  unfoldable pub encrypt : ℕ → noise.State → Bytes → noise.State × Result Bytes
  encrypt role st plaintext =
      if ltb max_transport_plaintext (length plaintext)
      then (st, err plaintext_too_large)
      else framed role st (noise.write_message st plaintext)

  abbrev pub opened : noise.State → Option (noise.State × Bytes) → noise.State × Result Bytes
  opened st none = (st, err decrypt_failed)
  opened st (some (st', p)) = (st', ok p)

  abbrev pub open_frame : ℕ → noise.State → Result Frame → noise.State × Result Bytes
  open_frame role st (err e) = (st, err e)
  open_frame role st (ok f) =
      if not (f.kind == kind_transport) || f.role == role
      then (st, err unexpected_frame)
      else opened st (noise.read_message st f.payload)

  unfoldable pub decrypt : ℕ → noise.State → Bytes → noise.State × Result Bytes
  decrypt role st bs = open_frame role st (decode_frame bs max_transport_frame)
