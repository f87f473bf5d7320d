-- ===== src/Handshake/Steps.antt =====
-- What the calls on the Noise states keep: rules for `Keeps`.
use omarchy_sync.Handshake.Method.{Keeps}
use omarchy_sync.Handshake.{NoiseXx}
use omarchy_sync.Handshake.Endpoint.{
  Endpoint, moved, on_handshake, on_transport, with_handshake, with_transport,
}
use omarchy_sync.Base.{Bytes, Option, Result, none, some}

module _ (n : NoiseXx) {I : Type 0} (P : Endpoint n I → Type 0) where
  pub with_handshake-Keeps :
      (f : n.State → Option (n.State × Bytes))
      → ((e : Endpoint n I) (h : n.State) → P e → P (record e { handshake = some h }))
      → Keeps P (with_handshake n f)
  with_handshake-Keeps f keep = record { at = λ e p. on e.handshake e p }
    where
      move : (e : Endpoint n I) (o : Option (n.State × Bytes)) → P e → P (moved n e o).0
      move e none p = p
      move e (some (h, bs)) p = keep e h p

      on : (o : Option n.State) (e : Endpoint n I) → P e → P (on_handshake n f o e).0
      on none e p = p
      on (some h) e p = move e (f h) p

  pub with_transport-Keeps :
      {A : Type 0} (f : n.transport.State → n.transport.State × Result A)
      → ((e : Endpoint n I) (t : n.transport.State) → P e → P (record e { transport = some t }))
      → Keeps P (with_transport n f)
  with_transport-Keeps {A} f keep = record { at = λ e p. on e.transport e p }
    where
      on : (o : Option n.transport.State) (e : Endpoint n I) → P e → P (on_transport n f o e).0
      on none e p = p
      on (some t) e p = keep e (f t).0 p
