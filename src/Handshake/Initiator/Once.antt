-- ===== src/Handshake/Initiator/Once.antt =====
-- A `PairingInitiator` of pairing.rs hands out one session, and is of no use after it.
use omarchy_sync.Handshake.Method.{
  Keeps, Keeps-asks, Keeps-bind, Keeps-lift, Keeps-modify, Method, and_then, asks-elim, bind-elim,
  modify, ◌>>=◌, ◌>>◌,
}
use omarchy_sync.Handshake.{HandshakeInfo, NoiseXx, PeerAuth, ack_magic}
use omarchy_sync.Handshake.Endpoint.{
  moved, on_handshake, on_transport, with_handshake, with_transport,
}
use omarchy_sync.Handshake.Initiator.{
  PairingInitiator, completed, fresh, receive_responder_ack, receive_responder_auth,
  receive_responder_handshake, start,
}
use omarchy_sync.Handshake.Steps.{with_transport-Keeps}
use omarchy_sync.Handshake.Initiator.Safe.{
  Call, apply, apply_all, hears_ack, hears_auth, hears_handshake, starts,
}
use omarchy_sync.Base.{
  Bool, Bytes, List, Option, Result, [], ap, bad_acknowledgement, bail_if, context, eq_bytes, err,
  false, inl, inr, is_ok, missing_state, none, not, ok, refl, some, sym, ◌∙◌, ◌∷◌, ◌≡◌, ◌⊎◌,
}
use mathlib.Core.Path.{subst}
use omarchy_sync.Crypto.{Crypto}
use omarchy_sync.Session.{AuthenticatedPairingSession, role_responder}
use omarchy_sync.Runtime.Coordinator.{enter, leave}
use omarchy_sync.Handshake.Checks.{decrypt_auth}
use omarchy_sync.Handshake.Proof.{context-eq-ok}

-- `m` fails wherever `P` holds, and keeps it.
record Refuses {S A : Type 0} (P : S → Type 0) (m : Method S A) : Type 0 where
  pub fails : (s : S) → P s → is_ok (m s).1 ≡ false
  pub keeps : Keeps P m

module _ {S : Type 0} {P : S → Type 0} where
  Refuses-now :
      {A B : Type 0} (m : Method S A) (f : A → Method S B) → Refuses P m → Refuses P (m >>= f)
  Refuses-now {A} {B} m f r = record {
    fails = λ s p. go (m s) (r.fails s p);
    keeps = record { at = λ s p. kept (m s) (r.fails s p) (r.keeps.at s p) };
  }
    where
      go : (x : S × Result A) → is_ok x.1 ≡ false → is_ok (and_then x f).1 ≡ false
      go (s, ok a) h = cc
      go (s, err e) h = refl

      kept : (x : S × Result A) → is_ok x.1 ≡ false → P x.0 → P (and_then x f).0
      kept (s, ok a) h p = cc
      kept (s, err e) h p = p

  Refuses-later :
      {A B : Type 0} (m : Method S A) (f : A → Method S B)
      → Keeps P m
      → ((a : A) → Refuses P (f a))
      → Refuses P (m >>= f)
  Refuses-later {A} {B} m f k r = record {
    fails = λ s p. go (m s) (k.at s p);
    keeps = Keeps-bind m f k (λ a. (r a).keeps);
  }
    where
      go : (x : S × Result A) → P x.0 → is_ok (and_then x f).1 ≡ false
      go (s, ok a) p = (r a).fails s p
      go (s, err e) p = refl

  -- A step after which `Q` holds, on which the rest of the block may rely.
  Keeps-enter :
      {A : Type 0} (Q : S → Type 0) (f : S → S) (m : Method S A)
      → ((s : S) → P s → Q (f s))
      → Keeps Q m
      → ((s : S) → Q s → P s)
      → Keeps P (modify f >> m)
  Keeps-enter Q f m enter k leave = record { at = λ s p. leave _ (k.at (f s) (enter s p)) }

module _ (k : Crypto) (n : NoiseXx) where
  -- Whether a call succeeds.
  unfoldable pub succeeds : Call → PairingInitiator k n → Bool
  succeeds starts i = is_ok (start k n i).1
  succeeds (hears_handshake frame) i = is_ok (receive_responder_handshake k n frame i).1
  succeeds (hears_auth frame) i = is_ok (receive_responder_auth k n frame i).1
  succeeds (hears_ack frame) i = is_ok (receive_responder_ack k n frame i).1

  abbrev Done : PairingInitiator k n → Type 0
  Done i = i.handshake ≡ none

  abbrev Spent : PairingInitiator k n → Type 0
  Spent i = (i.handshake ≡ none) × (i.transport ≡ none)

  -- The Noise handshake and the transport are never there at once.
  abbrev Quiet : PairingInitiator k n → Type 0
  Quiet i = (i.handshake ≡ none) ⊎ (i.transport ≡ none)

  Spent-handshake : (f : n.State → Option (n.State × Bytes)) → Refuses Spent (with_handshake n f)
  Spent-handshake f = record {
    fails = λ i p. ap (λ o. is_ok (on_handshake n f o i).1) p.0;
    keeps = record { at = λ i p. subst (λ o. Spent (on_handshake n f o i).0) (sym p.0) p };
  }

  Spent-transport :
      {A : Type 0} (f : n.transport.State → n.transport.State × Result A)
      → Refuses Spent (with_transport n f)
  Spent-transport {A} f = record {
    fails = λ i p. ap (λ o. is_ok (on_transport n {A = A} f o i).1) p.1;
    keeps = record { at = λ i p. subst (λ o. Spent (on_transport n {A = A} f o i).0) (sym p.1) p };
  }

  Spent-start : Refuses Spent (start k n)
  unfolding start
  Spent-start = search (Refuses-now, Spent-handshake) depth 5

  Spent-hears_handshake : (frame : Bytes) → Refuses Spent (receive_responder_handshake k n frame)
  unfolding receive_responder_handshake
  Spent-hears_handshake frame =
      search (Refuses-now, Spent-handshake, Refuses-later, Keeps-lift) depth 10

  Spent-hears_auth : (frame : Bytes) → Refuses Spent (receive_responder_auth k n frame)
  unfolding receive_responder_auth
  Spent-hears_auth frame = search (Refuses-now, Spent-transport, Refuses-later, Keeps-asks) depth 10

  Spent-hears_ack : (frame : Bytes) → Refuses Spent (receive_responder_ack k n frame)
  unfolding receive_responder_ack
  Spent-hears_ack frame = search (Refuses-now, Spent-transport) depth 5

  Spent-refused : (c : Call) (i : PairingInitiator k n) → Spent i → succeeds c i ≡ false
  unfolding succeeds
  Spent-refused starts = Spent-start.fails
  Spent-refused (hears_handshake frame) = (Spent-hears_handshake frame).fails
  Spent-refused (hears_auth frame) = (Spent-hears_auth frame).fails
  Spent-refused (hears_ack frame) = (Spent-hears_ack frame).fails

  Spent-apply : (c : Call) (i : PairingInitiator k n) → Spent i → Spent (apply k n c i)
  unfolding apply
  Spent-apply starts = Spent-start.keeps.at
  Spent-apply (hears_handshake frame) = (Spent-hears_handshake frame).keeps.at
  Spent-apply (hears_auth frame) = (Spent-hears_auth frame).keeps.at
  Spent-apply (hears_ack frame) = (Spent-hears_ack frame).keeps.at

  -- Before the handshake ends there is no transport, and after it no handshake.
  Quiet-handshake : (f : n.State → Option (n.State × Bytes)) → Keeps Quiet (with_handshake n f)
  Quiet-handshake f = record { at = λ i p. on i.handshake i refl p }
    where
      move :
          (i : PairingInitiator k n) (o : Option (n.State × Bytes))
          → i.transport ≡ none
          → Quiet (moved n i o).0
      move i none t = inr t
      move i (some (h, bs)) t = inr t

      on :
          (o : Option n.State) (i : PairingInitiator k n)
          → i.handshake ≡ o
          → Quiet i
          → Quiet (on_handshake n f o i).0
      on none i e p = p
      on (some h) i e (inl d) = cc (e, d)
      on (some h) i e (inr t) = move i (f h) t

  Quiet-transport :
      {A : Type 0} (f : n.transport.State → n.transport.State × Result A)
      → Keeps Quiet (with_transport n f)
  Quiet-transport {A} f = record { at = λ i p. on i.transport i refl p }
    where
      on :
          (o : Option n.transport.State) (i : PairingInitiator k n)
          → i.transport ≡ o
          → Quiet i
          → Quiet (on_transport n {A = A} f o i).0
      on none i e p = p
      on (some t) i e (inl d) = inl d
      on (some t) i e (inr d) = cc (e, d)

  Done-transport :
      {A : Type 0} (f : n.transport.State → n.transport.State × Result A)
      → Keeps Done (with_transport n f)
  Done-transport f = with_transport-Keeps n Done f (λ i t p. p)

  Done-completed : (x : n.transport.State × HandshakeInfo) → Keeps Done (modify (completed k n x))
  Done-completed x = Keeps-modify _ (λ i p. p)

  Quiet-enter :
      {A : Type 0} (m : Method (PairingInitiator k n) A)
      → Keeps Done m
      → Keeps Quiet (modify (λ (i : PairingInitiator k n). record i { handshake = none }) >> m)
  Quiet-enter m h = Keeps-enter Done _ m (λ i p. refl) h (λ i p. inl p)

  Quiet-modify :
      (f : PairingInitiator k n → PairingInitiator k n)
      → ((i : PairingInitiator k n)
          → ((f i).handshake ≡ i.handshake) × ((f i).transport ≡ i.transport))
      → Keeps Quiet (modify f)
  Quiet-modify f same =
      Keeps-modify f (λ i p. elim p [ inl d ↦ inl ((same i).0 ∙ d) | inr d ↦ inr ((same i).1 ∙ d) ])

  Quiet-accepted :
      (p : PeerAuth) (t : Bytes)
      → Keeps Quiet
          (modify (λ (i : PairingInitiator k n). record i { transcript = some t; peer = some p }))
  Quiet-accepted p t = Quiet-modify _ (λ i. (refl, refl))

  Quiet-no_peer : Keeps Quiet (modify (λ (i : PairingInitiator k n). record i { peer = none }))
  Quiet-no_peer = Quiet-modify _ (λ i. (refl, refl))

  Quiet-spent : Keeps Quiet (modify (λ (i : PairingInitiator k n). record i { transport = none }))
  Quiet-spent = Keeps-modify _ (λ i p. inr refl)

  Quiet-start : Keeps Quiet (start k n)
  unfolding start
  Quiet-start = search (Keeps-bind, Keeps-asks, Quiet-handshake) depth 20

  Quiet-hears_handshake : (frame : Bytes) → Keeps Quiet (receive_responder_handshake k n frame)
  unfolding receive_responder_handshake
  Quiet-hears_handshake frame =
      search
        (
          Keeps-lift, Keeps-asks, Quiet-handshake, Quiet-enter, Done-transport, Done-completed,
          Keeps-bind,
        )
        depth 40

  Quiet-hears_auth : (frame : Bytes) → Keeps Quiet (receive_responder_auth k n frame)
  unfolding receive_responder_auth
  Quiet-hears_auth frame =
      search (Keeps-lift, Keeps-asks, Keeps-bind, Quiet-transport, Quiet-accepted) depth 40

  Quiet-hears_ack : (frame : Bytes) → Keeps Quiet (receive_responder_ack k n frame)
  unfolding receive_responder_ack
  Quiet-hears_ack frame =
      search (Keeps-lift, Keeps-asks, Keeps-bind, Quiet-transport, Quiet-no_peer, Quiet-spent) depth
        40

  Quiet-apply : (c : Call) (i : PairingInitiator k n) → Quiet i → Quiet (apply k n c i)
  unfolding apply
  Quiet-apply starts = Quiet-start.at
  Quiet-apply (hears_handshake frame) = (Quiet-hears_handshake frame).at
  Quiet-apply (hears_auth frame) = (Quiet-hears_auth frame).at
  Quiet-apply (hears_ack frame) = (Quiet-hears_ack frame).at

  all_of :
      (P : PairingInitiator k n → Type 0)
      → ((c : Call) (i : PairingInitiator k n) → P i → P (apply k n c i))
      → (cs : List Call) (i : PairingInitiator k n) → P i
      → P (apply_all k n cs i)
  unfolding apply_all
  all_of P step [] i h = h
  all_of P step (c ∷ cs) i h = all_of P step cs (apply k n c i) (step c i h)

  acknowledged-Spent :
      (frame : Bytes) (i : PairingInitiator k n)
      (session : AuthenticatedPairingSession × n.transport.State)
      → Quiet i
      → (receive_responder_ack k n frame i).1 ≡ ok session
      → Spent (receive_responder_ack k n frame i).0
  unfolding receive_responder_ack
  acknowledged-Spent frame i session quiet h =
      bind-elim (λ r. Spent r.0) (with_transport n (λ c. decrypt_auth n c frame role_responder 4)) _
        i h
        λ j bs e h1.
          let quiet' : Quiet j =
            subst (λ x. Quiet x) (ap (λ x. x.0) e)
              ((Quiet-transport (λ c. decrypt_auth n c frame role_responder 4)).at i quiet) in
          asks-elim (λ r. Spent r.0) j (bail_if (not (eq_bytes bs ack_magic)) bad_acknowledgement) _
            h1
            λ _ _ h2.
              asks-elim (λ r. Spent r.0) j (context j.peer missing_state) _ h2
                λ p _ h3.
                  asks-elim (λ r. Spent r.0) (record j { peer = none })
                    (context j.transcript missing_state) _ h3
                    λ tr _ h4.
                      asks-elim (λ r. Spent r.0) (record j { peer = none })
                        (context j.transport missing_state) _ h4
                        λ c there _.
                          let used = context-eq-ok j.transport _ c there in
                          elim quiet' [ inl over ↦ (over, refl) | inr never ↦ cc (used, never) ]

  -- An initiator hands out one session: whatever calls are made after it was set up without a
  -- transport, once `receive_responder_ack` has returned a session, every later call fails, the
  -- acknowledgement again included, whatever calls come between.
  pub succeeds-acknowledged :
      (i : PairingInitiator k n) (before after : List Call) (frame : Bytes) (c : Call)
      (session : AuthenticatedPairingSession × n.transport.State)
      → i.transport ≡ none
      → (receive_responder_ack k n frame (apply_all k n before i)).1 ≡ ok session
      → succeeds c
          (apply_all k n after (receive_responder_ack k n frame (apply_all k n before i)).0)
        ≡ false
  succeeds-acknowledged i before after frame c session fresh h = Spent-refused c _ (
      all_of (λ j. Spent j) Spent-apply after _
        (acknowledged-Spent frame (apply_all k n before i) session
          (all_of (λ j. Quiet j) Quiet-apply before i (inr fresh)) h))
