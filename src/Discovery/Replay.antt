-- ===== src/Discovery/Replay.antt =====
-- The replay cache of protocol_v3.rs along sequences of calls of `verify`.
use omarchy_sync.Discovery.Decode
use omarchy_sync.Discovery.{DiscoveryAnnouncement}
use omarchy_sync.Discovery.Verifier.{
  DiscoveryVerifier, ReplayEntry, VerifiedDiscovery, admit, admit_checked, check, is_kept, is_key,
  prune_replay, saturating_add, verify, verify_all,
}
use omarchy_sync.Base.{
  Bool, Bool-cases, Bytes, List, Result, [], any, any-retain, any_map, arith, eq_bytes_refl, err,
  false, inl, inr, ok, ok_inj, refl, sym, true, ℕ, ◌&&◌, ◌+◌, ◌-◌, ◌<◌, ◌==◌, ◌^◌, ◌∙◌, ◌∷◌, ◌≡◌,
  ◌≢◌, ◌≤◌, ◌⊎◌,
}
use omarchy_sync.Crypto.{Crypto}
use omarchy_sync.Discovery.Checked.{Passed, check-Passed}

-- The calls are made at `now` or later, and the clock does not go back between them; `end` is the
-- time after the last.
abbrev pub Monotone : ℕ → List (Bytes × ℕ) → ℕ → Type 0
Monotone now [] end = now ≤ end
Monotone now ((_, t) ∷ calls) end = (now ≤ t) × Monotone t calls end

-- The entry that an accepted announcement leaves.
abbrev entry_of : DiscoveryAnnouncement → ℕ → ReplayEntry
entry_of a now = record {
  device_id = a.certificate.device_id;
  nonce = a.nonce;
  accepted_at = now;
  announcement_timestamp = a.timestamp;
}

-- The cache holds an entry for the key that was accepted at `t0` with timestamp `ts`.
abbrev is_mark : DiscoveryAnnouncement → ℕ → ReplayEntry → Bool
is_mark a t0 e =
    is_key a.certificate.device_id a.nonce e
    && e.accepted_at == t0
    && e.announcement_timestamp == a.timestamp

-- What is remembered of an accepted announcement: its entry, or it is stale by now.
abbrev Remembers : DiscoveryVerifier → DiscoveryAnnouncement → ℕ → ℕ → Type 0
Remembers v a t0 now = (any (is_mark a t0) v.seen ≡ true) ⊎ (v.max_age < now - a.timestamp)

-- An accepted announcement is not later than its acceptance by more than the tolerance.
abbrev IsTimely : DiscoveryVerifier → DiscoveryAnnouncement → ℕ → Type 0
IsTimely v a t0 = a.timestamp ≤ t0 + v.max_future

-- An entry that `prune_replay` drops is that of a stale announcement.
dropped_is_stale :
    (v : DiscoveryVerifier) (a : DiscoveryAnnouncement) (t0 now : ℕ)
    → now < 2 ^ 64
    → IsTimely v a t0
    → is_kept v now (entry_of a t0) ≡ false
    → v.max_age < now - a.timestamp
unfolding is_kept
dropped_is_stale v a t0 now fits timely h = ground arith

mark_is_kept :
    (v : DiscoveryVerifier) (a : DiscoveryAnnouncement) (t0 now : ℕ) (e : ReplayEntry)
    → is_kept v now (entry_of a t0) ≡ true
    → is_mark a t0 e ≡ true
    → (is_mark a t0 e && is_kept v now e) ≡ true
unfolding is_kept
mark_is_kept v a t0 now e kept m = ground arith

prune-Remembers :
    (v : DiscoveryVerifier) (a : DiscoveryAnnouncement) (t0 t now : ℕ)
    → now < 2 ^ 64
    → IsTimely v a t0
    → t ≤ now
    → Remembers v a t0 t
    → Remembers (prune_replay v now) a t0 now
prune-Remembers v a t0 t now fits timely le (inr old) = unfold prune_replay in inr (omega arith)
prune-Remembers v a t0 t now fits timely le (inl h) =
    elim (Bool-cases (is_kept v now (entry_of a t0))) [
      | inr dropped ↦ unfold prune_replay in inr (dropped_is_stale v a t0 now fits timely dropped)
      | inl kept ↦
          unfold prune_replay in
          inl (
            any-retain (is_kept v now) (is_mark a t0) v.seen (
              any_map (is_mark a t0) (λ e. is_mark a t0 e && is_kept v now e) v.seen
                (λ e m. mark_is_kept v a t0 now e kept m) h))
    ]

mark-key :
    (a : DiscoveryAnnouncement) (t0 : ℕ) (e : ReplayEntry)
    → is_mark a t0 e ≡ true
    → is_key a.certificate.device_id a.nonce e ≡ true
mark-key a t0 e h = ground arith

admit-Remembers :
    (v : DiscoveryVerifier) (a b : DiscoveryAnnouncement) (t0 now : ℕ)
    → Remembers v a t0 now
    → Remembers (admit v b now).0 a t0 now
unfolding admit
admit-Remembers v a b t0 now (inl h) = ground arith
admit-Remembers v a b t0 now (inr h) = ground arith

-- An admitted announcement leaves its entry.
admit-mark :
    (v : DiscoveryVerifier) (a : DiscoveryAnnouncement) (now : ℕ) (d : VerifiedDiscovery)
    → (admit v a now).1 ≡ ok d
    → any (is_mark a now) (admit v a now).0.seen ≡ true
unfolding admit
admit-mark v a now d h =
    ground (arith, eq_bytes_refl a.certificate.device_id, eq_bytes_refl a.nonce)

-- An announcement whose entry is there is not admitted.
admit_refuses :
    (v : DiscoveryVerifier) (a : DiscoveryAnnouncement) (t0 now : ℕ) (d : VerifiedDiscovery)
    → any (is_mark a t0) v.seen ≡ true
    → (admit v a now).1 ≢ ok d
unfolding admit
admit_refuses v a t0 now d mark h =
    let key : any (is_key a.certificate.device_id a.nonce) v.seen ≡ true =
      any_map (is_mark a t0) (is_key a.certificate.device_id a.nonce) v.seen
        (λ e m. mark-key a t0 e m) mark in
    cc (rw key at h)

timely_of :
    (t0 future future' ts : ℕ)
    → future' ≡ future
    → ts ≤ saturating_add t0 future
    → ts ≤ t0 + future'
timely_of t0 future future' ts e h = ground arith

Monotone-le : (now : ℕ) (calls : List (Bytes × ℕ)) (end : ℕ) → Monotone now calls end → now ≤ end
Monotone-le now [] end h = h
Monotone-le now ((bs, t) ∷ calls) end (le, m) = omega (arith, Monotone-le t calls end m)

module _ (k : Crypto) where
  verify-Remembers :
      (v : DiscoveryVerifier) (a : DiscoveryAnnouncement) (t0 t now : ℕ) (bs : Bytes)
      → now < 2 ^ 64
      → IsTimely v a t0
      → t ≤ now
      → Remembers v a t0 t
      → Remembers (verify k v bs now).0 a t0 now
  unfolding verify
  verify-Remembers v a t0 t now bs fits timely le r =
      after (check k (prune_replay v now) bs now) (prune-Remembers v a t0 t now fits timely le r)
    where
      after :
          (r : Result DiscoveryAnnouncement)
          → Remembers (prune_replay v now) a t0 now
          → Remembers (admit_checked (prune_replay v now) r now).0 a t0 now
      after (ok b) m = admit-Remembers (prune_replay v now) a b t0 now m
      after (err e) m = m

  -- No call changes the limits or the root.
  limits_stay :
      (v : DiscoveryVerifier) (now : ℕ) (bs : Bytes)
      → ((verify k v bs now).0.max_age ≡ v.max_age)
        × ((verify k v bs now).0.max_future ≡ v.max_future)
  unfolding verify
  limits_stay v now bs = after (check k (prune_replay v now) bs now)
    where
      after :
          (r : Result DiscoveryAnnouncement)
          → ((admit_checked (prune_replay v now) r now).0.max_age ≡ v.max_age)
            × ((admit_checked (prune_replay v now) r now).0.max_future ≡ v.max_future)
      after (ok b) = ground arith
      after (err e) = (refl, refl)

  -- An accepted announcement passed the checks, and is remembered.
  accepted :
      (v : DiscoveryVerifier) (bs : Bytes) (now : ℕ) (d : VerifiedDiscovery)
      → (verify k v bs now).1 ≡ ok d
      → (a : DiscoveryAnnouncement) × Passed k (prune_replay v now) bs now a
        × (any (is_mark a now) (verify k v bs now).0.seen ≡ true)
  unfolding verify
  accepted v bs now d h = after (check k (prune_replay v now) bs now) refl h
    where
      after :
          (r : Result DiscoveryAnnouncement)
          → check k (prune_replay v now) bs now ≡ r
          → (admit_checked (prune_replay v now) r now).1 ≡ ok d
          → (a : DiscoveryAnnouncement) × Passed k (prune_replay v now) bs now a
            × (any (is_mark a now) (verify k v bs now).0.seen ≡ true)
      after (err e) c h = cc
      after (ok a) c h = (
        a,
        check-Passed k (prune_replay v now) bs now a c,
        rw c (admit-mark (prune_replay v now) a now d h),
      )

  verify_all-Remembers :
      (v : DiscoveryVerifier) (a : DiscoveryAnnouncement) (t0 t end : ℕ) (calls : List (Bytes × ℕ))
      → end < 2 ^ 64
      → IsTimely v a t0
      → Monotone t calls end
      → Remembers v a t0 t
      → Remembers (verify_all k v calls) a t0 end × IsTimely (verify_all k v calls) a t0
  unfolding verify_all
  verify_all-Remembers v a t0 t end [] fits timely m (inl h) = (inl h, timely)
  verify_all-Remembers v a t0 t end [] fits timely m (inr h) = (inr (omega arith), timely)
  verify_all-Remembers v a t0 t end ((bs, now) ∷ calls) fits timely (le, m) r =
      let (_, future) = limits_stay v now bs in
      let timely' : IsTimely (verify k v bs now).0 a t0 = omega (arith, future) in
      verify_all-Remembers (verify k v bs now).0 a t0 now end calls fits timely' m
        (verify-Remembers v a t0 t now bs (omega (arith, Monotone-le now calls end m)) timely le r)

  -- What is remembered is not accepted.
  remembered_is_refused :
      (v : DiscoveryVerifier) (bs : Bytes) (a : DiscoveryAnnouncement) (t0 t now : ℕ)
      (d : VerifiedDiscovery)
      → Decode.from_bytes bs ≡ ok a
      → now < 2 ^ 64
      → IsTimely v a t0
      → t ≤ now
      → Remembers v a t0 t
      → (verify k v bs now).1 ≢ ok d
  unfolding verify
  remembered_is_refused v bs a t0 t now d decoded fits timely le r h =
      after (check k (prune_replay v now) bs now) refl h
        (prune-Remembers v a t0 t now fits timely le r)
    where
      after :
          (r : Result DiscoveryAnnouncement)
          → check k (prune_replay v now) bs now ≡ r
          → (admit_checked (prune_replay v now) r now).1 ≡ ok d
          → Remembers (prune_replay v now) a t0 now
          → ⊥
      after (err e) c h m = cc
      after (ok b) c h (inr old) =
          let p = check-Passed k (prune_replay v now) bs now b c in
          let same : a ≡ b = ok_inj (sym decoded ∙ p.decoded) in
          let fresh : now - a.timestamp ≤ v.max_age = rw same p.not_stale in absurd (omega arith)
      after (ok b) c h (inl mark) =
          let p = check-Passed k (prune_replay v now) bs now b c in
          let same : a ≡ b = ok_inj (sym decoded ∙ p.decoded) in
          let mark' : any (is_mark b t0) (prune_replay v now).seen ≡ true = rw (← same) mark in
          admit_refuses (prune_replay v now) b t0 now d mark' h

  -- Once an announcement is accepted, the same bytes are never accepted again: not after any
  -- sequence of calls of `verify`, with whatever bytes, as long as the clock does not go back and
  -- stays below 2 ^ 64 seconds.
  pub verify_once :
      (v : DiscoveryVerifier) (bs : Bytes) (t0 end : ℕ) (calls : List (Bytes × ℕ))
      (once again : VerifiedDiscovery)
      → (verify k v bs t0).1 ≡ ok once
      → Monotone t0 calls end
      → end < 2 ^ 64
      → (verify k (verify_all k (verify k v bs t0).0 calls) bs end).1 ≢ ok again
  verify_once v bs t0 end calls once again h m fits =
      let (a, p, mark) = accepted v bs t0 once h in
      let (_, future) = limits_stay v t0 bs in
      let timely : IsTimely (verify k v bs t0).0 a t0 =
        timely_of t0 v.max_future _ a.timestamp future (unfold prune_replay in p.not_ahead) in
      let (r, timely') =
        verify_all-Remembers (verify k v bs t0).0 a t0 t0 end calls fits timely m (inl mark) in
      remembered_is_refused (verify_all k (verify k v bs t0).0 calls) bs a t0 end end again
        p.decoded fits timely' (omega arith) r
