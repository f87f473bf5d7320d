-- ===== src/Runtime/Coordinator.antt =====
-- `PairCoordinator` of runtime_v3.rs: one pairing at a time, and a pause after a failure.
use omarchy_sync.Base.{
  Bool, Bytes, List, [], any, arith, eq_bytes, false, if◌then◌else◌, ltb, not, refl, retain, suc,
  sym, true, zero, ℕ, ◌+◌, ◌||◌, ◌∷◌, ◌≡◌, ◌≤◌,
}
use mathlib.Core.Path.{subst}

-- The two locked fields; the clock is in milliseconds.
pub record PairCoordinator : Type 0 where
  pub active : Bool
  pub cooldown : List (Bytes × ℕ)

abbrev pub pair_cooldown : ℕ
pair_cooldown = 30000

abbrev pub waiting : ℕ → List (Bytes × ℕ) → List (Bytes × ℕ)
waiting now cooldown = retain (λ e. ltb now e.1) cooldown

abbrev pub contains : Bytes → List (Bytes × ℕ) → Bool
contains id cooldown = any (λ e. eq_bytes e.0 id) cooldown

unfoldable pub enter : ℕ → Bytes → PairCoordinator → PairCoordinator × Bool
enter now id c =
    let kept = waiting now c.cooldown in
    if c.active || contains id kept
    then (record c { cooldown = kept }, false)
    else (record { active = true; cooldown = kept }, true)

unfoldable pub leave : ℕ → Bytes → Bool → PairCoordinator → PairCoordinator
leave now id retry_later c = record {
  active = false;
  cooldown =
      if retry_later
      then (id, now + pair_cooldown) ∷ retain (λ e. not (eq_bytes e.0 id)) c.cooldown
      else c.cooldown;
}

-- Who holds the coordinator, over a sequence of calls: `try` enters, and only a holder leaves.
pub data Call : Type 0 where
  try : ℕ → Bytes → Call
  done : ℕ → Bytes → Bool → Call

-- The number of pairings that run after the calls, as the coordinator grants them.
unfoldable pub calls : List Call → PairCoordinator × ℕ → PairCoordinator × ℕ
calls [] s = s
calls (try now id ∷ rest) (c, n) =
    let (c', granted) = enter now id c in calls rest (c', if granted then n + 1 else n)
calls (done now id later ∷ rest) (c, zero) = calls rest (c, zero)
calls (done now id later ∷ rest) (c, suc n) = calls rest (leave now id later c, n)

-- How many pairings the flag stands for.
abbrev pub running : Bool → ℕ
running true = 1
running false = 0

enter-running :
    (now : ℕ) (id : Bytes) (c : PairCoordinator)
    → (if (enter now id c).1 then running c.active + 1 else running c.active)
      ≡ running (enter now id c).0.active
unfolding enter
enter-running now id c = go c.active (contains id kept)
  where
    kept : List (Bytes × ℕ)
    kept = waiting now c.cooldown

    outcome : Bool → Bool → PairCoordinator × Bool
    outcome a b =
        if a || b
        then (record { active = a; cooldown = kept }, false)
        else (record { active = true; cooldown = kept }, true)

    go :
        (a b : Bool)
        → (if (outcome a b).1 then running a + 1 else running a) ≡ running (outcome a b).0.active
    go true b = refl
    go false true = refl
    go false false = refl

-- If the flag counts the running pairings, then along any sequence of `enter`s by anyone and
-- `leave`s by who was let in it does so too: at most one pairing runs at a time.
pub calls-single :
    (cs : List Call) (c : PairCoordinator) (n : ℕ)
    → n ≡ running c.active
    → ((calls cs (c, n)).1 ≡ running (calls cs (c, n)).0.active) × ((calls cs (c, n)).1 ≤ 1)
unfolding calls
calls-single [] c n h = (h, go c.active h)
  where
    go : (b : Bool) → n ≡ running b → n ≤ 1
    go true h = omega arith
    go false h = omega arith
calls-single (try now id ∷ rest) c n h = calls-single rest _ _ (
    subst (λ x. (if (enter now id c).1 then x + 1 else x) ≡ running (enter now id c).0.active)
      (sym h) (enter-running now id c))
calls-single (done now id later ∷ rest) c zero h = calls-single rest c zero h
calls-single (done now id later ∷ rest) c (suc n) h =
    calls-single rest (leave now id later c) n (unfold leave in one c.active h)
  where
    one : (b : Bool) → suc n ≡ running b → n ≡ 0
    one true h = omega arith
    one false h = absurd (omega arith)
