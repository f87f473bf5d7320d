-- ===== src/Handshake/Method.antt =====
-- Methods that change `self`: from a state to the state that they leave, also on an error.
use omarchy_sync.Base.{Result, err, ok, ok_inj, refl, sym, ◌≡◌}
use mathlib.Core.Path.{subst}

abbrev pub Method : Type 0 → Type 0 → Type 0
Method S A = S → S × Result A

abbrev pub and_then : {S A B : Type 0} → S × Result A → (A → Method S B) → S × Result B
and_then (s, ok a) f = f a s
and_then (s, err e) f = (s, err e)

infixl 5 ◌>>=◌ ◌>>◌
abbrev pub ◌>>=◌ : {S A B : Type 0} → Method S A → (A → Method S B) → Method S B
◌>>=◌ m f s = and_then (m s) f

abbrev pub ◌>>◌ : {S B : Type 0} → Method S (Unit {0}) → Method S B → Method S B
m >> k = m >>= λ _. k

-- A step that reads no field, one that reads some, and one that writes some.
abbrev pub lift : {S A : Type 0} → Result A → Method S A
lift r s = (s, r)

abbrev pub asks : {S A : Type 0} → (S → Result A) → Method S A
asks f s = (s, f s)

abbrev pub modify : {S : Type 0} → (S → S) → Method S (Unit {0})
modify f s = (f s, ok tt)

-- `m` keeps `P`, whether it succeeds or fails.
pub record Keeps {S A : Type 0} (P : S → Type 0) (m : Method S A) : Type 0 where
  pub at : (s : S) → P s → P (m s).0

module _ {S : Type 0} {P : S → Type 0} where
  pub Keeps-lift : {A : Type 0} (r : Result A) → Keeps P (lift r)
  Keeps-lift r = record { at = λ s h. h }

  pub Keeps-asks : {A : Type 0} (f : S → Result A) → Keeps P (asks f)
  Keeps-asks f = record { at = λ s h. h }

  pub Keeps-modify : (f : S → S) → ((s : S) → P s → P (f s)) → Keeps P (modify f)
  Keeps-modify f k = record { at = k }

  pub Keeps-bind :
      {A B : Type 0} (m : Method S A) (f : A → Method S B)
      → Keeps P m
      → ((a : A) → Keeps P (f a))
      → Keeps P (m >>= f)
  Keeps-bind {A} {B} m f km kf = record { at = λ s h. go (m s) (km.at s h) }
    where
      go : (r : S × Result A) → P r.0 → P (and_then r f).0
      go (s, ok a) h = (kf a).at s h
      go (s, err e) h = h

-- At one state: what a step that changes nothing returned is known to the rest of the block.
pub at_asks :
    {S A B : Type 0} (P : S → Type 0) (s : S) (r : Result A) (f : A → Method S B)
    → P s
    → ((a : A) → r ≡ ok a → P (f a s).0)
    → P (and_then (s, r) f).0
at_asks P s (ok a) f h k = k a refl
at_asks P s (err e) f h k = h

-- At one state, when a step that changes nothing is known to succeed.
pub at_ok :
    {S A B : Type 0} (P : S → Type 0) (s : S) (r : Result A) (f : A → Method S B) (a : A)
    → r ≡ ok a
    → P (f a s).0
    → P (and_then (s, r) f).0
at_ok P s (ok x) f a e h = subst (λ y. P (f y s).0) (sym (ok_inj e)) h
at_ok P s (err x) f a e h = cc

-- A step that changes nothing succeeded, with the rest of the block after it.
pub asks-elim :
    {S A B : Type 0} {b : B} (P : S × Result B → Type 0) (s : S) (r : Result A) (f : A → Method S B)
    → (and_then (s, r) f).1 ≡ ok b
    → ((a : A) → r ≡ ok a → (f a s).1 ≡ ok b → P (f a s))
    → P (and_then (s, r) f)
asks-elim P s (ok a) f h k = k a refl h
asks-elim P s (err e) f h k = cc

-- Any step succeeded.
pub bind-elim :
    {S A B : Type 0} {b : B} (P : S × Result B → Type 0) (m : Method S A) (f : A → Method S B)
    (s : S)
    → ((m >>= f) s).1 ≡ ok b
    → ((s' : S) (a : A) → m s ≡ (s', ok a) → (f a s').1 ≡ ok b → P (f a s'))
    → P ((m >>= f) s)
bind-elim {S} {A} {B} {b} P m f s h k = go (m s) refl h
  where
    go : (r : S × Result A) → m s ≡ r → (and_then r f).1 ≡ ok b → P (and_then r f)
    go (s', ok a) e h = k s' a e h
    go (s', err x) e h = cc
