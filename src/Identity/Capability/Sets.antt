-- ===== src/Identity/Capability/Sets.antt =====
-- `BTreeSet<String>` of identity.rs: strings in the order of their bytes, each once.
use omarchy_sync.Base.{
  Bool, Bytes, List, [], and-eq-true, any, ap, arith, eq_bytes, eq_bytes→eq, false, if◌then◌else◌,
  ltb, refl, sym, true, ◌&&◌, ◌==◌, ◌||◌, ◌∙◌, ◌∷◌, ◌≡◌,
}
use omarchy_sync.Cursor.{first}

-- `Ord for str`: by bytes, a prefix first.
unfoldable pub lt_bytes : Bytes → Bytes → Bool
lt_bytes xs [] = false
lt_bytes [] (y ∷ ys) = true
lt_bytes (x ∷ xs) (y ∷ ys) = ltb x y || x == y && lt_bytes xs ys

unfoldable pub insert : Bytes → List Bytes → List Bytes
insert x [] = x ∷ []
insert x (y ∷ ys) =
    let rest = insert x ys in
    if eq_bytes x y then y ∷ ys else if lt_bytes x y then x ∷ (y ∷ ys) else y ∷ rest

unfoldable pub contains : Bytes → List Bytes → Bool
contains x set = any (λ y. eq_bytes y x) set

-- The order of the elements that a set keeps.
unfoldable pub is_sorted : List Bytes → Bool
is_sorted [] = true
is_sorted (x ∷ []) = true
is_sorted (x ∷ (y ∷ ys)) = lt_bytes x y && is_sorted (y ∷ ys)

-- Of two strings one is less, or they are the same.
lt_bytes-total :
    (xs ys : Bytes) → eq_bytes xs ys ≡ false → lt_bytes xs ys ≡ false → lt_bytes ys xs ≡ true
unfolding eq_bytes lt_bytes
lt_bytes-total [] [] h k = cc
lt_bytes-total [] (y ∷ ys) h k = cc
lt_bytes-total (x ∷ xs) [] h k = refl
lt_bytes-total (x ∷ xs) (y ∷ ys) h k = ground (arith, lt_bytes-total xs ys)

and-intro : (a b : Bool) → a ≡ true → b ≡ true → (a && b) ≡ true
and-intro a b h k = rw (h, k)

-- An element above the first one goes after it.
sorted_after :
    (x y : Bytes) (ys : List Bytes)
    → lt_bytes y x ≡ true
    → is_sorted (y ∷ ys) ≡ true
    → is_sorted (y ∷ insert x ys) ≡ true
unfolding insert is_sorted
sorted_after x y [] above sorted = rw above
sorted_after x y (z ∷ zs) above sorted =
    go (λ h. sorted_after x z zs h) (eq_bytes x z) refl (lt_bytes x z) refl
  where
    go :
        (lt_bytes z x ≡ true → is_sorted (z ∷ zs) ≡ true → is_sorted (z ∷ insert x zs) ≡ true)
        → (a : Bool) → eq_bytes x z ≡ a
        → (b : Bool) → lt_bytes x z ≡ b
        → is_sorted (y ∷ (if a then z ∷ zs else if b then x ∷ (z ∷ zs) else z ∷ insert x zs)) ≡ true
    go ih true e b f = sorted
    go ih false e true f =
        let (_, rest) = and-eq-true (lt_bytes y z) (is_sorted (z ∷ zs)) sorted in
        and-intro _ _ above (and-intro _ _ f rest)
    go ih false e false f =
        let (first, rest) = and-eq-true (lt_bytes y z) (is_sorted (z ∷ zs)) sorted in
        and-intro _ _ first (ih (lt_bytes-total x z e f) rest)

pub is_sorted-insert :
    (x : Bytes) (ys : List Bytes) → is_sorted ys ≡ true → is_sorted (insert x ys) ≡ true
unfolding insert is_sorted
is_sorted-insert x [] sorted = refl
is_sorted-insert x (y ∷ ys) sorted = go (eq_bytes x y) refl (lt_bytes x y) refl
  where
    go :
        (a : Bool)
        → eq_bytes x y ≡ a
        → (b : Bool) → lt_bytes x y ≡ b
        → is_sorted (if a then y ∷ ys else if b then x ∷ (y ∷ ys) else y ∷ insert x ys) ≡ true
    go true e b f = sorted
    go false e true f = and-intro _ _ f sorted
    go false e false f = sorted_after x y ys (lt_bytes-total x y e f) sorted

pub contains-insert :
    (z x : Bytes) (ys : List Bytes) → contains z (insert x ys) ≡ (eq_bytes x z || contains z ys)
unfolding insert contains
contains-insert z x [] = refl
contains-insert z x (y ∷ ys) = go (contains-insert z x ys) (eq_bytes x y) refl (lt_bytes x y)
  where
    swap : (a b c : Bool) → (a || (b || c)) ≡ (b || (a || c))
    swap true true c = refl
    swap true false c = refl
    swap false b c = refl

    twice : (a b : Bool) → (a || b) ≡ (a || (a || b))
    twice true b = refl
    twice false b = refl

    go :
        (contains z (insert x ys) ≡ (eq_bytes x z || contains z ys))
        → (a : Bool) → eq_bytes x y ≡ a
        → (b : Bool)
        → contains z (if a then y ∷ ys else if b then x ∷ (y ∷ ys) else y ∷ insert x ys)
          ≡ (eq_bytes x z || (eq_bytes y z || contains z ys))
    go ih true e b =
        let same : y ≡ x = sym (eq_bytes→eq x y e) in
        ap (λ (w : Bytes). eq_bytes w z || contains z ys) same
        ∙ twice (eq_bytes x z) (contains z ys)
        ∙ ap (λ (w : Bytes). eq_bytes x z || (eq_bytes w z || contains z ys)) (sym same)
    go ih false e true = refl
    go ih false e false =
        ap (λ (b : Bool). eq_bytes y z || b) ih ∙ swap (eq_bytes y z) (eq_bytes x z) (contains z ys)
