-- ===== src/Cursor/Accepts.antt =====
-- What a reader has consumed when it succeeds: the backward half of a round trip.
use omarchy_sync.Cursor.{
  Cursor, Parser, advance, and_then, bytes, field, finish, first, left, lift, new, pure, run,
  string, take, u16, u64, u8, value_of, ◌>>=◌, ◌>>◌,
}
use omarchy_sync.Base.{
  All, All-append_left, All-append_right, Bytes, IsByte, Result, [], append-nil, append_assoc,
  arith, bail_if, drop-ge, err, false, field_exceeds_limit, from_be, from_be-lt, is_empty, is_utf8,
  length, length-take, ltb, ltb→le, not, not_utf8, ok, refl, sym, take-append-drop, to_be,
  to_be-from_be, true, ℕ, ◌++◌, ◌+◌, ◌<◌, ◌==◌, ◌^◌, ◌||◌, ◌∙◌, ◌∷◌, ◌≡◌, ◌≤◌,
}
use Prim.Native.Nat.{max}
use mathlib.Core.Path.{subst}
use omarchy_sync.Cursor.Reads.{left-advance, length-left}

-- The way from `c` to `d` took exactly `enc` off the front of what was left.
pub record Took (c : Cursor) (enc : Bytes) (d : Cursor) : Type 0 where
  pub at : left c ≡ enc ++ left d

pub Took-trans : {c d e : Cursor} {e1 e2 : Bytes} → Took c e1 d → Took d e2 e → Took c (e1 ++ e2) e
Took-trans {c} {d} {e} {e1} {e2} h k = record {
  at = rw (h.at, k.at) (sym (append_assoc e1 e2 (left e)));
}

pub Took-end : {c d : Cursor} {enc : Bytes} → Took c enc d → Took c (enc ++ []) d
Took-end {enc = enc} t = rw append-nil t

pub Took-IsByte :
    {c d : Cursor} {enc : Bytes}
    → Took c enc d
    → All IsByte (left c)
    → All IsByte enc × All IsByte (left d)
Took-IsByte {c} {d} {enc} t h =
    let h' : All IsByte (enc ++ left d) = subst (λ (l : Bytes). All IsByte l) t.at h in
    (All-append_left IsByte enc (left d) h', All-append_right IsByte enc (left d) h')

and_then-eq-ok :
    {A B : Type 0} (r : Result (A × Cursor)) (f : A → Parser B) (c' : Cursor) (b : B)
    → and_then r f ≡ ok (b, c')
    → (a : A) × (d : Cursor) × (r ≡ ok (a, d)) × (f a d ≡ ok (b, c'))
and_then-eq-ok (ok (a, d)) f c' b h = (a, d, refl, h)
and_then-eq-ok (err e) f c' b h = cc

pub reads-eq-ok :
    {A B : Type 0} (p : Parser A) (f : A → Parser B) (c c' : Cursor) (b : B)
    → (p >>= f) c ≡ ok (b, c')
    → (a : A) × (d : Cursor) × (p c ≡ ok (a, d)) × (f a d ≡ ok (b, c'))
reads-eq-ok p f c c' b h = and_then-eq-ok (p c) f c' b h

pub pure-eq-ok : {A : Type 0} (a b : A) (c c' : Cursor) → pure a c ≡ ok (b, c') → (a ≡ b) × (c ≡ c')
unfolding pure
pure-eq-ok a b c c' h = (cc, cc)

pub lift-eq-ok :
    {A : Type 0} (r : Result A) (c c' : Cursor) (a : A)
    → lift r c ≡ ok (a, c')
    → (r ≡ ok a) × (c ≡ c')
unfolding lift
lift-eq-ok (ok b) c c' a h = (cc, cc)
lift-eq-ok (err e) c c' a h = cc

take_cases :
    (n : ℕ) (c c' : Cursor) (v : Bytes)
    → take n c ≡ ok (v, c')
    → (c.position + n ≤ length c.bytes)
      × (v ≡ package.omarchy_sync.Base.take n (left c))
      × (c' ≡ advance c n)
unfolding take
take_cases n c c' v h = ground arith

-- A slice is the front of what was left.
pub take-eq-ok :
    (n : ℕ) (c c' : Cursor) (v : Bytes)
    → take n c ≡ ok (v, c')
    → Took c v c' × (length v ≡ n) × (c' ≡ advance c n)
take-eq-ok n c c' v h =
    let (room, ev, ec) = take_cases n c c' v h in
    (
      record { at = rw (ev, ec, left-advance c n) (sym (take-append-drop n (left c))) },
      rw ev (omega (arith, length-take n (left c), length-left c)),
      ec,
    )

word-eq-ok :
    (k : ℕ) (c d : Cursor) (n : ℕ)
    → All IsByte (left c)
    → (do bs ← take k; pure (from_be bs)) c ≡ ok (n, d)
    → Took c (to_be k n) d × (n < 256 ^ k)
word-eq-ok k c d n hb h =
    let (bs, d', p, q) = reads-eq-ok (take k) (λ bs. pure (from_be bs)) c d n h in
    let (same, here) = pure-eq-ok (from_be bs) n d' d q in
    let (took, len, _) = take-eq-ok k c d' bs p in
    let took' : Took c bs d = rw here at took in
    let (byte, _) = Took-IsByte took' hb in
    let enc : to_be k n ≡ bs = rw (← same, ← len) (to_be-from_be bs byte) in
    let small : from_be bs < 256 ^ k = rw len at (from_be-lt bs byte) in
    (rw enc took', rw same at small)

pub u8-eq-ok : (c d : Cursor) (n : ℕ) → u8 c ≡ ok (n, d) → Took c (n ∷ []) d
unfolding u8
u8-eq-ok c d n h =
    let (bs, d', p, q) = reads-eq-ok (take 1) (λ bs. pure (first bs)) c d n h in
    let (same, here) = pure-eq-ok (first bs) n d' d q in
    let (took, len, _) = take-eq-ok 1 c d' bs p in
    let one : bs ≡ n ∷ [] = go bs len same in rw one at (rw here at took)
  where
    go : (bs : Bytes) → length bs ≡ 1 → first bs ≡ n → bs ≡ n ∷ []
    go [] l s = absurd (omega (arith, l))
    go (b ∷ []) l s = cc s
    go (b ∷ b' ∷ bs) l s = absurd (omega (arith, l))

pub u16-eq-ok :
    (c d : Cursor) (n : ℕ)
    → All IsByte (left c)
    → u16 c ≡ ok (n, d)
    → Took c (to_be 2 n) d × (n < 65536)
unfolding u16
u16-eq-ok c d n hb h = word-eq-ok 2 c d n hb h

pub u64-eq-ok :
    (c d : Cursor) (n : ℕ)
    → All IsByte (left c)
    → u64 c ≡ ok (n, d)
    → Took c (to_be 8 n) d × (n < 2 ^ 64)
unfolding u64
u64-eq-ok c d n hb h = word-eq-ok 8 c d n hb h

is_empty-length : (v : Bytes) → (length v == 0) ≡ false → is_empty v ≡ false
is_empty-length [] h = h
is_empty-length (x ∷ v) h = refl

pub bytes-eq-ok :
    (max : ℕ) (c d : Cursor) (v : Bytes)
    → All IsByte (left c)
    → bytes max c ≡ ok (v, d)
    → Took c (field v) d × (is_empty v ≡ false) × (length v ≤ max)
unfolding bytes
bytes-eq-ok max c d v hb h =
    let (n, c1, p, h1) =
      reads-eq-ok u16 (λ n. lift (bail_if (n == 0 || ltb max n) field_exceeds_limit) >> take n) c d
        v h in
    let (_, c2, q, h2) =
      reads-eq-ok (lift (bail_if (n == 0 || ltb max n) field_exceeds_limit)) (λ _. take n) c1 d v
        h1 in
    let (passed, here) =
      lift-eq-ok (bail_if (n == 0 || ltb max n) field_exceeds_limit) c1 c2 tt q in
    let bounds : ((n == 0) ≡ false) × (ltb max n ≡ false) = ground arith in
    let (took, len, _) = take-eq-ok n c2 d v h2 in
    let (took_n, _) = u16-eq-ok c c1 n hb p in
    let took' : Took c1 v d = rw (← here) at took in
    let zero_free : (length v == 0) ≡ false = rw len bounds.0 in
    (
      Took-trans (rw len took_n) took',
      is_empty-length v zero_free,
      omega (arith, ltb→le max n bounds.1),
    )

pub string-eq-ok :
    (max : ℕ) (c d : Cursor) (v : Bytes)
    → All IsByte (left c)
    → string max c ≡ ok (v, d)
    → Took c (field v) d × (is_utf8 v ≡ true)
unfolding string
string-eq-ok max c d v hb h =
    let (w, c1, p, h1) =
      reads-eq-ok (bytes max) (λ bs. lift (bail_if (not (is_utf8 bs)) not_utf8) >> pure bs) c d v
        h in
    let (_, c2, q, h2) =
      reads-eq-ok (lift (bail_if (not (is_utf8 w)) not_utf8)) (λ _. pure w) c1 d v h1 in
    let (passed, here) = lift-eq-ok (bail_if (not (is_utf8 w)) not_utf8) c1 c2 tt q in
    let (same, there) = pure-eq-ok w v c2 d h2 in
    let valid : is_utf8 w ≡ true = ground arith in
    let (took, _, _) = bytes-eq-ok max c c1 w hb p in
    (rw (same, here ∙ there) at took, rw same at valid)

-- `finish` passes only when nothing is left.
pub finish-eq-ok : (c d : Cursor) → finish c ≡ ok (tt, d) → left c ≡ []
unfolding finish
finish-eq-ok c d h =
    let done : c.position ≡ length c.bytes = ground arith in
    drop-ge c.position c.bytes (omega arith)

value_of-eq-ok :
    {A : Type 0} (r : Result (A × Cursor)) (v : A)
    → value_of r ≡ ok v
    → (d : Cursor) × (r ≡ ok (v, d))
value_of-eq-ok (ok (a, d)) v h = (d, cc)
value_of-eq-ok (err e) v h = cc

-- A successful run read the whole buffer.
pub run-eq-ok :
    {A : Type 0} (p : Parser A) (bs : Bytes) (v : A)
    → run p bs ≡ ok v
    → (d : Cursor) × (p (new bs) ≡ ok (v, d)) × (left d ≡ [])
unfolding run
run-eq-ok p bs v h =
    let (d', p1) = value_of-eq-ok (and_then (p (new bs)) (λ a. finish >> pure a)) v h in
    let (a, d, q, r) = reads-eq-ok p (λ a. finish >> pure a) (new bs) d' v p1 in
    let (u, e, f, g) = reads-eq-ok finish (λ _. pure a) d d' v r in
    let (same, _) = pure-eq-ok a v e d' g in (d, rw same at q, finish-eq-ok d e f)

-- Steps of a block that neither read nor return.
pub check-eq-ok :
    {B : Type 0} (r : Result (Unit {0})) (k : Parser B) (c d : Cursor) (b : B)
    → (lift r >> k) c ≡ ok (b, d)
    → (r ≡ ok tt) × (k c ≡ ok (b, d))
unfolding lift
check-eq-ok (ok tt) k c d b h = (refl, h)
check-eq-ok (err e) k c d b h = cc
