-- ===== src/Cursor/Reads.antt =====
-- Which encodings a reader accepts: the forward half of a round trip.
use omarchy_sync.Cursor.{
  Cursor, Parser, advance, bytes, field, finish, first, left, lift, new, pure, put_bytes, run,
  string, take, u16, u64, u8, ◌>>=◌, ◌>>◌,
}
use omarchy_sync.Base.{
  ==_iff, Bool-cases, Bytes, Result, [], ap, append-nil, append_assoc, arith, bail_if, drop,
  drop-append, drop-drop, drop-ge, err, false, field_exceeds_limit, from_be, from_be-to_be, inl,
  inr, is_empty, is_utf8, length, length-append, length-drop, length-to_be, le→ltb, ltb, ltb→le,
  lt→leb, not, not_utf8, ok, or-eq-false, refl, sym, take-append, to_be, true, ℕ, ◌%◌, ◌++◌, ◌+◌,
  ◌-◌, ◌<◌, ◌==◌, ◌^◌, ◌||◌, ◌∙◌, ◌∷◌, ◌≡◌, ◌≤◌,
}
use Prim.Native.Nat.{max}

-- The cursor stands inside a buffer that an address can span.
pub record IsFit (c : Cursor) : Type 0 where
  pub inside : c.position ≤ length c.bytes
  pub spans : length c.bytes < 2 ^ 64

-- `p` reads `enc`, whatever follows, and yields `v`.
pub record Reads {A : Type 0} (p : Parser A) (v : A) (enc : Bytes) : Type 0 where
  pub at :
      (c : Cursor) (rest : Bytes)
      → IsFit c
      → left c ≡ enc ++ rest
      → p c ≡ ok (v, advance c (length enc))

pub length-left : (c : Cursor) → length (left c) ≡ length c.bytes - c.position
length-left c = length-drop c.position c.bytes

pub left-advance : (c : Cursor) (n : ℕ) → left (advance c n) ≡ drop n (left c)
left-advance c n = sym (drop-drop c.position n c.bytes)

pub advance-IsFit : (c : Cursor) (n : ℕ) → IsFit c → n ≤ length (left c) → IsFit (advance c n)
advance-IsFit c n f h = omega (arith, length-left c, f.inside, f.spans)

pub advance-advance : (c : Cursor) (m n : ℕ) → advance (advance c m) n ≡ advance c (m + n)
advance-advance c m n = ap (λ (p : ℕ). record c { position = p }) (omega arith)

pub Reads-pure : {A : Type 0} (a : A) → Reads (pure a) a []
unfolding pure
Reads-pure a = record {
  at = λ c rest f h. ap (λ (p : ℕ). ok (a, record c { position = p })) (omega arith);
}

pub Reads-lift : {A : Type 0} (r : Result A) (a : A) → r ≡ ok a → Reads (lift r) a []
unfolding lift
Reads-lift (ok b) a e = record {
  at = λ c rest f h.
      let same : b ≡ a = cc in
      rw same (ap (λ (p : ℕ). ok (a, record c { position = p })) (omega arith));
}
Reads-lift (err x) a e = cc

pub Reads-bind :
    {A B : Type 0} (p : Parser A) (f : A → Parser B) (v : A) (w : B) (e1 e2 : Bytes)
    → Reads p v e1
    → Reads (f v) w e2
    → Reads (p >>= f) w (e1 ++ e2)
Reads-bind p f v w e1 e2 hp hf = record {
  at = λ c rest fit h.
      let h1 : left c ≡ e1 ++ (e2 ++ rest) = h ∙ append_assoc e1 e2 rest in
      let long : length e1 ≤ length (left c) =
        omega (arith, ap (λ (l : Bytes). length l) h1, length-append e1 (e2 ++ rest)) in
      let h2 : left (advance c (length e1)) ≡ e2 ++ rest =
        left-advance c (length e1)
        ∙ ap (λ (l : Bytes). drop (length e1) l) h1
        ∙ drop-append e1 (e2 ++ rest) in
      rw (hp.at c (e2 ++ rest) fit h1) (
        hf.at (advance c (length e1)) rest (advance-IsFit c _ fit long) h2
        ∙ ap (λ (k : ℕ). ok (w, record c { position = k })) (omega (arith, length-append e1 e2)));
}

-- A check that passes reads nothing.
pub Reads-check :
    {B : Type 0} (r : Result (Unit {0})) (k : Parser B) (w : B) (enc : Bytes)
    → r ≡ ok tt
    → Reads k w enc
    → Reads (lift r >> k) w enc
Reads-check r k w enc h hk = Reads-bind (lift r) (λ _. k) tt w [] enc (Reads-lift r tt h) hk

-- The last read of a block.
pub Reads-last :
    {A B : Type 0} (p : Parser A) (f : A → B) (v : A) (enc : Bytes)
    → Reads p v enc
    → Reads (do a ← p; pure (f a)) (f v) enc
Reads-last p f v enc h =
    rw append-nil at (Reads-bind p (λ a. pure (f a)) v (f v) enc [] h (Reads-pure (f v)))

pub Reads-take : (enc : Bytes) (n : ℕ) → length enc ≡ n → Reads (take n) enc enc
unfolding take
Reads-take enc n e = record {
  at = λ c rest fit h.
      let long : c.position + n ≤ length c.bytes = omega (
        arith,
        ap (λ (l : Bytes). length l) h,
        length-append enc rest,
        length-left c,
        fit.inside,
      ) in
      rw (
        lt→leb (2 ^ 64) (c.position + n) (omega (arith, fit.spans)),
        le→ltb (length c.bytes) (c.position + n) long,
        h,
        ← e,
        take-append enc rest,
      );
}

pub length-field : (v : Bytes) → length (field v) ≡ length v + 2
length-field v = omega (arith, length-append (to_be 2 (length v)) v, length-to_be 2 (length v))

-- What `put_bytes` writes is a field, and it writes every value in the bounds.
pub put_bytes-field :
    (v : Bytes) (max : ℕ)
    → is_empty v ≡ false
    → length v ≤ max
    → max ≤ 65535
    → put_bytes v max ≡ ok (field v)
unfolding put_bytes
put_bytes-field v max ne h hm =
    let small : length v % 2 ^ 16 ≡ length v = omega arith in
    rw (ne, le→ltb max (length v) h, le→ltb 65535 (length v) (omega arith), small)

pub put_bytes-eq-ok :
    (v : Bytes) (max : ℕ) (out : Bytes)
    → put_bytes v max ≡ ok out
    → (is_empty v ≡ false) × (length v ≤ max) × (length v ≤ 65535) × (out ≡ field v)
unfolding put_bytes
put_bytes-eq-ok v max out h =
    elim (Bool-cases (is_empty v || ltb max (length v) || ltb 65535 (length v))) [
      | inl bad ↦ cc (rw bad at h)
      | inr good ↦
          let (p, c) = or-eq-false (is_empty v || ltb max (length v)) (ltb 65535 (length v)) good in
          let (a, b) = or-eq-false (is_empty v) (ltb max (length v)) p in
          let small : length v % 2 ^ 16 ≡ length v = omega (arith, ltb→le 65535 (length v) c) in
          let same : field v ≡ out = cc (rw (good, small) at h) in
          (a, ltb→le max (length v) b, ltb→le 65535 (length v) c, sym same)
    ]

Reads-word : (k n : ℕ) → n < 256 ^ k → Reads (do bs ← take k; pure (from_be bs)) n (to_be k n)
Reads-word k n h = rw (← append-nil (to_be k n)) (
    Reads-bind (take k) (λ bs. pure (from_be bs)) (to_be k n) n (to_be k n) []
      (Reads-take (to_be k n) k (length-to_be k n)) (rw (from_be-to_be k n h) (Reads-pure n)))

pub Reads-u8 : (n : ℕ) → Reads u8 n (n ∷ [])
unfolding u8
Reads-u8 n =
    Reads-bind (take 1) (λ bs. pure (first bs)) (n ∷ []) n (n ∷ []) [] (Reads-take (n ∷ []) 1 refl)
      (Reads-pure n)

pub Reads-u16 : (n : ℕ) → n < 65536 → Reads u16 n (to_be 2 n)
unfolding u16
Reads-u16 n h = Reads-word 2 n h

pub Reads-u64 : (n : ℕ) → n < 2 ^ 64 → Reads u64 n (to_be 8 n)
unfolding u64
Reads-u64 n h = Reads-word 8 n h

-- A field of one byte at least and `max` at most is read back.
pub Reads-bytes :
    (v : Bytes) (max : ℕ)
    → is_empty v ≡ false
    → length v ≤ max
    → max ≤ 65535
    → Reads (bytes max) v (field v)
unfolding bytes
Reads-bytes [] max ne h hm = cc
Reads-bytes (x ∷ v) max ne h hm =
    let n : ℕ = length (x ∷ v) in
    Reads-bind u16 (λ n. lift (bail_if (n == 0 || ltb max n) field_exceeds_limit) >> take n) n
      (x ∷ v) (to_be 2 n) (x ∷ v) (Reads-u16 n (omega arith))
      (Reads-bind (lift (bail_if (n == 0 || ltb max n) field_exceeds_limit)) (λ _. take n) tt
        (x ∷ v) [] (x ∷ v) (Reads-lift _ tt (rw (le→ltb max n h) (ground arith)))
        (Reads-take (x ∷ v) n refl))

pub Reads-string :
    (v : Bytes) (max : ℕ)
    → is_empty v ≡ false
    → length v ≤ max
    → max ≤ 65535
    → is_utf8 v ≡ true
    → Reads (string max) v (field v)
unfolding string
Reads-string v max ne h hm u = rw (← append-nil (field v)) (
    Reads-bind (bytes max) (λ bs. lift (bail_if (not (is_utf8 bs)) not_utf8) >> pure bs) v v
      (field v) [] (Reads-bytes v max ne h hm)
      (Reads-bind (lift (bail_if (not (is_utf8 v)) not_utf8)) (λ _. pure v) tt v [] []
        (Reads-lift _ tt (rw u)) (Reads-pure v)))

-- At the end of the buffer `finish` passes.
pub finish_at_end : (c : Cursor) → IsFit c → left c ≡ [] → finish c ≡ ok (tt, c)
unfolding finish
finish_at_end c f h =
    let done : c.position ≡ length c.bytes =
      omega (arith, length-left c, ap (λ (l : Bytes). length l) h, f.inside) in
    rw ((==_iff c.position (length c.bytes)).1 done)

-- A reader of the whole of `enc` succeeds on that buffer.
pub run-Reads :
    {A : Type 0} (p : Parser A) (v : A) (enc : Bytes)
    → length enc < 2 ^ 64
    → Reads p v enc
    → run p enc ≡ ok v
unfolding pure run
run-Reads p v enc h r =
    let over : drop (length enc) enc ≡ [] = drop-ge (length enc) enc (omega arith) in
    let zero_add : 0 + length enc ≡ length enc = omega arith in
    rw (r.at (new enc) [] (omega arith) (sym (append-nil enc)), zero_add)
      (rw (finish_at_end (record { bytes = enc; position = length enc }) (omega arith) over))
