-- ===== src/Cursor/Elim.antt =====
-- One rule for each kind of read, to take a successful block apart: the rest of the block runs from
-- the cursor that the read left, and the read took its encoding.
use omarchy_sync.Cursor.{
  Cursor, Parser, bytes, field, left, lift, pure, string, take, u16, u64, u8, ◌>>=◌, ◌>>◌,
}
use omarchy_sync.Base.{
  All, All-append_right, Bool, Bytes, Error, IsByte, [], bail_if, false, is_empty, is_utf8, length,
  ok, refl, to_be, true, ℕ, ◌<◌, ◌^◌, ◌∷◌, ◌≡◌, ◌≤◌,
}
use Prim.Native.Nat.{max}
use mathlib.Core.Path.{subst₂}
use omarchy_sync.Cursor.Accepts.{
  Took, Took-IsByte, bytes-eq-ok, check-eq-ok, pure-eq-ok, reads-eq-ok, string-eq-ok, take-eq-ok,
  u16-eq-ok, u64-eq-ok, u8-eq-ok,
}

module _ {A : Type 0} (c e : Cursor) (a : A) {G : Type 0} where
  pub take-elim :
      (n : ℕ) (f : Bytes → Parser A)
      → All IsByte (left c)
      → (take n >>= f) c ≡ ok (a, e)
      → ((v : Bytes) (d : Cursor)
          → Took c v d
          → length v ≡ n
          → All IsByte v
          → All IsByte (left d)
          → f v d ≡ ok (a, e)
          → G)
      → G
  take-elim n f b h k =
      let (v, d, p, r) = reads-eq-ok (take n) f c e a h in
      let (t, len, _) = take-eq-ok n c d v p in
      let (bv, bd) = Took-IsByte t b in k v d t len bv bd r

  pub u8-elim :
      (f : ℕ → Parser A)
      → All IsByte (left c)
      → (u8 >>= f) c ≡ ok (a, e)
      → ((n : ℕ) (d : Cursor)
          → Took c (n ∷ []) d
          → n < 256
          → All IsByte (left d)
          → f n d ≡ ok (a, e)
          → G)
      → G
  u8-elim f b h k =
      let (n, d, p, r) = reads-eq-ok u8 f c e a h in
      let t = u8-eq-ok c d n p in let (bn, bd) = Took-IsByte t b in k n d t bn.0 bd r

  pub u16-elim :
      (f : ℕ → Parser A)
      → All IsByte (left c)
      → (u16 >>= f) c ≡ ok (a, e)
      → ((n : ℕ) (d : Cursor)
          → Took c (to_be 2 n) d
          → n < 65536
          → All IsByte (left d)
          → f n d ≡ ok (a, e)
          → G)
      → G
  u16-elim f b h k =
      let (n, d, p, r) = reads-eq-ok u16 f c e a h in
      let (t, fits) = u16-eq-ok c d n b p in let (_, bd) = Took-IsByte t b in k n d t fits bd r

  pub u64-elim :
      (f : ℕ → Parser A)
      → All IsByte (left c)
      → (u64 >>= f) c ≡ ok (a, e)
      → ((n : ℕ) (d : Cursor)
          → Took c (to_be 8 n) d
          → n < 2 ^ 64
          → All IsByte (left d)
          → f n d ≡ ok (a, e)
          → G)
      → G
  u64-elim f b h k =
      let (n, d, p, r) = reads-eq-ok u64 f c e a h in
      let (t, fits) = u64-eq-ok c d n b p in let (_, bd) = Took-IsByte t b in k n d t fits bd r

  pub bytes-elim :
      (max : ℕ) (f : Bytes → Parser A)
      → All IsByte (left c)
      → (bytes max >>= f) c ≡ ok (a, e)
      → ((v : Bytes) (d : Cursor)
          → Took c (field v) d
          → is_empty v ≡ false
          → length v ≤ max
          → All IsByte v
          → All IsByte (left d)
          → f v d ≡ ok (a, e)
          → G)
      → G
  bytes-elim max f b h k =
      let (v, d, p, r) = reads-eq-ok (bytes max) f c e a h in
      let (t, ne, le) = bytes-eq-ok max c d v b p in
      let (bf, bd) = Took-IsByte t b in
      k v d t ne le (All-append_right IsByte (to_be 2 (length v)) v bf) bd r

  pub string-elim :
      (max : ℕ) (f : Bytes → Parser A)
      → All IsByte (left c)
      → (string max >>= f) c ≡ ok (a, e)
      → ((v : Bytes) (d : Cursor)
          → Took c (field v) d
          → is_utf8 v ≡ true
          → All IsByte (left d)
          → f v d ≡ ok (a, e)
          → G)
      → G
  string-elim max f b h k =
      let (v, d, p, r) = reads-eq-ok (string max) f c e a h in
      let (t, utf8) = string-eq-ok max c d v b p in
      let (_, bd) = Took-IsByte t b in k v d t utf8 bd r

  -- A check that passed.
  pub check-elim :
      (x : Bool) (z : Error) (f : Parser A)
      → (lift (bail_if x z) >> f) c ≡ ok (a, e)
      → (x ≡ false → f c ≡ ok (a, e) → G)
      → G
  check-elim x z f h k = let (p, r) = check-eq-ok (bail_if x z) f c e a h in k (passed x p) r
    where
      passed : (x : Bool) → bail_if x z ≡ ok tt → x ≡ false
      passed true p = cc
      passed false p = refl

-- The end of a block.
pub pure-elim :
    {A : Type 0} (P : A → Cursor → Type 0) (a b : A) (c d : Cursor)
    → pure a c ≡ ok (b, d)
    → P a c
    → P b d
pure-elim P a b c d h u = let (same, here) = pure-eq-ok a b c d h in subst₂ P same here u
