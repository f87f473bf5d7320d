-- ===== src/Cursor.antt =====
-- The bounded reader `Cursor` of protocol_v3.rs, which pairing.rs repeats, and `put_bytes`.
-- A method that moves the cursor is a function to the value and the moved cursor.
pub mod Reads
pub mod Accepts
pub mod Elim
use omarchy_sync.Base.{
  Bytes, Result, [], bail_if, drop, err, field_exceeds_limit, from_be, if◌then◌else◌,
  invalid_field_length, is_empty, is_utf8, leb, length, length_overflow, ltb, not, not_utf8, ok,
  to_be, trailing_bytes, truncated, ℕ, ◌%◌, ◌++◌, ◌+◌, ◌-◌, ◌==◌, ◌^◌, ◌||◌, ◌∷◌,
}
use Prim.Native.Nat.{max}

pub record Cursor : Type 0 where
  pub bytes : Bytes
  pub position : ℕ

abbrev pub new : Bytes → Cursor
new bs = record { bytes = bs; position = 0 }

-- What the cursor has not read.
abbrev pub left : Cursor → Bytes
left c = drop c.position c.bytes

abbrev pub advance : Cursor → ℕ → Cursor
advance c n = record c { position = c.position + n }

abbrev pub Parser : Type 0 → Type 0
Parser A = Cursor → Result (A × Cursor)

unfoldable pub pure : {A : Type 0} → A → Parser A
pure a c = ok (a, c)

-- The rest of a method goes on at the cursor that a read left.
abbrev pub and_then : {A B : Type 0} → Result (A × Cursor) → (A → Parser B) → Result (B × Cursor)
and_then (ok (a, c)) f = f a c
and_then (err e) f = err e

infixl 5 ◌>>=◌ ◌>>◌
abbrev pub ◌>>=◌ : {A B : Type 0} → Parser A → (A → Parser B) → Parser B
◌>>=◌ m f c = and_then (m c) f

abbrev pub ◌>>◌ : {B : Type 0} → Parser (Unit {0}) → Parser B → Parser B
m >> k = m >>= λ _. k

-- A check between two reads, and a fallible step that reads nothing.
unfoldable pub lift : {A : Type 0} → Result A → Parser A
lift (ok a) c = ok (a, c)
lift (err e) c = err e

abbrev pub usize_size : ℕ
usize_size = 2 ^ 64

-- `position.checked_add(length)`, the bound, the slice.
unfoldable pub take : ℕ → Parser Bytes
take n c =
    if leb usize_size (c.position + n)
    then err length_overflow
    else if ltb (length c.bytes) (c.position + n)
    then err truncated
    else ok (package.omarchy_sync.Base.take n (left c), advance c n)

-- `bytes[0]` of a slice of one byte.
abbrev pub first : Bytes → ℕ
first [] = 0
first (b ∷ bs) = b

unfoldable pub u8 : Parser ℕ
u8 = do bs ← take 1; pure (first bs)

unfoldable pub u16 : Parser ℕ
u16 = do bs ← take 2; pure (from_be bs)

unfoldable pub u64 : Parser ℕ
u64 = do bs ← take 8; pure (from_be bs)

-- A field with its length in front.
unfoldable pub bytes : ℕ → Parser Bytes
bytes max = do n ← u16; lift (bail_if (n == 0 || ltb max n) field_exceeds_limit); take n

unfoldable pub string : ℕ → Parser Bytes
string max = do bs ← bytes max; lift (bail_if (not (is_utf8 bs)) not_utf8); pure bs

unfoldable pub remaining : Cursor → ℕ
remaining c = length c.bytes - c.position

unfoldable pub finish : Parser (Unit {0})
finish c = if c.position == length c.bytes then ok (tt, c) else err trailing_bytes

abbrev pub value_of : {A : Type 0} → Result (A × Cursor) → Result A
value_of (ok (a, c)) = ok a
value_of (err e) = err e

-- `let mut c = Cursor::new(bytes); …; c.finish()?`
unfoldable pub run : {A : Type 0} → Parser A → Bytes → Result A
run p bs = value_of (and_then (p (new bs)) (λ a. finish >> pure a))

-- The writer's side: the bytes that `put_bytes` appends to its output.
unfoldable pub put_bytes : Bytes → ℕ → Result Bytes
put_bytes value max =
    if is_empty value || ltb max (length value) || ltb 65535 (length value)
    then err invalid_field_length
    else ok (to_be 2 (length value % 2 ^ 16) ++ value)

-- The encoding of a field that fits.
abbrev pub field : Bytes → Bytes
field value = to_be 2 (length value) ++ value
