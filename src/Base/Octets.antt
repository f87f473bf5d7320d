-- ===== src/Base/Octets.antt =====
-- Bytes, their equality, ASCII classes and well-formed UTF-8.
-- A `String` of the sources is the list of its UTF-8 bytes, a byte array the list of its bytes.
use Prim.Native.Nat.{suc, zero, ℕ, ◌<◌}
use mathlib.Core.Path.{refl, ◌≡◌}
use mathlib.Core.Logic.{◌↔◌, ◌≢◌}
use mathlib.Core.Bool.{Bool, false, true, ◌&&◌, ◌||◌}
use mathlib.Core.Option.{Option, none, some}
use mathlib.Core.List.{List, [], ◌∷◌}
use native.Mathlib.Omega.{arith}
use omarchy_sync.Base.Tests.{and-eq-true, if◌then◌else◌, leb, ltb, ◌==◌}
use omarchy_sync.Base.Lists.{All, all}

abbrev pub Bytes : Type 0
Bytes = List ℕ

abbrev pub IsByte : ℕ → Type 0
IsByte b = b < 256

-- `[0_u8; n]`
abbrev pub zeros : ℕ → Bytes
zeros zero = []
zeros (suc n) = 0 ∷ zeros n

unfoldable pub eq_bytes : Bytes → Bytes → Bool
eq_bytes [] [] = true
eq_bytes [] (y ∷ ys) = false
eq_bytes (x ∷ xs) [] = false
eq_bytes (x ∷ xs) (y ∷ ys) = x == y && eq_bytes xs ys

pub eq_bytes→eq : (xs ys : Bytes) → eq_bytes xs ys ≡ true → xs ≡ ys
unfolding eq_bytes
eq_bytes→eq [] [] h = refl
eq_bytes→eq [] (y ∷ ys) h = cc
eq_bytes→eq (x ∷ xs) [] h = cc
eq_bytes→eq (x ∷ xs) (y ∷ ys) h = ground (arith, eq_bytes→eq xs ys)

pub eq_bytes_refl : (xs : Bytes) → eq_bytes xs xs ≡ true
unfolding eq_bytes
eq_bytes_refl [] = refl
eq_bytes_refl (x ∷ xs) = ground (arith, eq_bytes_refl xs)

pub eq_bytes_iff : (xs ys : Bytes) → (eq_bytes xs ys ≡ true) ↔ (xs ≡ ys)
eq_bytes_iff xs ys = (eq_bytes→eq xs ys, λ e. rw e (eq_bytes_refl ys))

pub ne_of_eq_bytes : (xs ys : Bytes) → eq_bytes xs ys ≡ false → xs ≢ ys
ne_of_eq_bytes xs ys h e = cc (h, (eq_bytes_iff xs ys).1 e)

-- `u8::is_ascii_hexdigit`, `is_ascii_uppercase`, `is_ascii_alphanumeric`
unfoldable pub is_ascii_hexdigit : ℕ → Bool
is_ascii_hexdigit b =
    leb b'0' b && leb b b'9' || leb b'a' b && leb b b'f' || leb b'A' b && leb b b'F'

unfoldable pub is_ascii_uppercase : ℕ → Bool
is_ascii_uppercase b = leb b'A' b && leb b b'Z'

unfoldable pub is_ascii_alphanumeric : ℕ → Bool
is_ascii_alphanumeric b =
    leb b'0' b && leb b b'9' || leb b'a' b && leb b b'z' || leb b'A' b && leb b b'Z'

-- The states of a scanner of well-formed UTF-8: what the next byte may be.
pub data Utf8 : Type 0 where
  start tail1 tail2 tail3 after_e0 after_ed after_f0 after_f4 : Utf8

utf8_lead : ℕ → Option Utf8
utf8_lead b =
    if ltb b 0x80
    then some start
    else if ltb b 0xc2
    then none
    else if ltb b 0xe0
    then some tail1
    else if b == 0xe0
    then some after_e0
    else if b == 0xed
    then some after_ed
    else if ltb b 0xf0
    then some tail2
    else if b == 0xf0
    then some after_f0
    else if ltb b 0xf4
    then some tail3
    else if b == 0xf4
    then some after_f4
    else none

utf8_between : ℕ → ℕ → Utf8 → ℕ → Option Utf8
utf8_between lo hi next b = if leb lo b && leb b hi then some next else none

utf8_step : Utf8 → ℕ → Option Utf8
unfolding utf8_lead utf8_between
utf8_step start b = utf8_lead b
utf8_step tail1 b = utf8_between 0x80 0xbf start b
utf8_step tail2 b = utf8_between 0x80 0xbf tail1 b
utf8_step tail3 b = utf8_between 0x80 0xbf tail2 b
utf8_step after_e0 b = utf8_between 0xa0 0xbf tail1 b
utf8_step after_ed b = utf8_between 0x80 0x9f tail1 b
utf8_step after_f0 b = utf8_between 0x90 0xbf tail2 b
utf8_step after_f4 b = utf8_between 0x80 0x8f tail2 b

utf8_run : Option Utf8 → Bytes → Bool
unfolding utf8_step
utf8_run none bs = false
utf8_run (some start) [] = true
utf8_run (some _) [] = false
utf8_run (some s) (b ∷ bs) = utf8_run (utf8_step s b) bs

-- `str::from_utf8(bytes).is_ok()`
unfoldable pub is_utf8 : Bytes → Bool
unfolding utf8_run
is_utf8 bs = utf8_run (some start) bs

utf8_run-ascii :
    (b : ℕ) (bs : Bytes) → b < 128 → utf8_run (some start) (b ∷ bs) ≡ utf8_run (some start) bs
unfolding utf8_run
utf8_run-ascii b bs h = ground arith

utf8_run-ascii-All : (bs : Bytes) → All (λ b. b < 128) bs → utf8_run (some start) bs ≡ true
utf8_run-ascii-All [] h = unfold utf8_run in refl
utf8_run-ascii-All (b ∷ bs) h = rw (utf8_run-ascii b bs h.0) (utf8_run-ascii-All bs h.1)

-- ASCII text is UTF-8.
pub is_utf8-ascii : (bs : Bytes) → All (λ b. b < 128) bs → is_utf8 bs ≡ true
unfolding is_utf8
is_utf8-ascii = utf8_run-ascii-All

pub all-hexdigit-ascii : (bs : Bytes) → all is_ascii_hexdigit bs ≡ true → All (λ b. b < 128) bs
unfolding is_ascii_hexdigit
all-hexdigit-ascii [] h = tt
all-hexdigit-ascii (b ∷ bs) h =
    let (p, q) = and-eq-true (is_ascii_hexdigit b) (all is_ascii_hexdigit bs) h in
    (ground arith, all-hexdigit-ascii bs q)
