-- ===== src/Identity/DeviceId.antt =====
-- Every DeviceID that identity.rs derives has the form that the other modules check.
use omarchy_sync.Identity.{device_id_for_public_key, hex, hex_byte, hex_digit}
use omarchy_sync.Base.{
  All, Bytes, IsByte, [], all, any, arith, false, is_ascii_hexdigit, is_ascii_uppercase, length,
  length-take, refl, suc, take, true, zero, ℕ, ◌%◌, ◌*◌, ◌/◌, ◌<◌, ◌∷◌, ◌≡◌,
}
use omarchy_sync.Certificate.{bad_hex_id}
use omarchy_sync.Crypto.{Crypto, CryptoLaws}

hex_digit_lower :
    (n : ℕ)
    → n < 16
    → (is_ascii_hexdigit (hex_digit n) ≡ true) × (is_ascii_uppercase (hex_digit n) ≡ false)
unfolding hex_digit is_ascii_hexdigit is_ascii_uppercase
hex_digit_lower n h = ground arith

pub length-hex : (bs : Bytes) → length (hex bs) ≡ 2 * length bs
unfolding hex
length-hex [] = refl
length-hex (b ∷ bs) = omega (arith, length-hex bs)

pub hex_lower :
    (bs : Bytes)
    → All IsByte bs
    → (all is_ascii_hexdigit (hex bs) ≡ true) × (any is_ascii_uppercase (hex bs) ≡ false)
hex_lower [] h = unfold hex in (refl, refl)
hex_lower (b ∷ bs) (hb, hs) =
    two (hex_digit_lower (b / 16) (omega arith)) (hex_digit_lower (b % 16) (omega arith))
      (hex_lower bs hs)
  where
    two :
        (is_ascii_hexdigit (hex_digit (b / 16)) ≡ true)
          × (is_ascii_uppercase (hex_digit (b / 16)) ≡ false)
        → (is_ascii_hexdigit (hex_digit (b % 16)) ≡ true)
          × (is_ascii_uppercase (hex_digit (b % 16)) ≡ false)
        → (all is_ascii_hexdigit (hex bs) ≡ true) × (any is_ascii_uppercase (hex bs) ≡ false)
        → (all is_ascii_hexdigit (hex (b ∷ bs)) ≡ true)
          × (any is_ascii_uppercase (hex (b ∷ bs)) ≡ false)
    two (p, p') (q, q') (r, r') = unfold hex hex_byte in (rw (p, q, r), rw (p', q', r'))

pub hex_good : (bs : Bytes) → All IsByte bs → length bs ≡ 16 → bad_hex_id (hex bs) ≡ false
unfolding bad_hex_id
hex_good bs h e =
    let (p, q) = hex_lower bs h in
    let size : length (hex bs) ≡ 32 = omega (arith, length-hex bs) in rw (size, p, q)

pub All-take : (n : ℕ) (bs : Bytes) → All IsByte bs → All IsByte (take n bs)
All-take zero bs h = tt
All-take (suc n) [] h = tt
All-take (suc n) (b ∷ bs) h = (h.0, All-take n bs h.1)

-- If the primitives meet their laws, the DeviceID derived from any key is 32 lower-case hexadecimal
-- digits, as the checks of a DeviceID ask.
pub device_id_for_public_key-good :
    (k : Crypto) (laws : CryptoLaws k) (key : Bytes)
    → bad_hex_id (device_id_for_public_key k key) ≡ false
unfolding device_id_for_public_key
device_id_for_public_key-good k laws key =
    hex_good (take 16 (k.sha256 key)) (All-take 16 _ (laws.sha256-IsByte key))
      (omega (arith, length-take 16 (k.sha256 key), laws.length-sha256 key))
