-- ===== src/Tests/Toy.antt =====
-- Primitives that meet the laws: a digest is the first bytes, a signature the key and the message.
use omarchy_sync.Base.{
  All, All-append, Bytes, IsByte, [], arith, eq_bytes, eq_bytes_refl, length, length-append,
  length-take, map, refl, suc, take, true, zero, zeros, ℕ, ◌%◌, ◌++◌, ◌∷◌, ◌≡◌,
}
use omarchy_sync.Crypto.{Crypto, CryptoLaws}
use omarchy_sync.Identity.DeviceId.{All-take}

-- The first `n` bytes, filled up with zeros.
abbrev pub digest : ℕ → Bytes → Bytes
digest n m = take n (map (λ b. b % 256) m ++ zeros n)

abbrev pub toy : Crypto
toy = record {
  sha256 = digest 32;
  key_ok = λ key. true;
  verify_strict = λ key m sig. eq_bytes sig (digest 64 (key ++ m));
  public_of = digest 32;
  sign = λ s m. digest 64 (digest 32 s ++ m);
}

length-zeros : (n : ℕ) → length (zeros n) ≡ n
length-zeros zero = refl
length-zeros (suc n) = omega (arith, length-zeros n)

zeros-IsByte : (n : ℕ) → All IsByte (zeros n)
zeros-IsByte zero = tt
zeros-IsByte (suc n) = (omega arith, zeros-IsByte n)

low : (m : Bytes) → All IsByte (map (λ b. b % 256) m)
low [] = tt
low (b ∷ m) = (omega arith, low m)

pub length-digest : (n : ℕ) (m : Bytes) → length (digest n m) ≡ n
length-digest n m = omega (
  arith,
  length-take n (map (λ b. b % 256) m ++ zeros n),
  length-append (map (λ (b : ℕ). b % 256) m) (zeros n),
  length-zeros n,
)

digest-IsByte : (n : ℕ) (m : Bytes) → All IsByte (digest n m)
digest-IsByte n m =
    All-take n _ (All-append IsByte (map (λ b. b % 256) m) (zeros n) (low m) (zeros-IsByte n))

pub toy-CryptoLaws : CryptoLaws toy
toy-CryptoLaws = record {
  length-sha256 = length-digest 32;
  sha256-IsByte = digest-IsByte 32;
  length-public_of = length-digest 32;
  public_of-IsByte = digest-IsByte 32;
  key_ok-public_of = λ s. refl;
  length-sign = λ s m. length-digest 64 (digest 32 s ++ m);
  sign-IsByte = λ s m. digest-IsByte 64 (digest 32 s ++ m);
  verify-sign = λ s m. eq_bytes_refl (digest 64 (digest 32 s ++ m));
}
