-- ===== src/Crypto.antt =====
-- The primitives of ed25519-dalek and sha2 that the sources call. They are no code of the
-- repository: every definition takes them as a parameter.
use omarchy_sync.Base.{All, Bool, Bytes, IsByte, length, true, ◌≡◌}

pub record Crypto : Type 0 where
  -- `Sha256::digest`
  pub sha256 : Bytes → Bytes
  -- `VerifyingKey::from_bytes(key).is_ok()`
  pub key_ok : Bytes → Bool
  -- `key.verify_strict(message, signature).is_ok()`
  pub verify_strict : Bytes → Bytes → Bytes → Bool
  -- `signing_key.verifying_key().to_bytes()`
  pub public_of : Bytes → Bytes
  -- `signing_key.sign(message).to_bytes()`
  pub sign : Bytes → Bytes → Bytes

-- What the libraries document of them.
pub record CryptoLaws (k : Crypto) : Type 0 where
  pub length-sha256 : (m : Bytes) → length (k.sha256 m) ≡ 32
  pub sha256-IsByte : (m : Bytes) → All IsByte (k.sha256 m)
  pub length-public_of : (s : Bytes) → length (k.public_of s) ≡ 32
  pub public_of-IsByte : (s : Bytes) → All IsByte (k.public_of s)
  pub key_ok-public_of : (s : Bytes) → k.key_ok (k.public_of s) ≡ true
  pub length-sign : (s m : Bytes) → length (k.sign s m) ≡ 64
  pub sign-IsByte : (s m : Bytes) → All IsByte (k.sign s m)
  pub verify-sign : (s m : Bytes) → k.verify_strict (k.public_of s) m (k.sign s m) ≡ true
