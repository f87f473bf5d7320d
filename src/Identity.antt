-- ===== src/Identity.antt =====
-- identity.rs: the DeviceID of a public key, and `DeviceIdentity` as its signing key.
pub mod DeviceId
pub mod KeyFile
pub mod Capability
use omarchy_sync.Base.{Bytes, [], if◌then◌else◌, ltb, take, ℕ, ◌%◌, ◌++◌, ◌+◌, ◌-◌, ◌/◌, ◌∷◌}
use omarchy_sync.Crypto.{Crypto}

-- `format!("{byte:02x}")`
unfoldable pub hex_digit : ℕ → ℕ
hex_digit n = if ltb n 10 then b'0' + n else b'a' + (n - 10)

unfoldable pub hex_byte : ℕ → Bytes
unfolding hex_digit
hex_byte b = hex_digit (b / 16) ∷ hex_digit (b % 16) ∷ []

unfoldable pub hex : Bytes → Bytes
unfolding hex_byte
hex [] = []
hex (b ∷ bs) = hex_byte b ++ hex bs

unfoldable pub device_id_for_public_key : Crypto → Bytes → Bytes
unfolding hex
device_id_for_public_key k key = hex (take 16 (k.sha256 key))

-- The private key alone: the directory of its file is not consulted after loading.
pub record DeviceIdentity : Type 0 where
  pub signing_key : Bytes

module _ (k : Crypto) where
  unfoldable pub public_key : DeviceIdentity → Bytes
  public_key identity = k.public_of identity.signing_key

  unfoldable pub device_id : DeviceIdentity → Bytes
  unfolding public_key
  device_id identity = device_id_for_public_key k (public_key identity)

  unfoldable pub sign : DeviceIdentity → Bytes → Bytes
  sign identity message = k.sign identity.signing_key message
