-- ===== src/Identity/KeyFile.antt =====
-- `DeviceIdentity::load_or_create` of identity.rs: the directory with the private key.
-- Only the source of random bytes may fail; other I/O errors are not modelled.
use omarchy_sync.Identity.{DeviceIdentity}
use omarchy_sync.Base.{
  ==_iff, Bytes, Option, Result, ap, bail_if, bail_if-elim, err, io_failed, length,
  malformed_identity, none, not, not_regular_file, ok, ok_inj, refl, some, ℕ, ◌==◌, ◌>>◌, ◌≡◌,
}

-- An entry of a directory: a regular file with its permissions and content, or something else.
pub data KeyNode : Type 0 where
  file : ℕ → Bytes → KeyNode
  special : KeyNode

-- `state_root/identity`: its permissions, and the entry `identity.ed25519` if there is one.
pub record IdentityDirectory : Type 0 where
  pub mode : ℕ
  pub key : Option KeyNode

-- 0o700 and 0o600
abbrev pub identity_dir_mode : ℕ
identity_dir_mode = 448

abbrev pub private_key_mode : ℕ
private_key_mode = 384

abbrev pub private_key_bytes : ℕ
private_key_bytes = 32

abbrev pub identity_of : Bytes → Result DeviceIdentity
identity_of bs = do
  bail_if (not (length bs == private_key_bytes)) malformed_identity
  ok (record { signing_key = bs })

-- `read_exact` of 32 bytes from `/dev/urandom`, which may fail, and the file with them.
abbrev pub created : IdentityDirectory → Option Bytes → IdentityDirectory × Result DeviceIdentity
created d none = (d, err io_failed)
created d (some random) = (
  record d { mode = identity_dir_mode; key = some (file private_key_mode random) },
  ok (record { signing_key = random }),
)

-- `path.exists()`, and what the entry is.
abbrev pub opened :
    IdentityDirectory → Option KeyNode → Option Bytes → IdentityDirectory × Result DeviceIdentity
opened d none random = created d random
opened d (some special) random = (d, err not_regular_file)
opened d (some (file mode bs)) random =
    (record d { key = some (file private_key_mode bs) }, identity_of bs)

-- The state after the call; `random` is what the source of random bytes would give.
unfoldable pub load_or_create :
    Option Bytes → IdentityDirectory → IdentityDirectory × Result DeviceIdentity
load_or_create random d = opened (record d { mode = identity_dir_mode }) d.key random

-- A key that was loaded or created stays: if the source of random bytes gives 32 bytes when it gives
-- any and `load_or_create` returns an identity, then the next call finds the directory as it is,
-- whatever the source gives then, and returns the same identity; and the directory and the key's
-- file, which holds the identity's key, are open to their owner alone.
pub load_or_create-load_or_create :
    (random again : Option Bytes) (d : IdentityDirectory) (identity : DeviceIdentity)
    → ((bs : Bytes) → random ≡ some bs → length bs ≡ private_key_bytes)
    → (load_or_create random d).1 ≡ ok identity
    → (load_or_create again (load_or_create random d).0
        ≡ ((load_or_create random d).0, ok identity))
      × ((load_or_create random d).0.mode ≡ identity_dir_mode)
      × ((load_or_create random d).0.key ≡ some (file private_key_mode identity.signing_key))
unfolding load_or_create
load_or_create-load_or_create random again d identity sized h = go d.key random sized h
  where
    e : IdentityDirectory
    e = record d { mode = identity_dir_mode }

    stays :
        (bs : Bytes)
        → identity_of bs ≡ ok identity
        → (load_or_create again (record e { key = some (file private_key_mode bs) })
            ≡ (record e { key = some (file private_key_mode bs) }, ok identity))
          × (identity_dir_mode ≡ identity_dir_mode)
          × (some (file private_key_mode bs) ≡ some (file private_key_mode identity.signing_key))
    stays bs w = bail_if-elim (not (length bs == private_key_bytes)) _ _ w λ same w1. (
      ap (λ r. (record e { key = some (file private_key_mode bs) }, r)) w,
      refl,
      ap (λ (x : DeviceIdentity). some (file private_key_mode x.signing_key)) (ok_inj w1),
    )

    go :
        (o : Option KeyNode) (r : Option Bytes)
        → ((bs : Bytes) → r ≡ some bs → length bs ≡ private_key_bytes)
        → (opened e o r).1 ≡ ok identity
        → (load_or_create again (opened e o r).0 ≡ ((opened e o r).0, ok identity))
          × ((opened e o r).0.mode ≡ identity_dir_mode)
          × ((opened e o r).0.key ≡ some (file private_key_mode identity.signing_key))
    go none none size w = cc
    go none (some bs) size w =
        stays bs (rw ((==_iff (length bs) private_key_bytes).1 (size bs refl)) w)
    go (some special) r size w = cc
    go (some (file mode bs)) r size w = stays bs w
