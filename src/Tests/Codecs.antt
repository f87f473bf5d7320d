-- ===== src/Tests/Codecs.antt =====
-- The theorems on certificates, identities and the pinned root at the two devices.
use omarchy_sync.Root
use omarchy_sync.Tests.Devices.{certificate, draft, files, id_of, root, root_signing_key}
use omarchy_sync.Tests.Toy.{digest, toy, toy-CryptoLaws}
use omarchy_sync.Certificate.Decode.{from_bytes}
use omarchy_sync.Certificate.Verify.{verify}
use omarchy_sync.Certificate.RoundTrip.{
  HasShape, encoding, from_bytes-to_bytes, to_bytes-HasShape, validate_shape-eq-ok,
}
use omarchy_sync.Certificate.{IsTyped, bad_hex_id, to_bytes}
use omarchy_sync.Base.{
  All, Bytes, IsByte, [], all, and-eq-true, arith, codes, false, is_utf8, length, ltb, ok, refl,
  some, true, zeros, ℕ, ◌<◌, ◌↔◌, ◌∷◌, ◌≡◌, ◌≤◌,
}
use omarchy_sync.Identity.{device_id_for_public_key}
use omarchy_sync.Root.{from_secure_path, key_id_for_public_key}
use omarchy_sync.Tests.Decodes.{
  draft-signing_bytes_test, encoding_bytes_test, from_bytes_test, issue_test, shape_test,
  signing_bytes_test,
}
use omarchy_sync.Identity.DeviceId.{device_id_for_public_key-good}
use omarchy_sync.Certificate.Canonical.{to_bytes-from_bytes}
use omarchy_sync.Certificate.Verify.Sound.{IsVerified, signing_bytes_inj, verify_iff}
use omarchy_sync.Certificate.Verify.Issue.{verify-issue}
use omarchy_sync.Root.Chain.{IsRootDirectory, IsRootFile, ancestors, from_secure_path_iff}

bytes_all : (bs : Bytes) → all (λ b. ltb b 256) bs ≡ true → All IsByte bs
bytes_all [] h = tt
bytes_all (b ∷ bs) h = let (p, q) = and-eq-true (ltb b 256) _ h in (below b p, bytes_all bs q)
  where
    below : (b : ℕ) → ltb b 256 ≡ true → b < 256
    below b h = ground arith

pub certificate-IsTyped : (n : ℕ) → IsTyped (certificate n)
certificate-IsTyped n = record {
  key_size = refl;
  signature_size = refl;
  before_fits = omega arith;
  after_fits = omega arith;
  name_utf8 = unfold is_utf8 in refl;
}

draft-IsTyped : IsTyped (draft 1)
draft-IsTyped = record {
  key_size = refl;
  signature_size = refl;
  before_fits = omega arith;
  after_fits = omega arith;
  name_utf8 = unfold is_utf8 in refl;
}

certificate-HasShape : HasShape (certificate 1)
certificate-HasShape = validate_shape-eq-ok (certificate 1) shape_test

pub certificate_to_bytes : to_bytes (certificate 1) ≡ ok (encoding (certificate 1))
certificate_to_bytes =
    to_bytes-HasShape (certificate 1) (certificate-IsTyped 1) certificate-HasShape

verify_iff_example :
    (verify toy (certificate 1) root 150 ≡ ok tt) ↔ IsVerified toy (certificate 1) root 150
verify_iff_example = verify_iff toy (certificate 1) root 150

verify-issue_example : verify toy (certificate 1) root 150 ≡ ok tt
verify-issue_example =
    verify-issue toy toy-CryptoLaws root_signing_key (id_of 1) (digest 32 (1 ∷ [])) (codes "laptop")
      100 200 150 (codes "root-1") (certificate 1) issue_test (omega arith) (omega arith)

signing_bytes_inj_example : record (certificate 1) { signature = zeros 64 } ≡ draft 1
signing_bytes_inj_example =
    signing_bytes_inj (certificate 1) (draft 1) _ (certificate-IsTyped 1) draft-IsTyped
      signing_bytes_test draft-signing_bytes_test

to_bytes-from_bytes_example :
    (to_bytes (certificate 1) ≡ ok (encoding (certificate 1)))
    × IsTyped (certificate 1)
    × HasShape (certificate 1)
to_bytes-from_bytes_example =
    to_bytes-from_bytes (encoding (certificate 1)) (certificate 1)
      (bytes_all (encoding (certificate 1)) encoding_bytes_test) from_bytes_test

from_bytes-to_bytes_example : from_bytes (encoding (certificate 1)) ≡ ok (certificate 1)
from_bytes-to_bytes_example =
    from_bytes-to_bytes (certificate 1) (encoding (certificate 1)) (certificate-IsTyped 1)
      certificate_to_bytes

to_bytes-HasShape_example : to_bytes (certificate 1) ≡ ok (encoding (certificate 1))
to_bytes-HasShape_example =
    to_bytes-HasShape (certificate 1) (certificate-IsTyped 1) certificate-HasShape

device_id_for_public_key-good_example :
    bad_hex_id (device_id_for_public_key toy (digest 32 (1 ∷ []))) ≡ false
device_id_for_public_key-good_example =
    device_id_for_public_key-good toy toy-CryptoLaws (digest 32 (1 ∷ []))

from_secure_path_iff_example :
    (from_secure_path toy files (codes "root.key" ∷ [])
      ≡ ok (record root { key_id = key_id_for_public_key toy root.public_key }))
    ↔ (IsRootFile files (codes "root.key" ∷ [])
        × All (IsRootDirectory files) (ancestors [])
        × ((bs : Bytes) × (files.content (codes "root.key" ∷ []) ≡ some bs)
            × (length bs ≤ 4096)
            × (Root.from_bytes toy bs
                ≡ ok (record root { key_id = key_id_for_public_key toy root.public_key }))))
from_secure_path_iff_example =
    from_secure_path_iff toy files (codes "root.key") []
      (record root { key_id = key_id_for_public_key toy root.public_key })
