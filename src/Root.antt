-- ===== src/Root.antt =====
-- `PinnedOmarchyRoot` of protocol_v3.rs: the trust anchor, read from bytes and from a file.
pub mod Permissions
pub mod Chain
use omarchy_sync.Base.{
  Bool, Bytes, List, Option, Result, [], all, bail_if, context, drop, err, false, if◌then◌else◌,
  insecure_root_key, insecure_root_parent, invalid_hex, invalid_root_key, io_failed,
  is_ascii_hexdigit, is_utf8, leb, length, ltb, not, ok, root_key_too_large, suc, take, true, zero,
  ℕ, ◌&&◌, ◌*◌, ◌+◌, ◌-◌, ◌==◌, ◌>>=◌, ◌>>◌, ◌||◌, ◌∷◌,
}
use Prim.Native.Nat.{bit_and}
use mathlib.Core.List.{reverse}
use omarchy_sync.Identity.{hex, public_key}
use omarchy_sync.Crypto.{Crypto}

pub record PinnedOmarchyRoot : Type 0 where
  pub public_key : Bytes
  pub key_id : Bytes

unfoldable pub key_id_for_public_key : Crypto → Bytes → Bytes
unfolding hex
key_id_for_public_key k key = hex (take 16 (k.sha256 key))

unfoldable pub hex_value : ℕ → Result ℕ
hex_value b =
    if leb b'0' b && leb b b'9'
    then ok (b - b'0')
    else if leb b'a' b && leb b b'f'
    then ok (b - b'a' + 10)
    else if leb b'A' b && leb b b'F'
    then ok (b - b'A' + 10)
    else err invalid_hex

-- The loop over the 32 bytes of the key, two digits for each.
unfoldable pub decode_hex : Bytes → Result Bytes
unfolding hex_value
decode_hex (hi ∷ lo ∷ rest) = do
  h ← hex_value hi
  l ← hex_value lo
  key ← decode_hex rest
  ok ((h * 16 + l) ∷ key)
decode_hex _ = ok []

-- The length in bytes of the `char::is_whitespace` character in front, 0 if there is none.
space_in_front : Bytes → ℕ
space_in_front (a ∷ b ∷ c ∷ bs) =
    if leb 0x09 a && leb a 0x0d || a == 0x20
    then 1
    else if a == 0xc2 && (b == 0x85 || b == 0xa0)
    then 2
    else if a == 0xe1 && b == 0x9a && c == 0x80
    then 3
    else if a == 0xe2
        && b == 0x80
        && (leb 0x80 c && leb c 0x8a || c == 0xa8 || c == 0xa9 || c == 0xaf)
    then 3
    else if a == 0xe2 && b == 0x81 && c == 0x9f
    then 3
    else if a == 0xe3 && b == 0x80 && c == 0x80
    then 3
    else 0
space_in_front (a ∷ b ∷ []) =
    if leb 0x09 a && leb a 0x0d || a == 0x20
    then 1
    else if a == 0xc2 && (b == 0x85 || b == 0xa0)
    then 2
    else 0
space_in_front (a ∷ []) = if leb 0x09 a && leb a 0x0d || a == 0x20 then 1 else 0
space_in_front [] = 0

-- The same at the end, on the reversed bytes.
space_behind : Bytes → ℕ
space_behind (a ∷ b ∷ c ∷ bs) =
    if leb 0x09 a && leb a 0x0d || a == 0x20
    then 1
    else if space_in_front (b ∷ a ∷ []) == 2
    then 2
    else if space_in_front (c ∷ b ∷ a ∷ []) == 3
    then 3
    else 0
space_behind (a ∷ b ∷ []) =
    if leb 0x09 a && leb a 0x0d || a == 0x20
    then 1
    else if space_in_front (b ∷ a ∷ []) == 2
    then 2
    else 0
space_behind (a ∷ []) = if leb 0x09 a && leb a 0x0d || a == 0x20 then 1 else 0
space_behind [] = 0

-- Each round drops a character, so the length is fuel enough.
trim_loop : ℕ → (Bytes → ℕ) → Bytes → Bytes
trim_loop zero space bs = bs
trim_loop (suc f) space bs = elim (space bs) [
  | zero ↦ bs
  | suc n ↦ trim_loop f space (drop (suc n) bs)
]

-- `str::trim`
unfoldable pub trim : Bytes → Bytes
unfolding trim_loop space_in_front space_behind
trim bs =
    let front = trim_loop (length bs) space_in_front bs in
    reverse (trim_loop (length front) space_behind (reverse front))

unfoldable pub from_bytes : Crypto → Bytes → Result PinnedOmarchyRoot
unfolding key_id_for_public_key
from_bytes k bs = do
  key ← if length bs == 32 then ok bs else (do
    bail_if (not (is_utf8 bs)) invalid_root_key
    let text = trim bs
    bail_if (not (length text == 64) || not (all is_ascii_hexdigit text)) invalid_root_key
    decode_hex text)
  bail_if (not (k.key_ok key)) invalid_root_key
  ok (record { public_key = key; key_id = key_id_for_public_key k key })

-- `fs::Metadata`, as far as the checks read it.
pub record Metadata : Type 0 where
  pub uid : ℕ
  pub mode : ℕ
  pub is_file : Bool
  pub is_dir : Bool

unfoldable pub root_key_policy : ℕ → ℕ → Bool → Bool
root_key_policy owner_uid mode regular_file =
    owner_uid == 0 && regular_file && bit_and mode 0o022 == 0

unfoldable pub root_key_metadata_is_secure : Metadata → Bool
unfolding root_key_policy
root_key_metadata_is_secure m = root_key_policy m.uid m.mode m.is_file

-- An absolute path, its last component first; `[]` is the root directory.
abbrev pub AbsolutePath : Type 0
AbsolutePath = List Bytes

-- What the file system answers: `symlink_metadata` and `read`.
pub record FileView : Type 0 where
  pub stat : AbsolutePath → Option Metadata
  pub content : AbsolutePath → Option Bytes

unfoldable pub insecure_directory : Metadata → Bool
insecure_directory m = not m.is_dir || not (m.uid == 0) || not (bit_and m.mode 0o022 == 0)

-- The rounds of the loop from a directory up to the root directory.
unfoldable pub chain_from : FileView → AbsolutePath → Result Bool
chain_from fs [] = do m ← context (fs.stat []) io_failed; ok (not (insecure_directory m))
chain_from fs (name ∷ up) = do
  m ← context (fs.stat (name ∷ up)) io_failed
  elim (insecure_directory m) [ true ↦ ok false | false ↦ chain_from fs up ]

unfoldable pub root_controlled_parent_chain : FileView → AbsolutePath → Result Bool
root_controlled_parent_chain fs [] = ok true
root_controlled_parent_chain fs (name ∷ up) = chain_from fs up

unfoldable pub from_secure_path : Crypto → FileView → AbsolutePath → Result PinnedOmarchyRoot
from_secure_path k fs path = do
  m ← context (fs.stat path) io_failed
  bail_if (not (root_key_metadata_is_secure m)) insecure_root_key
  controlled ← root_controlled_parent_chain fs path
  bail_if (not controlled) insecure_root_parent
  bs ← context (fs.content path) io_failed
  bail_if (ltb 4096 (length bs)) root_key_too_large
  from_bytes k bs
