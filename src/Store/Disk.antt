-- ===== src/Store/Disk.antt =====
-- The three directories of the store, as `read_dir` lists them, and reading one record. A list has the
-- entries for which `path.exists()` says yes.
use omarchy_sync.Record.{PairingRecord, Serde, checked_pair_id, from_bytes, is_some}
use omarchy_sync.Base.{
  Bool, Bytes, List, Option, Result, [], appeared_during_write, codes, eq_bytes, err, if◌then◌else◌,
  none, not, not_regular_file, ok, retain, some, ◌++◌, ◌==◌, ◌>>◌, ◌∷◌,
}

-- What a directory entry is: a regular file, or something else.
pub data Node : Type 0 where
  regular : Bytes → Node
  special : Node

abbrev pub Dir : Type 0
Dir = List (Bytes × Node)

pub record Disk : Type 0 where
  pub active : Dir
  pub pending : Dir
  pub revoked : Dir

unfoldable pub find : Bytes → Dir → Option Node
find name [] = none
find name ((n, node) ∷ dir) = if eq_bytes n name then some node else find name dir

-- `path.exists()`
abbrev pub exists : Bytes → Dir → Bool
exists name dir = is_some (find name dir)

-- `fs::remove_file` of one name.
unfoldable pub remove : Bytes → Dir → Dir
remove name dir = retain (λ e. not (eq_bytes e.0 name)) dir

-- `format!("{pair_id}.json")`
abbrev pub file_name : Bytes → Bytes
file_name id = id ++ codes ".json"

-- `active_path`, `pending_path` and `revoked_path`: the name in the directory.
unfoldable pub path_of : Bytes → Result Bytes
path_of id = do checked_pair_id id; ok (file_name id)

before_last_dot : Bytes → Option Bytes
before_last_dot [] = none
before_last_dot (b ∷ bs) = elim (before_last_dot bs) [
  | some stem ↦ some (b ∷ stem)
  | none ↦ if b == b'.' then some [] else none
]

-- `Path::file_stem` of an entry's name.
unfoldable pub file_stem : Bytes → Bytes
unfolding before_last_dot
file_stem name = elim (before_last_dot name) [
  | none ↦ name
  | some [] ↦ name
  | some (b ∷ stem) ↦ b ∷ stem
]

-- `Ok(Some(…?))`
abbrev pub and_some : Result PairingRecord → Result (Option PairingRecord)
and_some (ok r) = ok (some r)
and_some (err e) = err e

module _ (s : Serde) where
  unfoldable pub read_node : Node → Result PairingRecord
  read_node special = err not_regular_file
  read_node (regular bs) = from_bytes s bs

  abbrev pub read_found : Option Node → Result (Option PairingRecord)
  read_found none = ok none
  read_found (some node) = and_some (read_node node)

  -- `read_record`
  unfoldable pub read_record : Bytes → Dir → Result (Option PairingRecord)
  read_record name dir = read_found (find name dir)

-- `write_atomic`: a file is created whole, and never replaced.
unfoldable pub write_atomic : Bytes → Bytes → Dir → Result Dir
write_atomic name bs dir =
    if exists name dir then err appeared_during_write else ok ((name, regular bs) ∷ dir)
