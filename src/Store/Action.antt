-- ===== src/Store/Action.antt =====
-- Methods that change the directories: from the disk to the disk that they leave, also on an error.
use omarchy_sync.Base.{Result, err, ok}
use omarchy_sync.Store.Disk.{Dir, Disk}

abbrev pub Action : Type 0 → Type 0
Action A = Disk → Disk × Result A

abbrev pub and_then : {A B : Type 0} → Disk × Result A → (A → Action B) → Disk × Result B
and_then (d, ok a) f = f a d
and_then (d, err e) f = (d, err e)

infixl 5 ◌>>=◌ ◌>>◌
abbrev pub ◌>>=◌ : {A B : Type 0} → Action A → (A → Action B) → Action B
◌>>=◌ m f d = and_then (m d) f

abbrev pub ◌>>◌ : {B : Type 0} → Action (Unit {0}) → Action B → Action B
m >> k = m >>= λ _. k

-- A step that reads no disk, and one that reads it.
abbrev pub lift : {A : Type 0} → Result A → Action A
lift r d = (d, r)

abbrev pub reading : {A : Type 0} → (Disk → Result A) → Action A
reading f d = (d, f d)

-- A step that replaces one directory if it succeeds.
abbrev pub put_active : Disk → Result Dir → Disk × Result (Unit {0})
put_active d (ok dir) = (record d { active = dir }, ok tt)
put_active d (err e) = (d, err e)

abbrev pub put_pending : Disk → Result Dir → Disk × Result (Unit {0})
put_pending d (ok dir) = (record d { pending = dir }, ok tt)
put_pending d (err e) = (d, err e)
