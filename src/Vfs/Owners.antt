-- ===== src/Vfs/Owners.antt =====
-- files/vfs/file.c: who may change the mode and the owner of a file.
use some_os.Prelude.{ℕ, ◌%◌, Bool, true, false, Option, none, some, ◌==◌, if◌then◌else◌, ◌≡◌}
use some_os.Vfs.{eperm, ok, err, Result, VfsNode, Vfs, Caller, User, mode_type}
use some_os.Vfs.Files.{or_old}

-- The kernel, the user 0 and the owner.
abbrev pub may_change : VfsNode → Option User → Bool
may_change node none = true
may_change node (some user) =
    if user.euid == 0 then true else (if node.uid == user.euid then true else false)

-- All but the mode and the owner is the same, but the node is dirty and has the time of the change.
abbrev pub IsStamped : ℕ → VfsNode → VfsNode → Type 0
IsStamped now old new =
    (new.ctime ≡ now)
    × (new.dirty ≡ true)
    × (new.nlinks ≡ old.nlinks)
    × (new.ref_count ≡ old.ref_count)
    × (new.size ≡ old.size)
    × (new.rdev ≡ old.rdev)
    × (new.atime ≡ old.atime)
    × (new.mtime ≡ old.mtime)
    × (new.mounted ≡ old.mounted)
    × (new.superblock ≡ old.superblock)

-- The type of the node stays, and it has the permissions that are asked for.
abbrev pub HasMode : ℕ → ℕ → VfsNode → VfsNode → Type 0
HasMode mode now old new =
    (mode_type new.mode ≡ mode_type old.mode)
    × (new.mode % 4096 ≡ mode % 4096)
    × (new.uid ≡ old.uid)
    × (new.gid ≡ old.gid)
    × IsStamped now old new

-- Only the owner and the group change.
abbrev pub HasOwner : Option ℕ → Option ℕ → ℕ → VfsNode → VfsNode → Type 0
HasOwner uid gid now old new =
    (new.uid ≡ or_old uid old.uid)
    × (new.gid ≡ or_old gid old.gid)
    × (new.mode ≡ old.mode)
    × IsStamped now old new

module _ {D : Type 0} where
  -- The outcome of a change of a node: whoever may change it has done so, and its other fields, as a
  -- predicate on the old and the new node says, and the rest of the state is as it was; all others get
  -- EPERM and change nothing.
  abbrev pub IsPermitted :
      (VfsNode → VfsNode → Type 0) → Caller D → ℕ → Vfs D → Result (Unit {0}) × Vfs D → Type 0
  IsPermitted Changed c n s (ok _, s') =
      (may_change (s.nodes n) c.user ≡ true)
      × Changed (s.nodes n) (s'.nodes n)
      × ((i : ℕ) → (i == n) ≡ false → s'.nodes i ≡ s.nodes i)
      × (s' ≡ record s { nodes = s'.nodes })
  IsPermitted Changed c n s (err e, s') =
      (may_change (s.nodes n) c.user ≡ false) × (e ≡ eperm) × (s' ≡ s)
