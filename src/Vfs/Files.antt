-- ===== src/Vfs/Files.antt =====
-- files/vfs/file.c: the calls on open files.
use some_os.Prelude.{ℕ, ◌+◌, ◌*◌, ◌/◌, ◌%◌, Option, none, some, add64, sub64, ◌==◌, if◌then◌else◌}
use some_os.Vfs.{Error, einval, ok, err, Result, VfsNode, Vfs, Caller, Action, can_access}
use some_os.Vfs.Node.{set_node, vfs_node_close, vfs_node_trunc, vfs_super_write_node}

-- `VfsFile` without its path.
pub record OpenedFile : Type 0 where
  pub node : ℕ
  pub offset : ℕ
  pub ref_count : ℕ

-- VFS_SEEK_SET, VFS_SEEK_CUR and VFS_SEEK_END; `other` is any further number.
pub data Whence : Type 0 where
  seek_set seek_cur seek_end seek_other : Whence

abbrev seek_to : ℕ → OpenedFile → Result ℕ × OpenedFile
seek_to offset file = (ok offset, record file { offset = offset })

-- VFS_ACCESS_CHMOD is 32. The type stays.
abbrev pub with_mode : ℕ → VfsNode → VfsNode
with_mode mode node = record node { mode = node.mode / 4096 * 4096 + mode % 4096 }

abbrev pub or_old : Option ℕ → ℕ → ℕ
or_old none old = old
or_old (some new) old = new

-- VFS_ACCESS_CHOWN is 64. `none` is a number below zero, which leaves the owner or the group.
abbrev pub with_owner : Option ℕ → Option ℕ → VfsNode → VfsNode
with_owner uid gid node = record node { uid = or_old uid node.uid; gid = or_old gid node.gid }

module _ {D : Type 0} where
  -- An offset below zero is a number near 2 ^ 64, and wraps around.
  unfoldable pub vfs_file_seek : Vfs D → OpenedFile → ℕ → Whence → Result ℕ × OpenedFile
  unfolding add64
  vfs_file_seek s file offset seek_cur = seek_to (add64 file.offset offset) file
  vfs_file_seek s file offset seek_set = seek_to offset file
  vfs_file_seek s file offset seek_end = seek_to (add64 (s.nodes file.node).size offset) file
  vfs_file_seek s file offset seek_other = (err einval, file)

  -- The offset goes on by what a call on the node has read or written.
  abbrev advanced : OpenedFile → Result ℕ × Vfs D → Result ℕ × OpenedFile × Vfs D
  advanced file (ok n, s) = (ok n, record file { offset = add64 file.offset n }, s)
  advanced file (err e, s) = (err e, file, s)

  -- `vfsFileRead`, `vfsFileWrite` and `vfsFileReaddir`, with the call on the node at the offset.
  unfoldable pub vfs_file_transfer :
      (ℕ → ℕ → Action D ℕ) → OpenedFile → Vfs D → Result ℕ × OpenedFile × Vfs D
  unfolding add64
  vfs_file_transfer call file s = advanced file (call file.node file.offset s)

  unfoldable pub vfs_file_trunc : Caller D → OpenedFile → ℕ → Action D (Unit {0})
  unfolding vfs_node_trunc
  vfs_file_trunc c file size = vfs_node_trunc c file.node size

  -- A change of a node that needs a permission.
  abbrev pub change_if : Caller D → ℕ → (VfsNode → VfsNode) → Option Error → Action D (Unit {0})
  change_if c n change (some e) s = (err e, s)
  change_if c n change none s = (ok tt, set_node n (vfs_super_write_node c (change (s.nodes n))) s)

  unfoldable pub vfs_file_chmod : Caller D → OpenedFile → ℕ → Action D (Unit {0})
  unfolding can_access
  vfs_file_chmod c file mode s =
      change_if c file.node (with_mode mode) (can_access (s.nodes file.node) c.user 32) s

  unfoldable pub vfs_file_chown : Caller D → OpenedFile → Option ℕ → Option ℕ → Action D (Unit {0})
  unfolding can_access
  vfs_file_chown c file uid gid s =
      change_if c file.node (with_owner uid gid) (can_access (s.nodes file.node) c.user 64) s

  -- A file whose last reference is closed closes its node; `none` is the file that is freed.
  unfoldable pub close_opened : Caller D → OpenedFile → Vfs D → Option OpenedFile × Vfs D
  unfolding vfs_node_close sub64
  close_opened c file s =
      let left = sub64 file.ref_count 1 in
      let closed = vfs_node_close c.driver file.node s in
      if left == 0 then (none, closed) else (some (record file { ref_count = left }), s)
