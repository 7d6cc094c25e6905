-- ===== src/Vfs/Calls.antt =====
-- files/vfs/fs.c: the calls that make, open, link and unlink nodes.
use Prim.Native.Nat.{bit_and}
use some_os.Prelude.{
  ℕ, ◌+◌, ◌-◌, ◌*◌, ◌/◌, ◌%◌, Bool, true, false, not, ◌&&◌, ◌||◌, Option, none, some, [], ◌∷◌, ◌++◌,
  ◌==◌, if◌then◌else◌,
}
use some_os.Path.{Text, slash, dot, get_base_filename}
use some_os.Vfs.{
  Error, enoent, einval, eexist, enxio, ok, err, Result, VfsNode, Vfs, Device, block_device,
  char_device, Caller, User, Action, checked, then_do, mode_type, has, type_fifo, type_char,
  type_dir, type_block, type_reg, can_access,
}
use some_os.Vfs.Node.{set_node, vfs_node_close, vfs_node_trunc, vfs_node_link, vfs_super_new_node}
use some_os.Vfs.Lookup.{vfs_lookup_node_at}

-- The file of a relative path: none, or one with or without a path.
abbrev pub At : Type 0
At = Option (Option Text)

abbrev pub is_enoent : Error → Bool
is_enoent enoent = true
is_enoent _ = false

-- The flags of VfsOpenFlags, and OPEN_ACCESS.
abbrev pub open_access : ℕ → ℕ
open_access flags = flags % 4 + flags / 1048576 % 8 * 4

-- A `VfsFile`, with its node, its path and its offset.
pub data OpenFile : Type 0 where
  regular_file block_file : ℕ → Text → ℕ → OpenFile
  char_file : ℕ → Text → OpenFile
  fifo_file : ℕ → Text → Bool → OpenFile

abbrev umask_of : Option User → ℕ
umask_of none = 0
umask_of (some user) = user.umask

-- The path that is given back: that of the root has no '/' of its own behind it.
abbrev child_path : Text → Text → Text
child_path (c ∷ []) name = c ∷ name
child_path parent name = parent ++ slash ∷ name

module _ {D : Type 0} where
  abbrev pub for_kernel : Caller D → Caller D
  for_kernel c = record c { user = none }

  abbrev pub close : Caller D → ℕ → Vfs D → Vfs D
  close c n s = vfs_node_close c.driver n s

  abbrev pub link_dot_dot : Caller D → ℕ → ℕ → Unit {0} → Action D (Unit {0})
  link_dot_dot c dir parent _ = vfs_node_link (for_kernel c) dir (dot ∷ dot ∷ []) parent

  unfoldable pub vfs_create_directory_dot_and_dot_dot : Caller D → ℕ → ℕ → Action D (Unit {0})
  unfolding vfs_node_link checked
  vfs_create_directory_dot_and_dot_dot c dir parent =
      then_do (vfs_node_link (for_kernel c) dir (dot ∷ []) dir) (link_dot_dot c dir parent)

  -- The fields of a new node.
  abbrev pub initialized : Caller D → ℕ → ℕ → VfsNode → VfsNode
  initialized c mode device node = record node {
    mode = mode - bit_and mode (umask_of c.user);
    nlinks = 0;
    uid = elim c.user [ none ↦ 0 | some user ↦ user.euid ];
    gid = elim c.user [ none ↦ 0 | some user ↦ user.egid ];
    rdev = device;
    size = 0;
    atime = c.now;
    mtime = c.now;
    ctime = c.now;
  }

  abbrev pub link_dots : Caller D → ℕ → ℕ → ℕ → Action D (Unit {0})
  link_dots c mode parent new s =
      let dots = vfs_create_directory_dot_and_dot_dot c new parent s in
      if mode_type mode == type_dir then dots else (ok tt, s)

  -- The new node is in its directory; `real` is the path of that.
  abbrev pub finish_new : Caller D → ℕ → Text → Text → ℕ → Unit {0} → Action D (ℕ × Text)
  finish_new c parent real name new _ s = (ok (new, child_path real name), close c parent s)

  abbrev pub close_both : Caller D → ℕ → ℕ → Vfs D → Vfs D
  close_both c a b s = close c a (close c b s)

  abbrev pub fill_new : Caller D → Text → ℕ → ℕ → ℕ × Text → ℕ → Action D (ℕ × Text)
  fill_new c name mode device (parent, real) new s =
      let s' = set_node new (initialized c mode device (s.nodes new)) s in
      checked (vfs_node_link c parent name new) (close_both c new parent)
        (λ _.
          checked (link_dots c mode parent new) (close_both c new parent)
            (finish_new c parent real name new))
        s'

  abbrev pub new_in : Caller D → Text → ℕ → ℕ → ℕ × Text → Action D (ℕ × Text)
  new_in c name mode device parent s =
      checked (vfs_super_new_node c (s.nodes parent.0).superblock) (close c parent.0)
        (fill_new c name mode device parent) s

  unfoldable pub vfs_create_new_node : Caller D → At → Text → ℕ → ℕ → Action D (ℕ × Text)
  unfolding vfs_lookup_node_at vfs_super_new_node vfs_create_directory_dot_and_dot_dot checked
      vfs_node_close vfs_node_link get_base_filename
  vfs_create_new_node c file path mode device =
      then_do (vfs_lookup_node_at c file path true false)
        (new_in c (get_base_filename path) mode device)

  -- The file of a node that is a device; the special file holds the reference from there on.
  abbrev pub open_device : Caller D → ℕ → Text → ℕ → Option Device → Action D OpenFile
  open_device c node path flags (some (block_device size)) s =
      if mode_type (s.nodes node).mode == type_block
      then (ok (block_file node path (if has flags 8 then size else 0)), s)
      else (err enxio, close c node s)
  open_device c node path flags (some char_device) s =
      if mode_type (s.nodes node).mode == type_char
      then (ok (char_file node path), s)
      else (err enxio, close c node s)
  open_device c node path flags none s = (err enxio, close c node s)

  abbrev pub open_regular : Caller D → ℕ → Text → ℕ → Unit {0} → Action D OpenFile
  open_regular c node path flags _ s =
      (ok (regular_file node path (if has flags 8 then (s.nodes node).size else 0)), s)

  abbrev pub truncate : Caller D → ℕ → ℕ → Action D (Unit {0})
  truncate c node flags s =
      let done = vfs_node_trunc c node 0 s in
      if has flags 1024 && has flags 2 then done else (ok tt, s)

  abbrev pub open_allowed : Caller D → ℕ → Text → ℕ → Action D OpenFile
  open_allowed c node path flags s =
      let type = mode_type (s.nodes node).mode in
      let device = open_device c node path flags (c.device (s.nodes node).rdev) s in
      let regular =
        checked (truncate c node flags) (close c node) (open_regular c node path flags) s in
      if type == type_fifo
      then (ok (fifo_file node path (has flags 2)), s)
      else if (type == type_char) || (type == type_block)
      then device
      else regular

  abbrev pub open_unless : Caller D → ℕ × Text → ℕ → Option Error → Action D OpenFile
  open_unless c node flags (some e) s = (err e, close c node.0 s)
  open_unless c node flags none s = open_allowed c node.0 node.1 flags s

  unfoldable pub vfs_open_node : Caller D → ℕ × Text → ℕ → Action D OpenFile
  unfolding can_access vfs_node_trunc checked vfs_node_close
  vfs_open_node c node flags s =
      open_unless c node flags (can_access (s.nodes node.0) c.user (open_access flags)) s

  abbrev pub open_found : Caller D → ℕ → ℕ × Text → Action D OpenFile
  open_found c flags found s =
      let opened = vfs_open_node c found flags s in
      if has flags 2048 then (err eexist, close c found.0 s) else opened

  abbrev pub open_new : Caller D → At → Text → ℕ → ℕ → Action D OpenFile
  open_new c file path flags mode =
      then_do (vfs_create_new_node c file path (mode % 4096 + type_reg * 4096) 0)
        (λ node. vfs_open_node c node flags)

  abbrev pub open_result :
      Caller D → At → Text → ℕ → ℕ → Result (ℕ × Text) × Vfs D → Result OpenFile × Vfs D
  open_result c file path flags mode (ok node, s) = open_found c flags node s
  open_result c file path flags mode (err e, s) =
      let new = open_new c file path flags mode s in
      if is_enoent e && has flags 512 then new else (err e, s)

  -- A node is made when there is none and VFS_OPEN_CREAT is given, always that of a regular file.
  unfoldable pub vfs_open_at : Caller D → At → Text → ℕ → ℕ → Action D OpenFile
  unfolding vfs_lookup_node_at vfs_create_new_node vfs_open_node vfs_node_close checked
  vfs_open_at c file path flags mode s =
      open_result c file path flags mode (vfs_lookup_node_at c file path false false s)

  abbrev pub close_new : Caller D → ℕ × Text → Action D (Unit {0})
  close_new c node s = (ok tt, close c node.0 s)

  abbrev pub mknod_result :
      Caller D → At → Text → ℕ → ℕ → Result (ℕ × Text) × Vfs D → Result (Unit {0}) × Vfs D
  mknod_result c file path mode device (ok node, s) = (err eexist, close c node.0 s)
  mknod_result c file path mode device (err e, s) =
      let new = then_do (vfs_create_new_node c file path mode device) (close_new c) s in
      if is_enoent e then new else (err e, s)

  unfoldable pub vfs_mknod_at : Caller D → At → Text → ℕ → ℕ → Action D (Unit {0})
  unfolding vfs_lookup_node_at vfs_create_new_node vfs_node_close checked
  vfs_mknod_at c file path mode device s =
      let type = mode_type mode in
      let made =
        mknod_result c file path mode device (vfs_lookup_node_at c file path false false s) in
      if not (type == type_reg) && not (type == type_dir) && not (type == type_fifo)
      then (err einval, s)
      else made
