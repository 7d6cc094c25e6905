-- ===== src/Vfs.antt =====
-- files/vfs: the virtual file system.
-- A node is named by a number, which stands for its superblock and its id: the cache gives out one
-- structure for both, and what a node holds is written before it is freed. Outside special files a
-- node is its own `real_node`. The locks of tasks are nested and every call is one step; `now` is what
-- `getNanosecondsWithFallback` returns in it.
pub mod Node
pub mod Lookup
pub mod Calls
pub mod Links
pub mod Mounts
pub mod Holds
pub mod Kept
pub mod Walks
pub mod Depth
pub mod Balance
pub mod Unlinks
pub mod Opens
pub mod Files
pub mod Owners
mod Tests
use Prim.Native.Nat.{bit_and}
use some_os.Path.{Text}
use some_os.Prelude.{
  ℕ, ◌+◌, ◌*◌, ◌/◌, Bool, true, false, not, ◌&&◌, ◌||◌, Option, none, some, List, ◌==◌,
  if◌then◌else◌,
}

-- The errors that the code names, and those of a file system.
pub data Error : Type 0 where
  eperm enoent eacces eexist exdev enotdir eisdir einval enotempty enxio : Error
  driver_error : ℕ → Error

pub data Result (A : Type 0) : Type 0 where
  ok : A → Result A
  err : Error → Result A

-- `VfsNode` with its `VfsStat`.
pub record VfsNode : Type 0 where
  pub superblock : ℕ
  pub mode : ℕ
  pub nlinks : ℕ
  pub uid : ℕ
  pub gid : ℕ
  pub rdev : ℕ
  pub size : ℕ
  pub atime : ℕ
  pub mtime : ℕ
  pub ctime : ℕ
  pub ref_count : ℕ
  pub mounted : Option ℕ
  pub dirty : Bool

pub record Superblock : Type 0 where
  pub root_node : ℕ
  pub ref_count : ℕ

-- `VirtualFilesystem` with the nodes, the superblocks, and what the file systems hold.
pub record Vfs (D : Type 0) : Type 0 where
  pub nodes : ℕ → VfsNode
  pub superblocks : ℕ → Superblock
  pub contents : D
  pub root_mounted : Option ℕ
  pub tmp_mounted : List (Text × ℕ)

pub data NodeFunction : Type 0 where
  lookup_function link_function unlink_function readdir_function trunc_function : NodeFunction

-- The functions of the concrete file systems: `VfsNodeFunctions` and `VfsSuperblockFunctions`. A lookup
-- is followed by `read_node`, and `new_node` is too: the two are one call here, which fails when either
-- does. A directory is read as the list of its names. `supports` says which functions of a node are not
-- NULL. A call that fails changes nothing of the file system; one that succeeds changes it in any way.
pub record Driver (D : Type 0) : Type 0 where
  pub supports : ℕ → NodeFunction → Bool
  pub lookup : D → ℕ → Text → Result ℕ
  pub link : D → ℕ → Text → ℕ → Result D
  pub unlink : D → ℕ → Text → Result D
  pub readdir : D → ℕ → Result (List Text)
  pub trunc : D → ℕ → ℕ → Result D
  pub new_node : D → ℕ → Result (ℕ × D)
  pub free_node : D → ℕ → Result D

-- What the code reads of a process.
pub record User : Type 0 where
  pub euid : ℕ
  pub egid : ℕ
  pub umask : ℕ
  pub cwd : Text

-- A device, with the size of a block device.
pub data Device : Type 0 where
  block_device : ℕ → Device
  char_device : Device

-- A call: the file systems, the table of devices, the process or none for the kernel, the time, and a
-- bound on the mounts that stand on each other.
pub record Caller (D : Type 0) : Type 0 where
  pub driver : Driver D
  pub device : ℕ → Option Device
  pub user : Option User
  pub now : ℕ
  pub depth : ℕ

-- An action changes the state whether it fails or not.
abbrev pub Action : Type 0 → Type 0 → Type 0
Action D A = Vfs D → Result A × Vfs D

module _ {D A : Type 0} where
  abbrev pub pure : A → Action D A
  pure a s = (ok a, s)

  abbrev pub raise : Error → Action D A
  raise e s = (err e, s)

  abbrev pub of_result : Result A → Action D A
  of_result r s = (r, s)

-- `CHECKED(m, cleanup)`, and then `k`.
unfoldable pub checked :
    {D A B : Type 0} → Action D A → (Vfs D → Vfs D) → (A → Action D B) → Action D B
checked m cleanup k s = let (r, s') = m s in elim r [ ok a ↦ k a s' | err e ↦ (err e, cleanup s') ]

-- `CHECKED(m)`, and then `k`.
abbrev pub then_do : {D A B : Type 0} → Action D A → (A → Action D B) → Action D B
then_do m k = checked m (λ s. s) k

-- VFS_TYPE_FIFO, VFS_TYPE_CHAR, VFS_TYPE_DIR, VFS_TYPE_BLOCK and VFS_TYPE_REG
abbrev pub type_fifo : ℕ
type_fifo = 1

abbrev pub type_char : ℕ
type_char = 2

abbrev pub type_dir : ℕ
type_dir = 4

abbrev pub type_block : ℕ
type_block = 6

abbrev pub type_reg : ℕ
type_reg = 8

abbrev pub mode_type : ℕ → ℕ
mode_type mode = mode / 4096

abbrev pub has : ℕ → ℕ → Bool
has flags flag = not (bit_and flags flag == 0)

-- VFS_ACCESS_R, VFS_ACCESS_W, VFS_ACCESS_X and VFS_ACCESS_DIR
abbrev pub access_r : ℕ
access_r = 1

abbrev pub access_w : ℕ
access_w = 2

abbrev pub access_x : ℕ
access_x = 4

abbrev pub access_dir : ℕ
access_dir = 8

-- One of the three tests of a permission: for all, for the group, and for the owner.
abbrev pub is_denied : VfsNode → User → ℕ → ℕ → ℕ → ℕ → ℕ → Bool
is_denied node user flags access all group owner =
    has flags access
    && not (has node.mode all)
    && (not (has node.mode group) || not (node.gid == user.egid))
    && (not (has node.mode owner) || not (node.uid == user.euid))

-- The tests for a user other than root: VFS_ACCESS_CHMOD and VFS_ACCESS_CHOWN are 32 and 64.
unfoldable pub user_can_access : VfsNode → User → ℕ → Option Error
user_can_access node user flags =
    if (has flags 32 || has flags 64) && not (node.uid == user.euid)
    then some eperm
    else if is_denied node user flags access_r 4 32 256
        || is_denied node user flags access_w 2 16 128
        || is_denied node user flags access_x 1 8 64
    then some eacces
    else none

-- VFS_ACCESS_REG is 16; `none` is success.
unfoldable pub basic_can_access : VfsNode → User → ℕ → Option Error
unfolding user_can_access
basic_can_access node user flags =
    if has flags 16 && not (mode_type node.mode == type_reg)
    then some (if mode_type node.mode == type_dir then eisdir else einval)
    else if has flags access_dir && not (mode_type node.mode == type_dir)
    then some enotdir
    else if user.euid == 0
    then none
    else user_can_access node user flags

unfoldable pub can_access : VfsNode → Option User → ℕ → Option Error
unfolding basic_can_access
can_access node none flags = none
can_access node (some user) flags = basic_can_access node user flags
