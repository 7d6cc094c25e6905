-- ===== src/Vfs/Tests.antt =====
-- Runs of files/vfs/fs.c on a small disk, and the theorems at them.
use some_os.Prelude.{
  ℕ, zero, suc, ◌+◌, true, false, ◌&&◌, none, some, List, [], ◌∷◌, ◌==◌, if◌then◌else◌, ◌≡◌, refl,
  arith, add64,
}
use some_os.Path.{Text}
use some_os.Vfs.{enoent, eexist, Result, ok, err, VfsNode, Vfs, Driver, Caller}
use some_os.Vfs.Node.{set_node}
use some_os.Vfs.Depth.{OnTop, vfs_follow_mounts-Ends}
use some_os.Vfs.Lookup.{vfs_follow_mounts, vfs_lookup_node_at}
use some_os.Vfs.Calls.{vfs_open_at, vfs_mknod_at}
use some_os.Vfs.Links.{vfs_unlink_at, vfs_link_at}
use some_os.Vfs.Mounts.{same_text, vfs_mount, vfs_umount}
use some_os.Vfs.Files.{OpenedFile, vfs_file_chmod}
use some_os.Vfs.Holds.{Holds, Owned}
use some_os.Vfs.Balance.{with_found, vfs_lookup_node_at-Owned}
use some_os.Vfs.Unlinks.{vfs_unlink_at-Holds}
use some_os.Vfs.Opens.{node_of, vfs_open_at-Owned}

-- The entries of all directories, and the number of the next node.
record Disk : Type 0 where
  entries : List (ℕ × Text × ℕ)
  next : ℕ

abbrev find_entry : ℕ → Text → List (ℕ × Text × ℕ) → Result ℕ
find_entry dir name [] = err enoent
find_entry dir name ((d, n, node) ∷ entries) =
    let rest = find_entry dir name entries in
    if (d == dir) && same_text n name then ok node else rest

abbrev without_entry : ℕ → Text → List (ℕ × Text × ℕ) → List (ℕ × Text × ℕ)
without_entry dir name [] = []
without_entry dir name ((d, n, node) ∷ entries) =
    let rest = without_entry dir name entries in
    if (d == dir) && same_text n name then rest else (d, n, node) ∷ rest

abbrev names_of : ℕ → List (ℕ × Text × ℕ) → List Text
names_of dir [] = []
names_of dir ((d, n, _) ∷ entries) =
    let rest = names_of dir entries in if d == dir then n ∷ rest else rest

abbrev disk_driver : Driver Disk
disk_driver = record {
  supports = λ n f. true;
  lookup = λ d dir name. find_entry dir name d.entries;
  link = λ d dir name node.
      ok (record d { entries = (dir, name, node) ∷ without_entry dir name d.entries });
  unlink = λ d dir name. ok (record d { entries = without_entry dir name d.entries });
  readdir = λ d dir. ok (names_of dir d.entries);
  trunc = λ d n size. ok d;
  new_node = λ d b. ok (d.next, record d { next = d.next + 1 });
  free_node = λ d n. ok d;
}

abbrev a_caller : Caller Disk
a_caller = record {
  driver = disk_driver;
  device = λ id. none;
  user = some (record { euid = 0; egid = 0; umask = 18; cwd = 47 ∷ [] });
  now = 5;
  depth = 3;
}

-- A directory 0 with a file "a", which is node 1.
abbrev plain_node : ℕ → ℕ → ℕ → VfsNode
plain_node mode links refs = record {
  superblock = 0;
  mode = mode;
  nlinks = links;
  uid = 0;
  gid = 0;
  rdev = 0;
  size = 0;
  atime = 0;
  mtime = 0;
  ctime = 0;
  ref_count = refs;
  mounted = none;
  dirty = false;
}

abbrev small_nodes : ℕ → VfsNode
small_nodes zero = plain_node 16877 2 3
small_nodes (suc zero) = plain_node 33188 1 0
small_nodes (suc (suc n)) = plain_node 33188 0 0

abbrev small : Vfs Disk
small = record {
  nodes = small_nodes;
  superblocks = λ b. record { root_node = 0; ref_count = 1 };
  contents = record { entries = (0, 97 ∷ [], 1) ∷ []; next = 2 };
  root_mounted = some 0;
  tmp_mounted = [];
}

abbrev small_refs : ℕ → ℕ
small_refs i = (small_nodes i).ref_count

small-Holds : Holds small_refs [] small
small-Holds zero = (refl, omega arith)
small-Holds (suc zero) = (refl, omega arith)
small-Holds (suc (suc n)) = (refl, omega arith)

runs-lookup :
    (vfs_lookup_node_at a_caller none (47 ∷ 97 ∷ []) false false small).0 ≡ ok (1, 47 ∷ 97 ∷ [])
unfolding vfs_lookup_node_at
runs-lookup = refl

runs-mknod :
    let made = vfs_mknod_at a_caller none (98 ∷ []) 32768 0 small in
    (made.0 ≡ ok tt)
    × ((vfs_mknod_at a_caller none (98 ∷ []) 32768 0 made.1).0 ≡ err eexist)
    × ((vfs_unlink_at a_caller none (98 ∷ []) made.1).0 ≡ ok tt)
unfolding vfs_mknod_at vfs_unlink_at add64
runs-mknod = (refl, refl, refl)

-- A directory "d" in the root is linked as "e": the root keeps one reference more than before.
runs-link :
    let made = vfs_mknod_at a_caller none (100 ∷ []) 16384 0 small in
    let linked = vfs_link_at a_caller none (100 ∷ []) none (101 ∷ []) made.1 in
    (linked.0 ≡ ok tt) × ((linked.1.nodes 0).ref_count ≡ 4)
unfolding vfs_mknod_at vfs_link_at add64
runs-link = (refl, refl)

runs-mount :
    let made = vfs_mknod_at a_caller none (100 ∷ []) 16384 0 small in
    let mounted = vfs_mount a_caller (47 ∷ 100 ∷ []) 1 made.1 in
    (mounted.0 ≡ ok tt)
    × ((mounted.1.nodes 2).mounted ≡ some 1)
    × ((vfs_umount a_caller (47 ∷ 100 ∷ []) mounted.1).0 ≡ ok tt)
unfolding vfs_mknod_at vfs_mount vfs_umount add64
runs-mount = (refl, refl, refl)

vfs_lookup_node_at-Owned_example :
    Owned small_refs []
      (with_found [])
      (vfs_lookup_node_at a_caller none (47 ∷ 97 ∷ []) false false small)
vfs_lookup_node_at-Owned_example =
    vfs_lookup_node_at-Owned small_refs a_caller [] none (47 ∷ 97 ∷ []) false false small
      small-Holds

vfs_unlink_at-Holds_example :
    Holds small_refs [] (vfs_unlink_at a_caller none (47 ∷ 97 ∷ []) small).1
vfs_unlink_at-Holds_example =
    vfs_unlink_at-Holds small_refs a_caller [] none (47 ∷ 97 ∷ []) small small-Holds

vfs_open_at-Owned_example :
    Owned small_refs []
      (λ opened. node_of opened ∷ [])
      (vfs_open_at a_caller none (98 ∷ []) 514 420 small)
vfs_open_at-Owned_example =
    vfs_open_at-Owned small_refs a_caller [] none (98 ∷ []) 514 420 small small-Holds

abbrev a_file : OpenedFile
a_file = record { node = 1; offset = 0; ref_count = 1 }

runs-files : ((vfs_file_chmod a_caller a_file 511 small).1.nodes 1).mode ≡ 33279
unfolding vfs_file_chmod
runs-files = refl

-- The file system is mounted on the file 1 too.
abbrev twice : Vfs Disk
twice = set_node 1 (record (plain_node 16877 1 0) { mounted = some 0 }) small

vfs_follow_mounts-Ends_example :
    let (found, t) = vfs_follow_mounts a_caller 3 false 1 twice in
    OnTop twice 1 found × ((t.nodes found).mounted ≡ none)
vfs_follow_mounts-Ends_example = vfs_follow_mounts-Ends a_caller 3 1 twice tt
