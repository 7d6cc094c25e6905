-- ===== src/Vfs/Node.antt =====
-- files/vfs/node.c and files/vfs/super.c: the references to nodes, and the calls of a file system.
-- `ref_count` is a number without a bound here: there are fewer than 2 ^ 64 references at a time. Closing
-- a node without references, where the source's count would wrap around, leaves it at 0.
use some_os.Prelude.{
  ℕ, ◌+◌, ◌-◌, true, not, ◌||◌, none, some, List, add64, sub64, ◌==◌, if◌then◌else◌,
}
use some_os.Path.{Text}
use some_os.Vfs.{
  ok, err, exdev, einval, Result, VfsNode, Vfs, NodeFunction, lookup_function, link_function,
  unlink_function, readdir_function, trunc_function, Driver, Caller, Action, checked, then_do, has,
  access_r, access_w, access_x, access_dir, can_access,
}

module _ {D : Type 0} where
  abbrev pub set_node : ℕ → VfsNode → Vfs D → Vfs D
  set_node n node s = record s { nodes = λ i. if i == n then node else s.nodes i }

  -- `ref_count` of the superblock of a node
  abbrev pub set_super_refs : ℕ → ℕ → Vfs D → Vfs D
  set_super_refs b refs s = record s {
    superblocks =
        λ i. if i == b then record (s.superblocks b) { ref_count = refs } else s.superblocks i;
  }

  abbrev pub set_refs : ℕ → ℕ → Vfs D → Vfs D
  set_refs n refs s = set_node n (record (s.nodes n) { ref_count = refs }) s

  -- `vfsSuperCopyNode`; the superblock is referenced by its nodes that are in use.
  unfoldable pub vfs_node_copy : ℕ → Vfs D → Vfs D
  vfs_node_copy n s =
      let node = s.nodes n in
      let b = node.superblock in
      let s' = set_refs n (node.ref_count + 1) s in
      if node.ref_count == 0 then set_super_refs b (add64 (s.superblocks b).ref_count 1) s' else s'

  -- `vfsSuperClose`, which frees the whole file system with the last reference.
  abbrev pub vfs_super_close : ℕ → Vfs D → Vfs D
  vfs_super_close b s = set_super_refs b (sub64 (s.superblocks b).ref_count 1) s

  abbrev pub with_contents : Vfs D → Result D → Vfs D
  with_contents s (ok d) = record s { contents = d }
  with_contents s (err _) = s

  -- A node that is in no directory any more loses what it holds; when that fails, the rest of
  -- `vfsSuperCloseNode` is left out.
  abbrev pub free_contents : Driver D → ℕ → Vfs D → Result D
  free_contents driver n s =
      if driver.supports n trunc_function
      then elim (driver.trunc s.contents n 0) [ ok d ↦ driver.free_node d n | err e ↦ err e ]
      else err einval

  unfoldable pub vfs_super_free_node : Driver D → ℕ → Vfs D → Vfs D
  vfs_super_free_node driver n s = elim (free_contents driver n s) [
    | ok d ↦ vfs_super_close (s.nodes n).superblock (record s { contents = d })
    | err e ↦ s
  ]

  -- `vfsSuperCloseNode`
  unfoldable pub vfs_node_close : Driver D → ℕ → Vfs D → Vfs D
  unfolding vfs_super_free_node
  vfs_node_close driver n s =
      let node = s.nodes n in
      let s' = set_refs n (node.ref_count - 1) s in
      let freed = vfs_super_free_node driver n s' in
      if not (node.ref_count - 1 == 0)
      then s'
      else if (s.superblocks node.superblock).root_node == n || not (node.nlinks == 0)
      then vfs_super_close node.superblock s'
      else freed

  -- `vfsSuperWriteNode`
  abbrev pub vfs_super_write_node : Caller D → VfsNode → VfsNode
  vfs_super_write_node c node = record node { ctime = c.now; dirty = true }

  abbrev pub touched : Caller D → ℕ → VfsNode → VfsNode
  touched c access node =
      vfs_super_write_node c
        (record node { mtime = if has access access_w then c.now else node.mtime; atime = c.now })

  -- DELEGATE_NODE_FUNCTION
  unfoldable pub delegate :
      {A : Type 0} → Caller D → ℕ → NodeFunction → ℕ → (D → Result A) → Action D A
  unfolding can_access
  delegate c n f access run s =
      let node = s.nodes n in
      let s' = set_node n (touched c access node) s in
      let denied = can_access node c.user access in
      if c.driver.supports n f
      then elim denied [ some e ↦ (err e, s) | none ↦ (run s'.contents, s') ]
      else (err einval, s)

  -- The same, of a function that changes what the file system holds.
  abbrev pub store_contents : D → Action D (Unit {0})
  store_contents d s = (ok tt, record s { contents = d })

  unfoldable pub delegate_change :
      Caller D → ℕ → NodeFunction → ℕ → (D → Result D) → Action D (Unit {0})
  unfolding delegate checked
  delegate_change c n f access run = then_do (delegate c n f access run) store_contents

  -- The node that is found is referenced, as `vfsSuperReadNode` does.
  abbrev pub referenced : ℕ → Action D ℕ
  referenced n s = (ok n, vfs_node_copy n s)

  unfoldable pub vfs_node_lookup : Caller D → ℕ → Text → Action D ℕ
  unfolding delegate checked vfs_node_copy
  vfs_node_lookup c n name =
      then_do (delegate c n lookup_function (access_x + access_dir) (λ d. c.driver.lookup d n name))
        referenced

  unfoldable pub vfs_node_readdir : Caller D → ℕ → Action D (List Text)
  unfolding delegate
  vfs_node_readdir c n =
      delegate c n readdir_function (access_r + access_dir) (λ d. c.driver.readdir d n)

  unfoldable pub vfs_node_trunc : Caller D → ℕ → ℕ → Action D (Unit {0})
  unfolding delegate_change
  vfs_node_trunc c n size =
      delegate_change c n trunc_function access_w (λ d. c.driver.trunc d n size)

  abbrev pub add_links : (ℕ → ℕ) → Caller D → ℕ → Vfs D → Vfs D
  add_links f c n s =
      set_node n (vfs_super_write_node c (record (s.nodes n) { nlinks = f (s.nodes n).nlinks })) s

  abbrev pub unlinked : Caller D → ℕ → Unit {0} → Action D (Unit {0})
  unlinked c entry _ s = (ok tt, add_links (λ n. sub64 n 1) c entry s)

  -- VFS_MODE_STICKY is 512. In a sticky directory the entry has to be writable.
  unfoldable pub vfs_node_unlink : Caller D → ℕ → Text → ℕ → Action D (Unit {0})
  unfolding delegate_change can_access checked
  vfs_node_unlink c n name entry s =
      let rest =
        then_do
          (delegate_change c n unlink_function (access_w + access_dir)
            (λ d. c.driver.unlink d n name))
          (unlinked c entry) s in
      let node = s.nodes n in
      let denied = can_access (s.nodes entry) c.user access_w in
      if not (node.superblock == (s.nodes entry).superblock)
      then (err exdev, s)
      else if has node.mode 512
      then elim denied [ some e ↦ (err e, s) | none ↦ rest ]
      else rest

  abbrev pub linked : Caller D → ℕ → Text → ℕ → Action D (Unit {0})
  linked c n name entry s =
      let s' = add_links (λ l. add64 l 1) c entry (set_node n (touched c access_w (s.nodes n)) s) in
      then_do (λ t. (c.driver.link t.contents n name entry, t)) store_contents s'

  -- The entry is counted before the file system is asked.
  unfoldable pub vfs_node_link : Caller D → ℕ → Text → ℕ → Action D (Unit {0})
  unfolding can_access checked
  vfs_node_link c n name entry s =
      let node = s.nodes n in
      let denied = can_access node c.user (access_w + access_dir) in
      let rest = linked c n name entry s in
      if not (node.superblock == (s.nodes entry).superblock)
      then (err exdev, s)
      else if c.driver.supports n link_function
      then elim denied [ some e ↦ (err e, s) | none ↦ rest ]
      else (err einval, s)

  abbrev pub take_new : ℕ × D → Action D ℕ
  take_new (n, d) s = (ok n, vfs_node_copy n (record s { contents = d }))

  unfoldable pub vfs_super_new_node : Caller D → ℕ → Action D ℕ
  unfolding checked vfs_node_copy
  vfs_super_new_node c b = then_do (λ s. (c.driver.new_node s.contents b, s)) take_new
