-- ===== src/Vfs/Opens.antt =====
-- files/vfs/fs.c: the references of the calls that make and open nodes.
use some_os.Prelude.{
  ℕ, ◌+◌, ◌*◌, ◌%◌, true, false, not, ◌&&◌, ◌||◌, Option, none, some, List, [], ◌∷◌, refl, ◌==◌,
}
use some_os.Path.{Text, dot, get_base_filename}
use some_os.Vfs.{
  Error, Result, ok, err, eexist, enxio, einval, Vfs, Caller, Device, block_device, char_device,
  mode_type, has, type_dir, type_reg, type_fifo, type_char, type_block, can_access,
}
use some_os.Vfs.Node.{vfs_node_link, vfs_super_new_node, set_node}
use some_os.Vfs.Lookup.{vfs_lookup_node_at}
use some_os.Vfs.Calls.{
  At, is_enoent, open_access, OpenFile, regular_file, block_file, char_file, fifo_file, for_kernel,
  close, link_dot_dot, vfs_create_directory_dot_and_dot_dot, initialized, close_both, link_dots,
  finish_new, fill_new, new_in, vfs_create_new_node, open_device, open_regular, truncate,
  open_allowed, open_unless, vfs_open_node, open_result, vfs_open_at, close_new, mknod_result,
  vfs_mknod_at,
}
use some_os.Vfs.Holds.{Holds, Owned, Owned→Holds, close-Holds}
use some_os.Vfs.Kept.{
  checked-Owned, then_do-Owned, if-Owned, set_node-Holds, vfs_node_link-Owned, vfs_node_trunc-Owned,
  vfs_super_new_node-Owned,
}
use some_os.Vfs.Walks.{swap-Holds}
use some_os.Vfs.Balance.{with_found, vfs_lookup_node_at-Owned}

-- An open file holds its node.
abbrev pub node_of : OpenFile → ℕ
node_of (regular_file n _ _) = n
node_of (block_file n _ _) = n
node_of (char_file n _) = n
node_of (fifo_file n _ _) = n

module _ {D : Type 0} (others : ℕ → ℕ) (c : Caller D) where
  abbrev with_file : List ℕ → OpenFile → List ℕ
  with_file held file = node_of file ∷ held

  dot_and_dot_dot-Owned :
      (held : List ℕ) (dir parent : ℕ) (s : Vfs D)
      → Holds others held s
      → Owned others held (λ _. held) (vfs_create_directory_dot_and_dot_dot c dir parent s)
  unfolding vfs_create_directory_dot_and_dot_dot
  dot_and_dot_dot-Owned held dir parent s h =
      then_do-Owned others held (λ _. held) (λ _. held)
        (vfs_node_link (for_kernel c) dir (dot ∷ []) dir) (link_dot_dot c dir parent) s
        (vfs_node_link-Owned others held (for_kernel c) dir (dot ∷ []) dir s h)
        (λ _ t g. vfs_node_link-Owned others held (for_kernel c) dir (dot ∷ dot ∷ []) parent t g)

  link_dots-Owned :
      (held : List ℕ) (mode parent new : ℕ) (s : Vfs D)
      → Holds others held s
      → Owned others held (λ _. held) (link_dots c mode parent new s)
  link_dots-Owned held mode parent new s h =
      if-Owned others held (λ _. held) (mode_type mode == type_dir) _ _
        (dot_and_dot_dot-Owned held new parent s h) h

  fill_new-Owned :
      (held : List ℕ) (name : Text) (mode device : ℕ) (parent : ℕ × Text) (new : ℕ) (s : Vfs D)
      → Holds others (new ∷ parent.0 ∷ held) s
      → Owned others held (with_found held) (fill_new c name mode device parent new s)
  fill_new-Owned held name mode device parent new s h =
      let both = new ∷ parent.0 ∷ held in
      let swap : ((t : Vfs D)
          → Holds others both t
          → Holds others (new ∷ held) (close c parent.0 t)) =
        (λ t g.
          close-Holds others (new ∷ held) c.driver parent.0 t
            (swap-Holds others c held new parent.0 t g)) in
      let clean : ((t : Vfs D)
          → Holds others both t
          → Holds others held (close_both c new parent.0 t)) =
        (λ t g. close-Holds others held c.driver new (close c parent.0 t) (swap t g)) in
      let s' = set_node new (initialized c mode device (s.nodes new)) s in
      let g =
        set_node-Holds others both new (initialized c mode device (s.nodes new)) s refl refl h in
      checked-Owned others held both (λ _. both) (with_found held)
        (vfs_node_link c parent.0 name new) (close_both c new parent.0) _ s'
        (vfs_node_link-Owned others both c parent.0 name new s' g) clean
        (λ _ t f.
          checked-Owned others held both (λ _. both) (with_found held)
            (link_dots c mode parent.0 new) (close_both c new parent.0)
            (finish_new c parent.0 parent.1 name new) t (link_dots-Owned both mode parent.0 new t f)
            clean (λ _ u e. swap u e))

  -- Making a node leaves a reference to it, and none when it fails.
  vfs_create_new_node-Owned :
      (held : List ℕ) (file : At) (path : Text) (mode device : ℕ) (s : Vfs D)
      → Holds others held s
      → Owned others held (with_found held) (vfs_create_new_node c file path mode device s)
  unfolding vfs_create_new_node
  vfs_create_new_node-Owned held file path mode device s h =
      let name = get_base_filename path in
      then_do-Owned others held (with_found held) (with_found held)
        (vfs_lookup_node_at c file path true false) (new_in c name mode device) s
        (vfs_lookup_node_at-Owned others c held file path true false s h)
        (λ parent t g.
          checked-Owned others held (parent.0 ∷ held) (λ new. new ∷ parent.0 ∷ held)
            (with_found held) (vfs_super_new_node c (t.nodes parent.0).superblock)
            (close c parent.0) (fill_new c name mode device parent) t
            (vfs_super_new_node-Owned others (parent.0 ∷ held) c (t.nodes parent.0).superblock t g)
            (λ u f. close-Holds others held c.driver parent.0 u f)
            (λ new u f. fill_new-Owned held name mode device parent new u f))

  open_device-Owned :
      (held : List ℕ) (node : ℕ) (path : Text) (flags : ℕ) (device : Option Device) (s : Vfs D)
      → Holds others (node ∷ held) s
      → Owned others held (with_file held) (open_device c node path flags device s)
  open_device-Owned held node path flags (some (block_device size)) s h =
      if-Owned others held (with_file held) (mode_type (s.nodes node).mode == type_block) _
        (err enxio, close c node s) h (close-Holds others held c.driver node s h)
  open_device-Owned held node path flags (some char_device) s h =
      if-Owned others held (with_file held) (mode_type (s.nodes node).mode == type_char) _
        (err enxio, close c node s) h (close-Holds others held c.driver node s h)
  open_device-Owned held node path flags none s h = close-Holds others held c.driver node s h

  truncate-Owned :
      (held : List ℕ) (node flags : ℕ) (s : Vfs D)
      → Holds others held s
      → Owned others held (λ _. held) (truncate c node flags s)
  truncate-Owned held node flags s h =
      if-Owned others held (λ _. held) (has flags 1024 && has flags 2) _ (ok tt, s)
        (vfs_node_trunc-Owned others held c node 0 s h) h

  open_allowed-Owned :
      (held : List ℕ) (node : ℕ) (path : Text) (flags : ℕ) (s : Vfs D)
      → Holds others (node ∷ held) s
      → Owned others held (with_file held) (open_allowed c node path flags s)
  open_allowed-Owned held node path flags s h =
      let type = mode_type (s.nodes node).mode in
      if-Owned others held (with_file held) (type == type_fifo)
        (ok (fifo_file node path (has flags 2)), s) _ h
        (if-Owned others held (with_file held) ((type == type_char) || (type == type_block)) _ _
          (open_device-Owned held node path flags (c.device (s.nodes node).rdev) s h)
          (checked-Owned others held (node ∷ held) (λ _. node ∷ held) (with_file held)
            (truncate c node flags) (close c node) (open_regular c node path flags) s
            (truncate-Owned (node ∷ held) node flags s h)
            (λ t g. close-Holds others held c.driver node t g) (λ _ t g. g)))

  open_unless-Owned :
      (held : List ℕ) (node : ℕ × Text) (flags : ℕ) (denied : Option Error) (s : Vfs D)
      → Holds others (node.0 ∷ held) s
      → Owned others held (with_file held) (open_unless c node flags denied s)
  open_unless-Owned held node flags (some e) s h = close-Holds others held c.driver node.0 s h
  open_unless-Owned held node flags none s h = open_allowed-Owned held node.0 node.1 flags s h

  vfs_open_node-Owned :
      (held : List ℕ) (node : ℕ × Text) (flags : ℕ) (s : Vfs D)
      → Holds others (node.0 ∷ held) s
      → Owned others held (with_file held) (vfs_open_node c node flags s)
  unfolding vfs_open_node
  vfs_open_node-Owned held node flags s h =
      open_unless-Owned held node flags (can_access (s.nodes node.0) c.user (open_access flags)) s h

  open_result-Owned :
      (held : List ℕ) (file : At) (path : Text) (flags mode : ℕ) (r : Result (ℕ × Text)) (s : Vfs D)
      → Owned others held (with_found held) (r, s)
      → Owned others held (with_file held) (open_result c file path flags mode (r, s))
  open_result-Owned held file path flags mode (ok node) s h =
      if-Owned others held (with_file held) (has flags 2048) (err eexist, close c node.0 s) _
        (close-Holds others held c.driver node.0 s h) (vfs_open_node-Owned held node flags s h)
  open_result-Owned held file path flags mode (err e) s h =
      if-Owned others held (with_file held) (is_enoent e && has flags 512) _ (err e, s)
        (then_do-Owned others held (with_found held) (with_file held)
          (vfs_create_new_node c file path (mode % 4096 + type_reg * 4096) 0)
          (λ node. vfs_open_node c node flags) s
          (vfs_create_new_node-Owned held file path (mode % 4096 + type_reg * 4096) 0 s h)
          (λ node t g. vfs_open_node-Owned held node flags t g))
        h

  -- When nothing is mounted on a node, then opening a path, with or without making a node, leaves one
  -- reference, that of the file to its node, when it succeeds. When it fails, the count of every node is
  -- what it was.
  pub vfs_open_at-Owned :
      (held : List ℕ) (file : At) (path : Text) (flags mode : ℕ) (s : Vfs D)
      → Holds others held s
      → Owned others held (λ opened. node_of opened ∷ held) (vfs_open_at c file path flags mode s)
  unfolding vfs_open_at
  vfs_open_at-Owned held file path flags mode s h =
      open_result-Owned held file path flags mode _ _
        (vfs_lookup_node_at-Owned others c held file path false false s h)

  mknod_result-Owned :
      (held : List ℕ) (file : At) (path : Text) (mode device : ℕ) (r : Result (ℕ × Text))
      (s : Vfs D)
      → Owned others held (with_found held) (r, s)
      → Owned others held (λ _. held) (mknod_result c file path mode device (r, s))
  mknod_result-Owned held file path mode device (ok node) s h =
      close-Holds others held c.driver node.0 s h
  mknod_result-Owned held file path mode device (err e) s h =
      if-Owned others held (λ _. held) (is_enoent e) _ (err e, s)
        (then_do-Owned others held (with_found held) (λ _. held)
          (vfs_create_new_node c file path mode device) (close_new c) s
          (vfs_create_new_node-Owned held file path mode device s h)
          (λ node t g. close-Holds others held c.driver node.0 t g))
        h

  -- When nothing is mounted on a node, making a node at a path leaves the count of references to every
  -- node as it was, on success and on every error.
  vfs_mknod_at-Holds :
      (held : List ℕ) (file : At) (path : Text) (mode device : ℕ) (s : Vfs D)
      → Holds others held s
      → Holds others held (vfs_mknod_at c file path mode device s).1
  unfolding vfs_mknod_at
  vfs_mknod_at-Holds held file path mode device s h =
      let type = mode_type mode in
      Owned→Holds others held _ _ (
        if-Owned others held (λ _. held)
          (not (type == type_reg) && not (type == type_dir) && not (type == type_fifo))
          (err einval, s) _ h
          (mknod_result-Owned held file path mode device _ _
            (vfs_lookup_node_at-Owned others c held file path false false s h)))
