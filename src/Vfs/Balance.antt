-- ===== src/Vfs/Balance.antt =====
-- files/vfs/fs.c: the references that the lookup of a path leaves.
use mathlib.Core.Path.{subst}
use some_os.Prelude.{
  ℕ, Bool, Option, none, some, List, [], ◌∷◌, ◌++◌, length, drop, if◌then◌else◌, ◌≡◌, sym, arith,
}
use some_os.Path.{Text, slash, is_slash_at, pieces, get_parent_path}
use some_os.Vfs.{Error, Result, ok, err, Vfs, Caller}
use some_os.Vfs.Node.{vfs_node_copy, vfs_node_close}
use some_os.Vfs.Lookup.{
  root_of, Position, walk_segments, close_dirs, end_lookup, vfs_lookup_node, find_mount, closing,
  lookup_below, lookup_tmp, lookup_root, lookup_relative, vfs_lookup_node_at_exact_abs,
  vfs_lookup_node_at_abs, base_path, vfs_lookup_node_at,
}
use some_os.Vfs.Holds.{Holds, Owned, count, copy-Holds, close-Holds, Holds-permuted}
use some_os.Vfs.Kept.{if-Owned}
use some_os.Vfs.Walks.{
  dirs_held, position_held, count-dirs_held, vfs_follow_mounts-unmounted, swap-Holds,
  close_dirs-Holds, walk_segments-Holds,
}

-- What a call holds that found a node: the reference to it, beside those that it held.
abbrev pub with_found : List ℕ → ℕ × Text → List ℕ
with_found held found = found.0 ∷ held

module _ {D : Type 0} (others : ℕ → ℕ) (c : Caller D) where
  end_lookup-Owned :
      (held : List ℕ) (skip : Bool) (prefix : Text) (e : Option Error) (p : Position) (s : Vfs D)
      → Holds others (p.curr ∷ held) s
      → Owned others held (with_found held) (end_lookup c skip prefix (e, p, s))
  end_lookup-Owned held skip prefix (some e) p s h = close-Holds others held c.driver p.curr s h
  end_lookup-Owned held skip prefix none p s h =
      subst (λ r. Holds others (r.0 ∷ held) r.1)
        (sym (vfs_follow_mounts-unmounted others c (p.curr ∷ held) c.depth skip p.curr s h)) h

  -- The directories are closed, and the node is left.
  close_position-Holds :
      (held : List ℕ) (p : Position) (s : Vfs D)
      → Holds others (position_held p held) s
      → Holds others (p.curr ∷ held) (close_dirs c p.dirs (vfs_node_close c.driver p.first s))
  close_position-Holds held p s h =
      let rest = dirs_held p.dirs (p.curr ∷ held) in
      let same : ((i : ℕ) → count i (position_held p held) ≡ count i (p.first ∷ rest)) = (λ i.
        omega (
          arith,
          count-dirs_held i p.dirs (p.first ∷ held),
          count-dirs_held i p.dirs (p.curr ∷ held),
        )) in
      close_dirs-Holds others c (p.curr ∷ held) p.dirs (vfs_node_close c.driver p.first s) (
        close-Holds others rest c.driver p.first s
          (Holds-permuted others (position_held p held) (p.first ∷ rest) s same h))

  pub vfs_lookup_node-Owned :
      (held : List ℕ) (start : ℕ) (path : Text) (skip : Bool) (prefix : Text) (s : Vfs D)
      → Holds others held s
      → Owned others held (with_found held) (vfs_lookup_node c start path skip prefix s)
  unfolding vfs_lookup_node
  vfs_lookup_node-Owned held start path skip prefix s h =
      let p : Position = record { curr = start; first = start; dirs = [] } in
      let t = vfs_node_copy start (vfs_node_copy start s) in
      let copied =
        copy-Holds others (start ∷ held) start (vfs_node_copy start s)
          (copy-Holds others held start s h) in
      let walked = walk_segments c (pieces path) p t in
      end_lookup-Owned held skip prefix walked.0 walked.1 _ (
        close_position-Holds held walked.1 walked.2
          (walk_segments-Holds others c held (pieces path) p t copied))

  closing-Owned :
      (held : List ℕ) (root : ℕ) (r : Result (ℕ × Text)) (s : Vfs D)
      → Owned others (root ∷ held) (with_found (root ∷ held)) (r, s)
      → Owned others held (with_found held) (closing c root (r, s))
  closing-Owned held root (ok found) s h =
      close-Holds others (found.0 ∷ held) c.driver root s
        (swap-Holds others c held found.0 root s h)
  closing-Owned held root (err e) s h = close-Holds others held c.driver root s h

  lookup_below-Owned :
      (held : List ℕ) (b : ℕ) (path : Text) (skip : Bool) (prefix : Text) (s : Vfs D)
      → Holds others held s
      → Owned others held (with_found held) (lookup_below c b path skip prefix s)
  unfolding lookup_below
  lookup_below-Owned held b path skip prefix s h =
      let root = root_of b s in
      let found = vfs_lookup_node c root path skip prefix (vfs_node_copy root s) in
      closing-Owned held root found.0 found.1 (
        vfs_lookup_node-Owned (root ∷ held) root path skip prefix (vfs_node_copy root s)
          (copy-Holds others held root s h))

  lookup_tmp-Owned :
      (held : List ℕ) (path : Text) (skip : Bool) (mount : Option (Text × ℕ)) (s : Vfs D)
      → Holds others held s
      → Owned others held (with_found held) (lookup_tmp c path skip mount s)
  unfolding lookup_tmp
  lookup_tmp-Owned held path skip (some (prefix, b)) s h =
      lookup_below-Owned held b (drop (length prefix) path) skip prefix s h
  lookup_tmp-Owned held path skip none s h = h

  lookup_root-Owned :
      (held : List ℕ) (path : Text) (skip : Bool) (root : Option ℕ) (s : Vfs D)
      → Holds others held s
      → Owned others held (with_found held) (lookup_root c path skip root s)
  unfolding lookup_root
  lookup_root-Owned held path skip (some b) s h = lookup_below-Owned held b path skip [] s h
  lookup_root-Owned held path skip none s h =
      lookup_tmp-Owned held path skip (find_mount path s.tmp_mounted) s h

  vfs_lookup_node_at_abs-Owned :
      (held : List ℕ) (path : Text) (parent skip : Bool) (s : Vfs D)
      → Holds others held s
      → Owned others held (with_found held) (vfs_lookup_node_at_abs c path parent skip s)
  unfolding vfs_lookup_node_at_abs vfs_lookup_node_at_exact_abs
  vfs_lookup_node_at_abs-Owned held path parent skip s h =
      lookup_root-Owned held (if parent then get_parent_path path else path) skip s.root_mounted s h

  lookup_relative-Owned :
      (held : List ℕ) (path : Text) (parent skip : Bool) (base : Option Text) (s : Vfs D)
      → Holds others held s
      → Owned others held (with_found held) (lookup_relative c path parent skip base s)
  unfolding lookup_relative
  lookup_relative-Owned held path parent skip (some base) s h =
      vfs_lookup_node_at_abs-Owned held (base ++ slash ∷ path) parent skip s h
  lookup_relative-Owned held path parent skip none s h = h

  -- A lookup of a path, from a process, a file or the root, of a node or its parent: when nothing is
  -- mounted on a node, then a lookup that succeeds has taken one reference, to the node that it found,
  -- and one that fails has left the count of every node as it was.
  pub vfs_lookup_node_at-Owned :
      (held : List ℕ) (file : Option (Option Text)) (path : Text) (parent skip : Bool) (s : Vfs D)
      → Holds others held s
      → Owned others held (with_found held) (vfs_lookup_node_at c file path parent skip s)
  unfolding vfs_lookup_node_at
  vfs_lookup_node_at-Owned held file path parent skip s h =
      if-Owned others held (with_found held) (is_slash_at path 0)
        (vfs_lookup_node_at_abs c path parent skip s)
        (lookup_relative c path parent skip (base_path c file) s)
        (vfs_lookup_node_at_abs-Owned held path parent skip s h)
        (lookup_relative-Owned held path parent skip (base_path c file) s h)
