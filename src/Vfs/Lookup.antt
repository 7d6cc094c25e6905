-- ===== src/Vfs/Lookup.antt =====
-- files/vfs/fs.c: from a path to a node.
use some_os.Prelude.{
  ℕ, zero, suc, Bool, true, false, not, ◌&&◌, Option, none, some, List, [], ◌∷◌, ◌++◌, length, drop,
  ◌==◌, if◌then◌else◌,
}
use some_os.Path.{Text, slash, is_slash_at, pieces, is_dot, is_dot_dot, get_parent_path}
use some_os.Vfs.{
  Error, enoent, enotdir, einval, ok, err, Result, Vfs, Caller, User, Action, mode_type, type_dir,
}
use some_os.Vfs.Node.{vfs_node_copy, vfs_node_close, vfs_node_lookup}

module _ {D : Type 0} where
  abbrev pub root_of : ℕ → Vfs D → ℕ
  root_of b s = (s.superblocks b).root_node

  -- `vfsFollowMounts` for at most so many mounts. The node that is left is not closed when a later mount
  -- is asked for.
  unfoldable pub vfs_follow_mounts : Caller D → ℕ → Bool → ℕ → Vfs D → ℕ × Vfs D
  unfolding vfs_node_copy vfs_node_close
  vfs_follow_mounts c zero last curr s = (curr, s)
  vfs_follow_mounts c (suc depth) last curr s = elim ((s.nodes curr).mounted) [
    | none ↦ (curr, s)
    | some b ↦
        let root = root_of b s in
        let copied = vfs_node_copy root s in
        let inner = vfs_follow_mounts c depth last root copied in
        let left = vfs_follow_mounts c depth last root (vfs_node_close c.driver curr copied) in
        if last
        then elim ((copied.nodes root).mounted) [
          | none ↦ (curr, vfs_node_close c.driver root copied)
          | some _ ↦ left
        ]
        else inner
  ]

abbrev segments_path : List (ℕ × Text) → Text → Text
segments_path [] after = after
segments_path ((_, segment) ∷ dirs) after = segments_path dirs (slash ∷ segment ++ after)

abbrev or_slash : Text → Text
or_slash [] = slash ∷ []
or_slash (c ∷ path) = c ∷ path

-- The path that is given back: the prefix and the segments that are left.
abbrev pub real_path_of : Text → List (ℕ × Text) → Text
real_path_of prefix dirs = or_slash (prefix ++ segments_path dirs [])

-- `strncmp(path, prefix, strlen(prefix)) == 0`
abbrev starts_with : Text → Text → Bool
starts_with path [] = true
starts_with [] (b ∷ prefix) = false
starts_with (a ∷ path) (b ∷ prefix) = (a == b) && starts_with path prefix

-- The first mount whose prefix the path begins with. The test on `mount->prefix[prefix_len]` holds
-- always: this is where the prefix ends.
abbrev pub find_mount : Text → List (Text × ℕ) → Option (Text × ℕ)
find_mount path [] = none
find_mount path ((prefix, b) ∷ mounts) =
    let rest = find_mount path mounts in if starts_with path prefix then some (prefix, b) else rest

abbrev pub cwd_of : Option User → Text
cwd_of none = []
cwd_of (some user) = user.cwd

-- `curr`, and `dirs` and `segs` from their ends; `dirs` has one node more, `first`.
pub record Position : Type 0 where
  pub curr : ℕ
  pub first : ℕ
  pub dirs : List (ℕ × Text)

module _ {D : Type 0} where
  -- `..`, which stays at the first node.
  abbrev pub leave : Caller D → Position → Vfs D → Position × Vfs D
  leave c p s = elim p.dirs [
    | [] ↦ (p, s)
    | (dir, _) ∷ dirs ↦ (record p { curr = dir; dirs = dirs }, vfs_node_close c.driver p.curr s)
  ]

  abbrev pub enter_found :
      Caller D → Text → Position → ℕ → Result ℕ × Vfs D → Option Error × Position × Vfs D
  enter_found c segment p curr (ok next, s) = (
    none,
    record p { curr = next; dirs = (p.curr, segment) ∷ p.dirs },
    vfs_node_close c.driver curr s,
  )
  enter_found c segment p curr (err e, s) =
      (some e, record p { curr = curr; dirs = (p.curr, segment) ∷ p.dirs }, s)

  abbrev pub enter_at : Caller D → Text → Position → ℕ × Vfs D → Option Error × Position × Vfs D
  enter_at c segment p (curr, s) = enter_found c segment p curr (vfs_node_lookup c curr segment s)

  -- Any other name: the directory is kept, and the entry of the node that is mounted on it is taken.
  unfoldable pub enter : Caller D → Text → Position → Vfs D → Option Error × Position × Vfs D
  unfolding vfs_node_copy vfs_node_close vfs_node_lookup vfs_follow_mounts
  enter c segment p s =
      enter_at c segment p (vfs_follow_mounts c c.depth false p.curr (vfs_node_copy p.curr s))

  -- The loop over the segments; '/' that follow each other are one.
  unfoldable pub walk_segments :
      Caller D → List Text → Position → Vfs D → Option Error × Position × Vfs D
  unfolding enter
  walk_segments c [] p s = (none, p, s)
  walk_segments c ([] ∷ segments) p s = walk_segments c segments p s
  walk_segments c ((a ∷ name) ∷ segments) p s =
      let (p1, s1) = leave c p s in
      let (e, p2, s2) = enter c (a ∷ name) p s in
      let stayed = walk_segments c segments p s in
      let left = walk_segments c segments p1 s1 in
      let entered = walk_segments c segments p2 s2 in
      if not (mode_type (s.nodes p.curr).mode == type_dir)
      then (some enotdir, p, s)
      else if is_dot (a ∷ name)
      then stayed
      else if is_dot_dot (a ∷ name)
      then left
      else elim e [ none ↦ entered | some e' ↦ (some e', p2, s2) ]

  unfoldable pub close_dirs : Caller D → List (ℕ × Text) → Vfs D → Vfs D
  unfolding vfs_node_close
  close_dirs c [] s = s
  close_dirs c ((dir, _) ∷ dirs) s = vfs_node_close c.driver dir (close_dirs c dirs s)

  abbrev pub end_lookup :
      Caller D → Bool → Text → Option Error × Position × Vfs D → Result (ℕ × Text) × Vfs D
  end_lookup c skip prefix (some e, p, s) = (err e, vfs_node_close c.driver p.curr s)
  end_lookup c skip prefix (none, p, s) =
      let (node, s') = vfs_follow_mounts c c.depth skip p.curr s in
      (ok (node, real_path_of prefix p.dirs), s')

  -- `vfsLookupNode`; `skip` is VFS_LOOKUP_SKIPLASTMOUNT.
  unfoldable pub vfs_lookup_node : Caller D → ℕ → Text → Bool → Text → Action D (ℕ × Text)
  unfolding walk_segments close_dirs vfs_follow_mounts vfs_node_close vfs_node_copy
  vfs_lookup_node c start path skip prefix s =
      let p : Position = record { curr = start; first = start; dirs = [] } in
      let (e, q, s') =
        walk_segments c (pieces path) p (vfs_node_copy start (vfs_node_copy start s)) in
      end_lookup c skip prefix (e, q, close_dirs c q.dirs (vfs_node_close c.driver q.first s'))

  abbrev pub closing : Caller D → ℕ → Result (ℕ × Text) × Vfs D → Result (ℕ × Text) × Vfs D
  closing c root (r, s) = (r, vfs_node_close c.driver root s)

  -- The lookup below the root of a superblock, which is referenced meanwhile.
  unfoldable pub lookup_below : Caller D → ℕ → Text → Bool → Text → Action D (ℕ × Text)
  unfolding vfs_lookup_node vfs_node_copy vfs_node_close
  lookup_below c b path skip prefix s =
      let root = root_of b s in
      closing c root (vfs_lookup_node c root path skip prefix (vfs_node_copy root s))

  -- Temporary mounts are only for use until the root file system is mounted.
  unfoldable pub lookup_tmp : Caller D → Text → Bool → Option (Text × ℕ) → Action D (ℕ × Text)
  unfolding lookup_below
  lookup_tmp c path skip (some (prefix, b)) s =
      lookup_below c b (drop (length prefix) path) skip prefix s
  lookup_tmp c path skip none s = (err enoent, s)

  unfoldable pub lookup_root : Caller D → Text → Bool → Option ℕ → Action D (ℕ × Text)
  unfolding lookup_below lookup_tmp
  lookup_root c path skip (some b) s = lookup_below c b path skip [] s
  lookup_root c path skip none s = lookup_tmp c path skip (find_mount path s.tmp_mounted) s

  unfoldable pub vfs_lookup_node_at_exact_abs : Caller D → Text → Bool → Action D (ℕ × Text)
  unfolding lookup_root
  vfs_lookup_node_at_exact_abs c path skip s = lookup_root c path skip s.root_mounted s

  -- `parent` is VFS_LOOKUP_PARENT.
  unfoldable pub vfs_lookup_node_at_abs : Caller D → Text → Bool → Bool → Action D (ℕ × Text)
  unfolding vfs_lookup_node_at_exact_abs get_parent_path
  vfs_lookup_node_at_abs c path parent skip =
      vfs_lookup_node_at_exact_abs c (if parent then get_parent_path path else path) skip

  -- The path of the directory that a path is relative to: of a process, or of a file that has one. The
  -- kernel gives absolute paths.
  abbrev pub base_path : Caller D → Option (Option Text) → Option Text
  base_path c none = some (cwd_of c.user)
  base_path c (some path) = path

  unfoldable pub lookup_relative : Caller D → Text → Bool → Bool → Option Text → Action D (ℕ × Text)
  unfolding vfs_lookup_node_at_abs
  lookup_relative c path parent skip (some base) s =
      vfs_lookup_node_at_abs c (base ++ slash ∷ path) parent skip s
  lookup_relative c path parent skip none s = (err einval, s)

  -- `file` has the path of the file, if there is a file.
  unfoldable pub vfs_lookup_node_at :
      Caller D → Option (Option Text) → Text → Bool → Bool → Action D (ℕ × Text)
  unfolding vfs_lookup_node_at_abs lookup_relative
  vfs_lookup_node_at c file path parent skip s =
      let absolute = vfs_lookup_node_at_abs c path parent skip s in
      let relative = lookup_relative c path parent skip (base_path c file) s in
      if is_slash_at path 0 then absolute else relative
