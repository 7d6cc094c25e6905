-- ===== src/Vfs/Mounts.antt =====
-- files/vfs/fs.c: mounting and unmounting.
use some_os.Prelude.{
  ℕ, Bool, true, false, not, ◌&&◌, Option, none, some, List, [], ◌∷◌, ◌==◌, if◌then◌else◌,
}
use some_os.Path.{Text, slash, inline_reduce_path}
use some_os.Vfs.{
  enoent, enotdir, einval, ok, err, Result, Vfs, Caller, Action, then_do, checked, mode_type,
  type_dir,
}
use some_os.Vfs.Node.{set_node, vfs_super_close, vfs_node_close}
use some_os.Vfs.Lookup.{root_of, vfs_lookup_node_at}
use some_os.Vfs.Calls.{close}

abbrev pub same_text : Text → Text → Bool
same_text [] [] = true
same_text (a ∷ xs) (b ∷ ys) = (a == b) && same_text xs ys
same_text _ _ = false

abbrev is_some : Option ℕ → Bool
is_some none = false
is_some (some _) = true

-- The loop over the temporary mounts, with those that it passed.
abbrev unmount_prefix : Text → List (Text × ℕ) → Option (ℕ × List (Text × ℕ))
unmount_prefix path [] = none
unmount_prefix path ((prefix, b) ∷ mounts) =
    let rest : Option (ℕ × List (Text × ℕ)) = elim (unmount_prefix path mounts) [
      | none ↦ none
      | some (found, others) ↦ some (found, (prefix, b) ∷ others)
    ] in
    if same_text path prefix then some (b, mounts) else rest

module _ {D : Type 0} where
  abbrev pub set_mounted : ℕ → Option ℕ → Vfs D → Vfs D
  set_mounted n b s = set_node n (record (s.nodes n) { mounted = b }) s

  -- The node and the superblock stay referenced until the node is unmounted.
  abbrev mount_on : Caller D → ℕ → ℕ × Text → Action D (Unit {0})
  mount_on c b (node, _) s =
      if is_some (s.nodes node).mounted
      then (err einval, close c node s)
      else if not (mode_type (s.nodes node).mode == type_dir)
      then (err enotdir, close c node s)
      else (ok tt, set_mounted node (some b) s)

  -- `vfsMount` while there is a root.
  unfoldable pub mount_below : Caller D → Text → ℕ → Action D (Unit {0})
  unfolding vfs_lookup_node_at vfs_node_close checked
  mount_below c path b = then_do (vfs_lookup_node_at c none path false false) (mount_on c b)

  abbrev or_drop : ℕ → Result (Unit {0}) × Vfs D → Vfs D
  or_drop b (ok _, s) = s
  or_drop b (err _, s) = vfs_super_close b s

  -- The loop that mounts below the new root what was mounted before it; a mount that fails is dropped.
  abbrev pub mount_all : Caller D → List (Text × ℕ) → Vfs D → Vfs D
  unfolding mount_below
  mount_all c [] s = s
  mount_all c ((prefix, b) ∷ mounts) s = mount_all c mounts (
      or_drop b
        (mount_below (record c { user = none }) prefix b (record s { tmp_mounted = mounts })))

  unfoldable pub vfs_mount : Caller D → Text → ℕ → Action D (Unit {0})
  unfolding mount_below inline_reduce_path
  vfs_mount c path b s =
      let reduced = inline_reduce_path path in
      let as_root = mount_all c s.tmp_mounted (record s { root_mounted = some b }) in
      let below = mount_below c path b s in
      elim s.root_mounted [
        | some _ ↦ below
        | none ↦
            if same_text reduced (slash ∷ [])
            then (ok tt, as_root)
            else (ok tt, record s { tmp_mounted = (reduced, b) ∷ s.tmp_mounted })
      ]

  -- The node is closed for the lookup and for the mount.
  abbrev unmount_from : Caller D → ℕ × Text → Action D (Unit {0})
  unmount_from c (node, _) s = elim ((s.nodes node).mounted) [
    | none ↦ (err einval, close c node s)
    | some b ↦ (ok tt, close c node (close c node (set_mounted node none (vfs_super_close b s))))
  ]

  abbrev is_unmounted_root : Vfs D → ℕ → Text → Bool
  is_unmounted_root s b path =
      same_text path (slash ∷ []) && not (is_some (s.nodes (root_of b s)).mounted)

  unfoldable pub vfs_umount : Caller D → Text → Action D (Unit {0})
  unfolding vfs_lookup_node_at vfs_node_close inline_reduce_path checked
  vfs_umount c path s =
      let below = then_do (vfs_lookup_node_at c none path false true) (unmount_from c) s in
      elim s.root_mounted [
        | none ↦ elim (unmount_prefix (inline_reduce_path path) s.tmp_mounted) [
          | none ↦ (err enoent, s)
          | some (b, mounts) ↦ (ok tt, vfs_super_close b (record s { tmp_mounted = mounts }))
        ]
        | some b ↦
            if is_unmounted_root s b path
            then (ok tt, vfs_super_close b (record s { root_mounted = none }))
            else below
      ]
