-- ===== src/Vfs/Links.antt =====
-- files/vfs/fs.c: the calls that remove names and add them.
use some_os.Prelude.{ℕ, true, false, not, ◌&&◌, List, [], ◌∷◌, ◌==◌, if◌then◌else◌}
use some_os.Path.{Text, dot, is_dot, is_dot_dot, get_base_filename}
use some_os.Vfs.{
  eexist, enotempty, ok, err, Result, Vfs, Caller, Action, checked, then_do, of_result, mode_type,
  type_dir,
}
use some_os.Vfs.Node.{
  vfs_node_close, vfs_node_lookup, vfs_node_readdir, vfs_node_link, vfs_node_unlink,
}
use some_os.Vfs.Lookup.{vfs_lookup_node_at}
use some_os.Vfs.Calls.{At, is_enoent, close, close_both}

-- The loop of `vfsCheckDirectoryIsEmpty` over the entries.
abbrev pub only_dots : List Text → Result (Unit {0})
only_dots [] = ok tt
only_dots (name ∷ names) =
    let rest = only_dots names in
    if not (is_dot name) && not (is_dot_dot name) then err enotempty else rest

module _ {D : Type 0} where
  -- The entries are read with one call; the buffer takes no longer name than `..`.
  unfoldable pub vfs_check_directory_is_empty : Caller D → ℕ → Action D (Unit {0})
  unfolding vfs_node_readdir checked
  vfs_check_directory_is_empty c dir =
      then_do (vfs_node_readdir c dir) (λ names. of_result (only_dots names))

  unfoldable pub vfs_remove_directory_dot_and_dot_dot : Caller D → ℕ → ℕ → Action D (Unit {0})
  unfolding vfs_node_unlink checked
  vfs_remove_directory_dot_and_dot_dot c parent dir s =
      let removed =
        then_do (vfs_node_unlink c dir (dot ∷ []) dir)
          (λ _. vfs_node_unlink c dir (dot ∷ dot ∷ []) parent) s in
      if (s.nodes dir).nlinks == 1 then removed else (ok tt, s)

  abbrev pub unlink_empty : Caller D → ℕ → Text → ℕ → Unit {0} → Action D (Unit {0})
  unlink_empty c parent name node _ =
      then_do (vfs_node_unlink c parent name node)
        (λ _. vfs_remove_directory_dot_and_dot_dot c parent node)

  unfoldable pub vfs_unlink_from : Caller D → ℕ → Text → ℕ → Action D (Unit {0})
  unfolding vfs_check_directory_is_empty vfs_node_unlink vfs_remove_directory_dot_and_dot_dot
      checked
  vfs_unlink_from c parent name node s =
      let directory =
        then_do (vfs_check_directory_is_empty c node) (unlink_empty c parent name node) s in
      let file = vfs_node_unlink c parent name node s in
      if (mode_type (s.nodes node).mode == type_dir) && ((s.nodes node).nlinks == 2)
      then directory
      else file

  -- The result of a call, after both nodes are closed.
  abbrev pub closing_both : Caller D → ℕ → ℕ → Result (Unit {0}) × Vfs D → Result (Unit {0}) × Vfs D
  closing_both c node parent (r, s) = (r, close_both c parent node s)

  abbrev pub unlink_in : Caller D → Text → ℕ × Text → Action D (Unit {0})
  unlink_in c name (parent, _) =
      checked (vfs_node_lookup c parent name) (close c parent)
        (λ node s. closing_both c node parent (vfs_unlink_from c parent name node s))

  unfoldable pub vfs_unlink_at : Caller D → At → Text → Action D (Unit {0})
  unfolding vfs_lookup_node_at vfs_node_lookup vfs_unlink_from vfs_node_close get_base_filename
      checked
  vfs_unlink_at c file path =
      then_do (vfs_lookup_node_at c file path true false) (unlink_in c (get_base_filename path))

  -- The old parent is not closed.
  unfoldable pub vfs_move_directory_dot_dot : Caller D → At → Text → ℕ → ℕ → Action D (Unit {0})
  unfolding vfs_lookup_node_at vfs_node_link vfs_node_unlink checked
  vfs_move_directory_dot_dot c old_file old parent child =
      then_do (vfs_lookup_node_at c old_file old true false) (λ old_parent.
        then_do (vfs_node_unlink c child (dot ∷ dot ∷ []) old_parent.0)
          (λ _. vfs_node_link c child (dot ∷ dot ∷ []) parent))

  -- A directory keeps its `..` up to date.
  abbrev pub move_if_dir : Caller D → At → Text → ℕ → ℕ → Unit {0} → Action D (Unit {0})
  move_if_dir c old_file old parent node _ s =
      let moved = vfs_move_directory_dot_dot c old_file old parent node s in
      if mode_type (s.nodes node).mode == type_dir then moved else (ok tt, s)

  abbrev pub link_old : Caller D → At → Text → ℕ → Text → ℕ × Text → Action D (Unit {0})
  link_old c old_file old parent name (node, _) s =
      closing_both c node parent
        (then_do (vfs_node_link c parent name node) (move_if_dir c old_file old parent node) s)

  abbrev pub link_in : Caller D → At → Text → Text → ℕ × Text → Action D (Unit {0})
  link_in c old_file old name (parent, _) s =
      let (found, s') = vfs_node_lookup c parent name s in
      let linked =
        checked (vfs_lookup_node_at c old_file old false false) (close c parent)
          (link_old c old_file old parent name) s' in
      elim found [
        | ok node ↦ (err eexist, close_both c node parent s')
        | err e ↦ if is_enoent e then linked else (err e, close c parent s')
      ]

  unfoldable pub vfs_link_at : Caller D → At → Text → At → Text → Action D (Unit {0})
  unfolding vfs_lookup_node_at vfs_node_lookup vfs_node_link vfs_move_directory_dot_dot
      vfs_node_close get_base_filename checked
  vfs_link_at c old_file old new_file new =
      then_do (vfs_lookup_node_at c new_file new true false)
        (link_in c old_file old (get_base_filename new))
