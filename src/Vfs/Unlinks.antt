-- ===== src/Vfs/Unlinks.antt =====
-- files/vfs/fs.c: the references of the calls that remove and add names.
use some_os.Prelude.{ℕ, true, false, ◌&&◌, List, [], ◌∷◌, ◌==◌}
use some_os.Path.{Text, dot, get_base_filename}
use some_os.Vfs.{Result, ok, err, Vfs, Caller, Action, mode_type, type_dir, then_do, of_result}
use some_os.Vfs.Node.{vfs_node_lookup, vfs_node_readdir, vfs_node_unlink}
use some_os.Vfs.Lookup.{vfs_lookup_node_at}
use some_os.Vfs.Calls.{At, close}
use some_os.Vfs.Links.{
  only_dots, vfs_check_directory_is_empty, vfs_remove_directory_dot_and_dot_dot, unlink_empty,
  vfs_unlink_from, closing_both, unlink_in, vfs_unlink_at,
}
use some_os.Vfs.Holds.{Holds, Owned, Owned→Holds, close-Holds}
use some_os.Vfs.Kept.{
  checked-Owned, then_do-Owned, if-Owned, result-Owned, vfs_node_lookup-Owned,
  vfs_node_readdir-Owned, vfs_node_unlink-Owned,
}
use some_os.Vfs.Balance.{with_found, vfs_lookup_node_at-Owned}

module _ {D : Type 0} (others : ℕ → ℕ) (c : Caller D) where
  -- Two steps that neither take nor give back a reference.
  both-Owned :
      (held : List ℕ) (m : Action D (Unit {0})) (k : Unit {0} → Action D (Unit {0})) (s : Vfs D)
      → Owned others held (λ _. held) (m s)
      → ((t : Vfs D) → Holds others held t → Owned others held (λ _. held) (k tt t))
      → Owned others held (λ _. held) (then_do m k s)
  both-Owned held m k s h next =
      then_do-Owned others held (λ _. held) (λ _. held) m k s h (λ _ t g. next t g)

  check_empty-Owned :
      (held : List ℕ) (dir : ℕ) (s : Vfs D)
      → Holds others held s
      → Owned others held (λ _. held) (vfs_check_directory_is_empty c dir s)
  unfolding vfs_check_directory_is_empty
  check_empty-Owned held dir s h =
      then_do-Owned others held (λ _. held) (λ _. held) (vfs_node_readdir c dir)
        (λ names. of_result (only_dots names)) s (vfs_node_readdir-Owned others held c dir s h)
        (λ names t g. result-Owned others held (only_dots names) t g)

  remove_dots-Owned :
      (held : List ℕ) (parent dir : ℕ) (s : Vfs D)
      → Holds others held s
      → Owned others held (λ _. held) (vfs_remove_directory_dot_and_dot_dot c parent dir s)
  unfolding vfs_remove_directory_dot_and_dot_dot
  remove_dots-Owned held parent dir s h =
      let dots = dot ∷ dot ∷ [] in
      if-Owned others held (λ _. held) ((s.nodes dir).nlinks == 1) _ (ok tt, s)
        (both-Owned held (vfs_node_unlink c dir (dot ∷ []) dir)
          (λ _. vfs_node_unlink c dir dots parent) s
          (vfs_node_unlink-Owned others held c dir (dot ∷ []) dir s h)
          (λ t g. vfs_node_unlink-Owned others held c dir dots parent t g))
        h

  vfs_unlink_from-Owned :
      (held : List ℕ) (parent : ℕ) (name : Text) (node : ℕ) (s : Vfs D)
      → Holds others held s
      → Owned others held (λ _. held) (vfs_unlink_from c parent name node s)
  unfolding vfs_unlink_from
  vfs_unlink_from-Owned held parent name node s h =
      if-Owned others held (λ _. held)
        ((mode_type (s.nodes node).mode == type_dir) && ((s.nodes node).nlinks == 2)) _ _
        (both-Owned held (vfs_check_directory_is_empty c node) (unlink_empty c parent name node) s
          (check_empty-Owned held node s h)
          (λ t g.
            both-Owned held (vfs_node_unlink c parent name node)
              (λ _. vfs_remove_directory_dot_and_dot_dot c parent node) t
              (vfs_node_unlink-Owned others held c parent name node t g)
              (λ u f. remove_dots-Owned held parent node u f)))
        (vfs_node_unlink-Owned others held c parent name node s h)

  closing_both-Owned :
      (held : List ℕ) (node parent : ℕ) (r : Result (Unit {0})) (s : Vfs D)
      → Owned others (node ∷ parent ∷ held) (λ _. node ∷ parent ∷ held) (r, s)
      → Owned others held (λ _. held) (closing_both c node parent (r, s))
  closing_both-Owned held node parent (ok a) s h =
      close-Holds others held c.driver parent (close c node s)
        (close-Holds others (parent ∷ held) c.driver node s h)
  closing_both-Owned held node parent (err e) s h =
      close-Holds others held c.driver parent (close c node s)
        (close-Holds others (parent ∷ held) c.driver node s h)

  unlink_in-Owned :
      (held : List ℕ) (name : Text) (parent : ℕ × Text) (s : Vfs D)
      → Holds others (with_found held parent) s
      → Owned others held (λ _. held) (unlink_in c name parent s)
  unlink_in-Owned held name parent s h =
      let more = parent.0 ∷ held in
      checked-Owned others held more (λ node. node ∷ more) (λ _. held)
        (vfs_node_lookup c parent.0 name) (close c parent.0)
        (λ node t. closing_both c node parent.0 (vfs_unlink_from c parent.0 name node t)) s
        (vfs_node_lookup-Owned others more c parent.0 name s h)
        (λ t g. close-Holds others held c.driver parent.0 t g)
        (λ node t g.
          closing_both-Owned held node parent.0 _ _
            (vfs_unlink_from-Owned (node ∷ more) parent.0 name node t g))

  -- When nothing is mounted on a node, unlinking a path leaves the count of references to every node as
  -- it was, on success and on every error.
  pub vfs_unlink_at-Holds :
      (held : List ℕ) (file : At) (path : Text) (s : Vfs D)
      → Holds others held s
      → Holds others held (vfs_unlink_at c file path s).1
  unfolding vfs_unlink_at
  vfs_unlink_at-Holds held file path s h = Owned→Holds others held _ _ (
      then_do-Owned others held (with_found held) (λ _. held)
        (vfs_lookup_node_at c file path true false) (unlink_in c (get_base_filename path)) s
        (vfs_lookup_node_at-Owned others c held file path true false s h)
        (λ parent t g. unlink_in-Owned held (get_base_filename path) parent t g))
