-- ===== src/Vfs/Holds.antt =====
-- files/vfs: who holds the references to nodes.
use some_os.Prelude.{ℕ, ◌+◌, none, List, [], ◌∷◌, ◌==◌, if◌then◌else◌, ◌≡◌, arith}
use some_os.Vfs.{Result, ok, err, Vfs, Driver}
use some_os.Vfs.Node.{vfs_node_copy, vfs_super_free_node, vfs_node_close}

unfoldable pub one : ℕ → ℕ → ℕ
one n i = if i == n then 1 else 0

-- How often a node stands in a list.
abbrev pub count : ℕ → List ℕ → ℕ
count i [] = 0
count i (n ∷ ns) = one n i + count i ns

module _ {D : Type 0} where
  -- The call holds the references of the list beside those that others hold, and nothing is mounted on
  -- a node.
  abbrev pub Holds : (ℕ → ℕ) → List ℕ → Vfs D → Type 0
  Holds others held s =
      (i : ℕ) → ((s.nodes i).mounted ≡ none) × ((s.nodes i).ref_count ≡ others i + count i held)

  -- The list that a call holds when it succeeds, and when it fails.
  abbrev pub Owned : {A : Type 0} → (ℕ → ℕ) → List ℕ → (A → List ℕ) → Result A × Vfs D → Type 0
  Owned others failed held (ok a, s) = Holds others (held a) s
  Owned others failed held (err _, s) = Holds others failed s

  pub Holds-permuted :
      (others : ℕ → ℕ) (xs ys : List ℕ) (s : Vfs D)
      → ((i : ℕ) → count i xs ≡ count i ys)
      → Holds others xs s
      → Holds others ys s
  Holds-permuted others xs ys s same h i =
      let l = same i in let r = h i in (r.0, omega (arith, l, r.1))

  pub copy-Holds :
      (others : ℕ → ℕ) (held : List ℕ) (n : ℕ) (s : Vfs D)
      → Holds others held s
      → Holds others (n ∷ held) (vfs_node_copy n s)
  unfolding vfs_node_copy one
  copy-Holds others held n s h i = let r = h i in ground (arith, r)

  pub close-Holds :
      (others : ℕ → ℕ) (held : List ℕ) (driver : Driver D) (n : ℕ) (s : Vfs D)
      → Holds others (n ∷ held) s
      → Holds others held (vfs_node_close driver n s)
  unfolding vfs_node_close vfs_super_free_node one
  close-Holds others held driver n s h i = let r = h i in ground (arith, r)

  -- A call that holds the same on success and on failure.
  pub Owned→Holds :
      {A : Type 0} (others : ℕ → ℕ) (held : List ℕ) (r : Result A) (s : Vfs D)
      → Owned others held (λ _. held) (r, s)
      → Holds others held s
  Owned→Holds others held (ok a) s h = h
  Owned→Holds others held (err e) s h = h
