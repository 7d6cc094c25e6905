-- ===== src/Vfs/Depth.antt =====
-- files/vfs/fs.c: how many mounts have to be followed.
use mathlib.Core.Path.{subst}
use some_os.Prelude.{
  ℕ, zero, suc, false, Option, none, some, ◌≡◌, sym, ◌∙◌, inl, inr, arith, Option-cases,
}
use some_os.Vfs.{Vfs, Caller}
use some_os.Vfs.Node.{vfs_node_copy}
use some_os.Vfs.Lookup.{root_of, vfs_follow_mounts}

-- Nothing is mounted, or what is mounted has a property.
abbrev pub AtMount : (ℕ → Type 0) → Option ℕ → Type 0
AtMount P none = Unit
AtMount P (some b) = P b

AtMount-map : (P Q : ℕ → Type 0) (o : Option ℕ) → ((b : ℕ) → P b → Q b) → AtMount P o → AtMount Q o
AtMount-map P Q none f h = tt
AtMount-map P Q (some b) f h = f b h

-- From the first node the root of what is mounted leads to the second, on which nothing is mounted.
pub data OnTop {D : Type 0} (s : Vfs D) : ℕ → ℕ → Type 0 where
  here : (n : ℕ) → (s.nodes n).mounted ≡ none → OnTop s n n
  above : (n b m : ℕ) → (s.nodes n).mounted ≡ some b → OnTop s (root_of b s) m → OnTop s n m

module _ {D : Type 0} where
  -- From the node, at most so many mounts stand on each other.
  abbrev pub Ends : ℕ → Vfs D → ℕ → Type 0
  Ends zero s n = (s.nodes n).mounted ≡ none
  Ends (suc depth) s n = AtMount (λ b. Ends depth s (root_of b s)) (s.nodes n).mounted

  -- The mounts are the same in both states.
  abbrev SameMounts : Vfs D → Vfs D → Type 0
  SameMounts s t =
      ((i : ℕ) → (s.nodes i).mounted ≡ (t.nodes i).mounted) × ((b : ℕ) → root_of b s ≡ root_of b t)

  copy-SameMounts : (n : ℕ) (s : Vfs D) → SameMounts s (vfs_node_copy n s)
  unfolding vfs_node_copy
  copy-SameMounts n s = (λ i. ground arith, λ b. ground arith)

  Ends-same : (depth n : ℕ) (s t : Vfs D) → SameMounts s t → Ends depth s n → Ends depth t n
  Ends-same zero n s t same h = sym (same.0 n) ∙ h
  Ends-same (suc depth) n s t same h =
      subst (AtMount (λ b. Ends depth t (root_of b t))) (same.0 n) (
        AtMount-map (λ b. Ends depth s (root_of b s)) (λ b. Ends depth t (root_of b t))
          (s.nodes n).mounted
          (λ b g. subst (Ends depth t) (same.1 b) (Ends-same depth (root_of b s) s t same g)) h)

  OnTop-same : (s t : Vfs D) (n m : ℕ) → SameMounts s t → OnTop t n m → OnTop s n m
  OnTop-same s t n m same (here _ e) = here n (same.0 n ∙ e)
  OnTop-same s t n m same (above _ b _ e h) =
      above n b m (same.0 n ∙ e)
        (subst (λ r. OnTop s r m) (sym (same.1 b)) (OnTop-same s t (root_of b t) m same h))

  -- Where at most `depth` mounts stand on each other from a node on, vfsFollowMounts with a
  -- `last_mountpoint` that is false, allowed that many mounts, ends at the node that is reached by going
  -- to the root of what is mounted on a node for as long as something is, and nothing is mounted on it
  -- afterwards either.
  pub vfs_follow_mounts-Ends :
      (c : Caller D) (depth n : ℕ) (s : Vfs D)
      → Ends depth s n
      → let (found, t) = vfs_follow_mounts c depth false n s in
        OnTop s n found × ((t.nodes found).mounted ≡ none)
  unfolding vfs_follow_mounts
  vfs_follow_mounts-Ends c zero n s h = (here n h, h)
  vfs_follow_mounts-Ends c (suc depth) n s h = elim (Option-cases (s.nodes n).mounted) [
    | inl e ↦ rw (e, vfs_follow_mounts) (here n e, e)
    | inr (b, e) ↦
        let root = root_of b s in
        let t = vfs_node_copy root s in
        let same = copy-SameMounts root s in
        let below = subst (AtMount (λ b. Ends depth s (root_of b s))) e h in
        let (leads, rest) =
          vfs_follow_mounts-Ends c depth root t (Ends-same depth root s t same below) in
        let found = (vfs_follow_mounts c depth false root t).0 in
        rw (e, vfs_follow_mounts) (above n b found e (OnTop-same s t root found same leads), rest)
  ]
