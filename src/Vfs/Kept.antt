-- ===== src/Vfs/Kept.antt =====
-- files/vfs/node.c and files/vfs/super.c: what the operations on nodes do to the references.
use some_os.Prelude.{
  ℕ, add64, sub64, ◌+◌, Bool, true, false, List, ◌∷◌, ◌==◌, if◌then◌else◌, ◌≡◌, refl, inl, inr,
  arith, Bool-cases, Option-cases,
}
use some_os.Path.{Text}
use some_os.Vfs.{
  Result, ok, err, lookup_function, readdir_function, trunc_function, unlink_function,
  link_function, access_x, access_w, access_r, access_dir, has, VfsNode, Vfs, NodeFunction, Caller,
  Action, checked, then_do, can_access,
}
use some_os.Vfs.Node.{
  set_node, delegate, delegate_change, vfs_node_lookup, vfs_node_readdir, vfs_node_trunc, add_links,
  vfs_node_unlink, vfs_node_link, vfs_super_new_node, touched, store_contents, referenced, unlinked,
  linked, take_new, vfs_super_write_node,
}
use some_os.Vfs.Holds.{Holds, Owned, copy-Holds}

module _ {D : Type 0} (others : ℕ → ℕ) where
  pub if-Owned :
      {A : Type 0} (failed : List ℕ) (held : A → List ℕ) (b : Bool) (x y : Result A × Vfs D)
      → Owned others failed held x
      → Owned others failed held y
      → Owned others failed held (if b then x else y)
  if-Owned failed held true x y h g = h
  if-Owned failed held false x y h g = g

  pub result-Owned :
      {A : Type 0} (held : List ℕ) (r : Result A) (t : Vfs D)
      → Holds others held t
      → Owned others held (λ _. held) (r, t)
  result-Owned held (ok a) t h = h
  result-Owned held (err e) t h = h

  continue-Owned :
      {A B : Type 0} (failed lost : List ℕ) (held : A → List ℕ) (final : B → List ℕ)
      (cleanup : Vfs D → Vfs D) (k : A → Action D B) (r : Result A) (t s : Vfs D)
      → Owned others lost held (r, t)
      → ((t : Vfs D) → Holds others lost t → Holds others failed (cleanup t))
      → ((a : A) (t : Vfs D) → Holds others (held a) t → Owned others failed final (k a t))
      → Owned others failed final (checked (λ _. (r, t)) cleanup k s)
  unfolding checked
  continue-Owned failed lost held final cleanup k (ok a) t s h clean next = next a t h
  continue-Owned failed lost held final cleanup k (err e) t s h clean next = clean t h

  pub checked-Owned :
      {A B : Type 0} (failed lost : List ℕ) (held : A → List ℕ) (final : B → List ℕ)
      (m : Action D A) (cleanup : Vfs D → Vfs D) (k : A → Action D B) (s : Vfs D)
      → Owned others lost held (m s)
      → ((t : Vfs D) → Holds others lost t → Holds others failed (cleanup t))
      → ((a : A) (t : Vfs D) → Holds others (held a) t → Owned others failed final (k a t))
      → Owned others failed final (checked m cleanup k s)
  unfolding checked
  checked-Owned failed lost held final m cleanup k s h clean next =
      continue-Owned failed lost held final cleanup k (m s).0 (m s).1 s h clean next

  pub set_node-Holds :
      (held : List ℕ) (n : ℕ) (node : VfsNode) (s : Vfs D)
      → node.ref_count ≡ (s.nodes n).ref_count
      → node.mounted ≡ (s.nodes n).mounted
      → Holds others held s
      → Holds others held (set_node n node s)
  set_node-Holds held n node s refs mounts h i =
      let r = h i in let q = h n in ground (arith, r, q, refs, mounts)

  pub delegate-Owned :
      {A : Type 0} (held : List ℕ) (c : Caller D) (n : ℕ) (f : NodeFunction) (access : ℕ)
      (run : D → Result A) (s : Vfs D)
      → Holds others held s
      → Owned others held (λ _. held) (delegate c n f access run s)
  unfolding delegate
  delegate-Owned held c n f access run s h =
      let t = set_node n (touched c access (s.nodes n)) s in
      let changed = set_node-Holds held n (touched c access (s.nodes n)) s refl refl h in
      let ran = result-Owned held (run t.contents) t changed in
      elim (Bool-cases (c.driver.supports n f)) [
        | inr e ↦ rw e h
        | inl e ↦ elim (Option-cases (can_access (s.nodes n) c.user access)) [
          | inl e' ↦ rw (e, e') ran
          | inr (x, e') ↦ rw (e, e') h
        ]
      ]

  -- A call that passes on the error of the first step.
  pub then_do-Owned :
      {A B : Type 0} (failed : List ℕ) (held : A → List ℕ) (final : B → List ℕ) (m : Action D A)
      (k : A → Action D B) (s : Vfs D)
      → Owned others failed held (m s)
      → ((a : A) (t : Vfs D) → Holds others (held a) t → Owned others failed final (k a t))
      → Owned others failed final (then_do m k s)
  then_do-Owned failed held final m k s h next =
      checked-Owned failed failed held final m (λ t. t) k s h (λ t g. g) next

  pub delegate_change-Owned :
      (held : List ℕ) (c : Caller D) (n : ℕ) (f : NodeFunction) (access : ℕ) (run : D → Result D)
      (s : Vfs D)
      → Holds others held s
      → Owned others held (λ _. held) (delegate_change c n f access run s)
  unfolding delegate_change
  delegate_change-Owned held c n f access run s h =
      then_do-Owned held (λ _. held) (λ _. held) (delegate c n f access run) store_contents s
        (delegate-Owned held c n f access run s h) (λ a t g. g)

  pub vfs_node_lookup-Owned :
      (held : List ℕ) (c : Caller D) (n : ℕ) (name : Text) (s : Vfs D)
      → Holds others held s
      → Owned others held (λ node. node ∷ held) (vfs_node_lookup c n name s)
  unfolding vfs_node_lookup
  vfs_node_lookup-Owned held c n name s h =
      then_do-Owned held (λ _. held) (λ node. node ∷ held)
        (delegate c n lookup_function (access_x + access_dir) (λ d. c.driver.lookup d n name))
        referenced s
        (delegate-Owned held c n lookup_function (access_x + access_dir)
          (λ d. c.driver.lookup d n name) s h)
        (λ a t g. copy-Holds others held a t g)

  pub vfs_node_readdir-Owned :
      (held : List ℕ) (c : Caller D) (n : ℕ) (s : Vfs D)
      → Holds others held s
      → Owned others held (λ _. held) (vfs_node_readdir c n s)
  unfolding vfs_node_readdir
  vfs_node_readdir-Owned held c n s h =
      delegate-Owned held c n readdir_function (access_r + access_dir) (λ d. c.driver.readdir d n) s
        h

  pub vfs_node_trunc-Owned :
      (held : List ℕ) (c : Caller D) (n size : ℕ) (s : Vfs D)
      → Holds others held s
      → Owned others held (λ _. held) (vfs_node_trunc c n size s)
  unfolding vfs_node_trunc
  vfs_node_trunc-Owned held c n size s h =
      delegate_change-Owned held c n trunc_function access_w (λ d. c.driver.trunc d n size) s h

  add_links-Holds :
      (held : List ℕ) (f : ℕ → ℕ) (c : Caller D) (n : ℕ) (s : Vfs D)
      → Holds others held s
      → Holds others held (add_links f c n s)
  add_links-Holds held f c n s h =
      set_node-Holds held n
        (vfs_super_write_node c (record (s.nodes n) { nlinks = f (s.nodes n).nlinks })) s refl refl
        h

  pub vfs_node_unlink-Owned :
      (held : List ℕ) (c : Caller D) (n : ℕ) (name : Text) (entry : ℕ) (s : Vfs D)
      → Holds others held s
      → Owned others held (λ _. held) (vfs_node_unlink c n name entry s)
  unfolding vfs_node_unlink
  vfs_node_unlink-Owned held c n name entry s h =
      let rest =
        then_do-Owned held (λ _. held) (λ _. held)
          (delegate_change c n unlink_function (access_w + access_dir)
            (λ d. c.driver.unlink d n name))
          (unlinked c entry) s
          (delegate_change-Owned held c n unlink_function (access_w + access_dir)
            (λ d. c.driver.unlink d n name) s h)
          (λ a t g. add_links-Holds held (λ l. sub64 l 1) c entry t g) in
      elim (Bool-cases ((s.nodes n).superblock == (s.nodes entry).superblock)) [
        | inr e ↦ rw e h
        | inl e ↦ elim (Bool-cases (has (s.nodes n).mode 512)) [
          | inr sticky ↦ rw (e, sticky) rest
          | inl sticky ↦ elim (Option-cases (can_access (s.nodes entry) c.user access_w)) [
            | inl denied ↦ rw (e, sticky, denied) rest
            | inr (x, denied) ↦ rw (e, sticky, denied) h
          ]
        ]
      ]

  linked-Owned :
      (held : List ℕ) (c : Caller D) (n : ℕ) (name : Text) (entry : ℕ) (s : Vfs D)
      → Holds others held s
      → Owned others held (λ _. held) (linked c n name entry s)
  linked-Owned held c n name entry s h =
      let s1 = set_node n (touched c access_w (s.nodes n)) s in
      let s2 = add_links (λ l. add64 l 1) c entry s1 in
      let g = set_node-Holds held n (touched c access_w (s.nodes n)) s refl refl h in
      let g' = add_links-Holds held (λ l. add64 l 1) c entry s1 g in
      then_do-Owned held (λ _. held) (λ _. held) (λ t. (c.driver.link t.contents n name entry, t))
        store_contents s2 (result-Owned held (c.driver.link s2.contents n name entry) s2 g')
        (λ a t r. r)

  pub vfs_node_link-Owned :
      (held : List ℕ) (c : Caller D) (n : ℕ) (name : Text) (entry : ℕ) (s : Vfs D)
      → Holds others held s
      → Owned others held (λ _. held) (vfs_node_link c n name entry s)
  unfolding vfs_node_link
  vfs_node_link-Owned held c n name entry s h =
      let rest = linked-Owned held c n name entry s h in
      elim (Bool-cases ((s.nodes n).superblock == (s.nodes entry).superblock)) [
        | inr e ↦ rw e h
        | inl e ↦ elim (Bool-cases (c.driver.supports n link_function)) [
          | inr can ↦ rw (e, can) h
          | inl can ↦ elim (Option-cases (can_access (s.nodes n) c.user (access_w + access_dir))) [
            | inl denied ↦ rw (e, can, denied) rest
            | inr (x, denied) ↦ rw (e, can, denied) h
          ]
        ]
      ]

  pub vfs_super_new_node-Owned :
      (held : List ℕ) (c : Caller D) (b : ℕ) (s : Vfs D)
      → Holds others held s
      → Owned others held (λ node. node ∷ held) (vfs_super_new_node c b s)
  unfolding vfs_super_new_node
  vfs_super_new_node-Owned held c b s h =
      then_do-Owned held (λ _. held) (λ node. node ∷ held)
        (λ t. (c.driver.new_node t.contents b, t)) take_new s
        (result-Owned held (c.driver.new_node s.contents b) s h)
        (λ a t g. copy-Holds others held a.0 (record t { contents = a.1 }) g)
