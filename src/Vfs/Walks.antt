-- ===== src/Vfs/Walks.antt =====
-- files/vfs/fs.c: the references that a lookup takes and gives back.
use some_os.Prelude.{
  ℕ, zero, suc, ◌+◌, Bool, false, List, [], ◌∷◌, ◌==◌, ◌≡◌, refl, sym, inl, inr, arith, Bool-cases,
  Option-cases,
}
use mathlib.Core.Path.{subst}
use some_os.Path.{Text, is_dot, is_dot_dot}
use some_os.Vfs.{Result, ok, err, Vfs, Caller, mode_type, type_dir}
use some_os.Vfs.Node.{vfs_node_copy, vfs_node_lookup}
use some_os.Vfs.Lookup.{
  vfs_follow_mounts, Position, leave, enter_found, enter_at, enter, walk_segments, close_dirs,
}
use some_os.Vfs.Holds.{Holds, Owned, count, copy-Holds, close-Holds, Holds-permuted}
use some_os.Vfs.Kept.{vfs_node_lookup-Owned}

-- The directories that a walk holds.
abbrev pub dirs_held : List (ℕ × Text) → List ℕ → List ℕ
dirs_held [] held = held
dirs_held ((dir, _) ∷ dirs) held = dir ∷ dirs_held dirs held

abbrev pub position_held : Position → List ℕ → List ℕ
position_held p held = p.curr ∷ dirs_held p.dirs (p.first ∷ held)

pub count-dirs_held :
    (i : ℕ) (dirs : List (ℕ × Text)) (held : List ℕ)
    → count i (dirs_held dirs held) ≡ count i (dirs_held dirs []) + count i held
count-dirs_held i [] held = omega arith
count-dirs_held i ((dir, _) ∷ dirs) held = omega (arith, count-dirs_held i dirs held)

module _ {D : Type 0} (others : ℕ → ℕ) (c : Caller D) where
  -- Where nothing is mounted, the node is the one that was given.
  pub vfs_follow_mounts-unmounted :
      (held : List ℕ) (depth : ℕ) (last : Bool) (n : ℕ) (s : Vfs D)
      → Holds others held s
      → vfs_follow_mounts c depth last n s ≡ (n, s)
  unfolding vfs_follow_mounts
  vfs_follow_mounts-unmounted held zero last n s h = refl
  vfs_follow_mounts-unmounted held (suc depth) last n s h =
      let r = h n in rw (r.0, vfs_follow_mounts) refl

  leave_dirs-Holds :
      (held : List ℕ) (curr first : ℕ) (dirs : List (ℕ × Text)) (s : Vfs D)
      → let p : Position = record { curr = curr; first = first; dirs = dirs } in
        Holds others (position_held p held) s
        → Holds others (position_held (leave c p s).0 held) (leave c p s).1
  leave_dirs-Holds held curr first [] s h = h
  leave_dirs-Holds held curr first ((dir, name) ∷ dirs) s h =
      close-Holds others (dir ∷ dirs_held dirs (first ∷ held)) c.driver curr s h

  leave-Holds :
      (held : List ℕ) (p : Position) (s : Vfs D)
      → Holds others (position_held p held) s
      → Holds others (position_held (leave c p s).0 held) (leave c p s).1
  leave-Holds held p s h = leave_dirs-Holds held p.curr p.first p.dirs s h

  pub swap-Holds :
      (held : List ℕ) (a b : ℕ) (s : Vfs D)
      → Holds others (a ∷ b ∷ held) s
      → Holds others (b ∷ a ∷ held) s
  swap-Holds held a b s h =
      Holds-permuted others (a ∷ b ∷ held) (b ∷ a ∷ held) s (λ i. omega arith) h

  enter_found-Holds :
      (held : List ℕ) (segment : Text) (p : Position) (r : Result ℕ) (s : Vfs D)
      → Owned others (p.curr ∷ position_held p held) (λ n. n ∷ p.curr ∷ position_held p held) (r, s)
      → let (e, q, t) = enter_found c segment p p.curr (r, s) in
        Holds others (position_held q held) t
  enter_found-Holds held segment p (ok n) s h =
      close-Holds others (n ∷ position_held p held) c.driver p.curr s
        (swap-Holds (position_held p held) n p.curr s h)
  enter_found-Holds held segment p (err e) s h = h

  enter-Holds :
      (held : List ℕ) (segment : Text) (p : Position) (s : Vfs D)
      → Holds others (position_held p held) s
      → Holds others (position_held (enter c segment p s).1 held) (enter c segment p s).2
  unfolding enter
  enter-Holds held segment p s h =
      let more = p.curr ∷ position_held p held in
      let t = vfs_node_copy p.curr s in
      let copied = copy-Holds others (position_held p held) p.curr s h in
      let found = vfs_node_lookup c p.curr segment t in
      subst (λ r. let (e, q, u) = enter_at c segment p r in Holds others (position_held q held) u)
        (sym (vfs_follow_mounts-unmounted more c.depth false p.curr t copied))
        (enter_found-Holds held segment p found.0 found.1
          (vfs_node_lookup-Owned others more c p.curr segment t copied))

  pub close_dirs-Holds :
      (held : List ℕ) (dirs : List (ℕ × Text)) (s : Vfs D)
      → Holds others (dirs_held dirs held) s
      → Holds others held (close_dirs c dirs s)
  unfolding close_dirs
  close_dirs-Holds held [] s h = h
  close_dirs-Holds held ((dir, name) ∷ dirs) s h =
      let same : ((i : ℕ)
          → count i (dir ∷ dirs_held dirs held) ≡ count i (dirs_held dirs (dir ∷ held))) =
        (λ i. omega (arith, count-dirs_held i dirs held, count-dirs_held i dirs (dir ∷ held))) in
      close-Holds others held c.driver dir (close_dirs c dirs s) (
        close_dirs-Holds (dir ∷ held) dirs s (
          Holds-permuted others (dir ∷ dirs_held dirs held) (dirs_held dirs (dir ∷ held)) s same h))

  pub walk_segments-Holds :
      (held : List ℕ) (segments : List Text) (p : Position) (s : Vfs D)
      → Holds others (position_held p held) s
      → let (e, q, t) = walk_segments c segments p s in Holds others (position_held q held) t
  unfolding walk_segments
  walk_segments-Holds held [] p s h = h
  walk_segments-Holds held ([] ∷ segments) p s h = walk_segments-Holds held segments p s h
  walk_segments-Holds held ((a ∷ name) ∷ segments) p s h =
      let entered = enter c (a ∷ name) p s in
      let step = enter-Holds held (a ∷ name) p s h in
      elim (Bool-cases (mode_type (s.nodes p.curr).mode == type_dir)) [
        | inr e ↦ rw e h
        | inl e ↦ elim (Bool-cases (is_dot (a ∷ name))) [
          | inl e' ↦ rw (e, e') (walk_segments-Holds held segments p s h)
          | inr e' ↦ elim (Bool-cases (is_dot_dot (a ∷ name))) [
            | inl up ↦
                rw (e, e', up)
                  (walk_segments-Holds held segments (leave c p s).0 (leave c p s).1
                    (leave-Holds held p s h))
            | inr up ↦ elim (Option-cases (entered.0)) [
              | inl done ↦
                  rw (e, e', up, done) (walk_segments-Holds held segments entered.1 entered.2 step)
              | inr (x, failed) ↦ rw (e, e', up, failed) step
            ]
          ]
        ]
      ]
