-- ===== src/Descriptors/Fork.antt =====
-- files/process.c: `forkFileDescriptors`, and the tables that `closeExecProcessFiles` and
-- `closeAllProcessFiles` leave.
use some_os.Prelude.{
  ℕ, ◌+◌, ◌≤◌, ◌<◌, ◌≡◌, ◌∙◌, refl, ap, sym, Bool, false, none, some, arith, pos, List, [], ◌∷◌,
  ◌++◌, map, append_assoc, append-nil, All,
}
use some_os.Descriptors.{
  Descriptor, Resources, new_descriptor, close_file_descriptor, put_new_file_descriptor, unlink,
  vfs_file_copy, put_at, link,
}
use some_os.Descriptors.Bulk.{fork_file_descriptors}
use some_os.Descriptors.Sorted.{IsSortedFrom}

abbrev pub AllBelow : ℕ → List Descriptor → Type 0
AllBelow n ds = All (λ d. d.id < n) ds

unlink-AllBelow : (n : ℕ) (ds : List Descriptor) → AllBelow n ds → unlink (pos n) ds ≡ (none, ds)
unfolding unlink
unlink-AllBelow n [] h = refl
unlink-AllBelow n (d ∷ ds) h = ground (arith, unlink-AllBelow n ds)

put_at-append :
    (replace : Bool) (new : Descriptor) (ds : List Descriptor)
    → AllBelow new.id ds
    → put_at replace new ds ≡ (some (new.id, ds ++ (new ∷ [])), none)
unfolding put_at link
put_at-append replace new [] h = refl
put_at-append replace new (d ∷ ds) h = ground (arith, put_at-append replace new ds)

-- A number above all the others goes to the end of the table, and nothing is closed.
put-append :
    (fresh fd flags file : ℕ) (replace : Bool) (r : Resources)
    → AllBelow fd r.files
    → put_new_file_descriptor fresh (pos fd) flags file replace r
      ≡ some (
        fd,
        record r {
          files = r.files ++ (new_descriptor fresh fd flags file ∷ []);
          store = vfs_file_copy file r.store;
        },
      )
unfolding put_new_file_descriptor close_file_descriptor
put-append fresh fd flags file replace r h =
    rw (unlink-AllBelow fd r.files h)
      (rw (put_at-append replace (new_descriptor fresh fd flags file) r.files h) refl)

-- What the child's descriptor is, given the parent's.
abbrev pub clone : (ℕ → ℕ) → Descriptor → Descriptor
clone fresh d = new_descriptor (fresh d.id) d.id d.flags d.file

AllBelow-le : (n m : ℕ) (ds : List Descriptor) → AllBelow n ds → n ≤ m → AllBelow m ds
AllBelow-le n m [] h k = tt
AllBelow-le n m (d ∷ ds) h k = (omega arith, AllBelow-le n m ds h.1 k)

append-AllBelow :
    (n m : ℕ) (d : Descriptor) (ds : List Descriptor)
    → AllBelow n ds
    → n ≤ m
    → d.id < m
    → AllBelow m (ds ++ (d ∷ []))
append-AllBelow n m d [] h k e = (e, tt)
append-AllBelow n m d (x ∷ xs) h k e = (omega arith, append-AllBelow n m d xs h.1 k e)

fork_append :
    (fresh : ℕ → ℕ) (lo : ℕ) (ds : List Descriptor) (r : Resources)
    → IsSortedFrom lo ds
    → AllBelow lo r.files
    → (r' : Resources) × (fork_file_descriptors fresh ds r ≡ some r')
      × (r'.files ≡ r.files ++ map (clone fresh) ds)
unfolding fork_file_descriptors
fork_append fresh lo [] r s h = (r, refl, sym (append-nil r.files))
fork_append fresh lo (d ∷ ds) r s h =
    let next = record r {
      files = r.files ++ (clone fresh d ∷ []);
      store = vfs_file_copy d.file r.store;
    } in
    let (r', e, same) =
      fork_append fresh (d.id + 1) ds next s.1
        (append-AllBelow lo (d.id + 1) (clone fresh d) r.files h (omega arith) (omega arith)) in
    (
      r',
      rw
          (
            put-append (fresh d.id) d.id d.flags d.file false r (AllBelow-le lo d.id r.files h s.0),
            fork_file_descriptors,
          )
          e,
      same ∙ append_assoc r.files (clone fresh d ∷ []) (map (clone fresh) ds),
    )

-- `forkFileDescriptors` succeeds on the ordered table of the parent. The new process, which starts
-- with no descriptors, gets one for each of the parent's, with its number, flags and file, each with
-- a reference count of one.
pub fork-clones :
    (fresh : ℕ → ℕ) (old new : Resources)
    → IsSortedFrom 0 old.files
    → new.files ≡ []
    → (r : Resources) × (fork_file_descriptors fresh old.files new ≡ some r)
      × (r.files ≡ map (clone fresh) old.files)
fork-clones fresh old new s e =
    let (r, run, same) = fork_append fresh 0 old.files new s (rw e tt) in
    (r, run, same ∙ ap (λ xs. xs ++ map (clone fresh) old.files) e)
