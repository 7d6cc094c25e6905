-- ===== src/Descriptors/Release.antt =====
-- files/process.c: what a system call does with a descriptor, and the two functions that close
-- many.
use some_os.Prelude.{
  ℕ, ◌+◌, ◌^◌, ◌<◌, ◌≡◌, refl, true, some, arith, ℤ, if◌then◌else◌, List, [], ◌∷◌, All, add64,
  sub64, Option-cases, inl, inr,
}
use some_os.Descriptors.{
  Descriptor, Resources, drop_descriptor, get_file_descriptor, get_file_descriptor_unsafe,
  vfs_file_descriptor_copy,
}
use some_os.Descriptors.Bulk.{
  close_on_exec, drop_all, close_all_process_files, vfs_file_descriptor_close, is_linked,
  release_linked,
}
use some_os.Descriptors.Counts.{holders, IsLive, IsCountedWith, IsCounted, drop-IsCounted}

-- A descriptor found by number is found by its address.
found-is_linked :
    (fd : ℤ) (ds : List Descriptor) (d : Descriptor)
    → get_file_descriptor_unsafe ds fd ≡ some d
    → is_linked d.address ds ≡ true
unfolding get_file_descriptor_unsafe
found-is_linked fd [] d h = cc
found-is_linked fd (x ∷ xs) d h = ground (arith, found-is_linked fd xs d)

abbrev CanCopy : Descriptor → Type 0
CanCopy d = (0 < d.ref_count) × (d.ref_count + 1 < 2 ^ 64)

is_linked-copy :
    (a b : ℕ) (ds : List Descriptor) → is_linked b (vfs_file_descriptor_copy a ds) ≡ is_linked b ds
unfolding vfs_file_descriptor_copy
is_linked-copy a b [] = refl
is_linked-copy a b (d ∷ ds) = ground (arith, is_linked-copy a b ds)

release-copy :
    (a : ℕ) (ds : List Descriptor)
    → All CanCopy ds
    → is_linked a ds ≡ true
    → release_linked a (vfs_file_descriptor_copy a ds) ≡ some ds
unfolding vfs_file_descriptor_copy release_linked add64 sub64
release-copy a [] h k = cc
release-copy a (d ∷ ds) h k = ground (arith, release-copy a ds)

-- `getFileDescriptor` followed by `vfsFileDescriptorClose` on what it found leaves the process as it
-- was, if no reference count of the table is 0 or about to overflow.
close-get :
    (fd : ℤ) (r : Resources) {a : ℕ}
    → All CanCopy r.files
    → (get_file_descriptor fd r).0 ≡ some a
    → vfs_file_descriptor_close a (get_file_descriptor fd r).1 ≡ some r
unfolding get_file_descriptor vfs_file_descriptor_close
close-get fd r {a} h e = elim (Option-cases (get_file_descriptor_unsafe r.files fd)) [
  | inl gone ↦ ground arith
  | inr (d, found) ↦ ground (
    arith,
    found-is_linked fd r.files d,
    is_linked-copy d.address d.address r.files,
    release-copy d.address r.files,
  )
]

abbrev pub unlisted : Resources → Resources
unlisted r = record r { files = [] }

drop-unlisted :
    (d : Descriptor) (r : Resources)
    → unlisted (drop_descriptor d r) ≡ drop_descriptor d (unlisted r)
unfolding drop_descriptor
drop-unlisted d r = ground arith

-- The descriptors that `exec` keeps.
unfoldable pub surviving : List Descriptor → List Descriptor
surviving [] = []
surviving (d ∷ ds) = if close_on_exec d then surviving ds else d ∷ surviving ds

pub surviving-All : (ds : List Descriptor) → All IsLive ds → All IsLive (surviving ds)
unfolding surviving
surviving-All [] h = tt
surviving-All (d ∷ ds) h = ground (arith, surviving-All ds)

drop_all-IsCounted :
    (others : ℕ → ℕ) (ds : List Descriptor) (r : Resources)
    → All IsLive ds
    → IsCountedWith others (λ f. holders f ds) (unlisted r)
    → IsCounted others (unlisted (drop_all ds r))
unfolding drop_all
drop_all-IsCounted others [] r h c = c
drop_all-IsCounted others (d ∷ ds) r h c = drop_all-IsCounted others ds (drop_descriptor d r) h.1 (
    rw (drop-unlisted d r) (
      let dropped =
        drop-IsCounted (λ f. others f + holders f ds) d (unlisted r) h.0
          (record {
            counted = λ f. omega (arith, c.counted f);
            small = c.small;
            linked = tt;
            waiting = c.waiting;
          }) in
      record {
        counted = λ f. omega (arith, dropped.counted f);
        small = dropped.small;
        linked = dropped.linked;
        waiting = dropped.waiting;
      }))

-- `closeAllProcessFiles` empties the table and gives back its references: afterwards each file has
-- those of the descriptors that system calls still hold, and those from elsewhere.
pub close_all-IsCounted :
    (others : ℕ → ℕ) (r : Resources)
    → IsCounted others r
    → ((close_all_process_files r).files ≡ []) × IsCounted others (close_all_process_files r)
unfolding close_all_process_files
close_all-IsCounted others r c = (
  refl,
  drop_all-IsCounted others r.files r c.linked (record {
    counted = λ f. omega (arith, c.counted f);
    small = c.small;
    linked = tt;
    waiting = c.waiting;
  }),
)
