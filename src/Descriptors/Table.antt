-- ===== src/Descriptors/Table.antt =====
-- The table after `putNewFileDescriptor` and `closeFileDescriptor` of files/process.c.
use some_os.Prelude.{
  ℕ, ◌≤◌, ◌<◌, ◌≡◌, ◌≢◌, refl, Bool, true, false, none, some, arith, pos, negsuc, ◌==◌,
  if◌then◌else◌, length, Option, ◌∙◌, sym,
}
use some_os.Descriptors.{
  Descriptor, Resources, Put, new_descriptor, drop_found, close_file_descriptor,
  put_new_file_descriptor, unlink, vfs_file_copy,
}
use some_os.Descriptors.Sorted.{IsSortedFrom, lookup, unlink-IsSortedFrom, lookup-unlink}
use some_os.Descriptors.Insert.{
  first_free, insert, numbered, first_free-le-length, lookup-first_free, lookup-lt_first_free,
  insert-IsSortedFrom, lookup-insert, put_at_gap-insert, put_at-insert,
}

-- A drop leaves the table alone.
pub files-drop_found : (o : Option Descriptor) (r : Resources) → (drop_found o r).files ≡ r.files
unfolding drop_found
files-drop_found none r = refl
files-drop_found (some d) r = ground arith

pub files-close :
    (n : ℕ) (r : Resources) → (close_file_descriptor (pos n) r).files ≡ (unlink (pos n) r.files).1
unfolding close_file_descriptor
files-close n r =
    files-drop_found (unlink (pos n) r.files).0 (record r { files = (unlink (pos n) r.files).1 })

abbrev pub IsOrdered : Resources → Type 0
IsOrdered r = IsSortedFrom 0 r.files

-- `closeFileDescriptor` keeps the table ordered by strictly rising numbers, frees the given number
-- and leaves what every other number stands for.
pub close-lookup :
    (n : ℕ) (r : Resources)
    → IsOrdered r
    → IsOrdered (close_file_descriptor (pos n) r)
      × ((j : ℕ)
          → lookup j (close_file_descriptor (pos n) r).files
            ≡ (if j == n then none else lookup j r.files))
close-lookup n r s = (
  rw (files-close n r) (unlink-IsSortedFrom 0 n r.files s),
  λ j. rw (files-close n r) (lookup-unlink 0 n j r.files s),
)

-- What `putNewFileDescriptor` has to do with the table `ds`: give `n`, which was free, to `new`.
abbrev pub Gives : Put → ℕ → Descriptor → (ℕ → Option Descriptor) → Type 0
Gives p n new before =
    (r : Resources) × (p ≡ some (n, r))
    × IsOrdered r
    × ((j : ℕ) → lookup j r.files ≡ (if j == n then some new else before j))

-- With a negative number, `putNewFileDescriptor` succeeds and returns the least number that the
-- table does not use, which is at most the number of open descriptors. That number then stands for
-- the new descriptor, every other one for what it stood for, and the table stays ordered.
pub put-lowest :
    (fresh m flags file : ℕ) (replace : Bool) (r : Resources)
    → IsOrdered r
    → (n : ℕ) × Gives
        (put_new_file_descriptor fresh (negsuc m) flags file replace r)
        n
        (new_descriptor fresh n flags file)
        (λ j. lookup j r.files)
      × (lookup n r.files ≡ none)
      × ((j : ℕ) → j < n → lookup j r.files ≢ none)
      × (n ≤ length r.files)
unfolding put_new_file_descriptor
put-lowest fresh m flags file replace r s =
    let n = first_free 0 r.files in
    let new = new_descriptor fresh 0 flags file in
    let free = lookup-first_free 0 r.files s in
    (
      n,
      (
        record r { files = insert (numbered new n) r.files; store = vfs_file_copy file r.store },
        rw (put_at_gap-insert 0 new r.files s refl) refl,
        insert-IsSortedFrom 0 (numbered new n) r.files s (omega arith) free,
        λ j. lookup-insert 0 j (numbered new n) r.files s free,
      ),
      free,
      λ j h. lookup-lt_first_free 0 j r.files s (omega arith) h,
      omega (arith, first_free-le-length 0 r.files),
    )

module _ (fresh fd flags file : ℕ) (replace : Bool) (r : Resources) (s : IsOrdered r) where
  abbrev pub copied_store : Resources
  copied_store = record r { store = vfs_file_copy file r.store }

  abbrev pub closed : Resources
  closed = close_file_descriptor (pos fd) copied_store

  closed-free : lookup fd closed.files ≡ none
  closed-free = (close-lookup fd copied_store s).1 fd ∙ ground arith

  -- After the close of the old descriptor the walk inserts the new one.
  pub put-insert :
      put_new_file_descriptor fresh (pos fd) flags file replace r
      ≡ some
          (fd, record closed { files = insert (new_descriptor fresh fd flags file) closed.files })
  unfolding put_new_file_descriptor
  put-insert =
      rw
        (put_at-insert 0 replace (new_descriptor fresh fd flags file) closed.files
          (close-lookup fd copied_store s).0 closed-free)
        refl

-- With a number from 0 on, `putNewFileDescriptor` succeeds and returns that number, whether it was
-- in use or not. It then stands for the new descriptor, every other number for what it stood for,
-- and the table stays ordered.
put-at :
    (fresh fd flags file : ℕ) (replace : Bool) (r : Resources)
    → IsOrdered r
    → Gives
        (put_new_file_descriptor fresh (pos fd) flags file replace r)
        fd
        (new_descriptor fresh fd flags file)
        (λ j. lookup j r.files)
put-at fresh fd flags file replace r s =
    let c = closed fresh fd flags file replace r s in
    let new = new_descriptor fresh fd flags file in
    let after = close-lookup fd (record r { store = vfs_file_copy file r.store }) s in
    let free = closed-free fresh fd flags file replace r s in
    (
      record c { files = insert new c.files },
      put-insert fresh fd flags file replace r s,
      insert-IsSortedFrom 0 new c.files after.0 (omega arith) free,
      λ j. lookup-insert 0 j new c.files after.0 free ∙ ground (arith, after.1 j),
    )

-- On an ordered table, with a number from 0 on, `replace` makes no difference: what putNewFileDescriptor
-- returns and leaves is the same with it and without.
pub put-replace :
    (fresh fd flags file : ℕ) (r : Resources)
    → IsOrdered r
    → put_new_file_descriptor fresh (pos fd) flags file false r
      ≡ put_new_file_descriptor fresh (pos fd) flags file true r
put-replace fresh fd flags file r s =
    put-insert fresh fd flags file false r s ∙ sym (put-insert fresh fd flags file true r s)
