-- ===== src/Descriptors/Sorted.antt =====
-- The order of the descriptor table of files/process.c, and lookups in it.
use some_os.Prelude.{
  ℕ, ◌+◌, ◌≤◌, ◌<◌, ◌≡◌, refl, Option, none, List, [], ◌∷◌, arith, pos, ◌==◌, if◌then◌else◌,
}
use some_os.Descriptors.{Descriptor, get_file_descriptor_unsafe, vfs_file_descriptor_copy, unlink}

-- The numbers rise strictly, from `lo` on.
abbrev pub IsSortedFrom : ℕ → List Descriptor → Type 0
IsSortedFrom lo [] = Unit
IsSortedFrom lo (d ∷ ds) = (lo ≤ d.id) × IsSortedFrom (d.id + 1) ds

abbrev pub lookup : ℕ → List Descriptor → Option Descriptor
lookup n ds = get_file_descriptor_unsafe ds (pos n)

pub IsSortedFrom-le :
    (lo lo' : ℕ) (ds : List Descriptor) → lo' ≤ lo → IsSortedFrom lo ds → IsSortedFrom lo' ds
IsSortedFrom-le lo lo' [] h s = tt
IsSortedFrom-le lo lo' (d ∷ ds) h s = (omega arith, s.1)

pub lookup-eq_none :
    (lo n : ℕ) (ds : List Descriptor) → IsSortedFrom lo ds → n < lo → lookup n ds ≡ none
unfolding get_file_descriptor_unsafe
lookup-eq_none lo n [] s h = refl
lookup-eq_none lo n (d ∷ ds) s h = ground arith

pub unlink-IsSortedFrom :
    (lo n : ℕ) (ds : List Descriptor) → IsSortedFrom lo ds → IsSortedFrom lo (unlink (pos n) ds).1
unfolding unlink
unlink-IsSortedFrom lo n [] s = tt
unlink-IsSortedFrom lo n (d ∷ ds) s =
    ground (arith, unlink-IsSortedFrom (d.id + 1) n ds, IsSortedFrom-le (d.id + 1) lo ds)

-- The walk of `closeFileDescriptor` takes out what `getFileDescriptorUnsafe` finds.
pub unlink-lookup : (n : ℕ) (ds : List Descriptor) → (unlink (pos n) ds).0 ≡ lookup n ds
unfolding unlink get_file_descriptor_unsafe
unlink-lookup n [] = refl
unlink-lookup n (d ∷ ds) = ground (arith, unlink-lookup n ds)

-- After it that number is free, and every other number stands for what it stood for.
pub lookup-unlink :
    (lo n j : ℕ) (ds : List Descriptor)
    → IsSortedFrom lo ds
    → lookup j (unlink (pos n) ds).1 ≡ (if j == n then none else lookup j ds)
unfolding unlink get_file_descriptor_unsafe
lookup-unlink lo n j [] s = ground arith
lookup-unlink lo n j (d ∷ ds) s =
    ground (arith, lookup-unlink (d.id + 1) n j ds, lookup-eq_none (d.id + 1) j ds)

pub copy-IsSortedFrom :
    (lo a : ℕ) (ds : List Descriptor)
    → IsSortedFrom lo ds
    → IsSortedFrom lo (vfs_file_descriptor_copy a ds)
unfolding vfs_file_descriptor_copy
copy-IsSortedFrom lo a [] s = tt
copy-IsSortedFrom lo a (d ∷ ds) s = ground (arith, copy-IsSortedFrom (d.id + 1) a ds)
