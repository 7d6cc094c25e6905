-- ===== src/Descriptors/Insert.antt =====
-- `putNewFileDescriptor` of files/process.c as an insertion into the ordered table.
use some_os.Prelude.{
  ℕ, ◌+◌, ◌≤◌, ◌<◌, ◌≡◌, ◌≢◌, refl, Bool, none, some, List, [], ◌∷◌, arith, ltb, ◌==◌,
  if◌then◌else◌, length,
}
use some_os.Descriptors.{Descriptor, get_file_descriptor_unsafe, link, put_at_gap, put_at}
use some_os.Descriptors.Sorted.{IsSortedFrom, IsSortedFrom-le, lookup, lookup-eq_none}

-- The least number from `n` on that the table does not use.
unfoldable pub first_free : ℕ → List Descriptor → ℕ
first_free n [] = n
first_free n (d ∷ ds) = let next = first_free (n + 1) ds in if d.id == n then next else n

-- The ordered insertion that the walks amount to.
unfoldable pub insert : Descriptor → List Descriptor → List Descriptor
insert new [] = new ∷ []
insert new (d ∷ ds) = if ltb d.id new.id then d ∷ insert new ds else new ∷ d ∷ ds

abbrev pub numbered : Descriptor → ℕ → Descriptor
numbered d n = record d { id = n }

pub le-first_free : (n : ℕ) (ds : List Descriptor) → n ≤ first_free n ds
unfolding first_free
le-first_free n [] = omega arith
le-first_free n (d ∷ ds) = ground (arith, le-first_free (n + 1) ds)

pub first_free-le-length : (n : ℕ) (ds : List Descriptor) → first_free n ds ≤ n + length ds
unfolding first_free
first_free-le-length n [] = omega arith
first_free-le-length n (d ∷ ds) = ground (arith, first_free-le-length (n + 1) ds)

-- The number is free, and every number before it is taken.
pub lookup-first_free :
    (n : ℕ) (ds : List Descriptor) → IsSortedFrom n ds → lookup (first_free n ds) ds ≡ none
unfolding first_free get_file_descriptor_unsafe
lookup-first_free n [] s = refl
lookup-first_free n (d ∷ ds) s = ground (
  arith,
  lookup-first_free (n + 1) ds,
  le-first_free (n + 1) ds,
  IsSortedFrom-le (d.id + 1) (n + 1) ds,
)

pub lookup-lt_first_free :
    (n j : ℕ) (ds : List Descriptor)
    → IsSortedFrom n ds
    → n ≤ j
    → j < first_free n ds
    → lookup j ds ≢ none
unfolding first_free get_file_descriptor_unsafe
lookup-lt_first_free n j [] s h k = absurd (omega arith)
lookup-lt_first_free n j (d ∷ ds) s h k =
    ground (arith, lookup-lt_first_free (n + 1) j ds, IsSortedFrom-le (d.id + 1) (n + 1) ds)

pub insert-IsSortedFrom :
    (lo : ℕ) (new : Descriptor) (ds : List Descriptor)
    → IsSortedFrom lo ds
    → lo ≤ new.id
    → lookup new.id ds ≡ none
    → IsSortedFrom lo (insert new ds)
unfolding insert get_file_descriptor_unsafe
insert-IsSortedFrom lo new [] s h k = (h, tt)
insert-IsSortedFrom lo new (d ∷ ds) s h k =
    ground
      (arith, insert-IsSortedFrom (d.id + 1) new ds, IsSortedFrom-le (d.id + 1) (new.id + 1) ds)

pub lookup-insert :
    (lo j : ℕ) (new : Descriptor) (ds : List Descriptor)
    → IsSortedFrom lo ds
    → lookup new.id ds ≡ none
    → lookup j (insert new ds) ≡ (if j == new.id then some new else lookup j ds)
unfolding insert get_file_descriptor_unsafe
lookup-insert lo j new [] s k = ground arith
lookup-insert lo j new (d ∷ ds) s k =
    ground (arith, lookup-insert (d.id + 1) j new ds, lookup-eq_none (d.id + 1) j ds)

-- Before a larger number `link` inserts in front.
pub link_front :
    (lo : ℕ) (new : Descriptor) (ds : List Descriptor)
    → IsSortedFrom lo ds
    → new.id < lo
    → link new ds ≡ some (new.id, new ∷ ds)
unfolding link
link_front lo new [] s h = refl
link_front lo new (d ∷ ds) s h = ground arith

pub insert_front :
    (lo : ℕ) (new : Descriptor) (ds : List Descriptor)
    → IsSortedFrom lo ds
    → new.id < lo
    → insert new ds ≡ new ∷ ds
unfolding insert
insert_front lo new [] s h = refl
insert_front lo new (d ∷ ds) s h = ground arith

-- The walk over the taken numbers ends at the first free one, and inserts there.
pub put_at_gap-insert :
    (n : ℕ) (new : Descriptor) (ds : List Descriptor)
    → IsSortedFrom n ds
    → new.id ≡ n
    → let free = first_free n ds in put_at_gap new ds ≡ some (free, insert (numbered new free) ds)
unfolding put_at_gap first_free insert link
put_at_gap-insert n new [] s e = ground arith
put_at_gap-insert n new (d ∷ ds) s e = ground (
  arith,
  put_at_gap-insert (n + 1) (numbered new (new.id + 1)) ds,
  IsSortedFrom-le (d.id + 1) (n + 1) ds,
  le-first_free (n + 1) ds,
)

-- At a number that the table does not use, the walk inserts there and takes nothing out.
pub put_at-insert :
    (lo : ℕ) (replace : Bool) (new : Descriptor) (ds : List Descriptor)
    → IsSortedFrom lo ds
    → lookup new.id ds ≡ none
    → put_at replace new ds ≡ (some (new.id, insert new ds), none)
unfolding put_at insert link get_file_descriptor_unsafe
put_at-insert lo replace new [] s e = refl
put_at-insert lo replace new (d ∷ ds) s e = ground (arith, put_at-insert (d.id + 1) replace new ds)
