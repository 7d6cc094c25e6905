-- ===== src/Descriptors/Counts.antt =====
-- files/process.c: every descriptor holds one reference to its file, no more and no less.
use some_os.Prelude.{
  ℕ, ◌+◌, ◌^◌, ◌<◌, ◌≡◌, refl, Bool, none, some, arith, pos, negsuc, ℤ, ◌==◌, if◌then◌else◌, Option,
  List, [], ◌∷◌, All, add64, sub64,
}
use some_os.Descriptors.{
  Descriptor, Resources, new_descriptor, drop_descriptor, drop_found, close_file_descriptor,
  put_new_file_descriptor, unlink, vfs_file_copy, vfs_file_close, update,
}
use some_os.Descriptors.Insert.{first_free, insert, put_at_gap-insert}
use some_os.Descriptors.Table.{IsOrdered, put-insert}

-- One if the descriptor is open on the file.
abbrev pub on : ℕ → Descriptor → ℕ
on f d = if d.file == f then 1 else 0

abbrev pub holders : ℕ → List Descriptor → ℕ
holders f [] = 0
holders f (d ∷ ds) = on f d + holders f ds

abbrev pub IsLive : Descriptor → Type 0
IsLive d = (0 < d.ref_count) × (d.ref_count < 2 ^ 64)

abbrev pub found_on : ℕ → Option Descriptor → ℕ
found_on f none = 0
found_on f (some d) = on f d

-- The counts with `extra` descriptors that are in neither list. `others` counts the references to
-- each file that are not a descriptor's of this process.
pub record IsCountedWith (others extra : ℕ → ℕ) (r : Resources) : Type 0 where
  pub counted :
      (f : ℕ) → r.store.refs f ≡ others f + extra f + holders f r.files + holders f r.detached
  pub small : (f : ℕ) → r.store.refs f < 2 ^ 64
  pub linked : All IsLive r.files
  pub waiting : All IsLive r.detached

abbrev pub IsCounted : (ℕ → ℕ) → Resources → Type 0
IsCounted others = IsCountedWith others (λ _. 0)

pub holders-insert :
    (f : ℕ) (new : Descriptor) (ds : List Descriptor)
    → holders f (insert new ds) ≡ on f new + holders f ds
unfolding insert
holders-insert f new [] = refl
holders-insert f new (d ∷ ds) = ground (arith, holders-insert f new ds)

pub insert-All :
    (new : Descriptor) (ds : List Descriptor)
    → IsLive new
    → All IsLive ds
    → All IsLive (insert new ds)
unfolding insert
insert-All new [] h k = (h, tt)
insert-All new (d ∷ ds) h k = ground (arith, insert-All new ds)

pub holders-unlink :
    (n f : ℕ) (ds : List Descriptor)
    → holders f ds ≡ found_on f (unlink (pos n) ds).0 + holders f (unlink (pos n) ds).1
unfolding unlink
holders-unlink n f [] = refl
holders-unlink n f (d ∷ ds) = ground (arith, holders-unlink n f ds)

abbrev AllOption : Option Descriptor → Type 0
AllOption none = Unit
AllOption (some d) = IsLive d

pub unlink-All :
    (n : ℕ) (ds : List Descriptor)
    → All IsLive ds
    → AllOption (unlink (pos n) ds).0 × All IsLive (unlink (pos n) ds).1
unfolding unlink
unlink-All n [] h = (tt, tt)
unlink-All n (d ∷ ds) h = ground (arith, unlink-All n ds)

pub drop-IsCounted :
    (others : ℕ → ℕ) (d : Descriptor) (r : Resources)
    → IsLive d
    → IsCountedWith others (λ f. on f d) r
    → IsCounted others (drop_descriptor d r)
unfolding drop_descriptor vfs_file_close update sub64
drop-IsCounted others d r live c = record {
  counted = λ f. ground (arith, c.counted f, c.small f, c.counted d.file, c.small d.file);
  small = λ f. ground (arith, c.small f);
  linked = ground (arith, c.linked);
  waiting = ground (arith, c.waiting);
}

pub drop_found-IsCounted :
    (others : ℕ → ℕ) (o : Option Descriptor) (r : Resources)
    → AllOption o
    → IsCountedWith others (λ f. found_on f o) r
    → IsCounted others (drop_found o r)
unfolding drop_found
drop_found-IsCounted others none r live c = c
drop_found-IsCounted others (some d) r live c = drop-IsCounted others d r live c

-- `closeFileDescriptor` keeps the count: each file's `ref_count` is the number of the descriptors on
-- it, in the table and held by system calls, and of the references from elsewhere.
pub close-IsCounted :
    (others : ℕ → ℕ) (n : ℕ) (r : Resources)
    → IsCounted others r
    → IsCounted others (close_file_descriptor (pos n) r)
unfolding close_file_descriptor
close-IsCounted others n r c =
    let parts = unlink-All n r.files c.linked in
    drop_found-IsCounted others (unlink (pos n) r.files).0
      (record r { files = (unlink (pos n) r.files).1 }) parts.0
      (record {
        counted = λ f. omega (arith, c.counted f, holders-unlink n f r.files);
        small = c.small;
        linked = parts.1;
        waiting = c.waiting;
      })

-- `vfsFileCopy` makes one more reference from elsewhere, which the insertion takes over.
copy-IsCounted :
    (others : ℕ → ℕ) (file : ℕ) (r : Resources)
    → r.store.refs file + 1 < 2 ^ 64
    → IsCounted others r
    → IsCounted
        (λ f. others f + (if file == f then 1 else 0))
        (record r { store = vfs_file_copy file r.store })
unfolding vfs_file_copy update add64
copy-IsCounted others file r h c = record {
  counted = λ f. ground (arith, c.counted f, c.small f, c.counted file);
  small = λ f. ground (arith, c.small f);
  linked = c.linked;
  waiting = c.waiting;
}

insert-IsCounted :
    (others : ℕ → ℕ) (new : Descriptor) (r : Resources)
    → IsLive new
    → IsCounted (λ f. others f + (if new.file == f then 1 else 0)) r
    → IsCounted others (record r { files = insert new r.files })
insert-IsCounted others new r live c = record {
  counted = λ f. omega (arith, c.counted f, holders-insert f new r.files);
  small = c.small;
  linked = insert-All new r.files live c.linked;
  waiting = c.waiting;
}

-- `putNewFileDescriptor`, with any number and either `replace`, succeeds on an ordered table, if the
-- count of the file does not overflow. When the reference count of each file was the number of the
-- process's descriptors for it, in the table or detached, and of its other references, it is so
-- again.
pub put-IsCounted :
    (others : ℕ → ℕ) (fresh : ℕ) (fd : ℤ) (flags file : ℕ) (replace : Bool) (r : Resources)
    → IsOrdered r
    → IsCounted others r
    → r.store.refs file + 1 < 2 ^ 64
    → (n : ℕ) × (r' : Resources) × (put_new_file_descriptor fresh fd flags file replace r
        ≡ some (n, r'))
      × IsCounted others r'
unfolding put_new_file_descriptor
put-IsCounted others fresh (negsuc m) flags file replace r s c h =
    let n = first_free 0 r.files in
    let new = new_descriptor fresh n flags file in
    (
      n,
      record r { files = insert new r.files; store = vfs_file_copy file r.store },
      rw (put_at_gap-insert 0 (new_descriptor fresh 0 flags file) r.files s refl) refl,
      insert-IsCounted others new (record r { store = vfs_file_copy file r.store }) (omega arith)
          (copy-IsCounted others file r h c),
    )
put-IsCounted others fresh (pos fd) flags file replace r s c h =
    let mid = close_file_descriptor (pos fd) (record r { store = vfs_file_copy file r.store }) in
    let new = new_descriptor fresh fd flags file in
    (
      fd,
      record mid { files = insert new mid.files },
      put-insert fresh fd flags file replace r s,
      insert-IsCounted others new mid (omega arith) (
          close-IsCounted _ fd (record r { store = vfs_file_copy file r.store })
            (copy-IsCounted others file r h c)),
    )
