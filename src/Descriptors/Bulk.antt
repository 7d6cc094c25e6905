-- ===== src/Descriptors/Bulk.antt =====
-- files/process.c, the functions that go over a whole table, and the release of a descriptor that
-- a system call has used.
use Prim.Native.Nat.{bit_and}
use some_os.Prelude.{
  ℕ, Bool, true, false, Option, none, some, List, [], ◌∷◌, pos, sub64, ◌==◌, if◌then◌else◌,
}
use some_os.Descriptors.{
  Descriptor, Resources, vfs_file_close, drop_descriptor, put_new_file_descriptor,
}

-- `vfsFileDescriptorClose` on a descriptor found by its address: the file to close if the last
-- reference went. In the table that is a dangling link, `none`.
unfoldable pub release_linked : ℕ → List Descriptor → Option (List Descriptor)
release_linked a [] = none
release_linked a (d ∷ ds) =
    let left = sub64 d.ref_count 1 in
    let rest : Option (List Descriptor) = elim (release_linked a ds) [
      | none ↦ none
      | some ds' ↦ some (d ∷ ds')
    ] in
    if d.address == a
    then (if left == 0 then none else some (record d { ref_count = left } ∷ ds))
    else rest

unfoldable pub release_detached : ℕ → List Descriptor → Option (List Descriptor × Option ℕ)
release_detached a [] = none
release_detached a (d ∷ ds) =
    let left = sub64 d.ref_count 1 in
    let rest : Option (List Descriptor × Option ℕ) = elim (release_detached a ds) [
      | none ↦ none
      | some (ds', f) ↦ some (d ∷ ds', f)
    ] in
    if d.address == a
    then (if left == 0
        then some (ds, some d.file)
        else some (record d { ref_count = left } ∷ ds, none))
    else rest

abbrev pub is_linked : ℕ → List Descriptor → Bool
is_linked a [] = false
is_linked a (d ∷ ds) = if d.address == a then true else is_linked a ds

abbrev pub released : Resources → Option (List Descriptor × Option ℕ) → Option Resources
released r none = none
released r (some (ds, none)) = some (record r { detached = ds })
released r (some (ds, some f)) = some (record r { detached = ds; store = vfs_file_close f r.store })

-- `vfsFileDescriptorClose(process, desc)` at the end of a system call.
unfoldable pub vfs_file_descriptor_close : ℕ → Resources → Option Resources
unfolding release_linked release_detached
vfs_file_descriptor_close a r =
    if is_linked a r.files
    then elim (release_linked a r.files) [ none ↦ none | some ds ↦ some (record r { files = ds }) ]
    else released r (release_detached a r.detached)

unfoldable pub drop_all : List Descriptor → Resources → Resources
unfolding drop_descriptor
drop_all [] r = r
drop_all (d ∷ ds) r = drop_all ds (drop_descriptor d r)

unfoldable pub close_all_process_files : Resources → Resources
unfolding drop_all
close_all_process_files r = record (drop_all r.files r) { files = [] }

-- `VFS_DESC_CLOEXEC`
abbrev pub close_on_exec : Descriptor → Bool
close_on_exec d = if bit_and d.flags 1 == 0 then false else true

unfoldable pub close_exec_walk : List Descriptor → Resources → List Descriptor × Resources
unfolding drop_descriptor
close_exec_walk [] r = ([], r)
close_exec_walk (d ∷ ds) r =
    let (kept, r') = close_exec_walk ds (if close_on_exec d then drop_descriptor d r else r) in
    (if close_on_exec d then kept else d ∷ kept, r')

unfoldable pub close_exec_process_files : Resources → Resources
unfolding close_exec_walk
close_exec_process_files r =
    let (kept, r') = close_exec_walk r.files r in record r' { files = kept }

-- `new_process`, whose files are opened one by one; `fresh` is what `kalloc` returns for each.
unfoldable pub fork_file_descriptors : (ℕ → ℕ) → List Descriptor → Resources → Option Resources
unfolding put_new_file_descriptor
fork_file_descriptors fresh [] new = some new
fork_file_descriptors fresh (d ∷ ds) new =
    elim (put_new_file_descriptor (fresh d.id) (pos d.id) d.flags d.file false new) [
      | none ↦ none
      | some (_, new') ↦ fork_file_descriptors fresh ds new'
    ]
