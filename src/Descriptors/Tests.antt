-- ===== src/Descriptors/Tests.antt =====
-- The descriptor table of files/process.c at concrete processes.
use some_os.Prelude.{
  ℕ, ◌+◌, ◌≡◌, ◌≢◌, ◌<◌, ◌≤◌, refl, true, false, none, some, List, [], ◌∷◌, map, arith, pos, negsuc,
  ◌==◌, if◌then◌else◌, length, add64,
}
use some_os.Descriptors.{Descriptor, Resources, new_descriptor, put_new_file_descriptor, update}
use some_os.Descriptors.Bulk.{fork_file_descriptors, close_exec_process_files}
use some_os.Descriptors.Sorted.{lookup}
use some_os.Descriptors.Table.{Gives, put-lowest, put-replace}
use some_os.Descriptors.Counts.{IsCounted, put-IsCounted}
use some_os.Descriptors.Fork.{clone, fork-clones}

-- Standard input and output on file 7, and number 4, to be closed on exec, on file 9.
abbrev opened : List Descriptor
opened = new_descriptor 100 0 0 7 ∷ new_descriptor 101 1 0 7 ∷ new_descriptor 102 4 1 9 ∷ []

abbrev counts : ℕ → ℕ
counts f = (if 7 == f then 2 else 0) + (if 9 == f then 1 else 0)

abbrev shell : Resources
shell = record { files = opened; detached = []; store = record { refs = counts; freed = [] } }

abbrev child : Resources
child = record { files = []; detached = []; store = record { refs = counts; freed = [] } }

shell-IsCounted : IsCounted (λ _. 0) shell
shell-IsCounted = record {
  counted = λ f. ground arith;
  small = λ f. ground arith;
  linked = omega arith;
  waiting = tt;
}

put-lowest_example :
    (n : ℕ) × Gives
      (put_new_file_descriptor 103 (negsuc 0) 0 9 false shell)
      n
      (new_descriptor 103 n 0 9)
      (λ j. lookup j opened)
    × (lookup n opened ≡ none)
    × ((j : ℕ) → j < n → lookup j opened ≢ none)
    × (n ≤ length opened)
put-lowest_example = put-lowest 103 0 0 9 false shell (omega arith)

put-replace_example :
    put_new_file_descriptor 103 (pos 1) 0 9 false shell
    ≡ put_new_file_descriptor 103 (pos 1) 0 9 true shell
put-replace_example = put-replace 103 1 0 9 shell (omega arith)

put-IsCounted_example :
    (n : ℕ) × (r' : Resources) × (put_new_file_descriptor 103 (pos 4) 0 7 false shell
      ≡ some (n, r'))
    × IsCounted (λ _. 0) r'
put-IsCounted_example =
    put-IsCounted (λ _. 0) 103 (pos 4) 0 7 false shell (omega arith) shell-IsCounted (omega arith)

fork-clones_example :
    (r : Resources) × (fork_file_descriptors (λ n. n + 200) opened child ≡ some r)
    × (r.files ≡ map (clone (λ n. n + 200)) opened)
fork-clones_example = fork-clones (λ n. n + 200) shell child (omega arith) refl

-- Number 4 is closed on exec, and its file with it.
exec_closes :
    let r = close_exec_process_files shell in (length r.files ≡ 2) × (r.store.freed ≡ 9 ∷ [])
unfolding close_exec_process_files
exec_closes = (refl, refl)

-- The first free number is 2.
put_runs :
    put_new_file_descriptor 103 (negsuc 0) 0 9 false shell
    ≡ some (
      2,
      record {
        files =
            new_descriptor 100 0 0 7
            ∷ new_descriptor 101 1 0 7
            ∷ new_descriptor 103 2 0 9
            ∷ new_descriptor 102 4 1 9
            ∷ [];
        detached = [];
        store = record { refs = update counts 9 2; freed = [] };
      },
    )
unfolding put_new_file_descriptor add64
put_runs = refl
