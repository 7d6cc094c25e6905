-- ===== src/Path/Tests.antt =====
-- Runs of files/path.c.
use some_os.Prelude.{zero, suc, ◌≡◌, refl, [], ◌∷◌, arith}
use some_os.Path.{get_parent_path, get_base_filename, inline_reduce_path}
use some_os.Path.Split.{HasNoSlash, path, split-path}

-- "/a/b/" is 47 97 47 98 47.
runs-parent : get_parent_path (47 ∷ 97 ∷ 47 ∷ 98 ∷ 47 ∷ []) ≡ 47 ∷ 97 ∷ []
unfolding get_parent_path
runs-parent = refl

runs-base : get_base_filename (47 ∷ 97 ∷ 47 ∷ 98 ∷ 47 ∷ []) ≡ 98 ∷ []
unfolding get_base_filename
runs-base = refl

-- "/a/./b/..//c/" gives "/a/c".
runs-reduce :
    inline_reduce_path (47 ∷ 97 ∷ 47 ∷ 46 ∷ 47 ∷ 98 ∷ 47 ∷ 46 ∷ 46 ∷ 47 ∷ 47 ∷ 99 ∷ 47 ∷ [])
    ≡ 47 ∷ 97 ∷ 47 ∷ 99 ∷ []
unfolding inline_reduce_path
runs-reduce = refl

name_b-HasNoSlash : HasNoSlash (98 ∷ [])
name_b-HasNoSlash zero h = refl
name_b-HasNoSlash (suc i) h = absurd (omega arith)

split-path_example :
    (get_parent_path (path (47 ∷ 97 ∷ []) (98 ∷ [])) ≡ 47 ∷ 97 ∷ [])
    × (get_base_filename (path (47 ∷ 97 ∷ []) (98 ∷ [])) ≡ 98 ∷ [])
split-path_example =
    split-path (47 ∷ 97 ∷ []) (98 ∷ []) name_b-HasNoSlash (omega arith) (omega arith) refl
