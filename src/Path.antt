-- ===== src/Path.antt =====
-- files/path.c: the texts of paths. A character is its code; the terminator is not part of a text.
pub mod Split
mod Tests
use some_os.Prelude.{
  ℕ, zero, suc, ◌+◌, ◌-◌, Bool, true, false, not, ◌&&◌, Option, none, some, List, [], ◌∷◌, ◌++◌,
  length, get_elem?, take, drop, ◌==◌, ltb, if◌then◌else◌,
}

abbrev pub Text : Type 0
Text = List ℕ

-- '/' and '.'
abbrev pub slash : ℕ
slash = 47

abbrev pub dot : ℕ
dot = 46

abbrev or_terminator : Option ℕ → ℕ
or_terminator none = 0
or_terminator (some c) = c

-- `path[i]`
abbrev pub char_at : Text → ℕ → ℕ
char_at path i = or_terminator (get_elem? path i)

abbrev pub is_slash_at : Text → ℕ → Bool
is_slash_at path i = char_at path i == slash

-- `while (len > 0 && test(len)) len--`
abbrev pub step_back : (ℕ → Bool) → ℕ → ℕ
step_back test zero = 0
step_back test (suc len) = let rest = step_back test len in if test (suc len) then rest else suc len

-- The last character that is no '/', and then the '/' before it: the first two loops of
-- `getParentPath` and of `getBaseFilename`.
abbrev pub skip_name : Text → ℕ
skip_name path =
    step_back (λ i. not (is_slash_at path i)) (step_back (is_slash_at path) (length path - 1))

-- The empty path is not passed on: `strlen(path) - 1` wraps around there.
unfoldable pub get_parent_path : Text → Text
get_parent_path path =
    let len = step_back (λ i. is_slash_at path (i - 1)) (skip_name path) in
    take (if len == 0 && is_slash_at path 0 then 1 else len) path

-- The last loop runs past the beginning when nothing but '/' is left; here it stops.
unfoldable pub get_base_filename : Text → Text
get_base_filename path =
    let found = skip_name path in
    let len = if is_slash_at path found then found + 1 else found in
    let copy = drop len path in
    take (step_back (λ i. is_slash_at copy (i - 1)) (length path - len)) copy

abbrev append_to_first : ℕ → List Text → List Text
append_to_first c [] = (c ∷ []) ∷ []
append_to_first c (piece ∷ pieces) = (c ∷ piece) ∷ pieces

-- What stands between the '/' of a path, empty pieces too.
abbrev pub pieces : Text → List Text
pieces [] = [] ∷ []
pieces (c ∷ path) = if c == slash then [] ∷ pieces path else append_to_first c (pieces path)

abbrev pub is_dot : Text → Bool
is_dot (a ∷ []) = a == dot
is_dot _ = false

abbrev pub is_dot_dot : Text → Bool
is_dot_dot (a ∷ b ∷ []) = (a == dot) && (b == dot)
is_dot_dot _ = false

-- What is written, from its end, and the number of segments that `..` removes.
pub record Reduced : Type 0 where
  pub written : Text
  pub segments : ℕ

abbrev append_reversed : Text → Text → Text
append_reversed [] out = out
append_reversed (c ∷ piece) out = append_reversed piece (c ∷ out)

-- A segment and the '/' behind it, which the last one does not have.
abbrev write_segment : Text → List Text → Text → Text
write_segment piece [] out = append_reversed piece out
write_segment piece (_ ∷ _) out = slash ∷ append_reversed piece out

-- The inner loop that goes back to a '/'.
abbrev back_to_slash : Text → Text
back_to_slash [] = []
back_to_slash (c ∷ out) = let rest = back_to_slash out in if c == slash then c ∷ out else rest

abbrev remove_segment : Text → Text
remove_segment [] = []
remove_segment (_ ∷ out) = back_to_slash out

-- A round of the outer loop of `inlineReducePath`, with the pieces that follow. An empty piece is a '/'
-- that is skipped.
unfoldable pub reduce_piece : Bool → Text → List Text → Reduced → Reduced
reduce_piece is_absolute [] rest out = out
reduce_piece is_absolute (c ∷ cs) rest out =
    let piece = c ∷ cs in
    if is_dot piece
    then out
    else if is_dot_dot piece
    then if ltb 0 out.segments
      then record { written = remove_segment out.written; segments = out.segments - 1 }
      else if is_absolute
      then out
      else record out { written = write_segment piece rest out.written }
    else record { written = write_segment piece rest out.written; segments = out.segments + 1 }

abbrev pub reduce_pieces : Bool → List Text → Reduced → Reduced
unfolding reduce_piece
reduce_pieces is_absolute [] out = out
reduce_pieces is_absolute (piece ∷ rest) out =
    reduce_pieces is_absolute rest (reduce_piece is_absolute piece rest out)

-- A '/' at the end is removed, if it is not all there is.
abbrev without_slash : Text → Text
without_slash (c ∷ d ∷ out) = if c == slash then d ∷ out else c ∷ d ∷ out
without_slash out = out

unfoldable pub inline_reduce_path : Text → Text
unfolding reduce_piece
inline_reduce_path path =
    let is_absolute = is_slash_at path 0 in
    let start = if is_absolute then slash ∷ [] else [] in
    let out = reduce_pieces is_absolute (pieces path) (record { written = start; segments = 0 }) in
    append_reversed (without_slash out.written) []
