-- ===== src/Path/Split.antt =====
-- files/path.c: the parent and the name of a path.
use some_os.Prelude.{
  ℕ, zero, suc, ◌+◌, ◌-◌, ◌≤◌, ◌<◌, Bool, true, false, not, ◌&&◌, [], ◌∷◌, ◌++◌, length, take, drop,
  length-append, ◌==◌, if◌then◌else◌, ◌≡◌, refl, sym, ap, ◌∙◌, inl, inr, arith, Bool-cases, ==_iff,
}
use some_os.Path.{
  Text, slash, char_at, is_slash_at, step_back, skip_name, get_parent_path, get_base_filename,
}

step_back-stays : (test : ℕ → Bool) (n : ℕ) → test n ≡ false → step_back test n ≡ n
step_back-stays test zero h = refl
step_back-stays test (suc n) h = rw h refl

step_back-reaches :
    (test : ℕ → Bool) (low high : ℕ)
    → low ≤ high
    → test low ≡ false
    → ((i : ℕ) → low < i → i ≤ high → test i ≡ true)
    → step_back test high ≡ low
step_back-reaches test low zero le stop h = omega arith
step_back-reaches test low (suc high) le stop h = elim (Bool-cases (low == suc high)) [
  | inl e ↦
      let same = (==_iff low (suc high)).0 e in
      step_back-stays test (suc high) (ap test (sym same) ∙ stop) ∙ sym same
  | inr e ↦
      rw (h (suc high) (ground (arith, e)) (omega arith))
        (step_back-reaches test low high (ground (arith, e)) stop (λ i a b. h i a (omega arith)))
]

char_at-before : (p q : Text) (i : ℕ) → i < length p → char_at (p ++ q) i ≡ char_at p i
char_at-before [] q i h = absurd (omega arith)
char_at-before (c ∷ p) q zero h = refl
char_at-before (c ∷ p) q (suc i) h = char_at-before p q i (omega arith)

char_at-behind : (p q : Text) (i : ℕ) → char_at (p ++ q) (length p + i) ≡ char_at q i
char_at-behind [] q i = ap (char_at q) (omega arith)
char_at-behind (c ∷ p) q i =
    let e : suc (length p) + i ≡ suc (length p + i) = omega arith in
    ap (char_at (c ∷ p ++ q)) e ∙ char_at-behind p q i

take-append : (p q : Text) → take (length p) (p ++ q) ≡ p
take-append [] q = refl
take-append (c ∷ p) q = ap (λ l. c ∷ l) (take-append p q)

drop-append : (p q : Text) (c : ℕ) → drop (length p + 1) (p ++ c ∷ q) ≡ q
drop-append [] q c = refl
drop-append (d ∷ p) q c =
    let e : suc (length p) + 1 ≡ suc (length p + 1) = omega arith in
    ap (λ n. drop n (d ∷ p ++ c ∷ q)) e ∙ drop-append p q c

take-all : (q : Text) → take (length q) q ≡ q
take-all [] = refl
take-all (c ∷ q) = ap (λ l. c ∷ l) (take-all q)

-- The characters of a name are no '/'.
abbrev pub HasNoSlash : Text → Type 0
HasNoSlash name = (i : ℕ) → i < length name → is_slash_at name i ≡ false

module _ (p name : Text) where
  abbrev pub path : Text
  path = p ++ slash ∷ name

  length-path : length path ≡ length p + suc (length name)
  length-path = length-append p (slash ∷ name)

  name_at : HasNoSlash name → (i : ℕ) → length p < i → i < length path → is_slash_at path i ≡ false
  name_at h i a b =
      let j = i - suc (length p) in
      let e : i ≡ length p + suc j = omega arith in
      ap (is_slash_at path) e
      ∙ ap (λ c. c == slash) (char_at-behind p (slash ∷ name) (suc j))
      ∙ h j (omega (arith, length-path))

  slash_between : is_slash_at path (length p) ≡ true
  slash_between =
      let e : length p ≡ length p + 0 = omega arith in
      ap (is_slash_at path) e ∙ ap (λ c. c == slash) (char_at-behind p (slash ∷ name) 0)

  skip_name-path : HasNoSlash name → 0 < length name → skip_name path ≡ length p
  skip_name-path h nonempty =
      let last = length path - 1 in
      let at_end =
        step_back-stays (is_slash_at path) last
          (name_at h last (omega (arith, length-path)) (omega (arith, length-path))) in
      ap (step_back (λ i. not (is_slash_at path i))) at_end
      ∙ step_back-reaches (λ i. not (is_slash_at path i)) (length p) last
          (omega (arith, length-path)) (ap not slash_between)
          (λ i a b. ap not (name_at h i a (omega (arith, length-path))))

  parent_part : ℕ → Text
  parent_part len = take (if len == 0 && is_slash_at path 0 then 1 else len) path

  parent-path :
      HasNoSlash name
      → 0 < length name
      → 0 < length p
      → is_slash_at p (length p - 1) ≡ false
      → get_parent_path path ≡ p
  unfolding get_parent_path parent_part
  parent-path h nonempty parent no_end =
      let back : (ℕ → ℕ) = step_back (λ i. is_slash_at path (i - 1)) in
      let last =
        ap (λ c. c == slash) (char_at-before p (slash ∷ name) (length p - 1) (omega arith))
        ∙ no_end in
      let some_left : ((length p == 0) ≡ false) = ground arith in
      ap (λ n. parent_part (back n)) (skip_name-path h nonempty)
      ∙ ap parent_part (step_back-stays (λ i. is_slash_at path (i - 1)) (length p) last)
      ∙ rw some_left (take-append p (slash ∷ name))

  base_part : Text → ℕ → Text
  base_part copy n = take (step_back (λ i. is_slash_at copy (i - 1)) n) copy

  base_from : ℕ → Text
  unfolding base_part
  base_from len = base_part (drop len path) (length path - len)

  base-path : HasNoSlash name → 0 < length name → get_base_filename path ≡ name
  unfolding get_base_filename base_from base_part
  base-path h nonempty =
      let after : (ℕ → ℕ) = (λ n. if is_slash_at path n then n + 1 else n) in
      let next : (after (length p) ≡ length p + 1) = rw slash_between refl in
      let long : (length path - (length p + 1) ≡ length name) = omega (arith, length-path) in
      ap (λ n. base_from (after n)) (skip_name-path h nonempty)
      ∙ ap base_from next
      ∙ ap (λ c. base_part c (length path - (length p + 1))) (drop-append p name slash)
      ∙ ap (base_part name) long
      ∙ ap (λ n. take n name)
          (step_back-stays (λ i. is_slash_at name (i - 1)) (length name)
            (h (length name - 1) (omega arith)))
      ∙ take-all name

  -- A path, a '/' and a name are taken apart again: getParentPath gives the path and getBaseFilename the
  -- name, when the name is not empty and has no '/', and the path is not empty and does not end in '/'.
  pub split-path :
      HasNoSlash name
      → 0 < length name
      → 0 < length p
      → is_slash_at p (length p - 1) ≡ false
      → (get_parent_path path ≡ p) × (get_base_filename path ≡ name)
  split-path h nonempty parent no_end = (parent-path h nonempty parent no_end, base-path h nonempty)
