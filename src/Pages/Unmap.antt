-- ===== src/Pages/Unmap.antt =====
-- memory/pagetable.c: what a walk finds after a page is unmapped.
use mathlib.Core.Bool.{false≢true}
use native.Mathlib.Nat.{mod-lt}
use some_os.Prelude.{
  ℕ, zero, suc, ◌≤◌, ◌<◌, Bool, true, false, Option, none, some, ◌==◌, if◌then◌else◌, ◌≡◌, refl,
  sym, ap, ◌∙◌, inl, inr, arith, Bool-cases, ==_iff, ==_refl,
}
use some_os.Pages.{
  PageEntry, invalid, leaf, stray, branch, Table, page_table_size, vpn, Found, unmapped, mapped,
  too_deep, astray, enter_entry, walk_at, virt_to_entry, is_valid, none_valid, entry_of, put_entry,
  clear_entry, unmap_at, or_same, unmap_page,
}
use some_os.Pages.Walk.{same_below, enter-set}

-- Whether an address lies in the page that a walk found for another.
abbrev pub same_leaf : ℕ → Found → ℕ → ℕ → Bool
same_leaf i unmapped a v = false
same_leaf i too_deep a v = false
same_leaf i astray a v = false
same_leaf i (mapped page bits level) a v = same_below i level a v

rest-is_invalid :
    (e : PageEntry) (rest : Bool)
    → (if is_valid e then false else rest) ≡ true
    → (e ≡ invalid) × (rest ≡ true)
rest-is_invalid invalid rest h = (refl, h)
rest-is_invalid (leaf _ _) rest h = absurd (false≢true h)
rest-is_invalid (branch _) rest h = absurd (false≢true h)
rest-is_invalid (stray _ _) rest h = absurd (false≢true h)

none_valid-invalid :
    (n j : ℕ) (table : Table) → none_valid n table ≡ true → j < n → table j ≡ invalid
none_valid-invalid zero j table h le = absurd (omega arith)
none_valid-invalid (suc n) j table h le =
    let (first, rest) = rest-is_invalid (table n) (none_valid n table) h in
    elim (Bool-cases (j == n)) [
      | inl e ↦ ap table ((==_iff j n).0 e) ∙ first
      | inr e ↦ none_valid-invalid n j table rest (ground (arith, e))
    ]

walk_at-none_valid :
    (i v : ℕ) (table : Table)
    → none_valid page_table_size table ≡ true
    → walk_at i table v ≡ unmapped
unfolding walk_at
walk_at-none_valid zero v table h =
    rw (none_valid-invalid page_table_size (vpn 0 v) table h (mod-lt _ (omega arith))) refl
walk_at-none_valid (suc i) v table h =
    rw (none_valid-invalid page_table_size (vpn (suc i) v) table h (mod-lt _ (omega arith))) refl

-- A child without valid entries may be cleared.
enter-entry_of :
    (i v : ℕ) (child : Table)
    → enter_entry (suc i) (λ c. walk_at i c v) (entry_of child) ≡ walk_at i child v
enter-entry_of i v child = elim (Bool-cases (none_valid page_table_size child)) [
  | inl e ↦ rw e (sym (walk_at-none_valid i v child e))
  | inr e ↦ rw e refl
]

abbrev IsBelow : ℕ → Found → Type 0
IsBelow i unmapped = Unit
IsBelow i too_deep = Unit
IsBelow i astray = Unit
IsBelow i (mapped page bits level) = level ≤ i

IsBelow-enter :
    (i : ℕ) (below : Table → Found) (e : PageEntry)
    → ((c : Table) → IsBelow (suc i) (below c))
    → IsBelow (suc i) (enter_entry (suc i) below e)
IsBelow-enter i below invalid h = tt
IsBelow-enter i below (leaf page bits) h = omega arith
IsBelow-enter i below (branch c) h = h c
IsBelow-enter i below (stray _ _) h = tt

IsBelow-suc : (i : ℕ) (f : Found) → IsBelow i f → IsBelow (suc i) f
IsBelow-suc i unmapped h = tt
IsBelow-suc i too_deep h = tt
IsBelow-suc i astray h = tt
IsBelow-suc i (mapped page bits level) h = omega arith

IsBelow-enter_zero : (e : PageEntry) → IsBelow 0 (enter_entry 0 (λ _. too_deep) e)
IsBelow-enter_zero invalid = tt
IsBelow-enter_zero (leaf page bits) = omega arith
IsBelow-enter_zero (branch c) = tt
IsBelow-enter_zero (stray _ _) = tt

pub walk_at-IsBelow : (i v : ℕ) (table : Table) → IsBelow i (walk_at i table v)
unfolding walk_at
walk_at-IsBelow zero v table = IsBelow-enter_zero (table (vpn 0 v))
walk_at-IsBelow (suc i) v table =
    IsBelow-enter i (λ c. walk_at i c v) (table (vpn (suc i) v))
      (λ c. IsBelow-suc i (walk_at i c v) (walk_at-IsBelow i v c))

-- Below an index of a table, the page that a walk found is that in the child.
pub same_leaf-suc :
    (i a v : ℕ) (f : Found)
    → IsBelow i f
    → same_leaf (suc i) f a v
      ≡ (if vpn (suc i) v == vpn (suc i) a then same_leaf i f a v else false)
same_leaf-suc i a v unmapped h = elim (Bool-cases (vpn (suc i) v == vpn (suc i) a)) [
  | inl e ↦ rw e refl
  | inr e ↦ rw e refl
]
same_leaf-suc i a v too_deep h = elim (Bool-cases (vpn (suc i) v == vpn (suc i) a)) [
  | inl e ↦ rw e refl
  | inr e ↦ rw e refl
]
same_leaf-suc i a v astray h = elim (Bool-cases (vpn (suc i) v == vpn (suc i) a)) [
  | inl e ↦ rw e refl
  | inr e ↦ rw e refl
]
same_leaf-suc i a v (mapped page bits level) h =
    let above : ((level == suc i) ≡ false) = ground arith in rw above refl

-- What is left of a table after the last page of an address is unmapped.
abbrev left_of : ℕ → ℕ → Table → Table
left_of i a table = or_same table (unmap_at i a table)

-- The same, in a table whose child has changed.
walk_at-put_entry :
    (i a v : ℕ) (table c : Table) (o : Option Table)
    → table (vpn (suc i) a) ≡ branch c
    → walk_at (suc i) (or_same table (put_entry table (vpn (suc i) a) o)) v ≡ (
        if vpn (suc i) v == vpn (suc i) a
        then walk_at i (or_same c o) v
        else walk_at (suc i) table v)
unfolding walk_at
walk_at-put_entry i a v table c none h = elim (Bool-cases (vpn (suc i) v == vpn (suc i) a)) [
  | inl e ↦ rw e (
      ap (λ j. enter_entry (suc i) (λ d. walk_at i d v) (table j))
        ((==_iff (vpn (suc i) v) (vpn (suc i) a)).0 e)
      ∙ ap (enter_entry (suc i) (λ d. walk_at i d v)) h)
  | inr e ↦ rw e refl
]
walk_at-put_entry i a v table c (some changed) h =
    enter-set (suc i) (λ d. walk_at i d v) table (vpn (suc i) a) (vpn (suc i) v) (entry_of changed)
    ∙ ap
        (λ w.
          if vpn (suc i) v == vpn (suc i) a
          then w
          else enter_entry (suc i) (λ d. walk_at i d v) (table (vpn (suc i) v)))
        (enter-entry_of i v changed)

-- A choice between what is unmapped and what was there, in the child and in the table.
pub choose-nested :
    (b s : Bool) (x y z : Found)
    → (b ≡ true → y ≡ x)
    → (if b then (if s then z else x) else y) ≡ (if (if b then s else false) then z else y)
choose-nested true true x y z h = refl
choose-nested true false x y z h = sym (h refl)
choose-nested false s x y z h = refl

walk_at-unmap_zero :
    (a v : ℕ) (table : Table) (e : PageEntry)
    → table (vpn 0 a) ≡ e
    → walk_at 0 (or_same table (clear_entry table (vpn 0 a) (λ _. none) e)) v
      ≡ (if same_leaf 0 (enter_entry 0 (λ _. too_deep) e) a v then unmapped else walk_at 0 table v)
unfolding walk_at
walk_at-unmap_zero a v table invalid h = refl
walk_at-unmap_zero a v table (leaf page bits) h =
    enter-set 0 (λ _. too_deep) table (vpn 0 a) (vpn 0 v) invalid
walk_at-unmap_zero a v table (branch c) h = refl
walk_at-unmap_zero a v table (stray _ _) h = refl

walk_at-unmap_suc :
    (i a v : ℕ) (table : Table) (e : PageEntry)
    → table (vpn (suc i) a) ≡ e
    → ((c : Table)
        → walk_at i (left_of i a c) v
          ≡ (if same_leaf i (walk_at i c a) a v then unmapped else walk_at i c v))
    → walk_at (suc i) (or_same table (clear_entry table (vpn (suc i) a) (unmap_at i a) e)) v ≡ (
        if same_leaf (suc i) (enter_entry (suc i) (λ c. walk_at i c a) e) a v
        then unmapped
        else walk_at (suc i) table v)
unfolding walk_at
walk_at-unmap_suc i a v table invalid h below = refl
walk_at-unmap_suc i a v table (stray _ _) h below = refl
walk_at-unmap_suc i a v table (leaf page bits) h below =
    let found =
      enter-set (suc i) (λ c. walk_at i c v) table (vpn (suc i) a) (vpn (suc i) v) invalid in
    rw (==_refl (suc i))
      (elim (Bool-cases (vpn (suc i) v == vpn (suc i) a)) [ inl e ↦ rw e refl | inr e ↦ rw e refl ])
walk_at-unmap_suc i a v table (branch c) h below =
    let b = vpn (suc i) v == vpn (suc i) a in
    let old = walk_at (suc i) table v in
    let s = same_leaf i (walk_at i c a) a v in
    let through : ((b ≡ true) → old ≡ walk_at i c v) = (λ e.
      ap (λ j. enter_entry (suc i) (λ d. walk_at i d v) (table j))
        ((==_iff (vpn (suc i) v) (vpn (suc i) a)).0 e)
      ∙ ap (enter_entry (suc i) (λ d. walk_at i d v)) h) in
    walk_at-put_entry i a v table c (unmap_at i a c) h
    ∙ ap (λ w. if b then w else old) (below c)
    ∙ choose-nested b s (walk_at i c v) old unmapped through
    ∙ ap (λ t. if t then unmapped else old)
        (sym (same_leaf-suc i a v (walk_at i c a) (walk_at-IsBelow i a c)))

walk_at-unmap :
    (i a v : ℕ) (table : Table)
    → walk_at i (left_of i a table) v
      ≡ (if same_leaf i (walk_at i table a) a v then unmapped else walk_at i table v)
unfolding walk_at unmap_at
walk_at-unmap zero a v table = walk_at-unmap_zero a v table (table (vpn 0 a)) refl
walk_at-unmap (suc i) a v table =
    walk_at-unmap_suc i a v table (table (vpn (suc i) a)) refl (λ c. walk_at-unmap i a v c)

-- After unmapPage the addresses of the page that the address led to, of whatever size, lead nowhere,
-- and every other address leads to what it led to before, though tables without entries are freed. An
-- address that led nowhere changes nothing.
pub virt_to_entry-unmap_page :
    (root : Table) (vaddr v : ℕ)
    → virt_to_entry (unmap_page root vaddr) v
      ≡ (if same_leaf 2 (virt_to_entry root vaddr) vaddr v then unmapped else virt_to_entry root v)
unfolding unmap_page virt_to_entry
virt_to_entry-unmap_page root vaddr v = walk_at-unmap 2 vaddr v root
