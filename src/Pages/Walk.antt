-- ===== src/Pages/Walk.antt =====
-- memory/pagetable.c: what a walk finds after a page is mapped.
use Prim.Native.Nat.{bit_and}
use mathlib.Core.Option.{some_inj}
use some_os.Prelude.{
  ℕ, zero, suc, ◌/◌, ◌%◌, ◌^◌, ◌≤◌, Bool, true, false, Option, none, some, ◌==◌, if◌then◌else◌, ◌≡◌,
  refl, sym, ap, ◌∙◌, ◌⊎◌, inl, inr, arith, Bool-cases, ==_iff,
}
use some_os.Pages.{
  PageEntry, invalid, leaf, stray, branch, Table, vpn, set_entry, next_level, valid_bits,
  write_leaf, put_branch, descend, map_at, map_page, Found, unmapped, mapped, too_deep, enter_entry,
  walk_at, virt_to_entry, create_page_table,
}

-- Whether two addresses lie in the same page of a level, below a table at level `i`.
abbrev pub same_below : ℕ → ℕ → ℕ → ℕ → Bool
same_below zero level a b = vpn 0 b == vpn 0 a
same_below (suc i) level a b =
    let rest = same_below i level a b in
    if vpn (suc i) b == vpn (suc i) a then (if level == suc i then true else rest) else false

pub walk_at-empty : (i v : ℕ) → walk_at i create_page_table v ≡ unmapped
unfolding walk_at
walk_at-empty zero v = refl
walk_at-empty (suc i) v = refl

pub enter-next :
    (i v : ℕ) (e : PageEntry) (child : Table)
    → next_level e ≡ some child
    → enter_entry (suc i) (λ c. walk_at i c v) e ≡ walk_at i child v
enter-next i v invalid child h = sym (walk_at-empty i v) ∙ ap (λ c. walk_at i c v) (some_inj.0 h)
enter-next i v (leaf page bits) child h = cc
enter-next i v (stray page bits) child h = cc
enter-next i v (branch c) child h = ap (λ c. walk_at i c v) (some_inj.0 h)

-- A written entry is found at its index, and the old ones elsewhere.
pub enter-set :
    (i : ℕ) (below : Table → Found) (table : Table) (at j : ℕ) (e : PageEntry)
    → enter_entry i below (set_entry table at e j)
      ≡ (if j == at then enter_entry i below e else enter_entry i below (table j))
enter-set i below table at j e = elim (Bool-cases (j == at)) [
  | inl same ↦ rw same refl
  | inr other ↦ rw other refl
]

written-is_set :
    (e : PageEntry) (table t : Table) (at page bits : ℕ)
    → write_leaf e table at page bits ≡ some t
    → t ≡ set_entry table at (leaf (page % 2 ^ 44) (valid_bits bits))
written-is_set invalid table t at page bits h = sym (some_inj.0 h)
written-is_set (leaf _ _) table t at page bits h = sym (some_inj.0 h)
written-is_set (branch _) table t at page bits h = cc
written-is_set (stray _ _) table t at page bits h = cc

put_branch-inverse :
    (table t : Table) (at : ℕ) (o : Option Table)
    → put_branch table at o ≡ some t
    → (changed : Table) × (o ≡ some changed) × (t ≡ set_entry table at (branch changed))
put_branch-inverse table t at none h = cc
put_branch-inverse table t at (some changed) h = (changed, refl, sym (some_inj.0 h))

descend-inverse :
    (table t : Table) (at : ℕ) (below : Table → Option Table) (o : Option Table)
    → descend table at below o ≡ some t
    → (child : Table) × (changed : Table) × (o ≡ some child)
      × (below child ≡ some changed)
      × (t ≡ set_entry table at (branch changed))
descend-inverse table t at below none h = cc
descend-inverse table t at below (some child) h =
    let (changed, e, set) = put_branch-inverse table t at (below child) h in
    (child, changed, refl, e, set)

if-cases :
    (b : Bool) (x y : Option Table) (t : Table)
    → (if b then x else y) ≡ some t
    → ((b ≡ true) × (x ≡ some t)) ⊎ ((b ≡ false) × (y ≡ some t))
if-cases true x y t h = inl (refl, h)
if-cases false x y t h = inr (refl, h)

mapped-is_some :
    (b : Bool) (o : Option Table) (t : Table) → (if b then none else o) ≡ some t → o ≡ some t
mapped-is_some true o t h = cc
mapped-is_some false o t h = h

walk_at-written :
    (i level a v page bits : ℕ) (table t : Table)
    → (level == suc i) ≡ true
    → t ≡ set_entry table (vpn (suc i) a) (leaf (page % 2 ^ 44) (valid_bits bits))
    → walk_at (suc i) t v ≡ (
        if same_below (suc i) level a v
        then mapped (page % 2 ^ 44) (valid_bits bits) level
        else walk_at (suc i) table v)
unfolding walk_at
walk_at-written i level a v page bits table t e set =
    elim (Bool-cases (vpn (suc i) v == vpn (suc i) a)) [
      | inl same ↦
          rw (set, same, e)
            (ap (λ l. mapped (page % 2 ^ 44) (valid_bits bits) l)
              (sym ((==_iff level (suc i)).0 e)))
      | inr other ↦ rw (set, other) refl
    ]

walk_at-below :
    (i level a v page bits : ℕ) (table child changed t : Table)
    → (level == suc i) ≡ false
    → next_level (table (vpn (suc i) a)) ≡ some child
    → t ≡ set_entry table (vpn (suc i) a) (branch changed)
    → walk_at i changed v ≡ (
        if same_below i level a v
        then mapped (page % 2 ^ 44) (valid_bits bits) level
        else walk_at i child v)
    → walk_at (suc i) t v ≡ (
        if same_below (suc i) level a v
        then mapped (page % 2 ^ 44) (valid_bits bits) level
        else walk_at (suc i) table v)
unfolding walk_at
walk_at-below i level a v page bits table child changed t e next set below =
    elim (Bool-cases (vpn (suc i) v == vpn (suc i) a)) [
      | inl same ↦
          let found : (ℕ → Found) = (λ j. enter_entry (suc i) (λ c. walk_at i c v) (table j)) in
          let old =
            sym (enter-next i v (table (vpn (suc i) a)) child next)
            ∙ ap found (sym ((==_iff (vpn (suc i) v) (vpn (suc i) a)).0 same)) in
          rw (set, same, e)
            (below
              ∙ ap
                  (λ w.
                    if same_below i level a v
                    then mapped (page % 2 ^ 44) (valid_bits bits) level
                    else w)
                  old)
      | inr other ↦ rw (set, other) refl
    ]

walk_at-map :
    (i level a v page bits : ℕ) (table t : Table)
    → level ≤ i
    → map_at i level a page bits table ≡ some t
    → walk_at i t v ≡ (
        if same_below i level a v
        then mapped (page % 2 ^ 44) (valid_bits bits) level
        else walk_at i table v)
unfolding map_at walk_at
walk_at-map zero level a v page bits table t le h =
    let set = written-is_set (table (vpn 0 a)) table t (vpn 0 a) page bits h in
    let e : level ≡ 0 = omega arith in
    rw (set, e)
      (enter-set 0 (λ _. too_deep) table (vpn 0 a) (vpn 0 v)
        (leaf (page % 2 ^ 44) (valid_bits bits)))
walk_at-map (suc i) level a v page bits table t le h =
    let at = vpn (suc i) a in
    let cases =
      if-cases (level == suc i) (write_leaf (table at) table at page bits)
        (descend table at (map_at i level a page bits) (next_level (table at))) t h in
    elim cases [
      | inl (e, here) ↦
          walk_at-written i level a v page bits table t e
            (written-is_set (table at) table t at page bits here)
      | inr (e, under) ↦
          let (child, changed, next, k, set) =
            descend-inverse table t at (map_at i level a page bits) (next_level (table at)) under in
          walk_at-below i level a v page bits table child changed t e next set
            (walk_at-map i level a v page bits child changed (ground (arith, e)) k)
    ]

-- After mapPage, at level 0, 1 or 2, has returned, the addresses of the page that it maps lead to the
-- new entry, with the low 44 bits of the number of the page and the low 10 of the bits, PAGE_ENTRY_VALID
-- set, and every other address to the entry that it led to before.
pub virt_to_entry-map_page :
    (root t : Table) (vaddr paddr bits level v : ℕ)
    → level ≤ 2
    → map_page root vaddr paddr bits level ≡ some t
    → virt_to_entry t v ≡ (
        if same_below 2 level vaddr v
        then mapped (paddr / 4096 % 2 ^ 44) (valid_bits bits) level
        else virt_to_entry root v)
unfolding map_page virt_to_entry
virt_to_entry-map_page root t vaddr paddr bits level v le h =
    walk_at-map 2 level vaddr v (paddr / 4096) bits root t le
      (mapped-is_some (bit_and bits 14 == 0) (map_at 2 level vaddr (paddr / 4096) bits root) t h)
