-- ===== src/StringMap.antt =====
-- util/stringmap.c: a hash table with open addressing, from strings to pointers.
-- A string is the list of its characters. The arrays are functions of the index; every access is below
-- the capacity. A pointer is a number, 0 for EMPTY and 1 for DELETED.
pub mod Walk
pub mod Lookup
mod Tests
use Prim.Native.Nat.{bit_xor}
use some_os.Prelude.{
  ℕ, zero, suc, ◌+◌, ◌-◌, ◌*◌, ◌/◌, ◌%◌, ◌^◌, Bool, true, false, not, ◌&&◌, ◌||◌, Option, none,
  some, List, [], ◌∷◌, add64, sub64, ltb, ◌==◌, if◌then◌else◌,
}

abbrev pub Text : Type 0
Text = List ℕ

-- `strcmp(a, b) == 0`
unfoldable pub are_equal : Text → Text → Bool
are_equal [] [] = true
are_equal [] (_ ∷ _) = false
are_equal (_ ∷ _) [] = false
are_equal (a ∷ s) (b ∷ t) = a == b && are_equal s t

unfoldable pub hash_int64 : ℕ → ℕ
hash_int64 n =
    let a = bit_xor n (n / 2 ^ 30) * 13787848793156543929 % 2 ^ 64 in
    let b = bit_xor a (a / 2 ^ 27) * 10723151780598845931 % 2 ^ 64 in bit_xor b (b / 2 ^ 31)

-- The loop of `hashString`, from the hash of what is before.
abbrev pub hash_from : ℕ → Text → ℕ
hash_from hash [] = hash
hash_from hash (c ∷ s) = hash_from ((hash * 293 % 2 ^ 64 + c) % 2 ^ 64) s

unfoldable pub hash_string : Text → ℕ
unfolding hash_int64
hash_string s = hash_int64 (hash_from 7919 s)

-- An entry of `keys`.
pub data Key : Type 0 where
  empty : Key
  deleted : Key
  key : Text → Key

pub record StringMap : Type 0 where
  pub count : ℕ
  pub capacity : ℕ
  pub keys : ℕ → Key
  pub values : ℕ → ℕ

abbrev pub min_table_capacity : ℕ
min_table_capacity = 128

abbrev pub updated {ℓ} : {A : Type ℓ} → (ℕ → A) → ℕ → A → ℕ → A
updated f i v j = if j == i then v else f j

abbrev pub is_empty_key : Key → Bool
is_empty_key empty = true
is_empty_key deleted = false
is_empty_key (key _) = false

unfoldable pub are_keys_equal : Key → Text → Bool
unfolding are_equal
are_keys_equal empty k = false
are_keys_equal deleted k = false
are_keys_equal (key s) k = are_equal s k

-- The loop of a rebuild that looks for a place, `n` rounds of it; `none` is a loop that does not end.
abbrev pub vacant : ℕ → ℕ → (ℕ → ℕ) → ℕ → Option ℕ
vacant size zero values idx = none
vacant size (suc n) values idx =
    let rest = vacant size n values ((idx + 1) % size) in if values idx == 0 then some idx else rest

-- Entry `i` of the old table into the new one. The hash is that of what the value points to, which
-- `read` returns.
unfoldable pub move_entry : (ℕ → Text) → StringMap → ℕ → StringMap → Option StringMap
unfolding hash_string
move_entry read table i new =
    elim (vacant new.capacity new.capacity new.values
      (hash_string (read (table.values i)) % new.capacity)) [
        | none ↦ none
        | some idx ↦ some (record new {
          keys = updated new.keys idx (table.keys i);
          values = updated new.values idx (table.values i);
        })
      ]

-- The loop over the entries from `i` on, with `n` left.
unfoldable pub rebuild_from : (ℕ → Text) → StringMap → ℕ → ℕ → StringMap → Option StringMap
unfolding move_entry
rebuild_from read table zero i new = some new
rebuild_from read table (suc n) i new =
    let moved = if ltb 1 (table.values i) then move_entry read table i new else some new in
    elim moved [ none ↦ none | some new' ↦ rebuild_from read table n (i + 1) new' ]

unfoldable pub rebuild_string_map : (ℕ → Text) → StringMap → ℕ → Option StringMap
unfolding rebuild_from
rebuild_string_map read table new_size =
    rebuild_from read table table.capacity 0
      (record { count = table.count; capacity = new_size; keys = λ _. empty; values = λ _. 0 })

unfoldable pub test_for_resize : (ℕ → Text) → StringMap → Option StringMap
unfolding rebuild_string_map
test_for_resize read map =
    if ltb map.capacity min_table_capacity
    then rebuild_string_map read map min_table_capacity
    else if ltb min_table_capacity map.capacity && ltb (map.count * 4) map.capacity
    then rebuild_string_map read map (map.capacity / 2)
    else if ltb (map.capacity * 2) (map.count * 3)
    then rebuild_string_map read map (map.capacity + map.capacity / 2)
    else some map

-- The loop that the four operations share, with `n` rounds left before it is back at `start`.
unfoldable pub walk : (ℕ → Key) → ℕ → Text → ℕ → ℕ → ℕ → ℕ
unfolding are_keys_equal
walk keys capacity k start zero idx = idx
walk keys capacity k start (suc n) idx =
    let next = (idx + 1) % capacity in
    let rest = walk keys capacity k start n next in
    if is_empty_key (keys idx) || are_keys_equal (keys idx) k
    then idx
    else if next == start
    then next
    else rest

abbrev pub start_of : StringMap → Text → ℕ
start_of map k = hash_string k % map.capacity

unfoldable pub find : StringMap → Text → ℕ
unfolding walk hash_string
find map k = walk map.keys map.capacity k (start_of map k) map.capacity (start_of map k)

unfoldable pub is_free : Key → Text → Bool
unfolding are_keys_equal
is_free empty k = true
is_free deleted k = true
is_free (key s) k = are_keys_equal (key s) k

-- The second loop of `putToStringMap`, which does not stop at its start; `none` when it does not end.
unfoldable pub free_walk : (ℕ → Key) → ℕ → Text → ℕ → ℕ → Option ℕ
unfolding is_free
free_walk keys capacity k zero idx = none
free_walk keys capacity k (suc n) idx =
    let rest = free_walk keys capacity k n ((idx + 1) % capacity) in
    if is_free (keys idx) k then some idx else rest

abbrev pub inserted : StringMap → Text → ℕ → Option ℕ → Option StringMap
inserted map k value none = none
inserted map k value (some idx) = some (record map {
  keys = updated map.keys idx (key k);
  values = updated map.values idx value;
  count = add64 map.count 1;
})

-- `putToStringMap` behind the test for a resize.
unfoldable pub put_resized : StringMap → Text → ℕ → Option StringMap
unfolding find free_walk
put_resized map k value =
    let idx = find map k in
    let free = free_walk map.keys map.capacity k map.capacity (start_of map k) in
    if are_keys_equal (map.keys idx) k
    then some (record map { values = updated map.values idx value })
    else inserted map k value free

unfoldable pub put_to_string_map : (ℕ → Text) → StringMap → Text → ℕ → Option StringMap
unfolding test_for_resize put_resized
put_to_string_map read map k value = elim (test_for_resize read map) [
  | none ↦ none
  | some map' ↦ put_resized map' k value
]

unfoldable pub get_from_string_map : StringMap → Text → ℕ
unfolding find
get_from_string_map map k =
    let idx = find map k in
    if map.count == 0 then 0 else if are_keys_equal (map.keys idx) k then map.values idx else 0

unfoldable pub get_key_from_string_map : StringMap → Text → Key
unfolding find
get_key_from_string_map map k =
    let idx = find map k in
    if map.count == 0
    then empty
    else if are_keys_equal (map.keys idx) k
    then map.keys idx
    else empty

unfoldable pub delete_from_string_map : (ℕ → Text) → StringMap → Text → Option StringMap
unfolding find test_for_resize
delete_from_string_map read map k =
    let idx = find map k in
    if map.count == 0
    then some map
    else if are_keys_equal (map.keys idx) k
    then test_for_resize read
        (record map { keys = updated map.keys idx deleted; count = sub64 map.count 1 })
    else some map
