-- ===== src/StringMap/Lookup.antt =====
-- What the table of util/stringmap.c holds after a key has been put into it.
use mathlib.Core.Bool.{false≢true}
use native.Mathlib.Nat.{mod-eq_of_lt, mod-eq-sub-mod, mod-lt}
use some_os.Prelude.{
  ℕ, ◌+◌, ◌-◌, ◌%◌, ◌^◌, ◌<◌, ◌≡◌, ◌⊎◌, refl, sym, ap, ◌∙◌, true, false, some, add64, add64-eq, leb,
  leb→le, leb→lt, ◌==◌, if◌then◌else◌, Bool-cases, ==_iff, ==_refl, inl, inr, arith,
}
use some_os.StringMap.{
  hash_string, Text, are_equal, Key, key, StringMap, updated, are_keys_equal, is_free, walk,
  free_walk, find, start_of, put_resized, get_from_string_map, test_for_resize, put_to_string_map,
}
use some_os.StringMap.Walk.{are_equal_refl, are_equal-eq, walk-lands, walk-keeps, free_walk-returns}

-- The walk for the key ends at it.
abbrev pub IsStored : StringMap → Text → Type 0
IsStored map k = are_keys_equal (map.keys (find map k)) k ≡ true

-- A table that holds a key has a count.
abbrev pub IsCounted : StringMap → Type 0
IsCounted map = (i : ℕ) (k : Text) → are_keys_equal (map.keys i) k ≡ true → 0 < map.count

offset :
    (capacity start f : ℕ)
    → start < capacity
    → f < capacity
    → (d : ℕ) × (d < capacity) × ((start + (0 + d)) % capacity ≡ f)
offset capacity start f s l = elim (Bool-cases (leb start f)) [
  | inl e ↦
      let k = leb→le start f e in
      let m : start + (0 + (f - start)) ≡ f = omega arith in
      (f - start, omega arith, ap (λ n. n % capacity) m ∙ mod-eq_of_lt l)
  | inr e ↦
      let k = leb→lt start f e in
      let d = f + capacity - start in
      let m : start + (0 + d) ≡ f + capacity = omega arith in
      let n : f + capacity - capacity ≡ f = omega arith in
      (
        d,
        omega arith,
        ap (λ n. n % capacity) m
            ∙ mod-eq-sub-mod (omega arith)
            ∙ ap (λ n. n % capacity) n
            ∙ mod-eq_of_lt l,
      )
]

get-stored :
    (map : StringMap) (k : Text)
    → 0 < map.count
    → IsStored map k
    → get_from_string_map map k ≡ map.values (find map k)
unfolding get_from_string_map
get-stored map k c h = let z : (map.count == 0) ≡ false = ground arith in rw (z, h) refl

-- A place that is free for a key holds no other key.
free-other :
    (e : Key) (k other : Text)
    → is_free e k ≡ true
    → are_equal k other ≡ false
    → are_keys_equal e other ≡ false
unfolding is_free are_keys_equal
free-other Key.empty k other f d = refl
free-other Key.deleted k other f d = refl
free-other (key s) k other f d = let same = are_equal-eq s k f in rw same d

equal-is_free : (e : Key) (k : Text) → are_keys_equal e k ≡ true → is_free e k ≡ true
unfolding is_free are_keys_equal
equal-is_free Key.empty k h = absurd (false≢true h)
equal-is_free Key.deleted k h = absurd (false≢true h)
equal-is_free (key s) k h = h

elsewhere :
    (keys : ℕ → Key) (other : Text) (i j : ℕ)
    → are_keys_equal (keys j) other ≡ false
    → are_keys_equal (keys i) other ≡ true
    → (i == j) ≡ false
elsewhere keys other i j misses holds = elim (Bool-cases (i == j)) [
  | inl e ↦ let same = (==_iff i j).0 e in absurd (false≢true (sym misses ∙ (rw same at holds)))
  | inr e ↦ e
]

-- A table with one value changed, at the place where the key is found, reads so for every key.
reads_written :
    (map map' : StringMap) (k other : Text) (value j : ℕ)
    → IsCounted map
    → 0 < map'.count
    → map'.values ≡ updated map.values j value
    → find map' k ≡ j
    → are_keys_equal (map'.keys j) k ≡ true
    → is_free (map.keys j) k ≡ true
    → (are_equal k other ≡ false
        → IsStored map other
        → (find map' other ≡ find map other)
          × (are_keys_equal (map'.keys (find map other)) other ≡ true))
    → (are_equal k other ≡ true) ⊎ IsStored map other
    → get_from_string_map map' other
      ≡ (if are_equal k other then value else get_from_string_map map other)
reads_written map map' k other value j counted c values found equal free keeps known =
    elim (Bool-cases (are_equal k other)) [
      | inl e ↦
          let same = are_equal-eq k other e in
          let stored : IsStored map' k = rw found equal in
          let there : updated map.values j value (find map' k) ≡ value =
            rw (found, ==_refl j) refl in
          rw e (rw⁻¹ same (get-stored map' k c stored ∙ ap (λ f. f (find map' k)) values ∙ there))
      | inr e ↦ elim known [
        | inl same ↦ absurd (false≢true (sym e ∙ same))
        | inr stored ↦
            let (place, holds) = keeps e stored in
            let misses = free-other (map.keys j) k other free e in
            let off = elsewhere map.keys other (find map other) j misses stored in
            let stored' : IsStored map' other = rw place holds in
            let there : updated map.values j value (find map other) ≡ map.values (find map other) =
              rw off refl in
            rw e (
              get-stored map' other c stored'
              ∙ ap map'.values place
              ∙ ap (λ f. f (find map other)) values
              ∙ there
              ∙ sym (get-stored map other (counted (find map other) other stored) stored))
      ]
    ]

first_place : (capacity start : ℕ) → start < capacity → (start + 0) % capacity ≡ start
first_place capacity start s =
    let e : start + 0 ≡ start = omega arith in ap (λ n. n % capacity) e ∙ mod-eq_of_lt s

-- The place where a key goes that is not in the table, and where it is found then.
finds_room :
    (map : StringMap) (k : Text) (f : ℕ)
    → f < map.capacity
    → is_free (map.keys f) k ≡ true
    → let start = start_of map k in
      (j : ℕ) × (free_walk map.keys map.capacity k map.capacity start ≡ some j)
      × (is_free (map.keys j) k ≡ true)
      × (walk (updated map.keys j (key k)) map.capacity k start map.capacity start ≡ j)
finds_room map k f l free =
    let start = start_of map k in
    let cap = map.capacity in
    let s : start < cap = mod-lt (hash_string k) (omega arith) in
    let (d, below, reaches) = offset cap start f s l in
    let first = first_place cap start s in
    let (j, found, vacant) =
      free_walk-returns map.keys cap k start d cap 0 below
        (ap (λ i. is_free (map.keys i) k) reaches ∙ free) in
    let lands = walk-lands map.keys cap k start j cap 0 s (omega arith) found in
    (j, rw first at found, vacant, rw first at lands)

put_resized-get :
    (map : StringMap) (k other : Text) (value f : ℕ)
    → f < map.capacity
    → is_free (map.keys f) k ≡ true
    → IsCounted map
    → map.count + 1 < 2 ^ 64
    → (are_equal k other ≡ true) ⊎ IsStored map other
    → (map' : StringMap) × (put_resized map k value ≡ some map')
      × (get_from_string_map map' other
          ≡ (if are_equal k other then value else get_from_string_map map other))
unfolding put_resized find
put_resized-get map k other value f l free counted small known =
    elim (Bool-cases (are_keys_equal (map.keys (find map k)) k)) [
      | inl e ↦
          let map' = record map { values = updated map.values (find map k) value } in
          (
            map',
            rw (e, put_resized) refl,
            reads_written map map' k other value (find map k) counted (counted (find map k) k e)
                refl refl e (equal-is_free (map.keys (find map k)) k e) (λ d stored. (refl, stored))
                known,
          )
      | inr e ↦
          let (j, found, vacant, lands) = finds_room map k f l free in
          let map' = record map {
            keys = updated map.keys j (key k);
            values = updated map.values j value;
            count = add64 map.count 1;
          } in
          let more : 0 < add64 map.count 1 = omega (arith, add64-eq map.count 1 small) in
          let written : map'.keys j ≡ key k = rw (==_refl j) refl in
          let equal : are_keys_equal (map'.keys j) k ≡ true =
            rw (written, are_keys_equal) (are_equal_refl k) in
          (
            map',
            rw (e, found, put_resized) refl,
            reads_written map map' k other value j counted more refl lands equal vacant
                (λ differs stored.
                  let misses = free-other (map.keys j) k other vacant differs in
                  let off = elsewhere map.keys other (find map other) j misses stored in
                  (
                    walk-keeps map.keys map.capacity k other (start_of map other) j map.capacity
                        (start_of map other) misses differs stored,
                    rw off stored,
                  ))
                known,
          )
    ]

-- For a table that `testForResize` leaves as it is, whose count is below 2 ^ 64 - 1 and not 0 if it
-- holds a key, and which has a place that is empty, deleted, or of the key: `putToStringMap` ends, and
-- `getFromStringMap` then returns the value for the key, and for every other key that the walk for it
-- reached what it returned before.
pub put-get :
    (read : ℕ → Text) (map : StringMap) (k other : Text) (value f : ℕ)
    → test_for_resize read map ≡ some map
    → f < map.capacity
    → is_free (map.keys f) k ≡ true
    → IsCounted map
    → map.count + 1 < 2 ^ 64
    → (are_equal k other ≡ true) ⊎ IsStored map other
    → (map' : StringMap) × (put_to_string_map read map k value ≡ some map')
      × (get_from_string_map map' other
          ≡ (if are_equal k other then value else get_from_string_map map other))
unfolding put_to_string_map
put-get read map k other value f kept l free counted small known =
    let (map', e, reads) = put_resized-get map k other value f l free counted small known in
    (map', rw (put_to_string_map, kept) e, reads)
