-- ===== src/StringMap/Tests.antt =====
-- The table of util/stringmap.c at concrete keys.
use some_os.Prelude.{
  ℕ, zero, suc, ◌≡◌, refl, Option, none, some, [], ◌∷◌, if◌then◌else◌, inr, arith,
}
use some_os.StringMap.{
  Text, are_equal, StringMap, Key, deleted, key, are_keys_equal, is_free, put_to_string_map,
  get_from_string_map, test_for_resize, find,
}
use some_os.StringMap.Lookup.{IsCounted, put-get}

-- "p" and "q"
abbrev first_name : Text
first_name = 112 ∷ []

abbrev second_name : Text
second_name = 113 ∷ []

-- A table of the smallest capacity that is kept, full of the first name but for one place, whose entry
-- was deleted.
abbrev names : ℕ → Key
names i = elim i [ zero ↦ deleted | suc _ ↦ key first_name ]

abbrev table : StringMap
table = record { count = 1; capacity = 128; keys = names; values = λ _. 4096 }

table-IsCounted : IsCounted table
table-IsCounted i k h = omega arith

put-get_example :
    (map' : StringMap) × (put_to_string_map (λ _. first_name) table second_name 8192 ≡ some map')
    × (get_from_string_map map' first_name
        ≡ (if are_equal second_name first_name then 8192 else get_from_string_map table first_name))
unfolding find are_keys_equal is_free test_for_resize
put-get_example =
    put-get (λ _. first_name) table second_name first_name 8192 0 refl (omega arith) refl
      table-IsCounted (omega arith) (inr refl)

-- The growth of a table of one place that holds the first name, and points to a string of its own.
abbrev found_after : Option StringMap → ℕ
found_after none = 1
found_after (some map) = get_from_string_map map first_name

abbrev one_place : StringMap
one_place = record { count = 1; capacity = 1; keys = λ _. key first_name; values = λ _. 4096 }

stored_runs : get_from_string_map one_place first_name ≡ 4096
unfolding get_from_string_map
stored_runs = refl

rebuild_loses : found_after (test_for_resize (λ _. second_name) one_place) ≡ 0
unfolding get_from_string_map test_for_resize
rebuild_loses = refl
