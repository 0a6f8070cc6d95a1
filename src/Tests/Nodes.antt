-- ===== src/Tests/Nodes.antt =====
-- lua515/ltable.c: the node vector on a few keys that collide.
use lua_engine.Base.{
  ℕ, ◌≡◌, refl, ap, Option, none, some, List, [], ◌∷◌, ◌==◌, eqb→eq, arith, if◌then◌else◌,
}
use lua_engine.Lua.Nodes.{
  Vector, new_vector, set_key, find_key, value_of, find, newkey, free_loop, previous, put, collide,
  collide_with, displace,
}
use lua_engine.Lua.Nodes.Links.{KeyLaws}
use lua_engine.Lua.Nodes.Entries.{IsTable, Looked, find_key-Looked}
use lua_engine.Lua.Nodes.Setting.{Setting, set_key-Setting, new_vector-IsTable, set_key-IsTable}

-- The key 9 belongs to the last node, all others to the first.
abbrev slot : ℕ → ℕ
slot k = if k == 9 then 3 else 0

four_laws : KeyLaws ◌==◌ slot 4
four_laws = record {
  symmetric = λ a b e. grind arith;
  transitive = λ a b c e e'. grind arith;
  same_home = λ a b e. ap slot (eqb→eq a b e);
  home_inside = λ a. ground arith;
}

abbrev after : Option (Vector ℕ ℕ) → ℕ → ℕ → Option (Vector ℕ ℕ)
after none k v = none
after (some h) k v = set_key ◌==◌ slot h k (some v)

-- The last key moves the second one out of its main position.
abbrev three_keys : Option (Vector ℕ ℕ)
three_keys = after (after (after (some (new_vector 4)) 0 70) 2 72) 9 79

abbrev values : Option (Vector ℕ ℕ) → Option (List (Option ℕ))
values none = none
values (some h) = some (
    value_of ◌==◌ slot h 0
    ∷ value_of ◌==◌ slot h 2
    ∷ value_of ◌==◌ slot h 9
    ∷ value_of ◌==◌ slot h 5
    ∷ [])

values-three_keys : values three_keys ≡ some (some 70 ∷ some 72 ∷ some 79 ∷ none ∷ [])
unfolding set_key find_key value_of find newkey free_loop previous put collide collide_with displace
values-three_keys = refl

no_fifth : after (after (after three_keys 5 1) 6 1) 7 1 ≡ none
unfolding set_key find_key value_of find newkey free_loop previous put collide collide_with displace
no_fifth = refl

-- Two keys on one chain.
abbrev first_one : Vector ℕ ℕ
first_one = elim (set_key ◌==◌ slot (new_vector 4) 0 (some 70)) [ none ↦ new_vector 4 | some h ↦ h ]

abbrev some_two : Vector ℕ ℕ
some_two = elim (set_key ◌==◌ slot first_one 2 (some 72)) [ none ↦ new_vector 4 | some h ↦ h ]

some_two-IsTable : IsTable ◌==◌ slot some_two
unfolding set_key find_key value_of find newkey free_loop previous put collide collide_with displace
some_two-IsTable =
    let first =
      set_key-IsTable ◌==◌ slot (new_vector 4) first_one 0 (some 70)
        (new_vector-IsTable ◌==◌ slot 4) four_laws refl refl in
    set_key-IsTable ◌==◌ slot first_one some_two 2 (some 72) first four_laws refl refl

set_key-Setting_example :
    Setting ◌==◌ slot some_two 9 (some 79) (set_key ◌==◌ slot some_two 9 (some 79))
unfolding set_key find_key find newkey free_loop previous put collide collide_with displace
set_key-Setting_example =
    set_key-Setting ◌==◌ slot some_two 9 (some 79) some_two-IsTable four_laws refl

find_key-Looked_example : Looked ◌==◌ slot some_two.node 2 (find_key ◌==◌ slot some_two 2)
unfolding set_key find_key find newkey free_loop previous put collide collide_with displace
find_key-Looked_example = find_key-Looked ◌==◌ slot some_two 2 some_two-IsTable four_laws
