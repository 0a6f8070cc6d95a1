-- ===== src/Tests/Sort.antt =====
-- `table.sort`, run on small tables of numbers.
use lua_engine.Base.{
  ℕ, zero, suc, ◌≡◌, refl, true, false, none, some, List, [], ◌∷◌, get_elem?, ltb, leb, arith,
}
use lua_engine.Lua.Sort.{Res, ok, raised, invalid_order, Table, sort}
use lua_engine.Lua.Sort.Moves.{Yields, Moved}
use lua_engine.Lua.Sort.Order.{Sorted}
use lua_engine.Lua.Sort.Whole.{sort-Yields, sort-Sorted}

-- A table with the numbers from index 1 on.
abbrev pub table_of : List ℕ → Table ℕ
table_of xs zero = 0
table_of xs (suc k) = elim (get_elem? xs k) [ none ↦ 0 | some x ↦ x ]

abbrev numbers : List ℕ
numbers = 5 ∷ 2 ∷ 9 ∷ 2 ∷ 7 ∷ 1 ∷ []

-- The entries from 1 to 6 of a sorted table.
abbrev entries : Res (Table ℕ) → List ℕ
entries (raised e) = []
entries (ok t) = t 1 ∷ t 2 ∷ t 3 ∷ t 4 ∷ t 5 ∷ t 6 ∷ []

numbers_in_order : entries (sort ltb 6 (table_of numbers)) ≡ 1 ∷ 2 ∷ 2 ∷ 5 ∷ 7 ∷ 9 ∷ []
unfolding sort
numbers_in_order = refl

-- An order that always answers yes is refused.
always_refused : sort (λ x y. true) 6 (table_of numbers) ≡ raised invalid_order
unfolding sort
always_refused = refl

-- `≤` is no order for `sort`: on equal entries it exchanges an entry with the one behind the last.
equal_entries :
    entries (sort leb 4 (table_of (1 ∷ 1 ∷ 1 ∷ 1 ∷ 2 ∷ 3 ∷ []))) ≡ 1 ∷ 1 ∷ 1 ∷ 2 ∷ 1 ∷ 3 ∷ []
unfolding sort
equal_entries = refl

ltb_asym : (x y : ℕ) → ltb x y ≡ true → ltb y x ≡ false
ltb_asym x y h = ground arith

sort-Yields_example : Yields (Moved 1 6 (table_of numbers)) (sort ltb 6 (table_of numbers))
sort-Yields_example = sort-Yields ltb ltb_asym 6 (table_of numbers)

ltb_trans : (x y z : ℕ) → ltb x y ≡ false → ltb y z ≡ false → ltb x z ≡ false
ltb_trans x y z h k = ground arith

sort-Sorted_example : Yields (Sorted ltb 1 6) (sort ltb 6 (table_of numbers))
sort-Sorted_example = sort-Sorted ltb ltb_asym 6 (table_of numbers) ltb_trans
