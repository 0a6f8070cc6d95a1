-- ===== src/Tests/Tables.antt =====
-- lua515/ltable.c: tables whose keys are numbers.
use lua_engine.Base.{
  true, ℕ, zero, suc, ◌↔◌, ◌<◌, ◌*◌, ◌%◌, ◌^◌, ◌≤◌, ◌≡◌, refl, ap, Option, none, some, List, [],
  ◌∷◌, map, ◌==◌, if◌then◌else◌, eqb→eq, ==_refl, arith, leb→le,
}
use lua_engine.Lua.Tables.{LuaTable, new_table, get, set, resize, reinsert, set_item, refill}
use lua_engine.Lua.Nodes.{
  set_key, find_key, value_of, find, newkey, free_loop, previous, put, collide, collide_with,
  displace,
}
use lua_engine.Lua.Tables.Sound.{IndexLaws, IsSound}
use lua_engine.Lua.Tables.Refill.{outsiders}
use lua_engine.Lua.Logs.{ceillog2, log2_loop, node_count}
use lua_engine.Lua.Rehash.{
  luah_set, rehash, computesizes, size_loop, numusearray, slices, count_slice, count_nodes,
  countint,
}
use lua_engine.Lua.Rehash.Counts.{prefix, filled}
use lua_engine.Lua.Rehash.Sizes.{IsCount, IsSize, IsLargest, computesizes-IsLargest}
use lua_engine.Lua.Rehash.Whole.{luah_set-IsUpdate, luah_set-IsSound, new_table-IsSound}
use lua_engine.Lua.Border.{luah_getn, has_number, binary_search, unbound_search, doubling}
use lua_engine.Lua.Border.Search.{IsBorder}
use lua_engine.Lua.Border.Length.{luah_getn-IsBorder}
use lua_engine.Lua.Next.{traverse, luah_next, next_slot, next_node, find_index}
use lua_engine.Lua.Next.Firsts.{entries_from}
use lua_engine.Lua.Next.Traversal.{traverse-entries, get_iff, entry_at, total}
use native.Mathlib.Nat.{mod-lt, one-le-pow, pow-suc}
use lua_engine.Lua.Logs.Ceiling.{ceillog2_le_iff}

abbrev own : ℕ → ℕ
own k = k

-- The node of a number.
abbrev slot_of : ℕ → ℕ → ℕ
slot_of size k = k % size

number_laws : IndexLaws own ◌==◌ slot_of own
number_laws = record {
  key_laws = λ l. record {
    symmetric = λ a b e. grind arith;
    transitive = λ a b c e e'. grind arith;
    same_home = λ a b e. ap (slot_of (2 ^ l)) (eqb→eq a b e);
    home_inside = λ a. mod-lt a (one-le-pow l 2 (omega arith));
  };
  same_index = λ a b e. eqb→eq a b e;
  index_of_number = λ i lt. refl;
  number_of_index = λ a pos. ==_refl a;
  number_itself = λ i. ==_refl i;
}

abbrev set_all : List ℕ → Option (LuaTable ℕ ℕ) → Option (LuaTable ℕ ℕ)
set_all [] t = t
set_all (k ∷ ks) none = none
set_all (k ∷ ks) (some t) = set_all ks (luah_set own ◌==◌ slot_of own t k (some (10 * k)))

-- The sizes of the two parts, and the values of some keys.
abbrev shape : Option (LuaTable ℕ ℕ) → List ℕ → ℕ × ℕ × List (Option ℕ)
shape none ks = (0, 0, [])
shape (some t) ks = (t.sizearray, t.hash.size, map (get own ◌==◌ slot_of t) ks)

grows :
    shape (set_all (1 ∷ 2 ∷ 3 ∷ 100 ∷ []) (some (new_table 0 0))) (1 ∷ 2 ∷ 3 ∷ 100 ∷ 4 ∷ [])
    ≡ (4, 1, some 10 ∷ some 20 ∷ some 30 ∷ some 1000 ∷ none ∷ [])
unfolding luah_set rehash computesizes size_loop numusearray slices count_slice count_nodes countint
    ceillog2 log2_loop node_count get set resize refill reinsert set_item set_key find_key value_of
    find newkey free_loop previous put collide collide_with displace
grows = refl

abbrev Numbers : Type 0
Numbers = LuaTable ℕ ℕ

abbrev empty_two : Numbers
empty_two = new_table 0 2

abbrev the_table : Option Numbers → Numbers
the_table none = empty_two
the_table (some t) = t

-- Two nodes, and one key in them.
abbrev one_key : Numbers
one_key = the_table (luah_set own ◌==◌ slot_of own empty_two 100 (some 5))

-- All nodes have keys.
abbrev two_keys : Numbers
two_keys = the_table (luah_set own ◌==◌ slot_of own one_key 7 (some 6))

two_keys-IsSound : IsSound own ◌==◌ slot_of two_keys
unfolding luah_set rehash computesizes size_loop numusearray slices count_slice count_nodes countint
    ceillog2 log2_loop node_count get set resize refill reinsert set_item set_key find_key value_of
    find newkey free_loop previous put collide collide_with displace filled outsiders
two_keys-IsSound =
    let empty = (new_table-IsSound {V = ℕ} own ◌==◌ slot_of 0 2).0 in
    let first =
      luah_set-IsSound own ◌==◌ slot_of own number_laws empty_two empty (leb→le _ _ refl) 100
        (leb→le _ _ refl) (some 5) refl one_key refl in
    luah_set-IsSound own ◌==◌ slot_of own number_laws one_key first (leb→le _ _ refl) 7
      (leb→le _ _ refl) (some 6) refl two_keys refl

luah_set-IsUpdate_example :
    (t' : Numbers) × (luah_set own ◌==◌ slot_of own two_keys 1 (some 9) ≡ some t')
    × IsSound own ◌==◌ slot_of t'
    × ((x : ℕ)
        → get own ◌==◌ slot_of t' x ≡ (if 1 == x then some 9 else get own ◌==◌ slot_of two_keys x))
unfolding luah_set rehash computesizes size_loop numusearray slices count_slice count_nodes countint
    ceillog2 log2_loop node_count get set resize refill reinsert set_item set_key find_key value_of
    find newkey free_loop previous put collide collide_with displace filled outsiders
luah_set-IsUpdate_example =
    luah_set-IsUpdate own ◌==◌ slot_of own number_laws two_keys two_keys-IsSound (leb→le _ _ refl) 1
      (leb→le _ _ refl) (some 9) refl

-- Keys 1, 2 and 3, and one of 17 to 32.
abbrev four_counted : ℕ → ℕ
four_counted j =
    if j == 0 then 1 else if j == 1 then 1 else if j == 2 then 1 else if j == 5 then 1 else 0

four_counted_le : (j : ℕ) → four_counted j ≤ 1
four_counted_le j = ground arith

four_counted-IsCount : IsCount four_counted
unfolding prefix
four_counted-IsCount zero = leb→le _ _ refl
four_counted-IsCount (suc l) = omega (
  arith,
  four_counted-IsCount l,
  pow-suc 2 l,
  one-le-pow l 2 (omega arith),
  four_counted_le (suc l),
)

computesizes-IsLargest_example :
    (n : ℕ) × (na : ℕ) × (computesizes four_counted (prefix four_counted 26) ≡ some (n, na))
    × IsSize four_counted n na
    × IsLargest four_counted 27 n
computesizes-IsLargest_example = computesizes-IsLargest four_counted four_counted-IsCount

four_slots : computesizes four_counted 4 ≡ some (4, 3)
unfolding computesizes size_loop
four_slots = refl

ceillog2_le_iff_example : (ceillog2 1000 ≤ 10) ↔ (1000 ≤ 2 ^ 10)
ceillog2_le_iff_example = ceillog2_le_iff 1000 10 (omega arith) (leb→le _ _ refl)

-- The number 1 goes to an array part.
abbrev with_one : Numbers
with_one = the_table (luah_set own ◌==◌ slot_of own two_keys 1 (some 9))

with_one-IsSound : IsSound own ◌==◌ slot_of with_one
unfolding luah_set rehash computesizes size_loop numusearray slices count_slice count_nodes countint
    ceillog2 log2_loop node_count get set resize refill reinsert set_item set_key find_key value_of
    find newkey free_loop previous put collide collide_with displace filled outsiders
with_one-IsSound =
    luah_set-IsSound own ◌==◌ slot_of own number_laws two_keys two_keys-IsSound (leb→le _ _ refl) 1
      (leb→le _ _ refl) (some 9) refl with_one refl

with_one_small : with_one.sizearray < 2 ^ 31
unfolding luah_set rehash computesizes size_loop numusearray slices count_slice count_nodes countint
    ceillog2 log2_loop node_count get set resize refill reinsert set_item set_key find_key value_of
    find newkey free_loop previous put collide collide_with displace filled outsiders
with_one_small = leb→le _ _ refl

one_is_border : luah_getn own ◌==◌ slot_of own with_one ≡ some 1
unfolding luah_set rehash computesizes size_loop numusearray slices count_slice count_nodes countint
    ceillog2 log2_loop node_count get set resize refill reinsert set_item set_key find_key value_of
    find newkey free_loop previous put collide collide_with displace filled outsiders luah_getn
    binary_search unbound_search doubling
one_is_border = refl

luah_getn-IsBorder_example :
    (r : ℕ) × (luah_getn own ◌==◌ slot_of own with_one ≡ some r)
    × IsBorder (has_number own ◌==◌ slot_of own with_one) r
unfolding luah_set rehash computesizes size_loop numusearray slices count_slice count_nodes countint
    ceillog2 log2_loop node_count get set resize refill reinsert set_item set_key find_key value_of
    find newkey free_loop previous put collide collide_with displace filled outsiders
luah_getn-IsBorder_example =
    luah_getn-IsBorder own ◌==◌ slot_of own number_laws with_one with_one-IsSound (leb→le _ _ refl)
      2 (leb→le _ _ refl) (leb→le _ _ refl) refl

three_entries :
    traverse own ◌==◌ slot_of own 5 with_one none ≡ some ((1, 9) ∷ (100, 5) ∷ (7, 6) ∷ [])
unfolding luah_set rehash computesizes size_loop numusearray slices count_slice count_nodes countint
    ceillog2 log2_loop node_count get set resize refill reinsert set_item set_key find_key value_of
    find newkey free_loop previous put collide collide_with displace filled outsiders traverse
    luah_next next_slot next_node find_index
three_entries = refl

traverse-entries_example :
    traverse own ◌==◌ slot_of own
      (suc (total own ◌==◌ slot_of own number_laws with_one with_one-IsSound with_one_small))
      with_one
      none
    ≡ some (
        entries_from
          (entry_at own ◌==◌ slot_of own number_laws with_one with_one-IsSound with_one_small)
          (total own ◌==◌ slot_of own number_laws with_one with_one-IsSound with_one_small)
          0)
unfolding luah_set rehash computesizes size_loop numusearray slices count_slice count_nodes countint
    ceillog2 log2_loop node_count get set resize refill reinsert set_item set_key find_key value_of
    find newkey free_loop previous put collide collide_with displace filled outsiders
traverse-entries_example =
    traverse-entries own ◌==◌ slot_of own number_laws with_one with_one-IsSound with_one_small
      (leb→le _ _ refl)

get_iff_example : (get own ◌==◌ slot_of with_one 7 ≡ some 6) ↔ (
    (j : ℕ) × (k : ℕ) × (j
      < total own ◌==◌ slot_of own number_laws with_one with_one-IsSound with_one_small)
    × (entry_at own ◌==◌ slot_of own number_laws with_one with_one-IsSound with_one_small j
        ≡ some (k, 6))
    × ((k == 7) ≡ true))
unfolding luah_set rehash computesizes size_loop numusearray slices count_slice count_nodes countint
    ceillog2 log2_loop node_count get set resize refill reinsert set_item set_key find_key value_of
    find newkey free_loop previous put collide collide_with displace filled outsiders
get_iff_example =
    get_iff own ◌==◌ slot_of own number_laws with_one with_one-IsSound with_one_small 7 6
