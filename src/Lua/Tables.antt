-- ===== src/Lua/Tables.antt =====
-- lua515/ltable.c: a table, with its array part and its node vector. Where Lua.Nodes has one main
-- position, `home` has that of each size of a vector. `index` is `arrayindex`, with 0 for a key that is
-- no positive number, and `number` makes the key of an integer.
pub mod Sound
pub mod Refill
pub mod Resize
pub mod Resized
use lua_engine.Base.{
  ℕ, zero, suc, ◌+◌, ◌-◌, ◌*◌, ◌/◌, ◌^◌, Bool, true, false, ◌&&◌, Option, none, some, ltb, leb,
  ◌==◌, if◌then◌else◌, min,
}
use lua_engine.Lua.Nodes.{Node, Vector, new_vector, value_of, set_key}
use lua_engine.Lua.Logs.{ceillog2, node_count}

-- The fields `array` and `sizearray` of `Table`, and its node vector.
pub record LuaTable (K V : Type 0) : Type 0 where
  pub array : ℕ → Option V
  pub sizearray : ℕ
  pub hash : Vector K V

abbrev pub maxbits : ℕ
maxbits = 26

abbrev pub set_slot : {V : Type 0} → (ℕ → Option V) → ℕ → Option V → ℕ → Option V
set_slot a i v j = if j == i then v else a j

-- The test for a key of the array part.
abbrev pub in_range : {K : Type 0} → (K → ℕ) → K → ℕ → Bool
in_range index k size = ltb 0 (index k) && leb (index k) size

module _ {K V : Type 0} where
  -- `setarrayvector`
  abbrev pub set_array_vector : LuaTable K V → ℕ → LuaTable K V
  set_array_vector t n = record t {
    array = λ i. if ltb i t.sizearray then t.array i else none;
    sizearray = n;
  }

  -- `luaH_new`
  abbrev pub new_table : ℕ → ℕ → LuaTable K V
  new_table narray nhash = record {
    array = λ i. none;
    sizearray = narray;
    hash = new_vector (node_count nhash);
  }

  -- The entry of a node that has a value, as `resize` inserts it again.
  abbrev pub node_item : Vector K V → ℕ → Option (K × V)
  node_item h j = elim (h.node j).value [
    | none ↦ none
    | some v ↦ elim (h.node j).key [ none ↦ none | some k ↦ some (k, v) ]
  ]

  module _ (index : K → ℕ) where
    abbrev pub in_array : LuaTable K V → K → Bool
    in_array t k = in_range index k t.sizearray

    module _ (equal : K → K → Bool) (home : ℕ → K → ℕ) where
      -- `luaH_get`
      unfoldable pub get : LuaTable K V → K → Option V
      get t k =
          if in_array t k then t.array (index k - 1) else value_of equal (home t.hash.size) t.hash k

      abbrev pub with_hash : LuaTable K V → Option (Vector K V) → Option (LuaTable K V)
      with_hash t none = none
      with_hash t (some h) = some (record t { hash = h })

      -- `luaH_set` and the assignment that follows; none where `newkey` would call `rehash`.
      unfoldable pub set : LuaTable K V → K → Option V → Option (LuaTable K V)
      set t k v =
          if in_array t k
          then some (record t { array = set_slot t.array (index k - 1) v })
          else with_hash t (set_key equal (home t.hash.size) t.hash k v)

      unfoldable pub set_item : LuaTable K V → Option (K × V) → Option (LuaTable K V)
      unfolding set
      set_item t none = some t
      set_item t (some (k, v)) = set t k (some v)

      -- A loop of `resize` that inserts entries again, the one with the largest number first.
      unfoldable pub reinsert : (ℕ → Option (K × V)) → ℕ → LuaTable K V → Option (LuaTable K V)
      unfolding set_item
      reinsert item zero t = some t
      reinsert item (suc n) t = elim (set_item t (item n)) [
        | none ↦ none
        | some t' ↦ reinsert item n t'
      ]

      module _ (number : ℕ → K) where
        -- The entry of the slot that is `j` slots before the last one.
        abbrev pub slot_item : LuaTable K V → ℕ → Option (K × V)
        slot_item t j = elim (t.array (t.sizearray - 1 - j)) [
          | none ↦ none
          | some v ↦ some (number (suc (t.sizearray - 1 - j)), v)
        ]

        -- `resize` once the vectors are made: `sized` has the new ones.
        unfoldable pub refill : LuaTable K V → LuaTable K V → Option (LuaTable K V)
        unfolding reinsert
        refill old sized = elim (reinsert (slot_item old) (old.sizearray - sized.sizearray) sized) [
          | none ↦ none
          | some t ↦ reinsert (node_item old.hash) old.hash.size t
        ]

        abbrev pub sized_table : LuaTable K V → ℕ → ℕ → LuaTable K V
        sized_table t nasize nhsize =
            let grown : LuaTable K V =
              if ltb t.sizearray nasize then set_array_vector t nasize else t in
            record grown { sizearray = nasize; hash = new_vector (node_count nhsize) }

        -- `resize`; none for the error `table overflow`, and where it would call `rehash` inside.
        unfoldable pub resize : LuaTable K V → ℕ → ℕ → Option (LuaTable K V)
        unfolding refill
        resize t nasize nhsize =
            if leb (ceillog2 nhsize) maxbits then refill t (sized_table t nasize nhsize) else none
