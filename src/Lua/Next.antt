-- ===== src/Lua/Next.antt =====
-- lua515/ltable.c: `luaH_next`, which `next` and `pairs` call.
pub mod Firsts
pub mod Traversal
use lua_engine.Base.{
  ℕ, zero, suc, ◌+◌, ◌-◌, ◌^◌, Bool, true, false, Option, none, some, List, [], ◌∷◌, ltb,
  if◌then◌else◌,
}
use lua_engine.Lua.Nodes.{Vector, find_key, Search, at, missing, endless}
use lua_engine.Lua.Tables.{LuaTable, in_array, node_item}

-- One more than the index of a node in the traversal; none for the error `invalid key to 'next'`, and
-- where `i + t->sizearray` or the `i++` behind it is no `int`.
abbrev pub behind_node : ℕ → Search → Option ℕ
behind_node size (at i) = if ltb (suc (i + size)) (2 ^ 31) then some (suc (i + size)) else none
behind_node size missing = none
behind_node size endless = none

-- A loop returns the entry of this round, if it has one, or goes on.
abbrev pub first_of : {A : Type 0} → Option A → Option A → Option A
first_of (some e) rest = some e
first_of none rest = rest

-- The entry of a slot of the array part.
abbrev pub slot_entry : {K V : Type 0} → (ℕ → K) → LuaTable K V → ℕ → Option (K × V)
slot_entry number t i = elim (t.array i) [ none ↦ none | some v ↦ some (number (suc i), v) ]

module _ {K V : Type 0} (index : K → ℕ) (equal : K → K → Bool) (home : ℕ → K → ℕ)
    (number : ℕ → K) where
  -- `findindex`, with one more than it gives, as `luaH_next` goes on.
  unfoldable pub find_index : LuaTable K V → Option K → Option ℕ
  find_index t none = some 0
  find_index t (some k) =
      let searched = behind_node t.sizearray (find_key equal (home t.hash.size) t.hash k) in
      if in_array index t k then some (index k) else searched

  -- The loop on the hash part, with the rounds that are left.
  unfoldable pub next_node : LuaTable K V → ℕ → ℕ → Option (K × V)
  next_node t zero i = none
  next_node t (suc f) i = first_of (node_item t.hash i) (next_node t f (suc i))

  -- The loop on the array part, with the rounds that are left, and then the hash part.
  unfoldable pub next_slot : LuaTable K V → ℕ → ℕ → Option (K × V)
  next_slot t zero i = next_node t (t.hash.size - (i - t.sizearray)) (i - t.sizearray)
  next_slot t (suc f) i = first_of (slot_entry number t i) (next_slot t f (suc i))

  -- What `luaH_next` finds from an index on.
  abbrev pub next_from : LuaTable K V → Option ℕ → Option (Option (K × V))
  next_from t none = none
  next_from t (some i) = some (next_slot t (t.sizearray - i) i)

  -- `luaH_next`: none for an error, and no entry at the end.
  unfoldable pub luah_next : LuaTable K V → Option K → Option (Option (K × V))
  luah_next t key = next_from t (find_index t key)

  abbrev pub with_entry : K × V → Option (List (K × V)) → Option (List (K × V))
  with_entry e none = none
  with_entry e (some es) = some (e ∷ es)

  abbrev pub go_on : Option (Option (K × V)) → (K → Option (List (K × V))) → Option (List (K × V))
  go_on none rest = none
  go_on (some none) rest = some []
  go_on (some (some (k, v))) rest = with_entry (k, v) (rest k)

  -- A traversal by `luaH_next` from a key on, with the calls that are left; none for an error or if they are too few.
  unfoldable pub traverse : ℕ → LuaTable K V → Option K → Option (List (K × V))
  traverse zero t key = none
  traverse (suc f) t key = go_on (luah_next t key) (λ k. traverse f t (some k))
