-- ===== src/Lua/Border.antt =====
-- lua515/ltable.c: `luaH_getn`, the length of a table. The present numbers are a test, `present`.
pub mod Search
pub mod Length
use lua_engine.Base.{
  ℕ, zero, suc, ◌+◌, ◌-◌, ◌*◌, ◌/◌, ◌%◌, ◌^◌, Bool, true, false, not, ◌&&◌, Option, none, some, ltb,
  if◌then◌else◌,
}
use lua_engine.Lua.Nodes.{is_some}
use lua_engine.Lua.Tables.{LuaTable, get}

-- `MAX_INT`, which is `INT_MAX - 2`.
abbrev pub max_int : ℕ
max_int = 2 ^ 31 - 3

-- The binary search of `luaH_getn` and of `unbound_search`, on `unsigned int`.
unfoldable pub binary_search : ℕ → (ℕ → Bool) → ℕ → ℕ → ℕ
binary_search zero present i j = i
binary_search (suc f) present i j =
    let m = (i + j) % 2 ^ 32 / 2 in
    let upper = binary_search f present m j in
    let lower = binary_search f present i m in
    if ltb 1 (j - i) then (if present m then upper else lower) else i

-- The linear search of `unbound_search`.
unfoldable pub linear_search : ℕ → (ℕ → Bool) → ℕ → Option ℕ
linear_search zero present i = none
linear_search (suc f) present i =
    let rest = linear_search f present (i + 1) in if present i then rest else some (i - 1)

-- As `unbound_search` calls it, on the numbers of an `int`.
unfoldable pub search_all : (ℕ → Bool) → Option ℕ
search_all present = linear_search (2 ^ 31) present 1

-- The first `while` of `unbound_search`, and what follows it.
unfoldable pub doubling : ℕ → (ℕ → Bool) → ℕ → ℕ → Option ℕ
doubling zero present i j = none
doubling (suc f) present i j =
    let j' = j * 2 % 2 ^ 32 in
    let rest = doubling f present j j' in
    let linear = search_all present in
    if present j
    then (if ltb max_int j' then linear else rest)
    else some (binary_search j present i j)

-- `unbound_search`
unfoldable pub unbound_search : (ℕ → Bool) → ℕ → Option ℕ
unfolding doubling
unbound_search present j = doubling 32 present j ((j + 1) % 2 ^ 32)

module _ {K V : Type 0} (index : K → ℕ) (equal : K → K → Bool) (home : ℕ → K → ℕ)
    (number : ℕ → K) where
  -- `luaH_getnum` finds a value.
  abbrev pub has_number : LuaTable K V → ℕ → Bool
  has_number t j = is_some (get index equal home t (number j))

  abbrev pub has_slot : LuaTable K V → ℕ → Bool
  has_slot t j = is_some (t.array (j - 1))

  -- `luaH_getn`; none where the fuel of a search ran out.
  unfoldable pub luah_getn : LuaTable K V → Option ℕ
  luah_getn t =
      let j = t.sizearray in
      let inside = some (binary_search j (has_slot t) 0 j) in
      let unbound = unbound_search (has_number t) j in
      if ltb 0 j && not (has_slot t j)
      then inside
      else (if t.hash.is_dummy then some j else unbound)
