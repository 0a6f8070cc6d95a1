-- ===== src/Lua/Nodes.antt =====
-- lua515/ltable.c: the node vector of a table, a chained scatter table with Brent's variation. `equal` is
-- `luaO_rawequalObj` on two keys and `home` the main position of a key in a vector of the size. A
-- pointer to a node is its index, and `nil` is none. No key is dead: the collector is not modelled.
pub mod Links
pub mod Over
pub mod Behind
pub mod Moved
pub mod Walks
pub mod Entries
pub mod Insert
pub mod Setting
use lua_engine.Base.{
  ℕ, zero, suc, ◌+◌, ◌-◌, Bool, true, false, ◌||◌, Option, none, some, ◌==◌, if◌then◌else◌,
}

pub record Node (K V : Type 0) : Type 0 where
  pub key : Option K
  pub value : Option V
  pub next : Option ℕ

-- The fields `node`, `lsizenode` and `lastfree` of `Table`, and whether the vector is `dummynode`.
pub record Vector (K V : Type 0) : Type 0 where
  pub node : ℕ → Node K V
  pub size : ℕ
  pub lastfree : ℕ
  pub is_dummy : Bool

-- What a walk along a chain gives: the node found, none, or the end of the fuel.
pub data Search : Type 0 where
  at : ℕ → Search
  missing endless : Search

-- `newkey` up to its call of `rehash`: the vector and the index of the key's node, a vector that is
-- full, or a chain that is broken.
pub data Placement (K V : Type 0) : Type 0 where
  placed : Vector K V → ℕ → Placement K V
  full broken : Placement K V

abbrev pub is_some : {A : Type 0} → Option A → Bool
is_some none = false
is_some (some a) = true

module _ {K V : Type 0} where
  unfoldable pub put : (ℕ → Node K V) → ℕ → Node K V → ℕ → Node K V
  put t i n k = if k == i then n else t k

  -- A node as `setnodevector` makes it, and `dummynode`.
  abbrev pub empty_node : Node K V
  empty_node = record { key = none; value = none; next = none }

  -- `setnodevector`, for a size that is 0 or already a power of two.
  abbrev pub new_vector : ℕ → Vector K V
  new_vector zero = record { node = λ _. empty_node; size = 1; lastfree = 0; is_dummy = true }
  new_vector (suc n) = record {
    node = λ _. empty_node;
    size = suc n;
    lastfree = suc n;
    is_dummy = false;
  }

  abbrev pub with_next : Node K V → ℕ → Node K V
  with_next n j = record n { next = some j }

  abbrev pub with_key : Node K V → K → Node K V
  with_key n k = record n { key = some k }

  abbrev pub with_value : Node K V → Option V → Node K V
  with_value n v = record n { value = v }

  abbrev pub store : Vector K V → ℕ → Option V → Vector K V
  store h i v = record h { node = put h.node i (with_value (h.node i) v) }

  -- `getfreepos`: the free node, if any, and where `lastfree` stops.
  unfoldable pub free_loop : (ℕ → Node K V) → ℕ → Option ℕ × ℕ
  free_loop t zero = (none, 0)
  free_loop t (suc k) = let rest = free_loop t k in if is_some (t k).key then rest else (some k, k)

  -- The `while` of `newkey`: the node before `mp` in the chain.
  unfoldable pub previous : ℕ → (ℕ → Node K V) → ℕ → ℕ → Search
  previous zero t mp i = endless
  previous (suc f) t mp i = elim (t i).next [
    | none ↦ missing
    | some j ↦ let rest = previous f t mp j in if j == mp then at i else rest
  ]

  module _ (equal : K → K → Bool) (home : K → ℕ) where
    abbrev pub has_key : Node K V → K → Bool
    has_key n k = elim n.key [ none ↦ false | some k' ↦ equal k' k ]

    -- The `do`-`while` of `luaH_get`, `luaH_getstr` and `luaH_getnum`.
    unfoldable pub find : ℕ → (ℕ → Node K V) → K → ℕ → Search
    find zero t k i = endless
    find (suc f) t k i =
        let rest : Search = elim (t i).next [ none ↦ missing | some j ↦ find f t k j ] in
        if has_key (t i) k then at i else rest

    -- The search of `luaH_get` for a key in the node vector.
    unfoldable pub find_key : Vector K V → K → Search
    unfolding find
    find_key h k = find (suc h.size) h.node k (home k)

    -- The branch of `newkey` for a node that is in its main position: the free node comes behind it.
    abbrev pub place_behind : Vector K V → K → ℕ → ℕ → ℕ → Placement K V
    place_behind h k mp n last =
        let fresh : Node K V = record { key = some k; value = none; next = (h.node mp).next } in
        let tied = put h.node mp (with_next (h.node mp) n) in
        placed (record h { node = put tied n fresh; lastfree = last }) n

    -- The branch for one that is not: it moves to the free node, behind `prev`.
    abbrev pub place_moved : Vector K V → K → ℕ → ℕ → ℕ → ℕ → Placement K V
    place_moved h k mp n last prev =
        let tied = put h.node prev (with_next (h.node prev) n) in
        let moved = put tied n (tied mp) in
        let fresh : Node K V = record { key = some k; value = none; next = none } in
        placed (record h { node = put moved mp fresh; lastfree = last }) mp

    -- What `newkey` does with the node before the colliding one.
    unfoldable pub displace : Vector K V → K → ℕ → ℕ → Search → Placement K V
    unfolding put
    displace h k n last (at prev) = place_moved h k (home k) n last prev
    displace h k n last missing = broken
    displace h k n last endless = broken

    -- What it does with the key of the colliding node.
    unfoldable pub collide_with : Vector K V → K → ℕ → ℕ → Option K → Placement K V
    unfolding put displace previous
    collide_with h k n last none = broken
    collide_with h k n last (some k') =
        let move = displace h k n last (previous (suc h.size) h.node (home k) (home k')) in
        if home k' == home k then place_behind h k (home k) n last else move

    -- What it does with the free node.
    unfoldable pub collide : Vector K V → K → Option ℕ × ℕ → Placement K V
    unfolding collide_with
    collide h k (none, last) = full
    collide h k (some n, last) = collide_with h k n last (h.node (home k)).key

    -- `newkey`
    unfoldable pub newkey : Vector K V → K → Placement K V
    unfolding put free_loop collide
    newkey h k =
        let mp = home k in
        let colliding = collide h k (free_loop h.node h.lastfree) in
        let over = placed (record h { node = put h.node mp (with_key (h.node mp) k) }) mp in
        if is_some (h.node mp).value || h.is_dummy then colliding else over

    -- The value of a key, none for `luaO_nilobject` and for nil.
    unfoldable pub value_of : Vector K V → K → Option V
    unfolding find_key
    value_of h k = elim (find_key h k) [ at i ↦ (h.node i).value | missing ↦ none | endless ↦ none ]

    -- `luaH_set` and the assignment to what it returns, of nil where `v` is none. The result is none where
    -- `newkey` would call `rehash`.
    unfoldable pub set_key : Vector K V → K → Option V → Option (Vector K V)
    unfolding find_key newkey put
    set_key h k v = elim (find_key h k) [
      | at i ↦ some (store h i v)
      | missing ↦ elim (newkey h k) [
        | placed h' i ↦ some (store h' i v)
        | full ↦ none
        | broken ↦ none
      ]
      | endless ↦ none
    ]
